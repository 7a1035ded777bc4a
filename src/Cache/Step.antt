-- ===== src/Cache/Step.antt =====
-- Steps on the cache in sequence: postconditions of a bind, and what is left of the room.
use libcorkipset.Prelude.{ℕ, ◌+◌, ◌≤◌, Option, List, arith, Returns, returns}
use libcorkipset.Node.{NodeTable}
use libcorkipset.Cache.{NodeCache, M, continue}
use libcorkipset.Cache.Graph.{Graph, hold}
use libcorkipset.Cache.Outcome.{Outcome}
use libcorkipset.Cache.Nonterminal.{Ready}

module _ ⦃T : NodeTable⦄ where
  pub bind :
      {A B : Type 0} {P : A → NodeCache → Type 0} {Q : B → NodeCache → Type 0}
      {r : Option (A × NodeCache)} (k : A → M B)
      → Returns P r
      → ((a : A) (c : NodeCache) → P a c → Returns Q (k a c))
      → Returns Q (continue r k)
  bind k (returns p) next = next _ _ p

  pub Ready-le :
      {a b : ℕ} {c : NodeCache} {g : Graph} {r : ℕ → ℕ} {free : List ℕ}
      → a ≤ b
      → Ready b c g r free
      → Ready a c g r free
  Ready-le le ready = record {
    inv = ready.inv;
    settled = ready.settled;
    indices = let h = ready.indices in omega arith;
    counts = λ i. omega (arith, ready.counts i);
  }

  -- An operation uses its budget, and the rest is left.
  pub Ready-after :
      {a b n id : ℕ} {c c' : NodeCache} {g : Graph} {r0 r : ℕ → ℕ} {free : List ℕ}
      → a + b ≤ n
      → Ready n c g r0 free
      → (out : Outcome a c g r0 r id c') → Ready b c' out.graph (hold id r) out.free
  Ready-after le ready out = record {
    inv = out.inv;
    settled = out.settled;
    indices = let h = ready.indices in let k = out.grown in omega arith;
    counts = λ i. omega (arith, ready.counts i, out.bounded i);
  }
