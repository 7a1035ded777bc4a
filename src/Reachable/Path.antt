-- ===== src/Reachable/Path.antt =====
-- The nodes under a node of a graph.
use libcorkipset.Prelude.{
  ℕ, ◌+◌, ◌*◌, ◌/◌, ◌%◌, ◌≡◌, ◌≢◌, ◌⊎◌, inl, inr, sym, some, List, arith, eq-cases, Option-cases,
}
use libcorkipset.Node.{NodeTable}
use libcorkipset.Cache.{NodeCache}
use libcorkipset.Cache.Graph.{Content, Graph, refs}
use libcorkipset.Cache.Graph.Count.{low-refs, high-refs}
use libcorkipset.Cache.Invariant.{Invariant}

-- An id that the root leads to.
pub data Reaches (g : Graph) (root : ℕ) : ℕ → Type 0 where
  at_root : {id : ℕ} → id ≡ root → Reaches g root id
  to_low :
      {id i : ℕ} (k : Content)
      → Reaches g root (i * 2)
      → g i ≡ some k
      → id ≡ k.low
      → Reaches g root id
  to_high :
      {id i : ℕ} (k : Content)
      → Reaches g root (i * 2)
      → g i ≡ some k
      → id ≡ k.high
      → Reaches g root id

-- An id is that of a nonterminal or that of a terminal.
pub parity-cases : (id : ℕ) → ((j : ℕ) × (id ≡ j * 2)) ⊎ ((j : ℕ) × (id ≡ j * 2 + 1))
parity-cases id = elim (eq-cases (id % 2) 0) [
  | inl even ↦ inl (id / 2, omega arith)
  | inr odd ↦ inr (id / 2, omega arith)
]

-- A nonterminal in use that the root leads to.
abbrev pub Used : Graph → ℕ → ℕ → Type 0
Used g root id = (i : ℕ) × (k : Content) × (id ≡ i * 2) × (g i ≡ some k) × Reaches g root (i * 2)

module _ ⦃T : NodeTable⦄ {c : NodeCache} {g : Graph} {r : ℕ → ℕ} {free : List ℕ}
    (inv : Invariant c g r free) (root : ℕ) where
  referred-in_use : (j : ℕ) → refs c.largest_index g r j ≢ 0 → (m : Content) × (g j ≡ some m)
  referred-in_use j ne = elim (Option-cases (g j)) [
    | inl gone ↦ absurd (ne (inv.dead j gone))
    | inr found ↦ found
  ]

  -- The nonterminals among the children of a used node are used.
  pub low-Used :
      (i : ℕ) (k : Content)
      → g i ≡ some k
      → Reaches g root (i * 2)
      → (j : ℕ) → k.low ≡ j * 2
      → Used g root k.low
  low-Used i k here path j e =
      let (m, found) =
        referred-in_use j (low-refs c.largest_index g r i k (inv.held i k here).below here j e) in
      (j, m, e, found, to_low k path here (sym e))

  pub high-Used :
      (i : ℕ) (k : Content)
      → g i ≡ some k
      → Reaches g root (i * 2)
      → (j : ℕ) → k.high ≡ j * 2
      → Used g root k.high
  high-Used i k here path j e =
      let (m, found) =
        referred-in_use j (high-refs c.largest_index g r i k (inv.held i k here).below here j e) in
      (j, m, e, found, to_high k path here (sym e))
