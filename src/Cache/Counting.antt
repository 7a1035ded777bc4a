-- ===== src/Cache/Counting.antt =====
-- `ipset_node_incref`, and `ipset_node_decref` where other references remain.
use libcorkipset.Prelude.{
  ℕ, suc, ◌+◌, ◌-◌, ◌*◌, ◌%◌, ◌<◌, ◌≡◌, ◌≢◌, refl, sym, ◌∙◌, some, List, arith, ==-refl, ne→==,
}
use libcorkipset.Node.{Node, NodeTable}
use libcorkipset.NodeId.{word, get_type, nonterminal_value}
use libcorkipset.Cache.{
  NodeCache, get_nonterminal_by_index, set_nonterminal_by_index, load, store, incref, decrement,
  decref,
}
use libcorkipset.Cache.Memory.{set-fields}
use libcorkipset.Cache.Graph.{Content, cell, Graph, refs, hold}
use libcorkipset.Cache.Graph.Count.{refs-hold}
use libcorkipset.Cache.Invariant.{Invariant, Settled}
use libcorkipset.Cache.Invariant.Recount.{recount}

-- The id of a nonterminal is even and gives back its index.
pub even-parts : (i : ℕ) → (get_type (i * 2) ≡ 0) × (nonterminal_value (i * 2) ≡ i)
unfolding get_type nonterminal_value
even-parts i = omega arith

pub odd-type : (v : ℕ) → get_type (v * 2 + 1) ≡ 1
unfolding get_type
odd-type v = omega arith

-- A reference to one node is none to another.
pub hold-ne : (i : ℕ) (r : ℕ → ℕ) (j : ℕ) → i ≢ j → hold (i * 2) r j ≡ r j
hold-ne i r j ne = rw (ne→== (i * 2) (j * 2) (λ p. ne (omega arith))) (omega arith)

pub hold-terminal : (v : ℕ) (r : ℕ → ℕ) (j : ℕ) → hold (v * 2 + 1) r j ≡ r j
hold-terminal v r j = rw (ne→== (v * 2 + 1) (j * 2) (λ p. omega arith)) (omega arith)

module _ ⦃T : NodeTable⦄ where
  pub load-ok :
      (c : NodeCache) (i : ℕ) {n : Node}
      → get_nonterminal_by_index c i ≡ some n
      → load i c ≡ some (n, c)
  unfolding load
  load-ok c i h = rw (h, load)

  pub store-ok :
      (c : NodeCache) (i : ℕ) {m : Node} (n : Node)
      → get_nonterminal_by_index c i ≡ some m
      → store i n c ≡ some (tt, set_nonterminal_by_index c i n)
  unfolding store
  store-ok c i n h = rw (load-ok c i h)

  -- The cache with the count of index `i` replaced.
  abbrev pub counted : NodeCache → ℕ → Content → ℕ → NodeCache
  counted c i k count = set_nonterminal_by_index c i (cell k count)

  module _ {c : NodeCache} {g : Graph} {free : List ℕ} (i : ℕ) (k : Content)
      (here : g i ≡ some k) where
    pub Settled-set :
        (n : Node) {r : ℕ → ℕ}
        → Invariant c g r free
        → Settled c g
        → Settled (set_nonterminal_by_index c i n) g
    Settled-set n inv quiet key id e =
        let (f0, f1, f2, f3) = set-fields c i n (inv.held i k here).at in quiet key id (rw f3 at e)

    module _ (r : ℕ → ℕ) where
      -- In a well-formed cache with a count that does not overflow, `incref` of a node in use gives
      -- its id, adds one to its count, and leaves a cache that is well formed for one more
      -- reference.
      pub incref-ok :
          Invariant c g r free
          → refs c.largest_index g r i + 1 < word
          → (incref (i * 2) c ≡ some (i * 2, counted c i k (refs c.largest_index g r i + 1)))
            × Invariant (counted c i k (refs c.largest_index g r i + 1)) g (hold (i * 2) r) free
      unfolding incref
      incref-ok inv fits =
          let at = (inv.held i k here).at in
          let (p, q) = even-parts i in
          let count : (refs c.largest_index g r i + 1) % word ≡ refs c.largest_index g r i + 1 =
            omega arith in
          (
            rw (
              p,
              q,
              load-ok c i at,
              count,
              store-ok c i (cell k (refs c.largest_index g r i + 1)) at,
            ),
            recount inv i k here (hold (i * 2) r) (refs c.largest_index g r i + 1)
                (λ j ne. hold-ne i r j ne)
                (refs-hold c.largest_index (i * 2) g r i ∙ (rw (==-refl (i * 2)) (omega arith)))
                fits,
          )

      pub decrement-ok :
          Invariant c g (hold (i * 2) r) free
          → (decrement i c
              ≡ some (refs c.largest_index g r i, counted c i k (refs c.largest_index g r i)))
            × Invariant (counted c i k (refs c.largest_index g r i)) g r free
      unfolding decrement
      decrement-ok inv =
          let h = inv.held i k here in
          let held_count : refs c.largest_index g (hold (i * 2) r) i
              ≡ 1 + refs c.largest_index g r i =
            refs-hold c.largest_index (i * 2) g r i ∙ (rw (==-refl (i * 2))) in
          let small : 1 + refs c.largest_index g r i < word = rw held_count at h.small in
          let count : (refs c.largest_index g (hold (i * 2) r) i + word - 1) % word
              ≡ refs c.largest_index g r i =
            rw held_count (omega arith) in
          (
            rw (load-ok c i h.at, count, store-ok c i (cell k (refs c.largest_index g r i)) h.at),
            recount inv i k here r (refs c.largest_index g r i) (λ j ne. sym (hold-ne i r j ne))
                refl (omega arith),
          )

      -- A reference that is not the last one goes without a node being freed.
      pub decref-keeps :
          (fuel : ℕ)
          → Invariant c g (hold (i * 2) r) free
          → refs c.largest_index g r i ≢ 0
          → decref (suc fuel) (i * 2) c ≡ some (tt, counted c i k (refs c.largest_index g r i))
      unfolding decref
      decref-keeps fuel inv more =
          let (p, q) = even-parts i in
          rw (p, q, (decrement-ok inv).0, ne→== (refs c.largest_index g r i) 0 more)

  pub decref-terminal :
      (c : NodeCache) (fuel v : ℕ) → decref (suc fuel) (v * 2 + 1) c ≡ some (tt, c)
  unfolding decref
  decref-terminal c fuel v = rw (odd-type v)

  pub incref-terminal : (c : NodeCache) (v : ℕ) → incref (v * 2 + 1) c ≡ some (v * 2 + 1, c)
  unfolding incref
  incref-terminal c v = rw (odd-type v)
