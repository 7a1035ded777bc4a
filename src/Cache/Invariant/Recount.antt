-- ===== src/Cache/Invariant/Recount.antt =====
-- Writes that change only the reference count of a node in use.
use libcorkipset.Prelude.{
  ℕ, ◌≤◌, ◌<◌, ◌≡◌, ◌≢◌, sym, ap, ◌∙◌, inl, inr, true, none, some, List, [], ◌∷◌, arith, eq-cases,
  contains,
}
use libcorkipset.Node.{Node, NodeTable, node_equals}
use libcorkipset.NodeId.{word}
use libcorkipset.Cache.{NodeCache, get_nonterminal_by_index, set_nonterminal_by_index}
use libcorkipset.Cache.Memory.{get-set_self, get-set_ne, Chunked-set_nonterminal, set-fields}
use libcorkipset.Cache.Graph.{Content, cell, Graph, refs}
use libcorkipset.Cache.Graph.Count.{refs-congr}
use libcorkipset.Cache.Invariant.{FreeChain, Entry, Invariant}

module _ ⦃T : NodeTable⦄ where
  -- The free list is not affected by a change elsewhere.
  pub FreeChain-frame :
      (c c' : NodeCache) {g g' : Graph} (head : ℕ) (free : List ℕ)
      → c.largest_index ≤ c'.largest_index
      → ((i : ℕ)
          → contains free i ≡ true
          → g i ≡ none
          → (g' i ≡ none) × (get_nonterminal_by_index c' i ≡ get_nonterminal_by_index c i))
      → FreeChain c g head free
      → FreeChain c' g' head free
  FreeChain-frame c c' head [] le same h = h
  FreeChain-frame c c' head (i ∷ free) le same (n, at, below, unused, once, here, rest) =
      let (unused', same') = same i (ground arith) unused in
      (
        n,
        at,
        omega arith,
        unused',
        once,
        same' ∙ here,
        FreeChain-frame c c' n.refcount free le (λ j m. same j (ground arith)) rest,
      )

  module _ {c : NodeCache} {g : Graph} {r : ℕ → ℕ} {free : List ℕ} (inv : Invariant c g r free)
      (i : ℕ) (k : Content) (here : g i ≡ some k) (r' : ℕ → ℕ) (count : ℕ)
      (others : (j : ℕ) → i ≢ j → r' j ≡ r j) (this : refs c.largest_index g r' i ≡ count)
      (fits : count < word) where
    c' : NodeCache
    c' = set_nonterminal_by_index c i (cell k count)

    recounted-at :
        (j : ℕ) (m : Content)
        → g j ≡ some m
        → get_nonterminal_by_index c' j ≡ some (cell m (refs c.largest_index g r' j))
    unfolding c'
    recounted-at j m e = elim (eq-cases i j) [
      | inl p ↦
          let same : k ≡ m = cc in
          rw (← p, ← same, this) (get-set_self c i (cell k count) (inv.held i k here).at)
      | inr ne ↦
          get-set_ne c i (cell k count) (inv.held i k here).at j ne
          ∙ (inv.held j m e).at
          ∙ ap (λ n. some (cell m n)) (sym (refs-congr c.largest_index g r' r j (others j ne)))
    ]

    recounted-small : (j : ℕ) (m : Content) → g j ≡ some m → refs c.largest_index g r' j < word
    recounted-small j m e = elim (eq-cases i j) [
      | inl p ↦ rw (← p, this) fits
      | inr ne ↦ rw (refs-congr c.largest_index g r' r j (others j ne)) (inv.held j m e).small
    ]

    recounted-dead : (j : ℕ) → g j ≡ none → refs c.largest_index g r' j ≡ 0
    recounted-dead j e = elim (eq-cases i j) [
      | inl p ↦ absurd (cc)
      | inr ne ↦ refs-congr c.largest_index g r' r j (others j ne) ∙ inv.dead j e
    ]

    same_fields :
        {n : Node} (key : Node)
        → n ≡ cell k (refs c.largest_index g r i)
        → node_equals n key ≡ true
        → node_equals (cell k count) key ≡ true
    unfolding node_equals
    same_fields key p h = rw p at h

    cell_of :
        {j : ℕ} {n : Node}
        → i ≡ j
        → get_nonterminal_by_index c j ≡ some n
        → n ≡ cell k (refs c.largest_index g r i)
    cell_of p e = let old = (inv.held i k here).at in cc

    recounted-Entry :
        (key : Node) (id : ℕ)
        → T.table.get c.node_cache key ≡ some id
        → (j : ℕ) × (n : Node) × Entry c' free key id j n
    unfolding c'
    recounted-Entry key id e =
        let (j, n, en) = inv.entries key id e in
        let (f0, f1, f2, f3) = set-fields c i (cell k count) (inv.held i k here).at in
        elim (eq-cases i j) [
          | inl p ↦ (
            j,
            cell k count,
            record {
              is_id = en.is_id;
              below = rw f1 en.below;
              at = rw (← p) (get-set_self c i (cell k count) (inv.held i k here).at);
              same = same_fields key (cell_of p en.at) en.same;
              not_free = en.not_free;
            },
          )
          | inr ne ↦ (
            j,
            n,
            record {
              is_id = en.is_id;
              below = rw f1 en.below;
              at = get-set_ne c i (cell k count) (inv.held i k here).at j ne ∙ en.at;
              same = en.same;
              not_free = en.not_free;
            },
          )
        ]

    -- The cache after the write, with the references that callers now hold.
    pub recount : Invariant (set_nonterminal_by_index c i (cell k count)) g r' free
    unfolding c' set_nonterminal_by_index
    recount =
        let (f0, f1, f2, f3) = set-fields c i (cell k count) (inv.held i k here).at in
        record {
          chunked = Chunked-set_nonterminal c i (cell k count) (inv.held i k here).at inv.chunked;
          room = rw (f0, f1) inv.room;
          small = rw f1 inv.small;
          held = λ j m e. record {
            below = rw f1 (inv.held j m e).below;
            small = rw f1 (recounted-small j m e);
            at = rw f1 (recounted-at j m e);
            entry = λ n. rw f3 ((inv.held j m e).entry n);
          };
          dead = λ j e. rw f1 (recounted-dead j e);
          irredundant = inv.irredundant;
          low_later = inv.low_later;
          high_later = inv.high_later;
          chain = rw f2 (
              FreeChain-frame c c' c.free_list free (omega (arith, f1))
                (λ j m unused.
                  (unused, get-set_ne c i (cell k count) (inv.held i k here).at j (λ p. cc)))
                inv.chain);
          entries = λ key id e. recounted-Entry key id (rw f3 at e);
        }
