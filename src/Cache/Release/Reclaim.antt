-- ===== src/Cache/Release/Reclaim.antt =====
-- The last step of a release: the node leaves the table and its index joins the free list.
use libcorkipset.Prelude.{
  ℕ, ◌*◌, ◌<◌, ◌≡◌, ◌≢◌, refl, sym, ap, ◌∙◌, inl, inr, true, false, none, some, List, ◌∷◌, arith,
  Bool-cases, if◌then◌else◌, ne→==, contains,
}
use libcorkipset.Node.{Node, NodeTable, node_equals}
use libcorkipset.Node.Equality.{node-Compatible}
use libcorkipset.Cache.{NodeCache, get_nonterminal_by_index, set_nonterminal_by_index, reclaim}
use libcorkipset.Cache.Memory.{
  get-set_self, get-set_ne, get-chunks, set-fields, set-only_chunks, set-same_chunks,
  Chunked-set_nonterminal,
}
use libcorkipset.Cache.Counting.{load-ok, store-ok}
use libcorkipset.Cache.Graph.{Content, cell, Graph}
use libcorkipset.Cache.Invariant.{Invariant}
use libcorkipset.Cache.Invariant.Recount.{FreeChain-frame}

module _ ⦃T : NodeTable⦄ where
  module _ (c : NodeCache) (g : Graph) (r : ℕ → ℕ) (free : List ℕ) (i : ℕ) (k : Content)
      (inv : Invariant c g r free) (gone : g i ≡ none) (new : contains free i ≡ false)
      (below : i < c.largest_index) (at : get_nonterminal_by_index c i ≡ some (cell k 0))
      (owned : (key : Node) (j : ℕ) (m : Content)
        → g j ≡ some m
        → T.table.get c.node_cache key ≡ some (j * 2)
        → node_equals (cell k 0) key ≡ false) where
    abbrev freed : NodeCache
    freed = set_nonterminal_by_index c i (cell k c.free_list)

    -- The cache with the index at the head of its free list.
    abbrev pub reclaimed : NodeCache
    reclaimed = record c {
      chunks = freed.chunks;
      free_list = i;
      node_cache = T.table.delete c.node_cache (cell k 0);
    }

    pub reclaim-run : reclaim i c ≡ some (tt, reclaimed)
    unfolding reclaim
    reclaim-run =
        let c1 = record c { node_cache = T.table.delete c.node_cache (cell k 0) } in
        let at1 : get_nonterminal_by_index c1 i ≡ some (cell k 0) = get-chunks c c1 i refl ∙ at in
        rw
          (
            load-ok c i at,
            store-ok c1 i (cell k c.free_list) at1,
            set-only_chunks c1 i (cell k c.free_list) at1,
          )
          (ap (λ (l : List (List Node)). some (tt, record reclaimed { chunks = l }))
            (set-same_chunks c c1 i (cell k c.free_list) refl at))

    read-free : get_nonterminal_by_index reclaimed i ≡ some (cell k c.free_list)
    read-free = get-chunks freed reclaimed i refl ∙ get-set_self c i (cell k c.free_list) at

    pub read-other :
        (j : ℕ) → i ≢ j → get_nonterminal_by_index reclaimed j ≡ get_nonterminal_by_index c j
    read-other j ne =
        get-chunks freed reclaimed j refl ∙ get-set_ne c i (cell k c.free_list) at j ne

    get-reclaimed :
        (key : Node)
        → T.table.get reclaimed.node_cache key
          ≡ (if node_equals (cell k 0) key then none else T.table.get c.node_cache key)
    get-reclaimed key =
        T.table.get-delete (node-Compatible T.hash_variable) c.node_cache (cell k 0) key

    -- What is left in the table was there, under other contents.
    pub table-reclaimed :
        (key : Node) (id : ℕ)
        → T.table.get reclaimed.node_cache key ≡ some id
        → (T.table.get c.node_cache key ≡ some id) × (node_equals (cell k 0) key ≡ false)
    table-reclaimed key id e = elim (Bool-cases (node_equals (cell k 0) key)) [
      | inl same ↦ let no : none ≡ some id = rw same at (sym (get-reclaimed key) ∙ e) in absurd (cc)
      | inr ne ↦ ((rw ne at (sym (get-reclaimed key) ∙ e)), ne)
    ]

    used-ne : (j : ℕ) (m : Content) → g j ≡ some m → i ≢ j
    used-ne j m e p = cc

    pub reclaim-Invariant : Invariant reclaimed g r (i ∷ free)
    reclaim-Invariant =
        let (f0, f1, f2, f3) = set-fields c i (cell k c.free_list) at in
        record {
          chunked = Chunked-set_nonterminal c i (cell k c.free_list) at inv.chunked;
          room = omega (arith, f0, inv.room);
          small = inv.small;
          held = λ j m e.
              let h = inv.held j m e in
              record {
                below = h.below;
                small = h.small;
                at = read-other j (used-ne j m e) ∙ h.at;
                entry = λ a.
                    get-reclaimed (cell m a)
                    ∙ (rw (owned (cell m a) j m e (h.entry a)) (h.entry a));
              };
          dead = inv.dead;
          irredundant = inv.irredundant;
          low_later = inv.low_later;
          high_later = inv.high_later;
          chain = (
            cell k c.free_list,
            refl,
            below,
            gone,
            new,
            read-free,
            FreeChain-frame c reclaimed c.free_list free (omega arith)
                (λ j m unused. (unused, read-other j (λ p. (let out = new in ground arith))))
                inv.chain,
          );
          entries = λ key id e.
              let (old, ne) = table-reclaimed key id e in
              let (j, n, en) = inv.entries key id old in
              let other : i ≢ j = λ p.
                (let same = en.same in
                  let here : get_nonterminal_by_index c i ≡ some n = rw p en.at in
                  let alike : n ≡ cell k 0 = cc in
                  let yes : node_equals (cell k 0) key ≡ true = rw alike at same in cc) in
              (
                j,
                n,
                record {
                  is_id = en.is_id;
                  below = en.below;
                  at = read-other j other ∙ en.at;
                  same = en.same;
                  not_free = rw (ne→== i j other) en.not_free;
                },
              );
        }
