-- ===== src/Cache/Alloc.antt =====
-- `ipset_node_cache_alloc_node`: a fresh index, or the first of the free list.
use libcorkipset.Prelude.{
  ℕ, suc, ◌+◌, ◌*◌, ◌/◌, ◌%◌, ◌^◌, ◌≤◌, ◌<◌, ◌≡◌, ◌≢◌, refl, sym, ap, ◌∙◌, subst, inl, inr, false,
  none, some, List, [], ◌∷◌, ◌++◌, arith, leb, eq→==, ne→==, Bool-cases, Option-cases, length,
  length-append, contains, replicate,
}
use libcorkipset.Node.{Node, NodeTable}
use libcorkipset.NodeId.{word}
use libcorkipset.Cache.{
  NodeCache, null_index, chunk_size, zero_node, chunk_index, get_nonterminal_by_index, alloc_fresh,
  alloc_reused, alloc_node,
}
use libcorkipset.Cache.Memory.{Chunked, Chunked-append, get-append, get-chunks}
use libcorkipset.Cache.Counting.{load-ok}
use libcorkipset.Cache.Graph.{cell, Graph, refs}
use libcorkipset.Cache.Graph.Count.{refs-suc}
use libcorkipset.Cache.Invariant.{FreeChain, Invariant}
use libcorkipset.Cache.Invariant.Recount.{FreeChain-frame}

module _ ⦃T : NodeTable⦄ where
  -- An index that nothing refers to, and the cache that has handed it out.
  pub record Allocated (c : NodeCache) (g : Graph) (r : ℕ → ℕ) (i : ℕ) (c' : NodeCache)
      (free : List ℕ) : Type 0 where
    pub unused : g i ≡ none
    pub below : i < c'.largest_index
    pub grown : c'.largest_index ≤ c.largest_index + 1
    pub not_free : contains free i ≡ false
    pub table : c'.node_cache ≡ c.node_cache
    pub unnamed : (key : Node) (id : ℕ) → T.table.get c.node_cache key ≡ some id → id ≢ i * 2
    pub same_refs : (j : ℕ) → refs c'.largest_index g r j ≡ refs c.largest_index g r j
    pub inv : Invariant c' g r free

  alloc_reused-run :
      (c : NodeCache) (i : ℕ) (n : Node)
      → c.free_list ≡ i
      → get_nonterminal_by_index c i ≡ some n
      → alloc_reused c ≡ some (i, record c { free_list = n.refcount })
  unfolding alloc_reused
  alloc_reused-run c i n e h =
      rw (load-ok c c.free_list (ap (get_nonterminal_by_index c) e ∙ h))
        (ap (λ j. some (j, record c { free_list = n.refcount })) e)

  module _ {c : NodeCache} {g : Graph} {r : ℕ → ℕ} {free : List ℕ}
      (inv : Invariant c g r free) where
    -- Nothing lies at or past the largest index.
    unused_past : (i : ℕ) → c.largest_index ≤ i → g i ≡ none
    unused_past i le = elim (Option-cases (g i)) [
      | inl e ↦ e
      | inr (k, e) ↦ let h = (inv.held i k e).below in absurd (omega arith)
    ]

    -- The cache that has handed out its next index, with the chunks that it then has.
    abbrev fresh : List (List Node) → NodeCache
    fresh chunks = record c { chunks = chunks; largest_index = c.largest_index + 1 }

    module _ (chunks : List (List Node)) (chunked : Chunked chunks)
        (room : c.largest_index + 1 ≤ chunk_size * length chunks) (small : c.largest_index < 2 ^ 31)
        (same : (i : ℕ)
          → i < c.largest_index
          → get_nonterminal_by_index (fresh chunks) i ≡ get_nonterminal_by_index c i) where
      refs_same : (i : ℕ) → refs (c.largest_index + 1) g r i ≡ refs c.largest_index g r i
      refs_same i =
          let e : c.largest_index + 1 ≡ suc c.largest_index = omega arith in
          rw e (refs-suc c.largest_index g r i (unused_past c.largest_index (omega arith)))

      fresh_lt_free :
          (head : ℕ) (l : List ℕ) → FreeChain c g head l → FreeChain (fresh chunks) g head l
      fresh_lt_free head [] h = h
      fresh_lt_free head (i ∷ l) (n, at, below, unused, once, here, rest) =
          (n, at, omega arith, unused, once, same i below ∙ here, fresh_lt_free n.refcount l rest)

      below_of_free :
          (head : ℕ) (l : List ℕ) → FreeChain c g head l → contains l c.largest_index ≡ false
      below_of_free head [] h = refl
      below_of_free head (i ∷ l) (n, at, below, unused, once, here, rest) =
          ground (arith, below_of_free n.refcount l rest)

      fresh-Allocated : Allocated c g r c.largest_index (fresh chunks) free
      fresh-Allocated = record {
        unused = unused_past c.largest_index (omega arith);
        below = omega arith;
        grown = omega arith;
        not_free = below_of_free c.free_list free inv.chain;
        table = refl;
        unnamed = λ key id e p.
            let (j, n, en) = inv.entries key id e in
            let b = en.below in let q = en.is_id in omega arith;
        same_refs = refs_same;
        inv = record {
          chunked = chunked;
          room = room;
          small = omega arith;
          held = λ i k e.
              let h = inv.held i k e in
              record {
                below = let b = h.below in omega arith;
                small = rw (refs_same i) h.small;
                at = same i h.below ∙ h.at ∙ ap (λ m. some (cell k m)) (sym (refs_same i));
                entry = h.entry;
              };
          dead = λ i e. refs_same i ∙ inv.dead i e;
          irredundant = inv.irredundant;
          low_later = inv.low_later;
          high_later = inv.high_later;
          chain = fresh_lt_free c.free_list free inv.chain;
          entries = λ key id e.
              let (j, n, en) = inv.entries key id e in
              (
                j,
                n,
                record {
                  is_id = en.is_id;
                  below = let b = en.below in omega arith;
                  at = same j en.below ∙ en.at;
                  same = en.same;
                  not_free = en.not_free;
                },
              );
        };
      }

    -- The next index is handed out, in a new chunk if the others are full.
    alloc_fresh-ok :
        c.largest_index < 2 ^ 31
        → (c' : NodeCache) × (alloc_fresh c ≡ some (c.largest_index, c'))
          × Allocated c g r c.largest_index c' free
    unfolding alloc_fresh chunk_index
    alloc_fresh-ok small =
        let wrap : (c.largest_index + 1) % word ≡ c.largest_index + 1 = omega arith in
        let room = inv.room in
        elim (Bool-cases (leb (length c.chunks) (c.largest_index / chunk_size))) [
          | inl full ↦
              let chunks = c.chunks ++ replicate chunk_size zero_node ∷ [] in
              let count : length chunks ≡ length c.chunks + 1 =
                length-append c.chunks (replicate chunk_size zero_node ∷ []) in
              (
                fresh chunks,
                rw (wrap, full),
                fresh-Allocated chunks (Chunked-append c.chunks inv.chunked) (omega arith) small
                    (λ i b.
                      get-append (record c { largest_index = c.largest_index + 1 })
                        (replicate chunk_size zero_node) i (omega arith)
                      ∙ get-chunks c (record c { largest_index = c.largest_index + 1 }) i refl),
              )
          | inr left ↦ (
            fresh c.chunks,
            rw (wrap, left),
            fresh-Allocated c.chunks inv.chunked (ground arith) small
                (λ i b. get-chunks c (fresh c.chunks) i refl),
          )
        ]

    module _ (head : ℕ) (rest : List ℕ) (split : free ≡ head ∷ rest) where
      -- The first of the free list is handed out.
      alloc_reused-ok :
          (c' : NodeCache) × (alloc_reused c ≡ some (head, c')) × Allocated c g r head c' rest
      alloc_reused-ok =
          let chain : FreeChain c g c.free_list (head ∷ rest) =
            subst (λ l. FreeChain c g c.free_list l) split inv.chain in
          let (n, at, below, unused, once, here, tail) = chain in
          let c' = record c { free_list = n.refcount } in
          let still = λ (i : ℕ). get-chunks c c' i refl in
          (
            c',
            alloc_reused-run c head n at here,
            record {
              unused = unused;
              below = below;
              grown = omega arith;
              not_free = once;
              table = refl;
              unnamed = λ key id e p.
                  let (j, m, en) = inv.entries key id e in
                  let q = en.is_id in
                  let same : head ≡ j = omega arith in
                  let out = en.not_free in ground (arith, split);
              same_refs = λ j. refl;
              inv = record {
                chunked = inv.chunked;
                room = inv.room;
                small = inv.small;
                held = λ i k e.
                    let h = inv.held i k e in
                    record {
                      below = h.below;
                      small = h.small;
                      at = still i ∙ h.at;
                      entry = h.entry;
                    };
                dead = inv.dead;
                irredundant = inv.irredundant;
                low_later = inv.low_later;
                high_later = inv.high_later;
                chain =
                    FreeChain-frame c c' n.refcount rest (omega arith) (λ i m e. (e, still i)) tail;
                entries = λ key id e.
                    let (j, m, en) = inv.entries key id e in
                    (
                      j,
                      m,
                      record {
                        is_id = en.is_id;
                        below = en.below;
                        at = still j ∙ en.at;
                        same = en.same;
                        not_free = let out = en.not_free in ground (arith, split);
                      },
                    );
              };
            },
          )

  module _ {c : NodeCache} {g : Graph} {r : ℕ → ℕ} (small : c.largest_index < 2 ^ 31) where
    -- On a well-formed cache with fewer than 2^31 indices, `alloc_node` gives an index that no node
    -- in use, no reference, no entry of the table and no place of the free list names, from the
    -- free list or fresh, and the cache stays well formed.
    pub alloc_node-ok :
        (free : List ℕ)
        → Invariant c g r free
        → (i : ℕ) × (c' : NodeCache) × (free' : List ℕ) × (alloc_node c ≡ some (i, c'))
          × Allocated c g r i c' free'
    unfolding alloc_node
    alloc_node-ok [] inv =
        let (c', run, got) = alloc_fresh-ok inv small in
        (c.largest_index, c', [], rw (eq→== c.free_list null_index inv.chain) run, got)
    alloc_node-ok (head ∷ rest) inv =
        let (c', run, got) = alloc_reused-ok inv head rest refl in
        let b : head < 2 ^ 31 = omega (arith, inv.chain.2) in
        (
          head,
          c',
          rest,
          rw (ne→== c.free_list null_index (λ e. omega (arith, inv.chain.1, b))) run,
          got,
        )
