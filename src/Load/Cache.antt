-- ===== src/Load/Cache.antt =====
-- A cache that is being loaded: every node is new, and its only reference is the one that made it.
use libcorkipset.Prelude.{
  ℕ, suc, ◌+◌, ◌*◌, ◌/◌, ◌%◌, ◌^◌, ◌≤◌, ◌<◌, ◌≡◌, ◌≢◌, inl, inr, refl, sym, ap, ◌∙◌, true, some,
  List, [], ◌∷◌, ◌++◌, leb, arith, eq→==, Bool-cases, length, length-append, get_elem?,
  get_elem?-snoc, get_elem?-append, get_elem?-append_last, lt-get_elem?, ne→==, Option-cases,
  replicate,
}
use libcorkipset.Node.{Node, NodeTable, node_equals}
use libcorkipset.Node.Equality.{node-Compatible, node_equals-fields}
use libcorkipset.NodeId.{word, nonterminal_node_id}
use libcorkipset.Cache.{
  NodeCache, null_index, chunk_size, zero_node, get_nonterminal_by_index, set_nonterminal_by_index,
  alloc_fresh, alloc_node, create, nonterminal, chunk_index,
}
use libcorkipset.Cache.Memory.{
  Chunked, Chunked-append, Chunked-set_nonterminal, get-append, get-below, get-chunks, get-set_self,
  get-set_ne, set-fields, set-only_chunks,
}
use libcorkipset.Cache.Counting.{store-ok}
use libcorkipset.Cache.Create.Run.{nonterminal_node_id-eq}
use libcorkipset.Cache.Graph.{Content, cell}

module _ ⦃T : NodeTable⦄ where
  -- Index `i` has the contents number `i` of a list.
  pub record Loading (c : NodeCache) (ks : List Content) : Type 0 where
    pub chunked : Chunked c.chunks
    pub room : c.largest_index ≤ chunk_size * length c.chunks
    pub count : c.largest_index ≡ length ks
    pub no_free : c.free_list ≡ null_index
    pub held :
        (i : ℕ) (k : Content)
        → get_elem? ks i ≡ some k
        → (i < length ks) × (get_nonterminal_by_index c i ≡ some (cell k 1))
    pub named :
        (key : Node) (id : ℕ)
        → T.table.get c.node_cache key ≡ some id
        → (i : ℕ) × (k : Content) × (get_elem? ks i ≡ some k) × (node_equals (cell k 1) key ≡ true)

  -- What the allocation of a fresh index leaves.
  record Grown (c c1 : NodeCache) : Type 0 where
    run : alloc_node c ≡ some (c.largest_index, c1)
    chunked : Chunked c1.chunks
    count : c1.largest_index ≡ suc c.largest_index
    room : c1.largest_index ≤ chunk_size * length c1.chunks
    no_free : c1.free_list ≡ null_index
    table : c1.node_cache ≡ c.node_cache
    same :
        (i : ℕ) → i < c.largest_index → get_nonterminal_by_index c1 i ≡ get_nonterminal_by_index c i

  alloc-Grown :
      (c : NodeCache) (ks : List Content)
      → Loading c ks
      → c.largest_index < 2 ^ 31
      → (c1 : NodeCache) × Grown c c1
  unfolding alloc_node alloc_fresh chunk_index
  alloc-Grown c ks l small =
      let wrap : (c.largest_index + 1) % word ≡ suc c.largest_index = omega arith in
      let room = l.room in
      let listed = eq→== c.free_list null_index l.no_free in
      elim (Bool-cases (leb (length c.chunks) (c.largest_index / chunk_size))) [
        | inl full ↦
            let chunk = replicate chunk_size zero_node in
            let longer = length-append c.chunks (chunk ∷ []) in
            (
              record c { chunks = c.chunks ++ chunk ∷ []; largest_index = suc c.largest_index },
              record {
                run = rw (listed, wrap, full);
                chunked = Chunked-append c.chunks l.chunked;
                count = refl;
                room = omega (arith, longer);
                no_free = l.no_free;
                table = refl;
                same = λ i lt.
                    get-append (record c { largest_index = suc c.largest_index }) chunk i
                      (omega arith)
                    ∙ get-chunks c (record c { largest_index = suc c.largest_index }) i refl;
              },
            )
        | inr left ↦ (
          record c { largest_index = suc c.largest_index },
          record {
            run = rw (listed, wrap, left);
            chunked = l.chunked;
            count = refl;
            room = ground arith;
            no_free = l.no_free;
            table = refl;
            same = λ i lt. get-chunks c (record c { largest_index = suc c.largest_index }) i refl;
          },
        )
      ]

  -- A node with new contents gets the next index.
  pub create-Loading :
      (c : NodeCache) (ks : List Content) (k : Content)
      → Loading c ks
      → length ks < 2 ^ 31
      → (c' : NodeCache) × (create k.variable k.low k.high c ≡ some (length ks * 2, c'))
        × Loading c' (ks ++ k ∷ [])
  unfolding create
  create-Loading c ks k l small =
      let (c1, w) = alloc-Grown c ks l (omega (arith, l.count)) in
      let new = c.largest_index in
      let (m, valid) = get-below c1 new w.chunked (omega (arith, w.room, w.count)) in
      let stored = set_nonterminal_by_index c1 new (cell k 1) in
      let (f0, f1, f2, f3) = set-fields c1 new (cell k 1) valid in
      let is_id : nonterminal_node_id new ≡ new * 2 =
        nonterminal_node_id-eq new (omega (arith, l.count)) in
      let c' = record c1 {
        chunks = stored.chunks;
        node_cache = T.table.put c1.node_cache (cell k 1) (new * 2);
      } in
      let longer = length-append ks (k ∷ []) in
      let put = λ (key : Node).
        T.table.get-put (node-Compatible T.hash_variable) c1.node_cache (cell k 1) key (new * 2) in
      (
        c',
        rw (
          w.run,
          store-ok c1 new (cell k 1) valid,
          is_id,
          set-only_chunks c1 new (cell k 1) valid,
          l.count,
        ),
        record {
          chunked = Chunked-set_nonterminal c1 new (cell k 1) valid w.chunked;
          room = omega (arith, f0, w.room);
          count = omega (arith, w.count, l.count, longer);
          no_free = w.no_free;
          held = λ i n at. elim (get_elem?-snoc ks k n i at) [
            | inl old ↦
                let (lt, here) = l.held i n old in
                (
                  omega (arith, longer),
                  get-chunks stored c' i refl
                      ∙ get-set_ne c1 new (cell k 1) valid i (λ e. omega (arith, l.count))
                      ∙ w.same i (omega (arith, l.count))
                      ∙ here,
                )
            | inr (e, same) ↦
                let place : new ≡ i = omega (arith, l.count) in
                (
                  omega (arith, longer),
                  get-chunks stored c' i refl
                      ∙ ap (get_nonterminal_by_index stored) (sym place)
                      ∙ get-set_self c1 new (cell k 1) valid
                      ∙ ap (λ n'. some (cell n' 1)) same,
                )
          ];
          named = λ key id e. elim (Bool-cases (node_equals (cell k 1) key)) [
            | inl same ↦ (length ks, k, get_elem?-append_last ks k (length ks) refl, same)
            | inr ne ↦
                let old : T.table.get c.node_cache key ≡ some id =
                  ap (λ t. T.table.get t key) (sym w.table) ∙ rw ne at (sym (put key) ∙ e) in
                let (i, n, at, same) = l.named key id old in
                (i, n, get_elem?-append ks (k ∷ []) i (lt-get_elem? ks i at) ∙ at, same)
          ];
        },
      )

  -- `nonterminal` on new contents that are not redundant.
  pub nonterminal-Loading :
      (fuel : ℕ) (c : NodeCache) (ks : List Content) (k : Content)
      → Loading c ks
      → length ks < 2 ^ 31
      → k.low ≢ k.high
      → ((i : ℕ) → get_elem? ks i ≢ some k)
      → (c' : NodeCache) × (nonterminal fuel k.variable k.low k.high c ≡ some (length ks * 2, c'))
        × Loading c' (ks ++ k ∷ [])
  unfolding nonterminal
  nonterminal-Loading fuel c ks k l small ne fresh =
      let (c', run, l') = create-Loading c ks k l small in
      elim (Option-cases (T.table.get c.node_cache (cell k 0))) [
        | inl absent ↦ (c', rw (ne→== k.low k.high ne, absent) run, l')
        | inr (id, found) ↦
            let (i, n, at, same) = l.named (cell k 0) id found in
            let (p, q, w) = node_equals-fields (cell n 1) (cell k 0) same in
            let alike : n ≡ k = λ d. record { variable = p d; low = q d; high = w d } in
            absurd (fresh i (at ∙ ap some alike))
      ]
