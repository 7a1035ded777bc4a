-- ===== src/Load/Loop.antt =====
-- The loop over the nonterminals of a file.
use libcorkipset.Prelude.{
  ℕ, suc, ◌+◌, ◌-◌, ◌*◌, ◌^◌, ◌<◌, ◌≡◌, ◌≢◌, inl, inr, refl, sym, ap, ◌∙◌, subst, Bool, some, List,
  [], ◌∷◌, ◌++◌, map, arith, length, length-append, get_elem?, get_elem?-append, get_elem?-middle,
  lt-get_elem?, eq-cases, ==-refl, ne→==,
}
use mathlib.Core.List.{append_assoc, append-nil}
use libcorkipset.Node.{NodeTable}
use libcorkipset.Cache.{NodeCache, nonterminal}
use libcorkipset.Bdd.Owner.{terminal_node_id-small}
use libcorkipset.Pointers.{PointerTables, int-Compatible}
use libcorkipset.SerializedId.{
  ℤ, pos, negsuc, to_uint32, of_uint32, of_uint32-to_uint32, to_uint32-lt, IsInt32,
}
use libcorkipset.BigEndian.{big_endian}
use libcorkipset.Save.Entry.{Entry, entry_bytes, encode}
use libcorkipset.Save.Places.{Earlier}
use libcorkipset.Load.{
  Result, ok, load_nonterminals, make_nonterminal, node_of_pointer, serialized_id_of,
}
use libcorkipset.Load.Read.{state, read_uint-ok}
use libcorkipset.Load.Cache.{Loading, nonterminal-Loading}
use libcorkipset.Load.Entries.{
  id_of, id_of-injective, content_of, content_of-injective, Loadable, length-map, map-snoc,
  get_elem?-map,
}

module _ ⦃T : NodeTable⦄ (P : PointerTables) where
  serialized_id_of-ok : (i : ℕ) → i < 2 ^ 31 → serialized_id_of P i ≡ negsuc i
  unfolding serialized_id_of of_uint32
  serialized_id_of-ok i h = ground arith

  -- The ids of the nodes that have been loaded.
  abbrev pub Numbered : ℕ → P.cache_ids.Table → Type 0
  Numbered n cache_ids = (j : ℕ) → j < n → P.cache_ids.get cache_ids (negsuc j) ≡ some (j * 2)

  Numbered-put :
      (n : ℕ) (cache_ids : P.cache_ids.Table)
      → n < 2 ^ 31
      → Numbered n cache_ids
      → Numbered (suc n) (P.cache_ids.put cache_ids (serialized_id_of P n) (n * 2))
  Numbered-put n cache_ids small known j lt =
      rw
        (
          serialized_id_of-ok n small,
          P.cache_ids.get-put (int-Compatible P.hash_int) cache_ids (negsuc n) (negsuc j) (n * 2),
        )
        (elim (eq-cases n j) [
          | inl same ↦ rw (same, ==-refl j)
          | inr ne ↦ rw (ne→== n j ne) (known j (omega arith))
        ])

  node_of_pointer-ok :
      (n : ℕ) (cache_ids : P.cache_ids.Table) (s : ℤ)
      → Numbered n cache_ids
      → Earlier n s
      → IsInt32 s
      → node_of_pointer P cache_ids (of_uint32 (to_uint32 s)) ≡ id_of s
  unfolding node_of_pointer
  node_of_pointer-ok n cache_ids (pos v) known before small =
      rw (of_uint32-to_uint32 (pos v) small) (terminal_node_id-small v small)
  node_of_pointer-ok n cache_ids (negsuc j) known before small =
      rw (of_uint32-to_uint32 (negsuc j) small) (rw (known j before, node_of_pointer) refl)

  make_nonterminal-ok :
      (fails : Bool) (fuel variable low high id : ℕ) (rest : List ℕ) (c c' : NodeCache)
      → nonterminal fuel variable low high c ≡ some (id, c')
      → make_nonterminal P fuel variable low high (state P fails rest c)
        ≡ ok id (state P fails rest c')
  unfolding make_nonterminal
  make_nonterminal-ok fails fuel variable low high id rest c c' run = rw (run, make_nonterminal)

  -- The rest of a file from an entry on.
  entry_bytes-append :
      (e : Entry) (ys : List ℕ)
      → entry_bytes e ++ ys
        ≡ big_endian 1 e.variable
          ++ (big_endian 4 (to_uint32 e.low) ++ (big_endian 4 (to_uint32 e.high) ++ ys))
  entry_bytes-append e ys =
      append_assoc (big_endian 1 e.variable)
        (big_endian 4 (to_uint32 e.low) ++ big_endian 4 (to_uint32 e.high)) ys
      ∙ ap (λ zs. big_endian 1 e.variable ++ zs)
          (append_assoc (big_endian 4 (to_uint32 e.low)) (big_endian 4 (to_uint32 e.high)) ys)

  module _ (fails : Bool) (more : List ℕ) (fuel : ℕ) where
    -- One entry is read and made a node.
    entry-Loading :
        (e : Entry) (done todo : List Entry) (c : NodeCache) (cache_ids : P.cache_ids.Table)
        (bytes result : ℕ)
        → Loading c (map content_of done)
        → length done < 2 ^ 31
        → Numbered (length done) cache_ids
        → e.variable < 256
        → Earlier (length done) e.low × IsInt32 e.low
        → Earlier (length done) e.high × IsInt32 e.high
        → e.low ≢ e.high
        → ((j : ℕ) → get_elem? done j ≢ some e)
        → (c' : NodeCache) × (load_nonterminals P fuel
              (suc (length todo))
              (length done)
              bytes
              result
              cache_ids
              (state P fails (encode (e ∷ todo) ++ more) c)
            ≡ load_nonterminals P fuel
                (length todo)
                (length done + 1)
                (bytes + 1 + 4 + 4)
                (length done * 2)
                (P.cache_ids.put cache_ids (serialized_id_of P (length done)) (length done * 2))
                (state P fails (encode todo ++ more) c'))
          × Loading c' (map content_of (done ++ e ∷ []))
    unfolding load_nonterminals
    entry-Loading e done todo c cache_ids bytes result l few known var low high ne fresh =
        let n = length done in
        let ks = map content_of done in
        let (c', run, l') =
          nonterminal-Loading fuel c ks (content_of e) l (omega (arith, length-map done))
            (λ same. ne (id_of-injective e.low e.high same))
            (λ i at.
              let (f, at', same) = get_elem?-map done i (content_of e) at in
              fresh i (at' ∙ ap some (content_of-injective f e same))) in
        let rest = encode todo ++ more in
        (
          c',
          rw (append_assoc (entry_bytes e) (encode todo) more, entry_bytes-append e rest)
              (rw
                (read_uint-ok P fails 1 e.variable
                  (big_endian 4 (to_uint32 e.low) ++ (big_endian 4 (to_uint32 e.high) ++ rest)) c
                  (omega arith))
                (rw
                  (read_uint-ok P fails 4 (to_uint32 e.low)
                    (big_endian 4 (to_uint32 e.high) ++ rest) c (omega (arith, to_uint32-lt e.low)))
                  (rw
                    (read_uint-ok P fails 4 (to_uint32 e.high) rest c
                      (omega (arith, to_uint32-lt e.high)))
                    (rw
                      (
                        node_of_pointer-ok n cache_ids e.low known low.0 low.1,
                        node_of_pointer-ok n cache_ids e.high known high.0 high.1,
                      )
                      (rw (
                        make_nonterminal-ok fails fuel e.variable (id_of e.low) (id_of e.high)
                            (length ks * 2) rest c c' run,
                        length-map done,
                      )))))),
          subst (Loading c') (sym (map-snoc done e)) l',
        )

    -- What the loop leaves.
    pub record Loop (es : List Entry) (bytes : ℕ) (res : Result P (ℕ × ℕ)) : Type 0 where
      pub c' : NodeCache
      pub run : res ≡ ok (length es * 2 - 2, bytes) (state P fails more c')
      pub loading : Loading c' (map content_of es)

    pub load_nonterminals-ok :
        (es : List Entry) (loadable : Loadable es) (done todo : List Entry) (c : NodeCache)
        (cache_ids : P.cache_ids.Table) (bytes result total : ℕ)
        → es ≡ done ++ todo
        → Loading c (map content_of done)
        → Numbered (length done) cache_ids
        → result ≡ length done * 2 - 2
        → total ≡ bytes + 9 * length todo
        → Loop es total (
            load_nonterminals P fuel
              (length todo)
              (length done)
              bytes
              result
              cache_ids
              (state P fails (encode todo ++ more) c))
    unfolding load_nonterminals
    load_nonterminals-ok es loadable done [] c cache_ids bytes result total split l known last
          size =
        let all : es ≡ done = split ∙ append-nil done in
        record {
          c' = c;
          run =
              rw (all, last, size)
                (ap (λ m. ok (length done * 2 - 2, m) (state P fails more c)) (omega arith));
          loading = rw all l;
        }
    load_nonterminals-ok es loadable done (e ∷ todo) c cache_ids bytes result total split l known
          last size =
        let n = length done in
        let here : get_elem? es n ≡ some e = rw split (get_elem?-middle done e todo) in
        let longer : length (done ++ e ∷ []) ≡ n + 1 = length-append done (e ∷ []) in
        let few : n < 2 ^ 31 = omega (arith, loadable.few, lt-get_elem? es n here) in
        let (c', run, l') =
          entry-Loading e done todo c cache_ids bytes result l few known
            (loadable.variables n e here) (loadable.low_fits n e here) (loadable.high_fits n e here)
            (loadable.irredundant n e here)
            (λ j at.
              let old : get_elem? es j ≡ some e =
                rw split (get_elem?-append done (e ∷ todo) j (lt-get_elem? done j at) ∙ at) in
              omega (arith, loadable.distinct j n e old here, lt-get_elem? done j at)) in
        let next =
          load_nonterminals-ok es loadable (done ++ e ∷ []) todo c'
            (P.cache_ids.put cache_ids (serialized_id_of P n) (n * 2)) (bytes + 1 + 4 + 4) (n * 2)
            total (split ∙ sym (append_assoc done (e ∷ []) todo)) l'
            (subst (λ m. Numbered m (P.cache_ids.put cache_ids (serialized_id_of P n) (n * 2)))
              (omega (arith, longer)) (Numbered-put n cache_ids few known))
            (omega (arith, longer)) (omega arith) in
        record {
          c' = next.c';
          run =
              run
              ∙ subst
                  (λ m.
                    load_nonterminals P fuel (length todo) m (bytes + 1 + 4 + 4) (n * 2)
                      (P.cache_ids.put cache_ids (serialized_id_of P n) (n * 2))
                      (state P fails (encode todo ++ more) c')
                    ≡ ok (length es * 2 - 2, total) (state P fails more next.c'))
                  longer next.run;
          loading = next.loading;
        }
