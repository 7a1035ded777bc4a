-- ===== src/Cache/Memory.antt =====
-- Laws of reads and writes in the chunked memory of the node cache.
use libcorkipset.Prelude.{
  ℕ, zero, suc, ◌*◌, ◌/◌, ◌%◌, ◌<◌, ◌≡◌, ◌≢◌, refl, sym, ap, ◌∙◌, inl, inr, some, List, [], ◌∷◌,
  ◌++◌, arith, eq-cases, Option-cases, length, get_elem?, set, replicate, length-set,
  length-replicate, get_elem?-set_self, get_elem?-set_ne, get_elem?-some, lt-get_elem?,
  get_elem?-append,
}
use libcorkipset.Node.{Node, NodeTable}
use libcorkipset.Cache.{
  NodeCache, chunk_size, zero_node, get_nonterminal_by_index, set_nonterminal_by_index,
}

-- Every chunk has the full number of nodes.
abbrev pub Chunked : List (List Node) → Type 0
Chunked [] = Unit {0}
Chunked (chunk ∷ chunks) = (length chunk ≡ chunk_size) × Chunked chunks

Chunked-get :
    (cs : List (List Node)) (i : ℕ) {chunk : List Node}
    → Chunked cs
    → get_elem? cs i ≡ some chunk
    → length chunk ≡ chunk_size
Chunked-get [] i s h = cc
Chunked-get (x ∷ cs) zero s h = ground arith
Chunked-get (x ∷ cs) (suc i) s h = Chunked-get cs i s.1 h

Chunked-set :
    (cs : List (List Node)) (i : ℕ) (chunk : List Node)
    → Chunked cs
    → length chunk ≡ chunk_size
    → Chunked (set cs i chunk)
Chunked-set [] i chunk s h = tt
Chunked-set (x ∷ cs) zero chunk s h = (h, s.1)
Chunked-set (x ∷ cs) (suc i) chunk s h = (s.0, Chunked-set cs i chunk s.1 h)

pub Chunked-append :
    (cs : List (List Node)) → Chunked cs → Chunked (cs ++ replicate chunk_size zero_node ∷ [])
Chunked-append [] s = (length-replicate chunk_size zero_node, tt)
Chunked-append (x ∷ cs) s = (s.0, Chunked-append cs s.1)

module _ ⦃T : NodeTable⦄ where
  -- The chunk of an index and the node in it.
  get-parts :
      (c : NodeCache) (i : ℕ) {n : Node}
      → get_nonterminal_by_index c i ≡ some n
      → (chunk : List Node) × (get_elem? c.chunks (i / chunk_size) ≡ some chunk)
        × (get_elem? chunk (i % chunk_size) ≡ some n)
  unfolding get_nonterminal_by_index
  get-parts c i h = elim (Option-cases (get_elem? c.chunks (i / chunk_size))) [
    | inl e ↦ absurd (cc (rw (e, get_nonterminal_by_index) at h))
    | inr (chunk, e) ↦ (chunk, e, rw (e, get_nonterminal_by_index) at h)
  ]

  get-of_parts :
      (c : NodeCache) (i : ℕ) {n : Node} {chunk : List Node}
      → get_elem? c.chunks (i / chunk_size) ≡ some chunk
      → get_elem? chunk (i % chunk_size) ≡ some n
      → get_nonterminal_by_index c i ≡ some n
  unfolding get_nonterminal_by_index
  get-of_parts c i p q = rw (p, get_nonterminal_by_index) q

  -- An index below the chunks' total size can be read.
  pub get-below :
      (c : NodeCache) (i : ℕ)
      → Chunked c.chunks
      → i < chunk_size * length c.chunks
      → (n : Node) × (get_nonterminal_by_index c i ≡ some n)
  get-below c i s h =
      let (chunk, e) = get_elem?-some c.chunks (i / chunk_size) (omega arith) in
      let (n, f) =
        get_elem?-some chunk (i % chunk_size)
          (omega (arith, Chunked-get c.chunks (i / chunk_size) s e)) in
      (n, get-of_parts c i e f)

  pub lt-get :
      (c : NodeCache) (i : ℕ) {n : Node}
      → get_nonterminal_by_index c i ≡ some n
      → i < chunk_size * length c.chunks
  lt-get c i h =
      let (chunk, e, f) = get-parts c i h in omega (arith, lt-get_elem? c.chunks (i / chunk_size) e)

  module _ (c : NodeCache) (i : ℕ) (n : Node) {m : Node}
      (valid : get_nonterminal_by_index c i ≡ some m) where
    -- What a write does to the chunks.
    set-chunks :
        (chunk : List Node) × (get_elem? c.chunks (i / chunk_size) ≡ some chunk)
        × (get_elem? chunk (i % chunk_size) ≡ some m)
        × (set_nonterminal_by_index c i n
            ≡ record c { chunks = set c.chunks (i / chunk_size) (set chunk (i % chunk_size) n) })
    unfolding set_nonterminal_by_index
    set-chunks =
        let (chunk, e, f) = get-parts c i valid in (chunk, e, f, rw (e, set_nonterminal_by_index))

    -- A read at the written index gives what was written.
    pub get-set_self : get_nonterminal_by_index (set_nonterminal_by_index c i n) i ≡ some n
    get-set_self =
        let (chunk, e, f, w) = set-chunks in
        rw w (
          get-of_parts _ i
            (get_elem?-set_self c.chunks (i / chunk_size) _ (lt-get_elem? c.chunks _ e))
            (get_elem?-set_self chunk (i % chunk_size) n (lt-get_elem? chunk _ f)))

    -- A read at another index is not affected.
    pub get-set_ne :
        (j : ℕ)
        → i ≢ j
        → get_nonterminal_by_index (set_nonterminal_by_index c i n) j ≡ get_nonterminal_by_index c j
    unfolding get_nonterminal_by_index
    get-set_ne j ne =
        let (chunk, e, f, w) = set-chunks in
        elim (eq-cases (i / chunk_size) (j / chunk_size)) [
          | inr apart ↦ rw (
            w,
            get_elem?-set_ne c.chunks (i / chunk_size) (j / chunk_size)
                (set chunk (i % chunk_size) n) apart,
            get_nonterminal_by_index,
          )
          | inl same ↦
              let new = set chunk (i % chunk_size) n in
              let old : get_elem? c.chunks (j / chunk_size) ≡ some chunk = rw (← same) e in
              let now : get_elem? (set c.chunks (i / chunk_size) new) (j / chunk_size) ≡ some new =
                rw (← same)
                  (get_elem?-set_self c.chunks (i / chunk_size) new (lt-get_elem? c.chunks _ e)) in
              rw (w, now, old, get_nonterminal_by_index)
                (get_elem?-set_ne chunk (i % chunk_size) (j % chunk_size) n (omega arith))
        ]

    pub Chunked-set_nonterminal : Chunked c.chunks → Chunked (set_nonterminal_by_index c i n).chunks
    Chunked-set_nonterminal s =
        let (chunk, e, f, w) = set-chunks in
        rw w (
          Chunked-set c.chunks (i / chunk_size) _ s
            (length-set chunk (i % chunk_size) n ∙ Chunked-get c.chunks _ s e))

    pub set-only_chunks :
        set_nonterminal_by_index c i n
        ≡ record c { chunks = (set_nonterminal_by_index c i n).chunks }
    set-only_chunks = let (chunk, e, f, w) = set-chunks in rw w

    -- A write changes neither the number of chunks nor the other fields of the cache.
    pub set-fields :
        (length (set_nonterminal_by_index c i n).chunks ≡ length c.chunks)
        × ((set_nonterminal_by_index c i n).largest_index ≡ c.largest_index)
        × ((set_nonterminal_by_index c i n).free_list ≡ c.free_list)
        × ((set_nonterminal_by_index c i n).node_cache ≡ c.node_cache)
    set-fields =
        let (chunk, e, f, w) = set-chunks in
        rw w (length-set c.chunks (i / chunk_size) _, refl, refl, refl)

  module _ (c : NodeCache) (chunk : List Node) where
    -- A chunk more leaves the other indices as they are.
    pub get-append :
        (i : ℕ)
        → i < chunk_size * length c.chunks
        → get_nonterminal_by_index (record c { chunks = c.chunks ++ chunk ∷ [] }) i
          ≡ get_nonterminal_by_index c i
    unfolding get_nonterminal_by_index
    get-append i h = rw (
      get_elem?-append c.chunks (chunk ∷ []) (i / chunk_size) (omega arith),
      get_nonterminal_by_index,
    )

  -- A read depends on the chunks only.
  pub get-chunks :
      (c c' : NodeCache) (i : ℕ)
      → c'.chunks ≡ c.chunks
      → get_nonterminal_by_index c' i ≡ get_nonterminal_by_index c i
  unfolding get_nonterminal_by_index
  get-chunks c c' i e = rw (e, get_nonterminal_by_index)

  -- So does what a write makes of them.
  pub set-same_chunks :
      (c c' : NodeCache) (i : ℕ) (n : Node) {m : Node}
      → c'.chunks ≡ c.chunks
      → get_nonterminal_by_index c i ≡ some m
      → (set_nonterminal_by_index c' i n).chunks ≡ (set_nonterminal_by_index c i n).chunks
  set-same_chunks c c' i n same valid =
      let (chunk, e, f, w) = set-chunks c i n valid in
      let (chunk', e', f', w') = set-chunks c' i n (get-chunks c c' i same ∙ valid) in
      let one : chunk' ≡ chunk = cc in
      ap (λ (x : NodeCache). x.chunks) w'
      ∙ (rw (one, same))
      ∙ sym (ap (λ (x : NodeCache). x.chunks) w)
