-- ===== src/Load/Frame.antt =====
-- The reader does not look past what it has read: more bytes at the end of a file change only what
-- is left.
use libcorkipset.Prelude.{
  ℕ, zero, suc, ◌+◌, ◌-◌, ◌%◌, ◌^◌, ◌<◌, ◌≡◌, inl, inr, Bool, true, false, ◌&&◌, List, ◌++◌, ltb,
  ◌==◌, ==-refl, ne→==, arith, length, length-append, take-append, drop-append, take-short,
  split-at, lt-cases, Bool-cases, Option-cases, if◌then◌else◌,
}
use mathlib.Core.List.{append_assoc}
use libcorkipset.Node.{NodeTable}
use libcorkipset.Cache.{NodeCache, nonterminal}
use libcorkipset.Pointers.{PointerTables}
use libcorkipset.BigEndian.{of_bytes}
use libcorkipset.Save.{magic_number}
use libcorkipset.Load.{
  LoadError, LoadState, LoadM, Result, ok, failed, stuck, pure, fail, continue, fread, read_uint,
  verify_cap, make_nonterminal, load_nonterminals, load_v1, load, same_bytes, check_magic,
  create_errno_error, node_of_pointer, serialized_id_of, unknown_version,
}
use libcorkipset.SerializedId.{of_uint32}
use libcorkipset.NodeId.{terminal_node_id}
use libcorkipset.Load.Read.{state, no_error}

module _ ⦃T : NodeTable⦄ (P : PointerTables) (fails : Bool) where
  -- Either the first run fails, or the second one does the same with the rest behind it.
  pub data Framed {A : Type 0} (q : List ℕ) : Result P A → Result P A → Type 0 where
    framed_failed : {r : Result P A} (e : LoadError) (st : LoadState P) → Framed q (failed e st) r
    framed_ok :
        (a : A) (more : List ℕ) (c : NodeCache)
        → Framed q (ok a (state P fails more c)) (ok a (state P fails (more ++ q) c))
    framed_stuck : Framed q stuck stuck

  pub record Frame {A : Type 0} (m : LoadM P A) : Type 0 where
    pub framed :
        (rest q : List ℕ) (c : NodeCache)
        → Framed q (m (state P fails rest c)) (m (state P fails (rest ++ q) c))

  bind-Framed :
      {A B : Type 0} (q : List ℕ) (r r' : Result P A) (f : A → LoadM P B)
      → Framed q r r'
      → ((a : A) → Frame (f a))
      → Framed q (continue P r f) (continue P r' f)
  bind-Framed q r r' f (framed_failed e st) h = framed_failed e st
  bind-Framed q r r' f (framed_ok a more c) h = (h a).framed more q c
  bind-Framed q r r' f framed_stuck h = framed_stuck

  bind-Frame :
      {A B : Type 0} (m : LoadM P A) (f : A → LoadM P B)
      → Frame m
      → ((a : A) → Frame (f a))
      → Frame {A = B} (λ st. continue P (m st) f)
  bind-Frame m f first next = record {
    framed = λ rest q c.
        bind-Framed q (m (state P fails rest c)) (m (state P fails (rest ++ q) c)) f
          (first.framed rest q c) next;
  }

  pure-Frame : {A : Type 0} (a : A) → Frame {A = A} (pure P a)
  pure-Frame a = record { framed = λ rest q c. framed_ok a rest c }

  fail-Frame : {A : Type 0} (e : LoadError) → Frame {A = A} (fail P e)
  fail-Frame e = record { framed = λ rest q c. framed_failed e (state P fails rest c) }

  if-Frame :
      {A : Type 0} (b : Bool) (m n : LoadM P A)
      → Frame m
      → Frame n
      → Frame {A = A} (if b then m else n)
  if-Frame true m n h k = h
  if-Frame false m n h k = k

  verify_cap-Frame : (bytes cap : ℕ) → Frame (verify_cap P bytes cap)
  unfolding verify_cap
  verify_cap-Frame bytes cap = record {
    framed = λ rest q c. elim (Bool-cases (ltb bytes cap)) [
      | inl less ↦ rw less (framed_failed _ (state P fails rest c))
      | inr enough ↦ elim (Bool-cases (ltb cap bytes)) [
        | inl more ↦ rw (enough, more) (framed_failed _ (state P fails rest c))
        | inr even ↦ rw (enough, even) (framed_ok tt rest c)
      ]
    ];
  }

  -- A read of bytes that are there.
  pub read_uint-bytes :
      (size : ℕ) (a b : List ℕ) (c : NodeCache)
      → length a ≡ size
      → read_uint P size (state P fails (a ++ b) c) ≡ ok (of_bytes 0 a) (state P fails b c)
  unfolding read_uint fread
  read_uint-bytes size a b c h =
      rw
        (
          take-append a b size h,
          drop-append a b size h,
          no_error fails (length (a ++ b)) size (omega (arith, length-append a b)),
        )
        (rw (h, ==-refl size))

  read_uint-short :
      (size : ℕ) (rest q : List ℕ) (c : NodeCache) (r : Result P ℕ)
      → length rest < size
      → Framed q (read_uint P size (state P fails rest c)) r
  unfolding read_uint fread create_errno_error
  read_uint-short size rest q c r h =
      rw (take-short size rest h) (rw (ne→== (length rest) size (omega arith)) (framed_failed _ _))

  read_uint-Frame : (size : ℕ) → Frame (read_uint P size)
  read_uint-Frame size = record {
    framed = λ rest q c. elim (lt-cases (length rest) size) [
      | inl short ↦
          read_uint-short size rest q c (read_uint P size (state P fails (rest ++ q) c)) short
      | inr enough ↦
          let (a, b, split, long) = split-at size rest (omega arith) in
          rw (split, append_assoc a b q)
            (rw (read_uint-bytes size a b c long, read_uint-bytes size a (b ++ q) c long)
              (framed_ok (of_bytes 0 a) b c))
    ];
  }

  make_nonterminal-Frame :
      (fuel variable low high : ℕ) → Frame (make_nonterminal P fuel variable low high)
  unfolding make_nonterminal
  make_nonterminal-Frame fuel variable low high = record {
    framed = λ rest q c. elim (Option-cases (nonterminal fuel variable low high c)) [
      | inl gone ↦ rw (gone, make_nonterminal) framed_stuck
      | inr ((id, c'), run) ↦ rw (run, make_nonterminal) (framed_ok id rest c')
    ];
  }

  load_nonterminals-Frame :
      (fuel n i bytes result : ℕ) (cache_ids : P.cache_ids.Table)
      → Frame (load_nonterminals P fuel n i bytes result cache_ids)
  unfolding load_nonterminals
  load_nonterminals-Frame fuel zero i bytes result cache_ids = pure-Frame (result, bytes)
  load_nonterminals-Frame fuel (suc n) i bytes result cache_ids =
      bind-Frame _ _ (read_uint-Frame 1) (λ variable. bind-Frame _ _ (read_uint-Frame 4) (λ low.
        bind-Frame _ _ (read_uint-Frame 4) (λ high.
          bind-Frame _ _
            (make_nonterminal-Frame fuel variable (node_of_pointer P cache_ids (of_uint32 low))
              (node_of_pointer P cache_ids (of_uint32 high)))
            (λ result'.
              load_nonterminals-Frame fuel n (i + 1) (bytes + 1 + 4 + 4) result'
                (P.cache_ids.put cache_ids (serialized_id_of P i) result')))))

  load_v1-Frame : (fuel : ℕ) → Frame (load_v1 P fuel)
  unfolding load_v1
  load_v1-Frame fuel = bind-Frame _ _ (read_uint-Frame 8) (λ encoded_length.
      let cap = (encoded_length + 2 ^ 64 - length magic_number - 2 - 8) % 2 ^ 64 in
      bind-Frame _ _ (read_uint-Frame 4) (λ nonterminal_count.
        if-Frame (nonterminal_count == 0) _ _
          (bind-Frame _ _ (read_uint-Frame 4) (λ value.
            bind-Frame _ _ (verify_cap-Frame (4 + 4) cap)
              (λ u. pure-Frame (terminal_node_id value))))
          (bind-Frame _ _ (load_nonterminals-Frame fuel nonterminal_count 0 4 0 P.cache_ids.new)
            (λ loop. bind-Frame _ _ (verify_cap-Frame loop.1 cap) (λ u. pure-Frame loop.0)))))

  -- From the version on.
  abbrev pub from_version : ℕ → LoadM P ℕ
  from_version fuel st =
      continue P (read_uint P 2 st)
        (λ version. if version == 1 then load_v1 P fuel else fail P (unknown_version version))

  from_version-Frame : (fuel : ℕ) → Frame (from_version fuel)
  from_version-Frame fuel = bind-Frame _ _ (read_uint-Frame 2) (λ version.
      if-Frame (version == 1) _ _ (load_v1-Frame fuel) (fail-Frame (unknown_version version)))

  load-short :
      (fuel : ℕ) (rest q : List ℕ) (c : NodeCache) (r : Result P ℕ)
      → length rest < 6
      → Framed q (load P fuel (state P fails rest c)) r
  unfolding load fread check_magic create_errno_error
  load-short fuel rest q c r h =
      rw (take-short 6 rest h) (elim (Bool-cases (fails && ltb (length rest) 6)) [
        | inl broken ↦ rw broken (framed_failed _ _)
        | inr end ↦ rw (end, ne→== (length rest) 6 (omega arith)) (framed_failed _ _)
      ])

  load-wrong :
      (fuel : ℕ) (a b q : List ℕ) (c : NodeCache) (r : Result P ℕ)
      → length a ≡ 6
      → same_bytes a magic_number ≡ false
      → Framed q (load P fuel (state P fails (a ++ b) c)) r
  unfolding load fread check_magic
  load-wrong fuel a b q c r h wrong =
      rw
        (
          take-append a b 6 h,
          drop-append a b 6 h,
          no_error fails (length (a ++ b)) 6 (omega (arith, length-append a b)),
        )
        (rw (h, wrong) (framed_failed _ _))

  pub load-right :
      (fuel : ℕ) (a b : List ℕ) (c : NodeCache)
      → length a ≡ 6
      → same_bytes a magic_number ≡ true
      → load P fuel (state P fails (a ++ b) c) ≡ from_version fuel (state P fails b c)
  unfolding load fread check_magic
  load-right fuel a b c h right =
      rw
        (
          take-append a b 6 h,
          drop-append a b 6 h,
          no_error fails (length (a ++ b)) 6 (omega (arith, length-append a b)),
        )
        (rw (h, right))

  pub load-Frame : (fuel : ℕ) → Frame (load P fuel)
  load-Frame fuel = record {
    framed = λ rest q c. elim (lt-cases (length rest) 6) [
      | inl short ↦ load-short fuel rest q c (load P fuel (state P fails (rest ++ q) c)) short
      | inr enough ↦
          let (a, b, split, long) = split-at 6 rest (omega arith) in
          elim (Bool-cases (same_bytes a magic_number)) [
            | inl right ↦
                rw (split, append_assoc a b q)
                  (rw (load-right fuel a b c long right, load-right fuel a (b ++ q) c long right)
                    ((from_version-Frame fuel).framed b q c))
            | inr wrong ↦
                rw split (
                  load-wrong fuel a b q c (load P fuel (state P fails ((a ++ b) ++ q) c)) long
                    wrong)
          ]
    ];
  }
