-- ===== src/Storage/Errors.antt =====
-- Files that are refused.
use libcorkipset.Prelude.{
  ℕ, zero, suc, ◌+◌, ◌<◌, ◌≡◌, ◌≢◌, refl, sym, ap, ◌∙◌, subst, Bool, true, false, not, Option, none,
  some, List, [], ◌∷◌, ◌++◌, ltb, ◌==◌, ne→==, arith, length, length-append, take, drop,
  take-append, drop-append, split-at, take-short, lt-cases, Bool-cases, if◌then◌else◌, inl, inr,
}
use libcorkipset.Node.{NodeTable}
use libcorkipset.Cache.{NodeCache}
use libcorkipset.Pointers.{PointerTables}
use libcorkipset.BigEndian.{of_bytes}
use libcorkipset.Stream.{io_error, unknown_error}
use libcorkipset.Save.{magic_number}
use libcorkipset.Set.{IpSet, init, depth}
use libcorkipset.Load.{
  LoadError, stream_error, unexpected_eof, wrong_magic, unknown_version, LoadState, Result, ok,
  failed, stuck, load, same_bytes, fread, read_uint, check_magic, create_errno_error,
}
use libcorkipset.Load.Read.{state, no_error}
use libcorkipset.Load.Frame.{
  Framed, framed_failed, framed_ok, framed_stuck, load-Frame, from_version, read_uint-bytes,
  load-right,
}
use libcorkipset.Storage.{Loaded, loaded, null, no_value, load_set}
use libcorkipset.Storage.RoundTrip.{in_file}

take-drop : {A : Type 0} (n : ℕ) (xs : List A) → take n xs ++ drop n xs ≡ xs
take-drop zero xs = refl
take-drop (suc n) [] = refl
take-drop (suc n) (x ∷ xs) = ap (λ ys. x ∷ ys) (take-drop n xs)

length-take_lt : {A : Type 0} (n : ℕ) (xs : List A) → n < length xs → length (take n xs) ≡ n
length-take_lt zero xs h = refl
length-take_lt (suc n) [] h = absurd (omega arith)
length-take_lt (suc n) (x ∷ xs) h = ap suc (length-take_lt n xs (omega arith))

module _ ⦃T : NodeTable⦄ (P : PointerTables) (fails : Bool) where
  -- The set that `load_set` makes of the diagram.
  abbrev set_of : Result P ℕ → Loaded P IpSet
  set_of (ok new_bdd st) = loaded (record { cache = st.cache; set_bdd = new_bdd }) st.stream
  set_of (failed e st) = null e
  set_of stuck = no_value

  abbrev left_of : Loaded P IpSet → ℕ
  left_of (loaded s f) = length f.rest
  left_of _ = 0

  Framed-truncated :
      (q : List ℕ) (r r' : Result P ℕ) (copy : IpSet)
      → Framed P fails q r r'
      → set_of r' ≡ loaded copy (in_file P fails [])
      → length q ≢ 0
      → (e : LoadError) × (set_of r ≡ null e)
  Framed-truncated q r r' copy (framed_failed e st) complete more = (e, refl)
  Framed-truncated q r r' copy (framed_ok a rest c) complete more =
      absurd (more (omega (arith, ap left_of complete, length-append rest q)))
  Framed-truncated q r r' copy framed_stuck complete more = absurd cc

  -- If `load_set` accepts some bytes and leaves none of them, then it refuses every shorter start
  -- of them with an error.
  pub load_set-truncated :
      (bytes : List ℕ) (copy : IpSet) (n : ℕ)
      → load_set P (in_file P fails bytes) ≡ loaded copy (in_file P fails [])
      → n < length bytes
      → (e : LoadError) × (load_set P (in_file P fails (take n bytes)) ≡ null e)
  unfolding load_set
  load_set-truncated bytes copy n complete short =
      let p = take n bytes in
      let q = drop n bytes in
      let all = take-drop n bytes in
      let left : length q ≢ 0 =
        λ gone. omega (arith, ap length all, length-append p q, length-take_lt n bytes short) in
      Framed-truncated q (load P depth (state P fails p init.cache))
        (load P depth (state P fails (p ++ q) init.cache)) copy
        ((load-Frame P fails depth).framed p q init.cache)
        (subst
          (λ ys.
            set_of (load P depth (state P fails ys init.cache)) ≡ loaded copy (in_file P fails []))
          (sym all) complete)
        left

  abbrev broken : LoadError
  broken = stream_error (if fails then io_error else unknown_error)

  -- What is wrong with the first bytes of a file: it ends within the magic number, or that is
  -- another one, or it ends within the version, or that is not 1.
  abbrev pub header_error : List ℕ → Option LoadError
  header_error bytes =
      if ltb (length bytes) 6
      then some (if fails then stream_error io_error else unexpected_eof)
      else (if not (same_bytes (take 6 bytes) magic_number)
          then some wrong_magic
          else (if ltb (length bytes) 8
              then some broken
              else (if of_bytes 0 (take 2 (drop 6 bytes)) == 1
                  then none
                  else some (unknown_version (of_bytes 0 (take 2 (drop 6 bytes)))))))

  -- The header is read: an error of the magic number.
  Refused : LoadError → Result P ℕ → Type 0
  Refused e r = (st : LoadState P) × (r ≡ failed e st)

  short-Refused :
      (rest : List ℕ) (c : NodeCache)
      → length rest < 6
      → Refused
          (if fails then stream_error io_error else unexpected_eof)
          (load P depth (state P fails rest c))
  unfolding load fread check_magic create_errno_error Refused
  short-Refused rest c h =
      let few : ltb (length rest) 6 ≡ true = ground arith in
      rw (take-short 6 rest h, few)
        (elim (Bool-cases fails) [
          | inl broken ↦ rw broken (_, refl)
          | inr fine ↦ rw (fine, ne→== (length rest) 6 (omega arith)) (_, refl)
        ])

  short_version-Refused :
      (b : List ℕ) (c : NodeCache)
      → length b < 2
      → Refused broken (from_version P fails depth (state P fails b c))
  unfolding read_uint fread create_errno_error Refused
  short_version-Refused b c h =
      let few : ltb (length b) 2 ≡ true = ground arith in
      rw (take-short 2 b h, few)
        (rw (ne→== (length b) 2 (omega arith))
          (elim (Bool-cases fails) [ inl bad ↦ rw bad (_, refl) | inr fine ↦ rw fine (_, refl) ]))

  version-Refused :
      (v more : List ℕ) (c : NodeCache)
      → length v ≡ 2
      → (of_bytes 0 v == 1) ≡ false
      → Refused
          (unknown_version (of_bytes 0 v))
          (from_version P fails depth (state P fails (v ++ more) c))
  unfolding Refused
  version-Refused v more c two other = rw (read_uint-bytes P fails 2 v more c two, other) (_, refl)

  wrong-Refused :
      (a b : List ℕ) (c : NodeCache)
      → length a ≡ 6
      → same_bytes a magic_number ≡ false
      → Refused wrong_magic (load P depth (state P fails (a ++ b) c))
  unfolding load fread check_magic Refused
  wrong-Refused a b c six wrong =
      rw
        (
          take-append a b 6 six,
          drop-append a b 6 six,
          no_error fails (length (a ++ b)) 6 (omega (arith, length-append a b)),
        )
        (rw (six, wrong) (_, refl))

  right-Refused :
      (e : LoadError) (a b : List ℕ) (c : NodeCache)
      → length a ≡ 6
      → same_bytes a magic_number ≡ true
      → Refused e (from_version P fails depth (state P fails b c))
      → Refused e (load P depth (state P fails (a ++ b) c))
  right-Refused e a b c six right h =
      subst (Refused e) (sym (load-right P fails depth a b c six right)) h

  Refused-set_of :
      (e e' : LoadError) (r : Result P ℕ) → some e' ≡ some e → Refused e' r → set_of r ≡ null e
  unfolding Refused
  Refused-set_of e e' r same (st, run) = let one : e' ≡ e = cc in ap set_of run ∙ ap null one

  -- A file that starts with an error, in the sense of `header_error`, is refused with that error.
  pub load_set-header_error :
      (bytes : List ℕ) (e : LoadError)
      → header_error bytes ≡ some e
      → load_set P (in_file P fails bytes) ≡ null e
  unfolding load_set
  load_set-header_error bytes e h = elim (lt-cases (length bytes) 6) [
    | inl short ↦
        let few : ltb (length bytes) 6 ≡ true = ground arith in
        Refused-set_of e _ _ (rw few at h) (short-Refused bytes init.cache short)
    | inr enough ↦
        let (a, b, split, six) = split-at 6 bytes (omega arith) in
        let long : ltb (length bytes) 6 ≡ false = ground arith in
        let first : take 6 bytes ≡ a = ap (take 6) split ∙ take-append a b 6 six in
        let last : drop 6 bytes ≡ b = ap (drop 6) split ∙ drop-append a b 6 six in
        let size : length bytes ≡ 6 + length b =
          omega (arith, ap length split, length-append a b) in
        elim (Bool-cases (same_bytes a magic_number)) [
          | inr wrong ↦ rw split (
              Refused-set_of e _ _ (rw (long, first, wrong) at h)
                (wrong-Refused a b init.cache six wrong))
          | inl right ↦ rw split (elim (lt-cases (length b) 2) [
            | inl short ↦
                let few : ltb (length bytes) 8 ≡ true = ground (arith, size) in
                Refused-set_of e _ _ (rw (long, first, right, few) at h) (
                  right-Refused broken a b init.cache six right
                    (short_version-Refused b init.cache short))
            | inr more ↦
                let (v, rest, split_b, two) = split-at 2 b (omega arith) in
                let many : ltb (length bytes) 8 ≡ false = ground (arith, size) in
                let version : take 2 (drop 6 bytes) ≡ v =
                  ap (take 2) (last ∙ split_b) ∙ take-append v rest 2 two in
                elim (Bool-cases (of_bytes 0 v == 1)) [
                  | inl one ↦
                      absurd (let nothing = rw (long, first, right, many, version, one) at h in cc)
                  | inr other ↦
                      Refused-set_of e _ _ (rw (long, first, right, many, version, other) at h) (
                        right-Refused (unknown_version (of_bytes 0 v)) a b init.cache six right (
                          subst
                            (λ ys.
                              Refused (unknown_version (of_bytes 0 v))
                                (from_version P fails depth (state P fails ys init.cache)))
                            (sym split_b) (version-Refused v rest init.cache two other)))
                ]
          ])
        ]
  ]
