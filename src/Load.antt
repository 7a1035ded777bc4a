-- ===== src/Load.antt =====
-- Reading a diagram: src/libipset/bdd/read.c.
pub mod Cache
pub mod Read
pub mod Entries
pub mod Loop
pub mod Whole
pub mod Small
pub mod Listed
pub mod Frame
use libcorkipset.Prelude.{
  ℕ, zero, suc, ◌+◌, ◌-◌, ◌*◌, ◌%◌, ◌^◌, Bool, true, false, ◌&&◌, ◌||◌, not, Option, none, some,
  List, [], ◌∷◌, ltb, ◌==◌, if◌then◌else◌, length, take, drop,
}
use libcorkipset.Node.{NodeTable}
use libcorkipset.NodeId.{terminal_node_id}
use libcorkipset.Cache.{NodeCache, nonterminal}
use libcorkipset.Pointers.{PointerTables}
use libcorkipset.SerializedId.{ℤ, pos, negsuc, of_uint32}
use libcorkipset.BigEndian.{of_bytes}
use libcorkipset.Stream.{StreamError, io_error, unknown_error}
use libcorkipset.Save.{magic_number}

-- A `FILE *` that is read: what it still has, whether it ends in an error rather than in
-- end-of-file, and stdio's error indicator.
pub record InFile : Type 0 where
  pub rest : List ℕ
  pub fails : Bool
  pub error : Bool

-- The errors that the reader sets.
pub data LoadError : Type 0 where
  stream_error : StreamError → LoadError
  unexpected_eof wrong_magic extra_data too_much_data : LoadError
  unknown_version : ℕ → LoadError

abbrev pub same_bytes : List ℕ → List ℕ → Bool
same_bytes [] [] = true
same_bytes (x ∷ xs) (y ∷ ys) = (x == y) && same_bytes xs ys
same_bytes _ _ = false

module _ ⦃T : NodeTable⦄ (P : PointerTables) where
  pub record LoadState : Type 0 where
    pub stream : InFile
    pub cache : NodeCache

  -- `stuck` is no C value: a read outside of the chunks, or fuel that ran out.
  pub data Result (A : Type 0) : Type 0 where
    ok : A → LoadState → Result A
    failed : LoadError → LoadState → Result A
    stuck : Result A

  abbrev pub LoadM : Type 0 → Type 0
  LoadM A = LoadState → Result A

  abbrev pub pure : {A : Type 0} → A → LoadM A
  pure a st = ok a st

  -- `cork_error_set`
  abbrev pub fail : {A : Type 0} → LoadError → LoadM A
  fail e st = failed e st

  -- `ei_check` and `xi_check`: an error ends the caller too.
  abbrev pub continue : {A B : Type 0} → Result A → (A → LoadM B) → Result B
  continue (ok a st) f = f a st
  continue (failed e st) f = failed e st
  continue stuck f = stuck

  infixl 5 ◌>>=◌ ◌>>◌
  abbrev pub ◌>>=◌ : {A B : Type 0} → LoadM A → (A → LoadM B) → LoadM B
  m >>= f = λ st. continue (m st) f

  abbrev pub ◌>>◌ : {A B : Type 0} → LoadM A → LoadM B → LoadM B
  m >> k = m >>= λ _. k

  -- `fread` of `n` bytes: those that are there, and the error indicator if they are too few.
  unfoldable pub fread : ℕ → LoadM (List ℕ)
  fread n st =
      let stream = st.stream in
      ok (take n stream.rest) (record st {
        stream = record stream {
          rest = drop n stream.rest;
          error = stream.error || (stream.fails && ltb (length stream.rest) n);
        };
      })

  unfoldable pub create_errno_error : {A : Type 0} → LoadM A
  create_errno_error st =
      failed (stream_error (if st.stream.error then io_error else unknown_error)) st

  -- `read_uint8`, `read_uint16`, `read_uint32` and `read_uint64`, by the number of bytes.
  unfoldable pub read_uint : ℕ → LoadM ℕ
  unfolding fread create_errno_error
  read_uint size = do
    dest ← fread size
    if length dest == size then pure (of_bytes 0 dest) else create_errno_error

  unfoldable pub verify_cap : (bytes_read cap : ℕ) → LoadM (Unit {0})
  verify_cap bytes_read cap =
      if ltb bytes_read cap
      then fail extra_data
      else (if ltb cap bytes_read then fail too_much_data else pure tt)

  -- A low or high pointer as a node id. An unknown nonterminal gives NULL, which is id 0.
  unfoldable pub node_of_pointer : P.cache_ids.Table → ℤ → ℕ
  node_of_pointer cache_ids (pos value) = terminal_node_id value
  node_of_pointer cache_ids (negsuc n) = elim (P.cache_ids.get cache_ids (negsuc n)) [
    | none ↦ 0
    | some id ↦ id
  ]

  unfoldable pub make_nonterminal : (fuel variable low high : ℕ) → LoadM ℕ
  make_nonterminal fuel variable low high st = elim (nonterminal fuel variable low high st.cache) [
    | none ↦ stuck
    | some (id, cache) ↦ ok id (record st { cache = cache })
  ]

  -- `-(i+1)`, computed as a `size_t`.
  unfoldable pub serialized_id_of : ℕ → ℤ
  serialized_id_of i = of_uint32 ((2 ^ 64 - (i + 1)) % 2 ^ 32)

  -- The loop over `n` nonterminals from number `i` on, with the last result.
  unfoldable pub load_nonterminals :
      (fuel n i bytes_read result : ℕ) → P.cache_ids.Table → LoadM (ℕ × ℕ)
  unfolding read_uint make_nonterminal node_of_pointer serialized_id_of
  load_nonterminals fuel zero i bytes_read result cache_ids = pure (result, bytes_read)
  load_nonterminals fuel (suc n) i bytes_read result cache_ids = do
    variable ← read_uint 1
    low ← read_uint 4
    high ← read_uint 4
    result' ←
        make_nonterminal fuel variable (node_of_pointer cache_ids (of_uint32 low))
          (node_of_pointer cache_ids (of_uint32 high))
    load_nonterminals fuel n (i + 1) (bytes_read + 1 + 4 + 4) result'
        (P.cache_ids.put cache_ids (serialized_id_of i) result')

  -- The fuel is for the calls of `nonterminal`.
  unfoldable pub load_v1 : ℕ → LoadM ℕ
  unfolding read_uint verify_cap load_nonterminals
  load_v1 fuel = do
    encoded_length ← read_uint 8
    let cap = (encoded_length + 2 ^ 64 - length magic_number - 2 - 8) % 2 ^ 64
    nonterminal_count ← read_uint 4
    if nonterminal_count == 0
        then (do value ← read_uint 4; verify_cap (4 + 4) cap; pure (terminal_node_id value))
        else (do
          (result, bytes_read) ← load_nonterminals fuel nonterminal_count 0 4 0 P.cache_ids.new
          verify_cap bytes_read cap
          pure result)

  -- The magic number has been read in full, if the stream has not failed.
  unfoldable pub check_magic : List ℕ → LoadM (Unit {0})
  unfolding create_errno_error
  check_magic magic st =
      (if st.stream.error
          then create_errno_error
          else (if not (length magic == length magic_number)
              then fail unexpected_eof
              else (if not (same_bytes magic magic_number) then fail wrong_magic else pure tt)))
        st

  unfoldable pub load : ℕ → LoadM ℕ
  unfolding fread check_magic read_uint load_v1
  load fuel = do
    magic ← fread (length magic_number)
    check_magic magic
    version ← read_uint 2
    if version == 1 then load_v1 fuel else fail (unknown_version version)
