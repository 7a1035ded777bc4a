-- ===== src/Stream.antt =====
-- Where a diagram is written to: libcork's `struct cork_stream_consumer`, and the consumer that
-- src/libipset/set/storage.c and map/storage.c have for a file.
use Prim.Native.Char.{code}
use Prim.Native.String.{String}
use libcorkipset.Prelude.{
  ℕ, ◌≡◌, Bool, true, false, Option, some, List, [], ◌∷◌, ◌++◌, length, ◌==◌, if◌then◌else◌,
}

-- The bytes of an ASCII text.
abbrev pub codes : String → List ℕ
codes String.[] = []
codes (String.◌∷◌ c s) = code c ∷ codes s

-- The `data` callback: a chunk, whether it is the first one, and whether it was accepted.
pub record Consumer : Type 1 where
  pub State : Type 0
  pub consume : List ℕ → Bool → State → Bool × State

-- A consumer that accepts whatever comes and keeps it.
pub record Accepts (C : Consumer) : Type 0 where
  pub contents : C.State → List ℕ
  pub accepted :
      (buf : List ℕ) (is_first : Bool) (s : C.State) → (C.consume buf is_first s).0 ≡ true
  pub appended :
      (buf : List ℕ) (is_first : Bool) (s : C.State)
      → contents (C.consume buf is_first s).1 ≡ contents s ++ buf

-- libcork's and stdio's error: what `create_errno_error` sets.
pub data StreamError : Type 0 where
  io_error unknown_error : StreamError

-- stdio's output: `fwrite` gives the number of bytes that it has written.
pub record Stdio : Type 1 where
  pub File : Type 0
  pub fwrite : List ℕ → File → ℕ × File
  pub ferror : File → Bool

module _ (S : Stdio) where
  pub record FileConsumer : Type 0 where
    pub fp : S.File
    pub error : Option StreamError

  unfoldable pub create_errno_error : S.File → StreamError
  create_errno_error stream = if S.ferror stream then io_error else unknown_error

  unfoldable pub file_consumer_data : List ℕ → Bool → FileConsumer → Bool × FileConsumer
  unfolding create_errno_error
  file_consumer_data buf is_first self =
      let (bytes_written, fp) = S.fwrite buf self.fp in
      if bytes_written == length buf
      then (true, record self { fp = fp })
      else (false, record { fp = fp; error = some (create_errno_error fp) })

  abbrev pub file_consumer : Consumer
  file_consumer = record { State = FileConsumer; consume = file_consumer_data }
