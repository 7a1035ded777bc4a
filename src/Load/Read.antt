-- ===== src/Load/Read.antt =====
-- Reads of what has been written.
use libcorkipset.Prelude.{
  ℕ, ◌+◌, ◌^◌, ◌<◌, ◌≡◌, Bool, false, ◌&&◌, List, ◌++◌, ltb, ==-refl, arith, length, length-append,
  take-append, drop-append,
}
use libcorkipset.Node.{NodeTable}
use libcorkipset.Cache.{NodeCache}
use libcorkipset.Pointers.{PointerTables}
use libcorkipset.BigEndian.{big_endian, length-big_endian, of_bytes-big_endian}
use libcorkipset.Load.{LoadState, ok, fread, read_uint}

pub no_error : (fails : Bool) (l n : ℕ) → n < l + 1 → (fails && ltb l n) ≡ false
no_error fails l n h = ground arith

module _ ⦃T : NodeTable⦄ (P : PointerTables) (fails : Bool) where
  -- A stream on which no error has been seen, and a cache.
  abbrev pub state : List ℕ → NodeCache → LoadState P
  state rest c = record { stream = record { rest = rest; fails = fails; error = false }; cache = c }

  pub read_uint-ok :
      (size v : ℕ) (more : List ℕ) (c : NodeCache)
      → v < 256 ^ size
      → read_uint P size (state (big_endian size v ++ more) c) ≡ ok v (state more c)
  unfolding read_uint fread
  read_uint-ok size v more c h =
      let bs = big_endian size v in
      let size_ok = length-big_endian size v in
      rw
        (
          take-append bs more size size_ok,
          drop-append bs more size size_ok,
          no_error fails (length (bs ++ more)) size (omega (arith, length-append bs more, size_ok)),
        )
        (rw (size_ok, ==-refl size, of_bytes-big_endian size v h))
