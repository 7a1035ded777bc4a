-- ===== src/Bits.antt =====
-- Bit arrays: the macros of include/ipset/bits.h. Bits are numbered from the highest of the first
-- byte. An array is the list of its bytes, and every use in the sources stays inside it.
pub mod Laws
use Prim.Native.Nat.{bit_and, bit_or}
use libcorkipset.Prelude.{ℕ, ◌-◌, ◌/◌, ◌%◌, ◌^◌, Bool, not, List, ◌==◌, get_or, set, if◌then◌else◌}

-- `IPSET_BIT_GET_BYTE`
unfoldable pub get_byte : List ℕ → ℕ → ℕ
get_byte array i = get_or array (i / 8) 0

-- `0x80 >> (i % 8)`
unfoldable pub on_mask : ℕ → ℕ
on_mask i = 128 / 2 ^ (i % 8)

-- `~IPSET_BIT_ON_MASK(i)`, of which the bits of one byte are used.
unfoldable pub neg_mask : ℕ → ℕ
unfolding on_mask
neg_mask i = 255 - on_mask i

-- `IPSET_BIT_GET`
unfoldable pub bit_get : List ℕ → ℕ → Bool
unfolding get_byte on_mask
bit_get array i = not (bit_and (get_byte array i) (on_mask i) == 0)

-- `IPSET_BIT_SET`
unfoldable pub bit_set : List ℕ → ℕ → Bool → List ℕ
unfolding get_byte on_mask neg_mask
bit_set array i val =
    set array (i / 8)
      (bit_or (bit_and (get_byte array i) (neg_mask i)) (if val then on_mask i else 0))
