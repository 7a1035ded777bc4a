-- ===== src/Address.antt =====
-- IP addresses as the variables of a diagram: the parts of set/inspection-template.c.in and
-- map/inspection-template.c.in (under src/libipset) that depend on the size of an address.
pub mod Network
use libcorkipset.Prelude.{ℕ, ◌+◌, ◌-◌, ◌%◌, Bool, true, false, List, ◌==◌, if◌then◌else◌}
use libcorkipset.NodeId.{word}
use libcorkipset.Bits.{bit_get}

-- `IP_BIT_SIZE` and `IP_DISCRIMINATOR_VALUE`: what the templates are instantiated with.
pub record Family : Type 0 where
  pub bit_size : ℕ
  pub discriminator : Bool

abbrev pub ipv4 : Family
ipv4 = record { bit_size = 32; discriminator = true }

abbrev pub ipv6 : Family
ipv6 = record { bit_size = 128; discriminator = false }

-- `struct cork_ip`: the version, and the bytes of the address.
pub record CorkIp : Type 0 where
  pub version : ℕ
  pub ip : List ℕ

-- The test that dispatches on `addr->version`.
abbrev pub family_of : CorkIp → Family
family_of addr = if addr.version == 4 then ipv4 else ipv6

unfoldable pub bit_for_var : ℕ → ℕ
bit_for_var var = (var + word - 1) % word

-- Variable 0 tells the families apart, variable `i + 1` is bit `i` of the address.
unfoldable pub assignment : Family → List ℕ → ℕ → Bool
unfolding bit_for_var
assignment family addr var =
    if var == 0 then family.discriminator else bit_get addr (bit_for_var var)
