-- ===== src/Networks/Listing.antt =====
-- The networks that a set holds, listed without the state of an iterator: the specification of
-- src/libipset/set/iterator.c.
use libcorkipset.Prelude.{
  ℕ, zero, suc, ◌+◌, ◌≡◌, refl, ap, Bool, List, [], ◌∷◌, ◌++◌, map, ◌==◌, if◌then◌else◌, replicate,
  update,
}
use libcorkipset.Bits.{bit_get, bit_set}
use libcorkipset.Address.{Family, ipv4, ipv6, CorkIp}
use libcorkipset.Assignment.{
  Tribool, Assignment, ipset_false, ipset_true, ipset_either, same_tribool,
}
use libcorkipset.Expanded.Full.{Full, fulls}
use libcorkipset.Iterator.Paths.{view, Leaves}
use libcorkipset.Networks.{copy_bits, find_last_non_either_bit}

-- An address and the length of its prefix.
abbrev pub Network : Type 0
Network = CorkIp × ℕ

-- The address of a full assignment, in the order in which its bits are written.
abbrev pub write_bits : (n i : ℕ) → Full → List ℕ → List ℕ
write_bits zero i f ip = ip
write_bits (suc n) i f ip = write_bits n (suc i) f (bit_set ip i (f (i + 1)))

abbrev pub address_of : ℕ → Full → CorkIp
address_of cidr_prefix f = record {
  version = if f 0 then 4 else 6;
  ip = write_bits cidr_prefix 0 f (replicate 16 0);
}

abbrev pub network_of : ℕ → Full → Network
network_of cidr_prefix f = (address_of cidr_prefix f, cidr_prefix)

-- The last variable from 1 to `n` that is fixed, or 0.
abbrev pub last_fixed : (ℕ → Tribool) → ℕ → ℕ
last_fixed a zero = 0
last_fixed a (suc i) = if same_tribool (a (suc i)) ipset_either then last_fixed a i else suc i

abbrev pub prefix_of : Bool → Family → (ℕ → Tribool) → ℕ
prefix_of summarize family a = if summarize then last_fixed a family.bit_size else family.bit_size

-- The networks of one family in a path of the diagram.
abbrev pub networks_in : Bool → Family → (ℕ → Tribool) → List Network
networks_in summarize family a =
    map (network_of (prefix_of summarize family a)) (fulls a (prefix_of summarize family a + 1))

-- Variable 0 tells which families a path is about.
abbrev pub by_family : Bool → Tribool → (ℕ → Tribool) → List Network
by_family summarize ipset_false a = networks_in summarize ipv6 a
by_family summarize ipset_true a = networks_in summarize ipv4 a
by_family summarize ipset_either a =
    networks_in summarize ipv4 (update a 0 ipset_true)
    ++ networks_in summarize ipv6 (update a 0 ipset_false)

-- The networks of the paths with the desired value.
abbrev pub listing : Bool → ℕ → Leaves → List Network
listing summarize desired_value [] = []
listing summarize desired_value ((a, value) ∷ leaves) =
    (if value == desired_value then by_family summarize (a 0) a else [])
    ++ listing summarize desired_value leaves

pub copy_bits-write_bits :
    (n i : ℕ) (values ip : List ℕ) → copy_bits n i values ip ≡ write_bits n i (bit_get values) ip
unfolding copy_bits
copy_bits-write_bits zero i values ip = refl
copy_bits-write_bits (suc n) i values ip =
    copy_bits-write_bits n (suc i) values (bit_set ip i (bit_get values (i + 1)))

pub find_last_non_either_bit-last_fixed :
    (s : Assignment) (n : ℕ) → find_last_non_either_bit s n ≡ last_fixed (view s) n
unfolding find_last_non_either_bit
find_last_non_either_bit-last_fixed s zero = refl
find_last_non_either_bit-last_fixed s (suc i) =
    ap (λ k. if same_tribool (view s (suc i)) ipset_either then k else suc i)
      (find_last_non_either_bit-last_fixed s i)
