-- ===== src/Networks/Cover.antt =====
-- Which addresses lie in the networks of one path: src/libipset/set/iterator.c.
use libcorkipset.Prelude.{
  ℕ, zero, suc, ◌+◌, ◌*◌, ◌<◌, ◌≤◌, ◌≡◌, refl, sym, ◌∙◌, ap, Bool, true, false, ◌&&◌, List, [], ◌∷◌,
  map, bit, length, inl, inr, Bool-cases, eq-cases, update, update_self, update-ne, replicate,
  and_true, arith,
}
use libcorkipset.Bits.{bit_get, bit_set}
use libcorkipset.Bits.Laws.{AreBytes, bit_get-bit_set, bit_set-AreBytes}
use libcorkipset.Address.{Family, family_of, assignment}
use libcorkipset.Address.Network.{in_network, agrees-in_network, assignment-zero, assignment-suc}
use libcorkipset.Assignment.{Tribool, ipset_false, ipset_true, ipset_either, same_tribool}
use libcorkipset.Expanded.Full.{Full, fulls}
use libcorkipset.Expanded.Run.{length-bit_set}
use libcorkipset.Expanded.Expand.{zeros-Shows}
use libcorkipset.Expanded.Count.{
  how_many, alike, alike_congr, agrees-alike, allows, meets, count-fulls,
}
use libcorkipset.Networks.Listing.{
  Network, write_bits, address_of, network_of, last_fixed, networks_in,
}

-- What is written between `i` and `i + n` is there, and what is before `i` stays.
write_bits-ok :
    (n i : ℕ) (f : Full) (ip : List ℕ)
    → AreBytes ip
    → i + n ≤ 8 * length ip
    → (j : ℕ) → j < i + n
    → ((j' : ℕ) → j' < i → bit_get ip j' ≡ f (j' + 1))
    → bit_get (write_bits n i f ip) j ≡ f (j + 1)
write_bits-ok zero i f ip bytes le j lt before = before j (omega arith)
write_bits-ok (suc n) i f ip bytes le j lt before =
    let inside : i < 8 * length ip = omega arith in
    write_bits-ok n (suc i) f (bit_set ip i (f (i + 1)))
      (bit_set-AreBytes ip bytes i inside (f (i + 1)))
      (omega (arith, length-bit_set ip i (f (i + 1)))) j (omega arith)
      (λ j' lt'.
        ap (λ h. h j') (bit_get-bit_set ip bytes i inside (f (i + 1)))
        ∙ elim (eq-cases i j') as (λ _. update (bit_get ip) i (f (i + 1)) j' ≡ f (j' + 1)) [
          | inl e ↦ rw (← e) (update_self (bit_get ip) i (f (i + 1)))
          | inr ne ↦ update-ne (bit_get ip) i j' (f (i + 1)) ne ∙ before j' (omega arith)
        ])

address_of-bit :
    (k : ℕ) (f : Full) (i : ℕ) → k ≤ 128 → i < k → bit_get (address_of k f).ip i ≡ f (i + 1)
address_of-bit k f i le lt =
    let zeros = zeros-Shows 128 16 (omega arith) in
    write_bits-ok k 0 f (replicate 16 0) zeros.bytes (omega arith) i (omega arith)
      (λ j' none. absurd (omega arith))

address_of-discriminator : (k : ℕ) (f : Full) → (family_of (address_of k f)).discriminator ≡ f 0
address_of-discriminator k f = elim (Bool-cases (f 0)) [
  | inl four ↦ rw four refl
  | inr six ↦ rw six refl
]

-- The address of a full assignment gives back what has been written.
address_of-assignment :
    (k : ℕ) (f : Full) (j : ℕ)
    → k ≤ 128
    → j < k + 1
    → assignment (family_of (address_of k f)) (address_of k f).ip j ≡ f j
address_of-assignment k f zero le lt =
    assignment-zero (family_of (address_of k f)) (address_of k f).ip ∙ address_of-discriminator k f
address_of-assignment k f (suc i) le lt =
    let e : i + 1 ≡ suc i = omega arith in
    assignment-suc (family_of (address_of k f)) (address_of k f).ip i (omega arith)
    ∙ address_of-bit k f i le (omega arith)
    ∙ ap f e

-- Whether an address lies in a network.
abbrev pub lies_in : Family → List ℕ → Network → Bool
lies_in family elem (addr, cidr_prefix) =
    in_network (family_of addr) addr.ip cidr_prefix family elem

module _ (family : Family) (elem : List ℕ) where
  lies_in-network_of :
      (k : ℕ) (f : Full)
      → k ≤ 128
      → lies_in family elem (network_of k f) ≡ alike (k + 1) f (assignment family elem)
  lies_in-network_of k f le =
      sym (
        agrees-in_network (family_of (address_of k f)) family (address_of k f).ip elem k
          (omega arith))
      ∙ agrees-alike (k + 1) (assignment (family_of (address_of k f)) (address_of k f).ip)
          (assignment family elem)
      ∙ alike_congr (k + 1) (assignment (family_of (address_of k f)) (address_of k f).ip) f
          (assignment family elem) (λ j lt. address_of-assignment k f j le lt)

  count-map :
      (k : ℕ) (fs : List Full)
      → k ≤ 128
      → how_many (lies_in family elem) (map (network_of k) fs)
        ≡ how_many (λ f. alike (k + 1) f (assignment family elem)) fs
  count-map k [] le = refl
  count-map k (f ∷ fs) le =
      ap (λ t. bit t + how_many (lies_in family elem) (map (network_of k) fs))
        (lies_in-network_of k f le)
      ∙ ap (λ m. bit (alike (k + 1) f (assignment family elem)) + m) (count-map k fs le)

last_fixed-le : (a : ℕ → Tribool) (n : ℕ) → last_fixed a n ≤ n
last_fixed-le a zero = omega arith
last_fixed-le a (suc i) = elim (Bool-cases (same_tribool (a (suc i)) ipset_either)) [
  | inl either ↦ rw either (omega (arith, last_fixed-le a i))
  | inr fixed ↦ rw fixed (omega arith)
]

open_allows : (t : Tribool) (v : Bool) → same_tribool t ipset_either ≡ true → allows t v ≡ true
open_allows ipset_either v e = refl
open_allows ipset_false v e = absurd cc
open_allows ipset_true v e = absurd cc

-- The variables past the last fixed one make no difference.
meets-last_fixed :
    (a : ℕ → Tribool) (n : ℕ) (b : Full) → meets a (last_fixed a n + 1) b ≡ meets a (n + 1) b
meets-last_fixed a zero b = refl
meets-last_fixed a (suc i) b = elim (Bool-cases (same_tribool (a (suc i)) ipset_either)) [
  | inl either ↦
      let e : suc i + 1 ≡ suc (suc i) = omega arith in
      let e' : i + 1 ≡ suc i = omega arith in
      rw (either, e)
        (meets-last_fixed a i b
          ∙ ap (λ k. meets a k b) e'
          ∙ sym (and_true (meets a (suc i) b))
          ∙ ap (λ t. meets a (suc i) b && t) (sym (open_allows (a (suc i)) (b (suc i)) either)))
  | inr fixed ↦ rw fixed refl
]

-- An address that agrees with a path on the variables of a family lies in one of the path's
-- networks, and any other in none.
pub count-networks_in :
    (summarize : Bool) (family' : Family) (a : ℕ → Tribool) (family : Family) (elem : List ℕ)
    → family'.bit_size ≤ 128
    → how_many (lies_in family elem) (networks_in summarize family' a)
      ≡ bit (meets a (family'.bit_size + 1) (assignment family elem))
count-networks_in true family' a family elem le =
    let k = last_fixed a family'.bit_size in
    count-map family elem k (fulls a (k + 1)) (omega (arith, last_fixed-le a family'.bit_size))
    ∙ count-fulls a (k + 1) (assignment family elem)
    ∙ ap bit (meets-last_fixed a family'.bit_size (assignment family elem))
count-networks_in false family' a family elem le =
    count-map family elem family'.bit_size (fulls a (family'.bit_size + 1)) le
    ∙ count-fulls a (family'.bit_size + 1) (assignment family elem)
