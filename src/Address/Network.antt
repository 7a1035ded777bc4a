-- ===== src/Address/Network.antt =====
-- Networks: the addresses of a family that share their first bits with a given one.
use libcorkipset.Prelude.{
  ℕ, zero, suc, ◌+◌, ◌-◌, ◌%◌, ◌<◌, ◌≡◌, refl, Bool, true, ◌&&◌, List, arith, ne→==,
}
use libcorkipset.NodeId.{word}
use libcorkipset.Tree.{same_bit, agrees}
use libcorkipset.Bits.{bit_get}
use libcorkipset.Address.{Family, bit_for_var, assignment}

-- The bits from `i` on, `n` of them, are the same.
abbrev pub same_bits : List ℕ → List ℕ → ℕ → ℕ → Bool
same_bits addr addr' i zero = true
same_bits addr addr' i (suc n) =
    same_bit (bit_get addr i) (bit_get addr' i) && same_bits addr addr' (suc i) n

-- Whether the address `addr'` of `family'` lies in the network `addr/cidr_prefix` of `family`.
unfoldable pub in_network : Family → List ℕ → ℕ → Family → List ℕ → Bool
in_network family addr cidr_prefix family' addr' =
    same_bit family.discriminator family'.discriminator && same_bits addr addr' 0 cidr_prefix

module _ (family : Family) (addr : List ℕ) where
  pub assignment-zero : assignment family addr 0 ≡ family.discriminator
  unfolding assignment
  assignment-zero = refl

  pub assignment-suc : (i : ℕ) → suc i < word → assignment family addr (suc i) ≡ bit_get addr i
  unfolding assignment bit_for_var
  assignment-suc i h =
      let e : (suc i + word - 1) % word ≡ i = omega arith in
      rw (ne→== (suc i) 0 (λ p. omega arith), e)

module _ (family family' : Family) (addr addr' : List ℕ) where
  agrees-bits :
      (n i : ℕ)
      → i + n < word
      → agrees (suc i) n (assignment family addr) (assignment family' addr')
        ≡ same_bits addr addr' i n
  agrees-bits zero i h = refl
  agrees-bits (suc n) i h = rw (
    assignment-suc family addr i (omega arith),
    assignment-suc family' addr' i (omega arith),
    agrees-bits n (suc i) (omega arith),
  )

  -- The variables that an insertion of a network fixes are the discriminator and its prefix.
  pub agrees-in_network :
      (n : ℕ)
      → n < word
      → agrees 0 (n + 1) (assignment family addr) (assignment family' addr')
        ≡ in_network family addr n family' addr'
  unfolding in_network
  agrees-in_network n h =
      let one_more : n + 1 ≡ suc n = omega arith in
      rw (
        one_more,
        assignment-zero family addr,
        assignment-zero family' addr',
        agrees-bits n 0 (omega arith),
      )
