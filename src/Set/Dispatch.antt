-- ===== src/Set/Dispatch.antt =====
-- The operations on a `struct cork_ip` of src/libipset/set/inspection.c, for either version.
use libcorkipset.Prelude.{
  ◌≤◌, ◌≡◌, refl, ap, ◌∙◌, ◌&&◌, ℕ, inl, inr, Bool, true, false, some, ◌==◌, if◌then◌else◌, Gives,
  arith, Bool-cases,
}
use libcorkipset.Node.{NodeTable}
use libcorkipset.Address.{CorkIp, family_of}
use libcorkipset.Address.Network.{in_network, same_bits}
use libcorkipset.Tree.{same_bit}
use libcorkipset.Set.{contains, IpSet, ip_add, ip_remove, contains_ip}
use libcorkipset.Set.Valid.{Valid, HasRoom}
use libcorkipset.Set.Laws.{add-ok, remove-ok}

-- The number of bits of an address.
abbrev pub bits_of : CorkIp → ℕ
bits_of addr = if addr.version == 4 then 32 else 128

-- Whether both addresses are of version 4, or neither is, and their first `n` bits are the same.
abbrev pub network_has : CorkIp → ℕ → CorkIp → Bool
network_has addr n addr' =
    same_bit (addr.version == 4) (addr'.version == 4) && same_bits addr.ip addr'.ip 0 n

-- Whether `addr'` has the version and all the bits of `addr`.
abbrev pub same_ip : CorkIp → CorkIp → Bool
same_ip addr addr' = network_has addr (bits_of addr) addr'

pub family_of-bits : (addr : CorkIp) → (family_of addr).bit_size ≡ bits_of addr
family_of-bits addr = elim (Bool-cases (addr.version == 4)) [
  | inl four ↦ rw four refl
  | inr six ↦ rw six refl
]

family_of-discriminator : (addr : CorkIp) → (family_of addr).discriminator ≡ (addr.version == 4)
family_of-discriminator addr = elim (Bool-cases (addr.version == 4)) [
  | inl four ↦ rw four refl
  | inr six ↦ rw six refl
]

pub in_network-family_of :
    (addr addr' : CorkIp) (n : ℕ)
    → in_network (family_of addr) addr.ip n (family_of addr') addr'.ip ≡ network_has addr n addr'
unfolding in_network
in_network-family_of addr addr' n =
    ap (λ d. same_bit d (family_of addr').discriminator && same_bits addr.ip addr'.ip 0 n)
      (family_of-discriminator addr)
    ∙ ap (λ d. same_bit (addr.version == 4) d && same_bits addr.ip addr'.ip 0 n)
        (family_of-discriminator addr')

pub in_network-same_ip :
    (addr addr' : CorkIp)
    → in_network (family_of addr) addr.ip (family_of addr).bit_size (family_of addr') addr'.ip
      ≡ same_ip addr addr'
in_network-same_ip addr addr' =
    in_network-family_of addr addr' (family_of addr).bit_size
    ∙ ap (λ n. network_has addr n addr') (family_of-bits addr)

pub family_of-small : (addr : CorkIp) → (family_of addr).bit_size ≤ 128
family_of-small addr = elim (Bool-cases (addr.version == 4)) [
  | inl four ↦ rw four (omega arith)
  | inr six ↦ rw six (omega arith)
]

module _ ⦃T : NodeTable⦄ {s : IpSet} (v : Valid s) (room : HasRoom s) (addr : CorkIp) where
  -- With room for an insertion, `ip_add` succeeds on a valid set, and `contains_ip` is then true of
  -- the addresses with the version and bits of the one that was added (32 bits for version 4, 128 for
  -- any other, which all count as the same), and as before of all others.
  pub ip_add-ok : Gives (ip_add s addr) (λ r.
      (addr' : CorkIp)
      → contains_ip r.set addr' ≡ (if same_ip addr addr' then some true else contains_ip s addr'))
  unfolding ip_add contains_ip
  ip_add-ok =
      let (r, e, w) = add-ok (family_of addr) addr.ip v room (family_of-small addr) in
      (
        r,
        e,
        λ addr'.
            w.others (family_of addr') addr'.ip
            ∙ ap (λ there. if there then some true else contains (family_of addr') s addr'.ip)
                (in_network-same_ip addr addr'),
      )

  -- With room for an insertion, `ip_remove` succeeds on a valid set, and `contains_ip` is then
  -- false of the addresses with the version and bits of the one that was removed (as for `ip_add`), and as before of
  -- all others.
  pub ip_remove-ok : Gives (ip_remove s addr) (λ r.
      (addr' : CorkIp)
      → contains_ip r.set addr' ≡ (if same_ip addr addr' then some false else contains_ip s addr'))
  unfolding ip_remove contains_ip
  ip_remove-ok =
      let (r, e, w) = remove-ok (family_of addr) addr.ip v room (family_of-small addr) in
      (
        r,
        e,
        λ addr'.
            w.others (family_of addr') addr'.ip
            ∙ ap (λ there. if there then some false else contains (family_of addr') s addr'.ip)
                (in_network-same_ip addr addr'),
      )
