-- ===== src/Map/Dispatch.antt =====
-- The operations on a `struct cork_ip` of src/libipset/map/inspection.c, for either version.
use libcorkipset.Prelude.{ap, ◌∙◌, ℕ, ◌^◌, ◌<◌, ◌≡◌, some, if◌then◌else◌, Gives}
use libcorkipset.Node.{NodeTable}
use libcorkipset.Address.{CorkIp, family_of}
use libcorkipset.Set.Dispatch.{same_ip, in_network-same_ip, family_of-small}
use libcorkipset.Map.{IpMap, ip_set, ip_get, get}
use libcorkipset.Map.Valid.{Valid, HasRoom}
use libcorkipset.Map.Laws.{set-ok}

module _ ⦃T : NodeTable⦄ {m : IpMap} (v : Valid m) (room : HasRoom m) (addr : CorkIp) where
  -- With room for an insertion and a value below 2^31, `ip_set` succeeds on a valid map, and
  -- `ip_get` then gives the value at the addresses with the version and bits of the one that was
  -- set (32 bits for version 4, 128 for any other, which all count as the same), and what it gave before at all others.
  pub ip_set-ok :
      (value : ℕ)
      → value < 2 ^ 31
      → Gives (ip_set m addr value) (λ r.
        (addr' : CorkIp)
        → ip_get r.map addr' ≡ (if same_ip addr addr' then some value else ip_get m addr'))
  unfolding ip_set ip_get
  ip_set-ok value small =
      let (r, e, w) = set-ok (family_of addr) addr.ip v room value small (family_of-small addr) in
      (
        r,
        e,
        λ addr'.
            w.others (family_of addr') addr'.ip
            ∙ ap (λ there. if there then some value else get (family_of addr') m addr'.ip)
                (in_network-same_ip addr addr'),
      )
