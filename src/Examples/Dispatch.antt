-- ===== src/Examples/Dispatch.antt =====
-- The laws of the operations on addresses of either version, at concrete addresses.
use libcorkipset.Prelude.{◌≡◌, true, [], ◌∷◌, some, if◌then◌else◌, Gives, arith}
use libcorkipset.Cache.{new}
use libcorkipset.Address.{CorkIp}
use libcorkipset.Set.{init, ip_add, contains_ip}
use libcorkipset.Set.Valid.{init-Valid, HasRoom}
use libcorkipset.Set.Dispatch.{same_ip, ip_add-ok}
use libcorkipset.Map as Maps
use libcorkipset.Map.{ip_set, ip_get}
use libcorkipset.Map.Valid as MapValid
use libcorkipset.Map.Dispatch.{ip_set-ok}
use libcorkipset.Examples.Table.{node_table}

abbrev host : CorkIp
host = record { version = 4; ip = 10 ∷ 1 ∷ 2 ∷ 3 ∷ [] }

set-HasRoom : HasRoom init
unfolding init new
set-HasRoom = omega arith

map-HasRoom : MapValid.HasRoom (Maps.init 7)
unfolding Maps.init new
map-HasRoom = omega arith

ip_add-ok_example : Gives (ip_add init host) (λ r.
    (addr' : CorkIp)
    → contains_ip r.set addr' ≡ (if same_ip host addr' then some true else contains_ip init addr'))
ip_add-ok_example = ip_add-ok init-Valid set-HasRoom host

ip_set-ok_example : Gives (ip_set (Maps.init 7) host 3) (λ r.
    (addr' : CorkIp)
    → ip_get r.map addr' ≡ (if same_ip host addr' then some 3 else ip_get (Maps.init 7) addr'))
ip_set-ok_example = ip_set-ok (MapValid.init-Valid 7 (omega arith)) map-HasRoom host 3 (omega arith)
