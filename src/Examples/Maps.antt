-- ===== src/Examples/Maps.antt =====
-- The laws of maps at concrete maps.
use libcorkipset.Prelude.{
  ℕ, ◌+◌, ◌^◌, ◌≤◌, ◌≡◌, ◌↔◌, ◌⊎◌, Bool, true, false, List, [], ◌∷◌, some, Gives, arith,
}
use libcorkipset.Tree.{SameFunction}
use libcorkipset.Cache.{new}
use libcorkipset.Address.{ipv4, ipv6, assignment}
use libcorkipset.Map.{init, set, set_network, is_empty, is_equal, get}
use libcorkipset.Map.Valid.{Valid, init-Valid, value_at, HasRoom}
use libcorkipset.Map.Laws.{
  Written, NetworkWritten, set-ok, set_network-ok, map_empty-ok, map_equal-ok, get-ok,
}
use libcorkipset.Examples.Table.{node_table}

abbrev pub host : List ℕ
host = 10 ∷ 1 ∷ 2 ∷ 3 ∷ []

-- 2001:db8::1
abbrev host6 : List ℕ
host6 = 32 ∷ 1 ∷ 13 ∷ 184 ∷ 0 ∷ 0 ∷ 0 ∷ 0 ∷ 0 ∷ 0 ∷ 0 ∷ 0 ∷ 0 ∷ 0 ∷ 0 ∷ 1 ∷ []

abbrev pub empty-Valid : Valid (init 7)
empty-Valid = init-Valid 7 (omega arith)

pub empty-HasRoom : HasRoom (init 7)
unfolding init new
empty-HasRoom = omega arith

-- The map with default 7 and the value 3 at one address.
abbrev pub hosts : Gives (set ipv4 (init 7) host 3) (Written (init 7) empty-Valid ipv4 host 32 3)
hosts = set-ok ipv4 host empty-Valid empty-HasRoom 3 (omega arith) (omega arith)

HasRoom-new : (n : ℕ) → n ≤ 260 → n + 260 ≤ 2 ^ 31
HasRoom-new n h = omega arith

hosts-HasRoom : HasRoom hosts.0.map
unfolding init new
hosts-HasRoom = HasRoom-new hosts.0.map.cache.largest_index hosts.2.growth

set-ok_example : Gives (set ipv4 (init 7) host 3) (Written (init 7) empty-Valid ipv4 host 32 3)
set-ok_example = set-ok ipv4 host empty-Valid empty-HasRoom 3 (omega arith) (omega arith)

set_network-ok_example :
    Gives
      (set_network ipv6 hosts.0.map host6 48 5)
      (NetworkWritten hosts.0.map hosts.2.valid ipv6 host6 48 5)
set_network-ok_example =
    set_network-ok ipv6 host6 hosts.2.valid hosts-HasRoom 5 (omega arith) 48 (omega arith)

get-ok_example : get ipv4 hosts.0.map host ≡ some (value_at hosts.2.valid (assignment ipv4 host))
get-ok_example = get-ok ipv4 host hosts.2.valid

map_empty-ok_example :
    (is_empty hosts.0.map ≡ true)
    ↔ ((b : ℕ → Bool) → value_at hosts.2.valid b ≡ hosts.2.valid.default_value)
map_empty-ok_example = map_empty-ok hosts.2.valid

map_equal-ok_example :
    ((is_equal hosts.0.map (init 7) ≡ some true) × SameFunction hosts.2.valid.tree empty-Valid.tree)
    ⊎ ((is_equal hosts.0.map (init 7) ≡ some false)
        × ¬ SameFunction hosts.2.valid.tree empty-Valid.tree)
map_equal-ok_example = map_equal-ok hosts.2.valid empty-Valid
