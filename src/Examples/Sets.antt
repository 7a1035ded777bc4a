-- ===== src/Examples/Sets.antt =====
-- The laws of sets at concrete sets.
use libcorkipset.Prelude.{
  ℕ, ◌+◌, ◌^◌, ◌≤◌, ◌≡◌, ◌↔◌, ◌⊎◌, Bool, true, false, List, [], ◌∷◌, some, Gives, arith,
}
use libcorkipset.Cache.{new}
use libcorkipset.Address.{ipv4, assignment}
use libcorkipset.Set.{init, add, remove, add_network, remove_network, is_empty, is_equal, contains}
use libcorkipset.Set.Valid.{init-Valid, member, HasRoom}
use libcorkipset.Set.Laws.{
  Written, NetworkWritten, add-ok, remove-ok, add_network-ok, remove_network-ok, is_empty-ok,
  is_equal-ok, contains-ok,
}
use libcorkipset.Examples.Table.{node_table}

-- 10.1.2.3 and 10.1.0.0
abbrev pub host : List ℕ
host = 10 ∷ 1 ∷ 2 ∷ 3 ∷ []

abbrev site : List ℕ
site = 10 ∷ 1 ∷ 0 ∷ 0 ∷ []

pub init-HasRoom : HasRoom init
unfolding init new
init-HasRoom = omega arith

-- The set of one address.
abbrev pub hosts : Gives (add ipv4 init host) (Written init init-Valid ipv4 host 32 true)
hosts = add-ok ipv4 host init-Valid init-HasRoom (omega arith)

HasRoom-new : (n : ℕ) → n ≤ 260 → n + 260 ≤ 2 ^ 31
HasRoom-new n h = omega arith

hosts-HasRoom : HasRoom hosts.0.set
unfolding init new
hosts-HasRoom = HasRoom-new hosts.0.set.cache.largest_index hosts.2.growth

add-ok_example : Gives (add ipv4 init host) (Written init init-Valid ipv4 host 32 true)
add-ok_example = add-ok ipv4 host init-Valid init-HasRoom (omega arith)

remove-ok_example :
    Gives (remove ipv4 hosts.0.set host) (Written hosts.0.set hosts.2.valid ipv4 host 32 false)
remove-ok_example = remove-ok ipv4 host hosts.2.valid hosts-HasRoom (omega arith)

add_network-ok_example :
    Gives
      (add_network ipv4 hosts.0.set site 16)
      (NetworkWritten hosts.0.set hosts.2.valid ipv4 site 16 true)
add_network-ok_example = add_network-ok ipv4 site hosts.2.valid hosts-HasRoom 16 (omega arith)

remove_network-ok_example :
    Gives
      (remove_network ipv4 hosts.0.set site 24)
      (NetworkWritten hosts.0.set hosts.2.valid ipv4 site 24 false)
remove_network-ok_example = remove_network-ok ipv4 site hosts.2.valid hosts-HasRoom 24 (omega arith)

contains-ok_example :
    contains ipv4 hosts.0.set site ≡ some (member hosts.2.valid (assignment ipv4 site))
contains-ok_example = contains-ok ipv4 site hosts.2.valid

is_empty-ok_example :
    (is_empty hosts.0.set ≡ true) ↔ ((b : ℕ → Bool) → member hosts.2.valid b ≡ false)
is_empty-ok_example = is_empty-ok hosts.2.valid

is_equal-ok_example :
    ((is_equal hosts.0.set init ≡ some true)
      × ((b : ℕ → Bool) → member hosts.2.valid b ≡ member init-Valid b))
    ⊎ ((is_equal hosts.0.set init ≡ some false)
        × ¬ ((b : ℕ → Bool) → member hosts.2.valid b ≡ member init-Valid b))
is_equal-ok_example = is_equal-ok hosts.2.valid init-Valid
