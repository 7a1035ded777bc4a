-- ===== src/Examples/Walks.antt =====
-- Walks through the diagram of a concrete set and the assignments of a partial one.
use libcorkipset.Prelude.{ℕ, suc, ◌≡◌, refl, true, false, some, List, [], ◌∷◌, arith, length}
use libcorkipset.Assignment.{Assignment, ipset_true, ipset_either, get}
use libcorkipset.Expanded.{expand}
use libcorkipset.Expanded.Full.{fulls}
use libcorkipset.Expanded.Run.{expansions}
use libcorkipset.Expanded.Expand.{expand-fulls}
use libcorkipset.Networks.{IpsetIterator, create_iterator}
use libcorkipset.Networks.Listing.{listing}
use libcorkipset.Networks.Whole.{networks_seen, networks_seen-listing}
use libcorkipset.Iterator.Walk.{walk, viewed, walk-paths}
use libcorkipset.Iterator.Paths.{paths, nothing_fixed, view}
use libcorkipset.Examples.Table.{node_table}
use libcorkipset.Examples.Sets.{hosts, host}
use libcorkipset.Address.{ipv4}
use libcorkipset.Set.{init, contains}
use libcorkipset.Set.Valid.{init-Valid}
use libcorkipset.Networks.Listing.{Network}
use libcorkipset.Networks.Cover.{lies_in}
use libcorkipset.Networks.Exact.{CountsMember, networks_seen-members}
use libcorkipset.Expanded.Count.{how_many}
use libcorkipset.Examples.Files.{host_short}

abbrev rounds : ℕ
rounds = suc (length (paths nothing_fixed hosts.2.valid.tree))

walk-paths_example :
    (seen : List (Assignment × ℕ)) × (walk rounds 130 hosts.0.set.cache hosts.0.set.set_bdd
      ≡ some seen)
    × (viewed seen ≡ paths nothing_fixed hosts.2.valid.tree)
walk-paths_example =
    walk-paths hosts.2.valid.owns.inv 129 130 rounds hosts.0.set.set_bdd hosts.2.valid.tree
      hosts.2.valid.owns.repr hosts.2.valid.owns.ordered host_short (omega arith)

-- The variables 0 and 2 are open, 1 is true.
abbrev partial_one : Assignment
partial_one = record { values = ipset_either ∷ ipset_true ∷ [] }

expand-fulls_example : expansions 5 (expand partial_one 3) ≡ some (fulls (view partial_one) 3)
unfolding get
expand-fulls_example = expand-fulls partial_one 3 5 (omega arith)

abbrev path_count : ℕ
path_count = length (paths nothing_fixed hosts.2.valid.tree)

networks_seen-listing_example :
    (it : IpsetIterator) × (create_iterator (suc path_count) 130 hosts.0.set 1 true ≡ some it)
    × (networks_seen
          (suc (length (listing true 1 (paths nothing_fixed hosts.2.valid.tree))))
          (suc path_count)
          130
          hosts.0.set.cache
          it
        ≡ some (listing true 1 (paths nothing_fixed hosts.2.valid.tree)))
networks_seen-listing_example =
    networks_seen-listing hosts.0.set hosts.2.valid 130 path_count true 1
      (suc (length (listing true 1 (paths nothing_fixed hosts.2.valid.tree)))) host_short
      (omega arith) (omega arith)

-- The two networks of everything that is not in the empty set.
networks_seen-members_example :
    (it : IpsetIterator) × (create_iterator 2 130 init 0 true ≡ some it)
    × (ns : List Network) × (networks_seen 3 2 130 init.cache it ≡ some ns)
    × CountsMember (how_many (lies_in ipv4 host) ns) (contains ipv4 init host) false
unfolding init
networks_seen-members_example =
    networks_seen-members init init-Valid 130 1 3 true false ipv4 host (omega arith) (omega arith)
      (omega arith) (λ e. ((λ ne j le. refl), tt))
