-- ===== src/Map.antt =====
-- IP maps: src/libipset/map/allocation.c, inspection.c and inspection-template.c.in. An `int` value
-- is the unsigned word that it is converted to on its way into the diagram.
pub mod Valid
pub mod Laws
pub mod Dispatch
use libcorkipset.Prelude.{ℕ, ◌+◌, Bool, Option, none, some, ltb, ◌==◌, if◌then◌else◌, List}
use libcorkipset.Node.{NodeTable}
use libcorkipset.NodeId.{terminal_node_id}
use libcorkipset.Cache.{NodeCache, new, decref}
use libcorkipset.Bdd.{evaluate, nodes_equal, replace}
use libcorkipset.Address.{Family, CorkIp, family_of, assignment}
use libcorkipset.Set.{IpsetError, cidr_out_of_range, depth}

module _ ⦃T : NodeTable⦄ where
  pub record IpMap : Type 0 where
    pub cache : NodeCache
    pub map_bdd : ℕ
    pub default_bdd : ℕ

  -- The error that a writer has set, and the map after it.
  pub record Reply : Type 0 where
    pub error : Option IpsetError
    pub map : IpMap

  unfoldable pub init : ℕ → IpMap
  init default_value = record {
    cache = new;
    map_bdd = terminal_node_id default_value;
    default_bdd = terminal_node_id default_value;
  }

  -- `ipmap_done` up to `ipset_node_cache_free`, which gives the memory back.
  unfoldable pub done : IpMap → Option NodeCache
  done map = elim (decref depth map.map_bdd map.cache) [
    | none ↦ none
    | some (u, cache) ↦ some cache
  ]

  unfoldable pub is_empty : IpMap → Bool
  is_empty map = map.map_bdd == map.default_bdd

  unfoldable pub is_equal : IpMap → IpMap → Option Bool
  is_equal map1 map2 = nodes_equal depth map1.cache map1.map_bdd map2.cache map2.map_bdd

  unfoldable pub get : Family → IpMap → List ℕ → Option ℕ
  get family map elem = evaluate depth map.cache map.map_bdd (assignment family elem)

  abbrev pub reply_of : IpMap → Option (ℕ × NodeCache) → Option Reply
  reply_of map none = none
  reply_of map (some (new_bdd, cache)) =
      some (record { error = none; map = record map { cache = cache; map_bdd = new_bdd } })

  abbrev pub out_of_range : Family → IpMap → ℕ → Reply
  out_of_range family map cidr_prefix = record {
    error = some (cidr_out_of_range cidr_prefix family.bit_size);
    map = map;
  }

  unfoldable pub set_network : Family → IpMap → List ℕ → ℕ → ℕ → Option Reply
  set_network family map elem cidr_prefix value =
      if ltb family.bit_size cidr_prefix
      then some (out_of_range family map cidr_prefix)
      else reply_of map
          (replace depth map.map_bdd (assignment family elem) (cidr_prefix + 1) value map.cache)

  unfoldable pub set : Family → IpMap → List ℕ → ℕ → Option Reply
  set family map elem value =
      reply_of map
        (replace depth map.map_bdd (assignment family elem) (family.bit_size + 1) value map.cache)

  -- The operations on a `struct cork_ip` dispatch on its version.
  unfoldable pub ip_set : IpMap → CorkIp → ℕ → Option Reply
  ip_set map addr value = set (family_of addr) map addr.ip value

  unfoldable pub ip_set_network : IpMap → CorkIp → ℕ → ℕ → Option Reply
  ip_set_network map addr cidr_prefix value =
      set_network (family_of addr) map addr.ip cidr_prefix value

  unfoldable pub ip_get : IpMap → CorkIp → Option ℕ
  ip_get map addr = get (family_of addr) map addr.ip
