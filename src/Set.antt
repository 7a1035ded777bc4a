-- ===== src/Set.antt =====
-- IP sets: src/libipset/set/allocation.c, inspection.c and inspection-template.c.in.
pub mod Valid
pub mod Laws
pub mod Dispatch
use libcorkipset.Prelude.{
  ℕ, ◌+◌, Bool, true, false, not, Option, none, some, ltb, ◌==◌, if◌then◌else◌, List,
}
use mathlib.Core.Option
use libcorkipset.Node.{NodeTable}
use libcorkipset.NodeId.{terminal_node_id}
use libcorkipset.Cache.{NodeCache, new, decref}
use libcorkipset.Bdd.{evaluate, nodes_equal, replace}
use libcorkipset.Address.{Family, CorkIp, family_of, assignment}

-- Bounds the depth of every recursion: the variables are 0 to 128.
abbrev pub depth : ℕ
depth = 130

-- What `cork_error_set` records: "CIDR block %u out of range [0..%u]".
pub data IpsetError : Type 0 where
  cidr_out_of_range : (cidr_prefix bit_size : ℕ) → IpsetError

module _ ⦃T : NodeTable⦄ where
  pub record IpSet : Type 0 where
    pub cache : NodeCache
    pub set_bdd : ℕ

  -- A writer's return value, the error that it has set, and the set after it.
  pub record Reply : Type 0 where
    pub result : Bool
    pub error : Option IpsetError
    pub set : IpSet

  unfoldable pub init : IpSet
  init = record { cache = new; set_bdd = terminal_node_id 0 }

  -- `ipset_done` up to `ipset_node_cache_free`, which gives the memory back.
  unfoldable pub done : IpSet → Option NodeCache
  done set = elim (decref depth set.set_bdd set.cache) [
    | none ↦ none
    | some (u, cache) ↦ some cache
  ]

  unfoldable pub is_empty : IpSet → Bool
  is_empty set = set.set_bdd == terminal_node_id 0

  unfoldable pub is_equal : IpSet → IpSet → Option Bool
  is_equal set1 set2 = nodes_equal depth set1.cache set1.set_bdd set2.cache set2.set_bdd

  -- The value of the diagram, converted to `bool`.
  unfoldable pub contains : Family → IpSet → List ℕ → Option Bool
  contains family set elem =
      Option.map (λ v. not (v == 0)) (evaluate depth set.cache set.set_bdd (assignment family elem))

  abbrev pub reply_of : IpSet → Option (ℕ × NodeCache) → Option Reply
  reply_of set none = none
  reply_of set (some (new_bdd, cache)) = some (record {
    result = new_bdd == set.set_bdd;
    error = none;
    set = record { cache = cache; set_bdd = new_bdd };
  })

  abbrev pub out_of_range : Family → IpSet → ℕ → Reply
  out_of_range family set cidr_prefix = record {
    result = false;
    error = some (cidr_out_of_range cidr_prefix family.bit_size);
    set = set;
  }

  unfoldable pub add : Family → IpSet → List ℕ → Option Reply
  add family set elem =
      reply_of set
        (replace depth set.set_bdd (assignment family elem) (family.bit_size + 1) 1 set.cache)

  unfoldable pub remove : Family → IpSet → List ℕ → Option Reply
  remove family set elem =
      reply_of set
        (replace depth set.set_bdd (assignment family elem) (family.bit_size + 1) 0 set.cache)

  unfoldable pub add_network : Family → IpSet → List ℕ → ℕ → Option Reply
  add_network family set elem cidr_prefix =
      if ltb family.bit_size cidr_prefix
      then some (out_of_range family set cidr_prefix)
      else reply_of set
          (replace depth set.set_bdd (assignment family elem) (cidr_prefix + 1) 1 set.cache)

  unfoldable pub remove_network : Family → IpSet → List ℕ → ℕ → Option Reply
  remove_network family set elem cidr_prefix =
      if ltb family.bit_size cidr_prefix
      then some (out_of_range family set cidr_prefix)
      else reply_of set
          (replace depth set.set_bdd (assignment family elem) (cidr_prefix + 1) 0 set.cache)

  -- The operations on a `struct cork_ip` dispatch on its version.
  unfoldable pub ip_add : IpSet → CorkIp → Option Reply
  ip_add set addr = add (family_of addr) set addr.ip

  unfoldable pub ip_add_network : IpSet → CorkIp → ℕ → Option Reply
  ip_add_network set addr cidr_prefix = add_network (family_of addr) set addr.ip cidr_prefix

  unfoldable pub ip_remove : IpSet → CorkIp → Option Reply
  ip_remove set addr = remove (family_of addr) set addr.ip

  unfoldable pub ip_remove_network : IpSet → CorkIp → ℕ → Option Reply
  ip_remove_network set addr cidr_prefix = remove_network (family_of addr) set addr.ip cidr_prefix

  unfoldable pub contains_ip : IpSet → CorkIp → Option Bool
  contains_ip set addr = contains (family_of addr) set addr.ip
