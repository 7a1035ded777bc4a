-- ===== src/Node.antt =====
-- `struct ipset_node` of include/ipset/bdd/nodes.h with its hash and equality
-- (src/libipset/bdd/basics.c), and the table of nodes.
pub mod Equality
use libcorkipset.Prelude.{ℕ, ◌^◌, Bool, ◌&&◌, ◌==◌}
use libcorkipset.HashTable.{HashTable}

pub record Node : Type 0 where
  pub refcount : ℕ
  pub variable : ℕ
  pub low : ℕ
  pub high : ℕ

-- `hash_variable` stands for libcork's `cork_hash_variable`.
unfoldable pub node_hash : (ℕ → ℕ → ℕ) → Node → ℕ
node_hash hash_variable node =
    let hash : ℕ = 0xf3b7dc44 in
    let hash : ℕ = hash_variable hash node.variable in
    let hash : ℕ = hash_variable hash node.low in hash_variable hash node.high

-- The C function first compares the two pointers; a node has the contents that it has.
unfoldable pub node_equals : Node → Node → Bool
node_equals node1 node2 =
    (node1.variable == node2.variable) && ((node1.low == node2.low) && (node1.high == node2.high))

-- The hash table of a node cache, with libcork's hash function.
pub record NodeTable : Type 1 where
  pub hash_variable : ℕ → ℕ → ℕ
  pub table : HashTable ℕ (node_hash hash_variable) node_equals
