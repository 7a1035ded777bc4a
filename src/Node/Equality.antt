-- ===== src/Node/Equality.antt =====
-- Equality and hash of nodes.
use libcorkipset.Prelude.{ℕ, ◌≡◌, true, arith}
use libcorkipset.HashTable.{Compatible}
use libcorkipset.Node.{Node, node_hash, node_equals}

-- `ipset_node_equals` holds exactly when the variables and the two subtrees agree.
pub node_equals-fields :
    (k j : Node)
    → node_equals k j ≡ true
    → (k.variable ≡ j.variable) × (k.low ≡ j.low) × (k.high ≡ j.high)
unfolding node_equals
node_equals-fields k j h = ground arith

pub fields-node_equals :
    (k j : Node)
    → k.variable ≡ j.variable
    → k.low ≡ j.low
    → k.high ≡ j.high
    → node_equals k j ≡ true
unfolding node_equals
fields-node_equals k j p q r = ground arith

node_hash-equals :
    (hv : ℕ → ℕ → ℕ) (k j : Node) → node_equals k j ≡ true → node_hash hv k ≡ node_hash hv j
unfolding node_hash
node_hash-equals hv k j h = let (p, q, r) = node_equals-fields k j h in rw (p, q, r)

-- What libcork asks of the hash and of the equality that the cache installs.
pub node-Compatible : (hv : ℕ → ℕ → ℕ) → Compatible (node_hash hv) node_equals
unfolding node_equals
node-Compatible hv = record {
  hashes = node_hash-equals hv;
  reflexive = λ k. ground arith;
  symmetric = λ k j h. ground arith;
  transitive = λ i j k p q. ground arith;
}
