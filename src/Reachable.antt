-- ===== src/Reachable.antt =====
-- The nodes that a diagram uses: src/libipset/bdd/reachable.c. The visited set is a libcork hash
-- table of pointers, which ids are cast to.
pub mod Path
pub mod Visit
use libcorkipset.Prelude.{
  ℕ, zero, suc, ◌+◌, ◌*◌, Option, none, some, List, [], ◌∷◌, ◌==◌, if◌then◌else◌,
}
use mathlib.Core.Option
use libcorkipset.HashTable.{HashTable}
use libcorkipset.Node.{NodeTable}
use libcorkipset.NodeId.{get_type, nonterminal_node}
use libcorkipset.Cache.{NodeCache, get_nonterminal}

-- `sizeof(struct ipset_node)`: four words of four bytes.
abbrev pub node_bytes : ℕ
node_bytes = 16

-- Only nonterminals are queued. The queue's last element is taken first, so it comes first here.
abbrev pub append_nonterminal : ℕ → List ℕ → List ℕ
append_nonterminal node queue = if get_type node == nonterminal_node then node ∷ queue else queue

module _ ⦃T : NodeTable⦄ {hash : ℕ → ℕ} (V : HashTable ℕ hash ◌==◌) where
  -- The rounds of the loop are bounded by the fuel.
  unfoldable pub visit : ℕ → NodeCache → V.Table → List ℕ → ℕ → Option ℕ
  visit zero cache visited queue node_count = none
  visit (suc fuel) cache visited [] node_count = some node_count
  visit (suc fuel) cache visited (curr ∷ queue) node_count = elim (V.get visited curr) [
    | some _ ↦ visit fuel cache visited queue node_count
    | none ↦ elim (get_nonterminal cache curr) [
      | none ↦ none
      | some node ↦
          visit fuel cache (V.put visited curr 1)
            (append_nonterminal node.high (append_nonterminal node.low queue)) (node_count + 1)
    ]
  ]

  unfoldable pub reachable_count : ℕ → NodeCache → ℕ → Option ℕ
  unfolding visit
  reachable_count fuel cache node = visit fuel cache V.new (append_nonterminal node []) 0

  unfoldable pub memory_size : ℕ → NodeCache → ℕ → Option ℕ
  unfolding reachable_count
  memory_size fuel cache node = Option.map (λ n. n * node_bytes) (reachable_count fuel cache node)
