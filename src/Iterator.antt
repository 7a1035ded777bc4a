-- ===== src/Iterator.antt =====
-- The walk through the paths of a diagram: src/libipset/bdd/bdd-iterator.c. The cache is not
-- changed while an iterator is in use, so it is an argument of each operation.
pub mod Paths
pub mod Walk
use libcorkipset.Prelude.{ℕ, zero, suc, Bool, true, false, Option, none, some, List, [], ◌∷◌, ◌==◌}
use libcorkipset.Node.{NodeTable}
use libcorkipset.NodeId.{get_type, nonterminal_node, terminal_value}
use libcorkipset.Cache.{NodeCache, get_nonterminal}
use libcorkipset.Assignment as Partial
use libcorkipset.Assignment.{Assignment, ipset_false, ipset_true, ipset_either, same_tribool}

-- The top of the stack, the end of the C array, comes first.
pub record BddIterator : Type 0 where
  pub finished : Bool
  pub stack : List ℕ
  pub assignment : Assignment
  pub value : ℕ

module _ ⦃T : NodeTable⦄ where
  -- The fuel bounds the length of the path; `none` as in `Cache`.
  unfoldable pub add_node : ℕ → NodeCache → BddIterator → ℕ → Option BddIterator
  add_node zero cache iterator node_id = none
  add_node (suc fuel) cache iterator node_id = elim (get_type node_id == nonterminal_node) [
    | false ↦ some (record iterator { value = terminal_value node_id })
    | true ↦ elim (get_nonterminal cache node_id) [
      | none ↦ none
      | some node ↦
          add_node fuel cache
            (record iterator {
              stack = node_id ∷ iterator.stack;
              assignment = Partial.set iterator.assignment node.variable ipset_false;
            })
            node.low
    ]
  ]

  -- `value` is not initialised by C before `add_node` sets it.
  unfoldable pub iterate : ℕ → NodeCache → ℕ → Option BddIterator
  unfolding add_node
  iterate fuel cache root =
      add_node fuel cache
        (record { finished = false; stack = []; assignment = Partial.new; value = 0 }) root

  -- The loop of `ipset_bdd_iterator_advance`, over the stack.
  unfoldable pub backtrack : ℕ → NodeCache → List ℕ → Assignment → ℕ → Option BddIterator
  unfolding add_node
  backtrack fuel cache [] assignment value =
      some (record { finished = true; stack = []; assignment = assignment; value = value })
  backtrack fuel cache (last_node_id ∷ stack) assignment value =
      elim (get_nonterminal cache last_node_id) [
        | none ↦ none
        | some last_node ↦
            elim (same_tribool (Partial.get assignment last_node.variable) ipset_true) [
              | true ↦
                  backtrack fuel cache stack
                    (Partial.set assignment last_node.variable ipset_either) value
              | false ↦
                  add_node fuel cache
                    (record {
                      finished = false;
                      stack = last_node_id ∷ stack;
                      assignment = Partial.set assignment last_node.variable ipset_true;
                      value = value;
                    })
                    last_node.high
            ]
      ]

  unfoldable pub advance : ℕ → NodeCache → BddIterator → Option BddIterator
  unfolding backtrack
  advance fuel cache iterator = elim iterator.finished [
    | true ↦ some iterator
    | false ↦ backtrack fuel cache iterator.stack iterator.assignment iterator.value
  ]
