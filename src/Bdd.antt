-- ===== src/Bdd.antt =====
-- The operators of src/libipset/bdd/basics.c on whole diagrams: evaluation, comparison, and
-- insertion by if-then-else.
pub mod Branch
pub mod Insert
pub mod Evaluate
pub mod Replace
pub mod Owner
use libcorkipset.Prelude.{
  ℕ, zero, suc, ◌+◌, ◌%◌, ◌^◌, Bool, true, false, ◌&&◌, Option, none, some, ltb, ◌==◌,
  if◌then◌else◌,
}
use libcorkipset.Node.{Node, NodeTable}
use libcorkipset.NodeId.{
  word, get_type, nonterminal_node, terminal_node, terminal_value, terminal_node_id,
  nonterminal_value,
}
use libcorkipset.Cache.{
  NodeCache, get_nonterminal, M, pure, out_of_fuel, ◌>>=◌, ◌>>◌, load, incref, decref, nonterminal,
}

-- An `ipset_assignment_func` with its `user_data`.
abbrev pub AssignmentFunc : Type 0
AssignmentFunc = ℕ → Bool

-- `struct ipset_fake_node`: a diagram that an assignment gives.
pub record FakeNode : Type 0 where
  pub current_var : ℕ
  pub var_count : ℕ
  pub assignment : AssignmentFunc
  pub value : ℕ

-- The static `fake_terminal_0` as each use of it sets it. Its assignment is never called.
abbrev pub fake_terminal_0 : ℕ → FakeNode
fake_terminal_0 var_count = record {
  current_var = var_count;
  var_count = var_count;
  assignment = λ v. false;
  value = 0;
}

-- `f` while its `current_var` is advanced.
abbrev pub next_var : FakeNode → FakeNode
next_var f = record f { current_var = (f.current_var + 1) % word }

module _ ⦃T : NodeTable⦄ where
  -- The rounds of the loop are bounded by the fuel; `none` as in `Cache`.
  unfoldable pub evaluate : ℕ → NodeCache → ℕ → AssignmentFunc → Option ℕ
  evaluate zero cache node_id assignment = none
  evaluate (suc fuel) cache node_id assignment = elim (get_type node_id == nonterminal_node) [
    | false ↦ some (terminal_value node_id)
    | true ↦ elim (get_nonterminal cache node_id) [
      | none ↦ none
      | some node ↦ elim (assignment node.variable) [
        | true ↦ evaluate fuel cache node.high assignment
        | false ↦ evaluate fuel cache node.low assignment
      ]
    ]
  ]

  -- `&&` that stops at a false left side.
  abbrev pub and_then : Option Bool → Option Bool → Option Bool
  and_then none k = none
  and_then (some false) k = some false
  and_then (some true) k = k

  unfoldable pub nodes_equal : ℕ → NodeCache → ℕ → NodeCache → ℕ → Option Bool
  nodes_equal zero cache1 node_id1 cache2 node_id2 = none
  nodes_equal (suc fuel) cache1 node_id1 cache2 node_id2 =
      elim (get_type node_id1 == get_type node_id2) [
        | false ↦ some false
        | true ↦ elim (get_type node_id1 == terminal_node) [
          | true ↦ some (node_id1 == node_id2)
          | false ↦ elim (get_nonterminal cache1 node_id1) [
            | none ↦ none
            | some node1 ↦ elim (get_nonterminal cache2 node_id2) [
              | none ↦ none
              | some node2 ↦ elim (node1.variable == node2.variable) [
                | false ↦ some false
                | true ↦
                    and_then (nodes_equal fuel cache1 node1.low cache2 node2.low)
                      (nodes_equal fuel cache1 node1.high cache2 node2.high)
              ]
            ]
          ]
        ]
      ]

  -- Both branches of `f` and of the operand: the high recursion comes first.
  unfoldable pub branch_both :
      ((f : FakeNode) → ℕ → M ℕ) → (fuel : ℕ) → FakeNode → (h_low h_high : ℕ) → M ℕ
  branch_both apply fuel f h_low h_high =
      if f.assignment f.current_var
      then (do
        result_high ← apply (next_var f) h_high
        result_low ← apply (fake_terminal_0 f.var_count) h_low
        nonterminal fuel f.current_var result_low result_high)
      else (do
        result_high ← apply (fake_terminal_0 f.var_count) h_high
        result_low ← apply (next_var f) h_low
        nonterminal fuel f.current_var result_low result_high)

  -- `var(F) > var(H)`: only the branches of the operand. The node is read again after a call.
  unfoldable pub branch_operand : ((f : FakeNode) → ℕ → M ℕ) → (fuel : ℕ) → FakeNode → (h : ℕ) → M ℕ
  branch_operand apply fuel f h = do
    h_node ← load (nonterminal_value h)
    result_high ← apply f h_node.high
    h_node' ← load (nonterminal_value h)
    result_low ← apply f h_node'.low
    h_node'' ← load (nonterminal_value h)
    nonterminal fuel h_node''.variable result_low result_high

  unfoldable pub branch : ((f : FakeNode) → ℕ → M ℕ) → (fuel : ℕ) → FakeNode → (h : ℕ) → M ℕ
  unfolding branch_both branch_operand
  branch apply fuel f h =
      if get_type h == nonterminal_node
      then (do
        h_node ← load (nonterminal_value h)
        if ltb h_node.variable f.current_var
            then branch_operand apply fuel f h
            else (if h_node.variable == f.current_var
                then branch_both apply fuel f h_node.low h_node.high
                else branch_both apply fuel f h h))
      else branch_both apply fuel f h h

  -- The fuel bounds the depth of the recursion.
  unfoldable pub apply_ite : ℕ → FakeNode → ℕ → ℕ → M ℕ
  unfolding branch
  apply_ite zero f g h = out_of_fuel
  apply_ite (suc fuel) f g h =
      if f.current_var == f.var_count
      then (if f.value == 0 then incref h else pure (terminal_node_id g))
      else (if h == terminal_node_id g
          then pure h
          else branch (λ f'. apply_ite fuel f' g) (suc fuel) f h)

  unfoldable pub insert : ℕ → ℕ → AssignmentFunc → ℕ → ℕ → M ℕ
  unfolding apply_ite
  insert fuel node assignment var_count value =
      apply_ite fuel
        (record { current_var = 0; var_count = var_count; assignment = assignment; value = 1 })
        value node

  -- What every writer of a set or a map does: insert, give up the old diagram, keep the new one.
  unfoldable pub replace : ℕ → ℕ → AssignmentFunc → ℕ → ℕ → M ℕ
  unfolding insert
  replace fuel old_bdd assignment var_count value = do
    new_bdd ← insert fuel old_bdd assignment var_count value
    decref fuel old_bdd
    pure new_bdd
