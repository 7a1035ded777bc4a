-- ===== src/Examples/Runs.antt =====
-- A run: two insertions into the diagram of a new cache, and three evaluations.
use libcorkipset.Prelude.{ℕ, ◌≡◌, refl, Bool, true, false, Option, none, some, ◌==◌, if◌then◌else◌}
use libcorkipset.Node.{node_hash, node_equals}
use libcorkipset.NodeId.{
  get_type, terminal_value, terminal_node_id, nonterminal_value, nonterminal_node_id,
}
use libcorkipset.Cache.{
  new, ◌>>=◌, get_nonterminal_by_index, get_nonterminal, set_nonterminal_by_index, load, store,
  alloc_node, alloc_fresh, alloc_reused, incref, decref, decrement, reclaim, create, reuse,
  nonterminal, chunk_index, chunk_offset,
}
use libcorkipset.Bdd.{evaluate, insert, apply_ite, branch, branch_both, branch_operand}
use libcorkipset.Examples.Assoc.{find, without}
use libcorkipset.Examples.Table.{node_table}

-- Variables 0 and 1 are true, all others false.
abbrev two : ℕ → Bool
two v = if v == 0 then true else v == 1

abbrev one : ℕ → Bool
one v = v == 0

abbrev nothing : ℕ → Bool
nothing v = false

abbrev after_run : (ℕ → Bool) → Option ℕ
after_run a = elim ((do b ← insert 5 1 two 2 1; insert 5 b one 2 1) new) [
  | none ↦ none
  | some (id, cache) ↦ evaluate 5 cache id a
]

after_run_test : (after_run two ≡ some 1) × (after_run one ≡ some 1) × (after_run nothing ≡ some 0)
unfolding find without node_hash node_equals get_type terminal_value terminal_node_id
    nonterminal_value nonterminal_node_id new get_nonterminal_by_index get_nonterminal
    set_nonterminal_by_index load store alloc_node alloc_fresh alloc_reused incref decref decrement
    reclaim create reuse nonterminal chunk_index chunk_offset evaluate insert apply_ite branch
    branch_both branch_operand
after_run_test = (refl, refl, refl)
