-- ===== src/Expanded.antt =====
-- The full assignments that a partial one stands for, one after the other:
-- src/libipset/bdd/expanded.c.
pub mod Full
pub mod Laws
pub mod Run
pub mod Expand
pub mod Count
use libcorkipset.Prelude.{
  ℕ, zero, suc, ◌+◌, ◌-◌, ◌/◌, ◌%◌, Bool, true, false, List, [], ◌∷◌, ◌++◌, ltb, ◌==◌,
  if◌then◌else◌, length, get_or, replicate,
}
use libcorkipset.Bits.{bit_get, bit_set}
use libcorkipset.Assignment.{Tribool, ipset_false, ipset_true, ipset_either, Assignment}

-- `values` is the used part of the byte buffer.
pub record ExpandedAssignment : Type 0 where
  pub finished : Bool
  pub values : List ℕ
  pub eithers : List ℕ

-- A round of the first loop: the value of variable `var`.
unfoldable pub add_known : Tribool → ℕ → ExpandedAssignment → ExpandedAssignment
add_known ipset_either var exp = record exp {
  values = bit_set exp.values var false;
  eithers = exp.eithers ++ var ∷ [];
}
add_known ipset_true var exp = record exp { values = bit_set exp.values var true }
add_known ipset_false var exp = record exp { values = bit_set exp.values var false }

-- The first loop, over `n` variables from `var` on.
unfoldable pub add_variables : List Tribool → (n var : ℕ) → ExpandedAssignment → ExpandedAssignment
unfolding add_known
add_variables values zero var exp = exp
add_variables values (suc n) var exp =
    add_variables values n (suc var) (add_known (get_or values var ipset_either) var exp)

-- The second loop: variables past the end of the vector.
unfoldable pub add_eithers : (n var : ℕ) → ExpandedAssignment → ExpandedAssignment
add_eithers zero var exp = exp
add_eithers (suc n) var exp =
    add_eithers n (suc var) (record exp { eithers = exp.eithers ++ var ∷ [] })

unfoldable pub initialize : ExpandedAssignment → Assignment → ℕ → ExpandedAssignment
unfolding add_variables add_eithers
initialize exp assignment var_count =
    let size = length assignment.values in
    let last_assignment = if ltb var_count size then var_count else size in
    add_eithers (var_count - last_assignment) last_assignment
      (add_variables assignment.values last_assignment 0 exp)

unfoldable pub expand : Assignment → ℕ → ExpandedAssignment
unfolding initialize
expand assignment var_count =
    let values_size = var_count / 8 + (if var_count % 8 == 0 then 0 else 1) in
    initialize (record { finished = false; values = replicate values_size 0; eithers = [] })
      assignment var_count

-- The loop of `ipset_expanded_assignment_advance`, with `i` EITHER variables to be looked at.
unfoldable pub carry : ℕ → ExpandedAssignment → ExpandedAssignment
carry zero exp = record exp { finished = true }
carry (suc idx) exp =
    let either_var = get_or exp.eithers idx 0 in
    elim (bit_get exp.values either_var) [
      | true ↦ carry idx (record exp { values = bit_set exp.values either_var false })
      | false ↦ record exp { values = bit_set exp.values either_var true }
    ]

unfoldable pub advance : ExpandedAssignment → ExpandedAssignment
unfolding carry
advance exp = if exp.finished then exp else carry (length exp.eithers) exp
