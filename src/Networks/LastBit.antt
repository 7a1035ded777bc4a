-- ===== src/Networks/LastBit.antt =====
-- The prefix that a summarised network gets.
use libcorkipset.Prelude.{
  ℕ, zero, suc, ◌≤◌, ◌<◌, ◌≡◌, ◌≢◌, ◌⊎◌, inl, inr, refl, false, arith, eq-cases,
}
use libcorkipset.Assignment.{
  Assignment, Tribool, ipset_false, ipset_true, ipset_either, same_tribool, get,
}
use libcorkipset.Networks.{find_last_non_either_bit}

either-cases : (x : Tribool) → (x ≡ ipset_either) ⊎ (same_tribool x ipset_either ≡ false)
either-cases ipset_either = inl refl
either-cases ipset_false = inr refl
either-cases ipset_true = inr refl

not_either : (x : Tribool) → same_tribool x ipset_either ≡ false → x ≢ ipset_either
not_either ipset_false h e = absurd cc
not_either ipset_true h e = absurd cc
not_either ipset_either h e = absurd cc

-- `find_last_non_either_bit` gives the last variable from 1 to the starting bit that is not EITHER,
-- or 0 if they all are: no later one up to the starting bit is anything else.
pub find_last_non_either_bit-ok :
    (assignment : Assignment) (starting_bit : ℕ)
    → (find_last_non_either_bit assignment starting_bit ≤ starting_bit)
      × ((j : ℕ)
          → find_last_non_either_bit assignment starting_bit < j
          → j ≤ starting_bit
          → get assignment j ≡ ipset_either)
      × ((find_last_non_either_bit assignment starting_bit ≡ 0)
          ⊎ (get assignment (find_last_non_either_bit assignment starting_bit) ≢ ipset_either))
unfolding find_last_non_either_bit
find_last_non_either_bit-ok assignment zero =
    (omega arith, (λ j lt le. absurd (omega arith)), inl refl)
find_last_non_either_bit-ok assignment (suc i) = elim (either-cases (get assignment (suc i))) [
  | inl either ↦
      let (below, others, last) = find_last_non_either_bit-ok assignment i in
      rw either (
        omega arith,
        (λ j lt le. elim (eq-cases j (suc i)) [
          | inl e ↦ rw e either
          | inr ne ↦ others j lt (omega arith)
        ]),
        last,
      )
  | inr other ↦ rw other (
    omega arith,
    (λ j lt le. absurd (omega arith)),
    inr (not_either (get assignment (suc i)) other),
  )
]
