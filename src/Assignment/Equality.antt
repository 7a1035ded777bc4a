-- ===== src/Assignment/Equality.antt =====
-- Equality of assignments, as functions from the variables.
use libcorkipset.Prelude.{
  ℕ, zero, suc, ◌≡◌, ◌↔◌, refl, sym, ◌∙◌, Bool, true, false, ◌&&◌, List, [], ◌∷◌, ltb,
  if◌then◌else◌, length, drop, arith, lt-cases, inl, inr,
}
use libcorkipset.Assignment.{
  Tribool, ipset_false, ipset_true, ipset_either, Assignment, same_tribool, same_values, all_either,
  equal, get,
}
use libcorkipset.Assignment.Laws.{lt→ltb, le→ltb, value_of, get-value_of}

same_tribool-eq : (x y : Tribool) → same_tribool x y ≡ true → x ≡ y
same_tribool-eq ipset_false ipset_false h = refl
same_tribool-eq ipset_true ipset_true h = refl
same_tribool-eq ipset_either ipset_either h = refl
same_tribool-eq ipset_false ipset_true h = absurd cc
same_tribool-eq ipset_false ipset_either h = absurd cc
same_tribool-eq ipset_true ipset_false h = absurd cc
same_tribool-eq ipset_true ipset_either h = absurd cc
same_tribool-eq ipset_either ipset_false h = absurd cc
same_tribool-eq ipset_either ipset_true h = absurd cc

same_tribool_refl : (x : Tribool) → same_tribool x x ≡ true
same_tribool_refl ipset_false = refl
same_tribool_refl ipset_true = refl
same_tribool_refl ipset_either = refl

and_assoc : (a b c : Bool) → ((a && b) && c) ≡ (a && (b && c))
and_assoc true b c = refl
and_assoc false b c = refl

and_true : {a b : Bool} → (a && b) ≡ true → (a ≡ true) × (b ≡ true)
and_true {a = true} h = (refl, h)
and_true {a = false} h = absurd cc

and_true_right : (a : Bool) → (a && true) ≡ a
and_true_right true = refl
and_true_right false = refl

abbrev smaller : List Tribool → List Tribool → ℕ
smaller xs ys = if ltb (length xs) (length ys) then length xs else length ys

abbrev equal_lists : List Tribool → List Tribool → Bool
equal_lists xs ys =
    same_values xs ys
    && (all_either (drop (smaller xs ys) xs) && all_either (drop (smaller xs ys) ys))

equal_lists-cons :
    (x y : Tribool) (xs ys : List Tribool)
    → equal_lists (x ∷ xs) (y ∷ ys) ≡ (same_tribool x y && equal_lists xs ys)
equal_lists-cons x y xs ys = elim (lt-cases (length xs) (length ys)) [
  | inl lt ↦
      rw
        (
          lt→ltb (length xs) (length ys) lt,
          lt→ltb (suc (length xs)) (suc (length ys)) (omega arith),
        )
        (and_assoc (same_tribool x y) (same_values xs ys) _)
  | inr le ↦
      rw
        (
          le→ltb (length xs) (length ys) le,
          le→ltb (suc (length xs)) (suc (length ys)) (omega arith),
        )
        (and_assoc (same_tribool x y) (same_values xs ys) _)
]

all_either-value_of :
    (xs : List Tribool) → (all_either xs ≡ true) ↔ ((j : ℕ) → value_of xs j ≡ ipset_either)
all_either-value_of [] = ((λ h j. refl), (λ h. refl))
all_either-value_of (x ∷ xs) =
    let (to, from) = all_either-value_of xs in
    (
      (λ h. by_index (same_tribool-eq x ipset_either (and_true h).0) (to (and_true h).1)),
      (λ h. rw (h 0) (from (λ j. h (suc j)))),
    )
  where
    by_index :
        x ≡ ipset_either
        → ((j : ℕ) → value_of xs j ≡ ipset_either)
        → (j : ℕ) → value_of (x ∷ xs) j ≡ ipset_either
    by_index e h zero = e
    by_index e h (suc j) = h j

equal_lists-nil : (ys : List Tribool) → equal_lists [] ys ≡ all_either ys
equal_lists-nil [] = refl
equal_lists-nil (y ∷ ys) = rw (lt→ltb 0 (suc (length ys)) (omega arith))

equal_lists-nil_right : (xs : List Tribool) → equal_lists xs [] ≡ all_either xs
equal_lists-nil_right [] = refl
equal_lists-nil_right (x ∷ xs) =
    rw (le→ltb (suc (length xs)) 0 (omega arith)) (and_true_right (all_either (x ∷ xs)))

equal_lists-ok :
    (xs ys : List Tribool) → (equal_lists xs ys ≡ true) ↔ ((j : ℕ) → value_of xs j ≡ value_of ys j)
equal_lists-ok [] ys =
    let (to, from) = all_either-value_of ys in
    (
      (λ h j. sym (to (sym (equal_lists-nil ys) ∙ h) j)),
      (λ h. equal_lists-nil ys ∙ from (λ j. sym (h j))),
    )
equal_lists-ok (x ∷ xs) [] =
    let (to, from) = all_either-value_of (x ∷ xs) in
    (
      (λ h j. to (sym (equal_lists-nil_right (x ∷ xs)) ∙ h) j),
      (λ h. equal_lists-nil_right (x ∷ xs) ∙ from h),
    )
equal_lists-ok (x ∷ xs) (y ∷ ys) =
    let (to, from) = equal_lists-ok xs ys in
    let step = equal_lists-cons x y xs ys in
    (
      (λ h.
          let parts = and_true (sym step ∙ h) in
          by_index (same_tribool-eq x y parts.0) (to parts.1)),
      (λ h. step ∙ rw (h 0, same_tribool_refl y) (from (λ j. h (suc j)))),
    )
  where
    by_index :
        x ≡ y
        → ((j : ℕ) → value_of xs j ≡ value_of ys j)
        → (j : ℕ) → value_of (x ∷ xs) j ≡ value_of (y ∷ ys) j
    by_index e h zero = e
    by_index e h (suc j) = h j

-- `equal` is true exactly if the two assignments give every variable the same value, whatever the
-- lengths of their vectors.
pub equal-ok : (a1 a2 : Assignment) → (equal a1 a2 ≡ true) ↔ ((var : ℕ) → get a1 var ≡ get a2 var)
unfolding equal
equal-ok a1 a2 =
    let (to, from) = equal_lists-ok a1.values a2.values in
    (
      (λ h var. get-value_of a1 var ∙ to h var ∙ sym (get-value_of a2 var)),
      (λ h. from (λ j. sym (get-value_of a1 j) ∙ h j ∙ get-value_of a2 j)),
    )
