-- ===== src/Assignment/Laws.antt =====
-- Assignments as functions from variables: reads after writes and cuts.
use libcorkipset.Prelude.{
  ℕ, zero, suc, ◌+◌, ◌-◌, ◌≤◌, ◌<◌, ◌≡◌, refl, ap, ◌∙◌, true, false, List, [], ◌∷◌, ◌++◌, ltb, ◌==◌,
  if◌then◌else◌, length, get_or, set as set_elem, take, replicate, arith, lt-cases, length-append,
  length-replicate, inl, inr,
}
use libcorkipset.Assignment.{Tribool, ipset_either, Assignment, cut, get, set}

pub lt→ltb : (a b : ℕ) → a < b → ltb a b ≡ true
lt→ltb a b h = ground arith

pub le→ltb : (a b : ℕ) → b ≤ a → ltb a b ≡ false
le→ltb a b h = ground arith

abbrev pub value_of : List Tribool → ℕ → Tribool
value_of xs j = get_or xs j ipset_either

value_of-past : (xs : List Tribool) (j : ℕ) → length xs ≤ j → value_of xs j ≡ ipset_either
value_of-past [] j h = refl
value_of-past (x ∷ xs) zero h = absurd (omega arith)
value_of-past (x ∷ xs) (suc j) h = value_of-past xs j (omega arith)

-- The bound check of `get` is that of the vector.
pub get-value_of : (a : Assignment) (j : ℕ) → get a j ≡ value_of a.values j
unfolding get
get-value_of a j = elim (lt-cases j (length a.values)) [
  | inl lt ↦ ground arith
  | inr le ↦ ground (arith, value_of-past a.values j le)
]

value_of-take :
    (xs : List Tribool) (n j : ℕ)
    → value_of (take n xs) j ≡ (if ltb j n then value_of xs j else ipset_either)
value_of-take xs zero j = ground arith
value_of-take [] (suc n) j = ground arith
value_of-take (x ∷ xs) (suc n) zero = ground arith
value_of-take (x ∷ xs) (suc n) (suc j) = value_of-take xs n j ∙ ground arith

value_of-set :
    (xs : List Tribool) (i j : ℕ) (v : Tribool)
    → i < length xs
    → value_of (set_elem xs i v) j ≡ (if i == j then v else value_of xs j)
value_of-set [] i j v h = absurd (omega arith)
value_of-set (x ∷ xs) zero zero v h = refl
value_of-set (x ∷ xs) zero (suc j) v h = ground arith
value_of-set (x ∷ xs) (suc i) zero v h = ground arith
value_of-set (x ∷ xs) (suc i) (suc j) v h = value_of-set xs i j v (omega arith) ∙ ground arith

value_of-replicate : (n j : ℕ) → value_of (replicate n ipset_either) j ≡ ipset_either
value_of-replicate zero j = refl
value_of-replicate (suc n) zero = refl
value_of-replicate (suc n) (suc j) = value_of-replicate n j

value_of-append :
    (xs : List Tribool) (n j : ℕ) → value_of (xs ++ replicate n ipset_either) j ≡ value_of xs j
value_of-append [] n j = value_of-replicate n j
value_of-append (x ∷ xs) n zero = refl
value_of-append (x ∷ xs) n (suc j) = value_of-append xs n j

-- A variable has the value that was set last, and the others keep theirs.
pub get-set :
    (a : Assignment) (var j : ℕ) (value : Tribool)
    → get (set a var value) j ≡ (if var == j then value else get a j)
unfolding set
get-set a var j value = elim (lt-cases var (length a.values)) [
  | inl lt ↦
      rw (get-value_of (set a var value) j, get-value_of a j, lt→ltb var (length a.values) lt)
        (value_of-set a.values var j value lt)
  | inr le ↦
      let n = var + 1 - length a.values in
      let long : var < length (a.values ++ replicate n ipset_either) = omega (
        arith,
        length-append a.values (replicate n ipset_either),
        length-replicate n ipset_either,
      ) in
      rw (get-value_of (set a var value) j, get-value_of a j, le→ltb var (length a.values) le)
        (value_of-set (a.values ++ replicate n ipset_either) var j value long
          ∙ ap (λ w. if var == j then value else w) (value_of-append a.values n j))
]

-- A cut makes a variable and all later ones EITHER, and keeps the earlier ones.
pub get-cut :
    (a : Assignment) (var j : ℕ) → get (cut a var) j ≡ (if ltb j var then get a j else ipset_either)
unfolding cut
get-cut a var j = elim (lt-cases var (length a.values)) [
  | inl lt ↦
      rw (get-value_of (cut a var) j, get-value_of a j, lt→ltb var (length a.values) lt)
        (value_of-take a.values var j)
  | inr le ↦
      rw (get-value_of (cut a var) j, get-value_of a j, le→ltb var (length a.values) le)
        (elim (lt-cases j var) [
          | inl lt ↦ rw (lt→ltb j var lt)
          | inr later ↦ rw (le→ltb j var later) (value_of-past a.values j (omega arith))
        ])
]
