-- ===== src/Assignment.antt =====
-- Partial assignments of the variables: src/libipset/bdd/assignments.c.
pub mod Laws
pub mod Equality
use libcorkipset.Prelude.{
  ℕ, ◌+◌, ◌-◌, Bool, true, false, ◌&&◌, List, [], ◌∷◌, ◌++◌, ltb, if◌then◌else◌, length, get_or,
  set as set_elem, take, drop, replicate,
}

-- `enum ipset_tribool`
pub data Tribool : Type 0 where
  ipset_false ipset_true ipset_either : Tribool

abbrev pub same_tribool : Tribool → Tribool → Bool
same_tribool ipset_false ipset_false = true
same_tribool ipset_true ipset_true = true
same_tribool ipset_either ipset_either = true
same_tribool _ _ = false

pub record Assignment : Type 0 where
  pub values : List Tribool

unfoldable pub new : Assignment
new = record { values = [] }

-- The piecewise comparison, up through the end of the smaller vector.
abbrev pub same_values : List Tribool → List Tribool → Bool
same_values [] ys = true
same_values (x ∷ xs) [] = true
same_values (x ∷ xs) (y ∷ ys) = same_tribool x y && same_values xs ys

-- The remaining elements of the longer vector are indeterminate.
abbrev pub all_either : List Tribool → Bool
all_either [] = true
all_either (x ∷ xs) = same_tribool x ipset_either && all_either xs

-- Without the comparison of the two pointers: a vector is equal to itself.
unfoldable pub equal : Assignment → Assignment → Bool
equal assignment1 assignment2 =
    let values1 = assignment1.values in
    let values2 = assignment2.values in
    let smaller_size =
      if ltb (length values1) (length values2) then length values1 else length values2 in
    same_values values1 values2
    && (all_either (drop smaller_size values1) && all_either (drop smaller_size values2))

unfoldable pub cut : Assignment → ℕ → Assignment
cut assignment var =
    if ltb var (length assignment.values)
    then record { values = take var assignment.values }
    else assignment

unfoldable pub clear : Assignment → Assignment
unfolding cut
clear assignment = cut assignment 0

-- A variable that is not in the vector is EITHER.
unfoldable pub get : Assignment → ℕ → Tribool
get assignment var =
    if ltb var (length assignment.values)
    then get_or assignment.values var ipset_either
    else ipset_either

-- A vector that is too short is filled up with EITHERs. The element of the variable itself is not
-- initialised, and is written at once.
unfoldable pub set : Assignment → ℕ → Tribool → Assignment
set assignment var value =
    let old_len = length assignment.values in
    let expanded =
      if ltb var old_len
      then assignment.values
      else assignment.values ++ replicate (var + 1 - old_len) ipset_either in
    record { values = set_elem expanded var value }
