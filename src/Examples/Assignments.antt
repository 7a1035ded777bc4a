-- ===== src/Examples/Assignments.antt =====
-- The laws of assignments at concrete ones.
use libcorkipset.Prelude.{ℕ, ◌≤◌, ◌<◌, ◌≡◌, ◌≢◌, ◌↔◌, ◌⊎◌, true, [], ◌∷◌, ltb, ◌==◌, if◌then◌else◌}
use libcorkipset.Assignment.{
  Assignment, ipset_false, ipset_true, ipset_either, equal, cut, get, set,
}
use libcorkipset.Assignment.Laws.{get-set, get-cut}
use libcorkipset.Assignment.Equality.{equal-ok}
use libcorkipset.Networks.{find_last_non_either_bit}
use libcorkipset.Networks.LastBit.{find_last_non_either_bit-ok}

abbrev short : Assignment
short = record { values = ipset_true ∷ ipset_false ∷ [] }

abbrev long : Assignment
long = record { values = ipset_true ∷ ipset_false ∷ ipset_either ∷ ipset_either ∷ [] }

get-set_example : get (set short 4 ipset_true) 3 ≡ (if 4 == 3 then ipset_true else get short 3)
get-set_example = get-set short 4 3 ipset_true

get-cut_example : get (cut long 1) 1 ≡ (if ltb 1 1 then get long 1 else ipset_either)
get-cut_example = get-cut long 1 1

equal-ok_example : (equal short long ≡ true) ↔ ((var : ℕ) → get short var ≡ get long var)
equal-ok_example = equal-ok short long

find_last_non_either_bit-ok_example :
    (find_last_non_either_bit long 3 ≤ 3)
    × ((j : ℕ) → find_last_non_either_bit long 3 < j → j ≤ 3 → get long j ≡ ipset_either)
    × ((find_last_non_either_bit long 3 ≡ 0)
        ⊎ (get long (find_last_non_either_bit long 3) ≢ ipset_either))
find_last_non_either_bit-ok_example = find_last_non_either_bit-ok long 3
