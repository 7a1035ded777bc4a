-- ===== src/Examples/Assoc.antt =====
-- A hash table that runs: an association list, newest entry first.
use libcorkipset.Prelude.{
  ℕ, ◌≡◌, refl, Bool, Option, none, some, List, [], ◌∷◌, arith, if◌then◌else◌,
}
use libcorkipset.HashTable.{HashTable, Compatible}

module _ {K V : Type 0} (equals : K → K → Bool) where
  unfoldable pub find : List (K × V) → K → Option V
  find [] j = none
  find ((k, v) ∷ t) j = if equals k j then some v else find t j

  unfoldable pub without : List (K × V) → K → List (K × V)
  without [] j = []
  without ((k, v) ∷ t) j = let rest = without t j in if equals j k then rest else (k, v) ∷ rest

  pub find-without :
      (hash : K → ℕ)
      → Compatible hash equals
      → (t : List (K × V)) (k j : K)
      → find (without t k) j ≡ (if equals k j then none else find t j)
  unfolding find without
  find-without hash c [] k j = ground arith
  find-without hash c ((i, v) ∷ t) k j = ground (
    arith,
    find-without hash c t k j,
    c.symmetric i k,
    c.symmetric k i,
    c.symmetric i j,
    c.transitive k i j,
    c.transitive k j i,
    c.transitive i k j,
  )

  abbrev pub assoc : (hash : K → ℕ) → HashTable V hash equals
  unfolding find without
  assoc hash = record {
    Table = List (K × V);
    new = [];
    get = find;
    put = λ t k v. (k, v) ∷ t;
    delete = without;
    get-new = λ k. refl;
    get-put = λ c t k j v. refl;
    get-delete = λ c t k j. find-without hash c t k j;
  }
