-- ===== src/HashTable.antt =====
-- libcork's hash table (libcork/ds/hash-table.h), which is not part of this repository: the
-- operations that the sources call, with the documented behaviour that they rely on.
use libcorkipset.Prelude.{ℕ, ◌≡◌, Bool, true, Option, none, some, if◌then◌else◌}

-- libcork asks that equal keys have equal hashes, and that the test is an equivalence.
pub record Compatible {K : Type 0} (hash : K → ℕ) (equals : K → K → Bool) : Type 0 where
  pub hashes : (k j : K) → equals k j ≡ true → hash k ≡ hash j
  pub reflexive : (k : K) → equals k k ≡ true
  pub symmetric : (k j : K) → equals k j ≡ true → equals j k ≡ true
  pub transitive : (i j k : K) → equals i j ≡ true → equals j k ≡ true → equals i k ≡ true

-- Values are words, of type `V` before they are cast. `get` is `none` where the C function returns
-- NULL, and `cork_hash_table_get_or_create` is a `get` that is followed by a `put` if the entry is
-- new.
pub record HashTable {K : Type 0} (V : Type 0) (hash : K → ℕ) (equals : K → K → Bool) : Type 1 where
  pub Table : Type 0
  pub new : Table
  pub get : Table → K → Option V
  pub put : Table → K → V → Table
  pub delete : Table → K → Table
  pub get-new : (k : K) → get new k ≡ none
  pub get-put :
      Compatible hash equals
      → (t : Table) (k j : K) (v : V) → get (put t k v) j ≡ (if equals k j then some v else get t j)
  pub get-delete :
      Compatible hash equals
      → (t : Table) (k j : K) → get (delete t k) j ≡ (if equals k j then none else get t j)
