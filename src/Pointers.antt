-- ===== src/Pointers.antt =====
-- The tables that `cork_pointer_hash_table_new` makes: keys are pointers, compared as such. The
-- sources cast node ids and serialized ids to pointers.
use libcorkipset.Prelude.{ℕ, sym, ap, ◌==◌, eq→==, ==→eq, ==-refl}
use libcorkipset.HashTable.{HashTable, Compatible}
use libcorkipset.SerializedId.{ℤ, same_int, same_int_refl, same_int_eq}

pub record PointerTables : Type 1 where
  pub hash : ℕ → ℕ
  pub hash_int : ℤ → ℕ
  pub visited : HashTable ℕ hash ◌==◌
  pub serialized_ids : HashTable ℤ hash ◌==◌
  pub cache_ids : HashTable ℕ hash_int same_int

pub id-Compatible : (hash : ℕ → ℕ) → Compatible hash ◌==◌
id-Compatible hash = record {
  hashes = λ k j e. ap hash (==→eq k j e);
  reflexive = ==-refl;
  symmetric = λ k j e. eq→== j k (sym (==→eq k j e));
  transitive = λ i j k p q. let e = ==→eq i j p in let f = ==→eq j k q in eq→== i k cc;
}

pub int-Compatible : (hash : ℤ → ℕ) → Compatible hash same_int
int-Compatible hash = record {
  hashes = λ k j e. ap hash (same_int_eq k j e);
  reflexive = same_int_refl;
  symmetric = λ k j e. rw (same_int_eq k j e) (same_int_refl j);
  transitive = λ i j k p q. rw (same_int_eq i j p) q;
}
