-- ===== src/SerializedId.antt =====
-- The ids of nodes on disk, `serialized_id` in src/libipset/bdd/read.c and write.c: terminals are
-- non-negative and stand for their value, nonterminals count down from -1.
use libcorkipset.Prelude.{
  ℕ, zero, suc, ◌-◌, ◌%◌, ◌^◌, ◌<◌, ◌≡◌, Bool, true, false, ltb, ◌==◌, if◌then◌else◌, arith,
}

-- `negsuc n` is -(n + 1).
pub data ℤ : Type 0 where
  pos : ℕ → ℤ
  negsuc : ℕ → ℤ

abbrev pub same_int : ℤ → ℤ → Bool
same_int (pos a) (pos b) = a == b
same_int (negsuc a) (negsuc b) = a == b
same_int _ _ = false

-- `next_serialized_id--`
abbrev pub decrement : ℤ → ℤ
decrement (pos zero) = negsuc 0
decrement (pos (suc n)) = pos n
decrement (negsuc n) = negsuc (suc n)

-- The conversions of an `int` to `uint32_t` and back.
unfoldable pub to_uint32 : ℤ → ℕ
to_uint32 (pos n) = n % 2 ^ 32
to_uint32 (negsuc n) = 2 ^ 32 - 1 - n % 2 ^ 32

unfoldable pub of_uint32 : ℕ → ℤ
of_uint32 w = if ltb w (2 ^ 31) then pos w else negsuc (2 ^ 32 - 1 - w)

-- An `int` of 32 bits.
abbrev pub IsInt32 : ℤ → Type 0
IsInt32 (pos n) = n < 2 ^ 31
IsInt32 (negsuc n) = n < 2 ^ 31

-- A serialized id within the range of a 32-bit `int` survives the conversion to `uint32_t` and
-- back.
pub of_uint32-to_uint32 : (s : ℤ) → IsInt32 s → of_uint32 (to_uint32 s) ≡ s
unfolding of_uint32 to_uint32
of_uint32-to_uint32 (pos n) h = ground arith
of_uint32-to_uint32 (negsuc n) h = ground arith

pub to_uint32-lt : (s : ℤ) → to_uint32 s < 2 ^ 32
unfolding to_uint32
to_uint32-lt (pos n) = omega arith
to_uint32-lt (negsuc n) = omega arith

pub same_int_refl : (s : ℤ) → same_int s s ≡ true
same_int_refl (pos n) = ground arith
same_int_refl (negsuc n) = ground arith

pub same_int_eq : (s t : ℤ) → same_int s t ≡ true → s ≡ t
same_int_eq (pos a) (pos b) h = ground arith
same_int_eq (negsuc a) (negsuc b) h = ground arith
same_int_eq (pos a) (negsuc b) h = absurd cc
same_int_eq (negsuc a) (pos b) h = absurd cc
