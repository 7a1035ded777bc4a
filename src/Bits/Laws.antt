-- ===== src/Bits/Laws.antt =====
-- The macros of include/ipset/bits.h on an array of bytes.
use Prim.Native.Nat.{bit_and, bit_or}
use libcorkipset.Prelude.{
  ℕ, zero, suc, ◌-◌, ◌*◌, ◌/◌, ◌%◌, ◌^◌, ◌<◌, ◌≡◌, ◌≢◌, inl, inr, refl, sym, ◌∙◌, ap, fun_ext, Bool,
  true, false, not, ◌&&◌, List, [], ◌∷◌, ltb, ◌==◌, if◌then◌else◌, length, get_or, set, update,
  eq-cases, ne→==, ==-refl, arith,
}
use libcorkipset.Bits.{get_byte, on_mask, neg_mask, bit_get, bit_set}

abbrev same_bool : Bool → Bool → Bool
same_bool true b = b
same_bool false b = not b

same_bool_eq : (a b : Bool) → same_bool a b ≡ true → a ≡ b
same_bool_eq true b h = sym h
same_bool_eq false true h = absurd cc
same_bool_eq false false h = refl

and_left : (a b : Bool) → (a && b) ≡ true → a ≡ true
and_left true b h = refl
and_left false b h = absurd cc

and_right : (a b : Bool) → (a && b) ≡ true → b ≡ true
and_right true b h = h
and_right false b h = absurd cc

-- A test that passes on the numbers below a bound.
all_below : ℕ → (ℕ → Bool) → Bool
all_below zero p = true
all_below (suc n) p = p n && all_below n p

all_below-at : (n : ℕ) (p : ℕ → Bool) (x : ℕ) → all_below n p ≡ true → x < n → p x ≡ true
unfolding all_below
all_below-at zero p x h lt = absurd (omega arith)
all_below-at (suc n) p x h lt = elim (eq-cases x n) [
  | inl e ↦ rw e (and_left (p n) (all_below n p) h)
  | inr ne ↦ all_below-at n p x (and_right (p n) (all_below n p) h) (omega arith)
]

-- The macros within a byte.
abbrev byte_get : ℕ → ℕ → Bool
byte_get b j = not (bit_and b (128 / 2 ^ j) == 0)

abbrev byte_set : ℕ → ℕ → Bool → ℕ
byte_set b i v = bit_or (bit_and b (255 - 128 / 2 ^ i)) (if v then 128 / 2 ^ i else 0)

abbrev byte_test : Bool → ℕ → ℕ → ℕ → Bool
byte_test v b i j =
    same_bool (byte_get (byte_set b i v) j) (if i == j then v else byte_get b j)
    && ltb (byte_set b i v) 256

abbrev byte_tests : Bool → Bool
byte_tests v = all_below 256 (λ b. all_below 8 (λ i. all_below 8 (byte_test v b i)))

byte_table : (v : Bool) → byte_tests v ≡ true
unfolding all_below
byte_table true = refl
byte_table false = refl

byte_test-ok : (v : Bool) (b i j : ℕ) → b < 256 → i < 8 → j < 8 → byte_test v b i j ≡ true
byte_test-ok v b i j hb hi hj =
    all_below-at 8 (byte_test v b i) j
      (all_below-at 8 (λ i. all_below 8 (byte_test v b i)) i
        (all_below-at 256 (λ b. all_below 8 (λ i. all_below 8 (byte_test v b i))) b (byte_table v)
          hb)
        hi)
      hj

get_or-set_self : (xs : List ℕ) (i v d : ℕ) → i < length xs → get_or (set xs i v) i d ≡ v
get_or-set_self [] i v d h = absurd (omega arith)
get_or-set_self (x ∷ xs) zero v d h = refl
get_or-set_self (x ∷ xs) (suc i) v d h = get_or-set_self xs i v d (omega arith)

get_or-set_ne : (xs : List ℕ) (i j v d : ℕ) → i ≢ j → get_or (set xs i v) j d ≡ get_or xs j d
get_or-set_ne [] i j v d ne = refl
get_or-set_ne (x ∷ xs) zero zero v d ne = absurd (ne refl)
get_or-set_ne (x ∷ xs) zero (suc j) v d ne = refl
get_or-set_ne (x ∷ xs) (suc i) zero v d ne = refl
get_or-set_ne (x ∷ xs) (suc i) (suc j) v d ne = get_or-set_ne xs i j v d (λ e. ne (ap suc e))

ltb_lt : (a b : ℕ) → ltb a b ≡ true → a < b
ltb_lt a b h = ground arith

-- Every element of an array is a byte.
abbrev pub AreBytes : List ℕ → Type 0
AreBytes xs = (i : ℕ) → get_or xs i 0 < 256

module _ (array : List ℕ) (bytes : AreBytes array) (i : ℕ) (inside : i < 8 * length array)
    (v : Bool) where
  passes : (j : ℕ) → byte_test v (get_or array (i / 8) 0) (i % 8) (j % 8) ≡ true
  passes j =
      byte_test-ok v (get_or array (i / 8) 0) (i % 8) (j % 8) (bytes (i / 8)) (omega arith)
        (omega arith)

  pub bit_set-AreBytes : AreBytes (bit_set array i v)
  unfolding bit_set get_byte on_mask neg_mask
  bit_set-AreBytes k = elim (eq-cases (i / 8) k) [
    | inl e ↦
        let within : i / 8 < length array = omega arith in
        let small : ltb (byte_set (get_or array (i / 8) 0) (i % 8) v) 256 ≡ true =
          and_right _ _ (passes 0) in
        rw
          (
            ← e,
            get_or-set_self array (i / 8) (byte_set (get_or array (i / 8) 0) (i % 8) v) 0 within,
          )
          (ltb_lt (byte_set (get_or array (i / 8) 0) (i % 8) v) 256 small)
    | inr ne ↦
        rw (get_or-set_ne array (i / 8) k (byte_set (get_or array (i / 8) 0) (i % 8) v) 0 ne)
          (bytes k)
  ]

  same_place : (j : ℕ) → i / 8 ≡ j / 8 → (i % 8 == j % 8) ≡ (i == j)
  same_place j e = elim (eq-cases i j) [
    | inl same ↦ rw same (==-refl (j % 8) ∙ sym (==-refl j))
    | inr ne ↦ ne→== (i % 8) (j % 8) (λ p. ne (omega arith)) ∙ sym (ne→== i j ne)
  ]

  -- A write inside an array of bytes changes the bit that it names and no other.
  pub bit_get-bit_set : bit_get (bit_set array i v) ≡ update (bit_get array) i v
  unfolding bit_get bit_set get_byte on_mask neg_mask
  bit_get-bit_set = fun_ext (λ j. elim (eq-cases (i / 8) (j / 8)) [
    | inl e ↦
        let b = get_or array (i / 8) 0 in
        let read : get_or (set array (i / 8) (byte_set b (i % 8) v)) (j / 8) 0
            ≡ byte_set b (i % 8) v =
          ap (λ k. get_or (set array (i / 8) (byte_set b (i % 8) v)) k 0) (sym e)
          ∙ get_or-set_self array (i / 8) (byte_set b (i % 8) v) 0 (omega arith) in
        ap (λ c. byte_get c (j % 8)) read
        ∙ same_bool_eq _ _ (and_left _ _ (passes j))
        ∙ ap (λ t. if t then v else byte_get b (j % 8)) (same_place j e)
        ∙ ap (λ k. if i == j then v else byte_get (get_or array k 0) (j % 8)) e
    | inr ne ↦
        ap (λ c. byte_get c (j % 8))
          (get_or-set_ne array (i / 8) (j / 8) (byte_set (get_or array (i / 8) 0) (i % 8) v) 0 ne)
        ∙ sym (ap (λ t. if t then v else bit_get array j) (ne→== i j (λ e. ne (ap (λ k. k / 8) e))))
  ])
