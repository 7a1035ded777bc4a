-- ===== src/Expanded/Count.antt =====
-- Of the full assignments that a partial one stands for, how many agree with a given one.
use libcorkipset.Prelude.{
  ℕ, zero, suc, ◌+◌, ◌<◌, ◌≡◌, refl, sym, ◌∙◌, ap, Bool, true, false, not, ◌&&◌, List, [], ◌∷◌,
  ◌++◌, bit, inl, inr, Bool-cases, update, update_self, update-ne, if◌then◌else◌, and_true, arith,
}
use libcorkipset.Tree.{same_bit, agrees}
use libcorkipset.Assignment.{Tribool, ipset_false, ipset_true, ipset_either}
use libcorkipset.Expanded.Full.{Full, both, fix, extend, fulls}

module _ {A : Type 0} where
  -- The number of elements that pass a test.
  abbrev pub how_many : (A → Bool) → List A → ℕ
  how_many test [] = 0
  how_many test (x ∷ xs) = bit (test x) + how_many test xs

  pub how_many-append :
      (test : A → Bool) (xs ys : List A)
      → how_many test (xs ++ ys) ≡ how_many test xs + how_many test ys
  how_many-append test [] ys = omega arith
  how_many-append test (x ∷ xs) ys = omega (arith, how_many-append test xs ys)

-- Whether two assignments agree on the first `n` variables.
abbrev pub alike : ℕ → Full → Full → Bool
alike zero f b = true
alike (suc n) f b = alike n f b && same_bit (f n) (b n)

-- What a partial assignment says of a value.
abbrev pub allows : Tribool → Bool → Bool
allows ipset_false v = not v
allows ipset_true v = v
allows ipset_either v = true

-- Whether an assignment agrees with a partial one on the first `n` variables.
abbrev pub meets : (ℕ → Tribool) → ℕ → Full → Bool
meets a zero b = true
meets a (suc n) b = meets a n b && allows (a n) (b n)

pub alike_congr :
    (n : ℕ) (f f' b : Full) → ((j : ℕ) → j < n → f j ≡ f' j) → alike n f b ≡ alike n f' b
alike_congr zero f f' b same = refl
alike_congr (suc n) f f' b same =
    rw (alike_congr n f f' b (λ j lt. same j (omega arith)), same n (omega arith)) refl

and_assoc : (a b c : Bool) → ((a && b) && c) ≡ (a && (b && c))
and_assoc true b c = refl
and_assoc false b c = refl

agrees-last :
    (x m : ℕ) (a b : Full)
    → agrees x (suc m) a b ≡ (agrees x m a b && same_bit (a (x + m)) (b (x + m)))
agrees-last x zero a b = let e : x + 0 ≡ x = omega arith in rw e (and_true (same_bit (a x) (b x)))
agrees-last x (suc m) a b =
    let e : suc x + m ≡ x + suc m = omega arith in
    ap (λ t. same_bit (a x) (b x) && t) (agrees-last (suc x) m a b)
    ∙ sym (
        and_assoc (same_bit (a x) (b x)) (agrees (suc x) m a b)
          (same_bit (a (suc x + m)) (b (suc x + m))))
    ∙ ap (λ k. agrees x (suc m) a b && same_bit (a k) (b k)) e

pub agrees-alike : (n : ℕ) (a b : Full) → agrees 0 n a b ≡ alike n a b
agrees-alike zero a b = refl
agrees-alike (suc n) a b =
    let e : 0 + n ≡ n = omega arith in
    agrees-last 0 n a b
    ∙ ap (λ t. t && same_bit (a (0 + n)) (b (0 + n))) (agrees-alike n a b)
    ∙ ap (λ k. alike n a b && same_bit (a k) (b k)) e

no_bit : (x : Bool) → bit (x && false) ≡ 0
no_bit true = refl
no_bit false = refl

both_bits : (x v : Bool) (k : ℕ) → bit (x && not v) + (bit (x && v) + k) ≡ bit x + k
both_bits true true k = omega arith
both_bits true false k = omega arith
both_bits false v k = omega arith

bit_if : (x v : Bool) → (if v then bit x else 0) ≡ bit (x && v)
bit_if true true = refl
bit_if true false = refl
bit_if false true = refl
bit_if false false = refl

module _ (n : ℕ) (b : Full) where
  alike-update :
      (v : Bool) (f : Full) → alike (suc n) (update f n v) b ≡ (alike n f b && same_bit v (b n))
  alike-update v f =
      rw
        (
          alike_congr n (update f n v) f b (λ j lt. update-ne f n j v (λ p. omega arith)),
          update_self f n v,
        )
        refl

  count-fix :
      (v : Bool) (fs : List Full)
      → how_many (λ f. alike (suc n) f b) (fix n v fs)
        ≡ (if same_bit v (b n) then how_many (λ f. alike n f b) fs else 0)
  count-fix v [] = elim (Bool-cases (same_bit v (b n))) [
    | inl yes_ ↦ rw yes_ refl
    | inr no_ ↦ rw no_ refl
  ]
  count-fix v (f ∷ fs) = elim (Bool-cases (same_bit v (b n))) [
    | inl yes_ ↦ rw (alike-update v f, count-fix v fs, yes_, and_true (alike n f b)) refl
    | inr no_ ↦ rw (alike-update v f, count-fix v fs, no_) (ap (λ k. k + 0) (no_bit (alike n f b)))
  ]

  count-both :
      (fs : List Full)
      → how_many (λ f. alike (suc n) f b) (both n fs) ≡ how_many (λ f. alike n f b) fs
  count-both [] = refl
  count-both (f ∷ fs) =
      rw (alike-update false f, alike-update true f, count-both fs)
        (both_bits (alike n f b) (b n) (how_many (λ f. alike n f b) fs))

  count-extend :
      (t : Tribool) (fs : List Full)
      → how_many (λ f. alike (suc n) f b) (extend t n fs)
        ≡ (if allows t (b n) then how_many (λ f. alike n f b) fs else 0)
  count-extend ipset_false fs = count-fix false fs
  count-extend ipset_true fs = count-fix true fs
  count-extend ipset_either fs = count-both fs

-- Of the full assignments that agree with a partial one, one is like a given assignment if that
-- agrees too, and none otherwise.
pub count-fulls :
    (a : ℕ → Tribool) (n : ℕ) (b : Full)
    → how_many (λ f. alike n f b) (fulls a n) ≡ bit (meets a n b)
count-fulls a zero b = refl
count-fulls a (suc n) b =
    count-extend n b (a n) (fulls a n)
    ∙ ap (λ k. if allows (a n) (b n) then k else 0) (count-fulls a n b)
    ∙ bit_if (meets a n b) (allows (a n) (b n))
