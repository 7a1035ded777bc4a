-- ===== src/Networks/Meets.antt =====
-- How a partial assignment and a full one agree when variables are fixed.
use libcorkipset.Prelude.{
  ℕ, zero, suc, ◌+◌, ◌<◌, ◌≤◌, ◌≡◌, ◌≢◌, refl, sym, ◌∙◌, ap, subst, Bool, true, false, not, ◌&&◌,
  bit, inl, inr, eq-cases, update, update_self, update-ne, and_true, arith,
}
use libcorkipset.Assignment.{Tribool, ipset_false, ipset_either}
use libcorkipset.Iterator.Paths.{nothing_fixed}
use libcorkipset.Expanded.Full.{Full}
use libcorkipset.Expanded.Count.{allows, meets}

meets_congr :
    (n : ℕ) (a a' : ℕ → Tribool) (b : Full)
    → ((j : ℕ) → j < n → a j ≡ a' j)
    → meets a n b ≡ meets a' n b
meets_congr zero a a' b same = refl
meets_congr (suc n) a a' b same =
    rw (meets_congr n a a' b (λ j lt. same j (omega arith)), same n (omega arith)) refl

swap_last : (p q r : Bool) → ((p && q) && r) ≡ ((p && r) && q)
swap_last true true true = refl
swap_last true true false = refl
swap_last true false true = refl
swap_last true false false = refl
swap_last false q r = refl

-- A variable that was open and is fixed.
pub meets-update :
    (n : ℕ) (a : ℕ → Tribool) (x : ℕ) (t : Tribool) (b : Full)
    → x < n
    → a x ≡ ipset_either
    → meets (update a x t) n b ≡ (meets a n b && allows t (b x))
meets-update zero a x t b lt free = absurd (omega arith)
meets-update (suc n) a x t b lt free = elim (eq-cases x n) [
  | inl e ↦
      let last : allows (a n) (b n) ≡ true = ap (λ u. allows u (b n)) (ap a (sym e) ∙ free) in
      let whole : meets (update a n t) (suc n) b ≡ (meets a (suc n) b && allows t (b n)) =
        ap (λ p. p && allows (update a n t n) (b n))
          (meets_congr n (update a n t) a b (λ j h. update-ne a n j t (λ p. omega arith)))
        ∙ ap (λ u. meets a n b && allows u (b n)) (update_self a n t)
        ∙ ap (λ p. p && allows t (b n))
            (sym (ap (λ q. meets a n b && q) last ∙ and_true (meets a n b))) in
      subst (λ z. meets (update a z t) (suc n) b ≡ (meets a (suc n) b && allows t (b z))) (sym e)
        whole
  | inr ne ↦
      rw (meets-update n a x t b (omega arith) free, update-ne a x n t ne)
        (swap_last (meets a n b) (allows t (b x)) (allows (a n) (b n)))
]

-- The variables from `n` to `n + m` are open.
pub meets-open :
    (m n : ℕ) (a : ℕ → Tribool) (b : Full)
    → ((j : ℕ) → n ≤ j → a j ≡ ipset_either)
    → meets a (n + m) b ≡ meets a n b
meets-open zero n a b free = let e : n + 0 ≡ n = omega arith in ap (λ k. meets a k b) e
meets-open (suc m) n a b free =
    let e : n + suc m ≡ suc (n + m) = omega arith in
    rw (e, free (n + m) (omega arith), and_true (meets a (n + m) b)) (meets-open m n a b free)

-- Variable 0 decides.
pub meets-wrong :
    (n : ℕ) (a : ℕ → Tribool) (b : Full) → allows (a 0) (b 0) ≡ false → meets a (suc n) b ≡ false
meets-wrong zero a b wrong = wrong
meets-wrong (suc n) a b wrong = rw (meets-wrong n a b wrong) refl

pub split_bits : (p q v : Bool) → (v ≡ true → p ≡ q) → bit (p && v) + bit (q && not v) ≡ bit q
split_bits p q true same = rw (same refl) (last_bit q)
  where
    last_bit : (q : Bool) → bit (q && true) + bit (q && false) ≡ bit q
    last_bit true = refl
    last_bit false = refl
split_bits true true false same = refl
split_bits true false false same = refl
split_bits false true false same = refl
split_bits false false false same = refl

pub either≢false : ipset_either ≢ ipset_false
either≢false e = absurd cc

pub meets-nothing : (n : ℕ) (b : Full) → meets nothing_fixed n b ≡ true
meets-nothing zero b = refl
meets-nothing (suc n) b = rw (meets-nothing n b) refl
