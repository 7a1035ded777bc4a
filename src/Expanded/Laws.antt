-- ===== src/Expanded/Laws.antt =====
-- What src/libipset/bdd/expanded.c goes through.
use libcorkipset.Prelude.{
  ℕ, zero, suc, ◌≤◌, ◌≡◌, ◌≢◌, refl, sym, ◌∙◌, ap, Bool, true, false, Option, none, some, List, [],
  ◌∷◌, ◌++◌, inl, inr, Bool-cases, update, update_self, update-ne, update-twice, update_there,
  update-update, if◌then◌else◌, arith,
}
use libcorkipset.Assignment.{Tribool, ipset_false, ipset_true, ipset_either}
use libcorkipset.Expanded.Full.{
  Full, both, fix, extend, fulls, open_with, open_below, value_of, lowest, after, AllBelow, Falling,
  AllBelow-mono,
}

-- A counter on functions: the carry of `ipset_expanded_assignment_advance` without a buffer. It
-- gives nothing when it is at its end.
abbrev pub next : List ℕ → Full → Option Full
next [] f = none
next (x ∷ xs) f = if f x then next xs (update f x false) else some (update f x true)

next-untouched :
    (n y : ℕ) (xs : List ℕ) (f g : Full) → AllBelow n xs → n ≤ y → next xs f ≡ some g → g y ≡ f y
next-untouched n y [] f g low le e = absurd cc
next-untouched n y (x ∷ xs) f g (lt, low) le e = elim (Bool-cases (f x)) [
  | inl on ↦
      next-untouched n y xs (update f x false) g low le (rw on at e)
      ∙ update-ne f x y false (λ p. omega arith)
  | inr off ↦
      let same : some (update f x true) ≡ some g = rw off at e in
      let here : update f x true ≡ g = cc in rw (← here) (update-ne f x y true (λ p. omega arith))
]

pub next-none : (xs : List ℕ) (f : Full) → next xs f ≡ none → after xs f ≡ []
next-none [] f e = refl
next-none (x ∷ xs) f e = elim (Bool-cases (f x)) [
  | inl on ↦ rw (on, next-none xs (update f x false) (rw on at e)) refl
  | inr off ↦ absurd (let wrong = rw off at e in cc)
]

-- The counter's next value is the first of those after it, and what comes after that is the rest.
pub next-some :
    (xs : List ℕ) (f g : Full) → Falling xs → next xs f ≡ some g → after xs f ≡ g ∷ after xs g
next-some [] f g falling e = absurd cc
next-some (x ∷ xs) f g (low, falling) e = elim (Bool-cases (f x)) [
  | inl on ↦
      let step : next xs (update f x false) ≡ some g = rw on at e in
      let off : g x ≡ false =
        next-untouched x x xs (update f x false) g low (omega arith) step ∙ update_self f x false in
      let stays = update_there g x false off in
      rw (on, next-some xs (update f x false) g falling step, off, stays) refl
  | inr off ↦
      let same : some (update f x true) ≡ some g = rw off at e in
      let here : update f x true ≡ g = cc in
      rw (off, ← here, update_self f x true, update-twice f x true false) refl
]

fix-append : (x : ℕ) (v : Bool) (fs gs : List Full) → fix x v (fs ++ gs) ≡ fix x v fs ++ fix x v gs
fix-append x v [] gs = refl
fix-append x v (f ∷ fs) gs = ap (λ hs. update f x v ∷ hs) (fix-append x v fs gs)

fix-both : (x y : ℕ) (v : Bool) (fs : List Full) → x ≢ y → both x (fix y v fs) ≡ fix y v (both x fs)
fix-both x y v [] ne = refl
fix-both x y v (f ∷ fs) ne =
    rw (fix-both x y v fs ne, update-update f x y false v ne, update-update f x y true v ne) refl

-- A variable above those of the counter keeps its value.
fix-after :
    (n : ℕ) (v : Bool) (xs : List ℕ) (f : Full)
    → AllBelow n xs
    → after xs (update f n v) ≡ fix n v (after xs f)
fix-after n v [] f low = refl
fix-after n v (x ∷ xs) f (lt, low) =
    let ne : x ≢ n = λ p. omega arith in
    let same : update f n v x ≡ f x = update-ne f n x v (λ p. omega arith) in
    let rest : both x (after xs (update (update f n v) x false))
        ≡ fix n v (both x (after xs (update f x false))) =
      ap (λ g. both x (after xs g)) (sym (update-update f x n false v ne))
      ∙ ap (both x) (fix-after n v xs (update f x false) low)
      ∙ fix-both x n v (after xs (update f x false)) ne in
    elim (Bool-cases (f x)) [
      | inl on ↦ rw (same, on, rest) refl
      | inr off ↦ rw (same, off, rest, update-update f x n true v ne) refl
    ]

open_with-AllBelow :
    (t : Tribool) (n : ℕ) (xs : List ℕ) → AllBelow n xs → AllBelow (suc n) (open_with t n xs)
open_with-AllBelow ipset_either n xs low = (omega arith, AllBelow-mono (omega arith) xs low)
open_with-AllBelow ipset_false n xs low = AllBelow-mono (omega arith) xs low
open_with-AllBelow ipset_true n xs low = AllBelow-mono (omega arith) xs low

pub open_below-AllBelow : (a : ℕ → Tribool) (n : ℕ) → AllBelow n (open_below a n)
open_below-AllBelow a zero = tt
open_below-AllBelow a (suc n) =
    open_with-AllBelow (a n) n (open_below a n) (open_below-AllBelow a n)

open_with-Falling :
    (t : Tribool) (n : ℕ) (xs : List ℕ) → AllBelow n xs → Falling xs → Falling (open_with t n xs)
open_with-Falling ipset_either n xs low falling = (low, falling)
open_with-Falling ipset_false n xs low falling = falling
open_with-Falling ipset_true n xs low falling = falling

pub open_below-Falling : (a : ℕ → Tribool) (n : ℕ) → Falling (open_below a n)
open_below-Falling a zero = tt
open_below-Falling a (suc n) =
    open_with-Falling (a n) n (open_below a n) (open_below-AllBelow a n) (open_below-Falling a n)

pub lowest-above : (a : ℕ → Tribool) (n x : ℕ) → n ≤ x → lowest a n x ≡ false
lowest-above a zero x le = refl
lowest-above a (suc n) x le =
    update-ne (lowest a n) n x (value_of (a n)) (λ p. omega arith)
    ∙ lowest-above a n x (omega arith)

extend-after :
    (t : Tribool) (n : ℕ) (xs : List ℕ) (f : Full)
    → AllBelow n xs
    → f n ≡ false
    → extend t n (f ∷ after xs f)
      ≡ update f n (value_of t) ∷ after (open_with t n xs) (update f n (value_of t))
extend-after ipset_false n xs f low off =
    ap (λ fs. update f n false ∷ fs) (sym (fix-after n false xs f low))
extend-after ipset_true n xs f low off =
    ap (λ fs. update f n true ∷ fs) (sym (fix-after n true xs f low))
extend-after ipset_either n xs f low off =
    rw
      (
        update_self f n false,
        update-twice f n false true,
        update-twice f n false false,
        update_there f n false off,
      )
      refl

-- A counter that starts at the lowest assignment goes through all of them.
pub fulls-after :
    (a : ℕ → Tribool) (n : ℕ) → fulls a n ≡ lowest a n ∷ after (open_below a n) (lowest a n)
fulls-after a zero = refl
fulls-after a (suc n) =
    ap (extend (a n) n) (fulls-after a n)
    ∙ extend-after (a n) n (open_below a n) (lowest a n) (open_below-AllBelow a n)
        (lowest-above a n n (omega arith))
