-- ===== src/Expanded/Full.antt =====
-- The full assignments that a partial one stands for, described without a buffer, and the order in
-- which a counter over the open variables goes through them.
use libcorkipset.Prelude.{
  ℕ, zero, suc, ◌<◌, ◌≤◌, Bool, true, false, List, [], ◌∷◌, ◌++◌, update, if◌then◌else◌, arith,
}
use libcorkipset.Assignment.{Tribool, ipset_false, ipset_true, ipset_either}

abbrev pub Full : Type 0
Full = ℕ → Bool

-- Both values of a variable, after everything that comes before.
abbrev pub both : ℕ → List Full → List Full
both x [] = []
both x (f ∷ fs) = update f x false ∷ update f x true ∷ both x fs

abbrev pub fix : ℕ → Bool → List Full → List Full
fix x v [] = []
fix x v (f ∷ fs) = update f x v ∷ fix x v fs

abbrev pub extend : Tribool → ℕ → List Full → List Full
extend ipset_false x fs = fix x false fs
extend ipset_true x fs = fix x true fs
extend ipset_either x fs = both x fs

-- The assignments of the variables below `n` that agree with a partial one, in the order of the
-- binary numbers; the other variables are false.
abbrev pub fulls : (ℕ → Tribool) → ℕ → List Full
fulls a zero = (λ x. false) ∷ []
fulls a (suc n) = extend (a n) n (fulls a n)

-- The open variables, the last one first, and the assignment that makes them false.
abbrev pub open_with : Tribool → ℕ → List ℕ → List ℕ
open_with ipset_either n xs = n ∷ xs
open_with ipset_false n xs = xs
open_with ipset_true n xs = xs

abbrev pub open_below : (ℕ → Tribool) → ℕ → List ℕ
open_below a zero = []
open_below a (suc n) = open_with (a n) n (open_below a n)

abbrev pub value_of : Tribool → Bool
value_of ipset_true = true
value_of _ = false

abbrev pub lowest : (ℕ → Tribool) → ℕ → Full
lowest a zero = λ x. false
lowest a (suc n) = update (lowest a n) n (value_of (a n))

-- What a counter shows after `f`: the first variable of the list changes fastest.
abbrev pub after : List ℕ → Full → List Full
after [] f = []
after (x ∷ xs) f =
    (if f x then [] else update f x true ∷ []) ++ both x (after xs (update f x false))

-- All of a list of variables are below a bound.
abbrev pub AllBelow : ℕ → List ℕ → Type 0
AllBelow n [] = Unit {0}
AllBelow n (x ∷ xs) = (x < n) × AllBelow n xs

abbrev pub Falling : List ℕ → Type 0
Falling [] = Unit {0}
Falling (x ∷ xs) = AllBelow x xs × Falling xs

pub AllBelow-mono : {n m : ℕ} → n ≤ m → (xs : List ℕ) → AllBelow n xs → AllBelow m xs
AllBelow-mono le [] h = h
AllBelow-mono le (x ∷ xs) (lt, h) = (omega arith, AllBelow-mono le xs h)
