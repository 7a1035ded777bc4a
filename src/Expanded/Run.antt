-- ===== src/Expanded/Run.antt =====
-- A client of src/libipset/bdd/expanded.c sees every full assignment once.
use libcorkipset.Prelude.{
  ℕ, zero, suc, ◌*◌, ◌/◌, ◌<◌, ◌≤◌, ◌≡◌, refl, ◌∙◌, ap, Bool, true, false, Option, none, some, List,
  [], ◌∷◌, ◌++◌, length, length-append, length-set, get_or, inl, inr, Bool-cases, update, arith,
}
use mathlib.Core.List.{append_assoc}
use libcorkipset.Bits.{bit_get, bit_set}
use libcorkipset.Bits.Laws.{AreBytes, bit_get-bit_set, bit_set-AreBytes}
use libcorkipset.Expanded.{ExpandedAssignment, carry, advance}
use libcorkipset.Expanded.Full.{Full, AllBelow}
use libcorkipset.Expanded.Laws.{next}

-- What a client sees that advances an expansion until it has finished, in at most so many rounds.
unfoldable pub expansions : ℕ → ExpandedAssignment → Option (List Full)
expansions zero exp = none
expansions (suc rounds) exp = elim exp.finished [
  | true ↦ some []
  | false ↦ elim (expansions rounds (advance exp)) [
    | none ↦ none
    | some seen ↦ some (bit_get exp.values ∷ seen)
  ]
]

-- The array of open variables has the last one at its end.
unfoldable pub rev : List ℕ → List ℕ
rev [] = []
rev (x ∷ xs) = rev xs ++ x ∷ []

pub length-rev : (xs : List ℕ) → length (rev xs) ≡ length xs
unfolding rev
length-rev [] = refl
length-rev (x ∷ xs) = omega (arith, length-append (rev xs) (x ∷ []), length-rev xs)

get_or-middle : (xs ys : List ℕ) (x d : ℕ) → get_or (xs ++ x ∷ ys) (length xs) d ≡ x
get_or-middle [] ys x d = refl
get_or-middle (z ∷ xs) ys x d = get_or-middle xs ys x d

last_open : (xs ys : List ℕ) (x : ℕ) → get_or (rev (x ∷ xs) ++ ys) (length xs) 0 ≡ x
unfolding rev
last_open xs ys x =
    rw (append_assoc (rev xs) (x ∷ []) ys, ← length-rev xs) (get_or-middle (rev xs) ys x 0)

-- A running expansion of `n` variables whose buffer holds a full assignment.
pub record Shows (n : ℕ) (exp : ExpandedAssignment) (f : Full) : Type 0 where
  pub running : exp.finished ≡ false
  pub bits : bit_get exp.values ≡ f
  pub bytes : AreBytes exp.values
  pub size : n ≤ 8 * length exp.values

abbrev pub with_bit : ExpandedAssignment → ℕ → Bool → ExpandedAssignment
with_bit exp x v = record exp { values = bit_set exp.values x v }

pub length-bit_set : (array : List ℕ) (i : ℕ) (v : Bool) → length (bit_set array i v) ≡ length array
unfolding bit_set
length-bit_set array i v = length-set array (i / 8) _

pub with_bit-Shows :
    (n x : ℕ) (v : Bool) (exp : ExpandedAssignment) (f : Full)
    → x < n
    → Shows n exp f
    → Shows n (with_bit exp x v) (update f x v)
with_bit-Shows n x v exp f lt shows =
    let inside : x < 8 * length exp.values = omega (arith, shows.size) in
    record {
      running = shows.running;
      bits = bit_get-bit_set exp.values shows.bytes x inside v ∙ ap (λ g. update g x v) shows.bits;
      bytes = bit_set-AreBytes exp.values shows.bytes x inside v;
      size = omega (arith, shows.size, length-bit_set exp.values x v);
    }

-- What the loop of the advance leaves.
unfoldable pub Carried : ℕ → List ℕ → Option Full → ExpandedAssignment → Type 0
Carried n eithers none exp = exp.finished ≡ true
Carried n eithers (some g) exp = Shows n exp g × (exp.eithers ≡ eithers)

pub carry-Carried :
    (n : ℕ) (xs ys : List ℕ) (exp : ExpandedAssignment) (f : Full)
    → exp.eithers ≡ rev xs ++ ys
    → AllBelow n xs
    → Shows n exp f
    → Carried n exp.eithers (next xs f) (carry (length xs) exp)
unfolding carry Carried rev
carry-Carried n [] ys exp f e low shows = refl
carry-Carried n (x ∷ xs) ys exp f e (lt, low) shows =
    let var : get_or exp.eithers (length xs) 0 ≡ x =
      ap (λ es. get_or es (length xs) 0) e ∙ last_open xs ys x in
    let here : bit_get exp.values x ≡ f x = ap (λ g. g x) shows.bits in
    elim (Bool-cases (f x)) [
      | inl on ↦
          rw (on, carry, var, here ∙ on, var)
            (carry-Carried n xs (x ∷ ys) (with_bit exp x false) (update f x false)
              (e ∙ append_assoc (rev xs) (x ∷ []) ys) low (with_bit-Shows n x false exp f lt shows))
      | inr off ↦
          rw (off, carry, var, here ∙ off, var) (with_bit-Shows n x true exp f lt shows, refl)
    ]
