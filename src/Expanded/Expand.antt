-- ===== src/Expanded/Expand.antt =====
-- An expansion, from its creation to its end.
use Prim.Native.Nat.{bit_and, bit_and-bitwise}
use libcorkipset.Prelude.{
  ℕ, zero, suc, ◌+◌, ◌-◌, ◌*◌, ◌/◌, ◌%◌, ◌<◌, ◌≤◌, ◌≡◌, ◌⊎◌, refl, sym, ◌∙◌, ap, subst, fun_ext,
  true, false, some, List, [], ◌∷◌, ◌++◌, ltb, ◌==◌, length, length-replicate, get_or, replicate,
  inl, inr, Option-cases, lt-cases, update, update_there, if◌then◌else◌, arith,
}
use mathlib.Core.List.{append-nil}
use libcorkipset.Bits.{bit_get, get_byte}
use libcorkipset.Assignment as Partial
use libcorkipset.Assignment.{Tribool, Assignment, ipset_false, ipset_true, ipset_either}
use libcorkipset.Iterator.Paths.{view}
use libcorkipset.Expanded.{
  ExpandedAssignment, add_known, add_variables, add_eithers, initialize, expand, carry, advance,
}
use libcorkipset.Expanded.Full.{
  Full, fulls, open_with, open_below, value_of, lowest, after, AllBelow, Falling,
}
use libcorkipset.Expanded.Laws.{
  next, next-none, next-some, open_below-AllBelow, open_below-Falling, lowest-above, fulls-after,
}
use libcorkipset.Expanded.Run.{
  expansions, rev, Shows, Carried, with_bit-Shows, carry-Carried, length-rev,
}

-- A running expansion at the assignment `f`, with the open variables `xs`, the last one first.
pub record Stands (n : ℕ) (xs : List ℕ) (exp : ExpandedAssignment) (f : Full) : Type 0 where
  pub shows : Shows n exp f
  pub eithers : exp.eithers ≡ rev xs

finished-expansions :
    (rounds : ℕ) (exp : ExpandedAssignment)
    → exp.finished ≡ true
    → 0 < rounds
    → expansions rounds exp ≡ some []
unfolding expansions
finished-expansions zero exp done lt = absurd (omega arith)
finished-expansions (suc rounds) exp done lt = rw (expansions, done) refl

module _ (n : ℕ) (xs : List ℕ) (low : AllBelow n xs) (falling : Falling xs) where
  -- After an advance an expansion has finished, or is at the next assignment.
  pub advance-Stands :
      (exp : ExpandedAssignment) (f : Full)
      → Stands n xs exp f
      → (((advance exp).finished ≡ true) × (after xs f ≡ []))
        ⊎ ((g : Full) × Stands n xs (advance exp) g × (after xs f ≡ g ∷ after xs g))
  unfolding advance Carried
  advance-Stands exp f here =
      let count : length exp.eithers ≡ length xs = ap length here.eithers ∙ length-rev xs in
      let carried : Carried n exp.eithers (next xs f) (carry (length exp.eithers) exp) =
        subst (λ k. Carried n exp.eithers (next xs f) (carry k exp)) (sym count)
          (carry-Carried n xs [] exp f (here.eithers ∙ sym (append-nil (rev xs))) low here.shows) in
      let step : advance exp ≡ carry (length exp.eithers) exp =
        rw (advance, here.shows.running) refl in
      elim (Option-cases (next xs f)) [
        | inl done ↦ inl (ap (λ e. e.finished) step ∙ (rw done at carried), next-none xs f done)
        | inr (g, on) ↦
            let (shows, eithers) = rw on at carried in
            inr (
              g,
              rw step (record { shows = shows; eithers = eithers ∙ here.eithers }),
              next-some xs f g falling on,
            )
      ]

  expansions-after :
      (rounds : ℕ) (exp : ExpandedAssignment) (f : Full)
      → Stands n xs exp f
      → length (f ∷ after xs f) < rounds
      → expansions rounds exp ≡ some (f ∷ after xs f)
  unfolding expansions
  expansions-after zero exp f here lt = absurd (omega arith)
  expansions-after (suc rounds) exp f here lt = elim (advance-Stands exp f here) [
    | inl (done, none_left) ↦
        let last = finished-expansions rounds (advance exp) done (omega arith) in
        rw (expansions, here.shows.running, last, here.shows.bits, none_left) refl
    | inr (g, there, more) ↦
        let others =
          expansions-after rounds (advance exp) g there (omega (arith, ap length more)) in
        rw (expansions, here.shows.running, others, here.shows.bits, more) refl
  ]

-- An expansion in which the variables below `k` have been entered.
Entered : ℕ → (ℕ → Tribool) → ℕ → ExpandedAssignment → Type 0
Entered n a k exp = Stands n (open_below a k) exp (lowest a k)

add_known-Stands :
    (n k : ℕ) (t : Tribool) (xs : List ℕ) (exp : ExpandedAssignment) (f : Full)
    → k < n
    → Stands n xs exp f
    → Stands n (open_with t k xs) (add_known t k exp) (update f k (value_of t))
unfolding add_known rev
add_known-Stands n k ipset_false xs exp f lt here = record {
  shows = with_bit-Shows n k false exp f lt here.shows;
  eithers = here.eithers;
}
add_known-Stands n k ipset_true xs exp f lt here = record {
  shows = with_bit-Shows n k true exp f lt here.shows;
  eithers = here.eithers;
}
add_known-Stands n k ipset_either xs exp f lt here = record {
  shows =
      let shows = with_bit-Shows n k false exp f lt here.shows in
      record { running = shows.running; bits = shows.bits; bytes = shows.bytes; size = shows.size };
  eithers = ap (λ es. es ++ k ∷ []) here.eithers;
}

add_variables-Entered :
    (n : ℕ) (a : ℕ → Tribool) (values : List Tribool) (m k : ℕ) (exp : ExpandedAssignment)
    → k + m ≤ n
    → ((j : ℕ) → j < k + m → get_or values j ipset_either ≡ a j)
    → Entered n a k exp
    → Entered n a (k + m) (add_variables values m k exp)
unfolding add_variables Entered
add_variables-Entered n a values zero k exp le same here =
    subst (λ j. Entered n a j exp) (omega arith) here
add_variables-Entered n a values (suc m) k exp le same here =
    subst (λ j. Entered n a j (add_variables values (suc m) k exp)) (omega arith)
      (add_variables-Entered n a values m (suc k) (add_known (get_or values k ipset_either) k exp)
        (omega arith) (λ j lt. same j (omega arith))
        (subst (λ t. Entered n a (suc k) (add_known t k exp)) (sym (same k (omega arith)))
          (add_known-Stands n k (a k) (open_below a k) exp (lowest a k) (omega arith) here)))

add_eithers-Entered :
    (n : ℕ) (a : ℕ → Tribool) (m k : ℕ) (exp : ExpandedAssignment)
    → ((j : ℕ) → k ≤ j → a j ≡ ipset_either)
    → Entered n a k exp
    → Entered n a (k + m) (add_eithers m k exp)
unfolding add_eithers Entered rev
add_eithers-Entered n a zero k exp free here = subst (λ j. Entered n a j exp) (omega arith) here
add_eithers-Entered n a (suc m) k exp free here =
    let next_exp : ExpandedAssignment = record exp { eithers = exp.eithers ++ k ∷ [] } in
    let later : Entered n a (suc k) next_exp =
      rw
        (free k (omega arith), update_there (lowest a k) k false (lowest-above a k k (omega arith)))
        (record {
          shows = record {
            running = here.shows.running;
            bits = here.shows.bits;
            bytes = here.shows.bytes;
            size = here.shows.size;
          };
          eithers = ap (λ es. es ++ k ∷ []) here.eithers;
        }) in
    subst (λ j. Entered n a j (add_eithers (suc m) k exp)) (omega arith)
      (add_eithers-Entered n a m (suc k) next_exp (λ j le. free j (omega arith)) later)

zero-bit_and : (b : ℕ) → bit_and 0 b ≡ 0
zero-bit_and b = bit_and-bitwise 0 b

pub get_or-zeros : (n i : ℕ) → get_or {A = ℕ} (replicate n 0) i 0 ≡ 0
get_or-zeros zero i = refl
get_or-zeros (suc n) zero = refl
get_or-zeros (suc n) (suc i) = get_or-zeros n i

-- The buffer at the start, all zeros.
pub zeros-Shows :
    (n m : ℕ)
    → n ≤ 8 * m
    → Shows n (record { finished = false; values = replicate m 0; eithers = [] }) (λ x. false)
unfolding bit_get get_byte
zeros-Shows n m le = record {
  running = refl;
  bits = fun_ext (λ x. rw (get_or-zeros m (x / 8), zero-bit_and _) refl);
  bytes = λ i. rw (get_or-zeros m i) (omega arith);
  size = omega (arith, length-replicate {A = ℕ} m 0);
}

view-get_or :
    (s : Assignment) (j : ℕ) → j < length s.values → get_or s.values j ipset_either ≡ view s j
unfolding Partial.get
view-get_or s j lt = ground arith

view-past : (s : Assignment) (j : ℕ) → length s.values ≤ j → view s j ≡ ipset_either
unfolding Partial.get
view-past s j le = ground arith

start_size : (n : ℕ) → n ≤ 8 * (n / 8 + (if n % 8 == 0 then 0 else 1))
start_size n = ground arith

pub expand-Entered :
    (s : Assignment) (n : ℕ) → Stands n (open_below (view s) n) (expand s n) (lowest (view s) n)
unfolding expand initialize Entered rev
expand-Entered s n =
    let bytes = n / 8 + (if n % 8 == 0 then 0 else 1) in
    let start : ExpandedAssignment = record {
      finished = false;
      values = replicate bytes 0;
      eithers = [];
    } in
    let empty : Entered n (view s) 0 start = record {
      shows = zeros-Shows n bytes (start_size n);
      eithers = refl;
    } in
    elim (lt-cases n (length s.values)) [
      | inl lt ↦
          let last : ltb n (length s.values) ≡ true = ground arith in
          let nothing : n - n ≡ 0 = omega arith in
          rw (last, nothing, add_eithers)
            (subst (λ k. Entered n (view s) k (add_variables s.values n 0 start)) (omega arith)
              (add_variables-Entered n (view s) s.values n 0 start (omega arith)
                (λ j h. view-get_or s j (omega arith)) empty))
      | inr le ↦
          let last : ltb n (length s.values) ≡ false = ground arith in
          rw last (
            subst
              (λ k. Entered n (view s) k (
                add_eithers (n - length s.values) (length s.values)
                  (add_variables s.values (length s.values) 0 start)))
              (omega arith)
              (add_eithers-Entered n (view s) (n - length s.values) (length s.values)
                (add_variables s.values (length s.values) 0 start) (view-past s)
                (subst
                  (λ k. Entered n (view s) k (add_variables s.values (length s.values) 0 start))
                  (omega arith)
                  (add_variables-Entered n (view s) s.values (length s.values) 0 start (omega arith)
                    (λ j h. view-get_or s j (omega arith)) empty))))
    ]

-- A client that starts with `expand` and calls `advance` until the expansion has finished sees
-- every assignment of the first `n` variables that agrees with the partial one, each once, in the
-- order of the binary numbers.
pub expand-fulls :
    (assignment : Assignment) (n rounds : ℕ)
    → length (fulls (view assignment) n) < rounds
    → expansions rounds (expand assignment n) ≡ some (fulls (view assignment) n)
expand-fulls assignment n rounds enough =
    let a = view assignment in
    let count = fulls-after a n in
    expansions-after n (open_below a n) (open_below-AllBelow a n) (open_below-Falling a n) rounds
      (expand assignment n) (lowest a n) (expand-Entered assignment n)
      (omega (arith, ap length count))
    ∙ ap some (sym count)
