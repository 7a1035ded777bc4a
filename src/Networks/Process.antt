-- ===== src/Networks/Process.antt =====
-- From one assignment of the diagram iterator to the next: `process_assignment` of
-- src/libipset/set/iterator.c and the functions that it calls.
use libcorkipset.Prelude.{
  ℕ, zero, suc, ◌<◌, ◌≤◌, ◌≡◌, refl, sym, ◌∙◌, ap, subst, Bool, true, false, Option, none, some,
  List, [], ◌++◌, length, ◌==◌, inl, inr, Bool-cases, if◌then◌else◌, arith,
}
use libcorkipset.Node.{NodeTable}
use libcorkipset.Cache.{NodeCache}
use libcorkipset.Cache.Graph.{Graph}
use libcorkipset.Cache.Invariant.{Invariant}
use libcorkipset.Iterator.{BddIterator}
use libcorkipset.Iterator as Walk
use libcorkipset.Iterator.Paths.{view, Leaves}
use libcorkipset.Iterator.Walk.{Pending, At, advance-Next, Next-Stands}
use libcorkipset.Iterator.Walk as Steps
use libcorkipset.Networks.{IpsetIterator, advance_bdd, expand_assignment, process_assignment}
use libcorkipset.Networks.Families.{Ready, expand_assignment-Reaches}
use libcorkipset.Networks.Listing.{Network, by_family, listing}
use libcorkipset.Networks.Showing.{Reaches}

module _ ⦃T : NodeTable⦄ {c : NodeCache} {g : Graph} {r : ℕ → ℕ} {free : List ℕ}
    (inv : Invariant c g r free) (top depth most : ℕ) (summarize : Bool) (desired_value : ℕ) where
  abbrev Reaching : Option IpsetIterator → List Network → Type 0
  Reaching o ns = Reaches inv top depth most summarize desired_value o ns

  abbrev IsReady : IpsetIterator → BddIterator → Type 0
  IsReady it b = Ready inv top depth most summarize desired_value it b

  module _ (process : IpsetIterator → Option IpsetIterator) (it : IpsetIterator)
      (b : BddIterator) where
    -- A call of the diagram iterator, and what is done with its next assignment.
    pub advance_bdd-Reaches :
        (ns : List Network) (rest : Leaves)
        → b.finished ≡ false
        → Pending inv top depth b.stack (view b.assignment) rest
        → ((b' : BddIterator)
            → Steps.Stands inv top depth b' rest
            → Reaching (process (record it { bdd_iterator = some b' })) ns)
        → Reaching (advance_bdd depth c process b it) ns
    advance_bdd-Reaches ns rest running pending others =
        let (b', run, stands) =
          Next-Stands inv top depth (Walk.advance depth c b) rest
            (advance-Next inv top depth b (view b.assignment) rest running pending) in
        let step : advance_bdd depth c process b it
            ≡ process (record it { bdd_iterator = some b' }) =
          ap
            (λ o. elim o as (λ _. Option IpsetIterator) [
              | none ↦ none
              | some b' ↦ process (record it { bdd_iterator = some b' })
            ])
            run in
        subst (λ o. Reaching o ns) (sym step) (others b' stands)

  ended : IpsetIterator → IpsetIterator
  ended it = record it { assignment_iterator = none; bdd_iterator = none; finished = true }

  module _ (fuel : ℕ) (it : IpsetIterator) (b : BddIterator) where
    -- What the recursive calls of `process_assignment` do at an assignment.
    at_assignment : Bool → Option IpsetIterator
    at_assignment matching = elim matching [
      | true ↦ expand_assignment (suc fuel) depth c (process_assignment fuel depth c) b it
      | false ↦ advance_bdd depth c (process_assignment fuel depth c) b it
    ]

    at_iterator : Bool → Option IpsetIterator
    at_iterator finished = elim finished [
      | true ↦ some (ended it)
      | false ↦ at_assignment (b.value == it.desired_value)
    ]

    process-at :
        it.bdd_iterator ≡ some b → process_assignment (suc fuel) depth c it ≡ at_iterator b.finished
    unfolding process_assignment at_iterator at_assignment ended
    process-at walking =
        ap
          (λ o. elim o as (λ _. Option IpsetIterator) [
            | none ↦ none
            | some b ↦ elim b.finished [
              | true ↦ some (ended it)
              | false ↦ elim (b.value == it.desired_value) [
                | true ↦ expand_assignment (suc fuel) depth c (process_assignment fuel depth c) b it
                | false ↦ advance_bdd depth c (process_assignment fuel depth c) b it
              ]
            ]
          ])
          walking

    process-matching :
        it.bdd_iterator ≡ some b
        → b.finished ≡ false
        → process_assignment (suc fuel) depth c it ≡ at_assignment (b.value == it.desired_value)
    unfolding at_iterator
    process-matching walking running = process-at walking ∙ ap at_iterator running

    process-ended :
        it.bdd_iterator ≡ some b
        → b.finished ≡ true
        → process_assignment (suc fuel) depth c it ≡ some (ended it)
    unfolding at_iterator
    process-ended walking done = process-at walking ∙ ap at_iterator done

  -- The iterator goes on to the next assignment with the desired value, or finishes.
  pub process_assignment-Reaches :
      (fuel : ℕ) (it : IpsetIterator) (b : BddIterator) (ls : Leaves)
      → length ls < fuel
      → length ls ≤ most
      → IsReady it b
      → Steps.Stands inv top depth b ls
      → Reaching (process_assignment fuel depth c it) (listing summarize desired_value ls)
  unfolding Reaches ended at_assignment
  process_assignment-Reaches zero it b ls lt le ready stands = absurd (omega arith)
  process_assignment-Reaches (suc fuel) it b ls lt le ready (inl (done, none_left)) = (
    ended it,
    process-ended fuel it b ready.walking done,
    inl (refl, ap (listing summarize desired_value) none_left),
  )
  process_assignment-Reaches (suc fuel) it b ls lt le ready (inr at) =
      let a = view b.assignment in
      let others = listing summarize desired_value at.rest in
      let test = ap (λ d. b.value == d) ready.wanted in
      let opened =
        process-matching fuel it b ready.walking at.running ∙ ap (at_assignment fuel it b) test in
      let all : (if b.value == desired_value then by_family summarize (a 0) a else []) ++ others
          ≡ listing summarize desired_value ls =
        ap (listing summarize desired_value) (sym at.first) in
      elim (Bool-cases (b.value == desired_value)) [
        | inl same ↦
            subst (λ o. Reaching o (listing summarize desired_value ls))
              (sym (opened ∙ ap (at_assignment fuel it b) same))
              (subst (Reaching (at_assignment fuel it b true))
                (ap (λ t. (if t then by_family summarize (a 0) a else []) ++ others) (sym same)
                  ∙ all)
                (expand_assignment-Reaches inv top depth most summarize desired_value fuel
                  (process_assignment fuel depth c) it b at.rest ready at.running at.pending
                  (omega (arith, ap length at.first))))
        | inr other ↦
            subst (λ o. Reaching o (listing summarize desired_value ls))
              (sym (opened ∙ ap (at_assignment fuel it b) other))
              (subst (Reaching (at_assignment fuel it b false))
                (ap (λ t. (if t then by_family summarize (a 0) a else []) ++ others) (sym other)
                  ∙ all)
                (advance_bdd-Reaches (process_assignment fuel depth c) it b others at.rest
                  at.running at.pending
                  (λ b' stands.
                    process_assignment-Reaches fuel (record it { bdd_iterator = some b' }) b'
                      at.rest (omega (arith, ap length at.first))
                      (omega (arith, ap length at.first))
                      (record {
                        going = ready.going;
                        wanted = ready.wanted;
                        grouped = ready.grouped;
                        walking = refl;
                      })
                      stands)))
      ]
