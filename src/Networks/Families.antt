-- ===== src/Networks/Families.antt =====
-- The expansion of an assignment with the desired value: `expand_ipv4`, `expand_ipv6` and the states
-- of src/libipset/set/iterator.c.
use libcorkipset.Prelude.{
  ℕ, suc, ◌<◌, ◌≡◌, ◌⊎◌, refl, sym, ◌∙◌, ap, subst, Bool, false, Option, none, some, List, ◌++◌,
  length, inl, inr, update,
}
use mathlib.Core.List.{append_assoc}
use libcorkipset.Node.{NodeTable}
use libcorkipset.Cache.{NodeCache}
use libcorkipset.Cache.Graph.{Graph}
use libcorkipset.Cache.Invariant.{Invariant}
use libcorkipset.Address.{ipv4, ipv6}
use libcorkipset.Assignment.{Tribool, ipset_false, ipset_true, ipset_either}
use libcorkipset.Iterator.{BddIterator}
use libcorkipset.Iterator.Paths.{view, view-set, Leaves}
use libcorkipset.Iterator.Walk.{Pending}
use libcorkipset.Networks.{
  normal, multiple_ipv4, IpsetIterator, with_variable, process_expanded_assignment, start_expansion,
  expand_ipv4, expand_ipv6, expand_assignment,
}
use libcorkipset.Networks.Listing.{Network, networks_in, by_family, listing}
use libcorkipset.Networks.Showing.{Later, one_family, first_family, Reaches, start-Showing}

pub Tribool-cases : (t : Tribool) → (t ≡ ipset_false) ⊎ ((t ≡ ipset_true) ⊎ (t ≡ ipset_either))
Tribool-cases ipset_false = inl refl
Tribool-cases ipset_true = inr (inl refl)
Tribool-cases ipset_either = inr (inr refl)

module _ ⦃T : NodeTable⦄ {c : NodeCache} {g : Graph} {r : ℕ → ℕ} {free : List ℕ}
    (inv : Invariant c g r free) (top depth most : ℕ) (summarize : Bool) (desired_value : ℕ) where
  -- An iterator with its settings, at an assignment of the diagram.
  pub record Ready (it : IpsetIterator) (b : BddIterator) : Type 0 where
    pub going : it.finished ≡ false
    pub wanted : it.desired_value ≡ desired_value
    pub grouped : it.summarize ≡ summarize
    pub walking : it.bdd_iterator ≡ some b

  abbrev pub Reaching : Option IpsetIterator → List Network → Type 0
  Reaching o ns = Reaches inv top depth most summarize desired_value o ns

  pub expand_ipv6-Reaches :
      (fuel : ℕ) (process : IpsetIterator → Option IpsetIterator) (it : IpsetIterator)
      (b : BddIterator) (others : List Network)
      → Ready it b
      → b.finished ≡ false
      → Later inv top depth most summarize desired_value it.multiple_expansion_state b others
      → Reaching
          (expand_ipv6 (suc fuel) depth c process it)
          (networks_in summarize ipv6 (view b.assignment) ++ others)
  unfolding expand_ipv6
  expand_ipv6-Reaches fuel process it b others ready running later =
      let run : expand_ipv6 (suc fuel) depth c process it
          ≡ process_expanded_assignment depth c process (expand_ipv6 fuel depth c process)
              (start_expansion ipv6 it b) =
        ap
          (λ o. elim o as (λ _. Option IpsetIterator) [
            | none ↦ none
            | some b' ↦
                process_expanded_assignment depth c process (expand_ipv6 fuel depth c process)
                  (start_expansion ipv6 it b')
          ])
          ready.walking in
      subst (λ o. Reaching o (networks_in summarize ipv6 (view b.assignment) ++ others)) (sym run)
        (start-Showing inv top depth most summarize desired_value ipv6 process
          (expand_ipv6 fuel depth c process) it b others ready.going ready.wanted ready.grouped
          ready.walking running later)

  expand_ipv4-Reaches :
      (fuel : ℕ) (process : IpsetIterator → Option IpsetIterator) (it : IpsetIterator)
      (b : BddIterator) (others : List Network)
      → Ready it b
      → b.finished ≡ false
      → Later inv top depth most summarize desired_value it.multiple_expansion_state b others
      → Reaching
          (expand_ipv4 fuel depth c process it)
          (networks_in summarize ipv4 (view b.assignment) ++ others)
  unfolding expand_ipv4
  expand_ipv4-Reaches fuel process it b others ready running later =
      let run : expand_ipv4 fuel depth c process it
          ≡ process_expanded_assignment depth c process (expand_ipv6 fuel depth c process)
              (start_expansion ipv4 it b) =
        ap
          (λ o. elim o as (λ _. Option IpsetIterator) [
            | none ↦ none
            | some b' ↦
                process_expanded_assignment depth c process (expand_ipv6 fuel depth c process)
                  (start_expansion ipv4 it b')
          ])
          ready.walking in
      subst (λ o. Reaching o (networks_in summarize ipv4 (view b.assignment) ++ others)) (sym run)
        (start-Showing inv top depth most summarize desired_value ipv4 process
          (expand_ipv6 fuel depth c process) it b others ready.going ready.wanted ready.grouped
          ready.walking running later)

  -- An assignment with the desired value.
  pub expand_assignment-Reaches :
      (fuel : ℕ) (process : IpsetIterator → Option IpsetIterator) (it : IpsetIterator)
      (b : BddIterator) (rest : Leaves)
      → Ready it b
      → b.finished ≡ false
      → Pending inv top depth b.stack (view b.assignment) rest
      → length rest < most
      → Reaching (expand_assignment (suc fuel) depth c process b it) (
          by_family summarize (view b.assignment 0) (view b.assignment)
          ++ listing summarize desired_value rest)
  unfolding expand_assignment
  expand_assignment-Reaches fuel process it b rest ready running pending few =
      let a = view b.assignment in
      let others = listing summarize desired_value rest in
      let it1 : IpsetIterator = record it { multiple_expansion_state = normal } in
      let ready1 : Ready it1 b = record {
        going = ready.going;
        wanted = ready.wanted;
        grouped = ready.grouped;
        walking = ready.walking;
      } in
      elim (Tribool-cases (view b.assignment 0)) [
        | inl six ↦
            let run : expand_assignment (suc fuel) depth c process b it
                ≡ expand_ipv6 (suc fuel) depth c process it1 =
              rw (expand_assignment, six) refl in
            subst (λ o. Reaching o (by_family summarize (a 0) a ++ others)) (sym run)
              (rw six (
                expand_ipv6-Reaches fuel process it1 b others ready1 running
                  (one_family pending few)))
        | inr (inl four) ↦
            let run : expand_assignment (suc fuel) depth c process b it
                ≡ expand_ipv4 (suc fuel) depth c process it1 =
              rw (expand_assignment, four) refl in
            subst (λ o. Reaching o (by_family summarize (a 0) a ++ others)) (sym run)
              (rw four (
                expand_ipv4-Reaches (suc fuel) process it1 b others ready1 running
                  (one_family pending few)))
        | inr (inr either) ↦
            let b2 = with_variable b 0 ipset_true in
            let it2 : IpsetIterator = record it {
              multiple_expansion_state = multiple_ipv4;
              bdd_iterator = some b2;
            } in
            let ready2 : Ready it2 b2 = record {
              going = ready.going;
              wanted = ready.wanted;
              grouped = ready.grouped;
              walking = refl;
            } in
            let run : expand_assignment (suc fuel) depth c process b it
                ≡ expand_ipv4 (suc fuel) depth c process it2 =
              rw (expand_assignment, either) refl in
            let seen = view-set b.assignment 0 ipset_true in
            let later = networks_in summarize ipv6 (update a 0 ipset_false) ++ others in
            let all : networks_in summarize ipv4 (view b2.assignment) ++ later
                ≡ by_family summarize (a 0) a ++ others =
              ap (λ v. networks_in summarize ipv4 v ++ later) seen
              ∙ rw either (
                  sym (
                    append_assoc (networks_in summarize ipv4 (update a 0 ipset_true))
                      (networks_in summarize ipv6 (update a 0 ipset_false)) others)) in
            subst (λ o. Reaching o (by_family summarize (a 0) a ++ others)) (sym run)
              (subst (Reaching (expand_ipv4 (suc fuel) depth c process it2)) all (
                expand_ipv4-Reaches (suc fuel) process it2 b2 later ready2 running
                  (first_family a either seen pending few)))
      ]
