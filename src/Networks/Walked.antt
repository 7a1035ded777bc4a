-- ===== src/Networks/Walked.antt =====
-- A client of the iterator of src/libipset/set/iterator.c sees the networks of the set.
use libcorkipset.Prelude.{
  ℕ, suc, ◌<◌, ◌≡◌, refl, sym, ◌∙◌, ap, subst, Bool, false, Option, none, some, List, ◌++◌, length,
  update, update-twice, update_there, arith,
}
use libcorkipset.Node.{NodeTable}
use libcorkipset.Cache.{NodeCache}
use libcorkipset.Cache.Graph.{Graph}
use libcorkipset.Cache.Invariant.{Invariant}
use libcorkipset.Address.{ipv6}
use libcorkipset.Assignment.{Tribool, ipset_false, ipset_true, ipset_either}
use libcorkipset.Iterator.{BddIterator}
use libcorkipset.Iterator.Paths.{view, view-set, Leaves}
use libcorkipset.Iterator.Walk.{Pending}
use libcorkipset.Networks.{
  IteratorState, normal, multiple_ipv4, multiple_ipv6, IpsetIterator, with_variable, advance_bdd,
  advance_assignment, expand_ipv6, process_assignment,
}
use libcorkipset.Networks.Listing.{Network, networks_in, listing}
use libcorkipset.Networks.Showing.{Later, one_family, first_family, second_family, Reaches}
use libcorkipset.Networks.Families.{Ready, expand_ipv6-Reaches}
use libcorkipset.Networks.Process.{advance_bdd-Reaches, process_assignment-Reaches}

module _ ⦃T : NodeTable⦄ {c : NodeCache} {g : Graph} {r : ℕ → ℕ} {free : List ℕ}
    (inv : Invariant c g r free) (top depth fuel : ℕ) (summarize : Bool) (desired_value : ℕ) where
  abbrev Reaching : Option IpsetIterator → List Network → Type 0
  Reaching o ns = Reaches inv top depth fuel summarize desired_value o ns

  abbrev pub process : IpsetIterator → Option IpsetIterator
  process = process_assignment (suc fuel) depth c

  abbrev pub expand6 : IpsetIterator → Option IpsetIterator
  expand6 = expand_ipv6 (suc fuel) depth c process

  abbrev with_bdd : IpsetIterator → BddIterator → IpsetIterator
  with_bdd it b = record it { bdd_iterator = some b }

  abbrev pub IsReady : IpsetIterator → BddIterator → Type 0
  IsReady it b = Ready inv top depth fuel summarize desired_value it b

  with_bdd-Ready :
      (it : IpsetIterator) (b b' : BddIterator) → IsReady it b → IsReady (with_bdd it b') b'
  with_bdd-Ready it b b' ready = record {
    going = ready.going;
    wanted = ready.wanted;
    grouped = ready.grouped;
    walking = refl;
  }

  -- The next assignment of the diagram.
  next_path-Reaches :
      (it : IpsetIterator) (b b' : BddIterator) (a : ℕ → Tribool) (rest : Leaves)
      → IsReady it b
      → b'.finished ≡ false
      → view b'.assignment ≡ a
      → Pending inv top depth b'.stack a rest
      → length rest < fuel
      → Reaching (advance_bdd depth c process b' it) (listing summarize desired_value rest)
  next_path-Reaches it b b' a rest ready running same pending few =
      advance_bdd-Reaches inv top depth fuel summarize desired_value process it b'
        (listing summarize desired_value rest) rest running
        (subst (λ v. Pending inv top depth b'.stack v rest) (sym same) pending)
        (λ b'' stands.
          process_assignment-Reaches inv top depth fuel summarize desired_value (suc fuel)
            (with_bdd it b'') b'' rest (omega arith) (omega arith) (with_bdd-Ready it b b'' ready)
            stands)

  in_state : IpsetIterator → BddIterator → IteratorState → Option IpsetIterator
  in_state it b normal = advance_bdd depth c process b it
  in_state it b multiple_ipv4 = expand6 (record it {
    multiple_expansion_state = multiple_ipv6;
    bdd_iterator = some (with_variable b 0 ipset_false);
  })
  in_state it b multiple_ipv6 = advance_bdd depth c process (with_variable b 0 ipset_either) it

  advance_assignment-in_state :
      (it : IpsetIterator) (state : IteratorState) (b : BddIterator)
      → it.bdd_iterator ≡ some b
      → it.multiple_expansion_state ≡ state
      → advance_assignment depth c process expand6 it ≡ in_state it b state
  unfolding advance_assignment in_state
  advance_assignment-in_state it state b walking here =
      ap
        (λ o. elim o as (λ _. Option IpsetIterator) [
          | none ↦ none
          | some b ↦ in_state it b it.multiple_expansion_state
        ])
        walking
      ∙ ap (in_state it b) here

  other_family :
      (b : BddIterator) (a : ℕ → Tribool) (v w : Tribool)
      → view b.assignment ≡ update a 0 v
      → view (with_variable b 0 w).assignment ≡ update a 0 w
  other_family b a v w same =
      view-set b.assignment 0 w ∙ ap (λ u. update u 0 w) same ∙ update-twice a 0 v w

  in_state-Reaches :
      (it : IpsetIterator) (state : IteratorState) (b : BddIterator) (others : List Network)
      → IsReady it b
      → b.finished ≡ false
      → Later inv top depth fuel summarize desired_value state b others
      → Reaching (in_state it b state) others
  unfolding in_state
  in_state-Reaches it state b others ready running (one_family {rest} pending few) =
      next_path-Reaches it b b (view b.assignment) rest ready running refl pending few
  in_state-Reaches it state b others ready running (first_family {rest} a either same pending few) =
      let b' = with_variable b 0 ipset_false in
      let seen = other_family b a ipset_true ipset_false same in
      subst
        (λ v.
          Reaching (in_state it b multiple_ipv4)
            (networks_in summarize ipv6 v ++ listing summarize desired_value rest))
        seen
        (expand_ipv6-Reaches inv top depth fuel summarize desired_value fuel process
          (record it { multiple_expansion_state = multiple_ipv6; bdd_iterator = some b' }) b'
          (listing summarize desired_value rest)
          (record {
            going = ready.going;
            wanted = ready.wanted;
            grouped = ready.grouped;
            walking = refl;
          })
          running (second_family a either seen pending few))
  in_state-Reaches it state b others ready running
        (second_family {rest} a either same pending few) =
      next_path-Reaches it b (with_variable b 0 ipset_either) a rest ready running
        (other_family b a ipset_false ipset_either same ∙ update_there a 0 ipset_either either)
        pending few

  -- The last full assignment of a path has been shown.
  pub advance_assignment-Reaches :
      (it : IpsetIterator) (b : BddIterator) (others : List Network)
      → IsReady it b
      → b.finished ≡ false
      → Later inv top depth fuel summarize desired_value it.multiple_expansion_state b others
      → Reaching (advance_assignment depth c process expand6 it) others
  advance_assignment-Reaches it b others ready running later =
      subst (λ o. Reaching o others)
        (sym (advance_assignment-in_state it it.multiple_expansion_state b ready.walking refl))
        (in_state-Reaches it it.multiple_expansion_state b others ready running later)
