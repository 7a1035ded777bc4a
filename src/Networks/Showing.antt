-- ===== src/Networks/Showing.antt =====
-- The states of the iterator of src/libipset/set/iterator.c.
use libcorkipset.Prelude.{
  ℕ, ◌+◌, ◌<◌, ◌≡◌, ◌⊎◌, refl, sym, ◌∙◌, ap, subst, Bool, true, false, Option, none, some, List, [],
  ◌∷◌, ◌++◌, map, length, inr, if◌then◌else◌, replicate, update,
}
use libcorkipset.Node.{NodeTable}
use libcorkipset.Cache.{NodeCache}
use libcorkipset.Cache.Graph.{Graph}
use libcorkipset.Cache.Invariant.{Invariant}
use libcorkipset.Bits.{bit_get}
use libcorkipset.Address.{Family, ipv6}
use libcorkipset.Assignment.{Tribool, ipset_false, ipset_true, ipset_either}
use libcorkipset.Expanded.{ExpandedAssignment, expand}
use libcorkipset.Expanded.Full.{Full, fulls, open_below, lowest, after, AllBelow, Falling}
use libcorkipset.Expanded.Laws.{open_below-AllBelow, open_below-Falling, fulls-after}
use libcorkipset.Expanded.Expand.{Stands, expand-Entered}
use libcorkipset.Iterator.{BddIterator}
use libcorkipset.Iterator.Paths.{view, Leaves}
use libcorkipset.Iterator.Walk.{Pending}
use libcorkipset.Networks.{
  IteratorState, normal, multiple_ipv4, multiple_ipv6, IpsetIterator, create_ip_address,
  advance_assignment, process_expanded_assignment, start_expansion,
}
use libcorkipset.Networks.Listing.{
  Network, address_of, network_of, prefix_of, networks_in, listing, copy_bits-write_bits,
  find_last_non_either_bit-last_fixed,
}

module _ ⦃T : NodeTable⦄ {c : NodeCache} {g : Graph} {r : ℕ → ℕ} {free : List ℕ}
    (inv : Invariant c g r free) (top depth most : ℕ) (summarize : Bool) (desired_value : ℕ) where
  -- What comes after the assignment that is expanded: fewer than `most` others, and perhaps itself
  -- as one of the other family.
  pub data Later : IteratorState → BddIterator → List Network → Type 0 where
    one_family :
        {b : BddIterator} {rest : Leaves}
        → Pending inv top depth b.stack (view b.assignment) rest
        → length rest < most
        → Later normal b (listing summarize desired_value rest)
    first_family :
        {b : BddIterator} {rest : Leaves} (a : ℕ → Tribool)
        → a 0 ≡ ipset_either
        → view b.assignment ≡ update a 0 ipset_true
        → Pending inv top depth b.stack a rest
        → length rest < most
        → Later multiple_ipv4 b (
            networks_in summarize ipv6 (update a 0 ipset_false)
            ++ listing summarize desired_value rest)
    second_family :
        {b : BddIterator} {rest : Leaves} (a : ℕ → Tribool)
        → a 0 ≡ ipset_either
        → view b.assignment ≡ update a 0 ipset_false
        → Pending inv top depth b.stack a rest
        → length rest < most
        → Later multiple_ipv6 b (listing summarize desired_value rest)

  -- The iterator shows the first of some networks, and the others are to come.
  pub record Showing (it : IpsetIterator) (ns : List Network) : Type 0 where
    pub going : it.finished ≡ false
    pub wanted : it.desired_value ≡ desired_value
    pub grouped : it.summarize ≡ summarize
    pub b : BddIterator
    pub walking : it.bdd_iterator ≡ some b
    pub running : b.finished ≡ false
    pub exp : ExpandedAssignment
    pub expanding : it.assignment_iterator ≡ some exp
    pub xs : List ℕ
    pub f : Full
    pub stands : Stands (it.cidr_prefix + 1) xs exp f
    pub low : AllBelow (it.cidr_prefix + 1) xs
    pub falling : Falling xs
    pub shown : it.addr ≡ address_of it.cidr_prefix f
    pub others : List Network
    pub later : Later it.multiple_expansion_state b others
    pub all :
        ns ≡ network_of it.cidr_prefix f ∷ (map (network_of it.cidr_prefix) (after xs f) ++ others)

  -- An iterator has finished, or shows the first of some networks.
  abbrev pub Ends : IpsetIterator → List Network → Type 0
  Ends it ns = ((it.finished ≡ true) × (ns ≡ [])) ⊎ Showing it ns

  unfoldable pub Reaches : Option IpsetIterator → List Network → Type 0
  Reaches res ns = (it : IpsetIterator) × (res ≡ some it) × Ends it ns

  start_prefix :
      (family : Family) (it : IpsetIterator) (b : BddIterator)
      → it.summarize ≡ summarize
      → (start_expansion family it b).cidr_prefix ≡ prefix_of summarize family (view b.assignment)
  unfolding start_expansion
  start_prefix family it b grouped =
      rw (grouped, find_last_non_either_bit-last_fixed b.assignment family.bit_size) refl

  pub create_ip_address-Showing :
      (it : IpsetIterator) (b : BddIterator) (exp : ExpandedAssignment) (xs : List ℕ) (f : Full)
      (others : List Network)
      → it.finished ≡ false
      → it.desired_value ≡ desired_value
      → it.summarize ≡ summarize
      → it.bdd_iterator ≡ some b
      → b.finished ≡ false
      → it.assignment_iterator ≡ some exp
      → Stands (it.cidr_prefix + 1) xs exp f
      → AllBelow (it.cidr_prefix + 1) xs
      → Falling xs
      → Later it.multiple_expansion_state b others
      → Showing
          (create_ip_address it exp)
          (network_of it.cidr_prefix f ∷ (map (network_of it.cidr_prefix) (after xs f) ++ others))
  unfolding create_ip_address
  create_ip_address-Showing it b exp xs f others going wanted grouped walking running expanding
        stands low falling later =
      record {
        going = going;
        wanted = wanted;
        grouped = grouped;
        b = b;
        walking = walking;
        running = running;
        exp = exp;
        expanding = expanding;
        xs = xs;
        f = f;
        stands = stands;
        low = low;
        falling = falling;
        shown =
            let k = it.cidr_prefix in
            ap (λ ip. record { version = if bit_get exp.values 0 then 4 else 6; ip = ip })
              (copy_bits-write_bits k 0 exp.values (replicate 16 0))
            ∙ ap (address_of k) stands.shows.bits;
        others = others;
        later = later;
        all = refl;
      }

  module _ (process expand6 : IpsetIterator → Option IpsetIterator) (it : IpsetIterator)
      (exp : ExpandedAssignment) (expanding : it.assignment_iterator ≡ some exp) where
    pub process-shows :
        exp.finished ≡ false
        → process_expanded_assignment depth c process expand6 it ≡ some (create_ip_address it exp)
    unfolding process_expanded_assignment
    process-shows on =
        ap
          (λ o. elim o as (λ _. Option IpsetIterator) [
            | none ↦ none
            | some e ↦ elim e.finished [
              | true ↦
                  advance_assignment depth c process expand6
                    (record it { assignment_iterator = none })
              | false ↦ some (create_ip_address it e)
            ]
          ])
          expanding
        ∙ ap
            (λ d. elim d as (λ _. Option IpsetIterator) [
              | true ↦
                  advance_assignment depth c process expand6
                    (record it { assignment_iterator = none })
              | false ↦ some (create_ip_address it exp)
            ])
            on

    pub process-ends :
        exp.finished ≡ true
        → process_expanded_assignment depth c process expand6 it
          ≡ advance_assignment depth c process expand6 (record it { assignment_iterator = none })
    unfolding process_expanded_assignment
    process-ends done = rw (process_expanded_assignment, expanding, done) refl

  -- A new expansion shows its first network.
  pub start-Showing :
      (family : Family) (process expand6 : IpsetIterator → Option IpsetIterator)
      (it : IpsetIterator) (b : BddIterator) (others : List Network)
      → it.finished ≡ false
      → it.desired_value ≡ desired_value
      → it.summarize ≡ summarize
      → it.bdd_iterator ≡ some b
      → b.finished ≡ false
      → Later it.multiple_expansion_state b others
      → Reaches
          (process_expanded_assignment depth c process expand6 (start_expansion family it b))
          (networks_in summarize family (view b.assignment) ++ others)
  unfolding Reaches start_expansion
  start-Showing family process expand6 it b others going wanted grouped walking running later =
      let it1 = start_expansion family it b in
      let k = it1.cidr_prefix in
      let a = view b.assignment in
      let exp = expand b.assignment (k + 1) in
      let stands = expand-Entered b.assignment (k + 1) in
      let all : network_of k (lowest a (k + 1))
            ∷ (map (network_of k) (after (open_below a (k + 1)) (lowest a (k + 1))) ++ others)
          ≡ networks_in summarize family a ++ others =
        ap (λ fs. map (network_of k) fs ++ others) (sym (fulls-after a (k + 1)))
        ∙ ap (λ j. map (network_of j) (fulls a (j + 1)) ++ others)
            (start_prefix family it b grouped) in
      (
        create_ip_address it1 exp,
        process-shows process expand6 it1 exp refl stands.shows.running,
        inr (
            subst (Showing (create_ip_address it1 exp)) all (
              create_ip_address-Showing it1 b exp (open_below a (k + 1)) (lowest a (k + 1)) others
                going wanted grouped walking running refl stands (open_below-AllBelow a (k + 1))
                (open_below-Falling a (k + 1)) later)),
      )
