-- ===== src/Networks/Whole.antt =====
-- A client of the iterator of src/libipset/set/iterator.c sees the networks of the set.
use libcorkipset.Prelude.{
  ℕ, zero, suc, ◌+◌, ◌<◌, ◌≤◌, ◌≡◌, refl, sym, ◌∙◌, ap, subst, Bool, true, false, Option, none,
  some, List, [], ◌∷◌, ◌++◌, map, length, inl, inr, replicate, arith,
}
use mathlib.Core.List.{append-nil}
use libcorkipset.Tree.{height}
use libcorkipset.Node.{NodeTable}
use libcorkipset.Cache.{NodeCache}
use libcorkipset.Cache.Graph.{Graph}
use libcorkipset.Cache.Invariant.{Invariant}
use libcorkipset.Expanded.{ExpandedAssignment}
use libcorkipset.Expanded as Expansion
use libcorkipset.Expanded.Full.{after}
use libcorkipset.Expanded.Expand.{advance-Stands}
use libcorkipset.Assignment as Partial
use libcorkipset.Iterator.{BddIterator, iterate}
use libcorkipset.Iterator.Paths.{paths, nothing_fixed, view-new}
use libcorkipset.Iterator.Walk.{At, at_end, Reached, add_node-Reached}
use libcorkipset.Networks.{
  IpsetIterator, normal, create_ip_address, process_expanded_assignment, advance_assignment,
  process_assignment, create_iterator, advance,
}
use libcorkipset.Set.{IpSet}
use libcorkipset.Set.Valid.{Valid, variables}
use libcorkipset.Networks.Listing.{Network, network_of, listing}
use libcorkipset.Networks.Showing.{
  Showing, Ends, Reaches, process-shows, process-ends, create_ip_address-Showing,
}
use libcorkipset.Networks.Process.{process_assignment-Reaches}
use libcorkipset.Networks.Walked.{process, expand6, advance_assignment-Reaches}

-- What a client sees that advances an iterator until it has finished, in at most so many rounds.
unfoldable pub networks_seen :
    ⦃T : NodeTable⦄ → (rounds fuel depth : ℕ) → NodeCache → IpsetIterator → Option (List Network)
networks_seen zero fuel depth cache it = none
networks_seen (suc rounds) fuel depth cache it = elim it.finished [
  | true ↦ some []
  | false ↦ elim (advance fuel depth cache it) [
    | none ↦ none
    | some it' ↦ elim (networks_seen rounds fuel depth cache it') [
      | none ↦ none
      | some seen ↦ some ((it.addr, it.cidr_prefix) ∷ seen)
    ]
  ]
]

module _ ⦃T : NodeTable⦄ {c : NodeCache} {g : Graph} {r : ℕ → ℕ} {free : List ℕ}
    (inv : Invariant c g r free) (top depth fuel : ℕ) (summarize : Bool) (desired_value : ℕ) where
  abbrev Reaching : Option IpsetIterator → List Network → Type 0
  Reaching o ns = Reaches inv top depth fuel summarize desired_value o ns

  abbrev Shows : IpsetIterator → List Network → Type 0
  Shows it ns = Showing inv top depth fuel summarize desired_value it ns

  with_exp : IpsetIterator → ExpandedAssignment → IpsetIterator
  with_exp it exp = record it { assignment_iterator = some exp }

  advance-expanded :
      (it : IpsetIterator) (exp : ExpandedAssignment)
      → it.finished ≡ false
      → it.assignment_iterator ≡ some exp
      → advance (suc fuel) depth c it
        ≡ process_expanded_assignment depth c
            (process inv top depth fuel summarize desired_value)
            (expand6 inv top depth fuel summarize desired_value)
            (with_exp it (Expansion.advance exp))
  unfolding advance with_exp
  advance-expanded it exp going expanding =
      let go : ExpandedAssignment → Option IpsetIterator = λ e.
        process_expanded_assignment depth c (process inv top depth fuel summarize desired_value)
          (expand6 inv top depth fuel summarize desired_value)
          (with_exp it (Expansion.advance e)) in
      let look : Option ExpandedAssignment → Option IpsetIterator =
        λ o. elim o [ none ↦ none | some e ↦ go e ] in
      ap
        (λ d. elim d as (λ _. Option IpsetIterator) [
          | true ↦ some it
          | false ↦ look it.assignment_iterator
        ])
        going
      ∙ ap look expanding

  -- After an advance the iterator shows the next network, or has finished.
  advance-Reaches :
      (it : IpsetIterator) (ns : List Network) (s : Shows it ns)
      → Reaching
          (advance (suc fuel) depth c it)
          (map (network_of it.cidr_prefix) (after s.xs s.f) ++ s.others)
  unfolding with_exp Reaches
  advance-Reaches it ns s =
      let k = it.cidr_prefix in
      let exp' = Expansion.advance s.exp in
      let it1 = with_exp it exp' in
      let p = process inv top depth fuel summarize desired_value in
      let e6 = expand6 inv top depth fuel summarize desired_value in
      let start = advance-expanded it s.exp s.going s.expanding in
      elim (advance-Stands (k + 1) s.xs s.low s.falling s.exp s.f s.stands) [
        | inl (done, none_left) ↦
            let it2 : IpsetIterator = record it1 { assignment_iterator = none } in
            subst (λ o. Reaching o (map (network_of k) (after s.xs s.f) ++ s.others))
              (sym (
                start
                ∙ process-ends inv top depth fuel summarize desired_value p e6 it1 exp' refl done))
              (subst
                (λ fs.
                  Reaching (advance_assignment depth c p e6 it2)
                    (map (network_of k) fs ++ s.others))
                (sym none_left)
                (advance_assignment-Reaches inv top depth fuel summarize desired_value it2 s.b
                  s.others
                  (record {
                    going = s.going;
                    wanted = s.wanted;
                    grouped = s.grouped;
                    walking = s.walking;
                  })
                  s.running s.later))
        | inr (f, stands, more) ↦ (
          create_ip_address it1 exp',
          start
              ∙ process-shows inv top depth fuel summarize desired_value p e6 it1 exp' refl
                  stands.shows.running,
          inr (
              subst
                (Showing inv top depth fuel summarize desired_value (create_ip_address it1 exp'))
                (ap (λ fs. map (network_of k) fs ++ s.others) (sym more))
                (create_ip_address-Showing inv top depth fuel summarize desired_value it1 s.b exp'
                  s.xs f s.others s.going s.wanted s.grouped s.walking s.running refl stands s.low
                  s.falling s.later)),
        )
      ]

  networks_seen-Ends :
      (rounds : ℕ) (it : IpsetIterator) (ns : List Network)
      → Ends inv top depth fuel summarize desired_value it ns
      → length ns < rounds
      → networks_seen rounds (suc fuel) depth c it ≡ some ns
  unfolding networks_seen Reaches
  networks_seen-Ends zero it ns ends lt = absurd (omega arith)
  networks_seen-Ends (suc rounds) it ns (inl (done, none_left)) lt =
      rw (networks_seen, done) (ap some (sym none_left))
  networks_seen-Ends (suc rounds) it ns (inr s) lt =
      let rest = map (network_of it.cidr_prefix) (after s.xs s.f) ++ s.others in
      let (it', run, ends) = advance-Reaches it ns s in
      let later = networks_seen-Ends rounds it' rest ends (omega (arith, ap length s.all)) in
      rw (networks_seen, s.going, run, later)
        (ap some (ap (λ a. (a, it.cidr_prefix) ∷ rest) s.shown ∙ sym s.all))

module _ ⦃T : NodeTable⦄ (s : IpSet) (v : Valid s) (depth fuel : ℕ) (summarize : Bool)
    (desired_value : ℕ) where
  create_iterator-Reaches :
      height v.tree < depth
      → length (paths nothing_fixed v.tree) ≤ fuel
      → Reaches v.owns.inv variables depth fuel summarize desired_value
          (create_iterator (suc fuel) depth s desired_value summarize)
          (listing summarize desired_value (paths nothing_fixed v.tree))
  unfolding create_iterator iterate Reached
  create_iterator-Reaches short few =
      let t = v.tree in
      let inv = v.owns.inv in
      let start : BddIterator = record {
        finished = false;
        stack = [];
        assignment = Partial.new;
        value = 0;
      } in
      let (b, run, at) =
        add_node-Reached inv variables depth depth s.set_bdd 0 t start nothing_fixed [] short
          (omega arith) v.owns.repr v.owns.ordered refl view-new (λ y le. refl) at_end in
      let all = append-nil (paths nothing_fixed t) in
      let with_walk : BddIterator → IpsetIterator = λ b'. record {
        finished = false;
        bdd_iterator = some b';
        assignment_iterator = none;
        multiple_expansion_state = normal;
        addr = record { version = 0; ip = replicate 16 0 };
        cidr_prefix = 0;
        desired_value = desired_value;
        summarize = summarize;
      } in
      let opened : create_iterator (suc fuel) depth s desired_value summarize
          ≡ process_assignment (suc fuel) depth s.cache (with_walk b) =
        ap
          (λ o. elim o as (λ _. Option IpsetIterator) [
            | none ↦ none
            | some b' ↦ process_assignment (suc fuel) depth s.cache (with_walk b')
          ])
          run in
      subst
        (λ o.
          Reaches inv variables depth fuel summarize desired_value o
            (listing summarize desired_value (paths nothing_fixed t)))
        (sym opened)
        (process_assignment-Reaches inv variables depth fuel summarize desired_value (suc fuel)
          (with_walk b) b (paths nothing_fixed t) (omega arith) few
          (record { going = refl; wanted = refl; grouped = refl; walking = refl })
          (inr (subst (At inv variables depth b) all at)))

  -- On a valid set, with a depth above the height of its diagram, at least as much fuel as it has
  -- paths, and more rounds than networks, a client that starts with `create_iterator` and calls
  -- `advance` until the iterator has finished sees the listing of the set: for each path of the
  -- diagram with the desired value, from left to right, its IPv4 networks and then its IPv6
  -- networks, each of the addresses that agree with the path once, in increasing order.
  pub networks_seen-listing :
      (rounds : ℕ)
      → height v.tree < depth
      → length (paths nothing_fixed v.tree) ≤ fuel
      → length (listing summarize desired_value (paths nothing_fixed v.tree)) < rounds
      → (it : IpsetIterator) × (create_iterator (suc fuel) depth s desired_value summarize
          ≡ some it)
        × (networks_seen rounds (suc fuel) depth s.cache it
            ≡ some (listing summarize desired_value (paths nothing_fixed v.tree)))
  unfolding Reaches
  networks_seen-listing rounds short few enough =
      let (it, made, ends) = create_iterator-Reaches short few in
      (
        it,
        made,
        networks_seen-Ends v.owns.inv variables depth fuel summarize desired_value rounds it
            (listing summarize desired_value (paths nothing_fixed v.tree)) ends enough,
      )
