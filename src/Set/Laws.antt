-- ===== src/Set/Laws.antt =====
-- What the operations of src/libipset/set/inspection.c and inspection-template.c.in do to the
-- members of a set.
use Prim.Native.Nat.{◌+◌}
use libcorkipset.Prelude.{
  ℕ, ◌≤◌, ◌<◌, ◌≡◌, ◌↔◌, ◌⊎◌, inl, inr, refl, sym, ◌∙◌, Bool, true, false, not, List, none, some,
  ◌==◌, ==→eq, eq→==, if◌then◌else◌, Returns-result, Gives, Bool-cases, lt-cases, arith,
}
use libcorkipset.Tree.{Tree, terminal, eval, SameFunction, agrees, Inserted}
use libcorkipset.Node.{NodeTable}
use libcorkipset.NodeId.{terminal_node_id}
use libcorkipset.Address.{Family, assignment}
use libcorkipset.Address.Network.{in_network, agrees-in_network}
use libcorkipset.Bdd.{replace}
use libcorkipset.Bdd.Replace.{replace-ok}
use libcorkipset.Cache.Graph.Repr.{Repr-unique, at_terminal}
use libcorkipset.Bdd.Evaluate.{Repr-injective}
use libcorkipset.Bdd.Owner.{
  new-Owns, terminal_node_id-small, evaluate-Owns, nodes_equal-Owns, canonical-Owns,
}
use libcorkipset.Set.{
  IpSet, Reply, depth, is_empty, is_equal, contains, add, remove, add_network, remove_network,
  reply_of, out_of_range,
}
use libcorkipset.Set.Valid.{
  Valid, member, variables, HasRoom, bit_value, bit_value-le, Boolean-member, Boolean-same,
}

choose :
    (b on : Bool) (x : ℕ)
    → some (not ((if b then bit_value on else x) == 0))
      ≡ (if b then some on else some (not (x == 0)))
choose true true x = refl
choose true false x = refl
choose false on x = refl

module _ (n : ℕ) (on : Bool) (a : ℕ → Bool) (t t' : Tree) (ins : Inserted 0 n a (bit_value on) t t')
    (small : (b : ℕ → Bool) → eval t b ≤ 1) where
  Inserted-boolean : (b : ℕ → Bool) → eval t' b ≤ 1
  Inserted-boolean b = elim (Bool-cases (agrees 0 n a b)) [
    | inl agree ↦ rw (ins b, agree) (bit_value-le on)
    | inr differ ↦ rw (ins b, differ) (small b)
  ]

  -- An insertion is without effect where the value is there already.
  Inserted-SameFunction :
      SameFunction t' t ↔ ((b : ℕ → Bool) → agrees 0 n a b ≡ true → not (eval t b == 0) ≡ on)
  Inserted-SameFunction = (
    (λ same b agree. (Boolean-member (eval t b) on (small b)).0 (sym (same b) ∙ ins b ∙ rw agree)),
    (λ there b. elim (Bool-cases (agrees 0 n a b)) [
      | inl agree ↦
          ins b ∙ rw agree (sym ((Boolean-member (eval t b) on (small b)).1 (there b agree)))
      | inr differ ↦ ins b ∙ rw differ
    ]),
  )

module _ ⦃T : NodeTable⦄ where
  -- `contains` terminates on a valid set and tells whether the address, as an assignment, is a
  -- member.
  pub contains-ok :
      (family : Family) {s : IpSet} (elem : List ℕ) (v : Valid s)
      → contains family s elem ≡ some (member v (assignment family elem))
  unfolding contains
  contains-ok family elem v = rw (evaluate-Owns v.owns depth (assignment family elem) (omega arith))

  -- What a writer leaves: the members of the network have become those of a set with the value
  -- `on`, the others are as they were, and the result tells whether no member changed.
  pub record Written (s : IpSet) (v : Valid s) (family : Family) (elem : List ℕ) (cidr_prefix : ℕ)
      (on : Bool) (r : Reply) : Type 0 where
    pub valid : Valid r.set
    pub no_error : r.error ≡ none
    pub others :
        (family' : Family) (elem' : List ℕ)
        → contains family' r.set elem' ≡ (
            if in_network family elem cidr_prefix family' elem'
            then some on
            else contains family' s elem')
    pub unchanged : (r.result ≡ true) ↔ (
        (b : ℕ → Bool)
        → agrees 0 (cidr_prefix + 1) (assignment family elem) b ≡ true
        → member v b ≡ on)
    pub growth : r.set.cache.largest_index ≤ s.cache.largest_index + 260

  -- What an operation on a network leaves, whether its prefix is in range or not.
  abbrev pub NetworkWritten : (s : IpSet) → Valid s → Family → List ℕ → ℕ → Bool → Reply → Type 0
  NetworkWritten s v family elem cidr_prefix on r =
      ((family.bit_size < cidr_prefix) × (r ≡ out_of_range family s cidr_prefix))
      ⊎ ((cidr_prefix ≤ family.bit_size) × Written s v family elem cidr_prefix on r)

  module _ (family : Family) {s : IpSet} (elem : List ℕ) (v : Valid s) (room : HasRoom s) where
    written :
        (n : ℕ) (on : Bool)
        → n ≤ 128
        → Gives
            (reply_of s
              (replace depth s.set_bdd (assignment family elem) (n + 1) (bit_value on) s.cache))
            (Written s v family elem n on)
    written n on h =
        let a = assignment family elem in
        let (new_bdd, cache, run, (t', owns, ins, same, grown)) = Returns-result (
          replace-ok variables (n + 1) (bit_value on) depth a (omega arith) (omega arith)
            (omega (arith, bit_value-le on)) (omega arith) (omega arith) v.owns) in
        let valid : Valid (record { cache = cache; set_bdd = new_bdd }) = record {
          tree = t';
          owns = owns;
          boolean = Inserted-boolean (n + 1) on a v.tree t' ins v.boolean;
        } in
        let there = Inserted-SameFunction (n + 1) on a v.tree t' ins v.boolean in
        (
          (record {
            result = new_bdd == s.set_bdd;
            error = none;
            set = record { cache = cache; set_bdd = new_bdd };
          }),
          rw run,
          record {
            valid = valid;
            no_error = refl;
            others = λ family' elem'.
                rw
                  (
                    contains-ok family' elem' valid,
                    contains-ok family' elem' v,
                    ins (assignment family' elem'),
                    agrees-in_network family family' elem elem' n (omega arith),
                  )
                  (choose (in_network family elem n family' elem') on
                    (eval v.tree (assignment family' elem')));
            unchanged = ((λ e. there.0 (same.0 e)), (λ h'. same.1 (there.1 h')));
            growth = omega arith;
          },
        )

    -- For addresses of at most 128 bits and with room for an insertion, `add` succeeds on a valid
    -- set: the set stays valid, `contains` is then true of the address and as before of every other
    -- address of either family, and the result is true exactly if every assignment with the bits of
    -- the address was a member before.
    pub add-ok :
        family.bit_size ≤ 128
        → Gives (add family s elem) (Written s v family elem family.bit_size true)
    unfolding add
    add-ok h = written family.bit_size true h

    -- For addresses of at most 128 bits and with room for an insertion, `remove` succeeds on a
    -- valid set: the set stays valid, `contains` is then false of the address and as before of
    -- every other address of either family, and the result is true exactly if no assignment with
    -- the bits of the address was a member before.
    pub remove-ok :
        family.bit_size ≤ 128
        → Gives (remove family s elem) (Written s v family elem family.bit_size false)
    unfolding remove
    remove-ok h = written family.bit_size false h

    -- For addresses of at most 128 bits and with room for an insertion, `add_network` succeeds on a
    -- valid set. A prefix that is longer than an address sets the error, gives false and leaves the
    -- set as it is. With any other, the set stays valid, `contains` is then true of the addresses
    -- of the network and as before of every other address of either family, and the result is true
    -- exactly if every assignment in the network was a member before.
    pub add_network-ok :
        (cidr_prefix : ℕ)
        → family.bit_size ≤ 128
        → Gives
            (add_network family s elem cidr_prefix)
            (NetworkWritten s v family elem cidr_prefix true)
    unfolding add_network
    add_network-ok cidr_prefix h = elim (lt-cases family.bit_size cidr_prefix) [
      | inl out ↦ (out_of_range family s cidr_prefix, ground arith, inl (out, refl))
      | inr inside ↦
          let (r, e, w) = written cidr_prefix true (omega arith) in
          (r, ground arith, inr (inside, w))
    ]

    -- For addresses of at most 128 bits and with room for an insertion, `remove_network` succeeds
    -- on a valid set. A prefix that is longer than an address sets the error, gives false and
    -- leaves the set as it is. With any other, the set stays valid, `contains` is then false of the
    -- addresses of the network and as before of every other address of either family, and the
    -- result is true exactly if no assignment in the network was a member before.
    pub remove_network-ok :
        (cidr_prefix : ℕ)
        → family.bit_size ≤ 128
        → Gives
            (remove_network family s elem cidr_prefix)
            (NetworkWritten s v family elem cidr_prefix false)
    unfolding remove_network
    remove_network-ok cidr_prefix h = elim (lt-cases family.bit_size cidr_prefix) [
      | inl out ↦ (out_of_range family s cidr_prefix, ground arith, inl (out, refl))
      | inr inside ↦
          let (r, e, w) = written cidr_prefix false (omega arith) in
          (r, ground arith, inr (inside, w))
    ]

  id_of_empty : {s : IpSet} (v : Valid s) → s.set_bdd ≡ terminal_node_id 0 → v.tree ≡ terminal 0
  id_of_empty v e =
      Repr-unique (terminal_node_id 0) e v.owns.repr
        (at_terminal (terminal_node_id-small 0 (omega arith)))

  empty_of_id :
      {s : IpSet} (v : Valid s)
      → ((b : ℕ → Bool) → member v b ≡ false)
      → s.set_bdd ≡ terminal_node_id 0
  empty_of_id v none_in =
      let same =
        canonical-Owns v.owns (new-Owns variables 0 (omega arith))
          (λ b. Boolean-same (eval v.tree b) 0 (v.boolean b) (omega arith) (none_in b)) in
      Repr-injective v.owns.inv (terminal 0) (rw (← same) v.owns.repr)
        (at_terminal (terminal_node_id-small 0 (omega arith)))

  -- `is_empty` is true of a valid set exactly if the set has no member.
  pub is_empty-ok :
      {s : IpSet} (v : Valid s) → (is_empty s ≡ true) ↔ ((b : ℕ → Bool) → member v b ≡ false)
  unfolding is_empty
  is_empty-ok {s} v = (
    (λ e b. rw (id_of_empty v (==→eq s.set_bdd (terminal_node_id 0) e))),
    (λ none_in. eq→== s.set_bdd (terminal_node_id 0) (empty_of_id v none_in)),
  )

  -- `is_equal` terminates on two valid sets, each with its own cache, and tells whether they have
  -- the same members.
  pub is_equal-ok :
      {s1 s2 : IpSet} (v1 : Valid s1) (v2 : Valid s2)
      → ((is_equal s1 s2 ≡ some true) × ((b : ℕ → Bool) → member v1 b ≡ member v2 b))
        ⊎ ((is_equal s1 s2 ≡ some false) × ¬ ((b : ℕ → Bool) → member v1 b ≡ member v2 b))
  unfolding is_equal
  is_equal-ok v1 v2 = elim (nodes_equal-Owns v1.owns depth (omega arith) v2.owns) [
    | inl (e, same) ↦ inl (e, λ b. rw same)
    | inr (e, ne) ↦ inr (
      e,
      λ alike. ne (
          canonical-Owns v1.owns v2.owns (λ b.
            Boolean-same (eval v1.tree b) (eval v2.tree b) (v1.boolean b) (v2.boolean b)
              (alike b))),
    )
  ]
