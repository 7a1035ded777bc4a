-- ===== src/Map/Laws.antt =====
-- What the operations of src/libipset/map/inspection.c and inspection-template.c.in do to the
-- values of a map.
use libcorkipset.Prelude.{
  ℕ, ◌+◌, ◌^◌, ◌≤◌, ◌<◌, ◌≡◌, ◌↔◌, ◌⊎◌, inl, inr, refl, ◌∙◌, Bool, true, false, List, none, some,
  ==→eq, eq→==, if◌then◌else◌, Returns-result, Gives, lt-cases, Bool-cases, arith,
}
use libcorkipset.Tree.{Tree, terminal, eval, SameFunction, agrees, Inserted}
use libcorkipset.Node.{NodeTable}
use libcorkipset.Address.{Family, assignment}
use libcorkipset.Address.Network.{in_network, agrees-in_network}
use libcorkipset.Cache.Graph.Repr.{Repr-unique, at_terminal}
use libcorkipset.Bdd.{replace}
use libcorkipset.Bdd.Evaluate.{Repr-injective}
use libcorkipset.Bdd.Replace.{replace-ok}
use libcorkipset.Bdd.Owner.{
  terminal_node_id-small, new-Owns, evaluate-Owns, nodes_equal-Owns, canonical-Owns,
}
use libcorkipset.Set.{depth}
use libcorkipset.Set.Valid.{variables}
use libcorkipset.Map.{
  IpMap, Reply, is_empty, is_equal, get, set, set_network, reply_of, out_of_range,
}
use libcorkipset.Map.Valid.{Valid, value_at, HasRoom}

choose : (b : Bool) (x y : ℕ) → some (if b then x else y) ≡ (if b then some x else some y)
choose true x y = refl
choose false x y = refl

Inserted-small :
    (n value : ℕ) (a : ℕ → Bool) (t t' : Tree)
    → Inserted 0 n a value t t'
    → value < 2 ^ 31
    → ((b : ℕ → Bool) → eval t b < 2 ^ 31)
    → (b : ℕ → Bool) → eval t' b < 2 ^ 31
Inserted-small n value a t t' ins small values b = elim (Bool-cases (agrees 0 n a b)) [
  | inl agree ↦ rw (ins b, agree) small
  | inr differ ↦ rw (ins b, differ) (values b)
]

module _ ⦃T : NodeTable⦄ where
  -- `get` terminates on a valid map with the value of the address, as an assignment.
  pub get-ok :
      (family : Family) {m : IpMap} (elem : List ℕ) (v : Valid m)
      → get family m elem ≡ some (value_at v (assignment family elem))
  unfolding get
  get-ok family elem v = evaluate-Owns v.owns depth (assignment family elem) (omega arith)

  -- What a writer leaves: the addresses of the network have the value `value`, the others have the
  -- value that they had, and the default is the same.
  pub record Written (m : IpMap) (v : Valid m) (family : Family) (elem : List ℕ) (cidr_prefix : ℕ)
      (value : ℕ) (r : Reply) : Type 0 where
    pub valid : Valid r.map
    pub no_error : r.error ≡ none
    pub others :
        (family' : Family) (elem' : List ℕ)
        → get family' r.map elem' ≡ (
            if in_network family elem cidr_prefix family' elem'
            then some value
            else get family' m elem')
    pub same_default : r.map.default_bdd ≡ m.default_bdd
    pub growth : r.map.cache.largest_index ≤ m.cache.largest_index + 260

  -- What `set_network` leaves, whether its prefix is in range or not.
  abbrev pub NetworkWritten : (m : IpMap) → Valid m → Family → List ℕ → ℕ → ℕ → Reply → Type 0
  NetworkWritten m v family elem cidr_prefix value r =
      ((family.bit_size < cidr_prefix) × (r ≡ out_of_range family m cidr_prefix))
      ⊎ ((cidr_prefix ≤ family.bit_size) × Written m v family elem cidr_prefix value r)

  module _ (family : Family) {m : IpMap} (elem : List ℕ) (v : Valid m) (room : HasRoom m)
      (value : ℕ) (small : value < 2 ^ 31) where
    written :
        (n : ℕ)
        → n ≤ 128
        → Gives
            (reply_of m (replace depth m.map_bdd (assignment family elem) (n + 1) value m.cache))
            (Written m v family elem n value)
    written n h =
        let a = assignment family elem in
        let (new_bdd, cache, run, (t', owns, ins, same, grown)) = Returns-result (
          replace-ok variables (n + 1) value depth a (omega arith) (omega arith) small (omega arith)
            (omega arith) v.owns) in
        let valid : Valid (record m { cache = cache; map_bdd = new_bdd }) = record {
          tree = t';
          owns = owns;
          values_small = Inserted-small (n + 1) value a v.tree t' ins small v.values_small;
          default_value = v.default_value;
          default_small = v.default_small;
          default_is = v.default_is;
        } in
        (
          (record { error = none; map = record m { cache = cache; map_bdd = new_bdd } }),
          rw run,
          record {
            valid = valid;
            no_error = refl;
            others = λ family' elem'.
                rw
                  (
                    get-ok family' elem' valid,
                    get-ok family' elem' v,
                    ins (assignment family' elem'),
                    agrees-in_network family family' elem elem' n (omega arith),
                  )
                  (choose (in_network family elem n family' elem') value
                    (eval v.tree (assignment family' elem')));
            same_default = refl;
            growth = omega arith;
          },
        )

    -- For addresses of at most 128 bits and with room for an insertion and a value below 2^31,
    -- `set` succeeds on a valid map: the map stays valid with its default, `get` then gives the
    -- value at the address, and what it gave before at every other address of either family.
    pub set-ok :
        family.bit_size ≤ 128
        → Gives (set family m elem value) (Written m v family elem family.bit_size value)
    unfolding set
    set-ok h = written family.bit_size h

    -- For addresses of at most 128 bits and with room for an insertion and a value below 2^31,
    -- `set_network` succeeds on a valid map. A prefix that is longer than an address sets the error
    -- and leaves the map as it is. With any other, the map stays valid with its default, `get` then
    -- gives the value at the addresses of the network, and what it gave before at every other
    -- address of either family.
    pub set_network-ok :
        (cidr_prefix : ℕ)
        → family.bit_size ≤ 128
        → Gives
            (set_network family m elem cidr_prefix value)
            (NetworkWritten m v family elem cidr_prefix value)
    unfolding set_network
    set_network-ok cidr_prefix h = elim (lt-cases family.bit_size cidr_prefix) [
      | inl out ↦ (out_of_range family m cidr_prefix, ground arith, inl (out, refl))
      | inr inside ↦
          let (r, e, w) = written cidr_prefix (omega arith) in (r, ground arith, inr (inside, w))
    ]

  tree_of_default :
      {m : IpMap} (v : Valid m) → m.map_bdd ≡ m.default_bdd → v.tree ≡ terminal v.default_value
  tree_of_default {m} v e =
      Repr-unique m.default_bdd e v.owns.repr
        (at_terminal (v.default_is ∙ terminal_node_id-small v.default_value v.default_small))

  default_of_tree :
      {m : IpMap} (v : Valid m)
      → ((b : ℕ → Bool) → value_at v b ≡ v.default_value)
      → m.map_bdd ≡ m.default_bdd
  default_of_tree v all =
      let same = canonical-Owns v.owns (new-Owns variables v.default_value v.default_small) all in
      Repr-injective v.owns.inv (terminal v.default_value) (rw (← same) v.owns.repr)
        (at_terminal (v.default_is ∙ terminal_node_id-small v.default_value v.default_small))

  -- `is_empty` is true of a valid map exactly if every assignment has the default value.
  pub map_empty-ok :
      {m : IpMap} (v : Valid m)
      → (is_empty m ≡ true) ↔ ((b : ℕ → Bool) → value_at v b ≡ v.default_value)
  unfolding is_empty
  map_empty-ok {m} v = (
    (λ e b. rw (tree_of_default v (==→eq m.map_bdd m.default_bdd e))),
    (λ all. eq→== m.map_bdd m.default_bdd (default_of_tree v all)),
  )

  -- `is_equal` terminates on two valid maps, each with its own cache, and tells whether they give
  -- the same values, whatever their defaults are.
  pub map_equal-ok :
      {m1 m2 : IpMap} (v1 : Valid m1) (v2 : Valid m2)
      → ((is_equal m1 m2 ≡ some true) × SameFunction v1.tree v2.tree)
        ⊎ ((is_equal m1 m2 ≡ some false) × ¬ SameFunction v1.tree v2.tree)
  unfolding is_equal
  map_equal-ok v1 v2 = elim (nodes_equal-Owns v1.owns depth (omega arith) v2.owns) [
    | inl (e, same) ↦ inl (e, λ b. rw same)
    | inr (e, ne) ↦ inr (e, λ alike. ne (canonical-Owns v1.owns v2.owns alike))
  ]
