-- ===== src/Networks/Exact.antt =====
-- The networks that the iterator of src/libipset/set/iterator.c goes through hold exactly the
-- members of the set, and none of them twice.
use libcorkipset.Prelude.{
  ℕ, suc, ◌+◌, ◌<◌, ◌≤◌, ◌≡◌, ◌≢◌, ◌⊎◌, refl, sym, ◌∙◌, ap, Bool, true, false, not, ◌&&◌, Option,
  some, List, [], ◌∷◌, ◌++◌, bit, ◌==◌, length, inl, inr, Bool-cases, update, if◌then◌else◌, arith,
}
use libcorkipset.Tree.{Tree, terminal, nonterminal, eval, IsOrdered, height}
use libcorkipset.Node.{NodeTable}
use libcorkipset.Address.{Family, ipv4, ipv6, assignment}
use libcorkipset.Address.Network.{assignment-zero}
use libcorkipset.Assignment.{Tribool, ipset_false, ipset_true, ipset_either}
use libcorkipset.Iterator.Paths.{paths, nothing_fixed, FreeFrom, update-FreeFrom, Leaves}
use libcorkipset.Expanded.Full.{Full}
use libcorkipset.Expanded.Count.{how_many, how_many-append, allows, meets}
use libcorkipset.Set.{IpSet, contains}
use libcorkipset.Set.Valid.{Valid, bit_value}
use libcorkipset.Set.Laws.{contains-ok}
use libcorkipset.Networks.{IpsetIterator, create_iterator}
use libcorkipset.Networks.Listing.{Network, networks_in, by_family, listing}
use libcorkipset.Networks.Cover.{lies_in, count-networks_in}
use libcorkipset.Networks.Meets.{
  meets-update, meets-open, meets-wrong, split_bits, either≢false, meets-nothing,
}
use libcorkipset.Networks.Families.{Tribool-cases}
use libcorkipset.Networks.Whole.{networks_seen, networks_seen-listing}

-- A path with IPv4 addresses fixes no variable past those of IPv4.
abbrev pub IsNarrow : (ℕ → Tribool) → Type 0
IsNarrow a = a 0 ≢ ipset_false → (j : ℕ) → 33 ≤ j → a j ≡ ipset_either

abbrev pub AreNarrow : Leaves → Type 0
AreNarrow [] = Unit {0}
AreNarrow ((a, value) ∷ leaves) = IsNarrow a × AreNarrow leaves

module _ (summarize : Bool) (family : Family) (elem : List ℕ) where
  abbrev here : Full
  here = assignment family elem

  narrow-meets :
      (a : ℕ → Tribool) → a 0 ≢ ipset_false → IsNarrow a → meets a 33 here ≡ meets a 129 here
  narrow-meets a ne narrow = sym (meets-open 96 33 a here (narrow ne))

  count-by_family :
      (a : ℕ → Tribool)
      → (family.discriminator ≡ true → IsNarrow a)
      → how_many (lies_in family elem) (by_family summarize (a 0) a) ≡ bit (meets a 129 here)
  count-by_family a narrow =
      let b0 = assignment-zero family elem in
      elim (Tribool-cases (a 0)) [
        | inl six ↦
            ap (λ t. how_many (lies_in family elem) (by_family summarize t a)) six
            ∙ count-networks_in summarize ipv6 a family elem (omega arith)
        | inr (inl four) ↦
            ap (λ t. how_many (lies_in family elem) (by_family summarize t a)) four
            ∙ count-networks_in summarize ipv4 a family elem (omega arith)
            ∙ ap bit (elim (Bool-cases family.discriminator) [
              | inl ip4 ↦ narrow-meets a (λ p. absurd cc) (narrow ip4)
              | inr ip6 ↦
                  let wrong : allows (a 0) (here 0) ≡ false = rw (four, b0, ip6) refl in
                  meets-wrong 32 a here wrong ∙ sym (meets-wrong 128 a here wrong)
            ])
        | inr (inr either) ↦
            let four = networks_in summarize ipv4 (update a 0 ipset_true) in
            let six = networks_in summarize ipv6 (update a 0 ipset_false) in
            ap (λ t. how_many (lies_in family elem) (by_family summarize t a)) either
            ∙ how_many-append (lies_in family elem) four six
            ∙ ap (λ k. k + how_many (lies_in family elem) six)
                (count-networks_in summarize ipv4 (update a 0 ipset_true) family elem (omega arith)
                  ∙ ap bit (meets-update 33 a 0 ipset_true here (omega arith) either))
            ∙ ap (λ k. bit (meets a 33 here && here 0) + k)
                (count-networks_in summarize ipv6 (update a 0 ipset_false) family elem (omega arith)
                  ∙ ap bit (meets-update 129 a 0 ipset_false here (omega arith) either))
            ∙ split_bits (meets a 33 here) (meets a 129 here) (here 0)
                (λ on. narrow-meets a (λ p. either≢false (sym either ∙ p)) (narrow (sym b0 ∙ on)))
      ]

  -- The number of the paths with a value that an address agrees with.
  abbrev hits : ℕ → Leaves → ℕ
  hits d [] = 0
  hits d ((a, value) ∷ leaves) = (if value == d then bit (meets a 129 here) else 0) + hits d leaves

  hits-append : (d : ℕ) (ls ms : Leaves) → hits d (ls ++ ms) ≡ hits d ls + hits d ms
  hits-append d [] ms = omega arith
  hits-append d ((a, value) ∷ ls) ms = omega (arith, hits-append d ls ms)

  count-listing :
      (d : ℕ) (leaves : Leaves)
      → (family.discriminator ≡ true → AreNarrow leaves)
      → how_many (lies_in family elem) (listing summarize d leaves) ≡ hits d leaves
  count-listing d [] narrow = refl
  count-listing d ((a, value) ∷ leaves) narrow =
      let rest = listing summarize d leaves in
      let others = count-listing d leaves (λ ip4. (narrow ip4).1) in
      elim (Bool-cases (value == d)) [
        | inl same ↦ rw same (
            how_many-append (lies_in family elem) (by_family summarize (a 0) a) rest
            ∙ ap (λ k. k + how_many (lies_in family elem) rest)
                (count-by_family a (λ ip4. (narrow ip4).0))
            ∙ ap (λ k. bit (meets a 129 here) + k) others)
        | inr other ↦ rw other (omega (arith, others))
      ]

  value_bits : (m e : Bool) → (if e then bit m else 0) + 0 ≡ bit (m && e)
  value_bits true true = refl
  value_bits true false = refl
  value_bits false true = refl
  value_bits false false = refl

  branch_bits :
      (m v p q : Bool)
      → bit ((m && not v) && p) + bit ((m && v) && q) ≡ bit (m && (if v then q else p))
  branch_bits true true p true = refl
  branch_bits true true p false = refl
  branch_bits true false true q = refl
  branch_bits true false false q = refl
  branch_bits false v p q = refl

  -- An assignment agrees with one path of a tree, and has its value.
  hits-paths :
      (d x : ℕ) (t : Tree) (a : ℕ → Tribool)
      → IsOrdered 129 x t
      → FreeFrom x a
      → hits d (paths a t) ≡ bit (meets a 129 here && (eval t here == d))
  hits-paths d x (terminal v) a ord free = value_bits (meets a 129 here) (v == d)
  hits-paths d x (nonterminal y l h) a ord free =
      let low = update a y ipset_false in
      let high = update a y ipset_true in
      let free_y = free y ord.0 in
      let on_low =
        hits-paths d (suc y) l low ord.2 (update-FreeFrom a x y ipset_false ord.0 free)
        ∙ ap (λ m. bit (m && (eval l here == d)))
            (meets-update 129 a y ipset_false here ord.1 free_y) in
      let on_high =
        hits-paths d (suc y) h high ord.3 (update-FreeFrom a x y ipset_true ord.0 free)
        ∙ ap (λ m. bit (m && (eval h here == d)))
            (meets-update 129 a y ipset_true here ord.1 free_y) in
      hits-append d (paths low l) (paths high h)
      ∙ ap (λ k. k + hits d (paths high h)) on_low
      ∙ ap (λ k. bit ((meets a 129 here && not (here y)) && (eval l here == d)) + k) on_high
      ∙ branch_bits (meets a 129 here) (here y) (eval l here == d) (eval h here == d)
      ∙ elim (Bool-cases (here y)) [ inl on ↦ rw on refl | inr off ↦ rw off refl ]

desired_member : (x : ℕ) (on : Bool) → x ≤ 1 → (x == bit_value on) ≡ true → not (x == 0) ≡ on
desired_member x true h e = ground arith
desired_member x false h e = ground arith

other_member : (x : ℕ) (on : Bool) → x ≤ 1 → (x == bit_value on) ≡ false → not (x == 0) ≡ not on
other_member x true h e = ground arith
other_member x false h e = ground arith

-- One network for the desired value, and none for the other.
abbrev pub CountsMember : ℕ → Option Bool → Bool → Type 0
CountsMember count contained on =
    ((count ≡ 1) × (contained ≡ some on)) ⊎ ((count ≡ 0) × (contained ≡ some (not on)))

counts_member :
    (x k : ℕ) (on : Bool) (o : Option Bool)
    → x ≤ 1
    → k ≡ bit (x == bit_value on)
    → o ≡ some (not (x == 0))
    → CountsMember k o on
counts_member x k on o small count value = elim (Bool-cases (x == bit_value on)) [
  | inl same ↦ inl (count ∙ ap bit same, value ∙ ap some (desired_member x on small same))
  | inr other ↦ inr (count ∙ ap bit other, value ∙ ap some (other_member x on small other))
]

-- On a valid set, with a depth above the height of its diagram, at least as much fuel as it has
-- paths, and more rounds than networks, a client that starts with `create_iterator` and calls
-- `advance` until the iterator has finished sees networks of which exactly one holds an address
-- for which `contains` gives the desired value, and none holds an address for which it gives the
-- other value. For IPv4 addresses the condition is that no path of the diagram that is not for IPv6
-- alone fixes a variable past the 32 bits of an IPv4 address.
pub networks_seen-members :
    ⦃T : NodeTable⦄ (s : IpSet) (v : Valid s) (depth fuel rounds : ℕ) (summarize on : Bool)
    (family : Family) (elem : List ℕ)
    → height v.tree < depth
    → length (paths nothing_fixed v.tree) ≤ fuel
    → length (listing summarize (bit_value on) (paths nothing_fixed v.tree)) < rounds
    → (family.discriminator ≡ true → AreNarrow (paths nothing_fixed v.tree))
    → (it : IpsetIterator) × (create_iterator (suc fuel) depth s (bit_value on) summarize ≡ some it)
      × (ns : List Network) × (networks_seen rounds (suc fuel) depth s.cache it ≡ some ns)
      × CountsMember (how_many (lies_in family elem) ns) (contains family s elem) on
networks_seen-members s v depth fuel rounds summarize on family elem short few enough narrow =
    let d = bit_value on in
    let leaves = paths nothing_fixed v.tree in
    let (it, made, seen) =
      networks_seen-listing s v depth fuel summarize d rounds short few enough in
    let b = assignment family elem in
    let count : how_many (lies_in family elem) (listing summarize d leaves)
        ≡ bit (eval v.tree b == d) =
      count-listing summarize family elem d leaves narrow
      ∙ hits-paths summarize family elem d 0 v.tree nothing_fixed v.owns.ordered (λ y le. refl)
      ∙ ap (λ m. bit (m && (eval v.tree b == d))) (meets-nothing 129 b) in
    (
      it,
      made,
      listing summarize d leaves,
      seen,
      counts_member (eval v.tree b) (how_many (lies_in family elem) (listing summarize d leaves)) on
          (contains family s elem) (v.boolean b) count (contains-ok family elem v),
    )
