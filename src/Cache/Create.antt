-- ===== src/Cache/Create.antt =====
-- The branch of `ipset_node_cache_nonterminal` that makes a node that does not exist yet: the cache
-- with the new node in it.
pub mod Run
use libcorkipset.Prelude.{
  ℕ, suc, ◌+◌, ◌-◌, ◌*◌, ◌/◌, ◌%◌, ◌^◌, ◌≤◌, ◌<◌, ◌≡◌, ◌≢◌, refl, sym, ap, ◌∙◌, ◌⊎◌, inl, inr, Bool,
  true, false, Option, none, some, List, [], ◌∷◌, ◌++◌, arith, bit, ◌==◌, if◌then◌else◌, ==-refl,
  ne→==, eq→==, ==→eq, eq-cases, Bool-cases, contains, update, update_self, update-ne,
}
use libcorkipset.Node.{Node, NodeTable, node_equals}
use libcorkipset.Node.Equality.{node_equals-fields, fields-node_equals, node-Compatible}
use libcorkipset.NodeId.{word, nonterminal_node_id}
use libcorkipset.Cache.{
  NodeCache, get_nonterminal_by_index, set_nonterminal_by_index, create, store, ◌>>=◌,
}
use libcorkipset.Cache.Memory.{
  get-set_self, get-set_ne, set-fields, Chunked-set_nonterminal, get-below, get-chunks,
}
use libcorkipset.Cache.Counting.{store-ok, hold-ne}
use libcorkipset.Cache.Alloc.{Allocated, alloc_node-ok}
use libcorkipset.Cache.Graph.{Content, cell, Graph, refs, hold, edge, Extends}
use libcorkipset.Cache.Graph.Count.{refs-hold, refs-add, edge-le-refs}
use libcorkipset.Cache.Invariant.{Held, FreeChain, Entry, Invariant, Settled, Later}
use libcorkipset.Cache.Invariant.Recount.{FreeChain-frame}
use libcorkipset.Cache.Outcome.{content, Outcome}

-- A node with variable `k.variable` whose subtrees may be those of `k`.
pub record Fits (g : Graph) (k : Content) : Type 0 where
  pub irredundant : k.low ≢ k.high
  pub low_later : Later g k.variable k.low
  pub high_later : Later g k.variable k.high

module _ ⦃T : NodeTable⦄ where
  module _ (c c1 : NodeCache) (g : Graph) (r : ℕ → ℕ) (free : List ℕ) (new : ℕ) (k : Content)
      (got : Allocated c g (hold k.low (hold k.high r)) new c1 free) (fits : Fits g k) (m : Node)
      (valid : get_nonterminal_by_index c1 new ≡ some m)
      (absent : T.table.get c1.node_cache (cell k 0) ≡ none) where
    abbrev g' : Graph
    g' = update g new (some k)

    abbrev r0 : ℕ → ℕ
    r0 = hold k.low (hold k.high r)

    abbrev stored : NodeCache
    stored = set_nonterminal_by_index c1 new (cell k 1)

    -- The cache with the new node and its entry.
    abbrev made : NodeCache
    made = record c1 {
      chunks = stored.chunks;
      node_cache = T.table.put c1.node_cache (cell k 1) (new * 2);
    }

    nothing : refs c1.largest_index g r0 new ≡ 0
    nothing = got.inv.dead new got.unused

    -- Nothing refers to an index that is not in use.
    low-ne : k.low ≢ new * 2
    low-ne e = omega (
      arith,
      nothing,
      refs-hold c1.largest_index k.low g (hold k.high r) new,
      ap bit (eq→== k.low (new * 2) e),
    )

    high-ne : k.high ≢ new * 2
    high-ne e = omega (
      arith,
      nothing,
      refs-hold c1.largest_index k.low g (hold k.high r) new,
      refs-hold c1.largest_index k.high g r new,
      ap bit (eq→== k.high (new * 2) e),
    )

    node_low-ne : (i : ℕ) (n : Content) → g i ≡ some n → n.low ≢ new * 2
    node_low-ne i n e p =
        let b = (got.inv.held i n e).below in
        omega (
          arith,
          nothing,
          b,
          edge-le-refs c1.largest_index g r0 i n new b e,
          ap bit (eq→== n.low (new * 2) p),
        )

    node_high-ne : (i : ℕ) (n : Content) → g i ≡ some n → n.high ≢ new * 2
    node_high-ne i n e p =
        let b = (got.inv.held i n e).below in
        omega (
          arith,
          nothing,
          b,
          edge-le-refs c1.largest_index g r0 i n new b e,
          ap bit (eq→== n.high (new * 2) p),
        )

    -- The references that the caller gave up are now those of the new node.
    moved :
        (i : ℕ)
        → refs c1.largest_index g' (hold (new * 2) r) i
          ≡ bit (new * 2 == i * 2) + refs c1.largest_index g r0 i
    moved i = omega (
      arith,
      refs-hold c1.largest_index (new * 2) g' r i,
      refs-add c1.largest_index g r new k i got.below got.unused,
      refs-hold c1.largest_index k.low g (hold k.high r) i,
      refs-hold c1.largest_index k.high g r i,
    )

    moved-ne :
        (i : ℕ)
        → new ≢ i
        → refs c1.largest_index g' (hold (new * 2) r) i ≡ refs c1.largest_index g r0 i
    moved-ne i ne = omega (arith, moved i, ap bit (ne→== (new * 2) (i * 2) (λ p. ne (omega arith))))

    moved_self : refs c1.largest_index g' (hold (new * 2) r) new ≡ 1
    moved_self = omega (arith, moved new, ap bit (==-refl (new * 2)), nothing)

    later : (x id : ℕ) → id ≢ new * 2 → Later g x id → Later g' x id
    later x id ne h j n p e = elim (eq-cases new j) [
      | inl same ↦ absurd (ne (omega arith))
      | inr other ↦ h j n p (sym (update-ne g new j (some k) other) ∙ e)
    ]

    -- A node of the new graph is the new one or an old one.
    node-cases :
        (i : ℕ) (n : Content) → g' i ≡ some n → ((new ≡ i) × (n ≡ k)) ⊎ ((new ≢ i) × (g i ≡ some n))
    node-cases i n e = elim (eq-cases new i) [
      | inl p ↦ inl (p, let s = update_self g new (some k) in cc)
      | inr ne ↦ inr (ne, sym (update-ne g new i (some k) ne) ∙ e)
    ]

    read-new : get_nonterminal_by_index made new ≡ some (cell k 1)
    read-new = get-chunks stored made new refl ∙ get-set_self c1 new (cell k 1) valid

    read-old : (i : ℕ) → new ≢ i → get_nonterminal_by_index made i ≡ get_nonterminal_by_index c1 i
    read-old i ne = get-chunks stored made i refl ∙ get-set_ne c1 new (cell k 1) valid i ne

    -- The entries of the table with the new one.
    get-made :
        (key : Node)
        → T.table.get made.node_cache key
          ≡ (if node_equals (cell k 1) key then some (new * 2) else T.table.get c1.node_cache key)
    get-made key =
        T.table.get-put (node-Compatible T.hash_variable) c1.node_cache (cell k 1) key (new * 2)

    -- A node in use does not have the contents of the new one.
    different :
        (i : ℕ) (n : Content) → g i ≡ some n → (a : ℕ) → node_equals (cell k 1) (cell n a) ≡ false
    different i n e a = elim (Bool-cases (node_equals (cell k 1) (cell n a))) [
      | inr ne ↦ ne
      | inl same ↦
          let (p, q, w) = node_equals-fields (cell k 1) (cell n a) same in
          let alike : cell k 0 ≡ cell n 0 =
            λ j. record { refcount = 0; variable = p j; low = q j; high = w j } in
          let found : T.table.get c1.node_cache (cell k 0) ≡ some (i * 2) =
            rw alike ((got.inv.held i n e).entry 0) in
          absurd (cc)
    ]

    Held-made :
        (i : ℕ) (n : Content)
        → g' i ≡ some n
        → Held made i n (refs made.largest_index g' (hold (new * 2) r) i)
    Held-made i n e = elim (node-cases i n e) [
      | inl (p, q) ↦
          rw (← p, q, moved_self)
            (record {
              below = got.below;
              small = omega arith;
              at = read-new;
              entry = λ a.
                  get-made (cell k a)
                  ∙ (rw (fields-node_equals (cell k 1) (cell k a) refl refl refl));
            })
      | inr (ne, old) ↦
          let h = got.inv.held i n old in
          rw (moved-ne i ne) (record {
            below = h.below;
            small = h.small;
            at = read-old i ne ∙ h.at;
            entry = λ a. get-made (cell n a) ∙ (rw (different i n old a) (h.entry a));
          })
    ]

    dead-made : (i : ℕ) → g' i ≡ none → refs made.largest_index g' (hold (new * 2) r) i ≡ 0
    dead-made i e = elim (eq-cases new i) [
      | inl p ↦ absurd (let s = update_self g new (some k) in cc)
      | inr ne ↦ moved-ne i ne ∙ got.inv.dead i (sym (update-ne g new i (some k) ne) ∙ e)
    ]

    entries-made :
        (key : Node) (id : ℕ)
        → T.table.get made.node_cache key ≡ some id
        → (i : ℕ) × (n : Node) × Entry made free key id i n
    entries-made key id e = elim (Bool-cases (node_equals (cell k 1) key)) [
      | inl same ↦
          let q : some (new * 2) ≡ some id = rw same at (sym (get-made key) ∙ e) in
          (
            new,
            cell k 1,
            record {
              is_id = cc;
              below = got.below;
              at = read-new;
              same = same;
              not_free = got.not_free;
            },
          )
      | inr ne ↦
          let old : T.table.get c1.node_cache key ≡ some id = rw ne at (sym (get-made key) ∙ e) in
          let (i, n, en) = got.inv.entries key id old in
          (
            i,
            n,
            record {
              is_id = en.is_id;
              below = en.below;
              at =
                  read-old i
                    (λ p. got.unnamed key id (rw got.table at old) (omega (arith, en.is_id)))
                  ∙ en.at;
              same = en.same;
              not_free = en.not_free;
            },
          )
    ]

    Invariant-made : Invariant made g' (hold (new * 2) r) free
    Invariant-made =
        let (f0, f1, f2, f3) = set-fields c1 new (cell k 1) valid in
        record {
          chunked = Chunked-set_nonterminal c1 new (cell k 1) valid got.inv.chunked;
          room = omega (arith, f0, got.inv.room);
          small = got.inv.small;
          held = Held-made;
          dead = dead-made;
          irredundant = λ i n e. elim (node-cases i n e) [
            | inl (p, q) ↦ rw q fits.irredundant
            | inr (ne, old) ↦ got.inv.irredundant i n old
          ];
          low_later = λ i n e. elim (node-cases i n e) [
            | inl (p, q) ↦ rw q (later k.variable k.low low-ne fits.low_later)
            | inr (ne, old) ↦
                later n.variable n.low (node_low-ne i n old) (got.inv.low_later i n old)
          ];
          high_later = λ i n e. elim (node-cases i n e) [
            | inl (p, q) ↦ rw q (later k.variable k.high high-ne fits.high_later)
            | inr (ne, old) ↦
                later n.variable n.high (node_high-ne i n old) (got.inv.high_later i n old)
          ];
          chain =
              FreeChain-frame c1 made c1.free_list free (omega arith)
                (λ i f unused.
                  let ne : new ≢ i = λ p. (let out = got.not_free in ground arith) in
                  (update-ne g new i (some k) ne ∙ unused, read-old i ne))
                got.inv.chain;
          entries = entries-made;
        }

    Settled-made : Settled c1 g → Settled made g'
    Settled-made quiet key id e = elim (Bool-cases (node_equals (cell k 1) key)) [
      | inl same ↦
          let q : some (new * 2) ≡ some id = rw same at (sym (get-made key) ∙ e) in
          (new, k, cc, update_self g new (some k))
      | inr ne ↦
          let old : T.table.get c1.node_cache key ≡ some id = rw ne at (sym (get-made key) ∙ e) in
          let (i, n, p, here) = quiet key id old in
          (
            i,
            n,
            p,
            update-ne g new i (some k)
                  (λ q. got.unnamed key id (rw got.table at old) (omega (arith, p)))
                ∙ here,
          )
    ]

    Extends-made : Extends g g'
    Extends-made i n e = update-ne g new i (some k) (λ p. let s = got.unused in cc) ∙ e

    -- The references after the call are at most one more than those before it.
    bounded-made :
        (i : ℕ)
        → refs c1.largest_index g r0 i ≤ refs c.largest_index g r0 i
        → refs made.largest_index g' (hold (new * 2) r) i ≤ refs c.largest_index g r0 i + 1
    bounded-made i le = elim (eq-cases new i) [
      | inl p ↦ rw (← p) (omega (arith, moved_self))
      | inr ne ↦ omega (arith, moved-ne i ne)
    ]
