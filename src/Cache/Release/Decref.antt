-- ===== src/Cache/Release/Decref.antt =====
-- `ipset_node_decref`: one reference goes, and with it every node that only it kept.
use libcorkipset.Prelude.{
  ℕ, zero, suc, ◌+◌, ◌*◌, ◌<◌, ◌≡◌, ◌≢◌, refl, sym, ap, ◌∙◌, subst, inl, inr, true, false, none,
  some, List, ◌∷◌, arith, bit, eq-cases, Bool-cases, Option-cases, eq→==, ne→==, contains, update,
  update_self, update-ne, Returns, returns,
}
use libcorkipset.Tree.{Tree, terminal, nonterminal, height}
use libcorkipset.Node.{Node, NodeTable, node_equals}
use libcorkipset.Node.Equality.{node_equals-fields}
use libcorkipset.Cache.{NodeCache, get_nonterminal_by_index, decref, reclaim}
use libcorkipset.Cache.Memory.{get-set_ne, set-fields, get-set_self}
use libcorkipset.Cache.Counting.{
  even-parts, load-ok, counted, hold-terminal, decref-terminal, decref-keeps, decrement-ok,
}
use libcorkipset.Cache.Graph.{Content, cell, Graph, refs, hold}
use libcorkipset.Cache.Graph.Count.{refs-hold, refs-congr}
use libcorkipset.Cache.Graph.Repr.{Repr, at_terminal, at_nonterminal}
use libcorkipset.Cache.Invariant.{Invariant}
use libcorkipset.Cache.Nonterminal.{Invariant-congr}
use libcorkipset.Cache.Step.{bind}
use libcorkipset.Cache.Release.{Shrinks, Released}
use libcorkipset.Cache.Release.Detach.{
  detach, detach-refs, Shrinks-remove, Repr-kept, held-known, used-not_free,
}
use libcorkipset.Cache.Release.Reclaim.{
  reclaimed, reclaim-run, read-other, table-reclaimed, reclaim-Invariant,
}

gone_of : {g g' : Graph} → Shrinks g g' → (i : ℕ) → g i ≡ none → g' i ≡ none
gone_of {g'} sub i e = elim (Option-cases (g' i)) [
  | inl gone ↦ gone
  | inr (k, here) ↦ absurd (let old = sub i k here in cc)
]

halves : {i j : ℕ} → some (i * 2) ≡ some (j * 2) → i ≡ j
halves {i} {j} e = let f : i * 2 ≡ j * 2 = cc in omega arith

module _ ⦃T : NodeTable⦄ where
  -- Nothing is freed.
  unchanged :
      {c c' : NodeCache} {g : Graph} {r : ℕ → ℕ} {free : List ℕ} {id : ℕ}
      → Invariant c' g r free
      → ((j : ℕ) (m : Content)
          → g j ≡ some m
          → refs c'.largest_index g r j ≡ 0
          → refs c.largest_index g (hold id r) j ≡ 0)
      → c'.largest_index ≡ c.largest_index
      → c'.node_cache ≡ c.node_cache
      → ((j : ℕ) → g j ≡ none → get_nonterminal_by_index c' j ≡ get_nonterminal_by_index c j)
      → Released c g r free id c'
  unchanged {g} {free} inv counts largest table same = record {
    graph = g;
    free' = free;
    inv = inv;
    shrinks = λ j m e. e;
    reclaimed = counts;
    largest = largest;
    untouched = same;
    not_free = λ j e f. f;
    table = λ key id e. (rw table at e, λ j p. refl);
  }

  module _ {c : NodeCache} {g : Graph} {free : List ℕ} (r : ℕ → ℕ) (i : ℕ) (k : Content)
      (here : g i ≡ some k) (inv : Invariant c g (hold (i * 2) r) free) where
    -- The cache with the count of the node one lower.
    abbrev c1 : NodeCache
    c1 = counted c i k (refs c.largest_index g r i)

    c1-other : (j : ℕ) → g j ≡ none → get_nonterminal_by_index c1 j ≡ get_nonterminal_by_index c j
    c1-other j e = get-set_ne c i _ (inv.held i k here).at j (λ p. cc)

    -- Another node has as many references as before.
    hold-other :
        (j : ℕ) → i ≢ j → refs c.largest_index g (hold (i * 2) r) j ≡ refs c.largest_index g r j
    hold-other j ne = omega (
      arith,
      refs-hold c.largest_index (i * 2) g r j,
      ap bit (ne→== (i * 2) (j * 2) (λ p. ne (omega arith))),
    )

    keeps : refs c.largest_index g r i ≢ 0 → Released c g r free (i * 2) c1
    keeps more =
        let (f0, f1, f2, f3) =
          set-fields c i (cell k (refs c.largest_index g r i)) (inv.held i k here).at in
        unchanged (decrement-ok i k here r inv).1
          (λ j m e alone.
            let alone' : refs c.largest_index g r j ≡ 0 = ap (λ n. refs n g r j) (sym f1) ∙ alone in
            hold-other j (λ p. more (rw p alone')) ∙ alone')
          f1 f3 c1-other

    module _ (c2 : NodeCache)
        (low : Released c1 (update g i none) (hold k.high r) free k.low c2) where
      gone2 : low.graph i ≡ none
      gone2 = gone_of low.shrinks i (update_self g i none)

      -- The node is untouched while its low subtree is released.
      read2 : get_nonterminal_by_index c2 i ≡ some (cell k (refs c.largest_index g r i))
      read2 =
          low.untouched i (update_self g i none)
          ∙ get-set_self c i (cell k (refs c.largest_index g r i)) (inv.held i k here).at

    -- Both subtrees have been released, and the node itself is reclaimed.
    module _ (c2 c3 : NodeCache) (low : Released c1 (update g i none) (hold k.high r) free k.low c2)
        (high : Released c2 low.graph r low.free' k.high c3) where
      gone3 : high.graph i ≡ none
      gone3 = gone_of high.shrinks i (gone2 c2 low)

      read3 : get_nonterminal_by_index c3 i ≡ some (cell k (refs c.largest_index g r i))
      read3 = high.untouched i (gone2 c2 low) ∙ read2 c2 low

      old-entry :
          (key : Node) (id : ℕ)
          → T.table.get c3.node_cache key ≡ some id
          → (T.table.get c.node_cache key ≡ some id)
            × ((j : ℕ) → id ≡ j * 2 → high.graph j ≡ update g i none j)
      old-entry key id e =
          let (e2, same2) = high.table key id e in
          let (e1, same1) = low.table key id e2 in
          let (f0, f1, f2, f3) =
            set-fields c i (cell k (refs c.largest_index g r i)) (inv.held i k here).at in
          (rw f3 at e1, λ j p. same2 j p ∙ same1 j p)

      -- The contents of the node are those of no other node in use.
      owned :
          (key : Node) (j : ℕ) (m : Content)
          → high.graph j ≡ some m
          → T.table.get c3.node_cache key ≡ some (j * 2)
          → node_equals (cell k 0) key ≡ false
      owned key j m used e = elim (Bool-cases (node_equals (cell k 0) key)) [
        | inr ne ↦ ne
        | inl same ↦
            let (p, q, w) = node_equals-fields (cell k 0) key same in
            let alike : cell k key.refcount ≡ key =
              λ d. record { refcount = key.refcount; variable = p d; low = q d; high = w d } in
            let mine : T.table.get c.node_cache key ≡ some (i * 2) =
              rw alike at ((inv.held i k here).entry key.refcount) in
            let theirs = (old-entry key (j * 2) e).0 in
            let one : some (i * 2) ≡ some (j * 2) = sym mine ∙ theirs in
            let index : i ≡ j = halves one in absurd (let gone = gone3 in cc)
      ]

      module _ (last : refs c.largest_index g r i ≡ 0) where
        at3 : get_nonterminal_by_index c3 i ≡ some (cell k 0)
        at3 = read3 ∙ ap (λ n. some (cell k n)) last

        in_range : i < c3.largest_index
        in_range =
            let (f0, f1, f2, f3) =
              set-fields c i (cell k (refs c.largest_index g r i)) (inv.held i k here).at in
            omega (arith, high.largest, low.largest, f1, (inv.held i k here).below)

        not_free3 : contains high.free' i ≡ false
        not_free3 =
            high.not_free i (gone2 c2 low)
              (low.not_free i (update_self g i none) (used-not_free inv i k here))

        abbrev c4 : NodeCache
        c4 = reclaimed c3 high.graph r high.free' i k high.inv gone3 not_free3 in_range at3 owned

        unused1 : (j : ℕ) → g j ≡ none → update g i none j ≡ none
        unused1 j e = elim (eq-cases i j) [
          | inl p ↦ rw (← p) (update_self g i none)
          | inr ne ↦ update-ne g i j none ne ∙ e
        ]

        unused2 : (j : ℕ) → g j ≡ none → low.graph j ≡ none
        unused2 j e = gone_of low.shrinks j (unused1 j e)

        -- An entry under other contents is not the node's.
        other :
            (key : Node) (id j : ℕ)
            → id ≡ j * 2
            → T.table.get c3.node_cache key ≡ some id
            → node_equals (cell k 0) key ≡ false
            → i ≢ j
        other key id j p e ne same =
            let (a, n, en) = high.inv.entries key id e in
            let index : a ≡ i = omega (arith, en.is_id) in
            let here' : get_nonterminal_by_index c3 i ≡ some n = rw index at en.at in
            let alike : n ≡ cell k 0 = let q = at3 in cc in
            let yes : node_equals (cell k 0) key ≡ true = rw alike at en.same in cc

        reclaims : (reclaim i c3 ≡ some (tt, c4)) × Released c g r free (i * 2) c4
        reclaims =
            let (f0, f1, f2, f3) =
              set-fields c i (cell k (refs c.largest_index g r i)) (inv.held i k here).at in
            (
              reclaim-run c3 high.graph r high.free' i k high.inv gone3 not_free3 in_range at3
                  owned,
              record {
                graph = high.graph;
                free' = i ∷ high.free';
                inv =
                    reclaim-Invariant c3 high.graph r high.free' i k high.inv gone3 not_free3
                      in_range at3 owned;
                shrinks = λ j m e.
                    let e1 = low.shrinks j m (high.shrinks j m e) in
                    sym (update-ne g i j none (λ p. (let gone = gone3 in cc))) ∙ e1;
                reclaimed = λ j m e alone.
                    let e2 = high.shrinks j m e in
                    let left_alone = low.reclaimed j m e2 (high.reclaimed j m e alone) in
                    let ne : i ≢ j = λ p. (let gone = gone3 in cc) in
                    hold-other j ne
                    ∙ ap (λ n. refs n g r j) (sym f1)
                    ∙ sym (
                        detach-refs r i k (decrement-ok i k here r inv).1 here
                          (ap (λ n. refs n g r i) f1 ∙ last) j)
                    ∙ left_alone;
                largest = high.largest ∙ low.largest ∙ f1;
                untouched = λ j e.
                    let ne : i ≢ j = λ p. cc in
                    read-other c3 high.graph r high.free' i k high.inv gone3 not_free3 in_range at3
                      owned j ne
                    ∙ high.untouched j (unused2 j e)
                    ∙ low.untouched j (unused1 j e)
                    ∙ c1-other j e;
                not_free = λ j e f.
                    rw (ne→== i j (λ p. cc))
                      (high.not_free j (unused2 j e) (low.not_free j (unused1 j e) f));
                table = λ key id e.
                    let (e3, ne) =
                      table-reclaimed c3 high.graph r high.free' i k high.inv gone3 not_free3
                        in_range at3 owned key id e in
                    let (e0, same) = old-entry key id e3 in
                    (e0, λ j p. same j p ∙ update-ne g i j none (other key id j p e3 ne));
              },
            )

  -- One call of the recursion on a node whose count reaches zero.
  decref-last :
      {c : NodeCache} {g : Graph} {r : ℕ → ℕ} {free : List ℕ} (fuel i : ℕ) (k : Content)
      (here : g i ≡ some k) (inv : Invariant c g (hold (i * 2) r) free)
      → refs c.largest_index g r i ≡ 0
      → Returns
          (λ u c'. Released (c1 r i k here inv) (update g i none) (hold k.high r) free k.low c')
          (decref fuel k.low (c1 r i k here inv))
      → ((c2 : NodeCache)
          → (low : Released (c1 r i k here inv) (update g i none) (hold k.high r) free k.low c2)
          → Returns (λ u c'. Released c2 low.graph r low.free' k.high c') (decref fuel k.high c2))
      → Returns (λ u c'. Released c g r free (i * 2) c') (decref (suc fuel) (i * 2) c)
  unfolding decref
  decref-last {c} {g} {r} fuel i k here inv last run_low run_high =
      let (p, q) = even-parts i in
      let (run, inv1) = decrement-ok i k here r inv in
      rw
        (
          p,
          q,
          run,
          eq→== (refs c.largest_index g r i) 0 last,
          load-ok (c1 r i k here inv) i (inv1.held i k here).at,
        )
        (bind _ run_low λ u c2 low. rw (load-ok c2 i (read2 r i k here inv c2 low)) (
          bind _ (run_high c2 low) λ u' c3 high.
            let (go, out) = reclaims r i k here inv c2 c3 low high last in rw go (returns out)))

  pub decref-ok :
      (fuel : ℕ) (t : Tree) {c : NodeCache} {g : Graph} (r : ℕ → ℕ) {free : List ℕ} {id : ℕ}
      → height t < fuel
      → Invariant c g (hold id r) free
      → Repr g id t
      → Returns (λ u c'. Released c g r free id c') (decref fuel id c)
  decref-ok zero t r lt inv rep = absurd (omega arith)
  decref-ok (suc fuel) (terminal v) {c} {g} r lt inv (at_terminal e) =
      rw (e, decref-terminal c fuel v)
        (returns (
          unchanged (Invariant-congr (λ j. rw e (hold-terminal v r j)) inv)
            (λ j m here alone.
              refs-congr c.largest_index g (hold (v * 2 + 1) r) r j (hold-terminal v r j) ∙ alone)
            refl refl (λ j h. refl)))
  decref-ok (suc fuel) (nonterminal x l h) {c} {g} r {free} lt inv
        (at_nonterminal {i} k e here p rl rh) =
      let inv' : Invariant c g (hold (i * 2) r) free =
        subst (λ n. Invariant c g (hold n r) free) e inv in
      rw e (elim (eq-cases (refs c.largest_index g r i) 0) [
        | inr more ↦
            rw (decref-keeps i k here r fuel inv' more) (returns (keeps r i k here inv' more))
        | inl last ↦
            let (run, inv1) = decrement-ok i k here r inv' in
            let (f0, f1, f2, f3) =
              set-fields c i (cell k (refs c.largest_index g r i)) (inv.held i k here).at in
            let zero_refs : refs (counted c i k (refs c.largest_index g r i)).largest_index g r i
                ≡ 0 =
              ap (λ n. refs n g r i) f1 ∙ last in
            let left_inv = detach r i k inv1 here zero_refs in
            decref-last fuel i k here inv' last
              (decref-ok fuel l (hold k.high r) (omega arith) left_inv (
                Repr-kept left_inv (Shrinks-remove g i) l rl
                  (held-known (hold k.high r) k.low left_inv)))
              (λ c2 low. decref-ok fuel h r (omega arith) low.inv (
                Repr-kept low.inv (λ j m q. Shrinks-remove g i j m (low.shrinks j m q)) h rh
                  (held-known r k.high low.inv)))
      ])
