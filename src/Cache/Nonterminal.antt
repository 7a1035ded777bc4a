-- ===== src/Cache/Nonterminal.antt =====
-- `ipset_node_cache_nonterminal`: the id of a node with the given contents, on every branch.
use libcorkipset.Prelude.{
  ℕ, suc, ◌+◌, ◌*◌, ◌^◌, ◌≤◌, ◌<◌, ◌≡◌, ◌≢◌, refl, sym, ap, ◌∙◌, subst, fun_ext, inl, inr, some,
  List, arith, bit, ◌==◌, eq→==, ==→eq, Bool-cases, Option-cases, Returns, returns, Returns-mono,
}
use libcorkipset.Node.{NodeTable}
use libcorkipset.Node.Equality.{node_equals-fields}
use libcorkipset.NodeId.{word}
use libcorkipset.Cache.{NodeCache, get_nonterminal_by_index, reuse, nonterminal, incref, decref}
use libcorkipset.Cache.Memory.{set-fields}
use libcorkipset.Cache.Counting.{
  hold-terminal, counted, incref-ok, decrement-ok, decref-keeps, decref-terminal, incref-terminal,
  Settled-set,
}
use libcorkipset.Cache.Create.Run.{create-ok}
use libcorkipset.Cache.Graph.{cell, Graph, refs, hold}
use libcorkipset.Cache.Graph.Repr.{IsKnown}
use libcorkipset.Cache.Graph.Count.{refs-hold, low-refs, high-refs, bit-le}
use libcorkipset.Cache.Invariant.{Invariant, Settled, Later}
use libcorkipset.Cache.Outcome.{content, Outcome, Made}

module _ ⦃T : NodeTable⦄ where
  -- What a change of one count leaves alone.
  pub record Kept (c c' : NodeCache) (g : Graph) (r : ℕ → ℕ) (free : List ℕ) : Type 0 where
    pub largest : c'.largest_index ≡ c.largest_index
    pub settled : Settled c g → Settled c' g
    pub inv : Invariant c' g r free

  pub Invariant-congr :
      {c : NodeCache} {g : Graph} {r r' : ℕ → ℕ} {free : List ℕ}
      → ((i : ℕ) → r i ≡ r' i)
      → Invariant c g r free
      → Invariant c g r' free
  Invariant-congr {c} {g} {free} h inv = subst (λ s. Invariant c g s free) (fun_ext h) inv

  module _ {c : NodeCache} {g : Graph} {free : List ℕ} (r : ℕ → ℕ) (id : ℕ)
      (known : IsKnown g id) where
    -- A reference that is not the last one goes, and no node is freed.
    pub decref-spare :
        (fuel : ℕ)
        → Invariant c g (hold id r) free
        → ((i : ℕ) → id ≡ i * 2 → refs c.largest_index g r i ≢ 0)
        → (c' : NodeCache) × (decref (suc fuel) id c ≡ some (tt, c')) × Kept c c' g r free
    decref-spare fuel inv more = elim known [
      | inl (v, e) ↦ (
        c,
        rw e (decref-terminal c fuel v),
        record {
          largest = refl;
          settled = λ s. s;
          inv = Invariant-congr (λ i. rw e (hold-terminal v r i)) inv;
        },
      )
      | inr (i, k, e, here) ↦
          let inv' : Invariant c g (hold (i * 2) r) free =
            subst (λ n. Invariant c g (hold n r) free) e inv in
          let (run, after) = decrement-ok i k here r inv' in
          let (f0, f1, f2, f3) =
            set-fields c i (cell k (refs c.largest_index g r i)) (inv.held i k here).at in
          (
            counted c i k (refs c.largest_index g r i),
            rw e (decref-keeps i k here r fuel inv' (more i e)),
            record { largest = f1; settled = Settled-set i k here _ inv; inv = after },
          )
    ]

    pub incref-known :
        Invariant c g r free
        → ((i : ℕ) → id ≡ i * 2 → refs c.largest_index g r i + 1 < word)
        → (c' : NodeCache) × (incref id c ≡ some (id, c')) × Kept c c' g (hold id r) free
    incref-known inv fits = elim known [
      | inl (v, e) ↦ (
        c,
        rw e (incref-terminal c v),
        record {
          largest = refl;
          settled = λ s. s;
          inv = Invariant-congr (λ i. rw e (sym (hold-terminal v r i))) inv;
        },
      )
      | inr (i, k, e, here) ↦
          let (run, after) = incref-ok i k here r inv (fits i e) in
          let (f0, f1, f2, f3) =
            set-fields c i (cell k (refs c.largest_index g r i + 1)) (inv.held i k here).at in
          (
            counted c i k (refs c.largest_index g r i + 1),
            rw e run,
            record {
              largest = f1;
              settled = Settled-set i k here _ inv;
              inv =
                  subst
                    (λ n.
                      Invariant (counted c i k (refs c.largest_index g r i + 1)) g (hold n r) free)
                    (sym e) after;
            },
          )
    ]

  -- What a caller of `nonterminal` has: references to both subtrees, which may stand below the
  -- variable, and room for one more node and one more reference.
  pub record Ready (budget : ℕ) (c : NodeCache) (g : Graph) (r : ℕ → ℕ) (free : List ℕ)
      : Type 0 where
    pub inv : Invariant c g r free
    pub settled : Settled c g
    pub indices : c.largest_index + budget ≤ 2 ^ 31
    pub counts : (i : ℕ) → refs c.largest_index g r i + budget < word

  module _ {c : NodeCache} {g : Graph} {free : List ℕ} (r : ℕ → ℕ) (x low high : ℕ)
      (known_low : IsKnown g low) (known_high : IsKnown g high)
      (ready : Ready 1 c g (hold low (hold high r)) free) where
    -- A node that exists already keeps a reference of its own to each of its subtrees.
    reuse-ok :
        (fuel id i : ℕ)
        → id ≡ i * 2
        → g i ≡ some (content x low high)
        → Returns
            (λ id' c'.
              (out : Outcome 1 c g (hold low (hold high r)) r id' c') × ((j : ℕ) × (id' ≡ j * 2)
                × (out.graph j ≡ some (content x low high))))
            (reuse (suc fuel) id low high c)
    unfolding reuse
    reuse-ok fuel id i is_id here =
        let (c1, run1, kept1) =
          incref-known (hold low (hold high r)) id (inr (i, content x low high, is_id, here))
            ready.inv (λ j e. ready.counts j) in
        let inv1 : Invariant c1 g (hold low (hold high (hold id r))) free =
          Invariant-congr (λ j. omega arith) kept1.inv in
        let k = content x low high in
        let (c2, run2, kept2) = decref-spare (hold high (hold id r)) low known_low fuel inv1 (λ j e.
          low-refs c1.largest_index g (hold high (hold id r)) i k (inv1.held i k here).below here j
            e) in
        let (c3, run3, kept3) = decref-spare (hold id r) high known_high fuel kept2.inv (λ j e.
          high-refs c2.largest_index g (hold id r) i k (kept2.inv.held i k here).below here j e) in
        let size : c3.largest_index ≡ c.largest_index =
          kept3.largest ∙ kept2.largest ∙ kept1.largest in
        rw (run1, run2, run3)
          (returns (
            record {
              graph = g;
              free = free;
              inv = kept3.inv;
              settled = kept3.settled (kept2.settled (kept1.settled ready.settled));
              extends = λ j k e. e;
              grown = omega (arith, size);
              bounded = λ j. rw size (
                  omega (
                    arith,
                    refs-hold c.largest_index id g r j,
                    bit-le (id == j * 2),
                    refs-hold c.largest_index low g (hold high r) j,
                    refs-hold c.largest_index high g r j,
                  ));
            },
            (i, is_id, here),
          ))

    -- The table's entry for these contents is the id of a node that has them.
    entry-node :
        (id : ℕ)
        → T.table.get c.node_cache (cell (content x low high) 0) ≡ some id
        → (i : ℕ) × (id ≡ i * 2) × (g i ≡ some (content x low high))
    entry-node id e =
        let (i, k, is_id, here) = ready.settled (cell (content x low high) 0) id e in
        let (j, n, en) = ready.inv.entries (cell (content x low high) 0) id e in
        let same : i ≡ j = omega (arith, is_id, en.is_id) in
        let count = refs c.largest_index g (hold low (hold high r)) i in
        let at : get_nonterminal_by_index c i ≡ some n = rw same en.at in
        let cell_eq : n ≡ cell k count = let h = (ready.inv.held i k here).at in cc in
        let (p, q, w) =
          node_equals-fields (cell k count) (cell (content x low high) 0) (rw cell_eq at en.same) in
        (i, is_id, here ∙ (λ d. some (record { variable = p d; low = q d; high = w d })))

    -- In a well-formed cache with room for a node, and with subtrees that are terminals or nodes in
    -- use of later variables, of which the caller holds a reference each, `nonterminal` gives up
    -- these two references for one to the node with these contents, or to the subtree if both are
    -- the same. The cache stays well formed and keeps all its nodes.
    pub nonterminal-ok :
        (fuel : ℕ)
        → Later g x low
        → Later g x high
        → Returns
            (λ id c'.
              (out : Outcome 1 c g (hold low (hold high r)) r id c') × Made out.graph x low high id)
            (nonterminal (suc fuel) x low high c)
    unfolding nonterminal
    nonterminal-ok fuel low_later high_later = elim (Bool-cases (low == high)) [
      | inl same ↦
          let e : low ≡ high = ==→eq low high same in
          let (c1, run1, kept1) =
            decref-spare (hold low r) high known_high fuel
              (Invariant-congr (λ j. omega arith) ready.inv)
              (λ j p.
                omega (
                  arith,
                  refs-hold c.largest_index low g r j,
                  ap bit (eq→== low (j * 2) (e ∙ p)),
                )) in
          rw (same, run1)
            (returns (
              record {
                graph = g;
                free = free;
                inv = kept1.inv;
                settled = kept1.settled ready.settled;
                extends = λ j k h. h;
                grown = omega (arith, kept1.largest);
                bounded = λ j. rw kept1.largest (
                    omega (
                      arith,
                      refs-hold c.largest_index low g r j,
                      refs-hold c.largest_index low g (hold high r) j,
                      refs-hold c.largest_index high g r j,
                    ));
              },
              inl (e, refl),
            ))
      | inr ne ↦
          let apart : low ≢ high = λ e. (let t = eq→== low high e in cc) in
          elim (Option-cases (T.table.get c.node_cache (cell (content x low high) 0))) [
            | inl absent ↦
                rw (ne, absent)
                  (Returns-mono
                    (create-ok r (content x low high) ready.inv ready.settled
                      (record {
                        irredundant = apart;
                        low_later = low_later;
                        high_later = high_later;
                      })
                      (let room = ready.indices in omega arith) absent)
                    (λ id c' (out, here). (out, inr (apart, here))))
            | inr (id, found) ↦
                let (i, is_id, here) = entry-node id found in
                rw (ne, found)
                  (Returns-mono (reuse-ok fuel id i is_id here)
                    (λ id' c' (out, here'). (out, inr (apart, here'))))
          ]
    ]
