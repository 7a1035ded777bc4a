-- ===== src/Cache/Release/Detach.antt =====
-- A node whose last reference has gone leaves the graph: its references to its subtrees are then
-- held by the operation that frees it.
use libcorkipset.Prelude.{
  ℕ, ◌*◌, ◌≡◌, ◌≢◌, refl, sym, ap, ◌∙◌, inl, inr, Bool, true, false, none, some, List, [], ◌∷◌,
  arith, eq-cases, Option-cases, bit, eq→==, contains, update, update_self, update-ne,
}
use libcorkipset.Tree.{Tree, terminal, nonterminal}
use libcorkipset.Node.{NodeTable}
use libcorkipset.Cache.{NodeCache}
use libcorkipset.Cache.Graph.{Content, Graph, refs, hold}
use libcorkipset.Cache.Graph.Count.{refs-hold, refs-remove, low-refs, high-refs}
use libcorkipset.Cache.Graph.Repr.{Repr, at_terminal, at_nonterminal}
use libcorkipset.Cache.Invariant.{FreeChain, Invariant}
use libcorkipset.Cache.Invariant.Recount.{FreeChain-frame}
use libcorkipset.Cache.Release.{Shrinks}

pub Shrinks-remove : (g : Graph) (i : ℕ) → Shrinks g (update g i none)
Shrinks-remove g i j m e = elim (eq-cases i j) [
  | inl p ↦ absurd (let gone = update_self g i none in cc)
  | inr ne ↦ sym (update-ne g i j none ne) ∙ e
]

module _ ⦃T : NodeTable⦄ where
  -- The indices of the free list are not in use.
  free-none :
      (c : NodeCache) (g : Graph) (head : ℕ) (free : List ℕ)
      → FreeChain c g head free
      → (j : ℕ) → contains free j ≡ true
      → g j ≡ none
  free-none c g head [] h j m = cc
  free-none c g head (i ∷ free) (n, at, below, unused, once, here, rest) j m = elim (eq-cases i j) [
    | inl p ↦ (rw p at unused)
    | inr ne ↦ free-none c g n.refcount free rest j (ground arith)
  ]

  pub used-not_free :
      {c : NodeCache} {g : Graph} {r : ℕ → ℕ} {free : List ℕ}
      → Invariant c g r free
      → (i : ℕ) (k : Content) → g i ≡ some k
      → contains free i ≡ false
  used-not_free {c} {g} {free} inv i k here = go (contains free i) refl
    where
      go : (b : Bool) → contains free i ≡ b → contains free i ≡ false
      go true e = absurd (let gone = free-none c g c.free_list free inv.chain i e in cc)
      go false e = e

  module _ {c : NodeCache} {g : Graph} {free : List ℕ} (r : ℕ → ℕ) (i : ℕ) (k : Content)
      (inv : Invariant c g r free) (here : g i ≡ some k)
      (last : refs c.largest_index g r i ≡ 0) where
    abbrev pub left : Graph
    left = update g i none

    abbrev given : ℕ → ℕ
    given = hold k.low (hold k.high r)

    pub detach-refs : (j : ℕ) → refs c.largest_index left given j ≡ refs c.largest_index g r j
    detach-refs j = omega (
      arith,
      refs-hold c.largest_index k.low left (hold k.high r) j,
      refs-hold c.largest_index k.high left r j,
      refs-remove c.largest_index g r i k j (inv.held i k here).below here,
    )

    left-old : (j : ℕ) (m : Content) → left j ≡ some m → (i ≢ j) × (g j ≡ some m)
    left-old j m e = elim (eq-cases i j) [
      | inl p ↦ absurd (let gone = update_self g i none in cc)
      | inr ne ↦ (ne, sym (update-ne g i j none ne) ∙ e)
    ]

    pub detach : Invariant c left given free
    detach = record {
      chunked = inv.chunked;
      room = inv.room;
      small = inv.small;
      held = λ j m e.
          let h = inv.held j m (left-old j m e).1 in
          record {
            below = h.below;
            small = rw (detach-refs j) h.small;
            at = rw (detach-refs j) h.at;
            entry = h.entry;
          };
      dead = λ j e. elim (eq-cases i j) [
        | inl p ↦ rw (← p) (detach-refs i ∙ last)
        | inr ne ↦ detach-refs j ∙ inv.dead j (sym (update-ne g i j none ne) ∙ e)
      ];
      irredundant = λ j m e. inv.irredundant j m (left-old j m e).1;
      low_later = λ j m e a n p q. inv.low_later j m (left-old j m e).1 a n p (left-old a n q).1;
      high_later = λ j m e a n p q. inv.high_later j m (left-old j m e).1 a n p (left-old a n q).1;
      chain =
          FreeChain-frame c c c.free_list free (omega arith)
            (λ j m unused. elim (eq-cases i j) [
              | inl p ↦ (rw (← p) (update_self g i none), refl)
              | inr ne ↦ (update-ne g i j none ne ∙ unused, refl)
            ])
            inv.chain;
      entries = inv.entries;
    }

  -- An id that the smaller graph knows stands for the same tree there: the subtrees of a node in
  -- use are in use.
  pub Repr-kept :
      {c' : NodeCache} {g g' : Graph} {r' : ℕ → ℕ} {free' : List ℕ}
      → Invariant c' g' r' free'
      → Shrinks g g'
      → {id : ℕ} (t : Tree) → Repr g id t
      → ((i : ℕ) → id ≡ i * 2 → (k : Content) × (g' i ≡ some k))
      → Repr g' id t
  Repr-kept inv sub (terminal v) (at_terminal e) known = at_terminal e
  Repr-kept {c'} {g'} {r'} inv sub (nonterminal x l h) (at_nonterminal {i} k e here p rl rh) known =
      let (k', here') = known i e in
      let old = sub i k' here' in
      let same : k' ≡ k = cc in
      let in_use : g' i ≡ some k = here' ∙ ap some same in
      let below = (inv.held i k in_use).below in
      at_nonterminal k e in_use p
        (Repr-kept inv sub l rl
          (λ j q. alive j (low-refs c'.largest_index g' r' i k below in_use j q)))
        (Repr-kept inv sub h rh
          (λ j q. alive j (high-refs c'.largest_index g' r' i k below in_use j q)))
    where
      alive : (j : ℕ) → refs c'.largest_index g' r' j ≢ 0 → (m : Content) × (g' j ≡ some m)
      alive j ne = elim (Option-cases (g' j)) [
        | inl gone ↦ absurd (ne (inv.dead j gone))
        | inr found ↦ found
      ]

  -- An id that a caller holds is in use.
  pub held-known :
      {c : NodeCache} {g : Graph} (r : ℕ → ℕ) {free : List ℕ} (id : ℕ)
      → Invariant c g (hold id r) free
      → (i : ℕ) → id ≡ i * 2
      → (k : Content) × (g i ≡ some k)
  held-known {c} {g} r id inv i e = elim (Option-cases (g i)) [
    | inl gone ↦ absurd (
        omega
          (arith, inv.dead i gone, refs-hold c.largest_index id g r i, ap bit (eq→== id (i * 2) e)))
    | inr found ↦ found
  ]
