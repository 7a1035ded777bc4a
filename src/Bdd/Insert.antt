-- ===== src/Bdd/Insert.antt =====
-- `ipset_apply_ite` and `ipset_node_insert` against the function that a diagram denotes.
use libcorkipset.Prelude.{
  ℕ, zero, suc, ◌+◌, ◌*◌, ◌%◌, ◌^◌, ◌≤◌, ◌<◌, ◌≡◌, refl, sym, ap, ◌∙◌, subst, inl, inr, Bool, true,
  false, List, arith, Bool-cases, eq-cases, ◌==◌, ltb, if◌then◌else◌, ==-refl, eq→==, ne→==, ==→eq,
  bit, Returns, returns, Returns-mono,
}
use libcorkipset.Tree.{Tree, terminal, nonterminal, eval, IsOrdered, SameFunction, Inserted}
use libcorkipset.Node.{NodeTable}
use libcorkipset.NodeId.{word, terminal_node_id}
use libcorkipset.Cache.{NodeCache, pure, incref}
use libcorkipset.Cache.Counting.{even-parts, odd-type, load-ok, hold-terminal}
use libcorkipset.Cache.Graph.{Graph}
use libcorkipset.Cache.Graph.Count.{refs-hold, bit-le}
use libcorkipset.Cache.Graph.Repr.{
  Repr, Repr-Extends, Repr-IsKnown, Repr-unique, at_terminal, at_nonterminal,
}
use libcorkipset.Cache.Outcome.{Outcome}
use libcorkipset.Cache.Nonterminal.{Ready, Invariant-congr, incref-known}
use libcorkipset.Bdd.{FakeNode, fake_terminal_0, apply_ite, branch, branch_both, insert}
use libcorkipset.Bdd.Branch.{Gives, both-ok}

pub terminal_node_id-eq : (v : ℕ) → v < 2 ^ 31 → terminal_node_id v ≡ v * 2 + 1
unfolding terminal_node_id
terminal_node_id-eq v h = omega arith

-- One level of the recursion: the branch that `a` takes is inserted into, the other is kept.
Inserted-step :
    (x m : ℕ) (a : ℕ → Bool) (v : ℕ) (t tl th t' l h : Tree)
    → ((b : ℕ → Bool) → eval t b ≡ (if b x then eval th b else eval tl b))
    → ((b : ℕ → Bool) → eval t' b ≡ (if b x then eval h b else eval l b))
    → (a x ≡ true → Inserted (suc x) m a v th h × SameFunction l tl)
    → (a x ≡ false → Inserted (suc x) m a v tl l × SameFunction h th)
    → Inserted x (suc m) a v t t'
Inserted-step x m a v t tl th t' l h et et' on off b = elim (Bool-cases (a x)) [
  | inl p ↦ let (ins, same) = on p in ground (arith, p, et b, et' b, ins b, same b)
  | inr p ↦ let (ins, same) = off p in ground (arith, p, et b, et' b, ins b, same b)
]

module _ ⦃T : NodeTable⦄ where
  -- One call of the recursion, with the calls that it makes shut.
  apply_ite-suc :
      (fuel : ℕ) (f : FakeNode) (g h : ℕ)
      → apply_ite (suc fuel) f g h ≡ (
          if f.current_var == f.var_count
          then (if f.value == 0 then incref h else pure (terminal_node_id g))
          else (if h == terminal_node_id g
              then pure h
              else branch (λ f'. apply_ite fuel f' g) (suc fuel) f h))
  unfolding apply_ite
  apply_ite-suc fuel f g h = refl

  -- An id that is given back as it is, where it is a terminal's.
  terminal-Outcome :
      {c : NodeCache} {g : Graph} {r : ℕ → ℕ} {free : List ℕ} (b v : ℕ)
      → Ready b c g r free
      → Outcome b c g r r (v * 2 + 1) c
  terminal-Outcome {c} {g} {r} {free} b v ready = record {
    graph = g;
    free = free;
    inv = Invariant-congr (λ i. sym (hold-terminal v r i)) ready.inv;
    settled = ready.settled;
    extends = λ i k e. e;
    grown = omega arith;
    bounded = λ i. omega (
      arith,
      refs-hold c.largest_index (v * 2 + 1) g r i,
      ap bit (ne→== (v * 2 + 1) (i * 2) (λ p. omega arith)),
    );
  }

  -- Where the assignment has been left, the operand is kept.
  apply_ite-zero :
      {c : NodeCache} {g : Graph} {r : ℕ → ℕ} {free : List ℕ} (top x n v h fuel : ℕ) (t : Tree)
      → Ready 1 c g r free
      → Repr g h t
      → IsOrdered top x t
      → Returns
          (Gives top 1 c g r x (λ t'. SameFunction t' t))
          (apply_ite (suc fuel) (fake_terminal_0 n) v h c)
  unfolding apply_ite
  apply_ite-zero {c} {g} {r} {free} top x n v h fuel t ready rep ord =
      let (c', run, kept) = incref-known r h (Repr-IsKnown rep) ready.inv (λ i e. ready.counts i) in
      rw (==-refl n, run)
        (returns (
          record {
            graph = g;
            free = free;
            inv = kept.inv;
            settled = kept.settled ready.settled;
            extends = λ i k e. e;
            grown = omega (arith, kept.largest);
            bounded = λ i.
                rw kept.largest
                  (omega (arith, refs-hold c.largest_index h g r i, bit-le (h == i * 2)));
          },
          (t, rep, ord, λ b. refl),
        ))

  module _ (a : ℕ → Bool) (top v n : ℕ) (room : n ≤ top) (value_fits : v < 2 ^ 31)
      (n_fits : n < word) where
    -- The diagram of the assignment from variable `x` on.
    abbrev from : ℕ → FakeNode
    from x = record { current_var = x; var_count = n; assignment = a; value = 1 }

    -- What the recursive call is known to do.
    Recursion : ℕ → ℕ → ℕ → Type 0
    Recursion m x fuel =
        (c : NodeCache) (g : Graph) (r : ℕ → ℕ) (free : List ℕ) (h : ℕ) (t : Tree)
        → Ready (2 * m + 1) c g r free
        → Repr g h t
        → IsOrdered top x t
        → Returns (Gives top (2 * m + 1) c g r x (Inserted x m a v t))
            (apply_ite fuel (from x) v h c)

    -- Both branches of the assignment's diagram at `x`, over subtrees `hl` and `hh`.
    branch_both-ok :
        {c : NodeCache} {g : Graph} {r : ℕ → ℕ} {free : List ℕ} (m x fuel hl hh : ℕ)
        (t tl th : Tree)
        → x < n
        → Recursion m (suc x) (suc fuel)
        → Ready (2 * suc m + 1) c g r free
        → Repr g hl tl
        → IsOrdered top (suc x) tl
        → Repr g hh th
        → IsOrdered top (suc x) th
        → ((b : ℕ → Bool) → eval t b ≡ (if b x then eval th b else eval tl b))
        → Returns
            (Gives top (2 * suc m + 1) c g r x (Inserted x (suc m) a v t))
            (branch_both (λ f. apply_ite (suc fuel) f v) (suc (suc fuel)) (from x) hl hh c)
    unfolding branch_both Recursion
    branch_both-ok {c} {g} {r} {free} m x fuel hl hh t tl th lt rec ready rl ol rh oh et =
        let next : (x + 1) % word ≡ suc x = omega arith in
        elim (Bool-cases (a x)) [
          | inl on ↦
              let budget : 2 * m + 1 + 1 + 1 ≡ 2 * suc m + 1 = omega arith in
              rw (on, next, ← budget)
                (Returns-mono
                  (both-ok {free = free} r top x (2 * m + 1) 1 (omega arith)
                    (λ l. SameFunction l tl) (Inserted (suc x) m a v th)
                    (apply_ite (suc fuel) (from (suc x)) v hh)
                    (apply_ite (suc fuel) (fake_terminal_0 n) v hl) (suc fuel) (rw budget ready)
                    (λ ready1. rec c g r free hh th ready1 rh oh)
                    (λ c1 g1 r1 free1 ready1 ext.
                      apply_ite-zero top (suc x) n v hl fuel tl ready1 (Repr-Extends ext rl) ol))
                  (λ id c' (out, (t', rt, ot, (l, h, pl, ph, et'))). (
                    out,
                    (
                      t',
                      rt,
                      ot,
                      Inserted-step x m a v t tl th t' l h et et' (λ p. (ph, pl)) (λ p. cc),
                    ),
                  )))
          | inr off ↦
              let budget : 1 + (2 * m + 1) + 1 ≡ 2 * suc m + 1 = omega arith in
              rw (off, next, ← budget)
                (Returns-mono
                  (both-ok {free = free} r top x 1 (2 * m + 1) (omega arith)
                    (Inserted (suc x) m a v tl) (λ h. SameFunction h th)
                    (apply_ite (suc fuel) (fake_terminal_0 n) v hh)
                    (apply_ite (suc fuel) (from (suc x)) v hl) (suc fuel) (rw budget ready)
                    (λ ready1. apply_ite-zero top (suc x) n v hh fuel th ready1 rh oh)
                    (λ c1 g1 r1 free1 ready1 ext.
                      rec c1 g1 r1 free1 hl tl ready1 (Repr-Extends ext rl) ol))
                  (λ id c' (out, (t', rt, ot, (l, h, pl, ph, et'))). (
                    out,
                    (
                      t',
                      rt,
                      ot,
                      Inserted-step x m a v t tl th t' l h et et' (λ p. cc) (λ p. (pl, ph)),
                    ),
                  )))
        ]

    -- The node of the operand decides which subtrees the recursion goes to.
    branch-ok :
        {c : NodeCache} {g : Graph} {r : ℕ → ℕ} {free : List ℕ} (m x fuel h : ℕ) {t : Tree}
        → x < n
        → Recursion m (suc x) (suc fuel)
        → Ready (2 * suc m + 1) c g r free
        → Repr g h t
        → IsOrdered top x t
        → Returns
            (Gives top (2 * suc m + 1) c g r x (Inserted x (suc m) a v t))
            (branch (λ f. apply_ite (suc fuel) f v) (suc (suc fuel)) (from x) h c)
    unfolding branch
    branch-ok m x fuel h lt rec ready (at_terminal {v = w} e) ord =
        rw (e, odd-type w)
          (branch_both-ok m x fuel (w * 2 + 1) (w * 2 + 1) (terminal w) (terminal w) (terminal w) lt
            rec ready (at_terminal refl) tt (at_terminal refl) tt (λ b. ground arith))
    branch-ok {c} {g} {r} m x fuel h lt rec ready
          (at_nonterminal {i} {x = y} {l} {h = u} k e here p rl ru) ord =
        let (q, w) = even-parts i in
        let read = load-ok c i (ready.inv.held i k here).at in
        let late : ltb k.variable x ≡ false = (let o = ord.0 in ground arith) in
        rw (e, q, w, read, late)
          (elim (eq-cases k.variable x) [
            | inl same ↦ rw (eq→== k.variable x same) (
                branch_both-ok m x fuel k.low k.high (nonterminal y l u) l u lt rec ready rl
                  (subst (λ z. IsOrdered top (suc z) l) (p ∙ same) ord.2) ru
                  (subst (λ z. IsOrdered top (suc z) u) (p ∙ same) ord.3)
                  (λ b. ap (λ z. if b z then eval u b else eval l b) (p ∙ same)))
            | inr other ↦
                let after : IsOrdered top (suc x) (nonterminal y l u) =
                  (omega (arith, ord.0), ord.1, ord.2, ord.3) in
                rw (ne→== k.variable x other) (
                  branch_both-ok m x fuel (i * 2) (i * 2) (nonterminal y l u) (nonterminal y l u)
                    (nonterminal y l u) lt rec ready (at_nonterminal k refl here p rl ru) after
                    (at_nonterminal k refl here p rl ru) after (λ b. ground arith))
          ])

    -- `ipset_apply_ite` over the assignment from variable `x` on gives one reference to a diagram
    -- that has the value `v` where the assignment agrees, and is the operand elsewhere.
    pub apply_ite-ok :
        (m x fuel : ℕ)
        → x + m ≡ n
        → m < fuel
        → (c : NodeCache) (g : Graph) (r : ℕ → ℕ) (free : List ℕ) (h : ℕ) (t : Tree)
        → Ready (2 * m + 1) c g r free
        → Repr g h t
        → IsOrdered top x t
        → Returns
            (Gives top (2 * m + 1) c g r x (Inserted x m a v t))
            (apply_ite fuel (from x) v h c)
    unfolding Recursion
    apply_ite-ok m x zero e lt c g r free h t ready rep ord = absurd (omega arith)
    apply_ite-ok zero x (suc fuel) e lt c g r free h t ready rep ord =
        rw
          (
            apply_ite-suc fuel (from x) v h,
            eq→== x n (omega arith),
            terminal_node_id-eq v value_fits,
          )
          (returns (terminal-Outcome 1 v ready, (terminal v, at_terminal refl, tt, λ b. refl)))
    apply_ite-ok (suc m) x (suc zero) e lt c g r free h t ready rep ord = absurd (omega arith)
    apply_ite-ok (suc m) x (suc (suc fuel)) e lt c g r free h t ready rep ord =
        let head = ne→== x n (λ p. omega arith) in
        elim (Bool-cases (h == v * 2 + 1)) [
          | inl same ↦
              let id : h ≡ v * 2 + 1 = ==→eq h (v * 2 + 1) same in
              let constant : t ≡ terminal v = Repr-unique (v * 2 + 1) id rep (at_terminal refl) in
              rw
                (
                  apply_ite-suc (suc fuel) (from x) v h,
                  head,
                  terminal_node_id-eq v value_fits,
                  same,
                  id,
                )
                (returns (
                  terminal-Outcome (2 * suc m + 1) v ready,
                  (terminal v, at_terminal refl, tt, λ b. rw constant (ground arith)),
                ))
          | inr other ↦
              rw
                (
                  apply_ite-suc (suc fuel) (from x) v h,
                  head,
                  terminal_node_id-eq v value_fits,
                  other,
                )
                (branch-ok m x fuel h (omega arith)
                  (apply_ite-ok m (suc x) (suc fuel) (omega arith) (omega arith)) ready rep ord)
        ]

    -- With fuel above the number `n` of variables, at least that many variables in the order, a
    -- value below 2^31, and room for `2 * n + 1` nodes and references, `insert` succeeds on an
    -- ordered diagram of a well-formed cache. It gives one reference to an ordered diagram that has
    -- the value wherever the assignment agrees on the first `n` variables and that is the old
    -- diagram elsewhere, and the cache keeps its form and all its nodes.
    pub insert-ok :
        (fuel : ℕ)
        → n < fuel
        → (c : NodeCache) (g : Graph) (r : ℕ → ℕ) (free : List ℕ) (h : ℕ) (t : Tree)
        → Ready (2 * n + 1) c g r free
        → Repr g h t
        → IsOrdered top 0 t
        → Returns (Gives top (2 * n + 1) c g r 0 (Inserted 0 n a v t)) (insert fuel h a n v c)
    unfolding insert
    insert-ok fuel lt = apply_ite-ok n 0 fuel (omega arith) lt
