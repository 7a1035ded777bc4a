-- ===== src/Bdd/Branch.antt =====
-- The last step of `ipset_apply_ite`: both branches, and the node over their results.
use libcorkipset.Prelude.{
  ℕ, suc, ◌+◌, ◌<◌, ◌≡◌, refl, sym, ap, inl, inr, Bool, List, arith, Bool-cases, if◌then◌else◌,
  Returns, Returns-mono,
}
use libcorkipset.Tree.{Tree, nonterminal, eval, IsOrdered}
use libcorkipset.Tree.Order.{IsOrdered-mono}
use libcorkipset.Node.{NodeTable}
use libcorkipset.Cache.{NodeCache, M, ◌>>=◌}
use libcorkipset.Cache.Graph.{Graph, hold, Extends}
use libcorkipset.Cache.Graph.Repr.{
  Repr, Repr-Extends, Repr-IsKnown, Repr-later, Repr-unique, at_nonterminal,
}
use libcorkipset.Cache.Outcome.{Outcome, Made}
use libcorkipset.Cache.Nonterminal.{Ready, nonterminal-ok}
use libcorkipset.Cache.Step.{bind, Ready-le, Ready-after}
use libcorkipset.Cache.{nonterminal as make}

module _ ⦃T : NodeTable⦄ where
  -- A result that is one more reference, to a tree with variables from `x` to below `n` that meets
  -- `P`.
  abbrev pub Gives :
      ℕ → ℕ → NodeCache → Graph → (ℕ → ℕ) → ℕ → (Tree → Type 0) → ℕ → NodeCache → Type 0
  Gives n b c g r x P id c' =
      (out : Outcome b c g r r id c') × ((t : Tree) × Repr out.graph id t × IsOrdered n x t × P t)

  -- A tree that tests `x` and then is one of two trees.
  abbrev pub Joins : ℕ → (Tree → Type 0) → (Tree → Type 0) → Tree → Type 0
  Joins x L H t =
      (l : Tree) × (h : Tree) × L l
      × H h
      × ((b : ℕ → Bool) → eval t b ≡ (if b x then eval h b else eval l b))

  Made-tree :
      {g : Graph} (n : ℕ) {x low high id : ℕ} {l h : Tree}
      → x < n
      → Repr g low l
      → Repr g high h
      → IsOrdered n (suc x) l
      → IsOrdered n (suc x) h
      → Made g x low high id
      → (t : Tree) × Repr g id t
        × IsOrdered n x t
        × ((b : ℕ → Bool) → eval t b ≡ (if b x then eval h b else eval l b))
  Made-tree {g} n {x} {low} {high} {l} {h} lt rl rh ol oh (inl (same, is)) =
      let e : l ≡ h = Repr-unique high same rl rh in
      (
        l,
        subst_id (sym is) rl,
        IsOrdered-mono n l (omega arith) ol,
        λ b. elim (Bool-cases (b x)) [ inl p ↦ rw p (ap (λ t. eval t b) e) | inr p ↦ rw p ],
      )
    where
      subst_id : {i j : ℕ} → i ≡ j → Repr g i l → Repr g j l
      subst_id p r = rw p at r
  Made-tree n {x} {l} {h} lt rl rh ol oh (inr (ne, (i, is, here))) =
      (nonterminal x l h, at_nonterminal _ is here refl rl rh, (omega arith, lt, ol, oh), λ b. refl)

  module _ {c : NodeCache} {g : Graph} {free : List ℕ} (r : ℕ → ℕ) (n x b1 b2 : ℕ) (lt : x < n)
      (L H : Tree → Type 0) (first second : M ℕ) where
    -- The high branch comes first; the low one starts from the cache that it leaves.
    pub both-ok :
        (fuel : ℕ)
        → Ready (b1 + b2 + 1) c g r free
        → (Ready b1 c g r free → Returns (Gives n b1 c g r (suc x) H) (first c))
        → ((c1 : NodeCache) (g1 : Graph) (r1 : ℕ → ℕ) (free1 : List ℕ)
            → Ready b2 c1 g1 r1 free1
            → Extends g g1
            → Returns (Gives n b2 c1 g1 r1 (suc x) L) (second c1))
        → Returns
            (Gives n (b1 + b2 + 1) c g r x (Joins x L H))
            ((first >>= λ high. second >>= λ low. make (suc fuel) x low high) c)
    both-ok fuel ready run_first run_second =
        bind _ (run_first (Ready-le (omega arith) ready)) λ high c1 (o1, (h, rh, oh, ph)).
          let ready1 = Ready-after {b = b2 + 1} (omega arith) ready o1 in
          bind _
            (run_second c1 o1.graph (hold high r) o1.free (Ready-le (omega arith) ready1)
              o1.extends)
            λ low c2 (o2, (l, rl, ol, pl)).
              let ready2 = Ready-after {b = 1} (omega arith) ready1 o2 in
              let rh2 = Repr-Extends o2.extends rh in
              Returns-mono
                (nonterminal-ok r x low high (Repr-IsKnown rl) (Repr-IsKnown rh2) ready2 fuel
                  (Repr-later n x rl ol) (Repr-later n x rh2 oh))
                (λ id c3 (o3, made).
                  let (t, rt, ot, et) =
                    Made-tree n lt (Repr-Extends o3.extends rl) (Repr-Extends o3.extends rh2) ol oh
                      made in
                  (
                    record {
                      graph = o3.graph;
                      free = o3.free;
                      inv = o3.inv;
                      settled = o3.settled;
                      extends = λ i k e. o3.extends i k (o2.extends i k (o1.extends i k e));
                      grown =
                          let p = o1.grown in let q = o2.grown in let s = o3.grown in omega arith;
                      bounded = λ i. omega (arith, o1.bounded i, o2.bounded i, o3.bounded i);
                    },
                    (t, rt, ot, (l, h, pl, ph, et)),
                  ))
