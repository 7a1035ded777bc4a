-- ===== src/Tree/Canonical.antt =====
-- Reduced ordered trees, and the functions that they denote.
use libcorkipset.Prelude.{
  ℕ, zero, suc, ◌+◌, ◌<◌, ◌≡◌, sym, ap, ◌∙◌, subst, inl, inr, Bool, true, false, arith, update,
  update_self, eq-cases, lt-cases,
}
use libcorkipset.Tree.{Tree, terminal, nonterminal, eval, IsOrdered, IsReduced, SameFunction, size}
use libcorkipset.Tree.Order.{eval-update}

module _ (n y : ℕ) (l h : Tree) (ol : IsOrdered n (suc y) l) (oh : IsOrdered n (suc y) h) where
  pub eval-low : (b : ℕ → Bool) → eval (nonterminal y l h) (update b y false) ≡ eval l b
  eval-low b = rw (update_self b y false, eval-update n l y false b ol (omega arith))

  pub eval-high : (b : ℕ → Bool) → eval (nonterminal y l h) (update b y true) ≡ eval h b
  eval-high b = rw (update_self b y true, eval-update n h y true b oh (omega arith))

  -- If a later tree denotes the same function, then so do both branches.
  SameFunction-branches :
      (u : Tree) → IsOrdered n (suc y) u → SameFunction (nonterminal y l h) u → SameFunction l h
  SameFunction-branches u ou same b =
      sym (eval-low b)
      ∙ same (update b y false)
      ∙ eval-update n u y false b ou (omega arith)
      ∙ sym (eval-update n u y true b ou (omega arith))
      ∙ sym (same (update b y true))
      ∙ eval-high b

canonical_fuel :
    (n fuel x : ℕ) (t u : Tree)
    → size t + size u < fuel
    → IsOrdered n x t
    → IsOrdered n x u
    → IsReduced t
    → IsReduced u
    → SameFunction t u
    → t ≡ u
canonical_fuel m zero x t u h ot ou rt ru same = absurd (omega arith)
canonical_fuel m (suc n) x (terminal v) (terminal w) h ot ou rt ru same =
    ap terminal (same (λ x. false))
canonical_fuel m (suc n) x (terminal v) (nonterminal z l' h') h ot ou rt ru same = absurd (
    ru.0 (
      canonical_fuel m n (suc z) l' h' (omega arith) ou.2 ou.3 ru.1 ru.2
        (SameFunction-branches m z l' h' ou.2 ou.3 (terminal v) tt (λ b. sym (same b)))))
canonical_fuel m (suc n) x (nonterminal y l r) (terminal w) h ot ou rt ru same = absurd (
    rt.0 (
      canonical_fuel m n (suc y) l r (omega arith) ot.2 ot.3 rt.1 rt.2
        (SameFunction-branches m y l r ot.2 ot.3 (terminal w) tt same)))
canonical_fuel m (suc n) x (nonterminal y l r) (nonterminal z l' r') h ot ou rt ru same =
    elim (lt-cases y z) [
      | inl before ↦ absurd (
          rt.0 (
            canonical_fuel m n (suc y) l r (omega arith) ot.2 ot.3 rt.1 rt.2 (
              SameFunction-branches m y l r ot.2 ot.3 (nonterminal z l' r')
                (omega arith, ou.1, ou.2, ou.3) same)))
      | inr after ↦ elim (eq-cases y z) [
        | inr ne ↦ absurd (
            ru.0 (
              canonical_fuel m n (suc z) l' r' (omega arith) ou.2 ou.3 ru.1 ru.2 (
                SameFunction-branches m z l' r' ou.2 ou.3 (nonterminal y l r)
                  (omega arith, ot.1, ot.2, ot.3) (λ b. sym (same b)))))
        | inl e ↦
            let ol : IsOrdered m (suc z) l = rw (← e) ot.2 in
            let or' : IsOrdered m (suc z) r = rw (← e) ot.3 in
            let same' : SameFunction (nonterminal z l r) (nonterminal z l' r') =
              subst (λ w. SameFunction (nonterminal w l r) (nonterminal z l' r')) e same in
            let low : l ≡ l' = canonical_fuel m n (suc z) l l' (omega arith) ol ou.2 rt.1 ru.1 (λ b.
              sym (eval-low m z l r ol or' b)
              ∙ same' (update b z false)
              ∙ eval-low m z l' r' ou.2 ou.3 b) in
            let high : r ≡ r' =
              canonical_fuel m n (suc z) r r' (omega arith) or' ou.3 rt.2 ru.2 (λ b.
                sym (eval-high m z l r ol or' b)
                ∙ same' (update b z true)
                ∙ eval-high m z l' r' ou.2 ou.3 b) in
            cc
      ]
    ]

-- Reduced ordered trees that denote the same function are the same tree.
pub canonical :
    (n x : ℕ) (t u : Tree)
    → IsOrdered n x t
    → IsOrdered n x u
    → IsReduced t
    → IsReduced u
    → SameFunction t u
    → t ≡ u
canonical n x t u = canonical_fuel n (suc (size t + size u)) x t u (omega arith)
