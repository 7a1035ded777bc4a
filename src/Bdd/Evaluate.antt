-- ===== src/Bdd/Evaluate.antt =====
-- `ipset_node_evaluate` and `ipset_node_cache_nodes_equal` against the trees of a diagram.
use libcorkipset.Prelude.{
  ℕ, zero, suc, ◌+◌, ◌*◌, ◌<◌, ◌≡◌, ◌≢◌, sym, ap, ◌∙◌, ◌⊎◌, inl, inr, Bool, true, false, Option,
  some, List, arith, Bool-cases, eq-cases, eq→==, ne→==,
}
use libcorkipset.Tree.{Tree, terminal, nonterminal, eval, IsReduced, height}
use libcorkipset.Node.{NodeTable}
use libcorkipset.NodeId.{terminal_value}
use libcorkipset.Cache.{NodeCache, get_nonterminal, get_nonterminal_by_index}
use libcorkipset.Cache.Counting.{even-parts, odd-type}
use libcorkipset.Cache.Graph.{Content, cell, Graph, refs}
use libcorkipset.Cache.Graph.Repr.{Repr, at_terminal, at_nonterminal}
use libcorkipset.Cache.Invariant.{Invariant}
use libcorkipset.Bdd.{evaluate, nodes_equal}

pub odd-value : (v : ℕ) → terminal_value (v * 2 + 1) ≡ v
unfolding terminal_value
odd-value v = omega arith

terminal_of : {v w : ℕ} → terminal v ≡ terminal w → v ≡ w
terminal_of e = cc

module _ {x y : ℕ} {l l' h h' : Tree} (e : nonterminal x l h ≡ nonterminal y l' h') where
  variable_of : x ≡ y
  variable_of = cc

  low_of : l ≡ l'
  low_of = cc

  high_of : h ≡ h'
  high_of = cc

module _ ⦃T : NodeTable⦄ where
  pub get_nonterminal-ok :
      {c : NodeCache} {g : Graph} {r : ℕ → ℕ} {free : List ℕ} (i : ℕ) (k : Content)
      → Invariant c g r free
      → g i ≡ some k
      → get_nonterminal c (i * 2) ≡ some (cell k (refs c.largest_index g r i))
  unfolding get_nonterminal
  get_nonterminal-ok i k inv here = let (p, q) = even-parts i in rw q (inv.held i k here).at

  -- The chunks hold the nodes of a graph, whatever their reference counts are.
  abbrev pub Reads : NodeCache → Graph → Type 0
  Reads c g =
      (i : ℕ) (k : Content)
      → g i ≡ some k
      → (count : ℕ) × (get_nonterminal_by_index c i ≡ some (cell k count))

  module _ (c : NodeCache) (g : Graph) (reads : Reads c g) where
    read-ok :
        (i : ℕ) (k : Content)
        → g i ≡ some k
        → (count : ℕ) × (get_nonterminal c (i * 2) ≡ some (cell k count))
    unfolding get_nonterminal
    read-ok i k here = let (count, at) = reads i k here in (count, rw ((even-parts i).1) at)

    pub evaluate-Reads :
        (fuel : ℕ) {id : ℕ} (t : Tree) (a : ℕ → Bool)
        → height t < fuel
        → Repr g id t
        → evaluate fuel c id a ≡ some (eval t a)
    unfolding evaluate
    evaluate-Reads zero t a lt rep = absurd (omega arith)
    evaluate-Reads (suc fuel) (terminal v) a lt (at_terminal e) =
        rw e (rw (odd-type v, odd-value v, evaluate))
    evaluate-Reads (suc fuel) (nonterminal x l h) a lt (at_nonterminal {i} k e here p rl rh) =
        let (q, w) = even-parts i in
        let (count, read) = read-ok i k here in
        elim (Bool-cases (a k.variable)) [
          | inl on ↦ rw e (rw (q, read, p, on, evaluate) (evaluate-Reads fuel h a (omega arith) rh))
          | inr off ↦
              rw e (rw (q, read, p, off, evaluate) (evaluate-Reads fuel l a (omega arith) rl))
        ]

  module _ {c : NodeCache} {g : Graph} {r : ℕ → ℕ} {free : List ℕ}
      (inv : Invariant c g r free) where
    -- On a diagram of a well-formed cache, `evaluate` with fuel above the height gives the value
    -- that the diagram's tree has at the assignment.
    pub evaluate-ok :
        (fuel : ℕ) {id : ℕ} (t : Tree) (a : ℕ → Bool)
        → height t < fuel
        → Repr g id t
        → evaluate fuel c id a ≡ some (eval t a)
    evaluate-ok fuel t a lt rep =
        evaluate-Reads c g (λ i k here. (refs c.largest_index g r i, (inv.held i k here).at)) fuel t
          a lt rep

    -- A tree stands at one id: nodes with the same contents are shared.
    pub Repr-injective : {id id' : ℕ} (t : Tree) → Repr g id t → Repr g id' t → id ≡ id'
    Repr-injective (terminal v) (at_terminal e) (at_terminal e') = omega arith
    Repr-injective (nonterminal x l h) (at_nonterminal {i} k e here p rl rh)
          (at_nonterminal {i = j} k' e' here' p' rl' rh') =
        let low = Repr-injective l rl rl' in
        let high = Repr-injective h rh rh' in
        let var = sym p ∙ p' in
        let alike : cell k 0 ≡ cell k' 0 =
          λ d. record { refcount = 0; variable = var d; low = low d; high = high d } in
        let one = (inv.held i k here).entry 0 in
        let two = (inv.held j k' here').entry 0 in
        let same : i * 2 ≡ j * 2 = cc in e ∙ same ∙ sym e'

    -- No nonterminal of the cache is redundant.
    pub Repr-IsReduced : (t : Tree) {id : ℕ} → Repr g id t → IsReduced t
    Repr-IsReduced (terminal v) rep = tt
    Repr-IsReduced (nonterminal x l h) (at_nonterminal {i} k e here p rl rh) = (
      (λ same. inv.irredundant i k here (Repr-injective h (rw same at rl) rh)),
      Repr-IsReduced l rl,
      Repr-IsReduced h rh,
    )

  -- The comparison of two diagrams says whether their trees are the same.
  abbrev pub Decides : Option Bool → Tree → Tree → Type 0
  Decides o t u = ((o ≡ some true) × (t ≡ u)) ⊎ ((o ≡ some false) × (t ≢ u))

  module _ {c1 : NodeCache} {g1 : Graph} {r1 : ℕ → ℕ} {free1 : List ℕ}
      (inv1 : Invariant c1 g1 r1 free1) {c2 : NodeCache} {g2 : Graph} {r2 : ℕ → ℕ} {free2 : List ℕ}
      (inv2 : Invariant c2 g2 r2 free2) where
    -- On diagrams of two well-formed caches, `nodes_equal` with fuel above the height of the first
    -- terminates and tells whether the diagrams have the same tree.
    pub nodes_equal-ok :
        (fuel : ℕ) {id1 id2 : ℕ} (t u : Tree)
        → height t < fuel
        → Repr g1 id1 t
        → Repr g2 id2 u
        → Decides (nodes_equal fuel c1 id1 c2 id2) t u
    unfolding nodes_equal
    nodes_equal-ok zero t u lt rt ru = absurd (omega arith)
    nodes_equal-ok (suc fuel) (terminal v) (terminal w) lt (at_terminal e) (at_terminal e') =
        elim (eq-cases v w) [
          | inl same ↦ inl (
            rw (e, e')
                (rw (odd-type v, odd-type w, nodes_equal)
                  (rw (odd-type v) (rw (eq→== (v * 2 + 1) (w * 2 + 1) (omega arith))))),
            ap terminal same,
          )
          | inr ne ↦ inr (
            rw (e, e')
                (rw (odd-type v, odd-type w, nodes_equal)
                  (rw (odd-type v) (rw (ne→== (v * 2 + 1) (w * 2 + 1) (λ q. ne (omega arith)))))),
            λ q. ne (terminal_of q),
          )
        ]
    nodes_equal-ok (suc fuel) (terminal v) (nonterminal y l' h') lt (at_terminal e)
          (at_nonterminal {i = j} k' e' here' p' rl' rh') =
        let (q, w) = even-parts j in inr (rw (e, e') (rw (odd-type v, q, nodes_equal)), λ same. cc)
    nodes_equal-ok (suc fuel) (nonterminal x l h) (terminal w) lt
          (at_nonterminal {i} k e here p rl rh) (at_terminal e') =
        let (q, q') = even-parts i in inr (rw (e, e') (rw (odd-type w, q, nodes_equal)), λ same. cc)
    nodes_equal-ok (suc fuel) (nonterminal x l h) (nonterminal y l' h') lt
          (at_nonterminal {i} k e here p rl rh) (at_nonterminal {i = j} k' e' here' p' rl' rh') =
        let (q, w) = even-parts i in
        let (q', w') = even-parts j in
        let read1 = get_nonterminal-ok i k inv1 here in
        let read2 = get_nonterminal-ok j k' inv2 here' in
        elim (eq-cases k.variable k'.variable) [
          | inr ne ↦ inr (
            rw (e, e')
                (rw (q, q', nodes_equal)
                  (rw q (rw (read1, read2) (rw (ne→== k.variable k'.variable ne))))),
            λ same. ne (sym p ∙ variable_of same ∙ p'),
          )
          | inl var ↦
              rw (e, e')
                (rw (q, q', nodes_equal)
                  (rw q (
                    rw (read1, read2)
                      (rw (eq→== k.variable k'.variable var)
                        (elim (nodes_equal-ok fuel l l' (omega arith) rl rl') [
                          | inr (low, ne) ↦ inr (rw low, λ same. ne (low_of same))
                          | inl (low, same) ↦ elim (nodes_equal-ok fuel h h' (omega arith) rh rh') [
                            | inr (high, ne) ↦ inr (rw (low, high), λ same'. ne (high_of same'))
                            | inl (high, same') ↦
                                inl (rw (low, high), let s = p ∙ var ∙ sym p' in cc)
                          ]
                        ])))))
        ]
