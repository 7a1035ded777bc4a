-- ===== src/Cache/Graph/Repr.antt =====
-- The tree that a node id stands for in a graph.
use libcorkipset.Prelude.{ℕ, suc, ◌+◌, ◌*◌, ◌<◌, ◌≡◌, ap, ◌⊎◌, inl, inr, some, arith}
use libcorkipset.Tree.{Tree, terminal, nonterminal, IsOrdered}
use libcorkipset.Cache.Graph.{Content, Graph, Extends}

pub data Repr (g : Graph) : ℕ → Tree → Type 0 where
  at_terminal : {id v : ℕ} → id ≡ v * 2 + 1 → Repr g id (terminal v)
  at_nonterminal :
      {id i x : ℕ} {l h : Tree} (k : Content)
      → id ≡ i * 2
      → g i ≡ some k
      → x ≡ k.variable
      → Repr g k.low l
      → Repr g k.high h
      → Repr g id (nonterminal x l h)

-- A larger graph stands for the same trees.
pub Repr-Extends : {g g' : Graph} {id : ℕ} {t : Tree} → Extends g g' → Repr g id t → Repr g' id t
Repr-Extends e (at_terminal p) = at_terminal p
Repr-Extends e (at_nonterminal {i} k p q x l h) =
    at_nonterminal k p (e i k q) x (Repr-Extends e l) (Repr-Extends e h)

-- The id of a terminal or of a node in use.
abbrev pub IsKnown : Graph → ℕ → Type 0
IsKnown g id =
    ((v : ℕ) × (id ≡ v * 2 + 1)) ⊎ ((i : ℕ) × (k : Content) × (id ≡ i * 2) × (g i ≡ some k))

pub Repr-IsKnown : {g : Graph} {id : ℕ} {t : Tree} → Repr g id t → IsKnown g id
Repr-IsKnown (at_terminal {v} p) = inl (v, p)
Repr-IsKnown (at_nonterminal {i} k p q x l h) = inr (i, k, p, q)

-- A subtree that is ordered after `x` is a later one.
pub Repr-later :
    {g : Graph} {id : ℕ} {t : Tree} (n x : ℕ)
    → Repr g id t
    → IsOrdered n (suc x) t
    → (j : ℕ) (k : Content) → id ≡ j * 2
    → g j ≡ some k
    → x < k.variable
Repr-later n x (at_terminal p) o j k e here = absurd (omega arith)
Repr-later n x (at_nonterminal {i} k' p q y l h) o j k e here =
    let same : i ≡ j = omega arith in
    let alike : k' ≡ k = cc in
    let var : k'.variable ≡ k.variable = ap (λ (c : Content). c.variable) alike in
    omega (arith, o.0)

-- An id stands for one tree.
pub Repr-unique :
    {g : Graph} {id : ℕ} {t u : Tree} (id' : ℕ) → id ≡ id' → Repr g id t → Repr g id' u → t ≡ u
Repr-unique id' e (at_terminal {v} p) (at_terminal {v = w} q) = ap terminal (omega arith)
Repr-unique id' e (at_terminal p) (at_nonterminal k q here x l h) = absurd (omega arith)
Repr-unique id' e (at_nonterminal k q here x l h) (at_terminal p) = absurd (omega arith)
Repr-unique id' e (at_nonterminal {i} k p here x l h)
      (at_nonterminal {i = j} k' p' here' x' l' h') =
    let same : i ≡ j = omega arith in
    let alike : k ≡ k' = cc in
    let low = Repr-unique k'.low (ap (λ (c : Content). c.low) alike) l l' in
    let high = Repr-unique k'.high (ap (λ (c : Content). c.high) alike) h h' in cc
