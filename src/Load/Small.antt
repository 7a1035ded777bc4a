-- ===== src/Load/Small.antt =====
-- What version 1 has room for, and the nodes under a root.
use libcorkipset.Prelude.{
  ℕ, suc, ◌*◌, ◌^◌, ◌≤◌, ◌<◌, ◌≡◌, refl, sym, subst, Bool, some, List, update, arith, length,
  lt-get_elem?,
}
use libcorkipset.Tree.{Tree, terminal, nonterminal, IsOrdered, eval}
use libcorkipset.Tree.Canonical.{eval-low, eval-high}
use libcorkipset.Cache.Graph.{Content, Graph}
use libcorkipset.Cache.Graph.Repr.{Repr, at_terminal, at_nonterminal}
use libcorkipset.SerializedId.{ℤ, pos, negsuc, IsInt32}
use libcorkipset.Reachable.Path.{Reaches, at_root, to_low, to_high}
use libcorkipset.Save.Places.{Final}

-- Variables and values that version 1 has room for.
abbrev pub IsSmall : Tree → Type 0
IsSmall (terminal v) = v < 2 ^ 31
IsSmall (nonterminal x l h) = (x < 256) × IsSmall l × IsSmall h

-- The values of an ordered tree are those of its leaves.
pub eval-IsSmall :
    (n x : ℕ) (t : Tree)
    → n ≤ 256
    → IsOrdered n x t
    → ((b : ℕ → Bool) → eval t b < 2 ^ 31)
    → IsSmall t
eval-IsSmall n x (terminal v) le ord values = values (λ i. Bool.true)
eval-IsSmall n x (nonterminal y l h) le ord values = (
  omega (arith, ord.1),
  eval-IsSmall n (suc y) l le ord.2 (λ b.
      subst (λ v. v < 2 ^ 31) (eval-low n y l h ord.2 ord.3 b) (values (update b y Bool.false))),
  eval-IsSmall n (suc y) h le ord.3 (λ b.
      subst (λ v. v < 2 ^ 31) (eval-high n y l h ord.2 ord.3 b) (values (update b y Bool.true))),
)

abbrev pub SmallAt : Graph → ℕ → Type 0
SmallAt g id = (u : Tree) × Repr g id u × IsSmall u

-- The children of a node that stands for a small tree.
pub children-SmallAt :
    (g : Graph) (i : ℕ) (k : Content) (id : ℕ) (u : Tree)
    → id ≡ i * 2
    → g i ≡ some k
    → Repr g id u
    → IsSmall u
    → (k.variable < 256) × SmallAt g k.low × SmallAt g k.high
children-SmallAt g i k id (terminal v) e here (at_terminal odd) small = absurd (omega arith)
children-SmallAt g i k id (nonterminal x l h) e here
      (at_nonterminal {i = i'} k' even here' var rl rh) small =
    let same : i ≡ i' = omega arith in
    let alike : k' ≡ k = cc in
    (
      subst (λ (m : Content). m.variable < 256) alike (subst (λ y. y < 256) var small.0),
      (l, subst (λ (m : Content). Repr g m.low l) alike rl, small.1),
      (h, subst (λ (m : Content). Repr g m.high h) alike rh, small.2),
    )

pub Reaches-SmallAt :
    (g : Graph) (root : ℕ) (t : Tree)
    → Repr g root t
    → IsSmall t
    → (id : ℕ) → Reaches g root id
    → SmallAt g id
Reaches-SmallAt g root t rep small id (at_root same) =
    (t, subst (λ m. Repr g m t) (sym same) rep, small)
Reaches-SmallAt g root t rep small id (to_low {i} k path here low) =
    let (u, ru, su) = Reaches-SmallAt g root t rep small (i * 2) path in
    let (var, l, h) = children-SmallAt g i k (i * 2) u refl here ru su in
    subst (SmallAt g) (sym low) l
Reaches-SmallAt g root t rep small id (to_high {i} k path here high) =
    let (u, ru, su) = Reaches-SmallAt g root t rep small (i * 2) path in
    let (var, l, h) = children-SmallAt g i k (i * 2) u refl here ru su in
    subst (SmallAt g) (sym high) h

-- A serialized id stands for one node.
pub Final-unique :
    (order : List ℕ) (id id' : ℕ) (s s' : ℤ)
    → s ≡ s'
    → Final order id s
    → Final order id' s'
    → id ≡ id'
Final-unique order id id' (pos v) (pos w) same f f' = let v_w : v ≡ w = cc in omega arith
Final-unique order id id' (pos v) (negsuc j) same f f' = absurd cc
Final-unique order id id' (negsuc j) (pos v) same f f' = absurd cc
Final-unique order id id' (negsuc j) (negsuc j') same (i, e, at) (i', e', at') =
    let place : j ≡ j' = cc in let node : i ≡ i' = cc in omega arith

pub refers-IsInt32 :
    (g : Graph) (order : List ℕ) (id : ℕ) (s : ℤ)
    → Final order id s
    → SmallAt g id
    → length order ≤ 2 ^ 31
    → IsInt32 s
refers-IsInt32 g order id (pos v) odd (terminal w, at_terminal odd', small) few = omega arith
refers-IsInt32 g order id (pos v) odd
      (nonterminal x l h, at_nonterminal k even here var rl rh, small) few =
    absurd (omega arith)
refers-IsInt32 g order id (negsuc j) (i, e, at) small few = omega (arith, lt-get_elem? order j at)
