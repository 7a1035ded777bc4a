-- ===== src/Cache/Graph/Count.antt =====
-- How the count of references changes with the graph.
use libcorkipset.Prelude.{
  ℕ, suc, ◌+◌, ◌*◌, ◌≤◌, ◌<◌, ◌≡◌, ◌≢◌, ap, Bool, true, false, Option, none, some, arith, bit, ◌==◌,
  eq→==, update, update_self, update-ne, sum_below-suc, sum_below-change, le-sum_below,
  sum_below-le,
}
use libcorkipset.Cache.Graph.{Content, Graph, edge, weight_of, weight, refs, hold}

pub refs-hold :
    (n id : ℕ) (g : Graph) (r : ℕ → ℕ) (i : ℕ)
    → refs n g (hold id r) i ≡ bit (id == i * 2) + refs n g r i
unfolding refs
refs-hold n id g r i = omega arith

-- Only the held references and the graph count.
pub refs-congr :
    (n : ℕ) (g : Graph) (r r' : ℕ → ℕ) (i : ℕ) → r i ≡ r' i → refs n g r i ≡ refs n g r' i
unfolding refs
refs-congr n g r r' i h = omega arith

-- A new node adds its edges.
pub refs-add :
    (n : ℕ) (g : Graph) (r : ℕ → ℕ) (j : ℕ) (k : Content) (i : ℕ)
    → j < n
    → g j ≡ none
    → refs n (update g j (some k)) r i ≡ refs n g r i + edge k i
unfolding refs
refs-add n g r j k i h free =
    let new : weight (update g j (some k)) i j ≡ edge k i =
      ap (λ o. weight_of o i) (update_self g j (some k)) in
    let old : weight g i j ≡ 0 = ap (λ o. weight_of o i) free in
    omega (
      arith,
      new,
      old,
      sum_below-change n (weight (update g j (some k)) i) (weight g i) j h
          (λ m ne. ap (λ o. weight_of o i) (update-ne g j m (some k) ne)),
    )

-- A node that goes takes its edges with it.
pub refs-remove :
    (n : ℕ) (g : Graph) (r : ℕ → ℕ) (j : ℕ) (k : Content) (i : ℕ)
    → j < n
    → g j ≡ some k
    → refs n (update g j none) r i + edge k i ≡ refs n g r i
unfolding refs
refs-remove n g r j k i h here =
    let new : weight (update g j none) i j ≡ 0 = ap (λ o. weight_of o i) (update_self g j none) in
    let old : weight g i j ≡ edge k i = ap (λ o. weight_of o i) here in
    omega (
      arith,
      new,
      old,
      sum_below-change n (weight (update g j none) i) (weight g i) j h
          (λ m ne. ap (λ o. weight_of o i) (update-ne g j m none ne)),
    )

-- An unused index at the end counts nothing.
pub refs-suc :
    (n : ℕ) (g : Graph) (r : ℕ → ℕ) (i : ℕ) → g n ≡ none → refs (suc n) g r i ≡ refs n g r i
unfolding refs
refs-suc n g r i free =
    let zero_weight : weight g i n ≡ 0 = ap (λ o. weight_of o i) free in
    omega (arith, zero_weight, sum_below-suc n (weight g i))

-- A node counts its edges.
pub edge-le-refs :
    (n : ℕ) (g : Graph) (r : ℕ → ℕ) (j : ℕ) (k : Content) (i : ℕ)
    → j < n
    → g j ≡ some k
    → r i + edge k i ≤ refs n g r i
unfolding refs
edge-le-refs n g r j k i h here =
    let old : weight g i j ≡ edge k i = ap (λ o. weight_of o i) here in
    omega (arith, old, le-sum_below n (weight g i) j h)

pub bit-le : (b : Bool) → bit b ≤ 1
bit-le true = omega arith
bit-le false = omega arith

weight_of-le : (o : Option Content) (i : ℕ) → weight_of o i ≤ 2
weight_of-le none i = omega arith
weight_of-le (some k) i = omega (arith, bit-le (k.low == i * 2), bit-le (k.high == i * 2))

-- A node is referred to at most twice by each index below the bound.
pub refs-le : (n : ℕ) (g : Graph) (r : ℕ → ℕ) (i : ℕ) → refs n g r i ≤ r i + 2 * n
unfolding refs
refs-le n g r i = omega (arith, sum_below-le n 2 (weight g i) (λ j. weight_of-le (g j) i))

module _ (n : ℕ) (g : Graph) (r : ℕ → ℕ) (i : ℕ) (k : Content) (below : i < n) (here : g i ≡ some k)
    (j : ℕ) where
  -- A node refers to its subtrees.
  pub low-refs : k.low ≡ j * 2 → refs n g r j ≢ 0
  low-refs e z =
      omega (arith, z, edge-le-refs n g r i k j below here, ap bit (eq→== k.low (j * 2) e))

  pub high-refs : k.high ≡ j * 2 → refs n g r j ≢ 0
  high-refs e z =
      omega (arith, z, edge-le-refs n g r i k j below here, ap bit (eq→== k.high (j * 2) e))
