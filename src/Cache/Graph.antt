-- ===== src/Cache/Graph.antt =====
-- The graph of the nodes in use, the references that it counts, and the trees that its nodes stand
-- for. It is a view of a node cache that no code computes.
pub mod Count
pub mod Repr
use libcorkipset.Prelude.{ℕ, ◌+◌, ◌*◌, ◌≡◌, Bool, Option, none, some, bit, ◌==◌, sum_below}
use libcorkipset.Node.{Node}

-- A node less its reference count.
pub record Content : Type 0 where
  pub variable : ℕ
  pub low : ℕ
  pub high : ℕ

abbrev pub cell : Content → ℕ → Node
cell k count = record { refcount = count; variable = k.variable; low = k.low; high = k.high }

abbrev pub Graph : Type 0
Graph = ℕ → Option Content

-- How many of a node's two subtrees are the nonterminal with index `i`.
abbrev pub edge : Content → ℕ → ℕ
edge k i = bit (k.low == i * 2) + bit (k.high == i * 2)

abbrev pub weight_of : Option Content → ℕ → ℕ
weight_of none i = 0
weight_of (some k) i = edge k i

abbrev pub weight : Graph → ℕ → ℕ → ℕ
weight g i j = weight_of (g j) i

-- The references to index `i`: those that callers hold, and those from nodes below index `n`.
pub refs : ℕ → Graph → (ℕ → ℕ) → ℕ → ℕ
refs n g r i = r i + sum_below n (weight g i)

-- One more reference to `id` that a caller holds; only a nonterminal's id is counted.
abbrev pub hold : ℕ → (ℕ → ℕ) → ℕ → ℕ
hold id r i = bit (id == i * 2) + r i

-- Every node of `g` is one of `g'`.
abbrev pub Extends : Graph → Graph → Type 0
Extends g g' = (i : ℕ) (k : Content) → g i ≡ some k → g' i ≡ some k
