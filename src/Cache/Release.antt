-- ===== src/Cache/Release.antt =====
-- What `ipset_node_decref` promises when it frees nodes.
pub mod Detach
pub mod Reclaim
pub mod Decref
use libcorkipset.Prelude.{ℕ, ◌*◌, ◌≡◌, Bool, false, Option, none, some, List, contains}
use libcorkipset.Node.{Node, NodeTable}
use libcorkipset.Cache.{NodeCache, get_nonterminal_by_index}
use libcorkipset.Cache.Graph.{Content, Graph, refs, hold}
use libcorkipset.Cache.Invariant.{Invariant, Settled}

-- Every node of `g'` is one of `g`.
abbrev pub Shrinks : Graph → Graph → Type 0
Shrinks g g' = (i : ℕ) (k : Content) → g' i ≡ some k → g i ≡ some k

module _ ⦃T : NodeTable⦄ where
  -- From the cache `c` the reference to `id` has been given up, with all that only it kept: the
  -- callers hold those of `r`. `reclaimed` says that a node still in use without a reference had
  -- none before.
  pub record Released (c : NodeCache) (g : Graph) (r : ℕ → ℕ) (free : List ℕ) (id : ℕ)
      (c' : NodeCache) : Type 0 where
    pub graph : Graph
    pub free' : List ℕ
    pub inv : Invariant c' graph r free'
    pub shrinks : Shrinks g graph
    pub reclaimed :
        (i : ℕ) (k : Content)
        → graph i ≡ some k
        → refs c'.largest_index graph r i ≡ 0
        → refs c.largest_index g (hold id r) i ≡ 0
    pub largest : c'.largest_index ≡ c.largest_index
    pub untouched :
        (i : ℕ) → g i ≡ none → get_nonterminal_by_index c' i ≡ get_nonterminal_by_index c i
    pub not_free : (i : ℕ) → g i ≡ none → contains free i ≡ false → contains free' i ≡ false
    pub table :
        (key : Node) (id : ℕ)
        → T.table.get c'.node_cache key ≡ some id
        → (T.table.get c.node_cache key ≡ some id) × ((i : ℕ) → id ≡ i * 2 → graph i ≡ g i)

  pub Released-Settled :
      {c c' : NodeCache} {g : Graph} {r : ℕ → ℕ} {free : List ℕ} {a : ℕ}
      → (out : Released c g r free a c') → Settled c g
      → Settled c' out.graph
  Released-Settled out quiet key id e =
      let (old, same) = out.table key id e in
      let (i, m, is_id, here) = quiet key id old in (i, m, is_id, step (same i is_id) here)
    where
      step : {a b : Option Content} {m : Content} → a ≡ b → b ≡ some m → a ≡ some m
      step p q = rw p q
