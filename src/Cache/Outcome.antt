-- ===== src/Cache/Outcome.antt =====
-- What an operation that gives a node id promises: a well-formed cache that holds the id, and that
-- keeps every node of the cache before it.
use libcorkipset.Prelude.{ℕ, ◌+◌, ◌*◌, ◌≤◌, ◌≡◌, ◌≢◌, ◌⊎◌, some, List}
use libcorkipset.Node.{NodeTable}
use libcorkipset.Cache.{NodeCache}
use libcorkipset.Cache.Graph.{Content, Graph, refs, hold, Extends}
use libcorkipset.Cache.Invariant.{Invariant, Settled}

abbrev pub content : ℕ → ℕ → ℕ → Content
content variable low high = record { variable = variable; low = low; high = high }

-- The id of the node with these contents, or of the one subtree if the node would be redundant.
abbrev pub Made : Graph → ℕ → ℕ → ℕ → ℕ → Type 0
Made g x low high id =
    ((low ≡ high) × (id ≡ low))
    ⊎ ((low ≢ high) × ((i : ℕ) × (id ≡ i * 2) × (g i ≡ some (content x low high))))

module _ ⦃T : NodeTable⦄ where
  -- From a cache `c` with references `r0`, the id comes as one reference beside `r`. At most
  -- `budget` nodes and `budget` references to any node are added.
  pub record Outcome (budget : ℕ) (c : NodeCache) (g : Graph) (r0 r : ℕ → ℕ) (id : ℕ)
      (c' : NodeCache) : Type 0 where
    pub graph : Graph
    pub free : List ℕ
    pub inv : Invariant c' graph (hold id r) free
    pub settled : Settled c' graph
    pub extends : Extends g graph
    pub grown : c'.largest_index ≤ c.largest_index + budget
    pub bounded :
        (i : ℕ) → refs c'.largest_index graph (hold id r) i ≤ refs c.largest_index g r0 i + budget
