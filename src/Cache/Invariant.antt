-- ===== src/Cache/Invariant.antt =====
-- Well-formed node caches: what holds of `struct ipset_node_cache` between the operations of
-- src/libipset/bdd/basics.c, for a graph `g` of the nodes in use, the references `r` that callers
-- hold, and the list `free` of the indices to be reused.
pub mod Recount
use libcorkipset.Prelude.{
  ℕ, ◌+◌, ◌*◌, ◌^◌, ◌≤◌, ◌<◌, ◌≡◌, ◌≢◌, Bool, true, false, Option, none, some, List, [], ◌∷◌, ◌==◌,
  length, contains,
}
use libcorkipset.Node.{Node, NodeTable, node_equals}
use libcorkipset.NodeId.{word}
use libcorkipset.Cache.{NodeCache, null_index, chunk_size, get_nonterminal_by_index}
use libcorkipset.Cache.Memory.{Chunked}
use libcorkipset.Cache.Graph.{Content, cell, Graph, refs}

-- A subtree of a node with variable `x`: a terminal, or a node with a later variable.
abbrev pub Later : Graph → ℕ → ℕ → Type 0
Later g x id = (j : ℕ) (k : Content) → id ≡ j * 2 → g j ≡ some k → x < k.variable

module _ ⦃T : NodeTable⦄ where
  -- What the memory and the table hold for a node in use.
  pub record Held (c : NodeCache) (i : ℕ) (k : Content) (count : ℕ) : Type 0 where
    pub below : i < c.largest_index
    pub small : count < word
    pub at : get_nonterminal_by_index c i ≡ some (cell k count)
    pub entry : (n : ℕ) → T.table.get c.node_cache (cell k n) ≡ some (i * 2)

  -- The free list from `head` on, linked through the reference counts.
  abbrev pub FreeChain : NodeCache → Graph → ℕ → List ℕ → Type 0
  FreeChain c g head [] = head ≡ null_index
  FreeChain c g head (i ∷ free) =
      (n : Node) × (head ≡ i)
      × (i < c.largest_index)
      × (g i ≡ none)
      × (contains free i ≡ false)
      × (get_nonterminal_by_index c i ≡ some n)
      × FreeChain c g n.refcount free

  -- An entry of the table is the id of a node with the contents of its key.
  pub record Entry (c : NodeCache) (free : List ℕ) (k : Node) (id i : ℕ) (n : Node) : Type 0 where
    pub is_id : id ≡ i * 2
    pub below : i < c.largest_index
    pub at : get_nonterminal_by_index c i ≡ some n
    pub same : node_equals n k ≡ true
    pub not_free : contains free i ≡ false

  pub record Invariant (c : NodeCache) (g : Graph) (r : ℕ → ℕ) (free : List ℕ) : Type 0 where
    pub chunked : Chunked c.chunks
    pub room : c.largest_index ≤ chunk_size * length c.chunks
    pub small : c.largest_index ≤ 2 ^ 31
    pub held : (i : ℕ) (k : Content) → g i ≡ some k → Held c i k (refs c.largest_index g r i)
    pub dead : (i : ℕ) → g i ≡ none → refs c.largest_index g r i ≡ 0
    pub irredundant : (i : ℕ) (k : Content) → g i ≡ some k → k.low ≢ k.high
    pub low_later : (i : ℕ) (k : Content) → g i ≡ some k → Later g k.variable k.low
    pub high_later : (i : ℕ) (k : Content) → g i ≡ some k → Later g k.variable k.high
    pub chain : FreeChain c g c.free_list free
    pub entries :
        (k : Node) (id : ℕ)
        → T.table.get c.node_cache k ≡ some id
        → (i : ℕ) × (n : Node) × Entry c free k id i n

  -- No node is on its way out: the table names only nodes in use.
  abbrev pub Settled : NodeCache → Graph → Type 0
  Settled c g =
      (k : Node) (id : ℕ)
      → T.table.get c.node_cache k ≡ some id
      → (i : ℕ) × (m : Content) × (id ≡ i * 2) × (g i ≡ some m)
