-- ===== src/Cache.antt =====
-- The node cache: the state and the operations of src/libipset/bdd/basics.c, over the chunked
-- memory of include/ipset/bdd/nodes.h.
pub mod Graph
pub mod Memory
pub mod Nonterminal
pub mod Step
pub mod Release
pub mod Outcome
pub mod Create
pub mod Alloc
pub mod Counting
pub mod Invariant
use Prim.Native.Nat.{◌+◌}
use libcorkipset.Prelude.{
  ℕ, zero, suc, ◌-◌, ◌*◌, ◌/◌, ◌%◌, ◌^◌, Bool, true, false, ◌&&◌, not, Option, none, some, List, [],
  ◌∷◌, ◌++◌, ltb, leb, ◌==◌, if◌then◌else◌, length, get_elem?, set, replicate,
}
use libcorkipset.HashTable
use libcorkipset.Node.{Node, NodeTable}
use libcorkipset.NodeId.{
  word, get_type, nonterminal_node, terminal_node, terminal_value, terminal_node_id,
  nonterminal_value, nonterminal_node_id,
}

-- `(ipset_variable) -1`
abbrev pub null_index : ℕ
null_index = 2 ^ 32 - 1

-- `1 << IPSET_BDD_NODE_CACHE_BIT_SIZE`
abbrev pub chunk_size : ℕ
chunk_size = 64

-- Memory that `cork_calloc` clears.
abbrev pub zero_node : Node
zero_node = record { refcount = 0; variable = 0; low = 0; high = 0 }

module _ ⦃T : NodeTable⦄ where
  pub record NodeCache : Type 0 where
    pub chunks : List (List Node)
    pub largest_index : ℕ
    pub free_list : ℕ
    pub node_cache : T.table.Table

  unfoldable pub new : NodeCache
  new = record { chunks = []; largest_index = 0; free_list = null_index; node_cache = T.table.new }

  unfoldable pub chunk_index : ℕ → ℕ
  chunk_index index = index / chunk_size

  unfoldable pub chunk_offset : ℕ → ℕ
  chunk_offset index = index % chunk_size

  -- `ipset_node_cache_get_nonterminal_by_index`; `none` is a read outside of the chunks.
  unfoldable pub get_nonterminal_by_index : NodeCache → ℕ → Option Node
  unfolding chunk_index chunk_offset
  get_nonterminal_by_index cache index = elim (get_elem? cache.chunks (chunk_index index)) [
    | none ↦ none
    | some chunk ↦ get_elem? chunk (chunk_offset index)
  ]

  unfoldable pub get_nonterminal : NodeCache → ℕ → Option Node
  get_nonterminal cache node_id = get_nonterminal_by_index cache (nonterminal_value node_id)

  -- The write of a whole node through a pointer into its chunk.
  unfoldable pub set_nonterminal_by_index : NodeCache → ℕ → Node → NodeCache
  unfolding chunk_index chunk_offset
  set_nonterminal_by_index cache index node = elim (get_elem? cache.chunks (chunk_index index)) [
    | none ↦ cache
    | some chunk ↦ record cache {
      chunks = set cache.chunks (chunk_index index) (set chunk (chunk_offset index) node);
    }
  ]

  -- A step on the cache. `none` is a read outside of the chunks, or fuel that ran out.
  abbrev pub M : Type 0 → Type 0
  M A = NodeCache → Option (A × NodeCache)

  abbrev pub pure : {A : Type 0} → A → M A
  pure a cache = some (a, cache)

  abbrev pub continue : {A B : Type 0} → Option (A × NodeCache) → (A → M B) → Option (B × NodeCache)
  continue none f = none
  continue (some (a, cache)) f = f a cache

  infixl 5 ◌>>=◌ ◌>>◌
  abbrev pub ◌>>=◌ : {A B : Type 0} → M A → (A → M B) → M B
  m >>= f = λ cache. continue (m cache) f

  abbrev pub ◌>>◌ : {A B : Type 0} → M A → M B → M B
  m >> k = m >>= λ _. k

  abbrev pub out_of_fuel : {A : Type 0} → M A
  out_of_fuel cache = none

  abbrev pub gets : {A : Type 0} → (NodeCache → A) → M A
  gets f cache = some (f cache, cache)

  abbrev pub modify : (NodeCache → NodeCache) → M (Unit {0})
  modify f cache = some (tt, f cache)

  -- Reads and writes through the pointer that `get_nonterminal_by_index` gives.
  unfoldable pub load : ℕ → M Node
  load index cache = elim (get_nonterminal_by_index cache index) [
    | none ↦ none
    | some node ↦ some (node, cache)
  ]

  unfoldable pub store : ℕ → Node → M (Unit {0})
  store index node = do load index; modify (λ c. set_nonterminal_by_index c index node)

  -- A new index is the next one, in a fresh chunk if the others are full.
  unfoldable pub alloc_fresh : M ℕ
  alloc_fresh = do
    next_index ← gets (λ c. c.largest_index)
    modify (λ c. record c { largest_index = (c.largest_index + 1) % word })
    modify (λ c.
        if leb (length c.chunks) (chunk_index next_index)
        then record c { chunks = c.chunks ++ replicate chunk_size zero_node ∷ [] }
        else c)
    pure next_index

  unfoldable pub alloc_reused : M ℕ
  alloc_reused = do
    next_index ← gets (λ c. c.free_list)
    node ← load next_index
    modify (λ c. record c { free_list = node.refcount })
    pure next_index

  unfoldable pub alloc_node : M ℕ
  unfolding alloc_fresh alloc_reused
  alloc_node cache = (if cache.free_list == null_index then alloc_fresh else alloc_reused) cache

  unfoldable pub incref : ℕ → M ℕ
  incref node_id =
      if get_type node_id == nonterminal_node
      then (do
        node ← load (nonterminal_value node_id)
        store (nonterminal_value node_id) (record node { refcount = (node.refcount + 1) % word })
        pure node_id)
      else pure node_id

  -- The node's entry leaves the table, and its index becomes the head of the free list.
  unfoldable pub reclaim : ℕ → M (Unit {0})
  reclaim index = do
    node ← load index
    modify (λ c. record c { node_cache = T.table.delete c.node_cache node })
    next ← gets (λ c. c.free_list)
    store index (record node { refcount = next })
    modify (λ c. record c { free_list = index })

  -- `--node->refcount`
  unfoldable pub decrement : ℕ → M ℕ
  decrement index = do
    node ← load index
    let count = (node.refcount + word - 1) % word
    store index (record node { refcount = count })
    pure count

  -- The fuel bounds the depth of the recursion into freed subtrees.
  unfoldable pub decref : ℕ → ℕ → M (Unit {0})
  unfolding decrement reclaim
  decref zero node_id = out_of_fuel
  decref (suc fuel) node_id =
      if get_type node_id == nonterminal_node
      then (do
        count ← decrement (nonterminal_value node_id)
        if count == 0
            then (do
              node ← load (nonterminal_value node_id)
              decref fuel node.low
              node' ← load (nonterminal_value node_id)
              decref fuel node'.high
              reclaim (nonterminal_value node_id))
            else pure tt)
      else pure tt

  -- A permanent copy of a node that does not exist yet.
  unfoldable pub create : ℕ → ℕ → ℕ → M ℕ
  create variable low high = do
    new_index ← alloc_node
    let real_node : Node = record { refcount = 1; variable = variable; low = low; high = high }
    store new_index real_node
    modify (λ c. record c {
      node_cache = T.table.put c.node_cache real_node (nonterminal_node_id new_index);
    })
    pure (nonterminal_node_id new_index)

  -- A node with these contents that exists already.
  unfoldable pub reuse : ℕ → ℕ → ℕ → ℕ → M ℕ
  reuse fuel node_id low high = do incref node_id; decref fuel low; decref fuel high; pure node_id

  unfoldable pub nonterminal : ℕ → ℕ → ℕ → ℕ → M ℕ
  unfolding create reuse
  nonterminal fuel variable low high = if low == high then (do decref fuel high; pure low) else (do
    entry ← gets (λ c.
        T.table.get c.node_cache
          (record { refcount = 0; variable = variable; low = low; high = high }))
    elim entry [ none ↦ create variable low high | some node_id ↦ reuse fuel node_id low high ])
