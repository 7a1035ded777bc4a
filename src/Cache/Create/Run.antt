-- ===== src/Cache/Create/Run.antt =====
-- The run of the branch that makes a node.
use libcorkipset.Prelude.{
  ℕ, ◌*◌, ◌^◌, ◌<◌, ◌≡◌, refl, none, some, List, arith, update, update_self, Returns, returns,
}
use libcorkipset.Node.{NodeTable}
use libcorkipset.NodeId.{nonterminal_node_id}
use libcorkipset.Cache.{NodeCache, create}
use libcorkipset.Cache.Memory.{get-below, set-only_chunks}
use libcorkipset.Cache.Counting.{store-ok}
use libcorkipset.Cache.Alloc.{alloc_node-ok}
use libcorkipset.Cache.Graph.{Content, cell, Graph, hold}
use libcorkipset.Cache.Invariant.{Invariant, Settled}
use libcorkipset.Cache.Outcome.{Outcome}
use libcorkipset.Cache.Create.{Fits, made, Invariant-made, Settled-made, Extends-made, bounded-made}

pub nonterminal_node_id-eq : (i : ℕ) → i < 2 ^ 31 → nonterminal_node_id i ≡ i * 2
unfolding nonterminal_node_id
nonterminal_node_id-eq i h = omega arith

module _ ⦃T : NodeTable⦄ where
  -- The new node is made, and holds the references to its subtrees.
  pub create-ok :
      {c : NodeCache} {g : Graph} {free : List ℕ} (r : ℕ → ℕ) (k : Content)
      → Invariant c g (hold k.low (hold k.high r)) free
      → Settled c g
      → Fits g k
      → c.largest_index < 2 ^ 31
      → T.table.get c.node_cache (cell k 0) ≡ none
      → Returns
          (λ id c'.
            (out : Outcome 1 c g (hold k.low (hold k.high r)) r id c') × ((i : ℕ) × (id ≡ i * 2)
              × (out.graph i ≡ some k)))
          (create k.variable k.low k.high c)
  unfolding create
  create-ok {c} {g} {free} r k inv quiet fits small absent =
      let (i, c1, free', run, got) = alloc_node-ok small free inv in
      let (m, valid) = get-below c1 i got.inv.chunked (omega (arith, got.inv.room, got.below)) in
      let absent' : T.table.get c1.node_cache (cell k 0) ≡ none = rw got.table absent in
      let is_id : nonterminal_node_id i ≡ i * 2 =
        nonterminal_node_id-eq i (omega (arith, got.inv.small, got.below)) in
      let c' = made c c1 g r free' i k got fits m valid absent' in
      rw (run, store-ok c1 i (cell k 1) valid, is_id, set-only_chunks c1 i (cell k 1) valid)
        (returns {s = c'} (
          record {
            graph = update g i (some k);
            free = free';
            inv = Invariant-made c c1 g r free' i k got fits m valid absent';
            settled =
                Settled-made c c1 g r free' i k got fits m valid absent'
                  (λ key id e. quiet key id (rw got.table at e));
            extends = Extends-made c c1 g r free' i k got fits m valid absent';
            grown = got.grown;
            bounded = λ j.
                bounded-made c c1 g r free' i k got fits m valid absent' j
                  (omega (arith, got.same_refs j));
          },
          (i, refl, update_self g i (some k)),
        ))
