-- ===== src/Examples/Nodes.antt =====
-- The operations of a node cache at a concrete cache of one node.
use libcorkipset.Prelude.{
  ℕ, ◌+◌, ◌*◌, ◌≡◌, refl, inl, inr, ◌∙◌, ◌<◌, some, [], Returns, Returns-result, arith, List,
}
use libcorkipset.Tree.{Tree, terminal, nonterminal}
use libcorkipset.Cache.{NodeCache, new, alloc_node}
use libcorkipset.Cache.{nonterminal as make}
use libcorkipset.Cache.Graph.{Graph, hold, refs}
use libcorkipset.Cache.Graph.Repr.{Repr, at_terminal, at_nonterminal}
use libcorkipset.Cache.Invariant.{Invariant}
use libcorkipset.Cache.Outcome.{Outcome, Made, content}
use libcorkipset.Cache.Alloc.{Allocated, alloc_node-ok}
use libcorkipset.Cache.Nonterminal.{Ready, nonterminal-ok}
use libcorkipset.NodeId.{word}
use libcorkipset.Cache.Counting.{hold-terminal}
use libcorkipset.Bdd.{nodes_equal}
use libcorkipset.Bdd.Evaluate.{Decides, nodes_equal-ok}
use libcorkipset.Bdd.Replace.{no_refs}
use libcorkipset.Bdd.Owner.{no_nodes, new-Invariant, new-Settled}
use libcorkipset.Examples.Table.{node_table}

-- A reference to each of the terminals 0 and 1.
abbrev children : ℕ → ℕ
children = hold 1 (hold 3 no_refs)

children-none : (i : ℕ) → children i ≡ 0
children-none i = hold-terminal 0 (hold 3 no_refs) i ∙ hold-terminal 1 no_refs i

abbrev new-Ready : Ready 1 new no_nodes children []
unfolding new
new-Ready = record {
  inv = new-Invariant children children-none;
  settled = new-Settled;
  indices = omega arith;
  counts = λ i. omega (arith, (new-Invariant children children-none).dead i refl);
}

-- Variable 0, with the terminals 0 and 1.
abbrev Joined : ℕ → NodeCache → Type 0
Joined id c' = (out : Outcome 1 new no_nodes children no_refs id c') × Made out.graph 0 1 3 id

nonterminal-ok_example : Returns Joined (make 1 0 1 3 new)
nonterminal-ok_example =
    nonterminal-ok no_refs 0 1 3 (inl (0, refl)) (inl (1, refl)) new-Ready 0
      (λ j k e here. absurd (omega arith)) (λ j k e here. absurd (omega arith))

abbrev joined : (id : ℕ) × (c : NodeCache) × (make 1 0 1 3 new ≡ some (id, c)) × Joined id c
joined = Returns-result (
    nonterminal-ok no_refs 0 1 3 (inl (0, refl)) (inl (1, refl)) new-Ready 0
      (λ j k e here. absurd (omega arith)) (λ j k e here. absurd (omega arith)))

abbrev joined_id : ℕ
joined_id = joined.0

abbrev joined_cache : NodeCache
joined_cache = joined.1

abbrev joined_graph : Graph
joined_graph = joined.3.0.graph

abbrev joined-Invariant :
    Invariant joined_cache joined_graph (hold joined_id no_refs) joined.3.0.free
joined-Invariant = joined.3.0.inv

abbrev joined_tree : Tree
joined_tree = nonterminal 0 (terminal 0) (terminal 1)

abbrev joined_index : (i : ℕ) × (joined_id ≡ i * 2) × (joined_graph i ≡ some (content 0 1 3))
joined_index = elim joined.3.1 [ inl (same, is) ↦ absurd (omega arith) | inr (ne, found) ↦ found ]

joined-Repr : Repr joined_graph joined_id joined_tree
joined-Repr =
    at_nonterminal (content 0 1 3) joined_index.1 joined_index.2 refl (at_terminal refl)
      (at_terminal refl)

joined-refs :
    refs joined_cache.largest_index joined_graph (hold joined_id no_refs) joined_index.0 + 1 < word
joined-refs = omega (
  arith,
  joined.3.0.bounded joined_index.0,
  (new-Invariant children children-none).dead joined_index.0 refl,
)

alloc_node-ok_example :
    (i : ℕ) × (c' : NodeCache) × (free' : List ℕ) × (alloc_node new ≡ some (i, c'))
    × Allocated new no_nodes children i c' free'
alloc_node-ok_example =
    alloc_node-ok (omega (arith, new-Ready.indices)) [] (new-Invariant children children-none)

nodes_equal-ok_example :
    Decides (nodes_equal 2 joined_cache joined_id joined_cache joined_id) joined_tree joined_tree
nodes_equal-ok_example =
    nodes_equal-ok joined-Invariant joined-Invariant 2 joined_tree joined_tree (omega arith)
      joined-Repr joined-Repr
