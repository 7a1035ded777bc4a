-- ===== src/Examples/Diagrams.antt =====
-- Insertions into a new diagram.
use libcorkipset.Prelude.{ℕ, ◌==◌, Bool, refl, [], Returns, arith}
use libcorkipset.Tree.{terminal, Inserted}
use libcorkipset.NodeId.{terminal_node_id}
use libcorkipset.Cache.{new}
use libcorkipset.Cache.Graph.{hold}
use libcorkipset.Cache.Graph.Repr.{at_terminal}
use libcorkipset.Cache.Counting.{hold-terminal}
use libcorkipset.Cache.Nonterminal.{Ready}
use libcorkipset.Bdd.{insert, replace}
use libcorkipset.Bdd.Branch.{Gives}
use libcorkipset.Bdd.Insert.{insert-ok}
use libcorkipset.Bdd.Replace.{Replaced, replace-ok, no_refs}
use libcorkipset.Bdd.Owner.{no_nodes, new-Invariant, new-Settled, new-Owns}
use libcorkipset.Examples.Table.{node_table}

-- Variable 0 is true, all others false.
abbrev first : ℕ → Bool
first v = v == 0

new-Ready : Ready 5 new no_nodes (hold 1 no_refs) []
unfolding new
new-Ready = record {
  inv = new-Invariant (hold 1 no_refs) (hold-terminal 0 no_refs);
  settled = new-Settled;
  indices = omega arith;
  counts =
      λ i. omega (arith, (new-Invariant (hold 1 no_refs) (hold-terminal 0 no_refs)).dead i refl);
}

insert-ok_example :
    Returns
      (Gives 2 5 new no_nodes (hold 1 no_refs) 0 (Inserted 0 2 first 7 (terminal 0)))
      (insert 3 1 first 2 7 new)
insert-ok_example =
    insert-ok first 2 7 2 (omega arith) (omega arith) (omega arith) 3 (omega arith) new no_nodes
      (hold 1 no_refs) [] 1 (terminal 0) new-Ready (at_terminal refl) tt

replace-ok_example :
    Returns
      (Replaced 2 2 first 7 new (terminal_node_id 0) (terminal 0))
      (replace 3 (terminal_node_id 0) first 2 7 new)
unfolding new
replace-ok_example =
    replace-ok 2 2 7 3 first (omega arith) (omega arith) (omega arith) (omega arith) (omega arith)
      (new-Owns 2 0 (omega arith))
