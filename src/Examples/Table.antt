-- ===== src/Examples/Table.antt =====
-- The table of nodes that the examples run with.
use libcorkipset.Prelude.{◌+◌}
use libcorkipset.Node.{NodeTable, node_hash, node_equals}
use libcorkipset.Examples.Assoc.{assoc}

-- An association list; the hash need not be a good one.
instance abbrev pub node_table : NodeTable
node_table = record {
  hash_variable = λ a b. a + b;
  table = assoc node_equals (node_hash (λ a b. a + b));
}
