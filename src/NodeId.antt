-- ===== src/NodeId.antt =====
-- The node ids of include/ipset/bdd/nodes.h: 32-bit words whose lowest bit is the node's type.
use libcorkipset.Prelude.{ℕ, ◌+◌, ◌*◌, ◌/◌, ◌%◌, ◌^◌}

abbrev pub word : ℕ
word = 2 ^ 32

abbrev pub nonterminal_node : ℕ
nonterminal_node = 0

abbrev pub terminal_node : ℕ
terminal_node = 1

-- `node_id & 0x01`
unfoldable pub get_type : ℕ → ℕ
get_type node_id = node_id % 2

unfoldable pub terminal_value : ℕ → ℕ
terminal_value node_id = node_id / 2

-- `(value << 1) | 1`: the shifted word has its lowest bit clear.
unfoldable pub terminal_node_id : ℕ → ℕ
terminal_node_id value = value * 2 % word + terminal_node

unfoldable pub nonterminal_value : ℕ → ℕ
nonterminal_value node_id = node_id / 2

unfoldable pub nonterminal_node_id : ℕ → ℕ
nonterminal_node_id value = value * 2 % word + nonterminal_node
