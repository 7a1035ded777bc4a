-- ===== src/Dot.antt =====
-- The GraphViz output of a diagram: the dot part of src/libipset/bdd/write.c, and `ipset_save_dot`
-- of src/libipset/set/storage.c.
use libcorkipset.Prelude.{ℕ, zero, suc, Bool, none, List, [], ◌++◌, ◌==◌, if◌then◌else◌}
use libcorkipset.Node.{NodeTable}
use libcorkipset.Cache.{NodeCache}
use libcorkipset.Pointers.{PointerTables}
use libcorkipset.SerializedId.{ℤ, pos, negsuc, to_uint32, of_uint32}
use libcorkipset.Stream.{Consumer, Stdio, codes, file_consumer}
use libcorkipset.Save.{SaveM, Result, Writer, send, write_string, save_bdd, pure, continue}
use libcorkipset.Set.{IpSet, depth}

-- `%d` and `%u` of libcork's `cork_buffer_printf`.
pub record Printf : Type 0 where
  pub signed : ℤ → List ℕ
  pub unsigned : ℕ → List ℕ

abbrev pub graphviz_header : List ℕ
graphviz_header = codes "strict digraph bdd {\n"

abbrev pub graphviz_footer : List ℕ
graphviz_footer = codes "}\n"

unfoldable pub negate : ℤ → ℤ
negate (pos zero) = pos zero
negate (pos (suc n)) = negsuc n
negate (negsuc n) = pos (suc n)

module _ (F : Printf) (default_value : ℕ) where
  -- "    n%d -> %s%d"
  abbrev pub arrow : ℤ → List ℕ → ℤ → List ℕ
  arrow node kind target =
      codes "    n" ++ (F.signed (negate node) ++ (codes " -> " ++ (kind ++ F.signed target)))

  -- An edge to a nonterminal, to a terminal, or to a dummy circle in place of the default value.
  abbrev pub edge : List ℕ → List ℕ → ℤ → ℤ → List ℕ
  edge dummy attributes node (negsuc n) = arrow node (codes "n") (negate (negsuc n))
  edge dummy attributes node (pos n) =
      if to_uint32 (pos n) == default_value
      then codes "    "
        ++ (dummy ++ (F.signed (negate node) ++ (attributes ++ arrow node dummy (negate node))))
      else arrow node (codes "t") (pos n)

  unfoldable pub low_edge : ℤ → ℤ → List ℕ
  low_edge serialized_node serialized_low =
      edge (codes "low") (codes " [shape=circle,label=\"\"]\n") serialized_node serialized_low

  unfoldable pub high_edge : ℤ → ℤ → List ℕ
  high_edge serialized_node serialized_high =
      edge (codes "high")
        (codes " [shape=circle,fixedsize=true,height=0.25,width=0.25,label=\"\"]\n") serialized_node
        serialized_high

  -- The text in the scratch buffer for a nonterminal.
  unfoldable pub nonterminal_text : ℤ → ℕ → ℤ → ℤ → List ℕ
  unfolding low_edge high_edge negate
  nonterminal_text serialized_node variable serialized_low serialized_high =
      codes "    n"
      ++ (F.signed (negate serialized_node)
          ++ (codes " [shape=circle,label="
              ++ (F.unsigned variable
                  ++ (codes "];\n"
                      ++ (low_edge serialized_node serialized_low
                          ++ (codes " [style=dashed,color=red]\n"
                              ++ (high_edge serialized_node serialized_high
                                  ++ codes " [style=solid,color=black]\n")))))))

  unfoldable pub terminal_text : ℕ → List ℕ
  terminal_text terminal_value =
      codes "    t"
      ++ (F.signed (of_uint32 terminal_value)
          ++ (codes " [shape=box, label=" ++ (F.signed (of_uint32 terminal_value) ++ codes "];\n")))

module _ ⦃T : NodeTable⦄ (P : PointerTables) (C : Consumer) (F : Printf) where
  unfoldable pub write_header_dot : NodeCache → ℕ → SaveM P C (Unit {0})
  unfolding send write_string
  write_header_dot cache root st =
      continue P C (send P C [] Bool.true st) (λ sent. write_string P C graphviz_header)

  unfoldable pub write_footer_dot : NodeCache → ℕ → SaveM P C (Unit {0})
  unfolding write_string
  write_footer_dot cache root = write_string P C graphviz_footer

  unfoldable pub write_terminal_dot : ℕ → ℕ → SaveM P C (Unit {0})
  unfolding write_string
  write_terminal_dot default_value terminal_value =
      if terminal_value == default_value
      then pure P C tt
      else write_string P C (terminal_text F default_value terminal_value)

  unfoldable pub write_nonterminal_dot : ℕ → ℤ → ℕ → ℤ → ℤ → SaveM P C (Unit {0})
  unfolding write_string
  write_nonterminal_dot default_value serialized_node variable serialized_low serialized_high =
      write_string P C
        (nonterminal_text F default_value serialized_node variable serialized_low serialized_high)

  -- The callbacks that `ipset_node_cache_save_dot` sets.
  unfoldable pub writer_dot : ℕ → Writer P C
  unfolding write_header_dot write_footer_dot write_terminal_dot write_nonterminal_dot
  writer_dot default_value = record {
    write_header = write_header_dot;
    write_footer = write_footer_dot;
    write_terminal = write_terminal_dot default_value;
    write_nonterminal = write_nonterminal_dot default_value;
  }

  unfoldable pub save_dot : ℕ → NodeCache → ℕ → C.State → Result P C (Unit {0})
  unfolding save_bdd writer_dot
  save_dot fuel cache node stream = save_bdd P C fuel (writer_dot 0) cache node (record {
    stream = stream;
    serialized_ids = P.serialized_ids.new;
    next_serialized_id = negsuc 0;
  })

module _ ⦃T : NodeTable⦄ (P : PointerTables) (S : Stdio) (F : Printf) where
  unfoldable pub save_set_dot : IpSet → S.File → Result P (file_consumer S) (Unit {0})
  unfolding save_dot
  save_set_dot set fp =
      save_dot P (file_consumer S) F depth set.cache set.set_bdd (record { fp = fp; error = none })
