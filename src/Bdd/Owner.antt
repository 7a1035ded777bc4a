-- ===== src/Bdd/Owner.antt =====
-- The owner of a diagram: what it can read from it, and the cache that it starts with.
use libcorkipset.Prelude.{ℕ, ◌+◌, ◌*◌, ◌^◌, ◌<◌, ◌≡◌, ◌≢◌, refl, Bool, none, some, [], arith}
use libcorkipset.Tree.{Tree, terminal, eval, SameFunction}
use libcorkipset.Tree.Order.{height-le}
use libcorkipset.Tree.Canonical.{canonical}
use libcorkipset.Node.{Node, NodeTable}
use libcorkipset.NodeId.{terminal_node_id}
use libcorkipset.Cache.{NodeCache, new}
use libcorkipset.Cache.Counting.{hold-terminal}
use libcorkipset.Cache.Graph.Count.{refs-le}
use libcorkipset.Cache.Graph.{Graph, hold, refs}
use libcorkipset.Cache.Graph.Repr.{at_terminal}
use libcorkipset.Cache.Invariant.{Invariant, Settled}
use libcorkipset.Bdd.{evaluate, nodes_equal}
use libcorkipset.Bdd.Evaluate.{evaluate-ok, nodes_equal-ok, Decides}
use libcorkipset.Bdd.Replace.{Owns, Owns-IsReduced, no_refs}

abbrev pub no_nodes : Graph
no_nodes i = none

pub terminal_node_id-small : (v : ℕ) → v < 2 ^ 31 → terminal_node_id v ≡ v * 2 + 1
unfolding terminal_node_id
terminal_node_id-small v h = omega arith

no_nodes-refs : (r : ℕ → ℕ) → ((i : ℕ) → r i ≡ 0) → (i : ℕ) → refs 0 no_nodes r i ≡ 0
no_nodes-refs r none_held i = omega (arith, refs-le 0 no_nodes r i, none_held i)

module _ ⦃T : NodeTable⦄ where
  no_entry : (k : Node) (id : ℕ) → T.table.get T.table.new k ≢ some id
  no_entry k id e = let none_yet = T.table.get-new k in absurd cc

  -- A new cache is well formed as long as no reference to a nonterminal is held.
  pub new-Invariant : (r : ℕ → ℕ) → ((i : ℕ) → r i ≡ 0) → Invariant new no_nodes r []
  unfolding new
  new-Invariant r none_held = record {
    chunked = tt;
    room = omega arith;
    small = omega arith;
    held = λ i k e. absurd cc;
    dead = λ i e. no_nodes-refs r none_held i;
    irredundant = λ i k e. absurd cc;
    low_later = λ i k e. absurd cc;
    high_later = λ i k e. absurd cc;
    chain = refl;
    entries = λ k id e. absurd (no_entry k id e);
  }

  pub new-Settled : Settled new no_nodes
  unfolding new
  new-Settled k id e = absurd (no_entry k id e)

  -- A new cache with a terminal.
  pub new-Owns : (top v : ℕ) → v < 2 ^ 31 → Owns top new (terminal_node_id v) (terminal v)
  unfolding new
  new-Owns top v h = rw (terminal_node_id-small v h) (record {
    graph = no_nodes;
    free = [];
    inv = new-Invariant (hold (v * 2 + 1) no_refs) (hold-terminal v no_refs);
    settled = new-Settled;
    repr = at_terminal refl;
    ordered = tt;
  })

  module _ {top : ℕ} {c : NodeCache} {bdd : ℕ} {t : Tree} (o : Owns top c bdd t) where
    pub evaluate-Owns :
        (fuel : ℕ) (a : ℕ → Bool) → top < fuel → evaluate fuel c bdd a ≡ some (eval t a)
    evaluate-Owns fuel a h =
        evaluate-ok o.inv fuel t a (omega (arith, height-le top t {x = 0} (omega arith) o.ordered))
          o.repr

    pub nodes_equal-Owns :
        {c2 : NodeCache} {bdd2 : ℕ} {t2 : Tree} (fuel : ℕ)
        → top < fuel
        → Owns top c2 bdd2 t2
        → Decides (nodes_equal fuel c bdd c2 bdd2) t t2
    nodes_equal-Owns {t2} fuel h o2 =
        nodes_equal-ok o.inv o2.inv fuel t t2
          (omega (arith, height-le top t {x = 0} (omega arith) o.ordered)) o.repr o2.repr

    pub canonical-Owns :
        {c2 : NodeCache} {bdd2 : ℕ} {t2 : Tree} → Owns top c2 bdd2 t2 → SameFunction t t2 → t ≡ t2
    canonical-Owns {t2} o2 same =
        canonical top 0 t t2 o.ordered o2.ordered (Owns-IsReduced o) (Owns-IsReduced o2) same
