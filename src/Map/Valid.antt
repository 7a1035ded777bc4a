-- ===== src/Map/Valid.antt =====
-- Well-formed maps, and the values that they give to the assignments of their variables.
use libcorkipset.Prelude.{ℕ, ◌+◌, ◌^◌, ◌≤◌, ◌<◌, ◌≡◌, refl, Bool}
use libcorkipset.Tree.{Tree, terminal, eval}
use libcorkipset.Node.{NodeTable}
use libcorkipset.NodeId.{terminal_node_id}
use libcorkipset.Bdd.Replace.{Owns}
use libcorkipset.Bdd.Owner.{new-Owns}
use libcorkipset.Set.Valid.{variables}
use libcorkipset.Map.{IpMap, init}

module _ ⦃T : NodeTable⦄ where
  pub record Valid (m : IpMap) : Type 0 where
    pub tree : Tree
    pub owns : Owns variables m.cache m.map_bdd tree
    pub values_small : (b : ℕ → Bool) → eval tree b < 2 ^ 31
    pub default_value : ℕ
    pub default_small : default_value < 2 ^ 31
    pub default_is : m.default_bdd ≡ terminal_node_id default_value

  abbrev pub value_at : {m : IpMap} → Valid m → (ℕ → Bool) → ℕ
  value_at v a = eval v.tree a

  -- There are indices left for the nodes of one insertion.
  abbrev pub HasRoom : IpMap → Type 0
  HasRoom m = m.cache.largest_index + 260 ≤ 2 ^ 31

  pub init-Valid : (default_value : ℕ) → default_value < 2 ^ 31 → Valid (init default_value)
  unfolding init
  init-Valid default_value h = record {
    tree = terminal default_value;
    owns = new-Owns variables default_value h;
    values_small = λ b. h;
    default_value = default_value;
    default_small = h;
    default_is = refl;
  }
