-- ===== src/Set/Valid.antt =====
-- Well-formed sets, and the members that they stand for. A member is an assignment to the variables
-- of the diagram, as each address of a family gives one.
use Prim.Native.Nat.{◌+◌}
use libcorkipset.Prelude.{ℕ, ◌^◌, ◌≤◌, ◌≡◌, ◌↔◌, Bool, true, false, not, arith, ◌==◌}
use libcorkipset.Tree.{Tree, terminal, eval}
use libcorkipset.Node.{NodeTable}
use libcorkipset.Bdd.Replace.{Owns}
use libcorkipset.Bdd.Owner.{new-Owns}
use libcorkipset.Set.{IpSet, init}

-- The discriminator and the 128 bits of an address.
abbrev pub variables : ℕ
variables = 129

module _ ⦃T : NodeTable⦄ where
  pub record Valid (s : IpSet) : Type 0 where
    pub tree : Tree
    pub owns : Owns variables s.cache s.set_bdd tree
    pub boolean : (b : ℕ → Bool) → eval tree b ≤ 1

  abbrev pub member : {s : IpSet} → Valid s → (ℕ → Bool) → Bool
  member v a = not (eval v.tree a == 0)

  -- There are indices left for the nodes of one insertion.
  abbrev pub HasRoom : IpSet → Type 0
  HasRoom s = s.cache.largest_index + 260 ≤ 2 ^ 31

  abbrev pub init-Valid : Valid init
  unfolding init
  init-Valid = record {
    tree = terminal 0;
    owns = new-Owns variables 0 (omega arith);
    boolean = λ b. omega arith;
  }

-- The value of a diagram that stands for a Boolean.
abbrev pub bit_value : Bool → ℕ
bit_value true = 1
bit_value false = 0

pub bit_value-le : (on : Bool) → bit_value on ≤ 1
bit_value-le true = omega arith
bit_value-le false = omega arith

pub Boolean-member : (x : ℕ) (on : Bool) → x ≤ 1 → (x ≡ bit_value on) ↔ (not (x == 0) ≡ on)
Boolean-member x true h = ((λ e. ground arith), (λ e. ground arith))
Boolean-member x false h = ((λ e. ground arith), (λ e. ground arith))

-- Two values of Booleans that are zero together are the same.
pub Boolean-same : (x y : ℕ) → x ≤ 1 → y ≤ 1 → not (x == 0) ≡ not (y == 0) → x ≡ y
Boolean-same x y hx hy e = ground arith
