-- ===== src/Tree/Order.antt =====
-- Order of the variables of a tree.
use libcorkipset.Prelude.{ℕ, ◌+◌, ◌≤◌, ◌<◌, ◌≡◌, refl, Bool, arith, update, update-ne}
use libcorkipset.Tree.{Tree, terminal, nonterminal, eval, IsOrdered, height}

pub IsOrdered-mono : (n : ℕ) (t : Tree) {x y : ℕ} → x ≤ y → IsOrdered n y t → IsOrdered n x t
IsOrdered-mono n (terminal v) h o = tt
IsOrdered-mono n (nonterminal z l r) h o = (omega arith, o.1, o.2, o.3)

-- A tree does not depend on a variable before its first.
pub eval-update :
    (n : ℕ) (t : Tree) {x : ℕ} (y : ℕ) (v : Bool) (b : ℕ → Bool)
    → IsOrdered n x t
    → y < x
    → eval t (update b y v) ≡ eval t b
eval-update n (terminal w) y v b o h = refl
eval-update n (nonterminal z l r) y v b o h = rw (
  update-ne b y z v (omega arith),
  eval-update n l y v b o.2 (omega arith),
  eval-update n r y v b o.3 (omega arith),
)

-- A path has at most as many nonterminals as there are variables.
pub height-le : (n : ℕ) (t : Tree) {x : ℕ} → x ≤ n → IsOrdered n x t → height t + x ≤ n
height-le n (terminal v) h o = omega arith
height-le n (nonterminal y l r) h o =
    omega (arith, o.0, height-le n l o.1 o.2, height-le n r o.1 o.3)
