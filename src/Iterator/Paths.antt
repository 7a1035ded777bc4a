-- ===== src/Iterator/Paths.antt =====
-- Partial assignments as functions, and the paths of a tree.
use libcorkipset.Prelude.{
  ℕ, suc, ◌≤◌, ◌≡◌, ◌∙◌, fun_ext, List, [], ◌∷◌, ◌++◌, arith, update, update-ne,
}
use libcorkipset.Tree.{Tree, terminal, nonterminal}
use libcorkipset.Assignment as Partial
use libcorkipset.Assignment.{
  Tribool, ipset_false, ipset_true, ipset_either, Assignment, same_tribool,
}
use libcorkipset.Assignment.Laws.{get-set, le→ltb}

-- The paths of a tree from left to right: the variables that are fixed beside those of `a`, and the
-- value at the end.
abbrev pub paths : (ℕ → Tribool) → Tree → List ((ℕ → Tribool) × ℕ)
paths a (terminal v) = (a, v) ∷ []
paths a (nonterminal x l h) = paths (update a x ipset_false) l ++ paths (update a x ipset_true) h

abbrev pub nothing_fixed : ℕ → Tribool
nothing_fixed j = ipset_either

abbrev pub FreeFrom : ℕ → (ℕ → Tribool) → Type 0
FreeFrom x a = (y : ℕ) → x ≤ y → a y ≡ ipset_either

pub update-FreeFrom :
    (a : ℕ → Tribool) (x y : ℕ) (v : Tribool)
    → x ≤ y
    → FreeFrom x a
    → FreeFrom (suc y) (update a y v)
update-FreeFrom a x y v le free z lt = update-ne a y z v (λ e. omega arith) ∙ free z (omega arith)

-- What an assignment fixes.
abbrev pub view : Assignment → ℕ → Tribool
view assignment j = Partial.get assignment j

pub view-set :
    (s : Assignment) (x : ℕ) (v : Tribool) → view (Partial.set s x v) ≡ update (view s) x v
view-set s x v = fun_ext (λ y. get-set s x y v)

pub view-new : view Partial.new ≡ nothing_fixed
unfolding Partial.get Partial.new
view-new = fun_ext (λ j. rw (le→ltb j 0 (omega arith)))

abbrev pub Leaves : Type 0
Leaves = List ((ℕ → Tribool) × ℕ)
