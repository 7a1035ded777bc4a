-- ===== src/Tree.antt =====
-- What a binary decision diagram stands for: the abstract view of the nodes of
-- src/libipset/bdd/basics.c. A tree has no node ids, no sharing and no reference counts.
pub mod Order
pub mod Canonical
use Prim.Native.Nat.{max}
use libcorkipset.Prelude.{
  ℕ, zero, suc, ◌+◌, ◌≤◌, ◌<◌, ◌≡◌, ◌≢◌, Bool, true, false, not, ◌&&◌, if◌then◌else◌,
}

pub data Tree : Type 0 where
  terminal : ℕ → Tree
  nonterminal : ℕ → Tree → Tree → Tree

-- The value of the function that a tree denotes: low for false, high for true.
abbrev pub eval : Tree → (ℕ → Bool) → ℕ
eval (terminal v) b = v
eval (nonterminal x l h) b = if b x then eval h b else eval l b

-- Variables are at least `x` and below `n`, and grow from the root to the leaves.
abbrev pub IsOrdered : ℕ → ℕ → Tree → Type 0
IsOrdered n x (terminal v) = Unit {0}
IsOrdered n x (nonterminal y l h) =
    (x ≤ y) × (y < n) × IsOrdered n (suc y) l × IsOrdered n (suc y) h

-- No nonterminal is redundant.
abbrev pub IsReduced : Tree → Type 0
IsReduced (terminal v) = Unit {0}
IsReduced (nonterminal y l h) = (l ≢ h) × IsReduced l × IsReduced h

-- Two trees denote the same function.
abbrev pub SameFunction : Tree → Tree → Type 0
SameFunction t u = (b : ℕ → Bool) → eval t b ≡ eval u b

-- The number of nonterminals on the longest path.
abbrev pub height : Tree → ℕ
height (terminal v) = 0
height (nonterminal x l h) = suc (max (height l) (height h))

abbrev pub size : Tree → ℕ
size (terminal v) = 0
size (nonterminal x l h) = suc (size l + size h)

abbrev pub same_bit : Bool → Bool → Bool
same_bit true b = b
same_bit false b = not b

-- Whether two assignments agree on the `m` variables from `x` on.
abbrev pub agrees : ℕ → ℕ → (ℕ → Bool) → (ℕ → Bool) → Bool
agrees x zero a b = true
agrees x (suc m) a b = same_bit (a x) (b x) && agrees (suc x) m a b

-- `t'` is `t` with the value `v` at every assignment that agrees with `a` on the `m` variables
-- from `x` on.
abbrev pub Inserted : ℕ → ℕ → (ℕ → Bool) → ℕ → Tree → Tree → Type 0
Inserted x m a v t t' = (b : ℕ → Bool) → eval t' b ≡ (if agrees x m a b then v else eval t b)
