-- ===== src/Iterator/Walk.antt =====
-- The paths that the diagram iterator goes through, in order.
use libcorkipset.Prelude.{
  ℕ, zero, suc, ◌*◌, ◌≤◌, ◌<◌, ◌≡◌, ◌⊎◌, refl, sym, ap, ◌∙◌, subst, true, false, Option, none, some,
  List, [], ◌∷◌, ◌++◌, arith, length, inl, inr, update, update_self, update-ne, update-twice,
  update_there, if◌then◌else◌,
}
use mathlib.Core.List.{append_assoc, append-nil}
use libcorkipset.Tree.{Tree, terminal, nonterminal, IsOrdered, height}
use libcorkipset.Node.{NodeTable}
use libcorkipset.NodeId.{get_type, terminal_value}
use libcorkipset.Cache.{NodeCache, get_nonterminal}
use libcorkipset.Cache.Counting.{even-parts, odd-type}
use libcorkipset.Cache.Graph.{Content, cell, Graph, refs}
use libcorkipset.Cache.Graph.Repr.{Repr, at_terminal, at_nonterminal}
use libcorkipset.Cache.Invariant.{Invariant}
use libcorkipset.Bdd.Evaluate.{get_nonterminal-ok, odd-value}
use libcorkipset.Assignment as Partial
use libcorkipset.Assignment.{
  Tribool, ipset_false, ipset_true, ipset_either, Assignment, same_tribool,
}
use libcorkipset.Iterator.{BddIterator, add_node, iterate, backtrack, advance}
use libcorkipset.Iterator.Paths.{
  paths, nothing_fixed, FreeFrom, update-FreeFrom, view, view-set, view-new, Leaves,
}

module _ ⦃T : NodeTable⦄ where
  abbrev pub bind : {A B : Type 0} → Option A → (A → Option B) → Option B
  bind none f = none
  bind (some x) f = f x

  -- What a client sees that advances an iterator until it has finished, in at most so many rounds.
  pub visits : (rounds fuel : ℕ) → NodeCache → BddIterator → Option (List (Assignment × ℕ))
  visits zero fuel cache iterator = none
  visits (suc rounds) fuel cache iterator =
      if iterator.finished
      then some []
      else bind (advance fuel cache iterator) (λ next.
        bind (visits rounds fuel cache next)
          (λ seen. some ((iterator.assignment, iterator.value) ∷ seen)))

  pub walk : (rounds fuel : ℕ) → NodeCache → ℕ → Option (List (Assignment × ℕ))
  walk rounds fuel cache root = bind (iterate fuel cache root) (visits rounds fuel cache)

-- The leaves that have been seen, as functions.
abbrev pub viewed : List (Assignment × ℕ) → Leaves
viewed [] = []
viewed ((s, v) ∷ seen) = (view s, v) ∷ viewed seen

module _ ⦃T : NodeTable⦄ {c : NodeCache} {g : Graph} {r : ℕ → ℕ} {free : List ℕ}
    (inv : Invariant c g r free) (top fuel : ℕ) where
  -- What is left to be visited when the subtree above the stack is done.
  pub data Pending : List ℕ → (ℕ → Tribool) → Leaves → Type 0 where
    at_end : {a : ℕ → Tribool} → Pending [] a []
    on_high :
        {id i : ℕ} {stack : List ℕ} {a : ℕ → Tribool} {ls : Leaves} (k : Content)
        → id ≡ i * 2
        → g i ≡ some k
        → a k.variable ≡ ipset_true
        → Pending stack (update a k.variable ipset_either) ls
        → Pending (id ∷ stack) a ls
    on_low :
        {id i : ℕ} {stack : List ℕ} {a : ℕ → Tribool} {ls : Leaves} (k : Content) (h : Tree)
        → id ≡ i * 2
        → g i ≡ some k
        → a k.variable ≡ ipset_false
        → Repr g k.high h
        → IsOrdered top (suc k.variable) h
        → height h < fuel
        → FreeFrom (suc k.variable) a
        → Pending stack (update a k.variable ipset_either) ls
        → Pending (id ∷ stack) a (paths (update a k.variable ipset_true) h ++ ls)

  -- The iterator is at the first of the leaves.
  pub record At (it : BddIterator) (ls : Leaves) : Type 0 where
    pub running : it.finished ≡ false
    pub rest : Leaves
    pub first : ls ≡ (view it.assignment, it.value) ∷ rest
    pub pending : Pending it.stack (view it.assignment) rest

  unfoldable pub Reached : Option BddIterator → Leaves → Type 0
  Reached res ls = (it : BddIterator) × (res ≡ some it) × At it ls

  pub add_node-Reached :
      (n id x : ℕ) (t : Tree) (it : BddIterator) (a : ℕ → Tribool) (ls : Leaves)
      → height t < n
      → n ≤ fuel
      → Repr g id t
      → IsOrdered top x t
      → it.finished ≡ false
      → view it.assignment ≡ a
      → FreeFrom x a
      → Pending it.stack a ls
      → Reached (add_node n c it id) (paths a t ++ ls)
  unfolding add_node Reached
  add_node-Reached zero id x t it a ls lt le rep ord running same free p = absurd (omega arith)
  add_node-Reached (suc n) id x (terminal v) it a ls lt le (at_terminal odd) ord running same free
        p =
      let type : get_type id ≡ 1 = rw odd (odd-type v) in
      let value : terminal_value id ≡ v = rw odd (odd-value v) in
      (
        record it { value = v },
        rw (type, value, add_node),
        record {
          running = running;
          rest = ls;
          first = ap (λ b. (b, v) ∷ ls) (sym same);
          pending = subst (λ b. Pending it.stack b ls) (sym same) p;
        },
      )
  add_node-Reached (suc n) id x (nonterminal y l h) it a ls lt le
        (at_nonterminal {i} k even here var rl rh) ord running same free p =
      let type : get_type id ≡ 0 = rw even ((even-parts i).0) in
      let read : get_nonterminal c id ≡ some (cell k (refs c.largest_index g r i)) =
        rw even (get_nonterminal-ok i k inv here) in
      let a1 = update a k.variable ipset_false in
      let it1 : BddIterator = record it {
        stack = id ∷ it.stack;
        assignment = Partial.set it.assignment k.variable ipset_false;
      } in
      let later : x ≤ k.variable = omega (arith, ord.0, var) in
      let free1 = update-FreeFrom a x k.variable ipset_false later free in
      let back : update a1 k.variable ipset_either ≡ a =
        update-twice a k.variable ipset_false ipset_either
        ∙ update_there a k.variable ipset_either (free k.variable later) in
      let pending1 =
        on_low k h even here (update_self a k.variable ipset_false) rh
          (subst (λ z. IsOrdered top (suc z) h) var ord.3) (omega arith) free1
          (subst (λ b. Pending it.stack b ls) (sym back) p) in
      let (it2, run, at) =
        add_node-Reached n k.low (suc k.variable) l it1 a1
          (paths (update a1 k.variable ipset_true) h ++ ls) (omega arith) (omega arith) rl
          (subst (λ z. IsOrdered top (suc z) l) var ord.2) running
          (view-set it.assignment k.variable ipset_false
            ∙ ap (λ b. update b k.variable ipset_false) same)
          free1 pending1 in
      let leaves : paths a1 l ++ (paths (update a1 k.variable ipset_true) h ++ ls)
          ≡ paths a (nonterminal y l h) ++ ls =
        rw (update-twice a k.variable ipset_false ipset_true, var)
          (sym (append_assoc (paths a1 l) (paths (update a k.variable ipset_true) h) ls)) in
      (it2, rw (type, read, add_node) run, subst (At it2) leaves at)

  -- After an advance the iterator is at the next leaf, or has finished.
  abbrev pub Next : Option BddIterator → Leaves → Type 0
  Next res [] = (it : BddIterator) × (res ≡ some it) × (it.finished ≡ true)
  Next res (l ∷ ls) = Reached res (l ∷ ls)

  Reached-Next : (res : Option BddIterator) (ls : Leaves) → Reached res ls → Next res ls
  unfolding Reached
  Reached-Next res [] (it, run, at) = absurd (let gone = at.first in cc)
  Reached-Next res (l ∷ ls) h = h

  backtrack-Next :
      (stack : List ℕ) (s : Assignment) (value : ℕ) (a : ℕ → Tribool) (ls : Leaves)
      → view s ≡ a
      → Pending stack a ls
      → Next (backtrack fuel c stack s value) ls
  unfolding backtrack
  backtrack-Next [] s value a [] same at_end = (_, refl, refl)
  backtrack-Next [] s value a (l ∷ ls) same p = elim p [ ]
  backtrack-Next (id ∷ stack) s value a ls same (on_high {i} k even here on p) =
      let read : get_nonterminal c id ≡ some (cell k (refs c.largest_index g r i)) =
        rw even (get_nonterminal-ok i k inv here) in
      let now : Partial.get s k.variable ≡ ipset_true = ap (λ b. b k.variable) same ∙ on in
      subst (λ o. Next o ls) (sym (rw (read, now, backtrack)))
        (backtrack-Next stack (Partial.set s k.variable ipset_either) value
          (update a k.variable ipset_either) ls
          (view-set s k.variable ipset_either ∙ ap (λ b. update b k.variable ipset_either) same) p)
  backtrack-Next (id ∷ stack) s value a ls same
        (on_low {i} {ls = rest} k h even here off rh ord short free p) =
      let read : get_nonterminal c id ≡ some (cell k (refs c.largest_index g r i)) =
        rw even (get_nonterminal-ok i k inv here) in
      let now : Partial.get s k.variable ≡ ipset_false = ap (λ b. b k.variable) same ∙ off in
      let it : BddIterator = record {
        finished = false;
        stack = id ∷ stack;
        assignment = Partial.set s k.variable ipset_true;
        value = value;
      } in
      let a1 = update a k.variable ipset_true in
      let pending = on_high k even here (update_self a k.variable ipset_true) (
        subst (λ b. Pending stack b rest) (sym (update-twice a k.variable ipset_true ipset_either))
          p) in
      let next =
        add_node-Reached fuel k.high (suc k.variable) h it a1 rest short (omega arith) rh ord refl
          (view-set s k.variable ipset_true ∙ ap (λ b. update b k.variable ipset_true) same)
          (λ y lt. update-ne a k.variable y ipset_true (λ e. omega arith) ∙ free y lt) pending in
      subst (λ o. Next o (paths a1 h ++ rest)) (sym (rw (read, now, backtrack)))
        (Reached-Next (add_node fuel c it k.high) (paths a1 h ++ rest) next)

  Seen : Option (List (Assignment × ℕ)) → Leaves → Type 0
  Seen res ls = (seen : List (Assignment × ℕ)) × (res ≡ some seen) × (viewed seen ≡ ls)

  pub advance-Next :
      (it : BddIterator) (a : ℕ → Tribool) (rest : Leaves)
      → it.finished ≡ false
      → Pending it.stack (view it.assignment) rest
      → Next (advance fuel c it) rest
  unfolding advance
  advance-Next it a rest running p =
      subst (λ o. Next o rest) (sym (rw running))
        (backtrack-Next it.stack it.assignment it.value (view it.assignment) rest refl p)

  -- An iterator has finished, or is at a leaf.
  abbrev pub Stands : BddIterator → Leaves → Type 0
  Stands it ls = ((it.finished ≡ true) × (ls ≡ [])) ⊎ At it ls

  pub Next-Stands :
      (res : Option BddIterator) (ls : Leaves)
      → Next res ls
      → (it : BddIterator) × (res ≡ some it) × Stands it ls
  unfolding Reached
  Next-Stands res [] (it, run, done) = (it, run, inl (done, refl))
  Next-Stands res (l ∷ ls) (it, run, at) = (it, run, inr at)

  visits-step :
      (rounds : ℕ) (it next : BddIterator) (seen : List (Assignment × ℕ))
      → it.finished ≡ false
      → advance fuel c it ≡ some next
      → visits rounds fuel c next ≡ some seen
      → visits (suc rounds) fuel c it ≡ some ((it.assignment, it.value) ∷ seen)
  unfolding visits
  visits-step rounds it next seen running step later = rw (step, later, running)

  visits-Seen :
      (rounds : ℕ) (it : BddIterator) (ls : Leaves)
      → Stands it ls
      → length ls < rounds
      → Seen (visits rounds fuel c it) ls
  unfolding Seen visits
  visits-Seen zero it ls at lt = absurd (omega arith)
  visits-Seen (suc rounds) it ls (inl (done, none_left)) lt = ([], rw (done, visits), sym none_left)
  visits-Seen (suc rounds) it ls (inr at) lt =
      let (next, step, stands) =
        Next-Stands (advance fuel c it) at.rest
          (advance-Next it (view it.assignment) at.rest at.running at.pending) in
      let (seen, later, same) =
        visits-Seen rounds next at.rest stands (omega (arith, ap length at.first)) in
      (
        (it.assignment, it.value) ∷ seen,
        visits-step rounds it next seen at.running step later,
        ap (λ ys. (view it.assignment, it.value) ∷ ys) same ∙ sym at.first,
      )

  -- For an ordered diagram of a well-formed cache, with a depth above its height and more rounds
  -- than it has paths, a client that starts with `iterate` and calls `advance` until the iterator
  -- has finished sees exactly the paths of the diagram's tree, each once, from left to right, low
  -- before high: which variables are fixed and how, and the value.
  pub walk-paths :
      (rounds root : ℕ) (t : Tree)
      → Repr g root t
      → IsOrdered top 0 t
      → height t < fuel
      → length (paths nothing_fixed t) < rounds
      → (seen : List (Assignment × ℕ)) × (walk rounds fuel c root ≡ some seen)
        × (viewed seen ≡ paths nothing_fixed t)
  unfolding walk iterate Seen Reached
  walk-paths rounds root t rep ord short enough =
      let start : BddIterator = record {
        finished = false;
        stack = [];
        assignment = Partial.new;
        value = 0;
      } in
      let (it, run, at) =
        add_node-Reached fuel root 0 t start nothing_fixed [] short (omega arith) rep ord refl
          view-new (λ y le. refl) at_end in
      let (seen, all, same) =
        visits-Seen rounds it (paths nothing_fixed t ++ []) (inr at)
          (omega (arith, ap length (append-nil (paths nothing_fixed t)))) in
      (seen, rw run all, same ∙ append-nil (paths nothing_fixed t))
