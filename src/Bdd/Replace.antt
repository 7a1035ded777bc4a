-- ===== src/Bdd/Replace.antt =====
-- A diagram that one owner holds, and its replacement by the result of an insertion.
use libcorkipset.Prelude.{
  ℕ, ◌+◌, ◌*◌, ◌^◌, ◌≤◌, ◌<◌, ◌≡◌, ◌↔◌, ap, Bool, true, List, arith, ◌==◌, eq→==, ==→eq, Returns,
  returns,
}
use libcorkipset.Tree.{Tree, eval, IsOrdered, IsReduced, SameFunction, Inserted}
use libcorkipset.Tree.Order.{height-le}
use libcorkipset.Tree.Canonical.{canonical}
use libcorkipset.Node.{NodeTable}
use libcorkipset.NodeId.{word}
use libcorkipset.Cache.{NodeCache}
use libcorkipset.Cache.Graph.{Graph, hold}
use libcorkipset.Cache.Graph.Count.{refs-le, bit-le}
use libcorkipset.Cache.Graph.Repr.{Repr, Repr-Extends, Repr-unique}
use libcorkipset.Cache.Invariant.{Invariant, Settled}
use libcorkipset.Cache.Nonterminal.{Ready, Invariant-congr}
use libcorkipset.Cache.Step.{bind}
use libcorkipset.Cache.Release.{Released-Settled}
use libcorkipset.Cache.Release.Detach.{Repr-kept, held-known}
use libcorkipset.Cache.Release.Decref.{decref-ok}
use libcorkipset.Bdd.{replace}
use libcorkipset.Bdd.Insert.{insert-ok}
use libcorkipset.Bdd.Evaluate.{Repr-injective, Repr-IsReduced}

-- No reference but the owner's.
abbrev pub no_refs : ℕ → ℕ
no_refs i = 0

module _ ⦃T : NodeTable⦄ where
  -- A cache in which the only reference from outside is to `bdd`, which stands for `tree` over the
  -- variables below `top`.
  pub record Owns (top : ℕ) (c : NodeCache) (bdd : ℕ) (tree : Tree) : Type 0 where
    pub graph : Graph
    pub free : List ℕ
    pub inv : Invariant c graph (hold bdd no_refs) free
    pub settled : Settled c graph
    pub repr : Repr graph bdd tree
    pub ordered : IsOrdered top 0 tree

  pub Owns-IsReduced :
      {top : ℕ} {c : NodeCache} {bdd : ℕ} {tree : Tree} → Owns top c bdd tree → IsReduced tree
  Owns-IsReduced {tree} o = Repr-IsReduced o.inv tree o.repr

  -- The new diagram, and whether its id is the old one's.
  abbrev pub Replaced : ℕ → ℕ → (ℕ → Bool) → ℕ → NodeCache → ℕ → Tree → ℕ → NodeCache → Type 0
  Replaced top n a v c old t new c' =
      (t' : Tree) × Owns top c' new t'
      × Inserted 0 n a v t t'
      × (((new == old) ≡ true) ↔ SameFunction t' t)
      × (c'.largest_index ≤ c.largest_index + (2 * n + 1))

  -- With an order of `top` variables, of which the insertion sets at most the first `n`, `n` below
  -- 2^32, a value below 2^31, fuel above `top` and room for `2 * n + 2` indices, the owner of a
  -- diagram can replace it by the result of an insertion: the only reference that is held then is
  -- to the new diagram, which has the value wherever the assignment agrees on the first `n`
  -- variables and is the old one elsewhere, the two ids are equal exactly if the two diagrams
  -- denote the same function, and at most `2 * n + 1` indices are new.
  pub replace-ok :
      (top n v fuel : ℕ) (a : ℕ → Bool) {c : NodeCache} {old : ℕ} {t : Tree}
      → n ≤ top
      → n < word
      → v < 2 ^ 31
      → top < fuel
      → c.largest_index + (2 * n + 2) ≤ 2 ^ 31
      → Owns top c old t
      → Returns (Replaced top n a v c old t) (replace fuel old a n v c)
  unfolding replace
  replace-ok top n v fuel a {c} {old} {t} n_le n_lt v_lt fuel_lt room o =
      let ready : Ready (2 * n + 1) c o.graph (hold old no_refs) o.free = record {
        inv = o.inv;
        settled = o.settled;
        indices = omega arith;
        counts = λ i.
            omega
              (arith, refs-le c.largest_index o.graph (hold old no_refs) i, bit-le (old == i * 2));
      } in
      bind _
        (insert-ok a top v n n_le v_lt n_lt fuel (omega arith) c o.graph (hold old no_refs) o.free
          old t ready o.repr o.ordered)
        λ new c1 (out, (t', rep, ord, ins)).
          let inv1 =
            Invariant-congr {r' = hold old (hold new no_refs)} (λ i. omega arith) out.inv in
          let old_rep = Repr-Extends out.extends o.repr in
          let low = height-le top t {x = 0} (omega arith) o.ordered in
          bind _ (decref-ok fuel t (hold new no_refs) (omega arith) inv1 old_rep) λ u c2 gone.
            returns (
              t',
              record {
                graph = gone.graph;
                free = gone.free';
                inv = gone.inv;
                settled = Released-Settled gone out.settled;
                repr = Repr-kept gone.inv gone.shrinks t' rep (held-known no_refs new gone.inv);
                ordered = ord;
              },
              ins,
              (
                (λ e b. ap (λ s. eval s b) (Repr-unique old (==→eq new old e) rep old_rep)),
                (λ same.
                    let alike =
                      canonical top 0 t' t ord o.ordered (Repr-IsReduced out.inv t' rep)
                        (Repr-IsReduced out.inv t old_rep) same in
                    eq→== new old (Repr-injective out.inv t (rw alike at rep) old_rep)),
              ),
              omega (arith, gone.largest, out.grown),
            )
