-- ===== src/Load/Listed.antt =====
-- A file that has been saved can be loaded, and stands for the same tree.
use libcorkipset.Prelude.{
  ℕ, suc, ◌+◌, ◌-◌, ◌*◌, ◌^◌, ◌≤◌, ◌<◌, ◌≡◌, ◌≢◌, inl, inr, refl, sym, ap, ◌∙◌, subst, some, List,
  [], ◌∷◌, map, eq-cases, arith, length, get_elem?, get_elem?-some, lt-get_elem?,
}
use libcorkipset.Tree.{Tree, terminal, nonterminal}
use libcorkipset.Node.{NodeTable}
use libcorkipset.Cache.{NodeCache}
use libcorkipset.Cache.Graph.{Content, cell, Graph}
use libcorkipset.Cache.Graph.Repr.{Repr, at_terminal, at_nonterminal}
use libcorkipset.Cache.Invariant.{Invariant}
use libcorkipset.SerializedId.{ℤ, pos, negsuc, IsInt32}
use libcorkipset.Reachable.Path.{Reaches, at_root, to_low, to_high}
use libcorkipset.Save.Entry.{Entry}
use libcorkipset.Save.Places.{Final, Earlier, Written}
use libcorkipset.Save.Whole.{Listed}
use libcorkipset.Load.Entries.{Loadable, content_of, id_of, map-get_elem?}
use libcorkipset.Load.Small.{
  IsSmall, children-SmallAt, Reaches-SmallAt, Final-unique, refers-IsInt32,
}

module _ ⦃T : NodeTable⦄ {c : NodeCache} {g : Graph} {r : ℕ → ℕ} {free : List ℕ}
    (inv : Invariant c g r free) (root : ℕ) (order : List ℕ) (es : List Entry)
    (listed : Listed g root order es) where
  -- The node that an entry was written for.
  record Source (j : ℕ) (e : Entry) : Type 0 where
    index : ℕ
    place : get_elem? order j ≡ some index
    written : Written g order es j index
    same :
        e ≡ record { variable = written.content.variable; low = written.low; high = written.high }

  source : (j : ℕ) (e : Entry) → get_elem? es j ≡ some e → Source j e
  source j e at =
      let (i, place) =
        get_elem?-some order j (omega (arith, listed.lengths, lt-get_elem? es j at)) in
      let w = listed.entries j i place in
      let entry = w.entry in record { index = i; place = place; written = w; same = cc }

  same-Source : (i j : ℕ) (e : Entry) (s : Source i e) (s' : Source j e) → i ≡ j
  same-Source i j e s s' =
      let w = s.written in
      let w' = s'.written in
      let both = sym s.same ∙ s'.same in
      let var : w.content.variable ≡ w'.content.variable = ap (λ (f : Entry). f.variable) both in
      let low =
        Final-unique order w.content.low w'.content.low w.low w'.low
          (ap (λ (f : Entry). f.low) both) w.low_refers.0 w'.low_refers.0 in
      let high =
        Final-unique order w.content.high w'.content.high w.high w'.high
          (ap (λ (f : Entry). f.high) both) w.high_refers.0 w'.high_refers.0 in
      let alike : cell w.content 0 ≡ cell w'.content 0 =
        λ d. record { refcount = 0; variable = var d; low = low d; high = high d } in
      let one = (inv.held s.index w.content w.here).entry 0 in
      let two = (inv.held s'.index w'.content w'.here).entry 0 in
      let ids : s.index * 2 ≡ s'.index * 2 = cc in
      let index : s.index ≡ s'.index = omega arith in
      listed.once i j s.index s.place (s'.place ∙ ap some (sym index))

  -- The entries of a small tree can be loaded.
  pub listed-Loadable : (t : Tree) → Repr g root t → IsSmall t → length es ≤ 2 ^ 31 → Loadable es
  listed-Loadable t rep small few =
      let short : length order ≤ 2 ^ 31 = omega (arith, listed.lengths) in
      let node = λ (j : ℕ) (e : Entry) (s : Source j e).
        (let (u, ru, su) =
            Reaches-SmallAt g root t rep small (s.index * 2) (listed.reached j s.index s.place) in
          children-SmallAt g s.index s.written.content (s.index * 2) u refl s.written.here ru su) in
      record {
        few = few;
        variables = λ j e at.
            let s = source j e at in
            subst (λ x. x < 256) (sym (ap (λ (f : Entry). f.variable) s.same)) (node j e s).0;
        low_fits = λ j e at.
            let s = source j e at in
            subst (λ z. Earlier j z × IsInt32 z) (sym (ap (λ (f : Entry). f.low) s.same))
              (
                s.written.low_refers.1,
                refers-IsInt32 g order s.written.content.low s.written.low s.written.low_refers.0
                    (node j e s).1 short,
              );
        high_fits = λ j e at.
            let s = source j e at in
            subst (λ z. Earlier j z × IsInt32 z) (sym (ap (λ (f : Entry). f.high) s.same))
              (
                s.written.high_refers.1,
                refers-IsInt32 g order s.written.content.high s.written.high s.written.high_refers.0
                    (node j e s).2 short,
              );
        irredundant = λ j e at equal.
            let s = source j e at in
            let w = s.written in
            let low_high : w.low ≡ w.high =
              sym (ap (λ (f : Entry). f.low) s.same) ∙ equal ∙ ap (λ (f : Entry). f.high) s.same in
            inv.irredundant s.index w.content w.here (
              Final-unique order w.content.low w.content.high w.low w.high low_high w.low_refers.0
                w.high_refers.0);
        distinct = λ i j e at at'. same-Source i j e (source i e at) (source j e at');
      }

  -- The graph that a load builds from the entries.
  abbrev pub loaded_graph : Graph
  loaded_graph i = get_elem? (map content_of es) i

  -- A serialized id stands for the same tree as its node.
  pub Final-Repr :
      (id : ℕ) (s : ℤ) (u : Tree) → Final order id s → Repr g id u → Repr loaded_graph (id_of s) u
  Final-Repr id (pos v) (terminal w) odd (at_terminal odd') = at_terminal (omega arith)
  Final-Repr id (negsuc j) (terminal w) (i, even, at) (at_terminal odd) = absurd (omega arith)
  Final-Repr id (pos v) (nonterminal x l h) odd (at_nonterminal k even here var rl rh) =
      absurd (omega arith)
  Final-Repr id (negsuc j) (nonterminal x l h) (i, even, at)
        (at_nonterminal {i = i'} k even' here var rl rh) =
      let w = listed.entries j i at in
      let same : i ≡ i' = omega arith in
      let found = w.here in
      let alike : k ≡ w.content = cc in
      at_nonterminal
        (content_of (record { variable = w.content.variable; low = w.low; high = w.high })) refl
        (map-get_elem? es j (record { variable = w.content.variable; low = w.low; high = w.high })
          w.entry)
        (var ∙ ap (λ (m : Content). m.variable) alike)
        (Final-Repr w.content.low w.low l w.low_refers.0
          (subst (λ (m : Content). Repr g m.low l) alike rl))
        (Final-Repr w.content.high w.high h w.high_refers.0
          (subst (λ (m : Content). Repr g m.high h) alike rh))

  module _ (j0 i0 : ℕ) (even : root ≡ i0 * 2) (at0 : get_elem? order j0 ≡ some i0) where
    child_place :
        (i : ℕ) (id : ℕ) (s : ℤ) (p : ℕ)
        → id ≡ i * 2
        → Final order id s
        → Earlier p s
        → (j : ℕ) × (get_elem? order j ≡ some i) × (j < p)
    child_place i id (pos v) p e odd before = absurd (omega arith)
    child_place i id (negsuc m) p e (i', e', at) before =
        let same : i' ≡ i = omega arith in (m, at ∙ ap some same, before)

    -- What the root leads to was written before it.
    reached_before :
        (id : ℕ)
        → Reaches g root id
        → (i : ℕ) → id ≡ i * 2
        → (j : ℕ) × (get_elem? order j ≡ some i) × (j ≤ j0)
    reached_before id (at_root same) i e =
        let node : i0 ≡ i = omega arith in (j0, at0 ∙ ap some node, omega arith)
    reached_before id (to_low {i = h} k path here low) i e =
        let (p, at, le) = reached_before (h * 2) path h refl in
        let w = listed.entries p h at in
        let found = w.here in
        let alike : w.content ≡ k = cc in
        let (j, at', lt) =
          child_place i w.content.low w.low p (ap (λ (m : Content). m.low) alike ∙ sym low ∙ e)
            w.low_refers.0 w.low_refers.1 in
        (j, at', omega arith)
    reached_before id (to_high {i = h} k path here high) i e =
        let (p, at, le) = reached_before (h * 2) path h refl in
        let w = listed.entries p h at in
        let found = w.here in
        let alike : w.content ≡ k = cc in
        let (j, at', lt) =
          child_place i w.content.high w.high p (ap (λ (m : Content). m.high) alike ∙ sym high ∙ e)
            w.high_refers.0 w.high_refers.1 in
        (j, at', omega arith)

    -- So the root is the last.
    pub root-last : length es ≡ suc j0
    root-last =
        let lengths = listed.lengths in
        let below = lt-get_elem? order j0 at0 in
        let last = length order - 1 in
        let (i, at) = get_elem?-some order last (omega arith) in
        let (j, at', le) = reached_before (i * 2) (listed.reached last i at) i refl in
        let same = listed.once j last i at' at in omega arith

  terminal-Reaches : (v id i : ℕ) → root ≡ v * 2 + 1 → Reaches g root id → id ≢ i * 2
  terminal-Reaches v id i odd (at_root same) e = omega arith
  terminal-Reaches v id i odd (to_low {i = h} k path here low) e =
      terminal-Reaches v (h * 2) h odd path refl
  terminal-Reaches v id i odd (to_high {i = h} k path here high) e =
      terminal-Reaches v (h * 2) h odd path refl

  no_entries : (es' : List Entry) → length es' ≡ 0 → es' ≡ []
  no_entries [] e = refl
  no_entries (x ∷ es') e = absurd (omega arith)

  -- A terminal has no entries.
  pub terminal-entries : (v : ℕ) → root ≡ v * 2 + 1 → es ≡ []
  terminal-entries v odd = no_entries es (elim (eq-cases (length es) 0) [
    | inl none_left ↦ none_left
    | inr some_left ↦
        let (i, at) = get_elem?-some order 0 (omega (arith, listed.lengths)) in
        absurd (terminal-Reaches v (i * 2) i odd (listed.reached 0 i at) refl)
  ])
