-- ===== src/Save/Visit.antt =====
-- `save_visit_node` writes every nonterminal under a node once, after its children.
use libcorkipset.Prelude.{
  ℕ, zero, suc, ◌+◌, ◌*◌, ◌≤◌, ◌<◌, ◌≡◌, ◌⊎◌, inl, inr, refl, sym, ap, ◌∙◌, subst, Option, none,
  some, List, [], ◌∷◌, ◌++◌, arith, eq-cases, Option-cases, length, get_elem?,
  get_elem?-append_last,
}
use mathlib.Core.List.{append_assoc, append-nil}
use libcorkipset.Tree.{Tree, terminal, nonterminal, IsOrdered, height}
use libcorkipset.Node.{NodeTable}
use libcorkipset.NodeId.{get_type, terminal_value}
use libcorkipset.Cache.{NodeCache, get_nonterminal}
use libcorkipset.Cache.Counting.{even-parts, odd-type}
use libcorkipset.Cache.Graph.{Content, cell, Graph, refs}
use libcorkipset.Cache.Graph.Repr.{Repr, at_terminal, at_nonterminal}
use libcorkipset.Cache.Invariant.{Invariant}
use libcorkipset.Bdd.Evaluate.{get_nonterminal-ok, odd-value}
use libcorkipset.Pointers.{PointerTables}
use libcorkipset.SerializedId.{ℤ, pos}
use libcorkipset.Stream.{Consumer, Accepts}
use libcorkipset.Reachable.Path.{Reaches, to_low, to_high}
use libcorkipset.Save.{
  SaveData, Result, ok, save_visit_node, save_terminal, write_terminal_v1, writer_v1,
}
use libcorkipset.Save.Entry.{Entry}
use libcorkipset.Save.Run.{after_nonterminal, save_nonterminal-ok}
use libcorkipset.Save.Progress.{
  entry_of, Progress, with_entry, entry_of_self, entry_of-ne, start-Progress, terminal-Progress,
  finish-Progress,
}
use libcorkipset.Save.Places.{Final, Final-append, is_placed}

module _ ⦃T : NodeTable⦄ (P : PointerTables) {C : Consumer} (acc : Accepts C) {c : NodeCache}
    {g : Graph} {r : ℕ → ℕ} {free : List ℕ} (inv : Invariant c g r free) (root rounds : ℕ)
    (base : List ℕ) where
  abbrev pub visit : ℕ → ℕ → SaveData P C → Result P C ℤ
  visit fuel id st = save_visit_node P C fuel (writer_v1 P C rounds) c id st

  abbrev pub look : SaveData P C → ℕ → Option ℤ
  look st id = entry_of P acc g c.largest_index root base st id

  abbrev pub put : SaveData P C → ℕ → ℤ → SaveData P C
  put st id s = with_entry P acc g c.largest_index root base st id s

  abbrev pub Going : (ℕ → Type 0) → List ℕ → List Entry → SaveData P C → Type 0
  Going pending order es st = Progress P acc g c.largest_index root base pending order es st

  visit-known :
      (fuel id : ℕ) (st : SaveData P C) (s : ℤ)
      → look st id ≡ some s
      → visit (suc fuel) id st ≡ ok s st
  unfolding save_visit_node
  visit-known fuel id st s e = rw (e, save_visit_node)

  visit-terminal :
      (fuel id v : ℕ) (st : SaveData P C)
      → look st id ≡ none
      → id ≡ v * 2 + 1
      → visit (suc fuel) id st ≡ ok (pos v) (put (put st id (pos 0)) id (pos v))
  unfolding save_visit_node save_terminal writer_v1 write_terminal_v1
  visit-terminal fuel id v st e odd =
      let type : get_type id ≡ 1 = rw odd (odd-type v) in
      let value : terminal_value id ≡ v = rw odd (odd-value v) in
      rw (e, type, value, save_visit_node)

  visit-nonterminal :
      (fuel id i : ℕ) (k : Content) (st st1 st2 : SaveData P C) (low high : ℤ)
      → look st id ≡ none
      → id ≡ i * 2
      → g i ≡ some k
      → visit fuel k.low (put st id (pos 0)) ≡ ok low st1
      → visit fuel k.high st1 ≡ ok high st2
      → visit (suc fuel) id st
        ≡ ok st2.next_serialized_id (
            after_nonterminal P acc id
              (record { variable = k.variable; low = low; high = high })
              st2)
  unfolding save_visit_node
  visit-nonterminal fuel id i k st st1 st2 low high e even here run_low run_high =
      let type : get_type id ≡ 0 = rw even ((even-parts i).0) in
      let read : get_nonterminal c id ≡ some (cell k (refs c.largest_index g r i)) =
        rw even (get_nonterminal-ok i k inv here) in
      rw (e, type, read, save_visit_node)
        (rw (run_low, run_high)
          (save_nonterminal-ok P acc rounds id
            (record { variable = k.variable; low = low; high = high }) st2))

  -- The pending nodes come before the variable `x`.
  abbrev pub Before : ℕ → (ℕ → Type 0) → Type 0
  Before x pending =
      (id : ℕ)
      → pending id
      → (i : ℕ) × (k : Content) × (id ≡ i * 2) × (g i ≡ some k) × (k.variable < x)

  not_pending :
      (top x : ℕ) {id : ℕ} (t : Tree) (pending : ℕ → Type 0)
      → Before x pending
      → Repr g id t
      → IsOrdered top x t
      → ¬ pending id
  not_pending top x (terminal v) pending before (at_terminal odd) ord waits =
      let (i, k, even, here, lt) = before _ waits in omega arith
  not_pending top x (nonterminal y l h) pending before (at_nonterminal {i} k even here var rl rh)
        ord waits =
      let (i', k', even', here', lt) = before _ waits in
      let same : i ≡ i' = omega arith in
      let alike : k ≡ k' = cc in
      let var' : k.variable ≡ k'.variable = ap (λ (m : Content). m.variable) alike in
      omega (arith, ord.0)

  -- What a visit leaves.
  pub record Saved (pending : ℕ → Type 0) (order : List ℕ) (st : SaveData P C) (id : ℕ)
      (res : Result P C ℤ) : Type 0 where
    pub serialized : ℤ
    pub st' : SaveData P C
    pub more : List ℕ
    pub es' : List Entry
    pub run : res ≡ ok serialized st'
    pub progress : Progress P acc g c.largest_index root base pending (order ++ more) es' st'
    pub final : Final (order ++ more) id serialized
    pub recorded : look st' id ≡ some serialized
    pub kept : (id' : ℕ) (s : ℤ) → look st id' ≡ some s → look st' id' ≡ some s

  known-Saved :
      (top fuel id x : ℕ) (t : Tree) (pending : ℕ → Type 0) (order : List ℕ) (es : List Entry)
      (st : SaveData P C) (s : ℤ)
      → Repr g id t
      → IsOrdered top x t
      → Before x pending
      → Going pending order es st
      → look st id ≡ some s
      → Saved pending order st id (visit (suc fuel) id st)
  known-Saved top fuel id x t pending order es st s rep ord before p e = record {
    serialized = s;
    st' = st;
    more = [];
    es' = es;
    run = visit-known fuel id st s e;
    progress = rw (append-nil order) p;
    final = rw (append-nil order) (elim (p.keys id s e) [
      | inl final ↦ final
      | inr waits ↦ absurd (not_pending top x t pending before rep ord waits)
    ]);
    recorded = e;
    kept = λ id' s' e'. e';
  }

  -- What was recorded before a node that is new stays.
  kept_put :
      (st : SaveData P C) (id : ℕ) (s : ℤ)
      → look st id ≡ none
      → (id' : ℕ) (s' : ℤ) → look st id' ≡ some s'
      → look (put st id s) id' ≡ some s'
  kept_put st id s e id' s' e' = elim (eq-cases id id') [
    | inl same ↦ absurd (let gone = subst (λ m. look st m ≡ none) same e in cc)
    | inr ne ↦ entry_of-ne P acc g c.largest_index root base st id id' s ne ∙ e'
  ]

  new_terminal-Saved :
      (fuel id v : ℕ) (pending : ℕ → Type 0) (order : List ℕ) (es : List Entry) (st : SaveData P C)
      → id ≡ v * 2 + 1
      → Reaches g root id
      → Going pending order es st
      → look st id ≡ none
      → Saved pending order st id (visit (suc fuel) id st)
  new_terminal-Saved fuel id v pending order es st odd path p e =
      let p1 = start-Progress P acc g c.largest_index root base id p path (ap is_placed e) in
      let st1 = put st id (pos 0) in
      let seen : look st1 id ≡ some (pos 0) =
        entry_of_self P acc g c.largest_index root base st id (pos 0) in
      record {
        serialized = pos v;
        st' = put st1 id (pos v);
        more = [];
        es' = es;
        run = visit-terminal fuel id v st e odd;
        progress = rw (append-nil order) (
            terminal-Progress P acc g c.largest_index root base id v p1 path (ap is_placed seen)
              odd);
        final = odd;
        recorded = entry_of_self P acc g c.largest_index root base st1 id (pos v);
        kept = λ id' s' e'. elim (eq-cases id id') [
          | inl same ↦ absurd (let gone = subst (λ m. look st m ≡ none) same e in cc)
          | inr ne ↦
              entry_of-ne P acc g c.largest_index root base st1 id id' (pos v) ne
              ∙ kept_put st id (pos 0) e id' s' e'
        ];
      }

  -- While the children of a node are saved, the node is pending.
  abbrev WithPending : (ℕ → Type 0) → ℕ → ℕ → Type 0
  WithPending pending id id' = pending id' ⊎ (id' ≡ id)

  Before-WithPending :
      (x id i : ℕ) (k : Content) (pending : ℕ → Type 0)
      → id ≡ i * 2
      → g i ≡ some k
      → x ≤ k.variable
      → Before x pending
      → Before (suc k.variable) (WithPending pending id)
  Before-WithPending x id i k pending even here le before id' (inl waits) =
      let (i', k', even', here', lt) = before id' waits in (i', k', even', here', omega arith)
  Before-WithPending x id i k pending even here le before id' (inr same) =
      (i, k, same ∙ even, here, omega arith)

  -- A node after its two children.
  join-Saved :
      (fuel id i : ℕ) (k : Content) (pending : ℕ → Type 0) (order : List ℕ) (es : List Entry)
      (st : SaveData P C)
      → id ≡ i * 2
      → g i ≡ some k
      → Reaches g root id
      → look st id ≡ none
      → (low : Saved
          (WithPending pending id)
          order
          (put st id (pos 0))
          k.low
          (visit fuel k.low (put st id (pos 0))))
      → (high : Saved
          (WithPending pending id)
          (order ++ low.more)
          low.st'
          k.high
          (visit fuel k.high low.st'))
      → Saved pending order st id (visit (suc fuel) id st)
  join-Saved fuel id i k pending order es st even here path e low high =
      let seen =
        high.kept id (pos 0)
          (low.kept id (pos 0) (entry_of_self P acc g c.largest_index root base st id (pos 0))) in
      let entry : Entry = record {
        variable = k.variable;
        low = low.serialized;
        high = high.serialized;
      } in
      let all = order ++ (low.more ++ (high.more ++ i ∷ [])) in
      let place = (order ++ low.more) ++ high.more in
      let same : place ++ i ∷ [] ≡ all =
        append_assoc (order ++ low.more) high.more (i ∷ [])
        ∙ append_assoc order low.more (high.more ++ i ∷ []) in
      let low_final = Final-append (order ++ low.more) high.more k.low low.serialized low.final in
      let done =
        finish-Progress P acc g c.largest_index root base id i k low.serialized high.serialized
          high.progress even (inv.held i k here).below here path (ap is_placed seen) low_final
          high.final in
      record {
        serialized = high.st'.next_serialized_id;
        st' = after_nonterminal P acc id entry high.st';
        more = low.more ++ (high.more ++ i ∷ []);
        es' = high.es' ++ entry ∷ [];
        run =
            visit-nonterminal fuel id i k st low.st' high.st' low.serialized high.serialized e even
              here low.run high.run;
        progress =
            subst
              (λ o.
                Going pending o (high.es' ++ entry ∷ [])
                  (after_nonterminal P acc id entry high.st'))
              same done;
        final = subst (Final all id) (sym high.progress.next) (
          i,
          even,
          ap (λ o. get_elem? o (length place)) (sym same)
              ∙ get_elem?-append_last place i (length place) refl,
        );
        recorded =
            entry_of_self P acc g c.largest_index root base high.st' id high.st'.next_serialized_id;
        kept = λ id' s' e'. elim (eq-cases id id') [
          | inl same_id ↦ absurd (let gone = subst (λ m. look st m ≡ none) same_id e in cc)
          | inr ne ↦
              entry_of-ne P acc g c.largest_index root base high.st' id id'
                high.st'.next_serialized_id ne
              ∙ high.kept id' s' (low.kept id' s' (kept_put st id (pos 0) e id' s' e'))
        ];
      }

  pub visit-ok :
      (top fuel id x : ℕ) (t : Tree) (pending : ℕ → Type 0) (order : List ℕ) (es : List Entry)
      (st : SaveData P C)
      → height t < fuel
      → Repr g id t
      → IsOrdered top x t
      → Before x pending
      → Reaches g root id
      → Going pending order es st
      → Saved pending order st id (visit fuel id st)
  visit-ok top zero id x t pending order es st lt rep ord before path p = absurd (omega arith)
  visit-ok top (suc fuel) id x (terminal v) pending order es st lt (at_terminal odd) ord before path
        p =
      elim (Option-cases (look st id)) [
        | inr (s, e) ↦
            known-Saved top fuel id x (terminal v) pending order es st s (at_terminal odd) ord
              before p e
        | inl e ↦ new_terminal-Saved fuel id v pending order es st odd path p e
      ]
  visit-ok top (suc fuel) id x (nonterminal y l h) pending order es st lt
        (at_nonterminal {i} k even here var rl rh) ord before path p =
      elim (Option-cases (look st id)) [
        | inr (s, e) ↦
            known-Saved top fuel id x (nonterminal y l h) pending order es st s
              (at_nonterminal k even here var rl rh) ord before p e
        | inl e ↦
            let path' : Reaches g root (i * 2) = subst (Reaches g root) even path in
            let ahead =
              Before-WithPending x id i k pending even here (omega (arith, ord.0)) before in
            let p1 = start-Progress P acc g c.largest_index root base id p path (ap is_placed e) in
            let low =
              visit-ok top fuel k.low (suc k.variable) l (WithPending pending id) order es
                (put st id (pos 0)) (omega arith) rl
                (subst (λ z. IsOrdered top (suc z) l) var ord.2) ahead (to_low k path' here refl)
                p1 in
            let high =
              visit-ok top fuel k.high (suc k.variable) h (WithPending pending id)
                (order ++ low.more) low.es' low.st' (omega arith) rh
                (subst (λ z. IsOrdered top (suc z) h) var ord.3) ahead (to_high k path' here refl)
                low.progress in
            join-Saved fuel id i k pending order es st even here path e low high
      ]
