-- ===== src/Save/Whole.antt =====
-- A whole file of version 1: the header, the nonterminals, and the footer.
use libcorkipset.Prelude.{
  ℕ, ◌+◌, ◌*◌, ◌^◌, ◌≤◌, ◌<◌, ◌≡◌, ◌↔◌, inl, inr, refl, sym, ap, ◌∙◌, subst, Bool, true, false,
  Option, some, List, [], ◌++◌, bit, length, get_elem?, arith, Option-cases, sum_below,
  sum_below-congr, sum_below-le,
}
use mathlib.Core.List.{append_assoc, append-nil}
use libcorkipset.Tree.{Tree, IsOrdered, height}
use libcorkipset.Node.{NodeTable}
use libcorkipset.Cache.{NodeCache}
use libcorkipset.Cache.Graph.{Content, Graph}
use libcorkipset.Cache.Graph.Count.{bit-le}
use libcorkipset.Cache.Graph.Repr.{Repr, at_terminal, at_nonterminal}
use libcorkipset.Cache.Invariant.{Invariant}
use libcorkipset.Pointers.{PointerTables}
use libcorkipset.SerializedId.{ℤ, pos, negsuc}
use libcorkipset.Stream.{Consumer, Accepts}
use libcorkipset.Reachable.Path.{Reaches, at_root, to_low, to_high, Used}
use libcorkipset.Reachable.Visit.{reachable_count-ok}
use libcorkipset.Save.{SaveData, Result, ok, save, save_bdd}
use libcorkipset.Save.Entry.{Entry, encode}
use libcorkipset.Save.Header.{
  header_bytes, footer_bytes, after_header, after_header-contents, write_header_v1-ok,
  write_footer_v1-ok,
}
use libcorkipset.Save.Progress.{entry_of, Progress}
use libcorkipset.Save.Places.{Final, Written, is_placed}
use libcorkipset.Save.Visit.{visit-ok}

-- The file for a root and the entries under it.
abbrev pub file_bytes : ℕ → List Entry → List ℕ
file_bytes root es = header_bytes root (length es) ++ (encode es ++ footer_bytes root)

-- No node waits for its children.
abbrev pub NonePending : ℕ → Type 0
NonePending id = ⊥

-- What the entries of a file stand for: the nodes under the root, each once, children first.
pub record Listed (g : Graph) (root : ℕ) (order : List ℕ) (es : List Entry) : Type 0 where
  pub lengths : length es ≡ length order
  pub entries : (j i : ℕ) → get_elem? order j ≡ some i → Written g order es j i
  pub once : (j j' i : ℕ) → get_elem? order j ≡ some i → get_elem? order j' ≡ some i → j ≡ j'
  pub reached : (j i : ℕ) → get_elem? order j ≡ some i → Reaches g root (i * 2)
  pub root_id : ℤ
  pub root_final : Final order root root_id

same_truth : (a b : Bool) → (a ≡ true → b ≡ true) → (b ≡ true → a ≡ true) → a ≡ b
same_truth true b f h = sym (f refl)
same_truth false true f h = h refl
same_truth false false f h = refl

same_place : (j j' : ℕ) → some (negsuc j) ≡ some (negsuc j') → j ≡ j'
same_place j j' e = cc

module _ ⦃T : NodeTable⦄ (P : PointerTables) {C : Consumer} (acc : Accepts C) {c : NodeCache}
    {g : Graph} {r : ℕ → ℕ} {free : List ℕ} (inv : Invariant c g r free) (root : ℕ)
    (base : List ℕ) where
  abbrev look : SaveData P C → ℕ → Option ℤ
  look st id = entry_of P acc g c.largest_index root base st id

  -- The state when everything has been saved.
  abbrev Done : List ℕ → List Entry → SaveData P C → Type 0
  Done order es st = Progress P acc g c.largest_index root base NonePending order es st

  module _ {order : List ℕ} {es : List Entry} {st : SaveData P C} (p : Done order es st) where
    done-Final : (id : ℕ) (s : ℤ) → look st id ≡ some s → Final order id s
    done-Final id s e = elim (p.keys id s e) [ inl final ↦ final | inr waits ↦ absurd waits ]

    Final-placed : (i : ℕ) (s : ℤ) → Final order (i * 2) s → is_placed (look st (i * 2)) ≡ true
    Final-placed i (pos v) odd = absurd (omega arith)
    Final-placed i (negsuc j) (i', e, at) =
        subst (λ m. is_placed (look st m) ≡ true) (sym e) (ap is_placed (p.placed j i' at))

    place_of :
        (i : ℕ) (s : ℤ)
        → is_placed (some s) ≡ true
        → Final order (i * 2) s
        → (j : ℕ) × (get_elem? order j ≡ some i)
    place_of i (pos v) h final = absurd cc
    place_of i (negsuc j) h (i', e, at) = (j, at ∙ ap some (omega arith))

    placed-at :
        (i : ℕ) → is_placed (look st (i * 2)) ≡ true → (j : ℕ) × (get_elem? order j ≡ some i)
    placed-at i h = elim (Option-cases (look st (i * 2))) [
      | inl gone ↦ absurd (let unplaced = ap is_placed gone in cc)
      | inr (s, e) ↦ place_of i s (sym (ap is_placed e) ∙ h) (done-Final (i * 2) s e)
    ]

    -- The children of a node with a place have places.
    children-Final :
        (i : ℕ) (k : Content)
        → g i ≡ some k
        → is_placed (look st (i * 2)) ≡ true
        → ((s : ℤ) × Final order k.low s) × ((s : ℤ) × Final order k.high s)
    children-Final i k here h =
        let (j, at) = placed-at i h in
        let w = p.entries j i at in
        let found = w.here in
        let same : w.content ≡ k = cc in
        (
          (w.low, subst (λ (m : Content). Final order m.low w.low) same w.low_refers.0),
          (w.high, subst (λ (m : Content). Final order m.high w.high) same w.high_refers.0),
        )

    -- Every nonterminal under the root has a place.
    reached-placed :
        (s : ℤ)
        → look st root ≡ some s
        → (id : ℕ) → Reaches g root id
        → (i : ℕ) → id ≡ i * 2
        → is_placed (look st (i * 2)) ≡ true
    reached-placed s e id (at_root same) i even =
        Final-placed i s (subst (λ m. Final order m s) (sym same ∙ even) (done-Final root s e))
    reached-placed s e id (to_low {i = h} k path here low) i even =
        let ((s', final), _) = children-Final h k here (reached-placed s e (h * 2) path h refl) in
        Final-placed i s' (subst (λ m. Final order m s') (sym low ∙ even) final)
    reached-placed s e id (to_high {i = h} k path here high) i even =
        let (_, (s', final)) = children-Final h k here (reached-placed s e (h * 2) path h refl) in
        Final-placed i s' (subst (λ m. Final order m s') (sym high ∙ even) final)

    placed-Used : (i : ℕ) → is_placed (look st (i * 2)) ≡ true → Used g root (i * 2)
    placed-Used i h =
        let (j, at) = placed-at i h in
        let w = p.entries j i at in
        (i, w.content, refl, w.here, p.used (i * 2) (negsuc j) (p.placed j i at))

    -- The count in the header is the number of entries.
    count-length :
        (s : ℤ)
        → look st root ≡ some s
        → (reached : ℕ → Bool) → ((i : ℕ) → (reached i ≡ true) ↔ Used g root (i * 2))
        → sum_below c.largest_index (λ i. bit (reached i)) ≡ length es
    count-length s e reached marks =
        sum_below-congr c.largest_index _ (λ i. bit (is_placed (look st (i * 2))))
          (λ i lt. ap bit (
            same_truth (reached i) (is_placed (look st (i * 2)))
              (λ h.
                let (j, k, same, here, path) = (marks i).0 h in
                reached-placed s e (j * 2) path i (sym same))
              (λ h. (marks i).1 (placed-Used i h))))
        ∙ p.counted
        ∙ sym p.lengths

    done-Listed : (s : ℤ) → look st root ≡ some s → Listed g root order es
    done-Listed s e = record {
      lengths = p.lengths;
      entries = p.entries;
      once = λ j j' i at at'. same_place j j' (sym (p.placed j i at) ∙ p.placed j' i at');
      reached = λ j i at. p.used (i * 2) (negsuc j) (p.placed j i at);
      root_id = s;
      root_final = done-Final root s e;
    }

  abbrev start_data : C.State → SaveData P C
  start_data stream = record {
    stream = stream;
    serialized_ids = P.serialized_ids.new;
    next_serialized_id = negsuc 0;
  }

  -- The state in which the nodes are saved.
  abbrev nodes_data : ℕ → C.State → SaveData P C
  nodes_data n stream = record (after_header P acc root n (start_data stream)) {
    serialized_ids = P.serialized_ids.new;
    next_serialized_id = negsuc 0;
  }

  start-Done :
      (n : ℕ) (stream : C.State)
      → base ≡ acc.contents stream ++ header_bytes root n
      → Done [] [] (nodes_data n stream)
  start-Done n stream e = record {
    sent = after_header-contents P acc root n (start_data stream) ∙ sym e ∙ sym (append-nil base);
    next = refl;
    keys = λ id s e'. absurd (let fresh = P.serialized_ids.get-new id in cc);
    used = λ id s e'. absurd (let fresh = P.serialized_ids.get-new id in cc);
    placed = λ j i at. absurd cc;
    lengths = refl;
    entries = λ j i at. absurd cc;
    counted = omega (
      arith,
      sum_below-le c.largest_index 0 (λ i. bit (is_placed (look (nodes_data n stream) (i * 2))))
          (λ i. rw (P.serialized_ids.get-new (i * 2)) (omega arith)),
    );
  }

pub known_node :
    {g : Graph} {root : ℕ} {t : Tree}
    → Repr g root t
    → (j : ℕ) → root ≡ j * 2
    → (k : Content) × (g j ≡ some k)
known_node (at_terminal odd) j even = absurd (omega arith)
known_node {g} (at_nonterminal {i} k even' here var l h) j even =
    (k, let same : i ≡ j = omega arith in subst (λ m. g m ≡ some k) same here)

-- What a save leaves.
pub record WholeFile ⦃T : NodeTable⦄ (P : PointerTables) (C : Consumer) (acc : Accepts C)
    (g : Graph) (root : ℕ) (stream : C.State) (res : Result P C (Unit {0})) : Type 0 where
  pub order : List ℕ
  pub es : List Entry
  pub st' : SaveData P C
  pub run : res ≡ ok tt st'
  pub listed : Listed g root order es
  pub few : length es ≤ 2 ^ 31
  pub sent : acc.contents st'.stream ≡ acc.contents stream ++ file_bytes root es

module _ ⦃T : NodeTable⦄ (P : PointerTables) {C : Consumer} (acc : Accepts C) {c : NodeCache}
    {g : Graph} {r : ℕ → ℕ} {free : List ℕ} (inv : Invariant c g r free) where
  -- For an ordered diagram of a well-formed cache, with a depth above its height and more rounds
  -- than twice the largest index plus one, `save` succeeds with a consumer that accepts every
  -- chunk. It sends the header, the footer, and between them one entry for each nonterminal that
  -- the root leads to and no other: each once, with its variable and the serialized ids of its
  -- children, which are values or places of earlier entries.
  pub save-ok :
      (top depth rounds root : ℕ) (t : Tree) (stream : C.State)
      → Repr g root t
      → IsOrdered top 0 t
      → height t < depth
      → 2 * c.largest_index + 1 < rounds
      → WholeFile P C acc g root stream (save P C depth rounds c root stream)
  unfolding save save_bdd
  save-ok top depth rounds root t stream rep ord deep enough =
      let (reached, count, marks) =
        reachable_count-ok inv P.visited root rounds enough (known_node rep) in
      let n = sum_below c.largest_index (λ i. bit (reached i)) in
      let base = acc.contents stream ++ header_bytes root n in
      let st0 = start_data P acc inv root base stream in
      let st1 = nodes_data P acc inv root base n stream in
      let header = write_header_v1-ok P acc rounds root n c st0 count in
      let w =
        visit-ok P acc inv root rounds base top depth root 0 t NonePending [] [] st1 deep rep ord
          (λ id waits. absurd waits) (at_root refl)
          (start-Done P acc inv root base n stream refl) in
      let (st', footer, sent) = write_footer_v1-ok P acc root c w.st' in
      let total : n ≡ length w.es' =
        count-length P acc inv root base w.progress w.serialized w.recorded reached marks in
      record {
        order = w.more;
        es = w.es';
        st' = st';
        run = rw (header, w.run, footer, save);
        listed = done-Listed P acc inv root base w.progress w.serialized w.recorded;
        few = omega (
          arith,
          inv.small,
          total,
          sum_below-le c.largest_index 1 (λ i. bit (reached i)) (λ i. bit-le (reached i)),
        );
        sent =
            sent
            ∙ ap (λ ys. ys ++ footer_bytes root) w.progress.sent
            ∙ append_assoc base (encode w.es') (footer_bytes root)
            ∙ append_assoc (acc.contents stream) (header_bytes root n)
                (encode w.es' ++ footer_bytes root)
            ∙ ap
                (λ m.
                  acc.contents stream
                  ++ (header_bytes root m ++ (encode w.es' ++ footer_bytes root)))
                total;
      }
