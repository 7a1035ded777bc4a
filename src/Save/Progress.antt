-- ===== src/Save/Progress.antt =====
-- How far a save has come: which nonterminals have been written, in which order, and as which
-- entries.
use libcorkipset.Prelude.{
  ℕ, suc, ◌+◌, ◌*◌, ◌<◌, ◌≡◌, ◌≢◌, ◌⊎◌, inl, inr, refl, sym, ap, ◌∙◌, subst, true, false, Option,
  some, List, [], ◌∷◌, ◌++◌, bit, length, length-append, get_elem?, get_elem?-append,
  get_elem?-append_last, lt-get_elem?, arith, eq-cases, lt-cases, ==-refl, ne→==, sum_below,
  sum_below-change, sum_below-congr,
}
use mathlib.Core.List.{append_assoc}
use libcorkipset.Node.{NodeTable}
use libcorkipset.Cache.Graph.{Content, Graph}
use libcorkipset.Pointers.{PointerTables, id-Compatible}
use libcorkipset.SerializedId.{ℤ, pos, negsuc, decrement}
use libcorkipset.Stream.{Consumer, Accepts}
use libcorkipset.Reachable.Path.{Reaches}
use libcorkipset.Save.{SaveData}
use libcorkipset.Save.Entry.{Entry, entry_bytes, encode, encode-snoc}
use libcorkipset.Save.Run.{contents, after_nonterminal, after_entry-contents}
use libcorkipset.Save.Places.{Final, Written, Final-append, Earlier-Final, Written-snoc, is_placed}

module _ ⦃T : NodeTable⦄ (P : PointerTables) {C : Consumer} (acc : Accepts C) (g : Graph)
    (n root : ℕ) (base : List ℕ) where
  abbrev pub entry_of : SaveData P C → ℕ → Option ℤ
  entry_of st id = P.serialized_ids.get st.serialized_ids id

  -- `pending` are the nodes whose children are being saved.
  pub record Progress (pending : ℕ → Type 0) (order : List ℕ) (es : List Entry) (st : SaveData P C)
      : Type 0 where
    pub sent : contents P acc st ≡ base ++ encode es
    pub next : st.next_serialized_id ≡ negsuc (length order)
    pub keys : (id : ℕ) (s : ℤ) → entry_of st id ≡ some s → Final order id s ⊎ pending id
    pub used : (id : ℕ) (s : ℤ) → entry_of st id ≡ some s → Reaches g root id
    pub placed : (j i : ℕ) → get_elem? order j ≡ some i → entry_of st (i * 2) ≡ some (negsuc j)
    pub lengths : length es ≡ length order
    pub entries : (j i : ℕ) → get_elem? order j ≡ some i → Written g order es j i
    pub counted : sum_below n (λ i. bit (is_placed (entry_of st (i * 2)))) ≡ length order

  -- The table after a `put`.
  abbrev pub with_entry : SaveData P C → ℕ → ℤ → SaveData P C
  with_entry st id s = record st { serialized_ids = P.serialized_ids.put st.serialized_ids id s }

  pub entry_of_self :
      (st : SaveData P C) (id : ℕ) (s : ℤ) → entry_of (with_entry st id s) id ≡ some s
  entry_of_self st id s =
      P.serialized_ids.get-put (id-Compatible P.hash) st.serialized_ids id id s ∙ rw (==-refl id)

  pub entry_of-ne :
      (st : SaveData P C) (id j : ℕ) (s : ℤ)
      → id ≢ j
      → entry_of (with_entry st id s) j ≡ entry_of st j
  entry_of-ne st id j s ne =
      P.serialized_ids.get-put (id-Compatible P.hash) st.serialized_ids id j s ∙ rw (ne→== id j ne)

  -- A node that no place has been given to changes its entry.
  module _ {pending : ℕ → Type 0} {order : List ℕ} {es : List Entry} {st : SaveData P C} (id : ℕ)
      (p : Progress pending order es st) (path : Reaches g root id)
      (free : is_placed (entry_of st id) ≡ false) where
    not_placed : (j i : ℕ) → get_elem? order j ≡ some i → id ≢ i * 2
    not_placed j i at same =
        let e = p.placed j i at in
        absurd (let q : is_placed (entry_of st id) ≡ true = rw (same, e) in cc)

    used_put :
        (s : ℤ) (id' : ℕ) (s' : ℤ)
        → entry_of (with_entry st id s) id' ≡ some s'
        → Reaches g root id'
    used_put s id' s' e = elim (eq-cases id id') [
      | inl same ↦ rw (← same) path
      | inr ne ↦ p.used id' s' (sym (entry_of-ne st id id' s ne) ∙ e)
    ]

    placed_put :
        (s : ℤ) (j i : ℕ)
        → get_elem? order j ≡ some i
        → entry_of (with_entry st id s) (i * 2) ≡ some (negsuc j)
    placed_put s j i at = entry_of-ne st id (i * 2) s (not_placed j i at) ∙ p.placed j i at

    -- The count does not see an entry that is no place.
    counted_put :
        (v : ℕ)
        → sum_below n (λ i. bit (is_placed (entry_of (with_entry st id (pos v)) (i * 2))))
          ≡ length order
    counted_put v =
        sum_below-congr n _ _ (λ i lt. elim (eq-cases id (i * 2)) [
          | inl same ↦ ap bit (
              subst
                (λ k. is_placed (entry_of (with_entry st id (pos v)) k) ≡ is_placed (entry_of st k))
                same (ap is_placed (entry_of_self st id (pos v)) ∙ sym free))
          | inr ne ↦ ap (λ o. bit (is_placed o)) (entry_of-ne st id (i * 2) (pos v) ne)
        ])
        ∙ p.counted

    -- The entry of a node whose children are to be saved.
    pub start-Progress :
        Progress (λ id'. pending id' ⊎ (id' ≡ id)) order es (with_entry st id (pos 0))
    start-Progress = record {
      sent = p.sent;
      next = p.next;
      keys = λ id' s e. elim (eq-cases id id') [
        | inl same ↦ inr (inr (sym same))
        | inr ne ↦ elim (p.keys id' s (sym (entry_of-ne st id id' (pos 0) ne) ∙ e)) [
          | inl final ↦ inl final
          | inr waits ↦ inr (inl waits)
        ]
      ];
      used = used_put (pos 0);
      placed = placed_put (pos 0);
      lengths = p.lengths;
      entries = p.entries;
      counted = counted_put 0;
    }

  -- The entry of a terminal.
  module _ {pending : ℕ → Type 0} {order : List ℕ} {es : List Entry} {st : SaveData P C} (id v : ℕ)
      (p : Progress (λ id'. pending id' ⊎ (id' ≡ id)) order es st) (path : Reaches g root id)
      (free : is_placed (entry_of st id) ≡ false) (odd : id ≡ v * 2 + 1) where
    value_Final : (id' : ℕ) (s : ℤ) → id ≡ id' → some (pos v) ≡ some s → Final order id' s
    value_Final id' (pos w) same e = let same_value : v ≡ w = cc in omega arith
    value_Final id' (negsuc j) same e = absurd cc

    pub terminal-Progress : Progress pending order es (with_entry st id (pos v))
    terminal-Progress = record {
      sent = p.sent;
      next = p.next;
      keys = λ id' s e. elim (eq-cases id id') [
        | inl same ↦ inl (
            value_Final id' s same (
              sym (entry_of_self st id (pos v))
              ∙ subst (λ k. entry_of (with_entry st id (pos v)) k ≡ some s) (sym same) e))
        | inr ne ↦ elim (p.keys id' s (sym (entry_of-ne st id id' (pos v) ne) ∙ e)) [
          | inl final ↦ inl final
          | inr (inl waits) ↦ inr waits
          | inr (inr same) ↦ absurd (ne (sym same))
        ]
      ];
      used = used_put id p path free (pos v);
      placed = placed_put id p path free (pos v);
      lengths = p.lengths;
      entries = p.entries;
      counted = counted_put id p path free v;
    }

  -- The entry of a node whose children have been saved, with the bytes that are sent for it.
  module _ {pending : ℕ → Type 0} {order : List ℕ} {es : List Entry} {st : SaveData P C} (id i : ℕ)
      (k : Content) (low high : ℤ) (p : Progress (λ id'. pending id' ⊎ (id' ≡ id)) order es st)
      (even : id ≡ i * 2) (below : i < n) (here : g i ≡ some k) (path : Reaches g root id)
      (free : is_placed (entry_of st id) ≡ false) (low_final : Final order k.low low)
      (high_final : Final order k.high high) where
    abbrev entry : Entry
    entry = record { variable = k.variable; low = low; high = high }

    abbrev placed_st : SaveData P C
    placed_st = with_entry st id st.next_serialized_id

    abbrev order' : List ℕ
    order' = order ++ i ∷ []

    longer : length order' ≡ suc (length order)
    longer = omega (arith, length-append order (i ∷ []))

    last_place : get_elem? order' (length order) ≡ some i
    last_place = get_elem?-append_last order i (length order) refl

    snoc_cases :
        (j i' : ℕ)
        → get_elem? order' j ≡ some i'
        → (get_elem? order j ≡ some i') ⊎ ((j ≡ length order) × (i' ≡ i))
    snoc_cases j i' at = elim (lt-cases j (length order)) [
      | inl lt ↦ inl (sym (get_elem?-append order (i ∷ []) j lt) ∙ at)
      | inr le ↦
          let e : j ≡ length order = omega (arith, lt-get_elem? order' j at, longer) in
          let last = get_elem?-append_last order i j e in inr (e, cc)
    ]

    entry_of_new : entry_of placed_st id ≡ some (negsuc (length order))
    entry_of_new = entry_of_self st id st.next_serialized_id ∙ ap some p.next

    new_counted : sum_below n (λ i'. bit (is_placed (entry_of placed_st (i' * 2)))) ≡ length order'
    new_counted = omega (
      arith,
      longer,
      p.counted,
      sum_below-change n (λ i'. bit (is_placed (entry_of st (i' * 2))))
          (λ i'. bit (is_placed (entry_of placed_st (i' * 2)))) i below
          (λ j ne.
            ap (λ o. bit (is_placed o))
              (sym (entry_of-ne st id (j * 2) st.next_serialized_id (λ e. ne (omega arith))))),
      ap bit (subst (λ m. is_placed (entry_of st m) ≡ false) even free),
      ap (λ o. bit (is_placed o))
          (subst (λ m. entry_of placed_st m ≡ some (negsuc (length order))) even entry_of_new),
    )

    new_Written : Written g order' (es ++ entry ∷ []) (length order) i
    new_Written = record {
      content = k;
      here = here;
      low = low;
      high = high;
      entry = get_elem?-append_last es entry (length order) (sym p.lengths);
      low_refers = (
        Final-append order (i ∷ []) k.low low low_final,
        Earlier-Final order k.low low low_final,
      );
      high_refers = (
        Final-append order (i ∷ []) k.high high high_final,
        Earlier-Final order k.high high high_final,
      );
    }

    new_Final :
        (id' : ℕ) (s : ℤ) → id ≡ id' → some (negsuc (length order)) ≡ some s → Final order' id' s
    new_Final id' (pos w) same e = absurd cc
    new_Final id' (negsuc j) same e =
        let place : length order ≡ j = cc in
        (i, sym same ∙ even, ap (get_elem? order') (sym place) ∙ last_place)

    pub finish-Progress :
        Progress pending order' (es ++ entry ∷ []) (after_nonterminal P acc id entry st)
    finish-Progress = record {
      sent =
          after_entry-contents P acc entry placed_st
          ∙ ap (λ ys. ys ++ entry_bytes entry) p.sent
          ∙ append_assoc base (encode es) (entry_bytes entry)
          ∙ ap (λ ys. base ++ ys) (sym (encode-snoc es entry));
      next = ap decrement p.next ∙ ap negsuc (sym longer);
      keys = λ id' s e. elim (eq-cases id id') [
        | inl same ↦ inl (
            new_Final id' s same
              (sym entry_of_new ∙ subst (λ m. entry_of placed_st m ≡ some s) (sym same) e))
        | inr ne ↦ elim (p.keys id' s (sym (entry_of-ne st id id' st.next_serialized_id ne) ∙ e)) [
          | inl final ↦ inl (Final-append order (i ∷ []) id' s final)
          | inr (inl waits) ↦ inr waits
          | inr (inr same) ↦ absurd (ne (sym same))
        ]
      ];
      used = used_put id p path free st.next_serialized_id;
      placed = λ j i' at. elim (snoc_cases j i' at) [
        | inl old ↦ placed_put id p path free st.next_serialized_id j i' old
        | inr (e, same) ↦
            subst (λ m. entry_of placed_st m ≡ some (negsuc j)) (even ∙ ap (λ m. m * 2) (sym same))
              (entry_of_new ∙ ap (λ m. some (negsuc m)) (sym e))
      ];
      lengths = omega (arith, length-append es (entry ∷ []), longer, p.lengths);
      entries = λ j i' at. elim (snoc_cases j i' at) [
        | inl old ↦ Written-snoc g order es i entry j i' (p.entries j i' old)
        | inr (e, same) ↦ rw (e, same) new_Written
      ];
      counted = new_counted;
    }
