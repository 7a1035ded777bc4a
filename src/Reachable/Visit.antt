-- ===== src/Reachable/Visit.antt =====
-- The loop of `ipset_node_reachable_count` visits every nonterminal under the root once.
use libcorkipset.Prelude.{
  ℕ, zero, suc, ◌+◌, ◌-◌, ◌*◌, ◌≤◌, ◌<◌, ◌≡◌, ◌≢◌, ◌↔◌, ◌⊎◌, inl, inr, refl, sym, ap, ◌∙◌, subst,
  Bool, true, false, Option, none, some, List, [], ◌∷◌, ◌==◌, bit, contains, length, arith,
  eq-cases, Option-cases, ne→==, ==-refl, sum_below, sum_below-change, sum_below-le,
}
use libcorkipset.HashTable.{HashTable}
use libcorkipset.Node.{NodeTable}
use libcorkipset.NodeId.{get_type}
use libcorkipset.Cache.{NodeCache, get_nonterminal}
use libcorkipset.Cache.Counting.{even-parts, odd-type}
use libcorkipset.Cache.Graph.{Content, cell, Graph, refs}
use libcorkipset.Cache.Graph.Count.{bit-le}
use libcorkipset.Cache.Invariant.{Invariant}
use libcorkipset.Bdd.Evaluate.{get_nonterminal-ok}
use libcorkipset.Pointers.{id-Compatible}
use libcorkipset.Reachable.{visit, reachable_count, append_nonterminal}
use libcorkipset.Reachable.Path.{
  Reaches, at_root, to_low, to_high, Used, parity-cases, low-Used, high-Used,
}

abbrev pub is_some {ℓ} : {A : Type ℓ} → Option A → Bool
is_some none = false
is_some (some a) = true

append_nonterminal-keeps :
    (x id : ℕ) (queue : List ℕ)
    → contains queue id ≡ true
    → contains (append_nonterminal x queue) id ≡ true
append_nonterminal-keeps x id queue h = ground arith

append_nonterminal-adds :
    (j : ℕ) (queue : List ℕ) → contains (append_nonterminal (j * 2) queue) (j * 2) ≡ true
append_nonterminal-adds j queue = rw ((even-parts j).0) (rw (==-refl (j * 2)))

append_nonterminal-new :
    (x id : ℕ) (queue : List ℕ)
    → contains (append_nonterminal x queue) id ≡ true
    → ((id ≡ x) × ((j : ℕ) × (x ≡ j * 2))) ⊎ (contains queue id ≡ true)
append_nonterminal-new x id queue h = elim (parity-cases x) [
  | inr (v, odd) ↦ inr (let e = odd-type v in let p : get_type x ≡ 1 = rw odd e in ground arith)
  | inl (j, even) ↦
      let p : get_type x ≡ 0 = rw even ((even-parts j).0) in
      elim (eq-cases x id) [ inl same ↦ inl (sym same, (j, even)) | inr ne ↦ inr (ground arith) ]
]

length-append_nonterminal :
    (x : ℕ) (queue : List ℕ) → length (append_nonterminal x queue) ≤ suc (length queue)
length-append_nonterminal x queue = ground arith

module _ ⦃T : NodeTable⦄ {c : NodeCache} {g : Graph} {r : ℕ → ℕ} {free : List ℕ}
    (inv : Invariant c g r free) {hash : ℕ → ℕ} (V : HashTable ℕ hash ◌==◌) (root : ℕ) where
  abbrev Visited : V.Table → ℕ → Type 0
  Visited t id = (v : ℕ) × (V.get t id ≡ some v)

  -- A nonterminal's id that is visited or waits in the queue.
  abbrev Covered : V.Table → List ℕ → ℕ → Type 0
  Covered t queue id = (j : ℕ) → id ≡ j * 2 → Visited t id ⊎ (contains queue id ≡ true)

  record Walk (t : V.Table) (queue : List ℕ) : Type 0 where
    pub sound : (id v : ℕ) → V.get t id ≡ some v → Used g root id
    pub queued : (id : ℕ) → contains queue id ≡ true → Used g root id
    pub closed :
        (i : ℕ) (k : Content) (v : ℕ)
        → V.get t (i * 2) ≡ some v
        → g i ≡ some k
        → Covered t queue k.low × Covered t queue k.high
    pub rooted : Covered t queue root

  get-put_self : (t : V.Table) (id : ℕ) → V.get (V.put t id 1) id ≡ some 1
  get-put_self t id = V.get-put (id-Compatible hash) t id id 1 ∙ rw (==-refl id)

  get-put_ne : (t : V.Table) (id j : ℕ) → id ≢ j → V.get (V.put t id 1) j ≡ V.get t j
  get-put_ne t id j ne = V.get-put (id-Compatible hash) t id j 1 ∙ rw (ne→== id j ne)

  -- A node that was visited before leaves the queue.
  skip-Walk :
      {t : V.Table} {curr : ℕ} {queue : List ℕ}
      → Visited t curr
      → Walk t (curr ∷ queue)
      → Walk t queue
  skip-Walk {t} {curr} {queue} (v, seen) w = record {
    sound = w.sound;
    queued = λ id h. w.queued id (ground arith);
    closed = λ i k v' e here.
        let (low, high) = w.closed i k v' e here in (less k.low low, less k.high high);
    rooted = less root w.rooted;
  }
    where
      less : (id : ℕ) → Covered t (curr ∷ queue) id → Covered t queue id
      less id cov j e = elim (cov j e) [
        | inl found ↦ inl found
        | inr m ↦ elim (eq-cases curr id) [
          | inl same ↦ inl (v, rw (← same) seen)
          | inr ne ↦ inr (ground arith)
        ]
      ]

  -- The queue after a visit to a node with content `k`.
  abbrev next : Content → List ℕ → List ℕ
  next k queue = append_nonterminal k.high (append_nonterminal k.low queue)

  visit-Walk :
      {t : V.Table} {queue : List ℕ} (i : ℕ) (k : Content)
      → g i ≡ some k
      → Walk t (i * 2 ∷ queue)
      → Walk (V.put t (i * 2) 1) (next k queue)
  visit-Walk {t} {queue} i k here w = record {
    sound = λ id v e. elim (eq-cases (i * 2) id) [
      | inl same ↦ w.queued id (ground arith)
      | inr ne ↦ w.sound id v (sym (get-put_ne t (i * 2) id ne) ∙ e)
    ];
    queued = λ id h. elim (append_nonterminal-new k.high id (append_nonterminal k.low queue) h) [
      | inl (same, (j, even)) ↦ rw same (high-Used inv root i k here path j even)
      | inr h' ↦ elim (append_nonterminal-new k.low id queue h') [
        | inl (same, (j, even)) ↦ rw same (low-Used inv root i k here path j even)
        | inr h'' ↦ w.queued id (ground arith)
      ]
    ];
    closed = λ i' k' v e here'. elim (eq-cases (i * 2) (i' * 2)) [
      | inl same ↦ children i' k' (omega arith) here'
      | inr ne ↦
          let (low, high) = w.closed i' k' v (sym (get-put_ne t (i * 2) (i' * 2) ne) ∙ e) here' in
          (more k'.low low, more k'.high high)
    ];
    rooted = more root w.rooted;
  }
    where
      path : Reaches g root (i * 2)
      path = let (i', k', e, here', found) = w.queued (i * 2) (rw (==-refl (i * 2))) in rw e found

      children :
          (i' : ℕ) (k' : Content)
          → i ≡ i'
          → g i' ≡ some k'
          → Covered (V.put t (i * 2) 1) (next k queue) k'.low
            × Covered (V.put t (i * 2) 1) (next k queue) k'.high
      children i' k' same here' =
          let alike : k ≡ k' = cc in
          rw (← alike) (
            (λ j e. inr (
                append_nonterminal-keeps k.high k.low (append_nonterminal k.low queue)
                  (rw e (append_nonterminal-adds j queue)))),
            (λ j e. inr (rw e (append_nonterminal-adds j (append_nonterminal k.low queue)))),
          )

      more : (id : ℕ) → Covered t (i * 2 ∷ queue) id → Covered (V.put t (i * 2) 1) (next k queue) id
      more id cov j e = elim (eq-cases (i * 2) id) [
        | inl same ↦ inl (1, rw (← same) (get-put_self t (i * 2)))
        | inr ne ↦ elim (cov j e) [
          | inl (v, found) ↦ inl (v, get-put_ne t (i * 2) id ne ∙ found)
          | inr m ↦ inr (
              append_nonterminal-keeps k.high id (append_nonterminal k.low queue)
                (append_nonterminal-keeps k.low id queue (ground arith)))
        ]
      ]

  -- The marks that the loop has left, one for each index.
  abbrev marks : V.Table → ℕ → Bool
  marks t i = is_some (V.get t (i * 2))

  abbrev count : V.Table → ℕ
  count t = sum_below c.largest_index (λ i. bit (marks t i))

  count-put :
      (t : V.Table) (i : ℕ)
      → i < c.largest_index
      → V.get t (i * 2) ≡ none
      → count (V.put t (i * 2) 1) ≡ count t + 1
  count-put t i below fresh =
      let t' = V.put t (i * 2) 1 in
      omega (
        arith,
        sum_below-change c.largest_index (λ j. bit (marks t j)) (λ j. bit (marks t' j)) i below
            (λ j ne.
              ap (λ o. bit (is_some o))
                (sym (get-put_ne t (i * 2) (j * 2) (λ e. ne (omega arith))))),
        ap (λ o. bit (is_some o)) fresh,
        ap (λ o. bit (is_some o)) (get-put_self t (i * 2)),
      )

  count-le : (t : V.Table) → count t ≤ c.largest_index
  count-le t =
      omega (arith, sum_below-le c.largest_index 1 (λ i. bit (marks t i)) (λ j. bit-le (marks t j)))

  visit-new :
      (fuel : ℕ) (t : V.Table) (curr : ℕ) (queue : List ℕ) (n i : ℕ) (k : Content)
      → curr ≡ i * 2
      → g i ≡ some k
      → V.get t curr ≡ none
      → visit V (suc fuel) c t (curr ∷ queue) n
        ≡ visit V fuel c (V.put t (i * 2) 1) (next k queue) (n + 1)
  unfolding visit
  visit-new fuel t curr queue n i k is here fresh =
      let read : get_nonterminal c curr ≡ some (cell k (refs c.largest_index g r i)) =
        rw is (get_nonterminal-ok i k inv here) in
      rw (fresh, read, visit) (ap (λ id. visit V fuel c (V.put t id 1) (next k queue) (n + 1)) is)

  -- Enough rounds: one for each entry of the queue, and two more for each node that is left.
  visit-ok :
      (fuel : ℕ) (t : V.Table) (queue : List ℕ) (n : ℕ)
      → Walk t queue
      → n ≡ count t
      → length queue + 2 * (c.largest_index - count t) < fuel
      → (t' : V.Table) × Walk t' [] × (visit V fuel c t queue n ≡ some (count t'))
  unfolding visit
  visit-ok zero t queue n w e lt = absurd (omega arith)
  visit-ok (suc fuel) t [] n w e lt = (t, w, rw e)
  visit-ok (suc fuel) t (curr ∷ queue) n w e lt = elim (Option-cases (V.get t curr)) [
    | inr (v, seen) ↦
        let (t', w', run) = visit-ok fuel t queue n (skip-Walk (v, seen) w) e (omega arith) in
        (t', w', rw (seen, visit) run)
    | inl fresh ↦
        let (i, k, is, here, path) = w.queued curr (rw (==-refl curr)) in
        let here_t : V.get t (i * 2) ≡ none = rw (← is) fresh in
        let more = count-put t i (inv.held i k here).below here_t in
        let len = length-append_nonterminal k.high (append_nonterminal k.low queue) in
        let len' = length-append_nonterminal k.low queue in
        let (t', w', run) =
          visit-ok fuel (V.put t (i * 2) 1) (next k queue) (n + 1)
            (visit-Walk i k here (subst (λ id. Walk t (id ∷ queue)) is w)) (omega (arith, more))
            (omega (arith, more, len, len', count-le (V.put t (i * 2) 1))) in
        (t', w', visit-new fuel t curr queue n i k is here fresh ∙ run)
  ]

  start-Walk :
      ((j : ℕ) → root ≡ j * 2 → (k : Content) × (g j ≡ some k))
      → Walk V.new (append_nonterminal root [])
  start-Walk known = record {
    sound = λ id v e. absurd (let fresh = V.get-new id in cc);
    queued = λ id h. elim (append_nonterminal-new root id [] h) [
      | inl (same, (j, even)) ↦
          let (k, here) = known j even in rw same (j, k, even, here, at_root (sym even))
      | inr none_there ↦ absurd cc
    ];
    closed = λ i k v e here. absurd (let fresh = V.get-new (i * 2) in cc);
    rooted = λ j e. inr (rw e (append_nonterminal-adds j []));
  }

  count-new : count V.new ≡ 0
  count-new = omega (
    arith,
    sum_below-le c.largest_index 0 (λ i. bit (marks V.new i))
        (λ i. rw (V.get-new (i * 2)) (omega arith)),
  )

  marked-Used : (t : V.Table) → Walk t [] → (i : ℕ) → marks t i ≡ true → Used g root (i * 2)
  marked-Used t w i h = elim (Option-cases (V.get t (i * 2))) [
    | inl fresh ↦ absurd (let no = ap is_some fresh in cc)
    | inr (v, e) ↦ w.sound (i * 2) v e
  ]

  -- The marks are closed: whatever a path leads to is marked.
  reached-Visited :
      (t : V.Table) → Walk t [] → (id : ℕ) → Reaches g root id → (j : ℕ) → id ≡ j * 2 → Visited t id
  reached-Visited t w id (at_root e) j even = elim (w.rooted j (sym e ∙ even)) [
    | inl (v, found) ↦ (v, rw e found)
    | inr none_left ↦ absurd cc
  ]
  reached-Visited t w id (to_low {i} k path here e) j even =
      let (v, found) = reached-Visited t w (i * 2) path i refl in
      elim ((w.closed i k v found here).0 j (sym e ∙ even)) [
        | inl (u, low) ↦ (u, rw e low)
        | inr none_left ↦ absurd cc
      ]
  reached-Visited t w id (to_high {i} k path here e) j even =
      let (v, found) = reached-Visited t w (i * 2) path i refl in
      elim ((w.closed i k v found here).1 j (sym e ∙ even)) [
        | inl (u, high) ↦ (u, rw e high)
        | inr none_left ↦ absurd cc
      ]

  Used-marked : (t : V.Table) → Walk t [] → (i : ℕ) → Used g root (i * 2) → marks t i ≡ true
  Used-marked t w i (j, k, e, here, path) =
      let (v, found) = reached-Visited t w (j * 2) path j refl in rw e (ap is_some found)

  -- In a well-formed cache, with fuel of more than twice the largest index plus one and a root that
  -- is a terminal or in use, `reachable_count` terminates with the number of the indices whose
  -- nonterminals the root leads to, each counted once.
  pub reachable_count-ok :
      (fuel : ℕ)
      → 2 * c.largest_index + 1 < fuel
      → ((j : ℕ) → root ≡ j * 2 → (k : Content) × (g j ≡ some k))
      → (reached : ℕ → Bool) × (reachable_count V fuel c root
          ≡ some (sum_below c.largest_index (λ i. bit (reached i))))
        × ((i : ℕ) → (reached i ≡ true) ↔ Used g root (i * 2))
  unfolding reachable_count
  reachable_count-ok fuel enough known =
      let queue = append_nonterminal root [] in
      let (t, w, run) =
        visit-ok fuel V.new queue 0 (start-Walk known) (sym count-new)
          (omega (arith, length-append_nonterminal root [], count-new)) in
      (marks t, run, λ i. (marked-Used t w i, Used-marked t w i))
