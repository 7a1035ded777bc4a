-- ===== src/Save/Mirror.antt =====
-- A save with a consumer that may refuse a chunk, beside a save with one that takes every chunk.
use libcorkipset.Prelude.{
  ℕ, zero, suc, ◌+◌, ◌*◌, ◌<◌, ◌≡◌, refl, sym, subst, Bool, true, false, Option, none, some, List,
  [], ◌==◌, inl, inr, arith, Bool-cases, Option-cases, bit, sum_below,
}
use libcorkipset.Tree.{Tree, terminal, nonterminal, height}
use libcorkipset.Node.{NodeTable}
use libcorkipset.NodeId.{get_type, terminal_node, terminal_value}
use libcorkipset.Cache.{NodeCache, get_nonterminal}
use libcorkipset.Cache.Counting.{even-parts, odd-type}
use libcorkipset.Cache.Graph.{cell, Graph, refs}
use libcorkipset.Cache.Graph.Repr.{Repr, at_terminal, at_nonterminal}
use libcorkipset.Cache.Invariant.{Invariant}
use libcorkipset.Bdd.Evaluate.{get_nonterminal-ok}
use libcorkipset.Pointers.{PointerTables}
use libcorkipset.Stream.{Consumer}
use libcorkipset.SerializedId.{ℤ, pos, negsuc, decrement}
use libcorkipset.Reachable.{reachable_count}
use libcorkipset.BigEndian.{big_endian}
use libcorkipset.Reachable.Visit.{reachable_count-ok}
use libcorkipset.Save.Whole.{known_node}
use libcorkipset.Save.{
  set_size_v1, magic_number, SaveData, SaveM, Result, ok, refused, stuck, continue, send, Writer,
  save_nonterminal, save_terminal, save_visit_node, save_bdd, write_string, write_uint8,
  write_uint16, write_uint32, write_uint64, write_header_v1, write_footer_v1, write_terminal_v1,
  write_nonterminal_v1, writer_v1, save,
}

-- Two consumers side by side: `Good` holds of their states until the first one refuses a chunk,
-- which the second one never does, and `Bad` of the state of the first one when it has refused.
pub record Mirrors (C K : Consumer) (Good : C.State → K.State → Type 0) (Bad : C.State → Type 0)
    : Type 0 where
  pub accepts :
      (buf : List ℕ) (is_first : Bool) (s : C.State) (k : K.State)
      → Good s k
      → (C.consume buf is_first s).0 ≡ true
      → ((K.consume buf is_first k).0 ≡ true)
        × Good (C.consume buf is_first s).1 (K.consume buf is_first k).1
  pub refuses :
      (buf : List ℕ) (is_first : Bool) (s : C.State) (k : K.State)
      → Good s k
      → (C.consume buf is_first s).0 ≡ false
      → Bad (C.consume buf is_first s).1

module _ ⦃T : NodeTable⦄ (P : PointerTables) (C K : Consumer) (Good : C.State → K.State → Type 0)
    (Bad : C.State → Type 0) where
  abbrev pub with_stream : SaveData P C → K.State → SaveData P K
  with_stream st k = record {
    stream = k;
    serialized_ids = st.serialized_ids;
    next_serialized_id = st.next_serialized_id;
  }

  -- Both have succeeded with the same result, or the first one has been refused.
  abbrev pub Ends : {A : Type 0} → Result P C A → Result P K A → Type 0
  Ends (ok a st) other = (k : K.State) × (other ≡ ok a (with_stream st k)) × Good st.stream k
  Ends (refused st) other = Bad st.stream
  Ends stuck other = ⊥

  -- The same step for both consumers.
  record Sound {A : Type 0} (m : SaveM P C A) (m' : SaveM P K A) : Type 0 where
    pub ends :
        (st : SaveData P C) (k : K.State) → Good st.stream k → Ends (m st) (m' (with_stream st k))

  continue-Ends :
      {A B : Type 0} (r : Result P C A) (r' : Result P K A) (f : A → SaveM P C B)
      (f' : A → SaveM P K B)
      → Ends r r'
      → ((a : A) → Sound (f a) (f' a))
      → Ends (continue P C r f) (continue P K r' f')
  continue-Ends (ok a st) r' f f' (k, e, h) next =
      subst (λ other. Ends (f a st) (continue P K other f')) (sym e) ((next a).ends st k h)
  continue-Ends (refused st) r' f f' h next = h
  continue-Ends stuck r' f f' h next = absurd h

  continue-Sound :
      {A B : Type 0} (m : SaveM P C A) (m' : SaveM P K A) (f : A → SaveM P C B)
      (f' : A → SaveM P K B)
      → Sound m m'
      → ((a : A) → Sound (f a) (f' a))
      → Sound {A = B} (λ st. continue P C (m st) f) (λ st. continue P K (m' st) f')
  continue-Sound m m' f f' first next = record {
    ends = λ st k h. continue-Ends (m st) (m' (with_stream st k)) f f' (first.ends st k h) next;
  }

  module _ (law : Mirrors C K Good Bad) where
    send-Sound :
        (buf : List ℕ) (is_first : Bool) → Sound (send P C buf is_first) (send P K buf is_first)
    unfolding send
    send-Sound buf is_first = record {
      ends = λ st k h. elim (Bool-cases (C.consume buf is_first st.stream).0) [
        | inl taken ↦
            let (too, good) = law.accepts buf is_first st.stream k h taken in
            rw (taken, too) ((K.consume buf is_first k).1, refl, good)
        | inr declined ↦ rw declined (law.refuses buf is_first st.stream k h declined)
      ];
    }

    write_nonterminal_v1-Sound :
        (node : ℤ) (variable : ℕ) (low high : ℤ)
        → Sound
            (write_nonterminal_v1 P C node variable low high)
            (write_nonterminal_v1 P K node variable low high)
    unfolding write_nonterminal_v1 write_uint8 write_uint32
    write_nonterminal_v1-Sound node variable low high =
        continue-Sound _ _ _ _ (send-Sound _ false)
          (λ u. continue-Sound _ _ _ _ (send-Sound _ false) (λ u'. send-Sound _ false))

  -- Steps that leave the stream alone.
  quiet-Sound :
      {A : Type 0} (value : (D : Consumer) → SaveData P D → A)
      (change : (D : Consumer) → SaveData P D → SaveData P D)
      → ((st : SaveData P C) (k : K.State)
          → Good st.stream k
          → Ends
              (ok (value C st) (change C st))
              (ok (value K (with_stream st k)) (change K (with_stream st k))))
      → Sound {A = A} (λ st. ok (value C st) (change C st)) (λ st. ok (value K st) (change K st))
  quiet-Sound value change keeps = record { ends = keeps }

  abbrev decremented : (D : Consumer) → SaveData P D → SaveData P D
  decremented D st = record st { next_serialized_id = decrement st.next_serialized_id }

  abbrev entered : ℕ → ℤ → (D : Consumer) → SaveData P D → SaveData P D
  entered id s D st = record st { serialized_ids = P.serialized_ids.put st.serialized_ids id s }

  abbrev reset : (D : Consumer) → SaveData P D → SaveData P D
  reset D st = record st { serialized_ids = P.serialized_ids.new; next_serialized_id = negsuc 0 }

  record SoundWriter (W : Writer P C) (W' : Writer P K) (c : NodeCache) (root : ℕ) : Type 0 where
    pub header : Sound (W.write_header c root) (W'.write_header c root)
    pub footer : Sound (W.write_footer c root) (W'.write_footer c root)
    pub terminal : (v : ℕ) → Sound (W.write_terminal v) (W'.write_terminal v)
    pub nonterminal :
        (node : ℤ) (x : ℕ) (low high : ℤ)
        → Sound (W.write_nonterminal node x low high) (W'.write_nonterminal node x low high)

  module _ {c : NodeCache} {g : Graph} {r : ℕ → ℕ} {free : List ℕ} (inv : Invariant c g r free)
      (W : Writer P C) (W' : Writer P K) (root : ℕ) (writes : SoundWriter W W' c root) where
    save_nonterminal-Sound :
        (id x : ℕ) (low high : ℤ)
        → Sound (save_nonterminal P C W id x low high) (save_nonterminal P K W' id x low high)
    unfolding save_nonterminal
    save_nonterminal-Sound id x low high =
        continue-Sound _ _ _ _
          (quiet-Sound (λ D st. st.next_serialized_id) (λ D st. st) (λ st k h. (k, refl, h)))
          (λ result.
            continue-Sound _ _ _ _ (quiet-Sound (λ D st. tt) decremented (λ st k h. (k, refl, h)))
              (λ u.
                continue-Sound _ _ _ _
                  (quiet-Sound (λ D st. tt) (entered id result) (λ st k h. (k, refl, h)))
                  (λ u'.
                    continue-Sound _ _ _ _ (writes.nonterminal result x low high)
                      (λ u''. quiet-Sound (λ D st. result) (λ D st. st) (λ st k h. (k, refl, h))))))

    save_terminal-Sound : (id : ℕ) → Sound (save_terminal P C W id) (save_terminal P K W' id)
    unfolding save_terminal
    save_terminal-Sound id = continue-Sound _ _ _ _ (writes.terminal (terminal_value id)) (λ u.
        continue-Sound _ _ _ _
          (quiet-Sound (λ D st. tt) (entered id (pos (terminal_value id))) (λ st k h. (k, refl, h)))
          (λ u'.
            quiet-Sound (λ D st. pos (terminal_value id)) (λ D st. st) (λ st k h. (k, refl, h))))

    save_visit_node-Sound :
        (fuel id : ℕ) (t : Tree)
        → height t < fuel
        → Repr g id t
        → Sound (save_visit_node P C fuel W c id) (save_visit_node P K fuel W' c id)
    unfolding save_visit_node
    save_visit_node-Sound zero id t lt rep = absurd (omega arith)
    save_visit_node-Sound (suc fuel) id (terminal v) lt (at_terminal odd) = record {
      ends = λ st k h. elim (Option-cases (P.serialized_ids.get st.serialized_ids id)) [
        | inr (s, e) ↦ rw (e, save_visit_node) (k, refl, h)
        | inl e ↦
            let type : get_type id ≡ 1 = rw odd (odd-type v) in
            rw (e, type, save_visit_node) ((save_terminal-Sound id).ends _ k h)
      ];
    }
    save_visit_node-Sound (suc fuel) id (nonterminal x l hi) lt
          (at_nonterminal {i} m even here var rl rh) =
        record {
          ends = λ st k h. elim (Option-cases (P.serialized_ids.get st.serialized_ids id)) [
            | inr (s, e) ↦ rw (e, save_visit_node) (k, refl, h)
            | inl e ↦
                let type : get_type id ≡ 0 = rw even ((even-parts i).0) in
                let read : get_nonterminal c id ≡ some (cell m (refs c.largest_index g r i)) =
                  rw even (get_nonterminal-ok i m inv here) in
                rw (e, type, read, save_visit_node)
                  ((continue-Sound _ _ _ _ (save_visit_node-Sound fuel m.low l (omega arith) rl)
                      (λ low.
                        continue-Sound _ _ _ _
                          (save_visit_node-Sound fuel m.high hi (omega arith) rh)
                          (λ high. save_nonterminal-Sound id m.variable low high))).ends
                    _ k h)
          ];
        }

    save_bdd-Sound :
        (fuel : ℕ) (t : Tree)
        → height t < fuel
        → Repr g root t
        → Sound (save_bdd P C fuel W c root) (save_bdd P K fuel W' c root)
    unfolding save_bdd
    save_bdd-Sound fuel t lt rep = continue-Sound _ _ _ _ writes.header (λ u.
        continue-Sound _ _ _ _ (quiet-Sound (λ D st. tt) reset (λ st k h. (k, refl, h))) (λ u'.
          continue-Sound _ _ _ _ (save_visit_node-Sound fuel root t lt rep) (λ s. writes.footer)))

  module _ (law : Mirrors C K Good Bad) where
    -- The two numbers after the version, if the count of the nodes has been found.
    abbrev numbers : (D : Consumer) → ℕ → Option ℕ → SaveM P D (Unit {0})
    numbers D root none = λ st. stuck
    numbers D root (some n) =
        λ st. continue P D (write_uint64 P D (set_size_v1 root n) st) (λ u. write_uint32 P D n)

    numbers-Sound :
        (root : ℕ) (count : Option ℕ) (n : ℕ)
        → count ≡ some n
        → Sound (numbers C root count) (numbers K root count)
    unfolding write_uint64 write_uint32
    numbers-Sound root none n e = absurd cc
    numbers-Sound root (some m) n e =
        continue-Sound _ _ _ _ (send-Sound law (big_endian 8 (set_size_v1 root m)) false)
          (λ u. send-Sound law (big_endian 4 m) false)

    write_header_v1-Sound :
        (rounds root n : ℕ) (c : NodeCache)
        → reachable_count P.visited rounds c root ≡ some n
        → Sound (write_header_v1 P C rounds c root) (write_header_v1 P K rounds c root)
    unfolding write_header_v1 write_string write_uint16
    write_header_v1-Sound rounds root n c count =
        continue-Sound _ _ _ _ (send-Sound law [] true) (λ u.
          continue-Sound _ _ _ _ (send-Sound law magic_number false) (λ u'.
            continue-Sound _ _ _ _ (send-Sound law (big_endian 2 1) false)
              (λ u''. numbers-Sound root (reachable_count P.visited rounds c root) n count)))

    write_footer_v1-Sound :
        (root : ℕ) (c : NodeCache) → Sound (write_footer_v1 P C c root) (write_footer_v1 P K c root)
    unfolding write_footer_v1 write_uint32
    write_footer_v1-Sound root c = elim (Bool-cases (get_type root == terminal_node)) [
      | inl single ↦ rw single (send-Sound law (big_endian 4 (terminal_value root)) false)
      | inr other ↦ rw other (record { ends = λ st k h. (k, refl, h) })
    ]

    write_terminal_v1-Sound : (v : ℕ) → Sound (write_terminal_v1 P C v) (write_terminal_v1 P K v)
    unfolding write_terminal_v1
    write_terminal_v1-Sound v = record { ends = λ st k h. (k, refl, h) }

    writer_v1-Sound :
        (rounds root n : ℕ) (c : NodeCache)
        → reachable_count P.visited rounds c root ≡ some n
        → SoundWriter (writer_v1 P C rounds) (writer_v1 P K rounds) c root
    unfolding writer_v1
    writer_v1-Sound rounds root n c count = record {
      header = write_header_v1-Sound rounds root n c count;
      footer = write_footer_v1-Sound root c;
      terminal = write_terminal_v1-Sound;
      nonterminal = write_nonterminal_v1-Sound law;
    }

    -- For a diagram of a well-formed cache, with a depth above its height and more rounds than
    -- twice the largest index plus one: `save` ends in success for both consumers, with what holds
    -- of them until a refusal, or at once in failure with what holds when the first one has refused.
    pub save-Ends :
        {c : NodeCache} {g : Graph} {r : ℕ → ℕ} {free : List ℕ} (inv : Invariant c g r free)
        (depth rounds root : ℕ) (t : Tree) (stream : C.State) (k : K.State)
        → Repr g root t
        → height t < depth
        → 2 * c.largest_index + 1 < rounds
        → Good stream k
        → Ends (save P C depth rounds c root stream) (save P K depth rounds c root k)
    unfolding save
    save-Ends {c} inv depth rounds root t stream k rep deep enough good =
        let (reached, count, marks) =
          reachable_count-ok inv P.visited root rounds enough (known_node rep) in
        let n = sum_below c.largest_index (λ i. bit (reached i)) in
        (save_bdd-Sound inv (writer_v1 P C rounds) (writer_v1 P K rounds) root
            (writer_v1-Sound rounds root n c count) depth t deep rep).ends
          _ k good
