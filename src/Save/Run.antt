-- ===== src/Save/Run.antt =====
-- Writing to a consumer that accepts everything.
use libcorkipset.Prelude.{ℕ, ◌≡◌, ap, ◌∙◌, Bool, false, List, ◌++◌}
use mathlib.Core.List.{append_assoc}
use libcorkipset.Node.{NodeTable}
use libcorkipset.Pointers.{PointerTables}
use libcorkipset.SerializedId.{ℤ, to_uint32, decrement}
use libcorkipset.BigEndian.{big_endian}
use libcorkipset.Stream.{Consumer, Accepts}
use libcorkipset.Save.{
  SaveData, ok, send, write_uint8, write_uint32, write_nonterminal_v1, save_nonterminal, writer_v1,
}
use libcorkipset.Save.Entry.{Entry, entry_bytes}

module _ ⦃T : NodeTable⦄ (P : PointerTables) {C : Consumer} (acc : Accepts C) where
  -- The state after a chunk.
  abbrev pub after : List ℕ → Bool → SaveData P C → SaveData P C
  after buf is_first st = record st { stream = (C.consume buf is_first st.stream).1 }

  abbrev pub contents : SaveData P C → List ℕ
  contents st = acc.contents st.stream

  pub send-ok :
      (buf : List ℕ) (is_first : Bool) (st : SaveData P C)
      → send P C buf is_first st ≡ ok tt (after buf is_first st)
  unfolding send
  send-ok buf is_first st = rw (acc.accepted buf is_first st.stream)

  -- The state after the three numbers of an entry.
  abbrev pub after_entry : Entry → SaveData P C → SaveData P C
  after_entry e st =
      after (big_endian 4 (to_uint32 e.high)) false
        (after (big_endian 4 (to_uint32 e.low)) false (after (big_endian 1 e.variable) false st))

  pub after_entry-contents :
      (e : Entry) (st : SaveData P C) → contents (after_entry e st) ≡ contents st ++ entry_bytes e
  after_entry-contents e st =
      let one = big_endian 1 e.variable in
      let two = big_endian 4 (to_uint32 e.low) in
      let three = big_endian 4 (to_uint32 e.high) in
      let st1 = after one false st in
      let st2 = after two false st1 in
      acc.appended three false st2.stream
      ∙ ap (λ ys. ys ++ three)
          (acc.appended two false st1.stream
            ∙ ap (λ ys. ys ++ two) (acc.appended one false st.stream))
      ∙ ap (λ ys. ys ++ three) (append_assoc (contents st) one two)
      ∙ append_assoc (contents st) (one ++ two) three
      ∙ ap (λ ys. contents st ++ ys) (append_assoc one two three)

  pub write_nonterminal_v1-ok :
      (serialized_node : ℤ) (e : Entry) (st : SaveData P C)
      → write_nonterminal_v1 P C serialized_node e.variable e.low e.high st
        ≡ ok tt (after_entry e st)
  unfolding write_nonterminal_v1 write_uint8 write_uint32
  write_nonterminal_v1-ok s e st =
      let st1 = after (big_endian 1 e.variable) false st in
      let st2 = after (big_endian 4 (to_uint32 e.low)) false st1 in
      rw (
        send-ok (big_endian 1 e.variable) false st,
        send-ok (big_endian 4 (to_uint32 e.low)) false st1,
        send-ok (big_endian 4 (to_uint32 e.high)) false st2,
      )

  -- The state after a nonterminal has been saved.
  abbrev pub after_nonterminal : ℕ → Entry → SaveData P C → SaveData P C
  after_nonterminal node_id e st = after_entry e (record st {
    next_serialized_id = decrement st.next_serialized_id;
    serialized_ids = P.serialized_ids.put st.serialized_ids node_id st.next_serialized_id;
  })

  pub save_nonterminal-ok :
      (rounds node_id : ℕ) (e : Entry) (st : SaveData P C)
      → save_nonterminal P C (writer_v1 P C rounds) node_id e.variable e.low e.high st
        ≡ ok st.next_serialized_id (after_nonterminal node_id e st)
  unfolding save_nonterminal writer_v1
  save_nonterminal-ok rounds node_id e st = rw (
      write_nonterminal_v1-ok st.next_serialized_id e (record st {
        next_serialized_id = decrement st.next_serialized_id;
        serialized_ids = P.serialized_ids.put st.serialized_ids node_id st.next_serialized_id;
      }))
