-- ===== src/Save/Header.antt =====
-- The header and the footer of version 1.
use libcorkipset.Prelude.{
  ℕ, ◌≡◌, sym, ap, ◌∙◌, inl, inr, true, false, Bool-cases, some, List, [], ◌++◌, ◌==◌,
  if◌then◌else◌,
}
use mathlib.Core.List.{append_assoc, append-nil}
use libcorkipset.Node.{NodeTable}
use libcorkipset.NodeId.{get_type, terminal_value, terminal_node}
use libcorkipset.Cache.{NodeCache}
use libcorkipset.Pointers.{PointerTables}
use libcorkipset.BigEndian.{big_endian}
use libcorkipset.Stream.{Consumer, Accepts}
use libcorkipset.Reachable.{reachable_count}
use libcorkipset.Save.{
  SaveData, ok, magic_number, set_size_v1, write_header_v1, write_footer_v1, write_string,
  write_uint16, write_uint32, write_uint64,
}
use libcorkipset.Save.Run.{contents, after, send-ok}

abbrev pub header_bytes : (root nonterminal_count : ℕ) → List ℕ
header_bytes root nonterminal_count =
    magic_number
    ++ (big_endian 2 1
        ++ (big_endian 8 (set_size_v1 root nonterminal_count) ++ big_endian 4 nonterminal_count))

abbrev pub footer_bytes : ℕ → List ℕ
footer_bytes root =
    if get_type root == terminal_node then big_endian 4 (terminal_value root) else []

module _ ⦃T : NodeTable⦄ (P : PointerTables) {C : Consumer} (acc : Accepts C) where
  abbrev pub after_header : (root nonterminal_count : ℕ) → SaveData P C → SaveData P C
  after_header root n st = after P acc (big_endian 4 n) false (
      after P acc (big_endian 8 (set_size_v1 root n)) false (
        after P acc (big_endian 2 1) false
          (after P acc magic_number false (after P acc [] true st))))

  pub after_header-contents :
      (root n : ℕ) (st : SaveData P C)
      → contents P acc (after_header root n st) ≡ contents P acc st ++ header_bytes root n
  after_header-contents root n st =
      let a = big_endian 2 1 in
      let b = big_endian 8 (set_size_v1 root n) in
      let d = big_endian 4 n in
      let s = contents P acc st in
      let st1 = after P acc [] true st in
      let st2 = after P acc magic_number false st1 in
      let st3 = after P acc a false st2 in
      let st4 = after P acc b false st3 in
      let e1 = acc.appended [] true st.stream ∙ append-nil s in
      let e2 = acc.appended magic_number false st1.stream ∙ ap (λ ys. ys ++ magic_number) e1 in
      let e3 = acc.appended a false st2.stream ∙ ap (λ ys. ys ++ a) e2 in
      let e4 = acc.appended b false st3.stream ∙ ap (λ ys. ys ++ b) e3 in
      acc.appended d false st4.stream
      ∙ ap (λ ys. ys ++ d) e4
      ∙ append_assoc ((s ++ magic_number) ++ a) b d
      ∙ append_assoc (s ++ magic_number) a (b ++ d)
      ∙ append_assoc s magic_number (a ++ (b ++ d))

  pub write_header_v1-ok :
      (rounds root n : ℕ) (c : NodeCache) (st : SaveData P C)
      → reachable_count P.visited rounds c root ≡ some n
      → write_header_v1 P C rounds c root st ≡ ok tt (after_header root n st)
  unfolding write_header_v1 write_string write_uint16 write_uint64 write_uint32
  write_header_v1-ok rounds root n c st count =
      let st1 = after P acc [] true st in
      let st2 = after P acc magic_number false st1 in
      let st3 = after P acc (big_endian 2 1) false st2 in
      let st4 = after P acc (big_endian 8 (set_size_v1 root n)) false st3 in
      rw
        (
          send-ok P acc [] true st,
          send-ok P acc magic_number false st1,
          send-ok P acc (big_endian 2 1) false st2,
          count,
        )
        (rw (
          send-ok P acc (big_endian 8 (set_size_v1 root n)) false st3,
          send-ok P acc (big_endian 4 n) false st4,
        ))

  pub write_footer_v1-ok :
      (root : ℕ) (c : NodeCache) (st : SaveData P C)
      → (st' : SaveData P C) × (write_footer_v1 P C c root st ≡ ok tt st')
        × (contents P acc st' ≡ contents P acc st ++ footer_bytes root)
  unfolding write_footer_v1 write_uint32
  write_footer_v1-ok root c st = elim (Bool-cases (get_type root == terminal_node)) [
    | inl is_terminal ↦ (
      after P acc (big_endian 4 (terminal_value root)) false st,
      rw is_terminal (send-ok P acc (big_endian 4 (terminal_value root)) false st),
      rw is_terminal (acc.appended (big_endian 4 (terminal_value root)) false st.stream),
    )
    | inr other ↦ (st, rw other, rw other (sym (append-nil (contents P acc st))))
  ]
