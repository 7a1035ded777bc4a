-- ===== src/Save/Size.antt =====
-- The length that the header of a file announces.
use libcorkipset.Prelude.{
  ℕ, ◌+◌, ◌*◌, ◌^◌, ◌≤◌, ◌<◌, ◌≡◌, inl, inr, List, [], ◌∷◌, ◌++◌, ◌==◌, arith, length,
  length-append, Bool-cases,
}
use libcorkipset.NodeId.{get_type, terminal_value, terminal_node}
use libcorkipset.BigEndian.{big_endian, length-big_endian}
use libcorkipset.Save.{magic_number, set_size_v1}
use libcorkipset.Save.Entry.{Entry, entry_bytes, encode}
use libcorkipset.Save.Header.{header_bytes, footer_bytes}
use libcorkipset.Save.Whole.{file_bytes}
use libcorkipset.SerializedId.{to_uint32}

length-entry_bytes : (e : Entry) → length (entry_bytes e) ≡ 9
length-entry_bytes e =
    let low = big_endian 4 (to_uint32 e.low) in
    let high = big_endian 4 (to_uint32 e.high) in
    omega (
      arith,
      length-append (big_endian 1 e.variable) (low ++ high),
      length-append low high,
      length-big_endian 1 e.variable,
      length-big_endian 4 (to_uint32 e.low),
      length-big_endian 4 (to_uint32 e.high),
    )

length-encode : (es : List Entry) → length (encode es) ≡ 9 * length es
length-encode [] = omega arith
length-encode (e ∷ es) =
    omega (arith, length-append (entry_bytes e) (encode es), length-entry_bytes e, length-encode es)

length-header_bytes : (root n : ℕ) → length (header_bytes root n) ≡ 20
length-header_bytes root n =
    let a = big_endian 2 1 in
    let two = length-big_endian 2 1 in
    let b = big_endian 8 (set_size_v1 root n) in
    let d = big_endian 4 n in
    omega (
      arith,
      length-append magic_number (a ++ (b ++ d)),
      length-append a (b ++ d),
      length-append b d,
      two,
      length-big_endian 8 (set_size_v1 root n),
      length-big_endian 4 n,
    )

size-footer_bytes :
    (root n : ℕ)
    → (set_size_v1 root n ≡ 20 + 9 * n + length (footer_bytes root))
      × (length (footer_bytes root) ≤ 4)
unfolding set_size_v1
size-footer_bytes root n = elim (Bool-cases (get_type root == terminal_node)) [
  | inl is_terminal ↦
      rw (is_terminal, length-big_endian 4 (terminal_value root), set_size_v1)
        (omega arith, omega arith)
  | inr other ↦ rw (other, set_size_v1) (omega arith, omega arith)
]

-- For at most 2^31 entries the length that the header announces is the number of bytes of the whole
-- file, and it fits in its 64-bit field.
pub set_size_v1-length :
    (root : ℕ) (es : List Entry)
    → length es ≤ 2 ^ 31
    → (set_size_v1 root (length es) ≡ length (file_bytes root es))
      × (set_size_v1 root (length es) < 2 ^ 64)
set_size_v1-length root es few =
    let whole = length-append (header_bytes root (length es)) (encode es ++ footer_bytes root) in
    let body = length-append (encode es) (footer_bytes root) in
    let (size, foot) = size-footer_bytes root (length es) in
    (
      omega (arith, whole, body, size, length-header_bytes root (length es), length-encode es),
      omega arith,
    )
