-- ===== src/Save/Entry.antt =====
-- The nonterminals of a file as a list of entries, and the bytes of version 1 for them.
use libcorkipset.Prelude.{ℕ, ◌≡◌, sym, ap, ◌∙◌, List, [], ◌∷◌, ◌++◌}
use mathlib.Core.List.{append_assoc, append-nil}
use libcorkipset.SerializedId.{ℤ, to_uint32}
use libcorkipset.BigEndian.{big_endian}

pub record Entry : Type 0 where
  pub variable : ℕ
  pub low : ℤ
  pub high : ℤ

abbrev pub entry_bytes : Entry → List ℕ
entry_bytes e =
    big_endian 1 e.variable ++ (big_endian 4 (to_uint32 e.low) ++ big_endian 4 (to_uint32 e.high))

abbrev pub encode : List Entry → List ℕ
encode [] = []
encode (e ∷ es) = entry_bytes e ++ encode es

pub encode-snoc : (es : List Entry) (e : Entry) → encode (es ++ e ∷ []) ≡ encode es ++ entry_bytes e
encode-snoc [] e = append-nil (entry_bytes e)
encode-snoc (x ∷ es) e =
    ap (λ ys. entry_bytes x ++ ys) (encode-snoc es e)
    ∙ sym (append_assoc (entry_bytes x) (encode es) (entry_bytes e))
