-- ===== src/Build/Document/Lines.antt =====
-- The lines that the loop over `fgets` of src/ipsetbuild/ipsetbuild.c sees of a document.
use libcorkipset.Prelude.{
  ℕ, ◌-◌, ◌<◌, ◌≡◌, refl, sym, ap, ◌∙◌, inl, inr, Bool, true, false, none, some, List, [], ◌++◌,
  ◌∷◌, ◌==◌, ◌||◌, length, map, ne→==, Bool-cases, arith, not,
}
use mathlib.Core.List.{append_assoc}
use libcorkipset.Load.{InFile}
use libcorkipset.Build.{
  Parsing, Options, newline, fgets_lines, c_string, chomp, split_at_slash, is_string_whitespace,
  Line, read_line,
}
use libcorkipset.Build.Wanted.{said}
use libcorkipset.Build.Document.{
  Entry, text_of, contents_of, has_byte, is_visible, AreEntries, no_entries, one_more, Contain,
  no_inputs, one_input,
}

fgets_lines-step :
    (fails : Bool) (room : ℕ) (kept : List ℕ) (c : ℕ) (stream : List ℕ)
    → (c == newline || room == 1) ≡ false
    → fgets_lines fails room kept (c ∷ stream)
      ≡ fgets_lines fails (room - 1) (kept ++ c ∷ []) stream
unfolding fgets_lines
fgets_lines-step fails room [] c stream e = rw (fgets_lines, e) refl
fgets_lines-step fails room (d ∷ kept) c stream e = rw (fgets_lines, e) refl

fgets_lines-newline :
    (fails : Bool) (room : ℕ) (kept stream : List ℕ)
    → fgets_lines fails room kept (newline ∷ stream)
      ≡ (kept ++ newline ∷ []) ∷ fgets_lines fails 4095 [] stream
unfolding fgets_lines
fgets_lines-newline fails room [] stream = refl
fgets_lines-newline fails room (d ∷ kept) stream = refl

or-parts : (a b : Bool) → (a || b) ≡ false → (a ≡ false) × (b ≡ false)
or-parts true b e = absurd cc
or-parts false b e = (refl, e)

-- A line that fits in the buffer is read whole.
fgets_lines-text :
    (fails : Bool) (text : List ℕ) (room : ℕ) (kept stream : List ℕ)
    → has_byte newline text ≡ false
    → length text < room
    → fgets_lines fails room kept (text ++ newline ∷ stream)
      ≡ (kept ++ (text ++ newline ∷ [])) ∷ fgets_lines fails 4095 [] stream
fgets_lines-text fails [] room kept stream none_here short =
    fgets_lines-newline fails room kept stream
fgets_lines-text fails (c ∷ text) room kept stream none_here short =
    let (other, later) = or-parts (c == newline) (has_byte newline text) none_here in
    let more : (room == 1) ≡ false = ne→== room 1 (λ p. omega arith) in
    fgets_lines-step fails room kept c (text ++ newline ∷ stream) (rw (other, more) refl)
    ∙ fgets_lines-text fails text (room - 1) (kept ++ c ∷ []) stream later (omega arith)
    ∙ ap (λ line. line ∷ fgets_lines fails 4095 [] stream)
        (append_assoc kept (c ∷ []) (text ++ newline ∷ []))

c_string-text :
    (text : List ℕ)
    → has_byte 0 text ≡ false
    → c_string (text ++ newline ∷ []) ≡ text ++ newline ∷ []
unfolding c_string
c_string-text [] none_here = refl
c_string-text (c ∷ text) none_here =
    let (other, later) = or-parts (c == 0) (has_byte 0 text) none_here in
    rw (other, c_string-text text later) refl

pub chomp-text : (text : List ℕ) → chomp (text ++ newline ∷ []) ≡ text
unfolding chomp
chomp-text [] = refl
chomp-text (c ∷ []) = refl
chomp-text (c ∷ d ∷ text) = ap (λ more. c ∷ more) (chomp-text (d ∷ text))

pub split_at_slash-address :
    (address : List ℕ) → has_byte 47 address ≡ false → split_at_slash address ≡ (address, none)
unfolding split_at_slash
split_at_slash-address [] none_here = refl
split_at_slash-address (c ∷ address) none_here =
    let (other, later) = or-parts (c == 47) (has_byte 47 address) none_here in
    rw (other, split_at_slash-address address later) refl

pub split_at_slash-block :
    (address cidr : List ℕ)
    → has_byte 47 address ≡ false
    → split_at_slash (address ++ 47 ∷ cidr) ≡ (address, some cidr)
unfolding split_at_slash
split_at_slash-block [] cidr none_here = refl
split_at_slash-block (c ∷ address) cidr none_here =
    let (other, later) = or-parts (c == 47) (has_byte 47 address) none_here in
    rw (other, split_at_slash-block address cidr later) refl

pub is_string_whitespace-text :
    (L : Parsing) (text : List ℕ)
    → L.isspace newline ≡ true
    → is_string_whitespace L (text ++ newline ∷ []) ≡ not (is_visible L text)
unfolding is_string_whitespace
is_string_whitespace-text L [] space = rw space refl
is_string_whitespace-text L (c ∷ text) space = elim (Bool-cases (L.isspace c)) [
  | inl yes_space ↦ rw yes_space (is_string_whitespace-text L text space)
  | inr other ↦ rw other refl
]

module _ (L : Parsing) (options : Options) where
  -- What the program makes of one line of a document.
  abbrev pub line_of : Entry → Line
  line_of e = read_line L options.loose_cidr (text_of e ++ newline ∷ [])

  lines-contents_of :
      (fails : Bool) (es : List Entry)
      → AreEntries L es
      → map
          (read_line L options.loose_cidr)
          (map c_string (fgets_lines fails 4095 [] (contents_of es)))
        ≡ map line_of es
  unfolding contents_of fgets_lines
  lines-contents_of fails [] no_entries = refl
  lines-contents_of fails (e ∷ es) (one_more is_entry others) =
      ap (λ lines. map (read_line L options.loose_cidr) (map c_string lines))
        (fgets_lines-text fails (text_of e) 4095 [] (contents_of es) is_entry.no_newline
          (omega (arith, is_entry.short)))
      ∙ ap
          (λ line.
            read_line L options.loose_cidr line
            ∷ map (read_line L options.loose_cidr)
                (map c_string (fgets_lines fails 4095 [] (contents_of es))))
          (c_string-text (text_of e) is_entry.no_nul)
      ∙ ap (λ lines. line_of e ∷ lines) (lines-contents_of fails es others)

  map-append :
      (es more : List Entry) → map line_of (es ++ more) ≡ map line_of es ++ map line_of more
  map-append [] more = refl
  map-append (e ∷ es) more = ap (λ lines. line_of e ∷ lines) (map-append es more)

  pub said-Contain :
      {inputs : List InFile} {es : List Entry}
      → Contain L inputs es
      → said L options inputs ≡ map line_of es
  said-Contain no_inputs = refl
  said-Contain {inputs = input ∷ inputs} (one_input {es} {more} are_entries holds others) =
      ap
        (λ bytes.
          map (read_line L options.loose_cidr)
            (map c_string (fgets_lines input.fails 4095 [] bytes))
          ++ said L options inputs)
        holds
      ∙ ap (λ lines. lines ++ said L options inputs) (lines-contents_of input.fails es are_entries)
      ∙ ap (λ lines. map line_of es ++ lines) (said-Contain others)
      ∙ sym (map-append es more)
