-- ===== src/Build/Document/Meaning.antt =====
-- What src/ipsetbuild/ipsetbuild.c reads of a line of a document.
use libcorkipset.Prelude.{
  ℕ, ◌≡◌, refl, sym, subst, ap, Option, ◌∙◌, inl, inr, Bool, true, false, not, ◌&&◌, none, some,
  List, [], ◌++◌, ◌∷◌, ◌==◌, Bool-cases,
}
use libcorkipset.Address.{CorkIp}
use libcorkipset.Build.{
  Parsing, Line, skipped, newline, number_sign, exclamation_mark, starts_with, split_at_slash,
  address_line, cidr_line, read_address, read_line,
}
use libcorkipset.Build.Wanted.{adds, removes, is_faulty}
use libcorkipset.Build.Document.{
  Entry, signed, has_byte, comment, blank, single, block, text_of, first_is, is_visible, IsEntry,
  is_wrong, puts_in, takes_away,
}
use libcorkipset.Build.Document.Lines.{
  chomp-text, split_at_slash-address, split_at_slash-block, is_string_whitespace-text,
}
use libcorkipset.Build.Document.Says.{address_line-Says, cidr_line-Says}

module _ (L : Parsing) (loose_cidr : Bool) where
  -- What an entry's line is read as says what the entry says.
  pub record Means (e : Entry) (line : Line) : Type 0 where
    pub faulty : is_faulty line ≡ is_wrong L loose_cidr e
    pub additions : (a : CorkIp) → adds a line ≡ puts_in L loose_cidr a e
    pub removals : (a : CorkIp) → removes a line ≡ takes_away L loose_cidr a e

  abbrev split_line : Bool → List ℕ × Option (List ℕ) → Line
  split_line removed parts = elim parts.1 [
    | none ↦ address_line L loose_cidr removed parts.0
    | some after ↦ cidr_line L loose_cidr removed parts.0 after
  ]

  read_address-single :
      (removed : Bool) (address : List ℕ)
      → has_byte b'/' address ≡ false
      → read_address L loose_cidr removed (address ++ newline ∷ [])
        ≡ address_line L loose_cidr removed address
  unfolding read_address
  read_address-single removed address no_slash =
      ap (split_line removed)
        (ap split_at_slash (chomp-text address) ∙ split_at_slash-address address no_slash)

  read_address-block :
      (removed : Bool) (address cidr : List ℕ)
      → has_byte b'/' address ≡ false
      → read_address L loose_cidr removed ((address ++ b'/' ∷ cidr) ++ newline ∷ [])
        ≡ cidr_line L loose_cidr removed address cidr
  unfolding read_address
  read_address-block removed address cidr no_slash = ap (split_line removed) (
      ap split_at_slash (chomp-text (address ++ b'/' ∷ cidr))
      ∙ split_at_slash-block address cidr no_slash)

  starts_with-first :
      (c : ℕ) (text : List ℕ)
      → (newline == c) ≡ false
      → starts_with c (text ++ newline ∷ []) ≡ first_is c text
  starts_with-first c [] other = other
  starts_with-first c (d ∷ text) other = refl

  module _ (space : L.isspace newline ≡ true) where
    read_line-blank :
        (spaces : List ℕ)
        → is_visible L spaces ≡ false
        → read_line L loose_cidr (spaces ++ newline ∷ []) ≡ skipped
    unfolding read_line
    read_line-blank spaces invisible =
        elim (Bool-cases (starts_with number_sign (spaces ++ newline ∷ []))) [
          | inl comment_line ↦ rw comment_line refl
          | inr other ↦ rw (other, is_string_whitespace-text L spaces space, invisible) refl
        ]

    -- A line with an address is read from behind its '!'.
    read_line-address :
        (removed : Bool) (text : List ℕ)
        → (not removed && first_is b'#' (signed removed text)) ≡ false
        → (not removed && first_is b'!' (signed removed text)) ≡ false
        → is_visible L (signed removed text) ≡ true
        → read_line L loose_cidr (signed removed text ++ newline ∷ [])
          ≡ read_address L loose_cidr removed (text ++ newline ∷ [])
    unfolding read_line
    read_line-address true text no_comment no_sign visible =
        rw (is_string_whitespace-text L (b'!' ∷ text) space, visible) refl
    read_line-address false text no_comment no_sign visible =
        rw
          (
            starts_with-first number_sign text refl,
            starts_with-first exclamation_mark text refl,
            no_comment,
            no_sign,
            is_string_whitespace-text L text space,
            visible,
          )
          refl

    -- Every line of a document is read as what it says.
    pub read_line-Means :
        (e : Entry) → IsEntry L e → Means e (read_line L loose_cidr (text_of e ++ newline ∷ []))
    unfolding read_line
    read_line-Means (comment text) is_entry = record {
      faulty = refl;
      additions = λ a. refl;
      removals = λ a. refl;
    }
    read_line-Means (blank spaces) is_entry =
        subst (Means (blank spaces)) (sym (read_line-blank spaces is_entry.form))
          (record { faulty = refl; additions = λ a. refl; removals = λ a. refl })
    read_line-Means (single removed address) is_entry =
        let form = is_entry.form in
        let says = address_line-Says L loose_cidr removed address (L.cork_ip_init address) in
        subst (Means (single removed address))
          (sym (
            read_line-address removed address form.no_comment form.no_sign form.visible
            ∙ read_address-single removed address form.no_slash))
          (record { faulty = says.faulty; additions = says.additions; removals = says.removals })
    read_line-Means (block removed address cidr) is_entry =
        let form = is_entry.form in
        let says = cidr_line-Says L loose_cidr removed address cidr in
        subst (Means (block removed address cidr))
          (sym (
            read_line-address removed (address ++ b'/' ∷ cidr) form.no_comment form.no_sign
              form.visible
            ∙ read_address-block removed address cidr form.no_slash))
          (record { faulty = says.faulty; additions = says.additions; removals = says.removals })
