-- ===== src/Build/Document/Whole.antt =====
-- What all the files of a run of src/ipsetbuild/ipsetbuild.c say.
use libcorkipset.Prelude.{
  ◌≡◌, refl, ap, ◌∙◌, Bool, true, not, ◌&&◌, ◌||◌, List, ◌∷◌, ◌++◌, length, length-map, map, any,
}
use libcorkipset.Address.{CorkIp}
use libcorkipset.Load.{InFile}
use libcorkipset.Build.{Parsing, Options, Line, newline}
use libcorkipset.Build.Wanted.{adds, removes, is_faulty, said, asked}
use libcorkipset.Build.Document.{
  Entry, IsEntry, AreEntries, no_entries, one_more, Contain, no_inputs, one_input, is_wrong,
  puts_in, takes_away, described,
}
use libcorkipset.Build.Document.Lines.{line_of, said-Contain}
use libcorkipset.Build.Document.Meaning.{read_line-Means}

module _ (L : Parsing) where
  AreEntries-append :
      {es more : List Entry} → AreEntries L es → AreEntries L more → AreEntries L (es ++ more)
  AreEntries-append no_entries others = others
  AreEntries-append (one_more is_entry rest) others =
      one_more is_entry (AreEntries-append rest others)

  Contain-AreEntries :
      {inputs : List InFile} {es : List Entry} → Contain L inputs es → AreEntries L es
  Contain-AreEntries no_inputs = no_entries
  Contain-AreEntries (one_input are_entries holds others) =
      AreEntries-append are_entries (Contain-AreEntries others)

  module _ (options : Options) where
    any-line_of :
        (on_line : Line → Bool) (on_entry : Entry → Bool)
        → ((e : Entry) → IsEntry L e → on_line (line_of L options e) ≡ on_entry e)
        → {es : List Entry} → AreEntries L es
        → any on_line (map (line_of L options) es) ≡ any on_entry es
    any-line_of on_line on_entry same no_entries = refl
    any-line_of on_line on_entry same {es = e ∷ es} (one_more is_entry others) =
        ap (λ b. b || any on_line (map (line_of L options) es)) (same e is_entry)
        ∙ ap (λ b. on_entry e || b) (any-line_of on_line on_entry same others)

    module _ (space : L.isspace newline ≡ true) {inputs : List InFile} {es : List Entry}
        (held : Contain L inputs es) where
      abbrev entries_held : AreEntries L es
      entries_held = Contain-AreEntries held

      pub length-said : length (said L options inputs) ≡ length es
      length-said = ap length (said-Contain L options held) ∙ length-map (line_of L options) es

      pub said-is_wrong :
          any is_faulty (said L options inputs) ≡ any (is_wrong L options.loose_cidr) es
      said-is_wrong =
          ap (any is_faulty) (said-Contain L options held)
          ∙ any-line_of is_faulty (is_wrong L options.loose_cidr)
              (λ e is_entry. (read_line-Means L options.loose_cidr space e is_entry).faulty)
              entries_held

      pub asked-described :
          (a : CorkIp) → asked L options inputs a ≡ described L options.loose_cidr es a
      asked-described a =
          ap (λ lines. any (adds a) lines && not (any (removes a) lines))
            (said-Contain L options held)
          ∙ ap (λ b. b && not (any (removes a) (map (line_of L options) es)))
              (any-line_of (adds a) (puts_in L options.loose_cidr a)
                (λ e is_entry. (read_line-Means L options.loose_cidr space e is_entry).additions a)
                entries_held)
          ∙ ap (λ b. any (puts_in L options.loose_cidr a) es && not b)
              (any-line_of (removes a) (takes_away L options.loose_cidr a)
                (λ e is_entry. (read_line-Means L options.loose_cidr space e is_entry).removals a)
                entries_held)
