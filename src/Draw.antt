-- ===== src/Draw.antt =====
-- The program src/ipsetdot/ipsetdot.c: it writes the diagram of a set in a file for GraphViz.
use libcorkipset.Prelude.{
  ℕ, Bool, true, false, ◌⊎◌, inl, inr, Option, none, some, List, [], ◌∷◌, ◌++◌,
}
use libcorkipset.Node.{NodeTable}
use libcorkipset.Pointers.{PointerTables}
use libcorkipset.Stream.{Stdio, codes}
use libcorkipset.Save as Saving
use libcorkipset.Set.{IpSet}
use libcorkipset.Dot.{Printf, save_set_dot}
use libcorkipset.Tool.{
  Files, Notice, one_input_file, usage, cannot_open, error_saving, writing, Choice, help, networks,
  verbose, unrecognized, output, Exit, exit, when, name_of, open_output, load_file,
}

-- The variables that the options set.
pub record Options : Type 0 where
  pub output_filename : List ℕ
  pub is_verbose : Bool

abbrev pub default_options : Options
default_options = record { output_filename = codes "-"; is_verbose = false }

-- There is no option for networks.
unfoldable pub parse_options : {File : Type 0} → List Choice → Options → Exit File ⊎ Options
parse_options [] options = inr options
parse_options (help ∷ choices) options = inl (exit 0 [])
parse_options (output optarg ∷ choices) options =
    parse_options choices (record options { output_filename = optarg })
parse_options (verbose ∷ choices) options =
    parse_options choices (record options { is_verbose = true })
parse_options (networks ∷ choices) options = inl (exit 1 (usage ∷ []))
parse_options (unrecognized ∷ choices) options = inl (exit 1 (usage ∷ []))

module _ ⦃T : NodeTable⦄ (P : PointerTables) (O : Stdio) (F : Printf) (S : Files O.File) where
  unfoldable pub draw_set : List Notice → IpSet → O.File → Option (Exit O.File)
  draw_set notices set ostream = elim (save_set_dot P O F set ostream) [
    | Saving.ok u data_ ↦
        some (record { status = 0; notices = notices; stream = some data_.stream.fp })
    | Saving.refused data_ ↦ some (record {
      status = 1;
      notices = notices ++ error_saving ∷ [];
      stream = some data_.stream.fp;
    })
    | Saving.stuck ↦ none
  ]

  unfoldable pub run : Options → List ℕ → Option (Exit O.File)
  unfolding draw_set
  run options input_filename = elim (load_file P S options.is_verbose input_filename) [
    | none ↦ none
    | some (inl end) ↦ some end
    | some (inr (notices, set)) ↦
        let name = name_of (codes "stdout") options.output_filename in
        let notices' = notices ++ when options.is_verbose (writing name) in
        elim (open_output S options.output_filename) [
          | none ↦ some (exit 1 (notices' ++ cannot_open options.output_filename ∷ []))
          | some ostream ↦ draw_set notices' set ostream
        ]
  ]

  -- Exactly one input file is taken.
  unfoldable pub main : List Choice → List (List ℕ) → Option (Exit O.File)
  unfolding parse_options run
  main choices arguments = elim (parse_options choices default_options) [
    | inl end ↦ some end
    | inr options ↦ elim arguments [
      | [] ↦ some (exit 1 (one_input_file ∷ usage ∷ []))
      | input_filename ∷ [] ↦ run options input_filename
      | input_filename ∷ other ∷ arguments' ↦ some (exit 1 (one_input_file ∷ usage ∷ []))
    ]
  ]
