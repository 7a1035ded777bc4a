-- ===== src/Build/Main.antt =====
-- The options and the output: the rest of `main` in src/ipsetbuild/ipsetbuild.c.
use libcorkipset.Prelude.{
  ℕ, zero, suc, true, false, ◌⊎◌, inl, inr, Option, none, some, List, [], ◌∷◌, ◌++◌,
}
use libcorkipset.SerializedId.{ℤ, pos, negsuc, decrement}
use libcorkipset.Node.{NodeTable}
use libcorkipset.Pointers.{PointerTables}
use libcorkipset.Stream.{Stdio, codes}
use libcorkipset.Save as Saving
use libcorkipset.Storage.{save_set}
use libcorkipset.Reachable.{memory_size}
use libcorkipset.Tool.{Files, name_of, open_output}
use libcorkipset.Build.{Parsing, Options}
use libcorkipset.Build.Lines.{
  Message, cannot_open, no_input_file, no_output_file, usage, total_summary, writing, error_saving,
}
use libcorkipset.Build.Program.{Totals, exited, continued, verbose_messages, build}

-- What `getopt_long` returns, with `optarg`.
pub data Choice : Type 0 where
  help loose_cidr verbose quiet unrecognized : Choice
  output : (optarg : List ℕ) → Choice

-- `verbosity++`
abbrev increment : ℤ → ℤ
increment (pos n) = pos (suc n)
increment (negsuc zero) = pos 0
increment (negsuc (suc n)) = negsuc n

-- The exit status of the program, what it has written to its standard error, and its output stream
-- where it has opened one.
pub record Finished (File : Type 0) : Type 0 where
  pub status : ℕ
  pub messages : List Message
  pub stream : Option File

abbrev pub exit : {File : Type 0} → ℕ → List Message → Finished File
exit status messages = record { status = status; messages = messages; stream = none }

-- The loop over the options, which may end the program.
unfoldable pub parse_options : {File : Type 0} → List Choice → Options → Finished File ⊎ Options
parse_options [] options = inr options
parse_options (help ∷ choices) options = inl (exit 0 [])
parse_options (loose_cidr ∷ choices) options =
    parse_options choices (record options { loose_cidr = true })
parse_options (output optarg ∷ choices) options =
    parse_options choices (record options { output_filename = some optarg })
parse_options (verbose ∷ choices) options =
    parse_options choices (record options { verbosity = increment options.verbosity })
parse_options (quiet ∷ choices) options =
    parse_options choices (record options { verbosity = decrement options.verbosity })
parse_options (unrecognized ∷ choices) options = inl (exit 1 (usage ∷ []))

abbrev pub default_options : Options
default_options = record { output_filename = none; loose_cidr = false; verbosity = pos 0 }

module _ ⦃T : NodeTable⦄ (L : Parsing) (P : PointerTables) (O : Stdio) (S : Files O.File) where
  -- The counters and the name of the output.
  abbrev pub output_messages : ℕ → Options → List ℕ → Totals → List Message
  output_messages rounds options output_filename st =
      let memory = memory_size P.visited rounds st.set.cache st.set.set_bdd in
      st.messages
      ++ verbose_messages L options (
          total_summary st.total_ip_removed st.total memory
          ∷ writing (name_of (codes "stdout") output_filename)
          ∷ [])

  -- `rounds` bounds the walks over the nodes of the set.
  unfoldable pub write_set : ℕ → Options → List ℕ → Totals → Option (Finished O.File)
  write_set rounds options output_filename st =
      let messages = output_messages rounds options output_filename st in
      elim (open_output S output_filename) [
        | none ↦ some (exit 1 (messages ++ cannot_open output_filename ∷ []))
        | some fp ↦ elim (save_set P O rounds st.set fp) [
          | Saving.ok u data_ ↦
              some (record { status = 0; messages = messages; stream = some data_.stream.fp })
          | Saving.refused data_ ↦ some (record {
            status = 1;
            messages = messages ++ error_saving ∷ [];
            stream = some data_.stream.fp;
          })
          | Saving.stuck ↦ none
        ]
      ]

  -- The files are read after the arguments have been found complete.
  unfoldable pub run : ℕ → Options → List (List ℕ) → Option (Finished O.File)
  unfolding write_set
  run rounds options [] = some (exit 1 (no_input_file ∷ usage ∷ []))
  run rounds options (filename ∷ filenames) = elim options.output_filename [
    | none ↦ some (exit 1 (no_output_file ∷ usage ∷ []))
    | some output_filename ↦ elim (build L options S (filename ∷ filenames)) [
      | none ↦ none
      | some (exited messages) ↦ some (exit 1 messages)
      | some (continued st) ↦ write_set rounds options output_filename st
    ]
  ]

  unfoldable pub main : ℕ → List Choice → List (List ℕ) → Option (Finished O.File)
  unfolding parse_options run
  main rounds choices filenames = elim (parse_options choices default_options) [
    | inl finished ↦ some finished
    | inr options ↦ run rounds options filenames
  ]
