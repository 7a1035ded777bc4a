-- ===== src/Examples/Build.antt =====
-- A run of src/ipsetbuild/ipsetbuild.c.
use libcorkipset.Prelude.{
  ℕ, ◌+◌, ◌-◌, ◌*◌, ◌^◌, ◌≡◌, ◌⊎◌, refl, true, false, ◌||◌, Option, none, some, List, [], ◌∷◌, ◌++◌,
  ◌==◌, length, ==-refl, any, Gives, arith, if◌then◌else◌,
}
use libcorkipset.Stream.{Stdio, Accepts, file_consumer, file_consumer_data, codes}
use libcorkipset.Address.{CorkIp}
use libcorkipset.Load.{InFile, same_bytes}
use libcorkipset.Tool.{Files, open_output}
use libcorkipset.Build.{
  Parsing, Options, entry, read_line, read_address, is_string_whitespace, chomp, split_at_slash,
}
use libcorkipset.Build.Main.{output, quiet, main, parse_options}
use libcorkipset.Build.Lines.{no_addresses}
use libcorkipset.Build.Program.{uncount}
use libcorkipset.Build.Document.{
  Entry, comment, blank, single, block, contents_of, AreEntries, no_entries, one_more, Contain,
  no_inputs, one_input, is_wrong, described,
}
use libcorkipset.Build.Reads.{Opens, standard_input, a_file, no_files}
use libcorkipset.Build.Complete.{Written, main-ok}
use libcorkipset.SerializedId.{negsuc}
use libcorkipset.Examples.Table.{node_table}
use libcorkipset.Examples.Files.{tables}

-- Decimal digits, and the number of bytes that they take.
abbrev digits : ℕ → ℕ → List ℕ → ℕ × ℕ
digits value used [] = (value, used)
digits value used (c ∷ text) =
    if c == 48 || c == 50 || c == 52
    then digits (value * 10 + (c - 48)) (used + 1) text
    else (value, used)

abbrev two_addresses : List ℕ → Option CorkIp
two_addresses text =
    if same_bytes text (codes "10.1.0.0")
    then some (record { version = 4; ip = 10 ∷ 1 ∷ 0 ∷ 0 ∷ [] })
    else (if same_bytes text (codes "10.1.2.3")
        then some (record { version = 4; ip = 10 ∷ 1 ∷ 2 ∷ 3 ∷ [] })
        else none)

abbrev parsing : Parsing
parsing = record {
  isspace = λ c. c == 32 || c == 10;
  strtol = digits 0 0;
  cork_ip_init = two_addresses;
  cork_ip_is_valid_network = λ addr cidr. cidr == 24;
}

-- A file that keeps everything.
abbrev keeping : Stdio
keeping = record {
  File = List ℕ;
  fwrite = λ buf file. (length buf, file ++ buf);
  ferror = λ file. false;
}

keeping_accepts : Accepts (file_consumer keeping)
unfolding file_consumer_data
keeping_accepts = record {
  contents = λ s. s.fp;
  accepted = λ buf is_first s. rw (==-refl (length buf)) refl;
  appended = λ buf is_first s. rw (==-refl (length buf)) refl;
}

abbrev one_file : InFile
one_file = record {
  rest = codes "# a network with a hole\n10.1.0.0/24\n";
  fails = false;
  error = false;
}

abbrev holes : InFile
holes = record { rest = codes "!10.1.2.3\n\n"; fails = false; error = false }

abbrev files : Files (List ℕ)
files = record {
  fopen_rb = λ name. some one_file;
  stdin = holes;
  fopen_wb = λ name. some [];
  stdout = [];
}

abbrev arguments : List (List ℕ)
arguments = codes "-" ∷ codes "sites" ∷ []

abbrev chosen : Options
chosen = record { output_filename = some (codes "out"); loose_cidr = false; verbosity = negsuc 0 }

files_open : Opens files false arguments (holes ∷ one_file ∷ [])
files_open = standard_input refl refl (a_file refl refl refl no_files)

abbrev hole_entries : List Entry
hole_entries = single true (codes "10.1.2.3") ∷ blank [] ∷ []

abbrev one_file_entries : List Entry
one_file_entries =
    comment (codes " a network with a hole") ∷ block false (codes "10.1.0.0") (codes "24") ∷ []

abbrev all_entries : List Entry
all_entries = hole_entries ++ (one_file_entries ++ [])

hole_entries_held : AreEntries parsing hole_entries
hole_entries_held =
    one_more
      (record {
        no_newline = refl;
        no_nul = refl;
        short = omega arith;
        form = record { no_slash = refl; no_comment = refl; no_sign = refl; visible = refl };
      })
      (one_more (record { no_newline = refl; no_nul = refl; short = omega arith; form = refl })
        no_entries)

one_file_entries_held : AreEntries parsing one_file_entries
one_file_entries_held =
    one_more (record { no_newline = refl; no_nul = refl; short = omega arith; form = tt })
      (one_more
        (record {
          no_newline = refl;
          no_nul = refl;
          short = omega arith;
          form = record { no_slash = refl; no_comment = refl; no_sign = refl; visible = refl };
        })
        no_entries)

files_held : Contain parsing (holes ∷ one_file ∷ []) all_entries
unfolding contents_of
files_held = one_input hole_entries_held refl (one_input one_file_entries_held refl no_inputs)

-- The last line of a file without a final newline loses its last byte.
no_final_newline :
    read_line parsing false (codes "10.1.2.34")
    ≡ entry false (codes "10.1.2.3") (record { version = 4; ip = 10 ∷ 1 ∷ 2 ∷ 3 ∷ [] }) none
unfolding read_line read_address is_string_whitespace chomp split_at_slash
no_final_newline = refl

-- A hole in a network takes one from the addresses that were added on their own.
counter_wraps :
    (uncount
      (record {
        line = 1;
        filename = [];
        address = record { version = 4; ip = [] };
        cidr = 0;
        has_cidr = false;
      })
      no_addresses).ip_count_v4
    ≡ 2 ^ 64 - 1
unfolding uncount
counter_wraps = refl

main-ok_example :
    Gives
      (main parsing tables keeping files 5000000000 (output (codes "out") ∷ quiet ∷ []) arguments)
      (λ end.
        ((any (is_wrong parsing false) all_entries ≡ true) × (end.status ≡ 1) × (end.stream ≡ none))
        ⊎ ((any (is_wrong parsing false) all_entries ≡ false)
            × Written tables keeping keeping_accepts []
                (described parsing false all_entries)
                false
                []
                end))
unfolding open_output parse_options
main-ok_example =
    main-ok tables keeping keeping_accepts parsing files 5000000000 chosen (codes "out") [] refl
      false [] (output (codes "out") ∷ quiet ∷ []) refl refl files_open files_held refl
      (omega arith) (omega arith)
