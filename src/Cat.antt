-- ===== src/Cat.antt =====
-- The program src/ipsetcat/ipsetcat.c: it prints the addresses or networks of a set in a file.
pub mod Truncated
use libcorkipset.Prelude.{
  ℕ, zero, suc, Bool, true, false, ◌&&◌, ◌||◌, ◌⊎◌, inl, inr, Option, none, some, List, [], ◌∷◌,
  ◌++◌, ◌==◌, if◌then◌else◌,
}
use libcorkipset.Node.{NodeTable}
use libcorkipset.Pointers.{PointerTables}
use libcorkipset.Stream.{codes}
use libcorkipset.Cache.{NodeCache}
use libcorkipset.Address.{CorkIp}
use libcorkipset.Set.{IpSet, depth}
use libcorkipset.Networks.{IpsetIterator, iterate_addresses, iterate_networks, advance}
use libcorkipset.Tool.{
  Files, Notice, one_input_file, usage, cannot_open, cannot_write, writing, Choice, help, networks,
  verbose, unrecognized, output, Exit, exit, when, name_of, open_output, load_file,
}

-- libcork's printing of an address and of a number, and `fputs` of stdio, which tells whether it
-- has written the text.
pub record Printing (File : Type 0) : Type 0 where
  pub cork_ip_to_raw_string : CorkIp → List ℕ
  pub unsigned : ℕ → List ℕ
  pub fputs : List ℕ → File → Bool × File

-- The variables that the options set.
pub record Options : Type 0 where
  pub output_filename : List ℕ
  pub is_verbose : Bool
  pub want_networks : Bool

abbrev pub default_options : Options
default_options = record { output_filename = codes "-"; is_verbose = false; want_networks = false }

unfoldable pub parse_options : {File : Type 0} → List Choice → Options → Exit File ⊎ Options
parse_options [] options = inr options
parse_options (help ∷ choices) options = inl (exit 0 [])
parse_options (networks ∷ choices) options =
    parse_options choices (record options { want_networks = true })
parse_options (output optarg ∷ choices) options =
    parse_options choices (record options { output_filename = optarg })
parse_options (verbose ∷ choices) options =
    parse_options choices (record options { is_verbose = true })
parse_options (unrecognized ∷ choices) options = inl (exit 1 (usage ∷ []))

module _ {File : Type 0} (W : Printing File) where
  -- A line of the output: no prefix is printed for a single address.
  unfoldable pub line_of : IpsetIterator → List ℕ
  line_of it =
      let ip_buf = W.cork_ip_to_raw_string it.addr in
      if (it.addr.version == 4 && it.cidr_prefix == 32)
        || (it.addr.version == 6 && it.cidr_prefix == 128)
      then ip_buf ++ codes "\n"
      else ip_buf ++ (codes "/" ++ (W.unsigned it.cidr_prefix ++ codes "\n"))

  -- The loop over the iterator, for at most so many rounds: whether every line has been written,
  -- and the output.
  unfoldable pub print_addresses :
      ⦃T : NodeTable⦄ → (rounds fuel : ℕ) → NodeCache → IpsetIterator → File → Option (Bool × File)
  unfolding line_of
  print_addresses zero fuel cache it ostream = none
  print_addresses (suc rounds) fuel cache it ostream = elim it.finished [
    | true ↦ some (true, ostream)
    | false ↦
        let (written, ostream') = W.fputs (line_of it) ostream in
        elim written [
          | false ↦ some (false, ostream')
          | true ↦ elim (advance fuel depth cache it) [
            | none ↦ none
            | some it' ↦ print_addresses rounds fuel cache it' ostream'
          ]
        ]
  ]

module _ ⦃T : NodeTable⦄ (P : PointerTables) {File : Type 0} (S : Files File)
    (W : Printing File) where
  unfoldable pub start_iterator : (fuel : ℕ) → Options → IpSet → Option IpsetIterator
  start_iterator fuel options set =
      if options.want_networks
      then iterate_networks fuel depth set 1
      else iterate_addresses fuel depth set 1

  unfoldable pub print_set :
      (rounds fuel : ℕ) → Options → List Notice → IpSet → File → Option (Exit File)
  unfolding print_addresses start_iterator
  print_set rounds fuel options notices set ostream =
      let name = name_of (codes "stdout") options.output_filename in
      elim (start_iterator fuel options set) [
        | none ↦ none
        | some it ↦ elim (print_addresses W rounds fuel set.cache it ostream) [
          | none ↦ none
          | some (true, file) ↦ some (record { status = 0; notices = notices; stream = some file })
          | some (false, file) ↦ some (record {
            status = 1;
            notices = notices ++ cannot_write name ∷ [];
            stream = some file;
          })
        ]
      ]

  unfoldable pub run : (rounds fuel : ℕ) → Options → List ℕ → Option (Exit File)
  unfolding print_set
  run rounds fuel options input_filename = elim (load_file P S options.is_verbose input_filename) [
    | none ↦ none
    | some (inl end) ↦ some end
    | some (inr (notices, set)) ↦
        let name = name_of (codes "stdout") options.output_filename in
        let notices' = notices ++ when options.is_verbose (writing name) in
        elim (open_output S options.output_filename) [
          | none ↦ some (exit 1 (notices' ++ cannot_open options.output_filename ∷ []))
          | some ostream ↦ print_set rounds fuel options notices' set ostream
        ]
  ]

  -- Exactly one input file is taken.
  unfoldable pub main : (rounds fuel : ℕ) → List Choice → List (List ℕ) → Option (Exit File)
  unfolding parse_options run
  main rounds fuel choices arguments = elim (parse_options choices default_options) [
    | inl end ↦ some end
    | inr options ↦ elim arguments [
      | [] ↦ some (exit 1 (one_input_file ∷ usage ∷ []))
      | input_filename ∷ [] ↦ run rounds fuel options input_filename
      | input_filename ∷ other ∷ arguments' ↦ some (exit 1 (one_input_file ∷ usage ∷ []))
    ]
  ]
