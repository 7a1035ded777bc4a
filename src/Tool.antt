-- ===== src/Tool.antt =====
-- What the programs under src/ipsetbuild, src/ipsetcat and src/ipsetdot share: the files that their
-- arguments name.
use libcorkipset.Prelude.{
  ℕ, Bool, true, false, ◌⊎◌, inl, inr, Option, none, some, List, [], ◌∷◌, ◌++◌, if◌then◌else◌,
}
use libcorkipset.Load.{InFile, LoadError, same_bytes}
use libcorkipset.Stream.{codes}
use libcorkipset.Node.{NodeTable}
use libcorkipset.Pointers.{PointerTables}
use libcorkipset.Set.{IpSet}
use libcorkipset.Storage.{loaded, null, no_value, load_set}

-- What the system gives for the name of a file, and the standard streams.
pub record Files (File : Type 0) : Type 0 where
  pub fopen_rb : List ℕ → Option InFile
  pub stdin : InFile
  pub fopen_wb : List ℕ → Option File
  pub stdout : File

-- "-" stands for a standard stream.
abbrev pub name_of : List ℕ → List ℕ → List ℕ
name_of standard filename = if same_bytes filename (codes "-") then standard else filename

module _ {File : Type 0} (S : Files File) where
  unfoldable pub open_input : List ℕ → Option InFile
  open_input filename =
      if same_bytes filename (codes "-") then some S.stdin else S.fopen_rb filename

  unfoldable pub open_output : List ℕ → Option File
  open_output filename =
      if same_bytes filename (codes "-") then some S.stdout else S.fopen_wb filename

-- What ipsetcat and ipsetdot write to their standard error, without the texts of errno.
pub data Notice : Type 0 where
  usage one_input_file : Notice
  opening cannot_open writing cannot_write : (filename : List ℕ) → Notice
  error_reading : (filename : List ℕ) → LoadError → Notice
  error_saving : Notice

-- What `getopt_long` returns for the two, with `optarg`.
pub data Choice : Type 0 where
  help networks verbose unrecognized : Choice
  output : (optarg : List ℕ) → Choice

-- The exit status, the standard error, and the output stream where one has been opened.
pub record Exit (File : Type 0) : Type 0 where
  pub status : ℕ
  pub notices : List Notice
  pub stream : Option File

abbrev pub exit : {File : Type 0} → ℕ → List Notice → Exit File
exit status notices = record { status = status; notices = notices; stream = none }

abbrev pub when : {A : Type 0} → Bool → A → List A
when true a = a ∷ []
when false a = []

-- The set in a file, or the end of the program.
unfoldable pub load_file :
    ⦃T : NodeTable⦄ (P : PointerTables) {File : Type 0}
    → Files File
    → (is_verbose : Bool) → List ℕ
    → Option (Exit File ⊎ (List Notice × IpSet))
unfolding open_input
load_file P S is_verbose filename =
    let name = name_of (codes "stdin") filename in
    let notices = when is_verbose (opening name) in
    elim (open_input S filename) [
      | none ↦ some (inl (exit 1 (notices ++ cannot_open filename ∷ [])))
      | some stream ↦ elim (load_set P stream) [
        | loaded set rest ↦ some (inr (notices, set))
        | null e ↦ some (inl (exit 1 (notices ++ error_reading name e ∷ [])))
        | no_value ↦ none
      ]
    ]
