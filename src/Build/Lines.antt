-- ===== src/Build/Lines.antt =====
-- The lines of one input file: the loop over `fgets` in src/ipsetbuild/ipsetbuild.c.
use libcorkipset.Prelude.{
  ℕ, zero, suc, ◌+◌, ◌%◌, ◌^◌, Bool, true, false, ◌&&◌, Option, none, some, List, [], ◌∷◌, ◌++◌,
  ◌==◌, if◌then◌else◌,
}
use libcorkipset.SerializedId.{ℤ, pos, negsuc}
use libcorkipset.Node.{NodeTable}
use libcorkipset.Address.{CorkIp}
use libcorkipset.Set.{IpSet, Reply, ip_add, ip_add_network}
use libcorkipset.Build.{
  Parsing, Options, Fault, cidr_out_of_range, Line, skipped, refused, entry, read_line,
}

-- `struct removal`
pub record Removal : Type 0 where
  pub line : ℕ
  pub filename : List ℕ
  pub address : CorkIp
  pub cidr : ℕ
  pub has_cidr : Bool

-- The counters of a file and those of the whole program, of type `size_t`.
pub record Counters : Type 0 where
  pub ip_count : ℕ
  pub ip_count_v4 : ℕ
  pub ip_count_v4_block : ℕ
  pub ip_count_v6 : ℕ
  pub ip_count_v6_block : ℕ

abbrev pub no_addresses : Counters
no_addresses = record {
  ip_count = 0;
  ip_count_v4 = 0;
  ip_count_v4_block = 0;
  ip_count_v6 = 0;
  ip_count_v6_block = 0;
}

-- What the program writes to its standard error, without the texts of errno and libcork.
pub data Message : Type 0 where
  opening : (filename : List ℕ) → Message
  cannot_open : (filename : List ℕ) → Message
  stdin_twice : Message
  error : (filename : List ℕ) → (line_num : ℕ) → Fault → Message
  duplicate :
      (filename : List ℕ) → (line_num : ℕ) → (address : List ℕ) → (cidr : Option ℕ) → Message
  error_reading : (filename : List ℕ) → Message
  read_summary : (filename : List ℕ) → Counters → Message
  halted_on : (filename : List ℕ) → (ip_error_num : ℕ) → Message
  not_in_set : Removal → Message
  total_summary : (total_ip_removed : ℕ) → Counters → (memory_size : Option ℕ) → Message
  writing : (filename : List ℕ) → Message
  error_saving : Message
  no_input_file no_output_file : Message
  usage : Message

-- Arithmetic of `size_t`.
abbrev pub size_add : ℕ → ℕ → ℕ
size_add a b = (a + b) % 2 ^ 64

abbrev pub is_positive : ℤ → Bool
is_positive (pos zero) = false
is_positive (pos (suc n)) = true
is_positive (negsuc n) = false

abbrev pub is_nonnegative : ℤ → Bool
is_nonnegative (pos n) = true
is_nonnegative (negsuc n) = false

-- One more address or network of the version of `addr`.
unfoldable pub count : CorkIp → Option ℕ → Counters → Counters
count addr none n =
    if addr.version == 4
    then record n { ip_count = size_add n.ip_count 1; ip_count_v4 = size_add n.ip_count_v4 1 }
    else record n { ip_count = size_add n.ip_count 1; ip_count_v6 = size_add n.ip_count_v6 1 }
count addr (some cidr) n =
    if addr.version == 4
    then record n {
      ip_count = size_add n.ip_count 1;
      ip_count_v4_block = size_add n.ip_count_v4_block 1;
    }
    else record n {
      ip_count = size_add n.ip_count 1;
      ip_count_v6_block = size_add n.ip_count_v6_block 1;
    }

-- A line to remove from the set when all files have been read.
abbrev pub removal_of : ℕ → List ℕ → CorkIp → Option ℕ → Removal
removal_of line_num filename addr none = record {
  line = line_num;
  filename = filename;
  address = addr;
  cidr = 0;
  has_cidr = false;
}
removal_of line_num filename addr (some cidr) = record {
  line = line_num;
  filename = filename;
  address = addr;
  cidr = cidr;
  has_cidr = true;
}

module _ ⦃T : NodeTable⦄ where
  -- The variables of the loop that outlive a line, with what has been written.
  pub record Reading : Type 0 where
    pub set : IpSet
    pub removals : List Removal
    pub counters : Counters
    pub line_num : ℕ
    pub ip_error_num : ℕ
    pub ip_error : Bool
    pub messages : List Message

  module _ (L : Parsing) (options : Options) (filename : List ℕ) where
    abbrev pub with_fault : Fault → Reading → Reading
    with_fault fault st = record st {
      ip_error_num = size_add st.ip_error_num 1;
      ip_error = true;
      messages = st.messages ++ error filename st.line_num fault ∷ [];
    }

    -- What follows an addition: an alert, or a change of the counters.
    unfoldable pub record_added : List ℕ → CorkIp → Option ℕ → Bool → Reading → Reading
    unfolding count
    record_added address addr cidr set_unchanged st =
        if set_unchanged && is_nonnegative options.verbosity
        then record st {
          messages = st.messages ++ duplicate filename st.line_num address cidr ∷ [];
        }
        else record st { counters = count addr cidr st.counters }

    -- The test of `cork_error_occurred` after the addition of a network: before it no error is
    -- pending.
    abbrev pub network_added : List ℕ → CorkIp → ℕ → Reply → Reading → Reading
    network_added address addr cidr r st = elim r.error [
      | none ↦ record_added address addr (some cidr) r.result st
      | some e ↦ with_fault (cidr_out_of_range address cidr) st
    ]

    unfoldable pub add_entry : List ℕ → CorkIp → Option ℕ → Reading → Option Reading
    unfolding record_added
    add_entry address addr none st = elim (ip_add st.set addr) [
      | none ↦ none
      | some r ↦ some (record_added address addr none r.result (record st { set = r.set }))
    ]
    add_entry address addr (some cidr) st = elim (ip_add_network st.set addr cidr) [
      | none ↦ none
      | some r ↦ some (network_added address addr cidr r (record st { set = r.set }))
    ]

    unfoldable pub append_removal : CorkIp → Option ℕ → Reading → Reading
    append_removal addr cidr st = record st {
      removals = st.removals ++ removal_of st.line_num filename addr cidr ∷ [];
    }

    abbrev pub enter_line : Line → Reading → Option Reading
    enter_line skipped st = some st
    enter_line (refused fault) st = some (with_fault fault st)
    enter_line (entry true address addr cidr) st = some (append_removal addr cidr st)
    enter_line (entry false address addr cidr) st = add_entry address addr cidr st

    -- The body of the loop.
    unfoldable pub process_line : List ℕ → Reading → Option Reading
    unfolding add_entry append_removal
    process_line line st =
        enter_line (read_line L options.loose_cidr line)
          (record st { line_num = size_add st.line_num 1 })

    unfoldable pub process_lines : List (List ℕ) → Reading → Option Reading
    unfolding process_line
    process_lines [] st = some st
    process_lines (line ∷ lines) st = elim (process_line line st) [
      | none ↦ none
      | some st' ↦ process_lines lines st'
    ]
