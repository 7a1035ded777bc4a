-- ===== src/Build/Program.antt =====
-- The files and the removals: `main` of src/ipsetbuild/ipsetbuild.c between the options and the
-- output.
use libcorkipset.Prelude.{
  ℕ, ◌+◌, ◌-◌, ◌%◌, ◌^◌, Bool, true, false, Option, none, some, List, [], ◌∷◌, ◌++◌, ◌==◌,
  if◌then◌else◌, map,
}
use libcorkipset.Node.{NodeTable}
use libcorkipset.Stream.{codes}
use libcorkipset.Load.{InFile, same_bytes}
use libcorkipset.Tool.{Files}
use libcorkipset.Set.{IpSet, Reply, init, ip_remove, ip_remove_network}
use libcorkipset.Build.{Parsing, Options, fgets_lines, c_string}
use libcorkipset.Build.Lines.{
  Removal, Counters, no_addresses, Message, opening, cannot_open, stdin_twice, error_reading,
  read_summary, halted_on, not_in_set, size_add, is_positive, is_nonnegative, Reading,
  process_lines,
}

abbrev pub lines_of : InFile → List (List ℕ)
lines_of input = map c_string (fgets_lines input.fails 4095 [] input.rest)

-- `*n -= 1` on a `size_t`.
abbrev pub size_decrement : ℕ → ℕ
size_decrement n = (n + (2 ^ 64 - 1)) % 2 ^ 64

unfoldable pub add_totals : Counters → Counters → Counters
add_totals total n = record {
  ip_count = size_add total.ip_count n.ip_count;
  ip_count_v4 = size_add total.ip_count_v4 n.ip_count_v4;
  ip_count_v4_block = size_add total.ip_count_v4_block n.ip_count_v4_block;
  ip_count_v6 = size_add total.ip_count_v6 n.ip_count_v6;
  ip_count_v6_block = size_add total.ip_count_v6_block n.ip_count_v6_block;
}

unfoldable pub uncount : Removal → Counters → Counters
uncount r total =
    if r.has_cidr
    then (if r.address.version == 4
        then record total { ip_count_v4_block = size_decrement total.ip_count_v4_block }
        else record total { ip_count_v6_block = size_decrement total.ip_count_v6_block })
    else (if r.address.version == 4
        then record total { ip_count_v4 = size_decrement total.ip_count_v4 }
        else record total { ip_count_v6 = size_decrement total.ip_count_v6 })

module _ ⦃T : NodeTable⦄ where
  -- The variables of `main` that outlive a file, with what has been written.
  pub record Totals : Type 0 where
    pub set : IpSet
    pub removals : List Removal
    pub total : Counters
    pub total_ip_removed : ℕ
    pub read_from_stdin : Bool
    pub messages : List Message

  -- `exit(1)`, or the next statement.
  pub data Outcome (A : Type 0) : Type 0 where
    exited : List Message → Outcome A
    continued : A → Outcome A

  module _ (L : Parsing) (options : Options) where
    abbrev pub verbose_messages : List Message → List Message
    verbose_messages texts = if is_positive options.verbosity then texts else []

    -- What follows the loop over the lines of a file.
    unfoldable pub finish_file : List ℕ → InFile → Totals → Reading → Outcome Totals
    unfolding add_totals
    finish_file filename input st r =
        let summary = r.messages ++ verbose_messages (read_summary filename r.counters ∷ []) in
        if input.fails
        then exited (r.messages ++ error_reading filename ∷ [])
        else (if r.ip_error
            then exited (summary ++ halted_on filename r.ip_error_num ∷ [])
            else continued (record st {
              set = r.set;
              removals = r.removals;
              total = add_totals st.total r.counters;
              messages = summary;
            }))

    unfoldable pub read_file : List ℕ → InFile → Totals → Option (Outcome Totals)
    unfolding finish_file
    read_file filename input st =
        elim (process_lines L options filename (lines_of input) (record {
          set = st.set;
          removals = st.removals;
          counters = no_addresses;
          line_num = 0;
          ip_error_num = 0;
          ip_error = false;
          messages = st.messages ++ verbose_messages (opening filename ∷ []);
        })) [ none ↦ none | some r ↦ some (finish_file filename input st r) ]

    -- The body of the loop over the files.
    unfoldable pub open_and_read :
        {File : Type 0} → Files File → List ℕ → Totals → Option (Outcome Totals)
    unfolding read_file
    open_and_read S filename st =
        if same_bytes filename (codes "-")
        then (if st.read_from_stdin
            then some (exited (st.messages ++ stdin_twice ∷ []))
            else read_file (codes "stdin") S.stdin (record st { read_from_stdin = true }))
        else elim (S.fopen_rb filename) [
          | none ↦ some (
              exited (
                st.messages
                ++ (verbose_messages (opening filename ∷ []) ++ cannot_open filename ∷ [])))
          | some input ↦ read_file filename input st
        ]

    unfoldable pub read_files :
        {File : Type 0} → Files File → List (List ℕ) → Totals → Option (Outcome Totals)
    unfolding open_and_read
    read_files S [] st = some (continued st)
    read_files S (filename ∷ filenames) st = elim (open_and_read S filename st) [
      | none ↦ none
      | some (exited messages) ↦ some (exited messages)
      | some (continued st') ↦ read_files S filenames st'
    ]

    -- The error that a network out of range sets is not looked at.
    unfoldable pub after_removal : Removal → Totals → Reply → Totals
    unfolding uncount
    after_removal r st reply =
        if reply.result
        then record st {
          set = reply.set;
          messages =
              if is_nonnegative options.verbosity
              then st.messages ++ not_in_set r ∷ []
              else st.messages;
        }
        else record st {
          set = reply.set;
          total = uncount r st.total;
          total_ip_removed = size_add st.total_ip_removed 1;
        }

    abbrev pub removal_reply : Removal → IpSet → Option Reply
    removal_reply r set =
        if r.has_cidr then ip_remove_network set r.address r.cidr else ip_remove set r.address

    -- The loop over the removals.
    unfoldable pub remove_entries : List Removal → Totals → Option Totals
    unfolding after_removal
    remove_entries [] st = some st
    remove_entries (r ∷ removals) st = elim (removal_reply r st.set) [
      | none ↦ none
      | some reply ↦ remove_entries removals (after_removal r st reply)
    ]

    abbrev pub start : Totals
    start = record {
      set = init;
      removals = [];
      total = no_addresses;
      total_ip_removed = 0;
      read_from_stdin = false;
      messages = [];
    }

    -- From the files to the set that is written.
    unfoldable pub build : {File : Type 0} → Files File → List (List ℕ) → Option (Outcome Totals)
    unfolding read_files remove_entries
    build S filenames = elim (read_files S filenames start) [
      | none ↦ none
      | some (exited messages) ↦ some (exited messages)
      | some (continued st) ↦ elim (remove_entries st.removals st) [
        | none ↦ none
        | some st' ↦ some (continued st')
      ]
    ]
