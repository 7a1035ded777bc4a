-- ===== src/Build/Reads.antt =====
-- What src/ipsetbuild/ipsetbuild.c has when it has read its files.
use libcorkipset.Prelude.{
  ℕ, ◌+◌, ◌*◌, ◌^◌, ◌≤◌, ◌≡◌, refl, sym, ◌∙◌, ◌⊎◌, inl, inr, Bool, true, false, ◌||◌, some, List,
  [], ◌∷◌, ◌++◌, map, length, length-append, any, any-append, or_assoc, or_false, Bool-cases, Gives,
  arith,
}
use libcorkipset.Node.{NodeTable}
use libcorkipset.Stream.{codes}
use libcorkipset.Load.{InFile, same_bytes}
use libcorkipset.Tool.{Files}
use libcorkipset.Address.{CorkIp}
use libcorkipset.Set.{IpSet}
use libcorkipset.Build.{Parsing, Options, Line, read_line}
use libcorkipset.Build.Lines.{
  Removal, Message, Reading, process_line, process_lines, size_add, no_addresses, opening,
  read_summary, halted_on,
}
use libcorkipset.Build.Program.{
  verbose_messages, add_totals, lines_of, Totals, Outcome, exited, continued, finish_file,
  read_file, open_and_read, read_files,
}
use libcorkipset.Build.Wanted.{adds, removes, is_faulty, said}
use libcorkipset.Build.Entries.{Holds, Holds-mono, enter_line-ok}

-- The files can be opened and read to their ends, and the standard input is named at most once;
-- `used` tells whether it has been read before.
pub data Opens {File : Type 0} (S : Files File) : Bool → List (List ℕ) → List InFile → Type 0 where
  no_files : {used : Bool} → Opens S used [] []
  standard_input :
      {filename : List ℕ} {filenames : List (List ℕ)} {inputs : List InFile}
      → same_bytes filename (codes "-") ≡ true
      → S.stdin.fails ≡ false
      → Opens S true filenames inputs
      → Opens S false (filename ∷ filenames) (S.stdin ∷ inputs)
  a_file :
      {used : Bool} {filename : List ℕ} {filenames : List (List ℕ)} {input : InFile}
      {inputs : List InFile}
      → same_bytes filename (codes "-") ≡ false
      → S.fopen_rb filename ≡ some input
      → input.fails ≡ false
      → Opens S used filenames inputs
      → Opens S used (filename ∷ filenames) (input ∷ inputs)

module _ ⦃T : NodeTable⦄ (L : Parsing) (options : Options) where
  -- The state after some lines, with an allowance of 260 for each of them.
  abbrev pub After : (wanted gone : CorkIp → Bool) → ℕ → List Line → IpSet → List Removal → Type 0
  After wanted gone n lines s removals =
      Holds s removals (λ a. wanted a || any (adds a) lines) (λ a. gone a || any (removes a) lines)
        (n + 260 * length lines)

  abbrev reads : List (List ℕ) → List Line
  reads lines = map (read_line L options.loose_cidr) lines

  process_lines-ok :
      (filename : List ℕ) (lines : List (List ℕ)) (st : Reading) (wanted gone : CorkIp → Bool)
      (n : ℕ)
      → Holds st.set st.removals wanted gone n
      → n + 260 * length (reads lines) ≤ 2 ^ 31
      → Gives (process_lines L options filename lines st) (λ st'.
        After wanted gone n (reads lines) st'.set st'.removals
        × (st'.ip_error ≡ (st.ip_error || any is_faulty (reads lines))))
  unfolding process_lines process_line
  process_lines-ok filename [] st wanted gone n before room = (
    st,
    refl,
    (
      Holds-mono before (λ a. sym (or_false (wanted a))) (λ a. sym (or_false (gone a)))
          (omega arith),
      sym (or_false st.ip_error),
    ),
  )
  process_lines-ok filename (line ∷ lines) st wanted gone n before room =
      let said = read_line L options.loose_cidr line in
      let (st1, e1, (holds1, error1)) =
        enter_line-ok L options filename (record st { line_num = size_add st.line_num 1 }) wanted
          gone n before (omega arith) said in
      let (st2, e2, (after2, error2)) =
        process_lines-ok filename lines st1 (λ a. wanted a || adds a said)
          (λ a. gone a || removes a said) (n + 260) holds1 (omega arith) in
      (
        st2,
        rw (process_lines, e1) e2,
        (
          Holds-mono after2 (λ a. or_assoc (wanted a) (adds a said) (any (adds a) (reads lines)))
              (λ a. or_assoc (gone a) (removes a said) (any (removes a) (reads lines)))
              (omega arith),
          error2 ∙ rw error1 (or_assoc st.ip_error (is_faulty said) (any is_faulty (reads lines))),
        ),
      )

  -- How a part of the program ends: it exits where there is an error in the input, and continues
  -- where there is none.
  abbrev pub Ended : Bool → (Totals → Type 0) → Outcome Totals → Type 0
  Ended faulty P o =
      ((faulty ≡ true) × (messages : List Message) × (o ≡ exited messages))
      ⊎ ((faulty ≡ false) × (st' : Totals) × (o ≡ continued st') × P st')

  abbrev summary_of : List ℕ → Reading → List Message
  summary_of filename r =
      r.messages ++ verbose_messages L options (read_summary filename r.counters ∷ [])

  finish_bad :
      (filename : List ℕ) (input : InFile) (st : Totals) (r : Reading)
      → input.fails ≡ false
      → r.ip_error ≡ true
      → finish_file L options filename input st r
        ≡ exited (summary_of filename r ++ halted_on filename r.ip_error_num ∷ [])
  unfolding finish_file
  finish_bad filename input st r fine bad = rw (fine, bad) refl

  abbrev next_totals : List ℕ → Totals → Reading → Totals
  next_totals filename st r = record st {
    set = r.set;
    removals = r.removals;
    total = add_totals st.total r.counters;
    messages = summary_of filename r;
  }

  finish_good :
      (filename : List ℕ) (input : InFile) (st : Totals) (r : Reading)
      → input.fails ≡ false
      → r.ip_error ≡ false
      → finish_file L options filename input st r ≡ continued (next_totals filename st r)
  unfolding finish_file
  finish_good filename input st r fine good = rw (fine, good) refl

  read_file-ok :
      (filename : List ℕ) (input : InFile) (st : Totals) (wanted gone : CorkIp → Bool) (n : ℕ)
      → input.fails ≡ false
      → Holds st.set st.removals wanted gone n
      → n + 260 * length (reads (lines_of input)) ≤ 2 ^ 31
      → Gives (read_file L options filename input st) (
          Ended (any is_faulty (reads (lines_of input))) (λ st'.
            After wanted gone n (reads (lines_of input)) st'.set st'.removals
            × (st'.read_from_stdin ≡ st.read_from_stdin)))
  unfolding read_file
  read_file-ok filename input st wanted gone n fine before room =
      let (r, e, (after, errors)) =
        process_lines-ok filename (lines_of input)
          (record {
            set = st.set;
            removals = st.removals;
            counters = no_addresses;
            line_num = 0;
            ip_error_num = 0;
            ip_error = false;
            messages = st.messages ++ verbose_messages L options (opening filename ∷ []);
          })
          wanted gone n before room in
      (
        finish_file L options filename input st r,
        rw (read_file, e) refl,
        elim (Bool-cases r.ip_error) [
          | inl bad ↦ inl (
            sym errors ∙ bad,
            summary_of filename r ++ halted_on filename r.ip_error_num ∷ [],
            finish_bad filename input st r fine bad,
          )
          | inr good ↦ inr (
            sym errors ∙ good,
            next_totals filename st r,
            finish_good filename input st r fine good,
            (after, refl),
          )
        ],
      )

  module _ {File : Type 0} (S : Files File) where
    -- What the loop over the files leaves.
    abbrev pub FilesRead :
        List (List ℕ) → List InFile → Totals → (CorkIp → Bool) → (CorkIp → Bool) → ℕ → Type 0
    FilesRead filenames inputs st wanted gone n = Gives (read_files L options S filenames st) (
        Ended (any is_faulty (said L options inputs))
          (λ st'. After wanted gone n (said L options inputs) st'.set st'.removals))

    -- One file, and then the others.
    then_files :
        (filename : List ℕ) (filenames : List (List ℕ)) (input : InFile) (inputs : List InFile)
        (used : Bool) (st : Totals) (wanted gone : CorkIp → Bool) (n : ℕ)
        → Gives (open_and_read L options S filename st) (
            Ended (any is_faulty (reads (lines_of input))) (λ st'.
              After wanted gone n (reads (lines_of input)) st'.set st'.removals
              × (st'.read_from_stdin ≡ used)))
        → n + 260 * length (said L options (input ∷ inputs)) ≤ 2 ^ 31
        → ((st' : Totals) (wanted' gone' : CorkIp → Bool) (n' : ℕ)
            → st'.read_from_stdin ≡ used
            → Holds st'.set st'.removals wanted' gone' n'
            → n' + 260 * length (said L options inputs) ≤ 2 ^ 31
            → FilesRead filenames inputs st' wanted' gone' n')
        → FilesRead (filename ∷ filenames) (input ∷ inputs) st wanted gone n
    unfolding read_files
    then_files filename filenames input inputs used st wanted gone n (o, e, ended) room others =
        let here = reads (lines_of input) in
        let there = said L options inputs in
        let size = length-append here there in
        let faults = any-append is_faulty here there in
        elim ended [
          | inl (bad, messages, halted) ↦ (
            exited messages,
            rw (read_files, e, halted) refl,
            inl (faults ∙ rw bad refl, messages, refl),
          )
          | inr (good, st1, went_on, (holds, same)) ↦
              let (o', e', ended') =
                others st1 (λ a. wanted a || any (adds a) here)
                  (λ a. gone a || any (removes a) here) (n + 260 * length here) same holds
                  (omega arith) in
              (
                o',
                rw (read_files, e, went_on) e',
                elim ended' [
                  | inl (bad, messages, halted) ↦
                      inl (faults ∙ rw (good, bad) refl, messages, halted)
                  | inr (fine, st2, went_on', holds') ↦ inr (
                    faults ∙ rw (good, fine) refl,
                    st2,
                    went_on',
                    Holds-mono holds'
                        (λ a.
                          or_assoc (wanted a) (any (adds a) here) (any (adds a) there)
                          ∙ rw (any-append (adds a) here there) refl)
                        (λ a.
                          or_assoc (gone a) (any (removes a) here) (any (removes a) there)
                          ∙ rw (any-append (removes a) here there) refl)
                        (omega arith),
                  )
                ],
              )
        ]

    pub read_files-ok :
        {used : Bool} {filenames : List (List ℕ)} {inputs : List InFile}
        → Opens S used filenames inputs
        → (st : Totals) (wanted gone : CorkIp → Bool) (n : ℕ) → st.read_from_stdin ≡ used
        → Holds st.set st.removals wanted gone n
        → n + 260 * length (said L options inputs) ≤ 2 ^ 31
        → FilesRead filenames inputs st wanted gone n
    unfolding read_files open_and_read
    read_files-ok no_files st wanted gone n used before room = (
      continued st,
      refl,
      inr (
        refl,
        st,
        refl,
        Holds-mono before (λ a. sym (or_false (wanted a))) (λ a. sym (or_false (gone a)))
            (omega arith),
      ),
    )
    read_files-ok (standard_input {filename} {filenames} {inputs} dash fine rest) st wanted gone n
          used before room =
        let size = length-append (reads (lines_of S.stdin)) (said L options inputs) in
        let (o, e, ended) =
          read_file-ok (codes "stdin") S.stdin (record st { read_from_stdin = true }) wanted gone n
            fine before (omega arith) in
        then_files filename filenames S.stdin inputs true st wanted gone n
          (o, rw (open_and_read, dash, used) e, ended) room
          (λ st' wanted' gone' n' used' before' room'.
            read_files-ok rest st' wanted' gone' n' used' before' room')
    read_files-ok (a_file {used = u} {filename} {filenames} {input} {inputs} named opened fine rest)
          st wanted gone n used before room =
        let size = length-append (reads (lines_of input)) (said L options inputs) in
        let (o, e, ended) =
          read_file-ok filename input st wanted gone n fine before (omega arith) in
        then_files filename filenames input inputs u st wanted gone n
          (o, rw (open_and_read, named, opened) e, rw (← used) ended) room
          (λ st' wanted' gone' n' used' before' room'.
            read_files-ok rest st' wanted' gone' n' used' before' room')
