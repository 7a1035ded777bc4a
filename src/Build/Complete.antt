-- ===== src/Build/Complete.antt =====
-- The program src/ipsetbuild/ipsetbuild.c from its arguments to its output.
use libcorkipset.Prelude.{
  ℕ, ◌+◌, ◌*◌, ◌^◌, ◌≤◌, ◌<◌, ◌≡◌, refl, sym, subst, ◌∙◌, ◌⊎◌, inl, inr, Bool, true, false, none,
  some, List, ◌∷◌, ◌++◌, length, any, Gives, arith,
}
use libcorkipset.Node.{NodeTable}
use libcorkipset.Pointers.{PointerTables}
use libcorkipset.Stream.{Stdio, Accepts, FileConsumer, file_consumer}
use libcorkipset.Address.{CorkIp, family_of}
use libcorkipset.Set.{IpSet, contains_ip}
use libcorkipset.Set.Valid.{Valid}
use libcorkipset.Storage.{save_set, load_set, loaded}
use libcorkipset.Storage.RoundTrip.{in_file, save_set_to_stream-load_set}
use libcorkipset.Load.{InFile}
use libcorkipset.Tool.{Files, open_output}
use libcorkipset.Build.{Parsing, Options}
use libcorkipset.Build.Program.{Totals}
use libcorkipset.Build.Main.{
  Choice, Finished, exit, parse_options, default_options, write_set, output_messages, run, main,
}
use libcorkipset.Build.Wanted.{is_faulty, said, asked}
use libcorkipset.Build.Document.{Entry, Contain, is_wrong, described}
use libcorkipset.Build.Document.Whole.{length-said, said-is_wrong, asked-described}
use libcorkipset.Build.Reads.{Opens}
use libcorkipset.Build.Correct.{build-ok}

module _ ⦃T : NodeTable⦄ (P : PointerTables) (O : Stdio) (acc : Accepts (file_consumer O)) where
  -- The program has sent some bytes to the file `fp`, and they load as a set with some members.
  -- `more` is what follows them in a file, which may end in an error.
  pub record Written (fp : O.File) (members : CorkIp → Bool) (fails : Bool) (more : List ℕ)
      (end : Finished O.File) : Type 0 where
    pub status : end.status ≡ 0
    pub final : FileConsumer O
    pub stream : end.stream ≡ some final.fp
    pub bytes : List ℕ
    pub sent : acc.contents final ≡ acc.contents (record { fp = fp; error = none }) ++ bytes
    pub copy : IpSet
    pub reloaded : load_set P (in_file P fails (bytes ++ more)) ≡ loaded copy (in_file P fails more)
    pub same : (a : CorkIp) → contains_ip copy a ≡ some (members a)

  module _ (L : Parsing) (S : Files O.File) (rounds : ℕ) (options : Options)
      (output_filename : List ℕ) (fp : O.File) (opened : open_output S output_filename ≡ some fp)
      (fails : Bool) (more : List ℕ) where
    write_set-ok :
        (st : Totals) (v : Valid st.set) (members : CorkIp → Bool)
        → ((a : CorkIp) → contains_ip st.set a ≡ some (members a))
        → 2 * st.set.cache.largest_index + 1 < rounds
        → Gives
            (write_set L P O S rounds options output_filename st)
            (Written fp members fails more)
    unfolding write_set save_set contains_ip
    write_set-ok st v members contents enough =
        let w =
          save_set_to_stream-load_set P (file_consumer O) acc rounds st.set
            (record { fp = fp; error = none }) fails more v enough in
        (
          record {
            status = 0;
            messages = output_messages L P O S rounds options output_filename st;
            stream = some w.st'.stream.fp;
          },
          rw (write_set, opened, w.saved) refl,
          record {
            status = refl;
            final = w.st'.stream;
            stream = refl;
            bytes = w.bytes;
            sent = w.sent;
            copy = w.copy;
            reloaded = w.reloaded;
            same = λ a. w.same (family_of a) a.ip ∙ contents a;
          },
        )

    -- The same for the lines that the program reads.
    main-said :
        {filename : List ℕ} {filenames : List (List ℕ)} {inputs : List InFile}
        (choices : List Choice)
        → parse_options {File = O.File} choices default_options ≡ inr options
        → options.output_filename ≡ some output_filename
        → Opens S false (filename ∷ filenames) inputs
        → 260 * length (said L options inputs) ≤ 2 ^ 31
        → 2 ^ 32 + 1 < rounds
        → Gives (main L P O S rounds choices (filename ∷ filenames)) (λ end.
          ((any is_faulty (said L options inputs) ≡ true) × (end.status ≡ 1) × (end.stream ≡ none))
          ⊎ ((any is_faulty (said L options inputs) ≡ false)
              × Written fp (asked L options inputs) fails more end))
    unfolding main run
    main-said {filename} {filenames} {inputs} choices parsed named opens room enough =
        let (o, e, ended) = build-ok L options S opens room in
        elim ended [
          | inl (bad, messages, halted) ↦ (
            exit 1 messages,
            rw (main, parsed, run, named, e, halted) refl,
            inl (bad, refl, refl),
          )
          | inr (fine, st, went_on, (v, contents, small)) ↦
              let (end, e', w) =
                write_set-ok st v (asked L options inputs) contents (omega arith) in
              let reached : main L P O S rounds choices (filename ∷ filenames)
                  ≡ write_set L P O S rounds options output_filename st =
                rw (main, parsed, run, named, e, went_on) refl in
              (end, reached ∙ e', inr (fine, w))
        ]

    -- The program is given options that name an output file, which can be opened and takes every
    -- byte, and the names of one or more files that can be opened and read to their ends, with the
    -- standard input at most once among them. The files hold documents in the format of the usage
    -- text, with at most 2^31 / 260 lines in all: each ends with a newline, has at most 4095 bytes
    -- with it, and has no NUL. A newline is white space to `isspace`. With more rounds than 2^32 plus
    -- one the program terminates. Comments and white space aside, if some line names no address, a
    -- prefix that is no number, a network that does not start at its address (unless `--loose-cidr`
    -- is given), or adds a network with a prefix longer than the address, the exit status is 1 and
    -- no output is opened. If none does, the exit status is 0, and what has been written loads as a
    -- set that contains exactly the addresses that lie in what some line adds and in nothing that a
    -- line removes, wherever these lines stand.
    pub main-ok :
        {filename : List ℕ} {filenames : List (List ℕ)} {inputs : List InFile} {es : List Entry}
        (choices : List Choice)
        → parse_options {File = O.File} choices default_options ≡ inr options
        → options.output_filename ≡ some output_filename
        → Opens S false (filename ∷ filenames) inputs
        → Contain L inputs es
        → L.isspace b'\n' ≡ true
        → 260 * length es ≤ 2 ^ 31
        → 2 ^ 32 + 1 < rounds
        → Gives (main L P O S rounds choices (filename ∷ filenames)) (λ end.
          ((any (is_wrong L options.loose_cidr) es ≡ true) × (end.status ≡ 1) × (end.stream ≡ none))
          ⊎ ((any (is_wrong L options.loose_cidr) es ≡ false)
              × Written fp (described L options.loose_cidr es) fails more end))
    main-ok choices parsed named opens held space room enough =
        let few = length-said L options space held in
        let (end, e, ended) = main-said choices parsed named opens (omega (arith, few)) enough in
        let wrong = said-is_wrong L options space held in
        (
          end,
          e,
          elim ended [
            | inl (bad, status, unopened) ↦ inl (sym wrong ∙ bad, status, unopened)
            | inr (fine, w) ↦ inr (
              sym wrong ∙ fine,
              subst (λ members. Written fp members fails more end)
                  (λ d a. asked-described L options space held a d) w,
            )
          ],
        )
