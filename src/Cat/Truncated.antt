-- ===== src/Cat/Truncated.antt =====
-- ipsetcat and ipsetdot on a file that has been cut short: src/ipsetcat/ipsetcat.c and
-- src/ipsetdot/ipsetdot.c.
use libcorkipset.Prelude.{
  ℕ, ◌<◌, ◌≡◌, refl, inl, inr, Bool, some, List, [], ◌∷◌, ◌++◌, length, take,
}
use libcorkipset.Node.{NodeTable}
use libcorkipset.Pointers.{PointerTables}
use libcorkipset.Stream.{Stdio, codes}
use libcorkipset.Set.{IpSet}
use libcorkipset.Load.{LoadError}
use libcorkipset.Storage.{loaded, load_set}
use libcorkipset.Storage.RoundTrip.{in_file}
use libcorkipset.Storage.Errors.{load_set-truncated}
use libcorkipset.Dot.{Printf}
use libcorkipset.Tool.{
  Files, Choice, Exit, exit, when, opening, error_reading, name_of, open_input, load_file,
}
use libcorkipset.Cat.{Printing}
use libcorkipset.Cat as Cats
use libcorkipset.Draw as Draws

-- The end of a program that could not read its input.
abbrev pub unreadable : {File : Type 0} → List ℕ → LoadError → Bool → Exit File
unreadable filename e is_verbose =
    let name = name_of (codes "stdin") filename in
    exit 1 (when is_verbose (opening name) ++ error_reading name e ∷ [])

module _ ⦃T : NodeTable⦄ (P : PointerTables) (O : Stdio) (S : Files O.File) (fails : Bool)
    (bytes : List ℕ) (copy : IpSet) (n : ℕ)
    (complete : load_set P (in_file P fails bytes) ≡ loaded copy (in_file P fails []))
    (short : n < length bytes) (filename : List ℕ)
    (opened : open_input S filename ≡ some (in_file P fails (take n bytes))) where
  load_file-truncated :
      (e : LoadError) × ((is_verbose : Bool)
        → load_file P S is_verbose filename ≡ some (inl (unreadable filename e is_verbose)))
  unfolding load_file
  load_file-truncated =
      let (e, null_set) = load_set-truncated P fails bytes copy n complete short in
      (e, λ is_verbose. rw (load_file, opened, null_set) refl)

  -- Given one argument, the name of a file that holds a proper prefix of a file which loads to its
  -- end, and options that do not end them, ipsetcat and ipsetdot exit with status 1 and an error
  -- message, and have not opened their output.
  pub main-truncated :
      (W : Printing O.File) (F : Printf) (rounds fuel : ℕ) (choices choices' : List Choice)
      (options : Cats.Options) (options' : Draws.Options)
      → Cats.parse_options {File = O.File} choices Cats.default_options ≡ inr options
      → Draws.parse_options {File = O.File} choices' Draws.default_options ≡ inr options'
      → (e : LoadError) × (Cats.main P S W rounds fuel choices (filename ∷ [])
          ≡ some (unreadable filename e options.is_verbose))
        × (Draws.main P O F S choices' (filename ∷ [])
            ≡ some (unreadable filename e options'.is_verbose))
  unfolding Cats.main Cats.run Draws.main Draws.run
  main-truncated W F rounds fuel choices choices' options options' cat_parsed draw_parsed =
      let (e, ended) = load_file-truncated in
      (
        e,
        rw (Cats.main, cat_parsed, Cats.run, ended options.is_verbose) refl,
        rw (Draws.main, draw_parsed, Draws.run, ended options'.is_verbose) refl,
      )
