-- ===== src/Examples/Programs.antt =====
-- ipsetcat and ipsetdot on a file that has been cut short.
use libcorkipset.Prelude.{ℕ, ◌≡◌, refl, true, false, some, none, [], ◌∷◌, take, arith}
use libcorkipset.Stream.{codes}
use libcorkipset.Cache.{new}
use libcorkipset.Load.{LoadError}
use libcorkipset.Storage.RoundTrip.{in_file}
use libcorkipset.Tool.{Files, networks, verbose, open_input}
use libcorkipset.Cat.{Printing}
use libcorkipset.Cat as Cats
use libcorkipset.Draw as Draws
use libcorkipset.Cat.Truncated.{unreadable, main-truncated}
use libcorkipset.Examples.Table.{node_table}
use libcorkipset.Examples.Files.{tables, empty_file, empty_file_loads, digits, disk}

abbrev broken_file : Files ℕ
broken_file = record {
  fopen_rb = λ name. some (in_file tables false (take 21 empty_file));
  stdin = in_file tables false [];
  fopen_wb = λ name. none;
  stdout = 100;
}

abbrev printing : Printing ℕ
printing = record {
  cork_ip_to_raw_string = λ addr. [];
  unsigned = λ n. 48 ∷ [];
  fputs = λ text room. (true, room);
}

file_opens :
    open_input broken_file (codes "sites") ≡ some (in_file tables false (take 21 empty_file))
unfolding open_input
file_opens = refl

main-truncated_example :
    (e : LoadError) × (Cats.main tables broken_file printing 9 9
        (networks ∷ [])
        (codes "sites" ∷ [])
      ≡ some (unreadable (codes "sites") e false))
    × (Draws.main tables disk digits broken_file (verbose ∷ []) (codes "sites" ∷ [])
        ≡ some (unreadable (codes "sites") e true))
unfolding Cats.parse_options Draws.parse_options
main-truncated_example =
    main-truncated tables disk broken_file false empty_file (record { cache = new; set_bdd = 1 }) 21
      empty_file_loads (omega arith) (codes "sites") file_opens printing digits 9 9 (networks ∷ [])
      (verbose ∷ [])
      (record { output_filename = codes "-"; is_verbose = false; want_networks = true })
      (record { output_filename = codes "-"; is_verbose = true }) refl refl
