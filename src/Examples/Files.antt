-- ===== src/Examples/Files.antt =====
-- Saving and loading at concrete sets and maps.
use libcorkipset.Prelude.{
  ℕ, ◌+◌, ◌*◌, ◌≤◌, ◌<◌, ◌≡◌, refl, Bool, true, false, List, [], ◌∷◌, ◌++◌, ◌==◌, arith, length,
  take, ◌^◌, ◌↔◌, some, bit, sum_below, ltb, ◌-◌, if◌then◌else◌,
}
use libcorkipset.Cache.{new}
use libcorkipset.Pointers.{PointerTables}
use libcorkipset.SerializedId.{pos, negsuc, same_int}
use libcorkipset.NodeId.{terminal_node_id}
use libcorkipset.BigEndian.{of_bytes}
use libcorkipset.Tree.{height}
use libcorkipset.Tree.Order.{height-le}
use libcorkipset.Reachable.{reachable_count}
use libcorkipset.Reachable.Path.{Used}
use libcorkipset.Reachable.Visit.{reachable_count-ok}
use libcorkipset.Save.{save, set_size_v1}
use libcorkipset.Save.Entry.{Entry}
use libcorkipset.Save.Whole.{WholeFile, file_bytes, known_node, save-ok}
use libcorkipset.Save.Size.{set_size_v1-length}
use libcorkipset.Load.{
  LoadError, unknown_version, load, fread, read_uint, load_v1, verify_cap, check_magic,
}
use libcorkipset.Stream.{Consumer, Accepts, Stdio}
use libcorkipset.Set as Sets
use libcorkipset.Map as Maps
use libcorkipset.Storage.{save_set, save_set_to_stream, save_map_to_stream, loaded, null, load_set}
use libcorkipset.Storage.Errors.{load_set-truncated, header_error, load_set-header_error}
use libcorkipset.Storage.Writes.{FileEnds, save_set-FileEnds}
use libcorkipset.Dot.{Printf}
use libcorkipset.Storage.RoundTrip.{
  BddRoundTrip, SetRoundTrip, MapRoundTrip, in_file, save-load, save_set_to_stream-load_set,
  save_map_to_stream-load_map,
}
use libcorkipset.Examples.Assoc.{assoc}
use libcorkipset.Examples.Table.{node_table}
use libcorkipset.Examples.Sets.{hosts as host_set}
use libcorkipset.Examples.Maps.{hosts as host_map}

abbrev pub tables : PointerTables
tables = record {
  hash = λ k. k;
  hash_int = λ s. 0;
  visited = assoc ◌==◌ (λ k. k);
  serialized_ids = assoc ◌==◌ (λ k. k);
  cache_ids = assoc same_int (λ s. 0);
}

-- A consumer that keeps everything in memory.
abbrev memory : Consumer
memory = record { State = List ℕ; consume = λ buf is_first s. (true, s ++ buf) }

abbrev memory_accepts : Accepts memory
memory_accepts = record {
  contents = λ s. s;
  accepted = λ buf is_first s. refl;
  appended = λ buf is_first s. refl;
}

enough_rounds : (n : ℕ) → n ≤ 260 → 2 * n + 1 < 1000
enough_rounds n h = omega arith

set_rounds : 2 * host_set.0.set.cache.largest_index + 1 < 1000
unfolding Sets.init new
set_rounds = enough_rounds host_set.0.set.cache.largest_index host_set.2.growth

map_rounds : 2 * host_map.0.map.cache.largest_index + 1 < 1000
unfolding Maps.init new
map_rounds = enough_rounds host_map.0.map.cache.largest_index host_map.2.growth

save_set_to_stream-load_set_example :
    SetRoundTrip tables memory memory_accepts host_set.0.set [] false
      (7 ∷ [])
      (save_set_to_stream tables memory 1000 host_set.0.set [])
save_set_to_stream-load_set_example =
    save_set_to_stream-load_set tables memory memory_accepts 1000 host_set.0.set [] false (7 ∷ [])
      host_set.2.valid set_rounds

save_map_to_stream-load_map_example :
    MapRoundTrip tables memory memory_accepts host_map.0.map [] false
      (7 ∷ [])
      (save_map_to_stream tables memory 1000 host_map.0.map [])
save_map_to_stream-load_map_example =
    save_map_to_stream-load_map tables memory memory_accepts 1000 host_map.0.map [] false (7 ∷ [])
      host_map.2.valid map_rounds

-- The file of the empty set.
abbrev pub empty_file : List ℕ
empty_file =
    73 ∷ 80 ∷ 32 ∷ 115 ∷ 101 ∷ 116 ∷ 0 ∷ 1 ∷ 0 ∷ 0 ∷ 0 ∷ 0 ∷ 0 ∷ 0 ∷ 0 ∷ 24 ∷ 0 ∷ 0 ∷ 0 ∷ 0 ∷ 0 ∷ 0
    ∷ 0 ∷ 0 ∷ []

pub empty_file_loads :
    load_set tables (in_file tables false empty_file)
    ≡ loaded (record { cache = new; set_bdd = 1 }) (in_file tables false [])
unfolding load_set load of_bytes Sets.init new terminal_node_id read_uint fread load_v1 verify_cap
    check_magic
empty_file_loads = refl

load_set-truncated_example :
    (e : LoadError) × (load_set tables (in_file tables false (take 21 empty_file)) ≡ null e)
load_set-truncated_example =
    load_set-truncated tables false empty_file (record { cache = new; set_bdd = 1 }) 21
      empty_file_loads (omega arith)

save-load_example :
    BddRoundTrip tables memory memory_accepts host_set.0.set.cache host_set.0.set.set_bdd [] false
      (7 ∷ [])
      (save tables memory 130 1000 host_set.0.set.cache host_set.0.set.set_bdd [])
save-load_example =
    save-load tables memory memory_accepts 1000 host_set.0.set.cache host_set.0.set.set_bdd
      host_set.2.valid.tree [] false (7 ∷ []) host_set.2.valid.owns
      (λ b. omega (arith, host_set.2.valid.boolean b)) set_rounds

pub host_short : height host_set.2.valid.tree < 130
host_short =
    omega (
      arith,
      height-le 129 host_set.2.valid.tree {x = 0} (omega arith) host_set.2.valid.owns.ordered,
    )

save-ok_example :
    WholeFile tables memory memory_accepts host_set.2.valid.owns.graph host_set.0.set.set_bdd []
      (save tables memory 130 1000 host_set.0.set.cache host_set.0.set.set_bdd [])
save-ok_example =
    save-ok tables memory_accepts host_set.2.valid.owns.inv 129 130 1000 host_set.0.set.set_bdd
      host_set.2.valid.tree [] host_set.2.valid.owns.repr host_set.2.valid.owns.ordered host_short
      set_rounds

reachable_count-ok_example :
    (reached : ℕ → Bool) × (reachable_count tables.visited 1000 host_set.0.set.cache
        host_set.0.set.set_bdd
      ≡ some (sum_below host_set.0.set.cache.largest_index (λ i. bit (reached i))))
    × ((i : ℕ)
        → (reached i ≡ true) ↔ Used host_set.2.valid.owns.graph host_set.0.set.set_bdd (i * 2))
reachable_count-ok_example =
    reachable_count-ok host_set.2.valid.owns.inv tables.visited host_set.0.set.set_bdd 1000
      set_rounds (known_node host_set.2.valid.owns.repr)

abbrev two_entries : List Entry
two_entries =
    record { variable = 1; low = pos 0; high = pos 1 }
    ∷ record { variable = 0; low = pos 0; high = negsuc 0 }
    ∷ []

set_size_v1-length_example :
    (set_size_v1 4 2 ≡ length (file_bytes 4 two_entries)) × (set_size_v1 4 2 < 2 ^ 64)
set_size_v1-length_example = set_size_v1-length 4 two_entries (omega arith)

-- A file that starts like a set of version 2.
abbrev later_file : List ℕ
later_file = 73 ∷ 80 ∷ 32 ∷ 115 ∷ 101 ∷ 116 ∷ 0 ∷ 2 ∷ 9 ∷ []

later_file_error : header_error tables false later_file ≡ some (unknown_version 2)
unfolding of_bytes
later_file_error = refl

load_set-header_error_example :
    load_set tables (in_file tables false later_file) ≡ null (unknown_version 2)
load_set-header_error_example =
    load_set-header_error tables false later_file (unknown_version 2) later_file_error

-- A disk that has room for so many bytes.
abbrev pub disk : Stdio
disk = record {
  File = ℕ;
  fwrite = λ buf room. (if ltb room (length buf) then room else length buf, room - length buf);
  ferror = λ room. room == 0;
}

save_set-FileEnds_example :
    FileEnds disk tables host_set.2.valid.owns.graph host_set.0.set.set_bdd 40
      (save_set tables disk 1000 host_set.0.set 40)
save_set-FileEnds_example =
    save_set-FileEnds disk tables 1000 host_set.0.set 40 host_set.2.valid set_rounds

-- Every number is printed as a digit.
abbrev pub digits : Printf
digits = record { signed = λ s. 48 ∷ []; unsigned = λ n. 48 ∷ [] }
