-- ===== src/Storage.antt =====
-- Sets and maps in files: src/libipset/set/storage.c and map/storage.c.
pub mod RoundTrip
pub mod Errors
pub mod Writes
use libcorkipset.Prelude.{ℕ, Bool, true, false, Option, none, some, List}
use libcorkipset.Node.{NodeTable}
use libcorkipset.Cache.{NodeCache}
use libcorkipset.Pointers.{PointerTables}
use libcorkipset.Stream.{Consumer, Stdio, file_consumer}
use libcorkipset.Save.{save, ok as saved, refused as save_refused, stuck as save_stuck}
use libcorkipset.Save as Saving
use libcorkipset.Load.{InFile, LoadError, LoadState, load, ok, failed, stuck}
use libcorkipset.Set.{IpSet, init, depth}
use libcorkipset.Map.{IpMap}
use libcorkipset.Map as Maps

module _ ⦃T : NodeTable⦄ (P : PointerTables) where
  unfoldable pub save_set_to_stream :
      (C : Consumer) → ℕ → IpSet → C.State → Saving.Result P C (Unit {0})
  save_set_to_stream C rounds set stream = save P C depth rounds set.cache set.set_bdd stream

  unfoldable pub save_map_to_stream :
      (C : Consumer) → ℕ → IpMap → C.State → Saving.Result P C (Unit {0})
  save_map_to_stream C rounds map stream = save P C depth rounds map.cache map.map_bdd stream

  unfoldable pub save_set :
      (S : Stdio) → ℕ → IpSet → S.File → Saving.Result P (file_consumer S) (Unit {0})
  unfolding save_set_to_stream
  save_set S rounds set fp =
      save_set_to_stream (file_consumer S) rounds set (record { fp = fp; error = none })

  unfoldable pub save_map :
      (S : Stdio) → ℕ → IpMap → S.File → Saving.Result P (file_consumer S) (Unit {0})
  unfolding save_map_to_stream
  save_map S rounds map fp =
      save_map_to_stream (file_consumer S) rounds map (record { fp = fp; error = none })

  -- What a load gives: an object, NULL with an error, or no C value.
  pub data Loaded (A : Type 0) : Type 0 where
    loaded : A → InFile → Loaded A
    null : LoadError → Loaded A
    no_value : Loaded A

  -- On an error the new set is freed. C asks libcork whether an error has occurred: none was
  -- pending before the call.
  unfoldable pub load_set : InFile → Loaded IpSet
  load_set stream = elim (load P depth (record { stream = stream; cache = init.cache })) [
    | ok new_bdd st ↦ loaded (record { cache = st.cache; set_bdd = new_bdd }) st.stream
    | failed e st ↦ null e
    | stuck ↦ no_value
  ]

  unfoldable pub load_map : InFile → Loaded IpMap
  load_map stream =
      let map = Maps.init 0 in
      elim (load P depth (record { stream = stream; cache = map.cache })) [
        | ok new_bdd st ↦ loaded (record map { cache = st.cache; map_bdd = new_bdd }) st.stream
        | failed e st ↦ null e
        | stuck ↦ no_value
      ]
