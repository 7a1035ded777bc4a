-- ===== src/Storage/Writes.antt =====
-- Saving a set or a map to a file that may not take everything.
use libcorkipset.Prelude.{
  ℕ, ◌+◌, ◌*◌, ◌<◌, ◌≡◌, ◌≢◌, refl, ap, ◌∙◌, subst, true, none, some, List, [], ◌++◌, ==→eq, eq→==,
  ◌==◌, inl, inr, arith, length, Bool-cases,
}
use libcorkipset.Tree.{Tree, IsOrdered, height}
use libcorkipset.Tree.Order.{height-le}
use libcorkipset.Node.{NodeTable}
use libcorkipset.Cache.{NodeCache}
use libcorkipset.Cache.Graph.{Graph}
use libcorkipset.Cache.Graph.Repr.{Repr}
use libcorkipset.Cache.Invariant.{Invariant}
use libcorkipset.Pointers.{PointerTables}
use libcorkipset.Stream.{
  Consumer, Accepts, Stdio, FileConsumer, file_consumer, file_consumer_data, create_errno_error,
}
use libcorkipset.Save.{SaveData, Result, ok, refused, stuck, save}
use libcorkipset.Save.Entry.{Entry}
use libcorkipset.Save.Whole.{Listed, WholeFile, file_bytes, save-ok}
use libcorkipset.Save.Mirror.{Mirrors, Ends, with_stream, save-Ends}
use libcorkipset.Set.{IpSet, depth}
use libcorkipset.Set.Valid.{Valid, variables}
use libcorkipset.Map.{IpMap}
use libcorkipset.Map.Valid as Maps
use libcorkipset.Storage.{save_set, save_set_to_stream, save_map, save_map_to_stream}

-- A consumer that takes every chunk.
abbrev recorder : Consumer
recorder = record { State = List ℕ; consume = λ buf is_first bytes. (true, bytes ++ buf) }

abbrev recorder_accepts : Accepts recorder
recorder_accepts = record {
  contents = λ bytes. bytes;
  accepted = λ buf is_first bytes. refl;
  appended = λ buf is_first bytes. refl;
}

module _ (S : Stdio) where
  -- The file after some calls of `fwrite`, each of which has written all of its bytes, with the
  -- bytes of all of them.
  pub data WroteAll (fp : S.File) : List ℕ → S.File → Type 0 where
    at_start : WroteAll fp [] fp
    then_write :
        {bytes : List ℕ} {fp' : S.File} (buf : List ℕ)
        → WroteAll fp bytes fp'
        → (S.fwrite buf fp').0 ≡ length buf
        → WroteAll fp (bytes ++ buf) (S.fwrite buf fp').1

  -- A write of `buf` fell short, which was the last one.
  pub record FellShort (fp : S.File) (f : FileConsumer S) : Type 0 where
    pub bytes : List ℕ
    pub before : S.File
    pub complete : WroteAll fp bytes before
    pub buf : List ℕ
    pub short : (S.fwrite buf before).0 ≢ length buf
    pub last : f.fp ≡ (S.fwrite buf before).1
    pub error : f.error ≡ some (create_errno_error S f.fp)

  -- The file has been written: each node of `g` under the root once, children first.
  pub record Complete (g : Graph) (root : ℕ) (fp : S.File) (f : FileConsumer S) : Type 0 where
    pub order : List ℕ
    pub es : List Entry
    pub listed : Listed g root order es
    pub wrote : WroteAll fp (file_bytes root es) f.fp
    pub no_error : f.error ≡ none

  -- No error has been set, no write fell short, and the bytes are those of the other consumer.
  abbrev Recorded : S.File → FileConsumer S → List ℕ → Type 0
  Recorded fp f bytes = (f.error ≡ none) × WroteAll fp bytes f.fp

  file_consumer-Mirrors :
      (fp : S.File) → Mirrors (file_consumer S) recorder (Recorded fp) (FellShort fp)
  unfolding file_consumer_data
  file_consumer-Mirrors fp = record {
    accepts = λ buf is_first s bytes good taken.
        elim (Bool-cases ((S.fwrite buf s.fp).0 == length buf)) [
          | inl all ↦ (refl, rw all (good.0, then_write buf good.1 (==→eq _ _ all)))
          | inr short ↦ absurd (let declined = rw short at taken in cc)
        ];
    refuses = λ buf is_first s bytes good declined.
        elim (Bool-cases ((S.fwrite buf s.fp).0 == length buf)) [
          | inl all ↦ absurd (let taken = rw all at declined in cc)
          | inr short ↦ rw short (record {
            bytes = bytes;
            before = s.fp;
            complete = good.1;
            buf = buf;
            short = λ p. (let all = eq→== _ _ p in cc);
            last = refl;
            error = refl;
          })
        ];
  }

  module _ ⦃T : NodeTable⦄ (P : PointerTables) where
    -- What a save to the file `fp` returns: success when the whole file has been written, or failure
    -- at the first write that fell short.
    abbrev pub FileEnds : Graph → ℕ → S.File → Result P (file_consumer S) (Unit {0}) → Type 0
    FileEnds g root fp (ok u st) = Complete g root fp st.stream
    FileEnds g root fp (refused st) = FellShort fp st.stream
    FileEnds g root fp stuck = ⊥

    Ends-FileEnds :
        (g : Graph) (root : ℕ) (fp : S.File) (res : Result P (file_consumer S) (Unit {0}))
        (other : Result P recorder (Unit {0}))
        → Ends P (file_consumer S) recorder (Recorded fp) (FellShort fp) res other
        → WholeFile P recorder recorder_accepts g root [] other
        → FileEnds g root fp res
    Ends-FileEnds g root fp (ok u st) other (bytes, e, (no_error, wrote)) w =
        let same : with_stream P (file_consumer S) recorder (Recorded fp) (FellShort fp) st bytes
            ≡ w.st' =
          (let run = w.run in cc) in
        record {
          order = w.order;
          es = w.es;
          listed = w.listed;
          wrote =
              subst (λ sent. WroteAll fp sent st.stream.fp)
                (ap (λ (there : SaveData P recorder). there.stream) same ∙ w.sent) wrote;
          no_error = no_error;
        }
    Ends-FileEnds g root fp (refused st) other h w = h
    Ends-FileEnds g root fp stuck other h w = absurd h

    -- A save of an ordered diagram to a file.
    save-FileEnds :
        {c : NodeCache} {g : Graph} {r : ℕ → ℕ} {free : List ℕ} (inv : Invariant c g r free)
        (rounds root : ℕ) (t : Tree) (fp : S.File)
        → Repr g root t
        → IsOrdered variables 0 t
        → 2 * c.largest_index + 1 < rounds
        → FileEnds g root fp
            (save P (file_consumer S) depth rounds c root (record { fp = fp; error = none }))
    save-FileEnds {g} inv rounds root t fp rep ordered enough =
        let deep : height t < depth =
          omega (arith, height-le variables t {x = 0} (omega arith) ordered) in
        Ends-FileEnds g root fp _ _
          (save-Ends P (file_consumer S) recorder (Recorded fp) (FellShort fp)
            (file_consumer-Mirrors fp) inv depth rounds root t (record { fp = fp; error = none }) []
            rep deep enough (refl, at_start))
          (save-ok P recorder_accepts inv variables depth rounds root t [] rep ordered deep enough)

    -- On a valid set, with more rounds than twice the largest index plus one, `save_set` terminates,
    -- whatever `fwrite` does. Either it succeeds, no error is set, every call of `fwrite` on the
    -- file has written all of its bytes, and together they are the bytes of a whole file: a header,
    -- one entry for each nonterminal of the set's diagram, after those of its children, and a
    -- footer. Or it fails, every call has written all of its bytes but the last one, which fell
    -- short, and the error is the one that `ferror` tells of the file after that call.
    pub save_set-FileEnds :
        (rounds : ℕ) (s : IpSet) (fp : S.File) (v : Valid s)
        → 2 * s.cache.largest_index + 1 < rounds
        → FileEnds v.owns.graph s.set_bdd fp (save_set P S rounds s fp)
    unfolding save_set save_set_to_stream
    save_set-FileEnds rounds s fp v enough =
        save-FileEnds v.owns.inv rounds s.set_bdd v.tree fp v.owns.repr v.owns.ordered enough

    -- The same of `save_map` on a valid map.
    pub save_map-FileEnds :
        (rounds : ℕ) (m : IpMap) (fp : S.File) (v : Maps.Valid m)
        → 2 * m.cache.largest_index + 1 < rounds
        → FileEnds v.owns.graph m.map_bdd fp (save_map P S rounds m fp)
    unfolding save_map save_map_to_stream
    save_map-FileEnds rounds m fp v enough =
        save-FileEnds v.owns.inv rounds m.map_bdd v.tree fp v.owns.repr v.owns.ordered enough
