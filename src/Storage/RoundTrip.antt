-- ===== src/Storage/RoundTrip.antt =====
-- What is saved can be loaded: sets and maps keep what they say about every address.
use libcorkipset.Prelude.{
  ℕ, suc, ◌+◌, ◌-◌, ◌*◌, ◌^◌, ◌≤◌, ◌<◌, ◌≡◌, refl, sym, ap, ◌∙◌, subst, Bool, false, not, List, [],
  ◌++◌, map, ◌==◌, arith, length,
}
use mathlib.Core.Option
use libcorkipset.Tree.{Tree, terminal, nonterminal, height, eval}
use libcorkipset.Tree.Order.{height-le}
use libcorkipset.Node.{NodeTable}
use libcorkipset.Cache.{NodeCache, new}
use libcorkipset.Cache.Graph.{Graph}
use libcorkipset.Cache.Graph.Repr.{Repr, at_terminal, at_nonterminal}
use libcorkipset.Cache.Invariant.{Invariant}
use libcorkipset.Bdd.Evaluate.{Reads, evaluate-Reads}
use libcorkipset.Bdd.Owner.{evaluate-Owns}
use libcorkipset.Pointers.{PointerTables}
use libcorkipset.SerializedId.{ℤ, pos, negsuc}
use libcorkipset.Stream.{Consumer, Accepts}
use libcorkipset.Save.{SaveData, Result, save}
use libcorkipset.Save as Saving
use libcorkipset.Save.Entry.{Entry}
use libcorkipset.Save.Places.{Final}
use libcorkipset.Save.Whole.{Listed, file_bytes, save-ok}
use libcorkipset.Load.{InFile, load}
use libcorkipset.Load as Loading
use libcorkipset.Load.Read.{state}
use libcorkipset.Load.Cache as Caches
use libcorkipset.Load.Entries.{content_of}
use libcorkipset.Load.Whole.{load-terminal, load-nonterminals}
use libcorkipset.Load.Listed.{
  listed-Loadable, loaded_graph, Final-Repr, root-last, terminal-entries,
}
use libcorkipset.Load.Small.{IsSmall, eval-IsSmall}
use libcorkipset.Address.{Family, assignment}
use libcorkipset.Set.{IpSet, depth, contains}
use libcorkipset.Set.Valid.{Valid, variables}
use libcorkipset.Set as Sets
use libcorkipset.Map.{IpMap, get}
use libcorkipset.Map
use libcorkipset.Map.Valid as Maps
use libcorkipset.NodeId.{terminal_node_id}
use libcorkipset.Bdd.{evaluate}
use libcorkipset.Bdd.Replace.{Owns}
use libcorkipset.Storage.{save_set_to_stream, save_map_to_stream, loaded, load_set, load_map}

module _ ⦃T : NodeTable⦄ (P : PointerTables) where
  -- The diagram that a load gives.
  record Restored (fails : Bool) (more : List ℕ) (t : Tree) (res : Loading.Result P ℕ)
      : Type 0 where
    id : ℕ
    cache : NodeCache
    graph : Graph
    run : res ≡ Loading.ok id (state P fails more cache)
    reads : Reads cache graph
    repr : Repr graph id t

  module _ {c : NodeCache} {g : Graph} {r : ℕ → ℕ} {free : List ℕ} (inv : Invariant c g r free)
      (root : ℕ) (order : List ℕ) (es : List Entry) (listed : Listed g root order es) where
    Reads-of :
        (c' : NodeCache)
        → Caches.Loading c' (map content_of es)
        → Reads c' (loaded_graph inv root order es listed)
    Reads-of c' l i k here = (1, (l.held i k here).1)

    load-Restored :
        (fuel : ℕ) (t : Tree) (fails : Bool) (more : List ℕ)
        → Repr g root t
        → IsSmall t
        → length es ≤ 2 ^ 31
        → Restored fails more t (load P fuel (state P fails (file_bytes root es ++ more) new))
    load-Restored fuel (terminal v) fails more (at_terminal odd) small few =
        let empty = terminal-entries inv root order es listed v odd in
        let read = load-terminal P fails fuel v more small in
        record {
          id = v * 2 + 1;
          cache = read.c';
          graph = loaded_graph inv root order es listed;
          run =
              subst
                (λ xs.
                  load P fuel (state P fails (file_bytes root xs ++ more) new)
                  ≡ Loading.ok (v * 2 + 1) (state P fails more read.c'))
                (sym empty)
                (subst
                  (λ m.
                    load P fuel (state P fails (file_bytes m [] ++ more) new)
                    ≡ Loading.ok (v * 2 + 1) (state P fails more read.c'))
                  (sym odd) read.run);
          reads =
              Reads-of read.c'
                (subst (λ xs. Caches.Loading read.c' (map content_of xs)) (sym empty) read.loading);
          repr = at_terminal refl;
        }
    load-Restored fuel (nonterminal x l h) fails more (at_nonterminal {i} k even here var rl rh)
          small few =
        let rep : Repr g root (nonterminal x l h) = at_nonterminal k even here var rl rh in
        let loadable = listed-Loadable inv root order es listed (nonterminal x l h) rep small few in
        let (j, final, last) =
          root_place (nonterminal x l h) i even listed.root_id listed.root_final in
        let read = load-nonterminals P fails fuel root i es more even loadable (omega arith) in
        let id : length es * 2 - 2 ≡ j * 2 = omega arith in
        record {
          id = length es * 2 - 2;
          cache = read.c';
          graph = loaded_graph inv root order es listed;
          run = read.run;
          reads = Reads-of read.c' read.loading;
          repr =
              subst (λ m. Repr (loaded_graph inv root order es listed) m (nonterminal x l h))
                (sym id)
                (Final-Repr inv root order es listed root (negsuc j) (nonterminal x l h) final rep);
        }
      where
        root_place :
            (t : Tree) (i : ℕ)
            → root ≡ i * 2
            → (s : ℤ) → Final order root s
            → (j : ℕ) × Final order root (negsuc j) × (length es ≡ suc j)
        root_place t i even (pos v) odd = absurd (omega arith)
        root_place t i even (negsuc j) (i', e, at) =
            (j, (i', e, at), root-last inv root order es listed j i' e at)

  -- A file that is read: bytes that have been saved, and whatever follows them.
  abbrev pub in_file : Bool → List ℕ → InFile
  in_file fails bytes = record { rest = bytes; fails = fails; error = false }

  -- A diagram is saved as bytes, and a file that starts with them is loaded as a diagram that
  -- evaluates alike.
  pub record BddRoundTrip (C : Consumer) (acc : Accepts C) (c : NodeCache) (root : ℕ)
      (stream : C.State) (fails : Bool) (more : List ℕ) (res : Saving.Result P C (Unit {0}))
      : Type 0 where
    pub st' : SaveData P C
    pub bytes : List ℕ
    pub saved : res ≡ Saving.ok tt st'
    pub sent : acc.contents st'.stream ≡ acc.contents stream ++ bytes
    pub id : ℕ
    pub cache : NodeCache
    pub reloaded :
        load P depth (record { stream = in_file fails (bytes ++ more); cache = new })
        ≡ Loading.ok id (record { stream = in_file fails more; cache = cache })
    pub same : (a : ℕ → Bool) → evaluate depth cache id a ≡ evaluate depth c root a

  -- A diagram of a well-formed cache, with variables below 129 and values below 2^31, is saved by a
  -- consumer that accepts every chunk if the rounds are more than twice the largest index plus one.
  -- A file that starts with the bytes it sends is loaded into a new cache, up to those bytes and no
  -- further, as a diagram that `evaluate` gives the same value at every assignment.
  pub save-load :
      (C : Consumer) (acc : Accepts C) (rounds : ℕ) (c : NodeCache) (root : ℕ) (t : Tree)
      (stream : C.State) (fails : Bool) (more : List ℕ)
      → Owns variables c root t
      → ((b : ℕ → Bool) → eval t b < 2 ^ 31)
      → 2 * c.largest_index + 1 < rounds
      → BddRoundTrip C acc c root stream fails more (save P C depth rounds c root stream)
  save-load C acc rounds c root t stream fails more o values enough =
      let short : height t < depth =
        omega (arith, height-le variables t {x = 0} (omega arith) o.ordered) in
      let small = eval-IsSmall variables 0 t (omega arith) o.ordered values in
      let w =
        save-ok P acc o.inv variables depth rounds root t stream o.repr o.ordered short enough in
      let restored =
        load-Restored o.inv root w.order w.es w.listed depth t fails more o.repr small w.few in
      record {
        st' = w.st';
        bytes = file_bytes root w.es;
        saved = w.run;
        sent = w.sent;
        id = restored.id;
        cache = restored.cache;
        reloaded = restored.run;
        same = λ a.
            evaluate-Reads restored.cache restored.graph restored.reads depth t a short
              restored.repr
            ∙ sym (evaluate-Owns o depth a (omega arith));
      }

  -- What is left of a set that is saved and loaded.
  pub record SetRoundTrip (C : Consumer) (acc : Accepts C) (s : IpSet) (stream : C.State)
      (fails : Bool) (more : List ℕ) (res : Saving.Result P C (Unit {0})) : Type 0 where
    pub st' : SaveData P C
    pub bytes : List ℕ
    pub saved : res ≡ Saving.ok tt st'
    pub sent : acc.contents st'.stream ≡ acc.contents stream ++ bytes
    pub copy : IpSet
    pub reloaded : load_set P (in_file fails (bytes ++ more)) ≡ loaded copy (in_file fails more)
    pub same :
        (family : Family) (elem : List ℕ) → contains family copy elem ≡ contains family s elem

  -- A valid set is saved by a consumer that accepts every chunk if the rounds are more than twice
  -- the largest index plus one. A file that starts with the bytes it sends is loaded, up to those
  -- bytes and no further, as a set for which `contains` gives the same answer at every address of
  -- every family.
  pub save_set_to_stream-load_set :
      (C : Consumer) (acc : Accepts C) (rounds : ℕ) (s : IpSet) (stream : C.State) (fails : Bool)
      (more : List ℕ)
      → Valid s
      → 2 * s.cache.largest_index + 1 < rounds
      → SetRoundTrip C acc s stream fails more (save_set_to_stream P C rounds s stream)
  unfolding save_set_to_stream load_set contains Sets.init
  save_set_to_stream-load_set C acc rounds s stream fails more v enough =
      let w =
        save-load C acc rounds s.cache s.set_bdd v.tree stream fails more v.owns
          (λ b. omega (arith, v.boolean b)) enough in
      record {
        st' = w.st';
        bytes = w.bytes;
        saved = w.saved;
        sent = w.sent;
        copy = record { cache = w.cache; set_bdd = w.id };
        reloaded = rw (w.reloaded, load_set);
        same = λ family elem. ap (Option.map (λ x. not (x == 0))) (w.same (assignment family elem));
      }

  -- What is left of a map that is saved and loaded: its values, and not its default.
  pub record MapRoundTrip (C : Consumer) (acc : Accepts C) (m : IpMap) (stream : C.State)
      (fails : Bool) (more : List ℕ) (res : Saving.Result P C (Unit {0})) : Type 0 where
    pub st' : SaveData P C
    pub bytes : List ℕ
    pub saved : res ≡ Saving.ok tt st'
    pub sent : acc.contents st'.stream ≡ acc.contents stream ++ bytes
    pub copy : IpMap
    pub reloaded : load_map P (in_file fails (bytes ++ more)) ≡ loaded copy (in_file fails more)
    pub same : (family : Family) (elem : List ℕ) → get family copy elem ≡ get family m elem
    pub default_lost : copy.default_bdd ≡ terminal_node_id 0

  -- A valid map is saved by a consumer that accepts every chunk if the rounds are more than twice
  -- the largest index plus one. A file that starts with the bytes it sends is loaded, up to those
  -- bytes and no further, as a map for which `get` gives the same value at every address of every
  -- family, but whose default is 0 whatever it was.
  pub save_map_to_stream-load_map :
      (C : Consumer) (acc : Accepts C) (rounds : ℕ) (m : IpMap) (stream : C.State) (fails : Bool)
      (more : List ℕ)
      → (v : Maps.Valid m) → 2 * m.cache.largest_index + 1 < rounds
      → MapRoundTrip C acc m stream fails more (save_map_to_stream P C rounds m stream)
  unfolding save_map_to_stream load_map get Map.init
  save_map_to_stream-load_map C acc rounds m stream fails more v enough =
      let w =
        save-load C acc rounds m.cache m.map_bdd v.tree stream fails more v.owns v.values_small
          enough in
      record {
        st' = w.st';
        bytes = w.bytes;
        saved = w.saved;
        sent = w.sent;
        copy = record { cache = w.cache; map_bdd = w.id; default_bdd = terminal_node_id 0 };
        reloaded = rw (w.reloaded, load_map);
        same = λ family elem. w.same (assignment family elem);
        default_lost = refl;
      }
