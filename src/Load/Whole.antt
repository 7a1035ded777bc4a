-- ===== src/Load/Whole.antt =====
-- A whole file of version 1 is read.
use libcorkipset.Prelude.{
  ℕ, ◌+◌, ◌-◌, ◌*◌, ◌%◌, ◌^◌, ◌<◌, ◌≡◌, ◌≢◌, refl, sym, ap, ◌∙◌, subst, Bool, false, List, [], ◌++◌,
  map, ltb, ne→==, arith, length,
}
use mathlib.Core.List.{append_assoc}
use libcorkipset.Node.{NodeTable}
use libcorkipset.NodeId.{get_type}
use libcorkipset.Cache.{NodeCache, new}
use libcorkipset.Cache.Counting.{even-parts, odd-type}
use libcorkipset.Bdd.Evaluate.{odd-value}
use libcorkipset.Bdd.Owner.{terminal_node_id-small}
use libcorkipset.Pointers.{PointerTables}
use libcorkipset.BigEndian.{big_endian}
use libcorkipset.Save.{magic_number, set_size_v1}
use libcorkipset.Save.Entry.{Entry, encode}
use libcorkipset.Save.Header.{header_bytes, footer_bytes}
use libcorkipset.Save.Whole.{file_bytes}
use libcorkipset.Load.{Result, ok, load, load_v1, verify_cap}
use libcorkipset.Load.Read.{state, no_error, read_uint-ok}
use libcorkipset.Load.Cache.{Loading}
use libcorkipset.Load.Loop.{load_nonterminals-ok}
use libcorkipset.Load.Entries.{Loadable, content_of}

-- What follows the version number.
abbrev body_bytes : ℕ → List Entry → List ℕ → List ℕ
body_bytes root es more =
    big_endian 8 (set_size_v1 root (length es))
    ++ (big_endian 4 (length es) ++ (encode es ++ (footer_bytes root ++ more)))

file_bytes-append :
    (root : ℕ) (es : List Entry) (more : List ℕ)
    → file_bytes root es ++ more ≡ magic_number ++ (big_endian 2 1 ++ body_bytes root es more)
file_bytes-append root es more =
    let a = big_endian 8 (set_size_v1 root (length es)) in
    let b = big_endian 4 (length es) in
    append_assoc (header_bytes root (length es)) (encode es ++ footer_bytes root) more
    ∙ append_assoc magic_number (big_endian 2 1 ++ (a ++ b))
        ((encode es ++ footer_bytes root) ++ more)
    ∙ ap (λ ys. magic_number ++ ys)
        (append_assoc (big_endian 2 1) (a ++ b) ((encode es ++ footer_bytes root) ++ more)
          ∙ ap (λ ys. big_endian 2 1 ++ ys)
              (append_assoc a b ((encode es ++ footer_bytes root) ++ more)
                ∙ ap (λ ys. a ++ (b ++ ys)) (append_assoc (encode es) (footer_bytes root) more)))

module _ ⦃T : NodeTable⦄ where
  pub new-Loading : Loading new []
  unfolding new
  new-Loading = record {
    chunked = tt;
    room = omega arith;
    count = refl;
    no_free = refl;
    held = λ i k at. absurd cc;
    named = λ key id e. absurd (let fresh = T.table.get-new key in cc);
  }

  module _ (P : PointerTables) (fails : Bool) where
    verify_cap-ok :
        (bytes cap : ℕ) (rest : List ℕ) (c : NodeCache)
        → bytes ≡ cap
        → verify_cap P bytes cap (state P fails rest c) ≡ ok tt (state P fails rest c)
    unfolding verify_cap
    verify_cap-ok bytes cap rest c e =
        let below : ltb bytes cap ≡ false = ground arith in
        let above : ltb cap bytes ≡ false = ground arith in rw (below, above, verify_cap)

    -- A file of which only the part after the version is left.
    load-load_v1 :
        (fuel root : ℕ) (es : List Entry) (more : List ℕ) (c : NodeCache)
        → load P fuel (state P fails (file_bytes root es ++ more) c)
          ≡ load_v1 P fuel (state P fails (body_bytes root es more) c)
    unfolding load
    load-load_v1 fuel root es more c =
        let rest = body_bytes root es more in
        subst (λ ys. load P fuel (state P fails ys c) ≡ load_v1 P fuel (state P fails rest c))
          (sym (file_bytes-append root es more))
          (rw (no_error fails (length (magic_number ++ (big_endian 2 1 ++ rest))) 6 (omega arith))
            (rw (read_uint-ok P fails 2 1 rest c (omega arith))))

    -- What a load leaves.
    pub record Read (es : List Entry) (more : List ℕ) (id : ℕ) (res : Result P ℕ) : Type 0 where
      pub c' : NodeCache
      pub run : res ≡ ok id (state P fails more c')
      pub loading : Loading c' (map content_of es)

    pub load-terminal :
        (fuel v : ℕ) (more : List ℕ)
        → v < 2 ^ 31
        → Read [] more
            (v * 2 + 1)
            (load P fuel (state P fails (file_bytes (v * 2 + 1) [] ++ more) new))
    unfolding load_v1 set_size_v1
    load-terminal fuel v more small =
        let root = v * 2 + 1 in
        let size : set_size_v1 root 0 ≡ 24 = rw (odd-type v, set_size_v1) in
        let footer : footer_bytes root ≡ big_endian 4 v = rw (odd-type v, odd-value v) in
        let value = big_endian 4 v ++ more in
        record {
          c' = new;
          run =
              load-load_v1 fuel root [] more new
              ∙ rw (size, footer)
                  (rw (read_uint-ok P fails 8 24 (big_endian 4 0 ++ value) new (omega arith)) (
                    rw (read_uint-ok P fails 4 0 value new (omega arith)) (
                      rw (read_uint-ok P fails 4 v more new (omega arith))
                        (rw (terminal_node_id-small v small)))));
          loading = new-Loading;
        }

    pub load-nonterminals :
        (fuel root i : ℕ) (es : List Entry) (more : List ℕ)
        → root ≡ i * 2
        → Loadable es
        → length es ≢ 0
        → Read es more
            (length es * 2 - 2)
            (load P fuel (state P fails (file_bytes root es ++ more) new))
    unfolding load_v1 set_size_v1
    load-nonterminals fuel root i es more even loadable some_entries =
        let n = length es in
        let few = loadable.few in
        let type : get_type root ≡ 0 = rw even ((even-parts i).0) in
        let size : set_size_v1 root n ≡ 20 + 9 * n = rw (type, set_size_v1) (omega arith) in
        let footer : footer_bytes root ≡ [] = rw type in
        let count = big_endian 4 n ++ (encode es ++ more) in
        let loop =
          load_nonterminals-ok P fails more fuel es loadable [] es new P.cache_ids.new 4 0
            (4 + 9 * n) refl new-Loading (λ j lt. absurd (omega arith)) refl refl in
        let cap : (20 + 9 * n + 2 ^ 64 - 6 - 2 - 8) % 2 ^ 64 ≡ 4 + 9 * n = omega arith in
        record {
          c' = loop.c';
          run =
              load-load_v1 fuel root es more new
              ∙ rw (size, footer)
                  (rw (read_uint-ok P fails 8 (20 + 9 * n) count new (omega arith)) (
                    rw (read_uint-ok P fails 4 n (encode es ++ more) new (omega arith)) (
                      rw (ne→== n 0 some_entries, cap, loop.run)
                        (rw (verify_cap-ok (4 + 9 * n) (4 + 9 * n) more loop.c' refl)))));
          loading = loop.loading;
        }
