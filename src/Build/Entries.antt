-- ===== src/Build/Entries.antt =====
-- How the lines of a file change the set and the removals of src/ipsetbuild/ipsetbuild.c.
use libcorkipset.Prelude.{
  ℕ, ◌+◌, ◌*◌, ◌^◌, ◌≤◌, ◌≡◌, refl, sym, subst, ◌∙◌, ap, inl, inr, Bool, true, false, ◌&&◌, ◌||◌,
  Option, none, some, List, [], ◌∷◌, length, length-append, if◌then◌else◌, any, any-append,
  or_false, or_true, Bool-cases, Gives, arith,
}
use libcorkipset.Node.{NodeTable}
use libcorkipset.Address.{CorkIp, family_of}
use libcorkipset.Address.Network.{in_network}
use libcorkipset.Set.{IpSet, Reply, ip_add, ip_add_network, contains_ip, contains}
use libcorkipset.Set.Valid.{Valid}
use libcorkipset.Set.Laws.{Written, add-ok, add_network-ok}
use libcorkipset.Set.Dispatch.{family_of-small, family_of-bits, network_has, in_network-family_of}
use libcorkipset.Build.{cidr_out_of_range, Parsing, Options, Line, skipped, refused, entry}
use libcorkipset.Build.Lines.{
  Removal, Reading, enter_line, add_entry, append_removal, record_added, network_added, with_fault,
  removal_of, is_nonnegative,
}
use libcorkipset.Build.Wanted.{covers, adds, removes, is_faulty, takes_out, out_of_range}

module _ ⦃T : NodeTable⦄ where
  -- The set contains the addresses of `wanted`, the removals name those of `gone`, and there is an
  -- allowance for the nodes of both.
  pub record Holds (s : IpSet) (removals : List Removal) (wanted gone : CorkIp → Bool) (n : ℕ)
      : Type 0 where
    pub valid : Valid s
    pub contents : (addr' : CorkIp) → contains_ip s addr' ≡ some (wanted addr')
    pub holes : (addr' : CorkIp) → any (takes_out addr') removals ≡ gone addr'
    pub growth : s.cache.largest_index + 260 * length removals ≤ n

  pub Holds-mono :
      {s : IpSet} {removals : List Removal} {wanted gone : CorkIp → Bool} {n : ℕ}
      {wanted' gone' : CorkIp → Bool} {n' : ℕ}
      → Holds s removals wanted gone n
      → ((a : CorkIp) → wanted a ≡ wanted' a)
      → ((a : CorkIp) → gone a ≡ gone' a)
      → n ≤ n'
      → Holds s removals wanted' gone' n'
  Holds-mono h same_wanted same_gone le = record {
    valid = h.valid;
    contents = λ a. h.contents a ∙ rw (same_wanted a);
    holes = λ a. h.holes a ∙ same_gone a;
    growth = omega (arith, h.growth);
  }

  added_value : (c w : Bool) → (if c then some true else some w) ≡ some (w || c)
  added_value true true = refl
  added_value true false = refl
  added_value false true = refl
  added_value false false = refl

  -- An addition without an error.
  Written-contents :
      {s : IpSet} (v : Valid s) (addr : CorkIp) (n : ℕ) (r : Reply) (wanted : CorkIp → Bool)
      → Written s v (family_of addr) addr.ip n true r
      → ((addr' : CorkIp) → contains_ip s addr' ≡ some (wanted addr'))
      → (addr' : CorkIp) → contains_ip r.set addr' ≡ some (wanted addr' || network_has addr n addr')
  unfolding contains_ip
  Written-contents {s} v addr n r wanted w before addr' =
      let there = in_network (family_of addr) addr.ip n (family_of addr') addr'.ip in
      let kept : (if there then some true else contains (family_of addr') s addr'.ip)
          ≡ (if there then some true else some (wanted addr')) =
        ap (λ o. if there then some true else o) (before addr') in
      w.others (family_of addr') addr'.ip
      ∙ kept
      ∙ added_value there (wanted addr')
      ∙ ap (λ b. some (wanted addr' || b)) (in_network-family_of addr addr' n)

  module _ (L : Parsing) (options : Options) (filename : List ℕ) where
    record_added_keeps :
        (address : List ℕ) (addr : CorkIp) (cidr : Option ℕ) (unchanged : Bool) (st : Reading)
        → let st' = record_added L options filename address addr cidr unchanged st in
          (st'.set ≡ st.set) × (st'.removals ≡ st.removals) × (st'.ip_error ≡ st.ip_error)
    unfolding record_added
    record_added_keeps address addr cidr unchanged st =
        elim (Bool-cases (unchanged && is_nonnegative options.verbosity)) [
          | inl alert ↦ rw alert (refl, refl, refl)
          | inr counted ↦ rw counted (refl, refl, refl)
        ]

    network_added-record_added :
        (address : List ℕ) (addr : CorkIp) (cidr : ℕ) (r : Reply) (st : Reading)
        → r.error ≡ none
        → network_added L options filename address addr cidr r st
          ≡ record_added L options filename address addr (some cidr) r.result st
    network_added-record_added address addr cidr r st e = rw e refl

    module _ (st : Reading) (wanted gone : CorkIp → Bool) (n : ℕ)
        (before : Holds st.set st.removals wanted gone n) (room : n + 260 ≤ 2 ^ 31) where
      abbrev pub Entered : Line → Reading → Type 0
      Entered line st' =
          Holds st'.set st'.removals (λ a. wanted a || adds a line) (λ a. gone a || removes a line)
            (n + 260)
          × (st'.ip_error ≡ (st.ip_error || is_faulty line))

      unchanged-Entered :
          (line : Line) (st' : Reading)
          → st'.set ≡ st.set
          → st'.removals ≡ st.removals
          → ((a : CorkIp) → adds a line ≡ false)
          → ((a : CorkIp) → removes a line ≡ false)
          → st'.ip_error ≡ (st.ip_error || is_faulty line)
          → Entered line st'
      unchanged-Entered line st' es er no_adds no_removes faulty = (
        rw (es, er)
            (Holds-mono before (λ a. rw (no_adds a) (sym (or_false (wanted a))))
              (λ a. rw (no_removes a) (sym (or_false (gone a)))) (omega arith)),
        faulty,
      )

      added-Entered :
          (address : List ℕ) (addr : CorkIp) (cidr : Option ℕ) (m : ℕ) (r : Reply)
          → Written st.set before.valid (family_of addr) addr.ip m true r
          → ((a : CorkIp) → network_has addr m a ≡ covers addr cidr a)
          → is_faulty (entry false address addr cidr) ≡ false
          → Entered (entry false address addr cidr) (
              record_added L options filename address addr cidr r.result
                (record st { set = r.set }))
      added-Entered address addr cidr m r w same fine =
          let (es, er, ee) =
            record_added_keeps address addr cidr r.result (record st { set = r.set }) in
          (
            rw (es, er)
                (record {
                  valid = w.valid;
                  contents = λ a.
                      Written-contents before.valid addr m r wanted w before.contents a
                      ∙ rw (same a);
                  holes = λ a. before.holes a ∙ sym (or_false (gone a));
                  growth = omega (arith, w.growth, before.growth);
                }),
            ee ∙ rw fine (sym (or_false st.ip_error)),
          )

      room_here : st.set.cache.largest_index + 260 ≤ 2 ^ 31
      room_here = omega (arith, before.growth)

      takes_out-removal_of :
          (line_num : ℕ) (addr : CorkIp) (cidr : Option ℕ) (a : CorkIp)
          → takes_out a (removal_of line_num filename addr cidr) ≡ covers addr cidr a
      takes_out-removal_of line_num addr none a = refl
      takes_out-removal_of line_num addr (some cidr) a = refl

      append_removal-Entered :
          (address : List ℕ) (addr : CorkIp) (cidr : Option ℕ)
          → Entered (entry true address addr cidr) (append_removal L options filename addr cidr st)
      unfolding append_removal
      append_removal-Entered address addr cidr =
          let r = removal_of st.line_num filename addr cidr in
          (
            record {
              valid = before.valid;
              contents = λ a. before.contents a ∙ rw (or_false (wanted a));
              holes = λ a.
                  any-append (takes_out a) st.removals (r ∷ [])
                  ∙ rw (
                    before.holes a,
                    takes_out-removal_of st.line_num addr cidr a,
                    or_false (covers addr cidr a),
                  );
              growth = omega (arith, before.growth, length-append st.removals (r ∷ []));
            },
            sym (or_false st.ip_error),
          )

      add_entry-Entered :
          (address : List ℕ) (addr : CorkIp) (cidr : Option ℕ)
          → Gives
              (add_entry L options filename address addr cidr st)
              (Entered (entry false address addr cidr))
      unfolding add_entry ip_add ip_add_network
      add_entry-Entered address addr none =
          let (r, e, w) =
            add-ok (family_of addr) addr.ip before.valid room_here (family_of-small addr) in
          (
            record_added L options filename address addr none r.result (record st { set = r.set }),
            rw (add_entry, e) refl,
            added-Entered address addr none (family_of addr).bit_size r w
                (λ a. ap (λ n. network_has addr n a) (family_of-bits addr)) refl,
          )
      add_entry-Entered address addr (some cidr) =
          let (r, e, ended) =
            add_network-ok (family_of addr) addr.ip before.valid room_here cidr
              (family_of-small addr) in
          elim ended [
            | inl (out, same) ↦
                let bits = family_of-bits addr in
                let bad : out_of_range addr cidr ≡ true = ground arith in
                (
                  network_added L options filename address addr cidr r (record st { set = r.set }),
                  rw (add_entry, e) refl,
                  rw same (
                      unchanged-Entered (entry false address addr (some cidr))
                        (with_fault L options filename (cidr_out_of_range address cidr) st) refl
                        refl (λ a. rw bad refl) (λ a. refl) (rw bad (or_true st.ip_error))),
                )
            | inr (inside, w) ↦
                let bits = family_of-bits addr in
                let fine : out_of_range addr cidr ≡ false = ground arith in
                (
                  network_added L options filename address addr cidr r (record st { set = r.set }),
                  rw (add_entry, e) refl,
                  subst (Entered (entry false address addr (some cidr)))
                      (sym (
                        network_added-record_added address addr cidr r (record st { set = r.set })
                          w.no_error))
                      (added-Entered address addr (some cidr) cidr r w (λ a. rw fine refl) fine),
                )
          ]

      pub enter_line-ok :
          (line : Line) → Gives (enter_line L options filename line st) (Entered line)
      enter_line-ok skipped = (
        st,
        refl,
        unchanged-Entered skipped st refl refl (λ a. refl) (λ a. refl) (sym (or_false st.ip_error)),
      )
      enter_line-ok (refused fault) = (
        with_fault L options filename fault st,
        refl,
        unchanged-Entered (refused fault) (with_fault L options filename fault st) refl refl
            (λ a. refl) (λ a. refl) (or_true st.ip_error),
      )
      enter_line-ok (entry true address addr cidr) = (
        append_removal L options filename addr cidr st,
        refl,
        append_removal-Entered address addr cidr,
      )
      enter_line-ok (entry false address addr cidr) = add_entry-Entered address addr cidr
