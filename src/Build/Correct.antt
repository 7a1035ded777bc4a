-- ===== src/Build/Correct.antt =====
-- The set that src/ipsetbuild/ipsetbuild.c builds.
use libcorkipset.Prelude.{
  ℕ, suc, ◌+◌, ◌*◌, ◌^◌, ◌≤◌, ◌≡◌, refl, sym, ◌∙◌, ap, inl, inr, Bool, true, false, not, ◌&&◌, some,
  List, [], ◌∷◌, length, if◌then◌else◌, any, and_true, and_not_or, Bool-cases, Gives, arith,
}
use libcorkipset.Node.{NodeTable}
use libcorkipset.Cache.{new}
use libcorkipset.Load.{InFile}
use libcorkipset.Tool.{Files}
use libcorkipset.Address.{CorkIp, family_of}
use libcorkipset.Address.Network.{in_network}
use libcorkipset.Set.{IpSet, Reply, init, contains, contains_ip, ip_remove, ip_remove_network}
use libcorkipset.Set.Valid.{Valid, init-Valid}
use libcorkipset.Set.Laws.{Written, remove-ok, remove_network-ok, contains-ok}
use libcorkipset.Set.Dispatch.{family_of-small, family_of-bits, network_has, in_network-family_of}
use libcorkipset.Build.{Parsing, Options}
use libcorkipset.Build.Lines.{Removal}
use libcorkipset.Build.Program.{
  Totals, exited, continued, removal_reply, after_removal, remove_entries, start, build,
}
use libcorkipset.Build.Wanted.{adds, is_faulty, takes_out, out_of_range, said, asked}
use libcorkipset.Build.Entries.{Holds}
use libcorkipset.Build.Reads.{Opens, Ended, read_files-ok}

module _ ⦃T : NodeTable⦄ where
  removed_value : (c w : Bool) → (if c then some false else some w) ≡ some (w && not c)
  removed_value true true = refl
  removed_value true false = refl
  removed_value false true = refl
  removed_value false false = refl

  -- A set with known members, with an allowance for the nodes of `n` removals.
  pub record Contains (s : IpSet) (members : CorkIp → Bool) (n : ℕ) : Type 0 where
    pub valid : Valid s
    pub contents : (addr' : CorkIp) → contains_ip s addr' ≡ some (members addr')
    pub room : s.cache.largest_index + 260 * n ≤ 2 ^ 31

  Written-Contains :
      {s : IpSet} (addr : CorkIp) (m n : ℕ) (r : Reply) (members : CorkIp → Bool)
      (before : Contains s members (suc n))
      → Written s before.valid (family_of addr) addr.ip m false r
      → Contains r.set (λ a. members a && not (network_has addr m a)) n
  unfolding contains_ip
  Written-Contains {s} addr m n r members before w = record {
    valid = w.valid;
    contents = λ a.
        let there = in_network (family_of addr) addr.ip m (family_of a) a.ip in
        let kept : (if there then some false else contains (family_of a) s a.ip)
            ≡ (if there then some false else some (members a)) =
          ap (λ o. if there then some false else o) (before.contents a) in
        w.others (family_of a) a.ip
        ∙ kept
        ∙ removed_value there (members a)
        ∙ ap (λ b. some (members a && not b)) (in_network-family_of addr a m);
    room = omega (arith, w.growth, before.room);
  }

  Contains-same :
      {s : IpSet} {members members' : CorkIp → Bool} {n m : ℕ}
      → Contains s members n
      → ((a : CorkIp) → members a ≡ members' a)
      → m ≤ n
      → Contains s members' m
  Contains-same h same le = record {
    valid = h.valid;
    contents = λ a. h.contents a ∙ rw (same a);
    room = omega (arith, h.room);
  }

  -- One removal, be it in range or not.
  removal_reply-ok :
      (L : Parsing) (options : Options) (r : Removal) {s : IpSet} (members : CorkIp → Bool) (n : ℕ)
      → Contains s members (suc n)
      → Gives
          (removal_reply L options r s)
          (λ reply. Contains reply.set (λ a. members a && not (takes_out a r)) n)
  unfolding ip_remove ip_remove_network
  removal_reply-ok L options r {s} members n before =
      let addr = r.address in
      let room : s.cache.largest_index + 260 ≤ 2 ^ 31 = omega (arith, before.room) in
      elim (Bool-cases r.has_cidr) [
        | inr single ↦
            let (reply, e, w) =
              remove-ok (family_of addr) addr.ip before.valid room (family_of-small addr) in
            (
              reply,
              rw (single, e) refl,
              rw single (
                  Contains-same
                    (Written-Contains addr (family_of addr).bit_size n reply members before w)
                    (λ a.
                      ap (λ bits. members a && not (network_has addr bits a)) (family_of-bits addr))
                    (omega arith)),
            )
        | inl network ↦
            let (reply, e, ended) =
              remove_network-ok (family_of addr) addr.ip before.valid room r.cidr
                (family_of-small addr) in
            (
              reply,
              rw (network, e) refl,
              rw network (elim ended [
                | inl (out, same) ↦
                    let bits = family_of-bits addr in
                    let bad : out_of_range addr r.cidr ≡ true = ground arith in
                    rw (same, bad)
                      (Contains-same before (λ a. sym (and_true (members a))) (omega arith))
                | inr (inside, w) ↦
                    let bits = family_of-bits addr in
                    let fine : out_of_range addr r.cidr ≡ false = ground arith in
                    rw fine (Written-Contains addr r.cidr n reply members before w)
              ]),
            )
      ]

  after_removal_set :
      (L : Parsing) (options : Options) (r : Removal) (st : Totals) (reply : Reply)
      → (after_removal L options r st reply).set ≡ reply.set
  unfolding after_removal
  after_removal_set L options r st reply = elim (Bool-cases reply.result) [
    | inl same ↦ rw same refl
    | inr changed ↦ rw changed refl
  ]

  remove_entries-ok :
      (L : Parsing) (options : Options) (removals : List Removal) (st : Totals)
      (members : CorkIp → Bool)
      → Contains st.set members (length removals)
      → Gives
          (remove_entries L options removals st)
          (λ st'. Contains st'.set (λ a. members a && not (any (takes_out a) removals)) 0)
  unfolding remove_entries
  remove_entries-ok L options [] st members before =
      (st, refl, Contains-same before (λ a. sym (and_true (members a))) (omega arith))
  remove_entries-ok L options (r ∷ removals) st members before =
      let (reply, e1, one) = removal_reply-ok L options r members (length removals) before in
      let (st', e2, others) =
        remove_entries-ok L options removals (after_removal L options r st reply)
          (λ a. members a && not (takes_out a r))
          (rw (after_removal_set L options r st reply) one) in
      (
        st',
        rw (remove_entries, e1) e2,
        Contains-same others
            (λ a. and_not_or (members a) (takes_out a r) (any (takes_out a) removals))
            (omega arith),
      )

  init-empty : (a : CorkIp) → contains_ip init a ≡ some false
  unfolding contains_ip init
  init-empty a = contains-ok (family_of a) a.ip init-Valid

  start-Holds :
      (L : Parsing) (options : Options) → Holds (start L options).set [] (λ a. false) (λ a. false) 0
  unfolding init new
  start-Holds L options = record {
    valid = init-Valid;
    contents = init-empty;
    holes = λ a. refl;
    growth = omega arith;
  }

  -- The set that some files ask for.
  abbrev pub Asked : Parsing → Options → List InFile → Totals → Type 0
  Asked L options inputs st =
      Valid st.set
      × ((a : CorkIp) → contains_ip st.set a ≡ some (asked L options inputs a))
      × (st.set.cache.largest_index ≤ 2 ^ 31)

  -- Where every file can be opened and read and the standard input is named at most once, with at
  -- most 2^31 / 260 lines in all, `build` terminates. If some line is in error, the program exits
  -- before it writes anything. If none is, the set is valid, and it contains exactly the addresses
  -- that some line of some file adds and no line of any file removes, wherever these lines stand.
  pub build-ok :
      (L : Parsing) (options : Options) {File : Type 0} (S : Files File) {filenames : List (List ℕ)}
      {inputs : List InFile}
      → Opens S false filenames inputs
      → 260 * length (said L options inputs) ≤ 2 ^ 31
      → Gives
          (build L options S filenames)
          (Ended L options (any is_faulty (said L options inputs)) (Asked L options inputs))
  unfolding build
  build-ok L options S {filenames} {inputs} opens room =
      let (o, e, ended) =
        read_files-ok L options S opens (start L options) (λ a. false) (λ a. false) 0 refl
          (start-Holds L options) (omega arith) in
      elim ended [
        | inl (bad, messages, halted) ↦
            (exited messages, rw (build, e, halted) refl, inl (bad, messages, refl))
        | inr (fine, st, went_on, holds) ↦
            let (st', e', made) =
              remove_entries-ok L options st.removals st (λ a. any (adds a) (said L options inputs))
                (record {
                  valid = holds.valid;
                  contents = holds.contents;
                  room = omega (arith, holds.growth);
                }) in
            (
              continued st',
              rw (build, e, went_on, e') refl,
              inr (
                fine,
                st',
                refl,
                (
                  made.valid,
                  (λ a. made.contents a ∙ rw (holds.holes a) refl),
                  omega (arith, made.room),
                ),
              ),
            )
      ]
