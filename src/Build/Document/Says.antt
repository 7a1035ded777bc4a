-- ===== src/Build/Document/Says.antt =====
-- What src/ipsetbuild/ipsetbuild.c makes of the text of an address or a network.
use libcorkipset.Prelude.{
  ℕ, zero, suc, ◌^◌, ◌%◌, ◌≡◌, refl, sym, subst, ap, Option, ◌∙◌, Bool, true, false, not, ◌&&◌,
  ◌||◌, none, some, List, [], ◌∷◌, ◌==◌, ltb, length, drop, if◌then◌else◌, arith,
}
use libcorkipset.Address.{CorkIp}
use libcorkipset.Build.{
  Fault, refused, missing_cidr_prefix, invalid_cidr_prefix, not_an_address, bad_cidr_block, Parsing,
  Line, entry, is_empty, block_line, cidr_line,
}
use libcorkipset.Set.Dispatch.{bits_of}
use libcorkipset.Build.Wanted.{adds, removes, is_faulty}
use libcorkipset.Build.Document.{network_of, is_malformed, names, aligned, block}

ltb_irrefl : (n : ℕ) → ltb n n ≡ false
ltb_irrefl n = ground arith

is_empty-length : (text : List ℕ) → is_empty text ≡ (length text == 0)
is_empty-length [] = refl
is_empty-length (c ∷ text) = ground arith

is_empty-drop :
    (used : ℕ) (text : List ℕ) → not (is_empty (drop used text)) ≡ ltb used (length text)
is_empty-drop zero [] = refl
is_empty-drop zero (c ∷ text) = ground arith
is_empty-drop (suc used) [] = ground arith
is_empty-drop (suc used) (c ∷ text) = is_empty-drop used text ∙ ground arith

-- A line is read as the addition or the removal of what is named.
pub record Says (L : Parsing) (loose_cidr removed : Bool) (named : Option (CorkIp × ℕ))
    (line : Line) : Type 0 where
  pub faulty : is_faulty line ≡ is_malformed L loose_cidr removed named
  pub additions : (a : CorkIp) → adds a line ≡ (not removed && names L loose_cidr named a)
  pub removals : (a : CorkIp) → removes a line ≡ (removed && names L loose_cidr named a)

module _ (L : Parsing) (loose_cidr : Bool) where
  refused-Says : (removed : Bool) (fault : Fault) → Says L loose_cidr removed none (refused fault)
  refused-Says true fault = record { faulty = refl; additions = λ a. refl; removals = λ a. refl }
  refused-Says false fault = record { faulty = refl; additions = λ a. refl; removals = λ a. refl }

  single-Says :
      (removed : Bool) (address : List ℕ) (addr : CorkIp)
      → Says L loose_cidr removed (some (addr, bits_of addr)) (entry removed address addr none)
  single-Says true address addr = record {
    faulty = refl;
    additions = λ a. refl;
    removals = λ a. rw (ltb_irrefl (bits_of addr)) refl;
  }
  single-Says false address addr = record {
    faulty = sym (ltb_irrefl (bits_of addr));
    additions = λ a. rw (ltb_irrefl (bits_of addr)) refl;
    removals = λ a. refl;
  }

  block-Says :
      (removed : Bool) (address : List ℕ) (addr : CorkIp) (n : ℕ)
      → Says L loose_cidr removed (some (addr, n)) (entry removed address addr (some n))
  block-Says true address addr n = record {
    faulty = refl;
    additions = λ a. refl;
    removals = λ a. refl;
  }
  block-Says false address addr n = record {
    faulty = refl;
    additions = λ a. refl;
    removals = λ a. refl;
  }

  abbrev pub single_named : Option CorkIp → Option (CorkIp × ℕ)
  single_named found = elim found [ none ↦ none | some addr ↦ some (addr, bits_of addr) ]

  abbrev pub single_read : Bool → List ℕ → Option CorkIp → Line
  single_read removed address found = elim found [
    | none ↦ refused (not_an_address address)
    | some addr ↦ entry removed address addr none
  ]

  pub address_line-Says :
      (removed : Bool) (address : List ℕ) (found : Option CorkIp)
      → Says L loose_cidr removed (single_named found) (single_read removed address found)
  address_line-Says removed address none = refused-Says removed (not_an_address address)
  address_line-Says removed address (some addr) = single-Says removed address addr

  aligned-Says :
      (loose valid removed : Bool) (address : List ℕ) (addr : CorkIp) (n : ℕ)
      → Says L loose_cidr removed (if loose || valid then some (addr, n) else none) (
          if not loose && not valid
          then refused (bad_cidr_block address n)
          else entry removed address addr (some n))
  aligned-Says true valid removed address addr n = block-Says removed address addr n
  aligned-Says false true removed address addr n = block-Says removed address addr n
  aligned-Says false false removed address addr n = refused-Says removed (bad_cidr_block address n)

  abbrev block_named : ℕ → Option CorkIp → Option (CorkIp × ℕ)
  block_named n found = elim found [ none ↦ none | some addr ↦ aligned L loose_cidr addr n ]

  abbrev block_read : Bool → List ℕ → ℕ → Option CorkIp → Line
  block_read removed address n found = elim found [
    | none ↦ refused (not_an_address address)
    | some addr ↦
        if not loose_cidr && not (L.cork_ip_is_valid_network addr n)
        then refused (bad_cidr_block address n)
        else entry removed address addr (some n)
  ]

  block_line-Says :
      (removed : Bool) (address : List ℕ) (n : ℕ) (found : Option CorkIp)
      → Says L loose_cidr removed (block_named n found) (block_read removed address n found)
  block_line-Says removed address n none = refused-Says removed (not_an_address address)
  block_line-Says removed address n (some addr) =
      aligned-Says loose_cidr (L.cork_ip_is_valid_network addr n) removed address addr n

  abbrev prefix_named : Option CorkIp → Option ℕ → Option (CorkIp × ℕ)
  prefix_named found cidr = elim cidr [ none ↦ none | some n ↦ block_named n found ]

  prefix-Says :
      (missing empty rest removed : Bool) (address cidr : List ℕ) (n : ℕ)
      → Says L loose_cidr removed
          (prefix_named
            (L.cork_ip_init address)
            (if missing || (empty || rest) then none else some n))
          (if missing
            then refused missing_cidr_prefix
            else (if empty || rest
                then refused (invalid_cidr_prefix cidr)
                else block_line L loose_cidr removed address n))
  prefix-Says true empty rest removed address cidr n = refused-Says removed missing_cidr_prefix
  prefix-Says false true rest removed address cidr n =
      refused-Says removed (invalid_cidr_prefix cidr)
  prefix-Says false false true removed address cidr n =
      refused-Says removed (invalid_cidr_prefix cidr)
  prefix-Says false false false removed address cidr n =
      block_line-Says removed address n (L.cork_ip_init address)

  pub cidr_line-Says :
      (removed : Bool) (address cidr : List ℕ)
      → Says L loose_cidr removed
          (network_of L loose_cidr (block removed address cidr))
          (cidr_line L loose_cidr removed address cidr)
  unfolding cidr_line
  cidr_line-Says removed address cidr =
      let number = L.strtol cidr in
      subst
        (λ invalid.
          Says L loose_cidr removed (network_of L loose_cidr (block removed address cidr)) (
            if number.1 == 0
            then refused missing_cidr_prefix
            else (if invalid
                then refused (invalid_cidr_prefix cidr)
                else block_line L loose_cidr removed address (number.0 % 2 ^ 32))))
        (ap (λ empty. empty || ltb number.1 (length cidr)) (sym (is_empty-length cidr))
          ∙ ap (λ rest. is_empty cidr || rest) (sym (is_empty-drop number.1 cidr)))
        (prefix-Says (number.1 == 0) (length cidr == 0) (ltb number.1 (length cidr)) removed address
          cidr (number.0 % 2 ^ 32))
