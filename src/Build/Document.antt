-- ===== src/Build/Document.antt =====
-- The input format that the usage text of src/ipsetbuild/ipsetbuild.c describes: what a document
-- says, whatever the program does to read it. A document is a list of lines, each followed by a
-- newline.
pub mod Lines
pub mod Says
pub mod Meaning
pub mod Whole
use libcorkipset.Prelude.{
  ℕ, ◌^◌, ◌%◌, ◌≤◌, ◌≡◌, Bool, true, false, not, ◌&&◌, ◌||◌, Option, none, some, List, [], ◌++◌,
  ◌∷◌, ◌==◌, ltb, length, if◌then◌else◌, any,
}
use libcorkipset.Address.{CorkIp}
use libcorkipset.Set.Dispatch.{bits_of, network_has}
use libcorkipset.Load.{InFile}
use libcorkipset.Build.{Parsing}

-- One line: a comment, white space, an address, or a network. `removed` tells whether it starts
-- with a '!'.
pub data Entry : Type 0 where
  comment : (text : List ℕ) → Entry
  blank : (spaces : List ℕ) → Entry
  single : (removed : Bool) → (address : List ℕ) → Entry
  block : (removed : Bool) → (address cidr : List ℕ) → Entry

abbrev pub signed : Bool → List ℕ → List ℕ
signed removed text = if removed then b'!' ∷ text else text

abbrev pub text_of : Entry → List ℕ
text_of (comment text) = b'#' ∷ text
text_of (blank spaces) = spaces
text_of (single removed address) = signed removed address
text_of (block removed address cidr) = signed removed (address ++ b'/' ∷ cidr)

unfoldable pub contents_of : List Entry → List ℕ
contents_of [] = []
contents_of (e ∷ es) = text_of e ++ b'\n' ∷ contents_of es

-- Some byte of a text is a given one.
abbrev pub has_byte : ℕ → List ℕ → Bool
has_byte b text = any (λ c. c == b) text

-- Some byte is not white space.
abbrev pub is_visible : Parsing → List ℕ → Bool
is_visible L text = any (λ c. not (L.isspace c)) text

abbrev pub first_is : ℕ → List ℕ → Bool
first_is b [] = false
first_is b (c ∷ text) = c == b

-- An address has no '/', and without a '!' before it the line does not start like another one.
pub record IsAddress (L : Parsing) (removed : Bool) (address line : List ℕ) : Type 0 where
  pub no_slash : has_byte b'/' address ≡ false
  pub no_comment : (not removed && first_is b'#' line) ≡ false
  pub no_sign : (not removed && first_is b'!' line) ≡ false
  pub visible : is_visible L line ≡ true

abbrev pub HasForm : Parsing → Entry → Type 0
HasForm L (comment text) = Unit
HasForm L (blank spaces) = is_visible L spaces ≡ false
HasForm L (single removed address) = IsAddress L removed address (signed removed address)
HasForm L (block removed address cidr) =
    IsAddress L removed address (signed removed (address ++ b'/' ∷ cidr))

-- A line has the form of its kind, no newline and no NUL, and with its newline it has at most 4095
-- bytes.
pub record IsEntry (L : Parsing) (e : Entry) : Type 0 where
  pub no_newline : has_byte b'\n' (text_of e) ≡ false
  pub no_nul : has_byte 0 (text_of e) ≡ false
  pub short : length (text_of e) ≤ 4094
  pub form : HasForm L e

pub data AreEntries (L : Parsing) : List Entry → Type 0 where
  no_entries : AreEntries L []
  one_more : {e : Entry} {es : List Entry} → IsEntry L e → AreEntries L es → AreEntries L (e ∷ es)

-- Some files hold some documents, whose lines are given one document after the other.
pub data Contain (L : Parsing) : List InFile → List Entry → Type 0 where
  no_inputs : Contain L [] []
  one_input :
      {input : InFile} {inputs : List InFile} {es more : List Entry}
      → AreEntries L es
      → input.rest ≡ contents_of es
      → Contain L inputs more
      → Contain L (input ∷ inputs) (es ++ more)

module _ (L : Parsing) (loose_cidr : Bool) where
  -- The number after a '/': `strtol` reads all of the text, which is not empty. The result is an
  -- `unsigned int`.
  abbrev pub prefix_of : List ℕ → Option ℕ
  prefix_of cidr =
      let (value, used) = L.strtol cidr in
      if used == 0 || (length cidr == 0 || ltb used (length cidr))
      then none
      else some (value % 2 ^ 32)

  -- A network has to start at its address, unless `--loose-cidr` is given.
  abbrev pub aligned : CorkIp → ℕ → Option (CorkIp × ℕ)
  aligned addr cidr =
      if loose_cidr || L.cork_ip_is_valid_network addr cidr then some (addr, cidr) else none

  -- The address that an entry names, and how many of its bits count.
  abbrev pub network_of : Entry → Option (CorkIp × ℕ)
  network_of (comment text) = none
  network_of (blank spaces) = none
  network_of (single removed address) = elim (L.cork_ip_init address) [
    | none ↦ none
    | some addr ↦ some (addr, bits_of addr)
  ]
  network_of (block removed address cidr) = elim (prefix_of cidr) [
    | none ↦ none
    | some n ↦ elim (L.cork_ip_init address) [ none ↦ none | some addr ↦ aligned addr n ]
  ]

  abbrev pub is_malformed : Bool → Option (CorkIp × ℕ) → Bool
  is_malformed removed none = true
  is_malformed removed (some (addr, n)) = not removed && ltb (bits_of addr) n

  -- Whether an address is the one, or lies in the network, that is named. A prefix that is longer
  -- than the address names nothing.
  abbrev pub names : Option (CorkIp × ℕ) → CorkIp → Bool
  names none a = false
  names (some (addr, n)) a = not (ltb (bits_of addr) n) && network_has addr n a

  -- Whether a line is in error. A removal may have a prefix that is too long.
  abbrev pub is_wrong : Entry → Bool
  is_wrong (comment text) = false
  is_wrong (blank spaces) = false
  is_wrong (single removed address) = is_malformed removed (network_of (single removed address))
  is_wrong (block removed address cidr) =
      is_malformed removed (network_of (block removed address cidr))

  abbrev pub puts_in : CorkIp → Entry → Bool
  puts_in a (comment text) = false
  puts_in a (blank spaces) = false
  puts_in a (single removed address) = not removed && names (network_of (single removed address)) a
  puts_in a (block removed address cidr) =
      not removed && names (network_of (block removed address cidr)) a

  abbrev pub takes_away : CorkIp → Entry → Bool
  takes_away a (comment text) = false
  takes_away a (blank spaces) = false
  takes_away a (single removed address) = removed && names (network_of (single removed address)) a
  takes_away a (block removed address cidr) =
      removed && names (network_of (block removed address cidr)) a

  -- The members of the set that a document describes: a removal takes precedence over an addition.
  abbrev pub described : List Entry → CorkIp → Bool
  described es a = any (puts_in a) es && not (any (takes_away a) es)
