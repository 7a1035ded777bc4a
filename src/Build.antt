-- ===== src/Build.antt =====
-- The program src/ipsetbuild/ipsetbuild.c: what it reads of a line of its input.
pub mod Lines
pub mod Program
pub mod Wanted
pub mod Entries
pub mod Reads
pub mod Correct
pub mod Document
pub mod Main
pub mod Complete
use libcorkipset.Prelude.{
  ℕ, zero, suc, ◌-◌, ◌%◌, ◌^◌, Bool, true, false, not, ◌&&◌, ◌||◌, Option, none, some, List, [],
  ◌∷◌, ◌++◌, ◌==◌, if◌then◌else◌, drop,
}
use libcorkipset.SerializedId.{ℤ}
use libcorkipset.Address.{CorkIp}

-- What the program calls of libcork, and what depends on the locale. `strtol` gives the bits of a
-- `long` and the number of bytes before `*endptr`; `cork_ip_init` gives nothing on an error.
pub record Parsing : Type 0 where
  pub isspace : ℕ → Bool
  pub strtol : List ℕ → ℕ × ℕ
  pub cork_ip_init : List ℕ → Option CorkIp
  pub cork_ip_is_valid_network : CorkIp → ℕ → Bool

-- The variables that the options set.
pub record Options : Type 0 where
  pub output_filename : Option (List ℕ)
  pub loose_cidr : Bool
  pub verbosity : ℤ

-- A line holds the bytes before the first NUL.
unfoldable pub is_string_whitespace : Parsing → List ℕ → Bool
is_string_whitespace L [] = true
is_string_whitespace L (c ∷ str) = if L.isspace c then is_string_whitespace L str else false

-- The bytes of a line: '\n', '!', '#', '-' and '/'.
abbrev pub newline : ℕ
newline = 10

abbrev pub exclamation_mark : ℕ
exclamation_mark = 33

abbrev pub number_sign : ℕ
number_sign = 35

abbrev pub slash : ℕ
slash = 47

abbrev pub starts_with : ℕ → List ℕ → Bool
starts_with c [] = false
starts_with c (d ∷ line) = d == c

-- `address[len-1] = '\0'`. Where the text after a '!' is empty, the write hits the '!', which is
-- not read again.
unfoldable pub chomp : List ℕ → List ℕ
chomp [] = []
chomp (c ∷ []) = []
chomp (c ∷ d ∷ address) = c ∷ chomp (d ∷ address)

-- The text before the first '/', and the text after it where `strchr` finds one.
unfoldable pub split_at_slash : List ℕ → List ℕ × Option (List ℕ)
split_at_slash [] = ([], none)
split_at_slash (c ∷ address) =
    let (before, slash_pos) = split_at_slash address in
    if c == slash then ([], some address) else (c ∷ before, slash_pos)

-- Why a line is refused.
pub data Fault : Type 0 where
  missing_cidr_prefix : Fault
  invalid_cidr_prefix : (slash_pos : List ℕ) → Fault
  not_an_address : (address : List ℕ) → Fault
  bad_cidr_block : (address : List ℕ) → (cidr : ℕ) → Fault
  cidr_out_of_range : (address : List ℕ) → (cidr : ℕ) → Fault

-- What a line says. `cidr` is nothing for a single address.
pub data Line : Type 0 where
  skipped : Line
  refused : Fault → Line
  entry : (remove_ip : Bool) (address : List ℕ) (addr : CorkIp) (cidr : Option ℕ) → Line

abbrev pub is_empty : List ℕ → Bool
is_empty [] = true
is_empty (c ∷ str) = false

module _ (L : Parsing) (loose_cidr : Bool) where
  -- A single address.
  abbrev pub address_line : Bool → List ℕ → Line
  address_line remove_ip address = elim (L.cork_ip_init address) [
    | none ↦ refused (not_an_address address)
    | some addr ↦ entry remove_ip address addr none
  ]

  -- The low-order bits of a network's address are checked, unless the options say otherwise.
  abbrev pub block_line : Bool → List ℕ → ℕ → Line
  block_line remove_ip address cidr = elim (L.cork_ip_init address) [
    | none ↦ refused (not_an_address address)
    | some addr ↦
        if not loose_cidr && not (L.cork_ip_is_valid_network addr cidr)
        then refused (bad_cidr_block address cidr)
        else entry remove_ip address addr (some cidr)
  ]

  -- A network, with the text after its '/'. The value of `strtol` is cast to `unsigned int`.
  unfoldable pub cidr_line : Bool → List ℕ → List ℕ → Line
  cidr_line remove_ip address slash_pos =
      let (value, used) = L.strtol slash_pos in
      if used == 0
      then refused missing_cidr_prefix
      else (if is_empty slash_pos || not (is_empty (drop used slash_pos))
          then refused (invalid_cidr_prefix slash_pos)
          else block_line remove_ip address (value % 2 ^ 32))

  -- The line after its '!'.
  unfoldable pub read_address : Bool → List ℕ → Line
  unfolding split_at_slash cidr_line chomp
  read_address remove_ip text =
      let (address, slash_pos) = split_at_slash (chomp text) in
      elim slash_pos [
        | none ↦ address_line remove_ip address
        | some after ↦ cidr_line remove_ip address after
      ]

  -- The body of the loop over the lines, up to the calls that change the set.
  unfoldable pub read_line : List ℕ → Line
  unfolding is_string_whitespace read_address
  read_line line =
      if starts_with number_sign line
      then skipped
      else (if is_string_whitespace L line
          then skipped
          else (if starts_with exclamation_mark line
              then read_address true (drop 1 line)
              else read_address false line))

-- What successive calls of `fgets` with a buffer of 4096 bytes give of a stream: `kept` is what the
-- current call has stored, and `room` is what it can still store. A call that meets an error of the
-- stream gives nothing.
unfoldable pub fgets_lines : (fails : Bool) → (room : ℕ) → (kept stream : List ℕ) → List (List ℕ)
fgets_lines fails room [] [] = []
fgets_lines fails room (c ∷ kept) [] = if fails then [] else (c ∷ kept) ∷ []
fgets_lines fails room kept (c ∷ stream) = elim (c == newline || room == 1) [
  | true ↦ (kept ++ c ∷ []) ∷ fgets_lines fails 4095 [] stream
  | false ↦ fgets_lines fails (room - 1) (kept ++ c ∷ []) stream
]

-- The bytes before the first NUL, which is where C's string functions stop.
unfoldable pub c_string : List ℕ → List ℕ
c_string [] = []
c_string (c ∷ line) = if c == 0 then [] else c ∷ c_string line
