-- ===== src/Networks.antt =====
-- The iterator over the addresses or networks of a set: src/libipset/set/iterator.c.
pub mod LastBit
pub mod Listing
pub mod Showing
pub mod Families
pub mod Process
pub mod Walked
pub mod Whole
pub mod Cover
pub mod Meets
pub mod Exact
use libcorkipset.Prelude.{
  ℕ, zero, suc, ◌+◌, Bool, true, false, Option, none, some, List, ◌==◌, if◌then◌else◌, replicate,
}
use libcorkipset.Node.{NodeTable}
use libcorkipset.Cache.{NodeCache}
use libcorkipset.Bits.{bit_get, bit_set}
use libcorkipset.Address.{Family, ipv4, ipv6, CorkIp}
use libcorkipset.Assignment as Partial
use libcorkipset.Assignment.{
  Tribool, Assignment, ipset_false, ipset_true, ipset_either, same_tribool,
}
use libcorkipset.Expanded.{ExpandedAssignment, expand}
use libcorkipset.Expanded as Expansion
use libcorkipset.Iterator.{BddIterator, iterate}
use libcorkipset.Iterator as Walk
use libcorkipset.Set.{IpSet}

-- `enum ipset_iterator_state`
pub data IteratorState : Type 0 where
  normal multiple_ipv4 multiple_ipv6 : IteratorState

-- `none` is a null pointer.
pub record IpsetIterator : Type 0 where
  pub finished : Bool
  pub bdd_iterator : Option BddIterator
  pub assignment_iterator : Option ExpandedAssignment
  pub multiple_expansion_state : IteratorState
  pub addr : CorkIp
  pub cidr_prefix : ℕ
  pub desired_value : ℕ
  pub summarize : Bool

unfoldable pub find_last_non_either_bit : Assignment → ℕ → ℕ
find_last_non_either_bit assignment zero = 0
find_last_non_either_bit assignment (suc i) =
    if same_tribool (Partial.get assignment (suc i)) ipset_either
    then find_last_non_either_bit assignment i
    else suc i

-- The copy of the bits `i` to `i + n` of the address from the variables that follow them.
unfoldable pub copy_bits : (n i : ℕ) → List ℕ → List ℕ → List ℕ
copy_bits zero i values ip = ip
copy_bits (suc n) i values ip = copy_bits n (suc i) values (bit_set ip i (bit_get values (i + 1)))

-- An address starts as 16 bytes of 0, the size of the larger family.
unfoldable pub create_ip_address : IpsetIterator → ExpandedAssignment → IpsetIterator
unfolding copy_bits
create_ip_address iterator exp = record iterator {
  addr = record {
    version = if bit_get exp.values 0 then 4 else 6;
    ip = copy_bits iterator.cidr_prefix 0 exp.values (replicate 16 0);
  };
}

-- The change of one variable of the BDD iterator's assignment.
abbrev pub with_variable : BddIterator → ℕ → Tribool → BddIterator
with_variable b var value = record b { assignment = Partial.set b.assignment var value }

module _ ⦃T : NodeTable⦄ where
  -- `process_assignment` and `expand_ipv6` call each other through the functions between them. Here
  -- those take the two as arguments, and fuel bounds the calls. `none` is also a null pointer that
  -- is followed.
  abbrev pub Step : Type 0
  Step = IpsetIterator → Option IpsetIterator

  abbrev pub advance_bdd : ℕ → NodeCache → Step → BddIterator → Step
  advance_bdd depth cache process b iterator = elim (Walk.advance depth cache b) [
    | none ↦ none
    | some b' ↦ process (record iterator { bdd_iterator = some b' })
  ]

  unfoldable pub advance_assignment : ℕ → NodeCache → (process expand6 : Step) → Step
  advance_assignment depth cache process expand6 iterator = elim iterator.bdd_iterator [
    | none ↦ none
    | some b ↦ elim iterator.multiple_expansion_state [
      | normal ↦ advance_bdd depth cache process b iterator
      | multiple_ipv4 ↦ expand6 (record iterator {
        multiple_expansion_state = multiple_ipv6;
        bdd_iterator = some (with_variable b 0 ipset_false);
      })
      | multiple_ipv6 ↦ advance_bdd depth cache process (with_variable b 0 ipset_either) iterator
    ]
  ]

  unfoldable pub process_expanded_assignment : ℕ → NodeCache → (process expand6 : Step) → Step
  unfolding advance_assignment create_ip_address
  process_expanded_assignment depth cache process expand6 iterator =
      elim iterator.assignment_iterator [
        | none ↦ none
        | some exp ↦ elim exp.finished [
          | true ↦
              advance_assignment depth cache process expand6
                (record iterator { assignment_iterator = none })
          | false ↦ some (create_ip_address iterator exp)
        ]
      ]

  -- What `expand_ipv4` and `expand_ipv6` do before they process the first expanded assignment.
  unfoldable pub start_expansion : Family → IpsetIterator → BddIterator → IpsetIterator
  unfolding find_last_non_either_bit
  start_expansion family iterator b =
      let last_bit =
        if iterator.summarize
        then find_last_non_either_bit b.assignment family.bit_size
        else family.bit_size in
      record iterator {
        assignment_iterator = some (expand b.assignment (last_bit + 1));
        cidr_prefix = last_bit;
      }

  unfoldable pub expand_ipv6 : ℕ → ℕ → NodeCache → Step → Step
  unfolding start_expansion process_expanded_assignment
  expand_ipv6 zero depth cache process iterator = none
  expand_ipv6 (suc fuel) depth cache process iterator = elim iterator.bdd_iterator [
    | none ↦ none
    | some b ↦
        process_expanded_assignment depth cache process (expand_ipv6 fuel depth cache process)
          (start_expansion ipv6 iterator b)
  ]

  unfoldable pub expand_ipv4 : ℕ → ℕ → NodeCache → Step → Step
  unfolding start_expansion process_expanded_assignment
  expand_ipv4 fuel depth cache process iterator = elim iterator.bdd_iterator [
    | none ↦ none
    | some b ↦
        process_expanded_assignment depth cache process (expand_ipv6 fuel depth cache process)
          (start_expansion ipv4 iterator b)
  ]

  -- An assignment with the desired value, by the type of its addresses.
  unfoldable pub expand_assignment : ℕ → ℕ → NodeCache → Step → BddIterator → Step
  unfolding expand_ipv4 expand_ipv6
  expand_assignment fuel depth cache process b iterator = elim (Partial.get b.assignment 0) [
    | ipset_false ↦
        expand_ipv6 fuel depth cache process (record iterator { multiple_expansion_state = normal })
    | ipset_true ↦
        expand_ipv4 fuel depth cache process (record iterator { multiple_expansion_state = normal })
    | ipset_either ↦ expand_ipv4 fuel depth cache process (record iterator {
      multiple_expansion_state = multiple_ipv4;
      bdd_iterator = some (with_variable b 0 ipset_true);
    })
  ]

  unfoldable pub process_assignment : ℕ → ℕ → NodeCache → Step
  unfolding expand_assignment
  process_assignment zero depth cache iterator = none
  process_assignment (suc fuel) depth cache iterator = elim iterator.bdd_iterator [
    | none ↦ none
    | some b ↦ elim b.finished [
      | true ↦
          some
            (record iterator { assignment_iterator = none; bdd_iterator = none; finished = true })
      | false ↦ elim (b.value == iterator.desired_value) [
        | true ↦
            expand_assignment (suc fuel) depth cache (process_assignment fuel depth cache) b
              iterator
        | false ↦ advance_bdd depth cache (process_assignment fuel depth cache) b iterator
      ]
    ]
  ]

  -- The fields that C does not set before they are read start at 0.
  unfoldable pub create_iterator : ℕ → ℕ → IpSet → ℕ → Bool → Option IpsetIterator
  unfolding process_assignment
  create_iterator fuel depth set desired_value summarize =
      elim (iterate depth set.cache set.set_bdd) [
        | none ↦ none
        | some b ↦ process_assignment fuel depth set.cache (record {
          finished = false;
          bdd_iterator = some b;
          assignment_iterator = none;
          multiple_expansion_state = normal;
          addr = record { version = 0; ip = replicate 16 0 };
          cidr_prefix = 0;
          desired_value = desired_value;
          summarize = summarize;
        })
      ]

  unfoldable pub iterate_addresses : ℕ → ℕ → IpSet → ℕ → Option IpsetIterator
  unfolding create_iterator
  iterate_addresses fuel depth set desired_value =
      create_iterator fuel depth set desired_value false

  unfoldable pub iterate_networks : ℕ → ℕ → IpSet → ℕ → Option IpsetIterator
  unfolding create_iterator
  iterate_networks fuel depth set desired_value = create_iterator fuel depth set desired_value true

  unfoldable pub advance : ℕ → ℕ → NodeCache → Step
  unfolding process_expanded_assignment process_assignment expand_ipv6
  advance fuel depth cache iterator = elim iterator.finished [
    | true ↦ some iterator
    | false ↦ elim iterator.assignment_iterator [
      | none ↦ none
      | some exp ↦
          process_expanded_assignment depth cache (process_assignment fuel depth cache)
            (expand_ipv6 fuel depth cache (process_assignment fuel depth cache))
            (record iterator { assignment_iterator = some (Expansion.advance exp) })
    ]
  ]
