-- ===== src/Save.antt =====
-- Writing a diagram: src/libipset/bdd/write.c.
pub mod Entry
pub mod Run
pub mod Places
pub mod Progress
pub mod Visit
pub mod Whole
pub mod Size
pub mod Mirror
pub mod Header
use libcorkipset.Prelude.{
  ℕ, zero, suc, ◌+◌, ◌*◌, Bool, true, false, Option, none, some, List, [], ◌∷◌, ◌==◌, if◌then◌else◌,
  length,
}
use libcorkipset.Node.{NodeTable}
use libcorkipset.NodeId.{get_type, terminal_node, terminal_value}
use libcorkipset.Cache.{NodeCache, get_nonterminal}
use libcorkipset.Pointers.{PointerTables}
use libcorkipset.Reachable.{reachable_count}
use libcorkipset.SerializedId.{ℤ, pos, negsuc, decrement, to_uint32}
use libcorkipset.BigEndian.{big_endian}
use libcorkipset.Stream.{Consumer, codes}

-- `MAGIC_NUMBER`
abbrev pub magic_number : List ℕ
magic_number = codes "IP set"

-- `set_size`: the header, and a variable and two pointers for each nonterminal, or a terminal.
unfoldable pub set_size_v1 : (root nonterminal_count : ℕ) → ℕ
set_size_v1 root nonterminal_count =
    length magic_number
    + 2
    + 8
    + 4
    + nonterminal_count * (1 + 4 + 4)
    + (if get_type root == terminal_node then 4 else 0)

module _ ⦃T : NodeTable⦄ (P : PointerTables) (C : Consumer) where
  -- The part of `struct save_data` that changes, with the stream that it points to.
  pub record SaveData : Type 0 where
    pub stream : C.State
    pub serialized_ids : P.serialized_ids.Table
    pub next_serialized_id : ℤ

  -- A step that gives a result, or that the stream has refused. `stuck` is no C value: a read
  -- outside of the chunks, or fuel that ran out.
  pub data Result (A : Type 0) : Type 0 where
    ok : A → SaveData → Result A
    refused : SaveData → Result A
    stuck : Result A

  abbrev pub SaveM : Type 0 → Type 0
  SaveM A = SaveData → Result A

  abbrev pub pure : {A : Type 0} → A → SaveM A
  pure a st = ok a st

  abbrev pub stop : {A : Type 0} → SaveM A
  stop st = stuck

  -- `rii_check`: a refusal ends the caller too.
  abbrev pub continue : {A B : Type 0} → Result A → (A → SaveM B) → Result B
  continue (ok a st) f = f a st
  continue (refused st) f = refused st
  continue stuck f = stuck

  infixl 5 ◌>>=◌ ◌>>◌
  abbrev pub ◌>>=◌ : {A B : Type 0} → SaveM A → (A → SaveM B) → SaveM B
  m >>= f = λ st. continue (m st) f

  abbrev pub ◌>>◌ : {A B : Type 0} → SaveM A → SaveM B → SaveM B
  m >> k = m >>= λ _. k

  abbrev pub gets : {A : Type 0} → (SaveData → A) → SaveM A
  gets f st = ok (f st) st

  abbrev pub modify : (SaveData → SaveData) → SaveM (Unit {0})
  modify f st = ok tt (f st)

  -- `entry->value = ...`
  abbrev pub set_entry : ℕ → ℤ → SaveM (Unit {0})
  set_entry node_id value =
      modify
        (λ st. record st { serialized_ids = P.serialized_ids.put st.serialized_ids node_id value })

  -- `cork_stream_consumer_data`
  unfoldable pub send : List ℕ → Bool → SaveM (Unit {0})
  send buf is_first st =
      let (accepted, stream) = C.consume buf is_first st.stream in
      if accepted
      then ok tt (record st { stream = stream })
      else refused (record st { stream = stream })

  -- The callbacks of `struct save_data`.
  pub record Writer : Type 0 where
    pub write_header : NodeCache → ℕ → SaveM (Unit {0})
    pub write_footer : NodeCache → ℕ → SaveM (Unit {0})
    pub write_terminal : ℕ → SaveM (Unit {0})
    pub write_nonterminal :
        (serialized_node : ℤ)
        → (variable : ℕ) → (serialized_low serialized_high : ℤ) → SaveM (Unit {0})

  -- The end of a visit: the node itself, after its children.
  unfoldable pub save_nonterminal : Writer → (node_id variable : ℕ) → (low high : ℤ) → SaveM ℤ
  save_nonterminal W node_id variable serialized_low serialized_high = do
    result ← gets (λ st. st.next_serialized_id)
    modify (λ st. record st { next_serialized_id = decrement st.next_serialized_id })
    set_entry node_id result
    W.write_nonterminal result variable serialized_low serialized_high
    pure result

  unfoldable pub save_terminal : Writer → (node_id : ℕ) → SaveM ℤ
  save_terminal W node_id = do
    W.write_terminal (terminal_value node_id)
    set_entry node_id (pos (terminal_value node_id))
    pure (pos (terminal_value node_id))

  -- The fuel bounds the depth. A new entry has a null value until its node is written.
  unfoldable pub save_visit_node : ℕ → Writer → NodeCache → ℕ → SaveM ℤ
  unfolding save_nonterminal save_terminal
  save_visit_node zero W cache node_id = stop
  save_visit_node (suc fuel) W cache node_id = do
    entry ← gets (λ st. P.serialized_ids.get st.serialized_ids node_id)
    elim entry [
      | some value ↦ pure value
      | none ↦ do
        set_entry node_id (pos 0)
        elim (get_type node_id == terminal_node) [
          | true ↦ save_terminal W node_id
          | false ↦ elim (get_nonterminal cache node_id) [
            | none ↦ stop
            | some node ↦ do
              serialized_low ← save_visit_node fuel W cache node.low
              serialized_high ← save_visit_node fuel W cache node.high
              save_nonterminal W node_id node.variable serialized_low serialized_high
          ]
        ]
    ]

  unfoldable pub save_bdd : ℕ → Writer → NodeCache → ℕ → SaveM (Unit {0})
  unfolding save_visit_node
  save_bdd fuel W cache root = do
    W.write_header cache root
    modify
        (λ st. record st { serialized_ids = P.serialized_ids.new; next_serialized_id = negsuc 0 })
    save_visit_node fuel W cache root
    W.write_footer cache root

  unfoldable pub write_string : List ℕ → SaveM (Unit {0})
  unfolding send
  write_string str = send str false

  unfoldable pub write_uint8 : ℕ → SaveM (Unit {0})
  unfolding send
  write_uint8 val = send (big_endian 1 val) false

  unfoldable pub write_uint16 : ℕ → SaveM (Unit {0})
  unfolding send
  write_uint16 val = send (big_endian 2 val) false

  unfoldable pub write_uint32 : ℕ → SaveM (Unit {0})
  unfolding send
  write_uint32 val = send (big_endian 4 val) false

  unfoldable pub write_uint64 : ℕ → SaveM (Unit {0})
  unfolding send
  write_uint64 val = send (big_endian 8 val) false

  -- The fuel is for `reachable_count`.
  unfoldable pub write_header_v1 : ℕ → NodeCache → ℕ → SaveM (Unit {0})
  unfolding send write_string write_uint16 write_uint32 write_uint64 set_size_v1
  write_header_v1 fuel cache root = do
    send [] true
    write_string magic_number
    write_uint16 1
    elim (reachable_count P.visited fuel cache root) [
      | none ↦ stop
      | some nonterminal_count ↦ do
        write_uint64 (set_size_v1 root nonterminal_count)
        write_uint32 nonterminal_count
    ]

  unfoldable pub write_footer_v1 : NodeCache → ℕ → SaveM (Unit {0})
  unfolding write_uint32
  write_footer_v1 cache root =
      if get_type root == terminal_node then write_uint32 (terminal_value root) else pure tt

  unfoldable pub write_terminal_v1 : ℕ → SaveM (Unit {0})
  write_terminal_v1 value = pure tt

  unfoldable pub write_nonterminal_v1 : ℤ → ℕ → ℤ → ℤ → SaveM (Unit {0})
  unfolding write_uint8 write_uint32
  write_nonterminal_v1 serialized_node variable serialized_low serialized_high = do
    write_uint8 variable
    write_uint32 (to_uint32 serialized_low)
    write_uint32 (to_uint32 serialized_high)

  -- The callbacks that `ipset_node_cache_save` sets.
  unfoldable pub writer_v1 : ℕ → Writer
  unfolding write_header_v1 write_footer_v1 write_terminal_v1 write_nonterminal_v1
  writer_v1 fuel = record {
    write_header = write_header_v1 fuel;
    write_footer = write_footer_v1;
    write_terminal = write_terminal_v1;
    write_nonterminal = write_nonterminal_v1;
  }

  -- Two bounds: the depth of the diagram, and the rounds of `reachable_count`. The fields that C
  -- leaves uninitialised before the header is written start empty.
  unfoldable pub save : (depth rounds : ℕ) → NodeCache → ℕ → C.State → Result (Unit {0})
  unfolding save_bdd writer_v1
  save depth rounds cache node stream = save_bdd depth (writer_v1 rounds) cache node (record {
    stream = stream;
    serialized_ids = P.serialized_ids.new;
    next_serialized_id = negsuc 0;
  })
