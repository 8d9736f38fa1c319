-- ===== src/Replication.antt =====
-- `NetworkReplicationManager` of `src/network_replication.cpp`: the acknowledgements of snapshots,
-- the message that carries one, and what a client does with it.
pub mod Delta
pub mod Selection
pub mod Acknowledged
use campello_net.Prelude.{
  ℕ, zero, suc, ◌+◌, ◌-◌, ◌^◌, Bool, true, false, not, ◌&&◌, ◌||◌, Option, none, some, List, [],
  ◌∷◌, ◌++◌, ltb, leb, ◌==◌, ◌!=◌, if◌then◌else◌, u8, u16, ◌>>◌, length, get_or, take, drop, lookup,
  insert, erase,
}
use campello_net.Bytes.{read_u16_be, read_u64_be, write_u16_be, write_u64_be}
use campello_net.Snapshots.{Snap}
use campello_net.Network.{read_u64}

-- `ClientReplicationState`; the set of visible entities is a list without order.
pub record ClientReplicationState : Type 0 where
  pub last_acked_snapshot : ℕ
  pub has_ack : Bool
  pub visible_entities : List ℕ

abbrev pub fresh_state : ClientReplicationState
fresh_state = record { last_acked_snapshot = 0; has_ack = false; visible_entities = [] }

-- What a client's manager calls: the prediction callback, `client_snapshot_buffer_`, which also gets
-- the client's time, and the bridge.
pub data Delivery : Type 0 where
  predicted : Snap → Delivery
  buffered : (snapshot_id : ℕ) → List Snap → Delivery
  deserialized : Snap → Delivery

-- The members of `NetworkReplicationManager` that its operations below use; each `has_` field says
-- that a pointer or a callback is set. `deliveries` is not a member: it lists the calls.
pub record Manager : Type 0 where
  pub has_bridge : Bool
  pub dirty_entities : List ℕ
  pub snapshot_id : ℕ
  pub client_states : List (ℕ × ClientReplicationState)
  pub last_received_snapshot : ℕ
  pub latest_received_snapshot : ℕ
  pub interpolation_enabled : Bool
  pub prediction_mode : Bool
  pub has_snapshot_cb : Bool
  pub deliveries : List Delivery

abbrev pub set_prediction_mode : Bool → Manager → Manager
set_prediction_mode enabled m = record m { prediction_mode = enabled }

abbrev pub set_interpolation_enabled : Bool → Manager → Manager
set_interpolation_enabled enabled m = record m { interpolation_enabled = enabled }

-- `dirty_entities_.insert`.
unfoldable pub add_once : ℕ → List ℕ → List ℕ
add_once id [] = id ∷ []
add_once id (x ∷ xs) = if x == id then x ∷ xs else x ∷ add_once id xs

abbrev pub mark_dirty : ℕ → Manager → Manager
mark_dirty net_id m = record m { dirty_entities = add_once net_id m.dirty_entities }

-- `static_cast<std::int16_t>(a - b) > 0`.
unfoldable pub is_newer : ℕ → ℕ → Bool
is_newer a b = ltb 0 (u16 (a + 2 ^ 16 - b)) && ltb (u16 (a + 2 ^ 16 - b)) (2 ^ 15)

-- `client_states_[client]` makes an entry where there is none.
abbrev pub state_of : ℕ → List (ℕ × ClientReplicationState) → ClientReplicationState
state_of id states = elim (lookup id states) [ none ↦ fresh_state | some s ↦ s ]

unfoldable pub acknowledge : ℕ → ClientReplicationState → ClientReplicationState
acknowledge snapshot_id s =
    if not s.has_ack || is_newer snapshot_id s.last_acked_snapshot
    then record s { last_acked_snapshot = snapshot_id; has_ack = true }
    else s

unfoldable pub on_snapshot_ack : ℕ → ℕ → Manager → Manager
on_snapshot_ack id snapshot_id m = record m {
  client_states = insert id (acknowledge snapshot_id (state_of id m.client_states)) m.client_states;
}

abbrev pub on_client_connected : ℕ → Manager → Manager
on_client_connected id m = record m { client_states = insert id fresh_state m.client_states }

abbrev pub on_client_disconnected : ℕ → Manager → Manager
on_client_disconnected id m = record m { client_states = erase id m.client_states }

-- One entity of `send_snapshot_to_client`: its size is cut to 16 bits, and its bytes to that size.
unfoldable pub entity_bytes : Snap → List ℕ
entity_bytes (id, bytes) =
    write_u64_be id ++ (write_u16_be (u16 (length bytes)) ++ take (u16 (length bytes)) bytes)

unfoldable pub all_entity_bytes : List Snap → List ℕ
all_entity_bytes [] = []
all_entity_bytes (e ∷ entities) = entity_bytes e ++ all_entity_bytes entities

-- The payload, behind the three bytes of the system message, which is sent unless it is empty.
unfoldable pub snapshot_payload : ℕ → List Snap → List ℕ
snapshot_payload snapshot_id entities =
    write_u16_be snapshot_id ++ (write_u16_be (length entities) ++ all_entity_bytes entities)

unfoldable pub snapshot_message : ℕ → List Snap → Option (List ℕ)
snapshot_message snapshot_id [] = none
snapshot_message snapshot_id (e ∷ entities) =
    some (0xCA ∷ 0xFE ∷ 0x20 ∷ snapshot_payload snapshot_id (e ∷ entities))

-- The loop of `on_receive_delta` over the bytes from `offset` on.
unfoldable pub parse_entities : (num_entities : ℕ) → List ℕ → List Snap
parse_entities zero bytes = []
parse_entities (suc n) bytes =
    let data_len = read_u16_be (get_or bytes 8 0) (get_or bytes 9 0) in
    let rest = parse_entities n (drop data_len (drop 10 bytes)) in
    if ltb (length bytes) 10
    then []
    else if ltb (length (drop 10 bytes)) data_len
    then []
    else (read_u64 bytes, take data_len (drop 10 bytes)) ∷ rest

-- Both of the newest snapshots.
abbrev pub track : ℕ → Manager → Manager
track snapshot_id m = record m {
  last_received_snapshot =
      if is_newer snapshot_id m.last_received_snapshot
      then snapshot_id
      else m.last_received_snapshot;
  latest_received_snapshot =
      if is_newer snapshot_id m.latest_received_snapshot
      then snapshot_id
      else m.latest_received_snapshot;
}

abbrev pub each : (Snap → Delivery) → List Snap → List Delivery
each f [] = []
each f (e ∷ entities) = f e ∷ each f entities

-- Who gets the entities: the prediction callback, else the buffer, else the bridge.
unfoldable pub deliver : ℕ → List Snap → Manager → Manager
deliver snapshot_id entities m =
    if m.prediction_mode && m.has_snapshot_cb
    then record m { deliveries = m.deliveries ++ each predicted entities }
    else if m.interpolation_enabled
    then record m { deliveries = m.deliveries ++ (buffered snapshot_id entities ∷ []) }
    else if m.has_bridge
    then record m { deliveries = m.deliveries ++ each deserialized entities }
    else m

unfoldable pub on_receive_delta : List ℕ → Manager → Manager
on_receive_delta bytes m =
    if ltb (length bytes) 4
    then m
    else let snapshot_id = read_u16_be (get_or bytes 0 0) (get_or bytes 1 0) in
      let num_entities = read_u16_be (get_or bytes 2 0) (get_or bytes 3 0) in
      deliver snapshot_id (parse_entities num_entities (drop 4 bytes)) (track snapshot_id m)

-- The message of `client_tick`, where a snapshot other than 0 was received.
unfoldable pub ack_message : Manager → Option (List ℕ)
ack_message m =
    if m.last_received_snapshot != 0
    then some (0xCA ∷ 0xFE ∷ 0x21 ∷ write_u16_be m.last_received_snapshot)
    else none
