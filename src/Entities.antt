-- ===== src/Entities.antt =====
-- `NetworkEntityManager` of `src/network_entity.cpp`: the table of networked entities on the server
-- and on its clients.
-- `NetworkManager` is what carries the messages: an operation returns those it broadcasts.
pub mod Messages
pub mod Table
pub mod Actions
pub mod Mirror
use campello_net.Prelude.{
  ℕ, ◌+◌, Bool, true, false, ◌&&◌, Option, none, some, List, [], ◌∷◌, ◌++◌, ltb, leb, if◌then◌else◌,
  u16, u64, length, get_or, take, drop, lookup, insert, erase, is_some, map,
}
use campello_net.Bytes.{
  read_u16_be, read_u32_be, read_u64_be, write_u16_be, write_u32_be, write_u64_be,
}

-- `NetworkEntityManager::Entity`.
pub record Entity : Type 0 where
  pub net_id : ℕ
  pub prefab_id : ℕ
  pub local_handle : ℕ
  pub owner_id : ℕ

-- The calls of the game's `INetworkEntityBridge`, oldest first.
pub data BridgeCall : Type 0 where
  spawned : (prefab net_id : ℕ) (init_data : List ℕ) → BridgeCall
  destroyed : (handle : ℕ) → BridgeCall

-- What the game's bridge answers to `spawn`, given the calls before.
pub record Bridge : Type 0 where
  pub spawn : List BridgeCall → (prefab net_id : ℕ) → List ℕ → ℕ

-- `has_bridge` is `bridge_ != nullptr`; `calls` is not a member: it lists the bridge's calls.
pub record Manager : Type 0 where
  pub entities : List (ℕ × Entity)
  pub has_bridge : Bool
  pub next_id : ℕ
  pub max_entities : ℕ
  pub calls : List BridgeCall

abbrev pub fresh_manager : Manager
fresh_manager = record {
  entities = [];
  has_bridge = false;
  next_id = 1;
  max_entities = 0;
  calls = [];
}

abbrev pub set_bridge : Bool → Manager → Manager
set_bridge present m = record m { has_bridge = present }

abbrev pub set_max_entities : ℕ → Manager → Manager
set_max_entities max m = record m { max_entities = max }

-- `max_entities_ > 0 && entities_.size() >= max_entities_`.
abbrev pub at_limit : Manager → Bool
at_limit m = ltb 0 m.max_entities && leb m.max_entities (length m.entities)

-- The message of `broadcast_spawn`, and the one that `send_full_state_to_client` sends.
unfoldable pub spawn_message : ℕ → ℕ → List ℕ → List ℕ
spawn_message net_id prefab init_data =
    0xCA
    ∷ 0xFE
    ∷ 0x10
    ∷ (write_u64_be net_id
        ++ (write_u32_be prefab ++ (write_u16_be (u16 (length init_data)) ++ init_data)))

unfoldable pub destroy_message : ℕ → List ℕ
destroy_message net_id = 0xCA ∷ 0xFE ∷ 0x11 ∷ write_u64_be net_id

module _ ⦃bridge : Bridge⦄ where
  -- The entity that `spawn` and `on_receive_spawn` make, with the call of the bridge.
  unfoldable pub add_entity : ℕ → ℕ → List ℕ → Manager → Manager
  add_entity prefab net_id init_data m =
      if m.has_bridge
      then record m {
        entities =
            insert net_id
              (record {
                net_id = net_id;
                prefab_id = prefab;
                local_handle = bridge.spawn m.calls prefab net_id init_data;
                owner_id = 0;
              })
              m.entities;
        calls = m.calls ++ (spawned prefab net_id init_data ∷ []);
      }
      else record m {
        entities =
            insert net_id
              (record { net_id = net_id; prefab_id = prefab; local_handle = 0; owner_id = 0 })
              m.entities;
      }

  -- `spawn`: the table, the number returned, and what is broadcast where `net` is given.
  unfoldable pub spawn : ℕ → List ℕ → Bool → Manager → Manager × ℕ × List (List ℕ)
  spawn prefab init_data net m = if at_limit m then (m, 0, []) else (
    add_entity prefab m.next_id init_data (record m { next_id = u64 (m.next_id + 1) }),
    m.next_id,
    if net then spawn_message m.next_id prefab init_data ∷ [] else [],
  )

-- The call of the bridge for an entity that goes, and its removal.
unfoldable pub remove_entity : ℕ → Entity → Manager → Manager
remove_entity net_id e m = record m {
  entities = erase net_id m.entities;
  calls = if m.has_bridge then m.calls ++ (destroyed e.local_handle ∷ []) else m.calls;
}

unfoldable pub destroy : ℕ → Bool → Manager → Manager × List (List ℕ)
destroy net_id net m = elim (lookup net_id m.entities) [
  | none ↦ (m, [])
  | some e ↦ (remove_entity net_id e m, if net then destroy_message net_id ∷ [] else [])
]

unfoldable pub set_owner : ℕ → ℕ → Manager → Manager
set_owner net_id owner m = elim (lookup net_id m.entities) [
  | none ↦ m
  | some e ↦ record m { entities = insert net_id (record e { owner_id = owner }) m.entities }
]

-- The messages of `send_full_state_to_client`, one for each entity.
unfoldable pub full_state : Manager → List (List ℕ)
full_state m = map (λ p. spawn_message p.1.net_id p.1.prefab_id []) m.entities

module _ ⦃bridge : Bridge⦄ where
  unfoldable pub on_receive_spawn : List ℕ → Manager → Manager
  on_receive_spawn bytes m =
      let net_id =
        read_u64_be (get_or bytes 0 0) (get_or bytes 1 0) (get_or bytes 2 0) (get_or bytes 3 0)
          (get_or bytes 4 0) (get_or bytes 5 0) (get_or bytes 6 0) (get_or bytes 7 0) in
      let prefab =
        read_u32_be (get_or bytes 8 0) (get_or bytes 9 0) (get_or bytes 10 0) (get_or bytes 11 0) in
      let init_len = read_u16_be (get_or bytes 12 0) (get_or bytes 13 0) in
      if ltb (length bytes) 14
      then m
      else if ltb (length bytes) (14 + init_len)
      then m
      else if is_some (lookup net_id m.entities)
      then m
      else if at_limit m
      then m
      else add_entity prefab net_id (take init_len (drop 14 bytes)) m

unfoldable pub on_receive_destroy : List ℕ → Manager → Manager
on_receive_destroy bytes m =
    let net_id =
      read_u64_be (get_or bytes 0 0) (get_or bytes 1 0) (get_or bytes 2 0) (get_or bytes 3 0)
        (get_or bytes 4 0) (get_or bytes 5 0) (get_or bytes 6 0) (get_or bytes 7 0) in
    if ltb (length bytes) 8
    then m
    else elim (lookup net_id m.entities) [ none ↦ m | some e ↦ remove_entity net_id e m ]

unfoldable pub on_receive_set_owner : List ℕ → Manager → Manager
on_receive_set_owner bytes m =
    let net_id =
      read_u64_be (get_or bytes 0 0) (get_or bytes 1 0) (get_or bytes 2 0) (get_or bytes 3 0)
        (get_or bytes 4 0) (get_or bytes 5 0) (get_or bytes 6 0) (get_or bytes 7 0) in
    let owner =
      read_u64_be (get_or bytes 8 0) (get_or bytes 9 0) (get_or bytes 10 0) (get_or bytes 11 0)
        (get_or bytes 12 0) (get_or bytes 13 0) (get_or bytes 14 0) (get_or bytes 15 0) in
    if ltb (length bytes) 16 then m else set_owner net_id owner m

-- The queries.
abbrev pub exists : ℕ → Manager → Bool
exists net_id m = is_some (lookup net_id m.entities)

unfoldable pub prefab : ℕ → Manager → ℕ
prefab net_id m = elim (lookup net_id m.entities) [ none ↦ 0 | some e ↦ e.prefab_id ]

unfoldable pub local_handle : ℕ → Manager → ℕ
local_handle net_id m = elim (lookup net_id m.entities) [ none ↦ 0 | some e ↦ e.local_handle ]

unfoldable pub owner : ℕ → Manager → ℕ
owner net_id m = elim (lookup net_id m.entities) [ none ↦ 0 | some e ↦ e.owner_id ]
