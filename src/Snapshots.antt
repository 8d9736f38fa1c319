-- ===== src/Snapshots.antt =====
-- `SnapshotHistory` of `src/network_replication.cpp`: the server's ring of its last 128 snapshots, and
-- `LagCompensator` of `src/prediction/lag_compensator.cpp`, which reads it.
-- A span into a slot's blob is its offset and its size.
pub mod Blob
pub mod History
pub mod Lag
use campello_net.Prelude.{
  ℕ, ◌+◌, ◌-◌, ◌%◌, ◌^◌, Bool, true, false, Option, none, some, List, [], ◌∷◌, ◌++◌, map, ltb, leb,
  ◌==◌, if◌then◌else◌, u16, length, get_or, set, take, drop, replicate,
}
use mathlib.Core.Option

-- `EntitySnapshot` as the caller hands it over, its number and its bytes.
abbrev pub Snap : Type 0
Snap = ℕ × List ℕ

-- `EntitySnapshot` in a slot: its number, and the offset and size of its span.
pub record Span : Type 0 where
  pub id : ℕ
  pub offset : ℕ
  pub size : ℕ

-- `SnapshotHistory::Snapshot`.
pub record Slot : Type 0 where
  pub id : ℕ
  pub blob : List ℕ
  pub entities : List Span

pub record SnapshotHistory : Type 0 where
  pub snapshots : List Slot
  pub count : ℕ
  pub head : ℕ

abbrev pub max_snapshots : ℕ
max_snapshots = 128

abbrev pub fresh_slot : Slot
fresh_slot = record { id = 0; blob = []; entities = [] }

abbrev pub fresh_history : SnapshotHistory
fresh_history = record { snapshots = replicate max_snapshots fresh_slot; count = 0; head = 0 }

-- The loop of `store` over the entities, with the blob and the spans so far.
unfoldable pub append_entities : List Snap → List ℕ → List Span → List ℕ × List Span
append_entities [] blob spans = (blob, spans)
append_entities ((id, bytes) ∷ entities) blob spans =
    append_entities entities (blob ++ bytes)
      (spans ++ (record { id = id; offset = length blob; size = length bytes } ∷ []))

unfoldable pub store : ℕ → List Snap → SnapshotHistory → SnapshotHistory
store snapshot_id entities h =
    let head' = (h.head + 1) % max_snapshots in
    let (blob, spans) = append_entities entities [] [] in
    record {
      snapshots =
          set h.snapshots head' (record { id = snapshot_id; blob = blob; entities = spans });
      count = if ltb h.count max_snapshots then h.count + 1 else h.count;
      head = head';
    }

unfoldable pub retrieve : ℕ → SnapshotHistory → Option Slot
retrieve snapshot_id h =
    let delta = u16 ((get_or h.snapshots h.head fresh_slot).id + 2 ^ 16 - snapshot_id) in
    if h.count == 0
    then none
    else if leb h.count delta
    then none
    else some (get_or h.snapshots ((h.head + max_snapshots - delta) % max_snapshots) fresh_slot)

-- What the spans of a slot show.
abbrev pub bytes_of : List ℕ → Span → List ℕ
bytes_of blob s = take s.size (drop s.offset blob)

abbrev pub views : List ℕ → List Span → List Snap
views blob [] = []
views blob (s ∷ spans) = (s.id, bytes_of blob s) ∷ views blob spans

abbrev pub view : Slot → List Snap
view slot = views slot.blob slot.entities

-- The search of `get_entity_state`, whose result is `none` where it returns `false`.
unfoldable pub find_entity : ℕ → List ℕ → List Span → Option (List ℕ)
find_entity entity blob [] = none
find_entity entity blob (s ∷ spans) =
    if s.id == entity then some (bytes_of blob s) else find_entity entity blob spans

-- `history` is `none` for a null pointer.
unfoldable pub get_entity_state : Option SnapshotHistory → (tick entity : ℕ) → Option (List ℕ)
get_entity_state none tick entity = none
get_entity_state (some h) tick entity = elim (retrieve tick h) [
  | none ↦ none
  | some slot ↦ find_entity entity slot.blob slot.entities
]

unfoldable pub get_all_entities : Option SnapshotHistory → ℕ → Option (List Snap)
get_all_entities none tick = none
get_all_entities (some h) tick = Option.map view (retrieve tick h)
