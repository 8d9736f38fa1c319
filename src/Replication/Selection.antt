-- ===== src/Replication/Selection.antt =====
-- `build_and_send_snapshot` of `src/network_replication.cpp`: which entities a client is sent. The
-- interest filter answers by its arguments alone.
pub mod Recovery
use campello_net.Prelude.{
  ℕ, ◌+◌, ◌-◌, ◌^◌, Bool, true, false, not, ◌&&◌, ◌||◌, Option, none, some, List, [], ◌∷◌, ltb,
  ◌==◌, if◌then◌else◌, u16, lookup,
}
use campello_net.Snapshots.{Snap, SnapshotHistory, retrieve, view}
use campello_net.Replication.{ClientReplicationState, add_once}

-- `std::equal`.
unfoldable pub same_bytes : List ℕ → List ℕ → Bool
same_bytes [] [] = true
same_bytes [] (y ∷ ys) = false
same_bytes (x ∷ xs) [] = false
same_bytes (x ∷ xs) (y ∷ ys) = (x == y) && same_bytes xs ys

-- Does an entity differ from its first entry in the baseline?
unfoldable pub changed : List Snap → Snap → Bool
changed baseline (id, bytes) = elim (lookup id baseline) [
  | none ↦ true
  | some base ↦ not (same_bytes base bytes)
]

unfoldable pub is_visible : ℕ → List ℕ → Bool
is_visible id [] = false
is_visible id (x ∷ visible) = if x == id then true else is_visible id visible

-- `visible_entities.erase`.
unfoldable pub drop_id : ℕ → List ℕ → List ℕ
drop_id id [] = []
drop_id id (x ∷ visible) = if x == id then visible else x ∷ drop_id id visible

abbrev pub Interest : Type 0
Interest = Option (ℕ → ℕ → Bool)

unfoldable pub hidden : Interest → ℕ → ℕ → Bool
hidden none client id = false
hidden (some filter) client id = not (filter id client)

unfoldable pub newly_visible : Interest → ℕ → List ℕ → Bool
newly_visible none id visible = false
newly_visible (some filter) id visible = not (is_visible id visible)

-- The visible entities once the filter was asked for one of them.
unfoldable pub look : Interest → ℕ → ℕ → List ℕ → List ℕ
look none client id visible = visible
look (some filter) client id visible =
    if filter id client then add_once id visible else drop_id id visible

-- The loop of a delta: the visible entities behind it, and `scratch_delta_`.
unfoldable pub delta_each : List Snap → Interest → ℕ → List Snap → List ℕ → List ℕ × List Snap
delta_each baseline interest client [] visible = (visible, [])
delta_each baseline interest client (cur ∷ snap) visible =
    let rest = delta_each baseline interest client snap (look interest client (cur.0) visible) in
    if not (hidden interest client (cur.0))
      && (newly_visible interest (cur.0) visible || changed baseline cur)
    then (rest.0, cur ∷ rest.1)
    else rest

-- The loop of a full snapshot: the visible entities behind it, and `scratch_filtered_`.
unfoldable pub full_each : Interest → ℕ → List Snap → List ℕ → List ℕ × List Snap
full_each interest client [] visible = (visible, [])
full_each interest client (cur ∷ snap) visible =
    let rest = full_each interest client snap (look interest client (cur.0) visible) in
    if not (hidden interest client (cur.0)) then (rest.0, cur ∷ rest.1) else rest

-- Is there a baseline, and is it young enough?
unfoldable pub baseline_of :
    Bool
    → SnapshotHistory
    → (snapshot_id max_baseline_age : ℕ) → ClientReplicationState
    → Option (List Snap)
baseline_of force_full_sync history snapshot_id max_baseline_age s =
    if force_full_sync || not s.has_ack
    then none
    else elim (retrieve s.last_acked_snapshot history) [
      | none ↦ none
      | some slot ↦
          if ltb max_baseline_age (u16 (snapshot_id + 2 ^ 16 - s.last_acked_snapshot))
          then none
          else some (view slot)
    ]

unfoldable pub select :
    Option (List Snap) → Interest → (client : ℕ) → List Snap → List ℕ → List ℕ × List Snap
select none interest client snap visible = full_each interest client snap visible
select (some baseline) interest client snap visible =
    delta_each baseline interest client snap visible

-- The state of one client behind the pass, and the entities that it is sent.
unfoldable pub client_entities :
    Option (List Snap)
    → Interest
    → (client : ℕ) → ClientReplicationState
    → List Snap
    → ClientReplicationState × List Snap
client_entities baseline interest client s snap =
    let result = select baseline interest client snap s.visible_entities in
    (record s { visible_entities = result.0 }, result.1)
