-- ===== src/Snapshots/Lag.antt =====
-- The lag compensator's view of the history.
use campello_net.Prelude.{
  ℕ, ◌+◌, ◌-◌, ◌^◌, ◌<◌, ◌≡◌, refl, ap, ◌∙◌, Option, none, some, List, [], ◌∷◌, arith, length,
  get_elem?, ltb, if◌then◌else◌, u16, lookup, Option-cases, inl, inr,
}
use mathlib.Core.Option
use campello_net.Snapshots.{
  Snap, Span, SnapshotHistory, max_snapshots, retrieve, views, view, find_entity, get_entity_state,
}
use campello_net.Snapshots.History.{history_of, retrieve-history_of}

find_entity-lookup :
    (entity : ℕ) (blob : List ℕ) (spans : List Span)
    → find_entity entity blob spans ≡ lookup entity (views blob spans)
unfolding find_entity lookup
find_entity-lookup entity blob [] = refl
find_entity-lookup entity blob (s ∷ spans) = ground (arith, find_entity-lookup entity blob spans)

-- The entity in a snapshot that may be missing.
abbrev pub entity_in : ℕ → Option (List Snap) → Option (List ℕ)
entity_in entity none = none
entity_in entity (some snaps) = lookup entity snaps

state-view :
    (tick entity : ℕ) (h : SnapshotHistory)
    → get_entity_state (some h) tick entity ≡ entity_in entity (Option.map view (retrieve tick h))
unfolding get_entity_state
state-view tick entity h = elim (Option-cases (retrieve tick h)) [
  | inl e ↦ rw (e, get_entity_state) refl
  | inr (slot, e) ↦ rw (e, get_entity_state) (find_entity-lookup entity slot.blob slot.entities)
]

-- The state of an entity at a tick is the one stored with the snapshot of that number, where it is
-- one of the last 128 and has the entity; the first one counts where a snapshot has it twice.
pub get_entity_state-history_of :
    (first : ℕ) (recent : List (List Snap)) (i entity : ℕ)
    → i < 2 ^ 16
    → get_entity_state
        (some (history_of first recent))
        (u16 (u16 (first + length recent) + 2 ^ 16 - i))
        entity
      ≡ entity_in entity (if ltb i max_snapshots then get_elem? recent i else none)
get_entity_state-history_of first recent i entity small =
    state-view (u16 (u16 (first + length recent) + 2 ^ 16 - i)) entity (history_of first recent)
    ∙ ap (entity_in entity) (retrieve-history_of first recent i small)
