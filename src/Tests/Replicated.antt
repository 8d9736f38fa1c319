-- ===== src/Tests/Replicated.antt =====
-- Tests of the replication manager and of the cipher.
use campello_net.Prelude.{
  ℕ, ◌+◌, ◌≡◌, refl, arith, List, [], ◌∷◌, some, none, true, false, u16, length, All, ltb, lookup,
}
use campello_net.Snapshots.{Snap}
use campello_net.Crypto.Aead.{seal, open_sealed, open_sealed-seal}
use campello_net.Replication.{
  Manager, state_of, deliver, track, on_receive_delta, snapshot_payload, ack_message,
}
use campello_net.Replication.Delta.{on_receive_delta-snapshot_payload}
use campello_net.Replication.{fresh_state}
use campello_net.Replication.Selection.{client_entities}
use campello_net.Replication.Selection.Recovery.{
  or_else, client_entities-visible, client_entities-recovers,
}
use campello_net.Replication.Acknowledged.{
  ack_each, farthest, receive_each, ack_each-farthest, ack_message-late,
}

-- A manager that has an acknowledgement of client 4.
abbrev manager : Manager
manager = record {
  has_bridge = true;
  dirty_entities = [];
  snapshot_id = 7;
  client_states =
      (4, record { last_acked_snapshot = 65534; has_ack = true; visible_entities = [] }) ∷ [];
  last_received_snapshot = 0;
  latest_received_snapshot = 0;
  interpolation_enabled = true;
  prediction_mode = false;
  has_snapshot_cb = false;
  deliveries = [];
}

abbrev snapshot : List Snap
snapshot = (9, 1 ∷ 2 ∷ 3 ∷ []) ∷ (10, []) ∷ []

on_receive_delta-snapshot_payload_example :
    on_receive_delta (snapshot_payload 8 snapshot) manager ≡ deliver 8 snapshot (track 8 manager)
on_receive_delta-snapshot_payload_example =
    on_receive_delta-snapshot_payload 8 snapshot manager (omega arith) (omega arith)
      ((omega arith, omega arith), ((omega arith, omega arith), tt))

-- Acknowledgements out of order, across the wrap.
ack_each-farthest_example :
    ((state_of 4 (ack_each 4 65533 (3 ∷ 6 ∷ 2 ∷ []) manager).client_states).last_acked_snapshot
      ≡ u16 (65533 + farthest 1 (3 ∷ 6 ∷ 2 ∷ [])))
    × ((state_of 4 (ack_each 4 65533 (3 ∷ 6 ∷ 2 ∷ []) manager).client_states).has_ack ≡ true)
unfolding lookup
ack_each-farthest_example =
    ack_each-farthest 4 65533 1 (3 ∷ 6 ∷ 2 ∷ []) manager (omega arith)
      (omega arith, (omega arith, (omega arith, tt))) refl refl

ack_message-late_example :
    ack_message (receive_each ((40000, snapshot) ∷ (40001, snapshot) ∷ []) manager) ≡ none
ack_message-late_example =
    ack_message-late ((40000, snapshot) ∷ (40001, snapshot) ∷ []) manager
      (
        (
          omega arith,
          omega arith,
          omega arith,
          ((omega arith, omega arith), ((omega arith, omega arith), tt)),
        ),
        (
          (
            omega arith,
            omega arith,
            omega arith,
            ((omega arith, omega arith), ((omega arith, omega arith), tt)),
          ),
          tt,
        ),
      )
      refl

open_sealed-seal_example :
    (sealed : List ℕ) × (seal (1 ∷ []) (2 ∷ []) (3 ∷ []) (4 ∷ 5 ∷ []) 18 ≡ some sealed)
    × (length sealed ≡ 2 + 16)
    × (open_sealed (1 ∷ []) (2 ∷ []) (3 ∷ []) sealed 2 ≡ some (4 ∷ 5 ∷ []))
open_sealed-seal_example =
    open_sealed-seal (1 ∷ []) (2 ∷ []) (3 ∷ []) (4 ∷ 5 ∷ []) 18 2 (omega arith) (omega arith)

-- A filter that hides the entities from 10 on, and a baseline that has one entity of two.
client_entities-visible_example :
    All
      (λ e. ltb (e.0) 10 ≡ true)
      (client_entities
        (some ((9, 1 ∷ []) ∷ []))
        (some (λ id client. ltb id 10))
        4
        fresh_state
        snapshot).1
client_entities-visible_example =
    client_entities-visible (some ((9, 1 ∷ []) ∷ [])) (λ id client. ltb id 10) 4 fresh_state
      snapshot

client_entities-recovers_example :
    ((client_entities none none 4 fresh_state snapshot).1 ≡ snapshot)
    × (or_else
          (lookup 10 (client_entities (some ((10, []) ∷ [])) none 4 fresh_state snapshot).1)
          (lookup 10 ((10, []) ∷ []))
        ≡ or_else (lookup 10 snapshot) (lookup 10 ((10, []) ∷ [])))
unfolding lookup
client_entities-recovers_example =
    client_entities-recovers ((10, []) ∷ []) 4 fresh_state snapshot 10 (refl, (refl, tt))
