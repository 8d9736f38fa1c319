-- ===== src/Replication/Acknowledged.antt =====
-- Which snapshot a server takes as acknowledged, and which ones a client acknowledges.
use campello_net.Prelude.{
  ℕ, ◌+◌, ◌≤◌, ◌<◌, ◌^◌, ◌≡◌, refl, ap, ap₂, sym, ◌∙◌, arith, Bool, true, false, not, ◌||◌, ◌&&◌,
  none, some, List, [], ◌∷◌, ltb, ◌!=◌, if◌then◌else◌, if_true, if_false, u16, length, All,
  lookup-insert_self, Bool-cases, inl, inr,
}
use campello_net.Snapshots.{Snap}
use campello_net.Replication.{
  Manager, ClientReplicationState, fresh_state, is_newer, acknowledge, state_of, on_snapshot_ack,
  track, deliver, on_receive_delta, snapshot_payload, ack_message,
}
use campello_net.Replication.Delta.{Fit, on_receive_delta-snapshot_payload}

-- Acknowledgements of the snapshots that follow `base` by the given distances, in this order.
abbrev pub ack_each : ℕ → ℕ → List ℕ → Manager → Manager
ack_each id base [] m = m
ack_each id base (d ∷ ds) m = ack_each id base ds (on_snapshot_ack id (u16 (base + d)) m)

abbrev pub farthest : ℕ → List ℕ → ℕ
farthest c [] = c
farthest c (d ∷ ds) = farthest (if ltb c d then d else c) ds

is_newer-distance :
    (base c d : ℕ) → c < 2 ^ 15 → d < 2 ^ 15 → is_newer (u16 (base + d)) (u16 (base + c)) ≡ ltb c d
unfolding is_newer
is_newer-distance base c d h g = ground arith

-- Acknowledgements of a client that has acknowledged one snapshot, in any order and repeated at
-- will, leave the server with the newest of them, across the wrap of the 16-bit numbers, as long as
-- they lie within 32767 snapshots after that first one.
pub ack_each-farthest :
    (id base c : ℕ) (ds : List ℕ) (m : Manager)
    → c < 2 ^ 15
    → All (λ d. d < 2 ^ 15) ds
    → (state_of id m.client_states).has_ack ≡ true
    → (state_of id m.client_states).last_acked_snapshot ≡ u16 (base + c)
    → ((state_of id (ack_each id base ds m).client_states).last_acked_snapshot
        ≡ u16 (base + farthest c ds))
      × ((state_of id (ack_each id base ds m).client_states).has_ack ≡ true)
unfolding on_snapshot_ack acknowledge
ack_each-farthest id base c [] m w ws h g = (g, h)
ack_each-farthest id base c (d ∷ ds) m w ws h g = elim (Bool-cases (ltb c d)) [
  | inl e ↦
      let newer = stored ∙ if_true _ _ newest (test ∙ e) in
      let rest =
        ack_each-farthest id base d ds next ws.0 ws.1
          (ap (λ (s : ClientReplicationState). s.has_ack) newer)
          (ap (λ (s : ClientReplicationState). s.last_acked_snapshot) newer) in
      (rest.0 ∙ ap (λ b. u16 (base + farthest (if b then d else c) ds)) (sym e), rest.1)
  | inr e ↦
      let older = stored ∙ if_false _ _ newest (test ∙ e) in
      let rest =
        ack_each-farthest id base c ds next w ws.1
          (ap (λ (s : ClientReplicationState). s.has_ack) older ∙ h)
          (ap (λ (s : ClientReplicationState). s.last_acked_snapshot) older ∙ g) in
      (rest.0 ∙ ap (λ b. u16 (base + farthest (if b then d else c) ds)) (sym e), rest.1)
]
  where
    before : ClientReplicationState
    before = state_of id m.client_states

    next : Manager
    next = on_snapshot_ack id (u16 (base + d)) m

    newest : Bool
    newest = not before.has_ack || is_newer (u16 (base + d)) before.last_acked_snapshot

    test : newest ≡ ltb c d
    test = ap₂ (λ b l. not b || is_newer (u16 (base + d)) l) h g ∙ is_newer-distance base c d w ws.0

    stored : state_of id next.client_states ≡ acknowledge (u16 (base + d)) before
    stored =
        ap (λ o. elim o as (λ x. ClientReplicationState) [ none ↦ fresh_state | some s ↦ s ])
          (lookup-insert_self id (acknowledge (u16 (base + d)) before) m.client_states)

-- The messages of snapshots, received in this order.
abbrev pub receive_each : List (ℕ × List Snap) → Manager → Manager
receive_each [] m = m
receive_each ((snapshot_id, entities) ∷ sent) m =
    receive_each sent (on_receive_delta (snapshot_payload snapshot_id entities) m)

deliver-last :
    (snapshot_id : ℕ) (entities : List Snap) (m : Manager)
    → (deliver snapshot_id entities m).last_received_snapshot ≡ m.last_received_snapshot
unfolding deliver
deliver-last snapshot_id entities m =
    either (m.prediction_mode && m.has_snapshot_cb) _ _ refl
      (either m.interpolation_enabled _ _ refl (either m.has_bridge _ _ refl refl))
  where
    either :
        (b : Bool) (x y : Manager)
        → x.last_received_snapshot ≡ m.last_received_snapshot
        → y.last_received_snapshot ≡ m.last_received_snapshot
        → (if b then x else y).last_received_snapshot ≡ m.last_received_snapshot
    either true x y e f = e
    either false x y e f = f

-- A number from 32768 on is not newer than 0.
is_newer-late : (n : ℕ) → 2 ^ 15 ≤ n → n < 2 ^ 16 → is_newer n 0 ≡ false
unfolding is_newer
is_newer-late n h g = ground arith

-- A client that has not noted any snapshot, and to which the server sends snapshots of the numbers
-- 32768 to 65535 only, notes none of them and has nothing to acknowledge.
pub ack_message-late :
    (sent : List (ℕ × List Snap)) (m : Manager)
    → All (λ p. (2 ^ 15 ≤ p.0) × (p.0 < 2 ^ 16) × (length (p.1) < 2 ^ 16) × Fit (p.1)) sent
    → m.last_received_snapshot ≡ 0
    → ack_message (receive_each sent m) ≡ none
unfolding ack_message
ack_message-late [] m w e = if_false _ _ (m.last_received_snapshot != 0) (ground (arith, e))
ack_message-late ((n, entities) ∷ sent) m w e =
    ack_message-late sent (on_receive_delta (snapshot_payload n entities) m) w.1 (
      ap (λ (x : Manager). x.last_received_snapshot)
        (on_receive_delta-snapshot_payload n entities m (w.0).1 (w.0).2 (w.0).3)
      ∙ deliver-last n entities (track n m)
      ∙ if_false _ _ (is_newer n m.last_received_snapshot)
          (ap (is_newer n) e ∙ is_newer-late n (w.0).0 (w.0).1)
      ∙ e)
