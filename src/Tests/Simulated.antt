-- ===== src/Tests/Simulated.antt =====
-- The network simulator over a queue, at a concrete input.
use campello_net.Prelude.{
  ℕ, ◌+◌, ◌-◌, ◌<◌, ◌≡◌, true, false, not, Option, none, some, List, [], ◌∷◌, ◌++◌, arith, ltb, leb,
  length,
}
use campello_net.Packet.{unreliable}
use campello_net.Simulator.{Inner, Random, QueuedPacket, Simulator, intercept, is_due, poll}
use campello_net.Simulator.Queues.{filter, arrives, poll_lem}

abbrev take_first : List (ℕ × List ℕ) → List (ℕ × List ℕ) × Option (ℕ × List ℕ)
take_first [] = ([], none)
take_first (p ∷ ps) = (ps, some p)

-- A transport that only has packets to receive.
instance abbrev queue_inner : Inner
queue_inner = record {
  State = List (ℕ × List ℕ);
  Address = ℕ;
  no_address = 0;
  bind = λ a i. (i, true);
  connect = λ a i. (i, true);
  disconnect = λ i. [];
  is_connected = λ i. true;
  send = λ bytes r i. (i, true);
  send_to = λ a bytes r i. (i, true);
  poll = λ i. i;
  pop_receive = λ max i. take_first i;
}

instance abbrev counting : Random
counting = record {
  Rng = ℕ;
  Single = ℕ;
  Double = ℕ;
  single = λ n. n;
  negated = λ x. 0;
  lt_single = ltb;
  to_double = λ x. x;
  add_double = λ x y. x + y;
  le_double = leb;
  max_zero = λ x. x;
  per_thousand = λ x. x;
  uniform = λ low high rng. (rng + 1, low);
}

-- Two packets inside, one that waits with its time still to come, a latency of 3.
abbrev delayed : QueuedPacket
delayed = record {
  deliver_time = 50;
  bytes = 9 ∷ [];
  sender = 4;
  target = 0;
  reliability = unreliable;
  outbound = false;
  targeted = false;
}

abbrev simulator : Simulator
simulator = record {
  inside = (1, 7 ∷ []) ∷ (2, 8 ∷ []) ∷ [];
  packet_loss = 0;
  latency_min_ms = 3;
  latency_max_ms = 3;
  jitter_ms = 0;
  duplication = 0;
  delay_queue = delayed ∷ [];
  ready_queue = [];
  rng = 0;
}

fewer :
    (i : List (ℕ × List ℕ)) (p : ℕ × List ℕ)
    → (take_first i).1 ≡ some p
    → length (take_first i).0 < length i
fewer [] p e = cc
fewer (q ∷ i) p e = omega arith

poll_lem_example :
    (mid s' : Simulator) × (intercept 3 (λ left. 8 - left) simulator ≡ some mid)
    × (poll 3 (λ left. 8 - left) 9 simulator ≡ some s')
    × (s'.delay_queue ≡ filter (λ q. not (is_due 9 q)) mid.delay_queue)
    × (s'.ready_queue ≡ mid.ready_queue ++ filter (arrives 9) mid.delay_queue)
poll_lem_example = poll_lem length 3 (λ left. 8 - left) 9 simulator fewer (omega arith)
