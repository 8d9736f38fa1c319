-- ===== src/Simulator.antt =====
-- `NetworkSimulator` of `src/transport/network_simulator.cpp`: a transport that delays, drops and
-- repeats the packets of another.
pub mod Queues
use campello_net.Prelude.{
  ℕ, zero, suc, ◌+◌, Bool, true, false, Option, none, some, List, [], ◌∷◌, ◌++◌, if◌then◌else◌,
  take,
}
use campello_net.Packet.{PacketReliability, unreliable}

-- The transport inside, by the operations of `ITransport` that are called.
pub record Inner : Type 1 where
  pub State : Type 0
  pub Address : Type 0
  pub no_address : Address
  pub bind : Address → State → State × Bool
  pub connect : Address → State → State × Bool
  pub disconnect : State → State
  pub is_connected : State → Bool
  pub send : List ℕ → PacketReliability → State → State × Bool
  pub send_to : Address → List ℕ → PacketReliability → State → State × Bool
  pub poll : State → State
  pub pop_receive : ℕ → State → State × Option (Address × List ℕ)

-- The arithmetic of `float` and `double`, and `uniform_real_distribution` over the generator's state.
pub record Random : Type 1 where
  pub Rng : Type 0
  pub Single : Type 0
  pub Double : Type 0
  pub single : ℕ → Single
  pub negated : Single → Single
  pub lt_single : Single → Single → Bool
  pub to_double : Single → Double
  pub add_double : Double → Double → Double
  pub le_double : Double → Double → Bool
  pub max_zero : Double → Double
  pub per_thousand : Double → Double
  pub uniform : Single → Single → Rng → Rng × Single

-- `QueuedPacket`.
pub record QueuedPacket ⦃inner : Inner⦄ ⦃random : Random⦄ : Type 0 where
  pub deliver_time : random.Double
  pub bytes : List ℕ
  pub sender : inner.Address
  pub target : inner.Address
  pub reliability : PacketReliability
  pub outbound : Bool
  pub targeted : Bool

-- `NetworkSimulator::Impl`.
pub record Simulator ⦃inner : Inner⦄ ⦃random : Random⦄ : Type 0 where
  pub inside : inner.State
  pub packet_loss : random.Single
  pub latency_min_ms : random.Single
  pub latency_max_ms : random.Single
  pub jitter_ms : random.Single
  pub duplication : random.Single
  pub delay_queue : List QueuedPacket
  pub ready_queue : List QueuedPacket
  pub rng : random.Rng

module _ ⦃inner : Inner⦄ ⦃random : Random⦄ where
  -- A random number below a ratio; the generator is not asked where the ratio is not positive.
  unfoldable pub chance : random.Single → random.Rng → random.Rng × Bool
  chance ratio rng =
      let (rng', x) = random.uniform (random.single 0) (random.single 1) rng in
      if random.lt_single (random.single 0) ratio
      then (rng', random.lt_single x ratio)
      else (rng, false)

  abbrev pub should_drop : Simulator → random.Rng × Bool
  should_drop s = chance s.packet_loss s.rng

  abbrev pub should_duplicate : Simulator → random.Rng × Bool
  should_duplicate s = chance s.duplication s.rng

  -- The two parts of `calculate_delay_s`, and the whole.
  abbrev pub base_delay : Simulator → random.Rng × random.Double
  base_delay s =
      let (rng', x) = random.uniform s.latency_min_ms s.latency_max_ms s.rng in
      if random.lt_single s.latency_min_ms s.latency_max_ms
      then (rng', random.to_double x)
      else (s.rng, random.to_double s.latency_min_ms)

  abbrev pub with_jitter : random.Single → random.Rng × random.Double → random.Rng × random.Double
  with_jitter jitter (rng, delay) =
      let (rng', x) = random.uniform (random.negated jitter) jitter rng in
      if random.lt_single (random.single 0) jitter
      then (rng', random.add_double delay (random.to_double x))
      else (rng, delay)

  unfoldable pub calculate_delay_s : Simulator → random.Rng × random.Double
  calculate_delay_s s =
      let (rng, delay_ms) = with_jitter s.jitter_ms (base_delay s) in
      (rng, random.per_thousand (random.max_zero delay_ms))

  abbrev pub later : Simulator → QueuedPacket → QueuedPacket
  later s q = record q {
    deliver_time =
        random.add_double q.deliver_time (random.per_thousand (random.to_double s.jitter_ms));
  }

  -- A packet joins the queue at its time, and perhaps a second one behind it.
  unfoldable pub enqueue : random.Double → (random.Double → QueuedPacket) → Simulator → Simulator
  enqueue now packet s =
      let (rng, delay) = calculate_delay_s s in
      let q = packet (random.add_double now delay) in
      let queued = record s { rng = rng; delay_queue = s.delay_queue ++ (q ∷ []) } in
      let (rng', twice) = should_duplicate queued in
      if twice
      then record queued { rng = rng'; delay_queue = queued.delay_queue ++ (later s q ∷ []) }
      else record queued { rng = rng' }

  -- What `send`, `send_to` and the receive loop do with one packet.
  unfoldable pub admit : random.Double → (random.Double → QueuedPacket) → Simulator → Simulator
  admit now packet s =
      let (rng, dropped) = should_drop s in
      if dropped then record s { rng = rng } else enqueue now packet (record s { rng = rng })

  abbrev pub out_packet : List ℕ → PacketReliability → random.Double → QueuedPacket
  out_packet bytes r time = record {
    deliver_time = time;
    bytes = bytes;
    sender = inner.no_address;
    target = inner.no_address;
    reliability = r;
    outbound = true;
    targeted = false;
  }

  -- The reliability of a received packet is not set, and not read.
  abbrev pub in_packet : inner.Address → List ℕ → random.Double → QueuedPacket
  in_packet sender bytes time = record {
    deliver_time = time;
    bytes = bytes;
    sender = sender;
    target = inner.no_address;
    reliability = unreliable;
    outbound = false;
    targeted = false;
  }

  unfoldable pub send : random.Double → List ℕ → PacketReliability → Simulator → Simulator × Bool
  send now bytes r s = (admit now (out_packet bytes r) s, true)

  unfoldable pub send_to :
      random.Double → inner.Address → List ℕ → PacketReliability → Simulator → Simulator × Bool
  send_to now address bytes r s =
      (admit now (λ t. record (out_packet bytes r t) { target = address; targeted = true }) s, true)

  -- The first loop of `poll`: `none` is fuel that ran out before the transport inside was empty.
  -- `clock` has the readings of the clock, by the fuel that is left.
  unfoldable pub intercept : ℕ → (clock : ℕ → random.Double) → Simulator → Option Simulator
  intercept zero clock s = none
  intercept (suc fuel) clock s =
      let (inside, popped) = inner.pop_receive 2048 s.inside in
      elim popped [
        | none ↦ some (record s { inside = inside })
        | some (sender, bytes) ↦
            intercept fuel clock
              (admit (clock fuel) (in_packet sender bytes) (record s { inside = inside }))
      ]

  abbrev pub is_due : random.Double → QueuedPacket → Bool
  is_due now q = random.le_double q.deliver_time now

  -- A packet whose time has come: sent on, or ready.
  abbrev pub release : QueuedPacket → Simulator → Simulator
  release q s =
      if q.outbound
      then record s {
        inside =
            (if q.targeted
              then inner.send_to q.target q.bytes q.reliability s.inside
              else inner.send q.bytes q.reliability s.inside).0;
      }
      else record s { ready_queue = s.ready_queue ++ (q ∷ []) }

  -- The second loop, over the queue, with the packets that stay.
  unfoldable pub expire :
      random.Double → List QueuedPacket → List QueuedPacket → Simulator → Simulator
  expire now [] kept s = record s { delay_queue = kept }
  expire now (q ∷ queue) kept s = elim (is_due now q) [
    | true ↦ expire now queue kept (release q s)
    | false ↦ expire now queue (kept ++ (q ∷ [])) s
  ]

  -- `clock` and `now` are the readings of the clock in the two loops.
  unfoldable pub poll :
      ℕ → (clock : ℕ → random.Double) → (now : random.Double) → Simulator → Option Simulator
  poll fuel clock now s = elim (intercept fuel clock (record s { inside = inner.poll s.inside })) [
    | none ↦ none
    | some s' ↦ some (expire now s'.delay_queue [] s')
  ]

  unfoldable pub pop_receive : ℕ → Simulator → Simulator × Option (inner.Address × List ℕ)
  pop_receive max_length s = elim s.ready_queue [
    | [] ↦ (s, none)
    | q ∷ rest ↦ (record s { ready_queue = rest }, some (q.sender, take max_length q.bytes))
  ]

  unfoldable pub disconnect : Simulator → Simulator
  disconnect s = record s { inside = inner.disconnect s.inside; delay_queue = []; ready_queue = [] }

  abbrev pub bind : inner.Address → Simulator → Simulator × Bool
  bind address s =
      let (inside, ok) = inner.bind address s.inside in (record s { inside = inside }, ok)

  abbrev pub connect : inner.Address → Simulator → Simulator × Bool
  connect address s =
      let (inside, ok) = inner.connect address s.inside in (record s { inside = inside }, ok)

  abbrev pub is_connected : Simulator → Bool
  is_connected s = inner.is_connected s.inside
