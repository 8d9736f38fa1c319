-- ===== src/Simulator/Queues.antt =====
-- What a poll does with the queues, and that it ends.
use campello_net.Prelude.{
  ℕ, zero, suc, ◌<◌, ◌≡◌, refl, ap, sym, ◌∙◌, Bool, not, ◌&&◌, some, List, [], ◌∷◌, ◌++◌, arith,
  if◌then◌else◌, append_assoc, append-nil, Option-cases, Bool-cases, inl, inr,
}
use campello_net.Simulator.{
  Inner, Random, QueuedPacket, Simulator, enqueue, admit, in_packet, intercept, is_due, release,
  expire, poll,
}

module _ ⦃inner : Inner⦄ ⦃random : Random⦄ where
  -- The packets of a queue that a test takes, in their order.
  unfoldable pub filter : (QueuedPacket → Bool) → List QueuedPacket → List QueuedPacket
  filter f [] = []
  filter f (q ∷ queue) = if f q then q ∷ filter f queue else filter f queue

  abbrev pub arrives : random.Double → QueuedPacket → Bool
  arrives now q = is_due now q && not q.outbound

  release-ready :
      (q : QueuedPacket) (s : Simulator) (more : List QueuedPacket)
      → (release q s).ready_queue ++ more
        ≡ s.ready_queue ++ (if not q.outbound then q ∷ more else more)
  release-ready q s more = elim (Bool-cases q.outbound) [
    | inl out ↦ simp out refl
    | inr received ↦ simp received (append_assoc s.ready_queue (q ∷ []) more)
  ]

  release-rng : (q : QueuedPacket) (s : Simulator) → (release q s).rng ≡ s.rng
  release-rng q s = ground arith

  expire_lem :
      (now : random.Double) (queue kept : List QueuedPacket) (s : Simulator)
      → ((expire now queue kept s).delay_queue ≡ kept ++ filter (λ q. not (is_due now q)) queue)
        × ((expire now queue kept s).ready_queue ≡ s.ready_queue ++ filter (arrives now) queue)
        × ((expire now queue kept s).rng ≡ s.rng)
  unfolding expire filter
  expire_lem now [] kept s = (sym (append-nil kept), sym (append-nil s.ready_queue), refl)
  expire_lem now (q ∷ queue) kept s = elim (Bool-cases (is_due now q)) [
    | inl due ↦
        let rest = expire_lem now queue kept (release q s) in
        rw (due, expire)
          (
            rest.0,
            rest.1 ∙ release-ready q s (filter (arrives now) queue),
            rest.2 ∙ release-rng q s,
          )
    | inr waits ↦
        let rest = expire_lem now queue (kept ++ (q ∷ [])) s in
        rw (waits, expire)
          (
            rest.0 ∙ append_assoc kept (q ∷ []) (filter (λ q. not (is_due now q)) queue),
            rest.1,
            rest.2,
          )
  ]

  -- Taking packets in and putting them into the queues never touches the transport inside.
  admit-inside :
      (now : random.Double) (packet : random.Double → QueuedPacket) (s : Simulator)
      → (admit now packet s).inside ≡ s.inside
  unfolding admit enqueue
  admit-inside now packet s = ground arith

  intercept_enough :
      (waiting : inner.State → ℕ) (fuel : ℕ) (clock : ℕ → random.Double) (s : Simulator)
      → ((i : inner.State) (p : inner.Address × List ℕ)
          → (inner.pop_receive 2048 i).1 ≡ some p
          → waiting (inner.pop_receive 2048 i).0 < waiting i)
      → waiting s.inside < fuel
      → (s' : Simulator) × (intercept fuel clock s ≡ some s')
  unfolding intercept
  intercept_enough waiting zero clock s fewer enough = absurd (omega arith)
  intercept_enough waiting (suc fuel) clock s fewer enough =
      let inside = (inner.pop_receive 2048 s.inside).0 in
      elim (Option-cases (inner.pop_receive 2048 s.inside).1) [
        | inl e ↦ (record s { inside = inside }, rw (e, intercept) refl)
        | inr (p, e) ↦
            let s₁ = admit (clock fuel) (in_packet p.0 p.1) (record s { inside = inside }) in
            let (s', e') = intercept_enough waiting fuel clock s₁ fewer (
              omega (
                arith,
                fewer s.inside p e,
                ap waiting
                    (admit-inside (clock fuel) (in_packet p.0 p.1) (record s { inside = inside })),
              )) in
            (s', rw (e, intercept) e')
      ]

  -- The poll ends: where each packet taken from the transport inside leaves fewer there, as `waiting`
  -- counts them, fuel above their number after the transport's own poll is enough. With `mid` the
  -- state after the packets inside were taken in, it keeps exactly the packets whose time has not
  -- come and puts the received ones whose time has come behind those that are ready, both in the
  -- order of the queue.
  pub poll_lem :
      (waiting : inner.State → ℕ) (fuel : ℕ) (clock : ℕ → random.Double) (now : random.Double)
      (s : Simulator)
      → ((i : inner.State) (p : inner.Address × List ℕ)
          → (inner.pop_receive 2048 i).1 ≡ some p
          → waiting (inner.pop_receive 2048 i).0 < waiting i)
      → waiting (inner.poll s.inside) < fuel
      → (mid s' : Simulator) × (intercept fuel clock (record s { inside = inner.poll s.inside })
          ≡ some mid)
        × (poll fuel clock now s ≡ some s')
        × (s'.delay_queue ≡ filter (λ q. not (is_due now q)) mid.delay_queue)
        × (s'.ready_queue ≡ mid.ready_queue ++ filter (arrives now) mid.delay_queue)
  unfolding poll
  poll_lem waiting fuel clock now s fewer enough =
      let (mid, e) =
        intercept_enough waiting fuel clock (record s { inside = inner.poll s.inside }) fewer
          enough in
      let queues = expire_lem now mid.delay_queue [] mid in
      (mid, expire now mid.delay_queue [] mid, e, rw (e, poll) refl, queues.0, queues.1)
