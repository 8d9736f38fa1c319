-- ===== src/Udp/Transport/InOrder.antt =====
-- The reliable-ordered channel as a whole: what the receive loop of `poll` makes of any arrivals.
use campello_net.Prelude.{
  ℕ, suc, ◌+◌, ◌%◌, ◌≤◌, ◌≡◌, refl, ap, sym, ◌∙◌, subst, none, some, List, [], ◌∷◌, ◌++◌, map, inl,
  inr, arith, u16, if◌then◌else◌, ◌==◌, le→ltb, Bool-cases, length, take, get_elem?, All,
  take-suc_of_get, take-length, length-append, append_assoc, append-nil, ==_iff,
}
use mathlib.Core.Option
use mathlib.Core.List.{map-append}
use campello_net.Packet.{PacketHeader, header_bytes, max_packet_size, max_payload_size}
use campello_net.Packet.Wire.{
  IsHeader, deserialize-header_bytes, length-header_bytes, drop-header_bytes,
}
use campello_net.Udp.State.{Env, Impl}
use campello_net.Udp.Process.{find_connection, process_packet}
use campello_net.Udp.Process.Ordered.{IsOrdered, last_ordered, last_ordered_fresh, process_ordered}
use campello_net.Udp.Transport.{Arrival, receive_one, receive_loop, count_received}

module _ ⦃env : Env⦄ where
  -- A packet as it was made: the time of its arrival, its header and its payload.
  abbrev pub Packet : Type 0
  Packet = env.Double × PacketHeader × List ℕ

  abbrev pub datagram : env.Address → Packet → Arrival
  datagram from (now, hdr, payload) = (now, from, header_bytes hdr ++ payload)

  -- A well-formed ordered packet that carries the message of its sequence number.
  abbrev pub IsMessage : List (List ℕ) → Packet → Type 0
  IsMessage msgs (now, hdr, payload) =
      IsHeader hdr
      × IsOrdered hdr
      × (length payload ≤ max_payload_size)
      × (get_elem? msgs hdr.sequence ≡ some payload)

  -- The abstract receiver: the number of messages delivered, from the sequence numbers alone.
  pub delivered : ℕ → List Packet → ℕ
  delivered k [] = k
  delivered k ((now, hdr, payload) ∷ ps) = delivered (if hdr.sequence == k then suc k else k) ps

  -- A datagram that fits the buffer is handed on whole.
  pub receive_one_lem :
      (impl : Impl) (now : env.Double) (from : env.Address) (hdr : PacketHeader) (payload : List ℕ)
      → IsHeader hdr
      → length payload ≤ max_payload_size
      → receive_one impl (datagram from (now, hdr, payload))
        ≡ Option.map count_received (process_packet now impl from hdr payload)
  unfolding receive_one
  receive_one_lem impl now from hdr payload w fits = simp (
    take-length max_packet_size (header_bytes hdr ++ payload) whole,
    le→ltb (length (header_bytes hdr ++ payload)) 16 long,
    deserialize-header_bytes hdr payload 16 w (omega arith),
    drop-header_bytes hdr payload,
  )
    where
      size : length (header_bytes hdr ++ payload) ≡ 16 + length payload
      size = omega (arith, length-append (header_bytes hdr) payload, length-header_bytes hdr)

      whole : length (header_bytes hdr ++ payload) ≤ max_packet_size
      whole = omega (arith, size)

      long : 16 ≤ length (header_bytes hdr ++ payload)
      long = omega (arith, size)

  -- What the state says after `k` messages: the sequence number before the next one was the last.
  abbrev IsAt : env.Address → ℕ → Impl → Type 0
  IsAt from k impl = (now : env.Double) → last_ordered now from impl ≡ (k + 65535) % 65536

  -- One arrival, against one step of the abstract receiver.
  step :
      (msgs : List (List ℕ)) (from : env.Address) (k : ℕ) (impl : Impl) (now : env.Double)
      (hdr : PacketHeader) (payload : List ℕ)
      → IsMessage msgs (now, hdr, payload)
      → k ≤ 65535
      → IsAt from k impl
      → (impl' : Impl) × (receive_one impl (datagram from (now, hdr, payload)) ≡ some impl')
        × IsAt from (if hdr.sequence == k then suc k else k) impl'
        × (impl'.receive_queue ≡ (
            if hdr.sequence == k
            then impl.receive_queue ++ ((from, payload) ∷ [])
            else impl.receive_queue))
  unfolding last_ordered
  step msgs from k impl now hdr payload (wire, ordered, fits, message) small at =
      let (impl', e, queue, last) = process_ordered now impl from hdr payload ordered in
      (
        count_received impl',
        receive_one_lem impl now from hdr payload wire fits ∙ ap (Option.map count_received) e,
        λ later. last later ∙ rw next (ground (arith, at now)),
        queue ∙ rw next refl,
      )
    where
      next : u16 (last_ordered now from impl + 1) ≡ k
      next = omega (arith, at now)

  abbrev tagged : env.Address → List (List ℕ) → List (env.Address × List ℕ)
  tagged from = map (λ m. (from, m))

  -- One more message: the prefix, and the queue, grow by the payload of number `k`.
  grow :
      (msgs : List (List ℕ)) (from : env.Address) (k : ℕ) (payload : List ℕ)
      → get_elem? msgs k ≡ some payload
      → (suc k ≤ length msgs)
        × (tagged from (take (suc k) msgs) ≡ tagged from (take k msgs) ++ ((from, payload) ∷ []))
  grow msgs from k payload e =
      let (prefix, room) = take-suc_of_get k msgs payload e in
      (room, ap (tagged from) prefix ∙ map-append (λ m. (from, m)) (take k msgs) (payload ∷ []))

  step_queue :
      (msgs : List (List ℕ)) (from : env.Address) (queue : List (env.Address × List ℕ)) (k s : ℕ)
      (payload : List ℕ) (before : List (env.Address × List ℕ))
      → get_elem? msgs s ≡ some payload
      → k ≤ length msgs
      → before ≡ queue ++ tagged from (take k msgs)
      → ((if s == k then suc k else k) ≤ length msgs)
        × ((if s == k then before ++ ((from, payload) ∷ []) else before)
            ≡ queue ++ tagged from (take (if s == k then suc k else k) msgs))
  step_queue msgs from queue k s payload before m room e = elim (Bool-cases (s == k)) [
    | inl hit ↦
        let g =
          grow msgs from k payload
            (subst (λ i. get_elem? msgs i ≡ some payload) ((==_iff s k).0 hit) m) in
        rw hit (
          g.0,
          ap (λ q. q ++ ((from, payload) ∷ [])) e
              ∙ append_assoc queue (tagged from (take k msgs)) ((from, payload) ∷ [])
              ∙ ap (◌++◌ queue) (sym g.1),
        )
    | inr miss ↦ rw miss (room, e)
  ]

  -- The loop from a state that has delivered `k` messages behind the entries `queue`.
  loop :
      (msgs : List (List ℕ)) (from : env.Address) (queue : List (env.Address × List ℕ))
      → length msgs ≤ 65535
      → (ps : List Packet) (k : ℕ) (impl : Impl) → All (IsMessage msgs) ps
      → k ≤ length msgs
      → IsAt from k impl
      → impl.receive_queue ≡ queue ++ tagged from (take k msgs)
      → (impl' : Impl) × (receive_loop (map (datagram from) ps) impl ≡ some impl')
        × (delivered k ps ≤ length msgs)
        × (impl'.receive_queue ≡ queue ++ tagged from (take (delivered k ps) msgs))
  unfolding receive_loop delivered
  loop msgs from queue small [] k impl ok room at e = (impl, refl, room, e)
  loop msgs from queue small ((now, hdr, payload) ∷ ps) k impl ok room at e =
      let (impl', e₁, at', q') = step msgs from k impl now hdr payload ok.0 (omega arith) at in
      let (room', e') =
        step_queue msgs from queue k hdr.sequence payload impl.receive_queue ok.0.3 room e in
      let (impl₂, e₂, room₂, e₃) =
        loop msgs from queue small ps (if hdr.sequence == k then suc k else k) impl' ok.1 room' at'
          (q' ∙ e') in
      (impl₂, rw (e₁, receive_loop) e₂, room₂, e₃)

  -- From an address with no connection, whatever order its packets arrive in, however often each
  -- comes and whichever are missing: the loop ends, and it appends to the receive queue the messages
  -- of that address in the order of their sequence numbers from 0, each once and with no gap, as many
  -- as the abstract receiver counts. At most 65,535 messages are sent on the channel.
  pub receive_loop_in_order :
      (msgs : List (List ℕ)) (from : env.Address) (ps : List Packet) (impl : Impl)
      → length msgs ≤ 65535
      → All (IsMessage msgs) ps
      → find_connection from impl.connections ≡ none
      → (impl' : Impl) × (receive_loop (map (datagram from) ps) impl ≡ some impl')
        × (delivered 0 ps ≤ length msgs)
        × (impl'.receive_queue
            ≡ impl.receive_queue ++ map (λ m. (from, m)) (take (delivered 0 ps) msgs))
  receive_loop_in_order msgs from ps impl small ok e =
      loop msgs from impl.receive_queue small ps 0 impl ok (omega arith)
        (λ now. last_ordered_fresh now from impl e) (sym (append-nil impl.receive_queue))
