-- ===== src/Udp/Process/Ordered.antt =====
-- One reliable-ordered packet: what it does to the queue and to the sequence expected next.
use campello_net.Prelude.{
  ℕ, ◌+◌, ◌≤◌, ◌≡◌, refl, ap, ◌∙◌, Bool, none, some, List, [], ◌∷◌, ◌++◌, inl, inr, arith, u16,
  if◌then◌else◌, ◌==◌, ltb, Bool-cases,
}
use mathlib.Core.Option
use campello_net.Packet.{
  PacketHeader, reliable_ordered, user, type_code, protocol, reliability, channel, of_code, code,
}
use campello_net.Udp.State.{Env, Connection, Impl, channel_of, with_channel}
use campello_net.Udp.Acks.{process_acks}
use campello_net.Udp.Acks.Laws.{IsFrame, process_acks-IsFrame}
use campello_net.Udp.Receive.{process_payload, push_receive}
use campello_net.Udp.Process.Table.{
  connection_of, connection_of-write, process_packet-from, get_or_create_lem,
}
use campello_net.Udp.Process.{
  find_connection, store, get_or_create_connection, receive_ordered, received, buffer_packet,
  process_from, process_acked, touched, receive_data, receive_type, process_packet,
}

-- A whole user packet on the reliable-ordered channel.
pub record IsOrdered (hdr : PacketHeader) : Type 0 where
  pub protocol_id : hdr.protocol_id ≡ protocol
  pub packet_type : hdr.packet_type ≡ type_code user
  pub reliability : reliability hdr ≡ reliable_ordered
  pub channel : channel hdr ≡ code reliable_ordered
  pub frag_count : hdr.frag_count ≤ 1

module _ ⦃env : Env⦄ where
  -- The sequence that an address sent last in order; the one before 0 where there is none.
  unfoldable pub last_ordered : env.Double → env.Address → Impl → ℕ
  last_ordered now addr impl =
      (channel_of (connection_of now addr impl.connections) reliable_ordered).remote_seq

  -- A first packet is expected to carry 0.
  pub last_ordered_fresh :
      (now : env.Double) (addr : env.Address) (impl : Impl)
      → find_connection addr impl.connections ≡ none
      → last_ordered now addr impl ≡ 0xFFFF
  unfolding last_ordered connection_of
  last_ordered_fresh now addr impl e = rw (e, last_ordered, connection_of) refl

  -- Does the packet follow in order?
  abbrev pub follows : Connection → PacketHeader → Bool
  follows conn hdr = hdr.sequence == u16 ((channel_of conn reliable_ordered).remote_seq + 1)

  record OrderedStep (impl : Impl) (conn : Connection) (hdr : PacketHeader) (payload : List ℕ)
      (r : Impl × Connection) : Type 0 where
    address : r.1.address ≡ conn.address
    connections : r.0.connections ≡ impl.connections
    queue : r.0.receive_queue ≡ (
        if follows conn hdr
        then impl.receive_queue ++ ((conn.address, payload) ∷ [])
        else impl.receive_queue)
    last :
        (channel_of r.1 reliable_ordered).remote_seq
        ≡ (if follows conn hdr then hdr.sequence else (channel_of conn reliable_ordered).remote_seq)

  -- The packet that follows in order is delivered, and any other is not.
  receive_ordered_lem :
      (now : env.Double) (impl : Impl) (conn : Connection) (hdr : PacketHeader) (payload : List ℕ)
      → hdr.frag_count ≤ 1
      → (r : Impl × Connection) × (receive_ordered now impl conn reliable_ordered hdr payload
          ≡ some r)
        × OrderedStep impl conn hdr payload r
  unfolding receive_ordered process_payload push_receive
  receive_ordered_lem now impl conn hdr payload w =
      let c = channel_of conn reliable_ordered in
      elim (Bool-cases (follows conn hdr)) [
        | inl e ↦ (
          (
            push_receive impl conn.address payload,
            with_channel conn reliable_ordered (received c hdr.sequence),
          ),
          ground arith,
          ground arith,
        )
        | inr e ↦ elim (Bool-cases (ltb (u16 (c.remote_seq + 1)) hdr.sequence)) [
          | inl after ↦ (
            (impl, with_channel conn reliable_ordered (buffer_packet c hdr.sequence payload)),
            ground arith,
            ground arith,
          )
          | inr before ↦ ((impl, conn), ground arith, ground arith)
        ]
      ]

  receive_type-ordered :
      (now : env.Double) (from : env.Address) (impl : Impl) (conn : Connection) (hdr : PacketHeader)
      (payload : List ℕ)
      → IsOrdered hdr
      → receive_type now from impl conn reliable_ordered hdr payload
        ≡ receive_ordered now impl conn reliable_ordered hdr payload
  unfolding receive_type receive_data
  receive_type-ordered now from impl conn hdr payload w = ground arith

  process_from-ordered :
      (now : env.Double) (from : env.Address) (impl : Impl) (conn : Connection) (hdr : PacketHeader)
      (payload : List ℕ)
      → IsOrdered hdr
      → let (impl₁, conn₁) = process_acks now impl conn (channel hdr) hdr.ack hdr.ack_bits in
        process_from now from impl conn hdr payload
        ≡ Option.map
            (λ r. store r.0 r.1)
            (receive_ordered now impl₁ conn₁ reliable_ordered hdr payload)
  unfolding process_from process_acked code of_code
  process_from-ordered now from impl conn hdr payload w =
      rw (w.channel, ← receive_type-ordered now from _ _ hdr payload w)

  -- The step, told by what the state before the acknowledgement says.
  step_from :
      (impl : Impl) (conn : Connection) (hdr : PacketHeader) (payload : List ℕ)
      (r : Impl × Connection) (queue : List (env.Address × List ℕ)) (from : env.Address) (last : ℕ)
      → impl.receive_queue ≡ queue
      → conn.address ≡ from
      → (channel_of conn reliable_ordered).remote_seq ≡ last
      → OrderedStep impl conn hdr payload r
      → (r.0.receive_queue
          ≡ (if hdr.sequence == u16 (last + 1) then queue ++ ((from, payload) ∷ []) else queue))
        × ((channel_of r.1 reliable_ordered).remote_seq
            ≡ (if hdr.sequence == u16 (last + 1) then hdr.sequence else last))
  step_from impl conn hdr payload r queue from last q a l s = rw (← q, ← a, ← l) (s.queue, s.last)

  -- A whole user packet of the reliable-ordered channel is handled without undefined behaviour: it is
  -- delivered exactly when it carries the 16-bit number after the channel's last one, which it then
  -- replaces, and otherwise neither the receive queue nor that number changes.
  pub process_ordered :
      (now : env.Double) (impl : Impl) (from : env.Address) (hdr : PacketHeader) (payload : List ℕ)
      → IsOrdered hdr
      → (impl' : Impl) × (process_packet now impl from hdr payload ≡ some impl')
        × (impl'.receive_queue ≡ (
            if hdr.sequence == u16 (last_ordered now from impl + 1)
            then impl.receive_queue ++ ((from, payload) ∷ [])
            else impl.receive_queue))
        × ((later : env.Double)
            → last_ordered later from impl' ≡ (
                if hdr.sequence == u16 (last_ordered now from impl + 1)
                then hdr.sequence
                else last_ordered now from impl))
  unfolding last_ordered
  process_ordered now impl from hdr payload w = (
    store got.0.0 got.0.1,
    process_packet-from now impl from hdr payload w.protocol_id
        ∙ process_from-ordered now from g.0 conn hdr payload w
        ∙ ap (Option.map (λ (r : Impl × Connection). store r.0 r.1)) got.1,
    step.0,
    λ later. ap (λ c. (channel_of c reliable_ordered).remote_seq) (written later) ∙ step.1,
  )
    where
      g : Impl × Connection
      g = get_or_create_connection now from impl

      made :
          (g.1 ≡ connection_of now from impl.connections)
          × (find_connection from g.0.connections ≡ some g.1)
          × (g.1.address ≡ from)
          × (g.0.receive_queue ≡ impl.receive_queue)
          × (g.0.fragment_assemblies ≡ impl.fragment_assemblies)
      made = get_or_create_lem now from impl

      conn : Connection
      conn = touched now g.1

      a : Impl × Connection
      a = process_acks now g.0 conn (channel hdr) hdr.ack hdr.ack_bits

      frame : IsFrame g.0 a.0 conn a.1
      frame = process_acks-IsFrame now g.0 conn (channel hdr) hdr.ack hdr.ack_bits

      got :
          (r : Impl × Connection) × (receive_ordered now a.0 a.1 reliable_ordered hdr payload
            ≡ some r)
          × OrderedStep a.0 a.1 hdr payload r
      got = receive_ordered_lem now a.0 a.1 hdr payload w.frag_count

      step :
          (got.0.0.receive_queue ≡ (
            if hdr.sequence == u16 (last_ordered now from impl + 1)
            then impl.receive_queue ++ ((from, payload) ∷ [])
            else impl.receive_queue))
          × ((channel_of got.0.1 reliable_ordered).remote_seq ≡ (
              if hdr.sequence == u16 (last_ordered now from impl + 1)
              then hdr.sequence
              else last_ordered now from impl))
      step =
          step_from a.0 a.1 hdr payload got.0 impl.receive_queue from (last_ordered now from impl)
            (frame.receive_queue ∙ made.3) (frame.address ∙ made.2)
            (frame.remote_seq reliable_ordered
              ∙ ap (λ c. (channel_of c reliable_ordered).remote_seq) made.0)
            got.2

      written :
          (later : env.Double)
          → connection_of later from (store got.0.0 got.0.1).connections ≡ got.0.1
      written later =
          connection_of-write later from g.1 got.0.1 got.0.0.connections
            (got.2.address ∙ frame.address ∙ made.2)
            (ap (find_connection from) (got.2.connections ∙ frame.connections) ∙ made.1)
