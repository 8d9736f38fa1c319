-- ===== src/Udp/Process/Unordered.antt =====
-- One reliable-unordered packet: its delivery, and what the channel acknowledges afterwards.
use campello_net.Prelude.{
  ℕ, ◌-◌, ◌<◌, ◌≤◌, ◌≡◌, refl, ap, ◌∙◌, true, some, List, [], ◌∷◌, ◌++◌, arith, bit_and_low_bits,
  bit_or_disjoint, u32, ◌<<◌, ◌%◌,
}
use campello_net.Packet.{
  PacketHeader, reliable_unordered, user, type_code, protocol, reliability, channel, of_code, code,
}
use campello_net.Udp.State.{Env, Channel, Connection, Impl, channel_of, with_channel}
use campello_net.Udp.Acks.{is_acked, process_acks}
use campello_net.Udp.Acks.Laws.{IsFrame, process_acks-IsFrame}
use campello_net.Udp.Receive.{process_payload, push_receive}
use campello_net.Udp.Process.Table.{
  connection_of, connection_of-write, get_or_create_lem, process_packet-from,
}
use campello_net.Udp.Process.{
  find_connection, store, get_or_create_connection, received, receive_data, receive_type,
  process_acked, process_from, process_packet, touched, shift_in,
}

-- A whole user packet on the reliable-unordered channel.
pub record IsUnordered (hdr : PacketHeader) : Type 0 where
  pub protocol_id : hdr.protocol_id ≡ protocol
  pub packet_type : hdr.packet_type ≡ type_code user
  pub reliability : reliability hdr ≡ reliable_unordered
  pub channel : channel hdr ≡ code reliable_unordered
  pub frag_count : hdr.frag_count ≤ 1

-- The bits after a packet acknowledge the sequence before it.
shift_in_odd : (bits : ℕ) → shift_in bits % 2 ≡ 1
unfolding shift_in
shift_in_odd bits = omega (arith, bit_or_disjoint 1 (u32 (bits << 1)) 1 (omega arith) (omega arith))

acks_self : (seq bits : ℕ) → is_acked seq bits seq ≡ true
unfolding is_acked
acks_self seq bits = ground arith

acks_before : (seq bits : ℕ) → 0 < seq → is_acked seq (shift_in bits) (seq - 1) ≡ true
unfolding is_acked
acks_before seq bits pos =
    ground (arith, bit_and_low_bits 1 (shift_in bits), shift_in_odd bits, one)
  where
    one : seq - (seq - 1) ≡ 1
    one = omega arith

module _ ⦃env : Env⦄ where
  pub unordered_channel : env.Double → env.Address → Impl → Channel
  unordered_channel now addr impl =
      channel_of (connection_of now addr impl.connections) reliable_unordered

  receive_type-unordered :
      (now : env.Double) (from : env.Address) (impl : Impl) (conn : Connection) (hdr : PacketHeader)
      (payload : List ℕ)
      → IsUnordered hdr
      → receive_type now from impl conn reliable_unordered hdr payload
        ≡ some (
          push_receive impl conn.address payload,
          with_channel conn reliable_unordered
              (received (channel_of conn reliable_unordered) hdr.sequence),
        )
  unfolding receive_type receive_data process_payload
  receive_type-unordered now from impl conn hdr payload w = ground arith

  process_from-unordered :
      (now : env.Double) (from : env.Address) (impl : Impl) (conn : Connection) (hdr : PacketHeader)
      (payload : List ℕ)
      → IsUnordered hdr
      → let (impl₁, conn₁) = process_acks now impl conn (channel hdr) hdr.ack hdr.ack_bits in
        process_from now from impl conn hdr payload
        ≡ some (
            store (push_receive impl₁ conn₁.address payload) (
              with_channel conn₁ reliable_unordered
                (received (channel_of conn₁ reliable_unordered) hdr.sequence)))
  unfolding process_from process_acked code of_code
  process_from-unordered now from impl conn hdr payload w =
      rw (w.channel, receive_type-unordered now from _ _ hdr payload w) refl

  pushed :
      (impl : Impl) (conn : Connection) (payload : List ℕ) (from : env.Address)
      (queue : List (env.Address × List ℕ))
      → impl.receive_queue ≡ queue
      → conn.address ≡ from
      → (push_receive impl conn.address payload).receive_queue ≡ queue ++ ((from, payload) ∷ [])
  unfolding push_receive
  pushed impl conn payload from queue q a = rw (q, a) refl

  written :
      (later : env.Double) (from : env.Address) (impl : Impl) (conn : Connection) (payload : List ℕ)
      (c' : Connection) (c : Connection)
      → c'.address ≡ from
      → find_connection from impl.connections ≡ some c
      → unordered_channel later from (store (push_receive impl conn.address payload) c')
        ≡ channel_of c' reliable_unordered
  unfolding push_receive unordered_channel
  written later from impl conn payload c' c a f =
      ap (λ c. channel_of c reliable_unordered)
        (connection_of-write later from c c' impl.connections a f)

  -- Every whole user packet of the reliable-unordered channel is delivered at once, in any state of
  -- the channel; after it the channel's acknowledgement covers its sequence number and also, above 0,
  -- the number before it, whether or not that one ever arrived.
  pub process_unordered :
      (now : env.Double) (impl : Impl) (from : env.Address) (hdr : PacketHeader) (payload : List ℕ)
      → IsUnordered hdr
      → (impl' : Impl) × (process_packet now impl from hdr payload ≡ some impl')
        × (impl'.receive_queue ≡ impl.receive_queue ++ ((from, payload) ∷ []))
        × ((later : env.Double)
            → let c = unordered_channel later from impl' in
              (is_acked c.remote_seq c.ack_bits hdr.sequence ≡ true)
              × (0 < hdr.sequence → is_acked c.remote_seq c.ack_bits (hdr.sequence - 1) ≡ true))
  process_unordered now impl from hdr payload w = (
    store (push_receive a.0 a.1.address payload) conn',
    process_packet-from now impl from hdr payload w.protocol_id
        ∙ process_from-unordered now from g.0 conn hdr payload w,
    pushed a.0 a.1 payload from impl.receive_queue (frame.receive_queue ∙ made.3)
        (frame.address ∙ made.2),
    λ later.
        rw
          (written later from a.0 a.1 payload conn' g.1 (frame.address ∙ made.2)
            (ap (find_connection from) frame.connections ∙ made.1))
          (acks_self hdr.sequence _, acks_before hdr.sequence _),
  )
    where
      g : Impl × Connection
      g = get_or_create_connection now from impl

      made :
          (g.1 ≡ connection_of now from impl.connections)
          × (find_connection from g.0.connections ≡ some g.1)
          × (g.1.address ≡ from)
          × (g.0.receive_queue ≡ impl.receive_queue)
          × (g.0.fragment_assemblies ≡ impl.fragment_assemblies)
      made = get_or_create_lem now from impl

      conn : Connection
      conn = touched now g.1

      a : Impl × Connection
      a = process_acks now g.0 conn (channel hdr) hdr.ack hdr.ack_bits

      frame : IsFrame g.0 a.0 conn a.1
      frame = process_acks-IsFrame now g.0 conn (channel hdr) hdr.ack hdr.ack_bits

      conn' : Connection
      conn' =
          with_channel a.1 reliable_unordered
            (received (channel_of a.1 reliable_unordered) hdr.sequence)
