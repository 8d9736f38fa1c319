-- ===== src/Udp/Process.antt =====
-- `process_packet`: one datagram, from its header to what is delivered.
pub mod Table
pub mod Ordered
pub mod Repeated
pub mod Unordered
pub mod Sequenced
use campello_net.Prelude.{
  ℕ, ◌+◌, Bool, true, false, not, Option, none, some, List, [], ◌∷◌, ◌++◌, ◌==◌, ◌!=◌, ltb, leb,
  if◌then◌else◌, bit_or, u16, u32, ◌<<◌,
}
use mathlib.Core.Option
use campello_net.Packet.{
  PacketHeader, PacketReliability, unreliable, reliable_ordered, reliable_unordered,
  unreliable_sequenced, handshake, disconnect, ack, type_code, protocol, reliability, channel,
  of_code,
}
use campello_net.Udp.State.{
  Env, BufferedPacket, Channel, Connection, Phase, connecting, connected, disconnecting, Impl,
  channel_of, with_channel, fresh_connection,
}
use campello_net.Udp.Acks.{process_acks}
use campello_net.Udp.Send.{send_handshake}
use campello_net.Udp.Receive.{has_buffered, process_payload}

-- `(ack_bits << 1) | 1` on 32 bits.
unfoldable pub shift_in : ℕ → ℕ
shift_in ack_bits = bit_or (u32 (ack_bits << 1)) 1

-- A connection that waits for its handshake is connected; any other keeps its state.
abbrev pub after_handshake : Phase → Phase
after_handshake connecting = connected
after_handshake connected = connected
after_handshake disconnecting = disconnecting

module _ ⦃env : Env⦄ where
  -- `find_connection`, and the list after a write through the pointer.
  unfoldable pub find_connection : env.Address → List Connection → Option Connection
  find_connection addr [] = none
  find_connection addr (c ∷ cs) =
      if env.same_address c.address addr then some c else find_connection addr cs

  unfoldable pub write_connection : Connection → List Connection → List Connection
  write_connection c' [] = []
  write_connection c' (c ∷ cs) =
      if env.same_address c.address c'.address then c' ∷ cs else c ∷ write_connection c' cs

  abbrev pub store : Impl → Connection → Impl
  store impl conn = record impl { connections = write_connection conn impl.connections }

  unfoldable pub get_or_create_connection : env.Double → env.Address → Impl → Impl × Connection
  get_or_create_connection now addr impl = elim (find_connection addr impl.connections) [
    | some c ↦ (impl, c)
    | none ↦ (
      record impl { connections = impl.connections ++ (fresh_connection addr now ∷ []) },
      fresh_connection addr now,
    )
  ]

  -- The channel as it is after a delivery in order.
  abbrev pub received : Channel → ℕ → Channel
  received c seq = record c { remote_seq = seq; ack_bits = shift_in c.ack_bits }

  abbrev pub buffer_packet : Channel → ℕ → List ℕ → Channel
  buffer_packet c seq payload = if has_buffered seq c.receive_buffer then c else record c {
    receive_buffer =
        c.receive_buffer
        ++ (record { sequence = seq; frag_index = 0; frag_count = 1; bytes = payload } ∷ []);
  }

  -- `process_payload`, beside the connection with its channel `ch` replaced.
  abbrev pub deliver :
      env.Double
      → Impl
      → Connection
      → PacketReliability
      → Channel
      → PacketHeader
      → List ℕ
      → Option (Impl × Connection)
  deliver now impl conn ch c hdr payload =
      Option.map (λ impl'. (impl', with_channel conn ch c))
        (process_payload now impl conn hdr payload)

  -- The branch for each reliability; `ch` is the channel of the header.
  unfoldable pub receive_ordered :
      env.Double
      → Impl
      → Connection
      → PacketReliability
      → PacketHeader
      → List ℕ
      → Option (Impl × Connection)
  receive_ordered now impl conn ch hdr payload =
      let c = channel_of conn ch in
      let expected = u16 (c.remote_seq + 1) in
      if hdr.sequence == expected
      then deliver now impl conn ch (received c hdr.sequence) hdr payload
      else if ltb expected hdr.sequence
      then some (
        impl,
        if leb hdr.frag_count 1
            then with_channel conn ch (buffer_packet c hdr.sequence payload)
            else conn,
      )
      else some (impl, conn)

  unfoldable pub receive_data :
      env.Double
      → Impl
      → Connection
      → PacketReliability
      → PacketHeader
      → List ℕ
      → Option (Impl × Connection)
  receive_data now impl conn ch hdr payload =
      let c = channel_of conn ch in
      elim (reliability hdr) [
        | reliable_ordered ↦ receive_ordered now impl conn ch hdr payload
        | reliable_unordered ↦ deliver now impl conn ch (received c hdr.sequence) hdr payload
        | unreliable_sequenced ↦
            if leb hdr.sequence c.remote_seq
            then some (impl, conn)
            else deliver now impl conn ch (record c { remote_seq = hdr.sequence }) hdr payload
        | unreliable ↦ deliver now impl conn ch c hdr payload
      ]

  -- The dispatch on the packet's type.
  unfoldable pub receive_type :
      env.Double
      → env.Address
      → Impl
      → Connection
      → PacketReliability
      → PacketHeader
      → List ℕ
      → Option (Impl × Connection)
  receive_type now from impl conn ch hdr payload =
      if hdr.packet_type == type_code handshake
      then some (send_handshake impl from, record conn { phase = after_handshake conn.phase })
      else if hdr.packet_type == type_code disconnect
      then some (impl, record conn { phase = disconnecting })
      else if hdr.packet_type == type_code ack
      then some (impl, conn)
      else receive_data now impl conn ch hdr payload

  -- What follows `process_acks`; the connection is written back to the table at the end.
  unfoldable pub process_acked :
      env.Double → env.Address → Impl × Connection → PacketHeader → List ℕ → Option Impl
  process_acked now from (impl, conn) hdr payload =
      Option.map (λ r. store r.0 r.1)
        (receive_type now from impl conn (of_code (channel hdr)) hdr payload)

  -- What follows the search of the connection. The channel of a header is never 4 or more.
  unfoldable pub process_from :
      env.Double → env.Address → Impl → Connection → PacketHeader → List ℕ → Option Impl
  process_from now from impl conn hdr payload =
      if leb 4 (channel hdr)
      then some (store impl conn)
      else process_acked now from (process_acks now impl conn (channel hdr) hdr.ack hdr.ack_bits)
          hdr payload

  abbrev pub touched : env.Double → Connection → Connection
  touched now conn = record conn { last_recv_time = now }

  unfoldable pub process_packet :
      env.Double → Impl → env.Address → PacketHeader → List ℕ → Option Impl
  process_packet now impl from hdr payload =
      let (impl', found) = get_or_create_connection now from impl in
      if hdr.protocol_id != protocol
      then some impl
      else process_from now from impl' (touched now found) hdr payload
