-- ===== src/Udp/Send.antt =====
-- What leaves the socket: `send_raw`, the control packets and `send_to_connection`.
pub mod Rounds
pub mod Fragments
use campello_net.Prelude.{
  ℕ, zero, suc, ◌+◌, ◌-◌, ◌*◌, ◌/◌, Bool, true, false, not, List, [], ◌∷◌, ◌++◌, ltb, leb,
  if◌then◌else◌, u8, u16, u64, length, take, drop,
}
use campello_net.Packet.{
  PacketHeader, PacketReliability, unreliable, user, handshake, disconnect, ack, fragment,
  type_code, code, fresh_header, set_reliability, set_channel, header_bytes, header_size,
  max_packet_size, max_payload_size,
}
use campello_net.Udp.State.{
  Env, Pending, Channel, Connection, Phase, connecting, connected, disconnecting, Impl, channel_of,
  with_channel, is_reliable,
}
use campello_net.Udp.Bandwidth.{check_and_consume_bandwidth}

-- A fresh header with its type, and both fields of `flags` set to one reliability.
unfoldable pub typed_header : ℕ → PacketReliability → PacketHeader
typed_header packet_type r =
    set_channel (code r) (set_reliability r (record fresh_header { packet_type = packet_type }))

-- `data + offset`, `frag_len` bytes.
abbrev pub slice : ℕ → List ℕ → List ℕ
slice i bytes = take max_payload_size (drop (i * max_payload_size) bytes)

-- `(length + fragment_size - 1) / fragment_size`.
abbrev pub fragments_of : List ℕ → ℕ
fragments_of bytes = (length bytes + max_payload_size - 1) / max_payload_size

module _ ⦃env : Env⦄ where
  -- The socket takes the header and the payload as one datagram.
  unfoldable pub send_raw : Impl → env.Address → PacketHeader → List ℕ → Impl × Bool
  send_raw impl to hdr payload =
      let datagram : env.Address × List ℕ = (to, header_bytes hdr ++ payload) in
      let handed = record impl { sent = impl.sent ++ (datagram ∷ []) } in
      if not impl.socket_open
      then (impl, false)
      else if ltb max_packet_size (header_size + length payload)
      then (impl, false)
      else if env.sendto impl.sent datagram
      then (record handed { packets_sent = u64 (impl.packets_sent + 1) }, true)
      else (handed, false)

  unfoldable pub send_handshake : Impl → env.Address → Impl
  send_handshake impl to = (send_raw impl to (typed_header (type_code handshake) unreliable) []).0

  unfoldable pub send_disconnect : Impl → env.Address → Impl
  send_disconnect impl to = (send_raw impl to (typed_header (type_code disconnect) unreliable) []).0

  unfoldable pub keepalive_header : Connection → PacketHeader
  keepalive_header conn = record (typed_header (type_code ack) unreliable) {
    ack = (channel_of conn unreliable).remote_seq;
    ack_bits = (channel_of conn unreliable).ack_bits;
  }

  unfoldable pub send_keepalive : Impl → Connection → Impl
  send_keepalive impl conn = (send_raw impl conn.address (keepalive_header conn) []).0

  -- The header of a whole message, with the acknowledgement of its channel.
  unfoldable pub user_header : Channel → PacketReliability → ℕ → ℕ → PacketHeader
  user_header c r sequence len = record (typed_header (type_code user) r) {
    sequence = sequence;
    ack = c.remote_seq;
    ack_bits = c.ack_bits;
    payload_len = u16 len;
  }

  -- The header of the fragment that starts at `i * MAX_PAYLOAD_SIZE`.
  unfoldable pub fragment_header : Channel → PacketReliability → ℕ → ℕ → ℕ → ℕ → PacketHeader
  fragment_header c r sequence i num_fragments len = record (typed_header (type_code fragment) r) {
    sequence = sequence;
    ack = c.remote_seq;
    ack_bits = c.ack_bits;
    payload_len = u16 len;
    frag_index = u8 (i + 1);
    frag_count = u8 num_fragments;
  }

  -- `local_seq++` on 16 bits.
  abbrev pub advance_seq : Connection → PacketReliability → Connection
  advance_seq conn r =
      with_channel conn r
        (record (channel_of conn r) { local_seq = u16 ((channel_of conn r).local_seq + 1) })

  abbrev pub push_pending : Connection → PacketReliability → Pending → Connection
  push_pending conn r p =
      with_channel conn r
        (record (channel_of conn r) { pending = (channel_of conn r).pending ++ (p ∷ []) })

  abbrev pub new_pending : env.Double → ℕ → List ℕ → Bool → ℕ → Pending
  new_pending now sequence bytes fragmented priority = record {
    sequence = sequence;
    send_time = now;
    retries = 0;
    bytes = bytes;
    fragmented = fragmented;
    priority = priority;
  }

  -- `conn.last_send_time = now(); return send_raw(...)`.
  abbrev stamp_and_send :
      env.Double → Impl → Connection → PacketHeader → List ℕ → Impl × Connection × Bool
  stamp_and_send now impl conn hdr payload =
      let (impl', done) = send_raw impl conn.address hdr payload in
      (impl', record conn { last_send_time = now }, done)

  -- An unreliable packet is dropped where it exceeds a limit.
  abbrev pub send_allowed :
      env.Double → Impl → PacketHeader → List ℕ → Connection × Bool → Impl × Connection × Bool
  send_allowed now impl hdr payload (conn, allowed) =
      if allowed then stamp_and_send now impl conn hdr payload else (impl, conn, false)

  -- The branch for a message of at most `MAX_PAYLOAD_SIZE` bytes.
  unfoldable pub send_whole :
      env.Double → Impl → Connection → List ℕ → PacketReliability → ℕ → Impl × Connection × Bool
  send_whole now impl conn payload r priority =
      let c = channel_of conn r in
      let hdr = user_header c r c.local_seq (length payload) in
      let stepped = advance_seq conn r in
      if is_reliable r
      then stamp_and_send now impl
          (push_pending stepped r (new_pending now c.local_seq payload false priority)) hdr payload
      else send_allowed now impl hdr payload
          (check_and_consume_bandwidth now stepped r (header_size + length payload))

  -- One round of the fragment loop: `false` returns from the function.
  unfoldable pub send_fragment :
      env.Double
      → Impl
      → Connection
      → List ℕ
      → PacketReliability
      → ℕ
      → ℕ
      → ℕ
      → Impl × Connection × Bool
  send_fragment now impl conn bytes r base_sequence num_fragments i =
      let payload = slice i bytes in
      let hdr =
        fragment_header (channel_of conn r) r base_sequence i num_fragments (length payload) in
      send_allowed now impl hdr payload (
        if is_reliable r
        then (conn, true)
        else check_and_consume_bandwidth now conn r (header_size + max_payload_size))

  -- The loop, with `left` rounds to go.
  unfoldable pub send_fragments :
      env.Double
      → List ℕ
      → PacketReliability
      → ℕ
      → ℕ
      → ℕ
      → ℕ
      → Impl
      → Connection
      → Impl × Connection × Bool
  send_fragments now bytes r base num i zero impl conn = (impl, conn, true)
  send_fragments now bytes r base num i (suc left) impl conn =
      let (impl', conn', done) = send_fragment now impl conn bytes r base num i in
      elim done [
        | true ↦ send_fragments now bytes r base num (i + 1) left impl' conn'
        | false ↦ (impl', conn', false)
      ]

  unfoldable pub send_fragmented :
      env.Double → Impl → Connection → List ℕ → PacketReliability → ℕ → Impl × Connection × Bool
  send_fragmented now impl conn bytes r priority =
      let base = (channel_of conn r).local_seq in
      let stepped = advance_seq conn r in
      if ltb 255 (fragments_of bytes)
      then (impl, conn, false)
      else send_fragments now bytes r base (fragments_of bytes) 0 (fragments_of bytes) impl (
          if is_reliable r
          then push_pending stepped r (new_pending now base bytes true priority)
          else stepped)

  abbrev pub is_open : Phase → Bool
  is_open connecting = true
  is_open connected = true
  is_open disconnecting = false

  unfoldable pub send_to_connection :
      env.Double → Impl → Connection → List ℕ → PacketReliability → ℕ → Impl × Connection × Bool
  send_to_connection now impl conn bytes r priority =
      if not (is_open conn.phase)
      then (impl, conn, false)
      else if leb (length bytes) max_payload_size
      then send_whole now impl conn bytes r priority
      else send_fragmented now impl conn bytes r priority
