-- ===== src/Udp/Process/Sequenced.antt =====
-- The unreliable-sequenced channel: the test for stale packets, and its starting point.
use campello_net.Prelude.{ℕ, ◌^◌, ◌<◌, ◌≤◌, ◌≡◌, refl, ap, ◌∙◌, none, some, List, arith}
use campello_net.Packet.{
  PacketHeader, unreliable_sequenced, user, type_code, protocol, reliability, channel, of_code,
  code,
}
use campello_net.Udp.State.{Env, Connection, Impl, channel_of}
use campello_net.Udp.Acks.Laws.{process_acks_unreliable}
use campello_net.Udp.Process.Table.{
  connection_of, connection_of-write, get_or_create_lem, process_packet-from,
}
use campello_net.Udp.Process.{
  find_connection, store, get_or_create_connection, receive_data, receive_type, process_acked,
  process_from, process_packet, touched,
}

-- A user packet of the unreliable-sequenced channel, of any sequence number and payload.
pub record IsSequenced (hdr : PacketHeader) : Type 0 where
  pub protocol_id : hdr.protocol_id ≡ protocol
  pub packet_type : hdr.packet_type ≡ type_code user
  pub reliability : reliability hdr ≡ unreliable_sequenced
  pub channel : channel hdr ≡ code unreliable_sequenced
  pub sequence : hdr.sequence < 2 ^ 16

module _ ⦃env : Env⦄ where
  unfoldable pub last_sequenced : env.Double → env.Address → Impl → ℕ
  last_sequenced now addr impl =
      (channel_of (connection_of now addr impl.connections) unreliable_sequenced).remote_seq

  pub last_sequenced_fresh :
      (now : env.Double) (addr : env.Address) (impl : Impl)
      → find_connection addr impl.connections ≡ none
      → last_sequenced now addr impl ≡ 0xFFFF
  unfolding last_sequenced connection_of
  last_sequenced_fresh now addr impl e = rw (e, last_sequenced, connection_of) refl

  -- The branch that a stale packet takes.
  process_from_stale :
      (now : env.Double) (from : env.Address) (impl : Impl) (conn : Connection) (hdr : PacketHeader)
      (payload : List ℕ)
      → IsSequenced hdr
      → hdr.sequence ≤ (channel_of conn unreliable_sequenced).remote_seq
      → process_from now from impl conn hdr payload ≡ some (store impl conn)
  unfolding process_from process_acked receive_type receive_data code of_code
  process_from_stale now from impl conn hdr payload w stale =
      rw (w.channel, process_acks_unreliable now impl conn 3 hdr.ack hdr.ack_bits refl)
        (ground arith)

  -- A packet whose number is not above the channel's last one is dropped, and so is every packet
  -- while that last one is 0xFFFF: the sender's connection stays as it was but for its time.
  pub process_stale :
      (now : env.Double) (impl : Impl) (from : env.Address) (hdr : PacketHeader) (payload : List ℕ)
      → IsSequenced hdr
      → last_sequenced now from impl ≡ 0xFFFF
      → (impl' : Impl) × (process_packet now impl from hdr payload ≡ some impl')
        × (impl'.receive_queue ≡ impl.receive_queue)
        × ((later : env.Double) → last_sequenced later from impl' ≡ 0xFFFF)
  unfolding last_sequenced
  process_stale now impl from hdr payload w full =
      let g = get_or_create_connection now from impl in
      let made = get_or_create_lem now from impl in
      let last : (channel_of g.1 unreliable_sequenced).remote_seq ≡ 0xFFFF =
        ap (λ c. (channel_of c unreliable_sequenced).remote_seq) made.0 ∙ full in
      (
        store g.0 (touched now g.1),
        process_packet-from now impl from hdr payload w.protocol_id
            ∙ process_from_stale now from g.0 (touched now g.1) hdr payload w
                (omega (arith, last, w.sequence)),
        made.3,
        λ later.
            ap (λ c. (channel_of c unreliable_sequenced).remote_seq)
              (connection_of-write later from g.1 (touched now g.1) g.0.connections made.2 made.1)
            ∙ last,
      )
