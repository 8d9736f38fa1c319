-- ===== src/Udp/Process/Repeated.antt =====
-- A reliable-ordered packet with the sequence number delivered last, such as a further fragment.
use campello_net.Prelude.{ℕ, ◌<◌, ◌^◌, ◌≡◌, refl, ap, ◌∙◌, some, List, arith}
use campello_net.Packet.{
  PacketHeader, reliable_ordered, fragment, type_code, protocol, reliability, channel, of_code,
  code,
}
use campello_net.Udp.State.{Env, Connection, Impl, channel_of}
use campello_net.Udp.Acks.{process_acks}
use campello_net.Udp.Acks.Laws.{IsFrame, process_acks-IsFrame}
use campello_net.Udp.Process.Table.{
  connection_of, connection_of-write, get_or_create_lem, process_packet-from,
}
use campello_net.Udp.Process.Ordered.{last_ordered}
use campello_net.Udp.Process.{
  find_connection, store, get_or_create_connection, receive_ordered, receive_data, receive_type,
  process_acked, process_from, process_packet, touched,
}

-- A fragment of a reliable-ordered message of several fragments.
pub record IsOrderedFragment (hdr : PacketHeader) : Type 0 where
  pub protocol_id : hdr.protocol_id ≡ protocol
  pub packet_type : hdr.packet_type ≡ type_code fragment
  pub reliability : reliability hdr ≡ reliable_ordered
  pub channel : channel hdr ≡ code reliable_ordered
  pub sequence : hdr.sequence < 2 ^ 16
  pub frag_count : 1 < hdr.frag_count

module _ ⦃env : Env⦄ where
  receive_type-repeated :
      (now : env.Double) (from : env.Address) (impl : Impl) (conn : Connection) (hdr : PacketHeader)
      (payload : List ℕ)
      → IsOrderedFragment hdr
      → (channel_of conn reliable_ordered).remote_seq ≡ hdr.sequence
      → receive_type now from impl conn reliable_ordered hdr payload ≡ some (impl, conn)
  unfolding receive_type receive_data receive_ordered
  receive_type-repeated now from impl conn hdr payload w last = ground arith

  process_acked-repeated :
      (now : env.Double) (from : env.Address) (p : Impl × Connection) (hdr : PacketHeader)
      (payload : List ℕ)
      → IsOrderedFragment hdr
      → (channel_of p.1 reliable_ordered).remote_seq ≡ hdr.sequence
      → process_acked now from p hdr payload ≡ some (store p.0 p.1)
  unfolding process_acked code of_code
  process_acked-repeated now from (impl, conn) hdr payload w last =
      rw (w.channel, receive_type-repeated now from impl conn hdr payload w last) refl

  process_from-repeated :
      (now : env.Double) (from : env.Address) (impl : Impl) (conn : Connection) (hdr : PacketHeader)
      (payload : List ℕ)
      → IsOrderedFragment hdr
      → let (impl₁, conn₁) = process_acks now impl conn (channel hdr) hdr.ack hdr.ack_bits in
        (channel_of conn₁ reliable_ordered).remote_seq ≡ hdr.sequence
        → process_from now from impl conn hdr payload ≡ some (store impl₁ conn₁)
  unfolding process_from code
  process_from-repeated now from impl conn hdr payload w last = ground (
    arith,
    w.channel,
    process_acked-repeated now from (process_acks now impl conn (channel hdr) hdr.ack hdr.ack_bits)
        hdr payload w last,
  )

  -- Once the ordered channel has taken a packet of some sequence number, as the first fragment of a
  -- message is, a fragment with that number is dropped: neither the receive queue nor the fragments
  -- collected so far change, and the channel's last number stays.
  pub process_repeated :
      (now : env.Double) (impl : Impl) (from : env.Address) (hdr : PacketHeader) (payload : List ℕ)
      → IsOrderedFragment hdr
      → last_ordered now from impl ≡ hdr.sequence
      → (impl' : Impl) × (process_packet now impl from hdr payload ≡ some impl')
        × (impl'.receive_queue ≡ impl.receive_queue)
        × (impl'.fragment_assemblies ≡ impl.fragment_assemblies)
        × ((later : env.Double) → last_ordered later from impl' ≡ hdr.sequence)
  unfolding last_ordered
  process_repeated now impl from hdr payload w at = (
    store a.0 a.1,
    process_packet-from now impl from hdr payload w.protocol_id
        ∙ process_from-repeated now from g.0 conn hdr payload w last,
    frame.receive_queue ∙ made.3,
    frame.assemblies ∙ made.4,
    λ later.
        ap (λ c. (channel_of c reliable_ordered).remote_seq)
          (connection_of-write later from g.1 a.1 a.0.connections (frame.address ∙ made.2)
            (ap (find_connection from) frame.connections ∙ made.1))
        ∙ last,
  )
    where
      g : Impl × Connection
      g = get_or_create_connection now from impl

      made :
          (g.1 ≡ connection_of now from impl.connections)
          × (find_connection from g.0.connections ≡ some g.1)
          × (g.1.address ≡ from)
          × (g.0.receive_queue ≡ impl.receive_queue)
          × (g.0.fragment_assemblies ≡ impl.fragment_assemblies)
      made = get_or_create_lem now from impl

      conn : Connection
      conn = touched now g.1

      a : Impl × Connection
      a = process_acks now g.0 conn (channel hdr) hdr.ack hdr.ack_bits

      frame : IsFrame g.0 a.0 conn a.1
      frame = process_acks-IsFrame now g.0 conn (channel hdr) hdr.ack hdr.ack_bits

      last : (channel_of a.1 reliable_ordered).remote_seq ≡ hdr.sequence
      last =
          frame.remote_seq reliable_ordered
          ∙ ap (λ c. (channel_of c reliable_ordered).remote_seq) made.0
          ∙ at
