-- ===== src/Udp/Send/Fragments.antt =====
-- The datagrams of a message that `send_to_connection` cuts into fragments.
use campello_net.Prelude.{
  ℕ, zero, suc, ◌+◌, ◌*◌, ◌≤◌, ◌<◌, ◌≡◌, refl, ap, sym, subst, ◌∙◌, Bool, true, false, not, List,
  [], ◌∷◌, ◌++◌, map, arith, length, drop, length-take, append-nil, append_assoc, ltb, leb, u16,
  u64, if_true, if_false, le→ltb,
}
use campello_net.Packet.{
  PacketHeader, PacketReliability, max_payload_size, max_packet_size, header_size,
}
use campello_net.Udp.State.{
  Env, Channel, Connection, Impl, channel_of, get_channel, is_reliable, get-set_self,
}
use campello_net.Udp.Receive.{join}
use campello_net.Udp.Send.{
  slice, fragments_of, fragment_header, advance_seq, push_pending, new_pending, send_raw,
  send_allowed, send_fragment, send_fragments, send_fragmented, send_to_connection, is_open,
}
use campello_net.Udp.Send.Rounds.{
  packet_bytes, payload_of, AreNumbered, rounds, join-rounds, rounds-AreNumbered,
}

-- A socket that is open and takes every datagram.
module _ ⦃env : Env⦄
    (accepts : (sent : List (env.Address × List ℕ)) (d : env.Address × List ℕ)
      → env.sendto sent d ≡ true) where
  send_raw-accepted :
      (impl : Impl) (to : env.Address) (hdr : PacketHeader) (payload : List ℕ)
      → impl.socket_open ≡ true
      → header_size + length payload ≤ max_packet_size
      → send_raw impl to hdr payload ≡ (
        record impl {
          sent = impl.sent ++ ((to, packet_bytes (hdr, payload)) ∷ []);
          packets_sent = u64 (impl.packets_sent + 1);
        },
        true,
      )
  unfolding send_raw
  send_raw-accepted impl to hdr payload o h =
      if_false _ _ (not impl.socket_open) (ap not o)
      ∙ if_false _ _ (ltb max_packet_size (header_size + length payload))
          (le→ltb max_packet_size (header_size + length payload) h)
      ∙ if_true _ _ (env.sendto impl.sent (to, packet_bytes (hdr, payload))) (accepts _ _)

  -- One round sends its packet and does nothing else.
  send_fragment-accepted :
      (now : env.Double) (impl : Impl) (conn : Connection) (bytes : List ℕ) (r : PacketReliability)
      (base num i : ℕ)
      → is_reliable r ≡ true
      → impl.socket_open ≡ true
      → length (slice i bytes) ≤ max_payload_size
      → send_fragment now impl conn bytes r base num i ≡ (
        record impl {
          sent =
              impl.sent
              ++ ((
                conn.address,
                packet_bytes (
                  fragment_header (channel_of conn r) r base i num (length (slice i bytes)),
                  slice i bytes,
                ),
              )
                  ∷ []);
          packets_sent = u64 (impl.packets_sent + 1);
        },
        record conn { last_send_time = now },
        true,
      )
  unfolding send_fragment
  send_fragment-accepted now impl conn bytes r base num i e o h =
      let payload = slice i bytes in
      let hdr = fragment_header (channel_of conn r) r base i num (length payload) in
      ap (send_allowed now impl hdr payload) (if_true _ _ (is_reliable r) e)
      ∙ ap (λ (sent : Impl × Bool). (sent.0, record conn { last_send_time = now }, sent.1))
          (send_raw-accepted impl conn.address hdr payload o (omega (arith, h)))

  abbrev resume :
      env.Double
      → List ℕ
      → PacketReliability
      → (base num i left : ℕ) → Impl × Connection × Bool
      → Impl × Connection × Bool
  resume now bytes r base num i left (impl, conn, done) = elim done [
    | true ↦ send_fragments now bytes r base num (i + 1) left impl conn
    | false ↦ (impl, conn, false)
  ]

  -- What a result says of a run that sent some packets and changed no channel.
  abbrev HasSent :
      Impl → Connection → List (PacketHeader × List ℕ) → Impl × Connection × Bool → Type 0
  HasSent impl conn packets (impl', conn', done) =
      (done ≡ true)
      × (impl'.sent ≡ impl.sent ++ map (λ packet. (conn.address, packet_bytes packet)) packets)
      × (conn'.channels ≡ conn.channels)

  send_fragments-HasSent :
      (now : env.Double) (bytes : List ℕ) (r : PacketReliability) (base num i left : ℕ)
      (impl : Impl) (conn : Connection)
      → is_reliable r ≡ true
      → impl.socket_open ≡ true
      → HasSent impl conn
          (rounds (channel_of conn r) r base num i left bytes)
          (send_fragments now bytes r base num i left impl conn)
  unfolding send_fragments rounds
  send_fragments-HasSent now bytes r base num i zero impl conn e o =
      (refl, sym (append-nil impl.sent), refl)
  send_fragments-HasSent now bytes r base num i (suc left) impl conn e o =
      let payload = slice i bytes in
      let packet : PacketHeader × List ℕ =
        (fragment_header (channel_of conn r) r base i num (length payload), payload) in
      let first : List (env.Address × List ℕ) = (conn.address, packet_bytes packet) ∷ [] in
      let sent : Impl = record impl {
        sent = impl.sent ++ first;
        packets_sent = u64 (impl.packets_sent + 1);
      } in
      let rest =
        send_fragments-HasSent now bytes r base num (i + 1) left sent
          (record conn { last_send_time = now }) e o in
      subst (HasSent impl conn (rounds (channel_of conn r) r base num i (suc left) bytes))
        (sym (
          ap (resume now bytes r base num i left) (
            send_fragment-accepted now impl conn bytes r base num i e o
              (omega (arith, length-take max_payload_size (drop (i * max_payload_size) bytes))))))
        (rest.0, rest.1 ∙ append_assoc impl.sent first _, rest.2)

  -- The connection at the start of the loop.
  abbrev queued : env.Double → Connection → List ℕ → PacketReliability → ℕ → Connection
  queued now conn bytes r priority =
      push_pending (advance_seq conn r) r
        (new_pending now (channel_of conn r).local_seq bytes true priority)

  queued-channel :
      (now : env.Double) (conn : Connection) (bytes : List ℕ) (r : PacketReliability) (priority : ℕ)
      → channel_of (queued now conn bytes r priority) r ≡ record (channel_of conn r) {
        local_seq = u16 ((channel_of conn r).local_seq + 1);
        pending =
            (channel_of conn r).pending
            ++ (new_pending now (channel_of conn r).local_seq bytes true priority ∷ []);
      }
  queued-channel now conn bytes r priority =
      let p = new_pending now (channel_of conn r).local_seq bytes true priority in
      get-set_self (advance_seq conn r).channels r _
      ∙ ap (λ (c : Channel). record c { pending = c.pending ++ (p ∷ []) })
          (get-set_self conn.channels r _)

  send_to_connection-cut :
      (now : env.Double) (impl : Impl) (conn : Connection) (bytes : List ℕ) (r : PacketReliability)
      (priority : ℕ)
      → is_open conn.phase ≡ true
      → is_reliable r ≡ true
      → max_payload_size < length bytes
      → length bytes ≤ 255 * max_payload_size
      → send_to_connection now impl conn bytes r priority
        ≡ send_fragments now bytes r
            (channel_of conn r).local_seq
            (fragments_of bytes)
            0
            (fragments_of bytes)
            impl
            (queued now conn bytes r priority)
  unfolding send_to_connection send_fragmented
  send_to_connection-cut now impl conn bytes r priority live e h g =
      if_false _ _ (not (is_open conn.phase)) (ap not live)
      ∙ if_false _ _ (leb (length bytes) max_payload_size) (ground arith)
      ∙ if_false _ _ (ltb 255 (fragments_of bytes)) (le→ltb 255 (fragments_of bytes) (omega arith))
      ∙ ap
          (send_fragments now bytes r (channel_of conn r).local_seq (fragments_of bytes) 0
            (fragments_of bytes) impl)
          (if_true _ _ (is_reliable r) e)

  -- A message of more than one packet and at most 255, which an open socket that takes every datagram
  -- sends on a reliable channel of a connection that is not being closed: the datagrams are those of
  -- fragments that are numbered from 1 to their count, and their payloads, one after the other, are the
  -- message. The message waits to be acknowledged under the sequence number of the fragments.
  pub send_to_connection-fragments :
      (now : env.Double) (impl : Impl) (conn : Connection) (bytes : List ℕ) (r : PacketReliability)
      (priority : ℕ)
      → is_open conn.phase ≡ true
      → is_reliable r ≡ true
      → impl.socket_open ≡ true
      → max_payload_size < length bytes
      → length bytes ≤ 255 * max_payload_size
      → (packets : List (PacketHeader × List ℕ)) × AreNumbered r
          (channel_of conn r).local_seq
          (fragments_of bytes)
          1
          packets
        × (join (map payload_of packets) ≡ bytes)
        × (let (impl', conn', done) = send_to_connection now impl conn bytes r priority in
            (done ≡ true)
            × (impl'.sent
                ≡ impl.sent ++ map (λ packet. (conn.address, packet_bytes packet)) packets)
            × (channel_of conn' r ≡ record (channel_of conn r) {
              local_seq = u16 ((channel_of conn r).local_seq + 1);
              pending =
                  (channel_of conn r).pending
                  ++ (record {
                    sequence = (channel_of conn r).local_seq;
                    send_time = now;
                    retries = 0;
                    bytes = bytes;
                    fragmented = true;
                    priority = priority;
                  }
                      ∷ []);
            }))
  send_to_connection-fragments now impl conn bytes r priority live e o h g = (
    packets,
    rounds-AreNumbered c r base num bytes 0 num (omega arith) (omega arith) (omega arith),
    join-rounds c r base num bytes 0 num (omega arith),
    subst
        (λ (result : Impl × Connection × Bool).
          (result.2 ≡ true)
          × (result.0.sent
              ≡ impl.sent ++ map (λ packet. (conn.address, packet_bytes packet)) packets)
          × (channel_of result.1 r ≡ waiting))
        (sym (send_to_connection-cut now impl conn bytes r priority live e h g))
        (
          sent.0,
          sent.1,
          ap (λ cs. get_channel cs r) sent.2 ∙ queued-channel now conn bytes r priority,
        ),
  )
    where
      base : ℕ
      base = (channel_of conn r).local_seq

      num : ℕ
      num = fragments_of bytes

      c : Channel
      c = channel_of (queued now conn bytes r priority) r

      packets : List (PacketHeader × List ℕ)
      packets = rounds c r base num 0 num bytes

      waiting : Channel
      waiting = record (channel_of conn r) {
        local_seq = u16 ((channel_of conn r).local_seq + 1);
        pending = (channel_of conn r).pending ++ (new_pending now base bytes true priority ∷ []);
      }

      sent :
          HasSent impl
            (queued now conn bytes r priority)
            packets
            (send_fragments now bytes r base num 0 num impl (queued now conn bytes r priority))
      sent =
          send_fragments-HasSent now bytes r base num 0 num impl (queued now conn bytes r priority)
            e o
