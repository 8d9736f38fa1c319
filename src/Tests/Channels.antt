-- ===== src/Tests/Channels.antt =====
-- Bandwidth, fragments and the other channels at concrete inputs.
use campello_net.Prelude.{
  ℕ, ◌-◌, ◌^◌, ◌≡◌, ◌⊎◌, ◌<◌, ◌≤◌, refl, true, false, some, [], ◌∷◌, ◌++◌, arith, replicate, List,
  map,
}
use campello_net.Packet.{
  PacketHeader, PacketReliability, unreliable, reliable_ordered, reliable_unordered,
  unreliable_sequenced, code, of_code, reliability, channel,
}
use campello_net.Udp.State.{
  Impl, Connection, channel_of, fresh_connection, fresh_channel, fresh_channels,
}
use campello_net.Udp.Acks.{is_acked}
use campello_net.Udp.Bandwidth.{check_and_consume_bandwidth, reset_bandwidth_counters, exceeds}
use campello_net.Udp.Bandwidth.Limits.{IsLimited, check_and_consume-IsLimited}
use campello_net.Udp.Send.{fragments_of, send_to_connection}
use campello_net.Udp.Send.Rounds.{AreNumbered, packet_bytes, payload_of}
use campello_net.Udp.Send.Fragments.{send_to_connection-fragments}
use campello_net.Udp.Receive.{
  join, process_payload, process_fragment, deliver_if_full, find_or_create_fragment_assembly,
  find_assembly, write_assembly,
}
use campello_net.Udp.Receive.Mask.{process_payload_wide}
use campello_net.Udp.Process.{process_packet, find_connection}
use campello_net.Udp.Process.Table.{connection_of}
use campello_net.Udp.Process.Ordered.{last_ordered}
use campello_net.Udp.Process.Unordered.{IsUnordered, unordered_channel, process_unordered}
use campello_net.Udp.Process.Repeated.{IsOrderedFragment, process_repeated}
use campello_net.Tests.World.{test_env, server_impl, header}

-- A connection that may send 100 bytes in a second.
abbrev limited : Connection
limited = record (fresh_connection 7 0) { global_bandwidth_limit = 100 }

limited-IsLimited : IsLimited limited
limited-IsLimited = record {
  width = omega arith;
  widths = λ r. widths r;
  global = λ p. omega arith;
  each = λ r p. each r;
}
  where
    widths : (r : PacketReliability) → (channel_of limited r).bandwidth_limit < 2 ^ 32
    widths unreliable = omega arith
    widths reliable_ordered = omega arith
    widths reliable_unordered = omega arith
    widths unreliable_sequenced = omega arith

    each :
        (r : PacketReliability)
        → (channel_of limited r).bytes_sent_this_second ≤ (channel_of limited r).bandwidth_limit
    each unreliable = omega arith
    each reliable_ordered = omega arith
    each reliable_unordered = omega arith
    each unreliable_sequenced = omega arith

check_and_consume-IsLimited_example :
    IsLimited (check_and_consume_bandwidth 5 limited unreliable 60).0
    × ((check_and_consume_bandwidth 5 limited unreliable 60).1 ≡ false
        → let c = reset_bandwidth_counters limited 5 in
          ((check_and_consume_bandwidth 5 limited unreliable 60).0 ≡ c)
          × ((exceeds c.global_bandwidth_limit c.bytes_sent_this_second 60 ≡ true)
              ⊎ (exceeds
                    (channel_of c unreliable).bandwidth_limit
                    (channel_of c unreliable).bytes_sent_this_second
                    60
                  ≡ true)))
check_and_consume-IsLimited_example =
    check_and_consume-IsLimited 5 limited unreliable 60 limited-IsLimited

-- A message of two packets.
abbrev long : List ℕ
long = replicate 1200 7

send_to_connection-fragments_example :
    (packets : List (PacketHeader × List ℕ)) × AreNumbered reliable_unordered 0
      (fragments_of long)
      1
      packets
    × (join (map payload_of packets) ≡ long)
    × (let (impl', conn', done) =
          send_to_connection 5 server_impl (fresh_connection 7 0) long reliable_unordered 0 in
        (done ≡ true)
        × (impl'.sent ≡ [] ++ map (λ packet. (7, packet_bytes packet)) packets)
        × (channel_of conn' reliable_unordered ≡ record fresh_channel {
          local_seq = 1;
          pending =
              record {
                sequence = 0;
                send_time = 5;
                retries = 0;
                bytes = long;
                fragmented = true;
                priority = 0;
              }
              ∷ [];
        }))
send_to_connection-fragments_example =
    send_to_connection-fragments (λ sent d. refl) 5 server_impl (fresh_connection 7 0) long
      reliable_unordered 0 refl refl refl (omega arith) (omega arith)

header-IsUnordered : IsUnordered (header 0 10 6 0 0)
unfolding reliability channel code of_code
header-IsUnordered = record {
  protocol_id = refl;
  packet_type = refl;
  reliability = refl;
  channel = refl;
  frag_count = omega arith;
}

process_unordered_example :
    (impl' : Impl) × (process_packet 5 server_impl 7 (header 0 10 6 0 0) (3 ∷ []) ≡ some impl')
    × (impl'.receive_queue ≡ server_impl.receive_queue ++ ((7, 3 ∷ []) ∷ []))
    × ((later : ℕ)
        → let c = unordered_channel later 7 impl' in
          (is_acked c.remote_seq c.ack_bits 6 ≡ true)
          × (0 < 6 → is_acked c.remote_seq c.ack_bits (6 - 1) ≡ true))
process_unordered_example =
    process_unordered 5 server_impl 7 (header 0 10 6 0 0) (3 ∷ []) header-IsUnordered

-- The second of two fragments, after the first took the sequence number 0.
abbrev after_first : Impl
after_first = record server_impl {
  connections =
      record (fresh_connection 7 0) {
        channels = record fresh_channels { for_ordered = record fresh_channel { remote_seq = 0 } };
      }
      ∷ [];
}

header-IsOrderedFragment : IsOrderedFragment (header 4 5 0 2 2)
unfolding reliability channel code of_code
header-IsOrderedFragment = record {
  protocol_id = refl;
  packet_type = refl;
  reliability = refl;
  channel = refl;
  sequence = omega arith;
  frag_count = omega arith;
}

last_ordered-after_first : last_ordered 5 7 after_first ≡ 0
unfolding last_ordered connection_of find_connection
last_ordered-after_first = refl

process_repeated_example :
    (impl' : Impl) × (process_packet 5 after_first 7 (header 4 5 0 2 2) (3 ∷ []) ≡ some impl')
    × (impl'.receive_queue ≡ after_first.receive_queue)
    × (impl'.fragment_assemblies ≡ after_first.fragment_assemblies)
    × ((later : ℕ) → last_ordered later 7 impl' ≡ 0)
process_repeated_example =
    process_repeated 5 after_first 7 (header 4 5 0 2 2) (3 ∷ []) header-IsOrderedFragment
      last_ordered-after_first

-- The first fragment of nine is stored.
abbrev stored : Impl
stored = record server_impl {
  fragment_assemblies =
      record {
        address = 7;
        base_sequence = 4;
        frag_count = 9;
        received_mask = 1;
        start_time = 5;
        fragments = (3 ∷ []) ∷ replicate 8 [];
      }
      ∷ [];
}

process_payload-stored :
    process_payload 5 server_impl (fresh_connection 7 0) (header 4 0 4 1 9) (3 ∷ []) ≡ some stored
unfolding process_payload process_fragment deliver_if_full find_or_create_fragment_assembly
    find_assembly write_assembly
process_payload-stored = refl

process_payload_wide_example : stored.receive_queue ≡ server_impl.receive_queue
process_payload_wide_example =
    process_payload_wide 5 server_impl stored (fresh_connection 7 0) (header 4 0 4 1 9) (3 ∷ [])
      (omega arith) process_payload-stored
