-- ===== src/Tests/Transport.antt =====
-- The receive loop, the acknowledgements and the wire format at concrete inputs.
use campello_net.Prelude.{
  ℕ, ◌+◌, ◌≡◌, ◌↔◌, ◌⊎◌, ◌<◌, ◌≢◌, ◌≤◌, refl, true, false, none, some, List, [], ◌∷◌, ◌++◌, map,
  arith, length, take, drop, u64, u16, if◌then◌else◌, ◌==◌, replicate, All,
}
use campello_net.Packet.{
  PacketReliability, reliable_unordered, code, serialize, deserialize, reliability, channel,
  set_reliability, set_channel, of_code,
}
use campello_net.Packet.Wire.{deserialize-serialize}
use campello_net.Packet.Flags.{flags_roundtrip}
use campello_net.Udp.State.{Impl, channel_of}
use campello_net.Udp.Acks.{process_acks, is_acked}
use campello_net.Udp.Acks.Window.{HasBit, is_acked_iff}
use campello_net.Udp.Acks.Laws.{process_acks_lem, unacked}
use campello_net.Udp.Process.{process_packet, find_connection}
use campello_net.Udp.Process.Ordered.{IsOrdered, last_ordered, process_ordered}
use campello_net.Udp.Process.Sequenced.{IsSequenced}
use campello_net.Udp.Transport.{receive_loop}
use campello_net.Udp.Transport.InOrder.{
  Packet, datagram, IsMessage, delivered, receive_loop_in_order,
}
use campello_net.Udp.Transport.Stale.{receive_loop_stale}
use campello_net.Tests.World.{test_env, server_impl, header, header-IsHeader, waiting}

-- Messages 10 and 20, whose packets arrive in the wrong order and more than once.
abbrev messages : List (List ℕ)
messages = (10 ∷ []) ∷ (20 ∷ []) ∷ []

abbrev ordered : ℕ → ℕ → Packet
ordered sequence byte = (5, header 0 5 sequence 0 0, byte ∷ [])

abbrev arrivals : List Packet
arrivals = ordered 1 20 ∷ ordered 0 10 ∷ ordered 0 10 ∷ ordered 1 20 ∷ []

header-IsOrdered : (sequence : ℕ) → IsOrdered (header 0 5 sequence 0 0)
unfolding reliability channel code of_code
header-IsOrdered sequence = record {
  protocol_id = refl;
  packet_type = refl;
  reliability = refl;
  channel = refl;
  frag_count = omega arith;
}

ordered-IsMessage_one : IsMessage messages (ordered 1 20)
ordered-IsMessage_one = (
  header-IsHeader 0 5 1 0 0 (omega arith) (omega arith) (omega arith) (omega arith) (omega arith),
  header-IsOrdered 1,
  omega arith,
  refl,
)

ordered-IsMessage_zero : IsMessage messages (ordered 0 10)
ordered-IsMessage_zero = (
  header-IsHeader 0 5 0 0 0 (omega arith) (omega arith) (omega arith) (omega arith) (omega arith),
  header-IsOrdered 0,
  omega arith,
  refl,
)

arrivals-IsMessage : All (IsMessage messages) arrivals
arrivals-IsMessage = (
  ordered-IsMessage_one,
  (ordered-IsMessage_zero, (ordered-IsMessage_zero, (ordered-IsMessage_one, tt))),
)

unknown : find_connection 7 server_impl.connections ≡ none
unfolding find_connection
unknown = refl

receive_loop_in_order_example :
    (impl' : Impl) × (receive_loop (map (datagram 7) arrivals) server_impl ≡ some impl')
    × (delivered 0 arrivals ≤ length messages)
    × (impl'.receive_queue
        ≡ server_impl.receive_queue ++ map (λ m. (7, m)) (take (delivered 0 arrivals) messages))
receive_loop_in_order_example =
    receive_loop_in_order messages 7 arrivals server_impl (omega arith) arrivals-IsMessage unknown

process_ordered_example :
    (impl' : Impl) × (process_packet 5 server_impl 7 (header 0 5 0 0 0) (10 ∷ []) ≡ some impl')
    × (impl'.receive_queue ≡ (
        if 0 == u16 (last_ordered 5 7 server_impl + 1)
        then server_impl.receive_queue ++ ((7, 10 ∷ []) ∷ [])
        else server_impl.receive_queue))
    × ((later : ℕ)
        → last_ordered later 7 impl' ≡ (
            if 0 == u16 (last_ordered 5 7 server_impl + 1)
            then 0
            else last_ordered 5 7 server_impl))
process_ordered_example =
    process_ordered 5 server_impl 7 (header 0 5 0 0 0) (10 ∷ []) (header-IsOrdered 0)

header-IsSequenced : IsSequenced (header 0 15 9 0 0)
unfolding reliability channel code of_code
header-IsSequenced = record {
  protocol_id = refl;
  packet_type = refl;
  reliability = refl;
  channel = refl;
  sequence = omega arith;
}

receive_loop_stale_example :
    (impl' : Impl) × (receive_loop
        (map (datagram 7) ((5, header 0 15 9 0 0, 10 ∷ []) ∷ []))
        server_impl
      ≡ some impl')
    × (impl'.receive_queue ≡ server_impl.receive_queue)
receive_loop_stale_example =
    receive_loop_stale 7 ((5, header 0 15 9 0 0, 10 ∷ []) ∷ []) server_impl
      (
        (
          header-IsHeader 0 15 9 0 0 (omega arith) (omega arith) (omega arith) (omega arith)
              (omega arith),
          header-IsSequenced,
          omega arith,
        ),
        tt,
      )
      unknown

process_acks_lem_example :
    let (impl', conn') = process_acks 9 server_impl waiting (code reliable_unordered) 5 1 in
    (channel_of conn' reliable_unordered ≡ record (channel_of waiting reliable_unordered) {
      pending = unacked 5 1 (channel_of waiting reliable_unordered).pending;
    })
    × (u64 (impl'.packets_acked + length (channel_of conn' reliable_unordered).pending)
        ≡ u64 (server_impl.packets_acked + length (channel_of waiting reliable_unordered).pending))
    × (impl' ≡ record server_impl { packets_acked = impl'.packets_acked })
    × ((s : PacketReliability) → s ≢ reliable_unordered → channel_of conn' s ≡ channel_of waiting s)
    × (conn'.address ≡ waiting.address)
    × (conn'.phase ≡ waiting.phase)
process_acks_lem_example = process_acks_lem 9 server_impl waiting reliable_unordered 5 1 refl

-- Of the packets 3, 4 and 5, the acknowledgement of 5 with the bit of 4 leaves 3.
unacked_run : is_acked 5 1 3 ≡ false
unfolding is_acked
unacked_run = refl

deserialize-serialize_example :
    ((serialize (header 0 5 513 0 0) (replicate 20 9) 20).0 ≡ true)
    × (deserialize (serialize (header 0 5 513 0 0) (replicate 20 9) 20).1 16
        ≡ some (header 0 5 513 0 0))
    × (drop 16 (serialize (header 0 5 513 0 0) (replicate 20 9) 20).1 ≡ drop 16 (replicate 20 9))
deserialize-serialize_example =
    deserialize-serialize (header 0 5 513 0 0) (replicate 20 9) 20 16
      (header-IsHeader 0 5 513 0 0 (omega arith) (omega arith) (omega arith) (omega arith)
        (omega arith))
      (omega arith) (omega arith)

flags_roundtrip_example :
    (reliability (set_channel 6 (set_reliability reliable_unordered (header 0 255 0 0 0)))
      ≡ reliable_unordered)
    × (channel (set_channel 6 (set_reliability reliable_unordered (header 0 255 0 0 0))) ≡ 2)
    × (reliability (set_reliability reliable_unordered (set_channel 6 (header 0 255 0 0 0)))
        ≡ reliable_unordered)
    × (channel (set_reliability reliable_unordered (set_channel 6 (header 0 255 0 0 0))) ≡ 2)
flags_roundtrip_example = flags_roundtrip reliable_unordered 6 (header 0 255 0 0 0) (omega arith)

-- Packet 8 is four before packet 12: bit 3 speaks for it.
is_acked_iff_example :
    (is_acked 12 8 8 ≡ true)
    ↔ (◌≡◌ {A = ℕ} 8 12 ⊎ ((i : ℕ) × (i < 32) × (12 ≡ 8 + 1 + i) × HasBit 8 i))
is_acked_iff_example = is_acked_iff 12 8 8
