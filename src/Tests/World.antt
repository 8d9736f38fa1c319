-- ===== src/Tests/World.antt =====
-- A platform whose clock counts milliseconds, whose addresses are numbers and whose socket takes
-- every datagram; and the packets and states of the runs.
use campello_net.Prelude.{
  ℕ, ◌+◌, ◌-◌, ◌*◌, ◌/◌, ◌<◌, true, false, [], ◌∷◌, arith, ◌==◌, ==_iff, ltb, leb,
}
use campello_net.Packet.{PacketHeader, protocol}
use campello_net.Packet.Wire.{IsHeader}
use campello_net.Udp.State.{
  Env, Impl, server, Pending, Channel, Connection, fresh_channel, fresh_channels, fresh_connection,
}

instance abbrev pub test_env : Env
test_env = record {
  Address = ℕ;
  same_address = λ a b. a == b;
  same_address_iff = ==_iff;
  Double = ℕ;
  Single = ℕ;
  double = λ n d. n * 1000 / d;
  double_sub = λ a b. a - b;
  double_lt = ltb;
  double_le = leb;
  to_single = λ a. a;
  to_double = λ a. a;
  single = λ n d. n * 1000 / d;
  single_add = λ a b. a + b;
  single_sub = λ a b. a - b;
  single_mul = λ a b. a * b / 1000;
  single_abs = λ a. a;
  single_lt = ltb;
  sendto = λ sent datagram. true;
}

abbrev pub server_impl : Impl
server_impl = record {
  socket_open = true;
  mode = server;
  bound_address = 1;
  server_address = 0;
  connections = [];
  receive_queue = [];
  receive_read_idx = 0;
  fragment_assemblies = [];
  packets_sent = 0;
  packets_received = 0;
  packets_acked = 0;
  sent = [];
}

-- A header of `flags`, type, sequence number and fragment fields.
abbrev pub header : ℕ → ℕ → ℕ → ℕ → ℕ → PacketHeader
header packet_type flags sequence frag_index frag_count = record {
  protocol_id = protocol;
  packet_type = packet_type;
  flags = flags;
  sequence = sequence;
  ack = 0;
  ack_bits = 0;
  payload_len = 1;
  frag_index = frag_index;
  frag_count = frag_count;
}

pub header-IsHeader :
    (packet_type flags sequence frag_index frag_count : ℕ)
    → packet_type < 256
    → flags < 256
    → sequence < 65536
    → frag_index < 256
    → frag_count < 256
    → IsHeader (header packet_type flags sequence frag_index frag_count)
header-IsHeader packet_type flags sequence frag_index frag_count a b c d e = record {
  protocol_id = omega arith;
  packet_type = a;
  flags = b;
  sequence = c;
  ack = omega arith;
  ack_bits = omega arith;
  payload_len = omega arith;
  frag_index = d;
  frag_count = e;
}

-- A connection that waits for the acknowledgement of packets 3, 4 and 5.
abbrev pub pending : ℕ → Pending
pending sequence = record {
  sequence = sequence;
  send_time = 0;
  retries = 0;
  bytes = [];
  fragmented = false;
  priority = 0;
}

abbrev pub waiting_channel : Channel
waiting_channel = record fresh_channel { pending = pending 3 ∷ pending 4 ∷ pending 5 ∷ [] }

abbrev pub waiting : Connection
waiting = record (fresh_connection 7 0) {
  channels = record fresh_channels { for_unordered = waiting_channel };
}
