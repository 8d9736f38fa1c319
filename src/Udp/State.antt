-- ===== src/Udp/State.antt =====
-- The state of `UdpTransport::Impl`, and what it asks of the platform.
use campello_net.Prelude.{ℕ, ◌≡◌, ◌≢◌, refl, Bool, true, false, List, [], ◌↔◌}
use campello_net.Packet.{
  PacketReliability, unreliable, reliable_ordered, reliable_unordered, unreliable_sequenced,
}

-- What the code takes from its platform: addresses with their equality (`Address` of
-- `src/transport/address.cpp`), the arithmetic of `double` and `float`, and the socket. `sendto`
-- says whether the system takes a whole datagram, given those handed to it before.
pub record Env : Type 1 where
  pub Address : Type 0
  pub same_address : Address → Address → Bool
  pub same_address_iff : (a b : Address) → (same_address a b ≡ true) ↔ (a ≡ b)
  pub Double : Type 0
  pub Single : Type 0
  pub double : ℕ → ℕ → Double
  pub double_sub : Double → Double → Double
  pub double_lt : Double → Double → Bool
  pub double_le : Double → Double → Bool
  pub to_single : Double → Single
  pub to_double : Single → Double
  pub single : ℕ → ℕ → Single
  pub single_add : Single → Single → Single
  pub single_sub : Single → Single → Single
  pub single_mul : Single → Single → Single
  pub single_abs : Single → Single
  pub single_lt : Single → Single → Bool
  pub sendto : List (Address × List ℕ) → Address × List ℕ → Bool

-- `Channel::Pending`. `bytes` is the member `data`.
pub record Pending ⦃env : Env⦄ : Type 0 where
  pub sequence : ℕ
  pub send_time : env.Double
  pub retries : ℕ
  pub bytes : List ℕ
  pub fragmented : Bool
  pub priority : ℕ

-- `Channel::BufferedPacket`.
pub record BufferedPacket : Type 0 where
  pub sequence : ℕ
  pub frag_index : ℕ
  pub frag_count : ℕ
  pub bytes : List ℕ

pub record Channel ⦃env : Env⦄ : Type 0 where
  pub local_seq : ℕ
  pub remote_seq : ℕ
  pub ack_bits : ℕ
  pub pending : List Pending
  pub receive_buffer : List BufferedPacket
  pub bandwidth_limit : ℕ
  pub bytes_sent_this_second : ℕ

-- `std::array<Channel, 4>`: one channel for each reliability.
pub record Channels ⦃env : Env⦄ : Type 0 where
  pub for_unreliable : Channel
  pub for_ordered : Channel
  pub for_unordered : Channel
  pub for_sequenced : Channel

-- `Connection::State`.
pub data Phase : Type 0 where
  connecting connected disconnecting : Phase

pub record Connection ⦃env : Env⦄ : Type 0 where
  pub address : env.Address
  pub phase : Phase
  pub last_recv_time : env.Double
  pub last_send_time : env.Double
  pub smoothed_rtt : env.Single
  pub rtt_variance : env.Single
  pub channels : Channels
  pub global_bandwidth_limit : ℕ
  pub bytes_sent_this_second : ℕ
  pub last_bandwidth_reset : env.Double

pub record FragmentAssembly ⦃env : Env⦄ : Type 0 where
  pub address : env.Address
  pub base_sequence : ℕ
  pub frag_count : ℕ
  pub received_mask : ℕ
  pub start_time : env.Double
  pub fragments : List (List ℕ)

-- `Impl::Mode`.
pub data Mode : Type 0 where
  none_mode server client : Mode

-- `UdpTransport::Impl`. `sent` is not a member: it lists the datagrams handed to `sendto`, oldest
-- first.
pub record Impl ⦃env : Env⦄ : Type 0 where
  pub socket_open : Bool
  pub mode : Mode
  pub bound_address : env.Address
  pub server_address : env.Address
  pub connections : List Connection
  pub receive_queue : List (env.Address × List ℕ)
  pub receive_read_idx : ℕ
  pub fragment_assemblies : List FragmentAssembly
  pub packets_sent : ℕ
  pub packets_received : ℕ
  pub packets_acked : ℕ
  pub sent : List (env.Address × List ℕ)

module _ ⦃env : Env⦄ where
  -- The member initialisers of `Channel` and `Connection`.
  abbrev pub fresh_channel : Channel
  fresh_channel = record {
    local_seq = 0;
    remote_seq = 0xFFFF;
    ack_bits = 0;
    pending = [];
    receive_buffer = [];
    bandwidth_limit = 0;
    bytes_sent_this_second = 0;
  }

  abbrev pub fresh_channels : Channels
  fresh_channels = record {
    for_unreliable = fresh_channel;
    for_ordered = fresh_channel;
    for_unordered = fresh_channel;
    for_sequenced = fresh_channel;
  }

  -- `Connection conn;` with its address, state and `last_recv_time` set, as both places that make
  -- one do.
  abbrev pub fresh_connection : env.Address → env.Double → Connection
  fresh_connection address now = record {
    address = address;
    phase = connecting;
    last_recv_time = now;
    last_send_time = env.double 0 1;
    smoothed_rtt = env.single 1 10;
    rtt_variance = env.single 5 100;
    channels = fresh_channels;
    global_bandwidth_limit = 0;
    bytes_sent_this_second = 0;
    last_bandwidth_reset = env.double 0 1;
  }

  -- `channels[ch]`, and the array after a write to it. The index is a reliability's value.
  abbrev pub get_channel : Channels → PacketReliability → Channel
  get_channel cs unreliable = cs.for_unreliable
  get_channel cs reliable_ordered = cs.for_ordered
  get_channel cs reliable_unordered = cs.for_unordered
  get_channel cs unreliable_sequenced = cs.for_sequenced

  abbrev pub set_channel : Channels → PacketReliability → Channel → Channels
  set_channel cs unreliable c = record cs { for_unreliable = c }
  set_channel cs reliable_ordered c = record cs { for_ordered = c }
  set_channel cs reliable_unordered c = record cs { for_unordered = c }
  set_channel cs unreliable_sequenced c = record cs { for_sequenced = c }

  abbrev pub channel_of : Connection → PacketReliability → Channel
  channel_of conn ch = get_channel conn.channels ch

  abbrev pub with_channel : Connection → PacketReliability → Channel → Connection
  with_channel conn ch c = record conn { channels = set_channel conn.channels ch c }

-- The laws of the array.
module _ ⦃env : Env⦄ where
  pub get-set_self :
      (cs : Channels) (r : PacketReliability) (c : Channel) → get_channel (set_channel cs r c) r ≡ c
  get-set_self cs unreliable c = refl
  get-set_self cs reliable_ordered c = refl
  get-set_self cs reliable_unordered c = refl
  get-set_self cs unreliable_sequenced c = refl

  pub get-set_ne :
      (cs : Channels) (r s : PacketReliability) (c : Channel)
      → s ≢ r
      → get_channel (set_channel cs r c) s ≡ get_channel cs s
  get-set_ne cs unreliable unreliable c h = absurd (h refl)
  get-set_ne cs reliable_ordered reliable_ordered c h = absurd (h refl)
  get-set_ne cs reliable_unordered reliable_unordered c h = absurd (h refl)
  get-set_ne cs unreliable_sequenced unreliable_sequenced c h = absurd (h refl)
  get-set_ne cs _ _ c h = refl

-- `is_reliable`.
abbrev pub is_reliable : PacketReliability → Bool
is_reliable unreliable = false
is_reliable reliable_ordered = true
is_reliable reliable_unordered = true
is_reliable unreliable_sequenced = false
