-- ===== src/Network.antt =====
-- `NetworkManager` of `src/network_manager.cpp`: the table of a server's clients, the handshake and
-- the messages of a session, over the transports.
-- A transport is the number of its object; a callback does not call the manager back.
pub mod Clients
pub mod Sending
pub mod Messages
pub mod Receiving
pub mod Session
pub mod Traffic
pub mod Polling
pub mod Lifecycle
pub mod Roster
pub mod Handshake
pub mod Refusal
pub mod Departure
pub mod Recipients
use campello_net.Prelude.{
  ℕ, zero, suc, ◌+◌, ◌*◌, ◌^◌, Bool, true, false, Option, none, some, List, [], ◌∷◌, ◌++◌, ◌==◌,
  if◌then◌else◌, u64, get_or,
}
use campello_net.Bytes.{read_u64_be}
use campello_net.Packet.{PacketReliability, reliable_ordered}
use campello_net.RateLimiter.{Floats, RateLimiter, fresh_limiter}

-- `NetworkManager::Mode`.
pub data Mode : Type 0 where
  mode_none mode_server mode_client mode_host : Mode

-- `mode == Mode::Server || mode == Mode::Host`, and the same of a client.
abbrev pub serves : Mode → Bool
serves mode_server = true
serves mode_host = true
serves _ = false

abbrev pub joins : Mode → Bool
joins mode_client = true
joins mode_host = true
joins _ = false

-- `SysType`; the cast of another byte is `other`.
pub data SysType : Type 0 where
  connect_request connect_accept connect_reject disconnect_notify : SysType
  time_sync_request time_sync_response : SysType
  entity_spawn entity_destroy entity_set_owner entity_full_state : SysType
  delta_state snapshot_ack rpc : SysType
  other : ℕ → SysType

abbrev pub sys_code : SysType → ℕ
sys_code connect_request = 0
sys_code connect_accept = 1
sys_code connect_reject = 2
sys_code disconnect_notify = 3
sys_code time_sync_request = 4
sys_code time_sync_response = 5
sys_code entity_spawn = 0x10
sys_code entity_destroy = 0x11
sys_code entity_set_owner = 0x12
sys_code entity_full_state = 0x13
sys_code delta_state = 0x20
sys_code snapshot_ack = 0x21
sys_code rpc = 0x22
sys_code (other n) = n

-- `static_cast<SysType>(byte)`.
unfoldable pub sys_type : ℕ → SysType
sys_type n =
    if n == 0
    then connect_request
    else if n == 1
    then connect_accept
    else if n == 2
    then connect_reject
    else if n == 3
    then disconnect_notify
    else if n == 4
    then time_sync_request
    else if n == 5
    then time_sync_response
    else if n == 0x10
    then entity_spawn
    else if n == 0x11
    then entity_destroy
    else if n == 0x12
    then entity_set_owner
    else if n == 0x13
    then entity_full_state
    else if n == 0x20
    then delta_state
    else if n == 0x21
    then snapshot_ack
    else if n == 0x22
    then rpc
    else other n

-- What the manager calls, oldest first: the transports, the game's callbacks, `net_time`, and the
-- entity, replication and RPC managers.
pub data Call ⦃floats : Floats⦄ : Type 0 where
  bound connected_to : (transport address : ℕ) → Call
  disconnected polled asked_connected : (transport : ℕ) → Call
  sent : (transport : ℕ) → List ℕ → PacketReliability → Call
  sent_to : (transport address : ℕ) → List ℕ → PacketReliability → Call
  asked_approval : (address : ℕ) → List ℕ → Call
  told_connected told_disconnected : (id : ℕ) → Call
  told_data : (id : ℕ) → List ℕ → Call
  replicates forgets : (id : ℕ) → Call
  entity_message : SysType → (id : ℕ) → List ℕ → Call
  delta_message : List ℕ → Call
  acknowledged : (id snapshot : ℕ) → Call
  rpc_message : (id : ℕ) → List ℕ → Call
  time_sample : (t0 t1 t2 t3 : floats.Double) → Call
  time_reset : Call

-- The rest of the arithmetic, and the answers of what is called.
-- `scaled_burst` is `burst * 1024.0f`, and `blend` the new estimate of a bandwidth from the old, the
-- bytes since and the time. `answer` is what the last of the calls returned.
pub record Platform ⦃floats : Floats⦄ : Type 0 where
  pub scaled_burst : floats.Single → floats.Single
  pub blend : floats.Single → ℕ → floats.Double → floats.Single
  pub is_zero : floats.Double → Bool
  pub is_positive : floats.Double → Bool
  pub exceeds_interval : floats.Double → Bool
  pub bits_of : floats.Double → ℕ
  pub double_of : ℕ → floats.Double
  pub answer : List Call → Bool

-- The readings of the clocks during one call, in turn, and `steady_clock` in seconds.
pub record Readings ⦃floats : Floats⦄ : Type 0 where
  pub clock : ℕ → floats.Double
  pub seconds : ℕ

-- `NetworkManager::Config`.
pub record Config ⦃floats : Floats⦄ : Type 0 where
  pub mode : Mode
  pub bind_address : ℕ
  pub server_address : ℕ
  pub max_clients : ℕ
  pub max_packet_size : ℕ
  pub max_messages_per_sec : floats.Single
  pub max_bytes_per_sec : floats.Single
  pub max_rpcs_per_sec : floats.Single
  pub rate_limit_burst : floats.Single
  pub connection_token_secret : List ℕ
  pub require_connection_token : Bool

-- `Impl::ClientEntry`, without `disconnecting`, which nothing reads or writes.
pub record ClientEntry ⦃floats : Floats⦄ : Type 0 where
  pub id : ℕ
  pub address : Option ℕ
  pub transport : Option ℕ
  pub approved : Bool
  pub rate_limiter : RateLimiter
  pub bytes_sent : ℕ
  pub bytes_received : ℕ
  pub packets_sent : ℕ
  pub packets_received : ℕ
  pub last_bytes_sent : ℕ
  pub last_bytes_received : ℕ
  pub last_stats_update : floats.Double
  pub bandwidth_in : floats.Single
  pub bandwidth_out : floats.Single

-- `ReceivedMessage`.
pub record ReceivedMessage : Type 0 where
  pub sender : ℕ
  pub payload : List ℕ

-- `NetworkManager::Impl`. Each `has_` field says that a callback or a manager is set; `calls` is not
-- a member: it lists the calls made.
pub record Manager ⦃floats : Floats⦄ : Type 0 where
  pub mode : Mode
  pub config : Config
  pub transport : Option ℕ
  pub additional_transports : List ℕ
  pub clients : List ClientEntry
  pub message_queue : List ReceivedMessage
  pub message_read_idx : ℕ
  pub has_on_connected : Bool
  pub has_on_disconnected : Bool
  pub has_on_data : Bool
  pub has_on_approval : Bool
  pub client_connected : Bool
  pub local_client_id : ℕ
  pub last_time_sync : floats.Double
  pub awaiting_accept : Bool
  pub client_token : List ℕ
  pub host_local_recv_queue : List ReceivedMessage
  pub has_entity_manager : Bool
  pub has_replication_manager : Bool
  pub has_rpc_manager : Bool
  pub calls : List Call

module _ ⦃floats : Floats⦄ where
  -- `ClientEntry entry;`: `none` is the default address and the null transport.
  abbrev pub fresh_entry : ClientEntry
  fresh_entry = record {
    id = 0;
    address = none;
    transport = none;
    approved = false;
    rate_limiter = fresh_limiter;
    bytes_sent = 0;
    bytes_received = 0;
    packets_sent = 0;
    packets_received = 0;
    last_bytes_sent = 0;
    last_bytes_received = 0;
    last_stats_update = floats.zero_double;
    bandwidth_in = floats.zero_single;
    bandwidth_out = floats.zero_single;
  }

  -- One more call.
  abbrev pub note : Call → Manager → Manager
  note c m = record m { calls = m.calls ++ (c ∷ []) }

  abbrev pub note_if : Bool → Call → Manager → Manager
  note_if b c m = if b then note c m else m

-- `read_u64_be` at the start of a buffer.
unfoldable pub read_u64 : List ℕ → ℕ
read_u64 xs =
    read_u64_be (get_or xs 0 0) (get_or xs 1 0) (get_or xs 2 0) (get_or xs 3 0) (get_or xs 4 0)
      (get_or xs 5 0) (get_or xs 6 0) (get_or xs 7 0)
