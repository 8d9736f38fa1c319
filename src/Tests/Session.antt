-- ===== src/Tests/Session.antt =====
-- `NetworkManager` at concrete inputs.
use campello_net.Prelude.{
  ℕ, suc, ◌+◌, ◌*◌, ◌≤◌, ◌≡◌, refl, true, false, none, some, List, [], ◌∷◌, ◌++◌, arith, ltb, ◌==◌,
  replicate,
}
use campello_net.Packet.{reliable_ordered, unreliable}
use campello_net.Tests.Managers.{whole_numbers}
use campello_net.Network.{
  Platform, Readings, Config, ClientEntry, Manager, mode_none, mode_server, mode_client,
  connect_request, connect_reject, disconnect_notify, sent_to, fresh_entry,
}
use campello_net.Network.Clients.{
  find_client_by_id, find_client_by_address, generate_client_id, client_count,
}
use campello_net.Network.Sending.{sys_packet}
use campello_net.Network.Messages.{process_disconnect_notify, reject_reason, full_reason}
use campello_net.Network.Receiving.{receive_packet, poll_transport_receives_for}
use campello_net.Network.Session.{disconnect_client, is_client_connected}
use campello_net.Network.Traffic.{broadcast}
use campello_net.Network.Roster.{IsRoster, keys, generate_client_id-unused}
use campello_net.Network.Roster.Received.{IsSession}
use campello_net.Network.Roster.Admission.{poll_transport_receives_for-IsSession}
use campello_net.Network.Handshake.{arrival, notices, handshake}
use campello_net.Network.Refusal.{unauthenticated, turned_away}
use campello_net.Network.Departure.{departure}
use campello_net.Network.Recipients.{copies, copy_call, copy_message, broadcast-copies}

instance abbrev obliging : Platform
obliging = record {
  scaled_burst = λ b. b * 1024;
  blend = λ old bytes dt. old;
  is_zero = λ t. t == 0;
  is_positive = ltb 0;
  exceeds_interval = ltb 2;
  bits_of = λ t. t;
  double_of = λ n. n;
  answer = λ calls. true;
}

abbrev now : Readings
now = record { clock = λ i. i; seconds = 100 }

-- A server with room for two clients, and one whose clients need a token.
abbrev small : Config
small = record {
  mode = mode_server;
  bind_address = 9;
  server_address = 0;
  max_clients = 2;
  max_packet_size = 8192;
  max_messages_per_sec = 0;
  max_bytes_per_sec = 0;
  max_rpcs_per_sec = 0;
  rate_limit_burst = 0;
  connection_token_secret = replicate 32 1;
  require_connection_token = false;
}

abbrev guarded : Config
guarded = record small { require_connection_token = true }

abbrev idle : Manager
idle = record {
  mode = mode_none;
  config = small;
  transport = some 5;
  additional_transports = [];
  clients = [];
  message_queue = [];
  message_read_idx = 0;
  has_on_connected = true;
  has_on_disconnected = true;
  has_on_data = true;
  has_on_approval = false;
  client_connected = false;
  local_client_id = 0;
  last_time_sync = 0;
  awaiting_accept = false;
  client_token = [];
  host_local_recv_queue = [];
  has_entity_manager = false;
  has_replication_manager = true;
  has_rpc_manager = false;
  calls = [];
}

-- The client 2 at the address 70, and a local one with the number 1.
abbrev remote : ClientEntry
remote = record fresh_entry { id = 2; address = some 70; transport = some 5; approved = true }

abbrev local : ClientEntry
local = record fresh_entry { id = 1; approved = true }

abbrev empty_server : Manager
empty_server = record idle { mode = mode_server }

abbrev full_server : Manager
full_server = record empty_server { clients = remote ∷ local ∷ [] }

abbrev waiting : Manager
waiting = record idle { mode = mode_client; awaiting_accept = true }

full-IsRoster : IsRoster (keys (remote ∷ local ∷ []))
full-IsRoster = (refl, omega arith, (omega arith, tt), (tt, tt), (refl, omega arith, tt, tt, tt))

generate_client_id-unused_example :
    (find_client_by_id (generate_client_id (remote ∷ local ∷ [])) (remote ∷ local ∷ []) ≡ none)
    × (1 ≤ generate_client_id (remote ∷ local ∷ []))
    × (generate_client_id (remote ∷ local ∷ []) ≤ 2 + 1)
generate_client_id-unused_example = generate_client_id-unused (remote ∷ local ∷ []) (omega arith)

-- Requests of three addresses at a server for two.
poll_transport_receives_for-IsSession_example : IsSession small 2 (
    poll_transport_receives_for 5
      (arrival now 70 connect_request []
        ∷ arrival now 71 connect_request []
        ∷ arrival now 72 connect_request []
        ∷ [])
      empty_server)
unfolding client_count
poll_transport_receives_for-IsSession_example =
    poll_transport_receives_for-IsSession (omega arith) (omega arith) 5
      (arrival now 70 connect_request []
        ∷ arrival now 71 connect_request []
        ∷ arrival now 72 connect_request []
        ∷ [])
      empty_server (record { same_config = refl; roster = tt; within = omega arith })

unauthenticated_example :
    ((receive_packet 5
        (arrival now 71 connect_request (4 ∷ []))
        (record full_server { config = guarded })).clients
      ≡ remote ∷ local ∷ [])
    × ((receive_packet 5
          (arrival now 71 connect_request (4 ∷ []))
          (record full_server { config = guarded })).calls
        ≡ sent_to 5 71 (sys_packet connect_reject reject_reason) reliable_ordered
          ∷ sent_to 5 71 (sys_packet disconnect_notify []) reliable_ordered
          ∷ [])
unfolding find_client_by_address
unauthenticated_example =
    unauthenticated 5 now 71 (4 ∷ []) (record full_server { config = guarded }) (omega arith) refl
      refl refl refl

turned_away_example :
    ((receive_packet 5 (arrival now 71 connect_request []) full_server).clients
      ≡ remote ∷ local ∷ [])
    × ((receive_packet 5 (arrival now 71 connect_request []) full_server).calls
        ≡ sent_to 5 71 (sys_packet connect_reject full_reason) reliable_ordered
          ∷ sent_to 5 71 (sys_packet disconnect_notify []) reliable_ordered
          ∷ [])
unfolding find_client_by_address client_count
turned_away_example =
    turned_away 5 now 71 [] full_server (omega arith) refl refl refl (omega arith) refl

departure_example :
    ((process_disconnect_notify 70 full_server).clients ≡ (disconnect_client 2 full_server).clients)
    × (is_client_connected 2 (disconnect_client 2 full_server) ≡ false)
    × (is_client_connected 1 (disconnect_client 2 full_server) ≡ is_client_connected 1 full_server)
    × (suc (client_count (disconnect_client 2 full_server).clients)
        ≡ client_count (remote ∷ local ∷ []))
unfolding find_client_by_address
departure_example = departure 70 1 remote full_server (omega arith) refl full-IsRoster refl

broadcast-copies_example :
    ((broadcast (3 ∷ []) unreliable 9 full_server).calls
      ≡ copies
          (3 ∷ [])
          unreliable
          9
          0
          (copy_call (3 ∷ []) unreliable 9 0 true)
          (remote ∷ local ∷ []))
    × ((broadcast (3 ∷ []) unreliable 9 full_server).message_queue
        ≡ copies
            (3 ∷ [])
            unreliable
            9
            0
            (copy_message (3 ∷ []) unreliable 9 0)
            (remote ∷ local ∷ []))
broadcast-copies_example = broadcast-copies (3 ∷ []) unreliable 9 full_server refl

handshake_example :
    (id : ℕ) × (entry : ClientEntry) × (packet : List ℕ) × ((receive_packet 5
        (arrival now 70 connect_request [])
        empty_server).calls
      ≡ [] ++ (sent_to 5 70 packet reliable_ordered ∷ notices id empty_server))
    × (find_client_by_id id
          (receive_packet 5 (arrival now 70 connect_request []) empty_server).clients
        ≡ some entry)
    × (entry.address ≡ some 70)
    × (entry.approved ≡ true)
    × ((receive_packet 6
          (record { sender = 9; bytes = packet; readings = now })
          waiting).client_connected
        ≡ true)
    × ((receive_packet 6
          (record { sender = 9; bytes = packet; readings = now })
          waiting).local_client_id
        ≡ id)
    × ((receive_packet 6
          (record { sender = 9; bytes = packet; readings = now })
          waiting).awaiting_accept
        ≡ false)
unfolding find_client_by_address client_count
handshake_example =
    handshake 5 6 now now 70 9 empty_server waiting refl refl (omega arith) (omega arith) refl refl
      refl (omega arith) (omega arith)
