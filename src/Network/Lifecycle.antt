-- ===== src/Network/Lifecycle.antt =====
-- `NetworkManager` from `start` to `stop`, and its setters.
use campello_net.Prelude.{
  ℕ, Bool, true, false, not, ◌&&◌, ◌||◌, Option, none, some, List, [], ◌∷◌, ◌++◌, ◌==◌, ◌!=◌,
  if◌then◌else◌,
}
use campello_net.Packet.{reliable_ordered}
use campello_net.ConnectionToken.{generate}
use campello_net.RateLimiter.{Floats}
use campello_net.Network.{
  Mode, mode_none, serves, disconnect_notify, bound, connected_to, disconnected, sent, sent_to,
  time_reset, told_connected, replicates, Platform, Config, ClientEntry, Manager, fresh_entry, note,
  note_if,
}
use campello_net.Network.Clients.{generate_client_id}
use campello_net.Network.Sending.{sys_packet, send_connect_request}
use campello_net.Network.Messages.{drop_transport}
use campello_net.Network.Receiving.{is_client_mode}
use campello_net.Network.Session.{is_host_mode, disconnect_client}

abbrev pub is_active : Mode → Bool
is_active mode_none = false
is_active _ = true

module _ ⦃floats : Floats⦄ where
  -- The notices of `stop`: to each remote client, or to the server.
  unfoldable pub notify_one : ℕ → ClientEntry → Manager → Manager
  notify_one own c m = if not c.approved || (c.id == own) then m else elim c.transport [
    | none ↦ m
    | some t ↦ elim c.address [
      | none ↦ m
      | some address ↦ note (sent_to t address (sys_packet disconnect_notify []) reliable_ordered) m
    ]
  ]

  unfoldable pub notify_each : ℕ → List ClientEntry → Manager → Manager
  notify_each own [] m = m
  notify_each own (c ∷ clients) m = notify_each own clients (notify_one own c m)

  unfoldable pub notify_server : Manager → Manager
  notify_server m = elim m.transport [
    | none ↦ m
    | some t ↦ note (sent t (sys_packet disconnect_notify []) reliable_ordered) m
  ]

  unfoldable pub disconnect_each : List ℕ → Manager → Manager
  disconnect_each [] m = m
  disconnect_each (t ∷ transports) m = disconnect_each transports (note (disconnected t) m)

  unfoldable pub say_goodbye : Manager → Manager
  say_goodbye m =
      if serves m.mode
      then notify_each m.local_client_id m.clients m
      else if is_client_mode m.mode && m.client_connected
      then notify_server m
      else m

  unfoldable pub stop : Manager → Manager
  stop m =
      let n = say_goodbye m in
      record (note time_reset (disconnect_each n.additional_transports (drop_transport n))) {
        clients = [];
        message_queue = [];
        message_read_idx = 0;
        host_local_recv_queue = [];
        client_connected = false;
        local_client_id = 0;
        awaiting_accept = false;
        mode = mode_none;
        transport = none;
        additional_transports = [];
      }

  -- The manager whose transport did not bind or connect.
  abbrev pub give_up : Manager → Manager
  give_up m = record m { mode = mode_none; transport = none }

  -- The host's own client.
  unfoldable pub open_host : Manager → Manager
  open_host m =
      let id = generate_client_id m.clients in
      note_if m.has_on_connected (told_connected id) (record m {
        clients = m.clients ++ (record fresh_entry { id = id; approved = true } ∷ []);
        local_client_id = id;
        client_connected = true;
      })

  abbrev pub set_transport : Option ℕ → Manager → Manager
  set_transport t m = record (if is_active m.mode then stop m else m) { transport = t }

  abbrev pub add_transport : Option ℕ → Manager → Manager
  add_transport none m = m
  add_transport (some t) m = record m {
    additional_transports = m.additional_transports ++ (t ∷ []);
  }

  abbrev pub set_connection_token : List ℕ → Manager → Manager
  set_connection_token token m = record m { client_token = token }

  abbrev pub set_entity_manager : Bool → Manager → Manager
  set_entity_manager present m = record m { has_entity_manager = present }

  abbrev pub set_rpc_manager : Bool → Manager → Manager
  set_rpc_manager present m = record m { has_rpc_manager = present }

  -- A replication manager hears of the clients that are there.
  unfoldable pub replicate_each : List ClientEntry → Manager → Manager
  replicate_each [] m = m
  replicate_each (c ∷ clients) m = replicate_each clients (note_if c.approved (replicates c.id) m)

  unfoldable pub set_replication_manager : Bool → Manager → Manager
  set_replication_manager false m = record m { has_replication_manager = false }
  set_replication_manager true m =
      note_if (is_host_mode m.mode && (m.local_client_id != 0)) (replicates m.local_client_id)
        (replicate_each m.clients (record m { has_replication_manager = true }))

  abbrev pub any_set : List ℕ → Bool
  any_set [] = false
  any_set (x ∷ xs) = (x != 0) || any_set xs

  -- `seconds` is the reading of the clock.
  unfoldable pub generate_connection_token :
      (expiry_seconds seconds : ℕ) → Manager → Option (List ℕ)
  generate_connection_token expiry_seconds seconds m =
      if any_set m.config.connection_token_secret
      then generate m.config.connection_token_secret expiry_seconds 0 seconds
      else none

module _ ⦃floats : Floats⦄ ⦃platform : Platform⦄ where
  unfoldable pub start_serving : ℕ → Manager → Manager × Bool
  start_serving t m =
      let n = note (bound t m.config.bind_address) m in
      if platform.answer n.calls
      then (if is_host_mode n.mode then open_host n else n, true)
      else (give_up n, false)

  unfoldable pub start_joining : ℕ → Manager → Manager × Bool
  start_joining t m =
      let n = note (connected_to t m.config.server_address) m in
      if platform.answer n.calls
      then (send_connect_request (record n { awaiting_accept = true }), true)
      else (give_up n, false)

  abbrev pub transport_or : ℕ → Option ℕ → ℕ
  transport_or udp none = udp
  transport_or udp (some t) = t

  -- `start`; `udp` is the new `UdpTransport` where none was set.
  unfoldable pub start : (udp : ℕ) → Config → Manager → Manager × Bool
  start udp config m =
      let stopped = (if is_active m.mode then stop m else m) in
      let n = record stopped {
        config = config;
        mode = config.mode;
        transport = some (transport_or udp stopped.transport);
      } in
      if serves config.mode
      then start_serving (transport_or udp stopped.transport) n
      else if is_client_mode config.mode
      then start_joining (transport_or udp stopped.transport) n
      else (n, true)

  -- A client sends one byte, the type without the magic, before it stops.
  unfoldable pub disconnect : Manager → Manager
  disconnect m =
      if is_client_mode m.mode
      then elim m.transport [
        | none ↦ stop m
        | some t ↦ stop (note_if m.client_connected (sent t (3 ∷ []) reliable_ordered) m)
      ]
      else if is_host_mode m.mode && (m.local_client_id != 0)
      then disconnect_client m.local_client_id m
      else m
