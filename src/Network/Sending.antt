-- ===== src/Network/Sending.antt =====
-- The system messages that the manager sends, and its queues of received messages.
use campello_net.Prelude.{ℕ, true, not, ◌||◌, none, some, List, [], ◌∷◌, ◌++◌, ◌==◌, if◌then◌else◌}
use campello_net.Packet.{reliable_ordered}
use campello_net.RateLimiter.{Floats}
use campello_net.Network.{
  SysType, connect_request, disconnect_notify, sys_code, sent, sent_to, told_data, told_connected,
  told_disconnected, replicates, forgets, ClientEntry, Manager, note, note_if,
}

-- `SYS_MAGIC`, the type and the payload.
unfoldable pub sys_packet : SysType → List ℕ → List ℕ
sys_packet type payload = 0xCA ∷ 0xFE ∷ sys_code type ∷ payload

module _ ⦃floats : Floats⦄ where
  -- `t` is never null where these are called.
  unfoldable pub send_sys : (t to : ℕ) → SysType → List ℕ → Manager → Manager
  send_sys t to type payload m = note (sent_to t to (sys_packet type payload) reliable_ordered) m

  unfoldable pub disconnect_transport_client : (t address : ℕ) → Manager → Manager
  disconnect_transport_client t address m =
      note (sent_to t address (sys_packet disconnect_notify []) reliable_ordered) m

  -- One client of `broadcast_sys`; a client with a transport has an address.
  unfoldable pub send_sys_to : SysType → List ℕ → ClientEntry → Manager → Manager
  send_sys_to type payload c m = elim c.transport [
    | none ↦ m
    | some t ↦ elim c.address [ none ↦ m | some address ↦ send_sys t address type payload m ]
  ]

  unfoldable pub broadcast_sys : SysType → List ℕ → ℕ → List ClientEntry → Manager → Manager
  broadcast_sys type payload exclude [] m = m
  broadcast_sys type payload exclude (c ∷ clients) m =
      broadcast_sys type payload exclude clients
        (if (c.id == exclude) || not c.approved then m else send_sys_to type payload c m)

  -- Both branches of `send_connect_request`: an empty token adds nothing.
  unfoldable pub send_connect_request : Manager → Manager
  send_connect_request m = elim m.transport [
    | none ↦ m
    | some t ↦
        record (note (sent t (sys_packet connect_request m.client_token) reliable_ordered) m) {
          awaiting_accept = true;
        }
  ]

  unfoldable pub push_message : ℕ → List ℕ → Manager → Manager
  push_message id payload m = record m {
    message_queue = m.message_queue ++ (record { sender = id; payload = payload } ∷ []);
  }

  unfoldable pub push_message_to_host_local : ℕ → List ℕ → Manager → Manager
  push_message_to_host_local id payload m = record m {
    host_local_recv_queue =
        m.host_local_recv_queue ++ (record { sender = id; payload = payload } ∷ []);
  }

  unfoldable pub flush_to_callbacks : ℕ → List ℕ → Manager → Manager
  flush_to_callbacks id payload m = note_if m.has_on_data (told_data id payload) m

  -- The calls for a client that came, and for one that went.
  unfoldable pub announce : ℕ → Manager → Manager
  announce id m =
      note_if m.has_replication_manager (replicates id)
        (note_if m.has_on_connected (told_connected id) m)

  unfoldable pub dismiss : ℕ → Manager → Manager
  dismiss id m =
      note_if m.has_replication_manager (forgets id)
        (note_if m.has_on_disconnected (told_disconnected id) m)
