-- ===== src/Network/Session.antt =====
-- The local clients of a running `NetworkManager`, its received messages, and the end of a session
-- with one client.
use campello_net.Prelude.{
  ℕ, ◌+◌, Bool, true, false, not, Option, none, some, [], ◌∷◌, ◌++◌, ◌==◌, if◌then◌else◌, get_elem?,
}
use campello_net.Packet.{reliable_ordered}
use campello_net.RateLimiter.{Floats}
use campello_net.Network.{
  Mode, mode_host, serves, disconnect_notify, sent_to, ClientEntry, ReceivedMessage, Manager,
  fresh_entry, note,
}
use campello_net.Network.Clients.{find_client_by_id, generate_client_id, remove_client}
use campello_net.Network.Sending.{sys_packet, announce, dismiss}

abbrev pub is_host_mode : Mode → Bool
is_host_mode mode_host = true
is_host_mode _ = false

module _ ⦃floats : Floats⦄ where
  -- `add_local_client`: the table and the new client's number.
  unfoldable pub add_local_client : Manager → Manager × ℕ
  add_local_client m =
      let id = generate_client_id m.clients in
      if serves m.mode
      then (
        announce id (record m {
          clients = m.clients ++ (record fresh_entry { id = id; approved = true } ∷ []);
        }),
        id,
      )
      else (m, 0)

  -- The notice of `disconnect_client`, or the end of the host's own client.
  unfoldable pub notify_client : ℕ → ClientEntry → Manager → Manager
  notify_client id c m =
      if id == m.local_client_id
      then record m { client_connected = false; local_client_id = 0 }
      else elim c.transport [
        | none ↦ m
        | some t ↦ elim c.address [
          | none ↦ m
          | some address ↦
              note (sent_to t address (sys_packet disconnect_notify []) reliable_ordered) m
        ]
      ]

  unfoldable pub disconnect_client : ℕ → Manager → Manager
  disconnect_client id m =
      if not (serves m.mode) then m else elim (find_client_by_id id m.clients) [
        | none ↦ m
        | some c ↦
            let n = notify_client id c m in
            dismiss id (record n { clients = remove_client id n.clients })
      ]

  -- `remove_local_client`.
  abbrev pub remove_local_client : ℕ → Manager → Manager
  remove_local_client = disconnect_client

  -- `pop_message`: the next message; the queue is emptied once it is read.
  unfoldable pub pop_message : Manager → Manager × Option ReceivedMessage
  pop_message m = elim (get_elem? m.message_queue m.message_read_idx) [
    | none ↦ (record m { message_queue = []; message_read_idx = 0 }, none)
    | some message ↦ (record m { message_read_idx = m.message_read_idx + 1 }, some message)
  ]

  -- `is_client_connected`.
  unfoldable pub is_client_connected : ℕ → Manager → Bool
  is_client_connected id m = elim (find_client_by_id id m.clients) [
    | none ↦ false
    | some c ↦ c.approved
  ]
