-- ===== src/Network/Traffic.antt =====
-- `send` and `broadcast` of `NetworkManager`: what goes to which client, over which way.
use campello_net.Prelude.{
  ℕ, ◌+◌, Bool, true, false, not, ◌&&◌, ◌||◌, none, some, List, [], ◌∷◌, ◌==◌, ◌!=◌, if◌then◌else◌,
  u64, length,
}
use campello_net.Packet.{PacketReliability}
use campello_net.RateLimiter.{Floats}
use campello_net.Network.{serves, sent, sent_to, Platform, ClientEntry, Manager, note}
use campello_net.Network.Clients.{find_client_by_id, update_by_id}
use campello_net.Network.Sending.{push_message, push_message_to_host_local, flush_to_callbacks}
use campello_net.Network.Receiving.{is_client_mode}
use campello_net.Network.Session.{is_host_mode}

module _ ⦃floats : Floats⦄ ⦃platform : Platform⦄ where
  -- A `send_to` that went well is counted.
  abbrev pub count_sent : List ℕ → ClientEntry → ClientEntry
  count_sent bytes c = record c {
    bytes_sent = u64 (c.bytes_sent + length bytes);
    packets_sent = u64 (c.packets_sent + 1);
  }

  -- `send` to a client that is not the host's own.
  unfoldable pub send_remote : ℕ → List ℕ → PacketReliability → Manager → Manager × Bool
  send_remote id bytes reliability m = elim (find_client_by_id id m.clients) [
    | none ↦ (m, false)
    | some c ↦ if not c.approved then (m, false) else elim c.transport [
      | none ↦ (flush_to_callbacks id bytes (push_message id bytes m), true)
      | some t ↦ elim c.address [
        | none ↦ (m, false)
        | some address ↦
            let n = note (sent_to t address bytes reliability) m in
            if platform.answer n.calls
            then (record n { clients = update_by_id id (count_sent bytes) n.clients }, true)
            else (n, false)
      ]
    ]
  ]

  unfoldable pub send : ℕ → List ℕ → PacketReliability → Manager → Manager × Bool
  send id bytes reliability m =
      if not (serves m.mode)
      then (m, false)
      else if is_host_mode m.mode && (id == m.local_client_id)
      then (push_message_to_host_local id bytes m, true)
      else send_remote id bytes reliability m

  -- One client of `broadcast`, with the new entry.
  unfoldable pub broadcast_one :
      List ℕ → PacketReliability → ClientEntry → Manager → ClientEntry × Manager
  broadcast_one bytes reliability c m = elim c.transport [
    | none ↦ (c, flush_to_callbacks c.id bytes (push_message c.id bytes m))
    | some t ↦ elim c.address [
      | none ↦ (c, m)
      | some address ↦
          let n = note (sent_to t address bytes reliability) m in
          if platform.answer n.calls then (count_sent bytes c, n) else (c, n)
    ]
  ]

  unfoldable pub broadcast_each :
      List ℕ
      → PacketReliability
      → (exclude : ℕ) → List ClientEntry
      → Manager
      → List ClientEntry × Manager
  broadcast_each bytes reliability exclude [] m = ([], m)
  broadcast_each bytes reliability exclude (c ∷ clients) m =
      let (d, n) =
        if (c.id == exclude) || (not c.approved || (c.id == m.local_client_id))
        then (c, m)
        else broadcast_one bytes reliability c m in
      let (rest, last) = broadcast_each bytes reliability exclude clients n in (d ∷ rest, last)

  unfoldable pub broadcast : List ℕ → PacketReliability → (exclude : ℕ) → Manager → Manager
  broadcast bytes reliability exclude m =
      if not (serves m.mode)
      then m
      else let own =
          if is_host_mode m.mode && ((m.local_client_id != 0) && (m.local_client_id != exclude))
          then push_message_to_host_local m.local_client_id bytes m
          else m in
        let (clients, n) = broadcast_each bytes reliability exclude own.clients own in
        record n { clients = clients }

  -- `send` of a client, and of the host as its own client.
  unfoldable pub send_up : List ℕ → PacketReliability → Manager → Manager × Bool
  send_up bytes reliability m =
      if is_client_mode m.mode
      then elim m.transport [
        | none ↦ (m, false)
        | some t ↦
            if not m.client_connected
            then (m, false)
            else let n = note (sent t bytes reliability) m in (n, platform.answer n.calls)
      ]
      else if is_host_mode m.mode && (m.local_client_id != 0)
      then (
        flush_to_callbacks m.local_client_id bytes (push_message m.local_client_id bytes m),
        true,
      )
      else (m, false)
