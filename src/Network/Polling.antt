-- ===== src/Network/Polling.antt =====
-- `NetworkManager::poll`: the packets of all transports, the time, the estimates and the retries.
use campello_net.Prelude.{
  ℕ, ◌+◌, ◌-◌, ◌^◌, not, ◌&&◌, ◌||◌, none, some, List, [], ◌∷◌, ◌++◌, ◌==◌, if◌then◌else◌, u64,
  length,
}
use campello_net.Bytes.{write_u64_be}
use campello_net.Packet.{reliable_ordered}
use campello_net.RateLimiter.{Floats}
use campello_net.Network.{
  joins, time_sync_request, sent, polled, asked_connected, time_sample, Platform, ClientEntry,
  Manager, note,
}
use campello_net.Network.Sending.{sys_packet, send_connect_request}
use campello_net.Network.Receiving.{Arrival, is_client_mode, poll_transport_receives_for}
use campello_net.Network.Session.{is_host_mode}

module _ ⦃floats : Floats⦄ where
  -- What `poll` does for the host's own client.
  unfoldable pub deliver_loopback : Manager → Manager
  deliver_loopback m =
      if is_host_mode m.mode
      then record m {
        message_queue = m.message_queue ++ m.host_local_recv_queue;
        host_local_recv_queue = [];
      }
      else m

module _ ⦃floats : Floats⦄ ⦃platform : Platform⦄ where
  -- `t` is the reading of the clock.
  unfoldable pub poll_client_time_sync : floats.Double → Manager → Manager
  poll_client_time_sync t m =
      if not (joins m.mode) || not m.client_connected
      then m
      else if platform.is_zero m.last_time_sync
      then record m { last_time_sync = t }
      else if platform.exceeds_interval (floats.sub_double t m.last_time_sync)
      then (let n = record m { last_time_sync = t } in
          if is_host_mode m.mode then note (time_sample t t t t) n else elim m.transport [
            | none ↦ n
            | some s ↦
                note
                  (sent s (sys_packet time_sync_request (write_u64_be (platform.bits_of t)))
                    reliable_ordered)
                  n
          ])
      else m

  -- The estimates of one client; the counters' difference is taken in 64 bits.
  unfoldable pub update_bandwidth : floats.Double → ClientEntry → ClientEntry
  update_bandwidth now c =
      if not c.approved
      then c
      else let dt = floats.sub_double now c.last_stats_update in
        let estimated =
          if platform.is_positive c.last_stats_update && platform.is_positive dt
          then record c {
            bandwidth_in =
                platform.blend c.bandwidth_in
                  (u64 (c.bytes_received + 2 ^ 64 - c.last_bytes_received)) dt;
            bandwidth_out =
                platform.blend c.bandwidth_out (u64 (c.bytes_sent + 2 ^ 64 - c.last_bytes_sent)) dt;
          }
          else c in
        record estimated {
          last_bytes_received = c.bytes_received;
          last_bytes_sent = c.bytes_sent;
          last_stats_update = now;
        }

  unfoldable pub update_bandwidths : floats.Double → List ClientEntry → List ClientEntry
  update_bandwidths now [] = []
  update_bandwidths now (c ∷ clients) = update_bandwidth now c ∷ update_bandwidths now clients

  -- `transport->poll()` of each transport, and the packets that each hands over.
  unfoldable pub poll_each : List ℕ → Manager → Manager
  poll_each [] m = m
  poll_each (t ∷ transports) m = poll_each transports (note (polled t) m)

  unfoldable pub receive_each : (ℕ → List Arrival) → List ℕ → Manager → Manager
  receive_each arrivals [] m = m
  receive_each arrivals (t ∷ transports) m =
      receive_each arrivals transports (poll_transport_receives_for t (arrivals t) m)

  -- The transport and the additional ones.
  abbrev pub transports : Manager → List ℕ
  transports m = elim m.transport [
    | none ↦ m.additional_transports
    | some t ↦ t ∷ m.additional_transports
  ]

  -- A client that is not connected asks again once its transport is.
  unfoldable pub retry_connect : Manager → Manager
  retry_connect m =
      if is_client_mode m.mode && (not m.client_connected && not m.awaiting_accept)
      then elim m.transport [
        | none ↦ m
        | some t ↦
            let n = note (asked_connected t) m in
            if platform.answer n.calls then send_connect_request n else n
      ]
      else m

  -- `poll`; `sync` and `now` are its two readings of the clock.
  unfoldable pub poll_rest : (sync now : floats.Double) → Manager → Manager
  poll_rest sync now m =
      let n = poll_client_time_sync sync m in
      deliver_loopback (retry_connect (record n { clients = update_bandwidths now n.clients }))

  unfoldable pub poll : (ℕ → List Arrival) → (sync now : floats.Double) → Manager → Manager
  poll arrivals sync now m =
      if (length (transports m) == 0) && not (is_host_mode m.mode)
      then m
      else poll_rest sync now (receive_each arrivals (transports m) (poll_each (transports m) m))
