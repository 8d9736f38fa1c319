-- ===== src/Network/Messages.antt =====
-- `Impl::process_system_message`: what each message of a session does.
use campello_net.Prelude.{
  ℕ, Bool, true, false, not, ◌&&◌, ◌||◌, none, some, List, [], ◌∷◌, ◌++◌, ltb, leb, if◌then◌else◌,
  length, drop, get_or,
}
use campello_net.Bytes.{write_u64_be, read_u16_be}
use campello_net.ConnectionToken.{validate}
use campello_net.RateLimiter.{
  Floats, configure_messages, configure_bytes, configure_rpcs, allow_rpc, fresh_limiter,
}
use campello_net.Network.{
  SysType, connect_request, connect_accept, connect_reject, disconnect_notify, time_sync_request,
  time_sync_response, entity_spawn, entity_destroy, entity_set_owner, entity_full_state,
  delta_state, snapshot_ack, rpc, other, serves, joins, disconnected, asked_approval,
  entity_message, delta_message, acknowledged, rpc_message, time_sample, Platform, Readings,
  ClientEntry, Manager, fresh_entry, note, note_if, read_u64,
}
use campello_net.Network.Clients.{
  find_client_by_address, generate_client_id, remove_client, client_count, update_by_address,
}
use campello_net.Network.Sending.{send_sys, disconnect_transport_client, announce, dismiss}

module _ ⦃floats : Floats⦄ where
  -- `if (transport) transport->disconnect();`
  abbrev pub drop_transport : Manager → Manager
  drop_transport m = elim m.transport [ none ↦ m | some t ↦ note (disconnected t) m ]

  -- The message that names a client's number.
  unfoldable pub accept : (t address : ℕ) → ℕ → Manager → Manager
  accept t address id m = send_sys t address connect_accept (write_u64_be id) m

  -- A reason of four letters, and the notice to the transport's peer.
  unfoldable pub reject : List ℕ → (address t : ℕ) → Manager → Manager
  reject reason address t m =
      disconnect_transport_client t address (send_sys t address connect_reject reason m)

  -- Is the token valid, and what is left for `on_approval`?
  unfoldable pub check_token : Readings → List ℕ → Manager → Bool × List ℕ
  check_token r payload m =
      if not m.config.require_connection_token
      then (true, payload)
      else if leb 64 (length payload) && validate payload m.config.connection_token_secret r.seconds
      then (true, drop 64 payload)
      else (false, payload)

  abbrev pub full_reason : List ℕ
  full_reason = 0x46 ∷ 0x55 ∷ 0x4C ∷ 0x4C ∷ []

  abbrev pub reject_reason : List ℕ
  reject_reason = 0x52 ∷ 0x4A ∷ 0x43 ∷ 0x54 ∷ []

  unfoldable pub process_connect_accept : List ℕ → Manager → Manager
  process_connect_accept payload m =
      if not (joins m.mode) || ltb (length payload) 8
      then m
      else announce (read_u64 payload) (record m {
        local_client_id = read_u64 payload;
        client_connected = true;
        awaiting_accept = false;
      })

  unfoldable pub process_connect_reject : Manager → Manager
  process_connect_reject m =
      if joins m.mode
      then record (drop_transport (record m { awaiting_accept = false })) {
        client_connected = false;
      }
      else m

  -- A client that left, at its server.
  unfoldable pub remove_and_dismiss : ℕ → Manager → Manager
  remove_and_dismiss id m = dismiss id (record m { clients = remove_client id m.clients })

  unfoldable pub process_disconnect_notify : ℕ → Manager → Manager
  process_disconnect_notify address m =
      if serves m.mode
      then elim (find_client_by_address address m.clients) [
        | none ↦ m
        | some c ↦ remove_and_dismiss c.id m
      ]
      else if joins m.mode
      then dismiss 0 (drop_transport (record m { client_connected = false; local_client_id = 0 }))
      else m

  unfoldable pub process_rpc : Readings → ℕ → ℕ → List ℕ → Manager → Manager
  process_rpc r id address payload m =
      if not m.has_rpc_manager
      then m
      else if not (serves m.mode)
      then note (rpc_message id payload) m
      else elim (find_client_by_address address m.clients) [
        | none ↦ note (rpc_message id payload) m
        | some c ↦
            let (limiter, ok) = allow_rpc (r.clock 0) c.rate_limiter in
            let limited = record m {
              clients =
                  update_by_address address (λ e. record e { rate_limiter = limiter }) m.clients;
            } in
            if ok then note (rpc_message id payload) limited else limited
      ]

module _ ⦃floats : Floats⦄ ⦃platform : Platform⦄ where
  -- A new entry; each `configure_` reads the clock.
  unfoldable pub new_entry : Readings → ℕ → (address t : ℕ) → Manager → ClientEntry
  new_entry r id address t m = record fresh_entry {
    id = id;
    address = some address;
    transport = some t;
    approved = true;
    rate_limiter = configure_rpcs (r.clock 2) m.config.max_rpcs_per_sec m.config.rate_limit_burst (
        configure_bytes (r.clock 1) m.config.max_bytes_per_sec
          (platform.scaled_burst m.config.rate_limit_burst)
          (configure_messages (r.clock 0) m.config.max_messages_per_sec m.config.rate_limit_burst
            fresh_limiter));
  }

  unfoldable pub admit : Readings → (address t : ℕ) → Manager → Manager
  admit r address t m =
      let id = generate_client_id m.clients in
      announce id (
        accept t address id (record m { clients = m.clients ++ (new_entry r id address t m ∷ []) }))

  -- The answer to a request, before the limit on clients.
  unfoldable pub judge : Readings → ℕ → List ℕ → Manager → Bool × Manager
  judge r address payload m =
      let (valid, auth_data) = check_token r payload m in
      if valid && m.has_on_approval
      then (
        platform.answer (m.calls ++ (asked_approval address auth_data ∷ [])),
        note (asked_approval address auth_data) m,
      )
      else (valid, m)

  unfoldable pub on_connect_request : Readings → (address t : ℕ) → List ℕ → Manager → Manager
  on_connect_request r address t payload m =
      let (approved, n) = judge r address payload m in
      if not approved
      then reject reject_reason address t n
      else if leb n.config.max_clients (client_count n.clients)
      then reject full_reason address t n
      else admit r address t n

  unfoldable pub process_connect_request : Readings → (address t : ℕ) → List ℕ → Manager → Manager
  process_connect_request r address t payload m =
      if not (serves m.mode) then m else elim (find_client_by_address address m.clients) [
        | none ↦ on_connect_request r address t payload m
        | some c ↦
            if c.approved then accept t address c.id m else on_connect_request r address t payload m
      ]

  -- The first reading of the clock is `t1`, the second `t2`.
  unfoldable pub process_time_sync_request : Readings → (address t : ℕ) → List ℕ → Manager → Manager
  process_time_sync_request r address t payload m =
      if not (serves m.mode) || ltb (length payload) 8
      then m
      else send_sys t address time_sync_response
          (write_u64_be (platform.bits_of (platform.double_of (read_u64 payload)))
            ++ (write_u64_be (platform.bits_of (r.clock 0))
                ++ write_u64_be (platform.bits_of (r.clock 1))))
          m

  unfoldable pub process_time_sync_response : Readings → List ℕ → Manager → Manager
  process_time_sync_response r payload m =
      if not (joins m.mode) || ltb (length payload) 24
      then m
      else note
          (time_sample (platform.double_of (read_u64 payload))
            (platform.double_of (read_u64 (drop 8 payload)))
            (platform.double_of (read_u64 (drop 16 payload))) (r.clock 0))
          m

  unfoldable pub process_system_message :
      Readings → ℕ → (address t : ℕ) → SysType → List ℕ → Manager → Manager
  process_system_message r id address t connect_request payload m =
      process_connect_request r address t payload m
  process_system_message r id address t connect_accept payload m = process_connect_accept payload m
  process_system_message r id address t connect_reject payload m = process_connect_reject m
  process_system_message r id address t disconnect_notify payload m =
      process_disconnect_notify address m
  process_system_message r id address t time_sync_request payload m =
      process_time_sync_request r address t payload m
  process_system_message r id address t time_sync_response payload m =
      process_time_sync_response r payload m
  process_system_message r id address t entity_spawn payload m =
      note_if m.has_entity_manager (entity_message entity_spawn id payload) m
  process_system_message r id address t entity_destroy payload m =
      note_if m.has_entity_manager (entity_message entity_destroy id payload) m
  process_system_message r id address t entity_set_owner payload m =
      note_if m.has_entity_manager (entity_message entity_set_owner id payload) m
  process_system_message r id address t entity_full_state payload m =
      note_if m.has_entity_manager (entity_message entity_full_state id payload) m
  process_system_message r id address t delta_state payload m =
      note_if m.has_replication_manager (delta_message payload) m
  process_system_message r id address t snapshot_ack payload m =
      note_if (m.has_replication_manager && leb 2 (length payload))
        (acknowledged id (read_u16_be (get_or payload 0 0) (get_or payload 1 0))) m
  process_system_message r id address t rpc payload m = process_rpc r id address payload m
  process_system_message r id address t (other n) payload m = m
