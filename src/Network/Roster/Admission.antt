-- ===== src/Network/Roster/Admission.antt =====
-- The table of clients through a request to connect, and through any run of packets.
use campello_net.Prelude.{
  ℕ, suc, ◌+◌, ◌≤◌, ◌<◌, ◌^◌, ◌≡◌, refl, ap, ◌∙◌, arith, true, not, ◌&&◌, ◌||◌, none, List, [], ◌∷◌,
  ◌++◌, ltb, leb, length, drop, get_or, ◌==◌, All, leb→gt, Bool-cases, inl, inr,
}
use campello_net.RateLimiter.{Floats}
use campello_net.Network.{
  Platform, Readings, Config, ClientEntry, Manager, serves, joins, sys_type, SysType,
  connect_request, connect_accept, connect_reject, disconnect_notify, time_sync_request,
  time_sync_response, entity_spawn, entity_destroy, entity_set_owner, entity_full_state,
  delta_state, snapshot_ack, rpc, other,
}
use campello_net.Network.Clients.{find_client_by_address, generate_client_id, client_count}
use campello_net.Network.Sending.{send_sys, disconnect_transport_client}
use campello_net.Network.Messages.{
  new_entry, accept, admit, reject, judge, check_token, on_connect_request, process_connect_request,
  process_time_sync_request, process_time_sync_response, process_system_message,
}
use campello_net.Network.Receiving.{
  Arrival, is_system, receive_system, receive_packet, poll_transport_receives_for,
}
use campello_net.Network.Roster.{
  IsApart, key, keys, keys-append, unused_id, unused_address, found_approved,
  generate_client_id-unused, append-IsRoster, count_all,
}
use campello_net.Network.Roster.Received.{
  IsSession, kept, if-IsSession, elim-IsSession, note_if-IsSession, announce-IsSession,
  process_disconnect_notify-IsSession, process_connect_accept-IsSession,
  process_connect_reject-IsSession, process_rpc-IsSession, receive_user_data-IsSession,
  receive_oversized-IsSession,
}

module _ ⦃floats : Floats⦄ where
  -- One more approved entry is one more client.
  pub count-append :
      (cs : List ClientEntry) (c : ClientEntry)
      → c.approved ≡ true
      → client_count (cs ++ (c ∷ [])) ≡ suc (client_count cs)
  unfolding client_count
  count-append [] c a = rw a refl
  count-append (d ∷ cs) c a = ground (arith, count-append cs c a)

module _ ⦃floats : Floats⦄ {config : Config} {limit : ℕ} (room : limit + 1 < 2 ^ 64) where
  -- A new approved entry with the next number, where the address is free and the limit not reached.
  pub enter-IsSession :
      (m : Manager) (c : ClientEntry)
      → c.id ≡ generate_client_id m.clients
      → c.approved ≡ true
      → All (λ j. IsApart j.address c.address) (keys m.clients)
      → client_count m.clients < limit
      → IsSession config limit m
      → IsSession config limit (record m { clients = m.clients ++ (c ∷ []) })
  enter-IsSession m c i a g h s =
      let free =
        generate_client_id-unused m.clients (omega (arith, count_all m.clients s.roster)) in
      record {
        same_config = s.same_config;
        roster = rw (keys-append m.clients (c ∷ [])) (
            append-IsRoster (key c) (keys m.clients) s.roster a (λ z. omega (arith, free.1, z, i))
              (rw i (unused_id (generate_client_id m.clients) m.clients free.0)) g);
        within = omega (arith, count-append m.clients c a);
      }

module _ ⦃floats : Floats⦄ ⦃platform : Platform⦄ where
  judge-kept :
      (r : Readings) (address : ℕ) (payload : List ℕ) (m : Manager)
      → ((judge r address payload m).1.config ≡ m.config)
        × ((judge r address payload m).1.clients ≡ m.clients)
  unfolding judge
  judge-kept r address payload m =
      elim (Bool-cases ((check_token r payload m).0 && m.has_on_approval)) [
        | inl e ↦ rw e (refl, refl)
        | inr e ↦ rw e (refl, refl)
      ]

module _ ⦃floats : Floats⦄ ⦃platform : Platform⦄ {config : Config} {limit : ℕ}
    (room : limit + 1 < 2 ^ 64) (fits : config.max_clients ≤ limit) where
  admit-IsSession :
      (r : Readings) (address t : ℕ) (m : Manager)
      → find_client_by_address address m.clients ≡ none
      → client_count m.clients < limit
      → IsSession config limit m
      → IsSession config limit (admit r address t m)
  unfolding admit accept send_sys new_entry
  admit-IsSession r address t m e h s =
      let id = generate_client_id m.clients in
      let n = record m { clients = m.clients ++ (new_entry r id address t m ∷ []) } in
      announce-IsSession id (accept t address id n) (
        kept n (accept t address id n) refl refl (
          enter-IsSession room m (new_entry r id address t m) refl refl
            (unused_address address m.clients e) h s))

  on_connect_request-IsSession :
      (r : Readings) (address t : ℕ) (payload : List ℕ) (m : Manager)
      → find_client_by_address address m.clients ≡ none
      → IsSession config limit m
      → IsSession config limit (on_connect_request r address t payload m)
  unfolding on_connect_request reject send_sys disconnect_transport_client
  on_connect_request-IsSession r address t payload m e s =
      let n = (judge r address payload m).1 in
      let same = judge-kept r address payload m in
      let u = kept m n same.0 same.1 s in
      if-IsSession _ _ (not (judge r address payload m).0) (λ b. kept n _ refl refl u)
        (λ b.
          if-IsSession _ _ (leb n.config.max_clients (client_count n.clients))
            (λ b. kept n _ refl refl u)
            (λ b.
              admit-IsSession r address t n (ap (find_client_by_address address) same.1 ∙ e)
                (omega (
                  arith,
                  ap (λ (g : Config). g.max_clients) u.same_config,
                  leb→gt (n.config.max_clients) (client_count n.clients) b,
                ))
                u))

  process_connect_request-IsSession :
      (r : Readings) (address t : ℕ) (payload : List ℕ) (m : Manager)
      → IsSession config limit m
      → IsSession config limit (process_connect_request r address t payload m)
  unfolding process_connect_request accept send_sys
  process_connect_request-IsSession r address t payload m s =
      if-IsSession _ _ (not (serves m.mode)) (λ b. s)
        (λ b.
          elim-IsSession _ _ (find_client_by_address address m.clients)
            (λ e. on_connect_request-IsSession r address t payload m e s)
            (λ c e.
              if-IsSession _ _ c.approved (λ b. kept m _ refl refl s)
                (λ b. absurd (ground (arith, b, found_approved address m.clients c s.roster e)))))

  process_time_sync_request-IsSession :
      (r : Readings) (address t : ℕ) (payload : List ℕ) (m : Manager)
      → IsSession config limit m
      → IsSession config limit (process_time_sync_request r address t payload m)
  unfolding process_time_sync_request send_sys
  process_time_sync_request-IsSession r address t payload m s =
      if-IsSession _ _ (not (serves m.mode) || ltb (length payload) 8) (λ b. s)
        (λ b. kept m _ refl refl s)

  process_time_sync_response-IsSession :
      (r : Readings) (payload : List ℕ) (m : Manager)
      → IsSession config limit m
      → IsSession config limit (process_time_sync_response r payload m)
  unfolding process_time_sync_response
  process_time_sync_response-IsSession r payload m s =
      if-IsSession _ _ (not (joins m.mode) || ltb (length payload) 24) (λ b. s)
        (λ b. kept m _ refl refl s)

  process_system_message-IsSession :
      (r : Readings) (id address t : ℕ) (type : SysType) (payload : List ℕ) (m : Manager)
      → IsSession config limit m
      → IsSession config limit (process_system_message r id address t type payload m)
  unfolding process_system_message
  process_system_message-IsSession r id address t connect_request payload m s =
      process_connect_request-IsSession r address t payload m s
  process_system_message-IsSession r id address t connect_accept payload m s =
      process_connect_accept-IsSession payload m s
  process_system_message-IsSession r id address t connect_reject payload m s =
      process_connect_reject-IsSession m s
  process_system_message-IsSession r id address t disconnect_notify payload m s =
      process_disconnect_notify-IsSession address m s
  process_system_message-IsSession r id address t time_sync_request payload m s =
      process_time_sync_request-IsSession r address t payload m s
  process_system_message-IsSession r id address t time_sync_response payload m s =
      process_time_sync_response-IsSession r payload m s
  process_system_message-IsSession r id address t entity_spawn payload m s =
      note_if-IsSession m.has_entity_manager _ m s
  process_system_message-IsSession r id address t entity_destroy payload m s =
      note_if-IsSession m.has_entity_manager _ m s
  process_system_message-IsSession r id address t entity_set_owner payload m s =
      note_if-IsSession m.has_entity_manager _ m s
  process_system_message-IsSession r id address t entity_full_state payload m s =
      note_if-IsSession m.has_entity_manager _ m s
  process_system_message-IsSession r id address t delta_state payload m s =
      note_if-IsSession m.has_replication_manager _ m s
  process_system_message-IsSession r id address t snapshot_ack payload m s =
      note_if-IsSession (m.has_replication_manager && leb 2 (length payload)) _ m s
  process_system_message-IsSession r id address t rpc payload m s =
      process_rpc-IsSession r id address payload m s
  process_system_message-IsSession r id address t (other n) payload m s = s

  receive_system-IsSession :
      (r : Readings) (address t : ℕ) (bytes : List ℕ) (m : Manager)
      → IsSession config limit m
      → IsSession config limit (receive_system r address t bytes m)
  unfolding receive_system
  receive_system-IsSession r address t bytes m s =
      if-IsSession _ _ (not (serves m.mode))
        (λ b.
          process_system_message-IsSession r 0 address t (sys_type (get_or bytes 2 0))
            (drop 3 bytes) m s)
        (λ b.
          elim-IsSession _ _ (find_client_by_address address m.clients)
            (λ e. unknown (sys_type (get_or bytes 2 0)))
            (λ c e.
              process_system_message-IsSession r c.id address t (sys_type (get_or bytes 2 0))
                (drop 3 bytes) m s))
    where
      unknown :
          (type : SysType)
          → IsSession config limit (elim type [
            | connect_request ↦
                process_system_message r 0 address t connect_request (drop 3 bytes) m
            | _ ↦ m
          ])
      unknown connect_request =
          process_system_message-IsSession r 0 address t connect_request (drop 3 bytes) m s
      unknown connect_accept = s
      unknown connect_reject = s
      unknown disconnect_notify = s
      unknown time_sync_request = s
      unknown time_sync_response = s
      unknown entity_spawn = s
      unknown entity_destroy = s
      unknown entity_set_owner = s
      unknown entity_full_state = s
      unknown delta_state = s
      unknown snapshot_ack = s
      unknown rpc = s
      unknown (other n) = s

  receive_packet-IsSession :
      (t : ℕ) (a : Arrival) (m : Manager)
      → IsSession config limit m
      → IsSession config limit (receive_packet t a m)
  unfolding receive_packet
  receive_packet-IsSession t a m s =
      if-IsSession _ _ (length a.bytes == 0) (λ b. s)
        (λ b.
          if-IsSession _ _ (ltb m.config.max_packet_size (length a.bytes))
            (λ b. receive_oversized-IsSession a.sender m s)
            (λ b.
              if-IsSession _ _ (is_system a.bytes)
                (λ b. receive_system-IsSession a.readings a.sender t a.bytes m s)
                (λ b. receive_user_data-IsSession a.readings a.sender a.bytes m s)))

  -- Whatever packets a transport hands over, in any number and from any senders, the table of
  -- clients stays well formed: every entry is approved, no entry has the number 0, no two have the
  -- same number or the same address; and there are never more clients than `limit`, for a limit of
  -- at least `max_clients` that held at the start and is below 2^64 - 1.
  pub poll_transport_receives_for-IsSession :
      (t : ℕ) (arrivals : List Arrival) (m : Manager)
      → IsSession config limit m
      → IsSession config limit (poll_transport_receives_for t arrivals m)
  unfolding poll_transport_receives_for
  poll_transport_receives_for-IsSession t [] m s = s
  poll_transport_receives_for-IsSession t (a ∷ arrivals) m s =
      poll_transport_receives_for-IsSession t arrivals (receive_packet t a m)
        (receive_packet-IsSession t a m s)
