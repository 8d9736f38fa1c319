-- ===== src/Network/Handshake.antt =====
-- A client's request, the server's answer, and what the client makes of it.
use campello_net.Prelude.{
  ℕ, ◌+◌, ◌≤◌, ◌<◌, ◌^◌, ◌≡◌, refl, ap, ◌∙◌, arith, Bool, true, false, not, ◌||◌, none, some, List,
  [], ◌∷◌, ◌++◌, append-nil, append_assoc, if◌then◌else◌, if_true, if_false, length, ◌==◌, ==_refl,
  Bool-cases, inl, inr,
}
use campello_net.Bytes.{write_u64_be, read-write_u64}
use campello_net.Packet.{reliable_ordered}
use campello_net.RateLimiter.{Floats}
use campello_net.Network.{
  Call, Platform, Readings, ClientEntry, Manager, mode_client, note, note_if, serves, joins,
  sys_type, SysType, connect_request, connect_accept, sent_to, told_connected, replicates, read_u64,
}
use campello_net.Network.Clients.{
  find_client_by_id, find_client_by_address, generate_client_id, client_count,
}
use campello_net.Network.Sending.{send_sys, sys_packet, announce}
use campello_net.Network.Messages.{
  new_entry, accept, admit, judge, check_token, on_connect_request, process_connect_request,
  process_connect_accept, process_system_message,
}
use campello_net.Network.Roster.{generate_client_id-unused}
use campello_net.Network.Receiving.{Arrival, is_system, receive_system, receive_packet}

module _ ⦃floats : Floats⦄ where
  -- The calls that follow the acceptance of a client.
  abbrev pub notices : ℕ → Manager → List Call
  notices id m =
      (if m.has_on_connected then told_connected id ∷ [] else [])
      ++ (if m.has_replication_manager then replicates id ∷ [] else [])

  announce-calls : (id : ℕ) (m : Manager) → (announce id m).calls ≡ m.calls ++ notices id m
  unfolding announce
  announce-calls id m = elim (Bool-cases m.has_on_connected) [
    | inl e ↦ elim (Bool-cases m.has_replication_manager) [
      | inl f ↦ simp (e, f) (append_assoc m.calls (told_connected id ∷ []) (replicates id ∷ []))
      | inr f ↦ simp (e, f)
    ]
    | inr e ↦ elim (Bool-cases m.has_replication_manager) [
      | inl f ↦ simp (e, f)
      | inr f ↦ simp (e, f, append-nil)
    ]
  ]

  -- The packet of a system message, as `pop_receive` hands it over.
  abbrev pub arrival : Readings → (sender : ℕ) → SysType → List ℕ → Arrival
  arrival r sender type payload = record {
    sender = sender;
    bytes = sys_packet type payload;
    readings = r;
  }

module _ ⦃floats : Floats⦄ ⦃platform : Platform⦄ where
  pub receive-system_packet :
      (t : ℕ) (r : Readings) (sender : ℕ) (type : SysType) (payload : List ℕ) (m : Manager)
      → 3 + length payload ≤ m.config.max_packet_size
      → receive_packet t (arrival r sender type payload) m
        ≡ receive_system r sender t (sys_packet type payload) m
  unfolding receive_packet is_system sys_packet
  receive-system_packet t r sender type payload m h = ground (arith, h)

  -- A client takes the number that it is sent.
  receive-accept :
      (u : ℕ) (r : Readings) (sender id : ℕ) (c : Manager)
      → c.mode ≡ mode_client
      → 11 ≤ c.config.max_packet_size
      → id < 2 ^ 64
      → receive_packet u (arrival r sender connect_accept (write_u64_be id)) c
        ≡ announce id
            (record c { local_client_id = id; client_connected = true; awaiting_accept = false })
  unfolding receive_system sys_packet sys_type process_system_message process_connect_accept
      write_u64_be read_u64
  receive-accept u r sender id c f g h =
      receive-system_packet u r sender connect_accept (write_u64_be id) c g
      ∙ if_true _ _ (not (serves c.mode)) (ap (λ k. not (serves k)) f)
      ∙ if_false _ _ (not (joins c.mode) || false) (ap (λ k. not (joins k) || false) f)
      ∙ ap
          (λ n.
            announce n
              (record c { local_client_id = n; client_connected = true; awaiting_accept = false }))
          (read-write_u64 id h)

  on_connect_request-admit :
      (r : Readings) (sender t : ℕ) (m : Manager)
      → m.config.require_connection_token ≡ false
      → m.has_on_approval ≡ false
      → client_count m.clients < m.config.max_clients
      → on_connect_request r sender t [] m ≡ admit r sender t m
  unfolding on_connect_request judge check_token
  on_connect_request-admit r sender t m token approval room = ground (arith, token, approval, room)

  -- A server that has room, asks for no token and has no callback for approval, admits a new
  -- address.
  receive-request :
      (t : ℕ) (r : Readings) (sender : ℕ) (m : Manager)
      → serves m.mode ≡ true
      → 3 ≤ m.config.max_packet_size
      → find_client_by_address sender m.clients ≡ none
      → m.config.require_connection_token ≡ false
      → m.has_on_approval ≡ false
      → client_count m.clients < m.config.max_clients
      → receive_packet t (arrival r sender connect_request []) m ≡ admit r sender t m
  unfolding receive_system sys_packet sys_type process_system_message process_connect_request
      on_connect_request judge check_token
  receive-request t r sender m f g free token approval room =
      receive-system_packet t r sender connect_request [] m g
      ∙ if_false _ _ (not (serves m.mode)) (ap not f)
      ∙ ap
          (λ o. elim o as (λ x. Manager) [
            | some c ↦ process_system_message r c.id sender t connect_request [] m
            | none ↦ process_system_message r 0 sender t connect_request [] m
          ])
          free
      ∙ if_false _ _ (not (serves m.mode)) (ap not f)
      ∙ ap
          (λ o. elim o as (λ x. Manager) [
            | none ↦ on_connect_request r sender t [] m
            | some c ↦
                if c.approved then accept t sender c.id m else on_connect_request r sender t [] m
          ])
          free
      ∙ on_connect_request-admit r sender t m token approval room

  -- A new table entry is found by its number.
  find-append :
      (id : ℕ) (cs : List ClientEntry) (c : ClientEntry)
      → find_client_by_id id cs ≡ none
      → c.id ≡ id
      → find_client_by_id id (cs ++ (c ∷ [])) ≡ some c
  unfolding find_client_by_id
  find-append id [] c e f = rw (f, ==_refl id) refl
  find-append id (d ∷ cs) c e f = elim (Bool-cases (d.id == id)) [
    | inl b ↦ absurd (ground (arith, e, b))
    | inr b ↦ rw b (find-append id cs c (ground (arith, e, b)) f)
  ]

  -- A call changes nothing but the record of the calls.
  note_if-kept :
      {A : Type 0} (f : Manager → A) (b : Bool) (c : Call) (m : Manager)
      → f (note c m) ≡ f m
      → f (note_if b c m) ≡ f m
  note_if-kept f true c m e = e
  note_if-kept f false c m e = refl

  announce-clients : (id : ℕ) (m : Manager) → (announce id m).clients ≡ m.clients
  unfolding announce
  announce-clients id m =
      note_if-kept (λ (x : Manager). x.clients) m.has_replication_manager (replicates id)
        (note_if m.has_on_connected (told_connected id) m) refl
      ∙ note_if-kept (λ (x : Manager). x.clients) m.has_on_connected (told_connected id) m refl

  announce-client_connected :
      (id : ℕ) (m : Manager) → (announce id m).client_connected ≡ m.client_connected
  unfolding announce
  announce-client_connected id m =
      note_if-kept (λ (x : Manager). x.client_connected) m.has_replication_manager (replicates id)
        (note_if m.has_on_connected (told_connected id) m) refl
      ∙ note_if-kept (λ (x : Manager). x.client_connected) m.has_on_connected (told_connected id) m
          refl

  announce-local_client_id :
      (id : ℕ) (m : Manager) → (announce id m).local_client_id ≡ m.local_client_id
  unfolding announce
  announce-local_client_id id m =
      note_if-kept (λ (x : Manager). x.local_client_id) m.has_replication_manager (replicates id)
        (note_if m.has_on_connected (told_connected id) m) refl
      ∙ note_if-kept (λ (x : Manager). x.local_client_id) m.has_on_connected (told_connected id) m
          refl

  announce-awaiting_accept :
      (id : ℕ) (m : Manager) → (announce id m).awaiting_accept ≡ m.awaiting_accept
  unfolding announce
  announce-awaiting_accept id m =
      note_if-kept (λ (x : Manager). x.awaiting_accept) m.has_replication_manager (replicates id)
        (note_if m.has_on_connected (told_connected id) m) refl
      ∙ note_if-kept (λ (x : Manager). x.awaiting_accept) m.has_on_connected (told_connected id) m
          refl

  -- The request of a client from an address that the server does not know is answered with one
  -- packet, followed by the server's notices, and the server is then connected to a client of that
  -- address; the packet makes the client connected, under the number that the server gave it. The
  -- server has room, asks for no token and has no callback for approval; both sides accept packets
  -- of 11 bytes.
  pub handshake :
      (t u : ℕ) (r s : Readings) (address from : ℕ) (m c : Manager)
      → serves m.mode ≡ true
      → c.mode ≡ mode_client
      → 11 ≤ m.config.max_packet_size
      → 11 ≤ c.config.max_packet_size
      → find_client_by_address address m.clients ≡ none
      → m.config.require_connection_token ≡ false
      → m.has_on_approval ≡ false
      → client_count m.clients < m.config.max_clients
      → length m.clients + 1 < 2 ^ 64
      → (id : ℕ) × (entry : ClientEntry) × (packet : List ℕ) × ((receive_packet t
            (arrival r address connect_request [])
            m).calls
          ≡ m.calls ++ (sent_to t address packet reliable_ordered ∷ notices id m))
        × (find_client_by_id id (receive_packet t (arrival r address connect_request []) m).clients
            ≡ some entry)
        × (entry.address ≡ some address)
        × (entry.approved ≡ true)
        × ((receive_packet u
              (record { sender = from; bytes = packet; readings = s })
              c).client_connected
            ≡ true)
        × ((receive_packet u
              (record { sender = from; bytes = packet; readings = s })
              c).local_client_id
            ≡ id)
        × ((receive_packet u
              (record { sender = from; bytes = packet; readings = s })
              c).awaiting_accept
            ≡ false)
  unfolding admit accept send_sys new_entry
  handshake t u r s address from m c f g h k free token approval room small =
      let id = generate_client_id m.clients in
      let entry = new_entry r id address t m in
      let n = record m { clients = m.clients ++ (entry ∷ []) } in
      let unused = generate_client_id-unused m.clients small in
      let answer = receive-request t r address m f (omega arith) free token approval room in
      let accepted = receive-accept u s from id c g k (omega (arith, unused.2)) in
      let joined = record c {
        local_client_id = id;
        client_connected = true;
        awaiting_accept = false;
      } in
      (
        id,
        entry,
        sys_packet connect_accept (write_u64_be id),
        ap (λ (x : Manager). x.calls) answer
            ∙ announce-calls id (accept t address id n)
            ∙ append_assoc m.calls _ (notices id m),
        ap (λ (x : Manager). find_client_by_id id x.clients) answer
            ∙ ap (find_client_by_id id) (announce-clients id (accept t address id n))
            ∙ find-append id m.clients entry unused.0 refl,
        refl,
        refl,
        ap (λ (x : Manager). x.client_connected) accepted ∙ announce-client_connected id joined,
        ap (λ (x : Manager). x.local_client_id) accepted ∙ announce-local_client_id id joined,
        ap (λ (x : Manager). x.awaiting_accept) accepted ∙ announce-awaiting_accept id joined,
      )
