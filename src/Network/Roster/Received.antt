-- ===== src/Network/Roster/Received.antt =====
-- What a packet from the network can do to the table of clients.
use campello_net.Prelude.{
  u64, ◌==◌, ℕ, ◌+◌, ◌≤◌, ◌≡◌, refl, sym, subst, ◌∙◌, arith, Bool, true, false, not, ◌||◌, Option,
  none, some, List, if◌then◌else◌, ltb, length,
}
use campello_net.RateLimiter.{Floats, allow_rpc, allow_message}
use campello_net.Network.{
  Call, Readings, Config, ClientEntry, Manager, note, note_if, serves, joins, read_u64,
}
use campello_net.Network.Clients.{
  find_client_by_address, remove_client, client_count, update_by_address,
}
use campello_net.Network.Sending.{
  disconnect_transport_client, push_message, flush_to_callbacks, announce, dismiss,
}
use campello_net.Network.Messages.{
  drop_transport, process_connect_accept, process_connect_reject, remove_and_dismiss,
  process_disconnect_notify, process_rpc,
}
use campello_net.Network.Receiving.{
  is_client_mode, receive_oversized, receive_from_client, receive_user_data,
}
use campello_net.Network.Roster.{
  IsRoster, keys, remove-IsRoster, remove-count, count_keys, keys-update_by_address,
}

-- A manager with this configuration, a well-formed table, and at most so many clients.
pub record IsSession ⦃floats : Floats⦄ (config : Config) (limit : ℕ) (m : Manager) : Type 0 where
  pub same_config : m.config ≡ config
  pub roster : IsRoster (keys m.clients)
  pub within : client_count m.clients ≤ limit

module _ ⦃floats : Floats⦄ {config : Config} {limit : ℕ} where
  -- What leaves the configuration and the table as they are.
  pub kept :
      (m n : Manager)
      → n.config ≡ m.config
      → n.clients ≡ m.clients
      → IsSession config limit m
      → IsSession config limit n
  kept m n e f s = record {
    same_config = e ∙ s.same_config;
    roster = rw f s.roster;
    within = rw f s.within;
  }

  -- A table with the same keys.
  pub rekeyed :
      (m : Manager) (cs : List ClientEntry)
      → keys cs ≡ keys m.clients
      → IsSession config limit m
      → IsSession config limit (record m { clients = cs })
  rekeyed m cs e s = record {
    same_config = s.same_config;
    roster = subst IsRoster (sym e) s.roster;
    within = rw (count_keys m.clients cs e s.roster) s.within;
  }

  -- Through the tests and the searches of the code.
  pub if-IsSession :
      (m n : Manager) (b : Bool)
      → (b ≡ true → IsSession config limit m)
      → (b ≡ false → IsSession config limit n)
      → IsSession config limit (if b then m else n)
  if-IsSession m n true h g = h refl
  if-IsSession m n false h g = g refl

  pub elim-IsSession {ℓ} :
      {A : Type ℓ} (m : Manager) (f : A → Manager) (o : Option A)
      → (o ≡ none → IsSession config limit m)
      → ((a : A) → o ≡ some a → IsSession config limit (f a))
      → IsSession config limit (elim o [ none ↦ m | some a ↦ f a ])
  elim-IsSession m f none h g = h refl
  elim-IsSession m f (some a) h g = g a refl

  pub note_if-IsSession :
      (b : Bool) (c : Call) (m : Manager)
      → IsSession config limit m
      → IsSession config limit (note_if b c m)
  note_if-IsSession true c m s = kept m (note c m) refl refl s
  note_if-IsSession false c m s = s

  pub announce-IsSession :
      (id : ℕ) (m : Manager) → IsSession config limit m → IsSession config limit (announce id m)
  unfolding announce
  announce-IsSession id m s =
      note_if-IsSession m.has_replication_manager _ _ (note_if-IsSession m.has_on_connected _ _ s)

  pub dismiss-IsSession :
      (id : ℕ) (m : Manager) → IsSession config limit m → IsSession config limit (dismiss id m)
  unfolding dismiss
  dismiss-IsSession id m s =
      note_if-IsSession m.has_replication_manager _ _
        (note_if-IsSession m.has_on_disconnected _ _ s)

  drop_transport-IsSession :
      (m : Manager) → IsSession config limit m → IsSession config limit (drop_transport m)
  drop_transport-IsSession m s =
      elim-IsSession _ _ m.transport (λ e. s) (λ t e. kept m _ refl refl s)

  remove_and_dismiss-IsSession :
      (id : ℕ) (m : Manager)
      → IsSession config limit m
      → IsSession config limit (remove_and_dismiss id m)
  unfolding remove_and_dismiss
  remove_and_dismiss-IsSession id m s =
      dismiss-IsSession id (record m { clients = remove_client id m.clients })
        (record {
          same_config = s.same_config;
          roster = remove-IsRoster id m.clients s.roster;
          within = omega (arith, remove-count id m.clients, s.within);
        })

  pub process_disconnect_notify-IsSession :
      (address : ℕ) (m : Manager)
      → IsSession config limit m
      → IsSession config limit (process_disconnect_notify address m)
  unfolding process_disconnect_notify
  process_disconnect_notify-IsSession address m s =
      if-IsSession _ _ (serves m.mode)
        (λ b.
          elim-IsSession _ _ (find_client_by_address address m.clients) (λ e. s)
            (λ c e. remove_and_dismiss-IsSession c.id m s))
        (λ b.
          if-IsSession _ _ (joins m.mode)
            (λ b. dismiss-IsSession 0 _ (
              drop_transport-IsSession (record m { client_connected = false; local_client_id = 0 })
                (kept m (record m { client_connected = false; local_client_id = 0 }) refl refl s)))
            (λ b. s))

  pub process_connect_accept-IsSession :
      (payload : List ℕ) (m : Manager)
      → IsSession config limit m
      → IsSession config limit (process_connect_accept payload m)
  unfolding process_connect_accept
  process_connect_accept-IsSession payload m s =
      if-IsSession _ _ (not (joins m.mode) || ltb (length payload) 8) (λ b. s)
        (λ b. announce-IsSession (read_u64 payload) _ (
          kept m
            (record m {
              local_client_id = read_u64 payload;
              client_connected = true;
              awaiting_accept = false;
            })
            refl refl s))

  pub process_connect_reject-IsSession :
      (m : Manager) → IsSession config limit m → IsSession config limit (process_connect_reject m)
  unfolding process_connect_reject
  process_connect_reject-IsSession m s =
      if-IsSession _ _ (joins m.mode)
        (λ b.
          let n = record m { awaiting_accept = false } in
          kept (drop_transport n) (record (drop_transport n) { client_connected = false }) refl refl
            (drop_transport-IsSession n (kept m n refl refl s)))
        (λ b. s)

  pub process_rpc-IsSession :
      (r : Readings) (id address : ℕ) (payload : List ℕ) (m : Manager)
      → IsSession config limit m
      → IsSession config limit (process_rpc r id address payload m)
  unfolding process_rpc
  process_rpc-IsSession r id address payload m s =
      if-IsSession _ _ (not m.has_rpc_manager) (λ b. s)
        (λ b.
          if-IsSession _ _ (not (serves m.mode)) (λ b. kept m _ refl refl s)
            (λ b.
              elim-IsSession _ _ (find_client_by_address address m.clients)
                (λ e. kept m _ refl refl s)
                (λ c e.
                  let n = record m {
                    clients =
                        update_by_address address
                          (λ e. record e {
                            rate_limiter = (allow_rpc (r.clock 0) c.rate_limiter).0;
                          })
                          m.clients;
                  } in
                  let t =
                    rekeyed m n.clients (keys-update_by_address address _ m.clients (λ c. refl))
                      s in
                  if-IsSession _ _ (allow_rpc (r.clock 0) c.rate_limiter).1
                    (λ b. kept n _ refl refl t) (λ b. t))))

  -- The handlers that send or pass on, and keep the table.
  pub receive_from_client-IsSession :
      (r : Readings) (address : ℕ) (bytes : List ℕ) (c : ClientEntry) (m : Manager)
      → IsSession config limit m
      → IsSession config limit (receive_from_client r address bytes c m)
  unfolding receive_from_client push_message flush_to_callbacks
  receive_from_client-IsSession r address bytes c m s =
      let (limiter, ok) = allow_message (r.clock 0) (r.clock 1) (length bytes) c.rate_limiter in
      let counted =
        update_by_address address
          (λ e. record e {
            rate_limiter = limiter;
            bytes_received = u64 (e.bytes_received + length bytes);
            packets_received = u64 (e.packets_received + 1);
          })
          m.clients in
      let limited =
        update_by_address address (λ e. record e { rate_limiter = limiter }) m.clients in
      let n = record m { clients = counted } in
      let queued = push_message c.id bytes n in
      if-IsSession _ _ ok
        (λ b. note_if-IsSession m.has_on_data _ queued (
          kept n queued refl refl
            (rekeyed m counted (keys-update_by_address address _ m.clients (λ c. refl)) s)))
        (λ b. rekeyed m limited (keys-update_by_address address _ m.clients (λ c. refl)) s)

  pub receive_user_data-IsSession :
      (r : Readings) (address : ℕ) (bytes : List ℕ) (m : Manager)
      → IsSession config limit m
      → IsSession config limit (receive_user_data r address bytes m)
  unfolding receive_user_data push_message flush_to_callbacks
  receive_user_data-IsSession r address bytes m s =
      if-IsSession _ _ (serves m.mode)
        (λ b.
          elim-IsSession _ _ (find_client_by_address address m.clients) (λ e. s)
            (λ c e. receive_from_client-IsSession r address bytes c m s))
        (λ b.
          if-IsSession _ _ (is_client_mode m.mode)
            (λ b.
              note_if-IsSession m.has_on_data _ (push_message 0 bytes m)
                (kept m (push_message 0 bytes m) refl refl s))
            (λ b. s))

  pub receive_oversized-IsSession :
      (address : ℕ) (m : Manager)
      → IsSession config limit m
      → IsSession config limit (receive_oversized address m)
  unfolding receive_oversized disconnect_transport_client
  receive_oversized-IsSession address m s =
      if-IsSession _ _ (not (serves m.mode)) (λ b. s)
        (λ b.
          elim-IsSession _ _ (find_client_by_address address m.clients) (λ e. s)
            (λ c e.
              elim-IsSession _ _ c.transport (λ e. s)
                (λ t e.
                  if-IsSession _ _ (c.id == m.local_client_id) (λ b. s)
                    (λ b.
                      remove_and_dismiss-IsSession c.id _
                        (kept m (disconnect_transport_client t address m) refl refl s)))))
