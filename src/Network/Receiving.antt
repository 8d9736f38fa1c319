-- ===== src/Network/Receiving.antt =====
-- `Impl::poll_transport_receives_for`: what happens to each packet that a transport hands over.
use campello_net.Prelude.{
  ℕ, ◌+◌, Bool, true, false, not, ◌&&◌, none, some, List, [], ◌∷◌, ◌==◌, ltb, leb, if◌then◌else◌,
  u64, length, drop, get_or,
}
use campello_net.RateLimiter.{Floats, allow_message}
use campello_net.Network.{
  connect_request, sys_type, serves, Mode, mode_client, Platform, Readings, ClientEntry, Manager,
}
use campello_net.Network.Clients.{find_client_by_address, update_by_address}
use campello_net.Network.Sending.{disconnect_transport_client, push_message, flush_to_callbacks}
use campello_net.Network.Messages.{remove_and_dismiss, process_system_message}

-- One result of `pop_receive`: at most 4096 bytes; the sender is a valid address.
pub record Arrival ⦃floats : Floats⦄ : Type 0 where
  pub sender : ℕ
  pub bytes : List ℕ
  pub readings : Readings

abbrev pub is_client_mode : Mode → Bool
is_client_mode mode_client = true
is_client_mode _ = false

-- `len >= 3` and `SYS_MAGIC`.
unfoldable pub is_system : List ℕ → Bool
is_system bytes = leb 3 (length bytes) && ((get_or bytes 0 0 == 0xCA) && (get_or bytes 1 0 == 0xFE))

module _ ⦃floats : Floats⦄ where
  -- A packet beyond `max_packet_size` costs a remote client its place.
  unfoldable pub receive_oversized : ℕ → Manager → Manager
  receive_oversized address m =
      if not (serves m.mode) then m else elim (find_client_by_address address m.clients) [
        | none ↦ m
        | some c ↦ elim c.transport [
          | none ↦ m
          | some t ↦
              if c.id == m.local_client_id
              then m
              else remove_and_dismiss c.id (disconnect_transport_client t address m)
        ]
      ]

  unfoldable pub receive_from_client : Readings → ℕ → List ℕ → ClientEntry → Manager → Manager
  receive_from_client r address bytes c m =
      let (limiter, ok) = allow_message (r.clock 0) (r.clock 1) (length bytes) c.rate_limiter in
      if ok
      then flush_to_callbacks c.id bytes (
          push_message c.id bytes (record m {
            clients =
                update_by_address address
                  (λ e. record e {
                    rate_limiter = limiter;
                    bytes_received = u64 (e.bytes_received + length bytes);
                    packets_received = u64 (e.packets_received + 1);
                  })
                  m.clients;
          }))
      else record m {
        clients = update_by_address address (λ e. record e { rate_limiter = limiter }) m.clients;
      }

  unfoldable pub receive_user_data : Readings → ℕ → List ℕ → Manager → Manager
  receive_user_data r address bytes m =
      if serves m.mode
      then elim (find_client_by_address address m.clients) [
        | none ↦ m
        | some c ↦ receive_from_client r address bytes c m
      ]
      else if is_client_mode m.mode
      then flush_to_callbacks 0 bytes (push_message 0 bytes m)
      else m

module _ ⦃floats : Floats⦄ ⦃platform : Platform⦄ where
  unfoldable pub receive_system : Readings → (address t : ℕ) → List ℕ → Manager → Manager
  receive_system r address t bytes m =
      let type = sys_type (get_or bytes 2 0) in
      if not (serves m.mode)
      then process_system_message r 0 address t type (drop 3 bytes) m
      else elim (find_client_by_address address m.clients) [
        | some c ↦ process_system_message r c.id address t type (drop 3 bytes) m
        | none ↦ elim type [
          | connect_request ↦ process_system_message r 0 address t connect_request (drop 3 bytes) m
          | _ ↦ m
        ]
      ]

  -- One pass of the loop.
  unfoldable pub receive_packet : ℕ → Arrival → Manager → Manager
  receive_packet t a m =
      if length a.bytes == 0
      then m
      else if ltb m.config.max_packet_size (length a.bytes)
      then receive_oversized a.sender m
      else if is_system a.bytes
      then receive_system a.readings a.sender t a.bytes m
      else receive_user_data a.readings a.sender a.bytes m

  unfoldable pub poll_transport_receives_for : ℕ → List Arrival → Manager → Manager
  poll_transport_receives_for t [] m = m
  poll_transport_receives_for t (a ∷ arrivals) m =
      poll_transport_receives_for t arrivals (receive_packet t a m)
