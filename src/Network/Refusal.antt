-- ===== src/Network/Refusal.antt =====
-- The requests that a server turns down.
use campello_net.Prelude.{
  ℕ, ◌+◌, ◌≤◌, ◌≡◌, refl, ap, ◌∙◌, arith, true, false, not, ◌&&◌, none, some, List, [], ◌∷◌, ◌++◌,
  if_false, if◌then◌else◌, leb, length, append_assoc,
}
use campello_net.Packet.{reliable_ordered}
use campello_net.ConnectionToken.{validate}
use campello_net.RateLimiter.{Floats}
use campello_net.Network.{
  Platform, Readings, Manager, serves, connect_request, sys_type, connect_reject, disconnect_notify,
  sent_to,
}
use campello_net.Network.Clients.{find_client_by_address, client_count}
use campello_net.Network.Sending.{send_sys, sys_packet, disconnect_transport_client}
use campello_net.Network.Messages.{
  accept, reject, judge, check_token, reject_reason, full_reason, on_connect_request,
  process_connect_request, process_system_message,
}
use campello_net.Network.Receiving.{receive_system, receive_packet}
use campello_net.Network.Handshake.{arrival, receive-system_packet}

module _ ⦃floats : Floats⦄ ⦃platform : Platform⦄ where
  on_connect_request-token :
      (r : Readings) (address t : ℕ) (payload : List ℕ) (m : Manager)
      → m.config.require_connection_token ≡ true
      → (leb 64 (length payload) && validate payload m.config.connection_token_secret r.seconds)
        ≡ false
      → on_connect_request r address t payload m ≡ reject reject_reason address t m
  unfolding on_connect_request judge check_token
  on_connect_request-token r address t payload m e f = ground (arith, e, f)

  on_connect_request-full :
      (r : Readings) (address t : ℕ) (payload : List ℕ) (m : Manager)
      → m.config.require_connection_token ≡ false
      → m.config.max_clients ≤ client_count m.clients
      → m.has_on_approval ≡ false
      → on_connect_request r address t payload m ≡ reject full_reason address t m
  unfolding on_connect_request judge check_token
  on_connect_request-full r address t payload m e f h = ground (arith, e, f, h)

  -- What a request from an unknown address comes to at a server.
  receive-unknown :
      (t : ℕ) (r : Readings) (address : ℕ) (payload : List ℕ) (m : Manager)
      → 3 + length payload ≤ m.config.max_packet_size
      → serves m.mode ≡ true
      → find_client_by_address address m.clients ≡ none
      → receive_packet t (arrival r address connect_request payload) m
        ≡ on_connect_request r address t payload m
  unfolding receive_system sys_packet sys_type process_system_message process_connect_request
  receive-unknown t r address payload m g f free =
      receive-system_packet t r address connect_request payload m g
      ∙ if_false _ _ (not (serves m.mode)) (ap not f)
      ∙ ap
          (λ o. elim o as (λ x. Manager) [
            | some c ↦ process_system_message r c.id address t connect_request payload m
            | none ↦ process_system_message r 0 address t connect_request payload m
          ])
          free
      ∙ if_false _ _ (not (serves m.mode)) (ap not f)
      ∙ ap
          (λ o. elim o as (λ x. Manager) [
            | none ↦ on_connect_request r address t payload m
            | some c ↦
                if c.approved
                then accept t address c.id m
                else on_connect_request r address t payload m
          ])
          free

  reject-effect :
      (reason : List ℕ) (address t : ℕ) (m : Manager)
      → ((reject reason address t m).clients ≡ m.clients)
        × ((reject reason address t m).calls
            ≡ m.calls
              ++ (sent_to t address (sys_packet connect_reject reason) reliable_ordered
                  ∷ sent_to t address (sys_packet disconnect_notify []) reliable_ordered
                  ∷ []))
  unfolding reject send_sys disconnect_transport_client
  reject-effect reason address t m = (refl, append_assoc m.calls _ _)

  -- A server that requires tokens turns down every request from an unknown address that does not
  -- start with a valid token: its table stays as it is, no callback is asked or told, and the two
  -- packets that it sends are the rejection and the notice of the end.
  pub unauthenticated :
      (t : ℕ) (r : Readings) (address : ℕ) (payload : List ℕ) (m : Manager)
      → 3 + length payload ≤ m.config.max_packet_size
      → serves m.mode ≡ true
      → find_client_by_address address m.clients ≡ none
      → m.config.require_connection_token ≡ true
      → (leb 64 (length payload) && validate payload m.config.connection_token_secret r.seconds)
        ≡ false
      → ((receive_packet t (arrival r address connect_request payload) m).clients ≡ m.clients)
        × ((receive_packet t (arrival r address connect_request payload) m).calls
            ≡ m.calls
              ++ (sent_to t address (sys_packet connect_reject reject_reason) reliable_ordered
                  ∷ sent_to t address (sys_packet disconnect_notify []) reliable_ordered
                  ∷ []))
  unauthenticated t r address payload m g f free e h =
      let same =
        receive-unknown t r address payload m g f free
        ∙ on_connect_request-token r address t payload m e h in
      let effect = reject-effect reject_reason address t m in
      (
        ap (λ (x : Manager). x.clients) same ∙ effect.0,
        ap (λ (x : Manager). x.calls) same ∙ effect.1,
      )

  -- A server that is full, asks for no token and has no callback for approval turns down every
  -- request from an unknown address: its table stays as it is, and the two packets that it sends
  -- are the rejection, with the reason "FULL", and the notice of the end.
  pub turned_away :
      (t : ℕ) (r : Readings) (address : ℕ) (payload : List ℕ) (m : Manager)
      → 3 + length payload ≤ m.config.max_packet_size
      → serves m.mode ≡ true
      → find_client_by_address address m.clients ≡ none
      → m.config.require_connection_token ≡ false
      → m.config.max_clients ≤ client_count m.clients
      → m.has_on_approval ≡ false
      → ((receive_packet t (arrival r address connect_request payload) m).clients ≡ m.clients)
        × ((receive_packet t (arrival r address connect_request payload) m).calls
            ≡ m.calls
              ++ (sent_to t address (sys_packet connect_reject full_reason) reliable_ordered
                  ∷ sent_to t address (sys_packet disconnect_notify []) reliable_ordered
                  ∷ []))
  turned_away t r address payload m g f free e full h =
      let same =
        receive-unknown t r address payload m g f free
        ∙ on_connect_request-full r address t payload m e full h in
      let effect = reject-effect full_reason address t m in
      (
        ap (λ (x : Manager). x.clients) same ∙ effect.0,
        ap (λ (x : Manager). x.calls) same ∙ effect.1,
      )
