-- ===== src/Loopback/Delivery.antt =====
-- What a client sends, and what its server receives.
use campello_net.Prelude.{
  ℕ, ◌≡◌, ◌≢◌, refl, ap, sym, ◌∙◌, true, false, some, List, [], ◌∷◌, ◌++◌, map, lookup,
  append_assoc, append-nil, lookup-insert_self, lookup-insert_ne,
}
use campello_net.Packet.{PacketReliability}
use campello_net.Loopback.{
  Platform, Packet, Transport, World, find_transport, write, enqueue_pending, deliver, send, packet,
  poll, settle, flush, make_ready,
}

module _ ⦃platform : Platform⦄ where
  -- The messages of a list sent one after the other, with nothing dropped.
  unfoldable pub send_each :
      platform.Double → ℕ → Transport → PacketReliability → List (List ℕ) → World → World
  send_each now t tr r [] w = w
  send_each now t tr r (bytes ∷ messages) w =
      send_each now t tr r messages (send false now t tr bytes r w).0

  -- The packets that wait at a transport, with one more.
  abbrev with_pending : Transport → List Packet → Transport
  with_pending tr pkts = record tr { pending_recv = tr.pending_recv ++ pkts }

  -- A world in which the packets wait at the object `s`, and which is otherwise as before.
  record IsSent (w w' : World) (s : ℕ) (srv : Transport) (pkts : List Packet) : Type 0 where
    hub : w'.hub ≡ w.hub
    waits : lookup s w'.transports ≡ some (with_pending srv pkts)
    others : (u : ℕ) → u ≢ s → lookup u w'.transports ≡ lookup u w.transports

  send-IsSent :
      (now : platform.Double) (t : ℕ) (tr : Transport) (bytes : List ℕ) (r : PacketReliability)
      (w : World) (s : ℕ) (srv : Transport)
      → tr.bound ≡ false
      → tr.connected ≡ true
      → platform.is_positive tr.latency_sec ≡ false
      → find_transport tr.remote_addr w.hub ≡ some s
      → lookup s w.transports ≡ some srv
      → IsSent w (send false now t tr bytes r w).0 s srv (packet tr bytes r ∷ [])
  unfolding send deliver enqueue_pending
  send-IsSent now t tr bytes r w s srv b c l f e =
      rw (l, b, c, f, e, enqueue_pending, deliver)
        (record {
          hub = refl;
          waits = lookup-insert_self s _ w.transports;
          others = λ u ne. lookup-insert_ne s u _ w.transports ne;
        })

  send_each-IsSent :
      (now : platform.Double) (t : ℕ) (tr : Transport) (r : PacketReliability)
      (messages : List (List ℕ)) (w : World) (s : ℕ) (srv : Transport)
      → tr.bound ≡ false
      → tr.connected ≡ true
      → platform.is_positive tr.latency_sec ≡ false
      → find_transport tr.remote_addr w.hub ≡ some s
      → lookup s w.transports ≡ some srv
      → IsSent w (send_each now t tr r messages w) s srv (map (λ m. packet tr m r) messages)
  unfolding send_each
  send_each-IsSent now t tr r [] w s srv b c l f e = record {
    hub = refl;
    waits =
        e ∙ ap (λ q. some (record srv { pending_recv = q })) (sym (append-nil srv.pending_recv));
    others = λ u ne. refl;
  }
  send_each-IsSent now t tr r (bytes ∷ messages) w s srv b c l f e =
      let one = send-IsSent now t tr bytes r w s srv b c l f e in
      let rest =
        send_each-IsSent now t tr r messages (send false now t tr bytes r w).0 s
          (with_pending srv (packet tr bytes r ∷ [])) b c l
          (ap (find_transport tr.remote_addr) one.hub ∙ f) one.waits in
      record {
        hub = rest.hub ∙ one.hub;
        waits =
            rest.waits
            ∙ ap (λ q. some (record srv { pending_recv = q }))
                (append_assoc srv.pending_recv (packet tr bytes r ∷ [])
                  (map (λ m. packet tr m r) messages));
        others = λ u ne. rest.others u ne ∙ one.others u ne;
      }

  poll-write :
      (now : platform.Double) (s : ℕ) (srv : Transport) (w : World)
      → srv.delayed_outbound ≡ []
      → lookup s w.transports ≡ some srv
      → poll now s srv w ≡ write s (make_ready (record srv { delayed_outbound = [] })) w
  unfolding poll settle flush
  poll-write now s srv w d e = ap (λ q. settle s (flush now q w)) d ∙ rw (e, settle) refl

  poll-ready :
      (now : platform.Double) (s : ℕ) (srv : Transport) (w : World)
      → srv.delayed_outbound ≡ []
      → lookup s w.transports ≡ some srv
      → lookup s (poll now s srv w).transports ≡ some (make_ready srv)
  poll-ready now s srv w d e =
      ap (λ (v : World). lookup s v.transports) (poll-write now s srv w d e)
      ∙ lookup-insert_self s (make_ready (record srv { delayed_outbound = [] })) w.transports
      ∙ ap (λ q. some (make_ready (record srv { delayed_outbound = q }))) (sym d)

  -- A connected client without latency sends messages, none of which is dropped, and its server, with
  -- nothing delayed, polls:
  -- behind what the server had, ready first and then pending, it has exactly these messages ready, in
  -- their order and from the client's address; every other transport is as before.
  pub poll-send_each :
      (now later : platform.Double) (t : ℕ) (tr : Transport) (r : PacketReliability)
      (messages : List (List ℕ)) (w : World) (s : ℕ) (srv : Transport)
      → tr.bound ≡ false
      → tr.connected ≡ true
      → platform.is_positive tr.latency_sec ≡ false
      → find_transport tr.remote_addr w.hub ≡ some s
      → lookup s w.transports ≡ some srv
      → srv.delayed_outbound ≡ []
      → let waiting = with_pending srv (map (λ m. packet tr m r) messages) in
        let w' = send_each now t tr r messages w in
        (lookup s w'.transports ≡ some waiting)
        × (lookup s (poll later s waiting w').transports
            ≡ some (record srv {
              ready_recv =
                  srv.ready_recv ++ (srv.pending_recv ++ map (λ m. packet tr m r) messages);
              pending_recv = [];
            }))
        × ((u : ℕ) → u ≢ s → lookup u w'.transports ≡ lookup u w.transports)
  poll-send_each now later t tr r messages w s srv b c l f e d =
      let sent = send_each-IsSent now t tr r messages w s srv b c l f e in
      (sent.waits, poll-ready later s _ (send_each now t tr r messages w) d sent.waits, sent.others)
