-- ===== src/Udp/Transport/Stale.antt =====
-- The unreliable-sequenced channel as a whole, from its starting point.
use campello_net.Prelude.{◌≤◌, ◌≡◌, refl, ap, ◌∙◌, none, some, List, [], ◌∷◌, map, length, All}
use mathlib.Core.Option
use campello_net.Packet.{max_payload_size}
use campello_net.Packet.Wire.{IsHeader}
use campello_net.Udp.State.{Env, Impl}
use campello_net.Udp.Process.{find_connection}
use campello_net.Udp.Process.Sequenced.{
  IsSequenced, last_sequenced, last_sequenced_fresh, process_stale,
}
use campello_net.Udp.Transport.{receive_loop, count_received}
use campello_net.Udp.Transport.InOrder.{Packet, datagram, receive_one_lem}

module _ ⦃env : Env⦄ where
  -- A well-formed packet of the unreliable-sequenced channel.
  abbrev pub IsState : Packet → Type 0
  IsState (now, hdr, payload) = IsHeader hdr × IsSequenced hdr × (length payload ≤ max_payload_size)

  loop :
      (from : env.Address) (ps : List Packet) (impl : Impl)
      → All IsState ps
      → ((now : env.Double) → last_sequenced now from impl ≡ 0xFFFF)
      → (impl' : Impl) × (receive_loop (map (datagram from) ps) impl ≡ some impl')
        × (impl'.receive_queue ≡ impl.receive_queue)
  unfolding receive_loop last_sequenced
  loop from [] impl ok at = (impl, refl, refl)
  loop from ((now, hdr, payload) ∷ ps) impl ok at =
      let (impl', e, queue, last) = process_stale now impl from hdr payload ok.0.1 (at now) in
      let (impl₂, e₂, queue₂) = loop from ps (count_received impl') ok.1 last in
      (
        impl₂,
        rw
            (
              receive_one_lem impl now from hdr payload ok.0.0 ok.0.2
                  ∙ ap (Option.map count_received) e,
              receive_loop,
            )
            e₂,
        queue₂ ∙ queue,
      )

  -- From an address with no connection, no list of well-formed packets of the unreliable-sequenced
  -- channel, with whatever sequence numbers, puts anything into the receive queue: the channel starts
  -- at the largest sequence number, and only a larger one is delivered.
  pub receive_loop_stale :
      (from : env.Address) (ps : List Packet) (impl : Impl)
      → All IsState ps
      → find_connection from impl.connections ≡ none
      → (impl' : Impl) × (receive_loop (map (datagram from) ps) impl ≡ some impl')
        × (impl'.receive_queue ≡ impl.receive_queue)
  receive_loop_stale from ps impl ok e =
      loop from ps impl ok (λ now. last_sequenced_fresh now from impl e)
