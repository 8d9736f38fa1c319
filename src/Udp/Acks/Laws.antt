-- ===== src/Udp/Acks/Laws.antt =====
-- What an acknowledgement removes, and what it leaves alone.
use campello_net.Prelude.{
  ℕ, ◌+◌, ◌≡◌, refl, ap, ◌∙◌, true, false, List, [], ◌∷◌, inl, inr, arith, length, if◌then◌else◌,
  u64, leb, ◌≢◌, ◌||◌, not, Bool-cases,
}
use campello_net.Packet.{
  PacketReliability, unreliable, reliable_ordered, reliable_unordered, unreliable_sequenced, code,
  of_code,
}
use campello_net.Packet.Flags.{of_code-code, code-lt}
use campello_net.Udp.State.{
  Env, Pending, Channel, Connection, Impl, channel_of, is_reliable, get_channel, set_channel,
  Channels, get-set_self, get-set_ne,
}
use campello_net.Udp.Acks.{is_acked, update_rtt, ack_loop, remove_acked, process_acks}

module _ ⦃env : Env⦄ where
  -- The packets that an acknowledgement does not cover, in their order.
  pub unacked : ℕ → ℕ → List Pending → List Pending
  unacked ack bits [] = []
  unacked ack bits (p ∷ ps) =
      if is_acked ack bits p.sequence then unacked ack bits ps else p ∷ unacked ack bits ps

  pub ack_loop_lem :
      (now : env.Double) (ack bits : ℕ) (ps : List Pending) (conn : Connection) (n : ℕ)
      → ((ack_loop now ack bits ps conn n).0 ≡ unacked ack bits ps)
        × (u64 ((ack_loop now ack bits ps conn n).2 + length (unacked ack bits ps))
            ≡ u64 (n + length ps))
        × ((ack_loop now ack bits ps conn n).1.channels ≡ conn.channels)
        × ((ack_loop now ack bits ps conn n).1.address ≡ conn.address)
        × ((ack_loop now ack bits ps conn n).1.phase ≡ conn.phase)
  unfolding ack_loop unacked update_rtt
  ack_loop_lem now ack bits [] conn n = (refl, refl, refl, refl, refl)
  ack_loop_lem now ack bits (p ∷ ps) conn n = ground (
    arith,
    ack_loop_lem now ack bits ps conn n,
    ack_loop_lem now ack bits ps (update_rtt now p conn) (u64 (n + 1)),
  )

  remove_acked_lem :
      (now : env.Double) (impl : Impl) (conn : Connection) (r : PacketReliability) (ack bits : ℕ)
      → let (impl', conn') = remove_acked now impl conn r ack bits in
        (channel_of conn' r
          ≡ record (channel_of conn r) { pending = unacked ack bits (channel_of conn r).pending })
        × (u64 (impl'.packets_acked + length (channel_of conn' r).pending)
            ≡ u64 (impl.packets_acked + length (channel_of conn r).pending))
        × (impl' ≡ record impl { packets_acked = impl'.packets_acked })
        × ((s : PacketReliability) → s ≢ r → channel_of conn' s ≡ channel_of conn s)
        × (conn'.address ≡ conn.address)
        × (conn'.phase ≡ conn.phase)
  unfolding remove_acked
  remove_acked_lem now impl conn r ack bits = (
    self ∙ ap (λ ps'. record (channel_of conn r) { pending = ps' }) loop.0,
    ap (λ (c : Channel). u64 (after.2 + length c.pending)) self
        ∙ ap (λ ps. u64 (after.2 + length ps)) loop.0
        ∙ loop.1,
    refl,
    λ s ne. get-set_ne after.1.channels r s _ ne ∙ ap (λ cs. get_channel cs s) loop.2,
    loop.3,
    loop.4,
  )
    where
      ps : List Pending
      ps = (channel_of conn r).pending

      after : List Pending × Connection × ℕ
      after = ack_loop now ack bits ps conn impl.packets_acked

      loop :
          (after.0 ≡ unacked ack bits ps)
          × (u64 (after.2 + length (unacked ack bits ps)) ≡ u64 (impl.packets_acked + length ps))
          × (after.1.channels ≡ conn.channels)
          × (after.1.address ≡ conn.address)
          × (after.1.phase ≡ conn.phase)
      loop = ack_loop_lem now ack bits ps conn impl.packets_acked

      self :
          channel_of (remove_acked now impl conn r ack bits).1 r
          ≡ record (channel_of conn r) { pending = after.0 }
      self = get-set_self after.1.channels r _

  process_acks-remove :
      (now : env.Double) (impl : Impl) (conn : Connection) (r : PacketReliability) (ack bits : ℕ)
      → is_reliable r ≡ true
      → process_acks now impl conn (code r) ack bits ≡ remove_acked now impl conn r ack bits
  unfolding process_acks
  process_acks-remove now impl conn r ack bits e = ground (arith, of_code-code r, code-lt r)

  -- An acknowledgement on a reliable channel removes exactly the pending packets that it covers,
  -- keeps the others in order, and counts the removed ones modulo 2^64. Every other member of the
  -- channel and of the transport, the other channels and the connection's address and state stay as
  -- they were.
  pub process_acks_lem :
      (now : env.Double) (impl : Impl) (conn : Connection) (r : PacketReliability) (ack bits : ℕ)
      → is_reliable r ≡ true
      → let (impl', conn') = process_acks now impl conn (code r) ack bits in
        (channel_of conn' r
          ≡ record (channel_of conn r) { pending = unacked ack bits (channel_of conn r).pending })
        × (u64 (impl'.packets_acked + length (channel_of conn' r).pending)
            ≡ u64 (impl.packets_acked + length (channel_of conn r).pending))
        × (impl' ≡ record impl { packets_acked = impl'.packets_acked })
        × ((s : PacketReliability) → s ≢ r → channel_of conn' s ≡ channel_of conn s)
        × (conn'.address ≡ conn.address)
        × (conn'.phase ≡ conn.phase)
  process_acks_lem now impl conn r ack bits e =
      rw (process_acks-remove now impl conn r ack bits e)
        (remove_acked_lem now impl conn r ack bits)

  -- Neither direction of any channel but the pending list is touched.
  set_pending-remote_seq :
      (conn : Connection) (cs : Channels) (r s : PacketReliability) (ps : List Pending)
      → cs ≡ conn.channels
      → (get_channel (set_channel cs r (record (channel_of conn r) { pending = ps })) s).remote_seq
        ≡ (channel_of conn s).remote_seq
  set_pending-remote_seq conn cs unreliable unreliable ps e = refl
  set_pending-remote_seq conn cs reliable_ordered reliable_ordered ps e = refl
  set_pending-remote_seq conn cs reliable_unordered reliable_unordered ps e = refl
  set_pending-remote_seq conn cs unreliable_sequenced unreliable_sequenced ps e = refl
  set_pending-remote_seq conn cs r s ps e = ap (λ cs. (get_channel cs s).remote_seq) e

  -- What no acknowledgement changes, on whatever channel it arrives.
  pub record IsFrame (impl impl' : Impl) (conn conn' : Connection) : Type 0 where
    pub receive_queue : impl'.receive_queue ≡ impl.receive_queue
    pub connections : impl'.connections ≡ impl.connections
    pub assemblies : impl'.fragment_assemblies ≡ impl.fragment_assemblies
    pub sent : impl'.sent ≡ impl.sent
    pub address : conn'.address ≡ conn.address
    pub phase : conn'.phase ≡ conn.phase
    pub remote_seq :
        (s : PacketReliability) → (channel_of conn' s).remote_seq ≡ (channel_of conn s).remote_seq

  remove_acked-IsFrame :
      (now : env.Double) (impl : Impl) (conn : Connection) (r : PacketReliability) (ack bits : ℕ)
      → IsFrame impl
          (remove_acked now impl conn r ack bits).0
          conn
          (remove_acked now impl conn r ack bits).1
  unfolding remove_acked
  remove_acked-IsFrame now impl conn r ack bits =
      let loop = ack_loop_lem now ack bits (channel_of conn r).pending conn impl.packets_acked in
      record {
        receive_queue = refl;
        connections = refl;
        assemblies = refl;
        sent = refl;
        address = loop.3;
        phase = loop.4;
        remote_seq = λ s. set_pending-remote_seq conn _ r s _ loop.2;
      }

  pub process_acks-IsFrame :
      (now : env.Double) (impl : Impl) (conn : Connection) (ch ack bits : ℕ)
      → IsFrame impl
          (process_acks now impl conn ch ack bits).0
          conn
          (process_acks now impl conn ch ack bits).1
  unfolding process_acks
  process_acks-IsFrame now impl conn ch ack bits =
      elim (Bool-cases (leb 4 ch || not (is_reliable (of_code ch)))) [
        | inl e ↦ rw e (record {
          receive_queue = refl;
          connections = refl;
          assemblies = refl;
          sent = refl;
          address = refl;
          phase = refl;
          remote_seq = λ s. refl;
        })
        | inr e ↦ rw e (remove_acked-IsFrame now impl conn (of_code ch) ack bits)
      ]

  -- An acknowledgement on an unreliable channel changes nothing.
  pub process_acks_unreliable :
      (now : env.Double) (impl : Impl) (conn : Connection) (ch ack bits : ℕ)
      → is_reliable (of_code ch) ≡ false
      → process_acks now impl conn ch ack bits ≡ (impl, conn)
  unfolding process_acks
  process_acks_unreliable now impl conn ch ack bits e = ground arith
