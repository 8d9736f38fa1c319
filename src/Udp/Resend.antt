-- ===== src/Udp/Resend.antt =====
-- `resend_pending`: what is sent again, and when a connection is given up.
use campello_net.Prelude.{
  ℕ, zero, suc, ◌+◌, Bool, true, false, List, [], ◌∷◌, ltb, if◌then◌else◌, u8, length,
}
use campello_net.Packet.{
  PacketReliability, unreliable, reliable_ordered, reliable_unordered, unreliable_sequenced,
  header_size, max_payload_size,
}
use campello_net.Udp.State.{Env, Pending, Connection, disconnecting, Impl, channel_of, with_channel}
use campello_net.Udp.Bandwidth.{check_and_consume_bandwidth}
use campello_net.Udp.Send.{send_raw, user_header, fragment_header, slice, fragments_of}

module _ ⦃env : Env⦄ where
  -- `smoothed_rtt + 4 * rtt_variance`, at least 50 ms and at most a second.
  pub timeout : Connection → env.Single
  timeout conn =
      let raw =
        env.single_add conn.smoothed_rtt (env.single_mul (env.single 4 1) conn.rtt_variance) in
      let floor = if env.single_lt raw (env.single 5 100) then env.single 5 100 else raw in
      if env.single_lt (env.single 1 1) floor then env.single 1 1 else floor

  pub is_overdue : env.Double → Connection → Pending → Bool
  is_overdue now conn p =
      env.double_lt (env.to_double (timeout conn)) (env.double_sub now p.send_time)

  -- A round that finds the bandwidth used up is skipped.
  abbrev resend_allowed : Impl → (Connection → Impl × Bool) → Connection × Bool → Impl × Connection
  resend_allowed impl send (conn, allowed) = if allowed then ((send conn).0, conn) else (impl, conn)

  pub resend_fragments :
      env.Double → PacketReliability → Pending → ℕ → ℕ → Impl → Connection → Impl × Connection
  resend_fragments now r p i zero impl conn = (impl, conn)
  resend_fragments now r p i (suc left) impl conn =
      let (impl', conn') =
        resend_allowed impl
          (λ c.
            send_raw impl c.address
              (fragment_header (channel_of c r) r p.sequence i (fragments_of p.bytes)
                (length (slice i p.bytes)))
              (slice i p.bytes))
          (check_and_consume_bandwidth now conn r (header_size + max_payload_size)) in
      resend_fragments now r p (i + 1) left impl' conn'

  pub resend_whole :
      env.Double → PacketReliability → Pending → Impl → Connection → Impl × Connection
  resend_whole now r p impl conn =
      resend_allowed impl
        (λ c.
          send_raw impl c.address (user_header (channel_of c r) r p.sequence (length p.bytes))
            p.bytes)
        (check_and_consume_bandwidth now conn r (header_size + length p.bytes))

  -- The body of the inner loop after the test of the timeout: the entry is stamped and its retries
  -- counted in 8 bits; past ten of them the connection is given up and the function returns (`true`).
  abbrev pub retried : env.Double → Pending → Pending
  retried now p = record p { send_time = now; retries = u8 (p.retries + 1) }

  -- The inner loop, with the entries as it leaves them.
  pub resend_loop :
      env.Double
      → PacketReliability
      → List Pending
      → Impl
      → Connection
      → Impl × Connection × List Pending × Bool
  resend_loop now r [] impl conn = (impl, conn, [], false)
  resend_loop now r (p ∷ ps) impl conn =
      let p' = retried now p in
      let (impl', conn') =
        if p.fragmented
        then resend_fragments now r p 0 (fragments_of p.bytes) impl conn
        else resend_whole now r p impl conn in
      elim (is_overdue now conn p) [
        | false ↦
            let (impl₁, conn₁, ps₁, stop) = resend_loop now r ps impl conn in
            (impl₁, conn₁, p ∷ ps₁, stop)
        | true ↦ elim (ltb 10 p'.retries) [
          | true ↦ (impl, record conn { phase = disconnecting }, p' ∷ ps, true)
          | false ↦
              let (impl₁, conn₁, ps₁, stop) = resend_loop now r ps impl' conn' in
              (impl₁, conn₁, p' ∷ ps₁, stop)
        ]
      ]

  pub resend_channel :
      env.Double → PacketReliability → Impl × Connection × Bool → Impl × Connection × Bool
  resend_channel now r (impl, conn, true) = (impl, conn, true)
  resend_channel now r (impl, conn, false) =
      let (impl', conn', ps, stop) = resend_loop now r (channel_of conn r).pending impl conn in
      (impl', with_channel conn' r (record (channel_of conn' r) { pending = ps }), stop)

  -- The outer loop over the four channels.
  unfoldable pub resend_pending : env.Double → Impl → Connection → Impl × Connection
  resend_pending now impl conn =
      let (impl', conn', _) = resend_channel now unreliable_sequenced (
        resend_channel now reliable_unordered (
          resend_channel now reliable_ordered
            (resend_channel now unreliable (impl, conn, false)))) in
      (impl', conn')
