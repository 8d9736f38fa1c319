-- ===== src/Udp/Acks.antt =====
-- `Impl::process_acks`: which pending packets an acknowledgement removes.
pub mod Laws
pub mod Window
use campello_net.Prelude.{
  ℕ, ◌+◌, ◌-◌, ◌≡◌, Bool, true, false, List, [], ◌∷◌, ◌&&◌, ◌||◌, not, ◌!=◌, ltb, leb, ◌==◌,
  if◌then◌else◌, bit_and, u64, ◌<<◌,
}
use campello_net.Packet.{PacketReliability, of_code}
use campello_net.Udp.State.{
  Env, Pending, Channel, Connection, Impl, channel_of, with_channel, is_reliable,
}

-- `seq == ack`, or else the bit of `ack_bits` for a sequence at most 32 before `ack`. `ack - seq` is
-- an `int`: it is positive exactly when the difference of the numbers is.
unfoldable pub is_acked : ℕ → ℕ → ℕ → Bool
is_acked ack ack_bits seq =
    if seq == ack
    then true
    else if ltb 0 (ack - seq) && leb (ack - seq) 32
    then bit_and ack_bits (1 << (ack - seq - 1)) != 0
    else false

module _ ⦃env : Env⦄ where
  -- The update of the round-trip estimate by one acknowledged packet.
  pub update_rtt : env.Double → Pending → Connection → Connection
  update_rtt now p conn =
      let sample = env.to_single (env.double_sub now p.send_time) in
      let smoothed =
        env.single_add (env.single_mul conn.smoothed_rtt (env.single 875 1000))
          (env.single_mul sample (env.single 125 1000)) in
      record conn {
        smoothed_rtt = smoothed;
        rtt_variance = env.single_add (env.single_mul conn.rtt_variance (env.single 875 1000)) (
            env.single_mul (env.single_abs (env.single_sub sample smoothed)) (env.single 125 1000));
      }

  -- The loop over `channel.pending`: what stays, the connection's estimates, and the counter.
  pub ack_loop : env.Double → ℕ → ℕ → List Pending → Connection → ℕ → List Pending × Connection × ℕ
  ack_loop now ack ack_bits [] conn acked = ([], conn, acked)
  ack_loop now ack ack_bits (p ∷ ps) conn acked = elim (is_acked ack ack_bits p.sequence) [
    | true ↦ ack_loop now ack ack_bits ps (update_rtt now p conn) (u64 (acked + 1))
    | false ↦
        let (kept, conn', acked') = ack_loop now ack ack_bits ps conn acked in
        (p ∷ kept, conn', acked')
  ]

  -- The loop run on a reliable channel, with its results written back.
  pub remove_acked : env.Double → Impl → Connection → PacketReliability → ℕ → ℕ → Impl × Connection
  remove_acked now impl conn r ack ack_bits =
      let c = channel_of conn r in
      let (kept, conn', acked) = ack_loop now ack ack_bits c.pending conn impl.packets_acked in
      (record impl { packets_acked = acked }, with_channel conn' r (record c { pending = kept }))

  unfoldable pub process_acks : env.Double → Impl → Connection → ℕ → ℕ → ℕ → Impl × Connection
  process_acks now impl conn ch ack ack_bits =
      if leb 4 ch || not (is_reliable (of_code ch))
      then (impl, conn)
      else remove_acked now impl conn (of_code ch) ack ack_bits
