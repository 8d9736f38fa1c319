-- ===== src/Udp/Stats.antt =====
-- The statistics of `UdpTransport`. `divide` is the division of floats, 0 among its divisors too.
use campello_net.Prelude.{ℕ, ◌+◌, ◌-◌, none, some, List, [], ◌∷◌, ◌==◌, if◌then◌else◌, length}
use campello_net.Udp.State.{Env, Channels, Connection, Impl}
use campello_net.Udp.Process.{find_connection}

module _ ⦃env : Env⦄ where
  pub sum_rtt : List Connection → env.Single → env.Single
  sum_rtt [] sum = sum
  sum_rtt (c ∷ cs) sum = sum_rtt cs (env.single_add sum c.smoothed_rtt)

  unfoldable pub total_pending : Channels → ℕ
  total_pending cs =
      length cs.for_unreliable.pending
      + length cs.for_ordered.pending
      + length cs.for_unordered.pending
      + length cs.for_sequenced.pending

module _ ⦃env : Env⦄ (divide : env.Single → env.Single → env.Single) where
  unfoldable pub rtt : Impl → env.Single
  rtt impl = elim impl.connections [
    | [] ↦ env.single 0 1
    | c ∷ cs ↦ divide (sum_rtt (c ∷ cs) (env.single 0 1)) (env.single (length (c ∷ cs)) 1)
  ]

  -- More packets acknowledged than sent count as none lost.
  unfoldable pub packet_loss : Impl → env.Single
  packet_loss impl =
      if impl.packets_sent == 0
      then env.single 0 1
      else divide (env.single (impl.packets_sent - impl.packets_acked) 1)
          (env.single impl.packets_sent 1)

  unfoldable pub get_connection_packet_loss : env.Address → Impl → env.Single
  get_connection_packet_loss address impl = elim (find_connection address impl.connections) [
    | none ↦ env.single 0 1
    | some c ↦
        if total_pending c.channels == 0
        then env.single 0 1
        else divide (env.single (total_pending c.channels) 1)
            (env.single_add (env.single (total_pending c.channels) 1) (env.single 100 1))
  ]

module _ ⦃env : Env⦄ where
  unfoldable pub get_connection_rtt : env.Address → Impl → env.Single
  get_connection_rtt address impl = elim (find_connection address impl.connections) [
    | none ↦ env.single 0 1
    | some c ↦ c.smoothed_rtt
  ]
