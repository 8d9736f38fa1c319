-- ===== src/Udp/Bandwidth/Limits.antt =====
-- What the bandwidth counters guarantee.
use campello_net.Prelude.{
  ℕ, ◌+◌, ◌≤◌, ◌<◌, ◌^◌, ◌≡◌, ◌⊎◌, refl, true, false, u32, arith, inl, inr, Bool-cases,
}
use campello_net.Packet.{
  PacketReliability, unreliable, reliable_ordered, reliable_unordered, unreliable_sequenced,
}
use campello_net.Udp.State.{
  Env, Channel, Channels, Connection, channel_of, get_channel, set_channel,
}
use campello_net.Udp.Bandwidth.{
  reset_bandwidth_counters, consume_bandwidth, check_and_consume_bandwidth, exceeds, count_bytes,
  clear_count,
}

-- A limit other than 0 is not passed.
abbrev pub IsWithin : ℕ → ℕ → Type 0
IsWithin limit count = 0 < limit → count ≤ limit

module _ ⦃env : Env⦄ where
  -- The connection's bytes of the running second are within its limit, and those of each channel
  -- within the channel's. The limits are 32-bit numbers.
  pub record IsLimited (conn : Connection) : Type 0 where
    pub width : conn.global_bandwidth_limit < 2 ^ 32
    pub widths : (r : PacketReliability) → (channel_of conn r).bandwidth_limit < 2 ^ 32
    pub global : IsWithin conn.global_bandwidth_limit conn.bytes_sent_this_second
    pub each :
        (r : PacketReliability)
        → IsWithin (channel_of conn r).bandwidth_limit (channel_of conn r).bytes_sent_this_second

  -- The channels as a reset leaves them.
  abbrev cleared : Channels → Channels
  cleared cs = record {
    for_unreliable = clear_count cs.for_unreliable;
    for_ordered = clear_count cs.for_ordered;
    for_unordered = clear_count cs.for_unordered;
    for_sequenced = clear_count cs.for_sequenced;
  }

  cleared-width :
      (cs : Channels)
      → ((r : PacketReliability) → (get_channel cs r).bandwidth_limit < 2 ^ 32)
      → (r : PacketReliability) → (get_channel (cleared cs) r).bandwidth_limit < 2 ^ 32
  cleared-width cs h unreliable = h unreliable
  cleared-width cs h reliable_ordered = h reliable_ordered
  cleared-width cs h reliable_unordered = h reliable_unordered
  cleared-width cs h unreliable_sequenced = h unreliable_sequenced

  cleared-count :
      (cs : Channels) (r : PacketReliability)
      → (get_channel (cleared cs) r).bytes_sent_this_second
        ≤ (get_channel (cleared cs) r).bandwidth_limit
  cleared-count cs unreliable = omega arith
  cleared-count cs reliable_ordered = omega arith
  cleared-count cs reliable_unordered = omega arith
  cleared-count cs unreliable_sequenced = omega arith

  -- A property of every channel after a write to one of them.
  set-each :
      (P : Channel → Type 0) (cs : Channels) (r s : PacketReliability) (c : Channel)
      → P c
      → P (get_channel cs s)
      → P (get_channel (set_channel cs r c) s)
  set-each P cs unreliable unreliable c p q = p
  set-each P cs reliable_ordered reliable_ordered c p q = p
  set-each P cs reliable_unordered reliable_unordered c p q = p
  set-each P cs unreliable_sequenced unreliable_sequenced c p q = p
  set-each P cs _ _ c p q = q

  reset-IsLimited :
      (conn : Connection) (now : env.Double)
      → IsLimited conn
      → IsLimited (reset_bandwidth_counters conn now)
  unfolding reset_bandwidth_counters
  reset-IsLimited conn now w =
      elim (Bool-cases
        (env.double_le (env.double 1 1) (env.double_sub now conn.last_bandwidth_reset))) [
          | inl e ↦ rw e (record {
            width = w.width;
            widths = λ r. cleared-width conn.channels w.widths r;
            global = λ p. omega arith;
            each = λ r p. cleared-count conn.channels r;
          })
          | inr e ↦ rw e w
        ]

  count-IsWithin :
      (limit count size : ℕ)
      → limit < 2 ^ 32
      → IsWithin limit count
      → exceeds limit count size ≡ false
      → IsWithin limit (u32 (count + u32 size))
  count-IsWithin limit count size w h e p = ground (arith, h p)

  -- Counting one packet that no limit forbids.
  count-IsLimited :
      (conn : Connection) (r : PacketReliability) (size : ℕ)
      → IsLimited conn
      → exceeds conn.global_bandwidth_limit conn.bytes_sent_this_second size ≡ false
      → exceeds (channel_of conn r).bandwidth_limit (channel_of conn r).bytes_sent_this_second size
        ≡ false
      → IsLimited (count_bytes conn r size)
  count-IsLimited conn r size w g c = record {
    width = w.width;
    widths = λ s.
        set-each (λ k. k.bandwidth_limit < 2 ^ 32) conn.channels r s counted (w.widths r)
          (w.widths s);
    global =
        count-IsWithin conn.global_bandwidth_limit conn.bytes_sent_this_second size w.width w.global
          g;
    each = λ s.
        set-each (λ k. IsWithin k.bandwidth_limit k.bytes_sent_this_second) conn.channels r s
          counted
          (count-IsWithin (channel_of conn r).bandwidth_limit
            (channel_of conn r).bytes_sent_this_second size (w.widths r) (w.each r) c)
          (w.each s);
  }
    where
      counted : Channel
      counted = record (channel_of conn r) {
        bytes_sent_this_second = u32 ((channel_of conn r).bytes_sent_this_second + u32 size);
      }

  consume-IsLimited :
      (conn : Connection) (r : PacketReliability) (size : ℕ)
      → IsLimited conn
      → IsLimited (consume_bandwidth conn r size).0
  unfolding consume_bandwidth
  consume-IsLimited conn r size w =
      elim (Bool-cases (exceeds conn.global_bandwidth_limit conn.bytes_sent_this_second size)) [
        | inl g ↦ rw g w
        | inr g ↦
            elim (Bool-cases (
              exceeds (channel_of conn r).bandwidth_limit (channel_of conn r).bytes_sent_this_second
                size)) [
                  | inl c ↦ rw (g, c) w
                  | inr c ↦ rw (g, c) (count-IsLimited conn r size w g c)
                ]
      ]

  -- A refused packet is counted nowhere, and one is refused only when it passes a limit.
  consume-refused :
      (conn : Connection) (r : PacketReliability) (size : ℕ)
      → (consume_bandwidth conn r size).1 ≡ false
      → ((consume_bandwidth conn r size).0 ≡ conn)
        × ((exceeds conn.global_bandwidth_limit conn.bytes_sent_this_second size ≡ true)
            ⊎ (exceeds
                  (channel_of conn r).bandwidth_limit
                  (channel_of conn r).bytes_sent_this_second
                  size
                ≡ true))
  unfolding consume_bandwidth
  consume-refused conn r size e =
      elim (Bool-cases (exceeds conn.global_bandwidth_limit conn.bytes_sent_this_second size)) [
        | inl g ↦ rw g (refl, inl refl)
        | inr g ↦
            elim (Bool-cases (
              exceeds (channel_of conn r).bandwidth_limit (channel_of conn r).bytes_sent_this_second
                size)) [ inl c ↦ rw (g, c) (refl, inr refl) | inr c ↦ ground arith ]
      ]

  -- Limits of 32 bits that hold before a packet is counted hold after it, whether the running second is over
  -- and whether the packet is allowed or refused; a refused packet is counted nowhere, and it would
  -- have passed the limit of the connection or that of its channel.
  pub check_and_consume-IsLimited :
      (now : env.Double) (conn : Connection) (r : PacketReliability) (size : ℕ)
      → IsLimited conn
      → IsLimited (check_and_consume_bandwidth now conn r size).0
        × ((check_and_consume_bandwidth now conn r size).1 ≡ false
            → let c = reset_bandwidth_counters conn now in
              ((check_and_consume_bandwidth now conn r size).0 ≡ c)
              × ((exceeds c.global_bandwidth_limit c.bytes_sent_this_second size ≡ true)
                  ⊎ (exceeds
                        (channel_of c r).bandwidth_limit
                        (channel_of c r).bytes_sent_this_second
                        size
                      ≡ true)))
  unfolding check_and_consume_bandwidth
  check_and_consume-IsLimited now conn r size w = (
    consume-IsLimited (reset_bandwidth_counters conn now) r size (reset-IsLimited conn now w),
    consume-refused (reset_bandwidth_counters conn now) r size,
  )
