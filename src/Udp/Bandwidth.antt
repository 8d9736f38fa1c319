-- ===== src/Udp/Bandwidth.antt =====
-- The bandwidth counters: `reset_bandwidth_counters` and `check_and_consume_bandwidth`.
pub mod Limits
use campello_net.Prelude.{ℕ, ◌+◌, Bool, true, false, ◌&&◌, ltb, if◌then◌else◌, u32}
use campello_net.Packet.{PacketReliability}
use campello_net.Udp.State.{Env, Channel, Channels, Connection, channel_of, with_channel}

module _ ⦃env : Env⦄ where
  abbrev pub clear_count : Channel → Channel
  clear_count c = record c { bytes_sent_this_second = 0 }

  pub reset_bandwidth_counters : Connection → env.Double → Connection
  reset_bandwidth_counters conn current_time =
      if env.double_le (env.double 1 1) (env.double_sub current_time conn.last_bandwidth_reset)
      then record conn {
        bytes_sent_this_second = 0;
        last_bandwidth_reset = current_time;
        channels = record {
          for_unreliable = clear_count conn.channels.for_unreliable;
          for_ordered = clear_count conn.channels.for_ordered;
          for_unordered = clear_count conn.channels.for_unordered;
          for_sequenced = clear_count conn.channels.for_sequenced;
        };
      }
      else conn

  -- Would `packet_size` more bytes pass a limit? A limit of 0 is none.
  abbrev pub exceeds : ℕ → ℕ → ℕ → Bool
  exceeds limit count packet_size = ltb 0 limit && ltb limit (count + packet_size)

  abbrev pub count_bytes : Connection → PacketReliability → ℕ → Connection
  count_bytes conn ch packet_size =
      let c = channel_of conn ch in
      record (with_channel conn ch
        (record c { bytes_sent_this_second = u32 (c.bytes_sent_this_second + u32 packet_size) })) {
          bytes_sent_this_second = u32 (conn.bytes_sent_this_second + u32 packet_size);
        }

  -- After the reset, on the counters that it leaves.
  pub consume_bandwidth : Connection → PacketReliability → ℕ → Connection × Bool
  consume_bandwidth conn ch packet_size =
      if exceeds conn.global_bandwidth_limit conn.bytes_sent_this_second packet_size
      then (conn, false)
      else if exceeds (channel_of conn ch).bandwidth_limit
          (channel_of conn ch).bytes_sent_this_second packet_size
      then (conn, false)
      else (count_bytes conn ch packet_size, true)

  unfoldable pub check_and_consume_bandwidth :
      env.Double → Connection → PacketReliability → ℕ → Connection × Bool
  check_and_consume_bandwidth now conn ch packet_size =
      consume_bandwidth (reset_bandwidth_counters conn now) ch packet_size
