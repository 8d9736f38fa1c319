-- ===== src/RateLimiter.antt =====
-- `RateLimiter` of `src/rate_limiter.cpp`: three token buckets and their counters.
-- Each call of `consume` comes with its reading of the clock.
pub mod Counts
use campello_net.Prelude.{ℕ, ◌+◌, Bool, true, false, ◌&&◌, if◌then◌else◌, u64, List, [], ◌∷◌}

-- The arithmetic of `float` and `double`: `refill` is `static_cast<float>(rate_per_sec * elapsed)`.
pub record Floats : Type 1 where
  pub Single : Type 0
  pub Double : Type 0
  pub zero_single : Single
  pub zero_double : Double
  pub max_single : Single → Single → Single
  pub le_single : Single → Single → Bool
  pub lt_single : Single → Single → Bool
  pub add_single : Single → Single → Single
  pub sub_single : Single → Single → Single
  pub sub_double : Double → Double → Double
  pub refill : Single → Double → Single
  pub of_size : ℕ → Single

pub record Bucket ⦃floats : Floats⦄ : Type 0 where
  pub rate_per_sec : floats.Single
  pub burst : floats.Single
  pub tokens : floats.Single
  pub last_update : floats.Double

-- `RateLimiter::Stats`.
pub record Stats : Type 0 where
  pub messages_allowed : ℕ
  pub messages_dropped : ℕ
  pub bytes_allowed : ℕ
  pub bytes_dropped : ℕ
  pub rpcs_allowed : ℕ
  pub rpcs_dropped : ℕ

abbrev pub fresh_stats : Stats
fresh_stats = record {
  messages_allowed = 0;
  messages_dropped = 0;
  bytes_allowed = 0;
  bytes_dropped = 0;
  rpcs_allowed = 0;
  rpcs_dropped = 0;
}

pub record RateLimiter ⦃floats : Floats⦄ : Type 0 where
  pub msg_bucket : Bucket
  pub byte_bucket : Bucket
  pub rpc_bucket : Bucket
  pub stats : Stats

module _ ⦃floats : Floats⦄ where
  abbrev pub fresh_bucket : Bucket
  fresh_bucket = record {
    rate_per_sec = floats.zero_single;
    burst = floats.zero_single;
    tokens = floats.zero_single;
    last_update = floats.zero_double;
  }

  abbrev pub fresh_limiter : RateLimiter
  fresh_limiter = record {
    msg_bucket = fresh_bucket;
    byte_bucket = fresh_bucket;
    rpc_bucket = fresh_bucket;
    stats = fresh_stats;
  }

  unfoldable pub configure : floats.Double → (rate burst_size : floats.Single) → Bucket
  configure now rate burst_size = record {
    rate_per_sec = floats.max_single floats.zero_single rate;
    burst = floats.max_single floats.zero_single burst_size;
    tokens = floats.max_single floats.zero_single burst_size;
    last_update = now;
  }

  -- The tokens at a time, at most `burst`.
  abbrev pub refilled : floats.Double → Bucket → floats.Single
  refilled t b =
      let tokens =
        floats.add_single b.tokens
          (floats.refill b.rate_per_sec (floats.sub_double t b.last_update)) in
      if floats.lt_single b.burst tokens then b.burst else tokens

  unfoldable pub consume : floats.Double → floats.Single → Bucket → Bucket × Bool
  consume t amount b =
      if floats.le_single b.rate_per_sec floats.zero_single
        && floats.le_single b.burst floats.zero_single
      then (b, true)
      else if floats.le_single amount (refilled t b)
      then (record b { tokens = floats.sub_single (refilled t b) amount; last_update = t }, true)
      else (record b { tokens = refilled t b; last_update = t }, false)

  unfoldable pub configure_messages :
      floats.Double → (rate_per_sec burst : floats.Single) → RateLimiter → RateLimiter
  configure_messages now rate_per_sec burst l = record l {
    msg_bucket = configure now rate_per_sec burst;
  }

  unfoldable pub configure_bytes :
      floats.Double → (rate_per_sec burst : floats.Single) → RateLimiter → RateLimiter
  configure_bytes now rate_per_sec burst l = record l {
    byte_bucket = configure now rate_per_sec burst;
  }

  unfoldable pub configure_rpcs :
      floats.Double → (rate_per_sec burst : floats.Single) → RateLimiter → RateLimiter
  configure_rpcs now rate_per_sec burst l = record l {
    rpc_bucket = configure now rate_per_sec burst;
  }

  -- Both buckets are asked, whatever the first answers.
  unfoldable pub allow_message : (now later : floats.Double) → ℕ → RateLimiter → RateLimiter × Bool
  allow_message now later byte_size l =
      let (msg, msg_ok) = consume now (floats.of_size 1) l.msg_bucket in
      let (byte, byte_ok) = consume later (floats.of_size byte_size) l.byte_bucket in
      if msg_ok && byte_ok
      then (
        record l {
          msg_bucket = msg;
          byte_bucket = byte;
          stats = record l.stats {
            messages_allowed = u64 (l.stats.messages_allowed + 1);
            bytes_allowed = u64 (l.stats.bytes_allowed + byte_size);
          };
        },
        true,
      )
      else (
        record l {
          msg_bucket = msg;
          byte_bucket = byte;
          stats = record l.stats {
            messages_dropped = u64 (l.stats.messages_dropped + 1);
            bytes_dropped = u64 (l.stats.bytes_dropped + byte_size);
          };
        },
        false,
      )

  unfoldable pub allow_rpc : floats.Double → RateLimiter → RateLimiter × Bool
  allow_rpc now l =
      let (rpc, ok) = consume now (floats.of_size 1) l.rpc_bucket in
      if ok
      then (
        record l {
          rpc_bucket = rpc;
          stats = record l.stats { rpcs_allowed = u64 (l.stats.rpcs_allowed + 1) };
        },
        true,
      )
      else (
        record l {
          rpc_bucket = rpc;
          stats = record l.stats { rpcs_dropped = u64 (l.stats.rpcs_dropped + 1) };
        },
        false,
      )

  unfoldable pub reset_stats : RateLimiter → RateLimiter
  reset_stats l = record l { stats = fresh_stats }
