-- ===== src/RateLimiter/Counts.antt =====
-- The counters over any calls, and the bound on the tokens.
use campello_net.Prelude.{
  ℕ, ◌+◌, ◌≡◌, refl, ap, ap₂, subst, ◌∙◌, Bool, true, false, ◌&&◌, List, [], ◌∷◌, arith, u64,
}
use campello_net.RateLimiter.{
  Floats, Bucket, Stats, RateLimiter, refilled, consume, allow_message, allow_rpc,
}

module _ ⦃floats : Floats⦄ where
  -- A call, with its readings of the clock.
  pub data Call : Type 0 where
    message : (now later : floats.Double) (byte_size : ℕ) → Call
    rpc : (now : floats.Double) → Call

  unfoldable pub call : Call → RateLimiter → RateLimiter × Bool
  call (message now later byte_size) l = allow_message now later byte_size l
  call (rpc now) l = allow_rpc now l

  -- The limiter after some calls, and their answers.
  unfoldable pub calls : List Call → RateLimiter → RateLimiter × List Bool
  calls [] l = (l, [])
  calls (c ∷ cs) l = let (rest, answers) = calls cs (call c l).0 in (rest, (call c l).1 ∷ answers)

  -- The three buckets alone, without counters: a message takes one token of the first and its size of
  -- the second, whether or not both grant it, and a remote call takes one of the third.
  pub record Buckets : Type 0 where
    pub msg : Bucket
    pub byte : Bucket
    pub rpcs : Bucket

  abbrev pub buckets_of : RateLimiter → Buckets
  buckets_of l = record { msg = l.msg_bucket; byte = l.byte_bucket; rpcs = l.rpc_bucket }

  unfoldable pub grant : Call → Buckets → Buckets × Bool
  grant (message now later byte_size) b =
      let (msg, msg_ok) = consume now (floats.of_size 1) b.msg in
      let (byte, byte_ok) = consume later (floats.of_size byte_size) b.byte in
      (record b { msg = msg; byte = byte }, msg_ok && byte_ok)
  grant (rpc now) b =
      let (rpcs, ok) = consume now (floats.of_size 1) b.rpcs in (record b { rpcs = rpcs }, ok)

  unfoldable pub grants : List Call → Buckets → List Bool
  grants [] b = []
  grants (c ∷ cs) b = (grant c b).1 ∷ grants cs (grant c b).0

  -- What a call asks for: messages, bytes and remote calls.
  abbrev pub messages : Call → ℕ
  messages (message now later byte_size) = 1
  messages (rpc now) = 0

  abbrev pub bytes : Call → ℕ
  bytes (message now later byte_size) = byte_size
  bytes (rpc now) = 0

  abbrev pub rpcs : Call → ℕ
  rpcs (message now later byte_size) = 0
  rpcs (rpc now) = 1

  -- What the granted calls ask for, and the refused ones.
  abbrev pub granted : (Call → ℕ) → List Call → List Bool → ℕ
  granted weight (c ∷ cs) (true ∷ gs) = weight c + granted weight cs gs
  granted weight (c ∷ cs) (false ∷ gs) = granted weight cs gs
  granted weight _ _ = 0

  abbrev pub refused : (Call → ℕ) → List Call → List Bool → ℕ
  refused weight (c ∷ cs) (true ∷ gs) = refused weight cs gs
  refused weight (c ∷ cs) (false ∷ gs) = weight c + refused weight cs gs
  refused weight _ _ = 0

  -- The counters are those before, with the sums of the granted and the refused calls.
  pub record AreCounted (cs : List Call) (gs : List Bool) (s s' : Stats) : Type 0 where
    pub messages_allowed :
        u64 s'.messages_allowed ≡ u64 (s.messages_allowed + granted messages cs gs)
    pub messages_dropped :
        u64 s'.messages_dropped ≡ u64 (s.messages_dropped + refused messages cs gs)
    pub bytes_allowed : u64 s'.bytes_allowed ≡ u64 (s.bytes_allowed + granted bytes cs gs)
    pub bytes_dropped : u64 s'.bytes_dropped ≡ u64 (s.bytes_dropped + refused bytes cs gs)
    pub rpcs_allowed : u64 s'.rpcs_allowed ≡ u64 (s.rpcs_allowed + granted rpcs cs gs)
    pub rpcs_dropped : u64 s'.rpcs_dropped ≡ u64 (s.rpcs_dropped + refused rpcs cs gs)

  call-grant :
      (c : Call) (l : RateLimiter)
      → ((call c l).1 ≡ (grant c (buckets_of l)).1)
        × (buckets_of (call c l).0 ≡ (grant c (buckets_of l)).0)
  unfolding call grant allow_message allow_rpc
  call-grant (message now later byte_size) l = ground arith
  call-grant (rpc now) l = ground arith

  call-counts :
      (c : Call) (l : RateLimiter)
      → AreCounted (c ∷ []) ((call c l).1 ∷ []) l.stats (call c l).0.stats
  unfolding call allow_message allow_rpc
  call-counts (message now later byte_size) l = ground arith
  call-counts (rpc now) l = ground arith

  AreCounted-next :
      (c : Call) (g : Bool) (cs : List Call) (gs : List Bool) (s t s' : Stats)
      → AreCounted (c ∷ []) (g ∷ []) s t
      → AreCounted cs gs t s'
      → AreCounted (c ∷ cs) (g ∷ gs) s s'
  AreCounted-next c true cs gs s t s' h k = omega (arith, h, k)
  AreCounted-next c false cs gs s t s' h k = omega (arith, h, k)

  -- Whatever the calls and the clock, the answers are those of the three buckets by themselves, and
  -- the counters have grown, modulo 2^64, by the messages, bytes and remote calls that were granted,
  -- and by those that were refused.
  pub calls-counts :
      (cs : List Call) (l : RateLimiter)
      → ((calls cs l).1 ≡ grants cs (buckets_of l))
        × AreCounted cs (grants cs (buckets_of l)) l.stats (calls cs l).0.stats
  unfolding calls grants
  calls-counts [] l = (refl, omega arith)
  calls-counts (c ∷ cs) l =
      let (answer, state) = call-grant c l in
      let rest = calls-counts cs (call c l).0 in
      (
        ap₂ (◌∷◌) answer (rest.0 ∙ ap (grants cs) state),
        AreCounted-next c (grant c (buckets_of l)).1 cs (grants cs (grant c (buckets_of l)).0)
            l.stats (call c l).0.stats (calls cs (call c l).0).0.stats
            (subst (λ g. AreCounted (c ∷ []) (g ∷ []) l.stats (call c l).0.stats) answer
              (call-counts c l))
            (subst
              (λ b. AreCounted cs (grants cs b) (call c l).0.stats (calls cs (call c l).0).0.stats)
              state rest.1),
      )

  -- No more tokens than the burst, and none taken that is not there.
  unfoldable pub IsWithinBurst : Bucket → Type 0
  IsWithinBurst b = floats.lt_single b.burst b.tokens ≡ false

  -- Where no number is below itself and taking an amount off does not make a number larger, a bucket
  -- that holds at most its burst does so after every `consume`; and a refused amount is more than the
  -- tokens that are left, none of which are taken.
  pub consume-IsWithinBurst :
      (t : floats.Double) (amount : floats.Single) (b : Bucket)
      → ((x : floats.Single) → floats.lt_single x x ≡ false)
      → ((x y : floats.Single)
          → floats.lt_single x y ≡ false
          → floats.lt_single x (floats.sub_single y amount) ≡ false)
      → IsWithinBurst b
      → IsWithinBurst (consume t amount b).0
        × ((consume t amount b).1 ≡ false
            → ((consume t amount b).0.tokens ≡ refilled t b)
              × (floats.le_single amount (refilled t b) ≡ false))
  unfolding IsWithinBurst consume
  consume-IsWithinBurst t amount b irreflexive less w =
      ground (arith, irreflexive b.burst, less b.burst (refilled t b), less b.burst b.burst, w)
