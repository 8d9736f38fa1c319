-- ===== src/Tests/Managers.antt =====
-- Snapshots, rate limits and the loopback transport at concrete inputs.
use campello_net.Prelude.{
  ℕ, ◌+◌, ◌-◌, ◌*◌, ◌^◌, ◌≡◌, ◌≢◌, refl, true, false, none, some, List, [], ◌∷◌, ◌++◌, map, arith,
  length, get_elem?, ltb, leb, if◌then◌else◌, u16, lookup,
}
use mathlib.Core.Option
use campello_net.Packet.{reliable_ordered}
use campello_net.Snapshots.{Snap, max_snapshots, retrieve, view, get_entity_state}
use campello_net.Snapshots.History.{history_of, retrieve-history_of}
use campello_net.Snapshots.Lag.{entity_in, get_entity_state-history_of}
use campello_net.RateLimiter.{Floats, Bucket, RateLimiter, fresh_limiter, refilled, consume}
use campello_net.RateLimiter.Counts.{
  Call, message, rpc, calls, grant, grants, buckets_of, AreCounted, calls-counts, IsWithinBurst,
  consume-IsWithinBurst,
}
use campello_net.Loopback.{
  Platform, Transport, World, fresh_transport, fresh_hub, find_transport, packet, poll,
}
use campello_net.Loopback.Delivery.{send_each, poll-send_each}

-- Three snapshots across the wrap of the numbers: 65535, 0 and 1.
abbrev recent : List (List Snap)
recent = ((1, 7 ∷ []) ∷ []) ∷ [] ∷ ((1, 5 ∷ []) ∷ (2, 6 ∷ []) ∷ []) ∷ []

retrieve-history_of_example :
    Option.map view
      (retrieve (u16 (u16 (65534 + length recent) + 2 ^ 16 - 2)) (history_of 65534 recent))
    ≡ (if ltb 2 max_snapshots then get_elem? recent 2 else none)
retrieve-history_of_example = retrieve-history_of 65534 recent 2 (omega arith)

get_entity_state-history_of_example :
    get_entity_state
      (some (history_of 65534 recent))
      (u16 (u16 (65534 + length recent) + 2 ^ 16 - 2))
      2
    ≡ entity_in 2 (if ltb 2 max_snapshots then get_elem? recent 2 else none)
get_entity_state-history_of_example = get_entity_state-history_of 65534 recent 2 2 (omega arith)

-- Numbers for the arithmetic of the buckets.
instance abbrev pub whole_numbers : Floats
whole_numbers = record {
  Single = ℕ;
  Double = ℕ;
  zero_single = 0;
  zero_double = 0;
  max_single = λ x y. if ltb x y then y else x;
  le_single = leb;
  lt_single = ltb;
  add_single = λ x y. x + y;
  sub_single = λ x y. x - y;
  sub_double = λ x y. x - y;
  refill = λ rate elapsed. rate * elapsed;
  of_size = λ n. n;
}

abbrev cs : List Call
cs = message 1 1 40 ∷ rpc 2 ∷ message 3 3 50 ∷ []

-- Of two messages and a remote call, with room for one message of 40 bytes.
abbrev narrow : RateLimiter
narrow = record fresh_limiter {
  byte_bucket = record { rate_per_sec = 0; burst = 60; tokens = 60; last_update = 0 };
}

narrow_run : grants cs (buckets_of narrow) ≡ true ∷ true ∷ false ∷ []
unfolding grants grant consume
narrow_run = refl

calls-counts_example :
    ((calls cs narrow).1 ≡ grants cs (buckets_of narrow))
    × AreCounted cs (grants cs (buckets_of narrow)) narrow.stats (calls cs narrow).0.stats
calls-counts_example = calls-counts cs narrow

abbrev bucket : Bucket
bucket = record { rate_per_sec = 2; burst = 5; tokens = 4; last_update = 1 }

bucket-IsWithinBurst : IsWithinBurst bucket
unfolding IsWithinBurst
bucket-IsWithinBurst = refl

never_below : (x : ℕ) → ltb x x ≡ false
never_below x = ground arith

less_three : (x y : ℕ) → ltb x y ≡ false → ltb x (y - 3) ≡ false
less_three x y h = ground arith

consume-IsWithinBurst_example :
    IsWithinBurst (consume 9 3 bucket).0
    × ((consume 9 3 bucket).1 ≡ false
        → ((consume 9 3 bucket).0.tokens ≡ refilled 9 bucket) × (leb 3 (refilled 9 bucket) ≡ false))
consume-IsWithinBurst_example =
    consume-IsWithinBurst 9 3 bucket never_below less_three bucket-IsWithinBurst

instance abbrev one_process : Platform
one_process = record {
  Double = ℕ;
  Single = ℕ;
  zero_single = 0;
  is_positive = ltb 0;
  after = λ now latency. now + latency;
  double_le = leb;
  local_address = λ port. port;
}

-- A server, the object 1 at the address 9, and a client, the object 2 at the address 50000.
abbrev server_end : Transport
server_end = record fresh_transport { bound = true; local_addr = 9 }

abbrev client_end : Transport
client_end = record fresh_transport { connected = true; local_addr = 50000; remote_addr = 9 }

abbrev world : World
world = record {
  hub = record fresh_hub {
    servers = (9, 1) ∷ [];
    clients = (50000, 2) ∷ [];
    client_to_server = (50000, 9) ∷ [];
  };
  transports = (1, server_end) ∷ (2, client_end) ∷ [];
}

server_found : find_transport 9 world.hub ≡ some 1
unfolding lookup
server_found = refl

server_held : lookup 1 world.transports ≡ some server_end
unfolding lookup
server_held = refl

abbrev messages : List (List ℕ)
messages = (1 ∷ []) ∷ (2 ∷ []) ∷ []

poll-send_each_example :
    let waiting : Transport = record server_end {
      pending_recv = [] ++ map (λ m. packet client_end m reliable_ordered) messages;
    } in
    let w' : World = send_each 0 2 client_end reliable_ordered messages world in
    (lookup 1 w'.transports ≡ some waiting)
    × (lookup 1 (poll 5 1 waiting w').transports
        ≡ some (record server_end {
          ready_recv = [] ++ ([] ++ map (λ m. packet client_end m reliable_ordered) messages);
          pending_recv = [];
        }))
    × ((u : ℕ) → u ≢ 1 → lookup u w'.transports ≡ lookup u world.transports)
poll-send_each_example =
    poll-send_each 0 5 2 client_end reliable_ordered messages world 1 server_end refl refl refl
      server_found server_held refl
