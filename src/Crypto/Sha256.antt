-- ===== src/Crypto/Sha256.antt =====
-- `src/crypto/hmac_sha256.cpp`: SHA-256 byte by byte, and the HMAC over it.
use campello_net.Prelude.{
  ℕ, zero, suc, ◌+◌, ◌-◌, ◌*◌, ◌^◌, bit_and, bit_or, bit_xor, ltb, if◌then◌else◌, u32, u64, ◌<<◌,
  ◌>>◌, List, [], ◌∷◌, ◌++◌, ◌==◌, length, get_or, set, take, drop, replicate,
}
use campello_net.Bytes.{write_u32_be, write_u64_be}
use campello_net.Crypto.{rotr}

unfoldable pub ch : ℕ → ℕ → ℕ → ℕ
ch x y z = bit_xor (bit_and x y) (bit_and (2 ^ 32 - 1 - x) z)

unfoldable pub maj : ℕ → ℕ → ℕ → ℕ
maj x y z = bit_xor (bit_xor (bit_and x y) (bit_and x z)) (bit_and y z)

unfoldable pub ep0 : ℕ → ℕ
ep0 x = bit_xor (bit_xor (rotr x 2) (rotr x 13)) (rotr x 22)

unfoldable pub ep1 : ℕ → ℕ
ep1 x = bit_xor (bit_xor (rotr x 6) (rotr x 11)) (rotr x 25)

unfoldable pub sig0 : ℕ → ℕ
sig0 x = bit_xor (bit_xor (rotr x 7) (rotr x 18)) (x >> 3)

unfoldable pub sig1 : ℕ → ℕ
sig1 x = bit_xor (bit_xor (rotr x 17) (rotr x 19)) (x >> 10)

-- `K[64]`.
abbrev pub round_constants : List ℕ
round_constants =
    0x428a2f98 ∷ 0x71374491 ∷ 0xb5c0fbcf ∷ 0xe9b5dba5 ∷ 0x3956c25b ∷ 0x59f111f1 ∷ 0x923f82a4
    ∷ 0xab1c5ed5 ∷ 0xd807aa98 ∷ 0x12835b01 ∷ 0x243185be ∷ 0x550c7dc3 ∷ 0x72be5d74 ∷ 0x80deb1fe
    ∷ 0x9bdc06a7 ∷ 0xc19bf174 ∷ 0xe49b69c1 ∷ 0xefbe4786 ∷ 0x0fc19dc6 ∷ 0x240ca1cc ∷ 0x2de92c6f
    ∷ 0x4a7484aa ∷ 0x5cb0a9dc ∷ 0x76f988da ∷ 0x983e5152 ∷ 0xa831c66d ∷ 0xb00327c8 ∷ 0xbf597fc7
    ∷ 0xc6e00bf3 ∷ 0xd5a79147 ∷ 0x06ca6351 ∷ 0x14292967 ∷ 0x27b70a85 ∷ 0x2e1b2138 ∷ 0x4d2c6dfc
    ∷ 0x53380d13 ∷ 0x650a7354 ∷ 0x766a0abb ∷ 0x81c2c92e ∷ 0x92722c85 ∷ 0xa2bfe8a1 ∷ 0xa81a664b
    ∷ 0xc24b8b70 ∷ 0xc76c51a3 ∷ 0xd192e819 ∷ 0xd6990624 ∷ 0xf40e3585 ∷ 0x106aa070 ∷ 0x19a4c116
    ∷ 0x1e376c08 ∷ 0x2748774c ∷ 0x34b0bcb5 ∷ 0x391c0cb3 ∷ 0x4ed8aa4a ∷ 0x5b9cca4f ∷ 0x682e6ff3
    ∷ 0x748f82ee ∷ 0x78a5636f ∷ 0x84c87814 ∷ 0x8cc70208 ∷ 0x90befffa ∷ 0xa4506ceb ∷ 0xbef9a3f7
    ∷ 0xc67178f2 ∷ []

-- The eight words of `state[8]`, and of the variables `a` to `h`.
pub record Words : Type 0 where
  pub a : ℕ
  pub b : ℕ
  pub c : ℕ
  pub d : ℕ
  pub e : ℕ
  pub f : ℕ
  pub g : ℕ
  pub h : ℕ

-- `Sha256State`; `data` has 64 bytes.
pub record Sha256State : Type 0 where
  pub data_block : List ℕ
  pub datalen : ℕ
  pub bitlen : ℕ
  pub state : Words

abbrev pub fresh_sha : Sha256State
fresh_sha = record {
  data_block = replicate 64 0;
  datalen = 0;
  bitlen = 0;
  state = record {
    a = 0x6a09e667;
    b = 0xbb67ae85;
    c = 0x3c6ef372;
    d = 0xa54ff53a;
    e = 0x510e527f;
    f = 0x9b05688c;
    g = 0x1f83d9ab;
    h = 0x5be0cd19;
  };
}

-- The first 16 words of `m`.
unfoldable pub block_words : List ℕ → List ℕ
block_words (a ∷ b ∷ c ∷ d ∷ bytes) =
    bit_or (bit_or (bit_or (u32 (a << 24)) (b << 16)) (c << 8)) d ∷ block_words bytes
block_words _ = []

-- The words 16 to 63: each pass of the loop appends one.
unfoldable pub schedule : ℕ → List ℕ → List ℕ
schedule zero m = m
schedule (suc n) m = schedule n (
    m
    ++ (u32 (
          sig1 (get_or m (length m - 2) 0)
          + get_or m (length m - 7) 0
          + sig0 (get_or m (length m - 15) 0)
          + get_or m (length m - 16) 0)
        ∷ []))

unfoldable pub compress : ℕ → ℕ → Words → Words
compress k m w =
    let t1 = u32 (w.h + ep1 w.e + ch w.e w.f w.g + k + m) in
    let t2 = u32 (ep0 w.a + maj w.a w.b w.c) in
    record {
      a = u32 (t1 + t2);
      b = w.a;
      c = w.b;
      d = w.c;
      e = u32 (w.d + t1);
      f = w.e;
      g = w.f;
      h = w.g;
    }

unfoldable pub rounds : List ℕ → List ℕ → Words → Words
rounds (k ∷ ks) (m ∷ ms) w = rounds ks ms (compress k m w)
rounds _ _ w = w

unfoldable pub add_words : Words → Words → Words
add_words v w = record {
  a = u32 (v.a + w.a);
  b = u32 (v.b + w.b);
  c = u32 (v.c + w.c);
  d = u32 (v.d + w.d);
  e = u32 (v.e + w.e);
  f = u32 (v.f + w.f);
  g = u32 (v.g + w.g);
  h = u32 (v.h + w.h);
}

unfoldable pub sha256_transform : Sha256State → Sha256State
sha256_transform ctx = record ctx {
  state =
      add_words ctx.state
        (rounds round_constants (schedule 48 (block_words ctx.data_block)) ctx.state);
}

unfoldable pub sha256_byte : ℕ → Sha256State → Sha256State
sha256_byte x ctx =
    let stored = record ctx {
      data_block = set ctx.data_block ctx.datalen x;
      datalen = ctx.datalen + 1;
    } in
    if stored.datalen == 64
    then record (sha256_transform stored) { bitlen = u64 (ctx.bitlen + 512); datalen = 0 }
    else stored

unfoldable pub sha256_update : List ℕ → Sha256State → Sha256State
sha256_update [] ctx = ctx
sha256_update (x ∷ xs) ctx = sha256_update xs (sha256_byte x ctx)

-- The block with the padding, before the length is written: a second block where it does not fit.
unfoldable pub sha256_pad : Sha256State → Sha256State
sha256_pad ctx =
    let marked = take ctx.datalen ctx.data_block ++ (0x80 ∷ []) in
    if ltb ctx.datalen 56
    then record ctx {
      data_block = marked ++ (replicate (55 - ctx.datalen) 0 ++ drop 56 ctx.data_block);
    }
    else let full = record ctx { data_block = marked ++ replicate (63 - ctx.datalen) 0 } in
      record (sha256_transform full) { data_block = replicate 56 0 ++ drop 56 full.data_block }

unfoldable pub sha256_final : Sha256State → List ℕ
sha256_final ctx =
    let padded = sha256_pad ctx in
    let bits = u64 (ctx.bitlen + ctx.datalen * 8) in
    let done =
      sha256_transform
        (record padded { data_block = take 56 padded.data_block ++ write_u64_be bits }) in
    write_u32_be done.state.a
    ++ (write_u32_be done.state.b
        ++ (write_u32_be done.state.c
            ++ (write_u32_be done.state.d
                ++ (write_u32_be done.state.e
                    ++ (write_u32_be done.state.f
                        ++ (write_u32_be done.state.g ++ write_u32_be done.state.h))))))

unfoldable pub sha256 : List ℕ → List ℕ
sha256 message = sha256_final (sha256_update message fresh_sha)

-- `k_pad[i] ^= key[i]` over a block that repeats one byte.
unfoldable pub key_pad : ℕ → ℕ → List ℕ → List ℕ
key_pad zero pad key = []
key_pad (suc n) pad [] = pad ∷ key_pad n pad []
key_pad (suc n) pad (k ∷ key) = bit_xor pad k ∷ key_pad n pad key

unfoldable pub hmac_sha256 : List ℕ → List ℕ → List ℕ
hmac_sha256 key message =
    let short = if ltb 64 (length key) then sha256 key else key in
    let inner =
      sha256_final (sha256_update message (sha256_update (key_pad 64 0x36 short) fresh_sha)) in
    sha256_final (sha256_update inner (sha256_update (key_pad 64 0x5c short) fresh_sha))
