-- ===== src/ConnectionToken.antt =====
-- `ConnectionToken` of `src/connection_token.cpp`: 64 bytes, 32 of fields and the HMAC of them.
pub mod Validity
use campello_net.Prelude.{
  ℕ, zero, suc, ◌+◌, ◌^◌, bit_xor, Bool, true, false, ◌||◌, ltb, if◌then◌else◌, ◌==◌, ◌!=◌, Option,
  none, some, u16, u32, ◌<<◌, ◌>>◌, List, [], ◌∷◌, ◌++◌, get_or, take, drop,
}
use campello_net.Crypto.{load16le, load32le, load64le, store16le, store32le, store64le, difference}
use campello_net.Crypto.Sha256.{hmac_sha256}

-- The word that ends the nonce: one pass of the loop, and its four passes.
unfoldable pub xorshift : ℕ → ℕ
xorshift x =
    let x1 = bit_xor x (u32 (x << 13)) in
    let x2 = bit_xor x1 (x1 >> 17) in bit_xor x2 (u32 (x2 << 5))

-- `fill_nonce`: the word overwrites the last two bytes of `reserved`.
unfoldable pub fill_nonce : ℕ → ℕ → ℕ → List ℕ
fill_nonce time expiry reserved =
    take 12 (store32le time ++ (store16le expiry ++ store64le reserved))
    ++ store32le (xorshift (xorshift (xorshift (xorshift (bit_xor time 0x12345678)))))

-- The first 32 bytes.
unfoldable pub token_fields : ℕ → ℕ → ℕ → List ℕ
token_fields expiry_seconds reserved_client_id current_time_unix =
    store32le current_time_unix
    ++ (store16le (u16 expiry_seconds)
        ++ (store64le reserved_client_id
            ++ (fill_nonce current_time_unix (u16 expiry_seconds) reserved_client_id
                ++ (0 ∷ 0 ∷ []))))

-- `generate`: the token, unless it returns false.
unfoldable pub generate : List ℕ → ℕ → ℕ → ℕ → Option (List ℕ)
generate secret expiry_seconds reserved_client_id current_time_unix =
    if (expiry_seconds == 0) || ltb 86400 expiry_seconds
    then none
    else let fields = token_fields expiry_seconds reserved_client_id current_time_unix in
      some (fields ++ hmac_sha256 secret fields)

unfoldable pub issued : List ℕ → ℕ
issued token = load32le (get_or token 0 0) (get_or token 1 0) (get_or token 2 0) (get_or token 3 0)

unfoldable pub expiry : List ℕ → ℕ
expiry token = load16le (get_or token 4 0) (get_or token 5 0)

-- `validate`; `issued + expiry` is an addition of `std::uint32_t`.
unfoldable pub validate : List ℕ → List ℕ → ℕ → Bool
validate token secret current_time_unix =
    if (get_or token 30 0 != 0) || (get_or token 31 0 != 0)
    then false
    else if difference 0 (hmac_sha256 secret (take 32 token)) (take 32 (drop 32 token)) != 0
    then false
    else if ltb current_time_unix (issued token)
        || ltb (u32 (issued token + expiry token)) current_time_unix
    then false
    else true

unfoldable pub reserved_client_id : List ℕ → ℕ
reserved_client_id token =
    load64le (get_or token 6 0) (get_or token 7 0) (get_or token 8 0) (get_or token 9 0)
      (get_or token 10 0) (get_or token 11 0) (get_or token 12 0) (get_or token 13 0)
