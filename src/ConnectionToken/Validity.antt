-- ===== src/ConnectionToken/Validity.antt =====
-- Which tokens `validate` accepts.
use campello_net.Prelude.{
  ℕ, ◌+◌, ◌≤◌, ◌<◌, ◌^◌, ◌≡◌, refl, ap, sym, ◌∙◌, ◌↔◌, arith, true, some, List, ◌++◌, length, u8,
  u16, u32, ◌>>◌, take, drop, get_or, length-append, length-take, length-drop, take-append,
  drop-append, take-length, subst,
}
use campello_net.Bytes.{write_u32_be}
use campello_net.Crypto.{
  store16le, store32le, store64le, load16le, load32le, load16le_lem, load32le_lem, load64le_lem,
  difference_iff,
}
use campello_net.Crypto.Sha256.{sha256_final, hmac_sha256}
use campello_net.ConnectionToken.{
  validate, generate, token_fields, fill_nonce, issued, expiry, reserved_client_id,
}

hmac_length : (key message : List ℕ) → length (hmac_sha256 key message) ≡ 32
unfolding hmac_sha256 sha256_final write_u32_be
hmac_length key message = refl

load-store16 : (v : ℕ) → v < 2 ^ 16 → load16le (u8 v) (u8 (v >> 8)) ≡ v
load-store16 v h = omega (arith, load16le_lem (u8 v) (u8 (v >> 8)) (omega arith))

load-store32 :
    (v : ℕ) → v < 2 ^ 32 → load32le (u8 v) (u8 (v >> 8)) (u8 (v >> 16)) (u8 (v >> 24)) ≡ v
load-store32 v h = omega (
  arith,
  load32le_lem (u8 v) (u8 (v >> 8)) (u8 (v >> 16)) (u8 (v >> 24)) (omega arith) (omega arith)
      (omega arith),
)

-- A token of 64 bytes is accepted exactly when its two reserved bytes are zero, its last 32 bytes
-- are the HMAC of its first 32 under the server's secret, and the time is from the second of issue
-- to the second of expiry, their sum taken in 32 bits.
pub validate_iff :
    (token secret : List ℕ) (now : ℕ)
    → length token ≡ 64
    → (validate token secret now ≡ true) ↔ (
        (get_or token 30 0 ≡ 0)
        × (get_or token 31 0 ≡ 0)
        × (hmac_sha256 secret (take 32 token) ≡ take 32 (drop 32 token))
        × (issued token ≤ now)
        × (now ≤ u32 (issued token + expiry token)))
unfolding validate
validate_iff token secret now e =
    let same = difference_iff (hmac_sha256 secret (take 32 token)) (take 32 (drop 32 token)) (
      omega (
        arith,
        hmac_length secret (take 32 token),
        length-take 32 (drop 32 token),
        length-drop 32 token,
      )) in
    ((λ h. ground (arith, h, same.0)), (λ h. ground (arith, h.0, h.1, same.1 h.2, h.3, h.4)))

fields_length : (e r t : ℕ) → length (token_fields e r t) ≡ 32
unfolding token_fields fill_nonce store16le store32le store64le
fields_length e r t = refl

-- What the fields of a new token read as, whatever follows them.
fields_read :
    (e r t : ℕ) (mac : List ℕ)
    → r < 2 ^ 64
    → t < 2 ^ 32
    → (issued (token_fields e r t ++ mac) ≡ t)
      × (expiry (token_fields e r t ++ mac) ≡ u16 e)
      × (reserved_client_id (token_fields e r t ++ mac) ≡ r)
      × (get_or (token_fields e r t ++ mac) 30 0 ≡ 0)
      × (get_or (token_fields e r t ++ mac) 31 0 ≡ 0)
unfolding token_fields fill_nonce store16le store32le store64le issued expiry reserved_client_id
fields_read e r t mac hr ht = (
  load-store32 t ht,
  load-store16 (u16 e) (omega arith),
  omega (
    arith,
    load64le_lem (u8 r) (u8 (r >> 8)) (u8 (r >> 16)) (u8 (r >> 24)) (u8 (r >> 32)) (u8 (r >> 40))
        (u8 (r >> 48)) (u8 (r >> 56)) (omega arith) (omega arith) (omega arith) (omega arith)
        (omega arith) (omega arith) (omega arith),
  ),
  refl,
  refl,
)

-- For a lifetime of 1 to 86400 seconds `generate` makes a token; at the server of the same secret
-- it is valid from the second it was issued to that second plus the lifetime modulo 2^16, modulo
-- 2^32, and it carries the client it was made for.
pub validate-generate :
    (secret : List ℕ) (lifetime client_id time now : ℕ)
    → 1 ≤ lifetime
    → lifetime ≤ 86400
    → client_id < 2 ^ 64
    → time < 2 ^ 32
    → (token : List ℕ) × (generate secret lifetime client_id time ≡ some token)
      × (length token ≡ 64)
      × ((validate token secret now ≡ true) ↔ ((time ≤ now) × (now ≤ u32 (time + u16 lifetime))))
      × (reserved_client_id token ≡ client_id)
unfolding generate
validate-generate secret lifetime client_id time now h₁ h₂ hc ht =
    (fields ++ mac, ground (arith, h₁, h₂), whole, valid, read.2)
  where
    fields : List ℕ
    fields = token_fields lifetime client_id time

    mac : List ℕ
    mac = hmac_sha256 secret fields

    read :
        (issued (fields ++ mac) ≡ time)
        × (expiry (fields ++ mac) ≡ u16 lifetime)
        × (reserved_client_id (fields ++ mac) ≡ client_id)
        × (get_or (fields ++ mac) 30 0 ≡ 0)
        × (get_or (fields ++ mac) 31 0 ≡ 0)
    read = fields_read lifetime client_id time mac hc ht

    whole : length (fields ++ mac) ≡ 64
    whole = omega (
      arith,
      length-append fields mac,
      fields_length lifetime client_id time,
      hmac_length secret fields,
    )

    front : take 32 (fields ++ mac) ≡ fields
    front =
        subst (λ n. take n (fields ++ mac) ≡ fields) (fields_length lifetime client_id time)
          (take-append fields mac)

    back : take 32 (drop 32 (fields ++ mac)) ≡ mac
    back =
        ap (take 32) (
          subst (λ n. drop n (fields ++ mac) ≡ mac) (fields_length lifetime client_id time)
            (drop-append fields mac))
        ∙ take-length 32 mac (omega (arith, hmac_length secret fields))

    accepted : hmac_sha256 secret (take 32 (fields ++ mac)) ≡ take 32 (drop 32 (fields ++ mac))
    accepted = ap (hmac_sha256 secret) front ∙ sym back

    valid :
        (validate (fields ++ mac) secret now ≡ true)
        ↔ ((time ≤ now) × (now ≤ u32 (time + u16 lifetime)))
    valid =
        let exactly = validate_iff (fields ++ mac) secret now whole in
        (
          (λ h. rw (sym read.0, sym read.1) ((exactly.0 h).3, (exactly.0 h).4)),
          (λ h. exactly.1 (read.3, read.4, accepted, rw read.0 h.0, rw (read.0, read.1) h.1)),
        )
