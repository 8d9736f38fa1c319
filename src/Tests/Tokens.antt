-- ===== src/Tests/Tokens.antt =====
-- Tests of the cryptography and of the connection tokens.
use campello_net.Prelude.{
  ℕ, ◌+◌, ◌≤◌, ◌≡◌, ◌↔◌, refl, arith, List, [], ◌∷◌, some, true, u16, u32, replicate, take, drop,
  get_or, length,
}
use campello_net.Crypto.{rotr}
use campello_net.Bytes.{write_u32_be, write_u64_be}
use campello_net.Crypto.Sha256.{
  sha256, hmac_sha256, sha256_final, sha256_transform, add_words, sha256_pad, sha256_update,
  sha256_byte, rounds, schedule, block_words, compress, ep1, ch, ep0, maj, sig0, sig1,
}
use campello_net.ConnectionToken.{validate, generate, issued, expiry, reserved_client_id}
use campello_net.ConnectionToken.Validity.{validate_iff, validate-generate}

-- The digest of "abc".
sha256_abc : take 4 (sha256 (0x61 ∷ 0x62 ∷ 0x63 ∷ [])) ≡ (0xba ∷ 0x78 ∷ 0x16 ∷ 0xbf ∷ [])
unfolding sha256 sha256_final write_u32_be sha256_transform add_words sha256_pad sha256_update
    sha256_byte rounds schedule block_words write_u64_be compress ep1 rotr ch ep0 maj sig0 sig1
sha256_abc = refl

-- A token of zeros.
abbrev zeros : List ℕ
zeros = replicate 64 0

validate_iff_example : (validate zeros (replicate 32 1) 5 ≡ true) ↔ (
    (get_or zeros 30 0 ≡ 0)
    × (get_or zeros 31 0 ≡ 0)
    × (hmac_sha256 (replicate 32 1) (take 32 zeros) ≡ take 32 (drop 32 zeros))
    × (issued zeros ≤ 5)
    × (5 ≤ u32 (issued zeros + expiry zeros)))
validate_iff_example = validate_iff zeros (replicate 32 1) 5 refl

-- A token for a day, which is valid for less.
validate-generate_example :
    (token : List ℕ) × (generate (replicate 32 1) 86400 7 1000 ≡ some token)
    × (length token ≡ 64)
    × ((validate token (replicate 32 1) 30000 ≡ true)
        ↔ ((1000 ≤ 30000) × (30000 ≤ u32 (1000 + u16 86400))))
    × (reserved_client_id token ≡ 7)
validate-generate_example =
    validate-generate (replicate 32 1) 86400 7 1000 30000 (omega arith) (omega arith) (omega arith)
      (omega arith)
