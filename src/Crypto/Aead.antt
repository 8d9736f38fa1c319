-- ===== src/Crypto/Aead.antt =====
-- `ChaCha20Poly1305` of `src/crypto/chachapoly.cpp`: the cipher with its tag.
use campello_net.Prelude.{
  ℕ, ◌+◌, ◌-◌, ◌≤◌, ◌≡◌, ap, ap₂, ◌∙◌, arith, bit_and, Option, none, some, List, ◌++◌, ltb, ◌==◌,
  ◌!=◌, if◌then◌else◌, if_false, le→ltb, length, length-append, take, drop, take-append,
  drop-append, replicate,
}
use campello_net.Crypto.{store64le, difference, difference_self}
use campello_net.Crypto.ChaCha.{
  chacha20_block, chacha20_crypt, chacha20_crypt-length, chacha20_crypt_again,
}
use campello_net.Crypto.Poly1305.{
  Poly1305State, poly1305_init, poly1305_update, poly1305_finish, poly1305_finish-length,
}

-- A part of the input, filled up with zeros to 16 bytes.
unfoldable pub update_padded : List ℕ → Poly1305State → Poly1305State
update_padded bytes st =
    let updated = poly1305_update bytes st in
    let rest = bit_and (length bytes) 15 in
    if length bytes == 0
    then st
    else if rest == 0
    then updated
    else poly1305_update (replicate (16 - rest) 0) updated

unfoldable pub aead_compute_tag : List ℕ → List ℕ → List ℕ → List ℕ
aead_compute_tag poly_key aad ciphertext = poly1305_finish (
    poly1305_update (store64le (length aad) ++ store64le (length ciphertext))
      (update_padded ciphertext (update_padded aad (poly1305_init poly_key))))

-- `seal`: the bytes written to `out`, unless it returns false.
unfoldable pub seal : (key nonce aad plaintext : List ℕ) → (out_len : ℕ) → Option (List ℕ)
seal key nonce aad plaintext out_len =
    if ltb out_len (length plaintext + 16)
    then none
    else let ciphertext = chacha20_crypt key nonce 1 plaintext in
      some (ciphertext ++ aead_compute_tag (chacha20_block key 0 nonce) aad ciphertext)

-- `open`; `ciphertext` ends with the tag.
unfoldable pub open_sealed : (key nonce aad ciphertext : List ℕ) → (out_len : ℕ) → Option (List ℕ)
open_sealed key nonce aad ciphertext out_len =
    let encrypted_len = length ciphertext - 16 in
    let encrypted = take encrypted_len ciphertext in
    if ltb (length ciphertext) 16
    then none
    else if ltb out_len encrypted_len
    then none
    else if difference 0 (aead_compute_tag (chacha20_block key 0 nonce) aad encrypted)
          (drop encrypted_len ciphertext)
        != 0
    then none
    else some (chacha20_crypt key nonce 1 encrypted)

-- `derive_keys`: of the client to the server, and of the server to the client.
unfoldable pub derive_keys : List ℕ → List ℕ × List ℕ
derive_keys master_key =
    let block = chacha20_block master_key 0 (replicate 12 0) in
    (take 32 block, take 32 (drop 32 block))

tag_length :
    (poly_key aad ciphertext : List ℕ) → length (aead_compute_tag poly_key aad ciphertext) ≡ 16
unfolding aead_compute_tag
tag_length poly_key aad ciphertext = poly1305_finish-length _

-- What `seal` makes of a text, `open` turns back into it, for the same key, nonce and further data,
-- where both have room for their output.
pub open_sealed-seal :
    (key nonce aad plaintext : List ℕ) (out_len room : ℕ)
    → length plaintext + 16 ≤ out_len
    → length plaintext ≤ room
    → (sealed : List ℕ) × (seal key nonce aad plaintext out_len ≡ some sealed)
      × (length sealed ≡ length plaintext + 16)
      × (open_sealed key nonce aad sealed room ≡ some plaintext)
unfolding seal open_sealed
open_sealed-seal key nonce aad plaintext out_len room h g = (
  ciphertext ++ tag,
  if_false _ _ (ltb out_len (length plaintext + 16)) (le→ltb out_len (length plaintext + 16) h),
  whole,
  if_false _ _ (ltb (length (ciphertext ++ tag)) 16)
        (le→ltb (length (ciphertext ++ tag)) 16 (omega (arith, whole)))
      ∙ if_false _ _ (ltb room (length (ciphertext ++ tag) - 16))
          (le→ltb room (length (ciphertext ++ tag) - 16) (omega (arith, whole, g)))
      ∙ if_false _ _
          (difference 0
              (aead_compute_tag (chacha20_block key 0 nonce) aad
                (take (length (ciphertext ++ tag) - 16) (ciphertext ++ tag)))
              (drop (length (ciphertext ++ tag) - 16) (ciphertext ++ tag))
            != 0)
          (ap₂ (λ c t. difference 0 (aead_compute_tag (chacha20_block key 0 nonce) aad c) t != 0)
              front back
            ∙ ap (λ d. d != 0) (difference_self tag))
      ∙ ap (λ c. some (chacha20_crypt key nonce 1 c)) front
      ∙ ap some (chacha20_crypt_again key nonce 1 plaintext),
)
  where
    ciphertext : List ℕ
    ciphertext = chacha20_crypt key nonce 1 plaintext

    tag : List ℕ
    tag = aead_compute_tag (chacha20_block key 0 nonce) aad ciphertext

    whole : length (ciphertext ++ tag) ≡ length plaintext + 16
    whole = omega (
      arith,
      length-append ciphertext tag,
      chacha20_crypt-length key nonce 1 plaintext,
      tag_length (chacha20_block key 0 nonce) aad ciphertext,
    )

    prefix_len : length (ciphertext ++ tag) - 16 ≡ length ciphertext
    prefix_len = omega (arith, whole, chacha20_crypt-length key nonce 1 plaintext)

    front : take (length (ciphertext ++ tag) - 16) (ciphertext ++ tag) ≡ ciphertext
    front = ap (λ n. take n (ciphertext ++ tag)) prefix_len ∙ take-append ciphertext tag

    back : drop (length (ciphertext ++ tag) - 16) (ciphertext ++ tag) ≡ tag
    back = ap (λ n. drop n (ciphertext ++ tag)) prefix_len ∙ drop-append ciphertext tag
