-- ===== src/Crypto/ChaCha.antt =====
-- ChaCha20 of `src/crypto/chachapoly.cpp`.
use campello_net.Prelude.{
  ℕ, zero, suc, ◌+◌, ◌≤◌, ◌<◌, ◌≡◌, refl, ap, ap₂, sym, ◌∙◌, arith, bit_xor, bit_xor-bit_xor, u32,
  List, [], ◌∷◌, ◌++◌, append-nil, length, get_or, set, take, drop, take-length, take-append,
  drop-append, take-append-drop, ◌==◌, ==_iff, Bool-cases, inl, inr, length-take, length-drop,
  length-append,
}
use campello_net.Crypto.{rotl, load32le, store32le}

-- `qr` on the words `a`, `b`, `c` and `d`.
unfoldable pub quarter : (a b c d : ℕ) → List ℕ → List ℕ
quarter a b c d x =
    let a1 = u32 (get_or x a 0 + get_or x b 0) in
    let d1 = rotl (bit_xor (get_or x d 0) a1) 16 in
    let c1 = u32 (get_or x c 0 + d1) in
    let b1 = rotl (bit_xor (get_or x b 0) c1) 12 in
    let a2 = u32 (a1 + b1) in
    let d2 = rotl (bit_xor d1 a2) 8 in
    let c2 = u32 (c1 + d2) in
    let b2 = rotl (bit_xor b1 c2) 7 in set (set (set (set x a a2) d d2) c c2) b b2

unfoldable pub double_round : List ℕ → List ℕ
double_round x = quarter 3 4 9 14 (
    quarter 2 7 8 13 (
      quarter 1 6 11 12 (
        quarter 0 5 10 15
          (quarter 3 7 11 15 (quarter 2 6 10 14 (quarter 1 5 9 13 (quarter 0 4 8 12 x)))))))

unfoldable pub rounds : ℕ → List ℕ → List ℕ
rounds zero x = x
rounds (suc n) x = rounds n (double_round x)

-- The word at an offset.
unfoldable pub word : List ℕ → ℕ → ℕ
word bytes i =
    load32le (get_or bytes i 0) (get_or bytes (i + 1) 0) (get_or bytes (i + 2) 0)
      (get_or bytes (i + 3) 0)

unfoldable pub initial_state : List ℕ → ℕ → List ℕ → List ℕ
initial_state key counter nonce =
    0x61707865
    ∷ 0x3320646e
    ∷ 0x79622d32
    ∷ 0x6b206574
    ∷ word key 0
    ∷ word key 4
    ∷ word key 8
    ∷ word key 12
    ∷ word key 16
    ∷ word key 20
    ∷ word key 24
    ∷ word key 28
    ∷ counter
    ∷ word nonce 0
    ∷ word nonce 4
    ∷ word nonce 8
    ∷ []

-- The sums with the initial state, as bytes.
unfoldable pub output : ℕ → List ℕ → List ℕ → List ℕ
output i [] working = []
output i (s ∷ state) working =
    store32le (u32 (get_or working i 0 + s)) ++ output (suc i) state working

unfoldable pub chacha20_block : List ℕ → ℕ → List ℕ → List ℕ
chacha20_block key counter nonce =
    output 0 (initial_state key counter nonce) (rounds 10 (initial_state key counter nonce))

-- `data[offset + i] ^= block[i]` over one chunk.
unfoldable pub xor_bytes : List ℕ → List ℕ → List ℕ
xor_bytes [] block = []
xor_bytes (x ∷ xs) [] = x ∷ xs
xor_bytes (x ∷ xs) (b ∷ block) = bit_xor x b ∷ xor_bytes xs block

-- The loop of `chacha20_crypt`: each pass takes at least one byte, so that the length is fuel enough.
unfoldable pub crypt_chunks : (fuel : ℕ) → List ℕ → List ℕ → ℕ → List ℕ → List ℕ
crypt_chunks zero key nonce counter bytes = []
crypt_chunks (suc n) key nonce counter [] = []
crypt_chunks (suc n) key nonce counter (x ∷ xs) =
    xor_bytes (take 64 (x ∷ xs)) (chacha20_block key counter nonce)
    ++ crypt_chunks n key nonce (u32 (counter + 1)) (drop 64 (x ∷ xs))

unfoldable pub chacha20_crypt : List ℕ → List ℕ → ℕ → List ℕ → List ℕ
chacha20_crypt key nonce counter bytes = crypt_chunks (length bytes) key nonce counter bytes

block_length : (key nonce : List ℕ) (counter : ℕ) → length (chacha20_block key counter nonce) ≡ 64
unfolding chacha20_block initial_state output store32le
block_length key nonce counter = refl

xor_bytes-length : (xs block : List ℕ) → length (xor_bytes xs block) ≡ length xs
unfolding xor_bytes
xor_bytes-length [] block = refl
xor_bytes-length (x ∷ xs) [] = refl
xor_bytes-length (x ∷ xs) (b ∷ block) = ap suc (xor_bytes-length xs block)

xor_bytes_again : (xs block : List ℕ) → xor_bytes (xor_bytes xs block) block ≡ xs
unfolding xor_bytes
xor_bytes_again [] block = refl
xor_bytes_again (x ∷ xs) [] = refl
xor_bytes_again (x ∷ xs) (b ∷ block) = ap₂ (◌∷◌) (bit_xor-bit_xor x b) (xor_bytes_again xs block)

-- The pass over a chunk and what follows it.
crypt_pass :
    (n : ℕ) (key nonce : List ℕ) (counter : ℕ) (xs : List ℕ)
    → crypt_chunks (suc n) key nonce counter xs
      ≡ xor_bytes (take 64 xs) (chacha20_block key counter nonce)
        ++ crypt_chunks n key nonce (u32 (counter + 1)) (drop 64 xs)
unfolding crypt_chunks xor_bytes
crypt_pass zero key nonce counter [] = refl
crypt_pass (suc n) key nonce counter [] = refl
crypt_pass n key nonce counter (x ∷ xs) = refl

crypt_nil : (n : ℕ) (key nonce : List ℕ) (counter : ℕ) → crypt_chunks n key nonce counter [] ≡ []
unfolding crypt_chunks
crypt_nil zero key nonce counter = refl
crypt_nil (suc n) key nonce counter = refl

no_bytes : (xs : List ℕ) → length xs ≡ 0 → xs ≡ []
no_bytes [] e = refl
no_bytes (x ∷ xs) e = absurd (omega arith)

-- A chunk that is full, or the last.
cut_at :
    (chunk rest : List ℕ)
    → length chunk ≤ 64
    → (length chunk < 64 → length rest ≡ 0)
    → (take 64 (chunk ++ rest) ≡ chunk) × (drop 64 (chunk ++ rest) ≡ rest)
cut_at chunk rest h g = elim (Bool-cases (length chunk == 64)) [
  | inl e ↦
      let full : length chunk ≡ 64 = (==_iff (length chunk) 64).0 e in
      (
        ap (λ n. take n (chunk ++ rest)) (sym full) ∙ take-append chunk rest,
        ap (λ n. drop n (chunk ++ rest)) (sym full) ∙ drop-append chunk rest,
      )
  | inr e ↦
      let short : length chunk < 64 = ground (arith, e, h) in
      let last : rest ≡ [] = no_bytes rest (g short) in
      (
        ap (λ r. take 64 (chunk ++ r)) last
            ∙ ap (take 64) (append-nil chunk)
            ∙ take-length 64 chunk h,
        ap (λ r. drop 64 (chunk ++ r)) last
            ∙ ap (drop 64) (append-nil chunk)
            ∙ no_bytes (drop 64 chunk) (omega (arith, length-drop 64 chunk, h))
            ∙ sym last,
      )
]

-- The length is kept, and a second pass undoes the first.
crypt_chunks-length :
    (n : ℕ) (key nonce : List ℕ) (counter : ℕ) (xs : List ℕ)
    → length xs ≤ n
    → length (crypt_chunks n key nonce counter xs) ≡ length xs
crypt_chunks-length zero key nonce counter [] h = ap length (crypt_nil zero key nonce counter)
crypt_chunks-length zero key nonce counter (x ∷ xs) h = absurd (omega arith)
crypt_chunks-length (suc n) key nonce counter xs h =
    let chunk = xor_bytes (take 64 xs) (chacha20_block key counter nonce) in
    let rest = crypt_chunks n key nonce (u32 (counter + 1)) (drop 64 xs) in
    ap length (crypt_pass n key nonce counter xs)
    ∙ omega (
      arith,
      length-append chunk rest,
      xor_bytes-length (take 64 xs) (chacha20_block key counter nonce),
      length-take 64 xs,
      length-drop 64 xs,
      crypt_chunks-length n key nonce (u32 (counter + 1)) (drop 64 xs)
          (omega (arith, length-drop 64 xs)),
    )

crypt_chunks_again :
    (n : ℕ) (key nonce : List ℕ) (counter : ℕ) (xs : List ℕ)
    → length xs ≤ n
    → crypt_chunks n key nonce counter (crypt_chunks n key nonce counter xs) ≡ xs
crypt_chunks_again zero key nonce counter [] h =
    ap (crypt_chunks zero key nonce counter) (crypt_nil zero key nonce counter)
    ∙ crypt_nil zero key nonce counter
crypt_chunks_again zero key nonce counter (x ∷ xs) h = absurd (omega arith)
crypt_chunks_again (suc n) key nonce counter xs h =
    let block = chacha20_block key counter nonce in
    let chunk = xor_bytes (take 64 xs) block in
    let rest = crypt_chunks n key nonce (u32 (counter + 1)) (drop 64 xs) in
    let parts =
      cut_at chunk rest (omega (arith, xor_bytes-length (take 64 xs) block, length-take 64 xs))
        (λ short. omega (
          arith,
          xor_bytes-length (take 64 xs) block,
          length-take 64 xs,
          length-drop 64 xs,
          crypt_chunks-length n key nonce (u32 (counter + 1)) (drop 64 xs)
              (omega (arith, length-drop 64 xs)),
        )) in
    ap (crypt_chunks (suc n) key nonce counter) (crypt_pass n key nonce counter xs)
    ∙ crypt_pass n key nonce counter (chunk ++ rest)
    ∙ ap₂ ◌++◌ (ap (λ c. xor_bytes c block) parts.0 ∙ xor_bytes_again (take 64 xs) block) (
        ap (crypt_chunks n key nonce (u32 (counter + 1))) parts.1
        ∙ crypt_chunks_again n key nonce (u32 (counter + 1)) (drop 64 xs)
            (omega (arith, length-drop 64 xs)))
    ∙ take-append-drop 64 xs

-- The cipher is its own inverse, and keeps the number of bytes.
pub chacha20_crypt-length :
    (key nonce : List ℕ) (counter : ℕ) (xs : List ℕ)
    → length (chacha20_crypt key nonce counter xs) ≡ length xs
unfolding chacha20_crypt
chacha20_crypt-length key nonce counter xs =
    crypt_chunks-length (length xs) key nonce counter xs (omega arith)

pub chacha20_crypt_again :
    (key nonce : List ℕ) (counter : ℕ) (xs : List ℕ)
    → chacha20_crypt key nonce counter (chacha20_crypt key nonce counter xs) ≡ xs
unfolding chacha20_crypt
chacha20_crypt_again key nonce counter xs =
    ap (λ n. crypt_chunks n key nonce counter (crypt_chunks (length xs) key nonce counter xs))
      (crypt_chunks-length (length xs) key nonce counter xs (omega arith))
    ∙ crypt_chunks_again (length xs) key nonce counter xs (omega arith)
