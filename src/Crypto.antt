-- ===== src/Crypto.antt =====
-- The cryptography under `src/crypto`: words of 32 bits and their bytes, shared by its two files.
pub mod Sha256
pub mod ChaCha
pub mod Poly1305
pub mod Aead
use campello_net.Prelude.{
  ℕ, ◌+◌, ◌-◌, ◌*◌, ◌^◌, ◌<◌, ◌≡◌, ◌↔◌, refl, ap₂, subst, arith, bit_or, bit_xor, bit_or_below,
  bit_xor_self, bit_or_zero, bit_xor_zero, u8, u32, ◌<<◌, ◌>>◌, List, [], ◌∷◌, length,
}

unfoldable pub rotl : ℕ → ℕ → ℕ
rotl x n = bit_or (u32 (x << n)) (x >> (32 - n))

unfoldable pub rotr : ℕ → ℕ → ℕ
rotr x n = bit_or (x >> n) (u32 (x << (32 - n)))

unfoldable pub load16le : ℕ → ℕ → ℕ
load16le a b = bit_or a (b << 8)

unfoldable pub load32le : ℕ → ℕ → ℕ → ℕ → ℕ
load32le a b c d = bit_or (bit_or (bit_or a (b << 8)) (c << 16)) (d << 24)

unfoldable pub load64le : ℕ → ℕ → ℕ → ℕ → ℕ → ℕ → ℕ → ℕ → ℕ
load64le a b c d e f g h =
    bit_or
      (bit_or
        (bit_or (bit_or (bit_or (bit_or (bit_or a (b << 8)) (c << 16)) (d << 24)) (e << 32))
          (f << 40))
        (g << 48))
      (h << 56)

unfoldable pub store16le : ℕ → List ℕ
store16le v = u8 v ∷ u8 (v >> 8) ∷ []

unfoldable pub store32le : ℕ → List ℕ
store32le v = u8 v ∷ u8 (v >> 8) ∷ u8 (v >> 16) ∷ u8 (v >> 24) ∷ []

unfoldable pub store64le : ℕ → List ℕ
store64le v =
    u8 v
    ∷ u8 (v >> 8)
    ∷ u8 (v >> 16)
    ∷ u8 (v >> 24)
    ∷ u8 (v >> 32)
    ∷ u8 (v >> 40)
    ∷ u8 (v >> 48)
    ∷ u8 (v >> 56)
    ∷ []

-- `diff |= a[i] ^ b[i]` over two arrays of the same length.
unfoldable pub difference : ℕ → List ℕ → List ℕ → ℕ
difference diff [] bs = diff
difference diff (a ∷ rest) [] = diff
difference diff (a ∷ rest) (b ∷ bs) = difference (bit_or diff (bit_xor a b)) rest bs

-- What the loads read, as sums.
pub load16le_lem : (a b : ℕ) → a < 256 → load16le a b ≡ a + b * 256
unfolding load16le
load16le_lem a b h = omega (arith, bit_or_below 8 a (b << 8) (omega arith) (omega arith))

pub load32le_lem :
    (a b c d : ℕ)
    → a < 256
    → b < 256
    → c < 256
    → load32le a b c d ≡ a + b * 256 + c * 2 ^ 16 + d * 2 ^ 24
unfolding load32le
load32le_lem a b c d ha hb hc =
    rw
      (
        bit_or_below 8 a (b << 8) (omega arith) (omega arith),
        bit_or_below 16 (a + (b << 8)) (c << 16) (omega arith) (omega arith),
        bit_or_below 24 (a + (b << 8) + (c << 16)) (d << 24) (omega arith) (omega arith),
      )
      (omega arith)

pub load64le_lem :
    (a b c d e f g h : ℕ)
    → a < 256
    → b < 256
    → c < 256
    → d < 256
    → e < 256
    → f < 256
    → g < 256
    → load64le a b c d e f g h
      ≡ a + b * 256 + c * 2 ^ 16 + d * 2 ^ 24 + e * 2 ^ 32 + f * 2 ^ 40 + g * 2 ^ 48 + h * 2 ^ 56
unfolding load64le
load64le_lem a b c d e f g h ha hb hc hd he hf hg =
    rw
      (
        bit_or_below 8 a (b << 8) (omega arith) (omega arith),
        bit_or_below 16 (a + (b << 8)) (c << 16) (omega arith) (omega arith),
        bit_or_below 24 (a + (b << 8) + (c << 16)) (d << 24) (omega arith) (omega arith),
        bit_or_below 32 (a + (b << 8) + (c << 16) + (d << 24)) (e << 32) (omega arith)
            (omega arith),
        bit_or_below 40 (a + (b << 8) + (c << 16) + (d << 24) + (e << 32)) (f << 40) (omega arith)
            (omega arith),
        bit_or_below 48 (a + (b << 8) + (c << 16) + (d << 24) + (e << 32) + (f << 40)) (g << 48)
            (omega arith) (omega arith),
        bit_or_below 56 (a + (b << 8) + (c << 16) + (d << 24) + (e << 32) + (f << 40) + (g << 48))
            (h << 56) (omega arith) (omega arith),
      )
      (omega arith)

-- Equal arrays have no difference, and only those.
pub difference_self : (xs : List ℕ) → difference 0 xs xs ≡ 0
unfolding difference
difference_self [] = refl
difference_self (x ∷ xs) = rw (bit_xor_self x) (difference_self xs)

difference_zero :
    (diff : ℕ) (xs ys : List ℕ)
    → length xs ≡ length ys
    → difference diff xs ys ≡ 0
    → (diff ≡ 0) × (xs ≡ ys)
unfolding difference
difference_zero diff [] [] e h = (h, refl)
difference_zero diff [] (y ∷ ys) e h = absurd (omega arith)
difference_zero diff (x ∷ xs) [] e h = absurd (omega arith)
difference_zero diff (x ∷ xs) (y ∷ ys) e h =
    let rest = difference_zero (bit_or diff (bit_xor x y)) xs ys (omega arith) h in
    let both = bit_or_zero diff (bit_xor x y) rest.0 in
    (both.0, ap₂ (◌∷◌) (bit_xor_zero x y both.1) rest.1)

pub difference_iff : (xs ys : List ℕ) → length xs ≡ length ys → (difference 0 xs ys ≡ 0) ↔ (xs ≡ ys)
difference_iff xs ys e = (
  λ h. (difference_zero 0 xs ys e h).1,
  λ h. subst (λ zs. difference 0 xs zs ≡ 0) h (difference_self xs),
)
