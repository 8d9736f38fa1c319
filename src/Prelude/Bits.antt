-- ===== src/Prelude/Bits.antt =====
-- Shifts, masks and `|` as C++ writes them, and their values as sums and remainders.
use Prim.Native.Nat.{
  ℕ, zero, suc, ◌+◌, ◌-◌, ◌*◌, ◌/◌, ◌%◌, ◌^◌, ◌≤◌, ◌<◌, min, max, bit_and, bit_or, bit_xor, digits,
  bit_and-bitwise, bit_or-bitwise, bit_xor-bitwise, differ,
}
use mathlib.Core.Path.{◌≡◌, refl, ap, ap₂, sym, ◌∙◌}
use native.Mathlib.Omega.{arith}
use native.Mathlib.Nat.{
  pow-suc, div-div-eq-div-mul, div-add-mod, one-le-pow, add-mul-mod_self_left, mod-eq_of_lt, mod-lt,
}

-- `x << k` before the result is cut to its width, and `x >> k`.
infixl 75 ◌<<◌ ◌>>◌
abbrev pub ◌<<◌ : ℕ → ℕ → ℕ
x << k = x * 2 ^ k

abbrev pub ◌>>◌ : ℕ → ℕ → ℕ
x >> k = x / 2 ^ k

-- The casts to the unsigned widths.
abbrev pub u8 : ℕ → ℕ
u8 x = x % 2 ^ 8

abbrev pub u16 : ℕ → ℕ
u16 x = x % 2 ^ 16

abbrev pub u32 : ℕ → ℕ
u32 x = x % 2 ^ 32

abbrev pub u64 : ℕ → ℕ
u64 x = x % 2 ^ 64

-- The native operations recur on binary digits with fuel: any fuel that covers the first number
-- gives the same value.
module _ (z : ℕ → ℕ) (f : ℕ → ℕ → ℕ) where
  digits_enough : (m k a b : ℕ) → a ≤ m → a ≤ k → digits z f m a b ≡ digits z f k a b
  digits_enough zero zero a b h g = refl
  digits_enough zero (suc k) zero b h g = refl
  digits_enough zero (suc k) (suc a) b h g = absurd (omega arith)
  digits_enough (suc m) zero zero b h g = refl
  digits_enough (suc m) zero (suc a) b h g = absurd (omega arith)
  digits_enough (suc m) (suc k) zero b h g = refl
  digits_enough (suc m) (suc k) (suc a) b h g =
      ap (λ t. t * 2 + f (suc a % 2) (b % 2))
        (digits_enough m k (suc a / 2) (b / 2) (omega arith) (omega arith))

-- One equation for the lowest digit of each operation.
bit_or_low : (a b : ℕ) → bit_or a b ≡ bit_or (a / 2) (b / 2) * 2 + max (a % 2) (b % 2)
bit_or_low zero b = omega (arith, bit_or-bitwise 0 b, bit_or-bitwise 0 (b / 2))
bit_or_low (suc a) b = omega (
  arith,
  bit_or-bitwise (suc a) b,
  bit_or-bitwise (suc a / 2) (b / 2),
  digits_enough (λ y. y) max a (suc a / 2) (suc a / 2) (b / 2) (omega arith) (omega arith),
)

bit_and_low : (a b : ℕ) → bit_and a b ≡ bit_and (a / 2) (b / 2) * 2 + min (a % 2) (b % 2)
bit_and_low zero b = omega (arith, bit_and-bitwise 0 b, bit_and-bitwise 0 (b / 2))
bit_and_low (suc a) b = omega (
  arith,
  bit_and-bitwise (suc a) b,
  bit_and-bitwise (suc a / 2) (b / 2),
  digits_enough (λ y. 0) min a (suc a / 2) (suc a / 2) (b / 2) (omega arith) (omega arith),
)

-- The bound `n` on the number is the recursion.
bit_or_nil : (n a : ℕ) → a ≤ n → bit_or a 0 ≡ a
bit_or_nil n zero h = refl
bit_or_nil zero (suc a) h = absurd (omega arith)
bit_or_nil (suc n) (suc a) h =
    omega (arith, bit_or_low (suc a) 0, bit_or_nil n (suc a / 2) (omega arith))

bit_and_nil : (n a : ℕ) → a ≤ n → bit_and a 0 ≡ 0
bit_and_nil n zero h = refl
bit_and_nil zero (suc a) h = absurd (omega arith)
bit_and_nil (suc n) (suc a) h =
    omega (arith, bit_and_low (suc a) 0, bit_and_nil n (suc a / 2) (omega arith))

double_pow : (q k : ℕ) → q * 2 ^ suc k ≡ 2 * (q * 2 ^ k)
double_pow q k = omega (arith, ap (λ (t : ℕ). q * t) (pow-suc 2 k))

-- A shifted field and one that fits below it.
pub bit_or_shl : (k q r : ℕ) → r < 2 ^ k → bit_or (q << k) r ≡ q * 2 ^ k + r
bit_or_shl zero q r h = ground (arith, bit_or_nil q q)
bit_or_shl (suc k) q r h = ground (
  arith,
  bit_or_low (q * 2 ^ suc k) r,
  double_pow q k,
  bit_or_shl k q (r / 2) (omega (arith, pow-suc 2 k)),
)

-- The remainder by twice `m`, one digit at a time.
mod_double : (a m : ℕ) → 0 < m → a % (2 * m) ≡ a / 2 % m * 2 + a % 2
mod_double a m h =
    ap (λ (t : ℕ). t % (2 * m)) split
    ∙ add-mul-mod_self_left (a / 2 % m * 2 + a % 2) (2 * m) (a / 2 / m)
    ∙ mod-eq_of_lt (omega (arith, mod-lt (a / 2) h))
  where
    split : a ≡ a / 2 % m * 2 + a % 2 + 2 * m * (a / 2 / m)
    split = omega (arith, div-add-mod (a / 2) m)

-- A mask of the `k` lowest bits.
pub bit_and_low_bits : (k a : ℕ) → bit_and a (2 ^ k - 1) ≡ a % 2 ^ k
bit_and_low_bits zero a = ground (arith, bit_and_nil a a)
bit_and_low_bits (suc k) a =
    bit_and_low a (2 ^ suc k - 1)
    ∙ ap₂ (λ u v. bit_and (a / 2) u * 2 + v) (omega (arith, pow-suc 2 k, one-le-pow k 2))
        (omega (arith, pow-suc 2 k, one-le-pow k 2))
    ∙ ap (λ t. t * 2 + a % 2) (bit_and_low_bits k (a / 2))
    ∙ sym (mod_double a (2 ^ k) (one-le-pow k 2 (omega arith)))
    ∙ ap (λ (t : ℕ). a % t) (omega (arith, pow-suc 2 k))

-- Fields that do not overlap.
pub bit_or_disjoint : (k a r : ℕ) → a % 2 ^ k ≡ 0 → r < 2 ^ k → bit_or a r ≡ a + r
bit_or_disjoint k a r e h =
    ap (λ t. bit_or t r) whole ∙ bit_or_shl k (a / 2 ^ k) r h ∙ ap (λ t. t + r) (sym whole)
  where
    whole : a ≡ a / 2 ^ k * 2 ^ k
    whole = omega (arith, div-add-mod a (2 ^ k))

-- The test of one bit.
pub bit_and_pow : (i a : ℕ) → bit_and a (2 ^ i) ≡ a / 2 ^ i % 2 * 2 ^ i
bit_and_pow zero a = ground (arith, bit_and_low_bits 1 a)
bit_and_pow (suc i) a =
    bit_and_low a (2 ^ suc i)
    ∙ ap (λ (t : ℕ). bit_and (a / 2) t * 2 + min (a % 2) (2 ^ suc i % 2)) {y = 2 ^ i}
        (omega (arith, pow-suc 2 i))
    ∙ omega (arith, bit_and_pow i (a / 2) ∙ halves, double_pow (a / 2 ^ suc i % 2) i, pow-suc 2 i)
  where
    quotient : a / 2 / 2 ^ i ≡ a / 2 ^ suc i
    quotient =
        div-div-eq-div-mul a 2 (2 ^ i)
        ∙ ap (λ (t : ℕ). a / t) {y = 2 ^ suc i} (omega (arith, pow-suc 2 i))

    halves : a / 2 / 2 ^ i % 2 * 2 ^ i ≡ a / 2 ^ suc i % 2 * 2 ^ i
    halves = ap (λ (t : ℕ). t % 2 * 2 ^ i) quotient

-- The operands of `|` in the other order, and the field that is below written first.
bit_or_comm : (n a b : ℕ) → a ≤ n → b ≤ n → bit_or a b ≡ bit_or b a
bit_or_comm zero a b h g = ground arith
bit_or_comm (suc n) zero zero h g = refl
bit_or_comm (suc n) a b h g = omega (
  arith,
  bit_or_low a b,
  bit_or_low b a,
  bit_or_comm n (a / 2) (b / 2) (omega arith) (omega arith),
)

pub bit_or_below : (k r a : ℕ) → a % 2 ^ k ≡ 0 → r < 2 ^ k → bit_or r a ≡ r + a
bit_or_below k r a e h =
    omega (arith, bit_or_comm (r + a) r a (omega arith) (omega arith), bit_or_disjoint k a r e h)

bit_xor_low : (a b : ℕ) → bit_xor a b ≡ bit_xor (a / 2) (b / 2) * 2 + differ (a % 2) (b % 2)
bit_xor_low zero b = omega (arith, bit_xor-bitwise 0 b, bit_xor-bitwise 0 (b / 2))
bit_xor_low (suc a) b = omega (
  arith,
  bit_xor-bitwise (suc a) b,
  bit_xor-bitwise (suc a / 2) (b / 2),
  digits_enough (λ y. y) differ a (suc a / 2) (suc a / 2) (b / 2) (omega arith) (omega arith),
)

-- The lowest digit of `^` is the sum of the digits, without the carry.
differ_digits : (x y : ℕ) → x < 2 → y < 2 → differ x y ≡ (x + y) % 2
differ_digits zero y h g = omega arith
differ_digits (suc zero) zero h g = refl
differ_digits (suc zero) (suc zero) h g = refl
differ_digits (suc x) (suc (suc y)) h g = absurd (omega arith)
differ_digits (suc (suc x)) y h g = absurd (omega arith)

bit_xor_digit : (a b : ℕ) → bit_xor a b ≡ bit_xor (a / 2) (b / 2) * 2 + (a % 2 + b % 2) % 2
bit_xor_digit a b =
    omega (arith, bit_xor_low a b, differ_digits (a % 2) (b % 2) (omega arith) (omega arith))

-- The bound `n` on the numbers is the recursion.
bit_xor_again : (n a b : ℕ) → a ≤ n → b ≤ n → bit_xor (bit_xor a b) b ≡ a
bit_xor_again zero zero zero h g = refl
bit_xor_again zero (suc a) b h g = absurd (omega arith)
bit_xor_again zero a (suc b) h g = absurd (omega arith)
bit_xor_again (suc n) a b h g =
    bit_xor_digit (bit_xor a b) b
    ∙ ap₂ (λ u v. bit_xor u (b / 2) * 2 + (v + b % 2) % 2) half digit
    ∙ omega (arith, bit_xor_again n (a / 2) (b / 2) (omega arith) (omega arith))
  where
    half : bit_xor a b / 2 ≡ bit_xor (a / 2) (b / 2)
    half = omega (arith, bit_xor_digit a b)

    digit : bit_xor a b % 2 ≡ (a % 2 + b % 2) % 2
    digit = omega (arith, bit_xor_digit a b)

-- The same mask twice.
pub bit_xor-bit_xor : (a b : ℕ) → bit_xor (bit_xor a b) b ≡ a
bit_xor-bit_xor a b = bit_xor_again (a + b) a b (omega arith) (omega arith)

bit_xor_same : (n a b : ℕ) → a ≤ n → b ≤ n → bit_xor a b ≡ 0 → a ≡ b
bit_xor_same zero a b h g e = omega arith
bit_xor_same (suc n) a b h g e = omega (
  arith,
  bit_xor_digit a b,
  bit_xor_same n (a / 2) (b / 2) (omega arith) (omega arith) (omega (arith, bit_xor_digit a b)),
)

pub bit_xor_zero : (a b : ℕ) → bit_xor a b ≡ 0 → a ≡ b
bit_xor_zero a b e = bit_xor_same (a + b) a b (omega arith) (omega arith) e

bit_xor_equal : (n a : ℕ) → a ≤ n → bit_xor a a ≡ 0
bit_xor_equal zero zero h = refl
bit_xor_equal zero (suc a) h = absurd (omega arith)
bit_xor_equal (suc n) a h = omega (arith, bit_xor_digit a a, bit_xor_equal n (a / 2) (omega arith))

pub bit_xor_self : (a : ℕ) → bit_xor a a ≡ 0
bit_xor_self a = bit_xor_equal a a (omega arith)

-- Nothing is set in `|` only if nothing is set in its operands.
bit_or_none : (n a b : ℕ) → a ≤ n → b ≤ n → bit_or a b ≡ 0 → (a ≡ 0) × (b ≡ 0)
bit_or_none zero a b h g e = (omega arith, omega arith)
bit_or_none (suc n) a b h g e =
    let rest : (a / 2 ≡ 0) × (b / 2 ≡ 0) =
      bit_or_none n (a / 2) (b / 2) (omega arith) (omega arith) (omega (arith, bit_or_low a b)) in
    (omega (arith, bit_or_low a b, rest.0), omega (arith, bit_or_low a b, rest.1))

pub bit_or_zero : (a b : ℕ) → bit_or a b ≡ 0 → (a ≡ 0) × (b ≡ 0)
bit_or_zero a b e = bit_or_none (a + b) a b (omega arith) (omega arith) e
