-- ===== src/Bytes.antt =====
-- Big-endian fields of a byte buffer, as `src/transport/packet.cpp`, `src/network_entity.cpp` and
-- `src/network_replication.cpp` read and write them.
use campello_net.Prelude.{
  ℕ, ◌+◌, ◌*◌, ◌^◌, ◌<◌, ◌≡◌, arith, bit_or, bit_or_disjoint, u8, u16, u32, u64, ◌<<◌, ◌>>◌, List,
  [], ◌∷◌,
}

abbrev pub IsByte : ℕ → Type 0
IsByte b = b < 256

-- `(static_cast<std::uint16_t>(a) << 8) | b`, stored in 16 bits.
unfoldable pub read_u16_be : ℕ → ℕ → ℕ
read_u16_be a b = u16 (bit_or (a << 8) b)

unfoldable pub read_u32_be : ℕ → ℕ → ℕ → ℕ → ℕ
read_u32_be a b c d = bit_or (bit_or (bit_or (u32 (a << 24)) (u32 (b << 16))) (u32 (c << 8))) d

pub read_u16_be_lem : (a b : ℕ) → IsByte a → IsByte b → read_u16_be a b ≡ a * 256 + b
unfolding read_u16_be
read_u16_be_lem a b ha hb = omega (arith, bit_or_disjoint 8 (a << 8) b (omega arith) (omega arith))

pub read_u32_be_lem :
    (a b c d : ℕ)
    → IsByte a
    → IsByte b
    → IsByte c
    → IsByte d
    → read_u32_be a b c d ≡ a * 2 ^ 24 + b * 2 ^ 16 + c * 256 + d
unfolding read_u32_be
read_u32_be_lem a b c d ha hb hc hd =
    rw
      (
        bit_or_disjoint 24 (u32 (a << 24)) (u32 (b << 16)) (omega arith) (omega arith),
        bit_or_disjoint 16 (u32 (a << 24) + u32 (b << 16)) (u32 (c << 8)) (omega arith)
            (omega arith),
        bit_or_disjoint 8 (u32 (a << 24) + u32 (b << 16) + u32 (c << 8)) d (omega arith)
            (omega arith),
      )
      (omega arith)

-- The bytes that `write_u64_be`, `write_u32_be` and `write_u16_be` write.
unfoldable pub write_u16_be : ℕ → List ℕ
write_u16_be x = u8 (x >> 8) ∷ u8 x ∷ []

unfoldable pub write_u32_be : ℕ → List ℕ
write_u32_be x = u8 (x >> 24) ∷ u8 (x >> 16) ∷ u8 (x >> 8) ∷ u8 x ∷ []

unfoldable pub write_u64_be : ℕ → List ℕ
write_u64_be x =
    u8 (x >> 56)
    ∷ u8 (x >> 48)
    ∷ u8 (x >> 40)
    ∷ u8 (x >> 32)
    ∷ u8 (x >> 24)
    ∷ u8 (x >> 16)
    ∷ u8 (x >> 8)
    ∷ u8 x
    ∷ []

unfoldable pub read_u64_be : ℕ → ℕ → ℕ → ℕ → ℕ → ℕ → ℕ → ℕ → ℕ
read_u64_be a b c d e f g h =
    bit_or
      (bit_or
        (bit_or
          (bit_or
            (bit_or (bit_or (bit_or (u64 (a << 56)) (u64 (b << 48))) (u64 (c << 40)))
              (u64 (d << 32)))
            (u64 (e << 24)))
          (u64 (f << 16)))
        (u64 (g << 8)))
      h

pub read_u64_be_lem :
    (a b c d e f g h : ℕ)
    → IsByte a
    → IsByte b
    → IsByte c
    → IsByte d
    → IsByte e
    → IsByte f
    → IsByte g
    → IsByte h
    → read_u64_be a b c d e f g h
      ≡ a * 2 ^ 56 + b * 2 ^ 48 + c * 2 ^ 40 + d * 2 ^ 32 + e * 2 ^ 24 + f * 2 ^ 16 + g * 2 ^ 8 + h
unfolding read_u64_be
read_u64_be_lem a b c d e f g h ha hb hc hd he hf hg hh =
    rw
      (
        bit_or_disjoint 56 (u64 (a << 56)) (u64 (b << 48)) (omega arith) (omega arith),
        bit_or_disjoint 48 (u64 (a << 56) + u64 (b << 48)) (u64 (c << 40)) (omega arith)
            (omega arith),
        bit_or_disjoint 40 (u64 (a << 56) + u64 (b << 48) + u64 (c << 40)) (u64 (d << 32))
            (omega arith) (omega arith),
        bit_or_disjoint 32 (u64 (a << 56) + u64 (b << 48) + u64 (c << 40) + u64 (d << 32))
            (u64 (e << 24)) (omega arith) (omega arith),
        bit_or_disjoint 24
            (u64 (a << 56) + u64 (b << 48) + u64 (c << 40) + u64 (d << 32) + u64 (e << 24))
            (u64 (f << 16)) (omega arith) (omega arith),
        bit_or_disjoint 16
            (u64 (a << 56)
              + u64 (b << 48)
              + u64 (c << 40)
              + u64 (d << 32)
              + u64 (e << 24)
              + u64 (f << 16))
            (u64 (g << 8)) (omega arith) (omega arith),
        bit_or_disjoint 8
            (u64 (a << 56)
              + u64 (b << 48)
              + u64 (c << 40)
              + u64 (d << 32)
              + u64 (e << 24)
              + u64 (f << 16)
              + u64 (g << 8))
            h (omega arith) (omega arith),
      )
      (omega arith)

-- Written and read back.
pub read-write_u16 : (x : ℕ) → x < 2 ^ 16 → read_u16_be (u8 (x >> 8)) (u8 x) ≡ x
read-write_u16 x h = omega (arith, read_u16_be_lem (u8 (x >> 8)) (u8 x) (omega arith) (omega arith))

pub read-write_u32 :
    (x : ℕ) → x < 2 ^ 32 → read_u32_be (u8 (x >> 24)) (u8 (x >> 16)) (u8 (x >> 8)) (u8 x) ≡ x
read-write_u32 x h = omega (
  arith,
  read_u32_be_lem (u8 (x >> 24)) (u8 (x >> 16)) (u8 (x >> 8)) (u8 x) (omega arith) (omega arith)
      (omega arith) (omega arith),
)

pub read-write_u64 :
    (x : ℕ)
    → x < 2 ^ 64
    → read_u64_be
        (u8 (x >> 56))
        (u8 (x >> 48))
        (u8 (x >> 40))
        (u8 (x >> 32))
        (u8 (x >> 24))
        (u8 (x >> 16))
        (u8 (x >> 8))
        (u8 x)
      ≡ x
read-write_u64 x h = omega (
  arith,
  read_u64_be_lem (u8 (x >> 56)) (u8 (x >> 48)) (u8 (x >> 40)) (u8 (x >> 32)) (u8 (x >> 24))
      (u8 (x >> 16)) (u8 (x >> 8)) (u8 x) (omega arith) (omega arith) (omega arith) (omega arith)
      (omega arith) (omega arith) (omega arith) (omega arith),
)
