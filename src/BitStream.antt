-- ===== src/BitStream.antt =====
-- `BitStream` of `include/campello_net/serialization/bit_stream.hpp` on a little-endian host.
-- A read returns none where the code returns false.
pub mod Bits
pub mod Fields
pub mod Varint
use campello_net.Prelude.{
  ℕ, zero, suc, ◌+◌, ◌-◌, ◌*◌, ◌/◌, ◌%◌, ◌^◌, bit_and, bit_or, Bool, true, false, not, Option, none,
  some, List, [], ◌∷◌, ◌++◌, ltb, leb, ◌==◌, ◌!=◌, if◌then◌else◌, u8, u16, u32, u64, ◌<<◌, ◌>>◌,
  length, get_or, set, take, drop, replicate,
}

pub record BitStream : Type 0 where
  pub buffer : List ℕ
  pub write_bit_pos : ℕ
  pub read_bit_pos : ℕ

abbrev pub fresh_stream : BitStream
fresh_stream = record { buffer = []; write_bit_pos = 0; read_bit_pos = 0 }

-- The constructor from bytes.
abbrev pub stream_of : List ℕ → BitStream
stream_of bytes = record { buffer = bytes; write_bit_pos = length bytes * 8; read_bit_pos = 0 }

-- One pass of the loop of `write_bits`: the buffer.
unfoldable pub put_bit : ℕ → List ℕ → ℕ → List ℕ
put_bit bit buffer pos =
    let grown = if leb (length buffer) (pos / 8) then buffer ++ (0 ∷ []) else buffer in
    if bit == 0
    then grown
    else set grown (pos / 8) (bit_or (get_or grown (pos / 8) 0) (u8 (1 << (7 - pos % 8))))

-- The loop, `num_bits` passes from the highest bit down.
unfoldable pub put_bits : ℕ → ℕ → List ℕ → ℕ → List ℕ
put_bits value zero buffer pos = buffer
put_bits value (suc i) buffer pos =
    put_bits value i (put_bit (bit_and (value >> i) 1) buffer pos) (pos + 1)

unfoldable pub write_bits : ℕ → ℕ → BitStream → BitStream
write_bits value num_bits s = record s {
  buffer = put_bits value num_bits s.buffer s.write_bit_pos;
  write_bit_pos = s.write_bit_pos + num_bits;
}

-- The loop of `read_bits`.
unfoldable pub get_bits : ℕ → ℕ → List ℕ → ℕ → ℕ
get_bits zero value buffer pos = value
get_bits (suc n) value buffer pos =
    get_bits n (bit_or (u64 (value << 1)) (bit_and (get_or buffer (pos / 8) 0 >> (7 - pos % 8)) 1))
      buffer (pos + 1)

unfoldable pub read_bits : ℕ → BitStream → Option (ℕ × BitStream)
read_bits num_bits s =
    if num_bits == 0
    then some (0, s)
    else if ltb s.write_bit_pos (s.read_bit_pos + num_bits)
    then none
    else some (
      get_bits num_bits 0 s.buffer s.read_bit_pos,
      record s { read_bit_pos = s.read_bit_pos + num_bits },
    )

abbrev pub reset : BitStream → BitStream
reset s = fresh_stream

abbrev pub reset_read : BitStream → BitStream
reset_read s = record s { read_bit_pos = 0 }

-- `byte_count`.
abbrev pub byte_count : BitStream → ℕ
byte_count s = (s.write_bit_pos + 7) / 8

unfoldable pub align_to_byte : BitStream → BitStream
align_to_byte s = if s.write_bit_pos % 8 == 0 then s else write_bits 0 (8 - s.write_bit_pos % 8) s

unfoldable pub align_read_to_byte : BitStream → Option BitStream
align_read_to_byte s =
    if s.read_bit_pos % 8 == 0
    then some s
    else elim (read_bits (8 - s.read_bit_pos % 8) s) [ none ↦ none | some (v, t) ↦ some t ]

-- `to_net` of each width, for a little-endian host.
unfoldable pub to_net16 : ℕ → ℕ
to_net16 v = bit_or (v >> 8) (u16 (v << 8))

unfoldable pub to_net32 : ℕ → ℕ
to_net32 v =
    bit_or
      (bit_or (bit_or (bit_and (v >> 24) 0xFF) (bit_and (v >> 8) 0xFF00))
        (bit_and (u32 (v << 8)) 0xFF0000))
      (u32 (v << 24))

unfoldable pub to_net64 : ℕ → ℕ
to_net64 v = bit_or (u64 (to_net32 (u32 v) << 32)) (to_net32 (u32 (v >> 32)))

abbrev pub write_uint8 : ℕ → BitStream → BitStream
write_uint8 v s = write_bits v 8 s

abbrev pub write_uint16 : ℕ → BitStream → BitStream
write_uint16 v s = write_bits (to_net16 v) 16 s

abbrev pub write_uint32 : ℕ → BitStream → BitStream
write_uint32 v s = write_bits (to_net32 v) 32 s

abbrev pub write_uint64 : ℕ → BitStream → BitStream
write_uint64 v s = write_bits (to_net64 v) 64 s

abbrev pub through : (ℕ → ℕ) → Option (ℕ × BitStream) → Option (ℕ × BitStream)
through f none = none
through f (some (v, s)) = some (f v, s)

abbrev pub read_uint8 : BitStream → Option (ℕ × BitStream)
read_uint8 s = through u8 (read_bits 8 s)

abbrev pub read_uint16 : BitStream → Option (ℕ × BitStream)
read_uint16 s = through (λ v. to_net16 (u16 v)) (read_bits 16 s)

abbrev pub read_uint32 : BitStream → Option (ℕ × BitStream)
read_uint32 s = through (λ v. to_net32 (u32 v)) (read_bits 32 s)

abbrev pub read_uint64 : BitStream → Option (ℕ × BitStream)
read_uint64 s = through to_net64 (read_bits 64 s)
