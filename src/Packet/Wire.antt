-- ===== src/Packet/Wire.antt =====
-- The header on the wire: field widths, and the round trips.
use campello_net.Prelude.{
  ℕ, ◌++◌, length, drop, ◌%◌, ◌^◌, ◌<◌, ◌≤◌, ◌≡◌, refl, arith, true, some, List, bit_and,
  bit_and_low_bits, u8, ◌>>◌, le→ltb,
}
use campello_net.Bytes.{read_u16_be, read_u32_be, read_u16_be_lem, read_u32_be_lem}
use campello_net.Packet.{PacketHeader, header_bytes, serialize, deserialize}

-- Every field fits the width that `PacketHeader` declares for it.
pub record IsHeader (h : PacketHeader) : Type 0 where
  pub protocol_id : h.protocol_id < 2 ^ 16
  pub packet_type : h.packet_type < 2 ^ 8
  pub flags : h.flags < 2 ^ 8
  pub sequence : h.sequence < 2 ^ 16
  pub ack : h.ack < 2 ^ 16
  pub ack_bits : h.ack_bits < 2 ^ 32
  pub payload_len : h.payload_len < 2 ^ 16
  pub frag_index : h.frag_index < 2 ^ 8
  pub frag_count : h.frag_count < 2 ^ 8

low_byte : (x : ℕ) → bit_and x 0xFF ≡ x % 256
low_byte x = bit_and_low_bits 8 x

-- Two bytes of a 16-bit field, and four of a 32-bit one, read back.
word16 : (x : ℕ) → x < 2 ^ 16 → read_u16_be (u8 (x >> 8)) (u8 (bit_and x 0xFF)) ≡ x
word16 x h =
    rw low_byte
      (omega (arith, read_u16_be_lem (u8 (x >> 8)) (u8 (x % 256)) (omega arith) (omega arith)))

word32 :
    (x : ℕ)
    → x < 2 ^ 32
    → read_u32_be (u8 (x >> 24)) (u8 (x >> 16)) (u8 (x >> 8)) (u8 (bit_and x 0xFF)) ≡ x
word32 x h = rw low_byte (
    omega (
      arith,
      read_u32_be_lem (u8 (x >> 24)) (u8 (x >> 16)) (u8 (x >> 8)) (u8 (x % 256)) (omega arith)
          (omega arith) (omega arith) (omega arith),
    ))

pub deserialize-header_bytes :
    (h : PacketHeader) (rest : List ℕ) (len : ℕ)
    → IsHeader h
    → 16 ≤ len
    → deserialize (header_bytes h ++ rest) len ≡ some h
unfolding deserialize header_bytes
deserialize-header_bytes h rest len w q = rw (le→ltb len 16 q) (λ i. some (record {
  protocol_id = word16 h.protocol_id w.protocol_id i;
  packet_type = h.packet_type;
  flags = h.flags;
  sequence = word16 h.sequence w.sequence i;
  ack = word16 h.ack w.ack i;
  ack_bits = word32 h.ack_bits w.ack_bits i;
  payload_len = word16 h.payload_len w.payload_len i;
  frag_index = h.frag_index;
  frag_count = h.frag_count;
}))

pub length-header_bytes : (h : PacketHeader) → length (header_bytes h) ≡ 16
unfolding header_bytes
length-header_bytes h = refl

pub drop-header_bytes : (h : PacketHeader) (rest : List ℕ) → drop 16 (header_bytes h ++ rest) ≡ rest
unfolding header_bytes
drop-header_bytes h rest = refl

-- A header whose fields fit their widths is read back unchanged from the buffer that it was written
-- to, whatever the buffer held; the bytes behind the header stay as they were.
pub deserialize-serialize :
    (h : PacketHeader) (buffer : List ℕ) (max_len len : ℕ)
    → IsHeader h
    → 16 ≤ max_len
    → 16 ≤ len
    → ((serialize h buffer max_len).0 ≡ true)
      × (deserialize (serialize h buffer max_len).1 len ≡ some h)
      × (drop 16 (serialize h buffer max_len).1 ≡ drop 16 buffer)
unfolding serialize
deserialize-serialize h buffer max_len len w p q = rw (le→ltb max_len 16 p) (
  refl,
  deserialize-header_bytes h (drop 16 buffer) len w q,
  drop-header_bytes h (drop 16 buffer),
)
