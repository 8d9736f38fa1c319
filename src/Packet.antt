-- ===== src/Packet.antt =====
-- The wire header: `include/campello_net/transport/packet.hpp` and `src/transport/packet.cpp`.
-- A header is a record of numbers; each field's width is in `Packet.Wire.IsHeader`.
pub mod Flags
pub mod Wire
use campello_net.Prelude.{
  ℕ, ◌+◌, ◌-◌, ◌≡◌, Bool, true, false, Option, none, some, List, [], ◌∷◌, ◌++◌, bit_and, bit_or, u8,
  ◌<<◌, ◌>>◌, ltb, if◌then◌else◌, get_or, drop,
}
use campello_net.Bytes.{read_u16_be, read_u32_be}

-- `enum class PacketReliability`.
pub data PacketReliability : Type 0 where
  unreliable reliable_ordered reliable_unordered unreliable_sequenced : PacketReliability

-- Its underlying value, and the cast back of a value of two bits.
unfoldable pub code : PacketReliability → ℕ
code unreliable = 0
code reliable_ordered = 1
code reliable_unordered = 2
code unreliable_sequenced = 3

unfoldable pub of_code : ℕ → PacketReliability
of_code n =
    if ltb n 1
    then unreliable
    else if ltb n 2
    then reliable_ordered
    else if ltb n 3
    then reliable_unordered
    else unreliable_sequenced

-- `enum class PacketType`, and the values that stand for it on the wire.
pub data PacketType : Type 0 where
  user handshake disconnect ack fragment : PacketType

abbrev pub type_code : PacketType → ℕ
type_code user = 0
type_code handshake = 1
type_code disconnect = 2
type_code ack = 3
type_code fragment = 4

pub record PacketHeader : Type 0 where
  pub protocol_id : ℕ
  pub packet_type : ℕ
  pub flags : ℕ
  pub sequence : ℕ
  pub ack : ℕ
  pub ack_bits : ℕ
  pub payload_len : ℕ
  pub frag_index : ℕ
  pub frag_count : ℕ

-- `PacketHeader::PROTOCOL_ID`, `PacketHeader::SIZE`, `MAX_PACKET_SIZE` and `MAX_PAYLOAD_SIZE`.
abbrev pub protocol : ℕ
protocol = 0xCA17

abbrev pub header_size : ℕ
header_size = 16

abbrev pub max_packet_size : ℕ
max_packet_size = 1200

abbrev pub max_payload_size : ℕ
max_payload_size = 1184

-- The member initialisers of a fresh `PacketHeader`.
abbrev pub fresh_header : PacketHeader
fresh_header = record {
  protocol_id = protocol;
  packet_type = 0;
  flags = 0;
  sequence = 0;
  ack = 0;
  ack_bits = 0;
  payload_len = 0;
  frag_index = 0;
  frag_count = 0;
}

unfoldable pub reliability : PacketHeader → PacketReliability
reliability h = of_code (bit_and (h.flags >> 2) 3)

unfoldable pub channel : PacketHeader → ℕ
channel h = bit_and h.flags 3

unfoldable pub set_reliability : PacketReliability → PacketHeader → PacketHeader
set_reliability r h = record h { flags = u8 (bit_or (bit_and h.flags 3) (bit_and (code r) 3 << 2)) }

-- `flags` is promoted to `int`, so that `~0x3` keeps its six other bits.
unfoldable pub set_channel : ℕ → PacketHeader → PacketHeader
set_channel ch h = record h { flags = u8 (bit_or (bit_and h.flags 0xFC) (bit_and ch 3)) }

-- The sixteen bytes that `serialize` writes.
unfoldable pub header_bytes : PacketHeader → List ℕ
header_bytes h =
    u8 (h.protocol_id >> 8)
    ∷ u8 (bit_and h.protocol_id 0xFF)
    ∷ h.packet_type
    ∷ h.flags
    ∷ u8 (h.sequence >> 8)
    ∷ u8 (bit_and h.sequence 0xFF)
    ∷ u8 (h.ack >> 8)
    ∷ u8 (bit_and h.ack 0xFF)
    ∷ u8 (h.ack_bits >> 24)
    ∷ u8 (h.ack_bits >> 16)
    ∷ u8 (h.ack_bits >> 8)
    ∷ u8 (bit_and h.ack_bits 0xFF)
    ∷ u8 (h.payload_len >> 8)
    ∷ u8 (bit_and h.payload_len 0xFF)
    ∷ h.frag_index
    ∷ h.frag_count
    ∷ []

-- A buffer of `max_len` bytes; the result is what the buffer holds afterwards, beside the status.
unfoldable pub serialize : PacketHeader → List ℕ → ℕ → Bool × List ℕ
serialize h buffer max_len =
    if ltb max_len header_size
    then (false, buffer)
    else (true, header_bytes h ++ drop header_size buffer)

-- `none` is the result `false`, which leaves the header as it was.
unfoldable pub deserialize : List ℕ → ℕ → Option PacketHeader
deserialize buffer len =
    if ltb len header_size
    then none
    else some (record {
      protocol_id = read_u16_be (byte 0) (byte 1);
      packet_type = byte 2;
      flags = byte 3;
      sequence = read_u16_be (byte 4) (byte 5);
      ack = read_u16_be (byte 6) (byte 7);
      ack_bits = read_u32_be (byte 8) (byte 9) (byte 10) (byte 11);
      payload_len = read_u16_be (byte 12) (byte 13);
      frag_index = byte 14;
      frag_count = byte 15;
    })
  where
    byte : ℕ → ℕ
    byte i = get_or buffer i 0
