-- ===== src/Tests/Streams.antt =====
-- `BitStream` at concrete inputs.
use campello_net.Prelude.{ℕ, ◌≡◌, refl, arith, some, List, [], ◌∷◌}
use campello_net.BitStream.{BitStream, fresh_stream, write_bits, put_bit, put_bits}
use campello_net.BitStream.Bits.{IsTidy}
use campello_net.BitStream.Fields.{write_all, read_all, cut_all, read_all-write_all}
use campello_net.BitStream.Varint.{write_varint, read_varint, read_varint-write_varint}

-- Three bits, and twelve bits across a byte, of a value that is too large for them.
abbrev fields : List (ℕ × ℕ)
fields = (3, 5) ∷ (12, 5000) ∷ []

abbrev written : BitStream
written = write_all fields fresh_stream

-- The bytes 0b10100111 and 0b00010000: 5, then 5000 - 4096 = 904 in twelve bits.
fields_bytes : written.buffer ≡ 167 ∷ 16 ∷ []
unfolding write_bits put_bits put_bit
fields_bytes = refl

fresh-IsTidy : IsTidy [] 0
fresh-IsTidy = record { whole = refl; rest_zero = refl }

read_all-write_all_example :
    read_all fields written
    ≡ some (cut_all fields, record written { read_bit_pos = written.write_bit_pos })
read_all-write_all_example =
    read_all-write_all fields fresh_stream (omega arith, (omega arith, tt)) fresh-IsTidy refl

read_varint-write_varint_example :
    read_varint (write_varint 300 fresh_stream)
    ≡ some (
      300,
      record (write_varint 300 fresh_stream) {
        read_bit_pos = (write_varint 300 fresh_stream).write_bit_pos;
      },
    )
read_varint-write_varint_example =
    read_varint-write_varint 300 fresh_stream (omega arith) fresh-IsTidy refl refl
