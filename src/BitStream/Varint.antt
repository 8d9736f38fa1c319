-- ===== src/BitStream/Varint.antt =====
-- Varints: seven bits to a byte, the lowest first, the highest bit set on all but the last.
use campello_net.Prelude.{
  ℕ, zero, suc, ◌+◌, ◌*◌, ◌/◌, ◌%◌, ◌^◌, ◌≤◌, ◌<◌, ◌≡◌, refl, ap, sym, subst, ◌∙◌, arith, bit_and,
  bit_or, bit_or_below, bit_and_low_bits, bit_and_pow, Option, none, some, List, [], ◌∷◌, ltb, leb,
  ◌==◌, ==_iff, if◌then◌else◌, if_true, if_false, le→ltb, u8, u64, ◌<<◌, ◌>>◌, Bool-cases, inl, inr,
}
use native.Mathlib.Nat.{mod-eq_of_lt, mul-mod_left, add-mul, mul-le-mul_right}
use campello_net.BitStream.{
  BitStream, write_bits, write_uint8, read_uint8, through, align_to_byte, align_read_to_byte,
}
use campello_net.BitStream.Bits.{IsTidy, pow-add}
use campello_net.BitStream.Fields.{
  write_all, write_all-lem, write_all-reader, put_bits-lem, read_bits-lem,
}

-- The loop of `write_varint`: a value of 64 bits needs ten passes at most.
unfoldable pub write_groups : (fuel : ℕ) → ℕ → BitStream → BitStream
write_groups zero value s = s
write_groups (suc n) value s =
    if ltb 0x7F value
    then write_groups n (value >> 7) (write_uint8 (u8 (bit_or (bit_and value 0x7F) 0x80)) s)
    else write_uint8 (u8 (bit_and value 0x7F)) s

unfoldable pub write_varint : ℕ → BitStream → BitStream
write_varint value s = write_groups 10 value (align_to_byte s)

-- The loop of `read_varint`, which gives up at a shift of 64: after ten passes.
unfoldable pub read_groups : (fuel shift : ℕ) → ℕ → BitStream → Option (ℕ × BitStream)
read_groups zero shift value s = none
read_groups (suc n) shift value s = elim (read_uint8 s) [
  | none ↦ none
  | some (byte, t) ↦
      let sum = bit_or value (u64 (bit_and byte 0x7F << shift)) in
      let rest = read_groups n (shift + 7) sum t in
      if bit_and byte 0x80 == 0 then some (sum, t) else if leb 64 (shift + 7) then none else rest
]

unfoldable pub read_varint : BitStream → Option (ℕ × BitStream)
read_varint s = elim (align_read_to_byte s) [ none ↦ none | some t ↦ read_groups 10 0 0 t ]

-- The bytes that the loop writes.
abbrev groups : (fuel : ℕ) → ℕ → List (ℕ × ℕ)
groups zero value = []
groups (suc n) value =
    let rest = groups n (value >> 7) in
    if ltb 0x7F value
    then (8, u8 (bit_or (bit_and value 0x7F) 0x80)) ∷ rest
    else (8, u8 (bit_and value 0x7F)) ∷ []

write_groups-all : (n v : ℕ) (s : BitStream) → write_groups n v s ≡ write_all (groups n v) s
unfolding write_groups
write_groups-all zero v s = refl
write_groups-all (suc n) v s = elim (Bool-cases (ltb 0x7F v)) [
  | inl e ↦ rw e (write_groups-all n (v >> 7) (write_uint8 (u8 (bit_or (bit_and v 0x7F) 0x80)) s))
  | inr e ↦ rw e refl
]

-- One byte of the stream that follows.
read-first :
    (byte : ℕ) (fields : List (ℕ × ℕ)) (s : BitStream)
    → byte < 256
    → IsTidy s.buffer s.write_bit_pos
    → (let whole = write_all fields (write_uint8 byte s) in
        read_uint8 (record whole { read_bit_pos = s.write_bit_pos })
        ≡ some (byte, record whole { read_bit_pos = s.write_bit_pos + 8 }))
unfolding write_bits
read-first byte fields s w t =
    let own = put_bits-lem byte 8 s.buffer s.write_bit_pos t in
    let rest = write_all-lem fields (write_bits byte 8 s) own.0 in
    ap (through u8) (
      read_bits-lem byte 8
        (record (write_all fields (write_uint8 byte s)) { read_bit_pos = s.write_bit_pos })
        (omega arith) (omega (arith, rest.0))
        (λ j h. rest.1 (s.write_bit_pos + j) (omega arith) ∙ own.2 j h))
    ∙ ap
        (λ x. some (
          x,
          record (write_all fields (write_uint8 byte s)) { read_bit_pos = s.write_bit_pos + 8 },
        ))
        (omega arith)

-- Seven bits above those that were read before.
add_group :
    (shift acc g : ℕ)
    → acc < 2 ^ shift
    → g * 2 ^ shift < 2 ^ 64
    → bit_or acc (u64 (g << shift)) ≡ acc + g * 2 ^ shift
add_group shift acc g h w =
    ap (bit_or acc) (mod-eq_of_lt w)
    ∙ bit_or_below shift acc (g * 2 ^ shift) (mul-mod_left g (2 ^ shift)) h

last_byte : (v : ℕ) → v < 128 → u8 (bit_and v 0x7F) ≡ v
last_byte v h = omega (arith, bit_and_low_bits 7 v)

next_byte : (v : ℕ) → u8 (bit_or (bit_and v 0x7F) 0x80) ≡ v % 128 + 128
next_byte v =
    ap (λ t. u8 (bit_or t 0x80)) (bit_and_low_bits 7 v)
    ∙ ap u8 (bit_or_below 7 (v % 128) 128 (omega arith) (omega arith))
    ∙ omega arith

-- Both parts of a number times `m`.
group_split : (v m : ℕ) → v % 128 * m + v / 128 * (m * 128) ≡ v * m
group_split v m =
    ap (λ t. v % 128 * m + t) {y = v / 128 * 128 * m} (omega arith)
    ∙ sym (add-mul (v % 128) (v / 128 * 128) m)
    ∙ ap (λ (t : ℕ). t * m) {y = v} (omega arith)

group_room : (acc g m : ℕ) → acc < m → g < 128 → acc + g * m < m * 128
group_room acc g m h w = omega (arith, mul-le-mul_right {m = g + 1} {n = 128} m (omega arith))

-- The pass of the reader over what one read gave.
abbrev pass : (fuel shift value : ℕ) → Option (ℕ × BitStream) → Option (ℕ × BitStream)
pass n shift value o = elim o [
  | none ↦ none
  | some (byte, t) ↦
      let sum = bit_or value (u64 (bit_and byte 0x7F << shift)) in
      let rest = read_groups n (shift + 7) sum t in
      if bit_and byte 0x80 == 0 then some (sum, t) else if leb 64 (shift + 7) then none else rest
]

pass-last :
    (n shift v acc : ℕ) (t : BitStream)
    → v < 128
    → acc < 2 ^ shift
    → v * 2 ^ shift < 2 ^ 64
    → pass n shift acc (some (v, t)) ≡ some (acc + v * 2 ^ shift, t)
pass-last n shift v acc t h g w =
    if_true _ _ (bit_and v 0x80 == 0) (ground (arith, bit_and_pow 7 v))
    ∙ ap (λ x. some (x, t))
        (ap (λ x. bit_or acc (u64 (x << shift))) {y = v} (omega (arith, bit_and_low_bits 7 v))
          ∙ add_group shift acc v g w)

pass-next :
    (n shift g acc : ℕ) (t : BitStream)
    → g < 128
    → shift + 7 < 64
    → acc < 2 ^ shift
    → g * 2 ^ shift < 2 ^ 64
    → pass n shift acc (some (g + 128, t)) ≡ read_groups n (shift + 7) (acc + g * 2 ^ shift) t
pass-next n shift g acc t h r k w =
    if_false _ _ (bit_and (g + 128) 0x80 == 0) (ground (arith, bit_and_pow 7 (g + 128)))
    ∙ if_false _ _ (leb 64 (shift + 7)) (ground (arith, r))
    ∙ ap (λ x. read_groups n (shift + 7) x t)
        (ap (λ x. bit_or acc (u64 (x << shift))) {y = g}
            (omega (arith, bit_and_low_bits 7 (g + 128)))
          ∙ add_group shift acc g k w)

-- What the reader makes of the writer's bytes.
abbrev Reads : (n shift v acc : ℕ) → BitStream → List (ℕ × ℕ) → Type 0
Reads n shift v acc s fields =
    pass n shift acc (read_uint8 (record (write_all fields s) { read_bit_pos = s.write_bit_pos }))
    ≡ some (
      acc + v * 2 ^ shift,
      record (write_all fields s) { read_bit_pos = (write_all fields s).write_bit_pos },
    )

read-last :
    (n shift v acc : ℕ) (s : BitStream)
    → IsTidy s.buffer s.write_bit_pos
    → v < 128
    → acc < 2 ^ shift
    → v * 2 ^ shift < 2 ^ 64
    → Reads n shift v acc s ((8, u8 (bit_and v 0x7F)) ∷ [])
unfolding write_bits
read-last n shift v acc s t small h w =
    subst (λ b. Reads n shift v acc s ((8, b) ∷ [])) (sym (last_byte v small))
      (ap (pass n shift acc) (read-first v [] s (omega arith) t)
        ∙ pass-last n shift v acc _ small h w)

pub read-groups :
    (n shift v acc : ℕ) (s : BitStream)
    → IsTidy s.buffer s.write_bit_pos
    → v < 2 ^ (7 * suc n)
    → shift + 7 * suc n ≤ 70
    → acc < 2 ^ shift
    → v * 2 ^ shift < 2 ^ 64
    → Reads n shift v acc s (groups (suc n) v)
unfolding read_groups write_bits
read-groups zero shift v acc s t small short h w =
    subst (Reads 0 shift v acc s) (sym (if_false _ _ (ltb 0x7F v) (le→ltb 0x7F v (omega arith))))
      (read-last 0 shift v acc s t (omega arith) h w)
read-groups (suc n) shift v acc s t small short h w = elim (Bool-cases (ltb 0x7F v)) [
  | inl e ↦
      let byte = v % 128 + 128 in
      let next = write_uint8 byte s in
      let own = put_bits-lem byte 8 s.buffer s.write_bit_pos t in
      let m = 2 ^ shift in
      let wider : 2 ^ (shift + 7) ≡ m * 128 = pow-add 2 shift 7 in
      let split = group_split v m in
      let more : 2 ^ (7 * suc (suc n)) ≡ 2 ^ (7 * suc n) * 128 =
        ap (λ (t : ℕ). 2 ^ t) {y = 7 * suc n + 7} (omega arith) ∙ pow-add 2 (7 * suc n) 7 in
      let upper : v / 128 * 2 ^ (shift + 7) ≡ v / 128 * (m * 128) =
        ap (λ (t : ℕ). v / 128 * t) wider in
      subst (Reads (suc n) shift v acc s) (sym (if_true _ _ (ltb 0x7F v) e)) (
        subst (λ b. Reads (suc n) shift v acc s ((8, b) ∷ groups (suc n) (v >> 7)))
          (sym (next_byte v))
          (ap (pass (suc n) shift acc)
              (read-first byte (groups (suc n) (v / 128)) s (omega arith) t)
            ∙ pass-next (suc n) shift (v % 128) acc _ (omega arith) (omega arith) h
                (omega (arith, split, w))
            ∙ read-groups n (shift + 7) (v / 128) (acc + v % 128 * m) next own.0
                (omega (arith, more, small)) (omega arith)
                (omega (arith, wider, group_room acc (v % 128) m h (omega arith)))
                (omega (arith, upper, split, w))
            ∙ ap
                (λ x. some (
                  x,
                  record (write_all (groups (suc n) (v / 128)) next) {
                    read_bit_pos = (write_all (groups (suc n) (v / 128)) next).write_bit_pos;
                  },
                ))
                (omega (arith, upper, split))))
  | inr e ↦
      subst (Reads (suc n) shift v acc s) (sym (if_false _ _ (ltb 0x7F v) e))
        (read-last (suc n) shift v acc s t (ground (arith, e)) h w)
]

-- A number of 64 bits written as a varint on a byte boundary is read back from there, and the
-- reader then stands where the writer does: neither loop gives up.
pub read_varint-write_varint :
    (v : ℕ) (s : BitStream)
    → v < 2 ^ 64
    → IsTidy s.buffer s.write_bit_pos
    → s.write_bit_pos % 8 ≡ 0
    → s.read_bit_pos ≡ s.write_bit_pos
    → read_varint (write_varint v s)
      ≡ some (v, record (write_varint v s) { read_bit_pos = (write_varint v s).write_bit_pos })
unfolding read_varint write_varint align_to_byte align_read_to_byte read_groups
read_varint-write_varint v s w t aligned e =
    subst (λ x. read_varint x ≡ some (v, record x { read_bit_pos = x.write_bit_pos })) (sym written)
      (ap read_varint stay
        ∙ ap go
            (if_true _ _ (s.write_bit_pos % 8 == 0) ((==_iff (s.write_bit_pos % 8) 0).1 aligned))
        ∙ read-groups 9 0 v 0 s t (omega arith) (omega arith) (omega arith) (omega arith)
        ∙ ap (λ x. some (x, record whole { read_bit_pos = whole.write_bit_pos })) (omega arith))
  where
    whole : BitStream
    whole = write_all (groups 10 v) s

    go : Option BitStream → Option (ℕ × BitStream)
    go o = elim o [ none ↦ none | some t ↦ read_groups 10 0 0 t ]

    written : write_varint v s ≡ whole
    written =
        ap (write_groups 10 v)
          (if_true _ _ (s.write_bit_pos % 8 == 0) ((==_iff (s.write_bit_pos % 8) 0).1 aligned))
        ∙ write_groups-all 10 v s

    stay : whole ≡ record whole { read_bit_pos = s.write_bit_pos }
    stay =
        ap (write_all (groups 10 v)) (ap (λ r. record s { read_bit_pos = r }) e)
        ∙ write_all-reader (groups 10 v) s s.write_bit_pos
