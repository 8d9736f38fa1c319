-- ===== src/BitStream/Fields.antt =====
-- Fields of any widths, written one after the other and read back in the same order.
use campello_net.Prelude.{
  ℕ, zero, suc, ◌+◌, ◌-◌, ◌*◌, ◌/◌, ◌%◌, ◌^◌, ◌≤◌, ◌<◌, ◌≡◌, ◌≢◌, refl, ap, ap₂, sym, subst, ◌∙◌,
  arith, bit_and, bit_or, bit_or_disjoint, bit_and_low_bits, Option, none, some, List, [], ◌∷◌, ltb,
  ◌==◌, ==_iff, Bool-cases, inl, inr, if_false, le→ltb, u64, ◌<<◌, ◌>>◌, get_or, All,
}
use native.Mathlib.Nat.{
  pow-suc, one-le-pow, div-add-mod, add-mul-mod_self_left, mod-eq_of_lt, mod-lt, mul_comm, mul-suc,
  pow-le-pow_right,
}
use campello_net.BitStream.{BitStream, put_bit, put_bits, write_bits, get_bits, read_bits}
use campello_net.BitStream.Bits.{
  bit_at, IsTidy, bit_at-put_bit, bit_at-put_bit_before, put_bit-IsTidy,
}

digit_lt : (b m r : ℕ) → b < 2 → r < m → b * m + r < 2 * m
digit_lt zero m r h g = omega arith
digit_lt (suc zero) m r h g = omega arith
digit_lt (suc (suc b)) m r h g = absurd (omega arith)

-- One digit more of a remainder.
pub mod_pow_suc : (v n : ℕ) → v % 2 ^ suc n ≡ v / 2 ^ n % 2 * 2 ^ n + v % 2 ^ n
mod_pow_suc v n =
    ap (λ (t : ℕ). t % 2 ^ suc n) whole
    ∙ add-mul-mod_self_left (v / 2 ^ n % 2 * 2 ^ n + v % 2 ^ n) (2 ^ suc n) (v / 2 ^ n / 2)
    ∙ mod-eq_of_lt (
        rw (pow-suc 2 n, mul_comm (2 ^ n) 2)
          (digit_lt (v / 2 ^ n % 2) (2 ^ n) (v % 2 ^ n) (omega arith)
            (mod-lt v (one-le-pow n 2 (omega arith)))))
  where
    whole : v ≡ v / 2 ^ n % 2 * 2 ^ n + v % 2 ^ n + 2 ^ suc n * (v / 2 ^ n / 2)
    whole =
        sym (div-add-mod v (2 ^ n))
        ∙ ap (λ (t : ℕ). 2 ^ n * t + v % 2 ^ n) {y = 2 * (v / 2 ^ n / 2) + v / 2 ^ n % 2}
            (omega arith)
        ∙ omega (arith, ap (λ (t : ℕ). t * (v / 2 ^ n / 2)) (pow-suc 2 n))

low_bit : (v i : ℕ) → bit_and (v >> i) 1 ≡ v / 2 ^ i % 2
low_bit v i = bit_and_low_bits 1 (v / 2 ^ i)

-- What a field's loop leaves: a tidy buffer, the bits before it, and its own.
pub put_bits-lem :
    (v n : ℕ) (buffer : List ℕ) (pos : ℕ)
    → IsTidy buffer pos
    → IsTidy (put_bits v n buffer pos) (pos + n)
      × ((p : ℕ) → p < pos → bit_at (put_bits v n buffer pos) p ≡ bit_at buffer p)
      × ((j : ℕ) → j < n → bit_at (put_bits v n buffer pos) (pos + j) ≡ v / 2 ^ (n - 1 - j) % 2)
unfolding put_bits
put_bits-lem v zero buffer pos t =
    (subst (IsTidy buffer) (omega arith) t, (λ p h. refl), (λ j h. absurd (omega arith)))
put_bits-lem v (suc n) buffer pos t =
    let bit = bit_and (v >> n) 1 in
    let small : bit < 2 = omega (arith, low_bit v n) in
    let rest =
      put_bits-lem v n (put_bit bit buffer pos) (pos + 1) (put_bit-IsTidy buffer pos t bit small) in
    (
      subst (IsTidy (put_bits v n (put_bit bit buffer pos) (pos + 1))) (omega arith) rest.0,
      (λ p h. rest.1 p (omega arith) ∙ bit_at-put_bit_before buffer pos t bit p small h),
      (λ j h. elim (Bool-cases (j == 0)) [
        | inl e ↦
            let first : j ≡ 0 = (==_iff j 0).0 e in
            ap (λ p. bit_at (put_bits v n (put_bit bit buffer pos) (pos + 1)) p) {y = pos}
              (omega (arith, first))
            ∙ rest.1 pos (omega arith)
            ∙ bit_at-put_bit buffer pos t bit small
            ∙ low_bit v n
            ∙ ap (λ (i : ℕ). v / 2 ^ i % 2) {y = suc n - 1 - j} (omega (arith, first))
        | inr e ↦
            let later : j ≢ 0 = (λ f. ground (arith, e, f)) in
            ap (λ p. bit_at (put_bits v n (put_bit bit buffer pos) (pos + 1)) p)
              {y = pos + 1 + (j - 1)} (ground (arith, later))
            ∙ rest.2 (j - 1) (ground (arith, later, h))
            ∙ ap (λ (i : ℕ). v / 2 ^ i % 2) {y = suc n - 1 - j} (ground (arith, later, h))
      ]),
    )

bit_at_lem :
    (buffer : List ℕ) (p : ℕ) → bit_at buffer p ≡ get_or buffer (p / 8) 0 / 2 ^ (7 - p % 8) % 2
unfolding bit_at
bit_at_lem buffer p = refl

digit_room : (a b m w : ℕ) → b < 2 → (a + 1) * (m * 2) ≤ w → (a * 2 + b + 1) * m ≤ w
digit_room a zero m w h g = omega arith
digit_room a (suc zero) m w h g = omega arith
digit_room a (suc (suc b)) m w h g = absurd (omega arith)

pub le-mul : (a m : ℕ) → 1 ≤ m → a ≤ a * m
le-mul a zero h = absurd (omega arith)
le-mul a (suc m) h = omega (arith, mul-suc a m)

-- The loop of a read, over the bits of a value.
pub get_bits-lem :
    (v n acc : ℕ) (buffer : List ℕ) (pos : ℕ)
    → (acc + 1) * 2 ^ n ≤ 2 ^ 64
    → ((j : ℕ) → j < n → bit_at buffer (pos + j) ≡ v / 2 ^ (n - 1 - j) % 2)
    → get_bits n acc buffer pos ≡ acc * 2 ^ n + v % 2 ^ n
unfolding get_bits
get_bits-lem v zero acc buffer pos w h = omega arith
get_bits-lem v (suc n) acc buffer pos w h =
    ap (λ a. get_bits n a buffer (pos + 1)) shifted
    ∙ get_bits-lem v n (acc * 2 + v / 2 ^ n % 2) buffer (pos + 1)
        (digit_room acc (v / 2 ^ n % 2) (2 ^ n) (2 ^ 64) (omega arith)
          (subst (λ (t : ℕ). (acc + 1) * t ≤ 2 ^ 64) (pow-suc 2 n) w))
        (λ j g.
          ap (bit_at buffer) {x = pos + 1 + j} {y = pos + suc j} (omega arith)
          ∙ h (suc j) (omega arith)
          ∙ ap (λ (i : ℕ). v / 2 ^ i % 2) {y = n - 1 - j} (omega arith))
    ∙ omega (arith, mod_pow_suc v n, ap (λ (t : ℕ). acc * t) (pow-suc 2 n))
  where
    byte : ℕ
    byte = get_or buffer (pos / 8) 0

    digit : bit_and (byte >> (7 - pos % 8)) 1 ≡ v / 2 ^ n % 2
    digit =
        low_bit byte (7 - pos % 8)
        ∙ sym (bit_at_lem buffer pos)
        ∙ ap (bit_at buffer) {x = pos} {y = pos + 0} (omega arith)
        ∙ h 0 (omega arith)
        ∙ ap (λ (i : ℕ). v / 2 ^ i % 2) {y = n} (omega arith)

    room : acc * 2 < 2 ^ 64
    room = omega (
      arith,
      digit_room acc 0 (2 ^ n) (2 ^ 64) (omega arith)
          (subst (λ (t : ℕ). (acc + 1) * t ≤ 2 ^ 64) (pow-suc 2 n) w),
      le-mul (acc * 2 + 0 + 1) (2 ^ n) (one-le-pow n 2 (omega arith)),
    )

    shifted : bit_or (u64 (acc << 1)) (bit_and (byte >> (7 - pos % 8)) 1) ≡ acc * 2 + v / 2 ^ n % 2
    shifted =
        ap₂ bit_or (omega (arith, room)) digit
        ∙ bit_or_disjoint 1 (acc * 2) (v / 2 ^ n % 2) (omega arith) (omega arith)

-- Fields of a width and a value, and the widths that a reader asks for.
abbrev pub write_all : List (ℕ × ℕ) → BitStream → BitStream
write_all [] s = s
write_all ((n, v) ∷ fields) s = write_all fields (write_bits v n s)

abbrev pub read_all : List (ℕ × ℕ) → BitStream → Option (List ℕ × BitStream)
read_all [] s = some ([], s)
read_all ((n, v) ∷ fields) s = elim (read_bits n s) [
  | none ↦ none
  | some (x, t) ↦ elim (read_all fields t) [ none ↦ none | some (xs, u) ↦ some (x ∷ xs, u) ]
]

-- The values cut to their widths.
abbrev pub cut_all : List (ℕ × ℕ) → List ℕ
cut_all [] = []
cut_all ((n, v) ∷ fields) = v % 2 ^ n ∷ cut_all fields

abbrev pub AreNarrow : List (ℕ × ℕ) → Type 0
AreNarrow = All (λ f. f.0 ≤ 64)

pub write_all-lem :
    (fields : List (ℕ × ℕ)) (s : BitStream)
    → IsTidy s.buffer s.write_bit_pos
    → (s.write_bit_pos ≤ (write_all fields s).write_bit_pos)
      × ((p : ℕ) → p < s.write_bit_pos → bit_at (write_all fields s).buffer p ≡ bit_at s.buffer p)
unfolding write_bits
write_all-lem [] s t = (omega arith, (λ p h. refl))
write_all-lem ((n, v) ∷ fields) s t =
    let own = put_bits-lem v n s.buffer s.write_bit_pos t in
    let rest = write_all-lem fields (write_bits v n s) own.0 in
    (omega (arith, rest.0), (λ p h. rest.1 p (omega arith) ∙ own.1 p h))

-- One field of a stream that holds its bits.
pub read_bits-lem :
    (v n : ℕ) (s : BitStream)
    → n ≤ 64
    → s.read_bit_pos + n ≤ s.write_bit_pos
    → ((j : ℕ) → j < n → bit_at s.buffer (s.read_bit_pos + j) ≡ v / 2 ^ (n - 1 - j) % 2)
    → read_bits n s ≡ some (v % 2 ^ n, record s { read_bit_pos = s.read_bit_pos + n })
unfolding read_bits
read_bits-lem v zero s w h g =
    let none_left : 0 ≡ v % 2 ^ 0 = omega arith in
    let stay : s.read_bit_pos ≡ s.read_bit_pos + 0 = omega arith in
    ap₂ (λ (x r : ℕ). some (x, record s { read_bit_pos = r })) none_left stay
read_bits-lem v (suc n) s w h g =
    if_false _ _ (suc n == 0) (ground arith)
    ∙ if_false _ _ (ltb s.write_bit_pos (s.read_bit_pos + suc n))
        (le→ltb s.write_bit_pos (s.read_bit_pos + suc n) h)
    ∙ ap (λ x. some (x, record s { read_bit_pos = s.read_bit_pos + suc n }))
        (get_bits-lem v (suc n) 0 s.buffer s.read_bit_pos
            (omega (arith, pow-le-pow_right {n = 2} (omega arith) w)) g
          ∙ omega arith)

-- Where the reader stands makes no difference to a writer.
pub write_all-reader :
    (fields : List (ℕ × ℕ)) (s : BitStream) (r : ℕ)
    → write_all fields (record s { read_bit_pos = r })
      ≡ record (write_all fields s) { read_bit_pos = r }
unfolding write_bits
write_all-reader [] s r = refl
write_all-reader ((n, v) ∷ fields) s r = write_all-reader fields (write_bits v n s) r

-- Fields written one after the other to a stream, of at most 64 bits each, are read back in the
-- same order, each value cut to its width, and the reader then stands where the writer does.
pub read_all-write_all :
    (fields : List (ℕ × ℕ)) (s : BitStream)
    → AreNarrow fields
    → IsTidy s.buffer s.write_bit_pos
    → s.read_bit_pos ≡ s.write_bit_pos
    → read_all fields (write_all fields s)
      ≡ some (
        cut_all fields,
        record (write_all fields s) { read_bit_pos = (write_all fields s).write_bit_pos },
      )
unfolding write_bits
read_all-write_all [] s w t e = ap (λ r. some ([], record s { read_bit_pos = r })) e
read_all-write_all ((n, v) ∷ fields) s w t e =
    let next = write_bits v n s in
    let own = put_bits-lem v n s.buffer s.write_bit_pos t in
    let rest = write_all-lem fields next own.0 in
    let whole = write_all fields next in
    let stay : whole.read_bit_pos ≡ s.write_bit_pos =
      ap (λ (x : BitStream). x.read_bit_pos) (write_all-reader fields next s.read_bit_pos) ∙ e in
    let first = read_bits-lem v n whole w.0 (omega (arith, stay, rest.0)) (λ j h.
      ap (λ r. bit_at whole.buffer (r + j)) stay
      ∙ rest.1 (s.write_bit_pos + j) (omega arith)
      ∙ own.2 j h) in
    let moved = record next { read_bit_pos = next.write_bit_pos } in
    let there : record whole { read_bit_pos = whole.read_bit_pos + n } ≡ write_all fields moved =
      ap (λ r. record whole { read_bit_pos = r + n }) stay
      ∙ sym (write_all-reader fields next next.write_bit_pos) in
    ap after first
    ∙ ap (λ x. after (some (v % 2 ^ n, x))) there
    ∙ ap join (read_all-write_all fields moved w.1 own.0 refl)
    ∙ ap (λ x. some (cut_all ((n, v) ∷ fields), record x { read_bit_pos = x.write_bit_pos }))
        (write_all-reader fields next next.write_bit_pos)
  where
    join : Option (List ℕ × BitStream) → Option (List ℕ × BitStream)
    join o = elim o [ none ↦ none | some (xs, u) ↦ some (v % 2 ^ n ∷ xs, u) ]

    after : Option (ℕ × BitStream) → Option (List ℕ × BitStream)
    after o = elim o [
      | none ↦ none
      | some (x, u) ↦ elim (read_all fields u) [ none ↦ none | some (xs, y) ↦ some (x ∷ xs, y) ]
    ]
