-- ===== src/BitStream/Bits.antt =====
-- What single bits of a stream are after a write.
use campello_net.Prelude.{
  same_below_sound, same_below, ap₂, ℕ, zero, suc, ◌+◌, ◌-◌, ◌*◌, ◌/◌, ◌%◌, ◌^◌, ◌≤◌, ◌<◌, ◌≡◌, ◌≢◌,
  refl, ap, sym, ◌∙◌, arith, bit_or, bit_or_disjoint, List, [], ◌∷◌, ◌++◌, leb, ◌==◌, ==_iff,
  if◌then◌else◌, Bool-cases, inl, inr, u8, ◌<<◌, length, get_or, length-append, length-set,
  get_or-set_self, get_or-set_ne,
}
use native.Mathlib.Nat.{
  zero-mod, pow-zero, pow-suc, one-le-pow, div-add-mod, div-div-eq-div-mul, mul-add-div_right,
  div-eq_of_lt, mul-mod_left, mul_comm, mul_assoc, mul-div_cancel, div_self,
}
use campello_net.BitStream.{put_bit}

-- The bit at a position, the highest of each byte first.
unfoldable pub bit_at : List ℕ → ℕ → ℕ
bit_at buffer p = get_or buffer (p / 8) 0 / 2 ^ (7 - p % 8) % 2

-- A buffer that ends with the byte of the last bit written, and has zeros after that bit.
pub record IsTidy (buffer : List ℕ) (pos : ℕ) : Type 0 where
  pub whole : length buffer ≡ (pos + 7) / 8
  pub rest_zero : get_or buffer (pos / 8) 0 % 2 ^ (8 - pos % 8) ≡ 0

pub pow-add : (c a d : ℕ) → c ^ (a + d) ≡ c ^ a * c ^ d
pow-add c a zero =
    ap (λ (t : ℕ). c ^ t) {y = a} (omega arith)
    ∙ sym (ap (λ (t : ℕ). c ^ a * t) (pow-zero c) ∙ omega arith)
pow-add c a (suc d) =
    ap (λ t. c ^ t) {y = suc (a + d)} (omega arith)
    ∙ pow-suc c (a + d)
    ∙ ap (λ (t : ℕ). t * c) (pow-add c a d)
    ∙ mul_assoc (c ^ a) (c ^ d) c
    ∙ ap (λ (t : ℕ). c ^ a * t) (sym (pow-suc c d))

-- A byte with zeros from bit `k` down, and that bit set.
module _ (k byte : ℕ) (e : byte % 2 ^ suc k ≡ 0) where
  byte_split : byte ≡ byte / 2 ^ suc k * 2 * 2 ^ k
  byte_split = omega (arith, div-add-mod byte (2 ^ suc k), e, double)
    where
      double : byte / 2 ^ suc k * 2 ^ suc k ≡ byte / 2 ^ suc k * 2 * 2 ^ k
      double =
          ap (λ t. byte / 2 ^ suc k * t) (pow-suc 2 k ∙ mul_comm (2 ^ k) 2)
          ∙ sym (mul_assoc (byte / 2 ^ suc k) 2 (2 ^ k))

  pub set_bit : bit_or byte (2 ^ k) ≡ byte + 2 ^ k
  set_bit = bit_or_disjoint (suc k) byte (2 ^ k) e (omega (arith, pow-suc 2 k, one-le-pow k 2))

  pub set_bit_here : (byte + 2 ^ k) / 2 ^ k % 2 ≡ 1
  set_bit_here =
      ap (λ t. (t + 2 ^ k) / 2 ^ k % 2) byte_split
      ∙ ap (λ (t : ℕ). t % 2)
          (mul-add-div_right (one-le-pow k 2 (omega arith)) (byte / 2 ^ suc k * 2) (2 ^ k))
      ∙ omega (arith, div_self (one-le-pow k 2 (omega arith)))

  pub clear_bit_here : byte / 2 ^ k % 2 ≡ 0
  clear_bit_here =
      ap (λ (t : ℕ). t / 2 ^ k % 2) byte_split
      ∙ ap (λ (t : ℕ). t % 2) (mul-div_cancel (byte / 2 ^ suc k * 2) (one-le-pow k 2 (omega arith)))
      ∙ omega arith

  pub set_bit_above : (d : ℕ) → (byte + 2 ^ k) / 2 ^ (suc k + d) ≡ byte / 2 ^ (suc k + d)
  set_bit_above d =
      ap (λ (t : ℕ). (byte + 2 ^ k) / t) (pow-add 2 (suc k) d)
      ∙ sym (div-div-eq-div-mul (byte + 2 ^ k) (2 ^ suc k) (2 ^ d))
      ∙ ap (λ (t : ℕ). t / 2 ^ d) same
      ∙ div-div-eq-div-mul byte (2 ^ suc k) (2 ^ d)
      ∙ ap (λ (t : ℕ). byte / t) (sym (pow-add 2 (suc k) d))
    where
      same : (byte + 2 ^ k) / 2 ^ suc k ≡ byte / 2 ^ suc k
      same =
          ap (λ (t : ℕ). (t + 2 ^ k) / 2 ^ suc k) (omega (arith, div-add-mod byte (2 ^ suc k), e))
          ∙ mul-add-div_right (one-le-pow (suc k) 2 (omega arith)) (byte / 2 ^ suc k) (2 ^ k)
          ∙ omega (
            arith,
            div-eq_of_lt {n = 2 ^ k} {m = 2 ^ suc k} (omega (arith, pow-suc 2 k, one-le-pow k 2)),
          )

  pub set_bit_below : ((byte + 2 ^ k) % 2 ^ k ≡ 0) × (byte % 2 ^ k ≡ 0)
  set_bit_below = (
    ap (λ (t : ℕ). t % 2 ^ k) (omega (arith, byte_split))
        ∙ mul-mod_left (byte / 2 ^ suc k * 2 + 1) (2 ^ k),
    ap (λ (t : ℕ). t % 2 ^ k) byte_split ∙ mul-mod_left (byte / 2 ^ suc k * 2) (2 ^ k),
  )

-- A byte appended as zero reads as what is not there.
get_or-append_zero : (xs : List ℕ) (i : ℕ) → get_or (xs ++ (0 ∷ [])) i 0 ≡ get_or xs i 0
get_or-append_zero [] zero = refl
get_or-append_zero [] (suc i) = refl
get_or-append_zero (x ∷ xs) zero = refl
get_or-append_zero (x ∷ xs) (suc i) = get_or-append_zero xs i

get_or-beyond : (xs : List ℕ) (i : ℕ) → length xs ≤ i → get_or xs i 0 ≡ 0
get_or-beyond [] i h = refl
get_or-beyond (x ∷ xs) zero h = absurd (omega arith)
get_or-beyond (x ∷ xs) (suc i) h = get_or-beyond xs i (omega arith)

-- The buffer with room for the bit at a position.
abbrev grown : List ℕ → ℕ → List ℕ
grown buffer pos = if leb (length buffer) (pos / 8) then buffer ++ (0 ∷ []) else buffer

module _ (buffer : List ℕ) (pos : ℕ) (tidy : IsTidy buffer pos) where
  grown-same : (i : ℕ) → get_or (grown buffer pos) i 0 ≡ get_or buffer i 0
  grown-same i = elim (Bool-cases (leb (length buffer) (pos / 8))) [
    | inl e ↦ rw e (get_or-append_zero buffer i)
    | inr e ↦ rw e refl
  ]

  grown-length : length (grown buffer pos) ≡ suc (pos / 8)
  grown-length = elim (Bool-cases (leb (length buffer) (pos / 8))) [
    | inl e ↦ rw e (ground (arith, e, tidy.whole, length-append buffer (0 ∷ [])))
    | inr e ↦ rw e (ground (arith, e, tidy.whole))
  ]

  -- The byte at the position, and what a bit makes of it.
  byte_zero : get_or buffer (pos / 8) 0 % 2 ^ suc (7 - pos % 8) ≡ 0
  byte_zero = ap (λ (t : ℕ). get_or buffer (pos / 8) 0 % 2 ^ t) (omega arith) ∙ tidy.rest_zero

  power : u8 (1 << (7 - pos % 8)) ≡ 2 ^ (7 - pos % 8)
  unfolding same_below
  power = small (7 - pos % 8) (omega arith)
    where
      small : (k : ℕ) → k < 8 → u8 (1 << k) ≡ 2 ^ k
      small = same_below_sound (λ k. u8 (1 << k)) (λ k. 2 ^ k) 8 refl

  put_bit-length : (bit : ℕ) → bit < 2 → length (put_bit bit buffer pos) ≡ suc (pos / 8)
  unfolding put_bit
  put_bit-length zero h = grown-length
  put_bit-length (suc zero) h = length-set (grown buffer pos) _ _ ∙ grown-length
  put_bit-length (suc (suc bit)) h = absurd (omega arith)

  put_bit-here :
      (bit : ℕ)
      → bit < 2
      → get_or (put_bit bit buffer pos) (pos / 8) 0
        ≡ get_or buffer (pos / 8) 0 + bit * 2 ^ (7 - pos % 8)
  unfolding put_bit
  put_bit-here zero h = omega (arith, grown-same (pos / 8))
  put_bit-here (suc zero) h =
      get_or-set_self (grown buffer pos) (pos / 8) _ 0 (omega (arith, grown-length))
      ∙ ap₂ bit_or (grown-same (pos / 8)) power
      ∙ set_bit (7 - pos % 8) (get_or buffer (pos / 8) 0) byte_zero
      ∙ omega arith
  put_bit-here (suc (suc bit)) h = absurd (omega arith)

  put_bit-elsewhere :
      (bit i : ℕ) → bit < 2 → i ≢ pos / 8 → get_or (put_bit bit buffer pos) i 0 ≡ get_or buffer i 0
  unfolding put_bit
  put_bit-elsewhere zero i w h = grown-same i
  put_bit-elsewhere (suc zero) i w h =
      get_or-set_ne (grown buffer pos) (pos / 8) i _ 0 (λ e. h (sym e)) ∙ grown-same i
  put_bit-elsewhere (suc (suc bit)) i w h = absurd (omega arith)

  -- The byte after the write: its bit at the position, the bits above, and the zeros below.
  byte_after :
      (bit d : ℕ)
      → bit < 2
      → (let byte = get_or buffer (pos / 8) 0 in
          let k = 7 - pos % 8 in
          ((byte + bit * 2 ^ k) / 2 ^ k % 2 ≡ bit)
          × ((byte + bit * 2 ^ k) / 2 ^ (suc k + d) ≡ byte / 2 ^ (suc k + d))
          × ((byte + bit * 2 ^ k) % 2 ^ k ≡ 0))
  byte_after zero d h =
      let byte = get_or buffer (pos / 8) 0 in
      let k = 7 - pos % 8 in
      let none_set : byte + 0 * 2 ^ k ≡ byte = omega arith in
      (
        ap (λ (t : ℕ). t / 2 ^ k % 2) none_set ∙ clear_bit_here k byte byte_zero,
        ap (λ (t : ℕ). t / 2 ^ (suc k + d)) none_set,
        ap (λ (t : ℕ). t % 2 ^ k) none_set ∙ (set_bit_below k byte byte_zero).1,
      )
  byte_after (suc zero) d h =
      let byte = get_or buffer (pos / 8) 0 in
      let k = 7 - pos % 8 in
      let one_set : byte + 1 * 2 ^ k ≡ byte + 2 ^ k = omega arith in
      (
        ap (λ (t : ℕ). t / 2 ^ k % 2) one_set ∙ set_bit_here k byte byte_zero,
        ap (λ (t : ℕ). t / 2 ^ (suc k + d)) one_set ∙ set_bit_above k byte byte_zero d,
        ap (λ (t : ℕ). t % 2 ^ k) one_set ∙ (set_bit_below k byte byte_zero).0,
      )
  byte_after (suc (suc bit)) d h = absurd (omega arith)

  -- The bit that was written, and those before it.
  pub bit_at-put_bit : (bit : ℕ) → bit < 2 → bit_at (put_bit bit buffer pos) pos ≡ bit
  unfolding bit_at
  bit_at-put_bit bit h =
      ap (λ (t : ℕ). t / 2 ^ (7 - pos % 8) % 2) (put_bit-here bit h) ∙ (byte_after bit 0 h).0

  pub bit_at-put_bit_before :
      (bit p : ℕ) → bit < 2 → p < pos → bit_at (put_bit bit buffer pos) p ≡ bit_at buffer p
  unfolding bit_at
  bit_at-put_bit_before bit p h g = elim (Bool-cases (p / 8 == pos / 8)) [
    | inl e ↦
        let same : p / 8 ≡ pos / 8 = (==_iff (p / 8) (pos / 8)).0 e in
        let d = 7 - p % 8 - suc (7 - pos % 8) in
        let shift : 7 - p % 8 ≡ suc (7 - pos % 8) + d = omega arith in
        ap (λ i. get_or (put_bit bit buffer pos) i 0 / 2 ^ (7 - p % 8) % 2) same
        ∙ ap (λ (t : ℕ). t / 2 ^ (7 - p % 8) % 2) (put_bit-here bit h)
        ∙ ap (λ (t : ℕ). (get_or buffer (pos / 8) 0 + bit * 2 ^ (7 - pos % 8)) / 2 ^ t % 2) shift
        ∙ ap (λ (t : ℕ). t % 2) (byte_after bit d h).1
        ∙ ap (λ (t : ℕ). get_or buffer (pos / 8) 0 / 2 ^ t % 2) (sym shift)
        ∙ ap (λ i. get_or buffer i 0 / 2 ^ (7 - p % 8) % 2) (sym same)
    | inr e ↦
        ap (λ (t : ℕ). t / 2 ^ (7 - p % 8) % 2)
          (put_bit-elsewhere bit (p / 8) h (λ f. ground (arith, e, f)))
  ]

  pub put_bit-IsTidy : (bit : ℕ) → bit < 2 → IsTidy (put_bit bit buffer pos) (pos + 1)
  put_bit-IsTidy bit h = record {
    whole = omega (arith, put_bit-length bit h);
    rest_zero = elim (Bool-cases (pos % 8 == 7)) [
      | inl e ↦
          ap (λ (t : ℕ). t % 2 ^ (8 - (pos + 1) % 8))
            (get_or-beyond (put_bit bit buffer pos) ((pos + 1) / 8)
              (ground (arith, e, put_bit-length bit h)))
          ∙ zero-mod (2 ^ (8 - (pos + 1) % 8))
      | inr e ↦
          let index : (pos + 1) / 8 ≡ pos / 8 = ground (arith, e) in
          let width : 8 - (pos + 1) % 8 ≡ 7 - pos % 8 = ground (arith, e) in
          ap₂ (λ (i w : ℕ). get_or (put_bit bit buffer pos) i 0 % 2 ^ w) index width
          ∙ ap (λ (t : ℕ). t % 2 ^ (7 - pos % 8)) (put_bit-here bit h)
          ∙ (byte_after bit 0 h).2
    ];
  }
