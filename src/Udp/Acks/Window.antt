-- ===== src/Udp/Acks/Window.antt =====
-- Which sequence numbers an acknowledgement covers.
use campello_net.Prelude.{
  ℕ, ◌+◌, ◌-◌, ◌*◌, ◌/◌, ◌%◌, ◌^◌, ◌<◌, ◌≡◌, ap, ◌∙◌, Bool-cases, ==_iff, ◌↔◌, ◌⊎◌, inl, inr, true,
  arith, bit_and, bit_and_pow, ◌<<◌, ltb, leb, ◌==◌, ◌!=◌, ◌&&◌,
}
use native.Mathlib.Nat.{one-le-pow}
use campello_net.Udp.Acks.{is_acked}

-- Bit `i` of `bits`.
abbrev pub HasBit : ℕ → ℕ → Type 0
HasBit bits i = bits / 2 ^ i % 2 ≡ 1

zero_or_one : (n : ℕ) → (n % 2 ≡ 0) ⊎ (n % 2 ≡ 1)
zero_or_one n = elim (Bool-cases (n % 2 == 0)) [
  | inl e ↦ inl ((==_iff (n % 2) 0).0 e)
  | inr e ↦ inr (ground (arith, e))
]

acked_self : (ack bits : ℕ) → is_acked ack bits ack ≡ true
unfolding is_acked
acked_self ack bits = ground arith

bit_test-HasBit : (bits i : ℕ) → (bit_and bits (1 << i) != 0) ≡ true → HasBit bits i
bit_test-HasBit bits i h = elim (zero_or_one (bits / 2 ^ i)) [
  | inl e ↦ absurd (ground (arith, h, clear e))
  | inr e ↦ e
]
  where
    clear : bits / 2 ^ i % 2 ≡ 0 → bit_and bits (1 << i) ≡ 0
    clear e =
        ap (bit_and bits) {y = 2 ^ i} (omega arith)
        ∙ bit_and_pow i bits
        ∙ ap (λ (t : ℕ). t * 2 ^ i) {y = 0} e
        ∙ omega arith

HasBit-bit_test : (bits i : ℕ) → HasBit bits i → (bit_and bits (1 << i) != 0) ≡ true
HasBit-bit_test bits i e = ground (arith, value, one-le-pow i 2 (omega arith))
  where
    value : bit_and bits (1 << i) ≡ 2 ^ i
    value =
        ap (bit_and bits) {y = 2 ^ i} (omega arith)
        ∙ bit_and_pow i bits
        ∙ ap (λ (t : ℕ). t * 2 ^ i) {y = 1} e
        ∙ omega arith

to_window :
    (ack bits seq : ℕ)
    → is_acked ack bits seq ≡ true
    → (seq ≡ ack) ⊎ ((i : ℕ) × (i < 32) × (ack ≡ seq + 1 + i) × HasBit bits i)
unfolding is_acked
to_window ack bits seq h = elim (Bool-cases (seq == ack)) [
  | inl e ↦ inl ((==_iff seq ack).0 e)
  | inr e ↦ elim (Bool-cases (ltb 0 (ack - seq) && leb (ack - seq) 32)) [
    | inl w ↦ inr (
      ack - seq - 1,
      ground (arith, w),
      ground (arith, w),
      bit_test-HasBit bits (ack - seq - 1) (rw (e, w) at h),
    )
    | inr w ↦ absurd (ground (arith, h, e, w))
  ]
]

of_bit : (bits seq i : ℕ) → i < 32 → HasBit bits i → is_acked (seq + 1 + i) bits seq ≡ true
unfolding is_acked
of_bit bits seq i small set = ground (arith, bit)
  where
    bit : (bit_and bits (1 << (seq + 1 + i - seq - 1)) != 0) ≡ true
    bit =
        ap (λ (t : ℕ). bit_and bits (1 << t) != 0) {y = i} (omega arith)
        ∙ HasBit-bit_test bits i set

-- An acknowledgement covers exactly its own sequence number, and the one `i + 1` before it for each
-- of the 32 bits `i` that is set; the numbers do not wrap.
pub is_acked_iff :
    (ack bits seq : ℕ)
    → (is_acked ack bits seq ≡ true)
      ↔ ((seq ≡ ack) ⊎ ((i : ℕ) × (i < 32) × (ack ≡ seq + 1 + i) × HasBit bits i))
is_acked_iff ack bits seq = (to_window ack bits seq, back)
  where
    back :
        (seq ≡ ack) ⊎ ((i : ℕ) × (i < 32) × (ack ≡ seq + 1 + i) × HasBit bits i)
        → is_acked ack bits seq ≡ true
    back (inl e) = ground (arith, e, acked_self ack bits)
    back (inr (i, small, e, set)) =
        ap (λ (t : ℕ). is_acked t bits seq) e ∙ of_bit bits seq i small set
