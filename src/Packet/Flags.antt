-- ===== src/Packet/Flags.antt =====
-- The two fields packed into a header's `flags`.
use campello_net.Prelude.{
  ℕ, ◌+◌, ◌*◌, ◌/◌, ◌%◌, ◌<◌, ◌≡◌, refl, ap, ◌∙◌, arith, bit_and, bit_or, bit_and_low_bits,
  bit_or_disjoint, ◌>>◌, same_below, same_below_sound,
}
use native.Mathlib.Nat.{mod-eq_of_lt}
use campello_net.Packet.{
  PacketHeader, PacketReliability, unreliable, reliable_ordered, reliable_unordered,
  unreliable_sequenced, code, of_code, reliability, channel, set_reliability, set_channel,
}

-- `x & 0x3` is read as a remainder at any number.
pub bit_and_three : (x : ℕ) → bit_and x 3 ≡ x % 4
bit_and_three x = bit_and_low_bits 2 x

high_six : (x : ℕ) → x < 256 → bit_and x 0xFC ≡ x / 4 * 4
unfolding same_below
high_six = same_below_sound (λ x. bit_and x 0xFC) (λ x. x / 4 * 4) 256 refl

-- The bits of a reliability above those of a channel.
or_code : (r : PacketReliability) (x : ℕ) → x < 4 → bit_or x (code r * 4) ≡ code r * 4 + x
unfolding code same_below
or_code unreliable = same_below_sound (λ x. bit_or x 0) (λ x. 0 + x) 4 refl
or_code reliable_ordered = same_below_sound (λ x. bit_or x 4) (λ x. 4 + x) 4 refl
or_code reliable_unordered = same_below_sound (λ x. bit_or x 8) (λ x. 8 + x) 4 refl
or_code unreliable_sequenced = same_below_sound (λ x. bit_or x 12) (λ x. 12 + x) 4 refl

pub code-lt : (r : PacketReliability) → code r < 4
unfolding code
code-lt unreliable = omega arith
code-lt reliable_ordered = omega arith
code-lt reliable_unordered = omega arith
code-lt unreliable_sequenced = omega arith

pub of_code-code : (r : PacketReliability) → of_code (code r) ≡ r
unfolding code of_code
of_code-code unreliable = refl
of_code-code reliable_ordered = refl
of_code-code reliable_unordered = refl
of_code-code unreliable_sequenced = refl

-- The value of `flags` after each setter.
flags-set_reliability :
    (r : PacketReliability) (h : PacketHeader)
    → (set_reliability r h).flags ≡ code r * 4 + h.flags % 4
unfolding set_reliability
flags-set_reliability r h =
    rw (bit_and_three h.flags, bit_and_three (code r), mod-eq_of_lt (code-lt r))
      (omega (arith, or_code r (h.flags % 4) (omega arith), code-lt r))

flags-set_channel :
    (ch : ℕ) (h : PacketHeader)
    → h.flags < 256
    → (set_channel ch h).flags ≡ h.flags / 4 * 4 + ch % 4
unfolding set_channel
flags-set_channel ch h w =
    rw (bit_and_three ch, high_six h.flags w)
      (omega (arith, bit_or_disjoint 2 (h.flags / 4 * 4) (ch % 4) (omega arith) (omega arith)))

pub reliability_of :
    (r : PacketReliability) (c : ℕ) (h : PacketHeader)
    → c < 4
    → h.flags ≡ code r * 4 + c
    → reliability h ≡ r
unfolding reliability
reliability_of r c h w e =
    ap of_code {y = code r} (bit_and_three (h.flags >> 2) ∙ omega (arith, code-lt r))
    ∙ of_code-code r

pub channel_lem : (h : PacketHeader) → channel h ≡ h.flags % 4
unfolding channel
channel_lem h = bit_and_three h.flags

-- A header whose flags fit a byte keeps both fields: the reliability and the two low bits of the channel that are set, in
-- either order, are the ones that the getters return.
pub flags_roundtrip :
    (r : PacketReliability) (ch : ℕ) (h : PacketHeader)
    → h.flags < 256
    → (reliability (set_channel ch (set_reliability r h)) ≡ r)
      × (channel (set_channel ch (set_reliability r h)) ≡ ch % 4)
      × (reliability (set_reliability r (set_channel ch h)) ≡ r)
      × (channel (set_reliability r (set_channel ch h)) ≡ ch % 4)
flags_roundtrip r ch h w = (
  reliability_of r (ch % 4) (set_channel ch (set_reliability r h)) (omega arith) both,
  omega (arith, channel_lem (set_channel ch (set_reliability r h)), both),
  reliability_of r (ch % 4) (set_reliability r (set_channel ch h)) (omega arith) swapped,
  omega (arith, channel_lem (set_reliability r (set_channel ch h)), swapped),
)
  where
    first : (set_reliability r h).flags ≡ code r * 4 + h.flags % 4
    first = flags-set_reliability r h

    both : (set_channel ch (set_reliability r h)).flags ≡ code r * 4 + ch % 4
    both = omega (
      arith,
      first,
      code-lt r,
      flags-set_channel ch (set_reliability r h) (omega (arith, first, code-lt r)),
    )

    swapped : (set_reliability r (set_channel ch h)).flags ≡ code r * 4 + ch % 4
    swapped = omega (arith, flags-set_reliability r (set_channel ch h), flags-set_channel ch h w)
