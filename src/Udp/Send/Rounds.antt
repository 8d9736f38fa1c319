-- ===== src/Udp/Send/Rounds.antt =====
-- The packets of the fragments that `send_to_connection` cuts a message into.
use campello_net.Prelude.{
  ℕ, zero, suc, ◌+◌, ◌*◌, ◌≤◌, ◌<◌, ◌≡◌, refl, ap, sym, ◌∙◌, List, [], ◌∷◌, ◌++◌, map, arith,
  length, drop, take-append-drop, length-take, length-drop,
}
use campello_net.Packet.{
  PacketHeader, PacketReliability, unreliable, reliable_ordered, reliable_unordered,
  unreliable_sequenced, code, of_code, reliability, channel, set_channel, set_reliability, fragment,
  type_code, header_bytes, max_payload_size, max_packet_size, header_size,
}
use campello_net.Udp.State.{Env, Channel}
use campello_net.Udp.Receive.{join}
use campello_net.Udp.Send.{slice, typed_header, fragment_header}

drop-nil : (n : ℕ) → drop {A = ℕ} n [] ≡ []
drop-nil zero = refl
drop-nil (suc n) = refl

drop-drop : (n m : ℕ) (xs : List ℕ) → drop n (drop m xs) ≡ drop (m + n) xs
drop-drop n zero xs = ap (λ (k : ℕ). drop k xs) {x = n} (omega arith)
drop-drop n (suc m) [] = drop-nil n ∙ sym (drop-nil (suc m + n))
drop-drop n (suc m) (x ∷ xs) =
    drop-drop n m xs ∙ ap (λ (k : ℕ). drop k (x ∷ xs)) {x = suc (m + n)} (omega arith)

drop-all : (n : ℕ) (xs : List ℕ) → length xs ≤ n → drop n xs ≡ []
drop-all zero [] h = refl
drop-all zero (x ∷ xs) h = absurd (omega arith)
drop-all (suc n) [] h = refl
drop-all (suc n) (x ∷ xs) h = drop-all n xs (omega arith)

-- A header and its payload, as the datagram of a packet.
abbrev pub packet_bytes : PacketHeader × List ℕ → List ℕ
packet_bytes (hdr, payload) = header_bytes hdr ++ payload

abbrev pub payload_of : PacketHeader × List ℕ → List ℕ
payload_of (hdr, payload) = payload

-- The packets from the fragment `i` on of a message of `count` fragments: they are numbered one after
-- the other up to `count`, all have the message's reliability and sequence number, none is empty, and
-- each fits a packet.
pub AreNumbered : PacketReliability → (sequence count i : ℕ) → List (PacketHeader × List ℕ) → Type 0
AreNumbered r sequence count i [] = i ≡ count + 1
AreNumbered r sequence count i ((hdr, payload) ∷ packets) =
    (hdr.packet_type ≡ type_code fragment)
    × (reliability hdr ≡ r)
    × (channel hdr ≡ code r)
    × (hdr.sequence ≡ sequence)
    × (hdr.frag_index ≡ i)
    × (hdr.frag_count ≡ count)
    × (hdr.payload_len ≡ length payload)
    × (0 < length payload)
    × (header_size + length payload ≤ max_packet_size)
    × AreNumbered r sequence count (i + 1) packets

-- The packets of the rounds `i`, `i + 1`, ... of the loop, `left` in number.
unfoldable pub rounds :
    ⦃env : Env⦄
    → Channel
    → PacketReliability
    → ℕ
    → ℕ
    → ℕ
    → ℕ
    → List ℕ
    → List (PacketHeader × List ℕ)
rounds c r base num i zero bytes = []
rounds c r base num i (suc left) bytes =
    (fragment_header c r base i num (length (slice i bytes)), slice i bytes)
    ∷ rounds c r base num (i + 1) left bytes

module _ ⦃env : Env⦄ where
  reliability-fragment :
      (c : Channel) (r : PacketReliability) (base i num len : ℕ)
      → reliability (fragment_header c r base i num len) ≡ r
  unfolding reliability of_code fragment_header typed_header set_channel set_reliability code
  reliability-fragment c unreliable base i num len = refl
  reliability-fragment c reliable_ordered base i num len = refl
  reliability-fragment c reliable_unordered base i num len = refl
  reliability-fragment c unreliable_sequenced base i num len = refl

  channel-fragment :
      (c : Channel) (r : PacketReliability) (base i num len : ℕ)
      → channel (fragment_header c r base i num len) ≡ code r
  unfolding channel fragment_header typed_header set_channel set_reliability code
  channel-fragment c unreliable base i num len = refl
  channel-fragment c reliable_ordered base i num len = refl
  channel-fragment c reliable_unordered base i num len = refl
  channel-fragment c unreliable_sequenced base i num len = refl

module _ ⦃env : Env⦄ (c : Channel) (r : PacketReliability) (base num : ℕ) (bytes : List ℕ) where
  -- The rest of the message from round `i` on, where the rounds reach its end.
  pub join-rounds :
      (i left : ℕ)
      → length bytes ≤ (i + left) * max_payload_size
      → join (map payload_of (rounds c r base num i left bytes)) ≡ drop (i * max_payload_size) bytes
  unfolding rounds
  join-rounds i zero h = sym (drop-all (i * max_payload_size) bytes (omega arith))
  join-rounds i (suc left) h =
      ap (◌++◌ (slice i bytes)) (
        join-rounds (i + 1) left (omega arith)
        ∙ ap (λ (n : ℕ). drop n bytes) {y = i * max_payload_size + max_payload_size} (omega arith)
        ∙ sym (drop-drop max_payload_size (i * max_payload_size) bytes))
      ∙ take-append-drop max_payload_size (drop (i * max_payload_size) bytes)

  slice_fits :
      (i : ℕ)
      → (i + 1) * max_payload_size < length bytes + max_payload_size
      → (0 < length (slice i bytes)) × (length (slice i bytes) ≤ max_payload_size)
  slice_fits i h = (
    omega (
      arith,
      length-take max_payload_size (drop (i * max_payload_size) bytes),
      length-drop (i * max_payload_size) bytes,
    ),
    omega (arith, length-take max_payload_size (drop (i * max_payload_size) bytes)),
  )

  pub rounds-AreNumbered :
      (i left : ℕ)
      → i + left ≡ num
      → num < 256
      → (i + left) * max_payload_size < length bytes + max_payload_size
      → AreNumbered r base num (i + 1) (rounds c r base num i left bytes)
  unfolding rounds AreNumbered fragment_header typed_header set_channel set_reliability
  rounds-AreNumbered i zero e w h = omega arith
  rounds-AreNumbered i (suc left) e w h =
      let fits = slice_fits i (omega arith) in
      (
        refl,
        reliability-fragment c r base i num (length (slice i bytes)),
        channel-fragment c r base i num (length (slice i bytes)),
        refl,
        omega arith,
        omega arith,
        omega (arith, fits.1),
        fits.0,
        omega (arith, fits.1),
        rounds-AreNumbered (i + 1) left (omega arith) w (omega arith),
      )
