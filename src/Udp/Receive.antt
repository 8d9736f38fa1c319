-- ===== src/Udp/Receive.antt =====
-- What arrives: fragment assembly, `process_payload` and `process_packet`.
-- `none` is undefined behaviour of the C++ code: a fragment index outside `fa.fragments`, or a shift
-- of a 32-bit 1 by 32 or more.
pub mod Mask
use campello_net.Prelude.{
  ℕ, zero, suc, ◌+◌, ◌-◌, Bool, true, false, not, ◌&&◌, ◌||◌, Option, none, some, List, [], ◌∷◌,
  ◌++◌, ◌==◌, ◌!=◌, ltb, leb, if◌then◌else◌, bit_or, u8, u16, u32, ◌<<◌, length, get_or, set,
  replicate,
}
use campello_net.Packet.{
  PacketHeader, PacketReliability, unreliable, reliable_ordered, reliable_unordered,
  unreliable_sequenced, handshake, disconnect, ack, type_code, protocol, reliability, channel,
  of_code,
}
use campello_net.Udp.State.{
  Env, Pending, BufferedPacket, Channel, Connection, Phase, connecting, connected, disconnecting,
  FragmentAssembly, Impl, channel_of, with_channel, fresh_connection,
}
use campello_net.Udp.Acks.{process_acks}
use campello_net.Udp.Send.{send_handshake}

-- `assembled`: the fragments one after the other.
abbrev pub join : List (List ℕ) → List ℕ
join [] = []
join (f ∷ fs) = f ++ join fs

abbrev pub is_empty {ℓ} : {A : Type ℓ} → List A → Bool
is_empty [] = true
is_empty (x ∷ xs) = false

-- `channel.receive_buffer` with an out-of-order packet, unless its sequence is there.
unfoldable pub has_buffered : ℕ → List BufferedPacket → Bool
has_buffered seq [] = false
has_buffered seq (b ∷ bs) = (b.sequence == seq) || has_buffered seq bs

-- The whole mask of `frag_count` fragments, `(1u << frag_count) - 1u`.
abbrev pub full_mask : ℕ → ℕ
full_mask frag_count = (1 << frag_count) - 1

module _ ⦃env : Env⦄ where
  unfoldable pub push_receive : Impl → env.Address → List ℕ → Impl
  push_receive impl sender bytes = record impl {
    receive_queue = impl.receive_queue ++ ((sender, bytes) ∷ []);
  }

  abbrev pub is_assembly : env.Address → ℕ → FragmentAssembly → Bool
  is_assembly addr sequence fa = env.same_address fa.address addr && (fa.base_sequence == sequence)

  -- `find_or_create_fragment_assembly`: the assembly, which the list holds.
  unfoldable pub find_assembly : env.Address → ℕ → List FragmentAssembly → Option FragmentAssembly
  find_assembly addr sequence [] = none
  find_assembly addr sequence (fa ∷ fas) =
      if is_assembly addr sequence fa then some fa else find_assembly addr sequence fas

  abbrev pub new_assembly : env.Double → env.Address → ℕ → ℕ → FragmentAssembly
  new_assembly now addr sequence frag_count = record {
    address = addr;
    base_sequence = sequence;
    frag_count = frag_count;
    received_mask = 0;
    start_time = now;
    fragments = replicate frag_count [];
  }

  unfoldable pub find_or_create_fragment_assembly :
      env.Double
      → env.Address
      → ℕ
      → ℕ
      → List FragmentAssembly
      → FragmentAssembly × List FragmentAssembly
  find_or_create_fragment_assembly now addr sequence frag_count fas =
      elim (find_assembly addr sequence fas) [
        | some fa ↦ (fa, fas)
        | none ↦ (
          new_assembly now addr sequence frag_count,
          fas ++ (new_assembly now addr sequence frag_count ∷ []),
        )
      ]

  -- A write through the reference that the search returned.
  unfoldable pub write_assembly :
      env.Address → ℕ → FragmentAssembly → List FragmentAssembly → List FragmentAssembly
  write_assembly addr sequence fa' [] = []
  write_assembly addr sequence fa' (fa ∷ fas) =
      if is_assembly addr sequence fa then fa' ∷ fas else fa ∷ write_assembly addr sequence fa' fas

  unfoldable pub remove_fragment_assembly :
      env.Address → ℕ → List FragmentAssembly → List FragmentAssembly
  remove_fragment_assembly addr sequence [] = []
  remove_fragment_assembly addr sequence (fa ∷ fas) =
      if is_assembly addr sequence fa
      then remove_fragment_assembly addr sequence fas
      else fa ∷ remove_fragment_assembly addr sequence fas

  unfoldable pub cleanup_fragments : env.Double → List FragmentAssembly → List FragmentAssembly
  cleanup_fragments now [] = []
  cleanup_fragments now (fa ∷ fas) =
      if env.double_lt (env.double 2 1) (env.double_sub now fa.start_time)
      then cleanup_fragments now fas
      else fa ∷ cleanup_fragments now fas

  -- The assembly with fragment number `index` (from 0) filled in; the mask has 8 bits.
  abbrev pub fill : FragmentAssembly → ℕ → List ℕ → FragmentAssembly
  fill fa index payload = record fa {
    fragments = set fa.fragments index payload;
    received_mask = u8 (bit_or fa.received_mask (1 << index));
  }

  -- The test after a fragment was stored, and the delivery of a complete message.
  unfoldable pub deliver_if_full :
      Impl → Connection → PacketHeader → FragmentAssembly → List FragmentAssembly → Impl
  deliver_if_full impl conn hdr fa fas =
      let written = write_assembly conn.address hdr.sequence fa fas in
      if fa.received_mask == full_mask hdr.frag_count
      then push_receive
          (record impl {
            fragment_assemblies = remove_fragment_assembly conn.address hdr.sequence written;
          })
          conn.address (join fa.fragments)
      else record impl { fragment_assemblies = written }

  unfoldable pub process_fragment :
      Impl
      → Connection
      → PacketHeader
      → List ℕ
      → FragmentAssembly
      → List FragmentAssembly
      → Option Impl
  process_fragment impl conn hdr payload fa fas =
      if hdr.frag_index == 0 || ltb (length fa.fragments) hdr.frag_index
      then none
      else if not (is_empty (get_or fa.fragments (hdr.frag_index - 1) []))
      then some (record impl { fragment_assemblies = fas })
      else if ltb 32 hdr.frag_index || leb 32 hdr.frag_count
      then none
      else some (deliver_if_full impl conn hdr (fill fa (hdr.frag_index - 1) payload) fas)

  unfoldable pub process_payload :
      env.Double → Impl → Connection → PacketHeader → List ℕ → Option Impl
  process_payload now impl conn hdr payload =
      if ltb 1 hdr.frag_count
      then (let (fa, fas) =
            find_or_create_fragment_assembly now conn.address hdr.sequence hdr.frag_count
              impl.fragment_assemblies in
          process_fragment impl conn hdr payload fa fas)
      else some (push_receive impl conn.address payload)
