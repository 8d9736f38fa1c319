-- ===== src/Udp/Receive/Mask.antt =====
-- The mask of received fragments: which messages it can complete.
use campello_net.Prelude.{ℕ, ◌-◌, ◌<◌, ◌≤◌, ◌≡◌, refl, sym, ◌∙◌, some, List, arith, ==_ne}
use native.Mathlib.Nat.{pow-le-pow_right}
use campello_net.Packet.{PacketHeader}
use campello_net.Udp.State.{Env, Connection, FragmentAssembly, Impl}
use campello_net.Udp.Receive.{
  deliver_if_full, process_fragment, process_payload, full_mask, fill,
  find_or_create_fragment_assembly,
}

-- Nine fragments or more have a mask of more than eight bits.
full_mask_wide : (n : ℕ) → 9 ≤ n → 256 ≤ full_mask n
full_mask_wide n h = omega (arith, pow-le-pow_right {n = 2} (omega arith) h)

module _ ⦃env : Env⦄ where
  deliver_if_full_wide :
      (impl : Impl) (conn : Connection) (hdr : PacketHeader) (fa : FragmentAssembly)
      (fas : List FragmentAssembly)
      → 9 ≤ hdr.frag_count
      → fa.received_mask < 256
      → (deliver_if_full impl conn hdr fa fas).receive_queue ≡ impl.receive_queue
  unfolding deliver_if_full
  deliver_if_full_wide impl conn hdr fa fas wide byte =
      rw
        (==_ne fa.received_mask (full_mask hdr.frag_count)
          (λ e. absurd (omega (arith, e, byte, full_mask_wide hdr.frag_count wide))))
        refl

  process_fragment_wide :
      (impl impl' : Impl) (conn : Connection) (hdr : PacketHeader) (payload : List ℕ)
      (fa : FragmentAssembly) (fas : List FragmentAssembly)
      → 9 ≤ hdr.frag_count
      → process_fragment impl conn hdr payload fa fas ≡ some impl'
      → impl'.receive_queue ≡ impl.receive_queue
  unfolding process_fragment
  process_fragment_wide impl impl' conn hdr payload fa fas wide e = ground (
    arith,
    deliver_if_full_wide impl conn hdr (fill fa (hdr.frag_index - 1) payload) fas wide
        (omega arith),
  )

  process_payload-fragment :
      (now : env.Double) (impl : Impl) (conn : Connection) (hdr : PacketHeader) (payload : List ℕ)
      → 1 < hdr.frag_count
      → let (fa, fas) =
          find_or_create_fragment_assembly now conn.address hdr.sequence hdr.frag_count
            impl.fragment_assemblies in
        process_payload now impl conn hdr payload ≡ process_fragment impl conn hdr payload fa fas
  unfolding process_payload
  process_payload-fragment now impl conn hdr payload h = ground arith

  -- A fragment of a message of nine or more fragments never delivers anything, whatever was collected
  -- before: where its handling is defined at all, the receive queue stays as it was.
  pub process_payload_wide :
      (now : env.Double) (impl impl' : Impl) (conn : Connection) (hdr : PacketHeader)
      (payload : List ℕ)
      → 9 ≤ hdr.frag_count
      → process_payload now impl conn hdr payload ≡ some impl'
      → impl'.receive_queue ≡ impl.receive_queue
  process_payload_wide now impl impl' conn hdr payload wide e =
      let (fa, fas) =
        find_or_create_fragment_assembly now conn.address hdr.sequence hdr.frag_count
          impl.fragment_assemblies in
      process_fragment_wide impl impl' conn hdr payload fa fas wide
        (sym (process_payload-fragment now impl conn hdr payload (omega arith)) ∙ e)
