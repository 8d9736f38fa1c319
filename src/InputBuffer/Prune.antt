-- ===== src/InputBuffer/Prune.antt =====
-- What `prune_up_to` takes out of the rings, with ticks compared around their wrap.
use campello_net.Prelude.{
  ℕ, zero, suc, ◌+◌, ◌%◌, ◌^◌, ◌<◌, ltb, ◌≡◌, ◌≢◌, refl, ap, sym, ◌∙◌, none, some, List, [], ◌∷◌,
  map, arith, inl, inr, ◌!=◌, if◌then◌else◌, get_or, length, lookup, Option-cases,
}
use mathlib.Core.Option
use campello_net.InputBuffer.{
  Entry, Buffers, fresh_entry, max_ticks, retrieve, entry_at, prune_entry, prune_up_to, at_or_after,
}
use campello_net.InputBuffer.Window.{AreRings, entry_at-full}

lookup-prune :
    (tick client : ℕ) (bs : Buffers)
    → lookup client (prune_up_to tick bs) ≡ Option.map (map (prune_entry tick)) (lookup client bs)
unfolding prune_up_to lookup
lookup-prune tick client [] = refl
lookup-prune tick client ((c, ring) ∷ bs) = ground (arith, lookup-prune tick client bs)

get_or-prune :
    (tick i : ℕ) (ring : List Entry)
    → get_or (map (prune_entry tick) ring) i fresh_entry
      ≡ prune_entry tick (get_or ring i fresh_entry)
unfolding prune_entry
get_or-prune tick i [] = refl
get_or-prune tick zero (e ∷ es) = refl
get_or-prune tick (suc i) (e ∷ es) = get_or-prune tick i es

length-prune : (tick : ℕ) (ring : List Entry) → length (map (prune_entry tick) ring) ≡ length ring
length-prune tick [] = refl
length-prune tick (e ∷ es) = ap suc (length-prune tick es)

-- The test of a tick on one entry.
read-prune :
    (tick t : ℕ) (e : Entry)
    → t ≢ 0
    → (if (prune_entry tick e).tick != t then none else some (prune_entry tick e).bytes)
      ≡ (if at_or_after tick t then none else if e.tick != t then none else some e.bytes)
unfolding prune_entry
read-prune tick t e nz = ground (arith, nz)

entry_at-prune :
    (tick t : ℕ) (ring : List Entry)
    → length ring ≡ max_ticks
    → t ≢ 0
    → entry_at t (map (prune_entry tick) ring)
      ≡ (if at_or_after tick t then none else entry_at t ring)
entry_at-prune tick t ring h nz =
    entry_at-full t (map (prune_entry tick) ring) (length-prune tick ring ∙ h)
    ∙ ap (λ (e : Entry). if e.tick != t then none else some e.bytes)
        (get_or-prune tick (t % max_ticks) ring)
    ∙ read-prune tick t (get_or ring (t % max_ticks) fresh_entry) nz
    ∙ ap (λ o. if at_or_after tick t then none else o) (sym (entry_at-full t ring h))

retrieve-pruned :
    (client tick t : ℕ) (bs : Buffers)
    → AreRings bs
    → t ≢ 0
    → retrieve client t (prune_up_to tick bs)
      ≡ (if at_or_after tick t then none else retrieve client t bs)
unfolding retrieve
retrieve-pruned client tick t bs w nz = elim (Option-cases (lookup client bs)) [
  | inl e ↦ rw (lookup-prune tick client bs, e, retrieve) (ground arith)
  | inr (ring, e) ↦
      rw (lookup-prune tick client bs, e, retrieve)
        (entry_at-prune tick t ring (w client ring e) nz)
]

at_or_after-distance :
    (tick t d : ℕ)
    → t < 2 ^ 16
    → d < 2 ^ 16
    → tick ≡ (t + d) % 2 ^ 16
    → at_or_after tick t ≡ ltb d (2 ^ 15)
at_or_after-distance tick t d h g e = ap (λ n. ltb n (2 ^ 15)) (omega arith)

-- After a pruning up to a tick that is `d` ticks after `t`, counted around the wrap of the 16 bits,
-- where every ring has its 256 entries and `t` is not 0: no client has an input for `t` if `d` is less
-- than 32768, and every client has the one that it had for `t` if `d` is 32768 or more.
pub retrieve-prune_up_to :
    (client tick t d : ℕ) (bs : Buffers)
    → AreRings bs
    → t ≢ 0
    → t < 2 ^ 16
    → d < 2 ^ 16
    → tick ≡ (t + d) % 2 ^ 16
    → retrieve client t (prune_up_to tick bs)
      ≡ (if ltb d (2 ^ 15) then none else retrieve client t bs)
retrieve-prune_up_to client tick t d bs w nz h g e =
    retrieve-pruned client tick t bs w nz
    ∙ ap (λ b. if b then none else retrieve client t bs) (at_or_after-distance tick t d h g e)
