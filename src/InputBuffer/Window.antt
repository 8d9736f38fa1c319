-- ===== src/InputBuffer/Window.antt =====
-- The ring as a window: what each call returns after a store, and after a pruning.
use campello_net.Prelude.{
  ℕ, ◌%◌, ◌≡◌, ◌≢◌, refl, ap, sym, ◌∙◌, Option, none, some, List, [], ◌∷◌, arith, inl, inr, ◌==◌,
  ◌!=◌, if◌then◌else◌, get_or, set, replicate, length, length-set, length-replicate,
  get_or-set_self, get_or-set_ne, get_or-replicate, lookup, lookup-insert_self, lookup-insert_ne,
  Option-cases, Bool-cases, ==_iff,
}
use campello_net.InputBuffer.{
  Entry, Buffers, fresh_entry, max_ticks, ring_of, store, retrieve, entry_at,
}

-- Every ring has its 256 entries.
abbrev pub AreRings : Buffers → Type 0
AreRings bs =
    (client : ℕ) (ring : List Entry) → lookup client bs ≡ some ring → length ring ≡ max_ticks

pub entry_at-full :
    (tick : ℕ) (ring : List Entry)
    → length ring ≡ max_ticks
    → entry_at tick ring ≡ (
        let e = get_or ring (tick % max_ticks) fresh_entry in
        if e.tick != tick then none else some e.bytes)
entry_at-full tick [] h = absurd (omega (arith, h))
entry_at-full tick (e ∷ es) h = refl

-- The test of a tick at its slot.
abbrev read : ℕ → List Entry → Option (List ℕ)
read t ring =
    let e = get_or ring (t % max_ticks) fresh_entry in if e.tick != t then none else some e.bytes

ring_of-fresh :
    (client : ℕ) (bs : Buffers)
    → lookup client bs ≡ none
    → ring_of client bs ≡ replicate max_ticks fresh_entry
ring_of-fresh client bs e = rw (e, ring_of) refl

ring_of-found :
    (client : ℕ) (ring : List Entry) (bs : Buffers)
    → length ring ≡ max_ticks
    → lookup client bs ≡ some ring
    → ring_of client bs ≡ ring
ring_of-found client [] bs h e = absurd (omega (arith, h))
ring_of-found client (x ∷ xs) bs h e = rw (e, ring_of) refl

length-ring_of : (client : ℕ) (bs : Buffers) → AreRings bs → length (ring_of client bs) ≡ max_ticks
length-ring_of client bs w = elim (Option-cases (lookup client bs)) [
  | inl e ↦ ap length (ring_of-fresh client bs e) ∙ length-replicate max_ticks fresh_entry
  | inr (ring, e) ↦ ap length (ring_of-found client ring bs (w client ring e) e) ∙ w client ring e
]

written-AreRings :
    (client c tick : ℕ) (bytes : List ℕ) (bs : Buffers) (ring : List Entry)
    → AreRings bs
    → lookup c (store client tick bytes bs) ≡ some ring
    → length ring ≡ max_ticks
unfolding store
written-AreRings client c tick bytes bs ring w e = elim (Bool-cases (c == client)) [
  | inl hit ↦ cc (
    (==_iff c client).0 hit,
    lookup-insert_self client new bs,
    length-set (ring_of client bs) (tick % max_ticks) (record { tick = tick; bytes = bytes }),
    length-ring_of client bs w,
  )
  | inr miss ↦
      w c ring (sym (lookup-insert_ne client c new bs (λ h. absurd (ground (arith, h, miss)))) ∙ e)
]
  where
    new : List Entry
    new = set (ring_of client bs) (tick % max_ticks) (record { tick = tick; bytes = bytes })

-- A store keeps every ring at its 256 entries.
pub store-AreRings :
    (client tick : ℕ) (bytes : List ℕ) (bs : Buffers)
    → AreRings bs
    → AreRings (store client tick bytes bs)
store-AreRings client tick bytes bs w c ring e = written-AreRings client c tick bytes bs ring w e

-- What is retrieved from the ring that a store wrote.
retrieve-written :
    (client tick t : ℕ) (bytes : List ℕ) (bs : Buffers)
    → AreRings bs
    → retrieve client t (store client tick bytes bs) ≡ (
        let e =
          get_or
            (set (ring_of client bs) (tick % max_ticks) (record { tick = tick; bytes = bytes }))
            (t % max_ticks)
            fresh_entry in
        if e.tick != t then none else some e.bytes)
unfolding retrieve store
retrieve-written client tick t bytes bs w =
    rw
      (
        lookup-insert_self client
            (set (ring_of client bs) (tick % max_ticks) (record { tick = tick; bytes = bytes })) bs,
        retrieve,
      )
      (entry_at-full t _
        (length-set (ring_of client bs) (tick % max_ticks) _ ∙ length-ring_of client bs w))

-- A tick other than 0 is not in a fresh ring.
retrieve-ring_of :
    (client t : ℕ) (bs : Buffers)
    → AreRings bs
    → t ≢ 0
    → (let e = get_or (ring_of client bs) (t % max_ticks) fresh_entry in
        if e.tick != t then none else some e.bytes)
      ≡ retrieve client t bs
unfolding retrieve
retrieve-ring_of client t bs w nz = elim (Option-cases (lookup client bs)) [
  | inl e ↦
      ap (read t) (ring_of-fresh client bs e)
      ∙ rw (e, retrieve, get_or-replicate max_ticks (t % max_ticks) fresh_entry)
          (ground (arith, nz))
  | inr (ring, e) ↦
      ap (read t) (ring_of-found client ring bs (w client ring e) e)
      ∙ rw (e, retrieve) (sym (entry_at-full t ring (w client ring e)))
]

retrieve-other :
    (other client tick t : ℕ) (bytes : List ℕ) (bs : Buffers)
    → other ≢ client
    → retrieve other t (store client tick bytes bs) ≡ retrieve other t bs
unfolding store retrieve
retrieve-other other client tick t bytes bs ne =
    ap (λ o. elim o [ none ↦ none | some ring ↦ entry_at t ring ])
      (lookup-insert_ne client other
        (set (ring_of client bs) (tick % max_ticks) (record { tick = tick; bytes = bytes })) bs ne)

-- After a store, where every ring has its 256 entries: the stored tick has its bytes; any other tick
-- of the same slot is gone, and every other tick but 0 and every other client are as before.
pub retrieve-store :
    (client tick : ℕ) (bytes : List ℕ) (bs : Buffers)
    → AreRings bs
    → (retrieve client tick (store client tick bytes bs) ≡ some bytes)
      × ((t : ℕ)
          → t ≢ tick
          → t % max_ticks ≡ tick % max_ticks
          → retrieve client t (store client tick bytes bs) ≡ none)
      × ((t : ℕ)
          → t ≢ 0
          → t % max_ticks ≢ tick % max_ticks
          → retrieve client t (store client tick bytes bs) ≡ retrieve client t bs)
      × ((other t : ℕ)
          → other ≢ client
          → retrieve other t (store client tick bytes bs) ≡ retrieve other t bs)
retrieve-store client tick bytes bs w = (
  retrieve-written client tick tick bytes bs w ∙ rw here (ground arith),
  λ t ne slot. retrieve-written client tick t bytes bs w ∙ rw (slot, here) (ground (arith, ne)),
  λ t nz slot.
      retrieve-written client tick t bytes bs w
      ∙ rw
          (get_or-set_ne (ring_of client bs) (tick % max_ticks) (t % max_ticks) entry fresh_entry
            (λ e. slot (sym e)))
          (retrieve-ring_of client t bs w nz),
  λ other t ne. retrieve-other other client tick t bytes bs ne,
)
  where
    entry : Entry
    entry = record { tick = tick; bytes = bytes }

    here :
        get_or (set (ring_of client bs) (tick % max_ticks) entry) (tick % max_ticks) fresh_entry
        ≡ entry
    here =
        get_or-set_self (ring_of client bs) (tick % max_ticks) entry fresh_entry
          (omega (arith, length-ring_of client bs w))

-- Where every ring has its 256 entries, a client that has stored nothing has no tick 0; after it
-- stored one tick of another slot, tick 0 is found, with no bytes.
pub retrieve-phantom :
    (client tick : ℕ) (bytes : List ℕ) (bs : Buffers)
    → AreRings bs
    → lookup client bs ≡ none
    → tick % max_ticks ≢ 0
    → (retrieve client 0 bs ≡ none) × (retrieve client 0 (store client tick bytes bs) ≡ some [])
unfolding retrieve
retrieve-phantom client tick bytes bs w e slot = (
  rw (e, retrieve) refl,
  retrieve-written client tick 0 bytes bs w
      ∙ rw
          (get_or-set_ne (ring_of client bs) (tick % max_ticks) 0
            (record { tick = tick; bytes = bytes }) fresh_entry slot)
          (ap (read 0) (ring_of-fresh client bs e)),
)
