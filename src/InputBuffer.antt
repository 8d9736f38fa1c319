-- ===== src/InputBuffer.antt =====
-- `InputBuffer` of `src/prediction/input_buffer.cpp`: a ring of 256 inputs for each client.
-- A tick is a 16-bit number. `data` is the member `bytes` here, `clear_client` and the destructor's
-- freeing of memory are the removal of the client's entry.
pub mod Window
pub mod Prune
use campello_net.Prelude.{
  ℕ, ◌+◌, ◌-◌, ◌%◌, ◌^◌, Bool, true, false, not, ◌&&◌, Option, none, some, List, [], ◌∷◌, map, ltb,
  leb, ◌==◌, ◌!=◌, if◌then◌else◌, get_or, set, replicate, lookup, insert, erase,
}

-- `InputBuffer::Entry`.
pub record Entry : Type 0 where
  pub tick : ℕ
  pub bytes : List ℕ

abbrev pub max_ticks : ℕ
max_ticks = 256

abbrev pub fresh_entry : Entry
fresh_entry = record { tick = 0; bytes = [] }

-- `buffers_`: no ring is empty once it is made.
abbrev pub Buffers : Type 0
Buffers = List (ℕ × List Entry)

abbrev pub is_empty : List Entry → Bool
is_empty [] = true
is_empty (e ∷ es) = false

-- `auto& buf = buffers_[client]`, resized when it is empty.
abbrev pub ring_of : ℕ → Buffers → List Entry
ring_of client bs = elim (lookup client bs) [
  | none ↦ replicate max_ticks fresh_entry
  | some ring ↦ if is_empty ring then replicate max_ticks fresh_entry else ring
]

unfoldable pub store : ℕ → ℕ → List ℕ → Buffers → Buffers
store client tick bytes bs =
    insert client
      (set (ring_of client bs) (tick % max_ticks) (record { tick = tick; bytes = bytes })) bs

-- The entry of a tick in a ring: `none` is the result `false`.
abbrev pub entry_at : ℕ → List Entry → Option (List ℕ)
entry_at tick ring =
    let e = get_or ring (tick % max_ticks) fresh_entry in
    if is_empty ring then none else if e.tick != tick then none else some e.bytes

unfoldable pub retrieve : ℕ → ℕ → Buffers → Option (List ℕ)
retrieve client tick bs = elim (lookup client bs) [ none ↦ none | some ring ↦ entry_at tick ring ]

unfoldable pub has : ℕ → ℕ → Buffers → Bool
has client tick bs = elim (lookup client bs) [
  | none ↦ false
  | some ring ↦ not (is_empty ring) && ((get_or ring (tick % max_ticks) fresh_entry).tick == tick)
]

-- `static_cast<std::int16_t>(a - b) >= 0`, and `> 0`.
abbrev pub at_or_after : ℕ → ℕ → Bool
at_or_after a b = ltb ((a + 2 ^ 16 - b) % 2 ^ 16) (2 ^ 15)

abbrev pub after : ℕ → ℕ → Bool
after a b = ltb 0 ((a + 2 ^ 16 - b) % 2 ^ 16) && at_or_after a b

unfoldable pub prune_entry : ℕ → Entry → Entry
prune_entry tick e = if (e.tick != 0) && at_or_after tick e.tick then fresh_entry else e

unfoldable pub prune_up_to : ℕ → Buffers → Buffers
prune_up_to tick bs = map (λ b. (b.0, map (prune_entry tick) b.1)) bs

unfoldable pub clear_client : ℕ → Buffers → Buffers
clear_client client bs = erase client bs

-- The loop of `last_received_tick`, with the largest tick so far.
unfoldable pub newest : List Entry → ℕ → ℕ
newest [] max_tick = max_tick
newest (e ∷ es) max_tick =
    newest es (if (e.tick != 0) && after e.tick max_tick then e.tick else max_tick)

unfoldable pub last_received_tick : ℕ → Buffers → ℕ
last_received_tick client bs = elim (lookup client bs) [ none ↦ 0 | some ring ↦ newest ring 0 ]
