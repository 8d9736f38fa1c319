-- ===== src/Snapshots/History.antt =====
-- The ring against the list of all snapshots stored.
use campello_net.Prelude.{
  ℕ, zero, suc, ◌+◌, ◌-◌, ◌%◌, ◌^◌, ◌≤◌, ◌<◌, ◌≡◌, refl, ap, ◌∙◌, false, none, some, List, [], ◌∷◌,
  arith, inl, inr, length, get_elem?, get_or, set, ltb, leb, if◌then◌else◌, u16, min, length-set,
  length-replicate, get_or-set_self, get_or-set_ne, Bool-cases, lt→ltb,
}
use mathlib.Core.Option
use campello_net.Snapshots.{
  Snap, Slot, SnapshotHistory, fresh_slot, fresh_history, max_snapshots, append_entities, store,
  retrieve, view,
}
use campello_net.Snapshots.Blob.{views-append_entities}

-- The history after the snapshots of a list, newest first, with the numbers after `first`.
unfoldable pub history_of : ℕ → List (List Snap) → SnapshotHistory
history_of first [] = fresh_history
history_of first (entities ∷ older) =
    store (u16 (first + suc (length older))) entities (history_of first older)

-- The slot of the snapshot `i` before the newest.
abbrev slot : SnapshotHistory → ℕ → Slot
slot h i = get_or h.snapshots ((h.head + max_snapshots - i) % max_snapshots) fresh_slot

record IsRing (h : SnapshotHistory) : Type 0 where
  size : length h.snapshots ≡ max_snapshots
  head : h.head < max_snapshots

store-IsRing :
    (id : ℕ) (entities : List Snap) (h : SnapshotHistory) → IsRing h → IsRing (store id entities h)
unfolding store
store-IsRing id entities h w = record {
  size = length-set h.snapshots ((h.head + 1) % max_snapshots) _ ∙ w.size;
  head = omega arith;
}

history_of-IsRing : (first : ℕ) (recent : List (List Snap)) → IsRing (history_of first recent)
unfolding history_of
history_of-IsRing first [] = record {
  size = length-replicate max_snapshots fresh_slot;
  head = omega arith;
}
history_of-IsRing first (entities ∷ older) =
    store-IsRing (u16 (first + suc (length older))) entities (history_of first older)
      (history_of-IsRing first older)

-- A store puts its snapshot at the head, and the others one further back.
slot-store-zero :
    (id : ℕ) (entities : List Snap) (h : SnapshotHistory)
    → IsRing h
    → ((slot (store id entities h) 0).id ≡ id) × (view (slot (store id entities h) 0) ≡ entities)
unfolding store
slot-store-zero id entities h w =
    (ap (λ (s : Slot). s.id) whole, ap view whole ∙ views-append_entities entities [] [] tt)
  where
    new : Slot
    new = record {
      id = id;
      blob = (append_entities entities [] []).0;
      entities = (append_entities entities [] []).1;
    }

    whole : slot (store id entities h) 0 ≡ new
    whole =
        ap (λ j. get_or (set h.snapshots ((h.head + 1) % max_snapshots) new) j fresh_slot)
          {y = (h.head + 1) % max_snapshots} (omega arith)
        ∙ get_or-set_self h.snapshots ((h.head + 1) % max_snapshots) new fresh_slot
            (omega (arith, w.size))

slot-store-suc :
    (id : ℕ) (entities : List Snap) (h : SnapshotHistory) (i : ℕ)
    → IsRing h
    → suc i < max_snapshots
    → slot (store id entities h) (suc i) ≡ slot h i
unfolding store
slot-store-suc id entities h i w b =
    get_or-set_ne h.snapshots ((h.head + 1) % max_snapshots)
      (((h.head + 1) % max_snapshots + max_snapshots - suc i) % max_snapshots) _ fresh_slot
      (λ e. absurd (omega (arith, e, w.head, b)))
    ∙ ap (λ j. get_or h.snapshots j fresh_slot) (omega (arith, w.head, b))

count-history_of :
    (first : ℕ) (recent : List (List Snap))
    → (history_of first recent).count ≡ min max_snapshots (length recent)
unfolding history_of store
count-history_of first [] = omega arith
count-history_of first (entities ∷ older) = ground (arith, count-history_of first older)

view-slot :
    (first : ℕ) (recent : List (List Snap)) (i : ℕ)
    → i < length recent
    → i < max_snapshots
    → some (view (slot (history_of first recent) i)) ≡ get_elem? recent i
unfolding history_of
view-slot first [] i a b = absurd (omega (arith, a))
view-slot first (entities ∷ older) zero a b =
    ap some
      (slot-store-zero (u16 (first + suc (length older))) entities (history_of first older)
        (history_of-IsRing first older)).1
view-slot first (entities ∷ older) (suc i) a b =
    ap (λ s. some (view s))
      (slot-store-suc (u16 (first + suc (length older))) entities (history_of first older) i
        (history_of-IsRing first older) b)
    ∙ view-slot first older i (omega arith) (omega arith)

-- The number at the head is that of the newest snapshot.
head_id :
    (first : ℕ) (entities : List Snap) (older : List (List Snap))
    → let h = history_of first (entities ∷ older) in
      (get_or h.snapshots h.head fresh_slot).id ≡ u16 (first + suc (length older))
unfolding history_of
head_id first entities older =
    ap (λ j. (get_or h.snapshots j fresh_slot).id)
      {y = (h.head + max_snapshots - 0) % max_snapshots}
      (omega (arith, (history_of-IsRing first (entities ∷ older)).head))
    ∙ (slot-store-zero (u16 (first + suc (length older))) entities (history_of first older)
        (history_of-IsRing first older)).0
  where
    h : SnapshotHistory
    h = history_of first (entities ∷ older)

get_elem-none : {A : Type 0} (xs : List A) (i : ℕ) → length xs ≤ i → get_elem? xs i ≡ none
get_elem-none [] i h = refl
get_elem-none (x ∷ xs) zero h = absurd (omega arith)
get_elem-none (x ∷ xs) (suc i) h = get_elem-none xs i (omega arith)

-- `retrieve`, given the distance from the number at the head.
retrieve-delta :
    (snapshot_id i : ℕ) (h : SnapshotHistory)
    → 0 < h.count
    → u16 ((get_or h.snapshots h.head fresh_slot).id + 2 ^ 16 - snapshot_id) ≡ i
    → retrieve snapshot_id h ≡ (if leb h.count i then none else some (slot h i))
unfolding retrieve
retrieve-delta snapshot_id i h p e = rw (e) (ground arith)

-- The slot, where it is within the count, is the snapshot of the list.
view-found :
    (first : ℕ) (recent : List (List Snap)) (i : ℕ)
    → Option.map view (
        if leb (history_of first recent).count i
        then none
        else some (slot (history_of first recent) i))
      ≡ (if ltb i max_snapshots then get_elem? recent i else none)
view-found first recent i = elim (Bool-cases (leb (history_of first recent).count i)) [
  | inl far ↦ rw far (ground (arith, count-history_of first recent, get_elem-none recent i, far))
  | inr near ↦ rw near (
      view-slot first recent i (bounds near).0 (bounds near).1
      ∙ rw (lt→ltb i max_snapshots (bounds near).1) refl)
]
  where
    bounds :
        leb (history_of first recent).count i ≡ false → (i < length recent) × (i < max_snapshots)
    bounds near = ground (arith, count-history_of first recent, near)

-- After snapshots with consecutive 16-bit numbers, the ring returns each of the last 128 of them by
-- its number, with exactly the entities and bytes that were stored, across the wrap of the numbers;
-- every other number is not found.
pub retrieve-history_of :
    (first : ℕ) (recent : List (List Snap)) (i : ℕ)
    → i < 2 ^ 16
    → Option.map view
        (retrieve (u16 (u16 (first + length recent) + 2 ^ 16 - i)) (history_of first recent))
      ≡ (if ltb i max_snapshots then get_elem? recent i else none)
unfolding history_of retrieve
retrieve-history_of first [] i small = ground arith
retrieve-history_of first (entities ∷ older) i small =
    ap (Option.map view) (
      retrieve-delta (u16 (u16 (first + suc (length older)) + 2 ^ 16 - i)) i
        (history_of first (entities ∷ older))
        (omega (arith, count-history_of first (entities ∷ older)))
        (omega (arith, head_id first entities older)))
    ∙ view-found first (entities ∷ older) i
