-- ===== src/Replication/Selection/Recovery.antt =====
-- What a client can make of the entities of `build_and_send_snapshot`.
use campello_net.Prelude.{
  ℕ, ◌≡◌, refl, ap, ap₂, sym, subst, ◌∙◌, arith, Bool, true, false, not, Option, none, some, List,
  [], ◌∷◌, ◌==◌, ==_iff, if◌then◌else◌, if_true, if_false, All, lookup, Bool-cases, inl, inr,
}
use campello_net.Snapshots.{Snap}
use campello_net.Replication.{ClientReplicationState}
use campello_net.Replication.Selection.{
  same_bytes, changed, hidden, newly_visible, look, select, delta_each, full_each, client_entities,
}

-- An entity's bytes among some entities, or else among others.
unfoldable pub or_else : Option (List ℕ) → Option (List ℕ) → Option (List ℕ)
or_else none other = other
or_else (some bytes) other = some bytes

abbrev pub IsDistinct : List Snap → Type 0
IsDistinct [] = Unit
IsDistinct (e ∷ snap) = (lookup (e.0) snap ≡ none) × IsDistinct snap

same_bytes-lem : (xs ys : List ℕ) → same_bytes xs ys ≡ true → xs ≡ ys
unfolding same_bytes
same_bytes-lem [] [] h = refl
same_bytes-lem [] (y ∷ ys) h = ground arith
same_bytes-lem (x ∷ xs) [] h = ground arith
same_bytes-lem (x ∷ xs) (y ∷ ys) h = ap₂ (◌∷◌) (ground arith) (same_bytes-lem xs ys (ground arith))

-- An entity that did not change is in the baseline.
in_baseline :
    (o : Option (List ℕ)) (bytes : List ℕ)
    → elim o [ none ↦ true | some base ↦ not (same_bytes base bytes) ] ≡ false
    → o ≡ some bytes
in_baseline none bytes h = ground arith
in_baseline (some base) bytes h = ap some (same_bytes-lem base bytes (ground arith))

unchanged :
    (baseline : List Snap) (cur : Snap)
    → changed baseline cur ≡ false
    → lookup (cur.0) baseline ≡ some (cur.1)
unfolding changed
unchanged baseline (id, bytes) h = in_baseline (lookup id baseline) bytes h

-- An entity in front of the rest, if a test holds.
All-kept :
    (P : Snap → Type 0) (b : Bool) (cur : Snap) (rest : List ℕ × List Snap)
    → (b ≡ true → P cur)
    → All P rest.1
    → All P (if b then (rest.0, cur ∷ rest.1) else rest).1
All-kept P true cur rest h w = (h refl, w)
All-kept P false cur rest h w = w

delta_each-visible :
    (baseline : List Snap) (f : ℕ → ℕ → Bool) (client : ℕ) (snap : List Snap) (visible : List ℕ)
    → All (λ e. f (e.0) client ≡ true) (delta_each baseline (some f) client snap visible).1
unfolding delta_each hidden
delta_each-visible baseline f client [] visible = tt
delta_each-visible baseline f client (cur ∷ snap) visible =
    All-kept _ _ cur _ (λ h. ground (arith, h))
      (delta_each-visible baseline f client snap (look (some f) client (cur.0) visible))

full_each-visible :
    (f : ℕ → ℕ → Bool) (client : ℕ) (snap : List Snap) (visible : List ℕ)
    → All (λ e. f (e.0) client ≡ true) (full_each (some f) client snap visible).1
unfolding full_each hidden
full_each-visible f client [] visible = tt
full_each-visible f client (cur ∷ snap) visible =
    All-kept _ _ cur _ (λ h. ground (arith, h))
      (full_each-visible f client snap (look (some f) client (cur.0) visible))

-- Under an interest filter no entity that the filter hides from a client is sent to it, in a full
-- snapshot or as a delta.
pub client_entities-visible :
    (baseline : Option (List Snap)) (f : ℕ → ℕ → Bool) (client : ℕ) (s : ClientReplicationState)
    (snap : List Snap)
    → All (λ e. f (e.0) client ≡ true) (client_entities baseline (some f) client s snap).1
unfolding client_entities select
client_entities-visible none f client s snap = full_each-visible f client snap s.visible_entities
client_entities-visible (some baseline) f client s snap =
    delta_each-visible baseline f client snap s.visible_entities

full_each-all :
    (client : ℕ) (snap : List Snap) (visible : List ℕ)
    → (full_each none client snap visible).1 ≡ snap
unfolding full_each hidden look
full_each-all client [] visible = refl
full_each-all client (cur ∷ snap) visible = ap (◌∷◌ cur) (full_each-all client snap visible)

kept_second :
    (b : Bool) (cur : Snap) (rest : List ℕ × List Snap)
    → (if b then (rest.0, cur ∷ rest.1) else rest).1 ≡ (if b then cur ∷ rest.1 else rest.1)
kept_second true cur rest = refl
kept_second false cur rest = refl

abbrev delta : List Snap → ℕ → List Snap → List ℕ → List Snap
delta baseline client snap visible = (delta_each baseline none client snap visible).1

-- Without a filter, the delta of one entity more.
delta_pass :
    (baseline : List Snap) (client : ℕ) (cur : Snap) (snap : List Snap) (visible : List ℕ)
    → delta baseline client (cur ∷ snap) visible ≡ (
        if changed baseline cur
        then cur ∷ delta baseline client snap visible
        else delta baseline client snap visible)
unfolding delta_each hidden newly_visible look
delta_pass baseline client cur snap visible =
    kept_second (changed baseline cur) cur (delta_each baseline none client snap visible)

lookup_front :
    (k : ℕ) (cur : Snap) (snap : List Snap) (b : Bool)
    → (cur.0 == k) ≡ false
    → lookup k (if b then cur ∷ snap else snap) ≡ lookup k snap
unfolding lookup
lookup_front k (j, v) snap true h = if_false _ _ (j == k) h
lookup_front k cur snap false h = refl

lookup_same :
    (k : ℕ) (cur : Snap) (snap : List Snap)
    → (cur.0 == k) ≡ true
    → lookup k (cur ∷ snap) ≡ some (cur.1)
unfolding lookup
lookup_same k (j, v) snap h = if_true _ _ (j == k) h

lookup-delta :
    (baseline : List Snap) (client k : ℕ) (snap : List Snap) (visible : List ℕ)
    → lookup k snap ≡ none
    → lookup k (delta baseline client snap visible) ≡ none
unfolding delta_each
lookup-delta baseline client k [] visible h = h
lookup-delta baseline client k (cur ∷ snap) visible h = elim (Bool-cases (cur.0 == k)) [
  | inl e ↦ absurd (ground (arith, sym h ∙ lookup_same k cur snap e))
  | inr e ↦
      ap (lookup k) (delta_pass baseline client cur snap visible)
      ∙ lookup_front k cur (delta baseline client snap visible) (changed baseline cur) e
      ∙ lookup-delta baseline client k snap visible (sym (lookup_front k cur snap true e) ∙ h)
]

delta-recovers :
    (baseline : List Snap) (client k : ℕ) (snap : List Snap) (visible : List ℕ)
    → IsDistinct snap
    → or_else (lookup k (delta baseline client snap visible)) (lookup k baseline)
      ≡ or_else (lookup k snap) (lookup k baseline)
unfolding delta_each or_else
delta-recovers baseline client k [] visible w = refl
delta-recovers baseline client k (cur ∷ snap) visible w = elim (Bool-cases (cur.0 == k)) [
  | inl e ↦
      let same : cur.0 ≡ k = (==_iff (cur.0) k).0 e in
      ap (λ o. or_else (lookup k o) (lookup k baseline))
        (delta_pass baseline client cur snap visible)
      ∙ elim (Bool-cases (changed baseline cur)) [
        | inl c ↦
            ap (λ o. or_else (lookup k o) (lookup k baseline))
              (if_true _ _ (changed baseline cur) c)
            ∙ ap (λ o. or_else o (lookup k baseline))
                (lookup_same k cur (delta baseline client snap visible) e
                  ∙ sym (lookup_same k cur snap e))
        | inr c ↦
            ap (λ o. or_else (lookup k o) (lookup k baseline))
              (if_false _ _ (changed baseline cur) c)
            ∙ ap (λ o. or_else o (lookup k baseline))
                (lookup-delta baseline client k snap visible
                  (subst (λ j. lookup j snap ≡ none) same w.0))
            ∙ subst (λ j. lookup j baseline ≡ some (cur.1)) same (unchanged baseline cur c)
            ∙ sym (ap (λ o. or_else o (lookup k baseline)) (lookup_same k cur snap e))
      ]
  | inr e ↦
      ap (λ o. or_else (lookup k o) (lookup k baseline))
        (delta_pass baseline client cur snap visible)
      ∙ ap (λ o. or_else o (lookup k baseline))
          (lookup_front k cur (delta baseline client snap visible) (changed baseline cur) e)
      ∙ delta-recovers baseline client k snap visible w.1
      ∙ sym (ap (λ o. or_else o (lookup k baseline)) (lookup_front k cur snap true e))
]

-- Without an interest filter, where no entity stands in the current snapshot twice: a client without
-- a baseline is sent that snapshot whole; and one that takes each entity's bytes from what it is sent,
-- and else from its baseline, has the bytes that it would have from the whole snapshot.
pub client_entities-recovers :
    (baseline : List Snap) (client : ℕ) (s : ClientReplicationState) (snap : List Snap) (k : ℕ)
    → IsDistinct snap
    → ((client_entities none none client s snap).1 ≡ snap)
      × (or_else
            (lookup k (client_entities (some baseline) none client s snap).1)
            (lookup k baseline)
          ≡ or_else (lookup k snap) (lookup k baseline))
unfolding client_entities select
client_entities-recovers baseline client s snap k w = (
  full_each-all client snap s.visible_entities,
  delta-recovers baseline client k snap s.visible_entities w,
)
