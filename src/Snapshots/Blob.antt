-- ===== src/Snapshots/Blob.antt =====
-- The blob of a slot: its spans show the entities that were stored.
use campello_net.Prelude.{
  ℕ, zero, suc, ◌+◌, ◌≤◌, ◌≡◌, refl, ap, ap₂, sym, ◌∙◌, List, [], ◌∷◌, ◌++◌, arith, length, take,
  drop, length-append, append_assoc, append-nil, take-length, drop-append, All, All-append,
}
use campello_net.Snapshots.{Snap, Span, append_entities, bytes_of, views}

-- A span inside the blob.
abbrev pub Fits : List ℕ → Span → Type 0
Fits blob s = s.offset + s.size ≤ length blob

-- A part of a list is not changed by what follows it.
take-drop-append :
    (n o : ℕ) (xs ys : List ℕ) → o + n ≤ length xs → take n (drop o (xs ++ ys)) ≡ take n (drop o xs)
take-drop-append zero o xs ys h = refl
take-drop-append (suc n) zero [] ys h = absurd (omega arith)
take-drop-append (suc n) (suc o) [] ys h = absurd (omega arith)
take-drop-append (suc n) zero (x ∷ xs) ys h =
    ap (◌∷◌ x) (take-drop-append n zero xs ys (omega arith))
take-drop-append (suc n) (suc o) (x ∷ xs) ys h = take-drop-append (suc n) o xs ys (omega arith)

views-grow :
    (blob more : List ℕ) (spans : List Span)
    → All (Fits blob) spans
    → views (blob ++ more) spans ≡ views blob spans
views-grow blob more [] h = refl
views-grow blob more (s ∷ spans) h =
    ap₂ (λ bytes rest. (s.id, bytes) ∷ rest) (take-drop-append s.size s.offset blob more h.0)
      (views-grow blob more spans h.1)

views-append :
    (blob : List ℕ) (xs ys : List Span) → views blob (xs ++ ys) ≡ views blob xs ++ views blob ys
views-append blob [] ys = refl
views-append blob (x ∷ xs) ys = ap (◌∷◌ (x.id, bytes_of blob x)) (views-append blob xs ys)

Fits-grow :
    (blob more : List ℕ) (spans : List Span)
    → All (Fits blob) spans
    → All (Fits (blob ++ more)) spans
Fits-grow blob more [] h = tt
Fits-grow blob more (s ∷ spans) h =
    (omega (arith, h.0, length-append blob more), Fits-grow blob more spans h.1)

-- The span of the last entity.
bytes-last :
    (blob bytes : List ℕ) → take (length bytes) (drop (length blob) (blob ++ bytes)) ≡ bytes
bytes-last blob bytes =
    ap (take (length bytes)) (drop-append blob bytes)
    ∙ take-length (length bytes) bytes (omega arith)

pub views-append_entities :
    (entities : List Snap) (blob : List ℕ) (spans : List Span)
    → All (Fits blob) spans
    → views (append_entities entities blob spans).0 (append_entities entities blob spans).1
      ≡ views blob spans ++ entities
unfolding append_entities
views-append_entities [] blob spans h = sym (append-nil (views blob spans))
views-append_entities ((id, bytes) ∷ entities) blob spans h =
    views-append_entities entities (blob ++ bytes)
      (spans ++ (record { id = id; offset = length blob; size = length bytes } ∷ []))
      (All-append (Fits (blob ++ bytes)) spans _ (Fits-grow blob bytes spans h)
        (omega (arith, length-append blob bytes), tt))
    ∙ ap (λ v. v ++ entities)
        (views-append (blob ++ bytes) spans
            (record { id = id; offset = length blob; size = length bytes } ∷ [])
          ∙ ap₂ (λ v b. v ++ ((id, b) ∷ [])) (views-grow blob bytes spans h)
              (bytes-last blob bytes))
    ∙ append_assoc (views blob spans) ((id, bytes) ∷ []) entities
