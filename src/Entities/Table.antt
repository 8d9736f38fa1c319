-- ===== src/Entities/Table.antt =====
-- The entities of a table with their prefabs, and the bound on their numbers.
use campello_net.Prelude.{
  ℕ, ◌≤◌, ◌<◌, ◌≡◌, refl, none, some, List, [], ◌∷◌, arith, inl, inr, lookup, insert, erase,
  is_some, All, Bool-cases, ◌==◌,
}
use campello_net.Entities.{Entity}

-- The entities of a table, each with its prefab.
abbrev pub prefabs : List (ℕ × Entity) → List (ℕ × ℕ)
prefabs [] = []
prefabs ((k, e) ∷ m) = (k, e.prefab_id) ∷ prefabs m

-- Every key is below `n`.
abbrev pub Below : ℕ → List (ℕ × Entity) → Type 0
Below n m = All (λ p. p.0 < n) m

pub lookup-Below :
    (n k : ℕ) (e : Entity) (m : List (ℕ × Entity)) → Below n m → lookup k m ≡ some e → k < n
unfolding lookup
lookup-Below n k e [] b h = cc
lookup-Below n k e ((j, d) ∷ m) b h = ground (arith, lookup-Below n k e m b.1)

pub lookup-above : (n k : ℕ) (m : List (ℕ × Entity)) → Below n m → n ≤ k → lookup k m ≡ none
unfolding lookup
lookup-above n k [] b h = refl
lookup-above n k ((j, d) ∷ m) b h = ground (arith, b.0, lookup-above n k m b.1 h)

pub weaken : (n n' : ℕ) (m : List (ℕ × Entity)) → n ≤ n' → Below n m → Below n' m
weaken n n' [] h b = tt
weaken n n' ((j, d) ∷ m) h b = (omega (arith, b.0), weaken n n' m h b.1)

pub insert-Below :
    (n k : ℕ) (e : Entity) (m : List (ℕ × Entity)) → k < n → Below n m → Below n (insert k e m)
unfolding insert
insert-Below n k e [] h b = (h, tt)
insert-Below n k e ((j, d) ∷ m) h b = elim (Bool-cases (j == k)) [
  | inl hit ↦ rw hit (h, b.1)
  | inr miss ↦ rw miss (b.0, insert-Below n k e m h b.1)
]

pub erase-Below : (n k : ℕ) (m : List (ℕ × Entity)) → Below n m → Below n (erase k m)
unfolding erase
erase-Below n k [] b = tt
erase-Below n k ((j, d) ∷ m) b = elim (Bool-cases (j == k)) [
  | inl hit ↦ rw hit b.1
  | inr miss ↦ rw miss (b.0, erase-Below n k m b.1)
]

-- The prefabs of a table after each change of it.
pub prefabs-insert :
    (k : ℕ) (e : Entity) (m : List (ℕ × Entity))
    → prefabs (insert k e m) ≡ insert k e.prefab_id (prefabs m)
unfolding insert
prefabs-insert k e [] = refl
prefabs-insert k e ((j, d) ∷ m) = ground (arith, prefabs-insert k e m)

pub prefabs-erase : (k : ℕ) (m : List (ℕ × Entity)) → prefabs (erase k m) ≡ erase k (prefabs m)
unfolding erase
prefabs-erase k [] = refl
prefabs-erase k ((j, d) ∷ m) = ground (arith, prefabs-erase k m)

pub prefabs-lookup :
    (k : ℕ) (m : List (ℕ × Entity)) → is_some (lookup k (prefabs m)) ≡ is_some (lookup k m)
unfolding lookup
prefabs-lookup k [] = refl
prefabs-lookup k ((j, d) ∷ m) = ground (arith, prefabs-lookup k m)

pub prefabs-owner :
    (k owner : ℕ) (e : Entity) (m : List (ℕ × Entity))
    → lookup k m ≡ some e
    → prefabs (insert k (record e { owner_id = owner }) m) ≡ prefabs m
unfolding lookup insert
prefabs-owner k owner e [] h = cc
prefabs-owner k owner e ((j, d) ∷ m) h = ground (arith, prefabs-owner k owner e m)
