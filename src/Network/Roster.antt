-- ===== src/Network/Roster.antt =====
-- The well-formed table of clients, as far as their numbers, addresses and approval go.
pub mod Received
pub mod Admission
use campello_net.Prelude.{
  ℕ, zero, suc, ◌+◌, ◌≤◌, ◌<◌, ◌^◌, ◌≡◌, ◌≢◌, refl, ap, ap₂, sym, subst, ◌∙◌, arith, Bool, true,
  false, Option, none, some, List, [], ◌∷◌, ◌++◌, map, u64, ltb, ◌==◌, inl, inr, Bool-cases,
  Option-cases, if◌then◌else◌, length, All, All-append,
}
use campello_net.RateLimiter.{Floats}
use campello_net.Network.{ClientEntry}
use campello_net.Network.Clients.{
  is_address, find_client_by_id, find_client_by_address, next_free, generate_client_id,
  remove_client, client_count, update_by_id, update_by_address,
}

-- What the table is searched by.
pub record Key : Type 0 where
  pub id : ℕ
  pub address : Option ℕ
  pub approved : Bool

-- Two entries that no packet's sender can be confused between.
abbrev pub IsApart : Option ℕ → Option ℕ → Type 0
IsApart none b = Unit
IsApart (some a) none = Unit
IsApart (some a) (some b) = a ≢ b

-- Every entry is approved, none has the number 0, and no two have the same number or address.
abbrev pub IsRoster : List Key → Type 0
IsRoster [] = Unit
IsRoster (k ∷ ks) =
    (k.approved ≡ true)
    × (k.id ≢ 0)
    × All (λ j. k.id ≢ j.id) ks
    × All (λ j. IsApart k.address j.address) ks
    × IsRoster ks

is_address-IsApart :
    (a : Option ℕ) (address : ℕ) → is_address a address ≡ false → IsApart a (some address)
is_address-IsApart none address e = tt
is_address-IsApart (some a) address e = ground (arith, e)

module _ ⦃floats : Floats⦄ where
  abbrev pub key : ClientEntry → Key
  key c = record { id = c.id; address = c.address; approved = c.approved }

  abbrev pub keys : List ClientEntry → List Key
  keys [] = []
  keys (c ∷ clients) = key c ∷ keys clients

  pub keys-append : (cs ds : List ClientEntry) → keys (cs ++ ds) ≡ keys cs ++ keys ds
  keys-append [] ds = refl
  keys-append (c ∷ cs) ds = ap (◌∷◌ (key c)) (keys-append cs ds)

  -- A search that finds nothing.
  pub unused_id :
      (id : ℕ) (cs : List ClientEntry)
      → find_client_by_id id cs ≡ none
      → All (λ (k : Key). k.id ≢ id) (keys cs)
  unfolding find_client_by_id
  unused_id id [] e = tt
  unused_id id (c ∷ cs) e = (ground arith, unused_id id cs (ground arith))

  pub unused_address :
      (address : ℕ) (cs : List ClientEntry)
      → find_client_by_address address cs ≡ none
      → All (λ (k : Key). IsApart k.address (some address)) (keys cs)
  unfolding find_client_by_address
  unused_address address [] e = tt
  unused_address address (c ∷ cs) e = (
    ground (arith, is_address-IsApart c.address address),
    ground (arith, unused_address address cs),
  )

  -- A search that finds an entry of a well-formed table.
  pub found_approved :
      (address : ℕ) (cs : List ClientEntry) (c : ClientEntry)
      → IsRoster (keys cs)
      → find_client_by_address address cs ≡ some c
      → c.approved ≡ true
  unfolding find_client_by_address
  found_approved address [] c w e = ground arith
  found_approved address (d ∷ cs) c w e = ground (arith, found_approved address cs c, w.0, w.4)

  -- How many of the entries have a number from `id` on.
  unfoldable above : ℕ → List ClientEntry → ℕ
  above id [] = 0
  above id (c ∷ cs) = if ltb c.id id then above id cs else suc (above id cs)

  above_le : (id : ℕ) (cs : List ClientEntry) → above id cs ≤ length cs
  unfolding above
  above_le id [] = omega arith
  above_le id (c ∷ cs) = ground (arith, above_le id cs)

  above_step : (id : ℕ) (cs : List ClientEntry) → above (suc id) cs ≤ above id cs
  unfolding above
  above_step id [] = omega arith
  above_step id (c ∷ cs) = ground (arith, above_step id cs)

  -- A number in use is passed once.
  above_used :
      (id : ℕ) (cs : List ClientEntry) (c : ClientEntry)
      → find_client_by_id id cs ≡ some c
      → above (suc id) cs < above id cs
  unfolding above find_client_by_id
  above_used id [] c e = ground arith
  above_used id (d ∷ cs) c e = ground (arith, above_step id cs, above_used id cs c)

  -- With fuel for the numbers in use from `id` on, the loop ends at the first that is not.
  next_free-unused :
      (n id : ℕ) (cs : List ClientEntry)
      → above id cs < n
      → id + above id cs < 2 ^ 64
      → (find_client_by_id (next_free n id cs) cs ≡ none)
        × (id ≤ next_free n id cs)
        × (next_free n id cs ≤ id + above id cs)
  unfolding next_free
  next_free-unused zero id cs h w = absurd (omega arith)
  next_free-unused (suc n) id cs h w = elim (Option-cases (find_client_by_id id cs)) [
    | inl e ↦
        let here : next_free (suc n) id cs ≡ id = rw (e, next_free) refl in
        rw here (e, omega arith, omega arith)
    | inr (c, e) ↦
        let less = above_used id cs c e in
        let step : u64 (id + 1) ≡ suc id = omega arith in
        let there : next_free (suc n) id cs ≡ next_free n (suc id) cs =
          rw (e, next_free) (ap (λ k. next_free n k cs) step) in
        let rest = next_free-unused n (suc id) cs (omega (arith, less)) (omega (arith, less)) in
        rw there (rest.0, omega (arith, rest.1), omega (arith, rest.2, less))
  ]

  -- The loop of `generate_client_id` ends within one pass more than there are clients: the number
  -- that it returns belongs to no client, is not 0, and is at most one more than the number of
  -- clients, for fewer than 2^64 - 1 clients.
  pub generate_client_id-unused :
      (cs : List ClientEntry)
      → length cs + 1 < 2 ^ 64
      → (find_client_by_id (generate_client_id cs) cs ≡ none)
        × (1 ≤ generate_client_id cs)
        × (generate_client_id cs ≤ length cs + 1)
  unfolding generate_client_id
  generate_client_id-unused cs w =
      let free =
        next_free-unused (suc (length cs)) 1 cs (omega (arith, above_le 1 cs))
          (omega (arith, above_le 1 cs)) in
      (free.0, free.1, omega (arith, free.2, above_le 1 cs))

  -- A new entry with an unused number and address.
  pub append-IsRoster :
      (k : Key) (ks : List Key)
      → IsRoster ks
      → k.approved ≡ true
      → k.id ≢ 0
      → All (λ j. j.id ≢ k.id) ks
      → All (λ j. IsApart j.address k.address) ks
      → IsRoster (ks ++ (k ∷ []))
  append-IsRoster k [] w a z f g = (a, z, tt, tt, tt)
  append-IsRoster k (j ∷ ks) w a z f g = (
    w.0,
    w.1,
    All-append (λ i. j.id ≢ i.id) ks (k ∷ []) w.2 (f.0, tt),
    All-append (λ i. IsApart j.address i.address) ks (k ∷ []) w.3 (g.0, tt),
    append-IsRoster k ks w.4 a z f.1 g.1,
  )

  remove-All :
      (P : Key → Type 0) (id : ℕ) (cs : List ClientEntry)
      → All P (keys cs)
      → All P (keys (remove_client id cs))
  unfolding remove_client
  remove-All P id [] w = tt
  remove-All P id (c ∷ cs) w = elim (Bool-cases (c.id == id)) [
    | inl e ↦ rw e (remove-All P id cs w.1)
    | inr e ↦ rw e (w.0, remove-All P id cs w.1)
  ]

  pub remove-IsRoster :
      (id : ℕ) (cs : List ClientEntry) → IsRoster (keys cs) → IsRoster (keys (remove_client id cs))
  unfolding remove_client
  remove-IsRoster id [] w = tt
  remove-IsRoster id (c ∷ cs) w = elim (Bool-cases (c.id == id)) [
    | inl e ↦ rw e (remove-IsRoster id cs w.4)
    | inr e ↦ rw e (
      w.0,
      w.1,
      remove-All (λ j. c.id ≢ j.id) id cs w.2,
      remove-All (λ j. IsApart c.address j.address) id cs w.3,
      remove-IsRoster id cs w.4,
    )
  ]

  pub remove-count :
      (id : ℕ) (cs : List ClientEntry) → client_count (remove_client id cs) ≤ client_count cs
  unfolding remove_client client_count
  remove-count id [] = omega arith
  remove-count id (c ∷ cs) = ground (arith, remove-count id cs)

  -- All clients count.
  pub count_all : (cs : List ClientEntry) → IsRoster (keys cs) → client_count cs ≡ length cs
  unfolding client_count
  count_all [] w = refl
  count_all (c ∷ cs) w = rw w.0 (ap suc (count_all cs w.4))

  -- The writes that keep an entry's key.
  pub keys-update_by_id :
      (id : ℕ) (f : ClientEntry → ClientEntry) (cs : List ClientEntry)
      → ((c : ClientEntry) → key (f c) ≡ key c)
      → keys (update_by_id id f cs) ≡ keys cs
  unfolding update_by_id
  keys-update_by_id id f [] h = refl
  keys-update_by_id id f (c ∷ cs) h = elim (Bool-cases (c.id == id)) [
    | inl e ↦ rw e (ap (λ k. k ∷ keys cs) (h c))
    | inr e ↦ rw e (ap (◌∷◌ (key c)) (keys-update_by_id id f cs h))
  ]

  pub keys-update_by_address :
      (address : ℕ) (f : ClientEntry → ClientEntry) (cs : List ClientEntry)
      → ((c : ClientEntry) → key (f c) ≡ key c)
      → keys (update_by_address address f cs) ≡ keys cs
  unfolding update_by_address
  keys-update_by_address address f [] h = refl
  keys-update_by_address address f (c ∷ cs) h = elim (Bool-cases (is_address c.address address)) [
    | inl e ↦ rw e (ap (λ k. k ∷ keys cs) (h c))
    | inr e ↦ rw e (ap (◌∷◌ (key c)) (keys-update_by_address address f cs h))
  ]

  length-keys : (cs : List ClientEntry) → length (keys cs) ≡ length cs
  length-keys [] = refl
  length-keys (c ∷ cs) = ap suc (length-keys cs)

  -- Tables with the same keys have as many clients.
  pub count_keys :
      (cs ds : List ClientEntry)
      → keys ds ≡ keys cs
      → IsRoster (keys cs)
      → client_count ds ≡ client_count cs
  count_keys cs ds e w =
      count_all ds (subst IsRoster (sym e) w)
      ∙ sym (length-keys ds)
      ∙ ap length e
      ∙ length-keys cs
      ∙ sym (count_all cs w)

  pub keys-map :
      (f : ClientEntry → ClientEntry) (cs : List ClientEntry)
      → ((c : ClientEntry) → key (f c) ≡ key c)
      → keys (map f cs) ≡ keys cs
  keys-map f [] h = refl
  keys-map f (c ∷ cs) h = ap₂ (◌∷◌) (h c) (keys-map f cs h)
