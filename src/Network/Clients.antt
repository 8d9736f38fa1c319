-- ===== src/Network/Clients.antt =====
-- The table of clients: its searches, the choice of a new number, and the removals.
use campello_net.Prelude.{
  ℕ, zero, suc, ◌+◌, Bool, false, Option, none, some, List, [], ◌∷◌, ◌==◌, if◌then◌else◌, u64,
  length,
}
use campello_net.RateLimiter.{Floats}
use campello_net.Network.{ClientEntry}

-- Do an entry's address and one that sent something agree? `none` is the default address.
abbrev pub is_address : Option ℕ → ℕ → Bool
is_address none address = false
is_address (some a) address = a == address

module _ ⦃floats : Floats⦄ where
  unfoldable pub find_client_by_id : ℕ → List ClientEntry → Option ClientEntry
  find_client_by_id id [] = none
  find_client_by_id id (c ∷ clients) = if c.id == id then some c else find_client_by_id id clients

  unfoldable pub find_client_by_address : ℕ → List ClientEntry → Option ClientEntry
  find_client_by_address address [] = none
  find_client_by_address address (c ∷ clients) =
      if is_address c.address address then some c else find_client_by_address address clients

  -- The loop of `generate_client_id` from a number on.
  unfoldable pub next_free : (fuel : ℕ) → ℕ → List ClientEntry → ℕ
  next_free zero id clients = id
  next_free (suc n) id clients = elim (find_client_by_id id clients) [
    | none ↦ id
    | some c ↦ next_free n (u64 (id + 1)) clients
  ]

  unfoldable pub generate_client_id : List ClientEntry → ℕ
  generate_client_id clients = next_free (suc (length clients)) 1 clients

  -- `erase(remove_if(id))`.
  unfoldable pub remove_client : ℕ → List ClientEntry → List ClientEntry
  remove_client id [] = []
  remove_client id (c ∷ clients) =
      if c.id == id then remove_client id clients else c ∷ remove_client id clients

  -- `client_count`.
  unfoldable pub client_count : List ClientEntry → ℕ
  client_count [] = 0
  client_count (c ∷ clients) =
      if c.approved then suc (client_count clients) else client_count clients

  -- A write through what `find_client_by_id` or `find_client_by_address` returned.
  unfoldable pub update_by_id :
      ℕ → (ClientEntry → ClientEntry) → List ClientEntry → List ClientEntry
  update_by_id id f [] = []
  update_by_id id f (c ∷ clients) =
      if c.id == id then f c ∷ clients else c ∷ update_by_id id f clients

  unfoldable pub update_by_address :
      ℕ → (ClientEntry → ClientEntry) → List ClientEntry → List ClientEntry
  update_by_address address f [] = []
  update_by_address address f (c ∷ clients) =
      if is_address c.address address
      then f c ∷ clients
      else c ∷ update_by_address address f clients
