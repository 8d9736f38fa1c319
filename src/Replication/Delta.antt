-- ===== src/Replication/Delta.antt =====
-- A snapshot's message, read back.
use campello_net.Prelude.{
  ℕ, suc, ◌<◌, ◌^◌, ◌≡◌, refl, ap, ap₂, ◌∙◌, arith, List, [], ◌∷◌, ◌++◌, ltb, if_false, le→ltb, u8,
  u16, ◌>>◌, length, length-append, take, drop, take-length, take-append, drop-append, All,
}
use native.Mathlib.Nat.{mod-eq_of_lt}
use campello_net.Bytes.{read_u16_be, write_u16_be, write_u64_be, read-write_u16, read-write_u64}
use campello_net.Snapshots.{Snap}
use campello_net.Network.{read_u64}
use campello_net.Replication.{
  Manager, entity_bytes, all_entity_bytes, snapshot_payload, parse_entities, track, deliver,
  on_receive_delta,
}

-- Entities with numbers of 64 bits and at most 65535 bytes each.
abbrev pub Fit : List Snap → Type 0
Fit = All (λ e. (e.0 < 2 ^ 64) × (length (e.1) < 2 ^ 16))

parse-entity :
    (n id : ℕ) (bytes rest : List ℕ)
    → id < 2 ^ 64
    → length bytes < 2 ^ 16
    → parse_entities (suc n) (entity_bytes (id, bytes) ++ rest)
      ≡ (id, bytes) ∷ parse_entities n rest
unfolding parse_entities entity_bytes write_u64_be write_u16_be read_u64
parse-entity n id bytes rest h g =
    if_false _ _ (ltb (length (entity_bytes (id, bytes) ++ rest)) 10)
      (le→ltb (length (entity_bytes (id, bytes) ++ rest)) 10 (omega arith))
    ∙ if_false _ _ (ltb (length (cut ++ rest)) size) (
        le→ltb (length (cut ++ rest)) size
          (omega (arith, size_len, ap length whole, length-append cut rest)))
    ∙ ap₂ (λ x y. x ∷ parse_entities n y) (ap₂ (λ i b. (i, b)) (read-write_u64 id h) front) back
  where
    cut : List ℕ
    cut = take (u16 (length bytes)) bytes

    size : ℕ
    size = read_u16_be (u8 (u16 (length bytes) >> 8)) (u8 (u16 (length bytes)))

    size_len : size ≡ length bytes
    size_len =
        ap (λ n. read_u16_be (u8 (n >> 8)) (u8 n)) (mod-eq_of_lt g)
        ∙ read-write_u16 (length bytes) g

    whole : cut ≡ bytes
    whole = ap (λ k. take k bytes) (mod-eq_of_lt g) ∙ take-length (length bytes) bytes (omega arith)

    front : take size (cut ++ rest) ≡ bytes
    front = ap₂ (λ k c. take k (c ++ rest)) size_len whole ∙ take-append bytes rest

    back : drop size (cut ++ rest) ≡ rest
    back = ap₂ (λ k c. drop k (c ++ rest)) size_len whole ∙ drop-append bytes rest

parse-all :
    (entities : List Snap)
    → Fit entities
    → parse_entities (length entities) (all_entity_bytes entities) ≡ entities
unfolding all_entity_bytes parse_entities
parse-all [] w = refl
parse-all ((id, bytes) ∷ entities) w =
    parse-entity (length entities) id bytes (all_entity_bytes entities) (w.0).0 (w.0).1
    ∙ ap (◌∷◌ (id, bytes)) (parse-all entities w.1)

-- A client that receives the message of a snapshot, behind its three system bytes, delivers exactly
-- the entities that the server put into it, in their order, under the snapshot's number, once it has
-- noted the number; for fewer than 65536 entities of at most 65535 bytes each.
pub on_receive_delta-snapshot_payload :
    (snapshot_id : ℕ) (entities : List Snap) (m : Manager)
    → snapshot_id < 2 ^ 16
    → length entities < 2 ^ 16
    → Fit entities
    → on_receive_delta (snapshot_payload snapshot_id entities) m
      ≡ deliver snapshot_id entities (track snapshot_id m)
unfolding on_receive_delta snapshot_payload write_u16_be
on_receive_delta-snapshot_payload snapshot_id entities m h g w =
    if_false _ _ (ltb (length (snapshot_payload snapshot_id entities)) 4)
      (le→ltb (length (snapshot_payload snapshot_id entities)) 4 (omega arith))
    ∙ ap₂ (λ s n. deliver s (parse_entities n (all_entity_bytes entities)) (track s m))
        (read-write_u16 snapshot_id h) (read-write_u16 (length entities) g)
    ∙ ap (λ es. deliver snapshot_id es (track snapshot_id m)) (parse-all entities w)
