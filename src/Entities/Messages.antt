-- ===== src/Entities/Messages.antt =====
-- The spawn and destroy messages: what a client reads from the bytes that the server wrote.
use campello_net.Prelude.{
  ℕ, ◌+◌, ◌<◌, ◌^◌, ◌≡◌, refl, ap, ◌∙◌, true, false, ◌==◌, ◌&&◌, none, some, List, arith, ltb, leb,
  if◌then◌else◌, u8, u16, ◌>>◌, length, take, drop, take-length, get_or, lookup, is_some, le→ltb,
}
use native.Mathlib.Nat.{mod-eq_of_lt}
use campello_net.Bytes.{
  read_u16_be, write_u16_be, write_u32_be, write_u64_be, read-write_u16, read-write_u32,
  read-write_u64,
}
use campello_net.Entities.{
  Bridge, Manager, at_limit, spawn_message, destroy_message, add_entity, remove_entity,
  on_receive_spawn, on_receive_destroy, on_receive_set_owner,
}

module _ ⦃bridge : Bridge⦄ where
  -- The entity messages of `process_system_message`, behind the test of the magic bytes in `poll`.
  unfoldable pub receive : List ℕ → Manager → Manager
  receive bytes m =
      if leb 3 (length bytes) && (get_or bytes 0 0 == 0xCA) && (get_or bytes 1 0 == 0xFE)
      then (if get_or bytes 2 0 == 0x10
          then on_receive_spawn (drop 3 bytes) m
          else if get_or bytes 2 0 == 0x11
          then on_receive_destroy (drop 3 bytes) m
          else if get_or bytes 2 0 == 0x12
          then on_receive_set_owner (drop 3 bytes) m
          else m)
      else m

  -- `on_receive_spawn` behind its first test, on the three fields as they were read.
  read_spawn : ℕ → ℕ → ℕ → ℕ → List ℕ → Manager → Manager
  read_spawn size net_id prefab init_len rest m =
      if ltb size (14 + init_len)
      then m
      else if is_some (lookup net_id m.entities)
      then m
      else if at_limit m
      then m
      else add_entity prefab net_id (take init_len rest) m

  receive-read_spawn :
      (net_id prefab : ℕ) (init_data : List ℕ) (m : Manager)
      → net_id < 2 ^ 64
      → prefab < 2 ^ 32
      → length init_data < 2 ^ 16
      → receive (spawn_message net_id prefab init_data) m
        ≡ read_spawn (14 + length init_data) net_id prefab (length init_data) init_data m
  unfolding receive spawn_message on_receive_spawn write_u64_be write_u32_be write_u16_be read_spawn
  receive-read_spawn net_id prefab init_data m wi wp wl =
      rw (magic, size)
        (λ i.
          read_spawn (bytes i) (read-write_u64 net_id wi i) (read-write_u32 prefab wp i) (len i)
            init_data m)
    where
      len :
          read_u16_be (u8 (u16 (length init_data) >> 8)) (u8 (u16 (length init_data)))
          ≡ length init_data
      len = ap (λ n. read_u16_be (u8 (n >> 8)) (u8 n)) (mod-eq_of_lt wl) ∙ read-write_u16 _ wl

      bytes : length (drop 3 (spawn_message net_id prefab init_data)) ≡ 14 + length init_data
      bytes = omega arith

      size : ltb (length (drop 3 (spawn_message net_id prefab init_data))) 14 ≡ false
      size = le→ltb _ 14 (omega arith)

      magic : leb 3 (length (spawn_message net_id prefab init_data)) ≡ true
      magic = ground arith

  -- A spawn message whose number, prefab and length of data fit their 64, 32 and 16 bits adds exactly
  -- the entity that it announces, with its data, unless the client has it or is full.
  pub receive-spawn_message :
      (net_id prefab : ℕ) (init_data : List ℕ) (m : Manager)
      → net_id < 2 ^ 64
      → prefab < 2 ^ 32
      → length init_data < 2 ^ 16
      → receive (spawn_message net_id prefab init_data) m ≡ (
          if is_some (lookup net_id m.entities)
          then m
          else if at_limit m
          then m
          else add_entity prefab net_id init_data m)
  unfolding read_spawn
  receive-spawn_message net_id prefab init_data m wi wp wl =
      receive-read_spawn net_id prefab init_data m wi wp wl
      ∙ rw
          (
            le→ltb (14 + length init_data) (14 + length init_data) (omega arith),
            take-length (length init_data) init_data (omega arith),
          )
          refl

  pub receive-destroy_message :
      (net_id : ℕ) (m : Manager)
      → net_id < 2 ^ 64
      → receive (destroy_message net_id) m
        ≡ elim (lookup net_id m.entities) [ none ↦ m | some e ↦ remove_entity net_id e m ]
  unfolding receive destroy_message on_receive_destroy write_u64_be
  receive-destroy_message net_id m wi =
      ap (λ k. elim (lookup k m.entities) [ none ↦ m | some e ↦ remove_entity k e m ])
        (read-write_u64 net_id wi)
