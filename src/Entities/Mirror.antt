-- ===== src/Entities/Mirror.antt =====
-- The server's table and a client's: what the broadcast messages make of the client.
use campello_net.Prelude.{
  ℕ, ◌+◌, ◌≤◌, ◌<◌, ◌^◌, ◌≡◌, refl, ap, sym, ◌∙◌, true, false, some, List, [], ◌∷◌, arith, inl, inr,
  u64, length, lookup, insert, erase, is_some, All, Option-cases, Bool-cases,
}
use native.Mathlib.Nat.{mod-eq_of_lt}
use campello_net.Entities.{
  Entity, Bridge, Manager, at_limit, spawn, destroy, set_owner, add_entity, remove_entity,
  spawn_message, destroy_message,
}
use campello_net.Entities.Table.{
  prefabs, lookup-Below, lookup-above, weaken, insert-Below, erase-Below, prefabs-erase,
  prefabs-lookup, prefabs-owner,
}
use campello_net.Entities.Messages.{receive, receive-spawn_message, receive-destroy_message}
use campello_net.Entities.Actions.{
  Action, spawns, destroys, owns, Fits, act, act_all, receive_all, receive_all-append, IsMirror,
  add_entity-prefabs, add_entity-Below, add_entity-frame,
}

module _ (server client : Bridge) where
  -- A client has no entity with the server's next number, and takes it.
  unseen : (s c : Manager) → IsMirror s c → is_some (lookup s.next_id c.entities) ≡ false
  unseen s c m =
      sym (prefabs-lookup s.next_id c.entities)
      ∙ ap (λ t. is_some (lookup s.next_id t)) m.same
      ∙ prefabs-lookup s.next_id s.entities
      ∙ ap is_some (lookup-above s.next_id s.next_id s.entities m.below (omega arith))

  receive-next :
      (prefab : ℕ) (init_data : List ℕ) (s c : Manager)
      → Fits (spawns prefab init_data)
      → s.next_id < 2 ^ 64
      → IsMirror s c
      → receive ⦃bridge = client⦄ (spawn_message s.next_id prefab init_data) c
        ≡ add_entity ⦃bridge = client⦄ prefab s.next_id init_data c
  receive-next prefab init_data s c w room m =
      receive-spawn_message ⦃bridge = client⦄ s.next_id prefab init_data c room w.0 w.1
      ∙ rw (unseen s c m, m.unlimited) refl

  added :
      (prefab : ℕ) (init_data : List ℕ) (s c : Manager)
      → Fits (spawns prefab init_data)
      → s.next_id + 1 < 2 ^ 64
      → IsMirror s c
      → IsMirror
          (add_entity ⦃bridge = server⦄ prefab s.next_id init_data
            (record s { next_id = u64 (s.next_id + 1) }))
          (receive ⦃bridge = client⦄ (spawn_message s.next_id prefab init_data) c)
        × ((add_entity ⦃bridge = server⦄ prefab s.next_id init_data
              (record s { next_id = u64 (s.next_id + 1) })).next_id
            ≤ s.next_id + 1)
  added prefab init_data s c w room m = rw (receive-next prefab init_data s c w (omega arith) m) (
    record {
      same =
          add_entity-prefabs ⦃bridge = client⦄ prefab s.next_id init_data c
          ∙ ap (insert s.next_id prefab) m.same
          ∙ sym (add_entity-prefabs ⦃bridge = server⦄ prefab s.next_id init_data s₁);
      below =
          add_entity-Below ⦃bridge = server⦄ s'.next_id prefab s.next_id init_data s₁
            (omega (arith, next))
            (weaken s.next_id s'.next_id s.entities (omega (arith, next)) m.below);
      unlimited = (add_entity-frame ⦃bridge = client⦄ prefab s.next_id init_data c).0 ∙ m.unlimited;
    },
    omega (arith, next),
  )
    where
      s₁ : Manager
      s₁ = record s { next_id = u64 (s.next_id + 1) }

      s' : Manager
      s' = add_entity ⦃bridge = server⦄ prefab s.next_id init_data s₁

      next : s'.next_id ≡ s.next_id + 1
      next =
          (add_entity-frame ⦃bridge = server⦄ prefab s.next_id init_data s₁).1 ∙ mod-eq_of_lt room

  spawn_step :
      (prefab : ℕ) (init_data : List ℕ) (s c : Manager)
      → Fits (spawns prefab init_data)
      → s.next_id + 1 < 2 ^ 64
      → IsMirror s c
      → let (s', messages) = act server (spawns prefab init_data) s in
        IsMirror s' (receive_all client messages c) × (s'.next_id ≤ s.next_id + 1)
  unfolding act spawn receive_all
  spawn_step prefab init_data s c w room m = elim (Bool-cases (at_limit s)) [
    | inl e ↦ rw (e, spawn) (m, omega arith)
    | inr e ↦ rw (e, spawn) (added prefab init_data s c w room m)
  ]

  -- The client removes what the server removes.
  receive-gone :
      (net_id : ℕ) (s c : Manager) (d : Entity)
      → net_id < 2 ^ 64
      → IsMirror s c
      → lookup net_id s.entities ≡ some d
      → (prefabs (receive ⦃bridge = client⦄ (destroy_message net_id) c).entities
          ≡ erase net_id (prefabs c.entities))
        × ((receive ⦃bridge = client⦄ (destroy_message net_id) c).max_entities ≡ c.max_entities)
  unfolding remove_entity
  receive-gone net_id s c d w m e = elim (Option-cases (lookup net_id c.entities)) [
    | inl f ↦ absurd (ground (arith, seen, f))
    | inr (b, f) ↦
        rw (receive-destroy_message ⦃bridge = client⦄ net_id c w, f)
          (prefabs-erase net_id c.entities, refl)
  ]
    where
      seen : is_some (lookup net_id c.entities) ≡ true
      seen =
          sym (prefabs-lookup net_id c.entities)
          ∙ ap (λ t. is_some (lookup net_id t)) m.same
          ∙ prefabs-lookup net_id s.entities
          ∙ ap is_some e

  destroy_step :
      (net_id : ℕ) (s c : Manager)
      → s.next_id < 2 ^ 64
      → IsMirror s c
      → let (s', messages) = act server (destroys net_id) s in
        IsMirror s' (receive_all client messages c) × (s'.next_id ≤ s.next_id + 1)
  unfolding act destroy receive_all remove_entity
  destroy_step net_id s c room m = elim (Option-cases (lookup net_id s.entities)) [
    | inl e ↦ rw (e, destroy) (m, omega arith)
    | inr (d, e) ↦
        let gone =
          receive-gone net_id s c d
            (omega (arith, lookup-Below s.next_id net_id d s.entities m.below e)) m e in
        rw (e, destroy)
          (
            record {
              same = gone.0 ∙ ap (erase net_id) m.same ∙ sym (prefabs-erase net_id s.entities);
              below = erase-Below s.next_id net_id s.entities m.below;
              unlimited = gone.1 ∙ m.unlimited;
            },
            omega arith,
          )
  ]

  owner_step :
      (net_id owner : ℕ) (s c : Manager)
      → IsMirror s c
      → let (s', messages) = act server (owns net_id owner) s in
        IsMirror s' (receive_all client messages c) × (s'.next_id ≤ s.next_id + 1)
  unfolding act set_owner receive_all
  owner_step net_id owner s c m = elim (Option-cases (lookup net_id s.entities)) [
    | inl e ↦ rw (e, set_owner) (m, omega arith)
    | inr (d, e) ↦
        rw (e, set_owner)
          (
            record {
              same = m.same ∙ sym (prefabs-owner net_id owner d s.entities e);
              below =
                  insert-Below s.next_id net_id _ s.entities
                    (lookup-Below s.next_id net_id d s.entities m.below e) m.below;
              unlimited = m.unlimited;
            },
            omega arith,
          )
  ]

  step :
      (a : Action) (s c : Manager)
      → Fits a
      → s.next_id + 1 < 2 ^ 64
      → IsMirror s c
      → let (s', messages) = act server a s in
        IsMirror s' (receive_all client messages c) × (s'.next_id ≤ s.next_id + 1)
  step (spawns prefab init_data) s c w room m = spawn_step prefab init_data s c w room m
  step (destroys net_id) s c w room m = destroy_step net_id s c (omega arith) m
  step (owns net_id owner) s c w room m = owner_step net_id owner s c m

  -- Whatever the game spawns, destroys and hands over on the server, a client without a limit that
  -- showed the server's entities and receives every broadcast message in order shows them again at
  -- the end: the same numbers with the same prefabs, as long as the numbers fit 64 bits, the prefabs
  -- 32 bits and the lengths of the initial data 16.
  pub act_all-IsMirror :
      (actions : List Action) (s c : Manager)
      → All Fits actions
      → s.next_id + length actions < 2 ^ 64
      → IsMirror s c
      → let (s', messages) = act_all server actions s in IsMirror s' (receive_all client messages c)
  unfolding act_all receive_all
  act_all-IsMirror [] s c w room m = m
  act_all-IsMirror (a ∷ actions) s c w room m =
      let one = step a s c w.0 (omega arith) m in
      rw
        (receive_all-append client (act server a s).1 (act_all server actions (act server a s).0).1
          c)
        (act_all-IsMirror actions (act server a s).0 (receive_all client (act server a s).1 c) w.1
          (omega (arith, one.1)) one.0)
