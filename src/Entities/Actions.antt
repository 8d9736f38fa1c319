-- ===== src/Entities/Actions.antt =====
-- What the game does to the server's table, and how a client takes the messages.
use campello_net.Prelude.{
  ℕ, ◌<◌, ◌^◌, ◌≡◌, refl, true, List, [], ◌∷◌, ◌++◌, arith, inl, inr, length, insert, Bool-cases,
}
use campello_net.Entities.{Bridge, Manager, spawn, destroy, set_owner, add_entity}
use campello_net.Entities.Table.{prefabs, Below, insert-Below, prefabs-insert}
use campello_net.Entities.Messages.{receive}

-- What the game does to the server's table.
pub data Action : Type 0 where
  spawns : (prefab : ℕ) (init_data : List ℕ) → Action
  destroys : (net_id : ℕ) → Action
  owns : (net_id owner : ℕ) → Action

-- The widths of a prefab and of the length of its data on the wire.
abbrev pub Fits : Action → Type 0
Fits (spawns prefab init_data) = (prefab < 2 ^ 32) × (length init_data < 2 ^ 16)
Fits (destroys net_id) = Unit
Fits (owns net_id owner) = Unit

-- The action, and the messages that it broadcasts.
unfoldable pub act : Bridge → Action → Manager → Manager × List (List ℕ)
act bridge (spawns prefab init_data) m =
    let (m', net_id, messages) = spawn ⦃bridge = bridge⦄ prefab init_data true m in (m', messages)
act bridge (destroys net_id) m = destroy net_id true m
act bridge (owns net_id owner) m = (set_owner net_id owner m, [])

unfoldable pub act_all : Bridge → List Action → Manager → Manager × List (List ℕ)
act_all bridge [] m = (m, [])
act_all bridge (a ∷ actions) m =
    let (m', messages) = act bridge a m in
    let (m₁, more) = act_all bridge actions m' in (m₁, messages ++ more)

unfoldable pub receive_all : Bridge → List (List ℕ) → Manager → Manager
receive_all bridge [] m = m
receive_all bridge (b ∷ messages) m = receive_all bridge messages (receive ⦃bridge = bridge⦄ b m)

pub receive_all-append :
    (bridge : Bridge) (xs ys : List (List ℕ)) (m : Manager)
    → receive_all bridge (xs ++ ys) m ≡ receive_all bridge ys (receive_all bridge xs m)
unfolding receive_all
receive_all-append bridge [] ys m = refl
receive_all-append bridge (x ∷ xs) ys m =
    receive_all-append bridge xs ys (receive ⦃bridge = bridge⦄ x m)

-- A client without a limit that shows the server's entities.
pub record IsMirror (s c : Manager) : Type 0 where
  pub same : prefabs c.entities ≡ prefabs s.entities
  pub below : Below s.next_id s.entities
  pub unlimited : c.max_entities ≡ 0

module _ ⦃bridge : Bridge⦄ where
  -- What `add_entity` does to the parts that a mirror speaks of.
  pub add_entity-prefabs :
      (prefab net_id : ℕ) (init_data : List ℕ) (m : Manager)
      → prefabs (add_entity prefab net_id init_data m).entities
        ≡ insert net_id prefab (prefabs m.entities)
  unfolding add_entity
  add_entity-prefabs prefab net_id init_data m = elim (Bool-cases m.has_bridge) [
    | inl e ↦ rw e (prefabs-insert net_id _ m.entities)
    | inr e ↦ rw e (prefabs-insert net_id _ m.entities)
  ]

  pub add_entity-Below :
      (n prefab net_id : ℕ) (init_data : List ℕ) (m : Manager)
      → net_id < n
      → Below n m.entities
      → Below n (add_entity prefab net_id init_data m).entities
  unfolding add_entity
  add_entity-Below n prefab net_id init_data m h b = elim (Bool-cases m.has_bridge) [
    | inl e ↦ rw e (insert-Below n net_id _ m.entities h b)
    | inr e ↦ rw e (insert-Below n net_id _ m.entities h b)
  ]

  pub add_entity-frame :
      (prefab net_id : ℕ) (init_data : List ℕ) (m : Manager)
      → ((add_entity prefab net_id init_data m).max_entities ≡ m.max_entities)
        × ((add_entity prefab net_id init_data m).next_id ≡ m.next_id)
  unfolding add_entity
  add_entity-frame prefab net_id init_data m = ground arith
