-- ===== src/Tests/Buffers.antt =====
-- The table of entities and the input buffer at concrete inputs.
use campello_net.Prelude.{
  ℕ, ◌+◌, ◌*◌, ◌%◌, ◌^◌, ltb, ◌≡◌, ◌≢◌, refl, true, none, some, List, [], ◌∷◌, arith, if◌then◌else◌,
  is_some, lookup,
}
use campello_net.Entities.{Bridge, Manager, fresh_manager, add_entity, spawn_message, at_limit}
use campello_net.Entities.Messages.{receive, receive-spawn_message}
use campello_net.Entities.Actions.{Action, spawns, destroys, owns, act_all, receive_all, IsMirror}
use campello_net.Entities.Mirror.{act_all-IsMirror}
use campello_net.InputBuffer.{Entry, max_ticks, store, retrieve, prune_up_to}
use campello_net.InputBuffer.Window.{AreRings, store-AreRings, retrieve-store, retrieve-phantom}
use campello_net.InputBuffer.Prune.{retrieve-prune_up_to}

-- Two bridges that number their entities in their own ways.
abbrev server_bridge : Bridge
server_bridge = record { spawn = λ calls prefab net_id init_data. net_id + 100 }

abbrev client_bridge : Bridge
client_bridge = record { spawn = λ calls prefab net_id init_data. prefab * 2 }

abbrev actions : List Action
actions = spawns 3 (1 ∷ []) ∷ spawns 4 [] ∷ owns 2 9 ∷ destroys 1 ∷ []

abbrev bridged : Manager
bridged = record fresh_manager { has_bridge = true }

fresh-IsMirror : IsMirror bridged bridged
fresh-IsMirror = record { same = refl; below = tt; unlimited = refl }

act_all-IsMirror_example :
    let (s', messages) = act_all server_bridge actions bridged in
    IsMirror s' (receive_all client_bridge messages bridged)
act_all-IsMirror_example =
    act_all-IsMirror server_bridge client_bridge actions bridged bridged
      ((omega arith, omega arith), ((omega arith, omega arith), (tt, (tt, tt)))) (omega arith)
      fresh-IsMirror

receive-spawn_message_example :
    receive ⦃bridge = client_bridge⦄ (spawn_message 5 3 (1 ∷ 2 ∷ [])) bridged ≡ (
      if is_some (lookup 5 bridged.entities)
      then bridged
      else if at_limit bridged
      then bridged
      else add_entity ⦃bridge = client_bridge⦄ 3 5 (1 ∷ 2 ∷ []) bridged)
receive-spawn_message_example =
    receive-spawn_message ⦃bridge = client_bridge⦄ 5 3 (1 ∷ 2 ∷ []) bridged (omega arith)
      (omega arith) (omega arith)

-- No client has stored anything.
none-AreRings : AreRings []
unfolding lookup
none-AreRings client ring e = cc

retrieve-store_example :
    (retrieve 1 300 (store 1 300 (8 ∷ []) []) ≡ some (8 ∷ []))
    × ((t : ℕ)
        → t ≢ 300
        → t % max_ticks ≡ 300 % max_ticks
        → retrieve 1 t (store 1 300 (8 ∷ []) []) ≡ none)
    × ((t : ℕ)
        → t ≢ 0
        → t % max_ticks ≢ 300 % max_ticks
        → retrieve 1 t (store 1 300 (8 ∷ []) []) ≡ retrieve 1 t [])
    × ((other t : ℕ) → other ≢ 1 → retrieve other t (store 1 300 (8 ∷ []) []) ≡ retrieve other t [])
retrieve-store_example = retrieve-store 1 300 (8 ∷ []) [] none-AreRings

nothing : lookup {V = List Entry} 1 [] ≡ none
unfolding lookup
nothing = refl

retrieve-phantom_example :
    (retrieve 1 0 [] ≡ none) × (retrieve 1 0 (store 1 300 (8 ∷ []) []) ≡ some [])
retrieve-phantom_example =
    retrieve-phantom 1 300 (8 ∷ []) [] none-AreRings nothing (λ e. absurd (omega (arith, e)))

-- Tick 100 is 25636 ticks after 40000 around the wrap: it stays when what is up to 40000 goes.
retrieve-prune_up_to_example :
    retrieve 1 100 (prune_up_to 40000 (store 1 100 (8 ∷ []) []))
    ≡ (if ltb 39900 (2 ^ 15) then none else retrieve 1 100 (store 1 100 (8 ∷ []) []))
retrieve-prune_up_to_example =
    retrieve-prune_up_to 1 40000 100 39900 (store 1 100 (8 ∷ []) [])
      (store-AreRings 1 100 (8 ∷ []) [] none-AreRings) (λ e. absurd (omega (arith, e)))
      (omega arith) (omega arith) (omega arith)
