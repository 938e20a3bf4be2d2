-- ===== src/Ecs/Tests.antt =====
-- A run in which an index is used again.
use voltra.Prelude.{ℕ, ◌≡◌, true, false, some, List, [], ◌∷◌, arith, length, ◌>>=◌}
use voltra.Ecs.{EntityId, EntityAllocator, alloc, free, entity_count}
use voltra.Ecs.Live.{alive}
use voltra.Ecs.Allocator.{
  Op, spawn_one, despawn_one, State, start, run, all_alive, spawn_fresh, double_despawn,
}
use voltra.Prelude.Map.{lookup}
use voltra.Ecs.{ComponentMap, new_map, get, Eq-EntityId}
use voltra.Ecs.Agreement
use voltra.Ecs.Agreement.{put_in, take_from}
use voltra.Ecs.Components.{components_refine}

abbrev first_id : EntityId
first_id = record { index = 0; generation = 0 }

abbrev second_id : EntityId
second_id = record { index = 1; generation = 0 }

abbrev some_ops : List Op
some_ops = spawn_one ∷ spawn_one ∷ despawn_one first_id ∷ []

spawn_fresh_example :
    (s : State) × (id : EntityId) × (a : EntityAllocator) × (run start some_ops ≡ some s)
    × (entity_count s.allocator ≡ length s.live)
    × (alloc s.allocator ≡ some (id, a))
    × (alive id s.live ≡ false)
    × (all_alive a (id ∷ s.live) ≡ true)
spawn_fresh_example = spawn_fresh some_ops (omega arith)

abbrev one_entity : EntityAllocator
one_entity = record { generations = 0 ∷ []; free_list = [] }

double_despawn_example :
    (j : EntityId) × (c : EntityAllocator) × (b : EntityAllocator) × ((free first_id one_entity
        >>= free first_id)
      ≡ some b)
    × ((alloc b >>= λ x. alloc x.1) ≡ some (j, c))
    × ((alloc b >>= λ x. some x.0) ≡ some j)
double_despawn_example = double_despawn one_entity first_id (omega arith)

-- A component is put in, replaced, and taken out.
abbrev component_ops : List (Agreement.Op ℕ)
component_ops =
    put_in first_id 5 ∷ put_in second_id 6 ∷ put_in first_id 7 ∷ take_from second_id ∷ []

components_refine_example :
    (m : ComponentMap ℕ) × (Agreement.run new_map component_ops ≡ some m)
    × (get first_id m ≡ some (lookup first_id (Agreement.apply_all [] component_ops)))
components_refine_example = components_refine component_ops first_id (omega arith)
