-- ===== src/Ecs/Entity/Tests.antt =====
-- Runs of entity allocation (server/ecs/ecs.go).
use minnsun_s_adventure.Common.{[], ◌∷◌, arith}
use minnsun_s_adventure.Ecs.Entity.{Entity, Ids, new_entity, make_entity, entity_index}
use minnsun_s_adventure.Ecs.Entity.Fresh.{Lacks, IsSound}
use minnsun_s_adventure.Ecs.Entity.Trace.{Reach, start, after, create, reachable_ids_apart}

abbrev no_ids : Ids
no_ids = record { free = []; next_id = 0 }

abbrev one_id : Ids
one_id = record { free = []; next_id = 1 }

abbrev first_id : Entity
first_id = make_entity 1 1

Reach-one : Reach (first_id ∷ []) one_id
unfolding new_entity
Reach-one = after start (create (omega arith))

reachable_ids_apart_example :
    IsSound (first_id ∷ []) one_id × Lacks (entity_index (new_entity one_id).0) (first_id ∷ [])
reachable_ids_apart_example = reachable_ids_apart Reach-one (omega arith)
