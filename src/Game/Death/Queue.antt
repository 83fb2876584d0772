-- ===== src/Game/Death/Queue.antt =====
-- The queue of respawns (server/game/respawn.go).
use minnsun_s_adventure.Common.{◌≢◌, ◌≡◌, some}
use minnsun_s_adventure.Common.Int.{ℤ}
use minnsun_s_adventure.Ecs.Entity.{Entity}
use minnsun_s_adventure.Ecs.Components.{StatsComponent, AiComponent, idle, entity_monster}
use minnsun_s_adventure.Game.State.{GameState, spawn_id}
use minnsun_s_adventure.Game.Death.{MonsterTemplate}

-- From the first state to the second a monster of a template has come, under the next ID, to a place of a map: at
-- rest there, with the template's HP and damage, in the registry and in the grid, and of every other ID nothing
-- has changed.
pub record HasCome (t : MonsterTemplate) (map x z : ℤ) (s s' : GameState) : Type 0 where
  pub named :
      s'.registry.metadata (spawn_id s).0 ≡ some (record { name = t.name; type = entity_monster })
  pub placed : s'.registry.positions (spawn_id s).0 ≡ some (record { map_id = map; x = x; z = z })
  pub in_grid : s'.grid (spawn_id s).0 ≡ some (record { map_id = map; x = x; z = z })
  pub stats : StatsComponent
  pub has_stats : s'.registry.stats (spawn_id s).0 ≡ some stats
  pub healthy : (stats.hp ≡ t.hp) × (stats.max_hp ≡ t.hp) × (stats.attack ≡ t.dam)
  pub ai : AiComponent
  pub has_ai : s'.registry.ai (spawn_id s).0 ≡ some ai
  pub resting : (ai.state ≡ idle) × (ai.target_id ≡ 0) × (ai.spawn_x ≡ x) × (ai.spawn_z ≡ z)
  pub others :
      (j : Entity)
      → (spawn_id s).0 ≢ j
      → (s'.registry.metadata j ≡ s.registry.metadata j)
        × (s'.registry.positions j ≡ s.registry.positions j)
        × (s'.registry.stats j ≡ s.registry.stats j)
        × (s'.registry.ai j ≡ s.registry.ai j)
        × (s'.grid j ≡ s.grid j)
  pub ids :
      (s'.free ≡ (spawn_id s).1.free) × (s'.registry.next_id ≡ (spawn_id s).1.registry.next_id)
