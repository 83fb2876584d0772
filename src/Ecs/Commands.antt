-- ===== src/Ecs/Commands.antt =====
-- The commands that a tick defers (server/ecs/commands.go), on the default registry and a grid of positions.
pub mod Flushing
mod Tests
use minnsun_s_adventure.Common.{
  ℕ, ◌+◌, Bool, List, [], ◌∷◌, ◌++◌, Option, none, some, if◌then◌else◌, length,
}
use minnsun_s_adventure.Common.Int.{ℤ, pos, ◌-ℤ◌, ltb_ℤ, int64}
use minnsun_s_adventure.Common.Table.{Table, insert, erase}
use minnsun_s_adventure.Ecs.Entity.{Entity, FreeList}
use minnsun_s_adventure.Ecs.Components.{PositionComponent, MetadataComponent, StatsComponent}
use minnsun_s_adventure.Ecs.Registry.{Registry, remove_entity}

pub record MoveCommand : Type 0 where
  pub entity_id : Entity
  pub map_id : ℤ
  pub x : ℤ
  pub z : ℤ

pub record DamageCommand : Type 0 where
  pub source : Entity
  pub target : Entity
  pub amount : ℤ

pub record SpawnCommand : Type 0 where
  pub entity_id : Entity
  pub pos : PositionComponent
  pub meta : MetadataComponent
  pub stats : StatsComponent

pub record CommandBuffer : Type 0 where
  pub moves : List MoveCommand
  pub damages : List DamageCommand
  pub spawns : List SpawnCommand
  pub destroys : List Entity

-- What a flush writes to: the registry, the free list and the grid.
pub record Stores : Type 0 where
  pub registry : Registry
  pub free : FreeList
  pub grid : Table PositionComponent

-- `NewCommandBuffer`, with empty slices.
abbrev pub new_command_buffer : CommandBuffer
new_command_buffer = record { moves = []; damages = []; spawns = []; destroys = [] }

-- `AddMove`, `AddDamage`, `AddSpawn` and `AddDestroy`.
abbrev pub add_move : MoveCommand → CommandBuffer → CommandBuffer
add_move c b = record b { moves = b.moves ++ (c ∷ []) }

abbrev pub queue_damage : DamageCommand → CommandBuffer → CommandBuffer
queue_damage c b = record b { damages = b.damages ++ (c ∷ []) }

abbrev pub add_spawn : SpawnCommand → CommandBuffer → CommandBuffer
add_spawn c b = record b { spawns = b.spawns ++ (c ∷ []) }

abbrev pub add_destroy : Entity → CommandBuffer → CommandBuffer
add_destroy id b = record b { destroys = b.destroys ++ (id ∷ []) }

-- `Len`
abbrev pub number_of_commands : CommandBuffer → ℕ
number_of_commands b = length b.moves + length b.damages + length b.spawns + length b.destroys

-- The entity is at a position, in the registry and in the grid.
abbrev pub place : Entity → PositionComponent → Stores → Stores
place id p s = record s {
  registry = record s.registry { positions = insert id p s.registry.positions };
  grid = insert id p s.grid;
}

abbrev pub run_move : MoveCommand → Stores → Stores
run_move c s = place c.entity_id (record { map_id = c.map_id; x = c.x; z = c.z }) s

abbrev pub hp_after : ℤ → ℤ → ℤ
hp_after hp amount = let v = int64 (hp -ℤ amount) in if ltb_ℤ v (pos 0) then pos 0 else v

abbrev pub run_damage : DamageCommand → Stores → Stores
run_damage c s = elim (s.registry.stats c.target) [
  | none ↦ s
  | some st ↦ record s {
    registry = record s.registry {
      stats = insert c.target (record st { hp = hp_after st.hp c.amount }) s.registry.stats;
    };
  }
]

abbrev pub run_spawn : SpawnCommand → Stores → Stores
run_spawn c s =
    let s' = place c.entity_id c.pos s in
    record s' {
      registry = record s'.registry {
        metadata = insert c.entity_id c.meta s'.registry.metadata;
        stats = insert c.entity_id c.stats s'.registry.stats;
      };
    }

unfoldable pub run_destroy : Entity → Stores → Stores
unfolding remove_entity
run_destroy id s =
    let (r, free) = remove_entity id (s.registry, s.free) in
    record { registry = r; free = free; grid = erase id s.grid }

-- The commands of one phase, in their order.
abbrev pub run_all : {C : Type 0} → (C → Stores → Stores) → List C → Stores → Stores
run_all f [] s = s
run_all f (c ∷ cs) s = run_all f cs (f c s)

-- `Flush`
unfoldable pub flush_commands : CommandBuffer → Stores → CommandBuffer × Stores
unfolding run_destroy
flush_commands b s = (
  new_command_buffer,
  run_all run_destroy b.destroys
      (run_all run_spawn b.spawns (run_all run_damage b.damages (run_all run_move b.moves s))),
)
