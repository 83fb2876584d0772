-- ===== src/Game/State.antt =====
-- What the game systems share (server/game): the registry, the free list of IDs, and the positions that the
-- spatial grid (server/peakgo/spatial) holds.
use minnsun_s_adventure.Common.{ℕ, ◌*◌, Bool, false, none, some}
use minnsun_s_adventure.Common.Int.{pos, leb_ℤ}
use minnsun_s_adventure.Common.Table.{Table, erase}
use minnsun_s_adventure.Ecs.Entity.{Entity, FreeList, new_entity}
use minnsun_s_adventure.Ecs.Registry.{Registry, remove_entity}
use minnsun_s_adventure.Ecs.Components.{PositionComponent}
use minnsun_s_adventure.Peakgo.Anticheat.{distance_sq}

pub record GameState : Type 0 where
  pub registry : Registry
  pub free : FreeList
  pub grid : Table PositionComponent

-- `spatial.IsInRange` for a radius that is a whole number: an int that is converted to a float64 is at most
-- such a number's square exactly where the int is.
unfoldable pub is_in_range : Entity → Entity → ℕ → Registry → Bool
is_in_range origin target radius r = elim (r.positions origin) [
  | none ↦ false
  | some a ↦ elim (r.positions target) [
    | none ↦ false
    | some b ↦ leb_ℤ (distance_sq a.x a.z b.x b.z) (pos (radius * radius))
  ]
]

-- `GlobalSpatialGrid.RemoveEntity(id)`, then `Registry.RemoveEntity(id)`.
unfoldable pub purge : Entity → GameState → GameState
unfolding remove_entity
purge id s =
    let (r, free) = remove_entity id (s.registry, s.free) in
    record { registry = r; free = free; grid = erase id s.grid }

-- `Registry.NewEntity`
unfoldable pub spawn_id : GameState → Entity × GameState
unfolding new_entity
spawn_id s =
    let (id, ids) = new_entity (record { free = s.free; next_id = s.registry.next_id }) in
    (id, record s { registry = record s.registry { next_id = ids.next_id }; free = ids.free })

-- What comes of a loop over a component store, which keeps the store's read lock: it returns, or it waits forever
-- for the write lock of the same store. The state is the one that it leaves, or waits in.
pub data Locked (S : Type 0) : Type 0 where
  returns : S → Locked S
  blocks : S → Locked S
