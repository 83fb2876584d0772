-- ===== src/Ecs/Entity.antt =====
-- Generational entity IDs and their allocation (server/ecs/ecs.go).
pub mod Fresh
pub mod Trace
mod Tests
use minnsun_s_adventure.Common.{ℕ, ◌+◌, ◌*◌, ◌/◌, ◌%◌, ◌^◌, List, [], ◌∷◌, ◌==◌, if◌then◌else◌}

-- `Entity`, a uint64: the index in the low 32 bits, the generation in the high 32.
abbrev pub Entity : Type 0
Entity = ℕ

-- `uint32(id)`
abbrev pub entity_index : Entity → ℕ
entity_index id = id % 2 ^ 32

-- `uint32(id >> 32)`
abbrev pub entity_generation : Entity → ℕ
entity_generation id = id / 2 ^ 32 % 2 ^ 32

-- `Entity(idx) | (Entity(gen) << 32)`: the two parts have no bit in common.
abbrev pub make_entity : ℕ → ℕ → Entity
make_entity idx gen = idx + gen * 2 ^ 32

-- `Entity(index) | (1 << 32)`: bit 32 is set.
abbrev pub with_generation_one : ℕ → Entity
with_generation_one index = index / 2 ^ 33 * 2 ^ 33 + 2 ^ 32 + index % 2 ^ 32

-- The slice `recycledEntities.ids`, its last element first.
abbrev pub FreeList : Type 0
FreeList = List Entity

-- `recycleEntityID`
abbrev pub recycle_entity_id : Entity → FreeList → FreeList
recycle_entity_id id free = id ∷ free

-- `PopRecycledEntityID`: the index is kept, and the generation goes up by one, as a uint32. It is 0
-- when there is none.
unfoldable pub pop_recycled_entity_id : FreeList → Entity × FreeList
pop_recycled_entity_id [] = (0, [])
pop_recycled_entity_id (id ∷ free) =
    (make_entity (entity_index id) ((entity_generation id + 1) % 2 ^ 32), free)

-- What `NewEntity` reads and writes: the free list, and the registry's counter (a uint64).
pub record Ids : Type 0 where
  pub free : FreeList
  pub next_id : ℕ

-- `Registry.NewEntity`
unfoldable pub new_entity : Ids → Entity × Ids
unfolding pop_recycled_entity_id
new_entity a =
    let (recycled, free) = pop_recycled_entity_id a.free in
    let index = (a.next_id + 1) % 2 ^ 64 in
    if recycled == 0
    then (with_generation_one index, record { free = free; next_id = index })
    else (recycled, record a { free = free })

-- `World.AllocateEntityID`: a fresh ID has generation 0.
unfoldable pub allocate_entity_id : Ids → Entity × Ids
unfolding pop_recycled_entity_id
allocate_entity_id a =
    let (recycled, free) = pop_recycled_entity_id a.free in
    let index = (a.next_id + 1) % 2 ^ 64 in
    if recycled == 0
    then (index, record { free = free; next_id = index })
    else (recycled, record a { free = free })

-- What `RemoveEntity` does to the IDs.
unfoldable pub release : Entity → Ids → Ids
release id a = record a { free = recycle_entity_id id a.free }
