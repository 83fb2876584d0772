-- ===== src/World/Transfer.antt =====
-- The transfer of an entity from one map to another (server/world/partition.go).
pub mod Outcome
pub mod Moves
mod Tests
use Prim.Native.Nat.{compare, Ordering}
use minnsun_s_adventure.Common.{
  ℕ, Bool, true, false, not, ◌&&◌, ◌||◌, Option, none, some, ◌==◌, if◌then◌else◌,
}
use minnsun_s_adventure.Common.Int.{ℤ, pos, eqb_ℤ}
use minnsun_s_adventure.Common.Table.{Table, insert, erase}
use minnsun_s_adventure.Ecs.Entity.{Entity, FreeList}
use minnsun_s_adventure.Ecs.Components.{
  is_player, is_monster, PositionComponent, ConnectionComponent, MetadataComponent, StatsComponent,
  AiComponent, EntityType, entity_any, entity_player, entity_monster, entity_ground_item, AiState,
  idle, roaming, chasing, attacking, returning, transferring, zero_stats, zero_connection, zero_ai,
}
use minnsun_s_adventure.Ecs.Registry.{Registry, remove_entity}

-- The parts of `MapWorker` that a transfer touches: the registry, the positions in the spatial grid,
-- and the radius of each AOI watcher.
pub record MapWorker : Type 0 where
  pub registry : Registry
  pub grid : Table PositionComponent
  pub watchers : Table ℕ

-- The running workers by map ID, and the free list of entity IDs that they share. Maps are
-- identified by numbers; that a worker is read through the table each time models the pointers of
-- the program, which are the same when the two maps are.
pub record World : Type 0 where
  pub workers : Table MapWorker
  pub free : FreeList

pub record TransferRequest : Type 0 where
  pub entity_id : Entity
  pub from_map : ℕ
  pub to_map : ℕ

pub record EntitySnapshot : Type 0 where
  pub id : Entity
  pub pos : PositionComponent
  pub meta : MetadataComponent
  pub stats : StatsComponent
  pub conn : ConnectionComponent
  pub ai : AiComponent

abbrev pub or_zero : {T : Type 0} → T → Option T → T
or_zero zero none = zero
or_zero zero (some c) = c

-- `serializeEntity`
unfoldable pub serialize_entity : Entity → Registry → Option EntitySnapshot
serialize_entity id r = elim (r.positions id) [
  | none ↦ none
  | some p ↦ elim (r.metadata id) [
    | none ↦ none
    | some m ↦ some (record {
      id = id;
      pos = p;
      meta = m;
      stats = or_zero zero_stats (r.stats id);
      conn = or_zero zero_connection (r.conns id);
      ai = or_zero zero_ai (r.ai id);
    })
  ]
]

-- `s != 0`, where 0 is `AIStateIdle`
abbrev pub is_not_idle : AiState → Bool
is_not_idle idle = false
is_not_idle _ = true

-- The AI component of a snapshot is set where its state or its spawn radius is not 0.
abbrev pub set_ai_if_present : EntitySnapshot → Table AiComponent → Table AiComponent
set_ai_if_present snap ai =
    if is_not_idle snap.ai.state || not (eqb_ℤ snap.ai.spawn_radius (pos 0))
    then insert snap.id snap.ai ai
    else ai

-- `deserializeEntity`
unfoldable pub deserialize_entity : EntitySnapshot → MapWorker → MapWorker
deserialize_entity snap w =
    let r = w.registry in
    record w {
      registry = record r {
        positions = insert snap.id snap.pos r.positions;
        metadata = insert snap.id snap.meta r.metadata;
        stats = insert snap.id snap.stats r.stats;
        conns = insert snap.id snap.conn r.conns;
        ai = set_ai_if_present snap r.ai;
      };
      grid = insert snap.id snap.pos w.grid;
    }

-- The state of the snapshot while the entity is moved.
unfoldable pub freeze : EntitySnapshot → EntitySnapshot
freeze snap =
    if is_not_idle snap.ai.state || is_monster snap.meta.type
    then (let a = snap.ai in record snap { ai = record a { state = transferring } })
    else snap

-- Phase 1 on the source map: the AI component is frozen, and the entity leaves the grid.
unfoldable pub lock_source : EntitySnapshot → MapWorker → MapWorker
unfolding freeze
lock_source snap w =
    let r = w.registry in
    record w {
      registry =
          if is_not_idle snap.ai.state || is_monster snap.meta.type
          then record r { ai = insert snap.id (freeze snap).ai r.ai }
          else r;
      grid = erase snap.id w.grid;
    }

-- `RegisterPlayerAOI`, but for the packets that it sends. The radius is 60.
unfoldable pub register_player_aoi : Entity → MapWorker → MapWorker
register_player_aoi id w = record w { watchers = insert id 60 w.watchers }

-- Phase 2 on the target map.
unfoldable pub spawn_on_target : EntitySnapshot → MapWorker → MapWorker
unfolding deserialize_entity register_player_aoi
spawn_on_target snap w =
    let w' = deserialize_entity snap w in
    if is_player snap.meta.type then register_player_aoi snap.id w' else w'

-- One worker, read and written in place. A worker that is not running is not there to be changed.
abbrev pub update_worker : ℕ → (MapWorker → MapWorker) → Table MapWorker → Table MapWorker
update_worker map f workers = elim (workers map) [
  | none ↦ workers
  | some w ↦ insert map (f w) workers
]

-- Phase 3: the entity is removed from the registry of the source map, and its ID is recycled.
unfoldable pub commit : Entity → ℕ → World → World
unfolding remove_entity
commit id map w = record {
  workers =
      update_worker map (λ v. record v { registry = (remove_entity id (v.registry, w.free)).0 })
        w.workers;
  free = elim (w.workers map) [
    | none ↦ w.free
    | some v ↦ (remove_entity id (v.registry, w.free)).1
  ];
}

-- `snap.Pos.MapID = req.ToMap`
abbrev pub move_to : ℕ → EntitySnapshot → EntitySnapshot
move_to map snap = let p = snap.pos in record snap { pos = record p { map_id = pos map } }

-- The three phases, on maps that are running, for an entity that was found.
unfoldable pub transfer_phases : EntitySnapshot → ℕ → ℕ → World → World
unfolding lock_source freeze spawn_on_target commit
transfer_phases snap from to w =
    let locked = update_worker from (lock_source snap) w.workers in
    let spawned = update_worker to (spawn_on_target (move_to to (freeze snap))) locked in
    commit snap.id from (record w { workers = spawned })

-- `processTransfer2PC`
unfoldable pub process_transfer : TransferRequest → World → World
unfolding serialize_entity transfer_phases
process_transfer req w = elim (w.workers req.from_map) [
  | none ↦ w
  | some source ↦ elim (w.workers req.to_map) [
    | none ↦ w
    | some target ↦ elim (serialize_entity req.entity_id source.registry) [
      | none ↦ w
      | some snap ↦ transfer_phases snap req.from_map req.to_map w
    ]
  ]
]
