-- ===== src/World/Transfer/Moves.antt =====
-- The transfer of an entity (`processTransfer2PC` of server/world/partition.go) that has a position
-- and metadata on a running map: what arrives, what stays, what is lost.
use minnsun_s_adventure.Common.{◌≡◌, ◌≢◌, refl, ap, ◌∙◌, none, some, arith, if◌then◌else◌}
use minnsun_s_adventure.Common.Int.{pos}
use minnsun_s_adventure.Ecs.Entity.{Entity, entity_index, pop_recycled_entity_id}
use minnsun_s_adventure.Ecs.Components.{
  PositionComponent, MetadataComponent, zero_stats, zero_connection, zero_ai,
}
use minnsun_s_adventure.Ecs.Registry.{delete_components}
use minnsun_s_adventure.World.Transfer.{
  MapWorker, World, TransferRequest, EntitySnapshot, serialize_entity, freeze, lock_source,
  spawn_on_target, deserialize_entity, register_player_aoi, transfer_phases, process_transfer,
  is_player, or_zero,
}
use minnsun_s_adventure.World.Transfer.Outcome.{
  HasNothing, AgreeOn, IsAloneOn, HasNoBelongings, target_after-IsAloneOn, source_after,
  target_after, source_after-HasNothing, source_after-AgreeOn, target_after-AgreeOn, phases_source,
  phases_target, phases_same, same_after, phases_free,
}

module _ (req : TransferRequest) (w : World) (source target : MapWorker) (p : PositionComponent)
    (m : MetadataComponent) (at_source : w.workers req.from_map ≡ some source)
    (at_target : w.workers req.to_map ≡ some target)
    (has_position : source.registry.positions req.entity_id ≡ some p)
    (has_metadata : source.registry.metadata req.entity_id ≡ some m) where
  snapshot : EntitySnapshot
  snapshot = record {
    id = req.entity_id;
    pos = p;
    meta = m;
    stats = or_zero zero_stats (source.registry.stats req.entity_id);
    conn = or_zero zero_connection (source.registry.conns req.entity_id);
    ai = or_zero zero_ai (source.registry.ai req.entity_id);
  }

  serialized : serialize_entity req.entity_id source.registry ≡ some snapshot
  unfolding serialize_entity snapshot
  serialized = ground (arith, has_position, has_metadata)

  process_is_phases : process_transfer req w ≡ transfer_phases snapshot req.from_map req.to_map w
  unfolding process_transfer
  process_is_phases = ground (arith, at_source, at_target, serialized)

  id_is : snapshot.id ≡ req.entity_id
  unfolding snapshot
  id_is = refl

  module _ (apart : req.from_map ≢ req.to_map) where
    source_is : (process_transfer req w).workers req.from_map ≡ some (source_after snapshot source)
    source_is =
        ap (λ w'. w'.workers req.from_map) process_is_phases
        ∙ phases_source snapshot req.from_map req.to_map w source target at_source at_target apart

    target_is :
        (process_transfer req w).workers req.to_map ≡ some (target_after snapshot req.to_map target)
    target_is =
        ap (λ w'. w'.workers req.to_map) process_is_phases
        ∙ phases_target snapshot req.from_map req.to_map w source target at_source at_target apart

    -- Between two running maps, the source map is left without any component of the entity and
    -- without its place in the grid. The target map has it in its grid, at the old place, with the
    -- target's map ID, and has its metadata, its stats and its connection; a player is watched there
    -- with radius 60, and of others the watcher is as before.
    pub transfer_moves :
        (s t : MapWorker) × ((process_transfer req w).workers req.from_map ≡ some s)
        × ((process_transfer req w).workers req.to_map ≡ some t)
        × HasNothing req.entity_id s.registry
        × (s.grid req.entity_id ≡ none)
        × (t.registry.positions req.entity_id ≡ some (record p { map_id = pos req.to_map }))
        × (t.grid req.entity_id ≡ some (record p { map_id = pos req.to_map }))
        × (t.registry.metadata req.entity_id ≡ some m)
        × (t.registry.stats req.entity_id
            ≡ some (or_zero zero_stats (source.registry.stats req.entity_id)))
        × (t.registry.conns req.entity_id
            ≡ some (or_zero zero_connection (source.registry.conns req.entity_id)))
        × (t.watchers req.entity_id
            ≡ (if is_player m.type then some 60 else target.watchers req.entity_id))
    unfolding source_after target_after lock_source spawn_on_target deserialize_entity
        register_player_aoi freeze snapshot
    transfer_moves = (
      source_after snapshot source,
      target_after snapshot req.to_map target,
      source_is,
      target_is,
      source_after-HasNothing snapshot source,
      ground arith,
      ground arith,
      ground arith,
      ground arith,
      ground arith,
      ground arith,
      ground arith,
    )

    -- A transfer between two running maps, of an entity of whose index no other generation has a component on the
    -- target map, changes no component of any other entity, on either map, and the target map stays without
    -- another generation of its index.
    pub transfer_frame :
        (j : Entity)
        → req.entity_id ≢ j
        → IsAloneOn req.entity_id target.registry
        → (s t : MapWorker) × ((process_transfer req w).workers req.from_map ≡ some s)
          × ((process_transfer req w).workers req.to_map ≡ some t)
          × AgreeOn j s.registry source.registry
          × AgreeOn j t.registry target.registry
          × IsAloneOn req.entity_id t.registry
    unfolding snapshot
    transfer_frame j ne alone = (
      source_after snapshot source,
      target_after snapshot req.to_map target,
      source_is,
      target_is,
      source_after-AgreeOn snapshot source j ne,
      target_after-AgreeOn snapshot req.to_map target j ne,
      target_after-IsAloneOn snapshot req.to_map target alone,
    )

    -- An entity that is not on the target map beforehand ends up, on both maps, without inventory,
    -- equipment, party membership and effects, whatever it had on the source map.
    pub transfer_loses_belongings :
        HasNoBelongings req.entity_id target.registry
        → (s t : MapWorker) × ((process_transfer req w).workers req.from_map ≡ some s)
          × ((process_transfer req w).workers req.to_map ≡ some t)
          × HasNoBelongings req.entity_id s.registry
          × HasNoBelongings req.entity_id t.registry
    unfolding HasNoBelongings source_after target_after lock_source spawn_on_target
        deserialize_entity register_player_aoi freeze snapshot delete_components
    transfer_loses_belongings (i, e, q, f) = (
      source_after snapshot source,
      target_after snapshot req.to_map target,
      source_is,
      target_is,
      ground arith,
      ground (arith, i, e, q, f),
    )

  -- After a transfer, to whatever map, the next entity ID that is handed out has the index of the
  -- entity that was transferred.
  pub transfer_recycles_index :
      entity_index (pop_recycled_entity_id (process_transfer req w).free).0
      ≡ entity_index req.entity_id
  unfolding pop_recycled_entity_id process_transfer
  transfer_recycles_index = ground (
    arith,
    process_is_phases,
    phases_free snapshot req.from_map req.to_map w source target at_source at_target,
  )

  -- A transfer from a map to itself leaves the map without any component of the entity, and with
  -- its place in the grid.
  pub transfer_to_same_map :
      req.from_map ≡ req.to_map
      → (s : MapWorker) × ((process_transfer req w).workers req.to_map ≡ some s)
        × HasNothing req.entity_id s.registry
        × (s.grid req.entity_id ≡ some (record p { map_id = pos req.to_map }))
  unfolding HasNothing same_after target_after spawn_on_target deserialize_entity
      register_player_aoi freeze lock_source snapshot delete_components
  transfer_to_same_map same = (
    same_after snapshot req.to_map source,
    ap (λ w'. w'.workers req.to_map) process_is_phases
        ∙ phases_same snapshot req.from_map req.to_map w source target at_source at_target same,
    ground arith,
    ground arith,
  )
