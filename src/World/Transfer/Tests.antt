-- ===== src/World/Transfer/Tests.antt =====
-- Transfers of the monster 5 from map 1 (server/world/partition.go).
use minnsun_s_adventure.Common.{◌≡◌, ◌≢◌, refl, none, some, [], arith}
use minnsun_s_adventure.Common.Int.{pos}
use minnsun_s_adventure.Common.Table.{empty, insert, insert_other}
use minnsun_s_adventure.Ecs.Components.{
  PositionComponent, MetadataComponent, entity_monster, zero_stats, zero_connection,
}
use minnsun_s_adventure.Ecs.Registry.{Registry}
use minnsun_s_adventure.World.Transfer.{MapWorker, World, TransferRequest, process_transfer}
use minnsun_s_adventure.World.Transfer.Outcome.{HasNothing, AgreeOn, IsAloneOn, HasNoBelongings}
use minnsun_s_adventure.World.Transfer.Moves.{
  transfer_moves, transfer_frame, transfer_loses_belongings,
}

abbrev place : PositionComponent
place = record { map_id = pos 1; x = pos 30; z = pos 40 }

abbrev monster : MetadataComponent
monster = record { name = "wolf"; type = entity_monster }

abbrev no_entities : Registry
no_entities = record {
  next_id = 0;
  positions = empty;
  conns = empty;
  metadata = empty;
  stats = empty;
  ai = empty;
  inventories = empty;
  lifetimes = empty;
  item_templates = empty;
  equipment = empty;
  parties = empty;
  party_members = empty;
  effects = empty;
}

abbrev source : MapWorker
source = record {
  registry = record no_entities {
    positions = insert 5 place empty;
    metadata = insert 5 monster empty;
  };
  grid = insert 5 place empty;
  watchers = empty;
}

abbrev target : MapWorker
target = record {
  registry = record no_entities { positions = insert 6 place empty };
  grid = empty;
  watchers = empty;
}

abbrev world : World
world = record { workers = insert 2 target (insert 1 source empty); free = [] }

abbrev to_two : TransferRequest
to_two = record { entity_id = 5; from_map = 1; to_map = 2 }

abbrev to_one : TransferRequest
to_one = record { entity_id = 5; from_map = 1; to_map = 1 }

abbrev to_three : TransferRequest
to_three = record { entity_id = 5; from_map = 1; to_map = 3 }

maps_apart : to_two.from_map ≢ to_two.to_map
maps_apart e = absurd (omega arith)

transfer_moves_example :
    (s t : MapWorker) × ((process_transfer to_two world).workers 1 ≡ some s)
    × ((process_transfer to_two world).workers 2 ≡ some t)
    × HasNothing 5 s.registry
    × (s.grid 5 ≡ none)
    × (t.registry.positions 5 ≡ some (record place { map_id = pos 2 }))
    × (t.grid 5 ≡ some (record place { map_id = pos 2 }))
    × (t.registry.metadata 5 ≡ some monster)
    × (t.registry.stats 5 ≡ some zero_stats)
    × (t.registry.conns 5 ≡ some zero_connection)
    × (t.watchers 5 ≡ none)
transfer_moves_example =
    transfer_moves to_two world source target place monster refl refl refl refl maps_apart

-- Entity 6 is on map 2 already.
target-IsAloneOn : IsAloneOn 5 target.registry
unfolding HasNothing
target-IsAloneOn j same ne = (
  insert_other 6 j place empty other,
  refl,
  refl,
  refl,
  refl,
  refl,
  refl,
  refl,
  refl,
  refl,
  refl,
  refl,
)
  where
    other : 6 ≢ j
    other e = absurd (omega arith)

transfer_frame_example :
    (s t : MapWorker) × ((process_transfer to_two world).workers 1 ≡ some s)
    × ((process_transfer to_two world).workers 2 ≡ some t)
    × AgreeOn 6 s.registry source.registry
    × AgreeOn 6 t.registry target.registry
    × IsAloneOn 5 t.registry
transfer_frame_example =
    transfer_frame to_two world source target place monster refl refl refl refl maps_apart 6
      (λ e. absurd (omega arith)) target-IsAloneOn

no_belongings : HasNoBelongings 5 target.registry
unfolding HasNoBelongings
no_belongings = (refl, refl, refl, refl)

transfer_loses_belongings_example :
    (s t : MapWorker) × ((process_transfer to_two world).workers 1 ≡ some s)
    × ((process_transfer to_two world).workers 2 ≡ some t)
    × HasNoBelongings 5 s.registry
    × HasNoBelongings 5 t.registry
transfer_loses_belongings_example =
    transfer_loses_belongings to_two world source target place monster refl refl refl refl
      maps_apart no_belongings
