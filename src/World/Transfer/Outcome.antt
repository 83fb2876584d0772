-- ===== src/World/Transfer/Outcome.antt =====
-- What a transfer (`processTransfer2PC` of server/world/partition.go) leaves on the two maps.
use minnsun_s_adventure.Common.{ℕ, ◌≡◌, ◌≢◌, ◌∙◌, none, some, ◌∷◌, arith, ==_ne}
use minnsun_s_adventure.Ecs.Entity.{Entity, entity_index}
use minnsun_s_adventure.Ecs.Registry.{Registry, delete_components, remove_entity}
use minnsun_s_adventure.World.Transfer.{
  MapWorker, World, EntitySnapshot, freeze, lock_source, spawn_on_target, deserialize_entity,
  register_player_aoi, move_to, transfer_phases,
}

-- No component of the entity is left in the registry.
unfoldable pub HasNothing : Entity → Registry → Type 0
HasNothing id r =
    (r.positions id ≡ none)
    × (r.conns id ≡ none)
    × (r.metadata id ≡ none)
    × (r.stats id ≡ none)
    × (r.ai id ≡ none)
    × (r.inventories id ≡ none)
    × (r.lifetimes id ≡ none)
    × (r.item_templates id ≡ none)
    × (r.equipment id ≡ none)
    × (r.parties id ≡ none)
    × (r.party_members id ≡ none)
    × (r.effects id ≡ none)

-- The two registries agree on an entity.
unfoldable pub AgreeOn : Entity → Registry → Registry → Type 0
AgreeOn id r s =
    (r.positions id ≡ s.positions id)
    × (r.conns id ≡ s.conns id)
    × (r.metadata id ≡ s.metadata id)
    × (r.stats id ≡ s.stats id)
    × (r.ai id ≡ s.ai id)
    × (r.inventories id ≡ s.inventories id)
    × (r.lifetimes id ≡ s.lifetimes id)
    × (r.item_templates id ≡ s.item_templates id)
    × (r.equipment id ≡ s.equipment id)
    × (r.parties id ≡ s.parties id)
    × (r.party_members id ≡ s.party_members id)
    × (r.effects id ≡ s.effects id)

-- No other generation of the entity's index has a component in the registry: the condition under which the stores
-- of `Ecs.Store` are the tables of the registry when the entity is written to them.
abbrev pub IsAloneOn : Entity → Registry → Type 0
IsAloneOn id r = (j : Entity) → entity_index j ≡ entity_index id → id ≢ j → HasNothing j r

nothing_stays : (j : Entity) (r s : Registry) → AgreeOn j r s → HasNothing j s → HasNothing j r
unfolding AgreeOn HasNothing
nothing_stays j r s (a, b, c, d, e, f, g, h, i, k, l, m)
      (a', b', c', d', e', f', g', h', i', k', l', m') =
    (a ∙ a', b ∙ b', c ∙ c', d ∙ d', e ∙ e', f ∙ f', g ∙ g', h ∙ h', i ∙ i', k ∙ k', l ∙ l', m ∙ m')

-- The components that `serializeEntity` does not read.
unfoldable pub HasNoBelongings : Entity → Registry → Type 0
HasNoBelongings id r =
    (r.inventories id ≡ none)
    × (r.equipment id ≡ none)
    × (r.party_members id ≡ none)
    × (r.effects id ≡ none)

-- The source and the target worker after the transfer of a snapshot between two maps.
unfoldable pub source_after : EntitySnapshot → MapWorker → MapWorker
source_after snap source =
    let l = lock_source snap source in record l { registry = delete_components snap.id l.registry }

unfoldable pub target_after : EntitySnapshot → ℕ → MapWorker → MapWorker
target_after snap to target = spawn_on_target (move_to to (freeze snap)) target

-- The one worker after the transfer of a snapshot from a map to itself.
unfoldable pub same_after : EntitySnapshot → ℕ → MapWorker → MapWorker
unfolding target_after
same_after snap to v =
    let t = target_after snap to (lock_source snap v) in
    record t { registry = delete_components snap.id t.registry }

pub source_after-HasNothing :
    (snap : EntitySnapshot) (v : MapWorker) → HasNothing snap.id (source_after snap v).registry
unfolding HasNothing source_after lock_source delete_components
source_after-HasNothing snap v = ground arith

pub source_after-AgreeOn :
    (snap : EntitySnapshot) (v : MapWorker) (j : Entity)
    → snap.id ≢ j
    → AgreeOn j (source_after snap v).registry v.registry
unfolding AgreeOn source_after lock_source delete_components
source_after-AgreeOn snap v j ne = ground (arith, ==_ne snap.id j ne)

pub target_after-AgreeOn :
    (snap : EntitySnapshot) (to : ℕ) (v : MapWorker) (j : Entity)
    → snap.id ≢ j
    → AgreeOn j (target_after snap to v).registry v.registry
unfolding AgreeOn target_after spawn_on_target deserialize_entity register_player_aoi freeze
target_after-AgreeOn snap to v j ne = ground (arith, ==_ne snap.id j ne)

pub target_after-IsAloneOn :
    (snap : EntitySnapshot) (to : ℕ) (v : MapWorker)
    → IsAloneOn snap.id v.registry
    → IsAloneOn snap.id (target_after snap to v).registry
target_after-IsAloneOn snap to v alone j same ne =
    nothing_stays j (target_after snap to v).registry v.registry
      (target_after-AgreeOn snap to v j ne) (alone j same ne)

module _ (snap : EntitySnapshot) (from to : ℕ) (w : World) (source target : MapWorker)
    (at_source : w.workers from ≡ some source) (at_target : w.workers to ≡ some target) where
  pub phases_source :
      from ≢ to → (transfer_phases snap from to w).workers from ≡ some (source_after snap source)
  unfolding transfer_phases source_after
  phases_source apart = ground (arith, at_source, at_target)

  pub phases_target :
      from ≢ to → (transfer_phases snap from to w).workers to ≡ some (target_after snap to target)
  unfolding transfer_phases target_after
  phases_target apart = ground (arith, at_source, at_target)

  pub phases_same :
      from ≡ to → (transfer_phases snap from to w).workers to ≡ some (same_after snap to source)
  unfolding transfer_phases same_after target_after
  phases_same same = ground (arith, at_source, at_target)

  pub phases_elsewhere :
      (m : ℕ) → m ≢ from → m ≢ to → (transfer_phases snap from to w).workers m ≡ w.workers m
  unfolding transfer_phases
  phases_elsewhere m ne ne' = ground (arith, at_source, at_target)

  pub phases_free : (transfer_phases snap from to w).free ≡ snap.id ∷ w.free
  unfolding transfer_phases remove_entity
  phases_free = ground (arith, at_source, at_target)
