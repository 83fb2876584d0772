-- ===== src/Ecs/Registry.antt =====
-- `Registry` of server/ecs/ecs.go: twelve component stores. A store is used as the map that
-- `Ecs.Store.Refine` shows it to be, which holds while no two generations of one index are in it: a store in
-- which `Set` meets another generation of its index no longer finds that one, and this model does.
use minnsun_s_adventure.Common.{ℕ, none, some, []}
use minnsun_s_adventure.Common.Table.{Table, empty, insert, erase}
use minnsun_s_adventure.Ecs.Entity.{Entity, FreeList, recycle_entity_id}
use minnsun_s_adventure.Ecs.Components.{
  PositionComponent, ConnectionComponent, MetadataComponent, StatsComponent, AiComponent,
  InventoryComponent, LifetimeComponent, ItemTemplateComponent, EquipmentComponent, PartyComponent,
  PartyMemberComponent, EffectsComponent,
}

pub record Registry : Type 0 where
  pub next_id : ℕ
  pub positions : Table PositionComponent
  pub conns : Table ConnectionComponent
  pub metadata : Table MetadataComponent
  pub stats : Table StatsComponent
  pub ai : Table AiComponent
  pub inventories : Table InventoryComponent
  pub lifetimes : Table LifetimeComponent
  pub item_templates : Table ItemTemplateComponent
  pub equipment : Table EquipmentComponent
  pub parties : Table PartyComponent
  pub party_members : Table PartyMemberComponent
  pub effects : Table EffectsComponent

-- `NewRegistry`
unfoldable pub new_registry : Registry
new_registry = record {
  next_id = 0;
  positions = empty;
  conns = empty;
  metadata = empty;
  stats = empty;
  ai = empty;
  inventories = empty;
  lifetimes = empty;
  item_templates = empty;
  equipment = empty;
  parties = empty;
  party_members = empty;
  effects = empty;
}

-- `if c, ok := store.Get(id); ok { c.field = nil; store.Set(id, c) }`
abbrev pub clean : {T : Type 0} → Entity → (T → T) → Table T → Table T
clean id f m = elim (m id) [ none ↦ m | some c ↦ insert id (f c) m ]

-- `RemoveEntity` up to `r.metadata.Delete`.
unfoldable pub before_metadata : Entity → Registry → Registry
before_metadata id r = record r {
  positions = erase id r.positions;
  conns = erase id r.conns;
  inventories = clean id (λ c. record c { items = empty }) r.inventories;
  parties = clean id (λ c. record c { member_ids = [] }) r.parties;
  effects = clean id (λ c. record c { active_list = [] }) r.effects;
}

-- `RemoveEntity`, but for the release of the ID: the slices and maps of the entity are dropped, then
-- its twelve components are deleted.
unfoldable pub delete_components : Entity → Registry → Registry
delete_components id r = record r {
  positions = erase id r.positions;
  conns = erase id r.conns;
  metadata = erase id r.metadata;
  stats = erase id r.stats;
  ai = erase id r.ai;
  inventories = erase id (clean id (λ c. record c { items = empty }) r.inventories);
  lifetimes = erase id r.lifetimes;
  item_templates = erase id r.item_templates;
  equipment = erase id r.equipment;
  parties = erase id (clean id (λ c. record c { member_ids = [] }) r.parties);
  party_members = erase id r.party_members;
  effects = erase id (clean id (λ c. record c { active_list = [] }) r.effects);
}

-- `RemoveEntity`: the free list of IDs is shared by all registries.
unfoldable pub remove_entity : Entity → Registry × FreeList → Registry × FreeList
unfolding delete_components
remove_entity id (r, free) = (delete_components id r, recycle_entity_id id free)
