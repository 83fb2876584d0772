-- ===== src/Game/Items.antt =====
-- Items (server/game/item.go, item_usage.go, equipment.go, stat_engine.go, pickup.go, ground_item.go). The
-- item registry is an argument, a reply is named for its text, and messages to players are left out.
pub mod Usage
pub mod Gear
pub mod Pickups
mod Tests
use Prim.Native.String.{String}
use minnsun_s_adventure.Common.{
  ℕ, suc, ◌+◌, ◌%◌, ◌^◌, Bool, true, false, not, ◌||◌, Option, none, some, List, [], ◌∷◌, ◌==◌, leb,
  if◌then◌else◌, length,
}
use minnsun_s_adventure.Common.Int.{ℤ, pos, negsuc, ◌+ℤ◌, ◌-ℤ◌, ◌*ℤ◌, ltb_ℤ, leb_ℤ, int64}
use minnsun_s_adventure.Common.Table.{Table, empty, insert, erase}
use minnsun_s_adventure.Ecs.Entity.{Entity}
use minnsun_s_adventure.Ecs.Components.{
  EntityType, entity_ground_item, StatsComponent, zero_stats, EquipmentComponent,
  InventoryComponent, Items, quantity, MetadataComponent, PositionComponent,
}
use minnsun_s_adventure.Ecs.Registry.{Registry, before_metadata}
use minnsun_s_adventure.Peakgo.Codec.{Bytes, read_uint64}
use minnsun_s_adventure.Game.State.{
  GameState, Locked, returns, blocks, is_in_range, purge, spawn_id,
}

pub data SlotType : Type 0 where
  weapon armor consumable no_slot : SlotType

pub record ItemTemplate : Type 0 where
  pub id : ℕ
  pub name : String
  pub description : String
  pub heal_value : ℤ
  pub slot_type : SlotType
  pub bonus_dam : ℤ
  pub bonus_hp : ℤ

abbrev pub plain_item : ℕ → String → String → SlotType → ItemTemplate
plain_item id name description slot = record {
  id = id;
  name = name;
  description = description;
  heal_value = pos 0;
  slot_type = slot;
  bonus_dam = pos 0;
  bonus_hp = pos 0;
}

-- `InitializeItemRegistry`, on an empty registry.
unfoldable pub initialize_item_registry : Table ItemTemplate
initialize_item_registry =
    insert 404
      (record (plain_item 404 "Leather Armor" "Simple leather armor that protects the body."
        armor) { bonus_hp = pos 30 })
      (insert 303
        (record (plain_item 303 "Iron Sword" "A forged blade that increases strike force." weapon) {
          bonus_dam = pos 15;
        })
        (insert 202
          (plain_item 202 "Boar Tusk" "A sharp tusk used for crafting equipment." consumable)
          (insert 101
            (record (plain_item 101 "Red Potion" "Restores 50 Vitality HP instantly." consumable) {
              heal_value = pos 50;
            })
            empty)))

pub data ItemReply : Type 0 where
  consumed equipped stowed : ItemReply
  bad_length unknown_item not_consumable not_owned no_stats dead full_health : ItemReply
  not_equippable vanished too_far : ItemReply

-- `inv.Items[itemID]--`, and an item of which there are none left is deleted.
abbrev pub take_one : ℕ → Items → Items
take_one item items =
    let left = int64 (quantity item items -ℤ pos 1) in
    if leb_ℤ left (pos 0) then erase item items else insert item left items

-- HP after a potion.
abbrev pub healed : ℤ → StatsComponent → ℤ
healed heal stats =
    let hp = int64 (stats.hp +ℤ heal) in if ltb_ℤ stats.max_hp hp then stats.max_hp else hp

-- `HandleItemUsageSystem`; none is a panic.
unfoldable pub handle_item_usage :
    Table ItemTemplate → Entity → Bytes → Registry → Option (ItemReply × Registry)
handle_item_usage items player payload r =
    if not (length payload == 8) then some (bad_length, r) else elim (read_uint64 payload) [
      | none ↦ none
      | some item ↦ elim (items item) [
        | none ↦ some (unknown_item, r)
        | some template ↦
            if leb_ℤ template.heal_value (pos 0)
            then some (not_consumable, r)
            else elim (r.inventories player) [
              | none ↦ some (not_owned, r)
              | some inv ↦
                  if leb_ℤ (quantity item inv.items) (pos 0)
                  then some (not_owned, r)
                  else elim (r.stats player) [
                    | none ↦ some (no_stats, r)
                    | some stats ↦
                        if leb_ℤ stats.hp (pos 0)
                        then some (dead, r)
                        else if leb_ℤ stats.max_hp stats.hp
                        then some (full_health, r)
                        else some (
                          consumed,
                          record r {
                            inventories =
                                insert player (record { items = take_one item inv.items })
                                  r.inventories;
                            stats =
                                insert player
                                  (record stats { hp = healed template.heal_value stats }) r.stats;
                          },
                        )
                  ]
            ]
      ]
    ]

-- What a slot of the equipment adds.
abbrev pub bonus : Table ItemTemplate → (ItemTemplate → ℤ) → ℕ → ℤ
bonus items f item = elim (items item) [ none ↦ pos 0 | some template ↦ f template ]

-- `baseMaxHP` and `baseDamage`, before equipment: `base + (level - 1) * step` above level 1.
abbrev pub scaled : ℤ → ℤ → ℤ → ℤ
scaled base step level =
    if ltb_ℤ (pos 1) level then int64 (base +ℤ int64 (int64 (level -ℤ pos 1) *ℤ step)) else base

-- The stats of a player who has none, of level 1.
abbrev pub first_stats : StatsComponent
first_stats = record zero_stats { level = pos 1; hp = pos 100; max_hp = pos 100; dam = pos 15 }

-- The new stats, with the bonuses of armor and weapon.
abbrev pub aggregate : ℤ → ℤ → StatsComponent → StatsComponent
aggregate armor_hp weapon_dam stats =
    let max_hp = int64 (scaled (pos 100) (pos 50) stats.level +ℤ armor_hp) in
    let dam = int64 (scaled (pos 15) (pos 10) stats.level +ℤ weapon_dam) in
    record stats {
      max_hp = max_hp;
      dam = dam;
      attack = dam;
      hp = if ltb_ℤ max_hp stats.hp then max_hp else stats.hp;
    }

-- `RecalculateActiveStats`
unfoldable pub recalculate_active_stats : Table ItemTemplate → Entity → Registry → Registry
recalculate_active_stats items player r =
    let stats : StatsComponent = elim (r.stats player) [ none ↦ first_stats | some s ↦ s ] in
    let armor_hp : ℤ = elim (r.equipment player) [
      | none ↦ pos 0
      | some e ↦ bonus items (λ t. t.bonus_hp) e.armor_id
    ] in
    let weapon_dam : ℤ = elim (r.equipment player) [
      | none ↦ pos 0
      | some e ↦ bonus items (λ t. t.bonus_dam) e.weapon_id
    ] in
    record r { stats = insert player (aggregate armor_hp weapon_dam stats) r.stats }

-- The slot that the item is put into; none where it is no gear.
abbrev pub put_on : SlotType → ℕ → EquipmentComponent → Option EquipmentComponent
put_on weapon item e = some (record e { weapon_id = item })
put_on armor item e = some (record e { armor_id = item })
put_on consumable item e = none
put_on no_slot item e = none

-- `HandleEquipmentSystem`
unfoldable pub handle_equipment : Table ItemTemplate → Entity → ℕ → Registry → ItemReply × Registry
unfolding recalculate_active_stats
handle_equipment items player item r = elim (items item) [
  | none ↦ (not_equippable, r)
  | some template ↦
      let worn : EquipmentComponent = elim (r.equipment player) [
        | none ↦ record { weapon_id = 0; armor_id = 0 }
        | some e ↦ e
      ] in
      elim (put_on template.slot_type item worn) [
        | none ↦ (not_equippable, r)
        | some e ↦ elim (r.inventories player) [
          | none ↦ (not_owned, r)
          | some inv ↦ if leb_ℤ (quantity item inv.items) (pos 0) then (not_owned, r) else (
            equipped,
            recalculate_active_stats items player
                (record r { equipment = insert player e r.equipment }),
          )
        ]
      ]
]

-- The template of a ground item; 101 where it has none.
abbrev pub template_of : Entity → Registry → ℕ
template_of id r = elim (r.item_templates id) [ none ↦ 101 | some t ↦ t.template_id ]

abbrev pub is_ground_item : EntityType → Bool
is_ground_item entity_ground_item = true
is_ground_item _ = false

-- The player's items with one more; of a nil map, a new one.
abbrev pub stow_one : ℕ → Option InventoryComponent → InventoryComponent
stow_one item none = record { items = insert item (pos 1) empty }
stow_one item (some inv) = record {
  items = insert item (int64 (quantity item inv.items +ℤ pos 1)) inv.items;
}

-- `HandleItemPickupSystem`, with its range of 5 units.
unfoldable pub handle_item_pickup : Entity → Entity → GameState → ItemReply × GameState
unfolding purge is_in_range
handle_item_pickup player item s = elim (s.registry.metadata item) [
  | none ↦ (vanished, s)
  | some meta ↦
      if not (is_ground_item meta.type)
      then (vanished, s)
      else if not (is_in_range player item 5 s.registry)
      then (too_far, s)
      else elim (s.registry.positions item) [
        | none ↦ (vanished, s)
        | some at ↦
            let s' = purge item s in
            let inv = stow_one (template_of item s.registry) (s'.registry.inventories player) in
            (
              stowed,
              record s' {
                registry = record s'.registry {
                  inventories = insert player inv s'.registry.inventories;
                };
              },
            )
      ]
]

-- `SpawnItemOnGround`, at a tick; 0 is no entity.
unfoldable pub spawn_item_on_ground :
    Table ItemTemplate → ℕ → ℕ → PositionComponent → GameState → Entity × GameState
unfolding spawn_id
spawn_item_on_ground items tick item at s = elim (items item) [
  | none ↦ (0, s)
  | some template ↦
      let (id, s') = spawn_id s in
      let r = s'.registry in
      (
        id,
        record s' {
          grid = insert id at s'.grid;
          registry = record r {
            positions = insert id at r.positions;
            metadata =
                insert id (record { name = template.name; type = entity_ground_item }) r.metadata;
            item_templates = insert id (record { template_id = item }) r.item_templates;
            lifetimes = insert id (record { spawned_tick = tick; duration = 240 }) r.lifetimes;
          };
        },
      )
]

-- The item is on the ground and its time has come, at a tick.
unfoldable pub is_due : ℕ → Entity → GameState → Bool
is_due tick id s = elim (s.registry.metadata id) [
  | none ↦ false
  | some meta ↦ if not (is_ground_item meta.type) then false else elim (s.registry.lifetimes id) [
    | none ↦ false
    | some life ↦ leb ((life.spawned_tick + life.duration) % 2 ^ 64) tick
  ]
]

-- `RunGroundItemDecaySystem`, at a tick, on the entities in the order of the metadata store. The loop holds the
-- read lock of that store, and the `RemoveEntity` of the first item that is due waits for its write lock.
unfoldable pub run_decay : ℕ → List Entity → GameState → Locked GameState
unfolding is_due before_metadata
run_decay tick [] s = returns s
run_decay tick (id ∷ order) s =
    if is_due tick id s
    then blocks (record s { registry = before_metadata id s.registry; grid = erase id s.grid })
    else run_decay tick order s
