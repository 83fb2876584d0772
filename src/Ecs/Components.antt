-- ===== src/Ecs/Components.antt =====
-- The component records of server/ecs/ecs.go. Names are texts. A connection, a threat table and the
-- path fields of an AI component are handles that the model does not look into.
use Prim.Native.String.{String}
use minnsun_s_adventure.Common.{ℕ, Bool, true, false, List, none, some}
use minnsun_s_adventure.Common.Int.{ℤ, pos}
use minnsun_s_adventure.Common.Table.{Table}
use minnsun_s_adventure.Ecs.Entity.{Entity}
use minnsun_s_adventure.Peakgo.Timer.{TickTimer}

pub data EntityType : Type 0 where
  entity_any entity_player entity_monster entity_ground_item : EntityType

abbrev pub is_player : EntityType → Bool
is_player entity_player = true
is_player _ = false

abbrev pub is_monster : EntityType → Bool
is_monster entity_monster = true
is_monster _ = false

-- `WireType`: what is not a player, a monster or a ground item goes out as a player.
pub wire_type : EntityType → ℕ
wire_type entity_player = 0
wire_type entity_monster = 1
wire_type entity_ground_item = 2
wire_type entity_any = 0

pub record PositionComponent : Type 0 where
  pub map_id : ℤ
  pub x : ℤ
  pub z : ℤ

-- The connection and its writer, by their addresses; 0 is nil.
pub record ConnectionComponent : Type 0 where
  pub conn : ℕ
  pub validator : ℕ
  pub writer : ℕ

pub record MetadataComponent : Type 0 where
  pub name : String
  pub type : EntityType

pub record StatsComponent : Type 0 where
  pub level : ℤ
  pub xp : ℕ
  pub hp : ℤ
  pub max_hp : ℤ
  pub mp : ℤ
  pub max_mp : ℤ
  pub dam : ℤ
  pub attack : ℤ
  pub magic_attack : ℤ
  pub defense : ℤ
  pub magic_defense : ℤ
  pub hit_rate : ℤ
  pub dodge_rate : ℤ
  pub crit_rate : ℤ
  pub crit_damage : ℤ

pub record ItemTemplateComponent : Type 0 where
  pub template_id : ℕ

pub data AiState : Type 0 where
  idle roaming chasing attacking returning transferring : AiState

pub record AiComponent : Type 0 where
  pub state : AiState
  pub target_id : Entity
  pub spawn_x : ℤ
  pub spawn_z : ℤ
  pub spawn_radius : ℤ
  pub leash_radius : ℤ
  pub melee_range : ℤ
  pub attack_timer : TickTimer
  pub idle_timer : TickTimer
  pub path_timer : TickTimer
  pub roam_target_x : ℤ
  pub roam_target_z : ℤ

-- `map[uint64]int`; a missing item reads as 0.
abbrev pub Items : Type 0
Items = Table ℤ

abbrev pub quantity : ℕ → Items → ℤ
quantity item items = elim (items item) [ none ↦ pos 0 | some n ↦ n ]

-- A nil map is read as an empty one, and `Clone` makes it one.
pub record InventoryComponent : Type 0 where
  pub items : Items

pub record LifetimeComponent : Type 0 where
  pub spawned_tick : ℕ
  pub duration : ℕ

pub data EffectKind : Type 0 where
  poison burn haste_buff : EffectKind
  other_effect : String → EffectKind

pub record ActiveEffect : Type 0 where
  pub kind : EffectKind
  pub value : ℤ
  pub duration_ticks : ℤ
  pub dot_tick_accum : ℤ

pub record EffectsComponent : Type 0 where
  pub active_list : List ActiveEffect

pub record EquipmentComponent : Type 0 where
  pub weapon_id : ℕ
  pub armor_id : ℕ

pub record PartyComponent : Type 0 where
  pub leader_id : Entity
  pub team_name : String
  pub member_ids : List Entity

pub record PartyMemberComponent : Type 0 where
  pub party_id : Entity

-- The zero values, which a failed `Get` returns.
abbrev pub zero_stats : StatsComponent
zero_stats = record {
  level = pos 0;
  xp = 0;
  hp = pos 0;
  max_hp = pos 0;
  mp = pos 0;
  max_mp = pos 0;
  dam = pos 0;
  attack = pos 0;
  magic_attack = pos 0;
  defense = pos 0;
  magic_defense = pos 0;
  hit_rate = pos 0;
  dodge_rate = pos 0;
  crit_rate = pos 0;
  crit_damage = pos 0;
}

abbrev pub zero_connection : ConnectionComponent
zero_connection = record { conn = 0; validator = 0; writer = 0 }

abbrev pub zero_timer : TickTimer
zero_timer = record { cur = pos 0; cooldown = pos 0 }

abbrev pub zero_ai : AiComponent
zero_ai = record {
  state = idle;
  target_id = 0;
  spawn_x = pos 0;
  spawn_z = pos 0;
  spawn_radius = pos 0;
  leash_radius = pos 0;
  melee_range = pos 0;
  attack_timer = zero_timer;
  idle_timer = zero_timer;
  path_timer = zero_timer;
  roam_target_x = pos 0;
  roam_target_z = pos 0;
}

abbrev pub zero_metadata : MetadataComponent
zero_metadata = record { name = ""; type = entity_any }
