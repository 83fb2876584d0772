-- ===== src/Game/Attack.antt =====
-- Attacks (AttackSystem and DamageSystem of server/game/combat.go). The damage is accumulated where an accumulator is
-- installed, and taken off at once otherwise. Notices are left out, and so is the threat that an attack adds (it is
-- in Peakgo.Threat). A result of none is a panic or fuel of the level loop that has run out.
pub mod Buffered
mod Tests
use minnsun_s_adventure.Common.{
  ℕ, zero, suc, ◌+◌, ◌-◌, ◌%◌, ◌^◌, Bool, true, false, ◌&&◌, not, List, [], ◌∷◌, Option, none, some,
  ◌==◌, if◌then◌else◌,
}
use minnsun_s_adventure.Common.Partial.{◌>>=◌}
use minnsun_s_adventure.Common.Int.{ℤ, pos, negsuc, ◌+ℤ◌, ◌-ℤ◌, ltb_ℤ, leb_ℤ, eqb_ℤ, int64}
use minnsun_s_adventure.Common.Table.{Table, insert}
use minnsun_s_adventure.Ecs.Entity.{Entity}
use minnsun_s_adventure.Ecs.Components.{
  is_player, is_monster, StatsComponent, MetadataComponent, PositionComponent, AiComponent, AiState,
  transferring, EntityType, entity_monster,
}
use minnsun_s_adventure.Ecs.Registry.{Registry}
use minnsun_s_adventure.Ecs.Accumulator.{CombatAccumulator, add_damage}
use minnsun_s_adventure.Game.State.{GameState, is_in_range}
use minnsun_s_adventure.Game.Items.{ItemTemplate, spawn_item_on_ground}
use minnsun_s_adventure.Game.Death.{MonsterTemplate, Battle, get_template_by_name, death_system}
use minnsun_s_adventure.Peakgo.Rng.{Draws, intn}
use minnsun_s_adventure.Peakgo.Anticheat.{clamp_pos}
use minnsun_s_adventure.Peakgo.Combat.{
  Stats, DamageModifiers, physical, no_element, resolve_physical,
}
use minnsun_s_adventure.Peakgo.Loot.{LootTable, roll_loot}

-- The configuration, the tick, and the random numbers.
pub record Setting : Type 0 where
  pub items : Table ItemTemplate
  pub templates : List MonsterTemplate
  pub loot_tables : Table LootTable
  pub curve : ℕ → ℕ
  pub tick : ℕ
  pub draws : Draws
  pub disable_rng : Bool

-- The state, with `CurrentCombatBuffer` and the number of the next random number.
pub record Arena : Type 0 where
  pub battle : Battle
  pub buffer : Option CombatAccumulator
  pub drawn : ℕ

pub data AttackReply : Type 0 where
  hit killed : ℤ → AttackReply
  self_target no_attacker no_attacker_meta no_target no_target_meta target_dead target_transferring
        out_of_range :
      AttackReply

-- `statsToCombatStats`
abbrev pub stats_to_combat_stats : StatsComponent → Stats
stats_to_combat_stats s = record {
  level = s.level;
  max_hp = s.max_hp;
  current_hp = s.hp;
  max_mp = s.max_mp;
  current_mp = s.mp;
  attack = if eqb_ℤ s.attack (pos 0) && ltb_ℤ (pos 0) s.dam then s.dam else s.attack;
  magic_attack = s.magic_attack;
  defense = s.defense;
  magic_defense = s.magic_defense;
  hit_rate = s.hit_rate;
  dodge_rate = s.dodge_rate;
  crit_rate = s.crit_rate;
  crit_damage = s.crit_damage;
}

abbrev pub plain_attack : DamageModifiers
plain_attack = record {
  is_crit = false;
  is_guaranteed = false;
  damage_type = physical;
  element = no_element;
  defender_element = no_element;
  skill_multiplier = pos 0;
}

-- `DamageSystem`: what it returns for the target's HP.
unfoldable pub damage_system : Entity → ℤ → Arena → ℤ × Arena
unfolding add_damage
damage_system target amount a =
    let r = a.battle.game.registry in
    elim a.buffer [
      | some buffer ↦ (
        elim (r.stats target) [ none ↦ pos 0 | some s ↦ s.hp ],
        record a { buffer = some (add_damage target amount (pos 0) buffer) },
      )
      | none ↦ elim (r.stats target) [
        | none ↦ (pos 0, a)
        | some s ↦
            let hp = int64 (s.hp -ℤ amount) in
            (
              hp,
              record a {
                battle = record a.battle {
                  game = record a.battle.game {
                    registry = record r { stats = insert target (record s { hp = hp }) r.stats };
                  };
                };
              },
            )
      ]
    ]

-- `uint64(tmpl.ID)`
abbrev pub to_uint64 : ℤ → ℕ
to_uint64 (pos n) = n % 2 ^ 64
to_uint64 (negsuc n) = 2 ^ 64 - 1 - n % 2 ^ 64

-- The loop over the items dropped: each at most one step from the place of the death, inside the map.
unfoldable pub drop_items : Setting → PositionComponent → List ℕ → Arena → Option Arena
unfolding intn spawn_item_on_ground clamp_pos
drop_items set at [] a = some a
drop_items set at (item ∷ items) a = do
  (dx, i) ← intn set.draws (pos 3) a.drawn
  (dz, j) ← intn set.draws (pos 3) i
  let (x, z) =
      clamp_pos (int64 (at.x +ℤ int64 (dx -ℤ pos 1))) (int64 (at.z +ℤ int64 (dz -ℤ pos 1))) (pos 0)
        (pos 100)
  let (id, game) =
      spawn_item_on_ground set.items set.tick item (record { map_id = at.map_id; x = x; z = z })
        a.battle.game
  drop_items set at items (record a { battle = record a.battle { game = game }; drawn = j })

-- The loot of a monster that a player killed.
unfoldable pub drop_loot : Setting → Entity → MetadataComponent → Arena → Option Arena
unfolding drop_items roll_loot
drop_loot set target target_meta a = elim (get_template_by_name target_meta.name set.templates) [
  | none ↦ some a
  | some t ↦ (do
    (dropped, i) ← roll_loot set.draws set.loot_tables (to_uint64 t.id) a.drawn
    let a' = record a { drawn = i }
    elim (a.battle.game.registry.positions target) [
      | none ↦ some a'
      | some at ↦ drop_items set at dropped a'
    ])
]

-- The attack, once nothing refuses it.
unfoldable pub land_attack :
    Setting
    → Entity
    → Entity
    → StatsComponent
    → MetadataComponent
    → StatsComponent
    → MetadataComponent
    → Arena
    → Option (AttackReply × Arena)
unfolding resolve_physical damage_system death_system drop_loot
land_attack set attacker target attacker_stats attacker_meta target_stats target_meta a = do
  (cr, i) ←
      resolve_physical set.draws set.disable_rng (stats_to_combat_stats attacker_stats)
        (stats_to_combat_stats target_stats) plain_attack a.drawn
  let (remaining, a') = damage_system target cr.damage_dealt (record a { drawn = i })
  let dead = (do
    b ←
        death_system set.templates set.curve set.tick target attacker target_meta attacker_meta
          cr.damage_dealt a'.battle
    let after = record a' { battle = b }
    let loot = drop_loot set target target_meta after
    a'' ← if is_monster target_meta.type && is_player attacker_meta.type then loot else some after
    some (killed cr.damage_dealt, a''))
  if leb_ℤ remaining (pos 0) then dead else some (hit cr.damage_dealt, a')

-- `AttackSystem`
unfoldable pub attack_system : Setting → Entity → Entity → Arena → Option (AttackReply × Arena)
unfolding land_attack is_in_range
attack_system set attacker target a =
    let r = a.battle.game.registry in
    let transferring_now : Bool = elim (r.ai target) [
      | none ↦ false
      | some ai ↦ elim ai.state [ transferring ↦ true | _ ↦ false ]
    ] in
    if attacker == target then some (self_target, a) else elim (r.stats attacker) [
      | none ↦ some (no_attacker, a)
      | some attacker_stats ↦ elim (r.metadata attacker) [
        | none ↦ some (no_attacker_meta, a)
        | some attacker_meta ↦ elim (r.stats target) [
          | none ↦ some (no_target, a)
          | some target_stats ↦ elim (r.metadata target) [
            | none ↦ some (no_target_meta, a)
            | some target_meta ↦
                if leb_ℤ target_stats.hp (pos 0)
                then some (target_dead, a)
                else if transferring_now
                then some (target_transferring, a)
                else if not (is_in_range attacker target 5 r)
                then some (out_of_range, a)
                else land_attack set attacker target attacker_stats attacker_meta target_stats
                    target_meta a
          ]
        ]
      ]
    ]
