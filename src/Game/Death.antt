-- ===== src/Game/Death.antt =====
-- Deaths and respawns (DeathSystem of server/game/combat.go, server/game/respawn.go, and the monster templates of
-- server/models/monster.go). Notices, but for their numbers, and events are left out, and so is the threat table, which is nil by the time
-- its monster is removed. A result of none is a panic, or fuel of the level loop that has run out.
pub mod Shares
pub mod Queue
pub mod Outcome
mod Tests
use Prim.Native.Nat.{Ordering, lt, eq, gt}
use Prim.Native.String.{String}
use Prim.Native.String
use minnsun_s_adventure.Common.{
  ℕ, zero, suc, ◌+◌, ◌-◌, ◌/◌, ◌%◌, ◌^◌, Bool, true, false, List, [], ◌∷◌, ◌++◌, Option, none, some,
  leb, ltb, ◌==◌, if◌then◌else◌, length,
}
use minnsun_s_adventure.Common.Partial.{◌>>=◌}
use minnsun_s_adventure.Common.Int.{ℤ, pos, negsuc, eqb_ℤ}
use minnsun_s_adventure.Common.Table.{Table, insert, erase}
use minnsun_s_adventure.Ecs.Entity.{Entity}
use minnsun_s_adventure.Ecs.Components.{
  is_player, is_monster, PositionComponent, MetadataComponent, StatsComponent, AiComponent, idle,
  EntityType, entity_player, entity_monster, zero_stats,
}
use minnsun_s_adventure.Ecs.Registry.{Registry, remove_entity}
use minnsun_s_adventure.Game.State.{GameState, purge, spawn_id}
use minnsun_s_adventure.Game.Decimal.{Bytes, append_uint64, append_int}
use minnsun_s_adventure.Game.Progression.{add_experience}
use minnsun_s_adventure.Peakgo.Timer.{new_tick_timer}

-- `leash_radius` is twice the aggro radius, as an int.
pub record MonsterTemplate : Type 0 where
  pub id : ℤ
  pub name : String
  pub hp : ℤ
  pub dam : ℤ
  pub spawn_x : ℤ
  pub spawn_z : ℤ
  pub roam_radius : ℤ
  pub leash_radius : ℤ
  pub attack_cooldown : ℤ
  pub xp_reward : ℕ
  pub melee_range : ℤ

abbrev pub is_name : String → String → Bool
is_name a b = elim (String.compare a b) [ lt ↦ false | eq ↦ true | gt ↦ false ]

-- `GetTemplate` and `GetTemplateByName`, on the templates in the order that the loop takes.
abbrev pub get_template : ℤ → List MonsterTemplate → Option MonsterTemplate
get_template id [] = none
get_template id (t ∷ ts) = if eqb_ℤ t.id id then some t else get_template id ts

abbrev pub get_template_by_name : String → List MonsterTemplate → Option MonsterTemplate
get_template_by_name name [] = none
get_template_by_name name (t ∷ ts) =
    if is_name t.name name then some t else get_template_by_name name ts

pub record RespawnEvent : Type 0 where
  pub template_id : ℤ
  pub map_id : ℤ
  pub spawn_x : ℤ
  pub spawn_z : ℤ
  pub respawn_at : ℕ

-- The game's state with the queue of `GlobalRespawnManager`.
pub record Battle : Type 0 where
  pub game : GameState
  pub events : List RespawnEvent

-- `ScheduleMonsterRespawn`, at a tick.
abbrev pub schedule_monster_respawn : ℕ → ℤ → ℤ → ℤ → ℤ → ℕ → Battle → Battle
schedule_monster_respawn tick template map x z delay b = record b {
  events =
      b.events
      ++ (record {
        template_id = template;
        map_id = map;
        spawn_x = x;
        spawn_z = z;
        respawn_at = (tick + delay) % 2 ^ 64;
      }
          ∷ []);
}

-- `SpawnMonsterFromTemplate`, for a template that is found.
unfoldable pub spawn_monster : MonsterTemplate → ℤ → ℤ → ℤ → GameState → Entity × GameState
unfolding spawn_id new_tick_timer
spawn_monster t map x z s =
    let (id, s') = spawn_id s in
    let r = s'.registry in
    (
      id,
      record s' {
        registry = record r {
          metadata = insert id (record { name = t.name; type = entity_monster }) r.metadata;
          positions = insert id (record { map_id = map; x = x; z = z }) r.positions;
          stats =
              insert id
                (record zero_stats {
                  hp = t.hp;
                  max_hp = t.hp;
                  dam = t.dam;
                  attack = t.dam;
                  hit_rate = pos 800;
                  dodge_rate = pos 50;
                  crit_rate = pos 50;
                  crit_damage = pos 1500;
                })
                r.stats;
          ai =
              insert id
                (record {
                  state = idle;
                  target_id = 0;
                  spawn_x = x;
                  spawn_z = z;
                  spawn_radius = t.roam_radius;
                  leash_radius = t.leash_radius;
                  melee_range = t.melee_range;
                  attack_timer = new_tick_timer t.attack_cooldown;
                  idle_timer = new_tick_timer (pos 8);
                  path_timer = new_tick_timer (pos 4);
                  roam_target_x = pos 0;
                  roam_target_z = pos 0;
                })
                r.ai;
        };
      },
    )

-- One event of `RunRespawnSystem` that is due: the monster is spawned and put in the grid.
unfoldable pub respawn : MonsterTemplate → RespawnEvent → GameState → GameState
unfolding spawn_monster
respawn t ev s =
    let (id, s') = spawn_monster t ev.map_id ev.spawn_x ev.spawn_z s in
    record s' {
      grid = insert id (record { map_id = ev.map_id; x = ev.spawn_x; z = ev.spawn_z }) s'.grid;
    }

-- The loop of `RunRespawnSystem`: the events that stay, and the state.
pub respawn_loop :
    List MonsterTemplate → ℕ → List RespawnEvent → GameState → List RespawnEvent × GameState
unfolding respawn
respawn_loop templates tick [] s = ([], s)
respawn_loop templates tick (ev ∷ evs) s =
    let kept = respawn_loop templates tick evs s in
    if leb ev.respawn_at tick
    then elim (get_template ev.template_id templates) [
      | none ↦ (ev ∷ kept.0, kept.1)
      | some t ↦ respawn_loop templates tick evs (respawn t ev s)
    ]
    else (ev ∷ kept.0, kept.1)

-- `RunRespawnSystem`
unfoldable pub run_respawn_system : List MonsterTemplate → ℕ → Battle → Battle
unfolding respawn_loop
run_respawn_system templates tick b =
    let r = respawn_loop templates tick b.events b.game in record { game = r.1; events = r.0 }

-- The loop that gives every member a share.
abbrev pub share_out : (ℕ → ℕ) → ℕ → List Entity → Registry → Option Registry
share_out curve share [] r = some r
share_out curve share (m ∷ ms) r = add_experience curve m share r >>= share_out curve share ms

-- The share of one of n members, of which there is at least one.
abbrev pub share_of : ℕ → ℕ → ℕ
share_of bounty n = let q = bounty / n in if q == 0 then 1 else q

-- `GetPlayerPartyID`
abbrev pub party_id_of : Entity → Registry → Entity
party_id_of player r = elim (r.party_members player) [ none ↦ 0 | some m ↦ m.party_id ]

-- The experience for a kill by a player.
unfoldable pub distribute : (ℕ → ℕ) → Entity → ℕ → Registry → Option Registry
distribute curve killer bounty r =
    let party_id = party_id_of killer r in
    let shared : Option Registry = elim (r.parties party_id) [
      | none ↦ some r
      | some party ↦ elim party.member_ids [
        | [] ↦ some r
        | m ∷ ms ↦ share_out curve (share_of bounty (length (m ∷ ms))) (m ∷ ms) r
      ]
    ] in
    if bounty == 0
    then some r
    else if party_id == 0
    then add_experience curve killer bounty r
    else shared

-- The numbers in the notice of a death: for a monster that killed, its ID and the damage, of which `appendInt`
-- panics where it runs out of places. The rest of the notice is left out.
unfoldable pub notice_numbers : Entity → MetadataComponent → ℤ → Option Bytes
unfolding append_uint64 append_int
notice_numbers killer killer_meta damage =
    let numbers : Option Bytes = append_uint64 [] killer >>= λ b. append_int b damage in
    if is_monster killer_meta.type then numbers else some []

-- `DeathSystem`, at a tick, up to the call of `RemoveEntity`.
unfoldable pub before_removal :
    List MonsterTemplate
    → (ℕ → ℕ)
    → ℕ
    → Entity
    → Entity
    → MetadataComponent
    → MetadataComponent
    → ℤ
    → Battle
    → Option Battle
unfolding distribute notice_numbers
before_removal templates curve tick target killer target_meta killer_meta damage b =
    let r = b.game.registry in
    let at : ℤ = elim (r.positions target) [ none ↦ pos 0 | some p ↦ p.map_id ] in
    let b' = record b { game = record b.game { grid = erase target b.game.grid } } in
    let rest : Option Battle =
      (if is_player target_meta.type
        then some b'
        else elim (get_template_by_name target_meta.name templates) [
          | none ↦ some b'
          | some t ↦
              let x : ℤ = elim (r.ai target) [ none ↦ t.spawn_x | some ai ↦ ai.spawn_x ] in
              let z : ℤ = elim (r.ai target) [ none ↦ t.spawn_z | some ai ↦ ai.spawn_z ] in
              let b'' = schedule_monster_respawn tick t.id at x z 60 b' in
              let paid = distribute curve killer t.xp_reward r in
              if is_player killer_meta.type
              then (paid >>= λ r'. some (record b'' { game = record b''.game { registry = r' } }))
              else some b''
        ]) in
    notice_numbers killer killer_meta damage >>= λ _. rest

-- `registry.RemoveEntity(targetID)`
unfoldable pub remove_dead : Entity → Battle → Battle
unfolding remove_entity
remove_dead target b =
    let (r, free) = remove_entity target (b.game.registry, b.game.free) in
    record b { game = record b.game { registry = r; free = free } }

-- `DeathSystem`, at a tick: a player is not removed.
unfoldable pub death_system :
    List MonsterTemplate
    → (ℕ → ℕ)
    → ℕ
    → Entity
    → Entity
    → MetadataComponent
    → MetadataComponent
    → ℤ
    → Battle
    → Option Battle
unfolding before_removal remove_dead
death_system templates curve tick target killer target_meta killer_meta damage b =
    before_removal templates curve tick target killer target_meta killer_meta damage b >>= λ b'.
    some (if is_player target_meta.type then b' else remove_dead target b')
