-- ===== src/Game/Death/Outcome.antt =====
-- What the death of a monster leaves (DeathSystem of server/game/combat.go).
use minnsun_s_adventure.Common.{
  ℕ, ◌+◌, ◌%◌, ◌^◌, ◌<◌, ◌≡◌, refl, inl, inr, true, [], none, some, Bool-cases,
}
use minnsun_s_adventure.Common.Int.{ℤ, pos, pos_part, neg_part}
use minnsun_s_adventure.Ecs.Entity.{Entity}
use minnsun_s_adventure.Ecs.Components.{is_monster, MetadataComponent}
use minnsun_s_adventure.Game.Decimal.{Bytes}
use minnsun_s_adventure.Game.Decimal.Digits.{append_uint64_round_trip, append_int_round_trip}
use minnsun_s_adventure.Ecs.Registry.{Registry}
use minnsun_s_adventure.Game.State.{GameState}
use minnsun_s_adventure.Game.Death.{MonsterTemplate, RespawnEvent, notice_numbers}

-- The entity has no metadata, stats, position, AI and effects, and no place in the grid.
pub record IsGone (id : Entity) (s : GameState) : Type 0 where
  pub metadata : s.registry.metadata id ≡ none
  pub stats : s.registry.stats id ≡ none
  pub position : s.registry.positions id ≡ none
  pub ai : s.registry.ai id ≡ none
  pub effects : s.registry.effects id ≡ none
  pub place : s.grid id ≡ none

-- The place where the monster is to appear again: the one that it was spawned at, on the map of its death.
abbrev pub respawn_of : MonsterTemplate → ℕ → Entity → Registry → RespawnEvent
respawn_of t tick target r = record {
  template_id = t.id;
  map_id = elim (r.positions target) [ none ↦ pos 0 | some p ↦ p.map_id ];
  spawn_x = elim (r.ai target) [ none ↦ t.spawn_x | some ai ↦ ai.spawn_x ];
  spawn_z = elim (r.ai target) [ none ↦ t.spawn_z | some ai ↦ ai.spawn_z ];
  respawn_at = (tick + 60) % 2 ^ 64;
}

-- The damage is one that `appendInt` prints, if a monster killed.
abbrev pub IsPrintable : MetadataComponent → ℤ → Type 0
IsPrintable killer_meta damage =
    is_monster killer_meta.type ≡ true → (pos_part damage < 10 ^ 12) × (neg_part damage < 10 ^ 11)

pub notice_numbers_lem :
    (killer : Entity) (killer_meta : MetadataComponent) (damage : ℤ)
    → killer < 2 ^ 64
    → IsPrintable killer_meta damage
    → (out : Bytes) × (notice_numbers killer killer_meta damage ≡ some out)
unfolding notice_numbers
notice_numbers_lem killer killer_meta damage small fits =
    elim (Bool-cases (is_monster killer_meta.type)) [
      | inr e ↦ ([], rw e refl)
      | inl e ↦
          let (hp, hn) = fits e in
          let (b, prints, _) = append_uint64_round_trip [] killer small in
          let (out, prints', _) = append_int_round_trip b damage hp hn in
          (out, rw (e, prints) prints')
    ]
