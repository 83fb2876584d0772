-- ===== src/Game/Progression.antt =====
-- Experience and levels (server/game/progression.go). The curve 100 * level ^ 1.8, rounded down, is computed in
-- floating-point numbers and is an argument; notices and events are left out.
pub mod Levels
mod Tests
use minnsun_s_adventure.Common.{
  ℕ, zero, suc, ◌+◌, ◌-◌, ◌%◌, ◌^◌, Bool, true, false, Option, none, some, leb, if◌then◌else◌,
}
use minnsun_s_adventure.Common.Partial.{◌>>=◌}
use minnsun_s_adventure.Common.Int.{ℤ, pos, neg_part, pos_part, ◌+ℤ◌, leb_ℤ, int64}
use minnsun_s_adventure.Common.Table.{insert}
use minnsun_s_adventure.Ecs.Entity.{Entity}
use minnsun_s_adventure.Ecs.Components.{StatsComponent}
use minnsun_s_adventure.Ecs.Registry.{Registry}

-- `CalculateXPThreshold`
abbrev pub calculate_xp_threshold : (ℕ → ℕ) → ℤ → ℕ
calculate_xp_threshold curve level = if leb_ℤ level (pos 0) then 0 else curve (pos_part level)

-- A level is gained for its threshold.
abbrev pub level_up : (ℕ → ℕ) → StatsComponent → StatsComponent
level_up curve s = record s {
  xp = s.xp - calculate_xp_threshold curve s.level;
  level = int64 (s.level +ℤ pos 1);
  max_hp = int64 (s.max_hp +ℤ pos 25);
  max_mp = int64 (s.max_mp +ℤ pos 10);
  dam = int64 (s.dam +ℤ pos 3);
}

-- The loop over levels, on fuel: whether a level was gained, and the stats; none is fuel that has run out.
unfoldable pub level_cascade : (ℕ → ℕ) → ℕ → StatsComponent → Option (Bool × StatsComponent)
level_cascade curve zero s = none
level_cascade curve (suc fuel) s =
    let rest = level_cascade curve fuel (level_up curve s) >>= λ r. some (true, r.1) in
    if leb (calculate_xp_threshold curve s.level) s.xp then rest else some (false, s)

-- More rounds than the loop makes: each above level 0 takes at least 1 off the experience.
abbrev pub rounds : StatsComponent → ℕ
rounds s = neg_part s.level + s.xp + 2

-- `AddExperienceSystem`
unfoldable pub add_experience : (ℕ → ℕ) → Entity → ℕ → Registry → Option Registry
unfolding level_cascade
add_experience curve player gained r = elim (r.stats player) [
  | none ↦ some r
  | some stats ↦
      let s = record stats { xp = (stats.xp + gained) % 2 ^ 64 } in
      level_cascade curve (rounds s) s >>= λ (up, s'). some (record r {
        stats =
            insert player (if up then record s' { hp = s'.max_hp; mp = s'.max_mp } else s') r.stats;
      })
]
