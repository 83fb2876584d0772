-- ===== src/Game/Progression/Tests.antt =====
-- A player of level 1 gains 350 experience (server/game/progression.go), with a curve of 100 for each level.
use minnsun_s_adventure.Common.{ℕ, ◌+◌, ◌*◌, ◌≡◌, ◌≢◌, refl, ◌⊎◌, true, some, arith}
use minnsun_s_adventure.Common.Partial.{Gives}
use minnsun_s_adventure.Common.Int.{pos, ◌+ℤ◌, int64}
use minnsun_s_adventure.Common.Table.{empty, insert}
use minnsun_s_adventure.Ecs.Entity.{Entity}
use minnsun_s_adventure.Ecs.Components.{StatsComponent, zero_stats}
use minnsun_s_adventure.Ecs.Registry.{Registry, new_registry}
use minnsun_s_adventure.Game.Progression.{level_up, level_cascade, add_experience}
use minnsun_s_adventure.Game.Progression.Levels.{IsSettled, add_experience_settles}

abbrev curve : ℕ → ℕ
curve l = 100 * l

abbrev beginner : StatsComponent
beginner = record zero_stats { level = pos 1; hp = pos 40; max_hp = pos 100 }

abbrev players : Registry
unfolding new_registry
players = record new_registry { stats = insert 3 beginner empty }

two_levels :
    level_cascade curve 9 (record beginner { xp = 350 })
    ≡ some (true, level_up curve (level_up curve (record beginner { xp = 350 })))
unfolding level_cascade int64 ◌+ℤ◌
two_levels = refl

add_experience_settles_example :
    Gives
      (λ r'.
        (s : StatsComponent) × (r'.stats 3 ≡ some s)
        × IsSettled curve 1 (0 + 350) s
        × ((s.level ≡ pos 1) ⊎ ((s.hp ≡ s.max_hp) × (s.mp ≡ s.max_mp)))
        × ((q : Entity) → q ≢ 3 → r'.stats q ≡ players.stats q))
      (add_experience curve 3 350 players)
unfolding players
add_experience_settles_example =
    add_experience_settles curve (λ l h. omega arith) 3 350 1 beginner players refl refl
      (omega arith)
