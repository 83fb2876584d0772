-- ===== src/Peakgo/Combat/Tests.antt =====
-- Attacks and healing at given numbers (server/peakgo/combat/combat.go).
use minnsun_s_adventure.Common.{ℕ, ◌≡◌, refl, true, false, ◌||◌, Option, none, some}
use minnsun_s_adventure.Common.Partial.{Gives}
use minnsun_s_adventure.Common.Int.{ℤ, pos, ◌+ℤ◌, ◌-ℤ◌, ◌*ℤ◌, int64}
use minnsun_s_adventure.Peakgo.Rng.{intn}
use minnsun_s_adventure.Peakgo.Combat.{
  Stats, DamageModifiers, CombatResult, physical, fire, water, new_stats, no_result,
  resolve_physical, resolve_magical, land, crits, dodges, DotInstance, calculate_healing,
}
use minnsun_s_adventure.Peakgo.Combat.Damage.{IsOutcome, resolve-IsOutcome}

abbrev novice : Stats
unfolding new_stats
novice = new_stats (pos 5)

abbrev flames : DamageModifiers
flames = record {
  is_crit = false;
  is_guaranteed = false;
  damage_type = physical;
  element = fire;
  defender_element = water;
  skill_multiplier = pos 1500;
}

-- 20 attack by 1.5 is 30, less 5, by 2.
abbrev dealt : Option (CombatResult × ℕ) → ℤ
dealt o = elim o [ none ↦ pos 0 | some r ↦ r.0.damage_dealt ]

flames_hit : dealt (resolve_physical (λ i. 500) false novice novice flames 0) ≡ pos 50
unfolding resolve_physical dodges crits land intn new_stats int64 ◌+ℤ◌ ◌-ℤ◌ ◌*ℤ◌
flames_hit = refl

flames_dodged :
    resolve_magical (λ i. 999) false novice novice flames 0
    ≡ some (record no_result { dodged = true }, 1)
unfolding resolve_magical dodges crits land intn new_stats int64 ◌+ℤ◌ ◌-ℤ◌ ◌*ℤ◌
flames_dodged = refl

healing_by_half_more :
    calculate_healing (λ i. 49) (pos 40) (pos 0) true 0
    ≡ some (record { amount = pos 60; overheal = pos 0; is_crit = true }, 1)
unfolding calculate_healing intn int64 ◌*ℤ◌
healing_by_half_more = refl

abbrev burn : DotInstance
burn = record {
  damage_per_tick = pos 7;
  remaining_ticks = pos 3;
  total_ticks = pos 3;
  element = fire;
  source_entity_id = 9;
}

resolve-IsOutcome_example :
    Gives
      (λ r. IsOutcome (false || false) r.0)
      (resolve_physical (λ i. 500) false novice novice flames 0)
    × Gives
        (λ r. IsOutcome (false || false) r.0)
        (resolve_magical (λ i. 500) false novice novice flames 0)
resolve-IsOutcome_example = resolve-IsOutcome (λ i. 500) false novice novice flames 0
