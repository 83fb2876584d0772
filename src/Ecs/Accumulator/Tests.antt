-- ===== src/Ecs/Accumulator/Tests.antt =====
-- Two targets are hit in two ticks (server/ecs/combat_accumulator.go).
use minnsun_s_adventure.Common.{ℕ, ◌≡◌, refl, List, [], ◌∷◌, arith}
use minnsun_s_adventure.Common.Int.{pos}
use minnsun_s_adventure.Common.Entries
use minnsun_s_adventure.Ecs.Entity.{Entity}
use minnsun_s_adventure.Ecs.Accumulator.{
  no_damage, CombatAccumulator, new_combat_accumulator, add_damage, add_to, flush, flush_loop,
}
use minnsun_s_adventure.Ecs.Accumulator.Ticks.{Hit, run, tally, first_flush_lem, second_flush_loses}

abbrev hits : List Hit
hits =
    record { target = 8; damage = pos 5; threat = pos 0 }
    ∷ record { target = 9; damage = pos 7; threat = pos 0 }
    ∷ []

abbrev order : List (Entity × ℕ)
order = (8, 65) ∷ (9, 64) ∷ []

same :
    (t : Entity)
    → Entries.lookup t order ≡ Entries.lookup t (run hits new_combat_accumulator).batches
unfolding add_damage
same t = ground arith

first_flush_lem_example :
    Entries.lookup 9 (flush 7 order (run hits new_combat_accumulator)).0 ≡ tally hits 9
first_flush_lem_example = first_flush_lem hits 7 order (refl, (refl, tt)) same 9

abbrev after_one_tick : CombatAccumulator
unfolding add_damage flush flush_loop
after_one_tick = (flush 7 order (run hits new_combat_accumulator)).1

second_flush_loses_example :
    let a' = add_damage 9 (pos 30) (pos 0) (add_damage 8 (pos 20) (pos 0) after_one_tick) in
    (flush 7 ((8, 1) ∷ (9, 0) ∷ []) a').0
    ≡ (8, add_to (pos 20) (pos 0) no_damage) ∷ (9, no_damage) ∷ []
unfolding after_one_tick
second_flush_loses_example =
    second_flush_loses 7 8 9 (pos 20) (pos 30) 0 after_one_tick (λ e. absurd (omega arith)) refl
      refl (omega arith)
