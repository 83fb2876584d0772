-- ===== src/Game/Items/Gear.antt =====
-- Gear is put on, and stats are rebuilt (server/game/equipment.go, stat_engine.go).
use minnsun_s_adventure.Common.{◌≡◌, ◌≢◌, sym, ap, ◌∙◌, Option, none, some, arith, if◌then◌else◌}
use minnsun_s_adventure.Common.Int.{ℤ, pos, ltb_ℤ, ◌≤ℤ◌, int64, ◌+ℤ◌}
use minnsun_s_adventure.Common.Table.{Table, insert, insert_self, insert_other}
use minnsun_s_adventure.Ecs.Entity.{Entity}
use minnsun_s_adventure.Ecs.Components.{StatsComponent}
use minnsun_s_adventure.Ecs.Registry.{Registry}
use minnsun_s_adventure.Game.Items.{
  ItemTemplate, bonus, scaled, first_stats, aggregate, recalculate_active_stats,
}

clamp_twice :
    (m hp : ℤ)
    → (if ltb_ℤ m (if ltb_ℤ m hp then m else hp) then m else (if ltb_ℤ m hp then m else hp))
      ≡ (if ltb_ℤ m hp then m else hp)
clamp_twice m hp = ground arith

clamp_below : (m hp : ℤ) → (if ltb_ℤ m hp then m else hp) ≤ℤ m
clamp_below m hp = ground arith

aggregate_twice : (a w : ℤ) (s : StatsComponent) → aggregate a w (aggregate a w s) ≡ aggregate a w s
aggregate_twice a w s =
    let m = int64 (scaled (pos 100) (pos 50) s.level +ℤ a) in
    ap (λ v. record (aggregate a w s) { hp = v }) (clamp_twice m s.hp)

-- The stats that `RecalculateActiveStats` rebuilds stay the same when they are rebuilt again; HP is at most
-- the maximum, and no other player's stats change.
pub recalculate_lem :
    (items : Table ItemTemplate) (player : Entity) (r : Registry)
    → let r' = recalculate_active_stats items player r in
      (s : StatsComponent) × (r'.stats player ≡ some s)
      × (s.hp ≤ℤ s.max_hp)
      × ((recalculate_active_stats items player r').stats player ≡ some s)
      × ((p : Entity) → p ≢ player → r'.stats p ≡ r.stats p)
unfolding recalculate_active_stats
recalculate_lem items player r =
    let stats : StatsComponent = elim (r.stats player) [ none ↦ first_stats | some s ↦ s ] in
    let a : ℤ = elim (r.equipment player) [
      | none ↦ pos 0
      | some e ↦ bonus items (λ t. t.bonus_hp) e.armor_id
    ] in
    let w : ℤ = elim (r.equipment player) [
      | none ↦ pos 0
      | some e ↦ bonus items (λ t. t.bonus_dam) e.weapon_id
    ] in
    let s = aggregate a w stats in
    let now = insert_self player s r.stats in
    (
      s,
      now,
      clamp_below s.max_hp stats.hp,
      insert_self player (aggregate a w (or_first (insert player s r.stats player)))
            (insert player s r.stats)
          ∙ ap (λ o. some (aggregate a w (or_first o))) now
          ∙ ap some (aggregate_twice a w stats),
      (λ p ne. insert_other player p s r.stats (λ e. ne (sym e))),
    )
  where
    or_first : Option StatsComponent → StatsComponent
    or_first o = elim o [ none ↦ first_stats | some s ↦ s ]
