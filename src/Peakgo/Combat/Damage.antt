-- ===== src/Peakgo/Combat/Damage.antt =====
-- What an attack comes to (server/peakgo/combat/combat.go).
use minnsun_s_adventure.Common.{
  ℕ, ◌+◌, ◌%◌, ◌≡◌, refl, ◌⊎◌, inl, inr, Bool, true, false, ◌||◌, arith, if◌then◌else◌, Bool-cases,
}
use minnsun_s_adventure.Common.Partial.{Gives, Gives-some, Gives-bind, Gives-if}
use minnsun_s_adventure.Common.Int.{ℤ, pos, ltb_ℤ, ◌≤ℤ◌, ◌-ℤ◌, ◌+ℤ◌, ◌*ℤ◌, quot_ℤ, int64}
use minnsun_s_adventure.Peakgo.Rng.{Draws, intn}
use minnsun_s_adventure.Peakgo.Combat.{
  Stats, DamageModifiers, CombatResult, no_result, at_least_1, raw_damage_of, skill_multi,
  get_element_effectiveness, dodges, crits, land, resolve_physical, resolve_magical,
}

at_least : (v : ℤ) → pos 1 ≤ℤ at_least_1 v
at_least v = ground arith

-- A hit deals at least 1, of raw damage of at least 1 of which no more than all is taken off; a dodge, which
-- a guaranteed attack does not meet, deals none.
abbrev pub IsOutcome : Bool → CombatResult → Type 0
IsOutcome skip r =
    ((r.hit ≡ true)
      × (r.dodged ≡ false)
      × (pos 1 ≤ℤ r.damage_dealt)
      × (pos 1 ≤ℤ r.raw_damage)
      × (r.mitigated ≤ℤ r.raw_damage))
    ⊎ ((skip ≡ false) × (r.hit ≡ false) × (r.dodged ≡ true) × (r.damage_dealt ≡ pos 0))

crits_total :
    (draws : Draws) (disabled forced : Bool) (rate : ℤ) (i : ℕ)
    → Gives (λ r. Unit {0}) (crits draws disabled forced rate i)
unfolding crits intn
crits_total draws disabled forced rate i = elim (Bool-cases (forced || disabled)) [
  | inl e ↦ rw e (Gives-some (forced, i) tt)
  | inr e ↦ rw e (Gives-some (ltb_ℤ (pos (draws i % 1000)) rate, i + 1) tt)
]

land-IsOutcome :
    (draws : Draws) (disabled skip : Bool) (attack defense rate damage : ℤ) (m : DamageModifiers)
    (i : ℕ)
    → Gives (λ r. IsOutcome skip r.0) (land draws disabled attack defense rate damage m i)
unfolding land
land-IsOutcome draws disabled skip attack defense rate damage m i =
    let raw = raw_damage_of attack m in
    let mitigated = if ltb_ℤ raw defense then raw else defense in
    let after_element = at_least_1 (
      quot_ℤ
        (int64 (int64 (raw -ℤ mitigated) *ℤ get_element_effectiveness m.element m.defender_element))
        1000) in
    Gives-bind (crits_total draws disabled m.is_crit rate i) λ r _. Gives-some _ (
      inl (
        refl,
        refl,
        at_least (if r.0 then quot_ℤ (int64 (after_element *ℤ damage)) 1000 else after_element),
        at_least (quot_ℤ (int64 (attack *ℤ skill_multi m)) 1000),
        clamped raw defense,
      ))
  where
    clamped : (raw d : ℤ) → (if ltb_ℤ raw d then raw else d) ≤ℤ raw
    clamped raw d = ground arith

dodges_total :
    (draws : Draws) (skip : Bool) (chance : ℤ) (i : ℕ)
    → Gives (λ r. r.0 ≡ true → skip ≡ false) (dodges draws skip chance i)
unfolding dodges intn
dodges_total draws true chance i = Gives-some (false, i) (λ e. absurd (cc))
dodges_total draws false chance i = Gives-some _ (λ e. refl)

-- `ResolvePhysical` and `ResolveMagical` do not panic, and come to a hit or a dodge.
pub resolve-IsOutcome :
    (draws : Draws) (disabled : Bool) (a d : Stats) (m : DamageModifiers) (i : ℕ)
    → Gives
        (λ r. IsOutcome (m.is_guaranteed || disabled) r.0)
        (resolve_physical draws disabled a d m i)
      × Gives
          (λ r. IsOutcome (m.is_guaranteed || disabled) r.0)
          (resolve_magical draws disabled a d m i)
unfolding resolve_physical resolve_magical
resolve-IsOutcome draws disabled a d m i =
    let skip = m.is_guaranteed || disabled in
    (
      Gives-bind (dodges_total draws skip (int64 (a.hit_rate -ℤ d.dodge_rate)) i) (λ r dodge.
          Gives-if r.0
            (λ e.
              Gives-some (record no_result { dodged = true }, r.1)
                (inr (dodge e, refl, refl, refl)))
            (λ e.
              land-IsOutcome draws disabled skip a.attack (quot_ℤ (int64 (d.defense *ℤ pos 50)) 100)
                a.crit_rate a.crit_damage m r.1)),
      Gives-bind
          (dodges_total draws skip (int64 (int64 (a.hit_rate +ℤ pos 50) -ℤ quot_ℤ d.dodge_rate 2))
            i)
          (λ r dodge.
            Gives-if r.0
              (λ e.
                Gives-some (record no_result { dodged = true }, r.1)
                  (inr (dodge e, refl, refl, refl)))
              (λ e.
                land-IsOutcome draws disabled skip a.magic_attack
                  (quot_ℤ (int64 (d.magic_defense *ℤ pos 75)) 100) (quot_ℤ a.crit_rate 2)
                  a.crit_damage m r.1)),
    )
