-- ===== src/Peakgo/Combat/Recovery.antt =====
-- Healing, and damage over time (server/peakgo/combat/combat.go).
use minnsun_s_adventure.Common.{
  ℕ, zero, suc, ◌+◌, ◌-◌, ◌*◌, ◌^◌, ◌≤◌, ◌<◌, ◌≡◌, refl, ap, ◌∙◌, inl, inr, false, arith, min,
  Bool-cases,
}
use minnsun_s_adventure.Common.Int.{
  ℤ, pos, pos_part, neg_part, ltb_ℤ, leb_ℤ, ◌+ℤ◌, ◌-ℤ◌, int64, int64_exact, +ℤ_parts, -ℤ_parts,
  eq_of_parts,
}
use minnsun_s_adventure.Peakgo.Combat.{DotInstance, HealResult, dot_tick, apply_healing}

exact : (v : ℤ) (n : ℕ) → n < 2 ^ 63 → pos_part v ≡ neg_part v + n → int64 v ≡ pos n
exact v n small is =
    ap int64 (eq_of_parts v (pos n) (omega arith)) ∙ int64_exact (pos n) (small, omega arith)

-- Healing by n gives the HP and the overheal that add up to the sum of both, and no HP above the maximum.
pub apply_healing_lem :
    (hp max_hp n : ℕ) (heal : HealResult)
    → heal.amount ≡ pos n
    → hp ≤ max_hp
    → max_hp < 2 ^ 62
    → n < 2 ^ 62
    → (hp' over : ℕ) × (apply_healing (pos hp) (pos max_hp) heal ≡ (pos hp', pos over))
      × (hp' + over ≡ hp + n)
      × (hp ≤ hp')
      × (hp' ≤ max_hp)
unfolding apply_healing
apply_healing_lem hp max_hp n heal is le small small_n =
    let sum : int64 (pos hp +ℤ heal.amount) ≡ pos (hp + n) =
      ap (λ v. int64 (pos hp +ℤ v)) is
      ∙ exact (pos hp +ℤ pos n) (hp + n) (omega arith) (omega (arith, +ℤ_parts (pos hp) (pos n))) in
    elim (Bool-cases (ltb_ℤ (pos max_hp) (pos (hp + n)))) [
      | inl e ↦
          let over = hp + n - max_hp in
          let rest : int64 (pos (hp + n) -ℤ pos max_hp) ≡ pos over =
            exact (pos (hp + n) -ℤ pos max_hp) over (omega arith)
              (ground (arith, -ℤ_parts (pos (hp + n)) (pos max_hp))) in
          (
            max_hp,
            over,
            rw (sum, e) (ap (λ v. (pos max_hp, v)) rest),
            ground arith,
            le,
            omega arith,
          )
      | inr e ↦ (hp + n, 0, rw (sum, e) refl, omega arith, omega arith, ground arith)
    ]

sum : (a b : ℕ) → pos a +ℤ pos b ≡ pos (a + b)
unfolding ◌+ℤ◌
sum a b = ground arith

product : (n k v : ℕ) → v + min n k * v ≡ min (suc n) (suc k) * v
product n k v = rw (min_suc n k) (ground arith)
  where
    min_suc : (n k : ℕ) → min (suc n) (suc k) ≡ suc (min n k)
    min_suc n k = ground arith

expired_tick : (d : DotInstance) → d.remaining_ticks ≡ pos 0 → dot_tick d ≡ (pos 0, d)
unfolding dot_tick
expired_tick d is = rw is refl

live_tick :
    (d : DotInstance) (k : ℕ)
    → d.remaining_ticks ≡ pos (suc k)
    → suc k < 2 ^ 63
    → ((dot_tick d).0 ≡ d.damage_per_tick)
      × ((dot_tick d).1.remaining_ticks ≡ pos k)
      × ((dot_tick d).1.damage_per_tick ≡ d.damage_per_tick)
unfolding dot_tick
live_tick d k is small =
    let no : leb_ℤ (pos (suc k)) (pos 0) ≡ false = ground arith in
    rw (is, no)
      (
        refl,
        exact (pos (suc k) -ℤ pos 1) k (omega arith)
            (omega (arith, -ℤ_parts (pos (suc k)) (pos 1))),
        refl,
      )

-- The damage of n ticks, one after the other, and what is left.
abbrev pub run_dot : ℕ → DotInstance → ℤ × DotInstance
run_dot zero d = (pos 0, d)
run_dot (suc n) d =
    let tick = dot_tick d in let rest = run_dot n tick.1 in (tick.0 +ℤ rest.0, rest.1)

-- Damage over time deals its damage at each of its remaining ticks, and none afterwards; then it is expired.
pub run_dot_total :
    (n k v : ℕ) (d : DotInstance)
    → d.remaining_ticks ≡ pos k
    → k < 2 ^ 63
    → d.damage_per_tick ≡ pos v
    → ((run_dot n d).0 ≡ pos (min n k * v)) × ((run_dot n d).1.remaining_ticks ≡ pos (k - n))
run_dot_total zero k v d is small deals = (ap pos (ground arith), is ∙ ap pos (omega arith))
run_dot_total (suc n) zero v d is small deals =
    let rest = run_dot_total n zero v d is small deals in
    let still = expired_tick d is in
    (
      rw still (ap (λ r. pos 0 +ℤ r) rest.0 ∙ sum 0 (min n 0 * v) ∙ ap pos (ground arith)),
      rw still (rest.1 ∙ ap pos (omega arith)),
    )
run_dot_total (suc n) (suc k) v d is small deals =
    let left = live_tick d k is small in
    let rest = run_dot_total n k v ((dot_tick d).1) left.1 (omega arith) (left.2 ∙ deals) in
    (
      ap (λ a. a +ℤ (run_dot n (dot_tick d).1).0) (left.0 ∙ deals)
          ∙ ap (λ b. pos v +ℤ b) rest.0
          ∙ sum v (min n k * v)
          ∙ ap pos (product n k v),
      rest.1 ∙ ap pos (omega arith),
    )
