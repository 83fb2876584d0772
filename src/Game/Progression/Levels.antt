-- ===== src/Game/Progression/Levels.antt =====
-- The loop over levels ends, and what it spends (server/game/progression.go).
use mathlib.Core.Path.{subst}
use minnsun_s_adventure.Common.{
  ℕ, zero, suc, ◌+◌, ◌%◌, ◌^◌, ◌≤◌, ◌<◌, ◌≡◌, ◌≢◌, refl, sym, ap, ◌∙◌, ◌⊎◌, inl, inr, Bool, true,
  false, some, arith, leb, if◌then◌else◌, Bool-cases,
}
use minnsun_s_adventure.Common.Partial.{Gives, Gives-some, Gives-bind}
use minnsun_s_adventure.Common.Int.{pos, ◌+ℤ◌, +ℤ_parts, leb_ℤ, int64, int64_exact, eq_of_parts}
use minnsun_s_adventure.Common.Table.{insert, insert_self, insert_other}
use minnsun_s_adventure.Ecs.Entity.{Entity}
use minnsun_s_adventure.Ecs.Components.{StatsComponent}
use minnsun_s_adventure.Ecs.Registry.{Registry}
use minnsun_s_adventure.Game.Progression.{
  calculate_xp_threshold, level_up, level_cascade, rounds, add_experience,
}

-- The thresholds of n levels from level l on.
abbrev pub spent : (ℕ → ℕ) → ℕ → ℕ → ℕ
spent curve zero l = 0
spent curve (suc n) l = calculate_xp_threshold curve (pos l) + spent curve n (suc l)

-- From level l and an experience, n levels are gained and paid for, and the rest is below the next threshold.
abbrev pub IsSettled : (ℕ → ℕ) → ℕ → ℕ → StatsComponent → Type 0
IsSettled curve l xp s =
    (n : ℕ) × (s.level ≡ pos (l + n))
    × (xp ≡ spent curve n l + s.xp)
    × (s.xp < calculate_xp_threshold curve s.level)

-- Nothing changed, or a level was gained.
abbrev pub IsCascaded : (ℕ → ℕ) → ℕ → StatsComponent → Bool × StatsComponent → Type 0
IsCascaded curve l s r = IsSettled curve l s.xp r.1 × ((r.0 ≡ true) ⊎ ((r.0 ≡ false) × (r.1 ≡ s)))

leb→le : (a b : ℕ) → leb a b ≡ true → a ≤ b
leb→le a b h = ground arith

module _ (curve : ℕ → ℕ) (rising : (l : ℕ) → 0 < l → 0 < curve l) where
  level_exact : (l : ℕ) → suc l < 2 ^ 63 → int64 (pos l +ℤ pos 1) ≡ pos (suc l)
  level_exact l small =
      ap int64
        (eq_of_parts (pos l +ℤ pos 1) (pos (suc l)) (omega (arith, +ℤ_parts (pos l) (pos 1))))
      ∙ int64_exact (pos (suc l)) (omega arith, omega arith)

  threshold_positive : (l : ℕ) → 0 < l → 0 < calculate_xp_threshold curve (pos l)
  threshold_positive l h = rw above (rising l h)
    where
      above : leb_ℤ (pos l) (pos 0) ≡ false
      above = ground arith

  pub spent_most : (n l : ℕ) → n ≤ suc (spent curve n l)
  spent_most zero l = omega arith
  spent_most (suc n) zero = omega (arith, spent_all n 1 (omega arith))
    where
      spent_all : (n l : ℕ) → 0 < l → n ≤ spent curve n l
      spent_all zero l h = omega arith
      spent_all (suc n) l h =
          omega (arith, spent_all n (suc l) (omega arith), threshold_positive l h)
  spent_most (suc n) (suc l) =
      omega (arith, spent_most n (suc (suc l)), threshold_positive (suc l) (omega arith))

  -- One round more, from the next level.
  gains :
      (fuel l : ℕ) (s : StatsComponent)
      → s.level ≡ pos l
      → suc l < 2 ^ 63
      → leb (calculate_xp_threshold curve s.level) s.xp ≡ true
      → Gives
          (IsCascaded curve (suc l) (level_up curve s))
          (level_cascade curve fuel (level_up curve s))
      → Gives (IsCascaded curve l s) (level_cascade curve (suc fuel) s)
  unfolding level_cascade
  gains fuel l s is small e next = rw e (
      Gives-bind next λ r c.
        let ((n, level, paid, below), _) = c in
        let cost = ap (calculate_xp_threshold curve) is in
        Gives-some (true, r.1)
          (
            (
              suc n,
              level ∙ ap pos (omega arith),
              omega (arith, paid, leb→le (calculate_xp_threshold curve s.level) s.xp e, cost),
              below,
            ),
            inl refl,
          ))

  stops :
      (fuel l : ℕ) (s : StatsComponent)
      → s.level ≡ pos l
      → leb (calculate_xp_threshold curve s.level) s.xp ≡ false
      → Gives (IsCascaded curve l s) (level_cascade curve (suc fuel) s)
  unfolding level_cascade
  stops fuel l s is e = rw e (
      Gives-some (false, s)
        ((0, is ∙ ap pos (omega arith), omega arith, below _ s.xp e), inr (refl, refl)))
    where
      below : (a b : ℕ) → leb a b ≡ false → b < a
      below a b h = ground arith

  settles_above :
      (fuel l : ℕ) (s : StatsComponent)
      → s.level ≡ pos l
      → 0 < l
      → s.xp < fuel
      → l + s.xp + 1 < 2 ^ 63
      → Gives (IsCascaded curve l s) (level_cascade curve fuel s)
  settles_above zero l s is above enough small = absurd (omega arith)
  settles_above (suc fuel) l s is above enough small =
      elim (Bool-cases (leb (calculate_xp_threshold curve s.level) s.xp)) [
        | inr e ↦ stops fuel l s is e
        | inl e ↦
            let cost : 0 < calculate_xp_threshold curve s.level =
              subst (λ v. 0 < calculate_xp_threshold curve v) (sym is)
                (threshold_positive l above) in
            let fits = leb→le (calculate_xp_threshold curve s.level) s.xp e in
            gains fuel l s is (omega arith) e (
              settles_above fuel (suc l) (level_up curve s)
                (ap (λ v. int64 (v +ℤ pos 1)) is ∙ level_exact l (omega arith)) (omega arith)
                (omega (arith, cost, fits)) (omega (arith, cost, fits)))
      ]

  settles :
      (fuel l : ℕ) (s : StatsComponent)
      → s.level ≡ pos l
      → s.xp + 1 < fuel
      → l + s.xp + 2 < 2 ^ 63
      → Gives (IsCascaded curve l s) (level_cascade curve fuel s)
  settles fuel (suc l) s is enough small =
      settles_above fuel (suc l) s is (omega arith) (omega arith) (omega arith)
  settles zero zero s is enough small = absurd (omega arith)
  settles (suc fuel) zero s is enough small =
      elim (Bool-cases (leb (calculate_xp_threshold curve s.level) s.xp)) [
        | inr e ↦ stops fuel zero s is e
        | inl e ↦ gains fuel zero s is (omega arith) e (
            settles_above fuel 1 (level_up curve s)
              (ap (λ v. int64 (v +ℤ pos 1)) is ∙ level_exact 0 (omega arith)) (omega arith)
              (omega arith) (omega arith))
      ]

  -- `AddExperienceSystem` ends: the level is the one whose thresholds the experience pays for, the rest stays,
  -- below the next threshold, and a player who gained a level is healed. Other players' stats stay.
  pub add_experience_settles :
      (player gained l : ℕ) (stats : StatsComponent) (r : Registry)
      → r.stats player ≡ some stats
      → stats.level ≡ pos l
      → l + stats.xp + gained + 2 < 2 ^ 63
      → Gives
          (λ r'.
            (s : StatsComponent) × (r'.stats player ≡ some s)
            × IsSettled curve l (stats.xp + gained) s
            × ((s.level ≡ stats.level) ⊎ ((s.hp ≡ s.max_hp) × (s.mp ≡ s.max_mp)))
            × ((q : Entity) → q ≢ player → r'.stats q ≡ r.stats q))
          (add_experience curve player gained r)
  unfolding add_experience
  add_experience_settles player gained l stats r at is small =
      let s : StatsComponent = record stats { xp = (stats.xp + gained) % 2 ^ 64 } in
      let xp : s.xp ≡ stats.xp + gained = omega arith in
      rw (add_experience, at)
        (Gives-bind (settles (rounds s) l s is (omega arith) (omega arith))
          λ c settled. Gives-some _ (healed s c settled xp))
    where
      healed :
          (s : StatsComponent) (c : Bool × StatsComponent)
          → IsCascaded curve l s c
          → s.xp ≡ stats.xp + gained
          → (s' : StatsComponent) × (insert player
                (if c.0 then record c.1 { hp = c.1.max_hp; mp = c.1.max_mp } else c.1)
                r.stats
                player
              ≡ some s')
            × IsSettled curve l (stats.xp + gained) s'
            × ((s'.level ≡ s.level) ⊎ ((s'.hp ≡ s'.max_hp) × (s'.mp ≡ s'.max_mp)))
            × ((q : Entity)
                → q ≢ player
                → insert player
                    (if c.0 then record c.1 { hp = c.1.max_hp; mp = c.1.max_mp } else c.1)
                    r.stats
                    q
                  ≡ r.stats q)
      healed s c ((n, level, paid, below), inl e) xp = rw e (
        record c.1 { hp = c.1.max_hp; mp = c.1.max_mp },
        insert_self player _ r.stats,
        (n, level, sym xp ∙ paid, below),
        inr (refl, refl),
        λ q ne. insert_other player q _ r.stats (λ f. ne (sym f)),
      )
      healed s c ((n, level, paid, below), inr (e, same)) xp = rw e (
        c.1,
        insert_self player _ r.stats,
        (n, level, sym xp ∙ paid, below),
        inl (ap (λ x. x.level) same),
        λ q ne. insert_other player q _ r.stats (λ f. ne (sym f)),
      )
