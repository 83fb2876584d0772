-- ===== src/Game/Effects/Blocking.antt =====
-- The system of status effects never comes back from an entity with an effect
-- (server/game/effects_system.go).
use mathlib.Core.Path.{subst}
use minnsun_s_adventure.Common.{
  ℕ, suc, ◌^◌, ◌<◌, ◌≡◌, refl, sym, ap, ◌∙◌, ◌⊎◌, inl, inr, Bool, true, false, List, [], ◌∷◌,
  Option, none, some, arith, if◌then◌else◌, Bool-cases, Option-cases, get_elem?, length,
}
use minnsun_s_adventure.Common.Partial.{Gives, Gives-some, Gives-bind, Gives-map, Gives-if}
use minnsun_s_adventure.Common.Int.{ℤ, pos, pos_part, neg_part, ◌+ℤ◌, leb_ℤ, eqb_ℤ, int64}
use minnsun_s_adventure.Ecs.Entity.{Entity}
use minnsun_s_adventure.Ecs.Components.{is_player, ActiveEffect, MetadataComponent, entity_monster}
use minnsun_s_adventure.Game.State.{Locked, returns, blocks}
use minnsun_s_adventure.Game.Death.{MonsterTemplate, Battle, before_removal, get_template_by_name}
use minnsun_s_adventure.Game.Death.Outcome.{notice_numbers_lem}
use minnsun_s_adventure.Game.Effects.{
  is_dot, name_of, count_down, hp_left, with_stats, strike, left_of, run_effect, effects_loop,
  run_status_effects, metadata_of,
}

-- The effects of an entity.
abbrev pub active : Entity → Battle → List ActiveEffect
active id b = elim (b.game.registry.effects id) [ none ↦ [] | some c ↦ c.active_list ]

-- The damage of the effects is what `appendInt` prints.
abbrev pub ArePrintable : List ActiveEffect → Type 0
ArePrintable [] = Unit
ArePrintable (e ∷ es) =
    ((pos_part e.value < 10 ^ 12) × (neg_part e.value < 10 ^ 11)) × ArePrintable es

-- A state in which no entity's effects have changed.
abbrev pub SameEffects : Battle → Battle → Type 0
SameEffects b b' = b'.game.registry.effects ≡ b.game.registry.effects

module _ (templates : List MonsterTemplate) (curve : ℕ → ℕ) (tick : ℕ) (id : Entity)
    (meta : MetadataComponent) where
  death_returns :
      (name : MetadataComponent) (damage : ℤ) (b : Battle)
      → name.type ≡ entity_monster
      → pos_part damage < 10 ^ 12
      → neg_part damage < 10 ^ 11
      → Gives (SameEffects b) (before_removal templates curve tick id 0 meta name damage b)
  unfolding before_removal
  death_returns name damage b is hp hn =
      let (out, prints) = notice_numbers_lem 0 name damage (omega arith) (λ _. (hp, hn)) in
      elim (Bool-cases (is_player meta.type)) [
        | inl e ↦ rw (prints, e) (Gives-some _ refl)
        | inr e ↦ elim (Option-cases (get_template_by_name meta.name templates)) [
          | inl f ↦ rw (prints, e, f) (Gives-some _ refl)
          | inr (t, f) ↦ rw (prints, e, f, is) (Gives-some _ refl)
        ]
      ]

  -- The state that a step returns or waits in has all effects as before.
  abbrev Kept : {A : Type 0} → Battle → Locked (A × Battle) → Type 0
  Kept b r = elim r [ returns p ↦ SameEffects b p.1 | blocks p ↦ SameEffects b p.1 ]

  strike-Kept :
      (e : ActiveEffect) (b : Battle)
      → pos_part e.value < 10 ^ 12
      → neg_part e.value < 10 ^ 11
      → Gives (Kept b) (strike templates curve tick id meta e b)
  unfolding strike
  strike-Kept e b hp hn = elim (Option-cases (b.game.registry.stats id)) [
    | inl none_there ↦ rw (strike, none_there) (Gives-some _ refl)
    | inr (s, there) ↦
        rw (strike, there)
          (Gives-if (leb_ℤ s.hp (pos 0)) (λ _. Gives-some _ refl)
            λ _.
              Gives-if (eqb_ℤ (hp_left s.hp e.value) (pos 0))
                (λ _.
                  Gives-bind
                    (death_returns (record { name = name_of e.kind; type = entity_monster }) e.value
                      (with_stats id (record s { hp = hp_left s.hp e.value }) b) refl hp hn)
                    λ b' same. ending b' same (is_player meta.type))
                λ _. Gives-some _ refl)
  ]
    where
      ending :
          (b' : Battle)
          → SameEffects b b'
          → (player : Bool)
          → Gives (Kept b) (some (if player then returns (false, b') else blocks (true, b')))
      ending b' same true = Gives-some _ same
      ending b' same false = Gives-some _ same

  left_of-Kept :
      (e : ActiveEffect) (b : Battle) (r : Locked (Bool × Battle))
      → Kept b r
      → Kept b (left_of templates curve tick id meta e r)
  left_of-Kept e b (returns p) same = same
  left_of-Kept e b (blocks p) same = same

  run_effect-Kept :
      (e : ActiveEffect) (b : Battle)
      → pos_part e.value < 10 ^ 12
      → neg_part e.value < 10 ^ 11
      → Gives (Kept b) (run_effect templates curve tick id meta e b)
  unfolding run_effect
  run_effect-Kept e b hp hn =
      Gives-if (leb_ℤ (count_down e).duration_ticks (pos 0)) (λ _. Gives-some _ refl)
        λ _.
          Gives-if (is_dot e.kind)
            (λ _.
              Gives-if (leb_ℤ (pos 4) (int64 (e.dot_tick_accum +ℤ pos 1)))
                (λ _.
                  Gives-bind
                    (strike-Kept (record (count_down e) { dot_tick_accum = pos 0 }) b hp hn)
                    λ r same.
                      Gives-some _
                        (left_of-Kept (record (count_down e) { dot_tick_accum = pos 0 }) b r same))
                λ _. Gives-some _ refl)
            λ _. Gives-some _ refl

  effects_loop-SameEffects :
      (es : List ActiveEffect) (b : Battle)
      → ArePrintable es
      → Gives (SameEffects b) (effects_loop templates curve tick id meta es b)
  unfolding effects_loop
  effects_loop-SameEffects [] b fit = Gives-some b refl
  effects_loop-SameEffects (e ∷ es) b ((hp, hn), fit) =
      Gives-bind (run_effect-Kept e b hp hn) (on_result (λ b'. effects_loop-SameEffects es b' fit))
    where
      on_result :
          ((b' : Battle) → Gives (SameEffects b') (effects_loop templates curve tick id meta es b'))
          → (r : Locked (List ActiveEffect × Battle)) → Kept b r
          → Gives (SameEffects b) (elim r [
            | returns p ↦ effects_loop templates curve tick id meta es p.1
            | blocks p ↦ some p.1
          ])
      on_result later (returns p) same = Gives-map (later p.1) λ b' same'. same' ∙ same
      on_result later (blocks p) same = Gives-some p.1 same

-- No entity in the order of the loop has an effect.
abbrev pub AreUnaffected : List Entity → Battle → Type 0
AreUnaffected [] b = Unit
AreUnaffected (id ∷ order) b = (active id b ≡ []) × AreUnaffected order b

abbrev pub AllPrintable : List Entity → Battle → Type 0
AllPrintable [] b = Unit
AllPrintable (id ∷ order) b = ArePrintable (active id b) × AllPrintable order b

-- An entity in the order has an effect, and the run waits forever, with the effects of all entities as before.
abbrev pub BlocksAt : List Entity → Battle → Option (Locked Battle) → Type 0
BlocksAt order b r =
    (id : Entity) × (e : ActiveEffect) × (es : List ActiveEffect) × (i : ℕ) × (stuck : Battle)
    × (get_elem? order i ≡ some id)
    × (active id b ≡ e ∷ es)
    × (r ≡ some (blocks stuck))
    × SameEffects b stuck

module _ (templates : List MonsterTemplate) (curve : ℕ → ℕ) (tick : ℕ) (id : Entity)
    (order : List Entity) (b : Battle) where
  unaffected_skipped :
      active id b ≡ []
      → run_status_effects templates curve tick (id ∷ order) b
        ≡ run_status_effects templates curve tick order b
  unfolding run_status_effects
  unaffected_skipped none_active = elim (Option-cases (b.game.registry.effects id)) [
    | inl e ↦ rw (run_status_effects, e) refl
    | inr (c, e) ↦
        let empty : c.active_list ≡ [] =
          ap (λ o. elim o [ none ↦ [] | some c ↦ c.active_list ]) (sym e) ∙ none_active in
        rw (run_status_effects, e, empty) refl
  ]

  affected_blocks :
      (e : ActiveEffect) (es : List ActiveEffect)
      → active id b ≡ e ∷ es
      → ArePrintable (e ∷ es)
      → (stuck : Battle) × (run_status_effects templates curve tick (id ∷ order) b
          ≡ some (blocks stuck))
        × SameEffects b stuck
  unfolding run_status_effects
  affected_blocks e es some_active fits = elim (Option-cases (b.game.registry.effects id)) [
    | inl f ↦
        let clash : 0 ≡ suc (length es) =
          ap length
            (ap (λ o. elim o [ none ↦ [] | some c ↦ c.active_list ]) (sym f) ∙ some_active) in
        absurd (omega arith)
    | inr (c, f) ↦
        let listed : c.active_list ≡ e ∷ es =
          ap (λ o. elim o [ none ↦ [] | some c ↦ c.active_list ]) (sym f) ∙ some_active in
        let (stuck, runs, same) =
          effects_loop-SameEffects templates curve tick id (metadata_of id b) (e ∷ es) b fits in
        (stuck, rw (run_status_effects, f, listed, runs) refl, same)
  ]

effects-cases :
    (es : List ActiveEffect)
    → (es ≡ []) ⊎ ((e : ActiveEffect) × (es' : List ActiveEffect) × (es ≡ e ∷ es'))
effects-cases [] = inl refl
effects-cases (e ∷ es) = inr (e, es, refl)

-- RunStatusEffectsSystem, at any tick, over the entities of the effects store in any order, returns with nothing
-- changed where none of them has an effect. Otherwise, where the damage of effects is what appendInt prints, it
-- never returns, waiting for a lock that it holds itself, and no effect of any entity has been counted down.
pub run_status_effects_lem :
    (templates : List MonsterTemplate) (curve : ℕ → ℕ) (tick : ℕ) (order : List Entity) (b : Battle)
    → AllPrintable order b
    → (AreUnaffected order b × (run_status_effects templates curve tick order b ≡ some (returns b)))
      ⊎ BlocksAt order b (run_status_effects templates curve tick order b)
unfolding run_status_effects
run_status_effects_lem templates curve tick [] b fit = inl (tt, refl)
run_status_effects_lem templates curve tick (id ∷ order) b (fits, fit) =
    elim (effects-cases (active id b)) [
      | inr (e, es, here) ↦
          let (stuck, runs, same) =
            affected_blocks templates curve tick id order b e es here
              (subst ArePrintable here fits) in
          inr (id, e, es, 0, stuck, refl, here, runs, same)
      | inl here ↦
          let skips = unaffected_skipped templates curve tick id order b here in
          elim (run_status_effects_lem templates curve tick order b fit) [
            | inl (unaffected, runs) ↦ inl ((here, unaffected), skips ∙ runs)
            | inr (j, e, es, i, stuck, at, there, runs, same) ↦
                inr (j, e, es, suc i, stuck, at, there, skips ∙ runs, same)
          ]
    ]
