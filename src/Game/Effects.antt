-- ===== src/Game/Effects.antt =====
-- Status effects (server/game/effects_system.go). Notices are left out, but for the
-- numbers in those of deaths; none is a panic there.
pub mod Blocking
mod Tests
use Prim.Native.String.{String}
use minnsun_s_adventure.Common.{
  ℕ, ◌+◌, ◌*◌, ◌%◌, ◌^◌, Bool, true, false, ◌&&◌, ◌||◌, List, [], ◌∷◌, ◌++◌, Option, none, some,
  if◌then◌else◌,
}
use minnsun_s_adventure.Common.Partial.{◌>>=◌}
use minnsun_s_adventure.Common.Int.{ℤ, pos, ◌+ℤ◌, ◌-ℤ◌, ltb_ℤ, leb_ℤ, eqb_ℤ, int64}
use minnsun_s_adventure.Common.Table.{Table, insert}
use minnsun_s_adventure.Ecs.Entity.{Entity}
use minnsun_s_adventure.Ecs.Components.{
  is_player, ActiveEffect, EffectsComponent, EffectKind, poison, burn, haste_buff, other_effect,
  MetadataComponent, StatsComponent, entity_monster, zero_metadata,
}
use minnsun_s_adventure.Ecs.Registry.{Registry}
use minnsun_s_adventure.Game.Death.{MonsterTemplate, Battle, before_removal}
use minnsun_s_adventure.Game.State.{Locked, returns, blocks}

abbrev pub is_dot : EffectKind → Bool
is_dot poison = true
is_dot burn = true
is_dot _ = false

abbrev pub name_of : EffectKind → String
name_of poison = "poison"
name_of burn = "burn"
name_of haste_buff = "haste_buff"
name_of (other_effect name) = name

-- One tick less, down to 0.
abbrev pub count_down : ActiveEffect → ActiveEffect
count_down e = record e {
  duration_ticks =
      if ltb_ℤ (pos 0) e.duration_ticks
      then int64 (e.duration_ticks -ℤ pos 1)
      else e.duration_ticks;
}

abbrev pub hp_left : ℤ → ℤ → ℤ
hp_left hp value = let v = int64 (hp -ℤ value) in if ltb_ℤ v (pos 0) then pos 0 else v

abbrev pub with_stats : Entity → StatsComponent → Battle → Battle
with_stats id s b = record b {
  game = record b.game {
    registry = record b.game.registry { stats = insert id s b.game.registry.stats };
  };
}

module _ (templates : List MonsterTemplate) (curve : ℕ → ℕ) (tick : ℕ) (id : Entity)
    (meta : MetadataComponent) where
  -- The damage of an effect whose count is full: whether the effect stays, and the state. A monster that dies is
  -- removed from the effects store as well, whose read lock the loop of `RangeEffects` holds.
  unfoldable pub strike : ActiveEffect → Battle → Option (Locked (Bool × Battle))
  unfolding before_removal
  strike e b = elim (b.game.registry.stats id) [
    | none ↦ some (returns (true, b))
    | some s ↦
        let hp = hp_left s.hp e.value in
        let b' = with_stats id (record s { hp = hp }) b in
        let dead =
          before_removal templates curve tick id 0 meta
            (record { name = name_of e.kind; type = entity_monster }) e.value b' in
        if leb_ℤ s.hp (pos 0)
        then some (returns (true, b))
        else if eqb_ℤ hp (pos 0)
        then (dead >>= λ b''.
            some (if is_player meta.type then returns (false, b'') else blocks (true, b'')))
        else some (returns (true, b'))
  ]

  -- The effects left after a round, from what `strike` gives.
  abbrev pub left_of : ActiveEffect → Locked (Bool × Battle) → Locked (List ActiveEffect × Battle)
  left_of e (returns (stays, b)) = returns ((if stays then e ∷ [] else []), b)
  left_of e (blocks (stays, b)) = blocks ([], b)

  -- A round of the loop: what stays of the effect, and the state.
  unfoldable pub run_effect : ActiveEffect → Battle → Option (Locked (List ActiveEffect × Battle))
  unfolding strike
  run_effect e b =
      let e' = count_down e in
      let counted = record e' { dot_tick_accum = int64 (e'.dot_tick_accum +ℤ pos 1) } in
      let reset = record e' { dot_tick_accum = pos 0 } in
      let struck = strike reset b >>= λ r. some (left_of reset r) in
      if leb_ℤ e'.duration_ticks (pos 0)
      then some (returns ([], b))
      else if is_dot e'.kind
      then (if leb_ℤ (pos 4) counted.dot_tick_accum
          then struck
          else some (returns (counted ∷ [], b)))
      else some (returns (e' ∷ [], b))

  -- The loop over the effects of an entity, and the `SetEffects` after it, which waits for the write lock of the
  -- store: whatever comes of the loop, the state is the one that the system waits in. What stands after
  -- `SetEffects` is never reached.
  pub effects_loop : List ActiveEffect → Battle → Option Battle
  unfolding run_effect
  effects_loop [] b = some b
  effects_loop (e ∷ es) b =
      run_effect e b
      >>= (λ r. elim r [ returns (left, b') ↦ effects_loop es b' | blocks (left, b') ↦ some b' ])

abbrev pub metadata_of : Entity → Battle → MetadataComponent
metadata_of id b = elim (b.game.registry.metadata id) [ none ↦ zero_metadata | some m ↦ m ]

-- `RunStatusEffectsSystem`, at a tick, on the entities in the order of the effects store: it returns, or blocks at
-- the first with an active effect.
unfoldable pub run_status_effects :
    List MonsterTemplate → (ℕ → ℕ) → ℕ → List Entity → Battle → Option (Locked Battle)
unfolding effects_loop
run_status_effects templates curve tick [] b = some (returns b)
run_status_effects templates curve tick (id ∷ order) b =
    let rest = run_status_effects templates curve tick order b in
    elim (b.game.registry.effects id) [
      | none ↦ rest
      | some c ↦ elim c.active_list [
        | [] ↦ rest
        | e ∷ es ↦ effects_loop templates curve tick id (metadata_of id b) (e ∷ es) b >>= λ b'.
            some (blocks b')
      ]
    ]

-- `TicksFromSeconds`, and `AddEffectWithTicks`.
abbrev pub ticks_from_seconds : ℕ → ℕ
ticks_from_seconds seconds = seconds * 4 % 2 ^ 64

unfoldable pub add_effect_with_ticks : Entity → EffectKind → ℤ → ℤ → Registry → Registry
add_effect_with_ticks id kind value duration r = elim (r.effects id) [
  | none ↦ r
  | some c ↦ record r {
    effects =
        insert id
          (record c {
            active_list =
                c.active_list
                ++ (record {
                  kind = kind;
                  value = value;
                  duration_ticks = duration;
                  dot_tick_accum = pos 0;
                }
                    ∷ []);
          })
          r.effects;
  }
]
