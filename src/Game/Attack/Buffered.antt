-- ===== src/Game/Attack/Buffered.antt =====
-- Attacks while an accumulator is installed (AttackSystem and DamageSystem of server/game/combat.go).
use minnsun_s_adventure.Common.{◌≡◌, refl, ◌⊎◌, inl, inr, false, not, some, ◌==◌}
use minnsun_s_adventure.Common.Partial.{Gives, Gives-some, Gives-bind, Gives-if, Gives-elim}
use minnsun_s_adventure.Common.Int.{ℤ, pos, leb_ℤ}
use minnsun_s_adventure.Ecs.Entity.{Entity}
use minnsun_s_adventure.Ecs.Components.{StatsComponent, MetadataComponent}
use minnsun_s_adventure.Ecs.Accumulator.{CombatAccumulator, add_damage}
use minnsun_s_adventure.Ecs.Registry.{Registry}
use minnsun_s_adventure.Game.State.{is_in_range}
use minnsun_s_adventure.Peakgo.Combat.Damage.{resolve-IsOutcome}
use minnsun_s_adventure.Game.Attack.{
  Setting, Arena, AttackReply, hit, killed, self_target, no_attacker, no_attacker_meta, no_target,
  no_target_meta, target_dead, target_transferring, out_of_range, plain_attack,
  stats_to_combat_stats, damage_system, land_attack, attack_system,
}

-- A reply to an attack that killed nobody.
abbrev pub IsNoKill : AttackReply → Type 0
IsNoKill (killed d) = ⊥
IsNoKill _ = Unit

-- Nobody was killed, the registry, the grid and the respawns are as before, and the accumulator has the damage of a
-- hit on the target, and what it had otherwise.
abbrev pub IsDeferred : Entity → CombatAccumulator → Arena → AttackReply × Arena → Type 0
IsDeferred target buffer a (reply, a') =
    IsNoKill reply
    × (a'.battle ≡ a.battle)
    × ((a'.buffer ≡ some buffer)
        ⊎ ((d : ℤ) × (reply ≡ hit d) × (a'.buffer ≡ some (add_damage target d (pos 0) buffer))))

module _ (set : Setting) (attacker target : Entity) (a : Arena) (buffer : CombatAccumulator)
    (installed : a.buffer ≡ some buffer) where
  refused :
      (reply : AttackReply) → IsNoKill reply → Gives (IsDeferred target buffer a) (some (reply, a))
  refused reply none_killed = Gives-some (reply, a) (none_killed, refl, inl installed)

  lands :
      (attacker_stats target_stats : StatsComponent) (attacker_meta target_meta : MetadataComponent)
      → a.battle.game.registry.stats target ≡ some target_stats
      → leb_ℤ target_stats.hp (pos 0) ≡ false
      → Gives
          (IsDeferred target buffer a)
          (land_attack set attacker target attacker_stats attacker_meta target_stats target_meta a)
  unfolding land_attack damage_system
  lands attacker_stats target_stats attacker_meta target_meta at alive =
      Gives-bind
        (resolve-IsOutcome set.draws set.disable_rng (stats_to_combat_stats attacker_stats)
          (stats_to_combat_stats target_stats) plain_attack a.drawn).0
        λ r _.
          rw (installed, at, alive) (Gives-some _ (tt, refl, inr (r.0.damage_dealt, refl, refl)))

  -- While an accumulator is installed, an attack returns, whoever attacks whom: it kills nobody and changes neither
  -- HP nor anything else of the registry, the grid and the respawns; a hit is added to the accumulator.
  pub attack-IsDeferred : Gives (IsDeferred target buffer a) (attack_system set attacker target a)
  unfolding attack_system
  attack-IsDeferred =
      Gives-if (attacker == target) (λ _. refused self_target tt)
        (λ _.
          Gives-elim (r.stats attacker) (λ _. refused no_attacker tt)
            λ attacker_stats _.
              Gives-elim (r.metadata attacker) (λ _. refused no_attacker_meta tt)
                λ attacker_meta _.
                  Gives-elim (r.stats target) (λ _. refused no_target tt)
                    λ target_stats at.
                      Gives-elim (r.metadata target) (λ _. refused no_target_meta tt)
                        λ target_meta _.
                          Gives-if (leb_ℤ target_stats.hp (pos 0)) (λ _. refused target_dead tt)
                            (λ alive.
                              Gives-if _ (λ _. refused target_transferring tt)
                                (λ _.
                                  Gives-if (not (is_in_range attacker target 5 r))
                                    (λ _. refused out_of_range tt)
                                    (λ _.
                                      lands attacker_stats target_stats attacker_meta target_meta at
                                        alive))))
    where
      r : Registry
      r = a.battle.game.registry
