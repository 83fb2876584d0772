-- ===== src/Ecs/Commands/Flushing.antt =====
-- What a flush of deferred commands leaves (server/ecs/commands.go).
use mathlib.Core.Path.{subst}
use minnsun_s_adventure.Common.{
  ℕ, ◌+◌, ◌-◌, ◌^◌, ◌<◌, ◌≡◌, ◌≢◌, ap, ◌∙◌, inl, inr, List, [], ◌∷◌, some, arith, ◌==◌,
  if◌then◌else◌, Option-cases, Eq-cases, ==_refl, ==_ne,
}
use minnsun_s_adventure.Common.Int.{
  ℤ, pos, negsuc, pos_part, neg_part, ◌-ℤ◌, -ℤ_parts, ltb_ℤ, IsInt64, int64_exact,
}
use minnsun_s_adventure.Common.Table.{insert, insert_self, insert_other, erase_other}
use minnsun_s_adventure.Ecs.Entity.{Entity}
use minnsun_s_adventure.Ecs.Components.{StatsComponent}
use minnsun_s_adventure.Ecs.Registry.{remove_entity, delete_components}
use minnsun_s_adventure.Ecs.Commands.{
  MoveCommand, DamageCommand, SpawnCommand, CommandBuffer, Stores, hp_after, run_move, run_damage,
  run_spawn, run_destroy, run_all, flush_commands,
}

run_all-keeps :
    {C : Type 0} (P : Stores → Type 0) (f : C → Stores → Stores)
    → ((c : C) (s : Stores) → P s → P (f c s))
    → (cs : List C) (s : Stores) → P s
    → P (run_all f cs s)
run_all-keeps P f kept [] s h = h
run_all-keeps P f kept (c ∷ cs) s h = run_all-keeps P f kept cs (f c s) (kept c s h)

-- A command takes off an amount that an int64 holds and is not negative.
abbrev pub AreHits : List DamageCommand → Type 0
AreHits [] = Unit
AreHits (c ∷ cs) = ((a : ℕ) × (c.amount ≡ pos a) × (a < 2 ^ 63)) × AreHits cs

-- What the commands take off a target.
abbrev pub damage_to : Entity → List DamageCommand → ℕ
damage_to id [] = 0
damage_to id (c ∷ cs) =
    if c.target == id then pos_part c.amount + damage_to id cs else damage_to id cs

-- The entity is none of those spawned and none of those destroyed.
abbrev pub IsSpared : Entity → List Entity → Type 0
IsSpared id [] = Unit
IsSpared id (k ∷ ks) = (k ≢ id) × IsSpared id ks

abbrev pub spawned : List SpawnCommand → List Entity
spawned [] = []
spawned (c ∷ cs) = c.entity_id ∷ spawned cs

small_difference :
    (v : ℤ) (h a : ℕ) → h < 2 ^ 63 → a < 2 ^ 63 → pos_part v + a ≡ neg_part v + h → IsInt64 v
small_difference (pos n) h a sh sa e = (omega arith, omega arith)
small_difference (negsuc n) h a sh sa e = (omega arith, omega arith)

clamped :
    (v : ℤ) (h a : ℕ)
    → pos_part v + a ≡ neg_part v + h
    → (if ltb_ℤ v (pos 0) then pos 0 else v) ≡ pos (h - a)
clamped (pos n) h a e = ground arith
clamped (negsuc n) h a e = ground arith

hp_after_lem : (h a : ℕ) → h < 2 ^ 63 → a < 2 ^ 63 → hp_after (pos h) (pos a) ≡ pos (h - a)
hp_after_lem h a sh sa =
    let v = pos h -ℤ pos a in
    let parts : pos_part v + a ≡ neg_part v + h = omega (arith, -ℤ_parts (pos h) (pos a)) in
    rw (hp_after, int64_exact v (small_difference v h a sh sa parts)) (clamped v h a parts)

-- The entity has stats with h HP.
abbrev pub HasHp : Entity → ℕ → Stores → Type 0
HasHp id h s = (st : StatsComponent) × (s.registry.stats id ≡ some st) × (st.hp ≡ pos h)

hit-HasHp :
    (id a h : ℕ) (c : DamageCommand) (s : Stores)
    → c.amount ≡ pos a
    → a < 2 ^ 63
    → h < 2 ^ 63
    → HasHp id h s
    → c.target ≡ id
    → HasHp id (h - a) (run_damage c s)
hit-HasHp id a h c s is sa small (st, at, hp) e =
    let at' : s.registry.stats c.target ≡ some st = ap s.registry.stats e ∙ at in
    let st' : StatsComponent = record st { hp = hp_after st.hp c.amount } in
    rw (run_damage, at')
      (
        st',
        ap (λ k. insert k st' s.registry.stats id) e ∙ insert_self id st' s.registry.stats,
        ap (λ v. hp_after v c.amount) hp ∙ ap (hp_after (pos h)) is ∙ hp_after_lem h a small sa,
      )

missed-HasHp :
    (id h : ℕ) (c : DamageCommand) (s : Stores)
    → HasHp id h s
    → c.target ≢ id
    → HasHp id h (run_damage c s)
missed-HasHp id h c s (st, at, hp) ne = elim (Option-cases (s.registry.stats c.target)) [
  | inl e ↦ rw (run_damage, e) (st, at, hp)
  | inr (other, e) ↦
      rw (run_damage, e)
        (
          st,
          insert_other c.target id (record other { hp = hp_after other.hp c.amount })
                s.registry.stats ne
              ∙ at,
          hp,
        )
]

damages-HasHp :
    (id : Entity) (cs : List DamageCommand) (h : ℕ) (s : Stores)
    → AreHits cs
    → h < 2 ^ 63
    → HasHp id h s
    → HasHp id (h - damage_to id cs) (run_all run_damage cs s)
damages-HasHp id [] h s hits small has = subst (λ n. HasHp id n s) (minus_zero h) has
  where
    minus_zero : (h : ℕ) → h ≡ h - 0
    minus_zero h = omega arith
damages-HasHp id (c ∷ cs) h s ((a, is, sa), hits) small has = elim (Eq-cases c.target id) [
  | inl e ↦
      subst (λ n. HasHp id n (run_all run_damage cs (run_damage c s)))
        (rw (e, ==_refl id, ap pos_part is) (minus_minus h a (damage_to id cs)))
        (damages-HasHp id cs (h - a) (run_damage c s) hits (omega arith)
          (hit-HasHp id a h c s is sa small has e))
  | inr ne ↦
      rw (==_ne c.target id ne)
        (damages-HasHp id cs h (run_damage c s) hits small (missed-HasHp id h c s has ne))
]
  where
    minus_minus : (h a d : ℕ) → h - a - d ≡ h - (a + d)
    minus_minus h a d = omega arith

moves_keep :
    (id : Entity) (h : ℕ) (cs : List MoveCommand) (s : Stores)
    → HasHp id h s
    → HasHp id h (run_all run_move cs s)
moves_keep id h cs s has = run_all-keeps (HasHp id h) run_move (λ c s x. x) cs s has

spawns_keep :
    (id : Entity) (h : ℕ) (cs : List SpawnCommand) (s : Stores)
    → IsSpared id (spawned cs)
    → HasHp id h s
    → HasHp id h (run_all run_spawn cs s)
spawns_keep id h [] s spared has = has
spawns_keep id h (c ∷ cs) s (ne, spared) (st, at, hp) =
    spawns_keep id h cs (run_spawn c s) spared
      (st, insert_other c.entity_id id c.stats s.registry.stats ne ∙ at, hp)

destroys_keep :
    (id : Entity) (h : ℕ) (ks : List Entity) (s : Stores)
    → IsSpared id ks
    → HasHp id h s
    → HasHp id h (run_all run_destroy ks s)
unfolding run_destroy remove_entity delete_components
destroys_keep id h [] s spared has = has
destroys_keep id h (k ∷ ks) s (ne, spared) (st, at, hp) =
    destroys_keep id h ks (run_destroy k s) spared
      (st, erase_other k id s.registry.stats ne ∙ at, hp)

-- A flush whose damages are not negative takes off an entity's HP all damage to it, down to 0, where the
-- entity is none of those spawned and destroyed.
pub flush_commands_hurts :
    (b : CommandBuffer) (s : Stores) (id : Entity) (h : ℕ)
    → AreHits b.damages
    → h < 2 ^ 63
    → HasHp id h s
    → IsSpared id (spawned b.spawns)
    → IsSpared id b.destroys
    → HasHp id (h - damage_to id b.damages) (flush_commands b s).1
unfolding flush_commands
flush_commands_hurts b s id h hits small has not_new not_gone =
    destroys_keep id _ b.destroys _ not_gone (
      spawns_keep id _ b.spawns _ not_new
        (damages-HasHp id b.damages h _ hits small (moves_keep id h b.moves s has)))
