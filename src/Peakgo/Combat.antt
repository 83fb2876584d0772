-- ===== src/Peakgo/Combat.antt =====
-- Damage and healing (server/peakgo/combat/combat.go). A panic is none, and the status of a result, which
-- nothing sets, is left out.
pub mod Damage
pub mod Recovery
mod Tests
use minnsun_s_adventure.Common.{
  ℕ, zero, suc, ◌+◌, Bool, true, false, ◌&&◌, ◌||◌, not, List, [], ◌∷◌, Option, none, some,
  if◌then◌else◌, get_or,
}
use minnsun_s_adventure.Common.Partial.{◌>>=◌}
use minnsun_s_adventure.Common.Int.{ℤ, pos, negsuc, ◌+ℤ◌, ◌-ℤ◌, ◌*ℤ◌, ltb_ℤ, leb_ℤ, quot_ℤ, int64}
use minnsun_s_adventure.Peakgo.Rng.{Draws, intn}

pub record Stats : Type 0 where
  pub level : ℤ
  pub max_hp : ℤ
  pub current_hp : ℤ
  pub max_mp : ℤ
  pub current_mp : ℤ
  pub attack : ℤ
  pub magic_attack : ℤ
  pub defense : ℤ
  pub magic_defense : ℤ
  pub hit_rate : ℤ
  pub dodge_rate : ℤ
  pub crit_rate : ℤ
  pub crit_damage : ℤ

-- `NewStats`
unfoldable pub new_stats : ℤ → Stats
new_stats level =
    let hp = int64 (pos 100 +ℤ int64 (int64 (level -ℤ pos 1) *ℤ pos 25)) in
    let mp = int64 (pos 50 +ℤ int64 (int64 (level -ℤ pos 1) *ℤ pos 10)) in
    record {
      level = level;
      max_hp = hp;
      current_hp = hp;
      max_mp = mp;
      current_mp = mp;
      attack = int64 (pos 10 +ℤ int64 (level *ℤ pos 2));
      magic_attack = int64 (pos 10 +ℤ int64 (level *ℤ pos 2));
      defense = int64 (pos 5 +ℤ level);
      magic_defense = int64 (pos 5 +ℤ level);
      hit_rate = pos 850;
      dodge_rate = pos 50;
      crit_rate = pos 50;
      crit_damage = pos 1500;
    }

pub data Element : Type 0 where
  no_element fire water wind earth light dark : Element

abbrev pub element_code : Element → ℕ
element_code no_element = 0
element_code fire = 1
element_code water = 2
element_code wind = 3
element_code earth = 4
element_code light = 5
element_code dark = 6

-- `elementEffectiveness`, a row for each attacker.
abbrev pub element_effectiveness : Element → List ℕ
element_effectiveness no_element = 1000 ∷ 1000 ∷ 1000 ∷ 1000 ∷ 1000 ∷ 1000 ∷ 1000 ∷ []
element_effectiveness fire = 1000 ∷ 500 ∷ 2000 ∷ 500 ∷ 1000 ∷ 1000 ∷ 1000 ∷ []
element_effectiveness water = 1000 ∷ 500 ∷ 500 ∷ 2000 ∷ 1000 ∷ 1000 ∷ 1000 ∷ []
element_effectiveness wind = 1000 ∷ 2000 ∷ 500 ∷ 500 ∷ 1000 ∷ 1000 ∷ 1000 ∷ []
element_effectiveness earth = 1000 ∷ 1000 ∷ 1000 ∷ 1000 ∷ 500 ∷ 1000 ∷ 2000 ∷ []
element_effectiveness light = 1000 ∷ 1000 ∷ 1000 ∷ 1000 ∷ 2000 ∷ 1000 ∷ 2000 ∷ []
element_effectiveness dark = 1000 ∷ 1000 ∷ 1000 ∷ 1000 ∷ 500 ∷ 500 ∷ 1000 ∷ []

-- `GetElementEffectiveness`
abbrev pub get_element_effectiveness : Element → Element → ℤ
get_element_effectiveness attacker defender =
    pos (get_or (element_effectiveness attacker) (element_code defender) 0)

pub data DamageType : Type 0 where
  physical magical pure : DamageType

pub record DamageModifiers : Type 0 where
  pub is_crit : Bool
  pub is_guaranteed : Bool
  pub damage_type : DamageType
  pub element : Element
  pub defender_element : Element
  pub skill_multiplier : ℤ

pub record CombatResult : Type 0 where
  pub hit : Bool
  pub dodged : Bool
  pub is_crit : Bool
  pub damage_dealt : ℤ
  pub raw_damage : ℤ
  pub mitigated : ℤ
  pub element_multi : ℤ

abbrev pub no_result : CombatResult
no_result = record {
  hit = false;
  dodged = false;
  is_crit = false;
  damage_dealt = pos 0;
  raw_damage = pos 0;
  mitigated = pos 0;
  element_multi = pos 0;
}

-- `if x < 1 { x = 1 }`
abbrev pub at_least_1 : ℤ → ℤ
at_least_1 v = if ltb_ℤ v (pos 1) then pos 1 else v

-- A chance in per mille, from 100 to 995.
abbrev pub bounded_chance : ℤ → ℤ
bounded_chance c =
    let low = if ltb_ℤ c (pos 100) then pos 100 else c in
    if ltb_ℤ (pos 995) low then pos 995 else low

-- The hit check: whether the defender dodges.
unfoldable pub dodges : Draws → Bool → ℤ → ℕ → Option (Bool × ℕ)
unfolding intn
dodges draws skip chance i =
    let check = (do
      (n, i') ← intn draws (pos 1000) i
      some (leb_ℤ (bounded_chance chance) n, i')) in
    if skip then some (false, i) else check

-- The crit check.
unfoldable pub crits : Draws → Bool → Bool → ℤ → ℕ → Option (Bool × ℕ)
unfolding intn
crits draws disabled forced rate i =
    let check = (do (n, i') ← intn draws (pos 1000) i; some (ltb_ℤ n rate, i')) in
    if forced || disabled then some (forced, i) else check

abbrev pub skill_multi : DamageModifiers → ℤ
skill_multi m = if leb_ℤ m.skill_multiplier (pos 0) then pos 1000 else m.skill_multiplier

abbrev pub raw_damage_of : ℤ → DamageModifiers → ℤ
raw_damage_of attack m = at_least_1 (quot_ℤ (int64 (attack *ℤ skill_multi m)) 1000)

-- A hit that lands: raw damage, defense, element and crit.
unfoldable pub land : Draws → Bool → ℤ → ℤ → ℤ → ℤ → DamageModifiers → ℕ → Option (CombatResult × ℕ)
unfolding crits
land draws disabled attack defense crit_rate crit_damage m i = do
  let raw = raw_damage_of attack m
  let mitigated = if ltb_ℤ raw defense then raw else defense
  let multi = get_element_effectiveness m.element m.defender_element
  let after_element = at_least_1 (quot_ℤ (int64 (int64 (raw -ℤ mitigated) *ℤ multi)) 1000)
  (crit, i') ← crits draws disabled m.is_crit crit_rate i
  some (
    record {
      hit = true;
      dodged = false;
      is_crit = crit;
      damage_dealt =
          at_least_1
            (if crit then quot_ℤ (int64 (after_element *ℤ crit_damage)) 1000 else after_element);
      raw_damage = raw;
      mitigated = mitigated;
      element_multi = multi;
    },
    i',
  )

-- `ResolvePhysical`, with `DisableRngForTesting`.
unfoldable pub resolve_physical :
    Draws → Bool → Stats → Stats → DamageModifiers → ℕ → Option (CombatResult × ℕ)
resolve_physical draws disabled a d m i = do
  (dodged, i') ← dodges draws (m.is_guaranteed || disabled) (int64 (a.hit_rate -ℤ d.dodge_rate)) i
  if dodged
      then some (record no_result { dodged = true }, i')
      else land draws disabled a.attack (quot_ℤ (int64 (d.defense *ℤ pos 50)) 100) a.crit_rate
          a.crit_damage m i'

-- `ResolveMagical`
unfoldable pub resolve_magical :
    Draws → Bool → Stats → Stats → DamageModifiers → ℕ → Option (CombatResult × ℕ)
resolve_magical draws disabled a d m i = do
  (dodged, i') ←
      dodges draws (m.is_guaranteed || disabled)
        (int64 (int64 (a.hit_rate +ℤ pos 50) -ℤ quot_ℤ d.dodge_rate 2)) i
  if dodged
      then some (record no_result { dodged = true }, i')
      else land draws disabled a.magic_attack (quot_ℤ (int64 (d.magic_defense *ℤ pos 75)) 100)
          (quot_ℤ a.crit_rate 2) a.crit_damage m i'

-- `ResolvePure`
unfoldable pub resolve_pure : Stats → DamageModifiers → CombatResult
resolve_pure a m =
    let raw = raw_damage_of a.attack m in
    let multi = get_element_effectiveness m.element no_element in
    record no_result {
      hit = true;
      raw_damage = raw;
      element_multi = multi;
      damage_dealt = at_least_1 (quot_ℤ (int64 (raw *ℤ multi)) 1000);
    }

pub record DotInstance : Type 0 where
  pub damage_per_tick : ℤ
  pub remaining_ticks : ℤ
  pub total_ticks : ℤ
  pub element : Element
  pub source_entity_id : ℕ

-- `DoTInstance.Tick` and `Expired`.
unfoldable pub dot_tick : DotInstance → ℤ × DotInstance
dot_tick d =
    if leb_ℤ d.remaining_ticks (pos 0)
    then (pos 0, d)
    else (d.damage_per_tick, record d { remaining_ticks = int64 (d.remaining_ticks -ℤ pos 1) })

abbrev pub dot_expired : DotInstance → Bool
dot_expired d = leb_ℤ d.remaining_ticks (pos 0)

pub record HealResult : Type 0 where
  pub amount : ℤ
  pub overheal : ℤ
  pub is_crit : Bool

-- `CalculateHealing`
unfoldable pub calculate_healing : Draws → ℤ → ℤ → Bool → ℕ → Option (HealResult × ℕ)
unfolding intn
calculate_healing draws base_heal multi can_crit i =
    let m = if leb_ℤ multi (pos 0) then pos 1000 else multi in
    let heal = at_least_1 (quot_ℤ (int64 (base_heal *ℤ m)) 1000) in
    let plain : HealResult = record { amount = heal; overheal = pos 0; is_crit = false } in
    let crit : HealResult = record {
      amount = quot_ℤ (int64 (heal *ℤ pos 1500)) 1000;
      overheal = pos 0;
      is_crit = true;
    } in
    let check = (do
      (n, i') ← intn draws (pos 1000) i
      some (if ltb_ℤ n (pos 50) then crit else plain, i')) in
    if can_crit then check else some (plain, i)

-- `ApplyHealing`: the new HP and the overheal.
unfoldable pub apply_healing : ℤ → ℤ → HealResult → ℤ × ℤ
apply_healing current_hp max_hp heal =
    let hp = int64 (current_hp +ℤ heal.amount) in
    if ltb_ℤ max_hp hp then (max_hp, int64 (hp -ℤ max_hp)) else (hp, pos 0)
