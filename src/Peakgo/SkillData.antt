-- ===== src/Peakgo/SkillData.antt =====
-- The skill graph (server/peakgo/skilldata/skilldata.go). An int32 ID and a float64 are their bits, and the
-- map of skills is a list of entries, in the order that a loop over it happens to take.
pub mod Chains
pub mod Learning
mod Tests
use Prim.Native.String.{String}
use minnsun_s_adventure.Common.{
  ℕ, zero, suc, ◌+◌, Bool, true, false, ◌||◌, List, [], ◌∷◌, ◌++◌, Option, none, some, ◌==◌,
  if◌then◌else◌, length,
}
use minnsun_s_adventure.Common.Partial.{◌>>=◌}
use minnsun_s_adventure.Common.Int.{ℤ, ltb_ℤ}
use minnsun_s_adventure.Common.Entries
use minnsun_s_adventure.Common.Table.{is_some}

pub data SkillClass : Type 0 where
  instant cast channel passive toggle : SkillClass

pub data SkillTarget : Type 0 where
  target_none target_self target_enemy target_friendly target_point target_area : SkillTarget

pub record SkillEntry : Type 0 where
  pub id : ℕ
  pub name : String
  pub class : SkillClass
  pub target : SkillTarget
  pub cast_time_ms : ℤ
  pub cooldown_ms : ℤ
  pub range : ℕ
  pub mana_cost : ℤ
  pub required_level : ℤ
  pub max_rank : ℤ
  pub damage_mult : ℕ
  pub heal_mult : ℕ
  pub prerequisites : List ℕ
  pub children : List ℕ

-- `SkillGraph`
abbrev pub SkillGraph : Type 0
SkillGraph = List (ℕ × SkillEntry)

pub data SkillError : Type 0 where
  duplicate_skill skill_not_found level_too_low missing_prerequisite : SkillError

-- `_, seen := set[id]`
abbrev pub contains : ℕ → List ℕ → Bool
contains id [] = false
contains id (x ∷ xs) = x == id || contains id xs

-- `parent.Children = append(parent.Children, s.ID)`
abbrev pub with_child : ℕ → SkillEntry → SkillEntry
with_child child e = record e { children = e.children ++ (child ∷ []) }

-- The loop that enters a skill with its parents.
abbrev pub enter_parents : ℕ → List ℕ → SkillGraph → SkillGraph
enter_parents child [] g = g
enter_parents child (p ∷ ps) g =
    enter_parents child ps
      (elim (Entries.lookup p g) [ none ↦ g | some e ↦ Entries.insert p (with_child child e) g ])

-- `RegisterSkill`: the error, where there is one.
unfoldable pub register_skill : SkillEntry → SkillGraph → Option SkillError × SkillGraph
register_skill s g =
    if is_some (Entries.lookup s.id g)
    then (some duplicate_skill, g)
    else (none, enter_parents s.id s.prerequisites (Entries.insert s.id s g))

-- `GetSkill`
abbrev pub get_skill : ℕ → SkillGraph → Option SkillEntry
get_skill id g = Entries.lookup id g

-- The loop over the prerequisites: whether all are known.
abbrev pub knows_all : List ℕ → List ℕ → Bool
knows_all known [] = true
knows_all known (p ∷ ps) = if contains p known then knows_all known ps else false

-- `CanLearn`: the error, where the answer is no.
unfoldable pub can_learn : ℕ → List ℕ → ℤ → SkillGraph → Option SkillError
can_learn id known level g = elim (Entries.lookup id g) [
  | none ↦ some skill_not_found
  | some skill ↦
      if ltb_ℤ level skill.required_level
      then some level_too_low
      else if knows_all known skill.prerequisites
      then none
      else some missing_prerequisite
]

-- The loop over prerequisites, on the visited IDs and the result, its last element first.
abbrev pub collect_all :
    (ℕ → List ℕ × List ℕ → Option (List ℕ × List ℕ))
    → List ℕ
    → List ℕ × List ℕ
    → Option (List ℕ × List ℕ)
collect_all collect [] s = some s
collect_all collect (p ∷ ps) s = collect p s >>= collect_all collect ps

-- `collectPrereqs`; none is fuel that has run out.
unfoldable pub collect_prereqs : ℕ → SkillGraph → ℕ → List ℕ × List ℕ → Option (List ℕ × List ℕ)
collect_prereqs zero g id s = none
collect_prereqs (suc k) g id (visited, result) =
    if contains id visited then some (visited, result) else elim (Entries.lookup id g) [
      | none ↦ some (visited, result)
      | some skill ↦ (do
        (visited', result') ←
            collect_all (collect_prereqs k g) skill.prerequisites (id ∷ visited, result)
        some (visited', id ∷ result'))
    ]

-- A slice from its elements, the last first.
abbrev pub in_order : List ℕ → List ℕ
in_order [] = []
in_order (x ∷ xs) = in_order xs ++ (x ∷ [])

-- `GetPrerequisiteChain`
unfoldable pub get_prerequisite_chain : ℕ → SkillGraph → Option (List ℕ)
unfolding collect_prereqs
get_prerequisite_chain id g = do
  (visited, result) ← collect_prereqs (length g + 1) g id ([], [])
  some (in_order result)

-- `GetTree`, `Count` and `GetSkillsByClass`.
abbrev pub get_tree : SkillGraph → List SkillEntry
get_tree [] = []
get_tree ((id, s) ∷ g) = s ∷ get_tree g

abbrev pub count : SkillGraph → ℕ
count g = length g

abbrev pub is_class : SkillClass → SkillClass → Bool
is_class instant instant = true
is_class cast cast = true
is_class channel channel = true
is_class passive passive = true
is_class toggle toggle = true
is_class _ _ = false

abbrev pub get_skills_by_class : SkillClass → SkillGraph → List ℕ
get_skills_by_class class [] = []
get_skills_by_class class ((id, s) ∷ g) =
    if is_class s.class class then id ∷ get_skills_by_class class g else get_skills_by_class class g
