-- ===== src/Peakgo/SkillData/Tests.antt =====
-- Two skills that need one another, and one that needs both (server/peakgo/skilldata/skilldata.go).
use minnsun_s_adventure.Common.{ℕ, ◌≡◌, refl, ◌↔◌, true, List, [], ◌∷◌, none, some}
use minnsun_s_adventure.Common.Partial.{Gives}
use minnsun_s_adventure.Common.Entries.{lookup}
use minnsun_s_adventure.Common.Int.{pos, ◌≤ℤ◌}
use minnsun_s_adventure.Peakgo.SkillData.{
  SkillEntry, SkillGraph, instant, target_enemy, contains, register_skill, can_learn,
  get_prerequisite_chain, duplicate_skill,
}
use minnsun_s_adventure.Peakgo.SkillData.Chains.{
  IsDistinct, IsRegistered, get_prerequisite_chain_lem,
}
use minnsun_s_adventure.Peakgo.SkillData.Learning.{KnowsAll, can_learn_iff}

abbrev skill : ℕ → List ℕ → SkillEntry
skill id needs = record {
  id = id;
  name = "Slash";
  class = instant;
  target = target_enemy;
  cast_time_ms = pos 0;
  cooldown_ms = pos 0;
  range = 0;
  mana_cost = pos 1;
  required_level = pos 5;
  max_rank = pos 1;
  damage_mult = 0;
  heal_mult = 0;
  prerequisites = needs;
  children = [];
}

abbrev skills : SkillGraph
skills = (1, skill 1 (2 ∷ [])) ∷ (2, skill 2 (1 ∷ [])) ∷ (3, skill 3 (1 ∷ 2 ∷ [])) ∷ []

needs_come_first : get_prerequisite_chain 3 skills ≡ some (2 ∷ 1 ∷ 3 ∷ [])
unfolding get_prerequisite_chain
needs_come_first = refl

parent_has_child :
    lookup 1 (register_skill (skill 4 (1 ∷ [])) skills).1
    ≡ some (record (skill 1 (2 ∷ [])) { children = 4 ∷ [] })
unfolding register_skill
parent_has_child = refl

second_is_refused : (register_skill (skill 3 []) skills).0 ≡ some duplicate_skill
unfolding register_skill
second_is_refused = refl

get_prerequisite_chain_lem_example :
    Gives
      (λ chain.
        IsDistinct chain
        × (IsRegistered 3 skills → contains 3 chain ≡ true)
        × ((x : ℕ)
            → contains x chain ≡ true
            → (s : SkillEntry) × (lookup x skills ≡ some s)
              × ((p : ℕ)
                  → contains p s.prerequisites ≡ true
                  → IsRegistered p skills
                  → contains p chain ≡ true)))
      (get_prerequisite_chain 3 skills)
get_prerequisite_chain_lem_example = get_prerequisite_chain_lem 3 skills

can_learn_iff_example : (can_learn 3 (1 ∷ 2 ∷ []) (pos 6) skills ≡ none) ↔ (
    (s : SkillEntry) × (lookup 3 skills ≡ some s)
    × (s.required_level ≤ℤ pos 6)
    × KnowsAll (1 ∷ 2 ∷ []) s.prerequisites)
can_learn_iff_example = can_learn_iff 3 (1 ∷ 2 ∷ []) (pos 6) skills
