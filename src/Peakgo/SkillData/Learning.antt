-- ===== src/Peakgo/SkillData/Learning.antt =====
-- What a player can learn (server/peakgo/skilldata/skilldata.go).
use minnsun_s_adventure.Common.{
  ℕ, ◌≡◌, refl, inl, inr, ◌↔◌, true, false, List, [], ◌∷◌, none, some, arith, Bool-cases,
  Option-cases,
}
use minnsun_s_adventure.Common.Entries.{lookup}
use minnsun_s_adventure.Common.Int.{ℤ, ltb_ℤ, ◌≤ℤ◌}
use minnsun_s_adventure.Peakgo.SkillData.{SkillEntry, SkillGraph, contains, knows_all, can_learn}

-- All IDs of ps are known.
abbrev pub KnowsAll : List ℕ → List ℕ → Type 0
KnowsAll known ps = (p : ℕ) → contains p ps ≡ true → contains p known ≡ true

knows_all→KnowsAll : (known ps : List ℕ) → knows_all known ps ≡ true → KnowsAll known ps
knows_all→KnowsAll known [] h p m = absurd (cc)
knows_all→KnowsAll known (q ∷ ps) h p m =
    ground (arith, knows_all→KnowsAll known ps (ground arith) p)

KnowsAll→knows_all : (known ps : List ℕ) → KnowsAll known ps → knows_all known ps ≡ true
KnowsAll→knows_all known [] h = refl
KnowsAll→knows_all known (q ∷ ps) h =
    rw (h q (ground arith)) (KnowsAll→knows_all known ps (λ p m. h p (ground arith)))

level_high :
    (s : SkillEntry) (level : ℤ) → s.required_level ≤ℤ level → ltb_ℤ level s.required_level ≡ false
level_high s level le = ground arith

-- `CanLearn` gives no error exactly where the skill is registered, the level is at least the required one,
-- and all prerequisites are known.
pub can_learn_iff :
    (id : ℕ) (known : List ℕ) (level : ℤ) (g : SkillGraph)
    → (can_learn id known level g ≡ none) ↔ (
        (s : SkillEntry) × (lookup id g ≡ some s)
        × (s.required_level ≤ℤ level)
        × KnowsAll known s.prerequisites)
unfolding can_learn
can_learn_iff id known level g = (only, when)
  where
    only :
        can_learn id known level g ≡ none
        → (s : SkillEntry) × (lookup id g ≡ some s)
          × (s.required_level ≤ℤ level)
          × KnowsAll known s.prerequisites
    only h = elim (Option-cases (lookup id g)) [
      | inl e ↦ absurd (ground arith)
      | inr (s, e) ↦ elim (Bool-cases (ltb_ℤ level s.required_level)) [
        | inl f ↦ absurd (ground arith)
        | inr f ↦ elim (Bool-cases (knows_all known s.prerequisites)) [
          | inl k ↦ (s, e, ground arith, knows_all→KnowsAll known s.prerequisites k)
          | inr k ↦ absurd (ground arith)
        ]
      ]
    ]

    when :
        (s : SkillEntry) × (lookup id g ≡ some s)
          × (s.required_level ≤ℤ level)
          × KnowsAll known s.prerequisites
        → can_learn id known level g ≡ none
    when (s, e, le, all) =
        rw (can_learn, e, level_high s level le, KnowsAll→knows_all known s.prerequisites all) refl
