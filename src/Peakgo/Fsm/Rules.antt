-- ===== src/Peakgo/Fsm/Rules.antt =====
-- A definition that `NewFSMDef` of server/peakgo/fsm/fsm.go builds has the transitions of its rules.
use minnsun_s_adventure.Common.{
  ℕ, ◌≡◌, refl, sym, ap, ◌∙◌, inl, inr, ◌⊎◌, true, ◌&&◌, List, [], ◌∷◌, Option, none, some, arith,
  ◌==◌, if◌then◌else◌, Bool-cases, Option-cases, Eq-cases,
}
use minnsun_s_adventure.Common.Table.{insert}
use minnsun_s_adventure.Peakgo.Fsm.{
  FsmDef, TransitionRule, target, add_rule, add_rules, new_fsm_def, or_empty,
}

-- The first rule of a list for a state and an event.
abbrev pub find_rule : ℕ → ℕ → List TransitionRule → Option ℕ
find_rule s e [] = none
find_rule s e (r ∷ rules) =
    if (r.from == s) && (r.event == e) then some r.to else find_rule s e rules

-- No two rules for one state and one event.
unfoldable pub IsDeterministic : List TransitionRule → Type 0
IsDeterministic [] = Unit
IsDeterministic (r ∷ rules) = (find_rule r.from r.event rules ≡ none) × IsDeterministic rules

-- The rules of the list first, and what the definition had already after them.
abbrev or_else : Option ℕ → Option ℕ → Option ℕ
or_else none o = o
or_else (some t) o = some t

with_rule : TransitionRule → FsmDef → FsmDef
with_rule r def = record def {
  transitions =
      insert r.from (insert r.event r.to (or_empty (def.transitions r.from))) def.transitions;
}

or_else-none : (o : Option ℕ) → or_else o none ≡ o
or_else-none none = refl
or_else-none (some t) = refl

found_itself :
    (r : TransitionRule) (rules : List TransitionRule)
    → find_rule r.from r.event (r ∷ rules) ≡ none
    → ⊥
found_itself r rules h = ground arith

target-with_rule :
    (r : TransitionRule) (def : FsmDef) (s e : ℕ)
    → target (with_rule r def) s e
      ≡ (if (r.from == s) && (r.event == e) then some r.to else target def s e)
unfolding with_rule
target-with_rule r def s e = ground (arith, Option-cases (def.transitions s), Eq-cases r.from s)

add_rules-target :
    (rules : List TransitionRule) (def : FsmDef)
    → IsDeterministic rules
    → ((s e : ℕ) → (find_rule s e rules ≡ none) ⊎ (target def s e ≡ none))
    → (def' : FsmDef) × (add_rules rules def ≡ some def')
      × ((s e : ℕ) → target def' s e ≡ or_else (find_rule s e rules) (target def s e))
unfolding IsDeterministic with_rule
add_rules-target [] def det apart = (def, refl, λ s e. refl)
add_rules-target (r ∷ rules) def (fresh, det) apart =
    let (def', built, is) = add_rules-target rules (with_rule r def) det apart' in
    (
      def',
      rw (add_rules, add_rule, missing) built,
      λ s e. is s e ∙ ap (or_else (find_rule s e rules)) (target-with_rule r def s e) ∙ merged s e,
    )
  where
    hit : (s e : ℕ) → (r.from == s) && (r.event == e) ≡ true → (r.from ≡ s) × (r.event ≡ e)
    hit s e h = ground arith

    missing : target def r.from r.event ≡ none
    missing = elim (apart r.from r.event) [ inl h ↦ absurd (found_itself r rules h) | inr h ↦ h ]

    fresh_at : (s e : ℕ) → (r.from == s) && (r.event == e) ≡ true → find_rule s e rules ≡ none
    fresh_at s e h = let (p, q) = hit s e h in rw (sym p, sym q) fresh

    apart' : (s e : ℕ) → (find_rule s e rules ≡ none) ⊎ (target (with_rule r def) s e ≡ none)
    apart' s e = elim (Bool-cases ((r.from == s) && (r.event == e))) [
      | inl h ↦ inl (fresh_at s e h)
      | inr h ↦ elim (apart s e) [
        | inl f ↦ inl (sym (ap (λ b. if b then some r.to else find_rule s e rules) h) ∙ f)
        | inr g ↦
            inr
              (target-with_rule r def s e ∙ ap (λ b. if b then some r.to else target def s e) h ∙ g)
      ]
    ]

    merged :
        (s e : ℕ)
        → or_else
            (find_rule s e rules)
            (if (r.from == s) && (r.event == e) then some r.to else target def s e)
          ≡ or_else
              (if (r.from == s) && (r.event == e) then some r.to else find_rule s e rules)
              (target def s e)
    merged s e = elim (Bool-cases ((r.from == s) && (r.event == e))) [
      | inl h ↦ rw (h, fresh_at s e h) refl
      | inr h ↦ rw h refl
    ]

-- `NewFSMDef` does not panic on rules of which no two are for one state and one event, and the
-- definition makes exactly the transitions of the rules.
pub new_fsm_def_lem :
    (initial : ℕ) (rules : List TransitionRule)
    → IsDeterministic rules
    → (def : FsmDef) × (new_fsm_def initial rules ≡ some def)
      × ((s e : ℕ) → target def s e ≡ find_rule s e rules)
unfolding new_fsm_def
new_fsm_def_lem initial rules det =
    let (def, built, is) = add_rules-target rules _ det (λ s e. inr refl) in
    (def, built, λ s e. is s e ∙ or_else-none (find_rule s e rules))
