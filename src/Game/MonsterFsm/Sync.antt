-- ===== src/Game/MonsterFsm/Sync.antt =====
-- The state of a monster's AI component and the state of its machine (server/game/ai_fsm.go).
use minnsun_s_adventure.Common.{
  ℕ, ◌≤◌, ◌≡◌, refl, sym, ap, ◌∙◌, inl, inr, true, false, List, [], ◌∷◌, some, arith, if◌then◌else◌,
  ◌==◌, Option-cases, Bool-cases, some_inj, ◌&&◌,
}
use minnsun_s_adventure.Common.Table.{Table, insert, insert_self, insert-some}
use minnsun_s_adventure.Ecs.Entity.{Entity}
use minnsun_s_adventure.Ecs.Components.{AiComponent}
use minnsun_s_adventure.Peakgo.Fsm.{FsmDef, Fsm, TransitionRule, target, new_fsm, send}
use minnsun_s_adventure.Peakgo.Fsm.Rules.{find_rule, IsDeterministic, new_fsm_def_lem}
use minnsun_s_adventure.Peakgo.Fsm.Sends.{IsTransition, send_lem, send_returns_old_state}
use minnsun_s_adventure.Game.MonsterFsm.{
  MonsterEvent, event_code, ai_state_of, monster_rules, build_monster_fsm_def,
  get_or_create_monster_fsm, monster_fsm_send,
}

-- The rules of the monsters make a definition without a panic, with exactly their transitions.
pub monster_fsm_def_lem :
    (def : FsmDef) × (build_monster_fsm_def ≡ some def)
    × ((s e : ℕ) → target def s e ≡ find_rule s e monster_rules)
unfolding build_monster_fsm_def IsDeterministic
monster_fsm_def_lem =
    new_fsm_def_lem 0 monster_rules
      (refl, (refl, (refl, (refl, (refl, (refl, (refl, (refl, (refl, (refl, (refl, tt)))))))))))

-- The states that a monster's machine is in: all but `AIStateTransferring`.
abbrev pub IsMonsterState : ℕ → Type 0
IsMonsterState s = s ≤ 4

AllStay : List TransitionRule → Type 0
AllStay [] = Unit
AllStay (r ∷ rules) = IsMonsterState r.to × AllStay rules

found_stays :
    (s e t : ℕ) (rules : List TransitionRule)
    → AllStay rules
    → find_rule s e rules ≡ some t
    → IsMonsterState t
unfolding AllStay
found_stays s e t [] all h = absurd (cc)
found_stays s e t (r ∷ rules) (stays, all) h = elim (Bool-cases ((r.from == s) && (r.event == e))) [
  | inl hit ↦
      let is = some_inj (sym (ap (λ b. if b then some r.to else find_rule s e rules) hit) ∙ h) in
      omega (arith, stays, is)
  | inr miss ↦
      found_stays s e t rules all
        (sym (ap (λ b. if b then some r.to else find_rule s e rules) miss) ∙ h)
]

monster_rules-AllStay : AllStay monster_rules
unfolding AllStay
monster_rules-AllStay = ground arith

-- Every machine in the store has the monsters' definition, and a state of theirs.
unfoldable pub IsMonsterStore : Table Fsm → Type 0
IsMonsterStore store =
    (id : Entity) (f : Fsm)
    → store id ≡ some f
    → (f.def ≡ build_monster_fsm_def) × IsMonsterState f.current

monster_send_stays :
    (event : ℕ) (f : Fsm)
    → f.def ≡ build_monster_fsm_def
    → IsMonsterState f.current
    → ((send event f).2.def ≡ build_monster_fsm_def) × IsMonsterState (send event f).2.current
unfolding IsTransition
monster_send_stays event f e h = elim (send_lem event f) [
  | inl (_, (def, to, is_def, goes, _, same_def, at_to, _, _)) ↦
      let (def', built, is) = monster_fsm_def_lem in
      let one = some_inj (sym is_def ∙ e ∙ built) in
      let found = sym (is f.current event) ∙ ap (λ d. target d f.current event) (sym one) ∙ goes in
      (
        same_def ∙ e,
        omega (
          arith,
          at_to,
          found_stays f.current event to monster_rules monster_rules-AllStay found,
        ),
      )
  | inr (_, same, _) ↦ (ap (λ x. x.def) same ∙ e, rw same h)
]

fresh_IsMonster :
    ((new_fsm build_monster_fsm_def).def ≡ build_monster_fsm_def)
    × IsMonsterState (new_fsm build_monster_fsm_def).current
unfolding build_monster_fsm_def new_fsm
fresh_IsMonster = (refl, omega arith)

got_IsMonster :
    (id : Entity) (store : Table Fsm)
    → IsMonsterStore store
    → (((get_or_create_monster_fsm id store).0.def ≡ build_monster_fsm_def)
        × IsMonsterState (get_or_create_monster_fsm id store).0.current)
      × IsMonsterStore (get_or_create_monster_fsm id store).1
unfolding IsMonsterStore get_or_create_monster_fsm
got_IsMonster id store h = elim (Option-cases (store id)) [
  | inl e ↦
      rw (get_or_create_monster_fsm, e)
        (
          fresh_IsMonster,
          λ j f found. elim (insert-some id j _ f store found) [
            | inl (_, one) ↦ rw (sym one) fresh_IsMonster
            | inr (_, there) ↦ h j f there
          ],
        )
  | inr (f, e) ↦ rw (get_or_create_monster_fsm, e) (h id f e, h)
]

-- Events keep every machine in the store on the monsters' rules, and out of `AIStateTransferring`.
pub monster_fsm_send-IsMonsterStore :
    (id : Entity) (ev : MonsterEvent) (ai : AiComponent) (store : Table Fsm)
    → IsMonsterStore store
    → IsMonsterStore (monster_fsm_send id ev ai store).2
unfolding IsMonsterStore monster_fsm_send
monster_fsm_send-IsMonsterStore id ev ai store h j f found =
    let (at, rest) = got_IsMonster id store h in
    let (is_def, is_state) =
      monster_send_stays (event_code ev) (get_or_create_monster_fsm id store).0 at.0 at.1 in
    elim (insert-some id j _ f (get_or_create_monster_fsm id store).1 found) [
      | inl (_, one) ↦ rw (sym one) (is_def, is_state)
      | inr (_, there) ↦ rest j f there
    ]

-- After an event that is accepted, the machine has gone by a rule from the state that it had to
-- another, and the AI component has the state that the machine had.
pub monster_fsm_send_lags :
    (id : Entity) (ev : MonsterEvent) (ai : AiComponent) (store : Table Fsm) (f : Fsm)
    → store id ≡ some f
    → f.def ≡ build_monster_fsm_def
    → (monster_fsm_send id ev ai store).0 ≡ true
    → (g : Fsm) × ((monster_fsm_send id ev ai store).2 id ≡ some g)
      × (find_rule f.current (event_code ev) monster_rules ≡ some g.current)
      × ((monster_fsm_send id ev ai store).1.state ≡ ai_state_of f.current)
unfolding monster_fsm_send get_or_create_monster_fsm IsTransition
monster_fsm_send_lags id ev ai store f e d ok = elim (send_lem (event_code ev) f) [
  | inl (accepted, (def, to, is_def, goes, _, _, at_to, _, _)) ↦
      let (def', built, is) = monster_fsm_def_lem in
      let one = some_inj (sym is_def ∙ d ∙ built) in
      let found =
        sym (is f.current (event_code ev))
        ∙ ap (λ x. target x f.current (event_code ev)) (sym one)
        ∙ goes in
      (
        (send (event_code ev) f).2,
        ap (λ x. insert id (send (event_code ev) x.0).2 x.1 id) (got e) ∙ insert_self id _ store,
        found ∙ ap some (sym at_to),
        ap
              (λ x.
                (if (send (event_code ev) x.0).1
                  then record ai { state = ai_state_of (send (event_code ev) x.0).0 }
                  else ai).state)
              (got e)
            ∙ ap
                (λ b.
                  (if b
                    then record ai { state = ai_state_of (send (event_code ev) f).0 }
                    else ai).state)
                accepted
            ∙ ap ai_state_of (send_returns_old_state (event_code ev) f),
      )
  | inr (refused, _, _) ↦
      absurd (true≢false (sym ok ∙ ap (λ x. (send (event_code ev) x.0).1) (got e) ∙ refused))
]
  where
    got : store id ≡ some f → get_or_create_monster_fsm id store ≡ (f, store)
    got h = rw (get_or_create_monster_fsm, h) refl

    true≢false : true ≡ false → ⊥
    true≢false h = cc
