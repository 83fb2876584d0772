-- ===== src/Game/Death/Shares.antt =====
-- The experience for a kill is handed out (DeathSystem of server/game/combat.go), to one player or to a party.
use mathlib.Core.Path.{subst}
use native.Mathlib.Nat.{div-le_self}
use minnsun_s_adventure.Common.{
  ℕ, suc, ◌+◌, ◌*◌, ◌/◌, ◌^◌, ◌≤◌, ◌<◌, ◌≡◌, sym, ap, ◌∙◌, inl, inr, false, List, [], ◌∷◌, some,
  some_inj, arith, ◌==◌, if◌then◌else◌, length, Option-cases, Bool-cases, Eq-cases,
}
use minnsun_s_adventure.Common.Partial.{Gives, Gives-some, Gives-bind, Gives-map}
use minnsun_s_adventure.Common.Int.{pos}
use minnsun_s_adventure.Ecs.Entity.{Entity}
use minnsun_s_adventure.Ecs.Components.{StatsComponent, PartyComponent}
use minnsun_s_adventure.Ecs.Registry.{Registry}
use minnsun_s_adventure.Game.Progression.{add_experience}
use minnsun_s_adventure.Game.Progression.Levels.{spent_most, add_experience_settles}
use minnsun_s_adventure.Game.Death.{share_out, share_of, distribute, party_id_of}

-- Levels are natural numbers, and a level and its experience come to at most b.
abbrev pub AreBelow : ℕ → Registry → Type 0
AreBelow b r =
    (q : Entity) (s : StatsComponent)
    → r.stats q ≡ some s
    → (l : ℕ) × (s.level ≡ pos l) × (l + s.xp ≤ b)

-- No party has more than four members.
abbrev pub AreSmall : Registry → Type 0
AreSmall r = (k : Entity) (p : PartyComponent) → r.parties k ≡ some p → length p.member_ids ≤ 4

AreBelow-mono : (b c : ℕ) (r : Registry) → b ≤ c → AreBelow b r → AreBelow c r
AreBelow-mono b c r le h q s e = let (l, is, under) = h q s e in (l, is, omega arith)

-- The bound after every member has had a share.
abbrev after : ℕ → List Entity → ℕ → ℕ
after share [] b = b
after share (m ∷ ms) b = after share ms (b + share + 1)

after_least : (share : ℕ) (ms : List Entity) (b : ℕ) → b ≤ after share ms b
after_least share [] b = omega arith
after_least share (m ∷ ms) b = omega (arith, after_least share ms (b + share + 1))

after_most :
    (share : ℕ) (ms : List Entity) (b : ℕ) → length ms ≤ 4 → after share ms b ≤ b + 4 * share + 4
after_most share [] b h = omega arith
after_most share (m ∷ []) b h = omega arith
after_most share (m ∷ n ∷ []) b h = omega arith
after_most share (m ∷ n ∷ o ∷ []) b h = omega arith
after_most share (m ∷ n ∷ o ∷ p ∷ []) b h = omega arith
after_most share (m ∷ n ∷ o ∷ p ∷ q ∷ ms) b h = absurd (omega arith)

share_le : (bounty n : ℕ) → 0 < bounty → share_of bounty (suc n) ≤ bounty
share_le bounty n h = one_or (bounty / suc n) (div-le_self bounty (suc n))
  where
    one_or : (q : ℕ) → q ≤ bounty → (if q == 0 then 1 else q) ≤ bounty
    one_or q le = ground arith

module _ (curve : ℕ → ℕ) (rising : (l : ℕ) → 0 < l → 0 < curve l) where
  add_experience-AreBelow :
      (b gained : ℕ) (player : Entity) (r : Registry)
      → AreBelow b r
      → b + gained + 2 < 2 ^ 63
      → Gives (AreBelow (b + gained + 1)) (add_experience curve player gained r)
  unfolding add_experience
  add_experience-AreBelow b gained player r below small = elim (Option-cases (r.stats player)) [
    | inl e ↦
        rw (add_experience, e)
          (Gives-some r (AreBelow-mono b (b + gained + 1) r (omega arith) below))
    | inr (stats, e) ↦
        let (l, is, under) = below player stats e in
        Gives-map (add_experience_settles curve rising player gained l stats r e is (omega arith))
          λ r' (s, at, settled, _, others) q s' f. elim (Eq-cases q player) [
            | inl same ↦
                let (n, level, paid, _) = settled in
                subst (λ v. (k : ℕ) × (v.level ≡ pos k) × (k + v.xp ≤ b + gained + 1))
                  (some_inj (sym at ∙ ap r'.stats (sym same) ∙ f))
                  (l + n, level, omega (arith, paid, spent_most curve rising n l))
            | inr ne ↦
                let (k, level, low) = below q s' (sym (others q ne) ∙ f) in (k, level, omega arith)
          ]
  ]

  share_out-AreBelow :
      (share b bound : ℕ) (ms : List Entity) (r : Registry)
      → AreBelow b r
      → after share ms b ≤ bound
      → bound + share + 2 < 2 ^ 63
      → Gives (AreBelow (after share ms b)) (share_out curve share ms r)
  share_out-AreBelow share b bound [] r below le small = Gives-some r below
  share_out-AreBelow share b bound (m ∷ ms) r below le small =
      Gives-bind
        (add_experience-AreBelow b share m r below
          (omega (arith, after_least share ms (b + share + 1))))
        λ r' below'. share_out-AreBelow share (b + share + 1) bound ms r' below' le small

  -- Where levels with their experience come to at most b, parties have at most four members and no sum exceeds
  -- the range of an int, the experience for a kill is handed out.
  pub distribute-AreBelow :
      (killer : Entity) (bounty b : ℕ) (r : Registry)
      → AreBelow b r
      → AreSmall r
      → b + 5 * bounty + 10 < 2 ^ 63
      → Gives (λ r'. AreBelow (b + 4 * bounty + 4) r') (distribute curve killer bounty r)
  unfolding distribute
  distribute-AreBelow killer bounty b r below few small = elim (Bool-cases (bounty == 0)) [
    | inl z ↦ rw z (Gives-some r (AreBelow-mono b (b + 4 * bounty + 4) r (omega arith) below))
    | inr nz ↦ elim (Bool-cases (party_id_of killer r == 0)) [
      | inl alone ↦
          rw (nz, alone)
            (Gives-map (add_experience-AreBelow b bounty killer r below (omega arith))
              (λ r' h. AreBelow-mono (b + bounty + 1) (b + 4 * bounty + 4) r' (omega arith) h))
      | inr joined ↦
          rw (nz, joined)
            (elim (Option-cases (r.parties (party_id_of killer r))) [
              | inl e ↦
                  rw e (Gives-some r (AreBelow-mono b (b + 4 * bounty + 4) r (omega arith) below))
              | inr (party, e) ↦
                  rw e (to_members party.member_ids (few _ party e) (positive bounty nz))
            ])
    ]
  ]
    where
      positive : (n : ℕ) → (n == 0) ≡ false → 0 < n
      positive n h = ground arith

      to_members :
          (ms : List Entity)
          → length ms ≤ 4
          → 0 < bounty
          → Gives (AreBelow (b + 4 * bounty + 4)) (elim ms [
            | [] ↦ some r
            | m ∷ ms ↦ share_out curve (share_of bounty (length (m ∷ ms))) (m ∷ ms) r
          ])
      to_members [] le h = Gives-some r (AreBelow-mono b (b + 4 * bounty + 4) r (omega arith) below)
      to_members (m ∷ ms) le h =
          let share = share_of bounty (length (m ∷ ms)) in
          let less : share ≤ bounty = share_le bounty (length ms) h in
          let most : after share (m ∷ ms) b ≤ b + 4 * bounty + 4 =
            omega (arith, after_most share (m ∷ ms) b le) in
          Gives-map
            (share_out-AreBelow share b (b + 4 * bounty + 4) (m ∷ ms) r below most (omega arith))
            (λ r' h. AreBelow-mono _ _ r' most h)
