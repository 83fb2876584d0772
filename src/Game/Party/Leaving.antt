-- ===== src/Game/Party/Leaving.antt =====
-- A member leaves a party (server/game/party.go), which goes on or is disbanded.
use mathlib.Core.Path.{subst, subst⁻¹}
use minnsun_s_adventure.Common.{
  ◌≡◌, ◌≢◌, refl, sym, ap, ◌∙◌, inl, inr, List, [], ◌∷◌, some, arith, ◌==◌, if◌then◌else◌, length,
  Eq-cases, Bool-cases, some_inj, ==→ne,
}
use minnsun_s_adventure.Common.Table.{
  Table, insert, erase, insert_self, insert_other, erase_other, insert-some, erase-some, some-both,
}
use minnsun_s_adventure.Ecs.Entity.{Entity}
use minnsun_s_adventure.Ecs.Components.{PartyComponent, PartyMemberComponent}
use minnsun_s_adventure.Game.Party.{next_leader, without}
use minnsun_s_adventure.Game.Party.Rosters.{
  IsMember, IsRoster, IsMember-without, without-IsMember, without-IsRoster, length-without,
}
use minnsun_s_adventure.Game.Party.Membership.{IsParty, IsOrganised, elsewhere}

module _ (parties : Table PartyComponent) (members : Table PartyMemberComponent) where
  module _ (player k : Entity) (party : PartyComponent) (h : IsOrganised parties members)
      (bound : members player ≡ some (record { party_id = k }))
      (here : parties k ≡ some party) where
    still : (q : Entity) → q ≢ player → erase player members q ≡ members q
    still q ne = erase_other player q members (λ e. ne (sym e))

    -- A party that its last member leaves.
    pub disband-IsOrganised :
        without player party.member_ids ≡ [] → IsOrganised (erase k parties) (erase player members)
    unfolding IsOrganised IsParty IsMember
    disband-IsOrganised empty = (
      (λ j p found.
          let (ne, there) = erase-some k j p parties found in
          elsewhere parties members (erase player members) player j p still
            (λ e. ne (ap (λ x. x.party_id) (some_inj (sym bound ∙ e)))) (h.0 j p there)),
      (λ q c found.
          let (nq, there) = erase-some player q c members found in
          let (p, at, is_in) = h.1 q c there in
          elim (Eq-cases k c.party_id) [
            | inl same ↦
                let one = some-both (parties k) (ap parties same ∙ at) here in
                let left =
                  without-IsMember q player party.member_ids
                    (subst (λ x. IsMember q x.member_ids) one is_in) (λ e. nq (sym e)) in
                absurd (subst (IsMember q) empty left)
            | inr ne ↦ (p, erase_other k c.party_id parties ne ∙ at, is_in)
          ]),
    )

    -- A party that a member leaves who is not the last.
    pub leave-IsOrganised :
        (first : Entity) (rest : List Entity)
        → without player party.member_ids ≡ first ∷ rest
        → IsOrganised
            (insert k
              (record party {
                leader_id = next_leader player party.leader_id first;
                member_ids = first ∷ rest;
              })
              parties)
            (erase player members)
    unfolding IsOrganised IsParty IsMember
    leave-IsOrganised first rest left =
        let party' = record party {
          leader_id = next_leader player party.leader_id first;
          member_ids = first ∷ rest;
        } in
        let (nz, roster, small, lead, all) = h.0 k party here in
        let stays : (q : Entity)
            → IsMember q party.member_ids
            → q ≢ player
            → IsMember q (first ∷ rest) =
          λ q m ne. subst (IsMember q) left (without-IsMember q player party.member_ids m ne) in
        let new : IsParty (erase player members) k party' = (
          nz,
          subst IsRoster left (without-IsRoster player party.member_ids roster),
          omega (arith, ap length left, length-without player party.member_ids),
          elim (Bool-cases (player == party.leader_id)) [
            | inl e ↦
                subst⁻¹ (λ b. IsMember (if b then first else party.leader_id) (first ∷ rest)) e
                  (inl refl)
            | inr e ↦
                subst⁻¹ (λ b. IsMember (if b then first else party.leader_id) (first ∷ rest)) e
                  (stays party.leader_id lead (λ f. ==→ne player party.leader_id e (sym f)))
          ],
          λ q m.
              let (i, ne) =
                IsMember-without q player party.member_ids (subst⁻¹ (IsMember q) left m) in
              still q ne ∙ all q i,
        ) in
        (
          (λ j p found. elim (insert-some k j party' p parties found) [
            | inl (same, one) ↦
                subst (λ x. IsParty (erase player members) x p) same
                  (subst (IsParty (erase player members) k) one new)
            | inr (ne, there) ↦
                elsewhere parties members (erase player members) player j p still
                  (λ e. ne (ap (λ x. x.party_id) (some_inj (sym bound ∙ e)))) (h.0 j p there)
          ]),
          (λ q c found.
              let (nq, there) = erase-some player q c members found in
              let (p, at, is_in) = h.1 q c there in
              elim (Eq-cases k c.party_id) [
                | inl same ↦
                    let one = some-both (parties k) (ap parties same ∙ at) here in
                    (
                      party',
                      ap (insert k party' parties) (sym same) ∙ insert_self k party' parties,
                      stays q (subst (λ x. IsMember q x.member_ids) one is_in) (λ e. nq (sym e)),
                    )
                | inr ne ↦ (p, insert_other k c.party_id party' parties ne ∙ at, is_in)
              ]),
        )
