-- ===== src/Game/Party/Membership.antt =====
-- Parties and the players' membership (server/game/party.go) always fit together.
use mathlib.Core.Path.{subst}
use Prim.Native.String.{String}
use minnsun_s_adventure.Common.{
  ◌≤◌, ◌<◌, ◌≡◌, ◌≢◌, refl, sym, ap, ◌∙◌, inl, inr, [], ◌∷◌, ◌++◌, none, some, arith, length,
  length-append, Eq-cases,
}
use minnsun_s_adventure.Common.Table.{
  Table, insert, insert_self, insert_other, insert-some, some-both, none-some,
}
use minnsun_s_adventure.Ecs.Entity.{Entity}
use minnsun_s_adventure.Ecs.Components.{PartyComponent, PartyMemberComponent}
use minnsun_s_adventure.Game.Party.Rosters.{
  IsMember, IsRoster, IsMember-append, append-IsMember, append-IsMember_last, append-IsRoster,
}

-- A party under a key other than 0: at most four members, each once, the leader one of them, and each
-- of them a member of this party.
unfoldable pub IsParty : Table PartyMemberComponent → Entity → PartyComponent → Type 0
IsParty members k party =
    (k ≢ 0)
    × IsRoster party.member_ids
    × (length party.member_ids ≤ 4)
    × IsMember party.leader_id party.member_ids
    × ((q : Entity) → IsMember q party.member_ids → members q ≡ some (record { party_id = k }))

-- Every party is one, and every member is on the roster of a party.
unfoldable pub IsOrganised : Table PartyComponent → Table PartyMemberComponent → Type 0
IsOrganised parties members =
    ((k : Entity) (party : PartyComponent) → parties k ≡ some party → IsParty members k party)
    × ((q : Entity) (c : PartyMemberComponent)
        → members q ≡ some c
        → (party : PartyComponent) × (parties c.party_id ≡ some party)
          × IsMember q party.member_ids)

module _ (parties : Table PartyComponent) (members : Table PartyMemberComponent) where
  -- The other parties, when one player's membership is written or deleted who is in none of them.
  pub elsewhere :
      (members' : Table PartyMemberComponent) (player j : Entity) (party : PartyComponent)
      → ((q : Entity) → q ≢ player → members' q ≡ members q)
      → (members player ≡ some (record { party_id = j }) → ⊥)
      → IsParty members j party
      → IsParty members' j party
  unfolding IsParty
  elsewhere members' player j party same not_here (nz, r, l, lead, all) =
      (nz, r, l, lead, λ q m. same q (λ e. not_here (sym (ap members e) ∙ all q m)) ∙ all q m)

  -- A party that one player makes, under a key that is not in use.
  pub create-IsOrganised :
      (leader k : Entity) (name : String)
      → IsOrganised parties members
      → parties k ≡ none
      → k ≢ 0
      → members leader ≡ none
      → IsOrganised
          (insert k
            (record { leader_id = leader; team_name = name; member_ids = leader ∷ [] })
            parties)
          (insert leader (record { party_id = k }) members)
  unfolding IsOrganised IsParty IsMember IsRoster
  create-IsOrganised leader k name (h1, h2) unused nz single =
      let party : PartyComponent = record {
        leader_id = leader;
        team_name = name;
        member_ids = leader ∷ [];
      } in
      let members' = insert leader (record { party_id = k }) members in
      let others : (q : Entity) → q ≢ leader → members' q ≡ members q =
        λ q ne. insert_other leader q (record { party_id = k }) members (λ e. ne (sym e)) in
      let new : IsParty members' k party = (
        nz,
        ((λ m. m), tt),
        omega arith,
        inl refl,
        λ q m. elim m [
          | inl e ↦ ap members' e ∙ insert_self leader (record { party_id = k }) members
          | inr x ↦ absurd x
        ],
      ) in
      (
        (λ j p found. elim (insert-some k j party p parties found) [
          | inl (same, one) ↦
              subst (λ x. IsParty members' x p) same (subst (IsParty members' k) one new)
          | inr (ne, there) ↦
              elsewhere members' leader j p others (λ e. none-some (members leader) single e)
                (h1 j p there)
        ]),
        (λ q c found. elim (insert-some leader q (record { party_id = k }) c members found) [
          | inl (same, one) ↦ (
            party,
            ap (insert k party parties) (sym (ap (λ x. x.party_id) one))
                ∙ insert_self k party parties,
            inl (sym same),
          )
          | inr (_, there) ↦
              let (p, at, is_in) = h2 q c there in
              (
                p,
                insert_other k c.party_id party parties
                      (λ e. none-some (parties k) unused (ap parties e ∙ at))
                    ∙ at,
                is_in,
              )
        ]),
      )

  -- A player who is in no party joins one with fewer than four members.
  pub join-IsOrganised :
      (player k : Entity) (party : PartyComponent)
      → IsOrganised parties members
      → parties k ≡ some party
      → length party.member_ids < 4
      → members player ≡ none
      → IsOrganised
          (insert k (record party { member_ids = party.member_ids ++ (player ∷ []) }) parties)
          (insert player (record { party_id = k }) members)
  unfolding IsOrganised IsParty
  join-IsOrganised player k party (h1, h2) here room single =
      let party' = record party { member_ids = party.member_ids ++ (player ∷ []) } in
      let members' = insert player (record { party_id = k }) members in
      let others : (q : Entity) → q ≢ player → members' q ≡ members q =
        λ q ne. insert_other player q (record { party_id = k }) members (λ e. ne (sym e)) in
      let (nz, roster, small, lead, all) = h1 k party here in
      let outside : IsMember player party.member_ids → ⊥ =
        λ m. none-some (members player) single (all player m) in
      let new : IsParty members' k party' = (
        nz,
        append-IsRoster player party.member_ids outside roster,
        omega (arith, length-append party.member_ids (player ∷ [])),
        append-IsMember party.leader_id player party.member_ids lead,
        λ q m. elim (IsMember-append q player party.member_ids m) [
          | inl i ↦ others q (λ e. outside (subst (λ x. IsMember x party.member_ids) e i)) ∙ all q i
          | inr e ↦ ap members' e ∙ insert_self player (record { party_id = k }) members
        ],
      ) in
      (
        (λ j p found. elim (insert-some k j party' p parties found) [
          | inl (same, one) ↦
              subst (λ x. IsParty members' x p) same (subst (IsParty members' k) one new)
          | inr (ne, there) ↦
              elsewhere members' player j p others (λ e. none-some (members player) single e)
                (h1 j p there)
        ]),
        (λ q c found. elim (insert-some player q (record { party_id = k }) c members found) [
          | inl (same, one) ↦ (
            party',
            ap (insert k party' parties) (sym (ap (λ x. x.party_id) one))
                ∙ insert_self k party' parties,
            subst (λ x. IsMember x party'.member_ids) same
                (append-IsMember_last player party.member_ids),
          )
          | inr (_, there) ↦
              let (p, at, is_in) = h2 q c there in
              elim (Eq-cases k c.party_id) [
                | inl same ↦
                    let one = some-both (parties k) (ap parties same ∙ at) here in
                    (
                      party',
                      ap (insert k party' parties) (sym same) ∙ insert_self k party' parties,
                      append-IsMember q player party.member_ids
                          (subst (λ x. IsMember q x.member_ids) one is_in),
                    )
                | inr ne ↦ (p, insert_other k c.party_id party' parties ne ∙ at, is_in)
              ]
        ]),
      )
