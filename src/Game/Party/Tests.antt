-- ===== src/Game/Party/Tests.antt =====
-- A party of one, and an invitation (server/game/party.go, party_invite.go).
use minnsun_s_adventure.Common.{◌≡◌, ◌≢◌, refl, [], ◌∷◌, none, arith}
use minnsun_s_adventure.Common.Table.{empty, insert, none-some}
use minnsun_s_adventure.Ecs.Entity.{new_entity}
use minnsun_s_adventure.Ecs.Components.{PartyComponent, PartyMemberComponent, zero_metadata}
use minnsun_s_adventure.Game.Party.{
  Parties, create_party, accept_party_invite, remove_player_from_party, send_party_invite,
  invitation_sent, no_invitation,
}
use minnsun_s_adventure.Game.Party.Membership.{IsOrganised, create-IsOrganised}
use minnsun_s_adventure.Game.Party.Kept.{AreOrganised}
use minnsun_s_adventure.Game.Party.Histories.{
  Reach, start, after, creates, invites, accepts, reached_parties-AreOrganised,
}
use minnsun_s_adventure.Game.Party.Invites.{invite_expires}

abbrev no_parties : Parties
no_parties = record {
  parties = empty;
  members = empty;
  ids = record { free = []; next_id = 49 };
  metadata = insert 2 zero_metadata empty;
  invites = empty;
}

no_parties-AreOrganised : AreOrganised no_parties
unfolding IsOrganised
no_parties-AreOrganised = (
  (λ k p found. absurd (none-some {V = PartyComponent} none refl found)),
  (λ q c found. absurd (none-some {V = PartyMemberComponent} none refl found)),
)

-- Player 1 leads the party 50, and player 2 is invited.
abbrev one_party : Parties
one_party = record no_parties {
  parties = insert 50 (record { leader_id = 1; team_name = "team"; member_ids = 1 ∷ [] }) empty;
  members = insert 1 (record { party_id = 50 }) empty;
  invites = insert 2 (record { party_id = 50; expires_at = 130 }) empty;
}

one_party-AreOrganised : AreOrganised one_party
one_party-AreOrganised =
    create-IsOrganised empty empty 1 50 "team" no_parties-AreOrganised refl
      (λ e. absurd (omega arith)) refl

new_is_not_zero : (new_entity no_parties.ids).0 ≢ 0
unfolding new_entity
new_is_not_zero e = absurd (omega arith)

invite_is_sent : (send_party_invite 10 1 2 one_party).0 ≡ invitation_sent
unfolding send_party_invite
invite_is_sent = refl

invite_expires_example :
    (accept_party_invite 130 2 50 (send_party_invite 10 1 2 one_party).1).0 ≡ no_invitation
invite_expires_example =
    invite_expires 10 130 1 2 50 one_party invite_is_sent (omega arith) (omega arith)

abbrev created : Parties
created = (create_party 1 "team" no_parties).1

-- Player 1 creates a party and invites player 2, who joins.
created_reached : Reach created
created_reached =
    after (start no_parties.ids no_parties.metadata) (creates 1 "team" refl new_is_not_zero)

joined_reached : Reach (accept_party_invite 11 2 50 (send_party_invite 10 1 2 created).1).1
joined_reached = after (after created_reached (invites 10 1 2)) (accepts 11 2 50)

reached_parties-AreOrganised_example :
    let p = (accept_party_invite 11 2 50 (send_party_invite 10 1 2 created).1).1 in
    AreOrganised p × ((remove_player_from_party 2 p).members 2 ≡ none)
reached_parties-AreOrganised_example = reached_parties-AreOrganised joined_reached 2
