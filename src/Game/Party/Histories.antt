-- ===== src/Game/Party/Histories.antt =====
-- The parties of a server that starts with none (server/game/party.go, party_invite.go).
use Prim.Native.String.{String}
use minnsun_s_adventure.Common.{ℕ, ◌≡◌, ◌≢◌, refl, none, Option-cases, inl, inr, arith}
use minnsun_s_adventure.Common.Table.{Table, empty, none-some}
use minnsun_s_adventure.Ecs.Entity.{Entity, Ids, new_entity}
use minnsun_s_adventure.Ecs.Components.{PartyComponent, PartyMemberComponent, MetadataComponent}
use minnsun_s_adventure.Game.Party.{
  Parties, create_party, get_player_party_id, send_party_invite, accept_party_invite,
  remove_player_from_party, purge_expired,
}
use minnsun_s_adventure.Game.Party.Membership.{IsOrganised}
use minnsun_s_adventure.Game.Party.Kept.{
  AreOrganised, create_party-AreOrganised, accept_party_invite-AreOrganised,
  remove_player_from_party-AreOrganised,
}

-- One call, or a change of what parties do not own. A party is created under an ID that is not 0 and none of
-- a party.
pub data Step (p : Parties) : Parties → Type 0 where
  creates :
      (leader : Entity) (name : String)
      → p.parties (new_entity p.ids).0 ≡ none
      → (new_entity p.ids).0 ≢ 0
      → Step p (create_party leader name p).1
  invites :
      (tick : ℕ) (inviter invited : Entity) → Step p (send_party_invite tick inviter invited p).1
  accepts :
      (tick : ℕ) (player party_id : Entity) → Step p (accept_party_invite tick player party_id p).1
  leaves : (player : Entity) → Step p (remove_player_from_party player p)
  purges : (tick : ℕ) → Step p (purge_expired tick p)
  elsewhere :
      (ids : Ids) (metadata : Table MetadataComponent)
      → Step p (record p { ids = ids; metadata = metadata })

-- The states that a server goes through.
pub data Reach : Parties → Type 0 where
  start :
      (ids : Ids) (metadata : Table MetadataComponent)
      → Reach (record {
        parties = empty;
        members = empty;
        ids = ids;
        metadata = metadata;
        invites = empty;
      })
  after : {p p' : Parties} → Reach p → Step p p' → Reach p'

send_keeps :
    (tick : ℕ) (inviter invited : Entity) (p : Parties)
    → let p' = (send_party_invite tick inviter invited p).1 in
      (p'.parties ≡ p.parties) × (p'.members ≡ p.members)
unfolding send_party_invite
send_keeps tick inviter invited p =
    elim (Option-cases (p.parties (get_player_party_id inviter p))) [
      | inl e ↦ (ground arith, ground arith)
      | inr (party, e) ↦ (ground arith, ground arith)
    ]

send-AreOrganised :
    (tick : ℕ) (inviter invited : Entity) (p : Parties)
    → AreOrganised p
    → AreOrganised (send_party_invite tick inviter invited p).1
send-AreOrganised tick inviter invited p h =
    let (parties, members) = send_keeps tick inviter invited p in rw (parties, members) h

Step-AreOrganised : {p p' : Parties} → Step p p' → AreOrganised p → AreOrganised p'
unfolding purge_expired
Step-AreOrganised {p} (creates leader name unused nz) h =
    create_party-AreOrganised leader name p h unused nz
Step-AreOrganised {p} (invites tick inviter invited) h = send-AreOrganised tick inviter invited p h
Step-AreOrganised {p} (accepts tick player party_id) h =
    accept_party_invite-AreOrganised tick player party_id p h
Step-AreOrganised {p} (leaves player) h = (remove_player_from_party-AreOrganised player p h).0
Step-AreOrganised {p} (purges tick) h = h
Step-AreOrganised {p} (elsewhere ids metadata) h = h

Reach-AreOrganised : {p : Parties} → Reach p → AreOrganised p
unfolding IsOrganised
Reach-AreOrganised (start ids metadata) = (
  (λ k party found. absurd (none-some {V = PartyComponent} none refl found)),
  (λ q c found. absurd (none-some {V = PartyMemberComponent} none refl found)),
)
Reach-AreOrganised (after r step) = Step-AreOrganised step (Reach-AreOrganised r)

-- In every state that calls of the operations reach from one without parties, where a party is created
-- under an ID that is not 0 and none of a party, parties and membership are in order, and a player whom
-- RemovePlayerFromParty takes out has no membership.
pub reached_parties-AreOrganised :
    {p : Parties}
    → Reach p
    → (player : Entity)
    → AreOrganised p × ((remove_player_from_party player p).members player ≡ none)
reached_parties-AreOrganised {p} reach player =
    let h = Reach-AreOrganised reach in (h, (remove_player_from_party-AreOrganised player p h).1)
