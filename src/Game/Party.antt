-- ===== src/Game/Party.antt =====
-- Parties and party invitations (server/game/party.go, party_invite.go). The notices that the
-- operations send are left out, and a reply is named for its text.
pub mod Rosters
pub mod Membership
pub mod Leaving
pub mod Kept
pub mod Histories
mod Tests
pub mod Invites
use Prim.Native.Nat.{compare, Ordering}
use Prim.Native.String.{String}
use minnsun_s_adventure.Common.{
  ℕ, ◌+◌, ◌%◌, ◌^◌, Bool, true, false, not, List, [], ◌∷◌, ◌++◌, Option, none, some, ◌==◌, leb,
  if◌then◌else◌, length,
}
use minnsun_s_adventure.Common.Table.{Table, insert, erase, is_some}
use minnsun_s_adventure.Ecs.Entity.{Entity, Ids, new_entity}
use minnsun_s_adventure.Ecs.Components.{MetadataComponent, PartyComponent, PartyMemberComponent}

abbrev pub max_party_size : ℕ
max_party_size = 4

pub record InviteRecord : Type 0 where
  pub party_id : Entity
  pub expires_at : ℕ

-- The parts of the registry that parties use, and `GlobalInviteCache`.
pub record Parties : Type 0 where
  pub parties : Table PartyComponent
  pub members : Table PartyMemberComponent
  pub ids : Ids
  pub metadata : Table MetadataComponent
  pub invites : Table InviteRecord

pub data PartyReply : Type 0 where
  party_created invitation_sent joined : PartyReply
  already_in_party not_in_party party_not_found not_leader party_is_full target_not_found
        target_in_party :
      PartyReply
  no_invitation wrong_party party_gone party_now_full : PartyReply

-- `CreatePartySystem`
unfoldable pub create_party : Entity → String → Parties → PartyReply × Parties
unfolding new_entity
create_party leader name p =
    if is_some (p.members leader)
    then (already_in_party, p)
    else (let (party, ids) = new_entity p.ids in
        (
          party_created,
          record p {
            parties =
                insert party
                  (record { leader_id = leader; team_name = name; member_ids = leader ∷ [] })
                  p.parties;
            members = insert leader (record { party_id = party }) p.members;
            ids = ids;
          },
        ))

-- `GetPlayerPartyID`
abbrev pub get_player_party_id : Entity → Parties → Entity
get_player_party_id player p = elim (p.members player) [ none ↦ 0 | some m ↦ m.party_id ]

-- The writes of `AddMemberToParty`, on a party that was read.
abbrev pub add_member : Entity → Entity → PartyComponent → Parties → Parties
add_member party_id player party p = record p {
  parties =
      insert party_id (record party { member_ids = party.member_ids ++ (player ∷ []) }) p.parties;
  members = insert player (record { party_id = party_id }) p.members;
}

-- `TryAddMemberToParty`
unfoldable pub try_add_member_to_party : Entity → Entity → Parties → Bool × Parties
try_add_member_to_party party_id player p = elim (p.parties party_id) [
  | none ↦ (false, p)
  | some party ↦
      if leb max_party_size (length party.member_ids)
      then (false, p)
      else (true, add_member party_id player party p)
]

-- The loop of `RemovePlayerFromParty` that leaves a player out.
abbrev pub without : Entity → List Entity → List Entity
without player [] = []
without player (id ∷ ids) = if id == player then without player ids else id ∷ without player ids

-- `party.LeaderID`, after the next member is promoted where the leader leaves.
abbrev pub next_leader : Entity → Entity → Entity → Entity
next_leader player leader first = if player == leader then first else leader

-- `RemovePlayerFromParty`
unfoldable pub remove_player_from_party : Entity → Parties → Parties
remove_player_from_party player p = elim (p.members player) [
  | none ↦ p
  | some m ↦ elim (p.parties m.party_id) [
    | none ↦ record p { members = erase player p.members }
    | some party ↦ elim (without player party.member_ids) [
      | [] ↦ record p { members = erase player p.members; parties = erase m.party_id p.parties }
      | first ∷ rest ↦ record p {
        members = erase player p.members;
        parties =
            insert m.party_id
              (record party {
                leader_id = next_leader player party.leader_id first;
                member_ids = first ∷ rest;
              })
              p.parties;
      }
    ]
  ]
]

-- `InviteCache.Take`, at a tick.
unfoldable pub take_invite : ℕ → Entity → Parties → Option InviteRecord × Parties
take_invite tick player p = elim (p.invites player) [
  | none ↦ (none, p)
  | some r ↦ (
    if leb r.expires_at tick then none else some r,
    record p { invites = erase player p.invites },
  )
]

-- `InviteCache.PurgeExpired`, at a tick.
unfoldable pub purge_expired : ℕ → Parties → Parties
purge_expired tick p = record p {
  invites = λ id. elim (p.invites id) [
    | none ↦ none
    | some r ↦ if leb r.expires_at tick then none else some r
  ];
}

-- `SendPartyInviteSystem`, at a tick (a uint64).
unfoldable pub send_party_invite : ℕ → Entity → Entity → Parties → PartyReply × Parties
send_party_invite tick inviter invited p =
    let party_id = get_player_party_id inviter p in
    if party_id == 0 then (not_in_party, p) else elim (p.parties party_id) [
      | none ↦ (party_not_found, p)
      | some party ↦
          if not (party.leader_id == inviter)
          then (not_leader, p)
          else if leb max_party_size (length party.member_ids)
          then (party_is_full, p)
          else if not (is_some (p.metadata invited))
          then (target_not_found, p)
          else if not (get_player_party_id invited p == 0)
          then (target_in_party, p)
          else (
            invitation_sent,
            record p {
              invites =
                  insert invited
                    (record { party_id = party_id; expires_at = (tick + 120) % 2 ^ 64 }) p.invites;
            },
          )
    ]

-- `AcceptPartyInviteSystem`, at a tick.
unfoldable pub accept_party_invite : ℕ → Entity → Entity → Parties → PartyReply × Parties
unfolding take_invite try_add_member_to_party
accept_party_invite tick player party_id p =
    let (taken, p') = take_invite tick player p in
    elim taken [
      | none ↦ (no_invitation, p')
      | some r ↦
          let (added, p'') = try_add_member_to_party party_id player p' in
          if not (r.party_id == party_id)
          then (wrong_party, p')
          else if not (is_some (p'.parties party_id))
          then (party_gone, p')
          else if not (get_player_party_id player p' == 0)
          then (already_in_party, p')
          else if added
          then (joined, p'')
          else (party_now_full, p')
    ]
