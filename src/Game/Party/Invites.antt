-- ===== src/Game/Party/Invites.antt =====
-- The life of an invitation (server/game/party_invite.go).
use minnsun_s_adventure.Common.{
  ℕ, ◌+◌, ◌%◌, ◌^◌, ◌≤◌, ◌<◌, ◌≡◌, refl, ap, inl, inr, none, some, arith, leb, if◌then◌else◌,
  Option-cases,
}
use minnsun_s_adventure.Common.Table.{erase, erase_self}
use minnsun_s_adventure.Ecs.Entity.{Entity}
use minnsun_s_adventure.Game.Party.{
  Parties, InviteRecord, send_party_invite, accept_party_invite, take_invite, invitation_sent,
  no_invitation, get_player_party_id, try_add_member_to_party,
}

take_none :
    (tick : ℕ) (player : Entity) (p : Parties)
    → p.invites player ≡ none
    → take_invite tick player p ≡ (none, p)
unfolding take_invite
take_none tick player p e =
    ap
      (λ o. elim o [
        | none ↦ (none, p)
        | some r ↦ (
          if leb r.expires_at tick then none else some r,
          record p { invites = erase player p.invites },
        )
      ])
      e

take_consumes :
    (tick : ℕ) (player : Entity) (p : Parties) → (take_invite tick player p).1.invites player ≡ none
unfolding take_invite
take_consumes tick player p = elim (Option-cases (p.invites player)) [
  | inl e ↦ rw (take_invite, e) e
  | inr (r, e) ↦ rw (take_invite, e) (erase_self player p.invites)
]

-- An expired invitation is taken as none.
take_expired :
    (tick : ℕ) (player : Entity) (p : Parties) (r : InviteRecord)
    → p.invites player ≡ some r
    → r.expires_at ≤ tick
    → (take_invite tick player p).0 ≡ none
unfolding take_invite
take_expired tick player p r e late = rw (take_invite, e) (ground (arith, late))

refused :
    (tick : ℕ) (player k : Entity) (p : Parties)
    → (take_invite tick player p).0 ≡ none
    → accept_party_invite tick player k p ≡ (no_invitation, (take_invite tick player p).1)
unfolding accept_party_invite
refused tick player k p e = rw (accept_party_invite, e) refl

try_add-invites :
    (k player : Entity) (p : Parties) → (try_add_member_to_party k player p).1.invites ≡ p.invites
unfolding try_add_member_to_party
try_add-invites k player p = ground arith

accept-invites :
    (tick : ℕ) (player k : Entity) (p : Parties)
    → (accept_party_invite tick player k p).1.invites ≡ (take_invite tick player p).1.invites
unfolding accept_party_invite
accept-invites tick player k p =
    ground (arith, try_add-invites k player (take_invite tick player p).1)

sent_invite :
    (tick : ℕ) (inviter invited : Entity) (p : Parties)
    → (send_party_invite tick inviter invited p).0 ≡ invitation_sent
    → (send_party_invite tick inviter invited p).1.invites invited
      ≡ some
          (record { party_id = get_player_party_id inviter p; expires_at = (tick + 120) % 2 ^ 64 })
unfolding send_party_invite
sent_invite tick inviter invited p sent = ground (arith, sent)

-- An invitation that is sent at a tick is refused from 120 ticks later on, where the tick counter does
-- not wrap.
pub invite_expires :
    (tick tick' : ℕ) (inviter invited k : Entity) (p : Parties)
    → (send_party_invite tick inviter invited p).0 ≡ invitation_sent
    → tick + 120 < 2 ^ 64
    → tick + 120 ≤ tick'
    → (accept_party_invite tick' invited k (send_party_invite tick inviter invited p).1).0
      ≡ no_invitation
invite_expires tick tick' inviter invited k p sent small late =
    let p' = (send_party_invite tick inviter invited p).1 in
    ap (λ x. x.0)
      (refused tick' invited k p'
        (take_expired tick' invited p' _ (sent_invite tick inviter invited p sent) (omega arith)))
