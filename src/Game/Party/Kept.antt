-- ===== src/Game/Party/Kept.antt =====
-- The operations on parties (server/game/party.go, party_invite.go) keep parties and membership in
-- order.
use Prim.Native.String.{String}
use minnsun_s_adventure.Common.{
  ℕ, ◌<◌, ◌≡◌, ◌≢◌, refl, sym, ap, ◌∙◌, inl, inr, ◌⊎◌, true, false, List, [], ◌∷◌, none, some,
  arith, ◌==◌, leb, length, Bool-cases, Option-cases, ==→eq,
}
use minnsun_s_adventure.Common.Table.{none-of_not_some, is_some, erase_self}
use minnsun_s_adventure.Ecs.Entity.{Entity, new_entity}
use minnsun_s_adventure.Game.Party.{
  Parties, create_party, get_player_party_id, try_add_member_to_party, take_invite,
  accept_party_invite, remove_player_from_party, without,
}
use minnsun_s_adventure.Game.Party.Membership.{
  IsParty, IsOrganised, create-IsOrganised, join-IsOrganised,
}
use minnsun_s_adventure.Game.Party.Leaving.{disband-IsOrganised, leave-IsOrganised}

abbrev pub AreOrganised : Parties → Type 0
AreOrganised p = IsOrganised p.parties p.members

List-cases : (xs : List Entity) → (xs ≡ []) ⊎ ((x : Entity) × (ys : List Entity) × (xs ≡ x ∷ ys))
List-cases [] = inl refl
List-cases (x ∷ xs) = inr (x, xs, refl)

-- `CreatePartySystem` keeps parties in order, where the ID that `NewEntity` hands out is not 0 and not
-- the ID of a party.
pub create_party-AreOrganised :
    (leader : Entity) (name : String) (p : Parties)
    → AreOrganised p
    → p.parties (new_entity p.ids).0 ≡ none
    → (new_entity p.ids).0 ≢ 0
    → AreOrganised (create_party leader name p).1
unfolding create_party
create_party-AreOrganised leader name p h unused nz =
    elim (Bool-cases (is_some (p.members leader))) [
      | inl e ↦ rw e h
      | inr e ↦ rw e (
          create-IsOrganised p.parties p.members leader (new_entity p.ids).0 name h unused nz
            (none-of_not_some _ e))
    ]

-- A player without membership is one whom `GetPlayerPartyID` gives 0.
outside_of_zero :
    (player : Entity) (p : Parties)
    → AreOrganised p
    → (get_player_party_id player p == 0) ≡ true
    → p.members player ≡ none
unfolding IsOrganised IsParty
outside_of_zero player p h e = elim (Option-cases (p.members player)) [
  | inl f ↦ f
  | inr (c, f) ↦
      let (party, at, _) = h.1 player c f in
      let zero_id = sym (ap (λ o. elim o [ none ↦ 0 | some m ↦ m.party_id ]) f) ∙ ==→eq _ 0 e in
      absurd ((h.0 c.party_id party at).0 zero_id)
]

-- `TryAddMemberToParty` keeps parties in order, for a player who is in none.
pub try_add-AreOrganised :
    (party_id player : Entity) (p : Parties)
    → AreOrganised p
    → p.members player ≡ none
    → AreOrganised (try_add_member_to_party party_id player p).1
unfolding try_add_member_to_party
try_add-AreOrganised party_id player p h single = elim (Option-cases (p.parties party_id)) [
  | inl e ↦ rw (try_add_member_to_party, e) h
  | inr (party, e) ↦ elim (Bool-cases (leb 4 (length party.member_ids))) [
    | inl f ↦ rw (try_add_member_to_party, e, f) h
    | inr f ↦
        rw (try_add_member_to_party, e, f)
          (join-IsOrganised p.parties p.members player party_id party h e (below f) single)
  ]
]
  where
    below : {n : ℕ} → leb 4 n ≡ false → n < 4
    below h = ground arith

take_invite-AreOrganised :
    (tick : ℕ) (player : Entity) (p : Parties)
    → AreOrganised p
    → AreOrganised (take_invite tick player p).1
unfolding take_invite
take_invite-AreOrganised tick player p h = elim (Option-cases (p.invites player)) [
  | inl e ↦ rw (take_invite, e) h
  | inr (r, e) ↦ rw (take_invite, e) h
]

-- `AcceptPartyInviteSystem` keeps parties in order.
pub accept_party_invite-AreOrganised :
    (tick : ℕ) (player party_id : Entity) (p : Parties)
    → AreOrganised p
    → AreOrganised (accept_party_invite tick player party_id p).1
unfolding accept_party_invite take_invite
accept_party_invite-AreOrganised tick player party_id p h =
    elim (Option-cases (take_invite tick player p).0) [
      | inl e ↦ rw (accept_party_invite, e) h'
      | inr (r, e) ↦ elim (Bool-cases (r.party_id == party_id)) [
        | inr f ↦ rw (accept_party_invite, e, f) h'
        | inl f ↦ elim (Bool-cases (is_some (p'.parties party_id))) [
          | inr g ↦ rw (accept_party_invite, e, f, g) h'
          | inl g ↦ elim (Bool-cases (get_player_party_id player p' == 0)) [
            | inr z ↦ rw (accept_party_invite, e, f, g, z) h'
            | inl z ↦ elim (Bool-cases (try_add_member_to_party party_id player p').0) [
              | inr a ↦ rw (accept_party_invite, e, f, g, z, a) h'
              | inl a ↦
                  rw (accept_party_invite, e, f, g, z, a)
                    (try_add-AreOrganised party_id player p' h' (outside_of_zero player p' h' z))
            ]
          ]
        ]
      ]
    ]
  where
    p' : Parties
    p' = (take_invite tick player p).1

    h' : AreOrganised p'
    h' = take_invite-AreOrganised tick player p h

-- `RemovePlayerFromParty` keeps parties in order, and leaves the player without membership.
pub remove_player_from_party-AreOrganised :
    (player : Entity) (p : Parties)
    → AreOrganised p
    → AreOrganised (remove_player_from_party player p)
      × ((remove_player_from_party player p).members player ≡ none)
unfolding remove_player_from_party IsOrganised
remove_player_from_party-AreOrganised player p h = elim (Option-cases (p.members player)) [
  | inl e ↦ (rw (remove_player_from_party, e) h, rw (remove_player_from_party, e) e)
  | inr (m, e) ↦
      let (party, at, _) = h.1 player m e in
      elim (List-cases (without player party.member_ids)) [
        | inl f ↦ (
          rw (remove_player_from_party, e, at, f)
              (disband-IsOrganised p.parties p.members player m.party_id party h e at f),
          rw (remove_player_from_party, e, at, f) (erase_self player p.members),
        )
        | inr (first, rest, f) ↦ (
          rw (remove_player_from_party, e, at, f)
              (leave-IsOrganised p.parties p.members player m.party_id party h e at first rest f),
          rw (remove_player_from_party, e, at, f) (erase_self player p.members),
        )
      ]
]
