-- ===== src/Game/Trade/Sessions.antt =====
-- The sessions and the players that they bind (server/game/trade.go) always fit together, so that no
-- operation meets a missing session.
use minnsun_s_adventure.Common.{
  ◌≡◌, ◌≢◌, sym, ap, ◌∙◌, ◌⊎◌, inl, inr, none, some, Eq-cases, some_inj,
}
use minnsun_s_adventure.Common.Table.{
  Table, insert, erase, insert_self, insert_other, erase_other, insert-some, erase-some, some-both,
  none-some,
}
use minnsun_s_adventure.Ecs.Entity.{Entity}
use minnsun_s_adventure.Game.Trade.{TradeSession}
use minnsun_s_adventure.Game.Trade.Bags.{IsOffer}

-- Two players in a session, with offers of distinct items.
unfoldable pub Pairs : TradeSession → Table Entity → Entity → Type 0
Pairs s bindings k =
    (s.offer_a.player_id ≢ s.offer_b.player_id)
    × (bindings s.offer_a.player_id ≡ some k)
    × (bindings s.offer_b.player_id ≡ some k)
    × IsOffer s.offer_a.item_ids
    × IsOffer s.offer_b.item_ids

unfoldable pub IsIn : Entity → TradeSession → Type 0
IsIn p s = (p ≡ s.offer_a.player_id) ⊎ (p ≡ s.offer_b.player_id)

-- A session binds its two players to itself, and a bound player is in the session.
unfoldable pub IsConsistent : Table TradeSession → Table Entity → Type 0
IsConsistent sessions bindings =
    ((k : Entity) (s : TradeSession) → sessions k ≡ some s → Pairs s bindings k)
    × ((p k : Entity) → bindings p ≡ some k → (s : TradeSession) × (sessions k ≡ some s) × IsIn p s)

module _ (sessions : Table TradeSession) (bindings : Table Entity) (k : Entity)
    (s : TradeSession) where
  -- A session that is closed.
  pub close-IsConsistent :
      IsConsistent sessions bindings
      → sessions k ≡ some s
      → IsConsistent
          (erase k sessions)
          (erase s.offer_b.player_id (erase s.offer_a.player_id bindings))
  unfolding IsConsistent Pairs IsIn
  close-IsConsistent (h1, h2) here =
      let a = s.offer_a.player_id in
      let b = s.offer_b.player_id in
      let (_, bound_a, bound_b, _, _) = h1 k s here in
      (
        (λ j s' found.
            let (ne, there) = erase-some k j s' sessions found in
            let (apart, ba, bb, oa, ob) = h1 j s' there in
            let away : (p : Entity) → bindings p ≡ some j → erase b (erase a bindings) p ≡ some j =
              λ p bp.
                erase_other b p (erase a bindings)
                  (λ e. ne (some_inj (sym bound_b ∙ ap bindings e ∙ bp)))
                ∙ erase_other a p bindings (λ e. ne (some_inj (sym bound_a ∙ ap bindings e ∙ bp)))
                ∙ bp in
            (apart, away _ ba, away _ bb, oa, ob)),
        (λ p j found.
            let (nb, f1) = erase-some b p j (erase a bindings) found in
            let (na, f2) = erase-some a p j bindings f1 in
            let (s', there, is_in) = h2 p j f2 in
            elim (Eq-cases k j) [
              | inl same ↦
                  let one = some-both (sessions j) there (sym (ap sessions same) ∙ here) in
                  absurd (elim is_in [
                    | inl e ↦ na (sym (e ∙ ap (λ x. x.offer_a.player_id) one))
                    | inr e ↦ nb (sym (e ∙ ap (λ x. x.offer_b.player_id) one))
                  ])
              | inr ne ↦ (s', erase_other k j sessions ne ∙ there, is_in)
            ]),
      )

  -- A session whose offers are changed.
  pub update-IsConsistent :
      (s' : TradeSession)
      → IsConsistent sessions bindings
      → sessions k ≡ some s
      → s'.offer_a.player_id ≡ s.offer_a.player_id
      → s'.offer_b.player_id ≡ s.offer_b.player_id
      → IsOffer s'.offer_a.item_ids
      → IsOffer s'.offer_b.item_ids
      → IsConsistent (insert k s' sessions) bindings
  unfolding IsConsistent Pairs IsIn
  update-IsConsistent s' (h1, h2) here ea eb oa ob =
      let (apart, ba, bb, _, _) = h1 k s here in
      (
        (λ j t found. elim (insert-some k j s' t sessions found) [
          | inl (same, one) ↦
              rw (sym one, sym same)
                ((λ e. apart (sym ea ∙ e ∙ eb)), ap bindings ea ∙ ba, ap bindings eb ∙ bb, oa, ob)
          | inr (ne, there) ↦ h1 j t there
        ]),
        (λ p j found.
            let (t, there, is_in) = h2 p j found in
            elim (Eq-cases k j) [
              | inl same ↦
                  let one = some-both (sessions j) there (sym (ap sessions same) ∙ here) in
                  (
                    s',
                    ap (insert k s' sessions) (sym same) ∙ insert_self k s' sessions,
                    elim is_in [
                      | inl e ↦ inl (e ∙ ap (λ x. x.offer_a.player_id) one ∙ sym ea)
                      | inr e ↦ inr (e ∙ ap (λ x. x.offer_b.player_id) one ∙ sym eb)
                    ],
                  )
              | inr ne ↦ (t, insert_other k j s' sessions ne ∙ there, is_in)
            ]),
      )

-- A session that is opened under a key that is not in use, for two players who are not bound.
pub open-IsConsistent :
    (sessions : Table TradeSession) (bindings : Table Entity) (k : Entity) (s : TradeSession)
    → IsConsistent sessions bindings
    → sessions k ≡ none
    → s.offer_a.player_id ≢ s.offer_b.player_id
    → bindings s.offer_a.player_id ≡ none
    → bindings s.offer_b.player_id ≡ none
    → IsOffer s.offer_a.item_ids
    → IsOffer s.offer_b.item_ids
    → IsConsistent
        (insert k s sessions)
        (insert s.offer_b.player_id k (insert s.offer_a.player_id k bindings))
unfolding IsConsistent Pairs IsIn
open-IsConsistent sessions bindings k s (h1, h2) unused apart free_a free_b oa ob =
    let a = s.offer_a.player_id in
    let b = s.offer_b.player_id in
    let bound_a : insert b k (insert a k bindings) a ≡ some k =
      insert_other b a k (insert a k bindings) (λ e. apart (sym e)) ∙ insert_self a k bindings in
    (
      (λ j t found. elim (insert-some k j s t sessions found) [
        | inl (same, one) ↦
            rw (sym one, sym same) (apart, bound_a, insert_self b k (insert a k bindings), oa, ob)
        | inr (ne, there) ↦
            let (apart', ba, bb, oa', ob') = h1 j t there in
            let kept : (p : Entity)
                → bindings p ≡ some j
                → insert b k (insert a k bindings) p ≡ some j =
              λ p bp.
                insert_other b p k (insert a k bindings)
                  (λ e. none-some (bindings b) free_b (ap bindings e ∙ bp))
                ∙ insert_other a p k bindings
                    (λ e. none-some (bindings a) free_a (ap bindings e ∙ bp))
                ∙ bp in
            (apart', kept _ ba, kept _ bb, oa', ob')
      ]),
      (λ p j found. elim (insert-some b p k j (insert a k bindings) found) [
        | inl (same, one) ↦
            (s, ap (insert k s sessions) (sym one) ∙ insert_self k s sessions, inr (sym same))
        | inr (_, f) ↦ elim (insert-some a p k j bindings f) [
          | inl (same, one) ↦
              (s, ap (insert k s sessions) (sym one) ∙ insert_self k s sessions, inl (sym same))
          | inr (_, g) ↦
              let (t, there, is_in) = h2 p j g in
              (
                t,
                insert_other k j s sessions
                      (λ e. none-some (sessions k) unused (ap sessions e ∙ there))
                    ∙ there,
                is_in,
              )
        ]
      ]),
    )
