-- ===== src/Game/Trade/Offering.antt =====
-- A trade session is opened, and items are offered (server/game/trade.go).
use minnsun_s_adventure.Common.{
  ℕ, ◌+◌, ◌^◌, ◌≤◌, ◌<◌, ◌≡◌, ◌≢◌, refl, sym, ap, ◌∙◌, inl, inr, false, List, [], ◌∷◌, Option, none,
  some, arith, ◌==◌, if◌then◌else◌, Option-cases, Bool-cases, ==→eq, ==→ne, ==_ne,
}
use minnsun_s_adventure.Common.Int.{ℤ, pos, leb_ℤ, ltb_ℤ, ◌+ℤ◌, int64}
use minnsun_s_adventure.Common.Table.{insert, is_some}
use minnsun_s_adventure.Common.Entries
use minnsun_s_adventure.Ecs.Entity.{Entity, new_entity}
use minnsun_s_adventure.Ecs.Components.{InventoryComponent, quantity}
use minnsun_s_adventure.Game.Trade.{
  TradeOffer, TradeSession, Trading, TradeReply, offer_accepted, invalid_quantity, not_trading,
  offer_is_locked, no_inventory, insufficient, new_offer, my_offer, with_my_offer, offered,
  initialize_trade_session, offer_item_to_trade,
}
use minnsun_s_adventure.Game.Trade.Bags.{IsOffer, pieces, pieces_small, add_exact}
use minnsun_s_adventure.Game.Trade.Sessions.{Pairs, IsConsistent, open-IsConsistent}
use minnsun_s_adventure.Common.Table.{none-of_not_some}
use minnsun_s_adventure.Game.Trade.Safety.{IsSafe, Returns, my_offer-IsOffer, change-IsSafe}

lookup-insert-none :
    (i j : ℕ) (q : ℤ) (m : List (ℕ × ℤ))
    → j ≢ i
    → Entries.lookup j m ≡ none
    → Entries.lookup j (Entries.insert i q m) ≡ none
lookup-insert-none i j q m ne e =
    Entries.lookup-insert i j q m
    ∙ ap (λ b. if b then some q else Entries.lookup j m) (==_ne j i ne)
    ∙ e

insert-IsOffer :
    (i n : ℕ) (m : List (ℕ × ℤ))
    → IsOffer m
    → 0 < n
    → n < 2 ^ 62
    → IsOffer (Entries.insert i (pos n) m)
unfolding IsOffer
insert-IsOffer i n [] h positive small = (refl, (n, refl, positive, small), tt)
insert-IsOffer i n ((j, q) ∷ m) (fresh, entry, h) positive small = elim (Bool-cases (i == j)) [
  | inl e ↦ rw e (ap (λ x. Entries.lookup x m) (==→eq i j e) ∙ fresh, (n, refl, positive, small), h)
  | inr e ↦ rw e (
    lookup-insert-none i j (pos n) m (λ s. ==→ne i j e (sym s)) fresh,
    entry,
    insert-IsOffer i n m h positive small,
  )
]

offered_pos : (j : ℕ) (m : List (ℕ × ℤ)) → IsOffer m → offered j m ≡ pos (pieces j m)
unfolding IsOffer
offered_pos j [] h = refl
offered_pos j ((i, q) ∷ m) (fresh, (n, eq, _, _), h) = ground (arith, offered_pos j m h, eq)

-- From a consistent state, `InitializeTradeSession` leaves one, where the ID that `NewEntity` hands
-- out is not the ID of a session.
pub initialize_trade_session-IsSafe :
    (t : Trading) (a b : Entity)
    → IsSafe t
    → t.sessions (new_entity t.ids).0 ≡ none
    → IsSafe (initialize_trade_session a b t).1
unfolding initialize_trade_session IsOffer
initialize_trade_session-IsSafe t a b safe unused = elim (Bool-cases (a == b)) [
  | inl e ↦ rw e safe
  | inr apart ↦ elim (Bool-cases (is_some (t.metadata b))) [
    | inr e ↦ rw (apart, e) safe
    | inl known ↦ elim (Bool-cases (is_some (t.bindings a))) [
      | inl e ↦ rw (apart, known, e) safe
      | inr free_a ↦ elim (Bool-cases (is_some (t.bindings b))) [
        | inl e ↦ rw (apart, known, free_a, e) safe
        | inr free_b ↦
            rw (apart, known, free_a, free_b)
              (open-IsConsistent t.sessions t.bindings (new_entity t.ids).0
                (record {
                  session_id = (new_entity t.ids).0;
                  offer_a = new_offer a;
                  offer_b = new_offer b;
                })
                safe unused (==→ne a b apart) (none-of_not_some _ free_a)
                (none-of_not_some _ free_b) tt tt)
      ]
    ]
  ]
]

positive_of : (n c : ℕ) → leb_ℤ (pos n) (pos 0) ≡ false → 0 < c + n
positive_of n c h = ground arith

not_below_is : (a n : ℕ) (x y : ℤ) → x ≡ pos a → y ≡ pos n → ltb_ℤ x y ≡ false → n ≤ a
not_below_is a n x y e f h = ground arith

accepted_offer :
    Entity → Entity → TradeOffer → TradeSession → Trading → Option (TradeReply × Trading)
accepted_offer k player o s t =
    some (offer_accepted, record t { sessions = insert k (with_my_offer player o s) t.sessions })

-- From a consistent state, `OfferItemToTrade` returns, and leaves one, where the player has less
-- than 2 ^ 62 pieces of the item and less than 2 ^ 62 are offered.
pub offer_item_to_trade_safe :
    (t : Trading) (player : Entity) (item n : ℕ)
    → IsSafe t
    → n < 2 ^ 62
    → ((inv : InventoryComponent)
        → t.inventories player ≡ some inv
        → (a : ℕ) × (quantity item inv.items ≡ pos a) × (a < 2 ^ 62))
    → Returns (offer_item_to_trade player item (pos n) t)
unfolding offer_item_to_trade IsConsistent Pairs accepted_offer
offer_item_to_trade_safe t player item n safe small stocked =
    elim (Bool-cases (leb_ℤ (pos n) (pos 0))) [
      | inl e ↦ (invalid_quantity, t, rw (offer_item_to_trade, e) refl, safe)
      | inr e0 ↦ elim (Option-cases (t.bindings player)) [
        | inl e ↦ (not_trading, t, rw (offer_item_to_trade, e0, e) refl, safe)
        | inr (k, bound) ↦
            let (s, here, _) = safe.1 player k bound in
            elim (Bool-cases (my_offer player s).is_locked) [
              | inl e ↦
                  (offer_is_locked, t, rw (offer_item_to_trade, e0, bound, here, e) refl, safe)
              | inr open_still ↦ elim (Option-cases (t.inventories player)) [
                | inl e ↦ (
                  no_inventory,
                  t,
                  rw (offer_item_to_trade, e0, bound, here, open_still, e) refl,
                  safe,
                )
                | inr (inv, has) ↦
                    let mine = my_offer player s in
                    let total = int64 (offered item mine.item_ids +ℤ pos n) in
                    elim (Bool-cases (ltb_ℤ (quantity item inv.items) total)) [
                      | inl e ↦ (
                        insufficient,
                        t,
                        rw (offer_item_to_trade, e0, bound, here, open_still, has, e) refl,
                        safe,
                      )
                      | inr enough ↦
                          let (_, _, _, oa, ob) = safe.0 k s here in
                          let ok = my_offer-IsOffer player s oa ob in
                          let (a, is_a, small_a) = stocked inv has in
                          let c = pieces item mine.item_ids in
                          let is_total : total ≡ pos (c + n) =
                            ap (λ x. int64 (x +ℤ pos n)) (offered_pos item mine.item_ids ok)
                            ∙ add_exact c n (omega (arith, pieces_small item mine.item_ids ok)) in
                          let within = not_below_is a (c + n) _ total is_a is_total enough in
                          let offer = record mine {
                            is_locked = false;
                            item_ids = Entries.insert item total mine.item_ids;
                          } in
                          let ok' : IsOffer offer.item_ids = rw is_total (
                            insert-IsOffer item (c + n) mine.item_ids ok (positive_of n c e0)
                              (omega (arith, within))) in
                          (
                            offer_accepted,
                            record t {
                              sessions = insert k (with_my_offer player offer s) t.sessions;
                            },
                            rw (offer_item_to_trade, e0, bound, here, open_still, has, enough)
                                (ap
                                  (λ l.
                                    accepted_offer k player
                                      (record mine {
                                        is_locked = l;
                                        item_ids = Entries.insert item total mine.item_ids;
                                      })
                                      s t)
                                  open_still),
                            change-IsSafe t player k s safe here offer refl ok',
                          )
                    ]
              ]
            ]
      ]
    ]
