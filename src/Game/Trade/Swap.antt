-- ===== src/Game/Trade/Swap.antt =====
-- What a swap (`executeSwapLocked` of server/game/trade.go) does to the two bags.
use minnsun_s_adventure.Common.{
  ℕ, ◌+◌, ◌-◌, ◌≤◌, ◌≡◌, ◌≢◌, refl, sym, ap, ◌∙◌, inl, inr, false, none, some, arith, Option-cases,
  Bool-cases,
}
use minnsun_s_adventure.Common.Int.{pos, pos_part}
use minnsun_s_adventure.Common.Table.{
  insert, erase, insert_self, insert_other, erase_self, erase_other,
}
use minnsun_s_adventure.Ecs.Entity.{Entity}
use minnsun_s_adventure.Ecs.Components.{InventoryComponent, Items, quantity}
use minnsun_s_adventure.Game.Trade.{
  TradeOffer, TradeSession, Trading, TradeReply, trade_completed, inventories_invalid,
  a_insufficient, b_insufficient, deduct_all, inject_all, lacks_some, abort_with, swap,
  execute_swap, cancel_trade_session,
}
use minnsun_s_adventure.Game.Trade.Bags.{
  IsStock, IsOffer, pieces, stock, quantity-deduct_all, quantity-inject_all, covers_of_check,
  pieces_small,
}
use minnsun_s_adventure.Game.Trade.Sessions.{Pairs, IsConsistent}
use minnsun_s_adventure.Game.Trade.Safety.{IsSafe, cancel_trade_session_safe}

-- How many pieces of an item a player has.
abbrev pub holdings : ℕ → Entity → Trading → ℕ
holdings i p t = elim (t.inventories p) [ none ↦ 0 | some inv ↦ stock i inv.items ]

-- Every bag has natural quantities below 2 ^ 62.
unfoldable pub IsStocked : Trading → Type 0
IsStocked t =
    (p : Entity) (inv : InventoryComponent) → t.inventories p ≡ some inv → IsStock inv.items

-- One bag: the pieces that go, and those that come.
quantity-exchanged :
    (i : ℕ) (mine theirs : TradeOffer) (items : Items)
    → IsStock items
    → IsOffer mine.item_ids
    → IsOffer theirs.item_ids
    → lacks_some mine.item_ids items ≡ false
    → (pieces i mine.item_ids ≤ stock i items)
      × (quantity i (inject_all theirs.item_ids (deduct_all mine.item_ids items))
          ≡ pos (stock i items - pieces i mine.item_ids + pieces i theirs.item_ids))
unfolding IsStock
quantity-exchanged i mine theirs items stocked om ot ok =
    let (a, e, small) = stocked i in
    let is_a : stock i items ≡ a = ap pos_part e in
    let le = covers_of_check i mine.item_ids items a om ok e in
    let went = quantity-deduct_all i mine.item_ids items a om e le (omega (arith, small)) in
    let came =
      quantity-inject_all i theirs.item_ids (deduct_all mine.item_ids items) _ ot went
        (omega (arith, pieces_small i theirs.item_ids ot, small)) in
    (
      omega (arith, is_a, le),
      came ∙ ap (λ x. pos (x - pieces i mine.item_ids + pieces i theirs.item_ids)) (sym is_a),
    )

holdings_of :
    (i : ℕ) (p : Entity) (t : Trading) (inv : InventoryComponent)
    → t.inventories p ≡ some inv
    → holdings i p t ≡ stock i inv.items
holdings_of i p t inv e = ap (λ o. elim o [ none ↦ 0 | some v ↦ stock i v.items ]) e

-- A trade that is given up leaves every bag.
cancel-inventories :
    (player : Entity) (t t' : Trading) (r : TradeReply)
    → cancel_trade_session player t ≡ some (r, t')
    → t'.inventories ≡ t.inventories
unfolding cancel_trade_session
cancel-inventories player t t' r e = elim (Option-cases (t.bindings player)) [
  | inl f ↦ ground arith
  | inr (k, f) ↦ elim (Option-cases (t.sessions k)) [
    | inl g ↦ ground arith
    | inr (s, g) ↦ ground arith
  ]
]

module _ (t : Trading) (k : Entity) (s : TradeSession) (safe : IsSafe t) (stocked : IsStocked t)
    (here : t.sessions k ≡ some s) where
  -- A swap in which both players have what they offer goes through: of every item, each player then
  -- has what they had, less what they offered, and what the other offered. The session is gone, and
  -- both players are free.
  pub swap_exchanges :
      (inv_a inv_b : InventoryComponent)
      → t.inventories s.offer_a.player_id ≡ some inv_a
      → t.inventories s.offer_b.player_id ≡ some inv_b
      → lacks_some s.offer_a.item_ids inv_a.items ≡ false
      → lacks_some s.offer_b.item_ids inv_b.items ≡ false
      → (t' : Trading) × (execute_swap k t ≡ some (trade_completed, t'))
        × ((i : ℕ)
            → holdings i s.offer_a.player_id t'
              ≡ stock i inv_a.items - pieces i s.offer_a.item_ids + pieces i s.offer_b.item_ids)
        × ((i : ℕ)
            → holdings i s.offer_b.player_id t'
              ≡ stock i inv_b.items - pieces i s.offer_b.item_ids + pieces i s.offer_a.item_ids)
        × (t'.sessions k ≡ none)
        × (t'.bindings s.offer_a.player_id ≡ none)
        × (t'.bindings s.offer_b.player_id ≡ none)
  unfolding execute_swap IsConsistent Pairs IsStocked
  swap_exchanges inv_a inv_b ea eb la lb =
      let (apart, _, _, oa, ob) = safe.0 k s here in
      let a = s.offer_a.player_id in
      let b = s.offer_b.player_id in
      let apart' : b ≢ a = λ e. apart (sym e) in
      let bag_a : InventoryComponent = record {
        items = inject_all s.offer_b.item_ids (deduct_all s.offer_a.item_ids inv_a.items);
      } in
      let bag_b : InventoryComponent = record {
        items = inject_all s.offer_a.item_ids (deduct_all s.offer_b.item_ids inv_b.items);
      } in
      let t' = swap k s inv_a inv_b t in
      (
        t',
        rw (execute_swap, here, ea, eb, la, lb) refl,
        (λ i.
            holdings_of i a t' bag_a (
              insert_other b a bag_b (insert a bag_a t.inventories) apart'
              ∙ insert_self a bag_a t.inventories)
            ∙ ap pos_part
                (quantity-exchanged i s.offer_a s.offer_b inv_a.items (stocked a inv_a ea) oa ob
                  la).1),
        (λ i.
            holdings_of i b t' bag_b (insert_self b bag_b (insert a bag_a t.inventories))
            ∙ ap pos_part
                (quantity-exchanged i s.offer_b s.offer_a inv_b.items (stocked b inv_b eb) ob oa
                  lb).1),
        erase_self k t.sessions,
        erase_other b a (erase a t.bindings) apart' ∙ erase_self a t.bindings,
        erase_self s.offer_b.player_id (erase s.offer_a.player_id t.bindings),
      )

  abort-keeps :
      (r : TradeReply)
      → execute_swap k t ≡ abort_with r s.offer_a.player_id t
      → (r' : TradeReply) × (t' : Trading) × (execute_swap k t ≡ some (r', t'))
        × ((i : ℕ)
            → holdings i s.offer_a.player_id t' + holdings i s.offer_b.player_id t'
              ≡ holdings i s.offer_a.player_id t + holdings i s.offer_b.player_id t)
  abort-keeps r e =
      let (r', t', f, _) = cancel_trade_session_safe t s.offer_a.player_id safe in
      let same = cancel-inventories s.offer_a.player_id t t' r' f in
      (
        r,
        t',
        e ∙ rw (abort_with, f) refl,
        λ i.
            ap
              (λ m.
                elim (m s.offer_a.player_id) [ none ↦ 0 | some v ↦ stock i v.items ]
                + elim (m s.offer_b.player_id) [ none ↦ 0 | some v ↦ stock i v.items ])
              same,
      )

  -- Whatever comes of a swap, it returns, and of every item the two players together have as many
  -- pieces afterwards as before.
  pub swap_conserves :
      (r : TradeReply) × (t' : Trading) × (execute_swap k t ≡ some (r, t'))
      × ((i : ℕ)
          → holdings i s.offer_a.player_id t' + holdings i s.offer_b.player_id t'
            ≡ holdings i s.offer_a.player_id t + holdings i s.offer_b.player_id t)
  unfolding execute_swap IsConsistent Pairs IsStocked
  swap_conserves = elim (Option-cases (t.inventories s.offer_a.player_id)) [
    | inl e ↦ abort-keeps inventories_invalid (rw (execute_swap, here, e) refl)
    | inr (inv_a, ea) ↦ elim (Option-cases (t.inventories s.offer_b.player_id)) [
      | inl e ↦ abort-keeps inventories_invalid (rw (execute_swap, here, ea, e) refl)
      | inr (inv_b, eb) ↦ elim (Bool-cases (lacks_some s.offer_a.item_ids inv_a.items)) [
        | inl e ↦ abort-keeps a_insufficient (rw (execute_swap, here, ea, eb, e) refl)
        | inr la ↦ elim (Bool-cases (lacks_some s.offer_b.item_ids inv_b.items)) [
          | inl e ↦ abort-keeps b_insufficient (rw (execute_swap, here, ea, eb, la, e) refl)
          | inr lb ↦
              let (_, _, _, oa, ob) = safe.0 k s here in
              let (t', done, at_a, at_b, _, _, _) = swap_exchanges inv_a inv_b ea eb la lb in
              (
                trade_completed,
                t',
                done,
                λ i. omega (
                  arith,
                  at_a i,
                  at_b i,
                  (quantity-exchanged i s.offer_a s.offer_b inv_a.items (stocked _ inv_a ea) oa ob
                      la).0,
                  (quantity-exchanged i s.offer_b s.offer_a inv_b.items (stocked _ inv_b eb) ob oa
                      lb).0,
                  holdings_of i s.offer_a.player_id t inv_a ea,
                  holdings_of i s.offer_b.player_id t inv_b eb,
                ),
              )
        ]
      ]
    ]
  ]
