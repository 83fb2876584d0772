-- ===== src/Game/Trade/Tests.antt =====
-- A trade between the players 1 and 2 (server/game/trade.go): two pieces of item 7 for one of item 8.
use mathlib.Core.Path.{subst}
use minnsun_s_adventure.Common.{
  ℕ, ◌+◌, ◌-◌, ◌^◌, ◌<◌, ◌≡◌, refl, ap, sym, ◌∙◌, inl, inr, true, [], ◌∷◌, Option, none, some,
  some_inj, arith, Eq-cases,
}
use minnsun_s_adventure.Common.Int.{ℤ, pos}
use minnsun_s_adventure.Common.Table.{
  Table, empty, insert, insert-some, insert_self, insert_other, none-some,
}
use minnsun_s_adventure.Ecs.Entity.{Entity}
use minnsun_s_adventure.Ecs.Components.{InventoryComponent, Items, quantity, zero_metadata}
use minnsun_s_adventure.Game.Trade.{
  TradeSession, Trading, TradeReply, trade_completed, initialize_trade_session, offer_item_to_trade,
  cancel_trade_session, execute_swap, lock_trade_stage,
}
use minnsun_s_adventure.Game.Trade.Bags.{IsStock, IsOffer, stock, pieces}
use minnsun_s_adventure.Game.Trade.Sessions.{IsConsistent, open-IsConsistent}
use minnsun_s_adventure.Game.Trade.Safety.{IsSafe, Returns}
use minnsun_s_adventure.Game.Trade.Offering.{offer_item_to_trade_safe}
use minnsun_s_adventure.Game.Trade.Histories.{Reach, start, after, opens, reached_operations_return}
use minnsun_s_adventure.Game.Trade.Swap.{holdings, IsStocked, swap_exchanges, swap_conserves}

abbrev bag_1 : Items
bag_1 = insert 7 (pos 3) empty

abbrev bag_2 : Items
bag_2 = insert 8 (pos 1) empty

abbrev inventories : Table InventoryComponent
inventories = insert 2 (record { items = bag_2 }) (insert 1 (record { items = bag_1 }) empty)

abbrev session : TradeSession
session = record {
  session_id = 50;
  offer_a = record { player_id = 1; is_locked = true; item_ids = (7, pos 2) ∷ [] };
  offer_b = record { player_id = 2; is_locked = true; item_ids = (8, pos 1) ∷ [] };
}

-- No session yet.
abbrev quiet : Trading
quiet = record {
  sessions = empty;
  bindings = empty;
  ids = record { free = []; next_id = 49 };
  metadata = insert 2 zero_metadata empty;
  inventories = inventories;
}

abbrev trading : Trading
trading = record quiet {
  sessions = insert 50 session empty;
  bindings = insert 2 50 (insert 1 50 empty);
}

quiet-IsSafe : IsSafe quiet
unfolding IsConsistent
quiet-IsSafe = (
  (λ k s found. absurd (none-some {V = TradeSession} none refl found)),
  (λ p k found. absurd (none-some {V = Entity} none refl found)),
)

trading-IsSafe : IsSafe trading
unfolding IsOffer
trading-IsSafe =
    open-IsConsistent empty empty 50 session quiet-IsSafe refl (λ e. absurd (omega arith)) refl refl
      (refl, (2, refl, omega arith, omega arith), tt)
      (refl, (1, refl, omega arith, omega arith), tt)

quantity_small : (k n : ℕ) → n < 2 ^ 62 → IsStock (insert k (pos n) empty)
unfolding IsStock
quantity_small k n small i = elim (Eq-cases k i) [
  | inl e ↦ (
    n,
    ap (quantity' (insert k (pos n) empty)) (sym e) ∙ ap or_zero (insert_self k (pos n) empty),
    small,
  )
  | inr ne ↦ (0, ap or_zero (insert_other k i (pos n) empty ne), omega arith)
]
  where
    or_zero : Option ℤ → ℤ
    or_zero o = elim o [ none ↦ pos 0 | some m ↦ m ]

    quantity' : Items → ℕ → ℤ
    quantity' items j = quantity j items

trading-IsStocked : IsStocked trading
unfolding IsStocked
trading-IsStocked p inv found =
    elim (insert-some 2 p (record { items = bag_2 }) inv (insert 1 (record { items = bag_1 }) empty)
      found) [
        | inl (_, one) ↦ subst (λ v. IsStock v.items) one (quantity_small 8 1 (omega arith))
        | inr (_, there) ↦ elim (insert-some 1 p (record { items = bag_1 }) inv empty there) [
          | inl (_, one) ↦ subst (λ v. IsStock v.items) one (quantity_small 7 3 (omega arith))
          | inr (_, nowhere) ↦ absurd (none-some {V = InventoryComponent} none refl nowhere)
        ]
      ]

offer_item_to_trade_safe_example : Returns (offer_item_to_trade 1 7 (pos 1) trading)
offer_item_to_trade_safe_example =
    offer_item_to_trade_safe trading 1 7 1 trading-IsSafe (omega arith)
      (λ inv found. (3, ap (λ v. quantity 7 v.items) (sym (some_inj found)), omega arith))

swap_exchanges_example :
    (t' : Trading) × (execute_swap 50 trading ≡ some (trade_completed, t'))
    × ((i : ℕ)
        → holdings i 1 t'
          ≡ stock i bag_1 - pieces i session.offer_a.item_ids + pieces i session.offer_b.item_ids)
    × ((i : ℕ)
        → holdings i 2 t'
          ≡ stock i bag_2 - pieces i session.offer_b.item_ids + pieces i session.offer_a.item_ids)
    × (t'.sessions 50 ≡ none)
    × (t'.bindings 1 ≡ none)
    × (t'.bindings 2 ≡ none)
swap_exchanges_example =
    swap_exchanges trading 50 session trading-IsSafe trading-IsStocked refl
      (record { items = bag_1 }) (record { items = bag_2 }) refl refl refl refl

swap_conserves_example :
    (r : TradeReply) × (t' : Trading) × (execute_swap 50 trading ≡ some (r, t'))
    × ((i : ℕ) → holdings i 1 t' + holdings i 2 t' ≡ holdings i 1 trading + holdings i 2 trading)
swap_conserves_example = swap_conserves trading 50 session trading-IsSafe trading-IsStocked refl

-- Player 1 opens a trade with player 2, and offers a piece of item 7.
quiet_reached : Reach quiet
quiet_reached = start quiet.ids quiet.metadata quiet.inventories

abbrev opened : Trading
opened = (initialize_trade_session 1 2 quiet).1

opened_reached : Reach opened
opened_reached = after quiet_reached (opens 1 2 refl)

reached_operations_return_example :
    IsSafe opened
    × Returns (lock_trade_stage 1 opened)
    × Returns (execute_swap 50 opened)
    × Returns (cancel_trade_session 1 opened)
reached_operations_return_example = reached_operations_return opened_reached 1 50
