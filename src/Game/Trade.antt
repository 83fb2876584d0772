-- ===== src/Game/Trade.antt =====
-- Trades between two players (server/game/trade.go). The notices that the operations send are left
-- out, and a reply is named for its text.
pub mod Bags
pub mod Swap
pub mod Sessions
pub mod Safety
pub mod Offering
pub mod Histories
mod Tests
use Prim.Native.Nat.{compare, Ordering}
use minnsun_s_adventure.Common.{
  ℕ, Bool, true, false, ◌||◌, ◌&&◌, not, List, [], ◌∷◌, Option, none, some, ◌==◌, if◌then◌else◌,
}
use minnsun_s_adventure.Common.Int.{ℤ, pos, ◌+ℤ◌, ◌-ℤ◌, ltb_ℤ, leb_ℤ, eqb_ℤ, int64}
use minnsun_s_adventure.Common.Table.{Table, insert, erase, is_some}
use minnsun_s_adventure.Common.Entries
use minnsun_s_adventure.Ecs.Entity.{Entity, Ids, new_entity}
use minnsun_s_adventure.Ecs.Components.{MetadataComponent, InventoryComponent, Items, quantity}

-- `item_ids` is a map that the swap ranges over.
pub record TradeOffer : Type 0 where
  pub player_id : Entity
  pub is_locked : Bool
  pub item_ids : List (ℕ × ℤ)

pub record TradeSession : Type 0 where
  pub session_id : Entity
  pub offer_a : TradeOffer
  pub offer_b : TradeOffer

-- `TradeSystemRegistry`, with the parts of the registry that it uses.
pub record Trading : Type 0 where
  pub sessions : Table TradeSession
  pub bindings : Table Entity
  pub ids : Ids
  pub metadata : Table MetadataComponent
  pub inventories : Table InventoryComponent

pub data TradeReply : Type 0 where
  trade_opened offer_accepted offer_locked trade_completed trade_cancelled : TradeReply
  trade_with_self no_such_player already_trading target_trading : TradeReply
  invalid_quantity not_trading offer_is_locked no_inventory insufficient already_locked : TradeReply
  no_session inventories_invalid a_insufficient b_insufficient : TradeReply

abbrev pub new_offer : Entity → TradeOffer
new_offer player = record { player_id = player; is_locked = false; item_ids = [] }

-- `InitializeTradeSession`
unfoldable pub initialize_trade_session : Entity → Entity → Trading → TradeReply × Trading
unfolding new_entity
initialize_trade_session a b t =
    if a == b
    then (trade_with_self, t)
    else if not (is_some (t.metadata b))
    then (no_such_player, t)
    else if is_some (t.bindings a)
    then (already_trading, t)
    else if is_some (t.bindings b)
    then (target_trading, t)
    else (let (session, ids) = new_entity t.ids in
        (
          trade_opened,
          record t {
            sessions =
                insert session
                  (record { session_id = session; offer_a = new_offer a; offer_b = new_offer b })
                  t.sessions;
            bindings = insert b session (insert a session t.bindings);
            ids = ids;
          },
        ))

-- The offer of a player of the session, and the session with that offer replaced.
abbrev pub my_offer : Entity → TradeSession → TradeOffer
my_offer player s = if s.offer_a.player_id == player then s.offer_a else s.offer_b

abbrev pub opponent_offer : Entity → TradeSession → TradeOffer
opponent_offer player s = if s.offer_a.player_id == player then s.offer_b else s.offer_a

abbrev pub with_my_offer : Entity → TradeOffer → TradeSession → TradeSession
with_my_offer player o s =
    if s.offer_a.player_id == player then record s { offer_a = o } else record s { offer_b = o }

-- `m[item]` of an offer
abbrev pub offered : ℕ → List (ℕ × ℤ) → ℤ
offered item m = elim (Entries.lookup item m) [ none ↦ pos 0 | some q ↦ q ]

-- `OfferItemToTrade`. The result is `none` where the program panics: on a bound player whose session
-- is missing.
unfoldable pub offer_item_to_trade : Entity → ℕ → ℤ → Trading → Option (TradeReply × Trading)
offer_item_to_trade player item qty t =
    if leb_ℤ qty (pos 0) then some (invalid_quantity, t) else elim (t.bindings player) [
      | none ↦ some (not_trading, t)
      | some k ↦ elim (t.sessions k) [
        | none ↦ none
        | some s ↦
            if (my_offer player s).is_locked
            then some (offer_is_locked, t)
            else elim (t.inventories player) [
              | none ↦ some (no_inventory, t)
              | some inv ↦
                  let mine = my_offer player s in
                  let total = int64 (offered item mine.item_ids +ℤ qty) in
                  if ltb_ℤ (quantity item inv.items) total
                  then some (insufficient, t)
                  else some (
                    offer_accepted,
                    record t {
                      sessions =
                          insert k
                            (with_my_offer player
                              (record mine { item_ids = Entries.insert item total mine.item_ids })
                              s)
                            t.sessions;
                    },
                  )
            ]
      ]
    ]

-- `cancelTradeSessionLocked`
unfoldable pub cancel_trade_session : Entity → Trading → Option (TradeReply × Trading)
cancel_trade_session player t = elim (t.bindings player) [
  | none ↦ some (not_trading, t)
  | some k ↦ elim (t.sessions k) [
    | none ↦ none
    | some s ↦ some (
      trade_cancelled,
      record t {
        bindings = erase s.offer_b.player_id (erase s.offer_a.player_id t.bindings);
        sessions = erase k t.sessions;
      },
    )
  ]
]

-- `inv.Items[itemID] -= qty`, and an item of which there are none left is deleted.
abbrev pub deduct : ℕ → ℤ → Items → Items
deduct item qty items =
    let left = int64 (quantity item items -ℤ qty) in
    if eqb_ℤ left (pos 0) then erase item items else insert item left items

abbrev pub deduct_all : List (ℕ × ℤ) → Items → Items
deduct_all [] items = items
deduct_all ((item, qty) ∷ m) items = deduct_all m (deduct item qty items)

-- `inv.Items[itemID] += qty`
abbrev pub inject : ℕ → ℤ → Items → Items
inject item qty items = insert item (int64 (quantity item items +ℤ qty)) items

abbrev pub inject_all : List (ℕ × ℤ) → Items → Items
inject_all [] items = items
inject_all ((item, qty) ∷ m) items = inject_all m (inject item qty items)

-- The loop that looks for an item of which there are fewer than offered.
abbrev pub lacks_some : List (ℕ × ℤ) → Items → Bool
lacks_some [] items = false
lacks_some ((item, qty) ∷ m) items = ltb_ℤ (quantity item items) qty || lacks_some m items

-- A trade that is given up: `cancelTradeSessionLocked(pA)`, then the reply.
abbrev pub abort_with : TradeReply → Entity → Trading → Option (TradeReply × Trading)
abort_with reply player t = elim (cancel_trade_session player t) [
  | none ↦ none
  | some (_, t') ↦ some (reply, t')
]

-- The writes of a swap that goes through.
abbrev pub swap :
    Entity → TradeSession → InventoryComponent → InventoryComponent → Trading → Trading
swap k s inv_a inv_b t =
    let a = s.offer_a in
    let b = s.offer_b in
    record t {
      inventories =
          insert b.player_id
            (record { items = inject_all a.item_ids (deduct_all b.item_ids inv_b.items) })
            (insert a.player_id
              (record { items = inject_all b.item_ids (deduct_all a.item_ids inv_a.items) })
              t.inventories);
      bindings = erase b.player_id (erase a.player_id t.bindings);
      sessions = erase k t.sessions;
    }

-- `executeSwapLocked`, which `ExecuteAtomicTradeSwap` calls too.
unfoldable pub execute_swap : Entity → Trading → Option (TradeReply × Trading)
unfolding cancel_trade_session int64 ◌+ℤ◌ ◌-ℤ◌
execute_swap k t = elim (t.sessions k) [
  | none ↦ some (no_session, t)
  | some s ↦ elim (t.inventories s.offer_a.player_id) [
    | none ↦ abort_with inventories_invalid s.offer_a.player_id t
    | some inv_a ↦ elim (t.inventories s.offer_b.player_id) [
      | none ↦ abort_with inventories_invalid s.offer_a.player_id t
      | some inv_b ↦
          if lacks_some s.offer_a.item_ids inv_a.items
          then abort_with a_insufficient s.offer_a.player_id t
          else if lacks_some s.offer_b.item_ids inv_b.items
          then abort_with b_insufficient s.offer_a.player_id t
          else some (trade_completed, swap k s inv_a inv_b t)
    ]
  ]
]

-- `LockTradeStage`
unfoldable pub lock_trade_stage : Entity → Trading → Option (TradeReply × Trading)
unfolding execute_swap
lock_trade_stage player t = elim (t.bindings player) [
  | none ↦ some (not_trading, t)
  | some k ↦ elim (t.sessions k) [
    | none ↦ none
    | some s ↦
        let mine = my_offer player s in
        let locked = record t {
          sessions =
              insert k (with_my_offer player (record mine { is_locked = true }) s) t.sessions;
        } in
        if mine.is_locked
        then some (already_locked, t)
        else if (opponent_offer player s).is_locked
        then execute_swap k locked
        else some (offer_locked, locked)
  ]
]
