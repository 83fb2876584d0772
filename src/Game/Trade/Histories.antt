-- ===== src/Game/Trade/Histories.antt =====
-- The trades of a server that starts with none (server/game/trade.go), while bags, entities and IDs change
-- elsewhere.
use mathlib.Core.Path.{subst}
use minnsun_s_adventure.Common.{refl, ℕ, ◌^◌, ◌<◌, ◌≡◌, Option, none, some, sym, ◌∙◌, some_inj}
use minnsun_s_adventure.Common.Int.{pos}
use minnsun_s_adventure.Common.Table.{Table, empty, none-some}
use minnsun_s_adventure.Ecs.Entity.{Entity, Ids, new_entity}
use minnsun_s_adventure.Ecs.Components.{InventoryComponent, MetadataComponent, quantity}
use minnsun_s_adventure.Game.Trade.{
  TradeSession, Trading, TradeReply, initialize_trade_session, offer_item_to_trade,
  cancel_trade_session, execute_swap, lock_trade_stage,
}
use minnsun_s_adventure.Game.Trade.Sessions.{IsConsistent}
use minnsun_s_adventure.Game.Trade.Safety.{
  IsSafe, Returns, cancel_trade_session_safe, execute_swap_safe, lock_trade_stage_safe,
}
use minnsun_s_adventure.Game.Trade.Offering.{
  initialize_trade_session-IsSafe, offer_item_to_trade_safe,
}

-- The player has less than 2 ^ 62 pieces of the item.
abbrev pub IsStockedWith : Entity → ℕ → Trading → Type 0
IsStockedWith player item t =
    (inv : InventoryComponent)
    → t.inventories player ≡ some inv
    → (a : ℕ) × (quantity item inv.items ≡ pos a) × (a < 2 ^ 62)

-- One call, or a change of what trades do not own. A session is opened under an ID that is none of a
-- session, and less than 2 ^ 62 pieces are offered of an item of which the player has less.
pub data Step (t : Trading) : Trading → Type 0 where
  opens :
      (a b : Entity)
      → t.sessions (new_entity t.ids).0 ≡ none
      → Step t (initialize_trade_session a b t).1
  offers :
      (player : Entity) (item n : ℕ) (r : TradeReply) (t' : Trading)
      → n < 2 ^ 62
      → IsStockedWith player item t
      → offer_item_to_trade player item (pos n) t ≡ some (r, t')
      → Step t t'
  locks :
      (player : Entity) (r : TradeReply) (t' : Trading)
      → lock_trade_stage player t ≡ some (r, t')
      → Step t t'
  swaps : (k : Entity) (r : TradeReply) (t' : Trading) → execute_swap k t ≡ some (r, t') → Step t t'
  cancels :
      (player : Entity) (r : TradeReply) (t' : Trading)
      → cancel_trade_session player t ≡ some (r, t')
      → Step t t'
  elsewhere :
      (ids : Ids) (metadata : Table MetadataComponent) (inventories : Table InventoryComponent)
      → Step t (record t { ids = ids; metadata = metadata; inventories = inventories })

-- The states that a server goes through.
pub data Reach : Trading → Type 0 where
  start :
      (ids : Ids) (metadata : Table MetadataComponent) (inventories : Table InventoryComponent)
      → Reach (record {
        sessions = empty;
        bindings = empty;
        ids = ids;
        metadata = metadata;
        inventories = inventories;
      })
  after : {t t' : Trading} → Reach t → Step t t' → Reach t'

IsSafe-of :
    {o : Option (TradeReply × Trading)} {r : TradeReply} {t : Trading}
    → Returns o
    → o ≡ some (r, t)
    → IsSafe t
IsSafe-of (r', t', e, safe) f = subst (λ x. IsSafe x.1) (some_inj (sym e ∙ f)) safe

Step-IsSafe : {t t' : Trading} → Step t t' → IsSafe t → IsSafe t'
Step-IsSafe {t} (opens a b unused) safe = initialize_trade_session-IsSafe t a b safe unused
Step-IsSafe {t} (offers player item n r t' small stocked e) safe =
    IsSafe-of (offer_item_to_trade_safe t player item n safe small stocked) e
Step-IsSafe {t} (locks player r t' e) safe = IsSafe-of (lock_trade_stage_safe t player safe) e
Step-IsSafe {t} (swaps k r t' e) safe = IsSafe-of (execute_swap_safe t k safe) e
Step-IsSafe {t} (cancels player r t' e) safe = IsSafe-of (cancel_trade_session_safe t player safe) e
Step-IsSafe {t} (elsewhere ids metadata inventories) safe = safe

Reach-IsSafe : {t : Trading} → Reach t → IsSafe t
unfolding IsConsistent
Reach-IsSafe (start ids metadata inventories) = (
  (λ k s found. absurd (none-some {V = TradeSession} none refl found)),
  (λ p k found. absurd (none-some {V = Entity} none refl found)),
)
Reach-IsSafe (after r step) = Step-IsSafe step (Reach-IsSafe r)

-- In every state that calls of the five operations reach from one without trades, with changes of bags,
-- entities and IDs in between, where sessions are opened under IDs of no session and less than 2 ^ 62 pieces
-- are offered of an item of which the player has less, sessions and bindings fit
-- together, and LockTradeStage, ExecuteAtomicTradeSwap and CancelTradeSession return without a panic.
pub reached_operations_return :
    {t : Trading}
    → Reach t
    → (player k : Entity)
    → IsSafe t
      × Returns (lock_trade_stage player t)
      × Returns (execute_swap k t)
      × Returns (cancel_trade_session player t)
reached_operations_return {t} reach player k =
    let safe = Reach-IsSafe reach in
    (
      safe,
      lock_trade_stage_safe t player safe,
      execute_swap_safe t k safe,
      cancel_trade_session_safe t player safe,
    )
