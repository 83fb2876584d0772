-- ===== src/Game/Trade/Safety.antt =====
-- No operation of a trade (server/game/trade.go) panics, and each leaves sessions and bindings that fit
-- together.
use minnsun_s_adventure.Common.{
  ◌≡◌, refl, ap, ◌∙◌, inl, inr, Bool, true, Option, some, ◌==◌, if◌then◌else◌, Option-cases,
  Bool-cases,
}
use minnsun_s_adventure.Common.Table.{insert, erase}
use minnsun_s_adventure.Ecs.Entity.{Entity}
use minnsun_s_adventure.Game.Trade.{
  TradeOffer, TradeSession, Trading, TradeReply, offer_locked, trade_completed, trade_cancelled,
  not_trading, already_locked, no_session, inventories_invalid, a_insufficient, b_insufficient,
  my_offer, opponent_offer, with_my_offer, cancel_trade_session, execute_swap, lock_trade_stage,
  abort_with, lacks_some, swap,
}
use minnsun_s_adventure.Game.Trade.Bags.{IsOffer}
use minnsun_s_adventure.Game.Trade.Sessions.{
  Pairs, IsConsistent, close-IsConsistent, update-IsConsistent,
}

abbrev pub IsSafe : Trading → Type 0
IsSafe t = IsConsistent t.sessions t.bindings

-- The operation returns, and leaves a consistent state.
abbrev pub Returns : Option (TradeReply × Trading) → Type 0
Returns o = (r : TradeReply) × (t : Trading) × (o ≡ some (r, t)) × IsSafe t

pub my_offer-IsOffer :
    (p : Entity) (s : TradeSession)
    → IsOffer s.offer_a.item_ids
    → IsOffer s.offer_b.item_ids
    → IsOffer (my_offer p s).item_ids
my_offer-IsOffer p s a b = elim (Bool-cases (s.offer_a.player_id == p)) [
  | inl e ↦ rw e a
  | inr e ↦ rw e b
]

module _ (t : Trading) (p k : Entity) (s : TradeSession) (safe : IsSafe t)
    (here : t.sessions k ≡ some s) where
  -- The session with the offer of one player changed.
  pub change-IsSafe :
      (o : TradeOffer)
      → o.player_id ≡ (my_offer p s).player_id
      → IsOffer o.item_ids
      → IsConsistent (insert k (with_my_offer p o s) t.sessions) t.bindings
  unfolding IsConsistent Pairs
  change-IsSafe o same ok =
      let (_, _, _, oa, ob) = safe.0 k s here in
      let which : Bool → Entity = λ x. (if x then s.offer_a else s.offer_b).player_id in
      elim (Bool-cases (s.offer_a.player_id == p)) [
        | inl e ↦ rw e (
            update-IsConsistent t.sessions t.bindings k s (record s { offer_a = o }) safe here
              (same ∙ ap which e) refl ok ob)
        | inr e ↦ rw e (
            update-IsConsistent t.sessions t.bindings k s (record s { offer_b = o }) safe here refl
              (same ∙ ap which e) oa ok)
      ]

  pub close-Returns :
      (player : Entity) → t.bindings player ≡ some k → Returns (cancel_trade_session player t)
  unfolding cancel_trade_session
  close-Returns player bound = (
    trade_cancelled,
    record t {
      bindings = erase s.offer_b.player_id (erase s.offer_a.player_id t.bindings);
      sessions = erase k t.sessions;
    },
    rw (cancel_trade_session, bound, here) refl,
    close-IsConsistent t.sessions t.bindings k s safe here,
  )

-- From a consistent state, `CancelTradeSession` returns, and leaves one.
pub cancel_trade_session_safe :
    (t : Trading) (player : Entity) → IsSafe t → Returns (cancel_trade_session player t)
unfolding IsConsistent cancel_trade_session
cancel_trade_session_safe t player safe = elim (Option-cases (t.bindings player)) [
  | inl e ↦ (not_trading, t, rw (cancel_trade_session, e) refl, safe)
  | inr (k, e) ↦
      let (s, here, _) = safe.1 player k e in close-Returns t player k s safe here player e
]

abort-Returns :
    (t : Trading) (player : Entity) (r : TradeReply) → IsSafe t → Returns (abort_with r player t)
abort-Returns t player r safe =
    let (r', t', e, safe') = cancel_trade_session_safe t player safe in
    (r, t', rw (abort_with, e) refl, safe')

-- From a consistent state, `ExecuteAtomicTradeSwap` returns, and leaves one.
pub execute_swap_safe : (t : Trading) (k : Entity) → IsSafe t → Returns (execute_swap k t)
unfolding execute_swap
execute_swap_safe t k safe = elim (Option-cases (t.sessions k)) [
  | inl e ↦ (no_session, t, rw (execute_swap, e) refl, safe)
  | inr (s, here) ↦ elim (Option-cases (t.inventories s.offer_a.player_id)) [
    | inl e ↦
        let (r', t', e', safe') = abort-Returns t s.offer_a.player_id inventories_invalid safe in
        (r', t', rw (execute_swap, here, e) e', safe')
    | inr (inv_a, ea) ↦ elim (Option-cases (t.inventories s.offer_b.player_id)) [
      | inl e ↦
          let (r', t', e', safe') = abort-Returns t s.offer_a.player_id inventories_invalid safe in
          (r', t', rw (execute_swap, here, ea, e) e', safe')
      | inr (inv_b, eb) ↦ elim (Bool-cases (lacks_some s.offer_a.item_ids inv_a.items)) [
        | inl e ↦
            let (r', t', e', safe') = abort-Returns t s.offer_a.player_id a_insufficient safe in
            (r', t', rw (execute_swap, here, ea, eb, e) e', safe')
        | inr la ↦ elim (Bool-cases (lacks_some s.offer_b.item_ids inv_b.items)) [
          | inl e ↦
              let (r', t', e', safe') = abort-Returns t s.offer_a.player_id b_insufficient safe in
              (r', t', rw (execute_swap, here, ea, eb, la, e) e', safe')
          | inr lb ↦ (
            trade_completed,
            swap k s inv_a inv_b t,
            rw (execute_swap, here, ea, eb, la, lb) refl,
            close-IsConsistent t.sessions t.bindings k s safe here,
          )
        ]
      ]
    ]
  ]
]

-- From a consistent state, `LockTradeStage` returns, and leaves one.
pub lock_trade_stage_safe :
    (t : Trading) (player : Entity) → IsSafe t → Returns (lock_trade_stage player t)
unfolding IsConsistent Pairs lock_trade_stage
lock_trade_stage_safe t player safe = elim (Option-cases (t.bindings player)) [
  | inl e ↦ (not_trading, t, rw (lock_trade_stage, e) refl, safe)
  | inr (k, bound) ↦
      let (s, here, _) = safe.1 player k bound in
      let (_, _, _, oa, ob) = safe.0 k s here in
      let mine = my_offer player s in
      let locked = record t {
        sessions = insert k (with_my_offer player (record mine { is_locked = true }) s) t.sessions;
      } in
      let safe' =
        change-IsSafe t player k s safe here (record mine { is_locked = true }) refl
          (my_offer-IsOffer player s oa ob) in
      elim (Bool-cases mine.is_locked) [
        | inl e ↦ (already_locked, t, rw (lock_trade_stage, bound, here, e) refl, safe)
        | inr e ↦ elim (Bool-cases (opponent_offer player s).is_locked) [
          | inl f ↦
              let (r', t', e', safe'') = execute_swap_safe locked k safe' in
              (r', t', rw (lock_trade_stage, bound, here, e, f) e', safe'')
          | inr f ↦ (offer_locked, locked, rw (lock_trade_stage, bound, here, e, f) refl, safe')
        ]
      ]
]
