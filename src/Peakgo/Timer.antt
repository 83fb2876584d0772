-- ===== src/Peakgo/Timer.antt =====
-- `TickTimer` of server/peakgo/timer/timer.go, with Go's int as a wrapped 64-bit integer.
pub mod Period
mod Tests
use minnsun_s_adventure.Common.{ℕ, suc, Bool, true, false, if◌then◌else◌}
use minnsun_s_adventure.Common.Int.{ℤ, pos, ◌+ℤ◌, ◌-ℤ◌, ltb_ℤ, leb_ℤ, int64}

pub record TickTimer : Type 0 where
  pub cur : ℤ
  pub cooldown : ℤ

-- `if cooldown < 1 { cooldown = 1 }`
abbrev pub at_least_one : ℤ → ℤ
at_least_one cooldown = if ltb_ℤ cooldown (pos 1) then pos 1 else cooldown

-- `NewTickTimer`
unfoldable pub new_tick_timer : ℤ → TickTimer
new_tick_timer cooldown = record { cur = pos 0; cooldown = at_least_one cooldown }

-- `Advance`
unfoldable pub advance : TickTimer → TickTimer
unfolding int64 ◌+ℤ◌
advance t = record t { cur = int64 (t.cur +ℤ pos 1) }

-- `Ready`
unfoldable pub ready : TickTimer → Bool
ready t = leb_ℤ t.cooldown t.cur

-- `AdvanceAndCheck`
unfoldable pub advance_and_check : TickTimer → TickTimer × Bool
unfolding advance ready
advance_and_check t = let t' = advance t in (t', ready t')

-- `Tick`
unfoldable pub tick : TickTimer → TickTimer × Bool
unfolding advance
tick t =
    let t' = advance t in
    if ltb_ℤ t'.cur t'.cooldown then (t', false) else (record t' { cur = pos 0 }, true)

-- `Reset`
unfoldable pub reset : TickTimer → TickTimer
reset t = record t { cur = pos 0 }

-- `SetCooldown`
unfoldable pub set_cooldown : ℤ → TickTimer → TickTimer
set_cooldown cooldown t = record t { cooldown = at_least_one cooldown }

-- `Remaining`
unfoldable pub remaining : TickTimer → ℤ
unfolding ◌-ℤ◌ int64
remaining t = let r = int64 (t.cooldown -ℤ t.cur) in if leb_ℤ r (pos 0) then pos 0 else r
