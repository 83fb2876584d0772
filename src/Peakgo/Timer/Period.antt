-- ===== src/Peakgo/Timer/Period.antt =====
-- How often `Tick` of server/peakgo/timer/timer.go fires.
use minnsun_s_adventure.Common.{
  ℕ, zero, suc, ◌+◌, ◌/◌, ◌%◌, ◌^◌, ◌<◌, ◌≡◌, sym, ap, true, false, arith, if◌then◌else◌, inl, inr,
  Eq-cases,
}
use minnsun_s_adventure.Common.Int.{pos}
use minnsun_s_adventure.Peakgo.Timer.{TickTimer, tick}

-- A timer with natural fields.
abbrev pub timer_at : ℕ → ℕ → TickTimer
timer_at k c = record { cur = pos k; cooldown = pos c }

-- n calls of `Tick`, and how many of them fired.
pub run_ticks : ℕ → TickTimer → TickTimer × ℕ
run_ticks zero t = (t, 0)
run_ticks (suc n) t =
    let (t', fired) = tick t in
    let (t'', count) = run_ticks n t' in (t'', if fired then suc count else count)

pub tick_below :
    (k c : ℕ) → c < 2 ^ 63 → k + 1 < c → tick (timer_at k c) ≡ (timer_at (k + 1) c, false)
unfolding tick
tick_below k c hc h = ground arith

pub tick_fires : (k c : ℕ) → c < 2 ^ 63 → k + 1 ≡ c → tick (timer_at k c) ≡ (timer_at 0 c, true)
unfolding tick
tick_fires k c hc h = ground arith

both : (c a b p q : ℕ) → a ≡ b → p ≡ q → ◌≡◌ {A = TickTimer × ℕ} (timer_at a c, p) (timer_at b c, q)
both c a b p q e f = cc

small_mod : (k c : ℕ) → k < c → (k + 0) % c ≡ k
small_mod k c h = grind arith

small_div : (k c : ℕ) → k < c → (k + 0) / c ≡ 0
small_div k c h = grind arith

wrap_mod : (n k c : ℕ) → k + 1 ≡ c → (0 + n) % c ≡ (k + suc n) % c
wrap_mod n k c h = grind arith

wrap_div : (n k c : ℕ) → k + 1 ≡ c → suc ((0 + n) / c) ≡ (k + suc n) / c
wrap_div n k c h = grind arith

-- From a counter k below the cooldown c, n ticks fire (k + n) / c times and leave (k + n) % c.
pub run_ticks_period :
    (n k c : ℕ)
    → k < c
    → c < 2 ^ 63
    → run_ticks n (timer_at k c) ≡ (timer_at ((k + n) % c) c, (k + n) / c)
unfolding run_ticks
run_ticks_period zero k c h hc = both c k _ 0 _ (sym (small_mod k c h)) (sym (small_div k c h))
run_ticks_period (suc n) k c h hc = elim (Eq-cases (k + 1) c) [
  | inl end ↦
      rw (tick_fires k c hc end, run_ticks_period n 0 c (omega arith) hc)
        (both c _ _ _ _ (wrap_mod n k c end) (wrap_div n k c end))
  | inr more ↦
      rw (tick_below k c hc (omega arith), run_ticks_period n (k + 1) c (omega arith) hc)
        (both c _ _ _ _ (ap (λ m. m % c) (omega arith)) (ap (λ m. m / c) (omega arith)))
]
