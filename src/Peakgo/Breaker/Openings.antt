-- ===== src/Peakgo/Breaker/Openings.antt =====
-- When the circuit breaker (server/peakgo/circuitbreaker/circuitbreaker.go) opens and closes.
use minnsun_s_adventure.Common.{
  ℕ, ◌+◌, ◌-◌, ◌^◌, ◌≤◌, ◌<◌, ◌≡◌, refl, sym, ap, ◌∙◌, Bool, true, false, List, [], ◌∷◌, arith,
  if◌then◌else◌, length, ltb, leb,
}
use minnsun_s_adventure.Common.Int.{ℤ, pos, ◌+ℤ◌, leb_ℤ, int64}
use minnsun_s_adventure.Peakgo.Breaker.{
  BreakerState, closed, opened, half_open, BreakerConfig, CircuitBreaker, is_ready, record_failure,
  record_success, execute, refused_queued, refused_dropped,
}

-- A breaker with natural counters.
abbrev pub breaker : BreakerState → ℕ → ℕ → ℕ → BreakerConfig → CircuitBreaker
breaker state f s last cfg = record {
  state = state;
  failures = pos f;
  successes = pos s;
  last_failure_time = last;
  cfg = cfg;
}

abbrev pub run_failures : List ℕ → CircuitBreaker → CircuitBreaker
run_failures [] cb = cb
run_failures (now ∷ times) cb = run_failures times (record_failure now cb)

abbrev pub last_of : ℕ → List ℕ → ℕ
last_of now [] = now
last_of now (t ∷ times) = last_of t times

one_more : (n : ℕ) → n < 2 ^ 62 → int64 (pos n +ℤ pos 1) ≡ pos (n + 1)
unfolding int64 ◌+ℤ◌
one_more n h = ground arith

-- The test of a counter against its threshold.
reaches :
    (limit : ℤ) (t n : ℕ)
    → limit ≡ pos t
    → n < 2 ^ 62
    → leb_ℤ limit (int64 (pos n +ℤ pos 1)) ≡ leb t (n + 1)
reaches limit t n e h =
    ap (λ x. leb_ℤ x (int64 (pos n +ℤ pos 1))) e
    ∙ ap (leb_ℤ (pos t)) (one_more n h)
    ∙ ap (λ x. leb x (n + 1 + 0)) (omega arith)
    ∙ ap (leb t) (omega arith)

module _ (cfg : BreakerConfig) (threshold : ℕ)
    (is_threshold : cfg.failure_threshold ≡ pos threshold) (small : threshold < 2 ^ 62) where
  not_reached : (n : ℕ) → n < threshold → leb threshold n ≡ false
  not_reached n h = ground arith

  failure_is :
      (f s last now : ℕ)
      → f < threshold
      → record_failure now (breaker closed f s last cfg)
        ≡ breaker (if leb threshold (f + 1) then opened else closed) (f + 1) s now cfg
  unfolding record_failure
  failure_is f s last now h =
      let step : Bool → ℤ → CircuitBreaker = λ b x.
        if b
        then record {
          state = opened;
          failures = x;
          successes = pos s;
          last_failure_time = now;
          cfg = cfg;
        }
        else record {
          state = closed;
          failures = x;
          successes = pos s;
          last_failure_time = now;
          cfg = cfg;
        } in
      ap (λ b. step b (int64 (pos f +ℤ pos 1)))
        (reaches cfg.failure_threshold threshold f is_threshold (omega arith))
      ∙ ap (step (leb threshold (f + 1))) (one_more f (omega arith))
      ∙ moved (leb threshold (f + 1))
    where
      moved :
          (b : Bool)
          → (if b
              then record {
                state = opened;
                failures = pos (f + 1);
                successes = pos s;
                last_failure_time = now;
                cfg = cfg;
              }
              else record {
                state = closed;
                failures = pos (f + 1);
                successes = pos s;
                last_failure_time = now;
                cfg = cfg;
              })
            ≡ breaker (if b then opened else closed) (f + 1) s now cfg
      moved true = refl
      moved false = refl

  -- A closed breaker with f recorded failures stays closed for fewer failures in a row than are missing
  -- to the threshold, and is open, from the time of the last of them, after exactly that many.
  pub failures_open :
      (times : List ℕ) (f s last : ℕ)
      → f + length times ≤ threshold
      → f < threshold
      → run_failures times (breaker closed f s last cfg)
        ≡ breaker
            (if leb threshold (f + length times) then opened else closed)
            (f + length times)
            s
            (last_of last times)
            cfg
  failures_open [] f s last fits more =
      ap (λ b. breaker (if b then opened else closed) f s last cfg) (sym (not_reached f more))
      ∙ ap (λ n. breaker (if leb threshold n then opened else closed) n s last cfg) (omega arith)
  failures_open (now ∷ []) f s last fits more = failure_is f s last now more
  failures_open (now ∷ t ∷ times) f s last fits more =
      ap (run_failures (t ∷ times)) (
        failure_is f s last now more
        ∙ ap (λ b. breaker (if b then opened else closed) (f + 1) s now cfg)
            (not_reached (f + 1) (omega arith)))
      ∙ failures_open (t ∷ times) (f + 1) s now (omega arith) (omega arith)
      ∙ ap (λ n. breaker (if leb threshold n then opened else closed) n s (last_of t times) cfg)
          (omega arith)

-- An open breaker refuses an operation, without a run, until the timeout has passed since the last
-- failure; a refused operation changes nothing.
open_refuses :
    (run : ℕ → Bool) (clock : ℕ → ℕ) (append : Bool) (f s last now : ℕ) (cfg : BreakerConfig)
    → now ≤ last + cfg.timeout
    → execute run clock append now (breaker opened f s last cfg)
      ≡ (if append then refused_queued else refused_dropped, breaker opened f s last cfg)
unfolding execute is_ready
open_refuses run clock append f s last now cfg early = rw (execute, waiting) refl
  where
    waiting : ltb cfg.timeout (now - last) ≡ false
    waiting = ground arith

-- A half-open breaker closes at its first success where successes that were recorded earlier, in
-- whatever state, already come within one of the threshold.
pub half_open_closes_early :
    (n s last now : ℕ) (cfg : BreakerConfig) (t : ℕ)
    → cfg.success_threshold ≡ pos t
    → t ≤ s + 1
    → s < 2 ^ 61
    → last + cfg.timeout < now
    → (record_success (is_ready now (breaker opened n s last cfg)).1).state ≡ closed
unfolding record_success is_ready
half_open_closes_early n s last now cfg t is_t enough small late =
    let readied : Bool → Bool × CircuitBreaker = λ b.
      if b then (true, breaker half_open n s last cfg) else (false, breaker opened n s last cfg) in
    let counted : Bool → CircuitBreaker = λ b.
      if b
      then record {
        state = closed;
        failures = pos 0;
        successes = pos 0;
        last_failure_time = last;
        cfg = cfg;
      }
      else record {
        state = half_open;
        failures = pos 0;
        successes = int64 (pos s +ℤ pos 1);
        last_failure_time = last;
        cfg = cfg;
      } in
    ap (λ b. (record_success (readied b).1).state) over
    ∙ ap (λ b. (counted b).state) (reaches cfg.success_threshold t s is_t (omega arith) ∙ reached)
  where
    over : ltb cfg.timeout (now - last) ≡ true
    over = ground arith

    reached : leb t (s + 1) ≡ true
    reached = ground arith
