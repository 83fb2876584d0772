-- ===== src/Peakgo/Breaker.antt =====
-- The circuit breaker (server/peakgo/circuitbreaker/circuitbreaker.go). Times are numbers that the
-- calls are given; the operation and the write-ahead log are parameters: what each attempt and the
-- append return.
pub mod Openings
mod Tests
use minnsun_s_adventure.Common.{ℕ, zero, suc, ◌-◌, Bool, true, false, ltb, if◌then◌else◌}
use minnsun_s_adventure.Common.Int.{ℤ, pos, ◌+ℤ◌, leb_ℤ, int64}

pub data BreakerState : Type 0 where
  closed opened half_open : BreakerState

-- The fields of `Config` that decide on the state.
pub record BreakerConfig : Type 0 where
  pub failure_threshold : ℤ
  pub success_threshold : ℤ
  pub timeout : ℕ
  pub max_retries : ℕ

pub record CircuitBreaker : Type 0 where
  pub state : BreakerState
  pub failures : ℤ
  pub successes : ℤ
  pub last_failure_time : ℕ
  pub cfg : BreakerConfig

-- `NewCircuitBreaker`
abbrev pub new_circuit_breaker : BreakerConfig → CircuitBreaker
new_circuit_breaker cfg = record {
  state = closed;
  failures = pos 0;
  successes = pos 0;
  last_failure_time = 0;
  cfg = cfg;
}

-- `ready`, at a time
unfoldable pub is_ready : ℕ → CircuitBreaker → Bool × CircuitBreaker
is_ready now cb = elim cb.state [
  | closed ↦ (true, cb)
  | opened ↦
      if ltb cb.cfg.timeout (now - cb.last_failure_time)
      then (true, record cb { state = half_open })
      else (false, cb)
  | half_open ↦ (true, cb)
]

-- `recordFailure`, at a time
unfoldable pub record_failure : ℕ → CircuitBreaker → CircuitBreaker
unfolding int64 ◌+ℤ◌
record_failure now cb =
    let cb' = record cb { failures = int64 (cb.failures +ℤ pos 1); last_failure_time = now } in
    elim cb.state [
      | closed ↦
          if leb_ℤ cb.cfg.failure_threshold cb'.failures then record cb' { state = opened } else cb'
      | opened ↦ cb'
      | half_open ↦ record cb' { state = opened; failures = pos 1 }
    ]

-- `recordSuccess`
unfoldable pub record_success : CircuitBreaker → CircuitBreaker
unfolding int64 ◌+ℤ◌
record_success cb =
    let cb' = record cb { successes = int64 (cb.successes +ℤ pos 1); failures = pos 0 } in
    elim cb.state [
      | closed ↦ cb'
      | opened ↦ cb'
      | half_open ↦
          if leb_ℤ cb.cfg.success_threshold cb'.successes
          then record cb' { state = closed; successes = pos 0 }
          else cb'
    ]

-- What `Execute` returns: the operation ran, its error was queued, or queued without a run, or the
-- queue failed too.
pub data ExecuteResult : Type 0 where
  done failed_queued refused_queued failed_dropped refused_dropped : ExecuteResult

-- The loop over the attempts: whether one succeeds. Attempt i ends at `clock i`, and `run i` says
-- whether it succeeds.
abbrev pub attempts :
    (run : ℕ → Bool) (clock : ℕ → ℕ) → ℕ → ℕ → CircuitBreaker → Bool × CircuitBreaker
attempts run clock i zero cb = (false, cb)
attempts run clock i (suc left) cb =
    let rest = attempts run clock (suc i) left (record_failure (clock i) cb) in
    if run i then (true, record_success cb) else rest

-- `Execute`, at a time
unfoldable pub execute :
    (run : ℕ → Bool) (clock : ℕ → ℕ) (append : Bool)
    → ℕ
    → CircuitBreaker
    → ExecuteResult × CircuitBreaker
unfolding is_ready
execute run clock append now cb =
    let (ok, cb') = is_ready now cb in
    let (success, cb'') = attempts run clock 1 cb'.cfg.max_retries cb' in
    if ok
    then (if success
        then (done, cb'')
        else (if append then failed_queued else failed_dropped, cb''))
    else (if append then refused_queued else refused_dropped, cb')
