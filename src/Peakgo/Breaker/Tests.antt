-- ===== src/Peakgo/Breaker/Tests.antt =====
-- Runs of a circuit breaker (server/peakgo/circuitbreaker/circuitbreaker.go).
use minnsun_s_adventure.Common.{◌≡◌, refl, [], ◌∷◌, arith}
use minnsun_s_adventure.Common.Int.{pos}
use minnsun_s_adventure.Peakgo.Breaker.{BreakerConfig, closed, opened}
use minnsun_s_adventure.Peakgo.Breaker.Openings.{breaker, run_failures, failures_open}

-- `DefaultConfig`, with the timeout in seconds.
abbrev default_config : BreakerConfig
default_config = record {
  failure_threshold = pos 5;
  success_threshold = pos 2;
  timeout = 30;
  max_retries = 3;
}

failures_open_example :
    run_failures (10 ∷ 11 ∷ 12 ∷ []) (breaker closed 2 0 0 default_config)
    ≡ breaker opened 5 0 12 default_config
failures_open_example =
    failures_open default_config 5 refl (omega arith) (10 ∷ 11 ∷ 12 ∷ []) 2 0 0 (omega arith)
      (omega arith)
