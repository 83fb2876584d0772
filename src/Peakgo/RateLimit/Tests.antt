-- ===== src/Peakgo/RateLimit/Tests.antt =====
-- Runs of the rate limiter (server/peakgo/ratelimit/ratelimit.go).
use minnsun_s_adventure.Common.{◌+◌, ◌-◌, ◌*◌, ◌≤◌, refl, [], ◌∷◌, arith}
use minnsun_s_adventure.Common.Int.{pos}
use minnsun_s_adventure.Peakgo.RateLimit.Refills.{bucket, refilling}
use minnsun_s_adventure.Peakgo.RateLimit.Budget.{run_allows, AreUntil, run_allows_budget}

four_calls-AreUntil : AreUntil 12 (10 ∷ 10 ∷ 12 ∷ 11 ∷ [])
unfolding AreUntil
four_calls-AreUntil = (omega arith, (omega arith, (omega arith, (omega arith, tt))))

-- The default configuration: 60 tokens, 2 for every tick.
run_allows_budget_example :
    (run_allows (refilling 2 (pos 60)) (10 ∷ 10 ∷ 12 ∷ 11 ∷ []) (bucket 0 60 9)).0
    ≤ 0 + (12 - 9) * 2
run_allows_budget_example =
    run_allows_budget 2 30 60 (pos 60) (omega arith) (omega arith) (omega arith) refl
      (10 ∷ 10 ∷ 12 ∷ 11 ∷ []) 0 9 12 (omega arith) (omega arith) four_calls-AreUntil
