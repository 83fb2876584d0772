-- ===== src/Peakgo/RateLimit/Budget.antt =====
-- How many packets a connection may send (server/peakgo/ratelimit/ratelimit.go).
use minnsun_s_adventure.Common.{
  ℕ, zero, suc, ◌+◌, ◌-◌, ◌*◌, ◌^◌, ◌≤◌, ◌<◌, ◌≡◌, refl, ap, ◌∙◌, inl, inr, Bool, true, false, List,
  [], ◌∷◌, arith, leb, Bool-cases, max,
}
use minnsun_s_adventure.Common.Int.{ℤ, ◌-ℤ◌}
use minnsun_s_adventure.Peakgo.RateLimit.{
  TokenBucket, LimitConfig, int32, refill_bucket, consume, allow_bucket,
}
use minnsun_s_adventure.Peakgo.RateLimit.Refills.{bucket, refilling, short_is, refill_bucket_is}

-- 1 for a packet that was allowed.
abbrev pub taken : Bool → ℕ
taken true = 1
taken false = 0

-- A sequence of calls at these ticks, and how many were allowed.
abbrev pub run_allows : LimitConfig → List ℕ → TokenBucket → ℕ × TokenBucket
run_allows cfg [] tb = (0, tb)
run_allows cfg (tick ∷ ticks) tb =
    let (allowed, tb') = allow_bucket cfg tick tb in
    let (count, tb'') = run_allows cfg ticks tb' in (taken allowed + count, tb'')

-- No tick is after the last one.
unfoldable pub AreUntil : ℕ → List ℕ → Type 0
AreUntil last [] = Unit
AreUntil last (tick ∷ ticks) = (tick ≤ last) × AreUntil last ticks

module _ (per k m : ℕ) (most : ℤ) (positive : 0 < per) (small : per < 2 ^ 30) (bounded : m < 2 ^ 30)
    (whole : m ≡ k * per) where
  consumed :
      (n at : ℕ)
      → n ≤ m
      → (c : ℕ) × ((consume (bucket n m at)).1 ≡ bucket c m at)
        × (taken (consume (bucket n m at)).0 + c ≡ n)
  unfolding consume int32 ◌-ℤ◌
  consumed zero at le = (0, refl, refl)
  consumed (suc n) at le = (n, ground arith, ground arith)

  -- The refill of any call.
  refilled :
      (n at tick : ℕ)
      → n ≤ m
      → (c : ℕ) × (refill_bucket (refilling per most) tick (bucket n m at)
          ≡ bucket c m (max at tick))
        × (c ≤ m)
        × (c ≤ n + (max at tick - at) * per)
  unfolding refill_bucket
  refilled n at tick le = elim (Bool-cases (leb tick at)) [
    | inl e ↦ (n, rw (refill_bucket, e) (ap (bucket n m) (early e)), le, omega arith)
    | inr e ↦
        let (c, is_c, c_le, c_few) =
          refill_bucket_is per k m most positive small bounded whole n at tick le (short_is at e) in
        (
          c,
          is_c ∙ ap (bucket c m) (late e),
          c_le,
          omega (arith, c_few, ap (λ x. (x - at) * per) (late e)),
        )
  ]
    where
      early : leb tick at ≡ true → at ≡ max at tick
      early h = ground arith

      late : leb tick at ≡ false → tick ≡ max at tick
      late h = ground arith

  -- One call: what it takes and leaves is covered by what was there and what the ticks brought.
  allow_bucket_is :
      (n at tick : ℕ)
      → n ≤ m
      → (c : ℕ) × ((allow_bucket (refilling per most) tick (bucket n m at)).1
          ≡ bucket c m (max at tick))
        × (c ≤ m)
        × (taken (allow_bucket (refilling per most) tick (bucket n m at)).0 + c
            ≤ n + (max at tick - at) * per)
  unfolding allow_bucket
  allow_bucket_is n at tick le =
      let (c, is_c, c_le, c_few) = refilled n at tick le in
      let (d, is_d, sum) = consumed c (max at tick) c_le in
      (
        d,
        ap (λ b. (consume b).1) is_c ∙ is_d,
        omega (arith, sum),
        omega (arith, sum, c_few, ap (λ b. taken (consume b).0) is_c),
      )

  -- A connection whose bucket had n tokens at a tick is allowed at most n packets, and one refill for
  -- every tick since then, until the last tick of its calls; where the burst limit is a multiple of the
  -- refill, and both are below 2^30.
  pub run_allows_budget :
      (ticks : List ℕ) (n at last : ℕ)
      → n ≤ m
      → at ≤ last
      → AreUntil last ticks
      → (run_allows (refilling per most) ticks (bucket n m at)).0 ≤ n + (last - at) * per
  unfolding AreUntil
  run_allows_budget [] n at last le before until = omega arith
  run_allows_budget (tick ∷ ticks) n at last le before (now, until) =
      let (c, is_c, c_le, spent) = allow_bucket_is n at tick le in
      let rest = run_allows_budget ticks c (max at tick) last c_le (omega arith) until in
      omega (
        arith,
        spent,
        rest,
        ap (λ b. (run_allows (refilling per most) ticks b).0) is_c,
        split (max at tick) at last (omega arith) (omega arith),
      )
    where
      split : (b a l : ℕ) → a ≤ b → b ≤ l → (b - a) * per + (l - b) * per ≡ (l - a) * per
      split b a l h h' = grind arith
