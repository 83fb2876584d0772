-- ===== src/Peakgo/RateLimit/Refills.antt =====
-- The refill of a bucket (server/peakgo/ratelimit/ratelimit.go).
use native.Mathlib.Nat.{mul-div_cancel}
use minnsun_s_adventure.Common.{
  ℕ, ◌+◌, ◌-◌, ◌*◌, ◌/◌, ◌%◌, ◌^◌, ◌≤◌, ◌<◌, ◌≡◌, refl, ap, ◌∙◌, inl, inr, true, false, arith, leb,
  Bool-cases,
}
use minnsun_s_adventure.Common.Int.{ℤ, pos, ◌+ℤ◌, ◌*ℤ◌, ltb_ℤ}
use minnsun_s_adventure.Peakgo.RateLimit.{
  TokenBucket, LimitConfig, int32, uint64, per_tick, refill, capped, refill_bucket,
}

-- A bucket with n of at most m tokens, last refilled at a tick.
abbrev pub bucket : ℕ → ℕ → ℕ → TokenBucket
bucket n m tick = record { tokens = pos n; max_tokens = pos m; refill_tick = tick }

-- A configuration with a positive refill.
abbrev pub refilling : ℕ → ℤ → LimitConfig
refilling per most = record { max_tokens = most; refill_per_tick = pos per }

int32_small : (n : ℕ) → n < 2 ^ 31 → int32 (pos n) ≡ pos n
unfolding int32
int32_small n h = ground arith

uint64_small : (n : ℕ) → n < 2 ^ 30 → uint64 (pos n) ≡ n
unfolding uint64
uint64_small n h = omega arith

times : (a b : ℕ) → pos a *ℤ pos b ≡ pos (a * b)
unfolding ◌*ℤ◌
times a b = ground arith

enough_is : {k : ℕ} (e : ℕ) → leb k e ≡ true → k ≤ e
enough_is e h = ground arith

pub short_is : {k : ℕ} (e : ℕ) → leb k e ≡ false → e < k
short_is e h = ground arith

module _ (per k m : ℕ) (most : ℤ) (positive : 0 < per) (small : per < 2 ^ 30) (bounded : m < 2 ^ 30)
    (whole : m ≡ k * per) where
  per_tick_is : per_tick (refilling per most) ≡ pos per
  per_tick_is = ground arith

  ticks_to_fill : m / per ≡ k
  ticks_to_fill = ap (λ x. x / per) whole ∙ mul-div_cancel k positive

  quotient_is : uint64 (pos m) / uint64 (pos per) ≡ k
  unfolding uint64
  quotient_is =
      ap (λ x. x / (per % 2 ^ 64)) (omega arith) ∙ ap (λ x. m / x) (omega arith) ∙ ticks_to_fill

  small_factor : (e : ℕ) → e * per < 2 ^ 30 → e < 2 ^ 31
  small_factor e h = grind arith

  product_is : (e : ℕ) → e * per < 2 ^ 30 → int32 (int32 (pos e) *ℤ pos per) ≡ pos (e * per)
  unfolding int32 ◌*ℤ◌
  product_is e h =
      ap (λ x. int32 (x *ℤ pos per)) (int32_small e (small_factor e h))
      ∙ ap int32 (times e per)
      ∙ int32_small (e * per) (omega arith)

  below : (e : ℕ) → e < k → e * per < m
  below e h = grind arith

  over : (e : ℕ) → k ≤ e → m ≤ e * per
  over e h = grind arith

  refill_is :
      (n at e : ℕ)
      → (r : ℕ) × (refill (refilling per most) (bucket n m at) e ≡ pos r) × (r ≤ m) × (r ≤ e * per)
  unfolding refill
  refill_is n at e = elim (Bool-cases (leb k e)) [
    | inl enough ↦ (
      m,
      rw (refill, per_tick_is, quotient_is, enough) refl,
      omega arith,
      over e (enough_is e enough),
    )
    | inr short ↦ (
      e * per,
      rw (refill, per_tick_is, quotient_is, short)
          (product_is e (omega (arith, below e (short_is e short)))),
      omega (arith, below e (short_is e short)),
      omega arith,
    )
  ]

  sum_is : (a b : ℕ) → a + b < 2 ^ 31 → int32 (pos a +ℤ pos b) ≡ pos (a + b)
  unfolding int32 ◌+ℤ◌
  sum_is a b h = ground arith

  capped_is : (a : ℕ) → (c : ℕ) × (capped (pos m) (pos a) ≡ pos c) × (c ≤ m) × (c ≤ a)
  capped_is a = elim (Bool-cases (ltb_ℤ (pos m) (pos a))) [
    | inl e ↦ (m, rw e refl, omega arith, ground arith)
    | inr e ↦ (a, rw e refl, ground arith, omega arith)
  ]

  pub refill_bucket_is :
      (n at tick : ℕ)
      → n ≤ m
      → at < tick
      → (c : ℕ) × (refill_bucket (refilling per most) tick (bucket n m at) ≡ bucket c m tick)
        × (c ≤ m)
        × (c ≤ n + (tick - at) * per)
  unfolding refill_bucket
  refill_bucket_is n at tick le later =
      let (r, is_r, r_le, r_few) = refill_is n at (tick - at) in
      let (c, is_c, c_le, c_few) = capped_is (n + r) in
      (
        c,
        rw (refill_bucket, not_yet tick at later)
            (ap (λ x. record { tokens = x; max_tokens = pos m; refill_tick = tick })
              (ap (λ x. capped (pos m) (int32 (pos n +ℤ x))) is_r
                ∙ ap (capped (pos m)) (sum_is n r (omega arith))
                ∙ is_c)),
        c_le,
        omega arith,
      )
    where
      not_yet : (tick at : ℕ) → at < tick → leb tick at ≡ false
      not_yet tick at h = ground arith

-- A refill gives more tokens than the elapsed ticks' share where the elapsed ticks reach the quotient
-- of the burst limit and the refill, rounded down, and their share is below the burst limit.
pub refill_exceeds :
    (per m n at e : ℕ) (most : ℤ)
    → 0 < per
    → per < 2 ^ 30
    → m < 2 ^ 30
    → m / per ≤ e
    → e * per < m
    → (r : ℕ) × (refill (refilling per most) (bucket n m at) e ≡ pos r) × (e * per < r)
unfolding refill
refill_exceeds per m n at e most positive small bounded enough short =
    (m, rw (refill, per_is, quotient, reached) refl, short)
  where
    per_is : per_tick (refilling per most) ≡ pos per
    per_is = ground arith

    quotient : uint64 (pos m) / uint64 (pos per) ≡ m / per
    quotient =
        ap (λ x. x / uint64 (pos per)) (uint64_small m (omega arith))
        ∙ ap (λ x. m / x) (uint64_small per (omega arith))

    reached : leb (m / per) e ≡ true
    reached = ground arith
