-- ===== src/Peakgo/RateLimit.antt =====
-- The rate limiter (server/peakgo/ratelimit/ratelimit.go). A call runs alone, so that each of its
-- compare-and-swap loops succeeds at once. Connections are numbers, and the configuration is an
-- argument.
pub mod Refills
pub mod Budget
mod Tests
use minnsun_s_adventure.Common.{
  ℕ, ◌+◌, ◌-◌, ◌/◌, ◌%◌, ◌^◌, Bool, true, false, Option, none, some, leb, ltb, if◌then◌else◌,
}
use minnsun_s_adventure.Common.Int.{ℤ, pos, negsuc, ◌+ℤ◌, ◌-ℤ◌, ◌*ℤ◌, ltb_ℤ, leb_ℤ}
use minnsun_s_adventure.Common.Table.{Table, empty, insert, erase}

-- The int32 that the integer z wraps to, and the uint64.
unfoldable pub int32 : ℤ → ℤ
int32 (pos n) = let r = n % 2 ^ 32 in if ltb r (2 ^ 31) then pos r else negsuc (2 ^ 32 - r - 1)
int32 (negsuc n) = let r = n % 2 ^ 32 in if ltb r (2 ^ 31) then negsuc r else pos (2 ^ 32 - r - 1)

unfoldable pub uint64 : ℤ → ℕ
uint64 (pos n) = n % 2 ^ 64
uint64 (negsuc n) = 2 ^ 64 - 1 - n % 2 ^ 64

-- `TokenBucket`: int32 tokens, and the uint64 tick of the last refill.
pub record TokenBucket : Type 0 where
  pub tokens : ℤ
  pub max_tokens : ℤ
  pub refill_tick : ℕ

-- The fields of the configuration that the limiter reads.
pub record LimitConfig : Type 0 where
  pub max_tokens : ℤ
  pub refill_per_tick : ℤ

-- `RateLimiter`
abbrev pub RateLimiter : Type 0
RateLimiter = Table TokenBucket

-- `NewRateLimiter`, `RegisterConnection` and `UnregisterConnection`
abbrev pub new_rate_limiter : RateLimiter
new_rate_limiter = empty

abbrev pub register_connection : LimitConfig → ℕ → RateLimiter → RateLimiter
register_connection cfg conn rl =
    insert conn (record { tokens = cfg.max_tokens; max_tokens = cfg.max_tokens; refill_tick = 0 })
      rl

abbrev pub unregister_connection : ℕ → RateLimiter → RateLimiter
unregister_connection conn rl = erase conn rl

-- `if refillPerTick <= 0 { refillPerTick = 1 }`
abbrev pub per_tick : LimitConfig → ℤ
per_tick cfg = if leb_ℤ cfg.refill_per_tick (pos 0) then pos 1 else cfg.refill_per_tick

-- The tokens of a number of ticks, at most `maxTokens`.
unfoldable pub refill : LimitConfig → TokenBucket → ℕ → ℤ
unfolding int32 uint64 ◌*ℤ◌
refill cfg tb elapsed =
    if leb (uint64 tb.max_tokens / uint64 (per_tick cfg)) elapsed
    then tb.max_tokens
    else int32 (int32 (pos elapsed) *ℤ per_tick cfg)

-- `if newTokens > tb.maxTokens { newTokens = tb.maxTokens }`
abbrev pub capped : ℤ → ℤ → ℤ
capped max n = if ltb_ℤ max n then max else n

-- The refill of a bucket at a tick.
unfoldable pub refill_bucket : LimitConfig → ℕ → TokenBucket → TokenBucket
unfolding refill int32 ◌+ℤ◌
refill_bucket cfg tick tb = if leb tick tb.refill_tick then tb else record tb {
  tokens = capped tb.max_tokens (int32 (tb.tokens +ℤ refill cfg tb (tick - tb.refill_tick)));
  refill_tick = tick;
}

-- One token is taken, where there is one.
unfoldable pub consume : TokenBucket → Bool × TokenBucket
unfolding int32 ◌-ℤ◌
consume tb =
    if ltb_ℤ tb.tokens (pos 1)
    then (false, tb)
    else (true, record tb { tokens = int32 (tb.tokens -ℤ pos 1) })

-- `Allow`, on the bucket of a connection.
unfoldable pub allow_bucket : LimitConfig → ℕ → TokenBucket → Bool × TokenBucket
unfolding refill_bucket consume
allow_bucket cfg tick tb = consume (refill_bucket cfg tick tb)

-- `Allow`: a connection that is not registered may send.
unfoldable pub allow : LimitConfig → ℕ → ℕ → RateLimiter → Bool × RateLimiter
unfolding allow_bucket
allow cfg conn tick rl = elim (rl conn) [
  | none ↦ (true, rl)
  | some tb ↦ let (allowed, tb') = allow_bucket cfg tick tb in (allowed, insert conn tb' rl)
]

-- `Reset`
unfoldable pub reset_connection : LimitConfig → ℕ → RateLimiter → RateLimiter
reset_connection cfg conn rl = elim (rl conn) [
  | none ↦ rl
  | some tb ↦ insert conn (record tb { tokens = cfg.max_tokens; refill_tick = 0 }) rl
]
