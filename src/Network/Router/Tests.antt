-- ===== src/Network/Router/Tests.antt =====
-- Runs of the loop that reads packets (server/network/router.go).
use minnsun_s_adventure.Common.{◌≡◌, refl, List, [], ◌∷◌}
use minnsun_s_adventure.Common.Int.{pos}
use minnsun_s_adventure.Peakgo.Codec.{Bytes}
use minnsun_s_adventure.Peakgo.Netio.{eof, new_bytes_pool}
use minnsun_s_adventure.Peakgo.RateLimit.{
  LimitConfig, RateLimiter, allow, new_rate_limiter, register_connection,
}
use minnsun_s_adventure.Network.Router.{Session}
use minnsun_s_adventure.Network.Router.Streams.{admitted}

-- Two packets for each connection, one for a tick.
abbrev limits : LimitConfig
limits = record { max_tokens = pos 2; refill_per_tick = pos 1 }

abbrev limiter : RateLimiter
limiter = register_connection limits 1 new_rate_limiter

abbrev bodies : List Bytes
bodies = (3 ∷ 9 ∷ []) ∷ [] ∷ (7 ∷ 0 ∷ 0 ∷ 0 ∷ 1 ∷ []) ∷ (5 ∷ []) ∷ []

-- The frames in pieces that cut through headers and payloads.
abbrev session : Session
session = record {
  conn = record {
    pieces =
        (0 ∷ [])
        ∷ (2 ∷ 3 ∷ [])
        ∷ []
        ∷ (9 ∷ 0 ∷ 0 ∷ 0 ∷ [])
        ∷ (5 ∷ 7 ∷ 0 ∷ 0 ∷ 0 ∷ [])
        ∷ (1 ∷ 0 ∷ 1 ∷ 5 ∷ 0 ∷ [])
        ∷ [];
    ending = eof;
  };
  pool = new_bytes_pool 4;
  limiter = limiter;
}

-- What comes after the QUIT is not dispatched, though one packet more is in the budget.
nothing_after_quit :
    admitted limits 1 (λ k. k) 0 limiter bodies
    ≡ record { opcode = 3; payload = 9 ∷ [] } ∷ record { opcode = 7; payload = [] } ∷ []
unfolding allow
nothing_after_quit = refl

-- The third packet is over the budget of its tick.
third_is_limited :
    admitted limits 1 (λ k. 0) 0 limiter ((3 ∷ 9 ∷ []) ∷ (4 ∷ []) ∷ (5 ∷ []) ∷ [])
    ≡ record { opcode = 3; payload = 9 ∷ [] } ∷ record { opcode = 4; payload = [] } ∷ []
unfolding allow
third_is_limited = refl
