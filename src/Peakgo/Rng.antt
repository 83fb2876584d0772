-- ===== src/Peakgo/Rng.antt =====
-- Random numbers (server/peakgo/rng/rng.go). The generator of math/rand is an argument: its draws, of which
-- a number says how many were made. Floating-point draws and the pool of generators are left out.
use minnsun_s_adventure.Common.{ℕ, ◌+◌, ◌%◌, Option, none, some, ◌==◌, if◌then◌else◌}
use minnsun_s_adventure.Common.Partial.{◌>>=◌}
use minnsun_s_adventure.Common.Int.{ℤ, pos, negsuc, ◌+ℤ◌, ◌-ℤ◌, int64}

abbrev pub Draws : Type 0
Draws = ℕ → ℕ

-- `Intn`: a number below n, which panics where n is not positive.
unfoldable pub intn : Draws → ℤ → ℕ → Option (ℤ × ℕ)
intn draws (pos n) i = if n == 0 then none else some (pos (draws i % n), i + 1)
intn draws (negsuc n) i = none

-- `IntnRange`
unfoldable pub intn_range : Draws → ℤ → ℤ → ℕ → Option (ℤ × ℕ)
unfolding intn
intn_range draws lo hi i = do (n, i') ← intn draws (int64 (hi -ℤ lo)) i; some (int64 (lo +ℤ n), i')
