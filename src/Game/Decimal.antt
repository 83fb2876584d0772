-- ===== src/Game/Decimal.antt =====
-- Decimal numbers in messages: appendInt, appendUint64, itoa32 and itoa64 of server/game/combat.go. A text
-- is its bytes, and none is the panic on a buffer whose places have run out.
pub mod Digits
mod Tests
use minnsun_s_adventure.Common.{
  ℕ, zero, suc, ◌+◌, ◌*◌, ◌/◌, ◌%◌, Bool, true, false, List, [], ◌∷◌, ◌++◌, Option, none, some,
  ◌==◌, if◌then◌else◌,
}
use minnsun_s_adventure.Common.Partial.{◌>>=◌}
use minnsun_s_adventure.Common.Int.{ℤ, pos, ◌-ℤ◌, ltb_ℤ, eqb_ℤ, int64, pos_part}

abbrev pub Bytes : Type 0
Bytes = List ℕ

-- `for v > 0 { i--; b[i] = digits[v%10]; v /= 10 }`: i, and what b holds from i on.
unfoldable pub digits_loop : ℕ → ℕ → Bytes → Option (ℕ × Bytes)
digits_loop zero v b = if v == 0 then some (0, b) else none
digits_loop (suc i) v b =
    let rest = digits_loop i (v / 10) ((48 + v % 10) ∷ b) in
    if v == 0 then some (suc i, b) else rest

-- `i--; b[i] = '-'`
unfoldable pub with_sign : Bool → ℕ × Bytes → Option Bytes
with_sign false (i, b) = some b
with_sign true (zero, b) = none
with_sign true (suc i, b) = some (45 ∷ b)

-- The digits of an unsigned number, in a buffer of 20 bytes: `itoa64`.
unfoldable pub itoa64 : ℕ → Option Bytes
itoa64 v = if v == 0 then some (48 ∷ []) else (do (i, b) ← digits_loop 20 v []; some b)

-- The digits of a signed number, in a buffer of 12 bytes: `itoa32`. A loop on a number that is not
-- positive makes no round.
unfoldable pub itoa32 : ℤ → Option Bytes
unfolding with_sign
itoa32 v =
    let neg = ltb_ℤ v (pos 0) in
    let size = if neg then int64 (pos 0 -ℤ v) else v in
    if eqb_ℤ v (pos 0)
    then some (48 ∷ [])
    else (do r ← digits_loop 12 (pos_part size) []; with_sign neg r)

-- `appendUint64`
unfoldable pub append_uint64 : Bytes → ℕ → Option Bytes
unfolding itoa64
append_uint64 buf v = do b ← itoa64 v; some (buf ++ b)

-- `appendInt`
unfoldable pub append_int : Bytes → ℤ → Option Bytes
unfolding itoa32
append_int buf v = do b ← itoa32 v; some (buf ++ b)
