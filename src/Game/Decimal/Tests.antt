-- ===== src/Game/Decimal/Tests.antt =====
-- Numbers in messages (server/game/combat.go).
use minnsun_s_adventure.Common.{◌≡◌, refl, [], ◌∷◌, ◌++◌, some, arith}
use minnsun_s_adventure.Common.Partial.{Gives}
use minnsun_s_adventure.Common.Int.{negsuc, int64, ◌-ℤ◌}
use minnsun_s_adventure.Game.Decimal.{Bytes, digits_loop, itoa64, itoa32, append_int}
use minnsun_s_adventure.Game.Decimal.Digits.{decode_int, append_int_round_trip}

prints_minus_42 : itoa32 (negsuc 41) ≡ some (45 ∷ 52 ∷ 50 ∷ [])
unfolding itoa32 digits_loop int64 ◌-ℤ◌
prints_minus_42 = refl

prints_409 : itoa64 409 ≡ some (52 ∷ 48 ∷ 57 ∷ [])
unfolding itoa64 digits_loop
prints_409 = refl

append_int_round_trip_example :
    Gives
      (λ out. (b : Bytes) × (out ≡ (35 ∷ []) ++ b) × (decode_int b ≡ negsuc 41))
      (append_int (35 ∷ []) (negsuc 41))
append_int_round_trip_example =
    append_int_round_trip (35 ∷ []) (negsuc 41) (omega arith) (omega arith)
