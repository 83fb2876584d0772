-- ===== src/Peakgo/Anticheat/Tests.antt =====
-- Packets of one connection (server/peakgo/anticheat/anticheat.go), and places (server/peakgo/gmath/gmath.go).
use minnsun_s_adventure.Common.{◌≡◌, refl, true, false, [], ◌∷◌, List, ℕ, arith}
use minnsun_s_adventure.Common.Int.{pos, negsuc, int64, ◌+ℤ◌, ◌-ℤ◌, ◌*ℤ◌}
use minnsun_s_adventure.Ecs.Components.{PositionComponent}
use minnsun_s_adventure.Peakgo.Anticheat.{
  no_validator, validate_sequence, validate_movement, manhattan_distance, distance_sq, int_abs,
  in_range_int, clamp_pos, clamp,
}
use minnsun_s_adventure.Peakgo.Anticheat.Replays.{run_sequence, no_replay}

abbrev packets : List ℕ
packets = 7 ∷ 5 ∷ 9 ∷ []

here : PositionComponent
here = record { map_id = pos 1; x = pos 3; z = pos 4 }

nearby : PositionComponent
nearby = record { map_id = pos 1; x = pos 6; z = pos 8 }

distance_of_three_four : distance_sq (pos 3) (pos 4) (pos 0) (pos 8) ≡ pos 25
unfolding distance_sq int64 ◌+ℤ◌ ◌-ℤ◌ ◌*ℤ◌
distance_of_three_four = refl

steps_of_three_four : manhattan_distance (pos 3) (pos 4) (pos 0) (pos 8) ≡ pos 7
unfolding manhattan_distance int_abs int64 ◌+ℤ◌ ◌-ℤ◌ ◌*ℤ◌
steps_of_three_four = refl

far_move_is_refused : validate_movement here nearby (pos 4) 9 no_validator ≡ (no_validator, false)
unfolding validate_movement in_range_int distance_sq here nearby int64 ◌+ℤ◌ ◌-ℤ◌ ◌*ℤ◌
far_move_is_refused = refl

-- A number lower than one before it is accepted.
lower_number_is_accepted : (validate_sequence 5 (validate_sequence 7 no_validator).0).1 ≡ true
unfolding validate_sequence
lower_number_is_accepted = refl

no_replay_example :
    let w = run_sequence packets (validate_sequence 4 no_validator).0 in
    validate_sequence 4 w ≡ (w, false)
unfolding validate_sequence
no_replay_example =
    no_replay 4 packets no_validator (refl, omega arith) (λ e. omega arith) (omega arith) refl

far_place_is_clamped : clamp_pos (pos 120) (negsuc 4) (pos 0) (pos 100) ≡ (pos 100, pos 0)
unfolding clamp_pos clamp
far_place_is_clamped = refl
