-- ===== src/Peakgo/Anticheat.antt =====
-- The checks of a connection (server/peakgo/anticheat/anticheat.go), with the distances of integers
-- (server/peakgo/gmath/gmath.go). An int has 64 bits, and the window is the list of its 32 entries.
pub mod Replays
mod Places
mod Tests
use minnsun_s_adventure.Common.{
  ℕ, zero, suc, ◌+◌, ◌*◌, ◌%◌, ◌^◌, ◌≡◌, ◌<◌, Bool, true, false, ◌&&◌, List, [], ◌∷◌, ◌==◌,
  if◌then◌else◌, map, set, replicate,
}
use minnsun_s_adventure.Common.Int.{ℤ, pos, negsuc, ◌+ℤ◌, ◌-ℤ◌, ◌*ℤ◌, ltb_ℤ, leb_ℤ, eqb_ℤ, int64}
use minnsun_s_adventure.Ecs.Components.{PositionComponent}

-- `gmath.Abs`
unfoldable pub int_abs : ℤ → ℤ
int_abs v = if ltb_ℤ v (pos 0) then int64 (pos 0 -ℤ v) else v

-- `gmath.DistanceSq`
unfoldable pub distance_sq : ℤ → ℤ → ℤ → ℤ → ℤ
distance_sq ax az bx bz =
    let dx = int64 (ax -ℤ bx) in
    let dz = int64 (az -ℤ bz) in int64 (int64 (dx *ℤ dx) +ℤ int64 (dz *ℤ dz))

-- `gmath.ManhattanDistance`
unfoldable pub manhattan_distance : ℤ → ℤ → ℤ → ℤ → ℤ
manhattan_distance ax az bx bz = int64 (int_abs (int64 (ax -ℤ bx)) +ℤ int_abs (int64 (az -ℤ bz)))

-- `gmath.InRangeInt`
unfoldable pub in_range_int : ℤ → ℤ → ℤ → ℤ → ℤ → Bool
in_range_int ax az bx bz radius = leb_ℤ (distance_sq ax az bx bz) (int64 (radius *ℤ radius))

-- `gmath.InBounds`
unfoldable pub in_bounds : ℤ → ℤ → ℤ → ℤ → Bool
in_bounds x z lo hi = leb_ℤ lo x && leb_ℤ x hi && leb_ℤ lo z && leb_ℤ z hi

-- `gmath.Clamp`
unfoldable pub clamp : ℤ → ℤ → ℤ → ℤ
clamp v lo hi = if ltb_ℤ v lo then lo else if ltb_ℤ hi v then hi else v

-- `gmath.ClampPos`
unfoldable pub clamp_pos : ℤ → ℤ → ℤ → ℤ → ℤ × ℤ
clamp_pos x z lo hi = (clamp x lo hi, clamp z lo hi)

-- `seqWindowSize`
abbrev pub seq_window_size : ℕ
seq_window_size = 32

pub record Validator : Type 0 where
  pub last_move_tick : ℕ
  pub last_move_map_id : ℤ
  pub last_move_x : ℤ
  pub last_move_z : ℤ
  pub seq_window : List ℕ
  pub seq_head : ℕ
  pub violation_count : ℕ

-- The zero value, which Reset writes again.
abbrev pub no_validator : Validator
no_validator = record {
  last_move_tick = 0;
  last_move_map_id = pos 0;
  last_move_x = pos 0;
  last_move_z = pos 0;
  seq_window = replicate seq_window_size 0;
  seq_head = 0;
  violation_count = 0;
}

-- `ValidateMovement`
unfoldable pub validate_movement :
    PositionComponent → PositionComponent → ℤ → ℕ → Validator → Validator × Bool
validate_movement p new_pos max_distance current_tick v =
    if in_range_int p.x p.z new_pos.x new_pos.z max_distance
    then (
      record v {
        last_move_tick = current_tick;
        last_move_map_id = new_pos.map_id;
        last_move_x = new_pos.x;
        last_move_z = new_pos.z;
      },
      true,
    )
    else (v, false)

-- The loop over the window.
abbrev pub has_seq : ℕ → List ℕ → Bool
has_seq seq [] = false
has_seq seq (x ∷ xs) = let rest = has_seq seq xs in if x == seq then true else rest

-- `ValidateSequence`
unfoldable pub validate_sequence : ℕ → Validator → Validator × Bool
validate_sequence seq v =
    if seq == 0 then (v, true) else if has_seq seq v.seq_window then (v, false) else (
      record v {
        seq_window = set v.seq_window v.seq_head seq;
        seq_head = (v.seq_head + 1) % seq_window_size;
      },
      true,
    )

-- `ValidateMapAction`
unfoldable pub validate_map_action : PositionComponent → PositionComponent → Bool
validate_map_action entity_pos target_pos = eqb_ℤ entity_pos.map_id target_pos.map_id

-- `RecordViolation`, which uses neither of its arguments: an int32 counter, by its 32 bits.
unfoldable pub record_violation : Validator → Validator
record_violation v = record v { violation_count = (v.violation_count + 1) % 2 ^ 32 }

-- `Reset`
unfoldable pub reset_validator : Validator → Validator
reset_validator v = record v {
  last_move_tick = 0;
  last_move_map_id = pos 0;
  last_move_x = pos 0;
  last_move_z = pos 0;
  seq_head = 0;
  violation_count = 0;
  seq_window = map (λ x. 0) v.seq_window;
}
