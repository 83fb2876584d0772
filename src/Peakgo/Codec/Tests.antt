-- ===== src/Peakgo/Codec/Tests.antt =====
-- Runs of the binary encoding (server/peakgo/codec/codec.go).
use minnsun_s_adventure.Common.{◌≡◌, refl, true, false, [], ◌∷◌, ◌++◌, none, some, arith}
use minnsun_s_adventure.Common.Int.{negsuc}
use minnsun_s_adventure.Peakgo.Codec.{
  Bytes, read_uint16, read_int16, write_uint32, write_int32, read_string_len16,
}
use minnsun_s_adventure.Peakgo.Codec.RoundTrips.{string_round_trip}

abbrev four_bytes : Bytes
four_bytes = 9 ∷ 9 ∷ 9 ∷ 9 ∷ []

abbrev hi : Bytes
hi = 104 ∷ 105 ∷ []

reads_big_endian : read_uint16 (1 ∷ 2 ∷ []) ≡ some 258
unfolding read_uint16
reads_big_endian = refl

reads_minus_two : read_int16 (255 ∷ 254 ∷ []) ≡ some (negsuc 1)
unfolding read_int16
reads_minus_two = refl

writes_minus_two : write_int32 (negsuc 1) four_bytes ≡ some (255 ∷ 255 ∷ 255 ∷ 254 ∷ [])
unfolding write_int32
writes_minus_two = refl

short_write_panics : write_uint32 7 hi ≡ none
unfolding write_uint32
short_write_panics = refl

short_string_is_refused : read_string_len16 (0 ∷ 3 ∷ hi) ≡ some ([], false)
unfolding read_string_len16
short_string_is_refused = refl

string_round_trip_example : read_string_len16 (0 ∷ 2 ∷ hi ++ four_bytes) ≡ some (hi, true)
string_round_trip_example = string_round_trip hi four_bytes (omega arith)
