-- ===== src/Peakgo/Codec.antt =====
-- The binary encoding of packets (server/peakgo/codec/codec.go). Bytes are numbers below 256, a Go
-- string is its bytes, and none is a panic on a buffer that is too short.
pub mod RoundTrips
pub mod Safety
mod Tests
use minnsun_s_adventure.Common.{
  ℕ, zero, suc, ◌+◌, ◌-◌, ◌*◌, ◌/◌, ◌%◌, ◌^◌, Bool, true, false, not, List, [], ◌∷◌, Option, none,
  some, ltb, ◌==◌, if◌then◌else◌, length, take, drop,
}
use minnsun_s_adventure.Common.Int.{ℤ, pos, negsuc}

abbrev pub Bytes : Type 0
Bytes = List ℕ

-- `binary.BigEndian.UintN`, of k bytes.
abbrev pub read_be : ℕ → Bytes → Option ℕ
read_be zero b = some 0
read_be (suc k) [] = none
read_be (suc k) (x ∷ b) = elim (read_be k b) [ none ↦ none | some n ↦ some (x * 256 ^ k + n) ]

-- `binary.BigEndian.PutUintN`, of k bytes: the buffer afterwards.
abbrev pub write_be : ℕ → ℕ → Bytes → Option Bytes
write_be zero v b = some b
write_be (suc k) v [] = none
write_be (suc k) v (x ∷ b) = elim (write_be k v b) [
  | none ↦ none
  | some b' ↦ some (v / 256 ^ k % 256 ∷ b')
]

-- The conversion of an unsigned number of k bytes to a signed one, and back.
abbrev pub to_signed : ℕ → ℕ → ℤ
to_signed k n = if ltb (n * 2) (256 ^ k) then pos n else negsuc (256 ^ k - n - 1)

abbrev pub to_unsigned : ℕ → ℤ → ℕ
to_unsigned k (pos n) = n % 256 ^ k
to_unsigned k (negsuc n) = 256 ^ k - 1 - n % 256 ^ k

abbrev pub signed : ℕ → Option ℕ → Option ℤ
signed k o = elim o [ none ↦ none | some n ↦ some (to_signed k n) ]

-- The readers.
unfoldable pub read_uint8 : Bytes → Option ℕ
read_uint8 b = read_be 1 b

unfoldable pub read_uint16 : Bytes → Option ℕ
read_uint16 b = read_be 2 b

unfoldable pub read_uint32 : Bytes → Option ℕ
read_uint32 b = read_be 4 b

unfoldable pub read_uint64 : Bytes → Option ℕ
read_uint64 b = read_be 8 b

unfoldable pub read_int16 : Bytes → Option ℤ
read_int16 b = signed 2 (read_be 2 b)

unfoldable pub read_int32 : Bytes → Option ℤ
read_int32 b = signed 4 (read_be 4 b)

unfoldable pub read_int64 : Bytes → Option ℤ
read_int64 b = signed 8 (read_be 8 b)

-- The writers.
unfoldable pub write_uint8 : ℕ → Bytes → Option Bytes
write_uint8 v b = write_be 1 v b

unfoldable pub write_uint16 : ℕ → Bytes → Option Bytes
write_uint16 v b = write_be 2 v b

unfoldable pub write_uint32 : ℕ → Bytes → Option Bytes
write_uint32 v b = write_be 4 v b

unfoldable pub write_uint64 : ℕ → Bytes → Option Bytes
write_uint64 v b = write_be 8 v b

unfoldable pub write_int16 : ℤ → Bytes → Option Bytes
write_int16 v b = write_be 2 (to_unsigned 2 v) b

unfoldable pub write_int32 : ℤ → Bytes → Option Bytes
write_int32 v b = write_be 4 (to_unsigned 4 v) b

unfoldable pub write_int64 : ℤ → Bytes → Option Bytes
write_int64 v b = write_be 8 (to_unsigned 8 v) b

-- `ReadStringLen16`: the string and ok.
unfoldable pub read_string_len16 : Bytes → Option (Bytes × Bool)
read_string_len16 payload =
    if ltb (length payload) 2 then some ([], false) else elim (read_be 2 payload) [
      | none ↦ none
      | some n ↦
          if ltb (length payload) (2 + n)
          then some ([], false)
          else some (take n (drop 2 payload), true)
    ]

pub record MovePayload : Type 0 where
  pub x : ℤ
  pub z : ℤ

-- `ReadMovePayload`: `payload[0:4]` and `payload[4:8]`.
unfoldable pub read_move_payload : Bytes → Option (MovePayload × Bool)
read_move_payload payload =
    if not (length payload == 8)
    then some (record { x = pos 0; z = pos 0 }, false)
    else elim (signed 4 (read_be 4 (take 4 payload))) [
      | none ↦ none
      | some x ↦ elim (signed 4 (read_be 4 (take 4 (drop 4 payload)))) [
        | none ↦ none
        | some z ↦ some (record { x = x; z = z }, true)
      ]
    ]

pub record AttackPayload : Type 0 where
  pub target_id : ℕ

-- `ReadAttackPayload`
unfoldable pub read_attack_payload : Bytes → Option (AttackPayload × Bool)
read_attack_payload payload =
    if not (length payload == 8)
    then some (record { target_id = 0 }, false)
    else elim (read_be 8 (take 8 payload)) [
      | none ↦ none
      | some id ↦ some (record { target_id = id }, true)
    ]
