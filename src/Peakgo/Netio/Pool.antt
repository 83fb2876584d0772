-- ===== src/Peakgo/Netio/Pool.antt =====
-- The pool of byte buffers (server/peakgo/pool/pool.go) as ReadPayload uses it
-- (server/peakgo/netio/packet.go).
use mathlib.Core.Path.{subst}
use minnsun_s_adventure.Common.{
  ℕ, ◌+◌, ◌*◌, ◌≤◌, ◌<◌, ◌≡◌, refl, sym, ◌∙◌, true, false, inl, inr, List, [], ◌∷◌, ◌++◌, some,
  arith, ltb, ◌==◌, length, take, drop, length-append, length-replicate, ==_ne, Bool-cases,
}
use minnsun_s_adventure.Peakgo.Codec.{Bytes}
use minnsun_s_adventure.Peakgo.Codec.RoundTrips.{take-append}
use minnsun_s_adventure.Peakgo.Netio.{
  Conn, Buffer, BytesPool, make, get_buffer, put_buffer, room_for, overwrite, read_payload,
}
use minnsun_s_adventure.Peakgo.Netio.Reading.{flat, ge→ltb, read_full_lem}

-- Every buffer that is kept has the capacity that `Get` and `Put` slice to.
abbrev pub AllRoomy : ℕ → List Buffer → Type 0
AllRoomy n [] = ℕ
AllRoomy n (b ∷ bs) = (n ≤ length b.array) × AllRoomy n bs

abbrev pub IsPool : BytesPool → Type 0
IsPool p = AllRoomy p.size p.kept

-- `Get` gives a buffer of the pool's size.
pub get_buffer_lem :
    (size : ℕ) (kept : List Buffer)
    → AllRoomy size kept
    → (b : Buffer) × (p' : BytesPool) × (get_buffer (record { size = size; kept = kept })
        ≡ some (b, p'))
      × (b.len ≡ size)
      × (size ≤ length b.array)
      × (p'.size ≡ size)
      × AllRoomy size p'.kept
unfolding get_buffer
get_buffer_lem size [] roomy = (
  make size,
  record { size = size; kept = [] },
  refl,
  refl,
  omega (arith, length-replicate {A = ℕ} size 0),
  refl,
  roomy,
)
get_buffer_lem size (b ∷ kept) (room, roomy) = (
  record b { len = size },
  record { size = size; kept = kept },
  rw (ge→ltb room) refl,
  refl,
  room,
  refl,
  roomy,
)

-- `Put` of a buffer with that capacity does not panic.
pub put_buffer_lem :
    (p : BytesPool) (b : Buffer)
    → IsPool p
    → p.size ≤ length b.array
    → (p' : BytesPool) × (put_buffer b p ≡ some p') × IsPool p'
unfolding put_buffer
put_buffer_lem p b roomy room = elim (Bool-cases (ltb (p.size * 4) (length b.array))) [
  | inl large ↦ (p, rw large refl, roomy)
  | inr fits ↦ (
    record p { kept = record b { len = p.size } ∷ p.kept },
    rw (fits, ge→ltb room) refl,
    (room, roomy),
  )
]

room_for_lem :
    (n : ℕ) (b : Buffer)
    → b.len ≤ length b.array
    → (b' : Buffer) × (room_for n b ≡ some b')
      × (b'.len ≡ n)
      × (n ≤ length b'.array)
      × (b.len ≤ length b'.array)
room_for_lem n b room = elim (Bool-cases (ltb b.len n)) [
  | inl large ↦
      let len = length-replicate {A = ℕ} n 0 in
      (make n, rw large refl, refl, omega (arith, len), grown len large)
  | inr fits ↦ (record b { len = n }, rw (fits, ge→ltb (enough fits)) refl, refl, enough fits, room)
]
  where
    grown : length (make n).array ≡ n → ltb b.len n ≡ true → b.len ≤ length (make n).array
    grown len large = ground arith

    enough : ltb b.len n ≡ false → n ≤ length b.array
    enough fits = ground arith

-- Bytes that are read into a buffer stand at its start, and its capacity stays.
pub length-overwrite :
    (xs : Bytes) (b : Buffer)
    → length xs ≤ length b.array
    → length (overwrite xs b).array ≡ length b.array
length-overwrite xs b room = length-append xs (drop (length xs) b.array) ∙ rest xs b.array room
  where
    rest :
        (ys zs : Bytes)
        → length ys ≤ length zs
        → length ys + length (drop (length ys) zs) ≡ length zs
    rest [] zs h = omega arith
    rest (y ∷ ys) [] h = absurd (omega arith)
    rest (y ∷ ys) (z ∷ zs) h = omega (arith, rest ys zs (omega arith))

-- A packet of 1 to 4096 bytes that arrive is read into a buffer, whatever was in it before.
pub read_payload_lem :
    (c : Conn) (p : BytesPool) (xs ys : Bytes)
    → IsPool p
    → 0 < length xs
    → length xs ≤ 4096
    → flat c.pieces ≡ xs ++ ys
    → (b : Buffer) × (c' : Conn) × (p' : BytesPool) × (read_payload c p (length xs)
        ≡ some (inr b, c', p'))
      × (take (length xs) b.array ≡ xs)
      × (length xs ≤ length b.array)
      × (p'.size ≤ length b.array)
      × (flat c'.pieces ≡ ys)
      × IsPool p'
unfolding read_payload
read_payload_lem c p xs ys roomy some_bytes few come =
    let (b, p', gets, is_len, room, is_size, roomy') = get_buffer_lem p.size p.kept roomy in
    let (b', makes, is_n, large, kept_room) = room_for_lem (length xs) b (omega (arith, is_len)) in
    let (c', reads, left) = read_full_lem c xs ys come in
    let nonempty : (length xs == 0) ≡ false = ==_ne (length xs) 0 (λ e. absurd (omega arith)) in
    let same = length-overwrite xs b' large in
    (
      overwrite xs b',
      c',
      p',
      rw (nonempty, ge→ltb few, gets, makes, reads) refl,
      take-append xs (drop (length xs) b'.array),
      omega (arith, same),
      omega (arith, same),
      left,
      subst (λ n. AllRoomy n p'.kept) (sym is_size) roomy',
    )
