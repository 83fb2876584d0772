-- ===== src/Peakgo/Codec/RoundTrips.antt =====
-- What is written is read back (server/peakgo/codec/codec.go).
use native.Mathlib.Nat.{
  mul-le-mul_right, div-add-mod', add-mul-mod_self_right, mod-eq_of_lt, mod-lt, pow-suc,
}
use minnsun_s_adventure.Common.{
  ℕ, zero, suc, ◌+◌, ◌-◌, ◌*◌, ◌/◌, ◌%◌, ◌^◌, ◌≤◌, ◌<◌, ◌≡◌, refl, sym, ap, ◌∙◌, Bool, true, false,
  not, [], ◌∷◌, ◌++◌, Option, none, some, arith, ltb, ◌==◌, if◌then◌else◌, length, take, drop,
  length-append,
}
use minnsun_s_adventure.Common.Int.{ℤ, pos, negsuc, pos_part, neg_part}
use minnsun_s_adventure.Peakgo.Codec.{
  Bytes, read_be, write_be, to_signed, to_unsigned, signed, read_string_len16, read_move_payload,
  MovePayload, write_int32,
}

expand : (a b p r : ℕ) → (a + 256 * b) * p + r ≡ a * p + r + b * (256 * p)
expand a b p r = grind arith

fits : (a p r : ℕ) → a < 256 → r < p → a * p + r < 256 * p
fits a p r ha hr = grind (arith, mul-le-mul_right {m = a + 1} {n = 256} p (omega arith))

-- The two lowest digits of a number, the lower in base p and the next in base 256.
digits : (v p : ℕ) → 0 < p → v / p % 256 * p + v % p ≡ v % (256 * p)
digits v p h =
    let a = v / p % 256 in
    let b = v / p / 256 in
    let whole : v ≡ a * p + v % p + b * (256 * p) =
      sym (div-add-mod' v p) ∙ ap (λ q. q * p + v % p) (omega arith) ∙ expand a b p (v % p) in
    sym (
      ap (λ x. x % (256 * p)) whole
      ∙ add-mul-mod_self_right (a * p + v % p) b (256 * p)
      ∙ mod-eq_of_lt (fits a p (v % p) (omega arith) (mod-lt v h)))

power_positive : (k : ℕ) → 0 < 256 ^ k
power_positive zero = omega arith
power_positive (suc k) = omega (arith, pow-suc 256 k, power_positive k)

-- A number that is written to a buffer of at least k bytes is read back from it, modulo 256^k, and the
-- buffer keeps its length.
pub read_be-write_be :
    (k v : ℕ) (b : Bytes)
    → k ≤ length b
    → (b' : Bytes) × (write_be k v b ≡ some b')
      × (read_be k b' ≡ some (v % 256 ^ k))
      × (length b' ≡ length b)
read_be-write_be zero v b h = (b, refl, ap some (omega arith), refl)
read_be-write_be (suc k) v [] h = absurd (omega arith)
read_be-write_be (suc k) v (x ∷ b) h =
    let (b', is_b', reads, len) = read_be-write_be k v b (omega arith) in
    (
      v / 256 ^ k % 256 ∷ b',
      rw is_b' refl,
      rw reads (
          ap some (
            digits v (256 ^ k) (power_positive k)
            ∙ ap (λ x. v % x) (omega (arith, pow-suc 256 k)))),
      ap suc len,
    )

-- The integers that k bytes hold in two's complement.
abbrev pub IsSigned : ℕ → ℤ → Type 0
IsSigned k v = (pos_part v * 2 < 256 ^ k) × (neg_part v * 2 ≤ 256 ^ k)

low_half : (p n : ℕ) → n * 2 < p → (if ltb (n * 2) p then pos n else negsuc (p - n - 1)) ≡ pos n
low_half p n h = ground arith

high_half :
    (p n : ℕ)
    → suc n * 2 ≤ p
    → (if ltb ((p - 1 - n) * 2) p then pos (p - 1 - n) else negsuc (p - (p - 1 - n) - 1)) ≡ negsuc n
high_half p n h = ground arith

to_signed-to_unsigned : (k : ℕ) (v : ℤ) → IsSigned k v → to_signed k (to_unsigned k v % 256 ^ k) ≡ v
to_signed-to_unsigned k (pos n) (h, _) =
    ap (to_signed k) (mod-eq_of_lt (mod-lt n (power_positive k)) ∙ mod-eq_of_lt (omega arith))
    ∙ low_half (256 ^ k) n h
to_signed-to_unsigned k (negsuc n) (_, h) =
    ap (to_signed k) (
      mod-eq_of_lt (omega (arith, power_positive k))
      ∙ ap (λ m. 256 ^ k - 1 - m) (mod-eq_of_lt (omega arith)))
    ∙ high_half (256 ^ k) n h

-- A signed integer that k bytes hold is written to a buffer of at least k bytes, which keeps its length,
-- and read back from it.
pub signed_round_trip :
    (k : ℕ) (v : ℤ) (b : Bytes)
    → k ≤ length b
    → IsSigned k v
    → (b' : Bytes) × (write_be k (to_unsigned k v) b ≡ some b')
      × (signed k (read_be k b') ≡ some v)
      × (length b' ≡ length b)
signed_round_trip k v b room fits_in =
    let (b', writes, reads, len) = read_be-write_be k (to_unsigned k v) b room in
    (b', writes, ap (signed k) reads ∙ ap some (to_signed-to_unsigned k v fits_in), len)

pub take-append : (xs ys : Bytes) → take (length xs) (xs ++ ys) ≡ xs
take-append [] ys = refl
take-append (x ∷ xs) ys = ap (λ zs. x ∷ zs) (take-append xs ys)

take-all : (xs : Bytes) → take (length xs) xs ≡ xs
take-all [] = refl
take-all (x ∷ xs) = ap (λ zs. x ∷ zs) (take-all xs)

pub drop-append : (xs ys : Bytes) → drop (length xs) (xs ++ ys) ≡ ys
drop-append [] ys = refl
drop-append (x ∷ xs) ys = drop-append xs ys

-- A string of less than 2^16 bytes is read back from its length, in two bytes, and its bytes, whatever
-- comes after them.
pub string_round_trip :
    (body rest : Bytes)
    → length body < 2 ^ 16
    → read_string_len16 (length body / 256 ∷ length body % 256 ∷ body ++ rest) ≡ some (body, true)
unfolding read_string_len16
string_round_trip body rest small =
    rw (read_string_len16, some_length, is_length, enough)
      (ap (λ xs. some (xs, true)) (take-append body rest))
  where
    some_length : ltb (suc (suc (length (body ++ rest)))) 2 ≡ false
    some_length = ground arith

    is_length : length body / 256 * 256 ^ 1 + (length body % 256 * 256 ^ 0 + 0) ≡ length body
    is_length = omega arith

    enough : ltb (suc (suc (length (body ++ rest)))) (2 + length body) ≡ false
    enough = ground (arith, length-append body rest)

-- What `ReadMovePayload` makes of two halves of four bytes.
move_of :
    (p q : Bytes) (x z : ℤ)
    → length p ≡ 4
    → length q ≡ 4
    → signed 4 (read_be 4 p) ≡ some x
    → signed 4 (read_be 4 q) ≡ some z
    → read_move_payload (p ++ q) ≡ some (record { x = x; z = z }, true)
unfolding read_move_payload
move_of p q x z lp lq rx rz =
    ap
      (λ b.
        result b (signed 4 (read_be 4 (take 4 (p ++ q))))
          (signed 4 (read_be 4 (take 4 (drop 4 (p ++ q))))))
      whole
    ∙ ap (λ o. result true o (signed 4 (read_be 4 (take 4 (drop 4 (p ++ q))))))
        (ap (λ w. signed 4 (read_be 4 w)) first ∙ rx)
    ∙ ap (λ o. result true (some x) o) (ap (λ w. signed 4 (read_be 4 w)) second ∙ rz)
  where
    result : Bool → Option ℤ → Option ℤ → Option (MovePayload × Bool)
    result b o o' = if not b then some (record { x = pos 0; z = pos 0 }, false) else elim o [
      | none ↦ none
      | some x' ↦ elim o' [ none ↦ none | some z' ↦ some (record { x = x'; z = z' }, true) ]
    ]

    whole : (length (p ++ q) == 8) ≡ true
    whole = ground (arith, length-append p q)

    first : take 4 (p ++ q) ≡ p
    first = ap (λ n. take n (p ++ q)) (sym lp) ∙ take-append p q

    second : take 4 (drop 4 (p ++ q)) ≡ q
    second =
        ap (λ n. take 4 (drop n (p ++ q))) (sym lp)
        ∙ ap (take 4) (drop-append p q)
        ∙ ap (λ n. take n q) (sym lq)
        ∙ take-all q

-- A MOVE payload of two coordinates that an int32 holds, written to two buffers of four bytes and put
-- together, is read back.
pub move_round_trip :
    (x z : ℤ) (b c : Bytes)
    → IsSigned 4 x
    → IsSigned 4 z
    → length b ≡ 4
    → length c ≡ 4
    → (b' : Bytes) × (c' : Bytes) × (write_int32 x b ≡ some b')
      × (write_int32 z c ≡ some c')
      × (read_move_payload (b' ++ c') ≡ some (record { x = x; z = z }, true))
unfolding write_int32
move_round_trip x z b c hx hz lb lc =
    let (b', wb, rb, lb') = signed_round_trip 4 x b (omega (arith, lb)) hx in
    let (c', wc, rc, lc') = signed_round_trip 4 z c (omega (arith, lc)) hz in
    (b', c', wb, wc, move_of b' c' x z (lb' ∙ lb) (lc' ∙ lc) rb rc)
