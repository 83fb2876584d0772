-- ===== src/Peakgo/Codec/Safety.antt =====
-- The payload readers never run past the end of a payload (server/peakgo/codec/codec.go).
use minnsun_s_adventure.Common.{
  ℕ, zero, suc, ◌+◌, ◌*◌, ◌^◌, ◌≤◌, ◌≡◌, refl, sym, ap, ◌∙◌, Bool, true, false, not, [], ◌∷◌,
  Option, none, some, arith, ltb, ◌==◌, if◌then◌else◌, length, length-take, take, drop,
}
use minnsun_s_adventure.Common.Int.{ℤ, pos}
use minnsun_s_adventure.Peakgo.Codec.{
  Bytes, read_be, to_signed, signed, read_string_len16, read_move_payload, MovePayload,
  read_attack_payload, AttackPayload,
}

length-drop : (n : ℕ) (b : Bytes) → n ≤ length b → n + length (drop n b) ≡ length b
length-drop zero b h = omega arith
length-drop (suc n) [] h = absurd (omega arith)
length-drop (suc n) (x ∷ b) h = omega (arith, length-drop n b (omega arith))

-- A number is read from a buffer that is long enough.
read_be_total : (k : ℕ) (b : Bytes) → k ≤ length b → (n : ℕ) × (read_be k b ≡ some n)
read_be_total zero b h = (0, refl)
read_be_total (suc k) [] h = absurd (omega arith)
read_be_total (suc k) (x ∷ b) h =
    let (n, is) = read_be_total k b (omega arith) in (x * 256 ^ k + n, rw is refl)

signed_total : (k : ℕ) (b : Bytes) → k ≤ length b → (v : ℤ) × (signed k (read_be k b) ≡ some v)
signed_total k b h = let (n, is) = read_be_total k b h in (to_signed k n, ap (signed k) is)

either : {A : Type 0} (b : Bool) (u v : A) → (r : A) × ((if b then some u else some v) ≡ some r)
either true u v = (u, refl)
either false u v = (v, refl)

read_string_total : (payload : Bytes) → (r : Bytes × Bool) × (read_string_len16 payload ≡ some r)
unfolding read_string_len16
read_string_total [] = (([], false), refl)
read_string_total (x ∷ []) = (([], false), refl)
read_string_total (x ∷ y ∷ b) =
    let n = x * 256 ^ 1 + (y * 256 ^ 0 + 0) in
    let (r, is) = either (ltb (suc (suc (length b))) (2 + n)) ([], false) (take n b, true) in
    (r, rw (read_string_len16, long) is)
  where
    long : ltb (suc (suc (length b))) 2 ≡ false
    long = ground arith

move_result : Bool → Option ℤ → Option ℤ → Option (MovePayload × Bool)
move_result b o o' = if not b then some (record { x = pos 0; z = pos 0 }, false) else elim o [
  | none ↦ none
  | some x ↦ elim o' [ none ↦ none | some z ↦ some (record { x = x; z = z }, true) ]
]

move_result_total :
    (b : Bool) (o o' : Option ℤ)
    → (b ≡ true → (x : ℤ) × (o ≡ some x))
    → (b ≡ true → (z : ℤ) × (o' ≡ some z))
    → (r : MovePayload × Bool) × (move_result b o o' ≡ some r)
unfolding move_result
move_result_total false o o' h h' = ((record { x = pos 0; z = pos 0 }, false), refl)
move_result_total true o o' h h' =
    let (x, is_x) = h refl in
    let (z, is_z) = h' refl in
    (
      (record { x = x; z = z }, true),
      ap (λ p. move_result true p o') is_x ∙ ap (λ p. move_result true (some x) p) is_z,
    )

read_move_total :
    (payload : Bytes) → (r : MovePayload × Bool) × (read_move_payload payload ≡ some r)
unfolding read_move_payload move_result
read_move_total payload =
    move_result_total (length payload == 8) (signed 4 (read_be 4 (take 4 payload)))
      (signed 4 (read_be 4 (take 4 (drop 4 payload))))
      (λ h. signed_total 4 (take 4 payload) (omega (arith, length-take 4 payload (at_least h))))
      (λ h. signed_total 4 (take 4 (drop 4 payload)) (
        omega (
          arith,
          eight h,
          length-drop 4 payload (at_least h),
          length-take 4 (drop 4 payload)
              (omega (arith, eight h, length-drop 4 payload (at_least h))),
        )))
  where
    eight : (length payload == 8) ≡ true → length payload ≡ 8
    eight h = ground arith

    at_least : (length payload == 8) ≡ true → 4 ≤ length payload
    at_least h = omega (arith, eight h)

attack_result : Bool → Option ℕ → Option (AttackPayload × Bool)
attack_result b o =
    if not b
    then some (record { target_id = 0 }, false)
    else elim o [ none ↦ none | some id ↦ some (record { target_id = id }, true) ]

attack_result_total :
    (b : Bool) (o : Option ℕ)
    → (b ≡ true → (n : ℕ) × (o ≡ some n))
    → (r : AttackPayload × Bool) × (attack_result b o ≡ some r)
unfolding attack_result
attack_result_total false o h = ((record { target_id = 0 }, false), refl)
attack_result_total true o h =
    let (n, is) = h refl in ((record { target_id = n }, true), ap (attack_result true) is)

read_attack_total :
    (payload : Bytes) → (r : AttackPayload × Bool) × (read_attack_payload payload ≡ some r)
unfolding read_attack_payload attack_result
read_attack_total payload =
    attack_result_total (length payload == 8) (read_be 8 (take 8 payload))
      (λ h. read_be_total 8 (take 8 payload) (omega (arith, length-take 8 payload (at_least h))))
  where
    at_least : (length payload == 8) ≡ true → 8 ≤ length payload
    at_least h = ground arith

-- On no payload, however short, does reading a string, a MOVE or an ATTACK payload panic.
pub readers_never_panic :
    (payload : Bytes)
    → ¬ (read_string_len16 payload ≡ none)
      × ¬ (read_move_payload payload ≡ none)
      × ¬ (read_attack_payload payload ≡ none)
readers_never_panic payload =
    let (_, s) = read_string_total payload in
    let (_, m) = read_move_total payload in
    let (_, a) = read_attack_total payload in
    (λ e. some_not_none (sym s ∙ e), λ e. some_not_none (sym m ∙ e), λ e. some_not_none (sym a ∙ e))
  where
    some_not_none : {A : Type 0} {x : A} → ¬ (some x ≡ none)
    some_not_none e = ground arith
