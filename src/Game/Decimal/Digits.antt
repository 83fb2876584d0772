-- ===== src/Game/Decimal/Digits.antt =====
-- Decimal numbers are read back from their digits (server/game/combat.go).
use native.Mathlib.Nat.{pow-suc}
use minnsun_s_adventure.Common.{
  ℕ, zero, suc, ◌+◌, ◌-◌, ◌*◌, ◌/◌, ◌%◌, ◌^◌, ◌≤◌, ◌<◌, ◌≡◌, ◌≢◌, refl, sym, ap, ◌∙◌, ◌⊎◌, inl, inr,
  true, false, [], ◌∷◌, ◌++◌, none, some, arith, ◌==◌, if◌then◌else◌, Bool-cases,
}
use minnsun_s_adventure.Common.Partial.{Gives, Gives-some, Gives-map}
use minnsun_s_adventure.Common.Int.{
  ℤ, pos, negsuc, pos_part, neg_part, sub_ℕ, ◌-ℤ◌, ltb_ℤ, eqb_ℤ, int64, int64_exact, -ℤ_parts,
  eq_of_parts,
}
use minnsun_s_adventure.Game.Decimal.{
  Bytes, digits_loop, with_sign, itoa64, itoa32, append_uint64, append_int,
}

-- The number that digits stand for, after those that stand for n.
abbrev pub decode : ℕ → Bytes → ℕ
decode n [] = n
decode n (c ∷ b) = decode (n * 10 + (c - 48)) b

-- The integer that a text stands for.
abbrev pub decode_int : Bytes → ℤ
decode_int [] = pos 0
decode_int (c ∷ b) = if c == 45 then sub_ℕ 0 (decode 0 b) else pos (decode 0 (c ∷ b))

-- The text starts with a digit.
abbrev StartsWithDigit : Bytes → Type 0
StartsWithDigit b = (c : ℕ) × (rest : Bytes) × (b ≡ c ∷ rest) × (48 ≤ c) × (c < 58)

-- The digits of v, before b.
record IsPrinted (i v : ℕ) (b : Bytes) (r : ℕ × Bytes) : Type 0 where
  reads : decode 0 r.1 ≡ decode v b
  starts : (StartsWithDigit b) ⊎ (v ≢ 0) → StartsWithDigit r.1
  room : r.0 ≤ i

digits_loop-IsPrinted :
    (i v : ℕ) (b : Bytes) → v < 10 ^ i → Gives (IsPrinted i v b) (digits_loop i v b)
unfolding digits_loop
digits_loop-IsPrinted zero v b small =
    let z : v ≡ 0 = omega arith in
    rw (ap (λ n. n == 0) z) (
      Gives-some (0, b)
        (record {
          reads = ap (λ n. decode n b) (sym z);
          starts = λ s. elim s [ inl d ↦ d | inr n ↦ absurd (n z) ];
          room = omega arith;
        }))
digits_loop-IsPrinted (suc i) v b small = elim (Bool-cases (v == 0)) [
  | inl e ↦
      let z : v ≡ 0 = ground arith in
      rw e (
        Gives-some (suc i, b)
          (record {
            reads = ap (λ n. decode n b) (sym z);
            starts = λ s. elim s [ inl d ↦ d | inr n ↦ absurd (n z) ];
            room = omega arith;
          }))
  | inr e ↦
      let c = 48 + v % 10 in
      rw e (
        Gives-map (digits_loop-IsPrinted i (v / 10) (c ∷ b) (omega (arith, pow-suc 10 i))) λ r p.
          record {
            reads = p.reads ∙ ap (λ n. decode n b) (omega arith);
            starts = λ s. p.starts (inl (c, b, refl, omega arith, omega arith));
            room = omega (arith, p.room);
          })
]

-- The loop runs out of places on a number with too many digits.
digits_loop-panics : (i v : ℕ) (b : Bytes) → 10 ^ i ≤ v → digits_loop i v b ≡ none
unfolding digits_loop
digits_loop-panics zero v b large = rw (positive v large) refl
  where
    positive : (v : ℕ) → 10 ^ 0 ≤ v → (v == 0) ≡ false
    positive v h = ground arith
digits_loop-panics (suc i) v b large =
    rw (positive v (omega (arith, pow-suc 10 i, power_positive i)))
      (digits_loop-panics i (v / 10) ((48 + v % 10) ∷ b) (omega (arith, pow-suc 10 i)))
  where
    positive : (v : ℕ) → 0 < v → (v == 0) ≡ false
    positive v h = ground arith

    power_positive : (k : ℕ) → 0 < 10 ^ k
    power_positive zero = omega arith
    power_positive (suc k) = omega (arith, pow-suc 10 k, power_positive k)

-- `appendUint64` never panics, and appends digits that stand for the number.
pub append_uint64_round_trip :
    (buf : Bytes) (v : ℕ)
    → v < 2 ^ 64
    → Gives (λ out. (b : Bytes) × (out ≡ buf ++ b) × (decode 0 b ≡ v)) (append_uint64 buf v)
unfolding append_uint64 itoa64
append_uint64_round_trip buf v small = elim (Bool-cases (v == 0)) [
  | inl e ↦ rw e (Gives-some (buf ++ (48 ∷ [])) (48 ∷ [], refl, ground arith))
  | inr e ↦
      let ((i, b), is, p) = digits_loop-IsPrinted 20 v [] (omega arith) in
      rw (e, is) (Gives-some (buf ++ b) (b, refl, p.reads))
]

-- One more place is one place that is left.
digits_loop-suc :
    (i v : ℕ) (b : Bytes) (r : ℕ × Bytes)
    → digits_loop i v b ≡ some r
    → digits_loop (suc i) v b ≡ some (suc r.0, r.1)
unfolding digits_loop
digits_loop-suc zero v b r h = elim (Bool-cases (v == 0)) [
  | inl e ↦ rw e (ap some (ground arith))
  | inr e ↦ absurd (ground arith)
]
digits_loop-suc (suc i) v b r h = elim (Bool-cases (v == 0)) [
  | inl e ↦ rw e (ap some (ground arith))
  | inr e ↦ rw e (digits_loop-suc i (v / 10) ((48 + v % 10) ∷ b) r (ground arith))
]

decode_int-digits : (b : Bytes) → StartsWithDigit b → decode_int b ≡ pos (decode 0 b)
decode_int-digits b (c, rest, is, low, high) = rw is (rw (not_minus) refl)
  where
    not_minus : (c == 45) ≡ false
    not_minus = ground arith

pos_digits :
    (n : ℕ)
    → n ≢ 0
    → n < 10 ^ 12
    → (r : ℕ × Bytes) × (digits_loop 12 n [] ≡ some r) × (decode_int r.1 ≡ pos n)
pos_digits n nz small =
    let (r, is, p) = digits_loop-IsPrinted 12 n [] small in
    (r, is, decode_int-digits r.1 (p.starts (inr nz)) ∙ ap pos p.reads)

negated : (m : ℕ) → suc m < 10 ^ 11 → int64 (pos 0 -ℤ negsuc m) ≡ pos (suc m)
negated m small =
    ap int64
      (eq_of_parts (pos 0 -ℤ negsuc m) (pos (suc m)) (omega (arith, -ℤ_parts (pos 0) (negsuc m))))
    ∙ int64_exact (pos (suc m)) (omega arith, omega arith)

-- `appendInt` appends a text that stands for the integer, where it has at most 12 digits, or a minus sign
-- and at most 11.
pub append_int_round_trip :
    (buf : Bytes) (v : ℤ)
    → pos_part v < 10 ^ 12
    → neg_part v < 10 ^ 11
    → Gives (λ out. (b : Bytes) × (out ≡ buf ++ b) × (decode_int b ≡ v)) (append_int buf v)
unfolding append_int itoa32 with_sign
append_int_round_trip buf (pos zero) hp hn = Gives-some (buf ++ (48 ∷ [])) (48 ∷ [], refl, refl)
append_int_round_trip buf (pos (suc n)) hp hn =
    let (r, is, reads) = pos_digits (suc n) (λ e. absurd (omega arith)) hp in
    rw (not_zero n, not_negative n, is) (Gives-some (buf ++ r.1) (r.1, refl, reads))
  where
    not_zero : (n : ℕ) → eqb_ℤ (pos (suc n)) (pos 0) ≡ false
    not_zero n = ground arith

    not_negative : (n : ℕ) → ltb_ℤ (pos (suc n)) (pos 0) ≡ false
    not_negative n = ground arith
append_int_round_trip buf (negsuc m) hp hn =
    let (r, is, p) = digits_loop-IsPrinted 11 (suc m) [] hn in
    let whole = digits_loop-suc 11 (suc m) [] r is in
    rw (is_negative, not_zero', negated m hn, whole)
      (Gives-some (buf ++ (45 ∷ r.1)) (45 ∷ r.1, refl, ap (sub_ℕ 0) p.reads ∙ back))
  where
    not_zero' : eqb_ℤ (negsuc m) (pos 0) ≡ false
    not_zero' = ground arith

    is_negative : ltb_ℤ (negsuc m) (pos 0) ≡ true
    is_negative = ground arith

    back : sub_ℕ 0 (suc m) ≡ negsuc m
    back = ground arith

-- `appendInt` panics on a number of more than 12 digits.
pub append_int_panics : (buf : Bytes) (n : ℕ) → 10 ^ 12 ≤ n → append_int buf (pos n) ≡ none
unfolding append_int itoa32
append_int_panics buf n large = rw (not_zero, not_negative, digits_loop-panics 12 n [] large) refl
  where
    not_zero : eqb_ℤ (pos n) (pos 0) ≡ false
    not_zero = ground arith

    not_negative : ltb_ℤ (pos n) (pos 0) ≡ false
    not_negative = ground arith
