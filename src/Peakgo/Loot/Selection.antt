-- ===== src/Peakgo/Loot/Selection.antt =====
-- An entry is selected by weight (server/peakgo/loot/loot.go).
use minnsun_s_adventure.Common.{
  ℕ, ◌+◌, ◌%◌, ◌^◌, ◌≤◌, ◌<◌, ◌≡◌, refl, ap, ◌∙◌, ◌⊎◌, inl, inr, Bool, true, false, ◌&&◌, not, List,
  [], ◌∷◌, ◌++◌, Option, some, arith, Bool-cases,
}
use minnsun_s_adventure.Common.Partial.{Gives, Gives-some}
use minnsun_s_adventure.Common.Int.{
  ℤ, pos, negsuc, pos_part, neg_part, ◌+ℤ◌, ltb_ℤ, leb_ℤ, ◌≤ℤ◌, int64, int64_exact, +ℤ_parts,
  eq_of_parts,
}
use minnsun_s_adventure.Peakgo.Rng.{Draws, intn}
use minnsun_s_adventure.Peakgo.Loot.{DropEntry, DropContext, add_weights, select, meets, consider}

-- P holds of every entry, or of one.
abbrev pub All : (DropEntry → Type 0) → List DropEntry → Type 0
All P [] = Unit {0}
All P (e ∷ es) = P e × All P es

abbrev pub OneOf : (DropEntry → Type 0) → List DropEntry → Type 0
OneOf P [] = ⊥
OneOf P (e ∷ es) = P e ⊎ OneOf P es

-- An entry as tables have them: its numbers are not negative, and a quantity fits in 62 bits.
abbrev pub IsSane : DropEntry → Type 0
IsSane e =
    (neg_part e.weight ≡ 0)
    × (neg_part e.min_qty ≡ 0)
    × (neg_part e.max_qty ≡ 0)
    × (pos_part e.min_qty < 2 ^ 62)
    × (pos_part e.max_qty < 2 ^ 62)

abbrev pub total : List DropEntry → ℕ
total [] = 0
total (e ∷ es) = pos_part e.weight + total es

of_parts : (v : ℤ) → neg_part v ≡ 0 → v ≡ pos (pos_part v)
of_parts (pos n) h = refl
of_parts (negsuc n) h = absurd (omega arith)

plus_exact :
    (a : ℕ) (v : ℤ)
    → neg_part v ≡ 0
    → a + pos_part v < 2 ^ 63
    → int64 (pos a +ℤ v) ≡ pos (a + pos_part v)
plus_exact a v h small =
    ap int64 (eq_of_parts (pos a +ℤ v) (pos (a + pos_part v)) (omega (arith, +ℤ_parts (pos a) v)))
    ∙ int64_exact (pos (a + pos_part v)) (omega arith, omega arith)

pub add_weights-total :
    (a : ℕ) (es : List DropEntry)
    → All IsSane es
    → a + total es < 2 ^ 63
    → add_weights (pos a) es ≡ pos (a + total es)
add_weights-total a [] sane small = ap pos (omega arith)
add_weights-total a (e ∷ es) (s, sane) small =
    ap (λ v. add_weights v es) (plus_exact a e.weight s.0 (omega arith))
    ∙ add_weights-total (a + pos_part e.weight) es sane (omega arith)
    ∙ ap pos (omega arith)

-- Where the roll is below the sum of the weights, the loop selects the entry in whose interval it lies: the
-- weights before the entry add up to at most the roll, and with the entry's own to more.
pub select_lem :
    (r a : ℕ) (es : List DropEntry)
    → All IsSane es
    → a ≤ r
    → r < a + total es
    → a + total es < 2 ^ 63
    → (before : List DropEntry) × (e : DropEntry) × (later : List DropEntry) × (es
        ≡ before ++ (e ∷ later))
      × (select (pos r) (pos a) es ≡ some e)
      × (a + total before ≤ r)
      × (r < a + total before + pos_part e.weight)
select_lem r a [] sane le lt small = absurd (omega arith)
select_lem r a (e ∷ es) (s, sane) le lt small =
    let b = a + pos_part e.weight in
    let next : int64 (pos a +ℤ e.weight) ≡ pos b = plus_exact a e.weight s.0 (omega arith) in
    elim (Bool-cases (ltb_ℤ (pos r) (pos b))) [
      | inl h ↦ ([], e, es, refl, rw (next, h) refl, omega arith, ground arith)
      | inr h ↦
          let (before, e', later, is, picks, low, high) =
            select_lem r b es sane (ground arith) (omega arith) (omega arith) in
          (
            e ∷ before,
            e',
            later,
            ap (λ xs. e ∷ xs) is,
            rw (next, h) picks,
            omega arith,
            omega arith,
          )
    ]

-- The level and the condition that an entry has to meet.
abbrev pub IsEligible : Option (DropEntry → DropContext → Bool) → DropContext → DropEntry → Type 0
IsEligible cond ctx e =
    ((e.required_level ≤ℤ pos 0) ⊎ (e.required_level ≤ℤ ctx.killer_level))
    × (meets cond e ctx ≡ true)

abbrev pub IsKept :
    Option (DropEntry → DropContext → Bool) → DropContext → DropEntry → Bool × ℕ → Type 0
IsKept cond ctx e r = r.0 ≡ true → IsEligible cond ctx e

level_ok : (q k : ℤ) → (ltb_ℤ (pos 0) q && ltb_ℤ k q) ≡ false → (q ≤ℤ pos 0) ⊎ (q ≤ℤ k)
level_ok q k h = elim (Bool-cases (ltb_ℤ (pos 0) q)) [
  | inl e ↦ inr (ground arith)
  | inr e ↦ inl (ground arith)
]

module _ (draws : Draws) (cond : Option (DropEntry → DropContext → Bool)) (ctx : DropContext) where
  pub consider-IsKept :
      (e : DropEntry) (i : ℕ) → Gives (IsKept cond ctx e) (consider draws cond ctx e i)
  unfolding consider intn
  consider-IsKept e i =
      elim (Bool-cases
        (ltb_ℤ (pos 0) e.required_level && ltb_ℤ ctx.killer_level e.required_level)) [
          | inl h ↦ rw h (Gives-some (false, i) (λ f. absurd (cc)))
          | inr h ↦ elim (Bool-cases (meets cond e ctx)) [
            | inr m ↦ rw (h, m) (Gives-some (false, i) (λ f. absurd (cc)))
            | inl m ↦
                let ok = level_ok e.required_level ctx.killer_level h in
                elim (Bool-cases (ltb_ℤ (pos 0) e.chance && ltb_ℤ e.chance (pos 1000))) [
                  | inl c ↦
                      rw (h, m, c)
                        (Gives-some (not (leb_ℤ e.chance (pos (draws i % 1000))), i + 1)
                          (λ f. (ok, refl)))
                  | inr c ↦ rw (h, m, c) (Gives-some (true, i) (λ f. (ok, refl)))
                ]
          ]
        ]
