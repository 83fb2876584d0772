-- ===== src/Peakgo/Loot/Rolls.antt =====
-- One roll of a loot table (server/peakgo/loot/loot.go).
use mathlib.Core.Path.{subst}
use native.Mathlib.Nat.{mod-lt}
use minnsun_s_adventure.Common.{
  ℕ, ◌+◌, ◌-◌, ◌%◌, ◌^◌, ◌≤◌, ◌<◌, ◌≡◌, refl, sym, ap, ◌∙◌, ◌⊎◌, inl, inr, Bool, true, false, ◌||◌,
  List, [], ◌∷◌, ◌++◌, Option, none, some, arith, ◌==◌, if◌then◌else◌, length, Bool-cases,
}
use minnsun_s_adventure.Common.Partial.{◌>>=◌, Gives, Gives-some, Gives-bind, Gives-map}
use minnsun_s_adventure.Common.Int.{
  ℤ, pos, pos_part, neg_part, ◌+ℤ◌, ◌-ℤ◌, ltb_ℤ, leb_ℤ, ◌≤ℤ◌, int64, int64_exact, +ℤ_parts,
  -ℤ_parts, eq_of_parts,
}
use minnsun_s_adventure.Peakgo.Rng.{Draws, intn}
use minnsun_s_adventure.Peakgo.Loot.{
  DropEntry, Drop, no_drop, DropContext, LootTable, add_weights, select, eligible, quantity_of,
  roll_single,
}
use minnsun_s_adventure.Peakgo.Loot.Selection.{
  All, OneOf, IsSane, total, IsEligible, consider-IsKept, select_lem, add_weights-total,
}

-- Entries that stand in the table and are eligible.
abbrev AreFrom :
    Option (DropEntry → DropContext → Bool) → DropContext → List DropEntry → List DropEntry → Type 0
AreFrom cond ctx es es' = All (λ e. OneOf (λ d. (d ≡ e) × IsEligible cond ctx d) es) es'

later :
    (cond : Option (DropEntry → DropContext → Bool)) (ctx : DropContext) (e : DropEntry)
    (es es' : List DropEntry)
    → AreFrom cond ctx es es'
    → AreFrom cond ctx (e ∷ es) es'
later cond ctx e es [] h = tt
later cond ctx e es (x ∷ xs) (h, hs) = (inr h, later cond ctx e es xs hs)

eligible-AreFrom :
    (draws : Draws) (cond : Option (DropEntry → DropContext → Bool)) (ctx : DropContext)
    (es : List DropEntry) (i : ℕ)
    → Gives (λ r. AreFrom cond ctx es r.0 × (total r.0 ≤ total es)) (eligible draws cond ctx es i)
eligible-AreFrom draws cond ctx [] i = Gives-some ([], i) (tt, omega arith)
eligible-AreFrom draws cond ctx (e ∷ es) i =
    Gives-bind (consider-IsKept draws cond ctx e i) λ r kept.
      Gives-bind (eligible-AreFrom draws cond ctx es r.1)
        λ r' from. Gives-some (if r.0 then e ∷ r'.0 else r'.0, r'.1) (keep r.0 r'.0 kept from)
  where
    keep :
        (b : Bool) (es' : List DropEntry)
        → (b ≡ true → IsEligible cond ctx e)
        → AreFrom cond ctx es es' × (total es' ≤ total es)
        → AreFrom cond ctx (e ∷ es) (if b then e ∷ es' else es')
          × (total (if b then e ∷ es' else es') ≤ total (e ∷ es))
    keep true es' ok (from, le) = ((inl (refl, ok refl), later cond ctx e es es' from), omega arith)
    keep false es' ok (from, le) = (later cond ctx e es es' from, omega arith)

IsSane-one :
    (cond : Option (DropEntry → DropContext → Bool)) (ctx : DropContext) (e : DropEntry)
    (es : List DropEntry)
    → All IsSane es
    → OneOf (λ d. (d ≡ e) × IsEligible cond ctx d) es
    → IsSane e
IsSane-one cond ctx e [] sane one = absurd one
IsSane-one cond ctx e (d ∷ es) (s, sane) (inl (is, _)) = subst IsSane is s
IsSane-one cond ctx e (d ∷ es) (s, sane) (inr one) = IsSane-one cond ctx e es sane one

IsSane-All :
    (cond : Option (DropEntry → DropContext → Bool)) (ctx : DropContext) (es es' : List DropEntry)
    → All IsSane es
    → AreFrom cond ctx es es'
    → All IsSane es'
IsSane-All cond ctx es [] sane from = tt
IsSane-All cond ctx es (x ∷ xs) sane (h, hs) =
    (IsSane-one cond ctx x es sane h, IsSane-All cond ctx es xs sane hs)

-- An entry in the middle of a list.
pick :
    (P : DropEntry → Type 0) (before : List DropEntry) (e : DropEntry) (rest : List DropEntry)
    → All P (before ++ (e ∷ rest))
    → P e
pick P [] e rest (h, hs) = h
pick P (x ∷ xs) e rest (h, hs) = pick P xs e rest hs

one_map :
    (P Q : DropEntry → Type 0) (es : List DropEntry)
    → ((d : DropEntry) → P d → Q d)
    → OneOf P es
    → OneOf Q es
one_map P Q [] f one = absurd one
one_map P Q (d ∷ es) f (inl p) = inl (f d p)
one_map P Q (d ∷ es) f (inr one) = inr (one_map P Q es f one)

exact : (v : ℤ) (n : ℕ) → n < 2 ^ 63 → pos_part v ≡ neg_part v + n → int64 v ≡ pos n
exact v n small is =
    ap int64 (eq_of_parts v (pos n) (omega arith)) ∙ int64_exact (pos n) (small, omega arith)

abbrev IsQuantity : DropEntry → ℤ → Type 0
IsQuantity e q = (e.min_qty ≤ℤ q) × (e.min_qty ≤ℤ e.max_qty → q ≤ℤ e.max_qty)

quantity_of-IsQuantity :
    (draws : Draws) (e : DropEntry) (i : ℕ)
    → IsSane e
    → Gives (λ r. IsQuantity e r.0) (quantity_of draws e i)
unfolding quantity_of intn
quantity_of-IsQuantity draws e i (_, a0, b0, a_small, b_small) =
    elim (Bool-cases (ltb_ℤ e.min_qty e.max_qty)) [
      | inr h ↦ rw h (Gives-some (e.min_qty, i) (omega arith, λ le. le))
      | inl h ↦
          let a = pos_part e.min_qty in
          let b = pos_part e.max_qty in
          let below : a < b = ground arith in
          let range : int64 (int64 (e.max_qty -ℤ e.min_qty) +ℤ pos 1) ≡ pos (b - a + 1) =
            ap (λ v. int64 (v +ℤ pos 1))
              (exact (e.max_qty -ℤ e.min_qty) (b - a) (omega arith)
                (omega (arith, -ℤ_parts e.max_qty e.min_qty)))
            ∙ exact (pos (b - a) +ℤ pos 1) (b - a + 1) (omega arith)
                (omega (arith, +ℤ_parts (pos (b - a)) (pos 1))) in
          let n = draws i % (b - a + 1) in
          let n_lt : n < b - a + 1 = mod-lt (draws i) (omega arith) in
          let sum : int64 (e.min_qty +ℤ pos n) ≡ pos (a + n) =
            exact (e.min_qty +ℤ pos n) (a + n) (omega arith)
              (omega (arith, +ℤ_parts e.min_qty (pos n))) in
          rw (h, range, some_range (b - a), sum)
            (Gives-some (pos (a + n), i + 1) (omega arith, λ le. omega arith))
    ]
  where
    some_range : (k : ℕ) → (k + 1 == 0) ≡ false
    some_range k = ground arith

-- What a roll gives: nothing, or an eligible entry's item in a quantity of the entry's range.
abbrev pub IsDropOf : DropContext → LootTable → Drop → Type 0
IsDropOf ctx t drop =
    (drop ≡ no_drop)
    ⊎ OneOf
        (λ e.
          (drop.item_id ≡ e.item_id)
          × IsEligible t.custom_cond ctx e
          × (e.min_qty ≤ℤ drop.qty)
          × (e.min_qty ≤ℤ e.max_qty → drop.qty ≤ℤ e.max_qty))
        t.entries

-- `Intn` of a positive number.
intn-some :
    (draws : Draws) (n i : ℕ) → 0 < n → intn draws (pos n) i ≡ some (pos (draws i % n), i + 1)
unfolding intn
intn-some draws n i h = ground arith

module _ (draws : Draws) (ctx : DropContext) (t : LootTable) (sane : All IsSane t.entries)
    (small : total t.entries < 2 ^ 63) where
  -- The draw, on the eligible entries.
  draw-IsDropOf :
      (es : List DropEntry) (i : ℕ)
      → AreFrom t.custom_cond ctx t.entries es
      → total es ≤ total t.entries
      → 0 < total es
      → (e : DropEntry) × (select (pos (draws i % total es)) (pos 0) es ≡ some e)
        × Gives
            (λ r. IsDropOf ctx t (record { item_id = e.item_id; qty = r.0 }))
            (quantity_of draws e (i + 1))
  draw-IsDropOf es i from le positive =
      let all = IsSane-All t.custom_cond ctx t.entries es sane from in
      let (before, e, rest, is, picks, _, _) =
        select_lem (draws i % total es) 0 es all (omega arith)
          (omega (arith, mod-lt (draws i) positive)) (omega arith) in
      let one =
        pick (λ x. OneOf (λ d. (d ≡ x) × IsEligible t.custom_cond ctx d) t.entries) before e rest
          (subst (λ xs. AreFrom t.custom_cond ctx t.entries xs) is from) in
      (
        e,
        picks,
        Gives-map
            (quantity_of-IsQuantity draws e (i + 1)
              (IsSane-one t.custom_cond ctx e t.entries sane one))
            (λ r q. inr (
              one_map (λ d. (d ≡ e) × IsEligible t.custom_cond ctx d)
                (λ d.
                  (e.item_id ≡ d.item_id)
                  × IsEligible t.custom_cond ctx d
                  × (d.min_qty ≤ℤ r.0)
                  × (d.min_qty ≤ℤ d.max_qty → r.0 ≤ℤ d.max_qty))
                t.entries
                (λ d p. (
                  ap (λ x. x.item_id) (sym p.0),
                  p.1,
                  (subst (λ x. IsQuantity x r.0) (sym p.0) q).0,
                  (subst (λ x. IsQuantity x r.0) (sym p.0) q).1,
                ))
                one)),
      )

  -- On a table of sane entries whose weights add up to less than 2^63, `rollSingle` does not panic, and gives
  -- nothing or the item of an entry whose level and condition are met, in a quantity of the entry's range.
  pub roll_single-IsDropOf : (i : ℕ) → Gives (λ r. IsDropOf ctx t r.0) (roll_single draws ctx t i)
  unfolding roll_single
  roll_single-IsDropOf i = elim (Bool-cases (leb_ℤ t.total_weight (pos 0))) [
    | inl h ↦ rw h (Gives-some (no_drop, i) (inl refl))
    | inr h ↦ rw h (
        Gives-bind (eligible-AreFrom draws t.custom_cond ctx t.entries i) λ r from.
          let weight : add_weights (pos 0) r.0 ≡ pos (total r.0) =
            add_weights-total 0 r.0 (IsSane-All t.custom_cond ctx t.entries r.0 sane from.0)
              (omega (arith, from.1))
            ∙ ap pos (omega arith) in
          rw weight (elim (Bool-cases ((length r.0 == 0) || leb_ℤ (pos (total r.0)) (pos 0))) [
            | inl e ↦ rw e (Gives-some (no_drop, r.1) (inl refl))
            | inr e ↦
                let positive = some_weight (length r.0 == 0) (total r.0) e in
                let (entry, picks, (q, is, ok)) = draw-IsDropOf r.0 r.1 from.0 from.1 positive in
                rw e (
                  subst (λ o. Gives {A = Drop × ℕ} (λ x. IsDropOf ctx t x.0) (o >>= drawn r.0))
                    (sym (intn-some draws (total r.0) r.1 positive))
                    (subst
                      (λ o. Gives {A = Drop × ℕ} (λ x. IsDropOf ctx t x.0) (chosen o (r.1 + 1)))
                      (sym picks)
                      (subst
                        (λ o.
                          Gives {A = Drop × ℕ} (λ x. IsDropOf ctx t x.0)
                            (o >>= λ x. some (record { item_id = entry.item_id; qty = x.0 }, x.1)))
                        (sym is)
                        (Gives-some (record { item_id = entry.item_id; qty = q.0 }, q.1) ok))))
          ]))
  ]
    where
      some_weight : (b : Bool) (n : ℕ) → (b || leb_ℤ (pos n) (pos 0)) ≡ false → 0 < n
      some_weight b n h = ground arith

      chosen : Option DropEntry → ℕ → Option (Drop × ℕ)
      chosen o i₂ = elim o [
        | none ↦ some (no_drop, i₂)
        | some e ↦
            (quantity_of draws e i₂ >>= λ x. some (record { item_id = e.item_id; qty = x.0 }, x.1))
      ]

      drawn : List DropEntry → ℤ × ℕ → Option (Drop × ℕ)
      drawn es p = chosen (select p.0 (pos 0) es) p.1
