-- ===== src/Game/Trade/Bags.antt =====
-- What the loops of a swap (server/game/trade.go) do to the quantity of one item.
use minnsun_s_adventure.Common.{
  ℕ, ◌+◌, ◌-◌, ◌^◌, ◌≤◌, ◌<◌, ◌≡◌, ◌≢◌, refl, sym, ap, ◌∙◌, inl, inr, Bool, true, false, ◌||◌, List,
  [], ◌∷◌, none, some, arith, ◌==◌, if◌then◌else◌, Eq-cases, ==_ne, ==_refl,
}
use minnsun_s_adventure.Common.Int.{ℤ, pos, ◌+ℤ◌, ◌-ℤ◌, ltb_ℤ, int64, pos_part}
use minnsun_s_adventure.Common.Table.{insert}
use minnsun_s_adventure.Common.Entries
use minnsun_s_adventure.Ecs.Components.{Items, quantity}
use minnsun_s_adventure.Game.Trade.{offered, deduct, deduct_all, inject, inject_all, lacks_some}

-- An item has a natural quantity below 2 ^ 62.
unfoldable pub IsStock : Items → Type 0
IsStock items = (i : ℕ) → (n : ℕ) × (quantity i items ≡ pos n) × (n < 2 ^ 62)

-- Distinct items, in positive quantities below 2 ^ 62.
unfoldable pub IsOffer : List (ℕ × ℤ) → Type 0
IsOffer [] = Unit
IsOffer ((i, q) ∷ m) =
    (Entries.lookup i m ≡ none) × ((n : ℕ) × (q ≡ pos n) × (0 < n) × (n < 2 ^ 62)) × IsOffer m

-- The number of pieces of an item in an offer, and in a bag.
abbrev pub pieces : ℕ → List (ℕ × ℤ) → ℕ
pieces i m = pos_part (offered i m)

abbrev pub stock : ℕ → Items → ℕ
stock i items = pos_part (quantity i items)

sub_exact : (a b : ℕ) → b ≤ a → a < 2 ^ 63 → int64 (pos a -ℤ pos b) ≡ pos (a - b)
unfolding ◌-ℤ◌ int64
sub_exact a b h l = ground arith

pub add_exact : (a b : ℕ) → a + b < 2 ^ 63 → int64 (pos a +ℤ pos b) ≡ pos (a + b)
unfolding ◌+ℤ◌ int64
add_exact a b l = ground arith

quantity-insert_self : (i : ℕ) (v : ℤ) (items : Items) → quantity i (insert i v items) ≡ v
quantity-insert_self i v items =
    ap (λ b. elim (if b then some v else items i) [ none ↦ pos 0 | some n ↦ n ]) (==_refl i)

quantity-insert_other :
    (i j : ℕ) (v : ℤ) (items : Items) → i ≢ j → quantity j (insert i v items) ≡ quantity j items
quantity-insert_other i j v items ne =
    ap (λ b. elim (if b then some v else items j) [ none ↦ pos 0 | some n ↦ n ]) (==_ne i j ne)

pieces-cons_self : (j : ℕ) (q : ℤ) (m : List (ℕ × ℤ)) → pieces j ((j, q) ∷ m) ≡ pos_part q
pieces-cons_self j q m =
    ap
      (λ b.
        pos_part (elim (if b then some q else Entries.lookup j m) [ none ↦ pos 0 | some n ↦ n ]))
      (==_refl j)

pieces-cons_other :
    (i j : ℕ) (q : ℤ) (m : List (ℕ × ℤ)) → i ≢ j → pieces j ((i, q) ∷ m) ≡ pieces j m
pieces-cons_other i j q m ne =
    ap
      (λ b.
        pos_part (elim (if b then some q else Entries.lookup j m) [ none ↦ pos 0 | some n ↦ n ]))
      (==_ne j i (λ e. ne (sym e)))

pieces-fresh : (j : ℕ) (m : List (ℕ × ℤ)) → Entries.lookup j m ≡ none → pieces j m ≡ 0
pieces-fresh j m e = ap (λ o. pos_part (elim o [ none ↦ pos 0 | some n ↦ n ])) e

pub quantity-deduct_self :
    (i : ℕ) (items : Items) (a b : ℕ)
    → quantity i items ≡ pos a
    → b ≤ a
    → a < 2 ^ 63
    → quantity i (deduct i (pos b) items) ≡ pos (a - b)
quantity-deduct_self i items a b e h l = rw e (ground (arith, sub_exact a b h l))

pub quantity-deduct_other :
    (i j : ℕ) (q : ℤ) (items : Items) → i ≢ j → quantity j (deduct i q items) ≡ quantity j items
quantity-deduct_other i j q items ne = ground (arith, ==_ne i j ne)

pub quantity-inject_self :
    (i : ℕ) (items : Items) (a b : ℕ)
    → quantity i items ≡ pos a
    → a + b < 2 ^ 63
    → quantity i (inject i (pos b) items) ≡ pos (a + b)
quantity-inject_self i items a b e l =
    quantity-insert_self i _ items ∙ ap (λ x. int64 (x +ℤ pos b)) e ∙ add_exact a b l

pub quantity-inject_other :
    (i j : ℕ) (q : ℤ) (items : Items) → i ≢ j → quantity j (inject i q items) ≡ quantity j items
quantity-inject_other i j q items ne = quantity-insert_other i j _ items ne

-- How many of the pieces of item j stand in the entry of i.
abbrev taken : ℕ → ℕ → ℕ → ℕ
taken j i n = if j == i then n else 0

taken_self : (i n : ℕ) → taken i i n ≡ n
taken_self i n = ap (λ b. if b then n else 0) (==_refl i)

taken_other : (j i n : ℕ) → j ≢ i → taken j i n ≡ 0
taken_other j i n ne = ap (λ b. if b then n else 0) (==_ne j i ne)

taken_is : (j i n : ℕ) → j ≡ i → taken j i n ≡ n
taken_is j i n same = ap (λ x. taken x i n) same ∙ taken_self i n

module _ (i : ℕ) (q : ℤ) (n : ℕ) (eq : q ≡ pos n) where
  pieces-cons :
      (j : ℕ) (m : List (ℕ × ℤ))
      → Entries.lookup i m ≡ none
      → pieces j ((i, q) ∷ m) ≡ taken j i n + pieces j m
  pieces-cons j m fresh = elim (Eq-cases j i) [
    | inl same ↦
        rw (same, taken_self i n, pieces-fresh i m fresh, pieces-cons_self i q m, eq) (omega arith)
    | inr ne ↦ rw (taken_other j i n ne) (pieces-cons_other i j q m (λ s. ne (sym s)) ∙ omega arith)
  ]

  quantity-deduct :
      (j : ℕ) (items : Items) (a : ℕ)
      → quantity j items ≡ pos a
      → taken j i n ≤ a
      → a < 2 ^ 63
      → quantity j (deduct i q items) ≡ pos (a - taken j i n)
  quantity-deduct j items a e le l = elim (Eq-cases j i) [
    | inl same ↦
        rw (same, taken_self i n)
          (ap (λ x. quantity i (deduct i x items)) eq
            ∙ quantity-deduct_self i items a n (ap (λ x. quantity x items) (sym same) ∙ e)
                (omega (arith, taken_is j i n same)) l)
    | inr ne ↦
        rw (taken_other j i n ne)
          (quantity-deduct_other i j q items (λ s. ne (sym s)) ∙ e ∙ ap pos (omega arith))
  ]

  quantity-inject :
      (j : ℕ) (items : Items) (a : ℕ)
      → quantity j items ≡ pos a
      → a + taken j i n < 2 ^ 63
      → quantity j (inject i q items) ≡ pos (a + taken j i n)
  quantity-inject j items a e l = elim (Eq-cases j i) [
    | inl same ↦
        rw (same, taken_self i n)
          (ap (λ x. quantity i (inject i x items)) eq
            ∙ quantity-inject_self i items a n (ap (λ x. quantity x items) (sym same) ∙ e)
                (omega (arith, taken_is j i n same)))
    | inr ne ↦
        rw (taken_other j i n ne)
          (quantity-inject_other i j q items (λ s. ne (sym s)) ∙ e ∙ ap pos (omega arith))
  ]

-- The loop of deductions takes the pieces of an offer that the bag covers.
pub quantity-deduct_all :
    (j : ℕ) (m : List (ℕ × ℤ)) (items : Items) (a : ℕ)
    → IsOffer m
    → quantity j items ≡ pos a
    → pieces j m ≤ a
    → a < 2 ^ 63
    → quantity j (deduct_all m items) ≡ pos (a - pieces j m)
unfolding IsOffer
quantity-deduct_all j [] items a h e le l = e ∙ ap pos (omega arith)
quantity-deduct_all j ((i, q) ∷ m) items a (fresh, (n, eq, positive, small), h) e le l =
    let cut = pieces-cons i q n eq j m fresh in
    quantity-deduct_all j m (deduct i q items) (a - taken j i n) h
      (quantity-deduct i q n eq j items a e (omega (arith, cut)) l) (omega (arith, cut))
      (omega arith)
    ∙ ap pos (omega (arith, cut))

pub quantity-inject_all :
    (j : ℕ) (m : List (ℕ × ℤ)) (items : Items) (a : ℕ)
    → IsOffer m
    → quantity j items ≡ pos a
    → a + pieces j m < 2 ^ 63
    → quantity j (inject_all m items) ≡ pos (a + pieces j m)
unfolding IsOffer
quantity-inject_all j [] items a h e l = e ∙ ap pos (omega arith)
quantity-inject_all j ((i, q) ∷ m) items a (fresh, (n, eq, positive, small), h) e l =
    let cut = pieces-cons i q n eq j m fresh in
    quantity-inject_all j m (inject i q items) (a + taken j i n) h
      (quantity-inject i q n eq j items a e (omega (arith, cut))) (omega (arith, cut))
    ∙ ap pos (omega (arith, cut))

or_false : (b c : Bool) → b || c ≡ false → (b ≡ false) × (c ≡ false)
or_false true c h = absurd (cc)
or_false false c h = (refl, h)

not_below : (a n : ℕ) → ltb_ℤ (pos a) (pos n) ≡ false → n ≤ a
not_below a n h = ground arith

-- A bag that passes the check of a swap covers the offer.
pub covers_of_check :
    (j : ℕ) (m : List (ℕ × ℤ)) (items : Items) (a : ℕ)
    → IsOffer m
    → lacks_some m items ≡ false
    → quantity j items ≡ pos a
    → pieces j m ≤ a
unfolding IsOffer
covers_of_check j [] items a h ok e = omega arith
covers_of_check j ((i, q) ∷ m) items a (fresh, (n, eq, positive, small), h) ok e =
    let (head, rest) = or_false _ _ ok in
    let cut = pieces-cons i q n eq j m fresh in
    elim (Eq-cases j i) [
      | inl same ↦
          let there = ap (λ x. quantity x items) (sym same) ∙ e in
          let enough =
            not_below a n (sym (ap (ltb_ℤ (pos a)) eq) ∙ sym (ap (λ x. ltb_ℤ x q) there) ∙ head) in
          omega (
            arith,
            cut,
            taken_is j i n same,
            ap (λ x. pieces x m) same,
            pieces-fresh i m fresh,
            enough,
          )
      | inr ne ↦ omega (arith, cut, taken_other j i n ne, covers_of_check j m items a h rest e)
    ]

pub pieces_small : (j : ℕ) (m : List (ℕ × ℤ)) → IsOffer m → pieces j m < 2 ^ 62
unfolding IsOffer
pieces_small j [] h = ground arith
pieces_small j ((i, q) ∷ m) (fresh, (n, eq, positive, small), h) =
    ground (arith, pieces_small j m h)
