-- ===== src/Common/Table.antt =====
-- Go maps that are read and written, but not ranged over: functions from the keys.
use minnsun_s_adventure.Common.{
  ℕ, Bool, true, false, Option, none, some, ◌==◌, if◌then◌else◌, ◌≡◌, ◌≢◌, refl, ◌⊎◌, inl, inr, sym,
  ap, ◌∙◌, ==_refl, ==_ne, Eq-cases, some_inj,
}

-- `map[uint64]V`, read and written.
abbrev pub Table {ℓ} : Type ℓ → Type ℓ
Table V = ℕ → Option V

module _ {ℓ} {V : Type ℓ} where
  -- `make(map[uint64]V)`
  abbrev pub empty : Table V
  empty k = none

  -- `m[k] = v`
  abbrev pub insert : ℕ → V → Table V → Table V
  insert k v m j = if k == j then some v else m j

  -- `delete(m, k)`
  abbrev pub erase : ℕ → Table V → Table V
  erase k m j = if k == j then none else m j

-- `_, ok := m[k]`
abbrev pub is_some {ℓ} : {V : Type ℓ} → Option V → Bool
is_some none = false
is_some (some _) = true

module _ {ℓ} {V : Type ℓ} where
  pub insert_self : (k : ℕ) (v : V) (m : Table V) → insert k v m k ≡ some v
  insert_self k v m = ap (λ b. if b then some v else m k) (==_refl k)

  pub insert_other : (k j : ℕ) (v : V) (m : Table V) → k ≢ j → insert k v m j ≡ m j
  insert_other k j v m ne = ap (λ b. if b then some v else m j) (==_ne k j ne)

  pub erase_self : (k : ℕ) (m : Table V) → erase k m k ≡ none
  erase_self k m = ap (λ b. if b then none else m k) (==_refl k)

  pub erase_other : (k j : ℕ) (m : Table V) → k ≢ j → erase k m j ≡ m j
  erase_other k j m ne = ap (λ b. if b then none else m j) (==_ne k j ne)

  -- What is found after a write, and after a deletion.
  pub insert-some :
      (k j : ℕ) (v w : V) (m : Table V)
      → insert k v m j ≡ some w
      → ((k ≡ j) × (v ≡ w)) ⊎ ((k ≢ j) × (m j ≡ some w))
  insert-some k j v w m h = elim (Eq-cases k j) [
    | inl same ↦ inl (same, some_inj (sym (insert_self k v m) ∙ ap (insert k v m) same ∙ h))
    | inr ne ↦ inr (ne, sym (insert_other k j v m ne) ∙ h)
  ]

  pub erase-some : (k j : ℕ) (w : V) (m : Table V) → erase k m j ≡ some w → (k ≢ j) × (m j ≡ some w)
  erase-some k j w m h = elim (Eq-cases k j) [
    | inl same ↦ let gone = sym (erase_self k m) ∙ ap (erase k m) same ∙ h in absurd (cc)
    | inr ne ↦ (ne, sym (erase_other k j m ne) ∙ h)
  ]

  pub some-both : (o : Option V) {v w : V} → o ≡ some v → o ≡ some w → v ≡ w
  some-both o e f = some_inj (sym e ∙ f)

  pub none-some : (o : Option V) {v : V} → o ≡ none → o ≡ some v → ⊥
  none-some o e f = cc

pub none-of_not_some {ℓ} : {V : Type ℓ} (o : Option V) → is_some o ≡ false → o ≡ none
none-of_not_some none h = refl
none-of_not_some (some v) h = absurd (cc)
