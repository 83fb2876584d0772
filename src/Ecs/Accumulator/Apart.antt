-- ===== src/Ecs/Accumulator/Apart.antt =====
-- While no batch comes from the pool, batches do not share a cell with the pool (server/ecs/combat_accumulator.go).
use minnsun_s_adventure.Common.{
  ℕ, ◌+◌, ◌≤◌, ◌<◌, ◌≡◌, ◌≢◌, refl, sym, ap, ◌∙◌, ◌⊎◌, inl, inr, true, false, List, [], ◌∷◌, Option,
  none, some, arith, ltb, leb, Option-cases, Bool-cases, Eq-cases, ==_refl, ==_ne,
}
use minnsun_s_adventure.Common.Table.{none-some}
use minnsun_s_adventure.Common.Entries
use minnsun_s_adventure.Ecs.Entity.{Entity}
use minnsun_s_adventure.Ecs.Accumulator.{
  DamageBatch, no_damage, CombatAccumulator, write, append_pool, recycle_batch, flush_loop,
}

abbrev pub Batches : Type 0
Batches = List (Entity × ℕ)

-- What the callback is to find in a batch.
abbrev pub contents : (ℕ → DamageBatch) → Option ℕ → Option DamageBatch
contents heap none = none
contents heap (some b) = some (heap b)

-- The batches of the map are in use, outside the array of the pool, and different from each other.
pub record IsApart (m : Batches) (a : CombatAccumulator) : Type 0 where
  pub array : a.base + a.capacity ≤ a.next
  pub used : (t : Entity) (b : ℕ) → Entries.lookup t m ≡ some b → b < a.next
  pub outside :
      (t : Entity) (b : ℕ) → Entries.lookup t m ≡ some b → (b < a.base) ⊎ (a.base + a.capacity ≤ b)
  pub different :
      (t u : Entity) (b : ℕ) → Entries.lookup t m ≡ some b → Entries.lookup u m ≡ some b → t ≡ u

pub write_other :
    (a x : ℕ) (b : DamageBatch) (heap : ℕ → DamageBatch) → x ≢ a → write a b heap x ≡ heap x
write_other a x b heap ne = rw (==_ne x a ne) refl

not_cell :
    (a : CombatAccumulator) (c : ℕ)
    → a.length < a.capacity
    → (c < a.base) ⊎ (a.base + a.capacity ≤ c)
    → c ≢ a.base + a.length
not_cell a c lt (inl h) e = omega arith
not_cell a c lt (inr h) e = omega arith

-- An append to the pool leaves every cell in use outside its array.
append_pool_other :
    (spare : ℕ) (v : DamageBatch) (a : CombatAccumulator) (c : ℕ)
    → c < a.next
    → (c < a.base) ⊎ (a.base + a.capacity ≤ c)
    → (append_pool spare v a).heap c ≡ a.heap c
append_pool_other spare v a c used out = elim (Bool-cases (ltb a.length a.capacity)) [
  | inl e ↦
      rw (append_pool, e)
        (write_other (a.base + a.length) c v a.heap
          (not_cell a c (below a.length a.capacity e) out))
  | inr e ↦
      rw
        (
          append_pool,
          e,
          ==_ne c (a.next + a.length) (λ f. absurd (omega arith)),
          above c a.next used,
        )
        refl
]
  where
    below : (n m : ℕ) → ltb n m ≡ true → n < m
    below n m h = ground arith

    above : (c n : ℕ) → c < n → leb n c ≡ false
    above c n h = ground arith

append_pool-IsApart :
    (spare : ℕ) (v : DamageBatch) (m : Batches) (a : CombatAccumulator)
    → IsApart m a
    → IsApart m (append_pool spare v a)
append_pool-IsApart spare v m a h = elim (Bool-cases (ltb a.length a.capacity)) [
  | inl e ↦
      rw (append_pool, e)
        (record { array = h.array; used = h.used; outside = h.outside; different = h.different })
  | inr e ↦
      rw (append_pool, e)
        (record {
          array = omega arith;
          used = λ t b f. omega (arith, h.used t b f);
          outside = λ t b f. inl (h.used t b f);
          different = h.different;
        })
]

-- The callback finds in every batch what was in it before the loop.
pub flush_loop_sees :
    (spare : ℕ) (order : Batches) (a : CombatAccumulator)
    → Entries.IsMap order
    → IsApart order a
    → (t : Entity)
    → Entries.lookup t (flush_loop spare order a).0 ≡ contents a.heap (Entries.lookup t order)
unfolding flush_loop
flush_loop_sees spare [] a map h t = refl
flush_loop_sees spare ((u, b) ∷ order) a (new, map) h t = elim (Eq-cases t u) [
  | inl e ↦ rw (e, ==_refl u) refl
  | inr ne ↦ rw (==_ne t u ne) (flush_loop_sees spare order a' map apart t ∙ same)
]
  where
    a₁ : CombatAccumulator
    a₁ = record a { heap = write b no_damage a.heap }

    a' : CombatAccumulator
    a' = recycle_batch spare b a

    later : (v : Entity) (c : ℕ) → Entries.lookup v order ≡ some c → v ≢ u
    later v c f e =
        none-some (Entries.lookup u order) new (ap (λ x. Entries.lookup x order) (sym e) ∙ f)

    there :
        (v : Entity) (c : ℕ)
        → Entries.lookup v order ≡ some c
        → Entries.lookup v ((u, b) ∷ order) ≡ some c
    there v c f = rw (==_ne v u (later v c f)) f

    head : (c : ℕ) → c ≡ b → Entries.lookup u ((u, b) ∷ order) ≡ some c
    head c e = rw (==_refl u) (ap some (sym e))

    rest : IsApart order a₁
    rest = record {
      array = h.array;
      used = λ v c f. h.used v c (there v c f);
      outside = λ v c f. h.outside v c (there v c f);
      different = λ v w c f g. h.different v w c (there v c f) (there w c g);
    }

    apart : IsApart order a'
    apart = append_pool-IsApart spare no_damage order a₁ rest

    same : contents a'.heap (Entries.lookup t order) ≡ contents a.heap (Entries.lookup t order)
    same = elim (Option-cases (Entries.lookup t order)) [
      | inl f ↦ rw f refl
      | inr (c, f) ↦ rw f (
          ap some (
            append_pool_other spare no_damage a₁ c (rest.used t c f) (rest.outside t c f)
            ∙ write_other b c no_damage a.heap
                (λ e. later t c f (h.different t u c (there t c f) (head c e)))))
    ]
