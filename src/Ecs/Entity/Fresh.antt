-- ===== src/Ecs/Entity/Fresh.antt =====
-- The IDs in use have different indices, for as long as each is released once.
use minnsun_s_adventure.Common.{
  ℕ, ◌+◌, ◌-◌, ◌%◌, ◌^◌, ◌≤◌, ◌<◌, ◌≡◌, ◌≢◌, refl, sym, List, [], ◌∷◌, arith, ◌⊎◌, inl, inr,
  Eq-cases, ==_ne,
}
use mathlib.Core.Path.{subst}
use minnsun_s_adventure.Ecs.Entity.{
  Entity, entity_index, entity_generation, make_entity, with_generation_one, FreeList, Ids,
  new_entity,
}

-- No entity of the list has this index.
abbrev pub Lacks : ℕ → List Entity → Type 0
Lacks idx [] = Unit
Lacks idx (e ∷ es) = (entity_index e ≢ idx) × Lacks idx es

-- The indices lie in 1 … n, and no two are the same.
abbrev pub AreIssued : ℕ → List Entity → Type 0
AreIssued n [] = Unit
AreIssued n (e ∷ es) =
    (0 < entity_index e) × (entity_index e ≤ n) × Lacks (entity_index e) es × AreIssued n es

-- The live IDs and the released ones, against the counter.
pub record IsSound (live : List Entity) (a : Ids) : Type 0 where
  pub counter : a.next_id < 2 ^ 32 - 1
  pub live_issued : AreIssued a.next_id live
  pub free_issued : AreIssued a.next_id a.free
  pub apart : (idx : ℕ) → (Lacks idx live) ⊎ (Lacks idx a.free)

Lacks-above : (n idx : ℕ) (es : List Entity) → AreIssued n es → n < idx → Lacks idx es
Lacks-above n idx [] h lt = tt
Lacks-above n idx (e ∷ es) h lt = (omega arith, Lacks-above n idx es h.3 lt)

AreIssued-mono : (n m : ℕ) (es : List Entity) → n ≤ m → AreIssued n es → AreIssued m es
AreIssued-mono n m [] le h = tt
AreIssued-mono n m (e ∷ es) le h = (h.0, omega arith, h.2, AreIssued-mono n m es le h.3)

-- `new_entity` with nothing to recycle, and with the last released ID.
fresh_lem :
    (n : ℕ)
    → new_entity (record { free = []; next_id = n })
      ≡ (with_generation_one ((n + 1) % 2 ^ 64), record { free = []; next_id = (n + 1) % 2 ^ 64 })
unfolding new_entity
fresh_lem n = refl

recycled_lem :
    (n : ℕ) (e : Entity) (free : FreeList)
    → 0 < entity_index e
    → new_entity (record { free = e ∷ free; next_id = n }) ≡ (
      make_entity (entity_index e) ((entity_generation e + 1) % 2 ^ 32),
      record { free = free; next_id = n },
    )
unfolding new_entity
recycled_lem n e free h =
    rw (==_ne (make_entity (entity_index e) ((entity_generation e + 1) % 2 ^ 32)) 0 (omega arith))

-- What a call of `NewEntity` promises: an ID whose index no live entity has, and a sound state.
pub record Serves (live : List Entity) (r : Entity × Ids) : Type 0 where
  pub fresh : Lacks (entity_index r.0) live
  pub sound : IsSound (r.0 ∷ live) r.1

new_entity-Serves_fresh :
    (live : List Entity) (n : ℕ)
    → IsSound live (record { free = []; next_id = n })
    → n < 2 ^ 32 - 2
    → Serves live
        (with_generation_one ((n + 1) % 2 ^ 64), record { free = []; next_id = (n + 1) % 2 ^ 64 })
new_entity-Serves_fresh live n s room =
    let i : (n + 1) % 2 ^ 64 ≡ n + 1 = omega arith in
    let idx : entity_index (with_generation_one (n + 1)) ≡ n + 1 = omega arith in
    rw i (record {
      fresh = rw idx (Lacks-above n (n + 1) live s.live_issued (omega arith));
      sound = record {
        counter = omega arith;
        live_issued = rw idx (
          omega arith,
          omega arith,
          Lacks-above n (n + 1) live s.live_issued (omega arith),
          AreIssued-mono n (n + 1) live (omega arith) s.live_issued,
        );
        free_issued = tt;
        apart = λ k. inr tt;
      };
    })

-- The index of a recycled ID.
recycled_index :
    (e : Entity)
    → entity_index (make_entity (entity_index e) ((entity_generation e + 1) % 2 ^ 32))
      ≡ entity_index e
recycled_index e = omega arith

Lacks-of_apart :
    (live free : List Entity) (e : Entity)
    → (Lacks (entity_index e) live) ⊎ (Lacks (entity_index e) (e ∷ free))
    → Lacks (entity_index e) live
Lacks-of_apart live free e (inl h) = h
Lacks-of_apart live free e (inr h) = absurd (h.0 refl)

Lacks-grown :
    (k : ℕ) (live free : List Entity) (e x : Entity)
    → entity_index x ≡ entity_index e
    → entity_index e ≢ k
    → (Lacks k live) ⊎ (Lacks k (e ∷ free))
    → (Lacks k (x ∷ live)) ⊎ (Lacks k free)
Lacks-grown k live free e x same ne (inl h) = inl (rw same ne, h)
Lacks-grown k live free e x same ne (inr h) = inr h.1

new_entity-Serves_recycled :
    (live : List Entity) (n : ℕ) (e : Entity) (free : FreeList)
    → IsSound live (record { free = e ∷ free; next_id = n })
    → Serves live (
      make_entity (entity_index e) ((entity_generation e + 1) % 2 ^ 32),
      record { free = free; next_id = n },
    )
new_entity-Serves_recycled live n e free s =
    let x = make_entity (entity_index e) ((entity_generation e + 1) % 2 ^ 32) in
    let idx : entity_index x ≡ entity_index e = recycled_index e in
    let lacks = Lacks-of_apart live free e (s.apart (entity_index e)) in
    record {
      fresh = rw idx lacks;
      sound = record {
        counter = s.counter;
        live_issued = rw idx (s.free_issued.0, s.free_issued.1, lacks, s.live_issued);
        free_issued = s.free_issued.3;
        apart = λ k. elim (Eq-cases (entity_index e) k) [
          | inl same ↦ inr (subst (λ i. Lacks i free) same s.free_issued.2)
          | inr ne ↦ Lacks-grown k live free e x idx ne (s.apart k)
        ];
      };
    }

-- `NewEntity` returns an ID whose index no live entity has, whether the ID is fresh or recycled.
pub new_entity-Serves :
    (live : List Entity) (a : Ids)
    → IsSound live a
    → a.next_id < 2 ^ 32 - 2
    → Serves live (new_entity a)
new_entity-Serves live a s room = go a.free a.next_id s room
  where
    go :
        (free : FreeList) (n : ℕ)
        → IsSound live (record { free = free; next_id = n })
        → n < 2 ^ 32 - 2
        → Serves live (new_entity (record { free = free; next_id = n }))
    go [] n s room = subst (Serves live) (sym (fresh_lem n)) (new_entity-Serves_fresh live n s room)
    go (e ∷ free) n s room =
        subst (Serves live) (sym (recycled_lem n e free s.free_issued.0))
          (new_entity-Serves_recycled live n e free s)
