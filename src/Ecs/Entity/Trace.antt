-- ===== src/Ecs/Entity/Trace.antt =====
-- Allocation and release as steps, and what holds of every state that they reach.
use minnsun_s_adventure.Common.{
  ℕ, ◌-◌, ◌^◌, ◌≤◌, ◌<◌, ◌≡◌, ◌≢◌, refl, sym, List, [], ◌∷◌, arith, ◌==◌, if◌then◌else◌, ◌⊎◌, inl,
  inr, Eq-cases, ==_ne, ==_refl,
}
use mathlib.Core.Path.{subst}
use minnsun_s_adventure.Ecs.Entity.{Entity, entity_index, Ids, new_entity, release}
use minnsun_s_adventure.Ecs.Entity.Fresh.{Lacks, AreIssued, IsSound, new_entity-Serves}

-- The entity is live.
abbrev pub IsLive : Entity → List Entity → Type 0
IsLive id [] = ⊥
IsLive id (e ∷ es) = (e ≡ id) ⊎ IsLive id es

-- The live entities without this one.
abbrev pub without : Entity → List Entity → List Entity
without id [] = []
without id (e ∷ es) = if e == id then es else e ∷ without id es

Lacks-without :
    (idx : ℕ) (id : Entity) (es : List Entity) → Lacks idx es → Lacks idx (without id es)
Lacks-without idx id [] h = tt
Lacks-without idx id (e ∷ es) h = ground (arith, Lacks-without idx id es h.1)

AreIssued-without :
    (n : ℕ) (id : Entity) (es : List Entity) → AreIssued n es → AreIssued n (without id es)
AreIssued-without n id [] h = tt
AreIssued-without n id (e ∷ es) h =
    ground (arith, AreIssued-without n id es h.3, Lacks-without (entity_index e) id es h.2)

Lacks-of_live :
    (idx : ℕ) (id : Entity) (es : List Entity) → Lacks idx es → IsLive id es → entity_index id ≢ idx
Lacks-of_live idx id [] h l = absurd l
Lacks-of_live idx id (e ∷ es) h (inl same) = rw (← same) h.0
Lacks-of_live idx id (e ∷ es) h (inr l) = Lacks-of_live idx id es h.1 l

Lacks-head :
    (id e : Entity) (es : List Entity)
    → e ≡ id
    → Lacks (entity_index e) es
    → Lacks (entity_index id) (without id (e ∷ es))
Lacks-head id e es same h = rw (same, ==_refl id) (subst (λ x. Lacks (entity_index x) es) same h)

issued_of_live :
    (n : ℕ) (id : Entity) (es : List Entity)
    → AreIssued n es
    → IsLive id es
    → (0 < entity_index id) × (entity_index id ≤ n)
issued_of_live n id [] h l = absurd l
issued_of_live n id (e ∷ es) h (inl same) = rw (← same) (h.0, h.1)
issued_of_live n id (e ∷ es) h (inr l) = issued_of_live n id es h.3 l

Lacks-other :
    (k : ℕ) (id : Entity) (live free : List Entity)
    → entity_index id ≡ k
    → IsLive id live
    → (Lacks k live) ⊎ (Lacks k free)
    → Lacks k free
Lacks-other k id live free e l (inl h) = absurd (Lacks-of_live k id live h l e)
Lacks-other k id live free e l (inr h) = h

-- No other live entity has the index of one that is taken out.
Lacks-without_self :
    (n : ℕ) (id : Entity) (es : List Entity)
    → AreIssued n es
    → IsLive id es
    → Lacks (entity_index id) (without id es)
Lacks-without_self n id [] h l = absurd l
Lacks-without_self n id (e ∷ es) h (inl same) = Lacks-head id e es same h.2
Lacks-without_self n id (e ∷ es) h (inr l) = elim (Eq-cases e id) [
  | inl same ↦ Lacks-head id e es same h.2
  | inr ne ↦
      rw (==_ne e id ne) (
        (λ q. Lacks-of_live (entity_index e) id es h.2 l (sym q)),
        Lacks-without_self n id es h.3 l,
      )
]

-- `RemoveEntity` of a live entity keeps the IDs sound.
pub release-IsSound :
    (live : List Entity) (a : Ids) (id : Entity)
    → IsSound live a
    → IsLive id live
    → IsSound (without id live) (release id a)
unfolding release
release-IsSound live a id s l = record {
  counter = s.counter;
  live_issued = AreIssued-without a.next_id id live s.live_issued;
  free_issued = free_issued;
  apart = λ k. elim (Eq-cases (entity_index id) k) [
    | inl same ↦ inl (subst (λ i. Lacks i (without id live)) same gone)
    | inr ne ↦ go k ne (s.apart k)
  ];
}
  where
    gone : Lacks (entity_index id) (without id live)
    gone = Lacks-without_self a.next_id id live s.live_issued l

    own : (0 < entity_index id) × (entity_index id ≤ a.next_id)
    own = issued_of_live a.next_id id live s.live_issued l

    free_issued : AreIssued a.next_id (id ∷ a.free)
    free_issued = (
      own.0,
      own.1,
      Lacks-other (entity_index id) id live a.free refl l (s.apart (entity_index id)),
      s.free_issued,
    )

    go :
        (k : ℕ)
        → entity_index id ≢ k
        → (Lacks k live) ⊎ (Lacks k a.free)
        → (Lacks k (without id live)) ⊎ (Lacks k (id ∷ a.free))
    go k ne (inl h) = inl (Lacks-without k id live h)
    go k ne (inr h) = inr (ne, h)

-- One call of `NewEntity`, or of `RemoveEntity` on a live entity.
pub data Step (live : List Entity) (a : Ids) : List Entity → Ids → Type 0 where
  create : a.next_id < 2 ^ 32 - 2 → Step live a ((new_entity a).0 ∷ live) (new_entity a).1
  destroy : (id : Entity) → IsLive id live → Step live a (without id live) (release id a)

-- The states that a registry's IDs go through from the start.
pub data Reach : List Entity → Ids → Type 0 where
  start : Reach [] (record { free = []; next_id = 0 })
  after :
      {live : List Entity} {a : Ids} {live' : List Entity} {a' : Ids}
      → Reach live a
      → Step live a live' a'
      → Reach live' a'

Step-IsSound :
    {live : List Entity} {a : Ids} {live' : List Entity} {a' : Ids}
    → Step live a live' a'
    → IsSound live a
    → IsSound live' a'
Step-IsSound {live} {a} (create room) s = (new_entity-Serves live a s room).sound
Step-IsSound {live} {a} (destroy id l) s = release-IsSound live a id s l

-- In every state that creations and single removals reach, with fewer than 2^32 - 2 indices handed
-- out, the live entities have pairwise different indices between 1 and the counter, and the next ID
-- has an index that none of them has.
pub reachable_ids_apart :
    {live : List Entity} {a : Ids}
    → Reach live a
    → a.next_id < 2 ^ 32 - 2
    → IsSound live a × Lacks (entity_index (new_entity a).0) live
reachable_ids_apart {live} {a} r room = let s = go r in (s, (new_entity-Serves live a s room).fresh)
  where
    go : {live : List Entity} {a : Ids} → Reach live a → IsSound live a
    go start = record {
      counter = omega arith;
      live_issued = tt;
      free_issued = tt;
      apart = λ k. inl tt;
    }
    go (after r st) = Step-IsSound st (go r)
