-- ===== src/Ecs/Store/Deletes/Keeps.antt =====
-- `Delete` forgets one entity, and keeps the invariant and every other component.
use minnsun_s_adventure.Common.{
  ℕ, zero, suc, ◌-◌, ◌<◌, ◌≤◌, ◌≡◌, ◌≢◌, refl, sym, ap, ◌∙◌, true, none, some, arith, ◌==◌,
  if◌then◌else◌, length, get_elem?, inl, inr, ◌⊎◌, Bool-cases, Eq-cases, ==_refl, ==_ne,
  get_elem?-some_lt, get_elem?-lt, some_inj,
}
use mathlib.Core.Path.{subst}
use minnsun_s_adventure.Ecs.Store.{
  Entity, entity_index, ComponentStore, cell, dense_is, occupied, get_component, delete_component,
}
use minnsun_s_adventure.Ecs.Store.Lookup.{
  IsValid, hit, occupied-eq-hit, get_component-stored, get_component-absent, dense_is→at,
  place_of_occupied,
}
use minnsun_s_adventure.Ecs.Store.Deletes.{Removed, delete-Removed_at}

module _ {T : Type 0} (s : ComponentStore T) (valid : IsValid s) where
  -- An entity has one place at most, and an index is that of one stored entity at most.
  place_unique :
      (i k : ℕ) (a b : Entity)
      → get_elem? s.dense i ≡ some a
      → get_elem? s.dense k ≡ some b
      → entity_index a ≡ entity_index b
      → i ≡ k
  place_unique i k a b ha hb same =
      omega (arith, sym (valid.linked i a ha) ∙ ap (cell s.sparse) same ∙ valid.linked k b hb)

  -- Every entity stands in the dense array or does not.
  pub stored-cases :
      (id : Entity)
      → ((i : ℕ) × (get_elem? s.dense i ≡ some id)) ⊎ ((i : ℕ) → get_elem? s.dense i ≢ some id)
  stored-cases id = go (cell s.sparse (entity_index id)) refl
    where
      go :
          (c : ℕ)
          → cell s.sparse (entity_index id) ≡ c
          → ((i : ℕ) × (get_elem? s.dense i ≡ some id)) ⊎ ((i : ℕ) → get_elem? s.dense i ≢ some id)
      go zero e = inr (λ i at. omega (arith, valid.linked i id at, e))
      go (suc k) e = elim (Bool-cases (dense_is s.dense k id)) [
        | inl here ↦ inl (k, dense_is→at s.dense k id here)
        | inr other ↦ inr (λ i at.
            let same : i ≡ k = omega (arith, valid.linked i id at, e) in
            ground (arith, ap (get_elem? s.dense) same))
      ]

  occupied_iff_stored :
      (i : ℕ) (id : Entity)
      → get_elem? s.dense i ≡ some id
      → occupied s.dense (cell s.sparse (entity_index id)) id ≡ true
  occupied_iff_stored i id at =
      occupied-eq-hit s.dense (cell s.sparse (entity_index id)) id valid.small
        (valid.cells_small (entity_index id))
      ∙ rw (valid.linked i id at) (unfold hit in rw (at, ==_refl id, dense_is))

  module _ (t : ComponentStore T) (i : ℕ) (id last : Entity) (at : get_elem? s.dense i ≡ some id)
      (at_last : get_elem? s.dense (length s.dense - 1) ≡ some last)
      (r : Removed s t i id last) where
    -- The place that the last entity had.
    at_end : get_elem? s.dense (length t.dense) ≡ some last
    at_end =
        let e : length s.dense - 1 ≡ length t.dense = omega (arith, r.dense_shorter) in
        rw (← e) at_last

    -- What stands at a place of the new dense array stood in the old one, elsewhere than at `i`.
    abbrev Origin : ℕ → Entity → Type 0
    Origin k e =
        (m : ℕ) × (get_elem? s.dense m ≡ some e)
        × (m ≢ i)
        × (cell t.sparse (entity_index e) ≡ suc k)
        × (get_elem? t.values k ≡ get_elem? s.values m)

    other_index :
        (m : ℕ) (e : Entity)
        → get_elem? s.dense m ≡ some e
        → m ≢ i
        → entity_index e ≢ entity_index id
    other_index m e found ne same = ne (place_unique m i e id found at same)

    Origin-moved : (k : ℕ) → k < length t.dense → k ≡ i → Origin k last
    Origin-moved k lt here =
        let apart = other_index (length t.dense) last at_end (omega arith) in
        (
          length t.dense,
          at_end,
          omega arith,
          r.cells (entity_index last) ∙ rw (==_ne _ _ apart, ==_refl (entity_index last), here),
          r.values_at k lt ∙ rw (here, ==_refl i),
        )

    Origin-kept :
        (k : ℕ) (e : Entity)
        → k < length t.dense
        → k ≢ i
        → get_elem? s.dense k ≡ some e
        → Origin k e
    Origin-kept k e lt ne found =
        let apart = other_index k e found ne in
        let not_last : entity_index e ≢ entity_index last =
          λ same. omega (arith, place_unique k (length t.dense) e last found at_end same) in
        (
          k,
          found,
          ne,
          r.cells (entity_index e)
              ∙ rw (==_ne _ _ apart, ==_ne _ _ not_last) (valid.linked k e found),
          r.values_at k lt ∙ rw (==_ne k i ne),
        )

    origin : (k : ℕ) (e : Entity) → get_elem? t.dense k ≡ some e → Origin k e
    origin k e found =
        let lt = get_elem?-some_lt t.dense k found in
        elim (Eq-cases k i) [
          | inl here ↦
              let same : last ≡ e =
                some_inj (sym (r.dense_at k lt ∙ rw (here, ==_refl i)) ∙ found) in
              subst (Origin k) same (Origin-moved k lt here)
          | inr ne ↦ Origin-kept k e lt ne (sym (r.dense_at k lt ∙ rw (==_ne k i ne)) ∙ found)
        ]

    removed-IsValid : IsValid t
    removed-IsValid = record {
      pages = r.pages;
      small = omega (arith, r.dense_shorter, valid.small);
      aligned = omega (arith, r.dense_shorter, r.values_shorter, valid.aligned);
      cells_small = λ idx.
          rw (r.cells idx)
            (ground (arith, valid.cells_small idx, valid.small, get_elem?-some_lt s.dense i at));
      linked = λ k e found. (origin k e found).3;
    }

    -- Every other entity that was stored still is.
    still_stored :
        (m : ℕ) (j : Entity)
        → get_elem? s.dense m ≡ some j
        → m ≢ i
        → (k : ℕ) × (get_elem? t.dense k ≡ some j)
    still_stored m j found ne =
        let lt = get_elem?-some_lt s.dense m found in
        elim (Eq-cases m (length t.dense)) [
          | inl end ↦
              let same : last ≡ j = some_inj (sym at_end ∙ rw (← end) found) in
              (
                i,
                r.dense_at i (omega (arith, get_elem?-some_lt s.dense i at, r.dense_shorter))
                    ∙ rw (==_refl i) (ap some same),
              )
          | inr inside ↦
              (m, r.dense_at m (omega (arith, r.dense_shorter)) ∙ rw (==_ne m i ne) found)
        ]

    get-removed : (j : Entity) → get_component j t ≡ (if j == id then none else get_component j s)
    get-removed j = elim (Eq-cases j id) [
      | inl same ↦
          rw (same, ==_refl id)
            (get_component-absent t id removed-IsValid
              (λ k found. let o = origin k id found in o.2 (place_unique o.0 i id id o.1 at refl)))
      | inr ne ↦ rw (==_ne j id ne) (elim (stored-cases j) [
        | inl (m, found) ↦
            let apart : m ≢ i = λ e. ne (some_inj (sym found ∙ ap (get_elem? s.dense) e ∙ at)) in
            let (k, now) = still_stored m j found apart in
            let o = origin k j now in
            get_component-stored t k j removed-IsValid now
            ∙ o.4
            ∙ sym (get_component-stored s o.0 j valid o.1)
        | inr absent ↦
            get_component-absent t j removed-IsValid
              (λ k found. absent (origin k j found).0 (origin k j found).1)
            ∙ sym (get_component-absent s j valid absent)
      ])
    ]

  -- What `Delete` does to an entity that is stored.
  delete-Removed :
      (i : ℕ) (id : Entity)
      → get_elem? s.dense i ≡ some id
      → (last : Entity) × (get_elem? s.dense (length s.dense - 1) ≡ some last)
        × Removed s (delete_component id s) i id last
  delete-Removed i id at =
      let (last, at_last) =
        get_elem?-lt s.dense (length s.dense - 1) (omega (arith, get_elem?-some_lt s.dense i at)) in
      (
        last,
        at_last,
        delete-Removed_at id last s valid i (valid.linked i id at) at at_last
            (occupied_iff_stored i id at),
      )

  delete_absent :
      (id : Entity) → ((i : ℕ) → get_elem? s.dense i ≢ some id) → delete_component id s ≡ s
  unfolding delete_component
  delete_absent id absent =
      elim (Bool-cases (occupied s.dense (cell s.sparse (entity_index id)) id)) [
        | inr no_place ↦ rw no_place
        | inl found ↦ let (i, _, at) = place_of_occupied s id valid found in absurd (absent i at)
      ]

  -- After `Delete` the entity is not found, and every other entity is found as before.
  pub get_component-delete :
      (id j : Entity)
      → get_component j (delete_component id s) ≡ (if j == id then none else get_component j s)
  get_component-delete id j = elim (stored-cases id) [
    | inl (i, at) ↦
        let (last, at_last, r) = delete-Removed i id at in
        get-removed (delete_component id s) i id last at at_last r j
    | inr absent ↦ ap (get_component j) (delete_absent id absent) ∙ elim (Eq-cases j id) [
      | inl same ↦ rw (same, ==_refl id) (get_component-absent s id valid absent)
      | inr ne ↦ rw (==_ne j id ne)
    ]
  ]

  -- `Delete` keeps the store well formed.
  pub delete_component-IsValid : (id : Entity) → IsValid (delete_component id s)
  delete_component-IsValid id = elim (stored-cases id) [
    | inl (i, at) ↦
        let (last, at_last, r) = delete-Removed i id at in
        removed-IsValid (delete_component id s) i id last at at_last r
    | inr absent ↦ subst IsValid (sym (delete_absent id absent)) valid
  ]

  pub length-delete_component :
      (id : Entity) → length (delete_component id s).dense ≤ length s.dense
  length-delete_component id = elim (stored-cases id) [
    | inl (i, at) ↦
        let (last, at_last, r) = delete-Removed i id at in omega (arith, r.dense_shorter)
    | inr absent ↦ rw (delete_absent id absent) (omega arith)
  ]
