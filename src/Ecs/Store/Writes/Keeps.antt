-- ===== src/Ecs/Store/Writes/Keeps.antt =====
-- `Set` keeps the invariant of a store that holds no other generation of the entity.
use minnsun_s_adventure.Common.{
  ℕ, suc, dec_lt, ◌+◌, ◌≤◌, ◌<◌, ◌≡◌, sym, ap, ◌∙◌, true, false, some, [], ◌∷◌, arith, length,
  get_elem?, inl, inr, Bool-cases, Eq-cases, ==_refl, get_elem?-ge, get_elem?-append_left,
  get_elem?-append_length, length-append, length-set, some_inj,
}
use mathlib.Core.Path.{subst}
use minnsun_s_adventure.Ecs.Store.{
  Entity, entity_index, ComponentStore, dense_is, cell, occupied, set_component,
}
use minnsun_s_adventure.Ecs.Store.Slots.{write_cell-ArePages}
use minnsun_s_adventure.Ecs.Store.Lookup.{
  max_dense, IsValid, IsOnlyGeneration, hit, occupied-eq-hit,
}
use minnsun_s_adventure.Ecs.Store.Writes.{
  own_cell, own_place, updated, extended, set_new, set_old_at, paged, paged-ArePages, cell-paged,
  cell-extended_self, cell-extended_ne, cell-extended-lt, extended-small,
}

module _ {T : Type 0} (id : Entity) (val : T) (s : ComponentStore T) (valid : IsValid s) where
  updated-IsValid : (i : ℕ) → IsValid (updated id val s valid i)
  updated-IsValid i = record {
    pages = paged-ArePages id val s valid;
    small = valid.small;
    aligned = length-set s.values i val ∙ valid.aligned;
    cells_small = λ idx. rw (cell-paged id val s valid idx) (valid.cells_small idx);
    linked = λ k e at. cell-paged id val s valid (entity_index e) ∙ valid.linked k e at;
  }

  -- An entity that stands in the dense array is found there.
  occupied_stored :
      (i : ℕ) → get_elem? s.dense i ≡ some id → occupied s.dense (own_cell id val s valid) id ≡ true
  occupied_stored i at =
      occupied-eq-hit s.dense (own_cell id val s valid) id valid.small
        (valid.cells_small (entity_index id))
      ∙ rw (valid.linked i id at) (unfold hit in rw (at, ==_refl id, dense_is))

  module _ (room : length s.dense + 1 < max_dense) (only : IsOnlyGeneration s id)
      (new : occupied s.dense (own_cell id val s valid) id ≡ false) where
    linked_old :
        (i : ℕ) (e : Entity)
        → get_elem? s.dense i ≡ some e
        → cell (extended id val s valid).sparse (entity_index e) ≡ suc i
    linked_old i e at = elim (Eq-cases (entity_index id) (entity_index e)) [
      | inr apart ↦ cell-extended_ne id val s valid (entity_index e) apart ∙ valid.linked i e at
      | inl shared ↦
          let stored = occupied_stored i (at ∙ ap some (only i e at (sym shared))) in absurd (cc)
    ]

    extended-linked :
        (i : ℕ) (e : Entity)
        → get_elem? (extended id val s valid).dense i ≡ some e
        → cell (extended id val s valid).sparse (entity_index e) ≡ suc i
    extended-linked i e at = elim (dec_lt i (length s.dense)) [
      | yes lt ↦ linked_old i e (sym (get_elem?-append_left s.dense (id ∷ []) i lt) ∙ at)
      | no ge ↦ elim (Eq-cases i (length s.dense)) [
        | inl here ↦
            let same = some_inj (sym (get_elem?-append_length s.dense (id ∷ []) i here) ∙ at) in
            rw (← same, here) (cell-extended_self id val s valid)
        | inr beyond ↦
            let off =
              get_elem?-ge (extended id val s valid).dense i
                (omega (arith, length-append s.dense (id ∷ []))) in
            absurd (cc)
      ]
    ]

    extended-IsValid : IsValid (extended id val s valid)
    extended-IsValid = record {
      pages =
          write_cell-ArePages (paged id val s valid) (entity_index id) (suc (length s.dense))
            (paged-ArePages id val s valid);
      small = extended-small id val s valid room;
      aligned = omega (
        arith,
        valid.aligned,
        length-append s.values (val ∷ []),
        length-append s.dense (id ∷ []),
      );
      cells_small = cell-extended-lt id val s valid room;
      linked = extended-linked;
    }

  -- `Set` keeps the store well formed, where there is room and no other generation of the entity's
  -- index is stored.
  pub set_component-IsValid :
      length s.dense + 1 < max_dense → IsOnlyGeneration s id → IsValid (set_component id val s)
  set_component-IsValid room only =
      elim (Bool-cases (occupied s.dense (own_cell id val s valid) id)) [
        | inr new ↦
            subst IsValid (sym (set_new id val s valid new)) (extended-IsValid room only new)
        | inl old ↦
            let (i, e, at) = own_place id val s valid old in
            subst IsValid (sym (set_old_at id val s valid i e old)) (updated-IsValid i)
      ]

  -- The dense array grows by one place at most.
  pub length-set_component : length (set_component id val s).dense ≤ length s.dense + 1
  length-set_component = elim (Bool-cases (occupied s.dense (own_cell id val s valid) id)) [
    | inr new ↦ rw (set_new id val s valid new) (omega (arith, length-append s.dense (id ∷ [])))
    | inl old ↦
        let (i, e, at) = own_place id val s valid old in
        rw (set_old_at id val s valid i e old) (omega arith)
  ]
