-- ===== src/Ecs/Store/Deletes.antt =====
-- `Delete` of server/ecs/ecs.go: what is left in each part of the store.
pub mod Keeps
use minnsun_s_adventure.Common.{
  ℕ, zero, suc, ◌+◌, ◌-◌, ◌/◌, ◌%◌, ◌^◌, ◌≤◌, ◌<◌, ◌≡◌, ◌≢◌, refl, sym, ap, ◌∙◌, Bool, true, false,
  Option, none, some, List, [], ◌∷◌, ◌++◌, arith, ltb, ◌==◌, if◌then◌else◌, length, get_elem?, set,
  take, inl, inr, ◌⊎◌, Bool-cases, Option-cases, Eq-cases, ==→eq, ==_refl, ==_ne, get_elem?-some_lt,
  get_elem?-ge, get_elem?-lt, get_elem?-set_self, get_elem?-set_ne, get_elem?-take, length-take,
  length-set, some_inj,
}
use mathlib.Core.Path.{subst}
use minnsun_s_adventure.Ecs.Store.{
  Entity, entity_index, chunk_size, Page, ComponentStore, inc32, dec32, dense_is, cell, write_cell,
  occupied, delete_component, fill_gap, swap_last, drop_last,
}
use minnsun_s_adventure.Ecs.Store.Slots.{
  ArePages, HasPage, HasPage-of_cell, cell-write_cell, write_cell-ArePages, write_cell-HasPage,
}
use minnsun_s_adventure.Ecs.Store.Lookup.{max_dense, IsValid, hit, occupied-eq-hit}

-- The store `t` is `s` without its place `i`, which held `id`; `last` stood in the last place.
pub record Removed {T : Type 0} (s t : ComponentStore T) (i : ℕ) (id last : Entity) : Type 0 where
  pub pages : ArePages t.sparse
  pub dense_shorter : length t.dense + 1 ≡ length s.dense
  pub values_shorter : length t.values + 1 ≡ length s.values
  pub dense_at :
      (k : ℕ)
      → k < length t.dense
      → get_elem? t.dense k ≡ (if k == i then some last else get_elem? s.dense k)
  pub values_at :
      (k : ℕ)
      → k < length t.dense
      → get_elem? t.values k
        ≡ (if k == i then get_elem? s.values (length t.dense) else get_elem? s.values k)
  pub cells :
      (idx : ℕ)
      → cell t.sparse idx ≡ (
          if idx == entity_index id
          then 0
          else if idx == entity_index last
          then suc i
          else cell s.sparse idx)

-- A list whose last place goes to place `i`.
module _ {ℓ} {A : Type ℓ} where
  get_elem?-take-set :
      (xs : List A) (i n k : ℕ) (x : A)
      → i < length xs
      → k < n
      → get_elem? (take n (set xs i x)) k ≡ (if k == i then some x else get_elem? xs k)
  get_elem?-take-set xs i n k x hi hk = get_elem?-take n (set xs i x) k hk ∙ elim (Eq-cases i k) [
    | inl same ↦ rw (← same, ==_refl i) (get_elem?-set_self xs i x hi)
    | inr ne ↦ rw (==_ne k i (λ e. ne (sym e))) (get_elem?-set_ne xs i k x ne)
  ]

module _ {T : Type 0} (id last : Entity) (s : ComponentStore T) (valid : IsValid s) (i : ℕ)
    (own : cell s.sparse (entity_index id) ≡ suc i) (at : get_elem? s.dense i ≡ some id)
    (at_last : get_elem? s.dense (length s.dense - 1) ≡ some last) where
  abbrev last_idx : ℕ
  last_idx = length s.dense - 1

  i_lt : i < length s.dense
  i_lt = get_elem?-some_lt s.dense i at

  length-take_last :
      {A : Type 0} (xs : List A) → length xs ≡ length s.dense → length (take last_idx xs) ≡ last_idx
  length-take_last xs e = length-take last_idx xs (omega arith)

  own_page : HasPage s.sparse (entity_index id / chunk_size)
  own_page = HasPage-of_cell s.sparse (entity_index id) i own

  fill_gap-here : i ≡ last_idx → fill_gap i last_idx s ≡ s
  unfolding fill_gap
  fill_gap-here here = rw (here, ==_refl last_idx)

  -- The last component is the one that goes.
  drop-Removed : i ≡ last_idx → Removed s (drop_last id last_idx s) i id last
  unfolding drop_last
  drop-Removed here =
      let n = length-take_last s.dense refl in
      let same : id ≡ last = some_inj (sym at ∙ ap (get_elem? s.dense) here ∙ at_last) in
      record {
        pages = write_cell-ArePages s.sparse (entity_index id) 0 valid.pages;
        dense_shorter = omega (arith, i_lt, n);
        values_shorter =
            omega (arith, i_lt, valid.aligned, length-take_last s.values valid.aligned);
        dense_at =
            λ k h. rw (==_ne k i (omega arith)) (get_elem?-take last_idx s.dense k (omega arith));
        values_at =
            λ k h. rw (==_ne k i (omega arith)) (get_elem?-take last_idx s.values k (omega arith));
        cells = λ idx.
            cell-write_cell s.sparse (entity_index id) 0 idx valid.pages own_page
            ∙ rw (← same) (ground arith);
      }

  module _ (v : T) (at_v : get_elem? s.values last_idx ≡ some v) where
    -- The last component in the freed place.
    abbrev swapped : ComponentStore T
    swapped = record s {
      dense = set s.dense i last;
      values = set s.values i v;
      sparse = write_cell s.sparse (entity_index last) (suc i);
    }

    fill_gap-eq : i ≢ last_idx → fill_gap i last_idx s ≡ swapped
    unfolding fill_gap swap_last
    fill_gap-eq ne =
        let small : inc32 i ≡ suc i = omega (arith, i_lt, valid.small) in
        rw (==_ne i last_idx ne, at_last, at_v, small)

    last_page : HasPage s.sparse (entity_index last / chunk_size)
    last_page =
        HasPage-of_cell s.sparse (entity_index last) last_idx (valid.linked last_idx last at_last)

    swap-Removed : Removed s (drop_last id last_idx swapped) i id last
    unfolding drop_last
    swap-Removed =
        let pages = write_cell-ArePages s.sparse (entity_index last) (suc i) valid.pages in
        let n = length-take_last (set s.dense i last) (length-set s.dense i last) in
        let m = length-take_last (set s.values i v) (length-set s.values i v ∙ valid.aligned) in
        record {
          pages = write_cell-ArePages swapped.sparse (entity_index id) 0 pages;
          dense_shorter = omega (arith, i_lt, n);
          values_shorter = omega (arith, i_lt, valid.aligned, m);
          dense_at = λ k h. get_elem?-take-set s.dense i last_idx k last i_lt (omega arith);
          values_at = λ k h.
              get_elem?-take-set s.values i last_idx k v (omega (arith, i_lt, valid.aligned))
                (omega arith)
              ∙ rw (n, at_v);
          cells = λ idx.
              cell-write_cell swapped.sparse (entity_index id) 0 idx pages (
                write_cell-HasPage s.sparse (entity_index last) (suc i)
                  (entity_index id / chunk_size) own_page)
              ∙ rw (cell-write_cell s.sparse (entity_index last) (suc i) idx valid.pages last_page);
        }

  delete_lem :
      occupied s.dense (cell s.sparse (entity_index id)) id ≡ true
      → delete_component id s ≡ drop_last id last_idx (fill_gap i last_idx s)
  unfolding delete_component
  delete_lem h =
      let d : dec32 (cell s.sparse (entity_index id)) ≡ i =
        omega (arith, own, valid.cells_small (entity_index id)) in
      rw (h, d)

  delete-Removed_at :
      occupied s.dense (cell s.sparse (entity_index id)) id ≡ true
      → Removed s (delete_component id s) i id last
  delete-Removed_at h =
      subst (λ t. Removed s t i id last) (sym (delete_lem h))
        (elim (Eq-cases i last_idx) [
          | inl here ↦
              subst (λ t. Removed s (drop_last id last_idx t) i id last) (sym (fill_gap-here here))
                (drop-Removed here)
          | inr ne ↦
              let (v, at_v) = get_elem?-lt s.values last_idx (omega (arith, valid.aligned, i_lt)) in
              subst (λ t. Removed s (drop_last id last_idx t) i id last)
                (sym (fill_gap-eq v at_v ne)) (swap-Removed v at_v)
        ])
