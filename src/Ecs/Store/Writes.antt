-- ===== src/Ecs/Store/Writes.antt =====
-- `Set` of server/ecs/ecs.go against a map.
pub mod Keeps
use minnsun_s_adventure.Common.{
  ℕ, zero, suc, ◌+◌, ◌-◌, ◌/◌, ◌%◌, ◌^◌, ◌≤◌, ◌<◌, ◌≡◌, ◌≢◌, refl, sym, ap, ◌∙◌, Bool, true, false,
  Option, none, some, List, [], ◌∷◌, ◌++◌, arith, ltb, ◌==◌, if◌then◌else◌, length, get_elem?, set,
  inl, inr, ◌⊎◌, Bool-cases, Option-cases, Eq-cases, ==→eq, ==_refl, ==_ne, get_elem?-some_lt,
  get_elem?-ge, get_elem?-append_left, get_elem?-append_length, get_elem?-set_self,
  get_elem?-set_ne, length-append, length-set, some_inj,
}
use minnsun_s_adventure.Ecs.Store.{
  Entity, entity_index, chunk_size, Page, ComponentStore, int32, inc32, dec32, dense_is, grow,
  make_page, cell, write_cell, occupied, set_at, set_component, get_component,
}
use minnsun_s_adventure.Ecs.Store.Slots.{
  ArePages, HasPage, cell-grow, length-grow, cell-make_page, grow-ArePages, make_page-ArePages,
  make_page-HasPage, cell-write_cell_self, cell-write_cell_ne, write_cell-ArePages,
}
use minnsun_s_adventure.Ecs.Store.Lookup.{
  max_dense, IsValid, hit, look, occupied-eq-hit, dense_is_ge, get_component-eq-look, dense_is→at,
  place_of_occupied,
}
use minnsun_s_adventure.Ecs.Store.Looks.{look-set_ne, look-append_ne, look-append_self}

-- The sparse array that `Set` writes to, and what `Set` then does.
module _ {T : Type 0} (id : Entity) (val : T) (s : ComponentStore T) (valid : IsValid s) where
  abbrev page_index : ℕ
  page_index = entity_index id / chunk_size

  abbrev paged : List (Option Page)
  paged = make_page page_index (grow page_index s.sparse)

  cell-paged : (idx : ℕ) → cell paged idx ≡ cell s.sparse idx
  cell-paged idx =
      cell-make_page page_index idx (grow page_index s.sparse) (length-grow page_index s.sparse)
      ∙ cell-grow page_index idx s.sparse

  paged-ArePages : ArePages paged
  paged-ArePages =
      make_page-ArePages (grow page_index s.sparse) (grow-ArePages s.sparse valid.pages page_index)
        page_index (length-grow page_index s.sparse)

  paged-HasPage : HasPage paged page_index
  paged-HasPage =
      make_page-HasPage page_index (grow page_index s.sparse) (length-grow page_index s.sparse)

  abbrev own_cell : ℕ
  own_cell = cell s.sparse (entity_index id)

  abbrev fresh_cell : ℕ
  fresh_cell = inc32 (int32 (length s.dense))

  fresh_cell_lem : fresh_cell ≡ suc (length s.dense)
  fresh_cell_lem = omega (arith, valid.small)

  set_old :
      occupied s.dense own_cell id ≡ true
      → set_component id val s
        ≡ record s { sparse = paged; values = set s.values (dec32 own_cell) val }
  unfolding set_component set_at
  set_old h = rw (cell-paged (entity_index id), set_at) (rw h)

  set_new :
      occupied s.dense own_cell id ≡ false
      → set_component id val s ≡ record {
        dense = s.dense ++ id ∷ [];
        sparse = write_cell paged (entity_index id) (suc (length s.dense));
        values = s.values ++ val ∷ [];
      }
  unfolding set_component set_at
  set_new h = rw (cell-paged (entity_index id), set_at) (rw (h, fresh_cell_lem))

  own_place :
      occupied s.dense own_cell id ≡ true
      → (i : ℕ) × (own_cell ≡ suc i) × (get_elem? s.dense i ≡ some id)
  own_place h = place_of_occupied s id valid h

  dec_own : (i : ℕ) → own_cell ≡ suc i → dec32 own_cell ≡ i
  dec_own i e = rw e (omega (arith, valid.cells_small (entity_index id), e))

  -- The store after a write over an old value, and after a new one.
  abbrev updated : ℕ → ComponentStore T
  updated i = record s { sparse = paged; values = set s.values i val }

  abbrev extended : ComponentStore T
  extended = record {
    dense = s.dense ++ id ∷ [];
    sparse = write_cell paged (entity_index id) (suc (length s.dense));
    values = s.values ++ val ∷ [];
  }

  set_old_at :
      (i : ℕ)
      → own_cell ≡ suc i
      → occupied s.dense own_cell id ≡ true
      → set_component id val s ≡ updated i
  set_old_at i e h = set_old h ∙ ap updated (dec_own i e)

  look-updated :
      (j : Entity) → get_component j s ≡ look s.dense s.values (cell s.sparse (entity_index j)) j
  look-updated j = get_component-eq-look s j valid.small (valid.cells_small (entity_index j))

  get-updated :
      (j : Entity) (i : ℕ)
      → own_cell ≡ suc i
      → get_elem? s.dense i ≡ some id
      → get_component j (updated i) ≡ (if j == id then some val else get_component j s)
  get-updated j i e at =
      get_component-eq-look (updated i) j valid.small
        (rw (cell-paged (entity_index j)) (valid.cells_small (entity_index j)))
      ∙ rw (cell-paged (entity_index j)) (elim (Eq-cases j id) [
        | inl same ↦
            rw (same, ==_refl id, e)
              (unfold look in
                rw (at, ==_refl id, dense_is)
                  (get_elem?-set_self s.values i val
                    (omega (arith, get_elem?-some_lt s.dense i at, valid.aligned))))
        | inr ne ↦ rw (==_ne j id ne) (
            look-set_ne s.dense s.values i (cell s.sparse (entity_index j)) id j val at ne
            ∙ sym (look-updated j))
      ])

  cell-extended_self : cell extended.sparse (entity_index id) ≡ suc (length s.dense)
  cell-extended_self =
      cell-write_cell_self paged (entity_index id) (suc (length s.dense)) paged-ArePages
        paged-HasPage

  cell-extended_ne :
      (idx : ℕ) → entity_index id ≢ idx → cell extended.sparse idx ≡ cell s.sparse idx
  cell-extended_ne idx ne =
      cell-write_cell_ne paged (entity_index id) (suc (length s.dense)) idx ne ∙ cell-paged idx

  module _ (room : length s.dense + 1 < max_dense) where
    cell-extended-lt : (idx : ℕ) → cell extended.sparse idx < max_dense
    cell-extended-lt idx = elim (Eq-cases (entity_index id) idx) [
      | inl same ↦ rw (← same) (rw cell-extended_self (omega arith))
      | inr ne ↦ rw (cell-extended_ne idx ne) (valid.cells_small idx)
    ]

    extended-small : length extended.dense < max_dense
    extended-small = omega (arith, length-append s.dense (id ∷ []))

    get-extended :
        (j : Entity)
        → get_component j extended ≡ (
            if j == id
            then some val
            else if entity_index j == entity_index id
            then none
            else get_component j s)
    get-extended j =
        get_component-eq-look extended j extended-small (cell-extended-lt (entity_index j))
        ∙ elim (Eq-cases j id) [
          | inl same ↦
              rw (same, ==_refl id)
                (ap (λ c. look (s.dense ++ id ∷ []) (s.values ++ val ∷ []) c id) cell-extended_self
                  ∙ look-append_self s.dense s.values id val valid.aligned)
          | inr ne ↦ rw (==_ne j id ne) (
              look-append_ne s.dense s.values (cell extended.sparse (entity_index j)) id j val
                valid.aligned ne
              ∙ elim (Eq-cases (entity_index id) (entity_index j)) [
                | inl shared ↦
                    rw (← shared, ==_refl (entity_index id))
                      (ap (λ c. look s.dense s.values c j) cell-extended_self
                        ∙ unfold look in rw (dense_is_ge s.dense (length s.dense) j (omega arith)))
                | inr apart ↦
                    rw
                      (
                        ==_ne (entity_index j) (entity_index id) (λ e. apart (sym e)),
                        cell-extended_ne (entity_index j) apart,
                      )
                      (sym (look-updated j))
              ])
        ]

    -- Two entities cannot share a cell: where one is found, the other is not.
    get-shared :
        (j : Entity)
        → occupied s.dense own_cell id ≡ true
        → j ≢ id
        → entity_index j ≡ entity_index id
        → get_component j s ≡ none
    get-shared j h ne shared =
        let (i, e, at) = own_place h in
        look-updated j
        ∙ rw (shared, e) (unfold look in rw (at, ==_ne id j (λ q. ne (sym q)), dense_is))

    -- After `Set` an entity is found with the new value. Any other entity is found as before, except
    -- that an entity which shares its index with the one written (another generation) is not found.
    pub get_component-set :
        (j : Entity)
        → get_component j (set_component id val s) ≡ (
            if j == id
            then some val
            else if entity_index j == entity_index id
            then none
            else get_component j s)
    get_component-set j = elim (Bool-cases (occupied s.dense own_cell id)) [
      | inr new ↦ ap (get_component j) (set_new new) ∙ get-extended j
      | inl old ↦
          let (i, e, at) = own_place old in
          ap (get_component j) (set_old_at i e old) ∙ get-updated j i e at ∙ elim (Eq-cases j id) [
            | inl same ↦ rw (same, ==_refl id)
            | inr ne ↦ rw (==_ne j id ne) (elim (Eq-cases (entity_index j) (entity_index id)) [
              | inl shared ↦ rw (get-shared j old ne shared, shared, ==_refl (entity_index id))
              | inr apart ↦ rw (==_ne (entity_index j) (entity_index id) apart)
            ])
          ]
    ]
