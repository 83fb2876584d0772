-- ===== src/Ecs/Store/Refine.antt =====
-- A component store behaves as a map from entities to values, over any run of `Set` and `Delete`.
use minnsun_s_adventure.Common.{
  ◌+◌, ◌<◌, ◌≡◌, ◌≢◌, sym, ◌∙◌, none, List, [], ◌∷◌, arith, length, inl, inr, Eq-cases,
  Option-cases, ==_refl, ==_ne,
}
use minnsun_s_adventure.Common.Table.{Table, empty, insert, erase}
use minnsun_s_adventure.Ecs.Store.{
  Entity, entity_index, ComponentStore, new_store, set_component, get_component, delete_component,
}
use minnsun_s_adventure.Ecs.Store.Lookup.{
  max_dense, IsValid, IsOnlyGeneration, new_store-IsValid, get_component-stored,
  get_component-absent,
}
use minnsun_s_adventure.Ecs.Store.Writes.{get_component-set}
use minnsun_s_adventure.Ecs.Store.Writes.Keeps.{set_component-IsValid, length-set_component}
use minnsun_s_adventure.Ecs.Store.Deletes.Keeps.{
  get_component-delete, delete_component-IsValid, length-delete_component,
}
use minnsun_s_adventure.Common.{get_elem?-lt, get_elem?-some_lt}

pub data Op (T : Type 0) : Type 0 where
  set_op : Entity → T → Op T
  delete_op : Entity → Op T

module _ {T : Type 0} where
  pub run : List (Op T) → ComponentStore T → ComponentStore T
  run [] s = s
  run (set_op id v ∷ ops) s = run ops (set_component id v s)
  run (delete_op id ∷ ops) s = run ops (delete_component id s)

  -- The same calls on a map.
  pub run_map : List (Op T) → Table T → Table T
  run_map [] m = m
  run_map (set_op id v ∷ ops) m = run_map ops (insert id v m)
  run_map (delete_op id ∷ ops) m = run_map ops (erase id m)

  -- No other generation of the entity's index is in the map.
  abbrev pub IsAlone : Entity → Table T → Type 0
  IsAlone id m = (j : Entity) → m j ≢ none → entity_index j ≡ entity_index id → j ≡ id

  -- `Set` is called only while no other generation of the index is stored.
  abbrev pub Respects : List (Op T) → Table T → Type 0
  Respects [] m = Unit
  Respects (set_op id v ∷ ops) m = IsAlone id m × Respects ops (insert id v m)
  Respects (delete_op id ∷ ops) m = Respects ops (erase id m)

  abbrev Agrees : ComponentStore T → Table T → Type 0
  Agrees s m = (j : Entity) → get_component j s ≡ m j

  only_of_alone :
      (s : ComponentStore T) (m : Table T) (id : Entity)
      → IsValid s
      → Agrees s m
      → IsAlone id m
      → IsOnlyGeneration s id
  only_of_alone s m id v agrees alone i e at same =
      let (x, found) =
        get_elem?-lt s.values i (omega (arith, v.aligned, get_elem?-some_lt s.dense i at)) in
      let here = sym (agrees e) ∙ get_component-stored s i e v at ∙ found in
      alone e (λ gone. absurd (cc)) same

  Agrees-set :
      (s : ComponentStore T) (m : Table T) (id : Entity) (x : T)
      → IsValid s
      → length s.dense + 1 < max_dense
      → Agrees s m
      → IsAlone id m
      → Agrees (set_component id x s) (insert id x m)
  Agrees-set s m id x v room agrees alone j =
      get_component-set id x s v room j ∙ elim (Eq-cases j id) [
        | inl same ↦ rw (same, ==_refl id)
        | inr ne ↦
            rw (==_ne j id ne, ==_ne id j (λ e. ne (sym e)))
              (elim (Eq-cases (entity_index j) (entity_index id)) [
                | inl shared ↦
                    rw (shared, ==_refl (entity_index id))
                      (elim (Option-cases (m j)) [
                        | inl gone ↦ sym gone
                        | inr (y, found) ↦ absurd (ne (alone j (λ gone. absurd (cc)) shared))
                      ])
                | inr apart ↦ rw (==_ne (entity_index j) (entity_index id) apart) (agrees j)
              ])
      ]

  Agrees-delete :
      (s : ComponentStore T) (m : Table T) (id : Entity)
      → IsValid s
      → Agrees s m
      → Agrees (delete_component id s) (erase id m)
  Agrees-delete s m id v agrees j = get_component-delete s v id j ∙ elim (Eq-cases j id) [
    | inl same ↦ rw (same, ==_refl id)
    | inr ne ↦ rw (==_ne j id ne, ==_ne id j (λ e. ne (sym e))) (agrees j)
  ]

  run-Agrees :
      (ops : List (Op T)) (s : ComponentStore T) (m : Table T)
      → IsValid s
      → length s.dense + length ops < max_dense
      → Agrees s m
      → Respects ops m
      → IsValid (run ops s) × Agrees (run ops s) (run_map ops m)
  unfolding run run_map
  run-Agrees [] s m v room agrees r = (v, agrees)
  run-Agrees (set_op id x ∷ ops) s m v room agrees r =
      let room' : length s.dense + 1 < max_dense = omega arith in
      run-Agrees ops (set_component id x s) (insert id x m)
        (set_component-IsValid id x s v room' (only_of_alone s m id v agrees r.0))
        (omega (arith, length-set_component id x s v)) (Agrees-set s m id x v room' agrees r.0) r.1
  run-Agrees (delete_op id ∷ ops) s m v room agrees r =
      run-Agrees ops (delete_component id s) (erase id m) (delete_component-IsValid s v id)
        (omega (arith, length-delete_component s v id)) (Agrees-delete s m id v agrees) r

  new_store-Agrees : Agrees (new_store {T = T}) empty
  new_store-Agrees j =
      get_component-absent (new_store {T = T}) j new_store-IsValid
        (λ i at. unfold new_store in absurd (cc))

  -- After fewer than 2^31 calls of `Set` and `Delete` on a new store, `Get` finds exactly what a map
  -- holds after the same calls, if no `Set` is made while another generation of the same index is in
  -- the map; and the store is well formed.
  pub run_refines_map :
      (ops : List (Op T))
      → length ops < max_dense
      → Respects ops empty
      → IsValid (run ops new_store)
        × ((j : Entity) → get_component j (run ops new_store) ≡ run_map ops empty j)
  run_refines_map ops few r =
      run-Agrees ops new_store empty new_store-IsValid (unfold new_store in omega arith)
        new_store-Agrees r
