-- ===== src/Ecs/Store/Tests.antt =====
-- Runs of a component store (server/ecs/ecs.go).
use minnsun_s_adventure.Common.{ℕ, ◌≡◌, refl, inl, inr, List, [], ◌∷◌, arith, Eq-cases}
use minnsun_s_adventure.Common.Table.{empty, insert_other}
use minnsun_s_adventure.Ecs.Store.{Entity, new_store, get_component}
use minnsun_s_adventure.Ecs.Store.Lookup.{IsValid}
use minnsun_s_adventure.Ecs.Store.Refine.{
  Op, set_op, delete_op, run, run_map, Respects, run_refines_map,
}

abbrev three_ops : List (Op ℕ)
three_ops = set_op 5 10 ∷ set_op 7 20 ∷ delete_op 5 ∷ []

three_ops-Respects : Respects three_ops empty
three_ops-Respects = (
  (λ j there same. absurd (there refl)),
  (
    (λ j there same. elim (Eq-cases 5 j) [
      | inl five ↦ absurd (omega arith)
      | inr ne ↦ absurd (there (insert_other 5 j 10 empty ne))
    ]),
    tt,
  ),
)

run_refines_map_example :
    IsValid (run three_ops new_store)
    × ((j : Entity) → get_component j (run three_ops new_store) ≡ run_map three_ops empty j)
run_refines_map_example = run_refines_map three_ops (omega arith) three_ops-Respects
