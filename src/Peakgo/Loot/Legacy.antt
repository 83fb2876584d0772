-- ===== src/Peakgo/Loot/Legacy.antt =====
-- The drop chances of the old tables (server/game/loot.go).
use native.Mathlib.Nat.{mod-lt}
use minnsun_s_adventure.Common.{
  ℕ, ◌+◌, ◌%◌, ◌≤◌, ◌<◌, ◌≡◌, ◌≢◌, ap, ◌∙◌, true, false, [], ◌∷◌, some, arith, ◌==◌,
}
use minnsun_s_adventure.Common.Int.{
  pos, ◌+ℤ◌, ltb_ℤ, leb_ℤ, int64, int64_exact, +ℤ_parts, eq_of_parts,
}
use minnsun_s_adventure.Common.Table.{Table}
use minnsun_s_adventure.Peakgo.Rng.{Draws, intn}
use minnsun_s_adventure.Peakgo.Loot.{
  LootTable, new_loot_table, consider, quantity_of, roll_single, number_of_drops, roll,
  legacy_drop_to_entry, roll_loot,
}

-- A table of one item, of whatever chance from 1 to 1000 per mille, gives that item at every roll.
pub single_always_drops :
    (draws : Draws) (tables : Table LootTable) (monster item p i : ℕ)
    → tables monster ≡ some (new_loot_table (legacy_drop_to_entry ((item, pos p) ∷ [])) (pos 1000))
    → item ≢ 0
    → 0 < p
    → p ≤ 1000
    → roll_loot draws tables monster i ≡ some (item ∷ [], i + 1)
unfolding roll_loot new_loot_table legacy_drop_to_entry intn roll number_of_drops roll_single
    quantity_of consider
single_always_drops draws tables monster item p i at nz low high =
    rw (roll_loot, at, weight, sum, positive, nonzero) (ground (arith, mod-lt (draws i) low))
  where
    weight : ltb_ℤ (pos p) (pos 1) ≡ false
    weight = ground arith

    sum : int64 (pos 0 +ℤ pos p) ≡ pos p
    sum =
        ap int64 (eq_of_parts (pos 0 +ℤ pos p) (pos p) (omega (arith, +ℤ_parts (pos 0) (pos p))))
        ∙ int64_exact (pos p) (omega arith, omega arith)

    positive : leb_ℤ (pos p) (pos 0) ≡ false
    positive = ground arith

    nonzero : (p == 0) ≡ false
    nonzero = ground arith

    below : ltb_ℤ (pos (draws i % p)) (pos p) ≡ true
    below = ground (arith, mod-lt (draws i) low)
