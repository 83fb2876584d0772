-- ===== src/Peakgo/Loot/Tests.antt =====
-- Loot of two entries (server/peakgo/loot/loot.go, server/game/loot.go).
use minnsun_s_adventure.Common.{
  ◌+◌, ◌≤◌, ◌<◌, ◌≡◌, refl, List, [], ◌∷◌, ◌++◌, false, none, some, arith,
}
use minnsun_s_adventure.Common.Partial.{Gives}
use minnsun_s_adventure.Common.Int.{pos, pos_part, ◌+ℤ◌, ◌-ℤ◌, int64}
use minnsun_s_adventure.Peakgo.Rng.{intn_range}
use minnsun_s_adventure.Peakgo.Loot.{DropEntry, DropContext, LootTable, select, roll_single}
use minnsun_s_adventure.Peakgo.Loot.Selection.{total, select_lem}
use minnsun_s_adventure.Peakgo.Loot.Rolls.{IsDropOf, roll_single-IsDropOf}

abbrev coins : DropEntry
coins = record {
  item_id = 1;
  weight = pos 100;
  min_qty = pos 2;
  max_qty = pos 9;
  required_level = pos 0;
  chance = pos 0;
}

abbrev relic : DropEntry
relic = record {
  item_id = 2;
  weight = pos 300;
  min_qty = pos 1;
  max_qty = pos 1;
  required_level = pos 10;
  chance = pos 0;
}

abbrev table : LootTable
table = record {
  entries = coins ∷ relic ∷ [];
  total_weight = pos 400;
  base_chance = pos 1000;
  custom_cond = none;
}

abbrev novice : DropContext
novice = record {
  killer_level = pos 3;
  killer_class = pos 0;
  party_size = pos 1;
  is_boss = false;
  world_level = pos 1;
}

-- A novice cannot get the relic: 250 is taken modulo 100.
novice_gets_coins :
    roll_single (λ i. 250 + i) novice table 0 ≡ some (record { item_id = 1; qty = pos 5 }, 2)
unfolding roll_single int64 ◌+ℤ◌ ◌-ℤ◌
novice_gets_coins = refl

die_of_six : intn_range (λ i. 17) (pos 1) (pos 7) 0 ≡ some (pos 6, 1)
unfolding intn_range int64 ◌+ℤ◌ ◌-ℤ◌
die_of_six = refl

select_lem_example :
    (before : List DropEntry) × (e : DropEntry) × (later : List DropEntry) × (coins ∷ relic ∷ []
      ≡ before ++ (e ∷ later))
    × (select (pos 120) (pos 0) (coins ∷ relic ∷ []) ≡ some e)
    × (0 + total before ≤ 120)
    × (120 < 0 + total before + pos_part e.weight)
select_lem_example =
    select_lem 120 0 (coins ∷ relic ∷ []) (omega arith) (omega arith) (omega arith) (omega arith)

roll_single-IsDropOf_example :
    Gives (λ r. IsDropOf novice table r.0) (roll_single (λ i. 250 + i) novice table 0)
roll_single-IsDropOf_example =
    roll_single-IsDropOf (λ i. 250 + i) novice table (omega arith) (omega arith) 0
