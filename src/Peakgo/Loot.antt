-- ===== src/Peakgo/Loot.antt =====
-- Loot tables (server/peakgo/loot/loot.go, server/game/loot.go). The slices that are filled for a roll are
-- lists, and a panic is none.
pub mod Selection
pub mod Rolls
pub mod Legacy
mod Tests
use minnsun_s_adventure.Common.{
  ℕ, zero, suc, ◌+◌, Bool, true, false, ◌&&◌, ◌||◌, not, List, [], ◌∷◌, ◌++◌, Option, none, some,
  ◌==◌, leb, if◌then◌else◌, length,
}
use minnsun_s_adventure.Common.Partial.{◌>>=◌}
use minnsun_s_adventure.Common.Int.{ℤ, pos, negsuc, ◌+ℤ◌, ◌-ℤ◌, ltb_ℤ, leb_ℤ, int64}
use minnsun_s_adventure.Common.Table.{Table, empty, insert}
use minnsun_s_adventure.Peakgo.Rng.{Draws, intn}

pub record DropEntry : Type 0 where
  pub item_id : ℕ
  pub weight : ℤ
  pub min_qty : ℤ
  pub max_qty : ℤ
  pub required_level : ℤ
  pub chance : ℤ

pub record Drop : Type 0 where
  pub item_id : ℕ
  pub qty : ℤ

-- `Drop{}`
abbrev pub no_drop : Drop
no_drop = record { item_id = 0; qty = pos 0 }

pub record DropContext : Type 0 where
  pub killer_level : ℤ
  pub killer_class : ℤ
  pub party_size : ℤ
  pub is_boss : Bool
  pub world_level : ℤ

pub record LootTable : Type 0 where
  pub entries : List DropEntry
  pub total_weight : ℤ
  pub base_chance : ℤ
  pub custom_cond : Option (DropEntry → DropContext → Bool)

-- The loops that add weights.
abbrev pub add_weights : ℤ → List DropEntry → ℤ
add_weights acc [] = acc
add_weights acc (e ∷ es) = add_weights (int64 (acc +ℤ e.weight)) es

-- `NewLootTable`
unfoldable pub new_loot_table : List DropEntry → ℤ → LootTable
new_loot_table entries base_chance = record {
  entries = entries;
  total_weight = add_weights (pos 0) entries;
  base_chance = base_chance;
  custom_cond = none;
}

-- `WithCondition`, and `Clone`, which has no condition.
unfoldable pub with_condition : (DropEntry → DropContext → Bool) → LootTable → LootTable
with_condition cond t = record t { custom_cond = some cond }

unfoldable pub clone : LootTable → LootTable
clone t = record t { custom_cond = none }

abbrev pub meets : Option (DropEntry → DropContext → Bool) → DropEntry → DropContext → Bool
meets none e ctx = true
meets (some cond) e ctx = cond e ctx

-- Whether an entry is eligible, and the number of draws after that.
unfoldable pub consider :
    Draws
    → Option (DropEntry → DropContext → Bool)
    → DropContext
    → DropEntry
    → ℕ
    → Option (Bool × ℕ)
unfolding intn
consider draws cond ctx e i =
    if ltb_ℤ (pos 0) e.required_level && ltb_ℤ ctx.killer_level e.required_level
    then some (false, i)
    else if not (meets cond e ctx)
    then some (false, i)
    else if ltb_ℤ (pos 0) e.chance && ltb_ℤ e.chance (pos 1000)
    then (do (n, i') ← intn draws (pos 1000) i; some (not (leb_ℤ e.chance n), i'))
    else some (true, i)

-- The loop over the entries.
abbrev pub eligible :
    Draws
    → Option (DropEntry → DropContext → Bool)
    → DropContext
    → List DropEntry
    → ℕ
    → Option (List DropEntry × ℕ)
eligible draws cond ctx [] i = some ([], i)
eligible draws cond ctx (e ∷ es) i = do
  (keep, i') ← consider draws cond ctx e i
  (rest, i'') ← eligible draws cond ctx es i'
  some (if keep then e ∷ rest else rest, i'')

-- The quantity of an entry.
unfoldable pub quantity_of : Draws → DropEntry → ℕ → Option (ℤ × ℕ)
unfolding intn
quantity_of draws e i =
    let more = (do
      (n, i') ← intn draws (int64 (int64 (e.max_qty -ℤ e.min_qty) +ℤ pos 1)) i
      some (int64 (e.min_qty +ℤ n), i')) in
    if ltb_ℤ e.min_qty e.max_qty then more else some (e.min_qty, i)

-- The loop that selects an entry by weight.
abbrev pub select : ℤ → ℤ → List DropEntry → Option DropEntry
select roll cumulative [] = none
select roll cumulative (e ∷ es) =
    let next = int64 (cumulative +ℤ e.weight) in
    if ltb_ℤ roll next then some e else select roll next es

-- `rollSingle`
unfoldable pub roll_single : Draws → DropContext → LootTable → ℕ → Option (Drop × ℕ)
unfolding quantity_of consider intn
roll_single draws ctx t i = if leb_ℤ t.total_weight (pos 0) then some (no_drop, i) else (do
  (es, i₁) ← eligible draws t.custom_cond ctx t.entries i
  let weight = add_weights (pos 0) es
  let draw : Option (Drop × ℕ) = (do
    (roll, i₂) ← intn draws weight i₁
    elim (select roll (pos 0) es) [
      | none ↦ some (no_drop, i₂)
      | some e ↦ (do
        (qty, i₃) ← quantity_of draws e i₂
        some (record { item_id = e.item_id; qty = qty }, i₃))
    ])
  if (length es == 0) || leb_ℤ weight (pos 0) then some (no_drop, i₁) else draw)

-- The loop over the drops.
abbrev pub roll_all : Draws → DropContext → LootTable → ℕ → ℕ → Option (List Drop × ℕ)
roll_all draws ctx t zero i = some ([], i)
roll_all draws ctx t (suc n) i = do
  (drop, i') ← roll_single draws ctx t i
  (drops, i'') ← roll_all draws ctx t n i'
  some (if drop.item_id == 0 then drops else drop ∷ drops, i'')

-- The rounds of the loop over drops; a negative number makes none.
abbrev pub at_most_3 : ℤ → ℕ
at_most_3 (pos n) = if leb n 3 then n else 3
at_most_3 (negsuc n) = 0

-- The number of drops: 1, or up to the size of the party, and at most 3.
unfoldable pub number_of_drops : Draws → DropContext → ℕ → Option (ℕ × ℕ)
unfolding intn
number_of_drops draws ctx i =
    let party = (do
      (n, i') ← intn draws ctx.party_size i
      some (at_most_3 (int64 (pos 1 +ℤ n)), i')) in
    if ltb_ℤ (pos 0) ctx.party_size then party else some (1, i)

-- `Roll`
unfoldable pub roll : Draws → DropContext → LootTable → ℕ → Option (List Drop × ℕ)
unfolding intn number_of_drops roll_single
roll draws ctx t i =
    let drops = λ (i' : ℕ). (number_of_drops draws ctx i' >>= λ r. roll_all draws ctx t r.0 r.1) in
    let check = (do
      (n, i') ← intn draws (pos 1000) i
      if leb_ℤ t.base_chance n then some ([], i') else drops i') in
    if ltb_ℤ t.base_chance (pos 1000) then check else drops i

-- `legacyDropToEntry`, on items with their chance in per mille, which `int(item.DropChance * 1000)` is.
unfoldable pub legacy_drop_to_entry : List (ℕ × ℤ) → List DropEntry
legacy_drop_to_entry [] = []
legacy_drop_to_entry ((item, per_mille) ∷ items) =
    record {
      item_id = item;
      weight = if ltb_ℤ per_mille (pos 1) then pos 1 else per_mille;
      min_qty = pos 1;
      max_qty = pos 1;
      required_level = pos 0;
      chance = pos 0;
    }
    ∷ legacy_drop_to_entry items

abbrev pub item_ids : List Drop → List ℕ
item_ids [] = []
item_ids (d ∷ ds) = d.item_id ∷ item_ids ds

-- `RollLoot`, on `MonsterLootTables`.
unfoldable pub roll_loot : Draws → Table LootTable → ℕ → ℕ → Option (List ℕ × ℕ)
unfolding roll
roll_loot draws tables monster i = elim (tables monster) [
  | none ↦ some ([], i)
  | some t ↦ (do
    (drops, i') ←
        roll draws
          (record {
            killer_level = pos 1;
            killer_class = pos 0;
            party_size = pos 0;
            is_boss = false;
            world_level = pos 0;
          })
          t i
    some (item_ids drops, i'))
]

-- `InitializeLootTables`
unfoldable pub initialize_loot_tables : Table LootTable
unfolding new_loot_table legacy_drop_to_entry
initialize_loot_tables =
    insert 2
      (new_loot_table (legacy_drop_to_entry ((101, pos 400) ∷ (202, pos 200) ∷ [])) (pos 1000))
      (insert 1 (new_loot_table (legacy_drop_to_entry ((101, pos 700) ∷ [])) (pos 1000)) empty)
