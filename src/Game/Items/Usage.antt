-- ===== src/Game/Items/Usage.antt =====
-- A potion is drunk (server/game/item_usage.go).
use minnsun_s_adventure.Common.{
  ℕ, zero, suc, ◌+◌, ◌^◌, ◌<◌, ◌≡◌, ◌≢◌, refl, sym, ap, ◌∙◌, Bool, true, false, Option, none, some,
  arith, ◌==◌, ltb, if◌then◌else◌, length,
}
use minnsun_s_adventure.Common.Int.{
  ℤ, pos, leb_ℤ, ltb_ℤ, ◌+ℤ◌, ◌-ℤ◌, int64, int64_exact, +ℤ_parts, -ℤ_parts, eq_of_parts,
}
use minnsun_s_adventure.Common.Table.{Table, insert, erase, insert_self, insert_other}
use minnsun_s_adventure.Ecs.Entity.{Entity}
use minnsun_s_adventure.Ecs.Components.{StatsComponent, InventoryComponent, Items, quantity}
use minnsun_s_adventure.Ecs.Registry.{Registry}
use minnsun_s_adventure.Peakgo.Codec.{Bytes, read_uint64}
use minnsun_s_adventure.Game.Items.{ItemTemplate, consumed, take_one, healed, handle_item_usage}

-- a + b of two numbers below 2^62 is what the program computes, and so is a - 1.
plus_exact : (a b : ℕ) → a < 2 ^ 62 → b < 2 ^ 62 → int64 (pos a +ℤ pos b) ≡ pos (a + b)
plus_exact a b ha hb =
    ap int64 (eq_of_parts (pos a +ℤ pos b) (pos (a + b)) (omega (arith, +ℤ_parts (pos a) (pos b))))
    ∙ int64_exact (pos (a + b)) (omega arith, omega arith)

less_one_exact : (n : ℕ) → n < 2 ^ 62 → int64 (pos (suc n) -ℤ pos 1) ≡ pos n
less_one_exact n h =
    ap int64
      (eq_of_parts (pos (suc n) -ℤ pos 1) (pos n) (omega (arith, -ℤ_parts (pos (suc n)) (pos 1))))
    ∙ int64_exact (pos n) (omega arith, omega arith)

take_one-quantity :
    (item n j : ℕ) (items : Items)
    → n < 2 ^ 62
    → quantity item items ≡ pos (suc n)
    → quantity j (take_one item items) ≡ (if item == j then pos n else quantity j items)
take_one-quantity item n j items small has =
    let left : int64 (quantity item items -ℤ pos 1) ≡ pos n =
      ap (λ v. int64 (v -ℤ pos 1)) has ∙ less_one_exact n small in
    rw left (by_count n)
  where
    gone :
        (b : Bool) (o : Option ℤ) (z : ℤ)
        → z ≡ pos 0
        → (elim (if b then none else o) [ none ↦ pos 0 | some k ↦ k ])
          ≡ (if b then z else (elim o [ none ↦ pos 0 | some k ↦ k ]))
    gone true o z e = sym e
    gone false o z e = refl

    kept :
        (b : Bool) (o : Option ℤ) (z : ℤ)
        → (elim (if b then some z else o) [ none ↦ pos 0 | some k ↦ k ])
          ≡ (if b then z else (elim o [ none ↦ pos 0 | some k ↦ k ]))
    kept true o z = refl
    kept false o z = refl

    some_left : (n : ℕ) → leb_ℤ (pos (suc n)) (pos 0) ≡ false
    some_left n = ground arith

    by_count :
        (n : ℕ)
        → quantity j (if leb_ℤ (pos n) (pos 0) then erase item items else insert item (pos n) items)
          ≡ (if item == j then pos n else quantity j items)
    by_count zero = gone (item == j) (items j) (pos 0) refl
    by_count (suc n) = rw (some_left n) (kept (item == j) (items j) (pos (suc n)))

healed_lem :
    (a h m : ℕ) (stats : StatsComponent)
    → stats.hp ≡ pos a
    → stats.max_hp ≡ pos m
    → a < 2 ^ 62
    → h < 2 ^ 62
    → healed (pos h) stats ≡ pos (if ltb m (a + h) then m else a + h)
healed_lem a h m stats is_hp is_max ha hh =
    let sum : int64 (stats.hp +ℤ pos h) ≡ pos (a + h) =
      ap (λ v. int64 (v +ℤ pos h)) is_hp ∙ plus_exact a h ha hh in
    rw (sum, is_max) (clamped (a + h) m)
  where
    clamped :
        (x m : ℕ)
        → (if ltb_ℤ (pos m) (pos x) then pos m else pos x) ≡ pos (if ltb m x then m else x)
    clamped x m = ground arith

-- A living player below full health who has the item drinks it: of that item one is gone and of the others
-- as many are there as before, HP grows by the heal value up to the maximum, and no other player's
-- inventory or stats change.
pub handle_item_usage_consumes :
    (items : Table ItemTemplate) (player : Entity) (payload : Bytes) (r : Registry)
    (item n h a m : ℕ) (template : ItemTemplate) (inv : InventoryComponent) (stats : StatsComponent)
    → length payload ≡ 8
    → read_uint64 payload ≡ some item
    → items item ≡ some template
    → template.heal_value ≡ pos (suc h)
    → r.inventories player ≡ some inv
    → quantity item inv.items ≡ pos (suc n)
    → r.stats player ≡ some stats
    → stats.hp ≡ pos (suc a)
    → stats.max_hp ≡ pos m
    → suc a < m
    → n < 2 ^ 62
    → suc h < 2 ^ 62
    → m < 2 ^ 62
    → (r' : Registry) × (inv' : InventoryComponent) × (stats' : StatsComponent) × (handle_item_usage
          items player payload r
        ≡ some (consumed, r'))
      × (r'.inventories player ≡ some inv')
      × ((j : ℕ) → quantity j inv'.items ≡ (if item == j then pos n else quantity j inv.items))
      × (r'.stats player ≡ some stats')
      × (stats'.hp ≡ pos (if ltb m (suc a + suc h) then m else suc a + suc h))
      × ((p : Entity)
          → p ≢ player
          → (r'.inventories p ≡ r.inventories p) × (r'.stats p ≡ r.stats p))
unfolding handle_item_usage
handle_item_usage_consumes items player payload r item n h a m template inv stats len is_item known
      heals has owns alive is_hp is_max hurt hn hh hm =
    let inv' : InventoryComponent = record { items = take_one item inv.items } in
    let stats' : StatsComponent = record stats { hp = healed template.heal_value stats } in
    (
      record r {
        inventories = insert player inv' r.inventories;
        stats = insert player stats' r.stats;
      },
      inv',
      stats',
      rw (handle_item_usage, eight, is_item, known, some_heal, has, some_left, alive, living, below)
          refl,
      insert_self player inv' r.inventories,
      (λ j. take_one-quantity item n j inv.items hn owns),
      insert_self player stats' r.stats,
      ap (λ v. healed v stats) heals
          ∙ healed_lem (suc a) (suc h) m stats is_hp is_max (omega arith) hh,
      (λ p ne. (
        insert_other player p inv' r.inventories (λ e. ne (sym e)),
        insert_other player p stats' r.stats (λ e. ne (sym e)),
      )),
    )
  where
    eight : (length payload == 8) ≡ true
    eight = ground arith

    positive : (v : ℤ) (k : ℕ) → v ≡ pos (suc k) → leb_ℤ v (pos 0) ≡ false
    positive v k e = ground arith

    some_heal : leb_ℤ template.heal_value (pos 0) ≡ false
    some_heal = positive template.heal_value h heals

    some_left : leb_ℤ (quantity item inv.items) (pos 0) ≡ false
    some_left = positive (quantity item inv.items) n owns

    living : leb_ℤ stats.hp (pos 0) ≡ false
    living = positive stats.hp a is_hp

    below : leb_ℤ stats.max_hp stats.hp ≡ false
    below = ground arith
