-- ===== src/Ecs/Accumulator.antt =====
-- The damage that a tick accumulates (server/ecs/combat_accumulator.go), and how a map worker applies it
-- (flushCombatBuffer of server/world/worker.go). Batches are shared: the map holds pointers, and the pool is
-- a slice of an array into whose cells the map may point, so batches stand in a heap.
pub mod Apart
pub mod Ticks
mod Tests
use minnsun_s_adventure.Common.{
  ℕ, zero, suc, ◌+◌, ◌-◌, Bool, List, [], ◌∷◌, Option, none, some, ltb, leb, ◌==◌, ◌&&◌,
  if◌then◌else◌,
}
use minnsun_s_adventure.Common.Int.{ℤ, pos, ◌+ℤ◌, ◌-ℤ◌, ltb_ℤ, int64}
use minnsun_s_adventure.Common.Table.{Table, insert}
use minnsun_s_adventure.Common.Entries
use minnsun_s_adventure.Ecs.Entity.{Entity}
use minnsun_s_adventure.Ecs.Components.{StatsComponent}

pub record DamageBatch : Type 0 where
  pub total_damage : ℤ
  pub total_threat : ℤ

abbrev pub no_damage : DamageBatch
no_damage = record { total_damage = pos 0; total_threat = pos 0 }

-- The addresses from `next` on are not in use. The pool has `length` of the `capacity` cells from `base` on.
pub record CombatAccumulator : Type 0 where
  pub batches : List (Entity × ℕ)
  pub heap : ℕ → DamageBatch
  pub next : ℕ
  pub base : ℕ
  pub length : ℕ
  pub capacity : ℕ

-- A write to a cell.
abbrev pub write : ℕ → DamageBatch → (ℕ → DamageBatch) → ℕ → DamageBatch
write a b heap x = if x == a then b else heap x

-- `NewCombatAccumulator`
abbrev pub new_combat_accumulator : CombatAccumulator
new_combat_accumulator = record {
  batches = [];
  heap = λ a. no_damage;
  next = 64;
  base = 0;
  length = 0;
  capacity = 64;
}

-- The batch of a new target: the last one of the pool, or a new one.
abbrev pub take_batch : CombatAccumulator → ℕ × CombatAccumulator
take_batch a =
    if ltb 0 a.length
    then (
      a.base + (a.length - 1),
      record a { length = a.length - 1; heap = write (a.base + (a.length - 1)) no_damage a.heap },
    )
    else (a.next, record a { next = a.next + 1; heap = write a.next no_damage a.heap })

abbrev pub batch_for : Entity → CombatAccumulator → ℕ × CombatAccumulator
batch_for target a = elim (Entries.lookup target a.batches) [
  | some batch ↦ (batch, a)
  | none ↦
      let (batch, a') = take_batch a in
      (batch, record a' { batches = Entries.insert target batch a'.batches })
]

abbrev pub add_to : ℤ → ℤ → DamageBatch → DamageBatch
add_to amount threat b = record {
  total_damage = int64 (b.total_damage +ℤ amount);
  total_threat = int64 (b.total_threat +ℤ threat);
}

-- `AddDamage`, with the threat as an int64.
unfoldable pub add_damage : Entity → ℤ → ℤ → CombatAccumulator → CombatAccumulator
add_damage target amount threat a =
    let (batch, a') = batch_for target a in
    record a' { heap = write batch (add_to amount threat (a'.heap batch)) a'.heap }

-- `ca.pool = append(ca.pool, b)`: within the capacity the cell is written; otherwise the cells are copied to a new
-- array, which Go makes larger by `spare` cells than is needed.
abbrev pub append_pool : ℕ → DamageBatch → CombatAccumulator → CombatAccumulator
append_pool spare b a =
    if ltb a.length a.capacity
    then record a { heap = write (a.base + a.length) b a.heap; length = a.length + 1 }
    else record a {
      heap = λ x.
          (if x == a.next + a.length
            then b
            else if leb a.next x && ltb x (a.next + a.length)
            then a.heap (a.base + (x - a.next))
            else a.heap x);
      base = a.next;
      length = a.length + 1;
      capacity = a.length + 1 + spare;
      next = a.next + (a.length + 1 + spare);
    }

-- `recycleBatch`
abbrev pub recycle_batch : ℕ → ℕ → CombatAccumulator → CombatAccumulator
recycle_batch spare batch a =
    append_pool spare no_damage (record a { heap = write batch no_damage a.heap })

-- The loop of `Flush` in the order of its rounds: the targets and what the callback finds in their batches.
pub flush_loop :
    ℕ → List (Entity × ℕ) → CombatAccumulator → List (Entity × DamageBatch) × CombatAccumulator
flush_loop spare [] a = ([], a)
flush_loop spare ((target, batch) ∷ order) a =
    let (seen, a') = flush_loop spare order (recycle_batch spare batch a) in
    ((target, a.heap batch) ∷ seen, a')

-- `Flush`, on the batches in the order that the loop over the map takes.
unfoldable pub flush :
    ℕ → List (Entity × ℕ) → CombatAccumulator → List (Entity × DamageBatch) × CombatAccumulator
unfolding flush_loop
flush spare order a =
    let (seen, a') = flush_loop spare order a in (seen, record a' { batches = [] })

-- The callback of `flushCombatBuffer`: damage is taken off a target that has stats, down to 0.
abbrev pub take_damage : Entity → ℤ → Table StatsComponent → Table StatsComponent
take_damage target damage stats = elim (stats target) [
  | none ↦ stats
  | some s ↦
      let hp = int64 (s.hp -ℤ damage) in
      insert target (record s { hp = if ltb_ℤ hp (pos 0) then pos 0 else hp }) stats
]

unfoldable pub flush_combat_buffer :
    List (Entity × DamageBatch) → Table StatsComponent → Table StatsComponent
flush_combat_buffer [] stats = stats
flush_combat_buffer ((target, batch) ∷ seen) stats =
    flush_combat_buffer seen (take_damage target batch.total_damage stats)
