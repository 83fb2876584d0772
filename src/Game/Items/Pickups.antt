-- ===== src/Game/Items/Pickups.antt =====
-- Items on the ground (server/game/pickup.go, ground_item.go).
use mathlib.Core.Path.{subst}
use native.Mathlib.Nat.{mod-eq_of_lt}
use minnsun_s_adventure.Common.{
  ℕ, ◌+◌, ◌%◌, ◌^◌, ◌<◌, ◌≤◌, ◌⊎◌, inl, inr, List, [], ◌∷◌, ◌++◌, false, sym, ◌∙◌, Option-cases,
  Bool-cases, ◌≡◌, refl, ap, true, none, some, arith, leb,
}
use minnsun_s_adventure.Common.Int.{pos, leb_ℤ}
use minnsun_s_adventure.Common.Table.{Table, insert_self, erase_self}
use minnsun_s_adventure.Ecs.Entity.{Entity}
use minnsun_s_adventure.Ecs.Components.{
  EntityType, MetadataComponent, PositionComponent, LifetimeComponent, entity_ground_item,
}
use minnsun_s_adventure.Ecs.Registry.{before_metadata}
use minnsun_s_adventure.Game.State.{GameState, Locked, returns, blocks, is_in_range, spawn_id}
use minnsun_s_adventure.Peakgo.Anticheat.{distance_sq}
use minnsun_s_adventure.Game.Items.{
  ItemTemplate, stowed, vanished, template_of, handle_item_pickup, spawn_item_on_ground, is_due,
  run_decay, is_ground_item,
}

gone_refused :
    (player item : Entity) (s : GameState)
    → s.registry.metadata item ≡ none
    → handle_item_pickup player item s ≡ (vanished, s)
unfolding handle_item_pickup
gone_refused player item s e = rw (handle_item_pickup, e) refl

-- What a pickup that went through leaves of the item.
stowed_gone :
    (player item : Entity) (s s' : GameState)
    → handle_item_pickup player item s ≡ (stowed, s')
    → (s'.registry.metadata item ≡ none) × (s'.grid item ≡ none)
unfolding handle_item_pickup
stowed_gone player item s s' done =
    ground (arith, erase_self item s.registry.metadata, erase_self item s.grid)

-- After a pickup that went through the item is not in the grid, and every pickup of it is refused and changes
-- nothing.
pub picked_up_once :
    (player other item : Entity) (s s' : GameState)
    → handle_item_pickup player item s ≡ (stowed, s')
    → (s'.grid item ≡ none) × (handle_item_pickup other item s' ≡ (vanished, s'))
picked_up_once player other item s s' done =
    let (no_meta, no_place) = stowed_gone player item s s' done in
    (no_place, gone_refused other item s' no_meta)

-- A pickup looks at the coordinates alone: a player at the place of a ground item gets it, whatever maps the
-- two are on.
pub picked_up_across_maps :
    (player item : Entity) (s : GameState) (meta : MetadataComponent)
    (here there : PositionComponent)
    → s.registry.metadata item ≡ some meta
    → meta.type ≡ entity_ground_item
    → s.registry.positions player ≡ some here
    → s.registry.positions item ≡ some there
    → leb_ℤ (distance_sq here.x here.z there.x there.z) (pos 25) ≡ true
    → (handle_item_pickup player item s).0 ≡ stowed
unfolding handle_item_pickup is_in_range
picked_up_across_maps player item s meta here there has ground at_player at_item near =
    rw (handle_item_pickup, has, ground, is_in_range, at_player, at_item, near) refl

-- The entity is no item on the ground with a lifetime, or its time has not come at the tick.
abbrev pub IsQuiet : ℕ → Entity → GameState → Type 0
IsQuiet tick id s =
    (meta : MetadataComponent) (life : LifetimeComponent)
    → s.registry.metadata id ≡ some meta
    → meta.type ≡ entity_ground_item
    → s.registry.lifetimes id ≡ some life
    → tick < (life.spawned_tick + life.duration) % 2 ^ 64

abbrev pub AreQuiet : ℕ → List Entity → GameState → Type 0
AreQuiet tick [] s = Unit
AreQuiet tick (id ∷ ids) s = IsQuiet tick id s × AreQuiet tick ids s

ground_type : (t : EntityType) → is_ground_item t ≡ true → t ≡ entity_ground_item
ground_type entity_ground_item e = refl
ground_type _ e = absurd (cc)

quiet_not_due :
    (tick : ℕ) (id : Entity) (s : GameState) → IsQuiet tick id s → is_due tick id s ≡ false
unfolding is_due
quiet_not_due tick id s quiet = elim (Option-cases (s.registry.metadata id)) [
  | inl e ↦ rw (is_due, e) refl
  | inr (meta, e) ↦ elim (Bool-cases (is_ground_item meta.type)) [
    | inr g ↦ rw (is_due, e, g) refl
    | inl g ↦ elim (Option-cases (s.registry.lifetimes id)) [
      | inl f ↦ rw (is_due, e, g, f) refl
      | inr (life, f) ↦
          rw (is_due, e, g, f) (early _ tick (quiet meta life e (ground_type meta.type g) f))
    ]
  ]
]
  where
    early : (n m : ℕ) → m < n → leb n m ≡ false
    early n m lt = ground arith

-- Entities that are not due are passed over.
run_decay-quiet :
    (tick : ℕ) (before after : List Entity) (s : GameState)
    → AreQuiet tick before s
    → run_decay tick (before ++ after) s ≡ run_decay tick after s
unfolding run_decay
run_decay-quiet tick [] after s quiet = refl
run_decay-quiet tick (id ∷ before) after s (here, quiet) =
    rw (quiet_not_due tick id s here) (run_decay-quiet tick before after s quiet)

run_decay-all_quiet :
    (tick : ℕ) (ids : List Entity) (s : GameState)
    → AreQuiet tick ids s
    → run_decay tick ids s ≡ returns s
unfolding run_decay
run_decay-all_quiet tick [] s quiet = refl
run_decay-all_quiet tick (id ∷ ids) s (here, quiet) =
    rw (quiet_not_due tick id s here) (run_decay-all_quiet tick ids s quiet)

-- The run blocks with the item out of the grid, and still in the registry.
abbrev pub BlocksOn : Entity → GameState → Locked GameState → Type 0
BlocksOn id s r =
    (stuck : GameState) × (r ≡ blocks stuck)
    × (stuck.grid id ≡ none)
    × (stuck.registry.metadata ≡ s.registry.metadata)
    × (stuck.registry.lifetimes ≡ s.registry.lifetimes)
    × (stuck.free ≡ s.free)

run_decay-BlocksOn :
    (tick : ℕ) (id : Entity) (after : List Entity) (s : GameState)
    → is_due tick id s ≡ true
    → BlocksOn id s (run_decay tick (id ∷ after) s)
unfolding run_decay before_metadata
run_decay-BlocksOn tick id after s due = rw due (_, refl, erase_self id s.grid, refl, refl, refl)

not_due :
    (tick : ℕ) (id : Entity) (after : List Entity) (s : GameState)
    → is_due tick id s ≡ false
    → AreQuiet tick after s
    → run_decay tick (id ∷ after) s ≡ returns s
unfolding run_decay
not_due tick id after s early quiet = rw early (run_decay-all_quiet tick after s quiet)

dropped_placed :
    (items : Table ItemTemplate) (tick item : ℕ) (at : PositionComponent) (s : GameState)
    (template : ItemTemplate)
    → items item ≡ some template
    → let (id, s') = spawn_item_on_ground items tick item at s in
      (s'.registry.positions id ≡ some at)
      × (template_of id s'.registry ≡ item)
      × (s'.grid id ≡ some at)
unfolding spawn_item_on_ground
dropped_placed items tick item at s template known =
    let (id, s') = spawn_id s in
    let r = s'.registry in
    rw (spawn_item_on_ground, known)
      (
        insert_self id at r.positions,
        ap (λ o. elim o [ none ↦ 101 | some t ↦ t.template_id ])
            (insert_self id (record { template_id = item }) r.item_templates),
        insert_self id at s'.grid,
      )

dropped_due :
    (items : Table ItemTemplate) (tick later item : ℕ) (at : PositionComponent) (s : GameState)
    (template : ItemTemplate)
    → items item ≡ some template
    → tick + 240 < 2 ^ 64
    → let (id, s') = spawn_item_on_ground items tick item at s in
      is_due later id s' ≡ leb (tick + 240) later
unfolding spawn_item_on_ground is_due
dropped_due items tick later item at s template known small =
    let (id, s') = spawn_id s in
    let r = s'.registry in
    rw
      (
        is_due,
        spawn_item_on_ground,
        known,
        insert_self id (record { name = template.name; type = entity_ground_item }) r.metadata,
        spawn_item_on_ground,
        known,
        insert_self id (record { spawned_tick = tick; duration = 240 }) r.lifetimes,
        mod-eq_of_lt small,
      )
      refl

-- An item that is dropped is at its place, with its template. Where no other item in the order of the loop is due, the
-- decay system, run before 240 ticks have passed, returns with nothing changed; run later, it never returns,
-- waiting for a lock that it holds itself: the item is out of the grid by then, and keeps its metadata and
-- lifetime, and its ID.
pub dropped_then_blocks :
    (items : Table ItemTemplate) (tick later item : ℕ) (at : PositionComponent) (s : GameState)
    (template : ItemTemplate) (before after : List Entity)
    → items item ≡ some template
    → tick + 240 < 2 ^ 64
    → AreQuiet later before (spawn_item_on_ground items tick item at s).1
    → AreQuiet later after (spawn_item_on_ground items tick item at s).1
    → let (id, s') = spawn_item_on_ground items tick item at s in
      (s'.registry.positions id ≡ some at)
      × (template_of id s'.registry ≡ item)
      × (s'.grid id ≡ some at)
      × (((later < tick + 240) × (run_decay later (before ++ (id ∷ after)) s' ≡ returns s'))
          ⊎ ((tick + 240 ≤ later) × BlocksOn id s' (run_decay later (before ++ (id ∷ after)) s')))
dropped_then_blocks items tick later item at s template before after known small quiet quiet' =
    let (at_place, of_template, in_grid) = dropped_placed items tick item at s template known in
    let id = (spawn_item_on_ground items tick item at s).0 in
    let s' = (spawn_item_on_ground items tick item at s).1 in
    let due = dropped_due items tick later item at s template known small in
    let passed = run_decay-quiet later before (id ∷ after) s' quiet in
    (
      at_place,
      of_template,
      in_grid,
      elim (Bool-cases (leb (tick + 240) later)) [
        | inr e ↦ inl (ground arith, passed ∙ not_due later id after s' (due ∙ e) quiet')
        | inl e ↦ inr (
          ground arith,
          subst (BlocksOn id s') (sym passed) (run_decay-BlocksOn later id after s' (due ∙ e)),
        )
      ],
    )
