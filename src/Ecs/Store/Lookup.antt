-- ===== src/Ecs/Store/Lookup.antt =====
-- What holds of a component store between two calls, and what `Get` finds in it.
use minnsun_s_adventure.Common.{
  ℕ, zero, suc, ◌^◌, ◌≤◌, ◌<◌, ◌≡◌, ◌≢◌, refl, sym, ◌∙◌, Bool, true, false, Option, none, some,
  List, arith, if◌then◌else◌, length, get_elem?, ==_refl, get_elem?-ge,
}
use minnsun_s_adventure.Ecs.Store.{
  Entity, entity_index, ComponentStore, dec32, dense_is, cell, occupied, new_store, get_component,
}
use minnsun_s_adventure.Ecs.Store.Slots.{ArePages}

-- Positions are int32: the dense array stays below 2^31.
abbrev pub max_dense : ℕ
max_dense = 2 ^ 31

pub record IsValid {T : Type 0} (s : ComponentStore T) : Type 0 where
  pub pages : ArePages s.sparse
  pub small : length s.dense < max_dense
  pub aligned : length s.values ≡ length s.dense
  pub cells_small : (idx : ℕ) → cell s.sparse idx < max_dense
  pub linked :
      (i : ℕ) (e : Entity) → get_elem? s.dense i ≡ some e → cell s.sparse (entity_index e) ≡ suc i

-- The code's test on the cell, with the int32 arithmetic gone.
unfoldable pub hit : List Entity → ℕ → Entity → Bool
hit dense zero id = false
hit dense (suc i) id = dense_is dense i id

pub dense_is_ge :
    (dense : List Entity) (i : ℕ) (id : Entity) → length dense ≤ i → dense_is dense i id ≡ false
dense_is_ge dense i id h = rw (get_elem?-ge dense i h, dense_is)

pub occupied-eq-hit :
    (dense : List Entity) (c : ℕ) (id : Entity)
    → length dense < max_dense
    → c < max_dense
    → occupied dense c id ≡ hit dense c id
unfolding occupied hit
occupied-eq-hit dense zero id hn hc = refl
occupied-eq-hit dense (suc i) id hn hc =
    let e : dec32 (suc i) ≡ i = omega arith in rw e (ground (arith, dense_is_ge dense i id))

-- What `Get` returns, from the cell.
module _ {T : Type 0} where
  unfoldable pub look : List Entity → List T → ℕ → Entity → Option T
  look dense values zero id = none
  look dense values (suc i) id = if dense_is dense i id then get_elem? values i else none

  pub get_component-eq-look :
      (s : ComponentStore T) (id : Entity)
      → length s.dense < max_dense
      → cell s.sparse (entity_index id) < max_dense
      → get_component id s ≡ look s.dense s.values (cell s.sparse (entity_index id)) id
  unfolding get_component
  get_component-eq-look s id small c_small =
      rw (occupied-eq-hit s.dense (cell s.sparse (entity_index id)) id small c_small)
        (go (cell s.sparse (entity_index id)) c_small)
    where
      go :
          (c : ℕ)
          → c < max_dense
          → (if hit s.dense c id then get_elem? s.values (dec32 c) else none)
            ≡ look s.dense s.values c id
      go zero h = unfold hit look in refl
      go (suc i) h = let e : dec32 (suc i) ≡ i = omega arith in rw e (unfold hit look in refl)

  -- A place in the dense array is read through its cell.
  pub get_component-stored :
      (s : ComponentStore T) (i : ℕ) (id : Entity)
      → IsValid s
      → get_elem? s.dense i ≡ some id
      → get_component id s ≡ get_elem? s.values i
  unfolding look
  get_component-stored s i id v e =
      get_component-eq-look s id v.small (v.cells_small (entity_index id))
      ∙ rw (v.linked i id e, look) (rw (e, ==_refl id, dense_is))

  pub get_component-absent :
      (s : ComponentStore T) (id : Entity)
      → IsValid s
      → ((i : ℕ) → get_elem? s.dense i ≢ some id)
      → get_component id s ≡ none
  get_component-absent s id v h =
      get_component-eq-look s id v.small (v.cells_small (entity_index id))
      ∙ go (cell s.sparse (entity_index id))
    where
      go : (c : ℕ) → look s.dense s.values c id ≡ none
      go zero = unfold look in refl
      go (suc i) = unfold look in ground (arith, h i)

pub new_store-IsValid : {T : Type 0} → IsValid (new_store {T = T})
unfolding new_store cell
new_store-IsValid = record {
  pages = λ n page e. absurd (cc);
  small = omega arith;
  aligned = refl;
  cells_small = λ idx. omega arith;
  linked = λ i e h. absurd (cc);
}

-- No other generation of the entity's index is stored.
abbrev pub IsOnlyGeneration : {T : Type 0} → ComponentStore T → Entity → Type 0
IsOnlyGeneration s id =
    (i : ℕ) (e : Entity) → get_elem? s.dense i ≡ some e → entity_index e ≡ entity_index id → e ≡ id

-- A place that is taken holds the entity that was asked for.
pub dense_is→at :
    (dense : List Entity) (i : ℕ) (id : Entity)
    → dense_is dense i id ≡ true
    → get_elem? dense i ≡ some id
dense_is→at dense i id h = ground arith

place_of_hit :
    (dense : List Entity) (c : ℕ) (id : Entity)
    → hit dense c id ≡ true
    → (i : ℕ) × (c ≡ suc i) × (get_elem? dense i ≡ some id)
unfolding hit
place_of_hit dense zero id h = absurd (cc)
place_of_hit dense (suc i) id h = (i, refl, dense_is→at dense i id h)

-- Where the code finds a place for an entity, the place holds it and its cell points there.
pub place_of_occupied :
    {T : Type 0} (s : ComponentStore T) (id : Entity)
    → IsValid s
    → occupied s.dense (cell s.sparse (entity_index id)) id ≡ true
    → (i : ℕ) × (cell s.sparse (entity_index id) ≡ suc i) × (get_elem? s.dense i ≡ some id)
place_of_occupied s id v h = place_of_hit s.dense (cell s.sparse (entity_index id)) id (
    sym (
      occupied-eq-hit s.dense (cell s.sparse (entity_index id)) id v.small
        (v.cells_small (entity_index id)))
    ∙ h)
