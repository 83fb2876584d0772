-- ===== src/Ecs/Store.antt =====
-- `ComponentStore[T]` of server/ecs/ecs.go: a sparse set with a paged sparse array.
pub mod Slots
pub mod Lookup
pub mod Looks
pub mod Writes
pub mod Deletes
pub mod Refine
mod Tests
pub use minnsun_s_adventure.Ecs.Entity.{Entity, entity_index}
use minnsun_s_adventure.Common.{
  ℕ, suc, ◌+◌, ◌-◌, ◌/◌, ◌%◌, ◌^◌, ◌&&◌, Bool, true, false, not, Option, none, some, List, [], ◌∷◌,
  ◌++◌, ltb, ◌==◌, if◌then◌else◌, length, get_elem?, get_or, set, take, replicate,
}

abbrev pub chunk_size : ℕ
chunk_size = 1024

-- A cell is the bit pattern of an int32; `none` is a nil page.
abbrev pub Page : Type 0
Page = List ℕ

pub record ComponentStore (T : Type 0) : Type 0 where
  pub dense : List Entity
  pub sparse : List (Option Page)
  pub values : List T

-- int32 arithmetic on bit patterns: `a + 1`, `a - 1` and the signed `a < b`.
abbrev pub int32 : ℕ → ℕ
int32 n = n % 2 ^ 32

abbrev pub inc32 : ℕ → ℕ
inc32 a = (a + 1) % 2 ^ 32

abbrev pub dec32 : ℕ → ℕ
dec32 a = (a + 2 ^ 32 - 1) % 2 ^ 32

abbrev pub ltb32 : ℕ → ℕ → Bool
ltb32 a b = ltb ((a + 2 ^ 31) % 2 ^ 32) ((b + 2 ^ 31) % 2 ^ 32)

-- `make([]int32, chunkSize)`
abbrev pub zero_page : Page
zero_page = replicate chunk_size 0

-- The new, longer sparse array: `make` and `copy`.
pub grow : ℕ → List (Option Page) → List (Option Page)
grow page_index sparse =
    if ltb page_index (length sparse)
    then sparse
    else sparse ++ replicate (page_index + 1 - length sparse) none

-- The page at an index, or a nil page where there is none.
abbrev pub page_at : List (Option Page) → ℕ → Option Page
page_at sparse page_index = get_or sparse page_index none

-- A page that is nil is made, on a sparse array that is long enough.
pub make_page : ℕ → List (Option Page) → List (Option Page)
make_page page_index sparse = elim (page_at sparse page_index) [
  | none ↦ set sparse page_index (some zero_page)
  | some page ↦ sparse
]

-- The cell of an index: 0, which means "not present", where its page is out of range or nil.
abbrev pub page_cell : Option Page → ℕ → ℕ
page_cell none offset = 0
page_cell (some page) offset = get_or page offset 0

pub cell : List (Option Page) → ℕ → ℕ
cell sparse idx = page_cell (page_at sparse (idx / chunk_size)) (idx % chunk_size)

-- `page[offset] = v`, on a page that is not nil.
pub write_cell : List (Option Page) → ℕ → ℕ → List (Option Page)
write_cell sparse idx v = elim (page_at sparse (idx / chunk_size)) [
  | none ↦ sparse
  | some page ↦ set sparse (idx / chunk_size) (some (set page (idx % chunk_size) v))
]

-- `s.dense[i] == id`, for an index that was tested before.
abbrev pub dense_is : List Entity → ℕ → Entity → Bool
dense_is dense i id = elim (get_elem? dense i) [ none ↦ false | some e ↦ e == id ]

-- `idx != 0 && idx-1 < int32(len(s.dense)) && s.dense[idx-1] == id`
pub occupied : List Entity → ℕ → Entity → Bool
occupied dense idx id =
    not (idx == 0) && (ltb32 (dec32 idx) (int32 (length dense)) && dense_is dense (dec32 idx) id)

module _ {T : Type 0} where
  -- The zero `ComponentStore`.
  unfoldable pub new_store : ComponentStore T
  new_store = record { dense = []; sparse = []; values = [] }

  -- `Set`, once the page is there.
  pub set_at : Entity → T → List (Option Page) → ComponentStore T → ComponentStore T
  set_at id val sparse s =
      let idx = cell sparse (entity_index id) in
      if occupied s.dense idx id
      then (record s { sparse = sparse; values = set s.values (dec32 idx) val })
      else (record {
        dense = s.dense ++ id ∷ [];
        sparse = write_cell sparse (entity_index id) (inc32 (int32 (length s.dense)));
        values = s.values ++ val ∷ [];
      })

  -- `Set`
  pub set_component : Entity → T → ComponentStore T → ComponentStore T
  set_component id val s =
      let page_index = entity_index id / chunk_size in
      set_at id val (make_page page_index (grow page_index s.sparse)) s

  -- `Get`
  pub get_component : Entity → ComponentStore T → Option T
  get_component id s =
      let idx = cell s.sparse (entity_index id) in
      if occupied s.dense idx id then get_elem? s.values (dec32 idx) else none

  -- The move of the last component into the freed place.
  pub swap_last : Entity → ℕ → ℕ → ComponentStore T → ComponentStore T
  swap_last last actual last_idx s = record s {
    dense = set s.dense actual last;
    values = elim (get_elem? s.values last_idx) [
      | none ↦ s.values
      | some v ↦ set s.values actual v
    ];
    sparse = write_cell s.sparse (entity_index last) (inc32 actual);
  }

  -- `if actualIdx != lastIdx { … }`
  pub fill_gap : ℕ → ℕ → ComponentStore T → ComponentStore T
  fill_gap actual last_idx s = if actual == last_idx then s else elim (get_elem? s.dense last_idx) [
    | none ↦ s
    | some last ↦ swap_last last actual last_idx s
  ]

  -- The end of `Delete`: the cell is cleared and the last place dropped.
  pub drop_last : Entity → ℕ → ComponentStore T → ComponentStore T
  drop_last id last_idx s = record {
    dense = take last_idx s.dense;
    sparse = write_cell s.sparse (entity_index id) 0;
    values = take last_idx s.values;
  }

  -- `Delete`
  pub delete_component : Entity → ComponentStore T → ComponentStore T
  delete_component id s =
      let idx = cell s.sparse (entity_index id) in
      let last_idx = length s.dense - 1 in
      if occupied s.dense idx id then drop_last id last_idx (fill_gap (dec32 idx) last_idx s) else s
