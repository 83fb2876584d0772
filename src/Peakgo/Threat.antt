-- ===== src/Peakgo/Threat.antt =====
-- The threat tables of monsters (server/peakgo/threat/threat.go). A panic on an index out of range, or
-- on fuel that has run out, is none. The heap is the array of 64 indices. A table has a slice of its own:
-- the pools that recycle slices and tables are left out.
pub mod Order
pub mod Down
pub mod Tables
pub mod Histories
mod Tests
use minnsun_s_adventure.Common.{
  ℕ, zero, suc, ◌+◌, ◌-◌, ◌*◌, ◌/◌, Bool, true, false, ◌||◌, List, [], ◌∷◌, ◌++◌, Option, none,
  some, ltb, leb, ◌==◌, if◌then◌else◌, length, get_elem?, set, replicate,
}
use minnsun_s_adventure.Common.Partial.{◌>>=◌}
use minnsun_s_adventure.Common.Int.{
  ℤ, pos, negsuc, ◌+ℤ◌, ◌-ℤ◌, ◌*ℤ◌, ltb_ℤ, leb_ℤ, eqb_ℤ, quot_ℤ, int64,
}

abbrev pub max_players : ℕ
max_players = 64

pub record ThreatEntry : Type 0 where
  pub player_id : ℕ
  pub threat : ℤ

pub record ThreatTable : Type 0 where
  pub entries : List ThreatEntry
  pub decay_rate : ℤ
  pub total_threat : ℤ
  pub heap_size : ℕ
  pub heap : List ℕ

-- `NewThreatTableWithDecay`, on a table with a zero array.
unfoldable pub new_threat_table_with_decay : ℤ → ThreatTable
new_threat_table_with_decay rate = record {
  entries = [];
  decay_rate = rate;
  total_threat = pos 0;
  heap_size = 0;
  heap = replicate max_players 0;
}

-- `NewThreatTable`, with `DefaultThreatDecay`.
unfoldable pub new_threat_table : ThreatTable
unfolding new_threat_table_with_decay
new_threat_table = new_threat_table_with_decay (pos 20)

-- `t.entries[t.heap[i]].Threat`
pub threat_at : List ThreatEntry → List ℕ → ℕ → Option ℤ
threat_at es h i = do j ← get_elem? h i; e ← get_elem? es j; some e.threat

-- `t.heap[i], t.heap[j] = t.heap[j], t.heap[i]`
pub swap : List ℕ → ℕ → ℕ → Option (List ℕ)
swap h i j = do x ← get_elem? h i; y ← get_elem? h j; some (set (set h i y) j x)

-- `if c < n && threat(c) > threat(largest) { largest = c }`
pub larger : List ThreatEntry → List ℕ → ℕ → ℕ → Option ℕ
larger es h c largest =
    let test : Option ℕ = (do
      x ← threat_at es h c
      y ← threat_at es h largest
      some (if ltb_ℤ y x then c else largest)) in
    if ltb c (length es) then test else some largest

-- `down`
pub down_loop : ℕ → List ThreatEntry → List ℕ → ℕ → Option (List ℕ)
down_loop zero es h i = none
down_loop (suc k) es h i = do
  l ← larger es h (2 * i + 1) i
  m ← larger es h (2 * i + 2) l
  let sink = swap h i m >>= λ h'. down_loop k es h' m
  if m == i then some h else sink

unfoldable pub down : List ThreatEntry → List ℕ → ℕ → Option (List ℕ)
unfolding down_loop larger swap threat_at
down es h i = down_loop (length es + 1) es h i

-- The loop `for i := (t.heapSize - 1) / 2; i >= 0; i--`, on the rounds left.
unfoldable pub build : ℕ → List ThreatEntry → List ℕ → Option (List ℕ)
build zero es h = some h
build (suc i) es h = down es h i >>= build i es

-- The loop `t.heap[i] = i`, from i on, for n rounds; a write past the array panics.
unfoldable pub number : ℕ → ℕ → List ℕ → Option (List ℕ)
number zero i h = some h
number (suc n) i h =
    let rest = number n (suc i) (set h i i) in if ltb i (length h) then rest else none

-- `sort`. Where there is no entry, -1 / 2 is 0.
unfoldable pub sort : ThreatTable → Option ThreatTable
unfolding number build down
sort t = do
  let n = length t.entries
  h ← number n 0 t.heap
  h' ← build ((n - 1) / 2 + 1) t.entries h
  some (record t { heap_size = n; heap = h' })

-- The loop that looks for a player.
abbrev pub find_index : ℕ → List ThreatEntry → Option ℕ
find_index player [] = none
find_index player (e ∷ es) =
    if e.player_id == player
    then some 0
    else elim (find_index player es) [ none ↦ none | some i ↦ some (suc i) ]

-- `t.entries[i].Threat`, and a write to it.
abbrev pub threat_of : ℕ → List ThreatEntry → ℤ
threat_of i es = elim (get_elem? es i) [ none ↦ pos 0 | some e ↦ e.threat ]

abbrev pub with_threat : ℕ → ℤ → List ThreatEntry → List ThreatEntry
with_threat i v [] = []
with_threat zero v (e ∷ es) = record e { threat = v } ∷ es
with_threat (suc i) v (e ∷ es) = e ∷ with_threat i v es

-- A new entry, for a player who has none.
abbrev pub with_entry : ℕ → ℤ → ThreatTable → ThreatTable
with_entry player amount t = record t {
  entries = t.entries ++ (record { player_id = player; threat = amount } ∷ []);
  total_threat = int64 (t.total_threat +ℤ amount);
}

-- `Add`
unfoldable pub add : ℕ → ℤ → ThreatTable → Option ThreatTable
unfolding sort
add player amount t =
    if leb max_players (length t.entries) then some t else elim (find_index player t.entries) [
      | none ↦ sort (with_entry player amount t)
      | some i ↦ sort (record t {
        entries = with_threat i (int64 (threat_of i t.entries +ℤ amount)) t.entries;
        total_threat = int64 (t.total_threat +ℤ amount);
      })
    ]

-- `Set`
unfoldable pub set_threat : ℕ → ℤ → ThreatTable → Option ThreatTable
unfolding sort
set_threat player amount t = elim (find_index player t.entries) [
  | none ↦ sort (with_entry player amount t)
  | some i ↦ sort (record t {
    entries = with_threat i amount t.entries;
    total_threat = int64 (t.total_threat +ℤ int64 (amount -ℤ threat_of i t.entries));
  })
]

-- `t.entries[t.heap[i]]`
abbrev pub entry_at : ℕ → ThreatTable → Option ThreatEntry
entry_at i t = get_elem? t.heap i >>= get_elem? t.entries

-- `Top`: the player and the threat.
unfoldable pub top : ThreatTable → Option (ℕ × ℤ)
top t =
    if length t.entries == 0
    then some (0, pos 0)
    else (do e ← entry_at 0 t; some (e.player_id, e.threat))

-- `TopN`, on the rounds left and the index; a negative n panics in `make`.
pub take_top : ℕ → ℕ → ThreatTable → Option (List ThreatEntry)
take_top zero i t = some []
take_top (suc n) i t = do e ← entry_at i t; es ← take_top n (suc i) t; some (e ∷ es)

unfoldable pub top_n : ℤ → ThreatTable → Option (List ThreatEntry)
unfolding take_top
top_n (pos n) t = take_top (if ltb (length t.entries) n then length t.entries else n) 0 t
top_n (negsuc n) t = none

-- `append(t.entries[:i], t.entries[i+1:]...)`
abbrev pub remove_at : ℕ → List ThreatEntry → List ThreatEntry
remove_at i [] = []
remove_at zero (e ∷ es) = es
remove_at (suc i) (e ∷ es) = e ∷ remove_at i es

-- `Remove`
unfoldable pub remove : ℕ → ThreatTable → Option ThreatTable
unfolding sort
remove player t = elim (find_index player t.entries) [
  | none ↦ some t
  | some i ↦ sort (record t {
    total_threat = int64 (t.total_threat -ℤ threat_of i t.entries);
    entries = remove_at i t.entries;
  })
]

-- `Clear`, and `FullWipe`, which calls it.
unfoldable pub clear : ThreatTable → ThreatTable
clear t = record t { entries = []; total_threat = pos 0 }

-- `Get`
unfoldable pub get : ℕ → ThreatTable → ℤ
get player t = elim (find_index player t.entries) [ none ↦ pos 0 | some i ↦ threat_of i t.entries ]

-- The loops of `Decay`.
abbrev pub decayed : ℤ → List ThreatEntry → List ThreatEntry
decayed rate [] = []
decayed rate (e ∷ es) =
    record e { threat = int64 (e.threat -ℤ quot_ℤ (int64 (e.threat *ℤ rate)) 1000) }
    ∷ decayed rate es

abbrev pub sum_from : ℤ → List ThreatEntry → ℤ
sum_from acc [] = acc
sum_from acc (e ∷ es) = sum_from (int64 (acc +ℤ e.threat)) es

-- `Decay`
unfoldable pub decay : ThreatTable → Option ThreatTable
unfolding sort
decay t =
    let es = decayed t.decay_rate t.entries in
    sort (record t { entries = es; total_threat = sum_from (pos 0) es })

-- `SetDecayRate`
unfoldable pub set_decay_rate : ℤ → ThreatTable → ThreatTable
set_decay_rate rate t =
    if ltb_ℤ rate (pos 500) || ltb_ℤ (pos 1000) rate then t else record t { decay_rate = rate }

-- `Taunt`
unfoldable pub taunt : ℕ → ℤ → ThreatTable → Option ThreatTable
unfolding add
taunt player multiplier t = if length t.entries == 0 then some t else (do
  e ← entry_at 0 t
  add player (quot_ℤ (int64 (int64 (e.threat +ℤ pos 1) *ℤ multiplier)) 1000) t)

-- `Transfer`
unfoldable pub transfer : ℕ → ℕ → ℤ → ThreatTable → Option ThreatTable
unfolding add get
transfer from to percentage t =
    let from_threat = get from t in
    let amount = quot_ℤ (int64 (from_threat *ℤ percentage)) 1000 in
    if eqb_ℤ from_threat (pos 0)
    then some t
    else (do t' ← add to amount t; add from (int64 (pos 0 -ℤ amount)) t')

-- `ResetWipe`
unfoldable pub reset_wipe : ℕ → ThreatTable → Option ThreatTable
unfolding sort
reset_wipe player t = elim (find_index player t.entries) [
  | none ↦ some t
  | some i ↦ sort (record t {
    total_threat = int64 (t.total_threat -ℤ threat_of i t.entries);
    entries = with_threat i (pos 0) t.entries;
  })
]
