-- ===== src/Peakgo/Threat/Tables.antt =====
-- The operations on threat tables (server/peakgo/threat/threat.go).
use mathlib.Core.Path.{subst}
use minnsun_s_adventure.Common.{
  ℕ, zero, suc, ◌+◌, ◌≤◌, ◌<◌, ◌≡◌, refl, sym, ap, ◌∙◌, ◌⊎◌, inl, inr, false, List, [], ◌∷◌, ◌++◌,
  none, some, arith, leb, ltb, ◌==◌, if◌then◌else◌, length, get_elem?, get_or, set, length-set,
  length-append, Bool-cases, Eq-cases, Option-cases,
}
use minnsun_s_adventure.Common.Partial.{Gives, Gives-map}
use minnsun_s_adventure.Common.Int.{
  ℤ, pos, pos_part, neg_part, ◌+ℤ◌, ◌-ℤ◌, ◌≤ℤ◌, int64, IsInt64, int64_exact, eq_of_parts, +ℤ_parts,
}
use minnsun_s_adventure.Peakgo.Threat.{
  ThreatEntry, ThreatTable, max_players, sort, find_index, threat_of, with_threat, with_entry, add,
  set_threat, top, get, number,
}
use minnsun_s_adventure.Peakgo.Threat.Order.{parent, key, Fits, IsHeapFrom, place_holds}
use minnsun_s_adventure.Peakgo.Threat.Down.{sort-IsSorted}

-- The array has its 64 places and holds a heap of the entries.
pub record IsRanked (t : ThreatTable) : Type 0 where
  pub size : length t.heap ≡ max_players
  pub fits : Fits t.entries t.heap
  pub order : IsHeapFrom 0 t.entries t.heap

root_below :
    (k : ℕ) (es : List ThreatEntry) (h : List ℕ) (i : ℕ)
    → IsHeapFrom 0 es h
    → i < k
    → i < length es
    → key es h i ≤ℤ key es h 0
root_below zero es h i ord f p = absurd (omega arith)
root_below (suc k) es h i ord f p = elim (Eq-cases i 0) [
  | inl e ↦ omega (arith, ap (λ x. pos_part (key es h x)) e, ap (λ x. neg_part (key es h x)) e)
  | inr n ↦ omega (
    arith,
    ord i (omega arith) p (omega arith),
    root_below k es h (parent i) ord (omega arith) (omega arith),
  )
]

-- A player and a threat that an entry has, and no entry has a larger threat.
pub record IsTop (es : List ThreatEntry) (best : ℕ × ℤ) : Type 0 where
  pub entry :
      (i : ℕ) × (e : ThreatEntry) × (get_elem? es i ≡ some e)
      × (e.player_id ≡ best.0)
      × (e.threat ≡ best.1)
  pub most : (i : ℕ) → i < length es → threat_of i es ≤ℤ best.1

-- On a ranked table with an entry, `Top` gives the player and the threat of an entry that none exceeds.
pub top-IsTop :
    (t : ThreatTable) → IsRanked t → 0 < length t.entries → Gives (IsTop t.entries) (top t)
unfolding top key
top-IsTop t r some_entry =
    let (e, at, at', is) = place_holds t.entries t.heap r.fits 0 some_entry in
    (
      (e.player_id, e.threat),
      rw (top, not_empty, at, at') refl,
      record {
        entry = (get_or t.heap 0 0, e, at', refl, refl);
        most = λ i lt.
            let (p, lt_p, is_p) = r.fits.covers i lt in
            let largest = root_below (suc p) t.entries t.heap p r.order (omega arith) lt_p in
            let there = ap (λ x. threat_of x t.entries) is_p in
            omega (
              arith,
              largest,
              ap pos_part is,
              ap neg_part is,
              ap pos_part there,
              ap neg_part there,
            );
      },
    )
  where
    not_empty : (length t.entries == 0) ≡ false
    not_empty = ground arith

value : ℕ → List ThreatEntry → ℤ
value player es = elim (find_index player es) [ none ↦ pos 0 | some i ↦ threat_of i es ]

value-cons :
    (player : ℕ) (e : ThreatEntry) (es : List ThreatEntry)
    → value player (e ∷ es) ≡ (if e.player_id == player then e.threat else value player es)
unfolding value
value-cons player e es = ground arith

value-with_threat :
    (p q i : ℕ) (v : ℤ) (es : List ThreatEntry)
    → find_index p es ≡ some i
    → value q (with_threat i v es) ≡ (if p == q then v else value q es)
value-with_threat p q i v [] h = absurd (cc)
value-with_threat p q zero v (e ∷ es) h =
    ground (arith, value-cons q e es, value-cons q (record e { threat = v }) es)
value-with_threat p q (suc i) v (e ∷ es) h =
    ground
      (arith, value-cons q e es, value-cons q e (with_threat i v es), value-with_threat p q i v es)

value-append :
    (p q : ℕ) (v : ℤ) (es : List ThreatEntry)
    → find_index p es ≡ none
    → value q (es ++ (record { player_id = p; threat = v } ∷ []))
      ≡ (if p == q then v else value q es)
value-append p q v [] h = value-cons q (record { player_id = p; threat = v }) [] ∙ ground arith
value-append p q v (e ∷ es) h = ground (
  arith,
  value-cons q e es,
  value-cons q e (es ++ (record { player_id = p; threat = v } ∷ [])),
  value-append p q v es,
)

find_index_lt : (p i : ℕ) (es : List ThreatEntry) → find_index p es ≡ some i → i < length es
find_index_lt p i [] h = absurd (cc)
find_index_lt p zero (e ∷ es) h = omega arith
find_index_lt p (suc i) (e ∷ es) h = omega (arith, find_index_lt p i es (ground arith))

length-with_threat :
    (i : ℕ) (v : ℤ) (es : List ThreatEntry) → length (with_threat i v es) ≡ length es
length-with_threat i v [] = refl
length-with_threat zero v (e ∷ es) = refl
length-with_threat (suc i) v (e ∷ es) = ap suc (length-with_threat i v es)

-- The number of entries, once the player has one.
abbrev pub length_after : ℕ → ThreatTable → ℕ
length_after player t = elim (find_index player t.entries) [
  | none ↦ length t.entries + 1
  | some i ↦ length t.entries
]

-- What is known of a player's threat after it is set to v.
abbrev pub HasSet : ℕ → ℤ → ThreatTable → ThreatTable → Type 0
HasSet player v t t' =
    IsRanked t'
    × ((q : ℕ) → get q t' ≡ (if player == q then v else get q t))
    × (length t'.entries ≡ length_after player t)

sorted-HasSet :
    (player : ℕ) (v : ℤ) (t t₁ : ThreatTable)
    → length t₁.heap ≡ max_players
    → length t₁.entries ≤ max_players
    → ((q : ℕ) → value q t₁.entries ≡ (if player == q then v else value q t.entries))
    → length t₁.entries ≡ length_after player t
    → Gives (HasSet player v t) (sort t₁)
unfolding get value
sorted-HasSet player v t t₁ size room all len = Gives-map (sort-IsSorted t₁ (omega arith)) λ t' s. (
  record { size = s.size ∙ size; fits = s.fits; order = s.order },
  (λ q. ap (value q) s.entries ∙ all q),
  ap length s.entries ∙ len,
)

new-HasSet :
    (player : ℕ) (v : ℤ) (t : ThreatTable)
    → IsRanked t
    → length t.entries < max_players
    → find_index player t.entries ≡ none
    → Gives (HasSet player v t) (sort (with_entry player v t))
new-HasSet player v t r room none_yet =
    sorted-HasSet player v t (with_entry player v t) r.size (omega (arith, longer))
      (λ q. value-append player q v t.entries none_yet) (longer ∙ rw (length_after, none_yet) refl)
  where
    longer : length (with_entry player v t).entries ≡ length t.entries + 1
    longer = length-append t.entries (record { player_id = player; threat = v } ∷ [])

-- On a ranked table, `Set` to a threat leaves a ranked one in which the player has that threat and the
-- others have theirs, where there are fewer than 64 entries or the player has one.
pub set_threat-HasSet :
    (player : ℕ) (v : ℤ) (t : ThreatTable)
    → IsRanked t
    → (length t.entries < max_players) ⊎ ((i : ℕ) × (find_index player t.entries ≡ some i))
    → Gives (HasSet player v t) (set_threat player v t)
unfolding set_threat
set_threat-HasSet player v t r room = elim (Option-cases (find_index player t.entries)) [
  | inl e ↦ rw (set_threat, e) (new-HasSet player v t r (fewer e room) e)
  | inr (i, e) ↦
      rw (set_threat, e)
        (sorted-HasSet player v t
          (record t {
            entries = with_threat i v t.entries;
            total_threat = int64 (t.total_threat +ℤ int64 (v -ℤ threat_of i t.entries));
          })
          r.size (omega (arith, length-with_threat i v t.entries, r.fits.room, r.size))
          (λ q. value-with_threat player q i v t.entries e)
          (length-with_threat i v t.entries ∙ rw (length_after, e) refl))
]
  where
    fewer :
        find_index player t.entries ≡ none
        → (length t.entries < max_players) ⊎ ((i : ℕ) × (find_index player t.entries ≡ some i))
        → length t.entries < max_players
    fewer e (inl lt) = lt
    fewer e (inr (i, f)) = absurd (cc)

zero_add_exact : (v : ℤ) → IsInt64 v → int64 (pos 0 +ℤ v) ≡ v
zero_add_exact v h =
    ap int64 (eq_of_parts (pos 0 +ℤ v) v (omega (arith, +ℤ_parts (pos 0) v))) ∙ int64_exact v h

-- On a ranked table of fewer than 64 entries, `Add` leaves a ranked one in which the player has the sum
-- (as an int64) and the others have theirs.
pub add-HasSet :
    (player : ℕ) (amount : ℤ) (t : ThreatTable)
    → IsRanked t
    → length t.entries < max_players
    → IsInt64 amount
    → Gives (HasSet player (int64 (get player t +ℤ amount)) t) (add player amount t)
unfolding add get value
add-HasSet player amount t r room small = elim (Option-cases (find_index player t.entries)) [
  | inl e ↦
      let start : get player t ≡ pos 0 = rw (get, e) refl in
      let same = ap (λ x. int64 (x +ℤ amount)) start ∙ zero_add_exact amount small in
      subst (λ v. Gives (HasSet player v t) (add player amount t)) (sym same)
        (rw (add, not_full, e) (new-HasSet player amount t r room e))
  | inr (i, e) ↦
      let start : get player t ≡ threat_of i t.entries = rw (get, e) refl in
      subst (λ v. Gives (HasSet player (int64 (v +ℤ amount)) t) (add player amount t)) (sym start)
        (rw (add, not_full, e)
          (sorted-HasSet player (int64 (threat_of i t.entries +ℤ amount)) t
            (record t {
              entries = with_threat i (int64 (threat_of i t.entries +ℤ amount)) t.entries;
              total_threat = int64 (t.total_threat +ℤ amount);
            })
            r.size
            (omega
              (arith, length-with_threat i (int64 (threat_of i t.entries +ℤ amount)) t.entries))
            (λ q.
              value-with_threat player q i (int64 (threat_of i t.entries +ℤ amount)) t.entries e)
            (length-with_threat i (int64 (threat_of i t.entries +ℤ amount)) t.entries
              ∙ rw (length_after, e) refl)))
]
  where
    not_full : leb max_players (length t.entries) ≡ false
    not_full = ground arith

number_past : (n i : ℕ) (h : List ℕ) → i ≤ length h → length h < i + n → number n i h ≡ none
unfolding number
number_past zero i h le lt = absurd (omega arith)
number_past (suc n) i h le lt = elim (Bool-cases (ltb i (length h))) [
  | inl e ↦ rw e (
      number_past n (suc i) (set h i i) (ground (arith, length-set h i i))
        (omega (arith, length-set h i i)))
  | inr e ↦ rw e refl
]

-- On a table that is full, `Set` to a threat panics for a player who has none.
pub set_threat_full :
    (player : ℕ) (v : ℤ) (t : ThreatTable)
    → IsRanked t
    → length t.entries ≡ max_players
    → find_index player t.entries ≡ none
    → set_threat player v t ≡ none
unfolding set_threat sort number
set_threat_full player v t r full new =
    rw
      (
        set_threat,
        new,
        sort,
        number_past (length (with_entry player v t).entries) 0 t.heap (omega arith) (
            omega (
              arith,
              r.size,
              full,
              length-append t.entries (record { player_id = player; threat = v } ∷ []),
            )),
      )
      refl
