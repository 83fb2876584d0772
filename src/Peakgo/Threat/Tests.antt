-- ===== src/Peakgo/Threat/Tests.antt =====
-- Threat tables of one to sixty-three players (server/peakgo/threat/threat.go).
use minnsun_s_adventure.Common.{
  ℕ, zero, suc, ◌≡◌, refl, ap, ◌∙◌, List, [], ◌∷◌, some, arith, length, replicate,
}
use minnsun_s_adventure.Common.Partial.{◌>>=◌, Gives}
use minnsun_s_adventure.Common.Int.{pos, ◌+ℤ◌, int64}
use minnsun_s_adventure.Peakgo.Threat.{ThreatEntry, ThreatTable, new_threat_table, add, top, sort}
use minnsun_s_adventure.Peakgo.Threat.Down.{IsSorted, sort-IsSorted}
use minnsun_s_adventure.Peakgo.Threat.Histories.{
  Call, adds, sets, run, threats, Refines, calls_refine_map,
}
use minnsun_s_adventure.Peakgo.Threat.Tables.{IsRanked, IsTop, top-IsTop}

-- Players n - 1 down to 0, each with a threat of 100.
abbrev players : ℕ → List ThreatEntry
players zero = []
players (suc n) = record { player_id = n; threat = pos 100 } ∷ players n

abbrev unsorted : ℕ → ThreatTable
unsorted n = record {
  entries = players n;
  decay_rate = pos 20;
  total_threat = pos 0;
  heap_size = 0;
  heap = replicate 64 0;
}

table_63 : Gives (IsSorted (unsorted 63)) (sort (unsorted 63))
table_63 = sort-IsSorted (unsorted 63) (omega arith)

table_64 : Gives (IsSorted (unsorted 64)) (sort (unsorted 64))
table_64 = sort-IsSorted (unsorted 64) (omega arith)

ranked : {t t' : ThreatTable} → length t.heap ≡ 64 → IsSorted t t' → IsRanked t'
ranked size s = record { size = s.size ∙ size; fits = s.fits; order = s.order }

largest_comes_first :
    (t : ThreatTable) × (add 7 (pos 50) new_threat_table >>= add 8 (pos 90) >>= add 9 (pos 20)
      ≡ some t)
    × (top t ≡ some (8, pos 90))
unfolding add top new_threat_table int64 ◌+ℤ◌
largest_comes_first = (_, refl, refl)

top-IsTop_example : Gives (IsTop (table_63.0).entries) (top table_63.0)
top-IsTop_example =
    top-IsTop table_63.0 (ranked refl table_63.2) (omega (arith, ap length table_63.2.entries))

abbrev calls : List Call
calls = sets 9 (pos 20) ∷ adds 8 (pos 90) ∷ adds 7 (pos 50) ∷ adds 9 (pos 95) ∷ []

calls_refine_map_example : Gives (Refines 4 (threats calls)) (run calls new_threat_table)
calls_refine_map_example = calls_refine_map calls (omega arith) (
  (omega arith, omega arith),
  ((omega arith, omega arith), ((omega arith, omega arith), ((omega arith, omega arith), tt))),
)
