-- ===== src/Peakgo/Threat/Histories.antt =====
-- Calls of Add and Set on a new threat table (server/peakgo/threat/threat.go), against a map from players to
-- threats.
use minnsun_s_adventure.Common.{
  ℕ, suc, ◌≤◌, ◌<◌, ◌≡◌, refl, ap, ◌∙◌, inl, List, [], ◌∷◌, Option, some, inr, Option-cases, arith,
  ◌==◌, if◌then◌else◌, length,
}
use minnsun_s_adventure.Common.Partial.{◌>>=◌, Gives, Gives-some, Gives-bind, Gives-map}
use minnsun_s_adventure.Common.Int.{ℤ, pos, ◌+ℤ◌, int64, IsInt64}
use minnsun_s_adventure.Peakgo.Threat.{
  ThreatTable, max_players, new_threat_table, new_threat_table_with_decay, add, set_threat, get,
  find_index,
}
use minnsun_s_adventure.Peakgo.Threat.Tables.{IsRanked, length_after, add-HasSet, set_threat-HasSet}

pub data Call : Type 0 where
  adds : ℕ → ℤ → Call
  sets : ℕ → ℤ → Call

-- The calls, the last one first.
abbrev pub run : List Call → ThreatTable → Option ThreatTable
run [] t = some t
run (adds player amount ∷ cs) t = run cs t >>= add player amount
run (sets player amount ∷ cs) t = run cs t >>= set_threat player amount

-- The same calls on a map: a threat is a sum of int64, or what was set.
abbrev pub threats : List Call → ℕ → ℤ
threats [] q = pos 0
threats (adds player amount ∷ cs) q =
    if player == q then int64 (threats cs player +ℤ amount) else threats cs q
threats (sets player amount ∷ cs) q = if player == q then amount else threats cs q

abbrev pub AreInt64 : List Call → Type 0
AreInt64 [] = Unit
AreInt64 (adds player amount ∷ cs) = IsInt64 amount × AreInt64 cs
AreInt64 (sets player amount ∷ cs) = IsInt64 amount × AreInt64 cs

-- A ranked table of at most n entries that has the threats of the map.
pub record Refines (n : ℕ) (m : ℕ → ℤ) (t : ThreatTable) : Type 0 where
  pub ranked : IsRanked t
  pub few : length t.entries ≤ n
  pub same : (q : ℕ) → get q t ≡ m q

length_after_le :
    (player n : ℕ) (t : ThreatTable) → length t.entries ≤ n → length_after player t ≤ suc n
length_after_le player n t h = elim (Option-cases (find_index player t.entries)) [
  | inl e ↦ rw (length_after, e) (omega arith)
  | inr (i, e) ↦ rw (length_after, e) (omega arith)
]

-- Fewer than 64 calls of Add and Set to a threat, with int64 amounts, on a new table do not panic, and leave a
-- ranked table in which every player has the threat that the same calls leave in a map.
pub calls_refine_map :
    (cs : List Call)
    → length cs < max_players
    → AreInt64 cs
    → Gives (Refines (length cs) (threats cs)) (run cs new_threat_table)
unfolding new_threat_table new_threat_table_with_decay get
calls_refine_map [] room all = Gives-some _ (record {
  ranked = record {
    size = refl;
    fits = record {
      room = omega arith;
      inside = λ i lt. absurd (omega arith);
      covers = λ j lt. absurd (omega arith);
    };
    order = λ c above lt le. absurd (omega arith);
  };
  few = omega arith;
  same = λ q. refl;
})
calls_refine_map (adds player amount ∷ cs) room (small, all) =
    Gives-bind (calls_refine_map cs (omega arith) all) λ t r.
      Gives-map (add-HasSet player amount t r.ranked (omega (arith, r.few)) small)
        λ t' (ranked, now, len). record {
          ranked = ranked;
          few = omega (arith, len, length_after_le player (length cs) t r.few);
          same = λ q.
              now q
              ∙ ap (λ x. if player == q then int64 (x +ℤ amount) else get q t) (r.same player)
              ∙ ap (λ x. if player == q then int64 (threats cs player +ℤ amount) else x) (r.same q);
        }
calls_refine_map (sets player amount ∷ cs) room (small, all) =
    Gives-bind (calls_refine_map cs (omega arith) all) λ t r.
      Gives-map (set_threat-HasSet player amount t r.ranked (inl (omega (arith, r.few))))
        λ t' (ranked, now, len). record {
          ranked = ranked;
          few = omega (arith, len, length_after_le player (length cs) t r.few);
          same = λ q. now q ∙ ap (λ x. if player == q then amount else x) (r.same q);
        }
