-- ===== src/Peakgo/Anticheat/Places.antt =====
-- Places kept inside bounds (server/peakgo/gmath/gmath.go).
use minnsun_s_adventure.Common.{◌≡◌, refl, ap, ◌∙◌, Bool, true, ◌&&◌, arith}
use minnsun_s_adventure.Common.Int.{ℤ, leb_ℤ, ◌≤ℤ◌}
use minnsun_s_adventure.Peakgo.Anticheat.{in_bounds, clamp, clamp_pos}

clamp_low : (v lo hi : ℤ) → lo ≤ℤ hi → leb_ℤ lo (clamp v lo hi) ≡ true
unfolding clamp
clamp_low v lo hi h = ground arith

clamp_high : (v lo hi : ℤ) → lo ≤ℤ hi → leb_ℤ (clamp v lo hi) hi ≡ true
unfolding clamp
clamp_high v lo hi h = ground arith

clamp_inside : (v lo hi : ℤ) → leb_ℤ lo v ≡ true → leb_ℤ v hi ≡ true → clamp v lo hi ≡ v
unfolding clamp
clamp_inside v lo hi a b = ground arith

-- A place that is clamped to bounds that are in order is inside them, and a place inside them stays.
clamp_pos_lem :
    (x z lo hi : ℤ)
    → lo ≤ℤ hi
    → let (x', z') = clamp_pos x z lo hi in
      (in_bounds x' z' lo hi ≡ true) × (in_bounds x z lo hi ≡ true → clamp_pos x z lo hi ≡ (x, z))
unfolding clamp_pos in_bounds
clamp_pos_lem x z lo hi h = (
  rw (clamp_low x lo hi h, clamp_high x lo hi h, clamp_low z lo hi h, clamp_high z lo hi h) refl,
  λ inside.
      let (a, b, c, d) = parts (leb_ℤ lo x) (leb_ℤ x hi) (leb_ℤ lo z) (leb_ℤ z hi) inside in
      ap (λ u. (u, clamp z lo hi)) (clamp_inside x lo hi a b)
      ∙ ap (λ u. (x, u)) (clamp_inside z lo hi c d),
)
  where
    parts :
        (a b c d : Bool)
        → (a && b && c && d) ≡ true
        → (a ≡ true) × (b ≡ true) × (c ≡ true) × (d ≡ true)
    parts a b c d e = ground arith
