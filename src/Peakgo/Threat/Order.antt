-- ===== src/Peakgo/Threat/Order.antt =====
-- The order of the heap of a threat table (server/peakgo/threat/threat.go).
use minnsun_s_adventure.Common.{
  ℕ, zero, suc, ◌-◌, ◌/◌, ◌≤◌, ◌<◌, ◌≡◌, refl, sym, ap, ◌∙◌, inl, inr, Bool, true, false, List, [],
  ◌∷◌, some, arith, ◌==◌, if◌then◌else◌, length, get_elem?, get_or, set, length-set,
  get_or-set_self, get_or-set_ne, Eq-cases, ==_refl, ==_ne,
}
use minnsun_s_adventure.Common.Partial.{Gives}
use minnsun_s_adventure.Common.Int.{ℤ, ◌≤ℤ◌}
use minnsun_s_adventure.Peakgo.Threat.{ThreatEntry, threat_at, threat_of, swap}

abbrev pub parent : ℕ → ℕ
parent c = (c - 1) / 2

-- The threat of the entry at a place of the heap.
unfoldable pub key : List ThreatEntry → List ℕ → ℕ → ℤ
key es h i = threat_of (get_or h i 0) es

-- The heap has room, and the first places hold indices of entries, every index at some place.
pub record Fits (es : List ThreatEntry) (h : List ℕ) : Type 0 where
  pub room : length es ≤ length h
  pub inside : (i : ℕ) → i < length es → get_or h i 0 < length es
  pub covers : (j : ℕ) → j < length es → (i : ℕ) × (i < length es) × (get_or h i 0 ≡ j)

-- No place below a place from lo on has a larger threat.
abbrev pub IsHeapFrom : ℕ → List ThreatEntry → List ℕ → Type 0
IsHeapFrom lo es h =
    (c : ℕ) → 0 < c → c < length es → lo ≤ parent c → key es h c ≤ℤ key es h (parent c)

-- A heap, ordered from lo on.
abbrev pub Sifted : ℕ → List ThreatEntry → ℕ → List ℕ → Type 0
Sifted lo es size h = Fits es h × IsHeapFrom lo es h × (length h ≡ size)

get_elem?-get_or :
    {A : Type 0} (xs : List A) (i : ℕ) (d : A)
    → i < length xs
    → get_elem? xs i ≡ some (get_or xs i d)
get_elem?-get_or [] i d h = absurd (omega arith)
get_elem?-get_or (x ∷ xs) zero d h = refl
get_elem?-get_or (x ∷ xs) (suc i) d h = get_elem?-get_or xs i d (omega arith)

some-threat_of :
    (es : List ThreatEntry) (i : ℕ)
    → i < length es
    → (e : ThreatEntry) × (get_elem? es i ≡ some e) × (e.threat ≡ threat_of i es)
some-threat_of [] i h = absurd (omega arith)
some-threat_of (e ∷ es) zero h = (e, refl, refl)
some-threat_of (e ∷ es) (suc i) h = some-threat_of es i (omega arith)

module _ (es : List ThreatEntry) (h : List ℕ) (fits : Fits es h) where
  -- The entry at a place of the heap.
  pub place_holds :
      (i : ℕ)
      → i < length es
      → (e : ThreatEntry) × (get_elem? h i ≡ some (get_or h i 0))
        × (get_elem? es (get_or h i 0) ≡ some e)
        × (e.threat ≡ key es h i)
  unfolding key
  place_holds i lt =
      let (e, at, is) = some-threat_of es (get_or h i 0) (fits.inside i lt) in
      (e, get_elem?-get_or h i 0 (omega (arith, fits.room)), at, is)

  pub threat_at-key : (i : ℕ) → i < length es → threat_at es h i ≡ some (key es h i)
  unfolding threat_at
  threat_at-key i lt = let (e, at, at', is) = place_holds i lt in rw (at, at') (ap some is)

-- The array with two places swapped.
abbrev swapped : List ℕ → ℕ → ℕ → List ℕ
swapped h i j = set (set h i (get_or h j 0)) j (get_or h i 0)

get_or-swapped :
    (h : List ℕ) (i j c : ℕ)
    → i < length h
    → j < length h
    → get_or (swapped h i j) c 0
      ≡ (if j == c then get_or h i 0 else if i == c then get_or h j 0 else get_or h c 0)
get_or-swapped h i j c hi hj = elim (Eq-cases j c) [
  | inl e ↦ rw (ap (λ x. j == x) (sym e) ∙ ==_refl j) (
      ap (λ x. get_or (swapped h i j) x 0) (sym e)
      ∙ get_or-set_self (set h i (get_or h j 0)) j (get_or h i 0) 0
          (omega (arith, length-set h i (get_or h j 0))))
  | inr n ↦ rw (==_ne j c n) (
      get_or-set_ne (set h i (get_or h j 0)) j c (get_or h i 0) 0 n ∙ elim (Eq-cases i c) [
        | inl e ↦ rw (ap (λ x. i == x) (sym e) ∙ ==_refl i) (
            ap (λ x. get_or (set h i (get_or h j 0)) x 0) (sym e)
            ∙ get_or-set_self h i (get_or h j 0) 0 hi)
        | inr n' ↦ rw (==_ne i c n') (get_or-set_ne h i c (get_or h j 0) 0 n')
      ])
]

-- What the places of h' hold, after a swap of i and j in h.
pub record Swapped (es : List ThreatEntry) (h : List ℕ) (i j : ℕ) (h' : List ℕ) : Type 0 where
  pub fits : Fits es h'
  pub size : length h' ≡ length h
  pub at :
      (c : ℕ)
      → key es h' c ≡ (if j == c then key es h i else if i == c then key es h j else key es h c)

module _ (es : List ThreatEntry) (h : List ℕ) (i j : ℕ) (fits : Fits es h) (hi : i < length es)
    (hj : j < length es) where
  places :
      (c : ℕ)
      → get_or (swapped h i j) c 0
        ≡ (if j == c then get_or h i 0 else if i == c then get_or h j 0 else get_or h c 0)
  places c = get_or-swapped h i j c (omega (arith, fits.room)) (omega (arith, fits.room))

  pub swap-Swapped : Gives (Swapped es h i j) (swap h i j)
  unfolding swap key
  swap-Swapped = (
    swapped h i j,
    (let (_, at_i, _, _) = place_holds es h fits i hi in
        let (_, at_j, _, _) = place_holds es h fits j hj in rw (at_i, at_j) refl),
    record {
      fits = record {
        room = omega (arith, fits.room, size);
        inside =
            λ c lt. ground (arith, places c, fits.inside c, fits.inside i hi, fits.inside j hj);
        covers = λ k lt.
            let (c, lt_c, is) = fits.covers k lt in
            elim (Eq-cases c i) [
              | inl e ↦ (j, hj, ground (arith, places j, ap (λ x. get_or h x 0) e))
              | inr n ↦ elim (Eq-cases c j) [
                | inl e ↦ (i, hi, ground (arith, places i, ap (λ x. get_or h x 0) e))
                | inr n' ↦ (c, lt_c, ground (arith, places c))
              ]
            ];
      };
      size = size;
      at = λ c. ap (λ x. threat_of x es) (places c) ∙ pull (j == c) (i == c) _ _ _;
    },
  )
    where
      size : length (swapped h i j) ≡ length h
      size = length-set (set h i (get_or h j 0)) j (get_or h i 0) ∙ length-set h i (get_or h j 0)

      pull :
          (b b' : Bool) (x y z : ℕ)
          → threat_of (if b then x else if b' then y else z) es
            ≡ (if b then threat_of x es else if b' then threat_of y es else threat_of z es)
      pull true b' x y z = refl
      pull false true x y z = refl
      pull false false x y z = refl
