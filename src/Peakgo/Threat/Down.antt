-- ===== src/Peakgo/Threat/Down.antt =====
-- `down` restores the heap of a threat table, and `sort` builds one (server/peakgo/threat/threat.go).
use minnsun_s_adventure.Common.{
  ℕ, zero, suc, ◌+◌, ◌-◌, ◌*◌, ◌/◌, ◌≤◌, ◌<◌, ◌≡◌, ◌≢◌, refl, sym, ap, ◌∙◌, ◌⊎◌, inl, inr, true,
  List, [], ◌∷◌, some, arith, ltb, ◌==◌, if◌then◌else◌, length, get_or, set, length-set,
  get_or-set_self, get_or-set_ne, Eq-cases, Bool-cases,
}
use minnsun_s_adventure.Common.Partial.{Gives, Gives-some, Gives-bind, Gives-if, Gives-map}
use minnsun_s_adventure.Common.Int.{pos_part, neg_part, ◌≤ℤ◌, ltb_ℤ}
use minnsun_s_adventure.Peakgo.Threat.{
  ThreatEntry, ThreatTable, larger, down_loop, down, build, number, sort,
}
use minnsun_s_adventure.Peakgo.Threat.Order.{
  parent, key, Fits, IsHeapFrom, Sifted, threat_at-key, Swapped, swap-Swapped,
}

-- Only the edges below the place i may be out of order.
pub record DownInv (lo : ℕ) (es : List ThreatEntry) (h : List ℕ) (i : ℕ) : Type 0 where
  pub edges :
      (c : ℕ)
      → 0 < c
      → c < length es
      → lo ≤ parent c
      → parent c ≢ i
      → key es h c ≤ℤ key es h (parent c)
  pub bridged :
      (c : ℕ)
      → 0 < c
      → c < length es
      → parent c ≡ i
      → 0 < i
      → lo ≤ parent i
      → key es h c ≤ℤ key es h (parent i)

-- m is l or c, and neither has a larger threat.
record IsLarger (es : List ThreatEntry) (h : List ℕ) (c l m : ℕ) : Type 0 where
  inside : m < length es
  which : (m ≡ l) ⊎ (m ≡ c)
  over : key es h l ≤ℤ key es h m
  over_c : c < length es → key es h c ≤ℤ key es h m

module _ (es : List ThreatEntry) (h : List ℕ) (fits : Fits es h) where
  larger-IsLarger : (c l : ℕ) → l < length es → Gives (IsLarger es h c l) (larger es h c l)
  unfolding larger
  larger-IsLarger c l hl =
      Gives-if (ltb c (length es))
        (λ e.
          let hc : c < length es = ground arith in
          rw (threat_at-key es h fits c hc, threat_at-key es h fits l hl) (choose hc))
        (λ e. Gives-some l (record {
          inside = hl;
          which = inl refl;
          over = omega arith;
          over_c = λ q. absurd (ground arith);
        }))
    where
      choose :
          c < length es
          → Gives (IsLarger es h c l) (some (if ltb_ℤ (key es h l) (key es h c) then c else l))
      choose hc = elim (Bool-cases (ltb_ℤ (key es h l) (key es h c))) [
        | inl e ↦ rw e (
            Gives-some c (record {
              inside = hc;
              which = inr refl;
              over = ground arith;
              over_c = λ q. omega arith;
            }))
        | inr e ↦ rw e (
            Gives-some l (record {
              inside = hl;
              which = inl refl;
              over = omega arith;
              over_c = λ q. ground arith;
            }))
      ]

  -- The place among i and its children that `down` goes on with.
  record IsLargest (i m : ℕ) : Type 0 where
    within : m < length es
    below : i ≤ m
    edge : m ≢ i → parent m ≡ i
    top : key es h i ≤ℤ key es h m
    most : (c : ℕ) → 0 < c → c < length es → parent c ≡ i → key es h c ≤ℤ key es h m

  IsLargest-of :
      (i l m : ℕ) → IsLarger es h (2 * i + 1) i l → IsLarger es h (2 * i + 2) l m → IsLargest i m
  IsLargest-of i l m a b = record {
    within = b.inside;
    below = ground (arith, a.which, b.which);
    edge = λ n. ground (arith, a.which, b.which);
    top = omega (arith, a.over, b.over);
    most = λ c p q e. elim (Eq-cases c (2 * i + 1)) [
      | inl f ↦ omega (
        arith,
        ap (λ x. pos_part (key es h x)) f,
        ap (λ x. neg_part (key es h x)) f,
        a.over_c (omega arith),
        b.over,
      )
      | inr f ↦
          let g : c ≡ 2 * i + 2 = omega arith in
          omega (
            arith,
            ap (λ x. pos_part (key es h x)) g,
            ap (λ x. neg_part (key es h x)) g,
            b.over_c (omega arith),
          )
    ];
  }

-- The swap with the largest child moves the disorder down.
swap-DownInv :
    (lo : ℕ) (es : List ThreatEntry) (h : List ℕ) (i m : ℕ) (fits : Fits es h) (h' : List ℕ)
    → DownInv lo es h i
    → IsLargest es h fits i m
    → m ≢ i
    → Swapped es h i m h'
    → DownInv lo es h' m
swap-DownInv lo es h i m fits h' v s n w = record {
  edges = λ c p q r t. ground (
    arith,
    w.at c,
    w.at (parent c),
    v.edges c,
    v.bridged m,
    v.bridged c,
    s.edge,
    s.top,
    s.most c,
  );
  bridged = λ c p q r t u. ground (arith, w.at c, w.at (parent m), s.edge, v.edges c);
}

down_loop-Sifted :
    (k lo : ℕ) (es : List ThreatEntry) (h : List ℕ) (i : ℕ)
    → i < length es
    → length es - i < k
    → Fits es h
    → DownInv lo es h i
    → Gives (Sifted lo es (length h)) (down_loop k es h i)
unfolding down_loop
down_loop-Sifted zero lo es h i hi f fits v = absurd (omega arith)
down_loop-Sifted (suc k) lo es h i hi f fits v =
    Gives-bind (larger-IsLarger es h fits (2 * i + 1) i hi) λ l a.
      Gives-bind (larger-IsLarger es h fits (2 * i + 2) l a.inside) λ m b.
        let s = IsLargest-of es h fits i l m a b in
        Gives-if (m == i) (λ e. Gives-some h (fits, (λ c p q r. settled c m s e p q r), refl))
          (λ e.
            let n : m ≢ i = ground arith in
            Gives-bind (swap-Swapped es h i m fits hi s.within) λ h' w.
              Gives-map
                (down_loop-Sifted k lo es h' m s.within (omega (arith, s.below)) w.fits
                  (swap-DownInv lo es h i m fits h' v s n w))
                (λ h'' r. (r.0, r.1, r.2 ∙ w.size)))
  where
    settled :
        (c m : ℕ)
        → IsLargest es h fits i m
        → (m == i) ≡ true
        → 0 < c
        → c < length es
        → lo ≤ parent c
        → key es h c ≤ℤ key es h (parent c)
    settled c m s e p q r = elim (Eq-cases (parent c) i) [
      | inr n ↦ v.edges c p q r n
      | inl g ↦
          let z : m ≡ parent c = ground arith in
          omega (
            arith,
            s.most c p q g,
            ap (λ x. pos_part (key es h x)) z,
            ap (λ x. neg_part (key es h x)) z,
          )
    ]

-- `down` at a place whose subtrees are in order puts the place in order.
pub down-Sifted :
    (lo : ℕ) (es : List ThreatEntry) (h : List ℕ) (i : ℕ)
    → i < length es
    → Fits es h
    → DownInv lo es h i
    → Gives (Sifted lo es (length h)) (down es h i)
unfolding down
down-Sifted lo es h i hi fits v = down_loop-Sifted (length es + 1) lo es h i hi (omega arith) fits v

build-Sifted :
    (k : ℕ) (es : List ThreatEntry) (h : List ℕ)
    → k ≤ length es
    → Fits es h
    → IsHeapFrom k es h
    → Gives (Sifted 0 es (length h)) (build k es h)
unfolding build
build-Sifted zero es h le fits ord = Gives-some h (fits, ord, refl)
build-Sifted (suc i) es h le fits ord =
    Gives-bind (down-Sifted i es h i (omega arith) fits start) λ h' s.
      Gives-map (build-Sifted i es h' (omega arith) s.0 s.1) (λ h'' r. (r.0, r.1, r.2 ∙ s.2))
  where
    start : DownInv i es h i
    start = record {
      edges = λ c p q r t. ord c p q (omega arith);
      bridged = λ c p q r t u. absurd (omega arith);
    }

-- The places that the first loop of `sort` has written.
record Numbered (h : List ℕ) (i n : ℕ) (h' : List ℕ) : Type 0 where
  size : length h' ≡ length h
  before : (c : ℕ) → c < i → get_or h' c 0 ≡ get_or h c 0
  new : (c : ℕ) → i ≤ c → c < i + n → get_or h' c 0 ≡ c

number-Numbered : (n i : ℕ) (h : List ℕ) → i + n ≤ length h → Gives (Numbered h i n) (number n i h)
unfolding number
number-Numbered zero i h room =
    Gives-some h
      (record { size = refl; before = λ c lt. refl; new = λ c le lt. absurd (omega arith) })
number-Numbered (suc n) i h room =
    Gives-if (ltb i (length h))
      (λ e.
        Gives-map (number-Numbered n (suc i) (set h i i) (omega (arith, length-set h i i))) (λ h' w.
          record {
            size = w.size ∙ length-set h i i;
            before = λ c lt.
                w.before c (omega arith) ∙ get_or-set_ne h i c i 0 (λ f. absurd (omega arith));
            new = λ c le lt. elim (Eq-cases i c) [
              | inl f ↦
                  ap (λ x. get_or h' x 0) (sym f)
                  ∙ w.before i (omega arith)
                  ∙ get_or-set_self h i i 0 (omega arith)
                  ∙ f
              | inr f ↦ w.new c (omega arith) (omega arith)
            ];
          }))
      (λ e. absurd (ground arith))

-- The second loop of `sort`, on places that are numbered.
built-Sifted :
    (es : List ThreatEntry) (g h : List ℕ)
    → length es ≤ length g
    → Numbered g 0 (length es) h
    → Gives (Sifted 0 es (length h)) (build ((length es - 1) / 2 + 1) es h)
unfolding build down
built-Sifted [] g h room w = Gives-some h (
  record {
    room = omega arith;
    inside = λ i lt. absurd (omega arith);
    covers = λ j lt. absurd (omega arith);
  },
  (λ c p q r. absurd (omega arith)),
  refl,
)
built-Sifted (e ∷ es) g h room w =
    build-Sifted ((length (e ∷ es) - 1) / 2 + 1) (e ∷ es) h (omega arith)
      (record {
        room = omega (arith, w.size);
        inside = λ i lt. omega (arith, w.new i (omega arith) (omega arith));
        covers = λ j lt. (j, lt, w.new j (omega arith) (omega arith));
      })
      (λ c p q r. absurd (omega arith))

-- The table after `sort`: as before, with a heap of its entries.
pub record IsSorted (t t' : ThreatTable) : Type 0 where
  pub entries : t'.entries ≡ t.entries
  pub total_threat : t'.total_threat ≡ t.total_threat
  pub decay_rate : t'.decay_rate ≡ t.decay_rate
  pub fits : Fits t'.entries t'.heap
  pub order : IsHeapFrom 0 t'.entries t'.heap
  pub size : length t'.heap ≡ length t.heap

-- `sort` does not panic where the array has room for the entries.
pub sort-IsSorted :
    (t : ThreatTable) → length t.entries ≤ length t.heap → Gives (IsSorted t) (sort t)
unfolding sort
sort-IsSorted t room =
    let n = length t.entries in
    Gives-bind (number-Numbered n 0 t.heap (omega arith)) λ h w.
      Gives-bind (built-Sifted t.entries t.heap h room w) λ h' s.
        Gives-some (record t { heap_size = n; heap = h' })
          (record {
            entries = refl;
            total_threat = refl;
            decay_rate = refl;
            fits = s.0;
            order = s.1;
            size = s.2 ∙ w.size;
          })
