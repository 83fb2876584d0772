-- ===== src/Ecs/Store/Slots.antt =====
-- The paged sparse array as a function from indices to cells.
use minnsun_s_adventure.Common.{
  ℕ, zero, suc, ◌+◌, ◌-◌, ◌/◌, ◌%◌, ◌<◌, ◌≡◌, ◌≢◌, refl, sym, ap, ◌∙◌, Option, none, some, List, [],
  ◌∷◌, ◌++◌, arith, if◌then◌else◌, length, set, replicate, inl, inr, Eq-cases, Option-cases,
  some_inj, ◌==◌, ==_refl, ==_ne, length-set, length-append, length-replicate, get_or-set_self,
  get_or-set_ne, get_or-replicate,
}
use mathlib.Core.Path.{subst}
use minnsun_s_adventure.Ecs.Store.{
  Page, chunk_size, zero_page, grow, page_at, make_page, cell, write_cell, page_cell,
}

-- Every page that was made has a cell for each offset.
abbrev pub ArePages : List (Option Page) → Type 0
ArePages sparse = (n : ℕ) (page : Page) → page_at sparse n ≡ some page → length page ≡ chunk_size

abbrev pub HasPage : List (Option Page) → ℕ → Type 0
HasPage sparse n = (page : Page) × (page_at sparse n ≡ some page)

page_at-append :
    (sparse : List (Option Page)) (k n : ℕ)
    → page_at (sparse ++ replicate k none) n ≡ page_at sparse n
page_at-append [] k n = get_or-replicate k n none
page_at-append (p ∷ sparse) k zero = refl
page_at-append (p ∷ sparse) k (suc n) = page_at-append sparse k n

page_at-grow :
    (m n : ℕ) (sparse : List (Option Page)) → page_at (grow m sparse) n ≡ page_at sparse n
unfolding grow
page_at-grow m n sparse = ground (arith, page_at-append sparse (m + 1 - length sparse) n)

pub length-grow : (m : ℕ) (sparse : List (Option Page)) → m < length (grow m sparse)
unfolding grow
length-grow m sparse = ground (
  arith,
  length-append sparse (replicate (m + 1 - length sparse) none),
  length-replicate {A = Option Page} (m + 1 - length sparse) none,
)

length_lt_of_page :
    (sparse : List (Option Page)) (n : ℕ) {page : Page}
    → page_at sparse n ≡ some page
    → n < length sparse
length_lt_of_page [] n h = absurd (cc)
length_lt_of_page (p ∷ sparse) zero h = omega arith
length_lt_of_page (p ∷ sparse) (suc n) h = omega (arith, length_lt_of_page sparse n h)

pub cell-grow :
    (m idx : ℕ) (sparse : List (Option Page)) → cell (grow m sparse) idx ≡ cell sparse idx
unfolding cell
cell-grow m idx sparse =
    ap (λ p. page_cell p (idx % chunk_size)) (page_at-grow m (idx / chunk_size) sparse)

page_at-make_page_ne :
    (m n : ℕ) (sparse : List (Option Page))
    → m ≢ n
    → page_at (make_page m sparse) n ≡ page_at sparse n
unfolding make_page
page_at-make_page_ne m n sparse h = ground (arith, get_or-set_ne sparse m n (some zero_page) none h)

-- A page that is there stays; a nil page becomes a page of zeros.
abbrev page_or_zero : Option Page → Page
page_or_zero none = zero_page
page_or_zero (some page) = page

page_at-make_page_self :
    (m : ℕ) (sparse : List (Option Page))
    → m < length sparse
    → page_at (make_page m sparse) m ≡ some (page_or_zero (page_at sparse m))
unfolding make_page
page_at-make_page_self m sparse h = elim (Option-cases (page_at sparse m)) [
  | inl e ↦ rw (e, make_page) (get_or-set_self sparse m (some zero_page) none h)
  | inr (page, e) ↦ rw (e, make_page) e
]

page_cell-or_zero : (p : Option Page) (i : ℕ) → page_cell (some (page_or_zero p)) i ≡ page_cell p i
page_cell-or_zero none i = get_or-replicate chunk_size i 0
page_cell-or_zero (some page) i = refl

pub cell-make_page :
    (m idx : ℕ) (sparse : List (Option Page))
    → m < length sparse
    → cell (make_page m sparse) idx ≡ cell sparse idx
unfolding cell
cell-make_page m idx sparse h = elim (Eq-cases m (idx / chunk_size)) [
  | inl e ↦ rw (← e) (
      ap (λ p. page_cell p (idx % chunk_size)) (page_at-make_page_self m sparse h)
      ∙ page_cell-or_zero (page_at sparse m) (idx % chunk_size))
  | inr ne ↦
      ap (λ p. page_cell p (idx % chunk_size)) (page_at-make_page_ne m (idx / chunk_size) sparse ne)
]

module _ (sparse : List (Option Page)) (pages : ArePages sparse) where
  pub grow-ArePages : (m : ℕ) → ArePages (grow m sparse)
  grow-ArePages m n page e = pages n page (sym (page_at-grow m n sparse) ∙ e)

  length-page_or_zero : (n : ℕ) → length (page_or_zero (page_at sparse n)) ≡ chunk_size
  length-page_or_zero n = elim (Option-cases (page_at sparse n)) [
    | inl e ↦ rw e (length-replicate {A = ℕ} chunk_size 0)
    | inr (page, e) ↦ rw e (pages n page e)
  ]

  pub make_page-ArePages : (m : ℕ) → m < length sparse → ArePages (make_page m sparse)
  make_page-ArePages m h n page e = elim (Eq-cases m n) [
    | inl same ↦
        let found = subst (λ k. page_at (make_page m sparse) k ≡ some page) (sym same) e in
        let eq = some_inj (sym (page_at-make_page_self m sparse h) ∙ found) in
        subst (λ p. length p ≡ chunk_size) eq (length-page_or_zero m)
    | inr ne ↦ pages n page (sym (page_at-make_page_ne m n sparse ne) ∙ e)
  ]

pub make_page-HasPage :
    (m : ℕ) (sparse : List (Option Page)) → m < length sparse → HasPage (make_page m sparse) m
make_page-HasPage m sparse h = (page_or_zero (page_at sparse m), page_at-make_page_self m sparse h)

-- A cell that has been written is read back, on the page and off it.
module _ (sparse : List (Option Page)) (idx v : ℕ) where
  write_cell_lem :
      {page : Page}
      → page_at sparse (idx / chunk_size) ≡ some page
      → write_cell sparse idx v
        ≡ set sparse (idx / chunk_size) (some (set page (idx % chunk_size) v))
  unfolding write_cell
  write_cell_lem e = rw (e, write_cell)

  write_cell_nil : page_at sparse (idx / chunk_size) ≡ none → write_cell sparse idx v ≡ sparse
  unfolding write_cell
  write_cell_nil e = rw (e, write_cell)

  page_at-write_cell_self :
      {page : Page}
      → page_at sparse (idx / chunk_size) ≡ some page
      → page_at (write_cell sparse idx v) (idx / chunk_size) ≡ some (set page (idx % chunk_size) v)
  page_at-write_cell_self {page} e =
      ap (λ s. page_at s (idx / chunk_size)) (write_cell_lem e)
      ∙ get_or-set_self sparse (idx / chunk_size) (some (set page (idx % chunk_size) v)) none
          (length_lt_of_page sparse (idx / chunk_size) e)

  page_at-write_cell_ne :
      (n : ℕ) → idx / chunk_size ≢ n → page_at (write_cell sparse idx v) n ≡ page_at sparse n
  page_at-write_cell_ne n ne = elim (Option-cases (page_at sparse (idx / chunk_size))) [
    | inl e ↦ ap (λ s. page_at s n) (write_cell_nil e)
    | inr (page, e) ↦
        ap (λ s. page_at s n) (write_cell_lem e)
        ∙ get_or-set_ne sparse (idx / chunk_size) n (some (set page (idx % chunk_size) v)) none ne
  ]

  pub cell-write_cell_self :
      ArePages sparse → HasPage sparse (idx / chunk_size) → cell (write_cell sparse idx v) idx ≡ v
  unfolding cell
  cell-write_cell_self pages (page, e) =
      ap (λ p. page_cell p (idx % chunk_size)) (page_at-write_cell_self e)
      ∙ get_or-set_self page (idx % chunk_size) v 0 (omega (arith, pages (idx / chunk_size) page e))

  pub cell-write_cell_ne : (j : ℕ) → idx ≢ j → cell (write_cell sparse idx v) j ≡ cell sparse j
  unfolding cell
  cell-write_cell_ne j ne = elim (Eq-cases (idx / chunk_size) (j / chunk_size)) [
    | inr other ↦
        ap (λ p. page_cell p (j % chunk_size)) (page_at-write_cell_ne (j / chunk_size) other)
    | inl same ↦ elim (Option-cases (page_at sparse (idx / chunk_size))) [
      | inl e ↦ ap (λ s. page_cell (page_at s (j / chunk_size)) (j % chunk_size)) (write_cell_nil e)
      | inr (page, e) ↦ rw (← same) (
          ap (λ p. page_cell p (j % chunk_size)) (page_at-write_cell_self e)
          ∙ get_or-set_ne page (idx % chunk_size) (j % chunk_size) v 0 (omega arith)
          ∙ ap (λ p. page_cell p (j % chunk_size)) (sym e))
    ]
  ]

  pub write_cell-ArePages : ArePages sparse → ArePages (write_cell sparse idx v)
  write_cell-ArePages pages n page found = elim (Eq-cases (idx / chunk_size) n) [
    | inr other ↦ pages n page (sym (page_at-write_cell_ne n other) ∙ found)
    | inl same ↦ elim (Option-cases (page_at sparse (idx / chunk_size))) [
      | inl e ↦ pages n page (subst (λ s. page_at s n ≡ some page) (write_cell_nil e) found)
      | inr (old, e) ↦
          let here =
            subst (λ k. page_at (write_cell sparse idx v) k ≡ some page) (sym same) found in
          let eq = some_inj (sym (page_at-write_cell_self e) ∙ here) in
          subst (λ p. length p ≡ chunk_size) eq
            (length-set old (idx % chunk_size) v ∙ pages (idx / chunk_size) old e)
    ]
  ]

  pub write_cell-HasPage : (n : ℕ) → HasPage sparse n → HasPage (write_cell sparse idx v) n
  write_cell-HasPage n (page, e) = elim (Eq-cases (idx / chunk_size) n) [
    | inr other ↦ (page, page_at-write_cell_ne n other ∙ e)
    | inl same ↦ (
      set page (idx % chunk_size) v,
      subst (λ k. page_at (write_cell sparse idx v) k ≡ some (set page (idx % chunk_size) v)) same
          (page_at-write_cell_self (subst (λ k. page_at sparse k ≡ some page) (sym same) e)),
    )
  ]

-- A cell that is not 0 stands on a page.
pub HasPage-of_cell :
    (sparse : List (Option Page)) (idx i : ℕ)
    → cell sparse idx ≡ suc i
    → HasPage sparse (idx / chunk_size)
unfolding cell
HasPage-of_cell sparse idx i h = elim (Option-cases (page_at sparse (idx / chunk_size))) [
  | inl e ↦ absurd (omega (arith, sym (ap (λ p. page_cell p (idx % chunk_size)) e) ∙ h))
  | inr found ↦ found
]

-- A write, in one equation.
pub cell-write_cell :
    (sparse : List (Option Page)) (idx v j : ℕ)
    → ArePages sparse
    → HasPage sparse (idx / chunk_size)
    → cell (write_cell sparse idx v) j ≡ (if j == idx then v else cell sparse j)
cell-write_cell sparse idx v j pages page = elim (Eq-cases idx j) [
  | inl same ↦ rw (← same, ==_refl idx) (cell-write_cell_self sparse idx v pages page)
  | inr ne ↦ rw (==_ne j idx (λ e. ne (sym e))) (cell-write_cell_ne sparse idx v j ne)
]
