-- ===== src/Peakgo/SkillData/Chains.antt =====
-- The chain of prerequisites, on every graph (server/peakgo/skilldata/skilldata.go).
use minnsun_s_adventure.Common.{
  ℕ, zero, suc, ◌+◌, ◌≤◌, ◌<◌, ◌≡◌, refl, sym, ap, ◌∙◌, ◌⊎◌, inl, inr, true, false, ◌||◌, List, [],
  ◌∷◌, ◌++◌, some, arith, ◌==◌, if◌then◌else◌, length, Bool-cases, Option-cases, Eq-cases,
}
use minnsun_s_adventure.Common.Partial.{Gives, Gives-some, Gives-bind, Gives-map}
use minnsun_s_adventure.Common.Entries.{lookup}
use minnsun_s_adventure.Common.Table.{is_some}
use minnsun_s_adventure.Peakgo.SkillData.{
  SkillEntry, SkillGraph, contains, collect_all, collect_prereqs, in_order, get_prerequisite_chain,
}

abbrev pub Includes : List ℕ → List ℕ → Type 0
Includes xs ys = (x : ℕ) → contains x xs ≡ true → contains x ys ≡ true

-- No ID twice.
abbrev pub IsDistinct : List ℕ → Type 0
IsDistinct [] = Unit {0}
IsDistinct (x ∷ xs) = (contains x xs ≡ false) × IsDistinct xs

contains_self : (x : ℕ) (xs : List ℕ) → contains x (x ∷ xs) ≡ true
contains_self x xs = ground arith

contains_later : (x y : ℕ) (xs : List ℕ) → contains x xs ≡ true → contains x (y ∷ xs) ≡ true
contains_later x y xs h = ground arith

contains-cons :
    (x y : ℕ) (xs : List ℕ) → contains x (y ∷ xs) ≡ true → (y ≡ x) ⊎ (contains x xs ≡ true)
contains-cons x y xs h = ground arith

abbrev pub IsRegistered : ℕ → SkillGraph → Type 0
IsRegistered id g = is_some (lookup id g) ≡ true

-- The registered skills that are not visited.
abbrev pub unvisited : List ℕ → SkillGraph → ℕ
unvisited visited [] = 0
unvisited visited ((id, s) ∷ g) = (if contains id visited then 0 else 1) + unvisited visited g

unvisited_mono : (v w : List ℕ) (g : SkillGraph) → Includes v w → unvisited w g ≤ unvisited v g
unvisited_mono v w [] h = omega arith
unvisited_mono v w ((id, s) ∷ g) h = ground (arith, unvisited_mono v w g h, h id)

unvisited_less :
    (id : ℕ) (v : List ℕ) (g : SkillGraph)
    → IsRegistered id g
    → contains id v ≡ false
    → unvisited (id ∷ v) g < unvisited v g
unvisited_less id v [] h fresh = absurd (cc)
unvisited_less id v ((j, s) ∷ g) h fresh = elim (Eq-cases id j) [
  | inl e ↦ ground (arith, unvisited_mono v (id ∷ v) g (λ x p. contains_later x id v p))
  | inr n ↦ ground (arith, unvisited_less id v g (ground arith) fresh)
]

unvisited-le : (v : List ℕ) (g : SkillGraph) → unvisited v g ≤ length g
unvisited-le v [] = omega arith
unvisited-le v ((id, s) ∷ g) = ground (arith, unvisited-le v g)

-- What a search for the IDs makes of the visited IDs v and the result r.
pub record Collected (g : SkillGraph) (ids v r v' r' : List ℕ) : Type 0 where
  pub grows : Includes v v'
  pub keeps : Includes r r'
  pub seen : (x : ℕ) → contains x v' ≡ true → (contains x v ≡ true) ⊎ (contains x r' ≡ true)
  pub new :
      (x : ℕ)
      → contains x r' ≡ true
      → (contains x r ≡ true) ⊎ ((contains x v' ≡ true) × (contains x v ≡ false))
  pub closed :
      (x : ℕ)
      → contains x r' ≡ true
      → (contains x r ≡ true)
        ⊎ ((s : SkillEntry) × (lookup x g ≡ some s)
            × ((p : ℕ)
                → contains p s.prerequisites ≡ true
                → IsRegistered p g
                → contains p v' ≡ true))
  pub found : (x : ℕ) → contains x ids ≡ true → IsRegistered x g → contains x v' ≡ true
  pub distinct : Includes r v → IsDistinct r → IsDistinct r'

abbrev pub CollectedTo : SkillGraph → List ℕ → List ℕ × List ℕ → List ℕ × List ℕ → Type 0
CollectedTo g ids s s' = Collected g ids s.0 s.1 s'.0 s'.1

-- A search that adds nothing.
nothing :
    (g : SkillGraph) (ids v r : List ℕ)
    → ((x : ℕ) → contains x ids ≡ true → IsRegistered x g → contains x v ≡ true)
    → Collected g ids v r v r
nothing g ids v r there = record {
  grows = λ x h. h;
  keeps = λ x h. h;
  seen = λ x h. inl h;
  new = λ x h. inl h;
  closed = λ x h. inl h;
  found = there;
  distinct = λ i d. d;
}

-- After the result r is within v, so is the result of a search.
within :
    {g : SkillGraph} {ids v r v' r' : List ℕ}
    → Collected g ids v r v' r'
    → Includes r v
    → Includes r' v'
within c h x m = elim (c.new x m) [ inl old ↦ c.grows x (h x old) | inr (there, _) ↦ there ]

fresh_before : (v w : List ℕ) → Includes v w → (x : ℕ) → contains x w ≡ false → contains x v ≡ false
fresh_before v w h x k = elim (Bool-cases (contains x v)) [
  | inl e ↦ let there = h x e in absurd (cc)
  | inr e ↦ e
]

-- A search for one ID, then a search for others.
after :
    {g : SkillGraph} {p : ℕ} {ps v r v' r' v'' r'' : List ℕ}
    → Collected g (p ∷ []) v r v' r'
    → Collected g ps v' r' v'' r''
    → Collected g (p ∷ ps) v r v'' r''
after {v = v} {v' = v'} a b = record {
  grows = λ x h. b.grows x (a.grows x h);
  keeps = λ x h. b.keeps x (a.keeps x h);
  seen = λ x h. elim (b.seen x h) [
    | inr m ↦ inr m
    | inl m ↦ elim (a.seen x m) [ inl n ↦ inl n | inr n ↦ inr (b.keeps x n) ]
  ];
  new = λ x h. elim (b.new x h) [
    | inl m ↦ elim (a.new x m) [ inl n ↦ inl n | inr (n, k) ↦ inr (b.grows x n, k) ]
    | inr (m, k) ↦ inr (m, fresh_before v v' a.grows x k)
  ];
  closed = λ x h. elim (b.closed x h) [
    | inr c ↦ inr c
    | inl m ↦ elim (a.closed x m) [
      | inl n ↦ inl n
      | inr (s, is, all) ↦ inr (s, is, λ p k l. b.grows p (all p k l))
    ]
  ];
  found = λ x m l. elim (contains-cons x _ _ m) [
    | inl e ↦ b.grows x (a.found x (ground arith) l)
    | inr k ↦ b.found x k l
  ];
  distinct = λ i d. b.distinct (within a i) (a.distinct i d);
}

-- The search under a skill, then the skill itself.
finish :
    {g : SkillGraph} (id : ℕ) (skill : SkillEntry) {v r v' r' : List ℕ}
    → lookup id g ≡ some skill
    → contains id v ≡ false
    → Collected g skill.prerequisites (id ∷ v) r v' r'
    → Collected g (id ∷ []) v r v' (id ∷ r')
finish {g} id skill {v} {r} {v'} {r'} is fresh c = record {
  grows = λ x h. c.grows x (contains_later x id v h);
  keeps = λ x h. contains_later x id r' (c.keeps x h);
  seen = λ x h. elim (c.seen x h) [
    | inr m ↦ inr (contains_later x id r' m)
    | inl m ↦ elim (contains-cons x id v m) [ inl e ↦ inr (ground arith) | inr k ↦ inl k ]
  ];
  new = λ x h. elim (contains-cons x id r' h) [
    | inl e ↦ inr (
      ap (λ y. contains y v') (sym e) ∙ c.grows id (contains_self id v),
      ap (λ y. contains y v) (sym e) ∙ fresh,
    )
    | inr m ↦ elim (c.new x m) [
      | inl n ↦ inl n
      | inr (n, k) ↦ inr (n, fresh_before v (id ∷ v) (λ y q. contains_later y id v q) x k)
    ]
  ];
  closed = λ x h. elim (contains-cons x id r' h) [
    | inl e ↦ inr (skill, ap (λ y. lookup y g) (sym e) ∙ is, c.found)
    | inr m ↦ c.closed x m
  ];
  found = λ x m l. elim (contains-cons x id [] m) [
    | inl e ↦ ap (λ y. contains y v') (sym e) ∙ c.grows id (contains_self id v)
    | inr k ↦ absurd (cc)
  ];
  distinct = λ i d. (not_yet i, c.distinct (λ x m. contains_later x id v (i x m)) d);
}
  where
    not_yet : Includes r v → contains id r' ≡ false
    not_yet i = elim (Bool-cases (contains id r')) [
      | inr e ↦ e
      | inl e ↦ elim (c.new id e) [
        | inl old ↦ let there = i id old in absurd (cc)
        | inr (_, k) ↦ let here = contains_self id v in absurd (cc)
      ]
    ]

-- The loop over prerequisites, with enough fuel for each.
collect_all-Collected :
    (g : SkillGraph) (k : ℕ)
    → ((p : ℕ) (s : List ℕ × List ℕ)
        → unvisited s.0 g < k
        → Gives (CollectedTo g (p ∷ []) s) (collect_prereqs k g p s))
    → (ps : List ℕ) (s : List ℕ × List ℕ) → unvisited s.0 g < k
    → Gives (CollectedTo g ps s) (collect_all (collect_prereqs k g) ps s)
collect_all-Collected g k each [] s enough =
    Gives-some s (nothing g [] s.0 s.1 (λ x m l. absurd (cc)))
collect_all-Collected g k each (p ∷ ps) s enough = Gives-bind (each p s enough) λ s' a.
    Gives-map
      (collect_all-Collected g k each ps s' (omega (arith, unvisited_mono s.0 s'.0 g a.grows)))
      (λ s'' b. after a b)

collect_prereqs-Collected :
    (k : ℕ) (g : SkillGraph) (id : ℕ) (s : List ℕ × List ℕ)
    → unvisited s.0 g < k
    → Gives (CollectedTo g (id ∷ []) s) (collect_prereqs k g id s)
unfolding collect_prereqs
collect_prereqs-Collected zero g id s enough = absurd (omega arith)
collect_prereqs-Collected (suc k) g id (v, r) enough = elim (Bool-cases (contains id v)) [
  | inl e ↦ rw e (Gives-some (v, r) (nothing g (id ∷ []) v r (λ x m l. ground arith)))
  | inr fresh ↦ elim (Option-cases (lookup id g)) [
    | inl e ↦
        rw (fresh, collect_prereqs, e)
          (Gives-some (v, r) (nothing g (id ∷ []) v r (λ x m l. ground arith)))
    | inr (skill, e) ↦
        let less = unvisited_less id v g (ap is_some e) fresh in
        let ((v', r'), is, c) =
          collect_all-Collected g k (collect_prereqs-Collected k g) skill.prerequisites (id ∷ v, r)
            (omega arith) in
        rw (fresh, collect_prereqs, e, is) (Gives-some (v', id ∷ r') (finish id skill e fresh c))
  ]
]

contains-append : (x y : ℕ) (xs : List ℕ) → contains x (xs ++ (y ∷ [])) ≡ contains x (y ∷ xs)
contains-append x y [] = refl
contains-append x y (z ∷ xs) = ground (arith, contains-append x y xs)

contains-in_order : (x : ℕ) (xs : List ℕ) → contains x (in_order xs) ≡ contains x xs
contains-in_order x [] = refl
contains-in_order x (y ∷ xs) =
    contains-append x y (in_order xs) ∙ ap (λ b. y == x || b) (contains-in_order x xs)

append-IsDistinct :
    (y : ℕ) (xs : List ℕ) → IsDistinct xs → contains y xs ≡ false → IsDistinct (xs ++ (y ∷ []))
append-IsDistinct y [] d n = (refl, tt)
append-IsDistinct y (x ∷ xs) (f, d) n =
    (contains-append x y xs ∙ ground arith, append-IsDistinct y xs d (ground arith))

in_order-IsDistinct : (xs : List ℕ) → IsDistinct xs → IsDistinct (in_order xs)
in_order-IsDistinct [] d = tt
in_order-IsDistinct (x ∷ xs) (f, d) =
    append-IsDistinct x (in_order xs) (in_order-IsDistinct xs d) (contains-in_order x xs ∙ f)

-- On every graph, with or without cycles, `GetPrerequisiteChain` returns: the chain has no ID twice, it has the
-- skill, where that is registered, and with each ID, which is registered, all registered prerequisites of it.
pub get_prerequisite_chain_lem :
    (id : ℕ) (g : SkillGraph)
    → Gives
        (λ chain.
          IsDistinct chain
          × (IsRegistered id g → contains id chain ≡ true)
          × ((x : ℕ)
              → contains x chain ≡ true
              → (s : SkillEntry) × (lookup x g ≡ some s)
                × ((p : ℕ)
                    → contains p s.prerequisites ≡ true
                    → IsRegistered p g
                    → contains p chain ≡ true)))
        (get_prerequisite_chain id g)
unfolding get_prerequisite_chain
get_prerequisite_chain_lem id g =
    let ((v, r), is, c) =
      collect_prereqs-Collected (length g + 1) g id ([], []) (omega (arith, unvisited-le [] g)) in
    let listed : (x : ℕ) → contains x v ≡ true → contains x (in_order r) ≡ true =
      λ x h. contains-in_order x r ∙ elim (c.seen x h) [ inl n ↦ absurd (cc) | inr m ↦ m ] in
    rw is (
      Gives-some (in_order r) (
        in_order-IsDistinct r (c.distinct (λ x h. h) tt),
        (λ known. listed id (c.found id (contains_self id []) known)),
        (λ x h. elim (c.closed x (sym (contains-in_order x r) ∙ h)) [
          | inl n ↦ absurd (cc)
          | inr (s, at, all) ↦ (s, at, λ p k l. listed p (all p k l))
        ]),
      ))
