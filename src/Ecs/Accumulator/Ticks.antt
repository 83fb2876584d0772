-- ===== src/Ecs/Accumulator/Ticks.antt =====
-- One tick of accumulated damage (server/ecs/combat_accumulator.go).
use mathlib.Core.Path.{subst}
use minnsun_s_adventure.Common.{
  ℕ, suc, ◌+◌, ◌-◌, ◌<◌, ◌≡◌, ◌≢◌, refl, sym, ap, ◌∙◌, fun_ext, ◌⊎◌, inl, inr, true, List, [], ◌∷◌,
  Option, none, some, some_inj, arith, ◌==◌, ltb, if◌then◌else◌, Option-cases, Eq-cases, ==_refl,
  ==_ne,
}
use minnsun_s_adventure.Common.Int.{ℤ, pos, negsuc, int64, ◌+ℤ◌}
use minnsun_s_adventure.Common.Entries
use minnsun_s_adventure.Ecs.Entity.{Entity}
use minnsun_s_adventure.Ecs.Accumulator.{
  DamageBatch, no_damage, CombatAccumulator, new_combat_accumulator, write, add_to, add_damage,
  batch_for, take_batch, recycle_batch, append_pool, flush, flush_loop,
}
use minnsun_s_adventure.Ecs.Accumulator.Apart.{
  Batches, contents, IsApart, write_other, flush_loop_sees,
}

-- A call of AddDamage: the target, the damage and the threat.
pub record Hit : Type 0 where
  pub target : Entity
  pub damage : ℤ
  pub threat : ℤ

-- The calls, the last one first.
abbrev pub run : List Hit → CombatAccumulator → CombatAccumulator
run [] a = a
run (h ∷ hs) a = add_damage h.target h.damage h.threat (run hs a)

-- A sum, with one more hit.
abbrev pub plus : Hit → Option DamageBatch → DamageBatch
plus h none = record { total_damage = int64 h.damage; total_threat = int64 h.threat }
plus h (some sum) = record {
  total_damage = int64 (sum.total_damage +ℤ h.damage);
  total_threat = int64 (sum.total_threat +ℤ h.threat);
}

-- The sums of the hits on a target, as int64, where there is one.
abbrev pub tally : List Hit → Entity → Option DamageBatch
tally [] t = none
tally (h ∷ hs) t = if t == h.target then some (plus h (tally hs h.target)) else tally hs t

-- An accumulator with an empty pool whose batches hold what the map says.
pub record Holds (m : Entity → Option DamageBatch) (a : CombatAccumulator) : Type 0 where
  pub apart : IsApart a.batches a
  pub map : Entries.IsMap a.batches
  pub no_pool : a.length ≡ 0
  pub sums : (t : Entity) → contents a.heap (Entries.lookup t a.batches) ≡ m t

old_batch :
    (t b : ℕ) (a : CombatAccumulator) → Entries.lookup t a.batches ≡ some b → batch_for t a ≡ (b, a)
old_batch t b a e = rw (batch_for, e) refl

opened : ℕ → CombatAccumulator → CombatAccumulator
opened t a = record a {
  next = a.next + 1;
  heap = write a.next no_damage a.heap;
  batches = Entries.insert t a.next a.batches;
}

new_batch :
    (t : ℕ) (a : CombatAccumulator)
    → Entries.lookup t a.batches ≡ none
    → a.length ≡ 0
    → batch_for t a ≡ (a.next, opened t a)
unfolding opened
new_batch t a e z = rw (batch_for, e, take_batch, z) refl

-- Where a write to the batch b of the target t leads, when no other target has b.
written :
    (t b : ℕ) (v : DamageBatch) (heap : ℕ → DamageBatch) (m : Batches)
    → Entries.lookup t m ≡ some b
    → ((u c : ℕ) → Entries.lookup u m ≡ some c → u ≢ t → c ≢ b)
    → (u : ℕ)
    → contents (write b v heap) (Entries.lookup u m)
      ≡ (if u == t then some v else contents heap (Entries.lookup u m))
written t b v heap m at apart u = elim (Eq-cases u t) [
  | inl e ↦ rw (e, at, ==_refl t, ==_refl b) refl
  | inr ne ↦ rw (==_ne u t ne) (elim (Option-cases (Entries.lookup u m)) [
    | inl f ↦ rw f refl
    | inr (c, f) ↦ rw f (ap some (write_other b c v heap (apart u c f ne)))
  ])
]

sum_of : Option DamageBatch → DamageBatch
sum_of o = elim o [ none ↦ no_damage | some b ↦ b ]

-- The target t has the batch b, and every batch holds what the map says, or nothing yet.
record IsReady (t b : ℕ) (m : Entity → Option DamageBatch) (a : CombatAccumulator) : Type 0 where
  apart : IsApart a.batches a
  map : Entries.IsMap a.batches
  no_pool : a.length ≡ 0
  there : Entries.lookup t a.batches ≡ some b
  sum : a.heap b ≡ sum_of (m t)
  others : (u : Entity) → u ≢ t → contents a.heap (Entries.lookup u a.batches) ≡ m u

entry-insert :
    (t n u b : ℕ) (m : Batches)
    → Entries.lookup u (Entries.insert t n m) ≡ some b
    → ((u ≡ t) × (b ≡ n)) ⊎ (Entries.lookup u m ≡ some b)
entry-insert t n u b m f = elim (Eq-cases u t) [
  | inl e ↦
      inl (e, sym (some_inj (sym (Entries.lookup-insert t u n m ∙ rw (e, ==_refl t) refl) ∙ f)))
  | inr ne ↦ inr (sym (Entries.lookup-insert t u n m ∙ rw (==_ne u t ne) refl) ∙ f)
]

opened-IsApart :
    (t : ℕ) (a : CombatAccumulator)
    → IsApart a.batches a
    → IsApart (opened t a).batches (opened t a)
unfolding opened
opened-IsApart t a h = record {
  array = omega (arith, h.array);
  used = λ u b f. elim (entry-insert t a.next u b a.batches f) [
    | inl (_, e) ↦ omega arith
    | inr g ↦ omega (arith, h.used u b g)
  ];
  outside = λ u b f. elim (entry-insert t a.next u b a.batches f) [
    | inl (_, e) ↦ inr (omega (arith, h.array))
    | inr g ↦ h.outside u b g
  ];
  different = λ u v b f g. elim (entry-insert t a.next u b a.batches f) [
    | inl (e, c) ↦ elim (entry-insert t a.next v b a.batches g) [
      | inl (e', _) ↦ e ∙ sym e'
      | inr g' ↦ absurd (omega (arith, h.used v b g', c))
    ]
    | inr f' ↦ elim (entry-insert t a.next v b a.batches g) [
      | inl (_, c) ↦ absurd (omega (arith, h.used u b f', c))
      | inr g' ↦ h.different u v b f' g'
    ]
  ];
}

opened-IsReady :
    (t : ℕ) (m : Entity → Option DamageBatch) (a : CombatAccumulator)
    → Holds m a
    → Entries.lookup t a.batches ≡ none
    → IsReady t a.next m (opened t a)
unfolding opened sum_of
opened-IsReady t m a s e = record {
  apart = opened-IsApart t a s.apart;
  map = Entries.insert-IsMap t a.next a.batches s.map;
  no_pool = s.no_pool;
  there = Entries.lookup-insert t t a.next a.batches ∙ rw (==_refl t) refl;
  sum = rw (==_refl a.next) (ap sum_of (ap (contents a.heap) (sym e) ∙ s.sums t));
  others = λ u ne.
      ap (contents (write a.next no_damage a.heap))
        (Entries.lookup-insert t u a.next a.batches ∙ rw (==_ne u t ne) refl)
      ∙ kept u
      ∙ s.sums u;
}
  where
    kept :
        (u : Entity)
        → contents (write a.next no_damage a.heap) (Entries.lookup u a.batches)
          ≡ contents a.heap (Entries.lookup u a.batches)
    kept u = elim (Option-cases (Entries.lookup u a.batches)) [
      | inl f ↦ rw f refl
      | inr (c, f) ↦ rw f (
          ap some (
            write_other a.next c no_damage a.heap
              (λ g. absurd (omega (arith, s.apart.used u c f, g)))))
    ]

batch_for-IsReady :
    (t : ℕ) (m : Entity → Option DamageBatch) (a : CombatAccumulator)
    → Holds m a
    → IsReady t (batch_for t a).0 m (batch_for t a).1
unfolding sum_of
batch_for-IsReady t m a s = elim (Option-cases (Entries.lookup t a.batches)) [
  | inl e ↦
      subst (λ r. IsReady t r.0 m r.1) (sym (new_batch t a e s.no_pool)) (opened-IsReady t m a s e)
  | inr (b, e) ↦
      subst (λ r. IsReady t r.0 m r.1) (sym (old_batch t b a e))
        (record {
          apart = s.apart;
          map = s.map;
          no_pool = s.no_pool;
          there = e;
          sum = ap sum_of (ap (contents a.heap) (sym e) ∙ s.sums t);
          others = λ u ne. s.sums u;
        })
]

add_damage-Holds :
    (h : Hit) (m : Entity → Option DamageBatch) (a : CombatAccumulator)
    → Holds m a
    → Holds
        (λ t. if t == h.target then some (add_to h.damage h.threat (sum_of (m h.target))) else m t)
        (add_damage h.target h.damage h.threat a)
unfolding add_damage
add_damage-Holds h m a s =
    let a' = (batch_for h.target a).1 in
    let b = (batch_for h.target a).0 in
    let r = batch_for-IsReady h.target m a s in
    record {
      apart = record {
        array = r.apart.array;
        used = r.apart.used;
        outside = r.apart.outside;
        different = r.apart.different;
      };
      map = r.map;
      no_pool = r.no_pool;
      sums = λ t.
          written h.target b (add_to h.damage h.threat (a'.heap b)) a'.heap a'.batches r.there
            (λ u c f ne e. ne (r.apart.different u h.target c f (r.there ∙ ap some (sym e)))) t
          ∙ elim (Eq-cases t h.target) [
            | inl e ↦ rw (e, ==_refl h.target) (ap (λ x. some (add_to h.damage h.threat x)) r.sum)
            | inr ne ↦ rw (==_ne t h.target ne) (r.others t ne)
          ];
    }

zero_plus : (d : ℤ) → pos 0 +ℤ d ≡ d
unfolding ◌+ℤ◌
zero_plus (pos n) = ground arith
zero_plus (negsuc n) = ground arith

plus_lem : (h : Hit) (o : Option DamageBatch) → add_to h.damage h.threat (sum_of o) ≡ plus h o
unfolding sum_of
plus_lem h none = rw (zero_plus h.damage, zero_plus h.threat) refl
plus_lem h (some sum) = refl

run-Holds : (hs : List Hit) → Holds (tally hs) (run hs new_combat_accumulator)
unfolding sum_of
run-Holds [] = record {
  apart = record {
    array = omega arith;
    used = λ t b f. absurd (cc);
    outside = λ t b f. absurd (cc);
    different = λ t u b f g. absurd (cc);
  };
  map = tt;
  no_pool = refl;
  sums = λ t. refl;
}
run-Holds (h ∷ hs) =
    subst (λ m. Holds m (run (h ∷ hs) new_combat_accumulator)) (fun_ext (λ t. one_more t))
      (add_damage-Holds h (tally hs) (run hs new_combat_accumulator) (run-Holds hs))
  where
    one_more :
        (t : Entity)
        → (if t == h.target
            then some (add_to h.damage h.threat (sum_of (tally hs h.target)))
            else tally hs t)
          ≡ tally (h ∷ hs) t
    one_more t =
        ap (λ b. if t == h.target then some b else tally hs t) (plus_lem h (tally hs h.target))

-- In the first tick of an accumulator, whatever the order of the loop over the map, `Flush` calls back with
-- every target that was hit, each with the sums of its hits as int64, and with no other.
pub first_flush_lem :
    (hs : List Hit) (spare : ℕ) (order : Batches)
    → Entries.IsMap order
    → ((t : Entity)
        → Entries.lookup t order ≡ Entries.lookup t (run hs new_combat_accumulator).batches)
    → (t : Entity)
    → Entries.lookup t (flush spare order (run hs new_combat_accumulator)).0 ≡ tally hs t
unfolding flush
first_flush_lem hs spare order map same t =
    let a = run hs new_combat_accumulator in
    let s = run-Holds hs in
    let apart : IsApart order a = record {
      array = s.apart.array;
      used = λ u b f. s.apart.used u b (sym (same u) ∙ f);
      outside = λ u b f. s.apart.outside u b (sym (same u) ∙ f);
      different = λ u v b f g. s.apart.different u v b (sym (same u) ∙ f) (sym (same v) ∙ g);
    } in
    flush_loop_sees spare order a map apart t ∙ ap (contents a.heap) (same t) ∙ s.sums t

pooled_batch :
    (t k : ℕ) (a : CombatAccumulator)
    → Entries.lookup t a.batches ≡ none
    → a.length ≡ suc k
    → batch_for t a ≡ (
      a.base + k,
      record a {
        length = k;
        heap = write (a.base + k) no_damage a.heap;
        batches = Entries.insert t (a.base + k) a.batches;
      },
    )
pooled_batch t k a e len = rw (batch_for, e, take_batch, len, some_left k, one_less k) refl
  where
    some_left : (k : ℕ) → ltb 0 (suc k) ≡ true
    some_left k = ground arith

    one_less : (k : ℕ) → suc k - 1 ≡ k
    one_less k = omega arith

pooled_damage :
    (t k : ℕ) (d : ℤ) (a : CombatAccumulator)
    → Entries.lookup t a.batches ≡ none
    → a.length ≡ suc k
    → add_damage t d (pos 0) a ≡ record a {
      length = k;
      heap = write (a.base + k) (add_to d (pos 0) no_damage) (write (a.base + k) no_damage a.heap);
      batches = Entries.insert t (a.base + k) a.batches;
    }
unfolding add_damage
pooled_damage t k d a e len = rw (add_damage, pooled_batch t k a e len, ==_refl (a.base + k)) refl

-- In a later tick the batches of two new targets come from the pool, and if the loop takes the first of them
-- first, recycling its batch clears the batch of the second: that target is called back with no damage.
pub second_flush_loses :
    (spare t u : ℕ) (d e : ℤ) (n : ℕ) (a : CombatAccumulator)
    → t ≢ u
    → a.batches ≡ []
    → a.length ≡ suc (suc n)
    → suc n < a.capacity
    → let a' = add_damage u e (pos 0) (add_damage t d (pos 0) a) in
      (flush spare ((t, a.base + suc n) ∷ (u, a.base + n) ∷ []) a').0
      ≡ (t, add_to d (pos 0) no_damage) ∷ (u, no_damage) ∷ []
unfolding flush flush_loop
second_flush_loses spare t u d e n a apart none_yet len room =
    rw
      (
        first,
        second,
        ==_ne (a.base + suc n) (a.base + n) (λ h. absurd (omega arith)),
        ==_refl (a.base + suc n),
        recycle_batch,
        append_pool,
        fits,
        ==_refl (a.base + n),
      )
      refl
  where
    a₁ : CombatAccumulator
    a₁ = record a {
      length = suc n;
      heap =
          write (a.base + suc n) (add_to d (pos 0) no_damage)
            (write (a.base + suc n) no_damage a.heap);
      batches = Entries.insert t (a.base + suc n) a.batches;
    }

    first : add_damage t d (pos 0) a ≡ a₁
    first = pooled_damage t (suc n) d a (rw none_yet refl) len

    second : add_damage u e (pos 0) a₁ ≡ record a₁ {
      length = n;
      heap = write (a.base + n) (add_to e (pos 0) no_damage) (write (a.base + n) no_damage a₁.heap);
      batches = Entries.insert u (a.base + n) a₁.batches;
    }
    second = pooled_damage u n e a₁ (rw (none_yet, ==_ne u t (λ h. apart (sym h))) refl) refl

    fits : ltb n a.capacity ≡ true
    fits = ground arith
