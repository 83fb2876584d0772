-- ===== src/Peakgo/Anticheat/Replays.antt =====
-- The window of sequence numbers over a sequence of packets (server/peakgo/anticheat/anticheat.go).
use mathlib.Core.Path.{subst}
use minnsun_s_adventure.Common.{
  ℕ, zero, suc, ◌+◌, ◌%◌, ◌≤◌, ◌<◌, ◌≡◌, ◌≢◌, sym, ap, ◌∙◌, inl, inr, ◌⊎◌, true, false, List, [],
  ◌∷◌, some, arith, length, get_elem?, set, replicate, length-set, get_elem?-set_self,
  get_elem?-set_ne, ℕ_discrete,
}
use minnsun_s_adventure.Peakgo.Anticheat.{
  Validator, no_validator, has_seq, validate_sequence, seq_window_size,
}

-- The validator after packets with the given sequence numbers.
abbrev pub run_sequence : List ℕ → Validator → Validator
run_sequence [] v = v
run_sequence (seq ∷ seqs) v = run_sequence seqs (validate_sequence seq v).0

-- A window of 32 entries, with its head inside.
abbrev pub IsWindow : Validator → Type 0
IsWindow v = (length v.seq_window ≡ seq_window_size) × (v.seq_head < seq_window_size)

has_seq-get : (xs : List ℕ) (i s : ℕ) → get_elem? xs i ≡ some s → has_seq s xs ≡ true
has_seq-get [] i s h = absurd (cc)
has_seq-get (x ∷ xs) zero s h = ground arith
has_seq-get (x ∷ xs) (suc i) s h = ground (arith, has_seq-get xs i s h)

has_seq-set :
    (xs : List ℕ) (i v s : ℕ) → has_seq s (set xs i v) ≡ true → (v ≡ s) ⊎ (has_seq s xs ≡ true)
has_seq-set [] i v s h = inr h
has_seq-set (x ∷ xs) zero v s h = ground arith
has_seq-set (x ∷ xs) (suc i) v s h = elim (ℕ_discrete x s) [
  | yes e ↦ inr (ground arith)
  | no n ↦ elim (has_seq-set xs i v s (ground arith)) [ inl e ↦ inl e | inr k ↦ inr (ground arith) ]
]

-- The number s stands in the window, at a place that the next c acceptances do not write.
Held : ℕ → ℕ → Validator → Type 0
Held s c v =
    (d : ℕ) × (c ≤ d)
    × (d < seq_window_size)
    × (get_elem? v.seq_window ((v.seq_head + d) % seq_window_size) ≡ some s)

-- The validator after the number seq is accepted.
abbrev pub with_seq : ℕ → Validator → Validator
with_seq seq v = record v {
  seq_window = set v.seq_window v.seq_head seq;
  seq_head = (v.seq_head + 1) % seq_window_size;
}

-- A packet either leaves the validator as it was, or is accepted.
step_cases :
    (seq : ℕ) (v : Validator)
    → ((validate_sequence seq v).0 ≡ v) ⊎ ((validate_sequence seq v).0 ≡ with_seq seq v)
unfolding validate_sequence
step_cases seq v = ground arith

accepted :
    (seq : ℕ) (v : Validator)
    → seq ≢ 0
    → (validate_sequence seq v).1 ≡ true
    → (validate_sequence seq v).0 ≡ with_seq seq v
unfolding validate_sequence
accepted seq v n h = ground arith

with_seq-IsWindow : (seq : ℕ) (v : Validator) → IsWindow v → IsWindow (with_seq seq v)
with_seq-IsWindow seq v (len, lt) = (length-set v.seq_window v.seq_head seq ∙ len, omega arith)

IsWindow-step : (seq : ℕ) (v : Validator) → IsWindow v → IsWindow (validate_sequence seq v).0
IsWindow-step seq v w = elim (step_cases seq v) [
  | inl e ↦ subst IsWindow (sym e) w
  | inr e ↦ subst IsWindow (sym e) (with_seq-IsWindow seq v w)
]

Held-with_seq : (s c seq : ℕ) (v : Validator) → Held s (suc c) v → Held s c (with_seq seq v)
unfolding Held
Held-with_seq s c seq v (zero, le, lt, is) = absurd (omega arith)
Held-with_seq s c seq v (suc d, le, lt, is) = (
  d,
  omega arith,
  omega arith,
  ap (λ i. get_elem? (set v.seq_window v.seq_head seq) i) (omega arith)
      ∙ get_elem?-set_ne v.seq_window v.seq_head ((v.seq_head + suc d) % seq_window_size) seq
          (λ e. omega arith)
      ∙ is,
)

Held-step :
    (s c seq : ℕ) (v : Validator)
    → IsWindow v
    → Held s (suc c) v
    → Held s c (validate_sequence seq v).0
unfolding Held
Held-step s c seq v (len, room) (d, le, lt, is) = elim (step_cases seq v) [
  | inl e ↦ subst (Held s c) (sym e) (d, omega arith, lt, is)
  | inr e ↦ subst (Held s c) (sym e) (Held-with_seq s c seq v (d, le, lt, is))
]

Held-run :
    (s : ℕ) (later : List ℕ) (v : Validator)
    → IsWindow v
    → Held s (length later) v
    → Held s 0 (run_sequence later v)
Held-run s [] v w h = h
Held-run s (seq ∷ later) v w h =
    Held-run s later (validate_sequence seq v).0 (IsWindow-step seq v w)
      (Held-step s (length later) seq v w h)

refused :
    (s : ℕ) (v : Validator)
    → s ≢ 0
    → has_seq s v.seq_window ≡ true
    → validate_sequence s v ≡ (v, false)
unfolding validate_sequence
refused s v n h = ground arith

Held-refused : (s : ℕ) (v : Validator) → s ≢ 0 → Held s 0 v → validate_sequence s v ≡ (v, false)
unfolding Held
Held-refused s v n (d, _, _, is) =
    refused s v n (has_seq-get v.seq_window ((v.seq_head + d) % seq_window_size) s is)

Held-first : (s : ℕ) (v : Validator) → IsWindow v → Held s 31 (with_seq s v)
unfolding Held
Held-first s v (len, room) = (
  31,
  omega arith,
  omega arith,
  ap (λ i. get_elem? (set v.seq_window v.seq_head s) i) (omega arith)
      ∙ get_elem?-set_self v.seq_window v.seq_head s (omega arith),
)

Held-less : (s c c' : ℕ) (v : Validator) → c' ≤ c → Held s c v → Held s c' v
unfolding Held
Held-less s c c' v le (d, le', lt, is) = (d, omega arith, lt, is)

-- A number other than 0 that is accepted is refused if it comes again after fewer than 32 packets.
pub no_replay :
    (s : ℕ) (later : List ℕ) (v : Validator)
    → IsWindow v
    → s ≢ 0
    → length later < 32
    → (validate_sequence s v).1 ≡ true
    → let w = run_sequence later (validate_sequence s v).0 in validate_sequence s w ≡ (w, false)
no_replay s later v w n few ok =
    let held = Held-less s 31 (length later) (with_seq s v) (omega arith) (Held-first s v w) in
    let run = Held-run s later (with_seq s v) (with_seq-IsWindow s v w) held in
    subst (λ u. validate_sequence s (run_sequence later u) ≡ (run_sequence later u, false))
      (sym (accepted s v n ok)) (Held-refused s (run_sequence later (with_seq s v)) n run)

has_seq-step :
    (s seq : ℕ) (v : Validator)
    → has_seq s (validate_sequence seq v).0.seq_window ≡ true
    → (seq ≡ s) ⊎ (has_seq s v.seq_window ≡ true)
has_seq-step s seq v h = elim (step_cases seq v) [
  | inl e ↦ inr (subst (λ u. has_seq s u.seq_window ≡ true) e h)
  | inr e ↦
      has_seq-set v.seq_window v.seq_head seq s (subst (λ u. has_seq s u.seq_window ≡ true) e h)
]

has_seq-run :
    (s : ℕ) (seqs : List ℕ) (v : Validator)
    → has_seq s (run_sequence seqs v).seq_window ≡ true
    → (has_seq s seqs ≡ true) ⊎ (has_seq s v.seq_window ≡ true)
has_seq-run s [] v h = inr h
has_seq-run s (seq ∷ seqs) v h = elim (has_seq-run s seqs (validate_sequence seq v).0 h) [
  | inl k ↦ inl (ground arith)
  | inr k ↦ elim (has_seq-step s seq v k) [ inl e ↦ inl (ground arith) | inr k' ↦ inr k' ]
]

refused_is_in :
    (s : ℕ) (v : Validator)
    → (validate_sequence s v).1 ≡ false
    → (has_seq s v.seq_window ≡ true) × (s ≢ 0)
unfolding validate_sequence
refused_is_in s v h = ground arith

-- On a new validator only a number that came before is refused.
pub refused_was_seen :
    (s : ℕ) (seqs : List ℕ)
    → (validate_sequence s (run_sequence seqs no_validator)).1 ≡ false
    → has_seq s seqs ≡ true
refused_was_seen s seqs h =
    let (found, n) = refused_is_in s (run_sequence seqs no_validator) h in
    elim (has_seq-run s seqs no_validator found) [ inl k ↦ k | inr k ↦ absurd (n (zeros 32 k)) ]
  where
    zeros : (k : ℕ) → has_seq s (replicate k 0) ≡ true → s ≡ 0
    zeros zero e = absurd (ground arith)
    zeros (suc k) e = elim (ℕ_discrete 0 s) [ yes e' ↦ sym e' | no n' ↦ zeros k (ground arith) ]
