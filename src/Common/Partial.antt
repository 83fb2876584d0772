-- ===== src/Common/Partial.antt =====
-- Chains of steps of which any may panic, which is `none`.
use mathlib.Core.Path.{◌≡◌, refl}
use mathlib.Core.Option.{Option, none, some}
use mathlib.Core.Bool.{Bool, true, false}
use minnsun_s_adventure.Common.{if◌then◌else◌}

infixl 5 ◌>>=◌
abbrev pub ◌>>=◌ {ℓ κ} : {A : Type ℓ} {B : Type κ} → Option A → (A → Option B) → Option B
none >>= f = none
some a >>= f = f a

-- The computation does not panic, and its result satisfies P.
abbrev pub Gives {ℓ κ} : {A : Type ℓ} → (A → Type κ) → Option A → Type (ℓ ⊔ κ)
Gives {A} P o = (a : A) × (o ≡ some a) × P a

pub Gives-some {ℓ κ} : {A : Type ℓ} {P : A → Type κ} (a : A) → P a → Gives P (some a)
Gives-some a p = (a, refl, p)

pub Gives-map {ℓ κ μ} :
    {A : Type ℓ} {P : A → Type κ} {Q : A → Type μ} {o : Option A}
    → Gives P o
    → ((a : A) → P a → Q a)
    → Gives Q o
Gives-map (a, is, p) f = (a, is, f a p)

pub Gives-bind {ℓ κ μ ν} :
    {A : Type ℓ} {B : Type κ} {P : A → Type μ} {Q : B → Type ν} {o : Option A} {f : A → Option B}
    → Gives P o
    → ((a : A) → P a → Gives Q (f a))
    → Gives Q (o >>= f)
Gives-bind (a, is, p) next = rw is (next a p)

pub Gives-if {ℓ κ} :
    {A : Type ℓ} {P : A → Type κ} (b : Bool) {x y : Option A}
    → (b ≡ true → Gives P x)
    → (b ≡ false → Gives P y)
    → Gives P (if b then x else y)
Gives-if true f g = f refl
Gives-if false f g = g refl

pub Gives-elim {ℓ κ μ} :
    {A : Type ℓ} {V : Type κ} {P : A → Type μ} {x : Option A} {f : V → Option A} (o : Option V)
    → (o ≡ none → Gives P x)
    → ((v : V) → o ≡ some v → Gives P (f v))
    → Gives P (elim o [ none ↦ x | some v ↦ f v ])
Gives-elim none g h = g refl
Gives-elim (some v) g h = h v refl
