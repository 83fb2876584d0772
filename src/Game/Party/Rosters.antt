-- ===== src/Game/Party/Rosters.antt =====
-- Rosters: the members of a party, each once (server/game/party.go).
use minnsun_s_adventure.Common.{
  ◌≤◌, ◌≡◌, ◌≢◌, refl, sym, ap, ◌∙◌, inl, inr, ◌⊎◌, true, false, List, [], ◌∷◌, ◌++◌, arith, ◌==◌,
  if◌then◌else◌, length, Bool-cases, ==→eq, ==→ne,
}
use mathlib.Core.Path.{subst}
use minnsun_s_adventure.Ecs.Entity.{Entity}
use minnsun_s_adventure.Game.Party.{without}

unfoldable pub IsMember : Entity → List Entity → Type 0
IsMember q [] = ⊥
IsMember q (x ∷ xs) = (q ≡ x) ⊎ IsMember q xs

unfoldable pub IsRoster : List Entity → Type 0
unfolding IsMember
IsRoster [] = Unit
IsRoster (x ∷ xs) = (IsMember x xs → ⊥) × IsRoster xs

pub IsMember-append :
    (q x : Entity) (xs : List Entity) → IsMember q (xs ++ (x ∷ [])) → IsMember q xs ⊎ (q ≡ x)
unfolding IsMember
IsMember-append q x [] (inl e) = inr e
IsMember-append q x [] (inr h) = absurd h
IsMember-append q x (y ∷ ys) (inl e) = inl (inl e)
IsMember-append q x (y ∷ ys) (inr h) = elim (IsMember-append q x ys h) [
  | inl i ↦ inl (inr i)
  | inr e ↦ inr e
]

pub append-IsMember :
    (q x : Entity) (xs : List Entity) → IsMember q xs → IsMember q (xs ++ (x ∷ []))
unfolding IsMember
append-IsMember q x [] m = elim m [ ]
append-IsMember q x (y ∷ ys) (inl e) = inl e
append-IsMember q x (y ∷ ys) (inr h) = inr (append-IsMember q x ys h)

pub append-IsMember_last : (x : Entity) (xs : List Entity) → IsMember x (xs ++ (x ∷ []))
unfolding IsMember
append-IsMember_last x [] = inl refl
append-IsMember_last x (y ∷ ys) = inr (append-IsMember_last x ys)

pub append-IsRoster :
    (x : Entity) (xs : List Entity) → (IsMember x xs → ⊥) → IsRoster xs → IsRoster (xs ++ (x ∷ []))
unfolding IsMember IsRoster
append-IsRoster x [] new h = ((λ m. m), tt)
append-IsRoster x (y ∷ ys) new (apart, h) = (
  (λ m. elim (IsMember-append y x ys m) [ inl i ↦ apart i | inr e ↦ new (inl (sym e)) ]),
  append-IsRoster x ys (λ m. new (inr m)) h,
)

module _ (x y : Entity) (ys : List Entity) where
  without_hit : (y == x) ≡ true → without x (y ∷ ys) ≡ without x ys
  without_hit e = ap (λ b. if b then without x ys else y ∷ without x ys) e

  without_miss : (y == x) ≡ false → without x (y ∷ ys) ≡ y ∷ without x ys
  without_miss e = ap (λ b. if b then without x ys else y ∷ without x ys) e

pub IsMember-without :
    (q x : Entity) (xs : List Entity) → IsMember q (without x xs) → IsMember q xs × (q ≢ x)
unfolding IsMember
IsMember-without q x [] m = elim m [ ]
IsMember-without q x (y ∷ ys) m = elim (Bool-cases (y == x)) [
  | inl e ↦
      let (i, ne) = IsMember-without q x ys (subst (IsMember q) (without_hit x y ys e) m) in
      (inr i, ne)
  | inr e ↦ elim (subst (IsMember q) (without_miss x y ys e) m) [
    | inl same ↦ (inl same, λ f. ==→ne y x e (sym same ∙ f))
    | inr h ↦ let (i, ne) = IsMember-without q x ys h in (inr i, ne)
  ]
]

pub without-IsMember :
    (q x : Entity) (xs : List Entity) → IsMember q xs → q ≢ x → IsMember q (without x xs)
unfolding IsMember
without-IsMember q x [] m ne = elim m [ ]
without-IsMember q x (y ∷ ys) m ne = elim (Bool-cases (y == x)) [
  | inl e ↦ rw e (elim m [
    | inl same ↦ absurd (ne (same ∙ ==→eq y x e))
    | inr i ↦ without-IsMember q x ys i ne
  ])
  | inr e ↦ rw e (elim m [ inl same ↦ inl same | inr i ↦ inr (without-IsMember q x ys i ne) ])
]

pub without-IsRoster : (x : Entity) (xs : List Entity) → IsRoster xs → IsRoster (without x xs)
unfolding IsMember IsRoster
without-IsRoster x [] h = tt
without-IsRoster x (y ∷ ys) (apart, h) = elim (Bool-cases (y == x)) [
  | inl e ↦ rw e (without-IsRoster x ys h)
  | inr e ↦ rw e ((λ m. apart (IsMember-without y x ys m).0), without-IsRoster x ys h)
]

pub length-without : (x : Entity) (xs : List Entity) → length (without x xs) ≤ length xs
length-without x [] = omega arith
length-without x (y ∷ ys) = ground (arith, length-without x ys)
