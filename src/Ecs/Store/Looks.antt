-- ===== src/Ecs/Store/Looks.antt =====
-- What a look into a store finds once a value is set or appended (server/ecs/ecs.go).
use minnsun_s_adventure.Common.{
  ℕ, zero, suc, ◌≡◌, ◌≢◌, refl, sym, some, List, [], ◌∷◌, ◌++◌, arith, length, get_elem?, set, inl,
  inr, Bool-cases, ==_refl, get_elem?-some_lt, get_elem?-append_left, get_elem?-append_length,
  get_elem?-set_ne,
}
use minnsun_s_adventure.Ecs.Store.{Entity, dense_is}
use minnsun_s_adventure.Ecs.Store.Lookup.{look, dense_is→at}

dense_is-append_ne :
    (dense : List Entity) (i : ℕ) (id j : Entity)
    → j ≢ id
    → dense_is (dense ++ id ∷ []) i j ≡ dense_is dense i j
dense_is-append_ne [] zero id j ne = ground arith
dense_is-append_ne [] (suc i) id j ne = refl
dense_is-append_ne (e ∷ dense) zero id j ne = refl
dense_is-append_ne (e ∷ dense) (suc i) id j ne = dense_is-append_ne dense i id j ne

module _ {T : Type 0} where
  pub look-set_ne :
      (dense : List Entity) (values : List T) (i c : ℕ) (id j : Entity) (v : T)
      → get_elem? dense i ≡ some id
      → j ≢ id
      → look dense (set values i v) c j ≡ look dense values c j
  unfolding look
  look-set_ne dense values i zero id j v e ne = refl
  look-set_ne dense values i (suc k) id j v e ne = elim (Bool-cases (dense_is dense k j)) [
    | inl same ↦
        rw same (get_elem?-set_ne values i k v (λ q. ground (arith, dense_is→at dense k j same)))
    | inr other ↦ rw other
  ]

  pub look-append_ne :
      (dense : List Entity) (values : List T) (c : ℕ) (id j : Entity) (v : T)
      → length values ≡ length dense
      → j ≢ id
      → look (dense ++ id ∷ []) (values ++ v ∷ []) c j ≡ look dense values c j
  unfolding look
  look-append_ne dense values zero id j v al ne = refl
  look-append_ne dense values (suc i) id j v al ne = elim (Bool-cases (dense_is dense i j)) [
    | inl same ↦
        rw (dense_is-append_ne dense i id j ne, same)
          ((get_elem?-append_left values (v ∷ []) i
            (omega (arith, get_elem?-some_lt dense i (dense_is→at dense i j same)))))
    | inr other ↦ rw (dense_is-append_ne dense i id j ne, other)
  ]

  pub look-append_self :
      (dense : List Entity) (values : List T) (id : Entity) (v : T)
      → length values ≡ length dense
      → look (dense ++ id ∷ []) (values ++ v ∷ []) (suc (length dense)) id ≡ some v
  unfolding look
  look-append_self dense values id v al =
      rw (get_elem?-append_length dense (id ∷ []) (length dense) refl, ==_refl id, dense_is)
        (get_elem?-append_length values (v ∷ []) (length dense) (sym al))
