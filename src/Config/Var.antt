-- ===== src/Config/Var.antt =====
-- Changes of a variable of sylar/config.h and the calls of its listeners.
use prozac.Prelude.{
  ℕ, ◌+◌, ◌%◌, ◌^◌, ◌≡◌, ◌≢◌, refl, ap, sym, if◌then◌else◌, not, ◌&&◌, ◌||◌, List, [], ◌∷◌, ◌++◌,
  arith, ◌==◌, Eq, map, contains, All, inl, inr, Bool-cases,
}
use prozac.Config.{
  ConfigVar, Call, call_all, set_value, add_listener, erase, del_listener, get_listener,
}

module _ {ℓ} {A : Type ℓ} where
  call_all-listeners :
      (is : List ℕ) (x y : A) → map (λ (c : Call A). c.listener) (call_all is x y) ≡ is
  unfolding call_all
  call_all-listeners [] x y = refl
  call_all-listeners (i ∷ is) x y = ap (◌∷◌ i) (call_all-listeners is x y)

  call_all-values :
      (is : List ℕ) (x y : A) → All (λ (c : Call A). (c.old ≡ x) × (c.new ≡ y)) (call_all is x y)
  unfolding call_all
  call_all-values [] x y = tt
  call_all-values (i ∷ is) x y = ((refl, refl), call_all-values is x y)

  pub set_value_lem :
      ⦃e : Eq A⦄ (v : A) (x : ConfigVar A)
      → ((set_value v x).0 ≡ record x { val = v })
        × (map (λ (c : Call A). c.listener) (set_value v x).1
            ≡ (if e.beq v x.val then [] else x.cbs))
  unfolding set_value
  set_value_lem ⦃e⦄ v x = elim (Bool-cases (e.beq v x.val)) [
    | inl t ↦ rw t (ap (λ u. record x { val = u }) (sym ((e.beq_iff v x.val).0 t)), refl)
    | inr t ↦ rw t (refl, call_all-listeners x.cbs x.val v)
  ]

  -- Setting another value calls each listener once, in the order of their ids, with the old value and
  -- the new one, and the variable then has the new one.
  pub set_value_changes :
      ⦃e : Eq A⦄ (v : A) (x : ConfigVar A)
      → v ≢ x.val
      → ((set_value v x).0 ≡ record x { val = v })
        × (map (λ (c : Call A). c.listener) (set_value v x).1 ≡ x.cbs)
        × All (λ (c : Call A). (c.old ≡ x.val) × (c.new ≡ v)) (set_value v x).1
  unfolding set_value
  set_value_changes ⦃e⦄ v x d = elim (Bool-cases (e.beq v x.val)) [
    | inl t ↦ absurd (d ((e.beq_iff v x.val).0 t))
    | inr t ↦ rw t (refl, call_all-listeners x.cbs x.val v, call_all-values x.cbs x.val v)
  ]

  -- Setting a value twice calls no listener the second time and changes nothing more.
  pub set_value_twice :
      ⦃e : Eq A⦄ (v : A) (x : ConfigVar A) → set_value v (set_value v x).0 ≡ ((set_value v x).0, [])
  unfolding set_value
  set_value_twice ⦃e⦄ v x = ground (arith, e.beq_iff v v, e.beq_iff v x.val)

contains-append : (i j : ℕ) (is : List ℕ) → contains i (is ++ j ∷ []) ≡ (contains i is || i == j)
contains-append i j [] = ground arith
contains-append i j (k ∷ is) = ground (arith, contains-append i j is)

contains-erase : (i j : ℕ) (is : List ℕ) → contains j (erase i is) ≡ (not (j == i) && contains j is)
unfolding erase
contains-erase i j [] = ground arith
contains-erase i j (k ∷ is) = ground (arith, contains-erase i j is)

-- Adding a listener makes the one of its id found, and deleting one makes just that one not found; any
-- other is as it was.
pub get_listener_lem {ℓ} :
    {A : Type ℓ} (n i j : ℕ) (x : ConfigVar A)
    → (get_listener j (add_listener n x).1 ≡ (get_listener j x || j == (add_listener n x).0))
      × (get_listener j (del_listener i x) ≡ (not (j == i) && get_listener j x))
unfolding get_listener add_listener del_listener
get_listener_lem n i j x = (contains-append j ((n + 1) % 2 ^ 64) x.cbs, contains-erase i j x.cbs)
