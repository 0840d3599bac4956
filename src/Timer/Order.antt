-- ===== src/Timer/Order.antt =====
-- The comparator of sylar/timer.cpp as an order, and the list that stands for the ordered set.
use prozac.Prelude.{
  ℕ, ◌≡◌, ◌⊎◌, refl, ◌∙◌, true, false, not, ◌&&◌, ◌||◌, Option, none, some, List, [], ◌∷◌, ◌≤◌,
  arith, All, contains, ◌==◌, update, Bool-cases, inl, inr, ap,
}
use prozac.Timer.{Timer, before, compare_ptr, insert, find, erase}

abbrev pub IsSorted : (ℕ → Timer) → List ℕ → Type 0
IsSorted h [] = Unit {0}
IsSorted h (a ∷ rest) = All (λ b. before h a b ≡ true) rest × IsSorted h rest

module _ (h : ℕ → Timer) where
  before_trans : (a b c : ℕ) → before h a b ≡ true → before h b c ≡ true → before h a c ≡ true
  unfolding before
  before_trans a b c p q = ground arith

  before_asymm : (a b : ℕ) → before h a b ≡ true → before h b a ≡ false
  unfolding before
  before_asymm a b p = ground arith

  before_total : (a b : ℕ) → before h a b ≡ false → before h b a ≡ false → a ≡ b
  unfolding before
  before_total a b p q = ground arith

  pub before_irrefl : (a b : ℕ) → before h a b ≡ true → (a == b) ≡ false
  unfolding before
  before_irrefl a b p = ground arith

  pub before-le : (a b : ℕ) → before h a b ≡ true → (h a).next ≤ (h b).next
  unfolding before
  before-le a b p = ground arith

  All-before_trans :
      (a b : ℕ) (rest : List ℕ)
      → before h a b ≡ true
      → All (λ c. before h b c ≡ true) rest
      → All (λ c. before h a c ≡ true) rest
  All-before_trans a b [] p q = tt
  All-before_trans a b (c ∷ rest) p q = (before_trans a b c p q.0, All-before_trans a b rest p q.1)

  pub contains_below :
      (a : ℕ) (rest : List ℕ) → All (λ c. before h a c ≡ true) rest → contains a rest ≡ false
  contains_below a [] p = refl
  contains_below a (c ∷ rest) p = ground (arith, before_irrefl a c, contains_below a rest p.1)

  contains_above :
      (a b : ℕ) (rest : List ℕ)
      → before h a b ≡ true
      → All (λ c. before h b c ≡ true) rest
      → contains a rest ≡ false
  contains_above a b rest p q = contains_below a rest (All-before_trans a b rest p q)

  -- What `find` finds in an ordered set is the pointer itself.
  pub find-contains : (a : ℕ) (xs : List ℕ) → IsSorted h xs → find h a xs ≡ contains a xs
  unfolding find
  find-contains a [] s = refl
  find-contains a (b ∷ rest) s = ground (
    arith,
    find-contains a rest s.1,
    contains_above a b rest,
    contains_below a rest,
    before_irrefl b a,
    before_irrefl a b,
    before_total a b,
    before_asymm b a,
    s.0,
  )

  pub contains-insert :
      (c a : ℕ) (xs : List ℕ) → contains c (insert h a xs) ≡ (c == a) || contains c xs
  unfolding insert
  contains-insert c a [] = refl
  contains-insert c a (b ∷ rest) = ground (arith, contains-insert c a rest, before_total a b)

  pub contains-erase :
      (c a : ℕ) (xs : List ℕ)
      → IsSorted h xs
      → contains c (erase h a xs) ≡ contains c xs && not (c == a)
  unfolding erase
  contains-erase c a [] s = refl
  contains-erase c a (b ∷ rest) s = ground (
    arith,
    contains-erase c a rest s.1,
    contains_above a b rest,
    contains_below a rest,
    before_irrefl b a,
    before_irrefl a b,
    before_total a b,
    before_asymm b a,
    s.0,
  )

  All-insert {κ} : (P : ℕ → Type κ) (a : ℕ) (xs : List ℕ) → P a → All P xs → All P (insert h a xs)
  unfolding insert
  All-insert P a [] p q = (p, tt)
  All-insert P a (b ∷ rest) p q = ground (arith, All-insert P a rest p q.1)

  All-erase {κ} : (P : ℕ → Type κ) (a : ℕ) (xs : List ℕ) → All P xs → All P (erase h a xs)
  unfolding erase
  All-erase P a [] q = tt
  All-erase P a (b ∷ rest) q = ground (arith, All-erase P a rest q.1)

  pub insert-IsSorted : (a : ℕ) (xs : List ℕ) → IsSorted h xs → IsSorted h (insert h a xs)
  unfolding insert
  insert-IsSorted a [] s = (tt, tt)
  insert-IsSorted a (b ∷ rest) s = ground (
    arith,
    insert-IsSorted a rest s.1,
    All-insert (λ c. before h b c ≡ true) a rest,
    All-before_trans a b rest,
    before_asymm b a,
  )

  pub erase-IsSorted : (a : ℕ) (xs : List ℕ) → IsSorted h xs → IsSorted h (erase h a xs)
  unfolding erase
  erase-IsSorted a [] s = tt
  erase-IsSorted a (b ∷ rest) s =
      ground (arith, erase-IsSorted a rest s.1, All-erase (λ c. before h b c ≡ true) a rest)

-- A write to a timer that is not in the set does not move those that are.
All-before-update :
    (h : ℕ → Timer) (a : ℕ) (t : Timer) (b : ℕ) (xs : List ℕ)
    → contains a xs ≡ false
    → (b == a) ≡ false
    → All (λ c. before h b c ≡ true) xs
    → All (λ c. before (update h a t) b c ≡ true) xs
unfolding before
All-before-update h a t b [] p q s = tt
All-before-update h a t b (c ∷ rest) p q s = ground (arith, All-before-update h a t b rest, s.0)

pub update-IsSorted :
    (h : ℕ → Timer) (a : ℕ) (t : Timer) (xs : List ℕ)
    → contains a xs ≡ false
    → IsSorted h xs
    → IsSorted (update h a t) xs
update-IsSorted h a t [] p s = tt
update-IsSorted h a t (b ∷ rest) p s =
    ground (arith, update-IsSorted h a t rest, All-before-update h a t b rest, s)

-- Nor does a write that leaves the time as it is.
before-update_same :
    (h : ℕ → Timer) (a : ℕ) (t : Timer) (b c : ℕ)
    → t.next ≡ (h a).next
    → before (update h a t) b c ≡ before h b c
unfolding before
before-update_same h a t b c e = ground (arith, e)

All-before-update_same :
    (h : ℕ → Timer) (a : ℕ) (t : Timer) (b : ℕ) (xs : List ℕ)
    → t.next ≡ (h a).next
    → All (λ c. before h b c ≡ true) xs
    → All (λ c. before (update h a t) b c ≡ true) xs
All-before-update_same h a t b [] e s = tt
All-before-update_same h a t b (c ∷ rest) e s =
    (before-update_same h a t b c e ∙ s.0, All-before-update_same h a t b rest e s.1)

pub update_same-IsSorted :
    (h : ℕ → Timer) (a : ℕ) (t : Timer) (xs : List ℕ)
    → t.next ≡ (h a).next
    → IsSorted h xs
    → IsSorted (update h a t) xs
update_same-IsSorted h a t [] e s = tt
update_same-IsSorted h a t (b ∷ rest) e s =
    (All-before-update_same h a t b rest e s.0, update_same-IsSorted h a t rest e s.1)

-- Of two pointers, null among them, the comparator puts exactly one first, or they are equal.
pub compare_ptr-trichotomy :
    (h : ℕ → Timer) (a b : Option ℕ)
    → ((compare_ptr h a b ≡ true) × (compare_ptr h b a ≡ false))
      ⊎ ((compare_ptr h a b ≡ false) × (compare_ptr h b a ≡ true))
      ⊎ ((a ≡ b) × (compare_ptr h a b ≡ false) × (compare_ptr h b a ≡ false))
unfolding compare_ptr
compare_ptr-trichotomy h none none = inr (inr (refl, refl, refl))
compare_ptr-trichotomy h none (some b) = inl (refl, refl)
compare_ptr-trichotomy h (some a) none = inr (inl (refl, refl))
compare_ptr-trichotomy h (some a) (some b) = elim (Bool-cases (before h a b)) [
  | inl first ↦ inl (first, before_asymm h a b first)
  | inr later ↦ elim (Bool-cases (before h b a)) [
    | inl last ↦ inr (inl (later, last))
    | inr same ↦ inr (inr (ap some (before_total h a b later same), later, same))
  ]
]
