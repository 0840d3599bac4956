-- ===== src/Prelude/Lists.antt =====
-- Lists measured and searched by native numbers, and the predicate that holds of every member.
use Prim.Native.Nat.{ℕ, zero, suc, ◌+◌, ◌<◌}
use mathlib.Core.Path.{◌≡◌, refl, ap, sym, subst}
use mathlib.Core.Logic.{◌⊎◌, ◌↔◌, inl, inr}
use mathlib.Core.Bool.{Bool, false, ◌||◌}
use mathlib.Core.Option.{Option, none, some}
use mathlib.Core.List.{List, [], ◌∷◌, ◌++◌}
use native.Mathlib.Omega.{arith}
use prozac.Prelude.Tests.{◌==◌}

module _ {ℓ} {A : Type ℓ} where
  abbrev pub length : List A → ℕ
  length [] = 0
  length (x ∷ xs) = suc (length xs)

  pub length-append : (xs ys : List A) → length (xs ++ ys) ≡ length xs + length ys
  length-append [] ys = omega arith
  length-append (x ∷ xs) ys = omega (arith, length-append xs ys)

  abbrev pub All {κ} : (A → Type κ) → List A → Type κ
  All P [] = Unit
  All P (x ∷ xs) = P x × All P xs

  pub All-append {κ} : (P : A → Type κ) (xs ys : List A) → All P xs → All P ys → All P (xs ++ ys)
  All-append P [] ys hx hy = hy
  All-append P (x ∷ xs) ys hx hy = (hx.0, All-append P xs ys hx.1 hy)

-- Membership of an address in a list of addresses.
abbrev pub contains : ℕ → List ℕ → Bool
contains a [] = false
contains a (b ∷ bs) = a == b || contains a bs

module _ {ℓ} {A : Type ℓ} where
  abbrev pub get_elem? : List A → ℕ → Option A
  get_elem? [] i = none
  get_elem? (x ∷ xs) zero = some x
  get_elem? (x ∷ xs) (suc i) = get_elem? xs i

  abbrev pub set : List A → ℕ → A → List A
  set [] i v = []
  set (x ∷ xs) zero v = v ∷ xs
  set (x ∷ xs) (suc i) v = x ∷ set xs i v

  pub length-set : (xs : List A) (i : ℕ) (v : A) → length (set xs i v) ≡ length xs
  length-set [] i v = refl
  length-set (x ∷ xs) zero v = refl
  length-set (x ∷ xs) (suc i) v = ap suc (length-set xs i v)

  pub get_elem?-set_self :
      (xs : List A) (i : ℕ) (u v : A) → get_elem? xs i ≡ some u → get_elem? (set xs i v) i ≡ some v
  get_elem?-set_self [] i u v h = cc
  get_elem?-set_self (x ∷ xs) zero u v h = refl
  get_elem?-set_self (x ∷ xs) (suc i) u v h = get_elem?-set_self xs i u v h

  pub get_elem?-lt : (xs : List A) (i : ℕ) (u : A) → get_elem? xs i ≡ some u → i < length xs
  get_elem?-lt [] i u h = cc
  get_elem?-lt (x ∷ xs) zero u h = omega arith
  get_elem?-lt (x ∷ xs) (suc i) u h = omega (arith, get_elem?-lt xs i u h)

  pub All-set {κ} :
      (P : A → Type κ) (xs : List A) (i : ℕ) (x : A) → All P xs → P x → All P (set xs i x)
  All-set P [] i x h k = tt
  All-set P (y ∷ xs) zero x h k = (k, h.1)
  All-set P (y ∷ xs) (suc i) x h k = (h.0, All-set P xs i x h.1 k)

  pub All-get_elem? {κ} :
      (P : A → Type κ) (xs : List A) (i : ℕ) (x : A) → All P xs → get_elem? xs i ≡ some x → P x
  All-get_elem? P [] i x h at = cc
  All-get_elem? P (y ∷ xs) zero x h at = subst P (cc) h.0
  All-get_elem? P (y ∷ xs) (suc i) x h at = All-get_elem? P xs i x h.1 at

module _ {A : Type 0} where
  abbrev pub In : A → List A → Type 0
  In a [] = ⊥
  In a (b ∷ rest) = (a ≡ b) ⊎ In a rest

  pub In-append_left : (a : A) (xs ys : List A) → In a xs → In a (xs ++ ys)
  In-append_left a [] ys h = absurd h
  In-append_left a (x ∷ xs) ys (inl e) = inl e
  In-append_left a (x ∷ xs) ys (inr h) = inr (In-append_left a xs ys h)

  pub In-append_right : (a : A) (xs ys : List A) → In a ys → In a (xs ++ ys)
  In-append_right a [] ys h = h
  In-append_right a (x ∷ xs) ys h = inr (In-append_right a xs ys h)

  pub In-append_cases : (a : A) (xs ys : List A) → In a (xs ++ ys) → In a xs ⊎ In a ys
  In-append_cases a [] ys h = inr h
  In-append_cases a (x ∷ xs) ys (inl e) = inl (inl e)
  In-append_cases a (x ∷ xs) ys (inr h) = elim (In-append_cases a xs ys h) [
    | inl k ↦ inl (inr k)
    | inr k ↦ inr k
  ]

  pub All-In {κ} : (P : A → Type κ) (xs : List A) (a : A) → All P xs → In a xs → P a
  All-In P [] a p h = absurd h
  All-In P (x ∷ xs) a p (inl e) = subst P (sym e) p.0
  All-In P (x ∷ xs) a p (inr h) = All-In P xs a p.1 h

-- The lists that a function gives for the members, one after another.
module _ {A B : Type 0} where
  abbrev pub concat_map : (A → List B) → List A → List B
  concat_map f [] = []
  concat_map f (x ∷ xs) = f x ++ concat_map f xs

  pub In-concat_map :
      (f : A → List B) (xs : List A) (b : B)
      → In b (concat_map f xs) ↔ ((a : A) × In a xs × In b (f a))
  In-concat_map f xs b = (found xs, λ (a, h, k). back xs a h k)
    where
      found : (xs : List A) → In b (concat_map f xs) → (a : A) × In a xs × In b (f a)
      found [] h = absurd h
      found (x ∷ xs) h = elim (In-append_cases b (f x) (concat_map f xs) h) [
        | inl k ↦ (x, inl refl, k)
        | inr k ↦ let (a, m, r) = found xs k in (a, inr m, r)
      ]

      back : (xs : List A) (a : A) → In a xs → In b (f a) → In b (concat_map f xs)
      back [] a h k = absurd h
      back (x ∷ xs) a (inl e) k =
          In-append_left b (f x) (concat_map f xs) (subst (λ z. In b (f z)) e k)
      back (x ∷ xs) a (inr h) k = In-append_right b (f x) (concat_map f xs) (back xs a h k)
