-- ===== src/Config/Ordered.antt =====
-- The containers of sylar/config.h, rebuilt from their members.
use prozac.Prelude.{
  ℕ, ◌≡◌, refl, sym, ap, ◌∙◌, Bool, true, false, List, [], ◌∷◌, ◌++◌, arith, text_eq, All,
  All-append, append_assoc, append-nil, same_iff,
}
use prozac.Config.Casts.{fill, IsRebuilt, in_order, set_insert, ordered, text_less}
use prozac.Config.Trips.{keys, fresh, AreDistinct}

-- Vectors and lists are rebuilt from their members.
fill-in_order : {A : Type 0} (c rest : List A) → fill in_order c rest ≡ c ++ rest
fill-in_order c [] = sym (append-nil c)
fill-in_order c (a ∷ rest) = fill-in_order (c ++ a ∷ []) rest ∙ append_assoc c (a ∷ []) rest

pub in_order-IsRebuilt : {A : Type 0} (c : List A) → IsRebuilt in_order c
in_order-IsRebuilt c = fill-in_order [] c

-- Sets and maps are, when they are in order.
abbrev pub IsOrdered : {A : Type 0} → (A → A → Bool) → List A → Type 0
IsOrdered less [] = Unit
IsOrdered less (a ∷ rest) = All (λ b. less a b ≡ true) rest × IsOrdered less rest

module _ {A : Type 0} (less : A → A → Bool) where
  set_insert_last :
      (c : List A) (a : A) → All (λ b. less b a ≡ true) c → set_insert less a c ≡ c ++ a ∷ []
  unfolding set_insert
  set_insert_last [] a h = refl
  set_insert_last (b ∷ c) a h = rw h.0 (ap (◌∷◌ b) (set_insert_last c a h.1))

  -- Every member of the first list is before every one of the second.
  abbrev AreBefore : List A → List A → Type 0
  AreBefore c rest = All (λ a. All (λ b. less b a ≡ true) c) rest

  AreBefore-put :
      (c : List A) (a : A) (rest : List A)
      → AreBefore c rest
      → All (λ b. less a b ≡ true) rest
      → AreBefore (c ++ a ∷ []) rest
  AreBefore-put c a [] h k = tt
  AreBefore-put c a (b ∷ rest) h k =
      (All-append (λ z. less z b ≡ true) c (a ∷ []) h.0 (k.0, tt), AreBefore-put c a rest h.1 k.1)

  fill-ordered :
      (c rest : List A)
      → AreBefore c rest
      → IsOrdered less rest
      → fill (ordered less) c rest ≡ c ++ rest
  fill-ordered c [] h o = sym (append-nil c)
  fill-ordered c (a ∷ rest) h o =
      ap (λ d. fill (ordered less) d rest) (set_insert_last c a h.0)
      ∙ fill-ordered (c ++ a ∷ []) rest (AreBefore-put c a rest h.1 o.0) o.1
      ∙ append_assoc c (a ∷ []) rest

  nothing_before : (rest : List A) → AreBefore [] rest
  nothing_before [] = tt
  nothing_before (a ∷ rest) = (tt, nothing_before rest)

  pub ordered-IsRebuilt : (c : List A) → IsOrdered less c → IsRebuilt (ordered less) c
  ordered-IsRebuilt c o = fill-ordered [] c (nothing_before c) o

text_less_self : (s : List ℕ) → text_less s s ≡ false
text_less_self [] = refl
text_less_self (c ∷ s) = ground (arith, text_less_self s)

-- The keys of a map in order are distinct.
pub IsOrdered-AreDistinct :
    {A : Type 0} (m : List (List ℕ × A))
    → IsOrdered (λ x z. text_less x.0 z.0) m
    → AreDistinct (keys m)
IsOrdered-AreDistinct [] o = tt
IsOrdered-AreDistinct {A = A} ((k, x) ∷ m) o = (all_after m o.0, IsOrdered-AreDistinct m o.1)
  where
    all_after :
        (m : List (List ℕ × A)) → All (λ z. text_less k z.0 ≡ true) m → fresh k (keys m) ≡ true
    all_after [] h = refl
    all_after ((j, v) ∷ m) h = ground (arith, all_after m h.1, h.0, same_iff j k, text_less_self k)
