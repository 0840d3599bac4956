-- ===== src/Env/Helps.antt =====
-- The help texts of sylar/env.cpp.
use prozac.Prelude.{
  ℕ, ◌≡◌, refl, false, List, [], ◌∷◌, ◌++◌, arith, same, same_iff, All, All-append, Bool-cases, inl,
  inr,
}
use prozac.Env.{remove_help, add_help}

abbrev pub Lacks : List ℕ → List (List ℕ × List ℕ) → Type 0
Lacks k hs = All (λ h. same h.0 k ≡ false) hs

-- No key has two texts.
abbrev pub IsDistinct : List (List ℕ × List ℕ) → Type 0
IsDistinct [] = Unit
IsDistinct ((k, d) ∷ hs) = Lacks k hs × IsDistinct hs

remove_help-Lacks : (k : List ℕ) (hs : List (List ℕ × List ℕ)) → Lacks k (remove_help k hs)
remove_help-Lacks k [] = tt
remove_help-Lacks k ((j, d) ∷ hs) = elim (Bool-cases (same j k)) [
  | inl e ↦ ground (arith, e, remove_help-Lacks k hs)
  | inr e ↦ ground (arith, e, remove_help-Lacks k hs)
]

remove_help_keeps :
    (k j : List ℕ) (hs : List (List ℕ × List ℕ)) → Lacks j hs → Lacks j (remove_help k hs)
remove_help_keeps k j [] h = tt
remove_help_keeps k j ((i, d) ∷ hs) h = ground (arith, h, remove_help_keeps k j hs h.1)

remove_help-IsDistinct :
    (k : List ℕ) (hs : List (List ℕ × List ℕ)) → IsDistinct hs → IsDistinct (remove_help k hs)
remove_help-IsDistinct k [] h = tt
remove_help-IsDistinct k ((i, d) ∷ hs) h =
    ground (arith, h, remove_help_keeps k i hs h.0, remove_help-IsDistinct k hs h.1)

IsDistinct-append :
    (hs : List (List ℕ × List ℕ)) (k d : List ℕ)
    → IsDistinct hs
    → Lacks k hs
    → IsDistinct (hs ++ (k, d) ∷ [])
IsDistinct-append [] k d h l = (tt, tt)
IsDistinct-append ((j, c) ∷ hs) k d h l = (
  All-append (λ x. same x.0 j ≡ false) hs ((k, d) ∷ []) h.0
      (ground (arith, l, same_iff k j, same_iff j k), tt),
  IsDistinct-append hs k d h.1 l.1,
)

-- Adding a help text puts it at the end in place of any that its key had, so no key has two.
pub add_help-IsDistinct :
    (k d : List ℕ) (hs : List (List ℕ × List ℕ))
    → IsDistinct hs
    → IsDistinct (add_help k d hs)
      × ((rest : List (List ℕ × List ℕ)) × (add_help k d hs ≡ rest ++ (k, d) ∷ []) × Lacks k rest)
unfolding add_help
add_help-IsDistinct k d hs h = (
  IsDistinct-append (remove_help k hs) k d (remove_help-IsDistinct k hs h) (remove_help-Lacks k hs),
  (remove_help k hs, refl, remove_help-Lacks k hs),
)
