-- ===== src/FsUtil/Paths.antt =====
-- `FSUtil::Dirname` and `FSUtil::Basename` of sylar/util.cpp.
use prozac.Prelude.{
  ℕ, ◌≡◌, refl, ap, false, Option, none, some, List, [], ◌∷◌, ◌++◌, arith, ◌==◌, ==_iff,
  if◌then◌else◌, All, codes, inl, inr, ◌⊎◌, Bool-cases,
}

-- `rfind('/')`: what stands before the last slash and what stands after it.
unfoldable pub last_slash : List ℕ → Option (List ℕ × List ℕ)
last_slash [] = none
last_slash (c ∷ cs) = elim (last_slash cs) [
  | some (before, after) ↦ some (c ∷ before, after)
  | none ↦ if c == b'/' then some ([], cs) else none
]

abbrev dir_of : List ℕ → List ℕ
dir_of [] = codes "/"
dir_of (c ∷ cs) = c ∷ cs

-- `FSUtil::Dirname`
unfoldable pub dirname : List ℕ → List ℕ
unfolding last_slash
dirname s = elim (last_slash s) [ none ↦ codes "." | some (before, after) ↦ dir_of before ]

-- `FSUtil::Basename`
unfoldable pub basename : List ℕ → List ℕ
unfolding last_slash
basename s = elim (last_slash s) [ none ↦ s | some (before, after) ↦ after ]

abbrev pub NoSlash : List ℕ → Type 0
NoSlash = All (λ c. (c == b'/') ≡ false)

-- Where the last slash is.
abbrev Cut : List ℕ → Option (List ℕ × List ℕ) → Type 0
Cut s none = NoSlash s
Cut s (some (before, after)) = (s ≡ before ++ b'/' ∷ after) × NoSlash after

last_slash-Cut : (s : List ℕ) → Cut s (last_slash s)
unfolding last_slash
last_slash-Cut [] = tt
last_slash-Cut (c ∷ cs) = more (last_slash cs) (last_slash-Cut cs)
  where
    more :
        (o : Option (List ℕ × List ℕ))
        → Cut cs o
        → Cut (c ∷ cs) (elim o as (λ _. Option (List ℕ × List ℕ)) [
          | some (before, after) ↦ some (c ∷ before, after)
          | none ↦ if c == b'/' then some ([], cs) else none
        ])
    more (some (before, after)) (e, k) = (ap (◌∷◌ c) e, k)
    more none k = elim (Bool-cases (c == b'/')) [
      | inl e ↦ let slash : c ≡ b'/' = (==_iff c b'/').0 e in ground (arith, e, slash, k)
      | inr e ↦ ground (arith, e, k)
    ]

-- The directory and the name of a path: its name has no slash; with the directory and a slash before
-- it, it is the path again, but when the path has no slash, which is then its own name in the
-- directory ".", or when its only slash is the first byte, which is then the directory.
pub dirname-basename :
    (s : List ℕ)
    → NoSlash (basename s)
      × ((s ≡ dirname s ++ b'/' ∷ basename s)
          ⊎ ((s ≡ basename s) × (dirname s ≡ codes "."))
          ⊎ ((s ≡ b'/' ∷ basename s) × (dirname s ≡ codes "/")))
unfolding dirname basename
dirname-basename s = parts (last_slash s) (last_slash-Cut s)
  where
    parts :
        (o : Option (List ℕ × List ℕ))
        → Cut s o
        → let base = elim o as (λ _. List ℕ) [ none ↦ s | some (before, after) ↦ after ] in
          let dir = elim o as (λ _. List ℕ) [
            | none ↦ codes "."
            | some (before, after) ↦ dir_of before
          ] in
          NoSlash base
          × ((s ≡ dir ++ b'/' ∷ base)
              ⊎ ((s ≡ base) × (dir ≡ codes "."))
              ⊎ ((s ≡ b'/' ∷ base) × (dir ≡ codes "/")))
    parts none k = (k, inr (inl (refl, refl)))
    parts (some ([], after)) (e, k) = (k, inr (inr (e, refl)))
    parts (some (c ∷ before, after)) (e, k) = (k, inl e)
