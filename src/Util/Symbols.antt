-- ===== src/Util/Symbols.antt =====
-- What `demangle` of sylar/util.cpp returns for a symbol that it cannot demangle.
use prozac.Prelude.{
  ℕ, zero, suc, ◌<◌, ◌≤◌, ◌≡◌, refl, ap, Bool, false, Option, none, some, List, [], ◌∷◌, ◌==◌,
  arith, length, All, if_intro, if◌then◌else◌, Option-cases, subst, ◌∙◌, inl, inr,
}
use prozac.Util.{take_set, skip, scan_keep, symbol_of, first_word, store, zeros, in_word, demangle}

-- The bytes before the first NUL.
abbrev pub c_str : List ℕ → List ℕ
c_str [] = []
c_str (c ∷ cs) = if c == 0 then [] else c ∷ c_str cs

abbrev pub IsText : List ℕ → Type 0
IsText = All (λ c. (c == 0) ≡ false)

length-store : (s b : List ℕ) → length (store s b) ≡ length b
unfolding store
length-store s [] = refl
length-store [] (b ∷ bs) = refl
length-store (c ∷ cs) (b ∷ bs) = ap suc (length-store cs bs)

c_str-store : (s b : List ℕ) → IsText s → length s < length b → c_str (store s b) ≡ s
unfolding store
c_str-store s [] t h = absurd (omega arith)
c_str-store [] (b ∷ bs) t h = refl
c_str-store (c ∷ cs) (b ∷ bs) t h = rw t.0 (ap (λ x. c ∷ x) (c_str-store cs bs t.1 (omega arith)))

length-zeros : (n : ℕ) → length (zeros n) ≡ n
unfolding zeros
length-zeros zero = refl
length-zeros (suc n) = ap suc (length-zeros n)

take_set_le : (p : ℕ → Bool) (n : ℕ) (s : List ℕ) → length (take_set p n s) ≤ n
unfolding take_set
take_set_le p zero s = omega arith
take_set_le p (suc n) [] = omega arith
take_set_le p (suc n) (c ∷ cs) = ground (arith, take_set_le p n cs)

take_set-IsText : (p : ℕ → Bool) (n : ℕ) (s : List ℕ) → IsText s → IsText (take_set p n s)
unfolding take_set
take_set-IsText p zero s t = tt
take_set-IsText p (suc n) [] t = tt
take_set-IsText p (suc n) (c ∷ cs) t =
    if_intro IsText (p c) _ _ (λ _. (t.0, take_set-IsText p n cs t.1)) (λ _. tt)

skip-IsText : (p : ℕ → Bool) (s : List ℕ) → IsText s → IsText (skip p s)
unfolding skip
skip-IsText p [] t = tt
skip-IsText p (c ∷ cs) t = if_intro IsText (p c) _ _ (λ _. skip-IsText p cs t.1) (λ _. t)

scan_keep_lem :
    (p : ℕ → Bool) (s w : List ℕ) → IsText s → scan_keep p s ≡ some w → IsText w × (length w ≤ 255)
unfolding scan_keep
scan_keep_lem p s w t e =
    read (take_set p 255 s) (take_set-IsText p 255 s t) (take_set_le p 255 s) e
  where
    read :
        (k : List ℕ)
        → IsText k
        → length k ≤ 255
        → (elim k as (λ _. Option (List ℕ)) [ [] ↦ none | c ∷ cs ↦ some (c ∷ cs) ]) ≡ some w
        → IsText w × (length w ≤ 255)
    read [] t h e = cc
    read (c ∷ cs) t h e =
        let same : c ∷ cs ≡ w = cc in subst (λ w. IsText w × (length w ≤ 255)) same (t, h)

-- A buffer of 256 bytes with a word and a NUL at its front.
abbrev pub Padded : List ℕ → List ℕ → Type 0
Padded w r = (length r ≡ 256) × (c_str r ≡ w)

Padded-in_word :
    (s w rt : List ℕ) → IsText s → first_word s ≡ some w → length rt ≡ 256 → Padded w (in_word s rt)
unfolding in_word first_word
Padded-in_word s w rt t e h =
    let (text, short) = scan_keep_lem _ (skip _ s) w (skip-IsText _ s t) e in
    rw (in_word, e) (length-store w rt ∙ h, c_str-store w rt text (omega (arith, h, short)))

-- The name in a symbol, demangled.
abbrev pub named : (List ℕ → Option (List ℕ)) → List ℕ → Option (List ℕ)
named cxa_demangle s = elim (symbol_of s) [ none ↦ none | some x ↦ cxa_demangle x ]

-- A symbol that has no name to demangle, or one that the demangler refuses, comes back as the whole
-- buffer of 256 bytes: its first word of at most 255 bytes, a NUL, and what the buffer had there.
pub demangle-Padded :
    (cxa_demangle : List ℕ → Option (List ℕ)) (s w : List ℕ)
    → IsText s
    → named cxa_demangle s ≡ none
    → first_word s ≡ some w
    → Padded w (demangle cxa_demangle s)
unfolding demangle
demangle-Padded cxa_demangle s w t none' e = elim (Option-cases (symbol_of s)) [
  | inl h ↦ rw (demangle, h) (Padded-in_word s w (zeros 256) t e (length-zeros 256))
  | inr (x, h) ↦
      let refused : cxa_demangle x ≡ none = cc in
      rw (demangle, h, refused)
        (Padded-in_word s w (store x (zeros 256)) t e
          (length-store x (zeros 256) ∙ length-zeros 256))
]
