-- ===== src/Log/Ends.antt =====
-- The patterns of `LogFormatter::init` in sylar/log.cpp: the loop over
-- the pattern ends.
use prozac.Prelude.{
  ℕ, zero, suc, ◌≤◌, ◌≡◌, refl, sym, subst, Bool, true, false, not, ◌&&◌, none, some, List, [], ◌∷◌,
  ◌++◌, arith, ◌==◌, length, codes, inl, inr, Bool-cases, if_intro,
}
use prozac.Log.Pattern.{
  Token, text_token, item_token, Stop, ended, open_brace, read_fmt, read_str, flush, starts_percent,
  scan, Scanned, then_item, then_error, is_alpha,
}

-- What is left of the pattern is not longer.
abbrev Shorter : ℕ → Stop → Type 0
Shorter n (ended str fmt rest) = length rest ≤ n
Shorter n open_brace = Unit

Shorter-mono : (n m : ℕ) (s : Stop) → n ≤ m → Shorter n s → Shorter m s
Shorter-mono n m (ended str fmt rest) h k = omega (arith, h, k)
Shorter-mono n m open_brace h k = tt

read_fmt-Shorter : (str fmt cs : List ℕ) → Shorter (length cs) (read_fmt str fmt cs)
unfolding read_fmt
read_fmt-Shorter str fmt [] = tt
read_fmt-Shorter str fmt (c ∷ cs) =
    if_intro (Shorter (suc (length cs))) (c == b'}') _ _ (λ _. omega arith)
      λ _. Shorter-mono (length cs) _ _ (omega arith) (read_fmt-Shorter str (fmt ++ c ∷ []) cs)

read_str-Shorter : (str cs : List ℕ) → Shorter (length cs) (read_str str cs)
unfolding read_str
read_str-Shorter str [] = omega arith
read_str-Shorter str (c ∷ cs) =
    if_intro (Shorter (suc (length cs))) (not (is_alpha c) && (not (c == b'{') && not (c == b'}')))
      _ _ (λ _. omega arith)
      λ _.
        if_intro (Shorter (suc (length cs))) (c == b'{') _ _
          (λ _. Shorter-mono (length cs) _ _ (omega arith) (read_fmt-Shorter str [] cs))
          λ _. Shorter-mono (length cs) _ _ (omega arith) (read_str-Shorter (str ++ c ∷ []) cs)

abbrev Answers : Scanned → Type 0
Answers o = (r : List Token × Bool) × (o ≡ some r)

then_item-Answers :
    (nstr str fmt : List ℕ) (o : Scanned) → Answers o → Answers (then_item nstr str fmt o)
then_item-Answers nstr str fmt none (r, e) = cc
then_item-Answers nstr str fmt (some (ts, e)) k = ((flush nstr ++ item_token str fmt ∷ ts, e), refl)

then_error-Answers : (o : Scanned) → Answers o → Answers (then_error o)
then_error-Answers none (r, e) = cc
then_error-Answers (some (ts, e)) k = ((text_token (codes "<<pattern_error>>") ∷ ts, true), refl)

stopped :
    (n : ℕ) (nstr cs : List ℕ) (s : Stop)
    → Shorter (length cs) s
    → ((nstr' cs' : List ℕ) → length cs' ≤ length cs → Answers (scan n nstr' cs'))
    → Answers (elim s as (λ _. Scanned) [
      | ended str fmt rest ↦ then_item nstr str fmt (scan n [] rest)
      | open_brace ↦ then_error (scan n nstr cs)
    ])
stopped n nstr cs (ended str fmt rest) k again =
    then_item-Answers nstr str fmt (scan n [] rest) (again [] rest k)
stopped n nstr cs open_brace k again =
    then_error-Answers (scan n nstr cs) (again nstr cs (omega arith))

scan_plain :
    (n : ℕ) (nstr : List ℕ) (c : ℕ) (cs : List ℕ)
    → (c == b'%') ≡ false
    → scan (suc n) nstr (c ∷ cs) ≡ scan n (nstr ++ c ∷ []) cs
unfolding scan
scan_plain n nstr c cs h = ground (arith, h)

scan_double :
    (n : ℕ) (nstr : List ℕ) (c : ℕ) (cs : List ℕ)
    → (c == b'%') ≡ true
    → starts_percent cs ≡ true
    → scan (suc n) nstr (c ∷ cs) ≡ scan n (nstr ++ b'%' ∷ []) cs
unfolding scan
scan_double n nstr c cs h k = ground (arith, h, k)

scan_start :
    (n : ℕ) (nstr : List ℕ) (c : ℕ) (cs : List ℕ)
    → (c == b'%') ≡ true
    → starts_percent cs ≡ false
    → scan (suc n) nstr (c ∷ cs) ≡ elim (read_str [] cs) as (λ _. Scanned) [
      | ended str fmt rest ↦ then_item nstr str fmt (scan n [] rest)
      | open_brace ↦ then_error (scan n nstr cs)
    ]
unfolding scan
scan_start n nstr c cs h k = ground (arith, h, k)

-- The loop over the pattern ends within as many rounds as there are bytes, whatever they are.
pub scan_total :
    (n : ℕ) (nstr cs : List ℕ) → length cs ≤ n → (r : List Token × Bool) × (scan n nstr cs ≡ some r)
unfolding scan
scan_total n nstr [] h = ((flush nstr, false), refl)
scan_total zero nstr (c ∷ cs) h = absurd (omega arith)
scan_total (suc n) nstr (c ∷ cs) h =
    let fewer : length cs ≤ n = omega arith in
    elim (Bool-cases (c == b'%')) [
      | inr e ↦
          subst Answers (sym (scan_plain n nstr c cs e)) (scan_total n (nstr ++ c ∷ []) cs fewer)
      | inl e ↦ elim (Bool-cases (starts_percent cs)) [
        | inl d ↦
            subst Answers (sym (scan_double n nstr c cs e d))
              (scan_total n (nstr ++ b'%' ∷ []) cs fewer)
        | inr d ↦ subst Answers (sym (scan_start n nstr c cs e d)) (
            stopped n nstr cs (read_str [] cs) (read_str-Shorter [] cs)
              λ nstr' cs' k. scan_total n nstr' cs' (omega (arith, k, fewer)))
      ]
    ]
