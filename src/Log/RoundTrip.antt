-- ===== src/Log/RoundTrip.antt =====
-- The patterns of `LogFormatter::init` in sylar/log.cpp: what is printed
-- as one is read back.
use prozac.Prelude.{
  ℕ, zero, suc, ◌-◌, ◌≤◌, ◌≡◌, ◌≢◌, refl, ap, ◌∙◌, Bool, true, false, not, ◌&&◌, ◌||◌, none, some,
  List, [], ◌∷◌, ◌++◌, arith, ◌==◌, length, length-append, append_assoc, append-nil, All, codes,
}
use prozac.Log.Pattern.{
  Item, Token, text_token, item_token, ended, read_fmt, read_str, flush, starts_percent, scan,
  is_alpha, string, item_of, items_of, create, LogFormatter, formatter_of, new_formatter,
}

-- What a pattern is written from: a text, an item, or an item with a format in braces.
pub data Piece : Type 0 where
  text item : List ℕ → Piece
  item_fmt : List ℕ → List ℕ → Piece

abbrev pub print : List Piece → List ℕ
print [] = []
print (text s ∷ ps) = s ++ print ps
print (item s ∷ ps) = b'%' ∷ (s ++ print ps)
print (item_fmt s f ∷ ps) = b'%' ∷ (s ++ b'{' ∷ (f ++ b'}' ∷ print ps))

abbrev pub tokens : List Piece → List Token
tokens [] = []
tokens (text s ∷ ps) = text_token s ∷ tokens ps
tokens (item s ∷ ps) = item_token s [] ∷ tokens ps
tokens (item_fmt s f ∷ ps) = item_token s f ∷ tokens ps

-- The rest does not go on with the letters of an item.
abbrev pub Free : List ℕ → Type 0
Free [] = Unit
Free (c ∷ cs) = (not (is_alpha c) && (not (c == b'{') && not (c == b'}'))) ≡ true

abbrev pub Letters : List ℕ → Type 0
Letters [] = ⊥
Letters (c ∷ cs) = (is_alpha c ≡ true) × All (λ d. is_alpha d ≡ true) cs

-- No byte is the one given.
abbrev pub Lacks : ℕ → List ℕ → Type 0
Lacks d cs = All (λ c. (c == d) ≡ false) cs

-- A text can only follow when no text waits.
abbrev pub Fits : List ℕ → List Piece → Type 0
Fits nstr (text s ∷ ps) = nstr ≡ []
Fits nstr _ = Unit

-- Texts are not empty, not next to each other, and have no percent sign; items are letters, which
-- the next byte ends; formats have no closing brace.
abbrev pub IsGood : List Piece → Type 0
IsGood [] = Unit
IsGood (text s ∷ ps) = (s ≢ []) × Lacks b'%' s × Fits s ps × IsGood ps
IsGood (item s ∷ ps) = Letters s × Free (print ps) × IsGood ps
IsGood (item_fmt s f ∷ ps) = Letters s × Lacks b'}' f × IsGood ps

read_fmt_lem :
    (str acc f rest : List ℕ)
    → Lacks b'}' f
    → read_fmt str acc (f ++ b'}' ∷ rest) ≡ ended str (acc ++ f) rest
unfolding read_fmt
read_fmt_lem str acc [] rest h = ground (arith, append-nil acc)
read_fmt_lem str acc (c ∷ f) rest h =
    ground (arith, h, read_fmt_lem str (acc ++ c ∷ []) f rest h.1, append_assoc acc (c ∷ []) f)

read_str-Free :
    (acc s rest : List ℕ)
    → All (λ c. is_alpha c ≡ true) s
    → Free rest
    → read_str acc (s ++ rest) ≡ ended (acc ++ s) [] rest
unfolding read_str
read_str-Free acc [] [] h k = ground (arith, append-nil acc)
read_str-Free acc [] (c ∷ cs) h k = ground (arith, append-nil acc)
read_str-Free acc (c ∷ s) rest h k =
    ground (arith, h, read_str-Free (acc ++ c ∷ []) s rest h.1 k, append_assoc acc (c ∷ []) s)

read_str_open :
    (acc s rest : List ℕ)
    → All (λ c. is_alpha c ≡ true) s
    → read_str acc (s ++ b'{' ∷ rest) ≡ read_fmt (acc ++ s) [] rest
unfolding read_str
read_str_open acc [] rest h = ground (arith, append-nil acc)
read_str_open acc (c ∷ s) rest h =
    ground (arith, h, read_str_open (acc ++ c ∷ []) s rest h.1, append_assoc acc (c ∷ []) s)

scan_text :
    (n : ℕ) (nstr s rest : List ℕ)
    → Lacks b'%' s
    → length s ≤ n
    → scan n nstr (s ++ rest) ≡ scan (n - length s) (nstr ++ s) rest
unfolding scan
scan_text n nstr [] rest h k = ground (arith, append-nil nstr)
scan_text zero nstr (c ∷ s) rest h k = absurd (omega arith)
scan_text (suc n) nstr (c ∷ s) rest h k =
    ground (
      arith,
      h,
      scan_text n (nstr ++ c ∷ []) s rest h.1 (omega arith),
      append_assoc nstr (c ∷ []) s,
    )

-- A round at a percent sign that starts an item.
scan_item :
    (n : ℕ) (nstr cs str fmt rest : List ℕ) (ts : List Token) (e : Bool)
    → starts_percent cs ≡ false
    → read_str [] cs ≡ ended str fmt rest
    → scan n [] rest ≡ some (ts, e)
    → scan (suc n) nstr (b'%' ∷ cs) ≡ some (flush nstr ++ item_token str fmt ∷ ts, e)
unfolding scan
scan_item n nstr cs str fmt rest ts e h k l = ground (arith, h, k, l)

starts_letter : (s rest : List ℕ) → Letters s → starts_percent (s ++ rest) ≡ false
starts_letter [] rest h = absurd h
starts_letter (c ∷ s) rest h = ground arith

letters : (s : List ℕ) → Letters s → All (λ c. is_alpha c ≡ true) s
letters [] h = tt
letters (c ∷ s) h = h

fits : (ps : List Piece) → Fits [] ps
fits [] = tt
fits (text s ∷ ps) = refl
fits (item s ∷ ps) = tt
fits (item_fmt s f ∷ ps) = tt

scan_end : (n : ℕ) (nstr : List ℕ) → scan n nstr [] ≡ some (flush nstr ++ [], false)
unfolding scan
scan_end n [] = refl
scan_end n (c ∷ cs) = refl

-- A pattern written from pieces is read back: the loop gives the tokens of just these pieces, in
-- order, and no error.
pub scan-print :
    (n : ℕ) (nstr : List ℕ) (ps : List Piece)
    → Fits nstr ps
    → IsGood ps
    → length (print ps) ≤ n
    → scan n nstr (print ps) ≡ some (flush nstr ++ tokens ps, false)
scan-print n nstr [] f g h = scan_end n nstr
scan-print n nstr (text [] ∷ ps) f g h = absurd (g.0 refl)
scan-print n nstr (text (c ∷ s) ∷ ps) f g h =
    let longer = length-append (c ∷ s) (print ps) in
    rw f (
      scan_text n [] (c ∷ s) (print ps) g.1 (omega (arith, longer))
      ∙ scan-print (n - length (c ∷ s)) (c ∷ s) ps g.2 g.3 (omega (arith, longer)))
scan-print zero nstr (item s ∷ ps) f g h = absurd (omega arith)
scan-print (suc n) nstr (item s ∷ ps) f g h =
    let longer = length-append s (print ps) in
    scan_item n nstr (s ++ print ps) s [] (print ps) (tokens ps) false
      (starts_letter s (print ps) g.0) (read_str-Free [] s (print ps) (letters s g.0) g.1)
      (scan-print n [] ps (fits ps) g.2 (omega (arith, longer)))
scan-print zero nstr (item_fmt s t ∷ ps) f g h = absurd (omega arith)
scan-print (suc n) nstr (item_fmt s t ∷ ps) f g h =
    let longer = length-append s (b'{' ∷ (t ++ b'}' ∷ print ps)) in
    let longer' = length-append t (b'}' ∷ print ps) in
    scan_item n nstr (s ++ b'{' ∷ (t ++ b'}' ∷ print ps)) s t (print ps) (tokens ps) false
      (starts_letter s (b'{' ∷ (t ++ b'}' ∷ print ps)) g.0)
      (read_str_open [] s (t ++ b'}' ∷ print ps) (letters s g.0)
        ∙ read_fmt_lem s [] t (print ps) g.1)
      (scan-print n [] ps (fits ps) g.2 (omega (arith, longer, longer')))

flush_last : (s : List ℕ) (d : ℕ) → flush (s ++ d ∷ []) ≡ text_token (s ++ d ∷ []) ∷ []
flush_last [] d = refl
flush_last (c ∷ s) d = refl

scan_twice :
    (m : ℕ) (nstr : List ℕ)
    → 2 ≤ m
    → scan m nstr (b'%' ∷ b'%' ∷ [])
      ≡ some (text_token (nstr ++ b'%' ∷ []) ∷ item_token [] [] ∷ [], false)
unfolding scan read_str
scan_twice zero nstr h = absurd (omega arith)
scan_twice (suc zero) nstr h = absurd (omega arith)
scan_twice (suc (suc m)) nstr h = rw (flush_last nstr b'%') refl

-- Two percent signs do not stand for one: the first is taken as text, and the second starts an item
-- even so. So a formatter whose pattern ends in them after a text is in error.
pub new_formatter_percent :
    (s : List ℕ)
    → Lacks b'%' s
    → (f : LogFormatter) × (new_formatter (s ++ b'%' ∷ b'%' ∷ []) ≡ some f)
      × (f.items ≡ string (s ++ b'%' ∷ []) ∷ string (codes "<<error_format %>>") ∷ [])
      × (f.is_error ≡ true)
unfolding new_formatter items_of item_of create
new_formatter_percent s h =
    let p = s ++ b'%' ∷ b'%' ∷ [] in
    let longer = length-append s (b'%' ∷ b'%' ∷ []) in
    let read : scan (length p) [] p
        ≡ some (text_token (s ++ b'%' ∷ []) ∷ item_token [] [] ∷ [], false) =
      scan_text (length p) [] s (b'%' ∷ b'%' ∷ []) h (omega (arith, longer))
      ∙ scan_twice (length p - length s) s (omega (arith, longer)) in
    (
      record {
        pattern = p;
        items = string (s ++ b'%' ∷ []) ∷ string (codes "<<error_format %>>") ∷ [];
        is_error = true;
      },
      ap (formatter_of p) read,
      refl,
      refl,
    )

-- The item that is made for a name and a format: that of the class registered for it, or an error text.
abbrev made : List ℕ → List ℕ → Item
made str fmt = elim (create str fmt) as (λ _. Item) [
  | none ↦ string (codes "<<error_format %" ++ str ++ codes ">>")
  | some i ↦ i
]

abbrev is_unknown : List ℕ → List ℕ → Bool
is_unknown str fmt = elim (create str fmt) as (λ _. Bool) [ none ↦ true | some i ↦ false ]

-- What each piece stands for, and whether the class of some item is not registered.
abbrev pub meant : List Piece → List Item
meant [] = []
meant (text s ∷ ps) = string s ∷ meant ps
meant (item s ∷ ps) = made s [] ∷ meant ps
meant (item_fmt s f ∷ ps) = made s f ∷ meant ps

abbrev pub has_unknown : List Piece → Bool
has_unknown [] = false
has_unknown (text s ∷ ps) = has_unknown ps
has_unknown (item s ∷ ps) = is_unknown s [] || has_unknown ps
has_unknown (item_fmt s f ∷ ps) = is_unknown s f || has_unknown ps

item_of-token :
    (str fmt : List ℕ) → item_of (item_token str fmt) ≡ (made str fmt, is_unknown str fmt)
unfolding item_of
item_of-token str fmt =
    elim (create str fmt)
      as (λ o.
        (elim o as (λ _. Item × Bool) [
          | none ↦ (string (codes "<<error_format %" ++ str ++ codes ">>"), true)
          | some i ↦ (i, false)
        ])
        ≡ (
          elim o as (λ _. Item) [
            | none ↦ string (codes "<<error_format %" ++ str ++ codes ">>")
            | some i ↦ i
          ],
          elim o as (λ _. Bool) [ none ↦ true | some i ↦ false ],
        )) [ none ↦ refl | some i ↦ refl ]

items_of-tokens : (ps : List Piece) → items_of (tokens ps) ≡ (meant ps, has_unknown ps)
unfolding items_of
items_of-tokens [] = refl
items_of-tokens (text s ∷ ps) = rw (items_of-tokens ps) (unfold item_of in refl)
items_of-tokens (item s ∷ ps) = rw (item_of-token s [], items_of-tokens ps) refl
items_of-tokens (item_fmt s f ∷ ps) = rw (item_of-token s f, items_of-tokens ps) refl

-- A formatter made of a pattern that is written from pieces has one item for each piece, in order: the text
-- of a text, and what the class registered for an item makes of its format; and it is in error just when
-- the class of some item is not registered. Texts are not empty, not next to each other, and have no
-- percent sign; items are letters, which the next byte ends; formats have no closing brace.
pub new_formatter-print :
    (ps : List Piece)
    → IsGood ps
    → new_formatter (print ps)
      ≡ some (record { pattern = print ps; items = meant ps; is_error = has_unknown ps })
unfolding new_formatter
new_formatter-print ps g =
    ap (formatter_of (print ps)) (scan-print (length (print ps)) [] ps (fits ps) g (omega arith))
    ∙ ap
        (λ (q : List Item × Bool).
          let f : LogFormatter = record { pattern = print ps; items = q.0; is_error = q.1 } in
          some f)
        (items_of-tokens ps)
