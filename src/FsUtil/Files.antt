-- ===== src/FsUtil/Files.antt =====
-- `FSUtil::ListAllFile` of sylar/util.cpp. What the walk meets is a tree: the entries of a directory in
-- the order of readdir, each with its d_type. A directory that cannot be opened has no entries.
use prozac.Prelude.{
  In, In-append_left, In-append_right, In-append_cases, ℕ, zero, suc, ◌+◌, ◌-◌, ◌≡◌, refl, sym, ap,
  ap₂, append-nil, subst, ◌∙◌, ◌↔◌, Bool, true, false, ◌||◌, List, [], ◌∷◌, ◌++◌, arith, ltb,
  if◌then◌else◌, length, length-append, codes, same, same_iff, inl, inr,
}

mutual
  pub data Node : Type 0 where
    dir : Entries → Node
    reg other : Node

  pub data Entries : Type 0 where
    nil : Entries
    entry : List ℕ → Node → Entries → Entries

abbrev pub drop : ℕ → List ℕ → List ℕ
drop zero s = s
drop (suc n) [] = []
drop (suc n) (c ∷ s) = drop n s

-- The test on the name of a file, by `subfix`.
unfoldable pub matches : List ℕ → List ℕ → Bool
matches [] filename = true
matches (c ∷ subfix) filename =
    if ltb (length filename) (length (c ∷ subfix))
    then false
    else same (drop (length filename - length (c ∷ subfix)) filename) (c ∷ subfix)

abbrev pub is_dots : List ℕ → Bool
is_dots n = same n (codes ".") || same n (codes "..")

abbrev pub below : List ℕ → List ℕ → List ℕ
below path name = path ++ b'/' ∷ name

-- `FSUtil::ListAllFile`
unfoldable pub list_all_file : List ℕ → List ℕ → Entries → List (List ℕ)
unfolding matches
list_all_file subfix path nil = []
list_all_file subfix path (entry n (dir es) rest) =
    let under = list_all_file subfix (below path n) es in
    (if is_dots n then [] else under) ++ list_all_file subfix path rest
list_all_file subfix path (entry n reg rest) =
    (if matches subfix n then below path n ∷ [] else []) ++ list_all_file subfix path rest
list_all_file subfix path (entry n other rest) = list_all_file subfix path rest

-- A file below a path: a regular file of a matching name, there or inside a directory.
pub data Below (subfix : List ℕ) : List ℕ → Entries → List ℕ → Type 0 where
  here :
      {p n : List ℕ} {rest : Entries}
      → matches subfix n ≡ true
      → Below subfix p (entry n reg rest) (below p n)
  inside :
      {p n f : List ℕ} {es rest : Entries}
      → is_dots n ≡ false
      → Below subfix (below p n) es f
      → Below subfix p (entry n (dir es) rest) f
  later :
      {p n f : List ℕ} {x : Node} {rest : Entries}
      → Below subfix p rest f
      → Below subfix p (entry n x rest) f

In-unless :
    (b : Bool) (xs : List (List ℕ)) (f : List ℕ)
    → In f (if b then [] else xs)
    → (b ≡ false) × In f xs
In-unless true xs f h = absurd h
In-unless false xs f h = (refl, h)

In-when : (b : Bool) (g f : List ℕ) → In f (if b then g ∷ [] else []) → (b ≡ true) × (f ≡ g)
In-when true g f (inl e) = (refl, e)
In-when true g f (inr h) = absurd h
In-when false g f h = absurd h

In-skip :
    (b : Bool) (xs : List (List ℕ)) (f : List ℕ) → b ≡ false → In f xs → In f (if b then [] else xs)
In-skip true xs f e h = cc
In-skip false xs f e h = h

In-take : (b : Bool) (f : List ℕ) → b ≡ true → In f (if b then f ∷ [] else [])
In-take true f e = inl refl
In-take false f e = cc

listed-Below :
    (sfx p : List ℕ) (es : Entries) (f : List ℕ) → In f (list_all_file sfx p es) → Below sfx p es f
unfolding list_all_file
listed-Below sfx p nil f h = absurd h
listed-Below sfx p (entry n (dir es) rest) f h =
    elim (In-append_cases f _ (list_all_file sfx p rest) h) [
      | inl k ↦
          let (e, m) = In-unless (is_dots n) (list_all_file sfx (below p n) es) f k in
          inside e (listed-Below sfx (below p n) es f m)
      | inr k ↦ later (listed-Below sfx p rest f k)
    ]
listed-Below sfx p (entry n reg rest) f h =
    elim (In-append_cases f _ (list_all_file sfx p rest) h) [
      | inl k ↦
          let (e, same') = In-when (matches sfx n) (below p n) f k in
          subst (Below sfx p (entry n reg rest)) (sym same') (here e)
      | inr k ↦ later (listed-Below sfx p rest f k)
    ]
listed-Below sfx p (entry n other rest) f h = later (listed-Below sfx p rest f h)

Below-listed :
    (sfx p : List ℕ) (es : Entries) (f : List ℕ) → Below sfx p es f → In f (list_all_file sfx p es)
unfolding list_all_file
Below-listed sfx p nil f b = elim b [ ]
Below-listed sfx p (entry n (dir es) rest) f (inside e b) =
    In-append_left f _ (list_all_file sfx p rest) (
      In-skip (is_dots n) (list_all_file sfx (below p n) es) f e
        (Below-listed sfx (below p n) es f b))
Below-listed sfx p (entry n (dir es) rest) f (later b) =
    In-append_right f _ (list_all_file sfx p rest) (Below-listed sfx p rest f b)
Below-listed sfx p (entry n reg rest) f (here e) =
    In-append_left f _ (list_all_file sfx p rest) (In-take (matches sfx n) (below p n) e)
Below-listed sfx p (entry n reg rest) f (later b) =
    In-append_right f _ (list_all_file sfx p rest) (Below-listed sfx p rest f b)
Below-listed sfx p (entry n other rest) f (later b) = Below-listed sfx p rest f b

pub list_all_file-Below :
    (sfx p : List ℕ) (es : Entries) (f : List ℕ) → In f (list_all_file sfx p es) ↔ Below sfx p es f
list_all_file-Below sfx p es f = (listed-Below sfx p es f, Below-listed sfx p es f)

drop_append : (xs ys : List ℕ) → drop (length xs) (xs ++ ys) ≡ ys
drop_append [] ys = refl
drop_append (x ∷ xs) ys = drop_append xs ys

drop_split : (n : ℕ) (s : List ℕ) → (xs : List ℕ) × (s ≡ xs ++ drop n s)
drop_split zero s = ([], refl)
drop_split (suc n) [] = ([], refl)
drop_split (suc n) (c ∷ s) = let (xs, e) = drop_split n s in (c ∷ xs, ap (◌∷◌ c) e)

-- A name matches just when it ends with the text asked for.
pub matches_lem : (sfx n : List ℕ) → (matches sfx n ≡ true) ↔ ((xs : List ℕ) × (n ≡ xs ++ sfx))
unfolding matches
matches_lem [] n = ((λ _. (n, sym (append-nil n))), λ _. refl)
matches_lem (c ∷ s) n =
    let sfx = c ∷ s in
    let k = length n - length sfx in
    (
      (λ h.
          let last : drop k n ≡ sfx = ground (arith, h, same_iff (drop k n) sfx) in
          let (xs, e) = drop_split k n in (xs, e ∙ ap (λ z. xs ++ z) last)),
      λ (xs, e).
          let long : length n ≡ length xs + length sfx = ap length e ∙ length-append xs sfx in
          let count : k ≡ length xs = omega (arith, long) in
          let last : drop k n ≡ sfx = ap₂ drop count e ∙ drop_append xs sfx in
          ground (arith, long, last, same_iff (drop k n) sfx),
    )
