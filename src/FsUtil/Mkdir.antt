-- ===== src/FsUtil/Mkdir.antt =====
-- `FSUtil::Mkdir` and `FSUtil::OpenForWrite` of sylar/util.cpp, over the file system calls that they
-- make.
use prozac.Prelude.{
  ℕ, ◌≡◌, sym, append-nil, append_assoc, ap, ◌∙◌, Bool, true, false, subst, List, [], ◌∷◌, ◌++◌,
  arith, ◌==◌, if◌then◌else◌, All, Result, ok, err, out_of_range, inl, inr, Bool-cases,
}
use prozac.FsUtil.Paths.{dirname}

-- `access(path, F_OK)` and `lstat(path)`, `mkdir`, and `open` for writing; each answers whether it
-- succeeds.
pub record FileSystem : Type 1 where
  pub Fs : Type 0
  pub exists : Fs → List ℕ → Bool
  pub mkdir : List ℕ → Fs → Bool × Fs
  pub open_write : List ℕ → Fs → Bool × Fs

-- What the calls promise: a directory made is there, and what was there stays.
pub record FileSystemLaws (sys : FileSystem) : Type 0 where
  pub mkdir-exists :
      (p : List ℕ) (f : sys.Fs) → (sys.mkdir p f).0 ≡ true → sys.exists (sys.mkdir p f).1 p ≡ true
  pub mkdir_keeps :
      (p q : List ℕ) (f : sys.Fs) → sys.exists f q ≡ true → sys.exists (sys.mkdir p f).1 q ≡ true

-- The parts of a path that end before a slash, `begun` being what was read of it.
unfoldable pub prefixes : List ℕ → List ℕ → List (List ℕ)
prefixes begun [] = []
prefixes begun (c ∷ cs) =
    let rest = prefixes (begun ++ c ∷ []) cs in if c == b'/' then begun ∷ rest else rest

module _ (sys : FileSystem) where
  -- `__mkdir`
  unfoldable pub mkdir_one : List ℕ → sys.Fs → Bool × sys.Fs
  mkdir_one p f = if sys.exists f p then (true, f) else sys.mkdir p f

  -- The `for` loop: it stops at the first failure.
  unfoldable pub mkdir_all : List (List ℕ) → sys.Fs → Bool × sys.Fs
  unfolding mkdir_one
  mkdir_all [] f = (true, f)
  mkdir_all (p ∷ ps) f =
      let (done, g) = mkdir_one p f in
      let rest = mkdir_all ps g in if done then rest else (false, g)

  -- `FSUtil::Mkdir`; the search for a slash starts at the second byte, which an empty name has not.
  unfoldable pub mkdir_path : List ℕ → sys.Fs → Result (Bool × sys.Fs)
  unfolding mkdir_all prefixes
  mkdir_path [] f = if sys.exists f [] then ok (true, f) else err out_of_range
  mkdir_path (c ∷ cs) f =
      let (done, g) = mkdir_all (prefixes (c ∷ []) cs) f in
      let last = mkdir_one (c ∷ cs) g in
      if sys.exists f (c ∷ cs) then ok (true, f) else ok (if done then last else (false, g))

  -- `FSUtil::OpenForWrite`: the directory is made when the file does not open at first.
  unfoldable pub open_for_write : List ℕ → sys.Fs → Result (Bool × sys.Fs)
  unfolding mkdir_path dirname
  open_for_write p f =
      let (opened, g) = sys.open_write p f in
      let again = (elim (mkdir_path (dirname p) g) as (λ _. Result (Bool × sys.Fs)) [
        | ok (made, h) ↦ ok (sys.open_write p h)
        | err e ↦ err e
      ]) in
      if opened then ok (true, g) else again

All-rest :
    (P : List ℕ → Type 0) (b : Bool) (x : List ℕ) (xs : List (List ℕ))
    → All P (if b then x ∷ xs else xs)
    → All P xs
All-rest P true x xs h = h.1
All-rest P false x xs h = h

-- The part before each slash is among them.
All-prefixes :
    (P : List ℕ → Type 0) (begun xs ys : List ℕ)
    → All P (prefixes begun (xs ++ b'/' ∷ ys))
    → P (begun ++ xs)
unfolding prefixes
All-prefixes P begun [] ys h = subst P (sym (append-nil begun)) h.0
All-prefixes P begun (x ∷ xs) ys h =
    let rest = prefixes (begun ++ x ∷ []) (xs ++ b'/' ∷ ys) in
    let later : All P rest = All-rest P (x == b'/') begun rest h in
    subst P (append_assoc begun (x ∷ []) xs) (All-prefixes P (begun ++ x ∷ []) xs ys later)

module _ (sys : FileSystem) (laws : FileSystemLaws sys) where
  mkdir_one-exists :
      (p : List ℕ) (f : sys.Fs)
      → (mkdir_one sys p f).0 ≡ true
      → sys.exists (mkdir_one sys p f).1 p ≡ true
  unfolding mkdir_one
  mkdir_one-exists p f h = ground (arith, laws.mkdir-exists p f)

  mkdir_one_keeps :
      (p q : List ℕ) (f : sys.Fs)
      → sys.exists f q ≡ true
      → sys.exists (mkdir_one sys p f).1 q ≡ true
  unfolding mkdir_one
  mkdir_one_keeps p q f h = ground (arith, laws.mkdir_keeps p q f)

  mkdir_all_keeps :
      (ps : List (List ℕ)) (q : List ℕ) (f : sys.Fs)
      → sys.exists f q ≡ true
      → sys.exists (mkdir_all sys ps f).1 q ≡ true
  unfolding mkdir_all
  mkdir_all_keeps [] q f h = h
  mkdir_all_keeps (p ∷ ps) q f h =
      let kept = mkdir_one_keeps p q f h in
      ground (arith, kept, mkdir_all_keeps ps q (mkdir_one sys p f).1 kept)

  mkdir_all-exists :
      (ps : List (List ℕ)) (f : sys.Fs)
      → (mkdir_all sys ps f).0 ≡ true
      → All (λ p. sys.exists (mkdir_all sys ps f).1 p ≡ true) ps
  unfolding mkdir_all
  mkdir_all-exists [] f h = tt
  mkdir_all-exists (p ∷ ps) f h = elim (Bool-cases (mkdir_one sys p f).0) [
    | inr e ↦ ground (arith, e, h)
    | inl e ↦
        let g = (mkdir_one sys p f).1 in
        let step : mkdir_all sys ps g ≡ mkdir_all sys (p ∷ ps) f = ground (arith, e) in
        subst (λ (r : Bool × sys.Fs). All (λ q. sys.exists r.1 q ≡ true) (p ∷ ps)) step
          (
            mkdir_all_keeps ps p g (mkdir_one-exists p f e),
            mkdir_all-exists ps g (ap (λ (r : Bool × sys.Fs). r.0) step ∙ h),
          )
  ]

  All-kept :
      (ps : List (List ℕ)) (q : List ℕ) (f : sys.Fs)
      → All (λ p. sys.exists f p ≡ true) ps
      → All (λ p. sys.exists (mkdir_one sys q f).1 p ≡ true) ps
  All-kept [] q f h = tt
  All-kept (p ∷ ps) q f h = (mkdir_one_keeps q p f h.0, All-kept ps q f h.1)

  -- When a directory that was not there is made, each directory on the way is there, the part of the path
  -- before each of its slashes but one that it starts with, and so is the directory itself; a call of
  -- mkdir that succeeds leaves the directory there, and none takes anything away.
  pub mkdir_path-exists :
      (c : ℕ) (cs : List ℕ) (f g : sys.Fs)
      → sys.exists f (c ∷ cs) ≡ false
      → mkdir_path sys (c ∷ cs) f ≡ ok (true, g)
      → ((xs ys : List ℕ) → cs ≡ xs ++ b'/' ∷ ys → sys.exists g (c ∷ xs) ≡ true)
        × (sys.exists g (c ∷ cs) ≡ true)
  unfolding mkdir_path
  mkdir_path-exists c cs f g absent e =
      let h = mkdir_all sys (prefixes (c ∷ []) cs) f in
      elim (Bool-cases h.0) [
        | inr d ↦ ground (arith, absent, d, e)
        | inl d ↦
            let last : mkdir_one sys (c ∷ cs) h.1 ≡ (true, g) = ground (arith, absent, d, e) in
            let made = ap (λ (r : Bool × sys.Fs). r.1) last in
            let all' =
              subst (λ (k : sys.Fs). All (λ p. sys.exists k p ≡ true) (prefixes (c ∷ []) cs)) made
                (All-kept (prefixes (c ∷ []) cs) (c ∷ cs) h.1
                  (mkdir_all-exists (prefixes (c ∷ []) cs) f d)) in
            (
              (λ xs ys split.
                  All-prefixes (λ p. sys.exists g p ≡ true) (c ∷ []) xs ys
                    (subst (λ zs. All (λ p. sys.exists g p ≡ true) (prefixes (c ∷ []) zs)) split
                      all')),
              subst (λ (k : sys.Fs). sys.exists k (c ∷ cs) ≡ true) made
                  (mkdir_one-exists (c ∷ cs) h.1 (ap (λ (r : Bool × sys.Fs). r.0) last)),
            )
      ]
