-- ===== src/IoManager/Contexts.antt =====
-- The list of contexts of sylar/iomanager.cpp, and how many events wait in it.
use prozac.Prelude.{
  ℕ, zero, suc, ◌+◌, ◌*◌, ◌/◌, ◌≤◌, ◌<◌, ◌≡◌, refl, sym, ap, ◌^◌, Bool, true, false, some, List, [],
  ◌∷◌, arith, length, get_elem?, set,
}
use prozac.IoManager.{Events, FdContext, cover, fill, resize_from, context_resize}

abbrev pub one : Bool → ℕ
one true = 1
one false = 0

abbrev pub bits : Events → ℕ
bits e = one e.read + one e.write

abbrev pub waiting : List FdContext → ℕ
waiting [] = 0
waiting (c ∷ cs) = bits c.events + waiting cs

pub waiting-set :
    (cs : List FdContext) (fd : ℕ) (c d : FdContext)
    → get_elem? cs fd ≡ some c
    → waiting (set cs fd d) + bits c.events ≡ waiting cs + bits d.events
waiting-set [] fd c d e = cc
waiting-set (x ∷ xs) zero c d e = let same : x ≡ c = cc in rw same (omega arith)
waiting-set (x ∷ xs) (suc fd) c d e = omega (arith, waiting-set xs fd c d e)

waiting-fill : (n i : ℕ) → waiting (fill n i) ≡ 0
unfolding fill
waiting-fill zero i = refl
waiting-fill (suc n) i = omega (arith, waiting-fill n (i + 1))

length-fill : (n i : ℕ) → length (fill n i) ≡ n
unfolding fill
length-fill zero i = refl
length-fill (suc n) i = ap suc (length-fill n (i + 1))

resize_from-grows :
    (i n : ℕ) (cs : List FdContext)
    → length cs ≤ n
    → (waiting (resize_from i n cs) ≡ waiting cs) × (length (resize_from i n cs) ≡ n)
unfolding resize_from
resize_from-grows i n [] h = (waiting-fill n i, length-fill n i)
resize_from-grows i zero (c ∷ cs) h = absurd (omega arith)
resize_from-grows i (suc n) (c ∷ cs) h =
    let (same, long) = resize_from-grows (i + 1) n cs (omega arith) in
    (omega (arith, same), ap suc long)

bits_le : (e : Events) → bits e ≤ 2
bits_le e = ground arith

pub waiting_le : (cs : List FdContext) → waiting cs ≤ 2 * length cs
waiting_le [] = omega arith
waiting_le (c ∷ cs) = omega (arith, bits_le c.events, waiting_le cs)

-- A context of the list counts.
pub bits_le-waiting :
    (cs : List FdContext) (i : ℕ) (c : FdContext)
    → get_elem? cs i ≡ some c
    → bits c.events ≤ waiting cs
bits_le-waiting [] i c e = cc
bits_le-waiting (x ∷ xs) zero c e = let same : x ≡ c = cc in rw (sym same) (omega arith)
bits_le-waiting (x ∷ xs) (suc i) c e = omega (arith, bits_le-waiting xs i c e)

-- A descriptor below 2 ^ 31 asks for fewer than 2 ^ 32 contexts.
pub length-cover :
    (fd : ℕ) (cs : List FdContext)
    → fd < 2 ^ 31
    → length cs ≤ 2 ^ 32
    → length (cover fd cs) ≤ 2 ^ 32
unfolding cover context_resize
length-cover fd cs f h = ground (arith, resize_from-grows 0 (fd * 3 / 2) cs)

-- Growing the contexts for a descriptor that is out of range makes room for it, from 2 contexts on,
-- and loses no waiting event. The manager is made with 32 contexts.
pub cover_lem :
    (fd : ℕ) (cs : List FdContext)
    → 2 ≤ length cs
    → (waiting (cover fd cs) ≡ waiting cs)
      × (fd < length (cover fd cs))
      × (length cs ≤ length (cover fd cs))
unfolding cover context_resize
cover_lem fd cs h = ground (arith, resize_from-grows 0 (fd * 3 / 2) cs)
