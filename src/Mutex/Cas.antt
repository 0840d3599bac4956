-- ===== src/Mutex/Cas.antt =====
-- `CASLock` of sylar/mutex.h: threads that lock it, spin and unlock it, in any order.
use prozac.Prelude.{
  ℕ, zero, suc, ◌+◌, ◌≤◌, ◌≡◌, refl, Bool, true, false, some, List, [], ◌∷◌, arith, if◌then◌else◌,
  get_elem?, set, All,
}

-- One turn of the loop of `CASLock::lock`: whether it goes on, and the flag.
unfoldable pub lock_turn : Bool → Bool × Bool
lock_turn flag = (flag, true)

-- `CASLock::unlock`
unfoldable pub unlock : Bool → Bool
unlock flag = false

-- Where a thread is: not in the lock, in the loop of `lock`, or past it.
pub data Place : Type 0 where
  outside spinning inside : Place

pub record CasLock : Type 0 where
  pub flag : Bool
  pub places : List Place

-- A thread calls `lock`, takes a turn of its loop, or calls `unlock`, which only one past `lock` does.
pub data Step : CasLock → CasLock → Type 0 where
  calls :
      {s : CasLock} (i : ℕ)
      → get_elem? s.places i ≡ some outside
      → Step s (record s { places = set s.places i spinning })
  turns :
      {s : CasLock} (i : ℕ)
      → get_elem? s.places i ≡ some spinning
      → Step s (record {
        flag = (lock_turn s.flag).1;
        places = if (lock_turn s.flag).0 then s.places else set s.places i inside;
      })
  unlocks :
      {s : CasLock} (i : ℕ)
      → get_elem? s.places i ≡ some inside
      → Step s (record { flag = unlock s.flag; places = set s.places i outside })

abbrev pub IsOutside : Place → Type 0
IsOutside p = p ≡ outside

-- From a new lock, with any number of threads outside.
pub data Reach : CasLock → Type 0 where
  begins :
      (places : List Place)
      → All IsOutside places
      → Reach (record { flag = false; places = places })
  steps : {s u : CasLock} → Reach s → Step s u → Reach u

abbrev one : Place → ℕ
one inside = 1
one _ = 0

-- How many threads are past `lock`.
abbrev pub inside_count : List Place → ℕ
inside_count [] = 0
inside_count (p ∷ ps) = one p + inside_count ps

inside_count-set :
    (ps : List Place) (i : ℕ) (p q : Place)
    → get_elem? ps i ≡ some p
    → inside_count (set ps i q) + one p ≡ inside_count ps + one q
inside_count-set [] i p q at = cc
inside_count-set (r ∷ ps) zero p q at = ground arith
inside_count-set (r ∷ ps) (suc i) p q at = omega (arith, inside_count-set ps i p q at)

outside_count : (ps : List Place) → All IsOutside ps → inside_count ps ≡ 0
outside_count [] h = refl
outside_count (p ∷ ps) h = ground (arith, outside_count ps h.1)

abbrev pub IsHeld : CasLock → Type 0
IsHeld s = inside_count s.places ≡ (if s.flag then 1 else 0)

Step-IsHeld : (s u : CasLock) → Step s u → IsHeld s → IsHeld u
unfolding lock_turn unlock
Step-IsHeld s u (calls i at) h = ground (arith, inside_count-set s.places i outside spinning at)
Step-IsHeld s u (turns i at) h = ground (arith, inside_count-set s.places i spinning inside at)
Step-IsHeld s u (unlocks i at) h = ground (arith, inside_count-set s.places i inside outside at)

Reach-IsHeld : (s : CasLock) → Reach s → IsHeld s
Reach-IsHeld s (begins places h) = outside_count places h
Reach-IsHeld u (steps {s = s} before step) = Step-IsHeld s u step (Reach-IsHeld s before)

-- Whatever the order of the threads' steps, at most one of them is past `lock` and not yet at `unlock`; and
-- when none is, the next turn of any thread in the loop of `lock` ends that loop.
pub Reach-exclusive :
    (s : CasLock)
    → Reach s
    → (inside_count s.places ≤ 1) × (inside_count s.places ≡ 0 → lock_turn s.flag ≡ (false, true))
unfolding lock_turn
Reach-exclusive s reached =
    let held = Reach-IsHeld s reached in (ground (arith, held), λ none. ground (arith, held))
