-- ===== src/Mutex/Tests.antt =====
-- The spinlock of sylar/mutex.h with two threads, and an instance of the theorem about it.
use prozac.Prelude.{◌≤◌, true, false, refl, ◌≡◌, [], ◌∷◌}
use prozac.Mutex.Cas.{
  CasLock, Reach, begins, steps, calls, turns, outside, spinning, inside, inside_count, lock_turn,
  Reach-exclusive,
}

-- The first of two threads locks, and the second turns in its loop.
abbrev contended : CasLock
contended = record { flag = true; places = inside ∷ spinning ∷ [] }

contended-Reach : Reach contended
unfolding lock_turn
contended-Reach =
    steps
      (steps
        (steps (steps (begins (outside ∷ outside ∷ []) (refl, (refl, tt))) (calls 0 refl))
          (calls 1 refl))
        (turns 0 refl))
      (turns 1 refl)

Reach-exclusive_example :
    (inside_count contended.places ≤ 1)
    × (inside_count contended.places ≡ 0 → lock_turn contended.flag ≡ (false, true))
Reach-exclusive_example = Reach-exclusive contended contended-Reach
