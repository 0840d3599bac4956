-- ===== src/Mutex.antt =====
-- The guards ScopedLock, ReadScopedLock and WriteScopedLock of sylar/mutex.h. A mutex is a state with
-- two operations: `take` is its lock, rdlock or wrlock, and `give` its unlock.
use prozac.Prelude.{
  ℕ, zero, suc, ◌+◌, ◌-◌, ◌≡◌, refl, ap, ◌∙◌, Bool, true, false, List, [], ◌∷◌, arith,
  if◌then◌else◌,
}
pub mod Cas
mod Tests

pub record Lockable : Type 1 where
  pub State : Type 0
  pub take : State → State
  pub give : State → State

-- `m_locked` of a guard, and its mutex.
pub record Guard (m : Lockable) : Type 0 where
  pub locked : Bool
  pub mutex : m.State

-- The two calls that a guard offers.
pub data Use : Type 0 where
  lock unlock : Use

module _ (m : Lockable) where
  -- The constructor.
  pub open_guard : m.State → Guard m
  open_guard s = record { locked = true; mutex = m.take s }

  pub guard_lock : Guard m → Guard m
  guard_lock g = if g.locked then g else record { locked = true; mutex = m.take g.mutex }

  pub guard_unlock : Guard m → Guard m
  guard_unlock g = if g.locked then record { locked = false; mutex = m.give g.mutex } else g

  pub guard_use : Use → Guard m → Guard m
  unfolding guard_lock guard_unlock
  guard_use lock g = guard_lock g
  guard_use unlock g = guard_unlock g

  pub guard_uses : List Use → Guard m → Guard m
  unfolding guard_use
  guard_uses [] g = g
  guard_uses (u ∷ us) g = guard_uses us (guard_use u g)

  -- The destructor.
  pub close_guard : Guard m → m.State
  unfolding guard_unlock
  close_guard g = (guard_unlock g).mutex

-- A guard has taken its mutex just once when it says that it is locked, and not at all otherwise.
abbrev Balanced : (m : Lockable) → m.State → Guard m → Type 0
Balanced m s g = g.mutex ≡ (if g.locked then m.take s else s)

module _ (m : Lockable) (paired : (s : m.State) → m.give (m.take s) ≡ s) where
  guard_use-Balanced :
      (u : Use) (s : m.State) (g : Guard m) → Balanced m s g → Balanced m s (guard_use m u g)
  unfolding guard_use
  guard_use-Balanced lock s g b = ground (arith, b)
  guard_use-Balanced unlock s g b = ground (arith, b, paired s)

  guard_uses-Balanced :
      (us : List Use) (s : m.State) (g : Guard m)
      → Balanced m s g
      → Balanced m s (guard_uses m us g)
  unfolding guard_uses
  guard_uses-Balanced [] s g b = b
  guard_uses-Balanced (u ∷ us) s g b =
      guard_uses-Balanced us s (guard_use m u g) (guard_use-Balanced u s g b)

  close_guard-Balanced : (s : m.State) (g : Guard m) → Balanced m s g → close_guard m g ≡ s
  unfolding close_guard
  close_guard-Balanced s g b = ground (arith, b, paired s)

  -- However a guard is locked and unlocked in between, its mutex is at the end as it was before: it is
  -- never taken twice and never left taken. An unlock undoes a lock.
  pub close_guard-guard_uses :
      (us : List Use) (s : m.State) → close_guard m (guard_uses m us (open_guard m s)) ≡ s
  unfolding open_guard
  close_guard-guard_uses us s =
      close_guard-Balanced s (guard_uses m us (open_guard m s))
        (guard_uses-Balanced us s (open_guard m s) refl)
