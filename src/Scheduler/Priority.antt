-- ===== src/Scheduler/Priority.antt =====
-- The order of the ready queue of sylar/scheduler.h, `task_cmp`.
use prozac.Prelude.{
  ℕ, zero, suc, ◌+◌, ◌-◌, ◌%◌, ◌^◌, ◌≤◌, ◌<◌, ◌≡◌, ◌≢◌, refl, ◌∙◌, Option, Bool, true, arith, ltb,
  if◌then◌else◌,
}
use native.Mathlib.Nat.{mod-eq_of_lt}
use prozac.Scheduler.{Task, new_task, task_cmp}

-- How many of the draws below `n` pass a test.
abbrev pub count_below : ℕ → (ℕ → Bool) → ℕ
count_below zero p = 0
count_below (suc n) p = let rest = count_below n p in if p n then suc rest else rest

above : ℕ → ℕ → ℕ
above zero p = 0
above (suc n) p = let rest = above n p in if ltb p n then suc rest else rest

above_lem : (n p : ℕ) → above n p ≡ n - suc p
unfolding above
above_lem zero p = omega arith
above_lem (suc n) p = ground (arith, above_lem n p)

cmp-above :
    (t1 t2 : Task) (n : ℕ)
    → t1.priority ≢ t2.priority
    → t1.priority + t2.priority + 2 < 2 ^ 16
    → n ≤ t1.priority + t2.priority + 2
    → count_below n (λ r. task_cmp r t1 t2) ≡ above n t1.priority
unfolding task_cmp above
cmp-above t1 t2 zero d e h = refl
cmp-above t1 t2 (suc n) d e h =
    let wide : (t1.priority + t2.priority + 2) % 2 ^ 16 ≡ t1.priority + t2.priority + 2 =
      omega arith in
    let draw : n % ((t1.priority + t2.priority + 2) % 2 ^ 16) ≡ n = rw wide (mod-eq_of_lt h) in
    ground (arith, draw, cmp-above t1 t2 n d e (omega arith))

pub new_task-priority :
    (fiber : ℕ) (thr : Option ℕ) (pri now : ℕ) → (new_task fiber thr pri now).priority ≤ 9
unfolding new_task
new_task-priority fiber thr pri now = ground arith

-- Between tasks of different priorities the draw decides: of the values that rand() has modulo the
-- sum of both priorities and 2, just the second task's priority and 1 put the first task behind it.
pub task_cmp-chances :
    (u v : Task)
    → u.priority ≤ 9
    → v.priority ≤ 9
    → u.priority ≢ v.priority
    → count_below (u.priority + v.priority + 2) (λ r. task_cmp r u v) ≡ v.priority + 1
task_cmp-chances u v p q d =
    cmp-above u v _ d (omega arith) (omega arith)
    ∙ (above_lem (u.priority + v.priority + 2) u.priority ∙ omega arith)

-- Since each comparison draws again, two tasks of different priorities can each be put behind the
-- other: the comparator is no order of the tasks.
pub task_cmp-asymm_fails :
    (u v : Task)
    → u.priority ≤ 9
    → v.priority ≤ 9
    → u.priority ≢ v.priority
    → (task_cmp (u.priority + 1) u v ≡ true) × (task_cmp (v.priority + 1) v u ≡ true)
unfolding task_cmp
task_cmp-asymm_fails u v p q d =
    let wide : (u.priority + v.priority + 2) % 2 ^ 16 ≡ u.priority + v.priority + 2 = omega arith in
    let wide' : (v.priority + u.priority + 2) % 2 ^ 16 ≡ v.priority + u.priority + 2 =
      omega arith in
    let du : (u.priority + 1) % ((u.priority + v.priority + 2) % 2 ^ 16) ≡ u.priority + 1 =
      rw wide (mod-eq_of_lt (omega arith)) in
    let dv : (v.priority + 1) % ((v.priority + u.priority + 2) % 2 ^ 16) ≡ v.priority + 1 =
      rw wide' (mod-eq_of_lt (omega arith)) in
    (ground (arith, du), ground (arith, dv))
