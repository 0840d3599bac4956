-- ===== src/Scheduler/Bag.antt =====
-- The tasks of sylar/scheduler.cpp without the order or the queue that they are in: a bag, in which a
-- task is as often as it is queued.
use mathlib.Core.Quot
use mathlib.Core.Quot.{Quot, Quot-set}
use prozac.Prelude.{
  ℕ, zero, suc, ◌+◌, ◌≡◌, refl, sym, some, ap, ◌∙◌, Bool, List, [], ◌∷◌, ◌++◌, arith, ltb,
  if◌then◌else◌, if_intro, inl, inr, ◌⊎◌, OnOk, OnOk-any, OnOk->>=, OnOk-mono, Result, ok, err,
}
use prozac.Fiber.Defs.{State, Fiber, Thread, Sys}
use prozac.Fiber
use prozac.Fiber.{returns, throws}
use prozac.Fiber.States.{IsAt, resume_current, yield-IsAt, hold-IsAt, sleep-IsAt, main_func-IsAt}
use prozac.Scheduler.{
  Task, Turn, WorkerThread, Round, Scheduler, take_turn, start_all, awake_all, notify_all,
  sleep_push, take_top, put_back, drop_task, run_top, start_step, sleep_step, hold_step, ready_step,
  round,
}

-- How many tasks a test holds of.
abbrev pub tally : (Task → Bool) → List Task → ℕ
tally p [] = 0
tally p (x ∷ xs) = (if p x then 1 else 0) + tally p xs

-- Two lists hold the same tasks, as often.
abbrev pub SameTasks : List Task → List Task → Type 0
SameTasks xs ys = (p : Task → Bool) → tally p xs ≡ tally p ys

abbrev pub Bag : Type 0
Bag = Quot SameTasks

abbrev pub bag : List Task → Bag
bag xs = Quot.mk xs

pub bag-eq : (xs ys : List Task) → SameTasks xs ys → bag xs ≡ bag ys
bag-eq xs ys h = Quot.sound h

-- The tasks of a worker, and those of a scheduler, those that wait first.
abbrev pub tasks_of : WorkerThread → List Task
tasks_of w = w.t_init ++ w.t_ready ++ w.t_sleep ++ w.t_hold

abbrev pub tasks_of_all : List WorkerThread → List Task
tasks_of_all [] = []
tasks_of_all (w ∷ ws) = tasks_of w ++ tasks_of_all ws

abbrev pub all_tasks : Scheduler → List Task
all_tasks s = s.tasks ++ tasks_of_all s.workers

module _ (p : Task → Bool) where
  pub tally-append : (xs ys : List Task) → tally p (xs ++ ys) ≡ tally p xs + tally p ys
  tally-append [] ys = omega arith
  tally-append (x ∷ xs) ys = omega (arith, tally-append xs ys)

  abbrev pub tally_of : WorkerThread → ℕ
  tally_of w = tally p w.t_init + tally p w.t_ready + tally p w.t_sleep + tally p w.t_hold

  pub tally-tasks_of : (w : WorkerThread) → tally p (tasks_of w) ≡ tally_of w
  tally-tasks_of w = omega (
    arith,
    tally-append (w.t_init ++ w.t_ready ++ w.t_sleep) w.t_hold,
    tally-append (w.t_init ++ w.t_ready) w.t_sleep,
    tally-append w.t_init w.t_ready,
  )

  abbrev pub Split : List Task → List Task × List Task × Thread → Type 0
  Split xs (ys, zs, t) = tally p ys + tally p zs ≡ tally p xs

  pub awake_all-Split :
      (sys : Sys) (now : ℕ) (xs : List Task) (t : Thread) → OnOk (Split xs) (awake_all sys now xs t)
  unfolding awake_all
  awake_all-Split sys now [] t = refl
  awake_all-Split sys now (x ∷ xs) t =
      if_intro (OnOk (Split (x ∷ xs))) (ltb (t.fibers x.fiber).waketime now) _ _
        (λ _. OnOk-any (Split (x ∷ xs)) (Fiber.awake sys x.fiber t) _ (λ t'.
          OnOk->>= (Split xs) (Split (x ∷ xs)) (awake_all sys now xs t') _
            (awake_all-Split sys now xs t') (λ r e. omega (arith, e))))
        (λ _. omega arith)

  notify_all-Split :
      (sys : Sys) (r : Round) (xs : List Task) (t : Thread)
      → OnOk (Split xs) (notify_all sys r xs t)
  unfolding notify_all
  notify_all-Split sys r [] t = refl
  notify_all-Split sys r (x ∷ xs) t = OnOk-any (Split (x ∷ xs)) (Fiber.notify sys x.fiber t) _ λ t'.
      OnOk-any (Split (x ∷ xs)) (take_turn sys x.fiber r.now (r.turn x.fiber) t') _ λ u.
        OnOk->>= (Split xs) (Split (x ∷ xs)) (notify_all sys r xs u) _ (notify_all-Split sys r xs u)
          (λ q e. ground arith)

  pub tally-take_top :
      (n : ℕ) (x : Task) (xs : List Task)
      → tally p ((take_top n x xs).0 ∷ (take_top n x xs).1) ≡ tally p (x ∷ xs)
  unfolding take_top
  tally-take_top n x [] = refl
  tally-take_top zero x (y ∷ ys) = refl
  tally-take_top (suc n) x (y ∷ ys) = omega (arith, tally-take_top n y ys)

  pub tally-sleep_push :
      (t : Thread) (x : Task) (xs : List Task) → tally p (sleep_push t x xs) ≡ tally p (x ∷ xs)
  unfolding sleep_push
  tally-sleep_push t x [] = refl
  tally-sleep_push t x (y ∷ ys) = ground (arith, tally-sleep_push t x ys)

  -- The worker has the same tasks.
  abbrev Keeps : WorkerThread → WorkerThread → Type 0
  Keeps w u = tally_of u ≡ tally_of w

  start_step-Keeps :
      (sys : Sys) (r : Round) (w : WorkerThread) → OnOk (Keeps w) (start_step sys r w)
  unfolding start_step
  start_step-Keeps sys r w =
      let more = tally-append w.t_ready w.t_init in
      if_intro (OnOk (Keeps w)) r.locked _ _
        (λ _. OnOk-any (Keeps w) (start_all sys w.t_init w.thread) _ λ t. omega (arith, more))
        (λ _. refl)

  sleep_step-Keeps :
      (sys : Sys) (r : Round) (w : WorkerThread) → OnOk (Keeps w) (sleep_step sys r w)
  unfolding sleep_step
  sleep_step-Keeps sys r w =
      OnOk->>= (Split w.t_sleep) (Keeps w) (awake_all sys r.now w.t_sleep w.thread) _
        (awake_all-Split sys r.now w.t_sleep w.thread)
        λ q e. let more = tally-append w.t_ready q.0 in omega (arith, more, e)

  hold_step-Keeps : (sys : Sys) (r : Round) (w : WorkerThread) → OnOk (Keeps w) (hold_step sys r w)
  unfolding hold_step
  hold_step-Keeps sys r w =
      OnOk->>= (Split w.t_hold) (Keeps w) (notify_all sys r w.t_hold w.thread) _
        (notify_all-Split sys r w.t_hold w.thread)
        λ q e. let more = tally-append w.t_ready q.0 in omega (arith, more, e)

-- A worker has the same tasks as before, or all but one.
abbrev pub Same : WorkerThread → WorkerThread → Type 0
Same w u = (p : Task → Bool) → tally_of p u ≡ tally_of p w

abbrev pub AllBut : Task → WorkerThread → WorkerThread → Type 0
AllBut x w u = (p : Task → Bool) → tally_of p u + (if p x then 1 else 0) ≡ tally_of p w

-- A task has left the worker, and its fiber has run to its end.
abbrev pub Leaves : Task → WorkerThread → WorkerThread → Type 0
Leaves x w u = AllBut x w u × IsAt x.fiber State.destroy u.thread

abbrev pub KeepsTasks : WorkerThread → WorkerThread → Type 0
KeepsTasks w u = Same w u ⊎ ((x : Task) × Leaves x w u)

-- The states of fibers are as they were when the pointer of a task has gone.
pub drop_task-fibers :
    (lo : Bool) (x : Task) (t : Thread) → OnOk (λ u. u.fibers ≡ t.fibers) (drop_task lo x t)
unfolding drop_task Fiber.release
drop_task-fibers lo x t = ground arith

-- The states in which a turn leaves its fiber.
abbrev IsLeft : State → Type 0
IsLeft State.hold = Unit
IsLeft State.sleep = Unit
IsLeft State.ready = Unit
IsLeft State.destroy = Unit
IsLeft _ = ⊥

take_turn-IsLeft :
    (sys : Sys) (a now : ℕ) (turn : Turn) (t : Thread)
    → t.this_fiber ≡ some a
    → OnOk (λ u. IsLeft (u.fibers a).state) (take_turn sys a now turn t)
unfolding take_turn
take_turn-IsLeft sys a now Turn.yields t e =
    OnOk-mono _ (λ u. IsLeft (u.fibers a).state) (Fiber.yield sys a t) (yield-IsAt sys a t)
      λ u h. rw h tt
take_turn-IsLeft sys a now Turn.holds t e =
    OnOk-mono _ (λ u. IsLeft (u.fibers a).state) (Fiber.hold sys a t) (hold-IsAt sys a t)
      λ u h. rw h tt
take_turn-IsLeft sys a now Turn.finishes t e =
    OnOk-mono _ (λ u. IsLeft (u.fibers a).state) (Fiber.main_func sys returns t)
      (main_func-IsAt sys a returns t e) λ u h. rw h tt
take_turn-IsLeft sys a now Turn.fails t e =
    OnOk-mono _ (λ u. IsLeft (u.fibers a).state) (Fiber.main_func sys throws t)
      (main_func-IsAt sys a throws t e) λ u h. rw h tt
take_turn-IsLeft sys a now (Turn.sleeps ms) t e =
    OnOk-mono _ (λ u. IsLeft (u.fibers a).state) (Fiber.sleep sys a now ms t)
      (sleep-IsAt sys a now ms t) λ u h. rw h tt

put_back-Goes :
    (lo : Bool) (s : State) (x : Task) (w u : WorkerThread)
    → s ≡ (u.thread.fibers x.fiber).state
    → IsLeft s
    → AllBut x w u
    → OnOk (KeepsTasks w) (put_back lo s x u)
unfolding put_back
put_back-Goes lo State.hold x w u e l h =
    inl (λ p. omega (arith, tally-append p u.t_hold (x ∷ []), h p))
put_back-Goes lo State.sleep x w u e l h =
    inl (λ p. omega (arith, tally-sleep_push p u.thread x u.t_sleep, h p))
put_back-Goes lo State.ready x w u e l h =
    inl (λ p. omega (arith, tally-append p u.t_ready (x ∷ []), h p))
put_back-Goes lo State.destroy x w u e l h =
    OnOk->>= (λ t. t.fibers ≡ u.thread.fibers) (KeepsTasks w) (drop_task lo x u.thread) _
      (drop_task-fibers lo x u.thread)
      λ t k. inr (x, (h, ap (λ (f : ℕ → Fiber). (f x.fiber).state) k ∙ sym e))
put_back-Goes lo _ x w u e l h = absurd l

run_top-Goes :
    (sys : Sys) (r : Round) (w : WorkerThread) (xs : List Task)
    → w.t_ready ≡ xs
    → OnOk (KeepsTasks w) (run_top sys r xs w)
unfolding run_top
run_top-Goes sys r w [] e = inl (λ p. refl)
run_top-Goes sys r w (y ∷ ys) e =
    let x = (take_top r.top y ys).0 in
    OnOk->>= (λ t. t.this_fiber ≡ some x.fiber) (KeepsTasks w) (Fiber.resume sys x.fiber w.thread) _
      (resume_current sys x.fiber w.thread)
      λ t current.
        OnOk->>= (λ u. IsLeft (u.fibers x.fiber).state) (KeepsTasks w)
          (take_turn sys x.fiber r.now (r.turn x.fiber) t) _
          (take_turn-IsLeft sys x.fiber r.now (r.turn x.fiber) t current)
          λ u left.
            put_back-Goes r.last_owner (u.fibers x.fiber).state x w
              (record w { thread = u; t_ready = (take_top r.top y ys).1 }) refl left
              λ p. omega (arith, tally-take_top p r.top y ys, ap (tally p) e)

pub OnOk-every :
    {A B : Type 0} (P : B → A → Type 0) (m : Result A)
    → ((b : B) → OnOk (P b) m)
    → OnOk (λ a. (b : B) → P b a) m
OnOk-every P (ok a) h = h
OnOk-every P (err e) h = tt

pub round_tasks : (sys : Sys) (r : Round) (w : WorkerThread) → OnOk (KeepsTasks w) (round sys r w)
unfolding round ready_step
round_tasks sys r w =
    OnOk->>= (Same w) (KeepsTasks w) (start_step sys r w) _
      (OnOk-every (λ p. Keeps p w) (start_step sys r w) (λ p. start_step-Keeps p sys r w))
      λ w1 k1.
        OnOk->>= (Same w1) (KeepsTasks w) (sleep_step sys r w1) _
          (OnOk-every (λ p. Keeps p w1) (sleep_step sys r w1) (λ p. sleep_step-Keeps p sys r w1))
          λ w2 k2.
            OnOk->>= (Same w2) (KeepsTasks w) (hold_step sys r w2) _
              (OnOk-every (λ p. Keeps p w2) (hold_step sys r w2) (λ p. hold_step-Keeps p sys r w2))
              λ w3 k3.
                OnOk-mono (KeepsTasks w3) (KeepsTasks w) (run_top sys r w3.t_ready w3)
                  (run_top-Goes sys r w3 w3.t_ready refl)
                  (λ u g. elim g [
                    | inl e ↦ inl (λ p. omega (arith, e p, k1 p, k2 p, k3 p))
                    | inr (x, (e, o)) ↦ inr (x, ((λ p. omega (arith, e p, k1 p, k2 p, k3 p)), o))
                  ])

-- The bag of a worker's tasks after a round: the same, or one task fewer.
abbrev pub BagGoes : WorkerThread → WorkerThread → Type 0
BagGoes w u =
    (bag (tasks_of u) ≡ bag (tasks_of w)) ⊎ ((x : Task) × (bag (x ∷ tasks_of u) ≡ bag (tasks_of w)))

-- A round of a worker that does not abort keeps the bag of its tasks, but for one task at most.
pub round-bag : (sys : Sys) (r : Round) (w : WorkerThread) → OnOk (BagGoes w) (round sys r w)
round-bag sys r w =
    OnOk-mono (KeepsTasks w) (BagGoes w) (round sys r w) (round_tasks sys r w) λ u g. elim g [
      | inl e ↦ inl (
          bag-eq (tasks_of u) (tasks_of w)
            (λ p. omega (arith, e p, tally-tasks_of p u, tally-tasks_of p w)))
      | inr (x, (e, o)) ↦ inr (
        x,
        bag-eq (x ∷ tasks_of u) (tasks_of w)
            (λ p. omega (arith, e p, tally-tasks_of p u, tally-tasks_of p w)),
      )
    ]
