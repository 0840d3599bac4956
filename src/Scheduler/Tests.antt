-- ===== src/Scheduler/Tests.antt =====
-- Tasks and workers of sylar/scheduler.cpp at concrete inputs, and instances of the theorems about
-- them.
use prozac.Prelude.{
  ℕ, ◌+◌, ◌≤◌, ◌≡◌, refl, true, false, none, List, [], ◌∷◌, ◌++◌, length, ok, err, assertion, Gives,
  codes, Bool, inl, inr, arith,
}
use prozac.Fiber.Defs.{State, Thread, all_ok}
use prozac.Fiber.Reachable.{Reach-IsValid}
use prozac.Fiber
use prozac.Fiber.Tests.{
  fresh_thread, with_child, with_child-Reach, held_child, held_child-Reach, held_child_waits,
  with_child_alive, with_child_made, with_child_runs,
}
use prozac.Scheduler.{
  Task, Turn, Round, WorkerThread, Scheduler, alloc_round, alloc_loop, submit, start, new_workers,
  new_worker, round, worker_loop,
}
use prozac.Scheduler.Alloc.{IsCounted, Counted}
use prozac.Scheduler.Bag.{bag, all_tasks, tasks_of_all}
use prozac.Scheduler.System.{Reach, begins, submits, allocs, new_scheduler, TakenOut, Reach-bag}
use prozac.Scheduler.Working.{IsWorking}
use prozac.Scheduler.Rounds.{round-IsWorking}
use prozac.Scheduler.Drained.{sole, given, RunOut, scheduler_drains}
use prozac.Scheduler.Threads.{Pthread, Act, Step, live, no_threads}
use prozac.Scheduler.Threads.Weights.{weigh, is_made, is_joined, is_detached}
use prozac.Scheduler.Threads.Joined.{threads_joined}
use prozac.Scheduler.Worker.{only_held, round_lost}

abbrev task_of : ℕ → ℕ → Task
task_of a pri = record { fiber = a; lasttime = 0; thread = none; priority = pri }

abbrev worker : Thread → List Task → List Task → WorkerThread
worker t is hs = record {
  thread = t;
  count = length is + length hs;
  t_init = is;
  t_ready = [];
  t_sleep = [];
  t_hold = hs;
}

abbrev round_of : Turn → Round
round_of turn = record { locked = true; now = 100; turn = λ _. turn; top = 0; last_owner = false }

abbrev two_tasks : List Task
two_tasks = task_of 1 5 ∷ task_of 2 3 ∷ []

abbrev two_workers : Scheduler
two_workers = record {
  tasks = two_tasks;
  count = 2;
  stop = false;
  workers = worker (with_child State.init) [] [] ∷ worker held_child [] [] ∷ [];
}

two_workers-IsCounted : IsCounted two_workers
two_workers-IsCounted = record { queue = refl; each = (refl, (refl, tt)) }

abbrev submitted : Scheduler
submitted = record two_workers { tasks = two_tasks ++ task_of 3 5 ∷ []; count = 3 }

submit-done : submit all_ok false (task_of 3 5) two_workers held_child ≡ ok (submitted, held_child)
unfolding submit
submit-done = refl

round_lost_example :
    (u : WorkerThread) × (round all_ok
        (round_of Turn.finishes)
        (only_held held_child 1 (task_of 1 5))
      ≡ ok u)
    × (u.t_hold ≡ task_of 1 5 ∷ [])
    × (round all_ok (round_of Turn.yields) u ≡ err assertion)
round_lost_example =
    round_lost (round_of Turn.finishes) (round_of Turn.yields) 0 7 1 (task_of 1 5) held_child
      (Reach-IsValid held_child-Reach) refl held_child_waits.0 held_child_waits.1 held_child_waits.2
      refl

abbrev stopped : Scheduler
stopped = record { tasks = []; count = 0; stop = true; workers = worker held_child [] [] ∷ [] }

-- A worker with one new task.
abbrev ready_to_go : WorkerThread
ready_to_go = worker (with_child State.init) (task_of 1 5 ∷ []) []

ready_to_go-IsWorking : IsWorking 0 ready_to_go
ready_to_go-IsWorking = record {
  valid = Reach-IsValid with_child-Reach;
  new = (
    (refl, with_child_made State.init, with_child_alive State.init, with_child_runs State.init),
    tt,
  );
  ready = tt;
  asleep = tt;
  none_held = refl;
  apart = λ a. ground arith;
}

round-IsWorking_example :
    Gives (λ u. IsWorking 0 u × Counted u) (round all_ok (round_of (Turn.sleeps 20)) ready_to_go)
round-IsWorking_example =
    round-IsWorking 0 (round_of (Turn.sleeps 20)) ready_to_go (λ a. tt) ready_to_go-IsWorking refl

-- The fiber yields, then ends; then the loop is told to stop.
abbrev meets : List (Bool × Round)
meets =
    (false, round_of Turn.yields)
    ∷ (true, round_of Turn.finishes)
    ∷ (true, round_of Turn.yields)
    ∷ []

-- A worker with no task yet, and one task that waits for it.
abbrev free : WorkerThread
free = worker (with_child State.init) [] []

scheduler_drains_example :
    (i : ℕ) × (alloc_loop 2 0 (sole (task_of 1 5 ∷ []) free)
      ≡ (i, sole [] (given (task_of 1 5 ∷ []) free), true))
    × Gives
        (RunOut (task_of 1 5 ∷ []) free)
        (worker_loop all_ok meets (given (task_of 1 5 ∷ []) free))
scheduler_drains_example =
    scheduler_drains 0 2 0 meets (task_of 1 5 ∷ []) free
      (record {
        valid = Reach-IsValid with_child-Reach;
        new = tt;
        ready = tt;
        asleep = tt;
        none_held = refl;
        apart = λ a. omega arith;
      })
      refl refl
      (
        (refl, with_child_made State.init, with_child_alive State.init, with_child_runs State.init),
        tt,
      )
      (λ a. ground arith) (omega arith) (omega arith)
      (inr ((λ a. tt), inl (((λ a. refl), refl), inl refl)))

-- A scheduler with two threads that is stopped, started again, and then goes.
abbrev pthread : Pthread
pthread = record { creates = λ i. true; ids = λ i. 100 + i; joins = λ i. true }

threads_joined_example :
    (acts : List Act) × (live pthread 2
        (codes "main")
        (Step.starts ∷ Step.stops ∷ Step.starts ∷ [])
        no_threads
      ≡ ok acts)
    × (weigh is_made acts ≡ weigh is_joined acts)
    × (weigh is_detached acts ≡ 0)
threads_joined_example =
    threads_joined pthread (λ i. refl) (λ i. refl) 2 (codes "main") (Step.stops ∷ Step.starts ∷ [])

-- One worker has started; a task is submitted, handed to the worker and run once.
begun : Scheduler
unfolding fresh_thread
begun = record { tasks = []; count = 0; stop = false; workers = worker fresh_thread [] [] ∷ [] }

abbrev queued : Scheduler
queued = record begun { tasks = task_of 1 5 ∷ []; count = 1 }

queued-Reach : Reach all_ok queued 0 (task_of 1 5 ∷ [])
unfolding begun fresh_thread start new_workers new_worker new_scheduler submit Fiber.get_this
    Fiber.init
queued-Reach = submits false (task_of 1 5) fresh_thread fresh_thread (begins 1 refl) refl

Reach-bag_example :
    IsCounted (alloc_round 0 queued).1
    × (length (alloc_round 0 queued).1.tasks ≤ 10000)
    × ((over : List Task) × TakenOut all_ok (allocs queued-Reach) over
        × (bag (task_of 1 5 ∷ []) ≡ bag (all_tasks (alloc_round 0 queued).1 ++ over)))
Reach-bag_example =
    Reach-bag all_ok (alloc_round 0 queued).1 (alloc_round 0 queued).0 (task_of 1 5 ∷ [])
      (allocs queued-Reach)

handed : tasks_of_all (alloc_round 0 queued).1.workers ≡ task_of 1 5 ∷ []
unfolding alloc_round begun
handed = refl
