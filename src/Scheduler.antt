-- ===== src/Scheduler.antt =====
-- sylar/scheduler.h, sylar/scheduler.cpp: tasks, the loop of a worker thread, the thread that hands
-- tasks to the workers, and submission. The ready queue is ordered by draws of rand(), so which task
-- is on top is an argument; the queue of sleepers is kept in order of the time to wake.
use prozac.Prelude.{
  ℕ, ◌+◌, ◌-◌, ◌%◌, ◌^◌, zero, suc, Bool, true, false, not, ◌&&◌, ◌||◌, Option, none, some, List,
  [], ◌∷◌, ◌++◌, ltb, leb, ◌==◌, if◌then◌else◌, length, Result, ok, err, assert, ◌>>=◌, ◌>>◌,
}
use prozac.Fiber.Defs.{State, Fiber, Thread, Sys, is_state}
use prozac.Fiber.{returns, throws}
use prozac.Fiber
pub mod Priority
pub mod Worker
pub mod Progress
pub mod Alloc
pub mod Bag
pub mod Moves
pub mod System
pub mod Moved
pub mod Working
pub mod Turns
pub mod Rounds
pub mod Loop
pub mod Handing
pub mod Drained
pub mod Threads
mod Tests

pub record Task : Type 0 where
  pub fiber : ℕ
  pub lasttime : ℕ
  pub thread : Option ℕ
  pub priority : ℕ

-- `Task::Task`; `now` is `GetCurrentUS()`, and `none` is the thread -1.
pub new_task : ℕ → Option ℕ → ℕ → ℕ → Task
new_task fiber thr pri now = record {
  fiber = fiber;
  lasttime = now;
  thread = thr;
  priority = if ltb 9 pri then 9 else pri;
}

-- `task_cmp`, where `r` is what rand() gives.
pub task_cmp : ℕ → Task → Task → Bool
task_cmp r t1 t2 =
    if t1.priority == t2.priority
    then ltb t2.lasttime t1.lasttime
    else ltb t1.priority (r % ((t1.priority + t2.priority + 2) % 2 ^ 16))

-- `Task::operator>`
pub task_gt : ℕ → Task → Task → Bool
task_gt r this t =
    if t.priority == this.priority
    then ltb this.lasttime t.lasttime
    else ltb (r % ((t.priority + this.priority + 2) % 2 ^ 16)) this.priority

-- What the body of a fiber does between two switches.
pub data Turn : Type 0 where
  yields holds finishes fails : Turn
  sleeps : ℕ → Turn

-- The state of a worker thread.
pub record WorkerThread : Type 0 where
  pub thread : Thread
  pub count : ℕ
  pub t_init : List Task
  pub t_ready : List Task
  pub t_sleep : List Task
  pub t_hold : List Task

-- What a round meets: whether trylock succeeds, the clock, the turn that a fiber takes when it is
-- run, the place of the task on top of the ready queue, and whether a task that is over holds the
-- last pointer to its fiber.
pub record Round : Type 0 where
  pub locked : Bool
  pub now : ℕ
  pub turn : ℕ → Turn
  pub top : ℕ
  pub last_owner : Bool

-- The body of the fiber `a`, up to its next switch.
pub take_turn : Sys → ℕ → ℕ → Turn → Thread → Result Thread
take_turn sys a now yields t = Fiber.yield sys a t
take_turn sys a now holds t = Fiber.hold sys a t
take_turn sys a now finishes t = Fiber.main_func sys returns t
take_turn sys a now fails t = Fiber.main_func sys throws t
take_turn sys a now (sleeps ms) t = Fiber.sleep sys a now ms t

-- Lines 29-35: `while(!t_init.empty())`.
pub start_all : Sys → List Task → Thread → Result Thread
start_all sys [] t = ok t
start_all sys (x ∷ xs) t = do t ← Fiber.start sys x.fiber t; start_all sys xs t

abbrev wake_of : Thread → Task → ℕ
wake_of t x = (t.fibers x.fiber).waketime

-- Lines 43-56: the sleepers whose time has passed are awoken; second, those that sleep on.
pub awake_all : Sys → ℕ → List Task → Thread → Result (List Task × List Task × Thread)
awake_all sys now [] t = ok ([], [], t)
awake_all sys now (x ∷ xs) t =
    let rest = (do
      t ← Fiber.awake sys x.fiber t
      (woken, asleep, t) ← awake_all sys now xs t
      ok (x ∷ woken, asleep, t)) in
    if ltb (wake_of t x) now then rest else ok ([], x ∷ xs, t)

-- Lines 61-76: each held fiber is run; first, those that are ready then.
pub notify_all : Sys → Round → List Task → Thread → Result (List Task × List Task × Thread)
unfolding take_turn
notify_all sys r [] t = ok ([], [], t)
notify_all sys r (x ∷ xs) t = do
  t ← Fiber.notify sys x.fiber t
  t ← take_turn sys x.fiber r.now (r.turn x.fiber) t
  let back = is_state (t.fibers x.fiber).state State.ready
  (woken, held, t) ← notify_all sys r xs t
  ok (if back then (x ∷ woken, held, t) else (woken, x ∷ held, t))

-- `t_sleep.push`
pub sleep_push : Thread → Task → List Task → List Task
sleep_push t x [] = x ∷ []
sleep_push t x (y ∷ ys) =
    if leb (wake_of t y) (wake_of t x) then y ∷ sleep_push t x ys else x ∷ y ∷ ys

-- The task at a place of the ready queue and the others, the last one if there are not so many.
pub take_top : ℕ → Task → List Task → Task × List Task
take_top n x [] = (x, [])
take_top zero x (y ∷ ys) = (x, y ∷ ys)
take_top (suc n) x (y ∷ ys) = let (top, rest) = take_top n y ys in (top, x ∷ rest)

-- A task pointer goes away; the last one takes the fiber with it.
pub drop_task : Bool → Task → Thread → Result Thread
drop_task last_owner x t = if last_owner then Fiber.release x.fiber t else ok t

-- Lines 86-102: where a task goes after its turn.
pub put_back : Bool → State → Task → WorkerThread → Result WorkerThread
unfolding sleep_push drop_task
put_back last_owner State.hold x w = ok (record w { t_hold = w.t_hold ++ x ∷ [] })
put_back last_owner State.sleep x w = ok (record w { t_sleep = sleep_push w.thread x w.t_sleep })
put_back last_owner State.ready x w = ok (record w { t_ready = w.t_ready ++ x ∷ [] })
put_back last_owner _ x w = do
  t ← drop_task last_owner x w.thread
  ok (record w { thread = t; count = w.count - 1 })

-- Lines 80-104.
pub run_top : Sys → Round → List Task → WorkerThread → Result WorkerThread
unfolding take_top put_back take_turn
run_top sys r [] w = ok w
run_top sys r (y ∷ ys) w = do
  let (x, rest) = take_top r.top y ys
  t ← Fiber.resume sys x.fiber w.thread
  t ← take_turn sys x.fiber r.now (r.turn x.fiber) t
  put_back r.last_owner (t.fibers x.fiber).state x (record w { thread = t; t_ready = rest })

-- Lines 25-38.
pub start_step : Sys → Round → WorkerThread → Result WorkerThread
unfolding start_all
start_step sys r w =
    let started = (do
      t ← start_all sys w.t_init w.thread
      ok (record w { thread = t; t_init = []; t_ready = w.t_ready ++ w.t_init })) in
    if r.locked then started else ok w

-- Lines 40-57.
pub sleep_step : Sys → Round → WorkerThread → Result WorkerThread
unfolding awake_all
sleep_step sys r w = do
  (woken, asleep, t) ← awake_all sys r.now w.t_sleep w.thread
  ok (record w { thread = t; t_sleep = asleep; t_ready = w.t_ready ++ woken })

-- Lines 59-77.
pub hold_step : Sys → Round → WorkerThread → Result WorkerThread
unfolding notify_all
hold_step sys r w = do
  (woken, held, t) ← notify_all sys r w.t_hold w.thread
  ok (record w { thread = t; t_hold = held; t_ready = w.t_ready ++ woken })

pub ready_step : Sys → Round → WorkerThread → Result WorkerThread
unfolding run_top
ready_step sys r w = run_top sys r w.t_ready w

-- One round of the loop of `WokerThread::run` with tasks at hand.
pub round : Sys → Round → WorkerThread → Result WorkerThread
unfolding start_step sleep_step hold_step ready_step
round sys r w = do
  w ← start_step sys r w
  w ← sleep_step sys r w
  w ← hold_step sys r w
  ready_step sys r w

-- The loop of `WokerThread::run`, from line 19: for each time round, `m_stop` as it is read and what a
-- round meets. `m_idle` leaves the worker as it is. Second, whether the loop has ended.
pub worker_loop : Sys → List (Bool × Round) → WorkerThread → Result (WorkerThread × Bool)
unfolding round
worker_loop sys [] w = ok (w, false)
worker_loop sys ((stop, r) ∷ rs) w =
    let next = (do w ← if w.count == 0 then ok w else round sys r w; worker_loop sys rs w) in
    if not stop || ltb 0 w.count then next else ok (w, true)

-- The scheduler as `submit` and the allocating thread see it: the queue of tasks, their number, the
-- switch, and the workers.
pub record Scheduler : Type 0 where
  pub tasks : List Task
  pub count : ℕ
  pub stop : Bool
  pub workers : List WorkerThread

-- `submit(task)` by a thread; `last_owner` says whether the task holds the last pointer to its fiber.
unfoldable pub submit : Sys → Bool → Task → Scheduler → Thread → Result (Scheduler × Thread)
unfolding drop_task
submit sys last_owner x s t =
    let dropped = (do t ← drop_task last_owner x t; ok (s, t)) in
    let refused = (do t ← Fiber.destroy sys x.fiber t; t ← drop_task last_owner x t; ok (s, t)) in
    if s.stop
    then dropped
    else (if ltb (length s.tasks) 10000
        then ok (record s { tasks = s.tasks ++ x ∷ []; count = (s.count + 1) % 2 ^ 64 }, t)
        else refused)

-- Lines 135-144 of the allocating thread, with `l` rounds left: the tasks that stay, and the worker.
pub give : ℕ → List Task → WorkerThread → List Task × WorkerThread
give zero ts w = (ts, w)
give (suc l) [] w = ([], w)
give (suc l) (x ∷ ts) w = give l ts (record w { t_init = w.t_init ++ x ∷ []; count = w.count + 1 })

-- The worker at a place is given tasks; second, the tasks that stay.
pub give_at : ℕ → List Task → List WorkerThread → List WorkerThread × List Task
unfolding give
give_at k ts [] = ([], ts)
give_at zero ts (w ∷ ws) =
    let (ts', w') = give 10 ts w in if ltb w.count 100000 then (w' ∷ ws, ts') else (w ∷ ws, ts)
give_at (suc k) ts (w ∷ ws) = let (ws', ts') = give_at k ts ws in (w ∷ ws', ts')

-- One round of the loop of `AllocThread::run`, with its index `k`.
pub alloc_round : ℕ → Scheduler → ℕ × Scheduler
unfolding give_at
alloc_round k s =
    let n = length s.workers in
    let k' = if leb n k then 0 else k in
    let (ws, ts) = give_at k' s.tasks s.workers in
    if n == 0 then (k, s) else (
      k' + 1,
      record s { tasks = ts; count = s.count - (length s.tasks - length ts); workers = ws },
    )

-- The loop of `AllocThread::run`, for a number of times round; last, whether it has ended.
pub alloc_loop : ℕ → ℕ → Scheduler → ℕ × Scheduler × Bool
unfolding alloc_round
alloc_loop zero k s = (k, s, false)
alloc_loop (suc n) k s =
    let (k', s') = alloc_round k s in
    let next = alloc_loop n k' s' in if not s.stop || ltb 0 s.count then next else (k, s, true)

-- A worker thread that has just started: it has its main fiber and no tasks.
pub new_worker : Sys → Result WorkerThread
new_worker sys = do
  (a, t) ← Fiber.get_this sys Fiber.init
  ok (record { thread = t; count = 0; t_init = []; t_ready = []; t_sleep = []; t_hold = [] })

pub new_workers : Sys → ℕ → Result (List WorkerThread)
unfolding new_worker
new_workers sys zero = ok []
new_workers sys (suc n) = do w ← new_worker sys; ws ← new_workers sys n; ok (w ∷ ws)

-- `Scheduler::start` with `n` threads: the workers of an earlier start stay in the list.
pub start : Sys → ℕ → Scheduler → Result Scheduler
unfolding new_workers
start sys n s =
    let started = (do
      ws ← new_workers sys n
      ok (record s { stop = false; workers = s.workers ++ ws; tasks = [] })) in
    if s.stop then started else ok s

-- `Scheduler::stop`, but for its waiting for the threads.
pub stop : Scheduler → Scheduler
stop s = record s { stop = true }
