-- ===== src/Scheduler/Threads.antt =====
-- The threads of a scheduler (sylar/scheduler.cpp): `start` makes the workers and the allocating thread,
-- `stop` joins them, and the destructor lets their objects go. The answers of pthread are arguments.
use prozac.Prelude.{
  ℕ, zero, suc, ◌+◌, ◌≡◌, refl, Bool, true, false, Option, none, some, List, [], ◌∷◌, ◌++◌, arith,
  codes, decimal, if◌then◌else◌, length, Result, ok, err, thrown, null_deref, or_throw, ◌>>=◌,
  Gives,
}
use prozac.Thread.{Thread, Release, joined, detached, new_thread, wait, run, join, destroy}
pub mod Weights
pub mod Joined

-- The threads that a scheduler has, and its switch.
pub record Threads : Type 0 where
  pub workers : List Thread
  pub alloc : Option Thread
  pub stop : Bool

-- What pthread_create and pthread_join answer for each thread of a scheduler, by its place, and the id
-- that the thread finds.
pub record Pthread : Type 0 where
  pub creates : ℕ → Bool
  pub ids : ℕ → ℕ
  pub joins : ℕ → Bool

-- What happens to threads, in order.
pub data Act : Type 0 where
  creates : Act
  ends : Release → Act

pub acts_of : List Release → List Act
acts_of [] = []
acts_of (r ∷ rs) = Act.ends r ∷ acts_of rs

-- A thread's constructor, which waits until the new thread has given its id and is at work.
pub launch : Bool → ℕ → List ℕ → Result Thread
unfolding new_thread run wait
launch created tid name = do
  t ← or_throw (new_thread created none name)
  or_throw (wait (run tid t).0)

-- `WokerThread::WokerThread` and `AllocThread::AllocThread`
pub new_woker_thread : Bool → ℕ → List ℕ → Result Thread
unfolding launch
new_woker_thread created tid name = launch created tid name

pub new_alloc_thread : Bool → ℕ → List ℕ → Result Thread
unfolding launch
new_alloc_thread created tid name = launch created tid name

-- The loop of `start`, from the worker `i` on, with `n` to go.
pub start_wokers : Pthread → List ℕ → ℕ → ℕ → Result (List Thread × List Act)
unfolding new_woker_thread
start_wokers p name i zero = ok ([], [])
start_wokers p name i (suc n) = do
  t ← new_woker_thread (p.creates i) (p.ids i) (name ++ codes "_woker" ++ decimal i)
  (ts, acts) ← start_wokers p name (i + 1) n
  ok (t ∷ ts, Act.creates ∷ acts)

-- The object of a thread that a pointer lets go, if there is one.
pub let_go : Option Thread → List Act
unfolding acts_of destroy
let_go none = []
let_go (some t) = acts_of (destroy t)

-- `Scheduler::start` with `n` threads. The workers of an earlier start stay; its allocating thread goes.
unfoldable pub start_threads : Pthread → ℕ → List ℕ → Threads → Result (Threads × List Act)
unfolding start_wokers new_alloc_thread let_go
start_threads p n name s =
    let started = (do
      (ts, acts) ← start_wokers p name 0 n
      a ← new_alloc_thread (p.creates n) (p.ids n) (name ++ codes "_alloc")
      ok (
        record { workers = s.workers ++ ts; alloc = some a; stop = false },
        acts ++ Act.creates ∷ let_go s.alloc,
      )) in
    if s.stop then started else ok (s, [])

-- The workers from the place `i` on are joined.
pub join_wokers : Pthread → ℕ → List Thread → Result (List Thread × List Act)
unfolding join acts_of
join_wokers p i [] = ok ([], [])
join_wokers p i (t ∷ ts) = do
  (t, calls) ← or_throw (join (p.joins i) t)
  (ts, acts) ← join_wokers p (i + 1) ts
  ok (t ∷ ts, acts_of calls ++ acts)

-- `Scheduler::stop`
unfoldable pub stop_threads : Pthread → Threads → Result (Threads × List Act)
unfolding join_wokers
stop_threads p s = do
  (ts, acts) ← join_wokers p 0 s.workers
  a ← elim s.alloc [ none ↦ err null_deref | some a ↦ ok a ]
  (a, calls) ← or_throw (join (p.joins (length ts)) a)
  ok (record { workers = ts; alloc = some a; stop = true }, acts ++ acts_of calls)

pub let_all_go : List Thread → List Act
unfolding acts_of destroy
let_all_go [] = []
let_all_go (t ∷ ts) = acts_of (destroy t) ++ let_all_go ts

-- `Scheduler::~Scheduler`, and then its members: the allocating thread goes before the workers.
unfoldable pub destroy_threads : Pthread → Threads → Result (List Act)
unfolding stop_threads let_go let_all_go
destroy_threads p s = do
  (s, acts) ← if s.stop then ok (s, []) else stop_threads p s
  ok (acts ++ let_go s.alloc ++ let_all_go s.workers)

-- The calls of a scheduler's life that touch its threads.
pub data Step : Type 0 where
  starts stops : Step

unfoldable pub step_threads : Pthread → ℕ → List ℕ → Step → Threads → Result (Threads × List Act)
unfolding start_threads stop_threads
step_threads p n name starts s = start_threads p n name s
step_threads p n name stops s = stop_threads p s

-- The calls, and then the destructor.
unfoldable pub live : Pthread → ℕ → List ℕ → List Step → Threads → Result (List Act)
unfolding step_threads destroy_threads
live p n name [] s = destroy_threads p s
live p n name (c ∷ cs) s = do
  (s, acts) ← step_threads p n name c s
  more ← live p n name cs s
  ok (acts ++ more)

-- `Scheduler::Scheduler`
abbrev pub no_threads : Threads
no_threads = record { workers = []; alloc = none; stop = true }
