-- ===== src/Scheduler/Drained.antt =====
-- A stopped scheduler of sylar/scheduler.cpp with one worker, from its queue to the end of its tasks.
use prozac.Prelude.{
  ℕ, zero, suc, ◌+◌, ◌-◌, ◌*◌, ◌≤◌, ◌<◌, ◌≡◌, sym, ap, ap₂, ◌∙◌, Bool, true, List, [], ◌∷◌, ◌++◌,
  append_assoc, append-nil, arith, leb, if◌then◌else◌, length, length-append, All, All-append,
  Gives, Gives-mono, inl, inr,
}
use prozac.Fiber.Defs.{State, all_ok}
use prozac.Scheduler.Alloc.{held, Counted, give_lem, refit}
use prozac.Scheduler.Bag.{tally, tally-append, tally_of}
use prozac.Scheduler.Moved.{Fit, is_fiber}
use prozac.Scheduler.Working.{IsWorking}
use prozac.Scheduler.Loop.{Enough, Ended, AllOver, worker_loop_ends}
use prozac.Scheduler.{
  Task, WorkerThread, Scheduler, Round, give, give_at, alloc_round, alloc_loop, worker_loop,
}

-- The worker with more new tasks.
abbrev pub given : List Task → WorkerThread → WorkerThread
given ts w = record w { t_init = w.t_init ++ ts; count = w.count + length ts }

-- A stopped scheduler with one worker.
abbrev pub sole : List Task → WorkerThread → Scheduler
sole ts w = record { tasks = ts; count = length ts; stop = true; workers = w ∷ [] }

given-append : (xs ys : List Task) (w : WorkerThread) → given ys (given xs w) ≡ given (xs ++ ys) w
given-append xs ys w =
    refit w _ _ _ _ (omega (arith, length-append xs ys)) (append_assoc w.t_init xs ys)

give_at-free :
    (ts : List Task) (w : WorkerThread)
    → w.count < 100000
    → give_at 0 ts (w ∷ []) ≡ ((give 10 ts w).1 ∷ [], (give 10 ts w).0)
unfolding give_at
give_at-free ts w free = ground (arith, free)

first_again : (k : ℕ) → (if leb 1 k then 0 else k) ≡ 0
first_again k = ground arith

-- One round gives ten tasks, or all.
alloc_round-sole :
    (k : ℕ) (ts : List Task) (w : WorkerThread)
    → w.count < 100000
    → (xs : List Task) × (ys : List Task) × (i : ℕ) × (ts ≡ xs ++ ys)
      × (alloc_round k (sole ts w) ≡ (i, sole ys (given xs w)))
      × (length ys ≡ length ts - 10)
unfolding alloc_round
alloc_round-sole k ts w free =
    let (moved, split, worker, few, full) = give_lem 10 ts w in
    let parts : length ts ≡ length moved + length (give 10 ts w).0 =
      ap length split ∙ length-append moved (give 10 ts w).0 in
    let rest = (give 10 ts w).0 in
    let count : length ts - (length ts - length rest) ≡ length rest = omega (arith, parts) in
    let round : alloc_round k (sole ts w) ≡ (1, sole rest (given moved w)) =
      rw (first_again k, give_at-free ts w free)
        (ap₂
          (λ (n : ℕ) (v : WorkerThread).
            let u : Scheduler = record { tasks = rest; count = n; stop = true; workers = v ∷ [] } in
            let i : ℕ × Scheduler = (1, u) in i)
          count worker) in
    (
      moved,
      rest,
      1,
      split,
      round,
      elim full [
        | inl e ↦ omega (arith, parts, e)
        | inr e ↦ omega (arith, parts, few, ap length e)
      ],
    )

alloc_loop-more :
    (n k : ℕ) (t : Task) (ts : List Task) (w : WorkerThread)
    → alloc_loop (suc n) k (sole (t ∷ ts) w)
      ≡ alloc_loop n (alloc_round k (sole (t ∷ ts) w)).0 (alloc_round k (sole (t ∷ ts) w)).1
unfolding alloc_loop
alloc_loop-more n k t ts w = ground arith

-- The whole queue.
alloc_loop-sole :
    (n k : ℕ) (ts : List Task) (w : WorkerThread)
    → w.count + length ts < 100000
    → length ts + 10 ≤ 10 * n
    → (i : ℕ) × (alloc_loop n k (sole ts w) ≡ (i, sole [] (given ts w), true))
unfolding alloc_loop
alloc_loop-sole zero k ts w free enough = absurd (omega (arith, enough))
alloc_loop-sole (suc n) k [] w free enough = (
  k,
  ap (λ (v : WorkerThread). let r : ℕ × Scheduler × Bool = (k, sole [] v, true) in r)
      (refit w _ _ _ _ (omega arith) (sym (append-nil w.t_init))),
)
alloc_loop-sole (suc n) k (t ∷ ts) w free enough =
    let (xs, ys, i, split, round, fewer) = alloc_round-sole k (t ∷ ts) w (omega (arith, free)) in
    let parts = ap length split ∙ length-append xs ys in
    let (j, rest) =
      alloc_loop-sole n i ys (given xs w) (omega (arith, free, parts))
        (omega (arith, fewer, enough, parts)) in
    let all : given ys (given xs w) ≡ given (t ∷ ts) w =
      given-append xs ys w ∙ ap (λ zs. given zs w) (sym split) in
    (
      j,
      alloc_loop-more n k t ts w
          ∙ ap (λ (q : ℕ × Scheduler). alloc_loop n q.0 q.1) round
          ∙ rest
          ∙ ap (λ (v : WorkerThread). let r : ℕ × Scheduler × Bool = (j, sole [] v, true) in r) all,
    )

-- What the worker has after the allocating thread has ended.
given-IsWorking :
    (b : ℕ) (ts : List Task) (w : WorkerThread)
    → IsWorking b w
    → All (Fit State.init b w.thread) ts
    → ((a : ℕ) → tally (is_fiber a) ts + tally_of (is_fiber a) w ≤ 1)
    → IsWorking b (given ts w)
given-IsWorking b ts w k fresh apart = record {
  valid = k.valid;
  new = All-append (Fit State.init b w.thread) w.t_init ts k.new fresh;
  ready = k.ready;
  asleep = k.asleep;
  none_held = k.none_held;
  apart = λ a. omega (arith, apart a, tally-append (is_fiber a) w.t_init ts);
}

-- The loop has ended with no task left, and the fibers of all tasks have run to their ends.
abbrev pub RunOut : List Task → WorkerThread → WorkerThread × Bool → Type 0
RunOut ts w (u, ended) =
    Ended (u, ended)
    × ((a : ℕ)
        → 1 ≤ tally (is_fiber a) ts + tally_of (is_fiber a) w
        → (u.thread.fibers a).state ≡ State.destroy)

pub scheduler_drains :
    (b n k : ℕ) (rs : List (Bool × Round)) (ts : List Task) (w : WorkerThread)
    → IsWorking b w
    → Counted w
    → w.t_sleep ≡ []
    → All (Fit State.init b w.thread) ts
    → ((a : ℕ) → tally (is_fiber a) ts + tally_of (is_fiber a) w ≤ 1)
    → w.count + length ts < 100000
    → length ts + 10 ≤ 10 * n
    → Enough (held w + length ts) rs
    → (i : ℕ) × (alloc_loop n k (sole ts w) ≡ (i, sole [] (given ts w), true))
      × Gives (RunOut ts w) (worker_loop all_ok rs (given ts w))
scheduler_drains b n k rs ts w v c s fresh apart free enough long =
    let (i, e) = alloc_loop-sole n k ts w free enough in
    let longer = length-append w.t_init ts in
    (
      i,
      e,
      Gives-mono (AllOver (given ts w)) (RunOut ts w) (worker_loop all_ok rs (given ts w))
          (worker_loop_ends b (held w + length ts) rs (given ts w)
            (given-IsWorking b ts w v fresh apart) (omega (arith, c, longer)) s
            (omega (arith, longer)) long)
          (λ q h. (
            h.0,
            λ a some'. h.1 a (inl (omega (arith, some', tally-append (is_fiber a) w.t_init ts))),
          )),
    )
