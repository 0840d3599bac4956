-- ===== src/Scheduler/Handing.antt =====
-- The loop of `AllocThread::run` of sylar/scheduler.cpp hands every task to a worker, and ends.
use prozac.Prelude.{
  false, ◌++◌, [], Option, ok, ◌%◌, ◌^◌, ==_self, ℕ, zero, suc, ◌+◌, ◌-◌, ◌*◌, ◌≤◌, ◌<◌, ◌≡◌, refl,
  ap, ◌∙◌, Bool, true, not, ◌||◌, List, [], ◌∷◌, arith, ltb, leb, ◌==◌, if◌then◌else◌, if_intro,
  length, length-append, All, inl, inr,
}
use prozac.Scheduler.Alloc.{held_by, Counted, IsCounted, give_lem, alloc_round-IsCounted}
use prozac.Fiber.Defs.{Thread, Sys}
use prozac.Scheduler.Bag.{tally, tally-append, tasks_of_all}
use prozac.Scheduler.Moves.{alloc_round_tasks}
use prozac.Scheduler.Moved.{is_fiber}
use prozac.Scheduler.{
  Task, WorkerThread, Scheduler, new_task, submit, give, give_at, alloc_round, alloc_loop,
}

length-give : (ts : List Task) (w : WorkerThread) → length (give 10 ts w).0 ≡ length ts - 10
length-give ts w =
    let (moved, split, worker, few, full) = give_lem 10 ts w in
    let parts : length ts ≡ length moved + length (give 10 ts w).0 =
      ap length split ∙ length-append moved (give 10 ts w).0 in
    elim full [ inl e ↦ omega (arith, parts, e) | inr e ↦ omega (arith, parts, few, ap length e) ]

-- A worker that is there and not full is given ten tasks, or all.
abbrev Served : List Task → List WorkerThread → List WorkerThread × List Task → Type 0
Served ts ws (ws', ts') = (length ts' ≡ length ts - 10) × (length ws' ≡ length ws)

give_at-Served :
    (k : ℕ) (ts : List Task) (ws : List WorkerThread)
    → k < length ws
    → All Counted ws
    → held_by ws < 100000
    → Served ts ws (give_at k ts ws)
unfolding give_at
give_at-Served k ts [] h c few = absurd (omega (arith, h))
give_at-Served zero ts (w ∷ ws) h c few =
    if_intro (Served ts (w ∷ ws)) (ltb w.count 100000) _ _ (λ _. (length-give ts w, refl))
      (λ full. absurd (grind (arith, full, few, c.0)))
give_at-Served (suc k) ts (w ∷ ws) h c few =
    let (fewer, same) = give_at-Served k ts ws (omega (arith, h)) c.1 (omega (arith, few)) in
    (fewer, ap suc same)

-- What a round does for a scheduler with workers that are not full.
abbrev pub Handed : Scheduler → Scheduler → Type 0
Handed s u =
    (length u.tasks ≡ length s.tasks - 10)
    × (length u.workers ≡ length s.workers)
    × (u.stop ≡ s.stop)

pub alloc_round-Handed :
    (k : ℕ) (s : Scheduler)
    → IsCounted s
    → 1 ≤ length s.workers
    → held_by s.workers < 100000
    → Handed s (alloc_round k s).1
unfolding alloc_round
alloc_round-Handed k s v some' few =
    let n = length s.workers in
    let k' = if leb n k then 0 else k in
    let inside : k' < n = ground (arith, some') in
    let (fewer, same) = give_at-Served k' s.tasks s.workers inside v.each few in
    if_intro (λ (r : ℕ × Scheduler). Handed s r.1) (n == 0) _ _
      (λ none'. absurd (grind (arith, none', some'))) (λ _. (fewer, same, refl))

-- The loop has ended; no task waits, and each is with a worker.
abbrev pub Ended : Scheduler → ℕ × Scheduler × Bool → Type 0
Ended s (k, u, ended) =
    (ended ≡ true)
    × (u.tasks ≡ [])
    × (held_by u.workers ≡ length s.tasks + held_by s.workers)
    × (length u.workers ≡ length s.workers)

pub none_left : (ts : List Task) → length ts ≡ 0 → ts ≡ []
none_left [] e = refl
none_left (t ∷ ts) e = absurd (omega arith)

-- Once a scheduler with workers is stopped, its allocating thread hands every task that waits to some
-- worker, and leaves its loop: ten tasks a time round, and one more to see that there are none. There are
-- fewer than 100000 tasks in all, so that no worker is full.
pub alloc_loop_ends :
    (n k : ℕ) (s : Scheduler)
    → IsCounted s
    → s.stop ≡ true
    → 1 ≤ length s.workers
    → length s.tasks + held_by s.workers < 100000
    → length s.tasks + 10 ≤ 10 * n
    → Ended s (alloc_loop n k s)
unfolding alloc_loop
alloc_loop_ends zero k s v told some' few enough = absurd (omega (arith, enough))
alloc_loop_ends (suc n) k s v told some' few enough =
    let u = (alloc_round k s).1 in
    let (counted, same) = alloc_round-IsCounted k s v in
    let (fewer, workers, stops) = alloc_round-Handed k s v some' (omega (arith, few)) in
    if_intro (Ended s) (not s.stop || ltb 0 s.count) _ _
      (λ go.
        let more : 1 ≤ length s.tasks = grind (arith, go, told, v.queue) in
        let (e, none', all, still) =
          alloc_loop_ends n (alloc_round k s).0 u counted (stops ∙ told)
            (omega (arith, workers, some')) (omega (arith, same, few))
            (omega (arith, fewer, enough, more)) in
        (e, none', omega (arith, all, same), omega (arith, still, workers)))
      (λ over.
        let empty : length s.tasks ≡ 0 = grind (arith, over, v.queue) in
        (refl, none_left s.tasks empty, omega (arith, empty), refl))

-- A submission to a scheduler that runs, with room in its queue.
pub submit_queued :
    (sys : Sys) (last_owner : Bool) (x : Task) (s : Scheduler) (t : Thread)
    → s.stop ≡ false
    → length s.tasks < 10000
    → submit sys last_owner x s t
      ≡ ok (record s { tasks = s.tasks ++ x ∷ []; count = (s.count + 1) % 2 ^ 64 }, t)
unfolding submit
submit_queued sys last_owner x s t runs room = ground (arith, runs, room)

fiber-new_task : (a pri now : ℕ) (thr : Option ℕ) → (new_task a thr pri now).fiber ≡ a
unfolding new_task
fiber-new_task a pri now thr = refl

-- A task that is submitted while few wait is with a worker after one round of the allocating thread.
pub submitted_handed :
    (k a pri now c : ℕ) (thr : Option ℕ) (s : Scheduler)
    → IsCounted (record s { tasks = s.tasks ++ new_task a thr pri now ∷ []; count = c })
    → length s.tasks < 10
    → 1 ≤ length s.workers
    → held_by s.workers < 100000
    → let u = record s { tasks = s.tasks ++ new_task a thr pri now ∷ []; count = c } in
      ((alloc_round k u).1.tasks ≡ [])
      × (1 ≤ tally (is_fiber a) (tasks_of_all (alloc_round k u).1.workers))
submitted_handed k a pri now c thr s v few some' light =
    let x = new_task a thr pri now in
    let u : Scheduler = record s { tasks = s.tasks ++ x ∷ []; count = c } in
    let (fewer, _, _) = alloc_round-Handed k u v some' light in
    let empty : (alloc_round k u).1.tasks ≡ [] =
      none_left (alloc_round k u).1.tasks
        (omega (arith, fewer, few, length-append s.tasks (x ∷ []))) in
    let p = is_fiber a in
    let mine : p x ≡ true = rw (fiber-new_task a pri now thr) (==_self a) in
    let workers = tasks_of_all (alloc_round k u).1.workers in
    (
      empty,
      grind (
        arith,
        mine,
        alloc_round_tasks k u p,
        tally-append p (alloc_round k u).1.tasks workers,
        ap (tally p) empty,
        tally-append p (s.tasks ++ x ∷ []) (tasks_of_all s.workers),
        tally-append p s.tasks (x ∷ []),
      ),
    )
