-- ===== src/Scheduler/Moves.antt =====
-- How the tasks of sylar/scheduler.cpp move from the queue to the workers, and within a list of workers.
use prozac.Prelude.{
  ℕ, zero, suc, ◌+◌, ◌≤◌, ◌≡◌, refl, ap, Bool, some, List, [], ◌∷◌, arith, leb, ltb, ◌==◌,
  if◌then◌else◌, if_intro, length, get_elem?, set,
}
use prozac.Scheduler.Alloc.{give_lem, give_at-count, IsCounted}
use prozac.Scheduler.Bag.{
  tally, tally-append, tally_of, tally-tasks_of, tasks_of, tasks_of_all, all_tasks,
}
use prozac.Scheduler.{Task, WorkerThread, Scheduler, give, give_at, alloc_round}

module _ (p : Task → Bool) where
  give_tally :
      (l : ℕ) (ts : List Task) (w : WorkerThread)
      → tally p (give l ts w).0 + tally_of p (give l ts w).1 ≡ tally p ts + tally_of p w
  give_tally l ts w =
      let (moved, split, worker, few, full) = give_lem l ts w in
      rw worker (
        omega (
          arith,
          ap (tally p) split,
          tally-append p moved (give l ts w).0,
          tally-append p w.t_init moved,
        ))

  pub give_at-tally :
      (k : ℕ) (ts : List Task) (ws : List WorkerThread)
      → tally p (give_at k ts ws).1 + tally p (tasks_of_all (give_at k ts ws).0)
        ≡ tally p ts + tally p (tasks_of_all ws)
  unfolding give_at
  give_at-tally k ts [] = refl
  give_at-tally zero ts (w ∷ ws) =
      let (ts', w') = give 10 ts w in
      let same = give_tally 10 ts w in
      if_intro
        (λ (r : List WorkerThread × List Task).
          tally p r.1 + tally p (tasks_of_all r.0) ≡ tally p ts + tally p (tasks_of_all (w ∷ ws)))
        (ltb w.count 100000) _ _
        (λ _. omega (
          arith,
          same,
          tally-append p (tasks_of w') (tasks_of_all ws),
          tally-append p (tasks_of w) (tasks_of_all ws),
          tally-tasks_of p w',
          tally-tasks_of p w,
        ))
        (λ _. refl)
  give_at-tally (suc k) ts (w ∷ ws) = omega (
    arith,
    give_at-tally k ts ws,
    tally-append p (tasks_of w) (tasks_of_all (give_at k ts ws).0),
    tally-append p (tasks_of w) (tasks_of_all ws),
  )

-- A round of the allocating thread only moves tasks.
pub alloc_round_tasks :
    (k : ℕ) (s : Scheduler) (p : Task → Bool)
    → tally p (all_tasks (alloc_round k s).1) ≡ tally p (all_tasks s)
unfolding alloc_round
alloc_round_tasks k s p =
    let k' = if leb (length s.workers) k then 0 else k in
    if_intro (λ (r : ℕ × Scheduler). tally p (all_tasks r.1) ≡ tally p (all_tasks s))
      (length s.workers == 0) _ _ (λ _. refl)
      (λ _. omega (
        arith,
        give_at-tally p k' s.tasks s.workers,
        tally-append p s.tasks (tasks_of_all s.workers),
        tally-append p (give_at k' s.tasks s.workers).1
            (tasks_of_all (give_at k' s.tasks s.workers).0),
      ))

pub alloc_round_shorter :
    (k : ℕ) (s : Scheduler) → IsCounted s → length (alloc_round k s).1.tasks ≤ length s.tasks
unfolding alloc_round
alloc_round_shorter k s v =
    let k' = if leb (length s.workers) k then 0 else k in
    if_intro (λ (r : ℕ × Scheduler). length r.1.tasks ≤ length s.tasks) (length s.workers == 0) _ _
      (λ _. omega arith) (λ _. (give_at-count k' s.tasks s.workers v.each).2)

-- One worker of the list has changed.
pub tally-set :
    (p : Task → Bool) (ws : List WorkerThread) (i : ℕ) (w u : WorkerThread)
    → get_elem? ws i ≡ some w
    → tally p (tasks_of_all (set ws i u)) + tally_of p w ≡ tally p (tasks_of_all ws) + tally_of p u
tally-set p [] i w u at = cc
tally-set p (v ∷ ws) zero w u at =
    let same : v ≡ w = cc in
    omega (
      arith,
      ap (tally_of p) same,
      tally-append p (tasks_of u) (tasks_of_all ws),
      tally-append p (tasks_of v) (tasks_of_all ws),
      tally-tasks_of p u,
      tally-tasks_of p v,
    )
tally-set p (v ∷ ws) (suc i) w u at = omega (
  arith,
  tally-set p ws i w u at,
  tally-append p (tasks_of v) (tasks_of_all (set ws i u)),
  tally-append p (tasks_of v) (tasks_of_all ws),
)
