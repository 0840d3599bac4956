-- ===== src/IoManager/End.antt =====
-- The end of an I/O manager of sylar/iomanager.cpp: `stop`, which waits until no event waits and then
-- joins the threads of the scheduler, and the destructor, up to the descriptors that it closes and the
-- memory of the contexts.
use prozac.Prelude.{
  ℕ, zero, suc, ◌≡◌, refl, ap, ◌∙◌, true, Option, none, some, List, [], ◌∷◌, ◌++◌, arith, Result,
  ok, err, ◌>>=◌,
}
use prozac.Scheduler.Threads.{
  Threads, Pthread, Act, Step, start_threads, stop_threads, destroy_threads, step_threads, live,
  no_threads,
}
use prozac.Scheduler.Threads.Weights.{weigh, is_made, is_joined, is_detached}
use prozac.Scheduler.Threads.Joined.{threads_joined}
use prozac.IoManager.{IoManager, begin_stop, end_stop}

-- `IOManager::stop`; `none` is a wait that does not end, since events wait.
pub stop_manager : Pthread → IoManager → Threads → Result (Option (IoManager × Threads × List Act))
unfolding begin_stop end_stop
stop_manager p m s = elim (end_stop (begin_stop m)) [
  | none ↦ ok none
  | some m ↦ (do (s, acts) ← stop_threads p s; ok (some (m, s, acts)))
]

-- More acts after some.
abbrev onto : List Act → Option (List Act) → Option (List Act)
onto acts none = none
onto acts (some more) = some (acts ++ more)

-- `IOManager::~IOManager`, and the destructor of the scheduler that it is.
pub destroy_manager : Pthread → IoManager → Threads → Result (Option (List Act))
unfolding stop_manager
destroy_manager p m s = do
  o ← stop_manager p m s
  elim o [
    | none ↦ ok none
    | some (m, s, acts) ↦ (do more ← destroy_threads p s; ok (some (acts ++ more)))
  ]

-- So many calls of `stop`, and then the destructor.
pub end_manager : Pthread → ℕ → IoManager → Threads → Result (Option (List Act))
unfolding stop_manager destroy_manager
end_manager p zero m s = destroy_manager p m s
end_manager p (suc k) m s = do
  o ← stop_manager p m s
  elim o [
    | none ↦ ok none
    | some (m, s, acts) ↦ (do more ← end_manager p k m s; ok (onto acts more))
  ]

-- The constructor, which starts the scheduler with `n` threads, and the end.
pub manager_life : Pthread → ℕ → List ℕ → ℕ → IoManager → Result (Option (List Act))
unfolding end_manager
manager_life p n name k m = do
  (s, acts) ← start_threads p n name no_threads
  more ← end_manager p k m s
  ok (onto acts more)

-- The calls of the scheduler that these are.
abbrev stops_of : ℕ → List Step
stops_of zero = Step.stops ∷ []
stops_of (suc k) = Step.stops ∷ stops_of k

abbrev done : List Act → Result (Option (List Act))
done acts = ok (some acts)

abbrev stopped : IoManager → IoManager
stopped m = record m { stopping = true; sched = record m.sched { stop = true } }

-- What `stop` has once the threads are joined.
abbrev joined : IoManager → Threads × List Act → Option (IoManager × Threads × List Act)
joined m q = some (m, q.0, q.1)

stop_manager_ends :
    (p : Pthread) (m : IoManager) (s : Threads)
    → m.pending ≡ 0
    → stop_manager p m s ≡ stop_threads p s >>= λ q. ok (joined (stopped m) q)
unfolding stop_manager begin_stop end_stop
stop_manager_ends p m s h = ground (arith, h)

append_done :
    (acts : List Act) (r : Result (List Act))
    → ((r >>= done) >>= λ more. ok (onto acts more)) ≡ ((r >>= λ more. ok (acts ++ more)) >>= done)
append_done acts (ok more) = refl
append_done acts (err e) = refl

-- After the threads are joined, what follows for the manager is what follows for the scheduler.
module _ (m : IoManager) (f : Threads → Result (List Act)) where
  last_stop :
      (r : Result (Threads × List Act))
      → (r >>= λ q. ok (joined m q)) >>= (λ o. elim o as (λ _. Result (Option (List Act))) [
        | none ↦ ok none
        | some x ↦ f x.1 >>= λ more. ok (some (x.2 ++ more))
      ])
        ≡ (r >>= λ q. f q.0 >>= λ more. ok (q.1 ++ more)) >>= done
  last_stop (err e) = refl
  last_stop (ok q) = appended (f q.0)
    where
      appended :
          (r : Result (List Act))
          → (r >>= λ more. ok (some (q.1 ++ more))) ≡ (r >>= λ more. ok (q.1 ++ more)) >>= done
      appended (ok more) = refl
      appended (err e) = refl

  after_start :
      (g : Threads → Result (Option (List Act)))
      → ((s : Threads) → g s ≡ f s >>= done)
      → (r : Result (Threads × List Act))
      → (r >>= λ q. g q.0 >>= λ more. ok (onto q.1 more))
        ≡ (r >>= λ q. f q.0 >>= λ more. ok (q.1 ++ more)) >>= done
  after_start g same (err e) = refl
  after_start g same (ok q) =
      ap (λ y. y >>= λ more. ok (onto q.1 more)) (same q.0) ∙ append_done q.1 (f q.0)

  next_stop :
      (g : IoManager → Threads → Result (Option (List Act)))
      → ((s : Threads) → g m s ≡ f s >>= done)
      → (r : Result (Threads × List Act))
      → (r >>= λ q. ok (joined m q)) >>= (λ o. elim o as (λ _. Result (Option (List Act))) [
        | none ↦ ok none
        | some x ↦ g x.0 x.1 >>= λ more. ok (onto x.2 more)
      ])
        ≡ (r >>= λ q. f q.0 >>= λ more. ok (q.1 ++ more)) >>= done
  next_stop g same (err e) = refl
  next_stop g same (ok q) = after_start (g m) same (ok q)

end_manager-live :
    (p : Pthread) (n k : ℕ) (name : List ℕ) (m : IoManager) (s : Threads)
    → m.pending ≡ 0
    → end_manager p k m s ≡ live p n name (stops_of k) s >>= done
unfolding end_manager destroy_manager live step_threads
end_manager-live p n zero name m s h =
    rw (stop_manager_ends p m s h) (last_stop (stopped m) (destroy_threads p) (stop_threads p s))
end_manager-live p n (suc k) name m s h = rw (stop_manager_ends p m s h) (
    next_stop (stopped m) (live p n name (stops_of k)) (end_manager p k)
      (λ u. end_manager-live p n k name (stopped m) u h) (stop_threads p s))

-- An I/O manager with no event that waits ends, however often `stop` is called before its destructor:
-- nothing aborts, no wait goes on for ever, as many threads have been joined as its constructor made,
-- and none has been detached. pthread_create and pthread_join succeed.
pub manager_joined :
    (p : Pthread) (n k : ℕ) (name : List ℕ) (m : IoManager)
    → ((i : ℕ) → p.creates i ≡ true)
    → ((i : ℕ) → p.joins i ≡ true)
    → m.pending ≡ 0
    → (acts : List Act) × (manager_life p n name k m ≡ ok (some acts))
      × (weigh is_made acts ≡ weigh is_joined acts)
      × (weigh is_detached acts ≡ 0)
unfolding manager_life live step_threads
manager_joined p n k name m creates joins h =
    let (acts, e, same, none') = threads_joined p creates joins n name (stops_of k) in
    (
      acts,
      after_start m (live p n name (stops_of k)) (end_manager p k m)
            (λ s. end_manager-live p n k name m s h) (start_threads p n name no_threads)
          ∙ ap (λ y. y >>= done) e,
      same,
      none',
    )
