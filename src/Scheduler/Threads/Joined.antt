-- ===== src/Scheduler/Threads/Joined.antt =====
-- The threads of a scheduler (sylar/scheduler.cpp) end by being joined.
use prozac.Prelude.{
  ℕ, ◌+◌, ◌≡◌, refl, Bool, true, false, some, List, [], ◌∷◌, ◌++◌, append-nil, arith, length,
  Result, ok, err, null_deref, or_throw, ◌>>=◌, Gives, Gives->>=, Gives-mono, Gives-eq,
}
use prozac.Thread.{Thread, join}
use prozac.Scheduler.Threads.{
  Threads, Pthread, Act, acts_of, launch, new_alloc_thread, start_wokers, let_go, start_threads,
  join_wokers, stop_threads, let_all_go, destroy_threads, Step, step_threads, live, no_threads,
}
use prozac.Scheduler.Threads.Weights.{
  weigh, is_made, is_joined, is_detached, weigh-append, Weighs, Weighs-append, open', opens,
  opens_of, opens-append, launch_lem, start_wokers_lem, join_lem, let_go_lem, let_all_go_lem,
}

-- What a call leaves: a stopped scheduler has no open thread, there is an allocating thread, and as many
-- threads were made and joined as the open ones tell.
abbrev pub Kept : Threads → Type 0
Kept s = (s.stop ≡ true → opens_of s ≡ 0) × (a : Thread) × (s.alloc ≡ some a)

abbrev Went : Threads → Threads × List Act → Type 0
Went s (n, acts) =
    Kept n
    × (weigh is_made acts + opens_of s ≡ weigh is_joined acts + opens_of n)
    × (weigh is_detached acts ≡ 0)

abbrev Shut : Threads → Threads × List Act → Type 0
Shut s q = Went s q × (q.0.stop ≡ true)

-- All open threads are joined, and those that are made.
abbrev Over : Threads → List Act → Type 0
Over s acts =
    (weigh is_made acts + opens_of s ≡ weigh is_joined acts) × (weigh is_detached acts ≡ 0)

module _ (p : Pthread) (joins : (i : ℕ) → p.joins i ≡ true) where
  join_wokers_lem :
      (i : ℕ) (ts : List Thread)
      → Gives (λ q. (opens q.0 ≡ 0) × Weighs 0 (opens ts) q.1) (join_wokers p i ts)
  unfolding join_wokers
  join_wokers_lem i [] = (refl, (refl, refl, refl))
  join_wokers_lem i (t ∷ ts) =
      Gives->>= (λ q. (open' q.0 ≡ 0) × Weighs 0 (open' t) (acts_of q.1))
        (λ q. (opens q.0 ≡ 0) × Weighs 0 (opens (t ∷ ts)) q.1) (or_throw (join (p.joins i) t)) _
        (join_lem (p.joins i) t (joins i))
        λ q first.
          Gives->>= (λ q. (opens q.0 ≡ 0) × Weighs 0 (opens ts) q.1)
            (λ q. (opens q.0 ≡ 0) × Weighs 0 (opens (t ∷ ts)) q.1) (join_wokers p (i + 1) ts) _
            (join_wokers_lem (i + 1) ts)
            λ r rest. (
              omega (arith, first.0, rest.0),
              Weighs-append 0 (open' t) 0 (opens ts) (acts_of q.1) r.1 first.1 rest.1,
            )

  stop_threads_lem :
      (s : Threads) (a : Thread) → s.alloc ≡ some a → Gives (Shut s) (stop_threads p s)
  unfolding stop_threads
  stop_threads_lem s a there =
      Gives->>= (λ q. (opens q.0 ≡ 0) × Weighs 0 (opens s.workers) q.1) (Shut s)
        (join_wokers p 0 s.workers) _ (join_wokers_lem 0 s.workers)
        λ q k. rw there (
          Gives->>= (λ r. (open' r.0 ≡ 0) × Weighs 0 (open' a) (acts_of r.1))
            (Shut (record s { alloc = some a })) (or_throw (join (p.joins (length q.0)) a)) _
            (join_lem (p.joins (length q.0)) a (joins (length q.0)))
            λ r l.
              let (made, ends, none') =
                Weighs-append 0 (opens s.workers) 0 (open' a) q.1 (acts_of r.1) k.1 l.1 in
              (
                (
                  (λ _. omega (arith, k.0, l.0), r.0, refl),
                  omega (arith, made, ends, k.0, l.0),
                  none',
                ),
                refl,
              ))

  -- A stopped scheduler lets go of threads that are all joined.
  let_go_all : (s : Threads) → opens_of s ≡ 0 → (let_go s.alloc ≡ []) × (let_all_go s.workers ≡ [])
  let_go_all s h =
      (let_go_lem s.alloc (omega (arith, h)), let_all_go_lem s.workers (omega (arith, h)))

  destroy_threads_lem : (s : Threads) → Kept s → Gives (Over s) (destroy_threads p s)
  unfolding destroy_threads
  destroy_threads_lem s k = split s.stop refl
    where
      split : (b : Bool) → s.stop ≡ b → Gives (Over s) (destroy_threads p s)
      split true e =
          let (one, all') = let_go_all s (k.0 e) in rw (e, one, all') (omega (arith, k.0 e), refl)
      split false e = rw e (
          Gives->>= (Shut s) (Over s) (stop_threads p s) _ (stop_threads_lem s k.1 k.2) λ q h.
            let over = h.0.0.0 h.1 in
            let (one, all') = let_go_all q.0 over in
            rw (one, all', append-nil q.1, append-nil q.1) (omega (arith, h.0.1, over), h.0.2))

-- A start of a stopped scheduler makes its threads; that of a running one does nothing.
module _ (p : Pthread) (creates : (i : ℕ) → p.creates i ≡ true) where
  start_threads_lem :
      (n : ℕ) (name : List ℕ) (s : Threads)
      → (s.stop ≡ true → opens_of s ≡ 0)
      → (s.stop ≡ false → (a : Thread) × (s.alloc ≡ some a))
      → Gives (Went s) (start_threads p n name s)
  unfolding start_threads new_alloc_thread
  start_threads_lem n name s closed there = split s.stop refl
    where
      split : (b : Bool) → s.stop ≡ b → Gives (Went s) (start_threads p n name s)
      split false e = rw e ((λ h. absurd (grind (arith, h)), (there e).0, (there e).1), refl, refl)
      split true e = rw e (
          Gives->>= (λ q. Weighs (opens q.0) 0 q.1) (Went (record s { stop = true }))
            (start_wokers p name 0 n) _ (start_wokers_lem p creates name 0 n)
            λ q k.
              Gives->>= (λ t. open' t ≡ 1) (Went (record s { stop = true }))
                (launch (p.creates n) (p.ids n) _) _
                (launch_lem (p.creates n) (p.ids n) _ (creates n))
                λ a one. rw (let_go_lem s.alloc (omega (arith, closed e))) (
                  (λ h. absurd (grind (arith, h)), a, refl),
                  omega (
                    arith,
                    weigh-append is_made q.1 (Act.creates ∷ []),
                    weigh-append is_joined q.1 (Act.creates ∷ []),
                    opens-append s.workers q.0,
                    closed e,
                    k.0,
                    k.1,
                    one,
                  ),
                  omega (arith, weigh-append is_detached q.1 (Act.creates ∷ []), k.2),
                ))

module _ (p : Pthread) (creates : (i : ℕ) → p.creates i ≡ true)
    (joins : (i : ℕ) → p.joins i ≡ true) where
  step_threads_lem :
      (n : ℕ) (name : List ℕ) (c : Step) (s : Threads)
      → Kept s
      → Gives (Went s) (step_threads p n name c s)
  unfolding step_threads
  step_threads_lem n name Step.starts s k =
      start_threads_lem p creates n name s k.0 (λ _. (k.1, k.2))
  step_threads_lem n name Step.stops s k =
      Gives-mono (Shut s) (Went s) (stop_threads p s) (stop_threads_lem p joins s k.1 k.2)
        λ q h. h.0

  -- A call that leaves a scheduler as it should be, and the rest of its life.
  after :
      (s : Threads) (m : Result (Threads × List Act)) (f : Threads → Result (List Act))
      → Gives (Went s) m
      → ((s : Threads) → Kept s → Gives (Over s) (f s))
      → Gives (Over s) (m >>= λ q. f q.0 >>= λ more. ok (q.1 ++ more))
  after s m f given rest = Gives->>= (Went s) (Over s) m _ given λ q h.
      Gives->>= (Over q.0) (Over s) (f q.0) _ (rest q.0 h.0) λ more k. (
        omega (arith, weigh-append is_made q.1 more, weigh-append is_joined q.1 more, h.1, k.0),
        omega (arith, weigh-append is_detached q.1 more, h.2, k.1),
      )

  live_lem :
      (n : ℕ) (name : List ℕ) (cs : List Step) (s : Threads)
      → Kept s
      → Gives (Over s) (live p n name cs s)
  unfolding live
  live_lem n name [] s k = destroy_threads_lem p joins s k
  live_lem n name (c ∷ cs) s k =
      after s (step_threads p n name c s) (live p n name cs) (step_threads_lem n name c s k)
        (live_lem n name cs)

  -- Whatever calls of `start` and `stop` follow the first `start` of a scheduler, none of them and not
  -- its destructor aborts: in the end as many threads have been joined as were made, and none has been
  -- detached. pthread_create and pthread_join succeed.
  pub threads_joined :
      (n : ℕ) (name : List ℕ) (cs : List Step)
      → (acts : List Act) × (live p n name (Step.starts ∷ cs) no_threads ≡ ok acts)
        × (weigh is_made acts ≡ weigh is_joined acts)
        × (weigh is_detached acts ≡ 0)
  unfolding live step_threads
  threads_joined n name cs =
      let given =
        after no_threads (start_threads p n name no_threads) (live p n name cs)
          (start_threads_lem p creates n name no_threads (λ _. refl)
            (λ h. absurd (grind (arith, h))))
          (live_lem n name cs) in
      let (acts, e, k) =
        Gives-eq (Over no_threads) (live p n name (Step.starts ∷ cs) no_threads) given in
      (acts, e, omega (arith, k.0), k.1)

-- A scheduler that is stopped before it is started has no allocating thread to join.
pub stop_unstarted : (p : Pthread) → stop_threads p no_threads ≡ err null_deref
unfolding stop_threads join_wokers
stop_unstarted p = refl
