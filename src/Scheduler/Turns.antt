-- ===== src/Scheduler/Turns.antt =====
-- The last part of a round of `WokerThread::run` of sylar/scheduler.cpp: one task is run and put back.
use prozac.Prelude.{
  ℕ, zero, suc, ◌+◌, ◌-◌, ◌%◌, ◌^◌, ◌≤◌, ◌≡◌, refl, ◌∙◌, Bool, List, [], ◌∷◌, arith, leb, ==_self,
  if_intro, All, All-append, Gives, ◌++◌, ◌==◌, ==_iff, subst, ap, Bool-cases, inl, inr, Gives->>=,
  Gives-OnOk, Gives-chain, ok, ◌>>=◌, length,
}
use prozac.Fiber.Defs.{State, Fiber, Thread, all_ok}
use prozac.Fiber
use prozac.Fiber.Invariant.{IsValid, release_lem}
use prozac.Scheduler.Alloc.{held}
use prozac.Scheduler.Bag.{tally, tally-append, tally-sleep_push, drop_task-fibers}
use prozac.Scheduler.Moved.{Fit, Only, Only-Fit, is_fiber, Behaves, Turned, resume-Turned}
use prozac.Scheduler.Working.{IsWorking, IsSafe, Keeping, IsSafe-still}
use prozac.Scheduler.{
  Task, Turn, WorkerThread, Round, take_top, sleep_push, put_back, drop_task, take_turn,
}

module _ (P : Task → Type 0) where
  pub All-take_top :
      (n : ℕ) (x : Task) (xs : List Task)
      → P x × All P xs
      → P (take_top n x xs).0 × All P (take_top n x xs).1
  unfolding take_top
  All-take_top n x [] h = h
  All-take_top zero x (y ∷ ys) h = h
  All-take_top (suc n) x (y ∷ ys) (h, hs) =
      let (top, rest) = All-take_top n y ys hs in (top, (h, rest))

  All-sleep_push :
      (t : Thread) (x : Task) (xs : List Task) → P x → All P xs → All P (sleep_push t x xs)
  unfolding sleep_push
  All-sleep_push t x [] h hs = (h, tt)
  All-sleep_push t x (y ∷ ys) h (k, ks) =
      if_intro (All P) (leb (t.fibers y.fiber).waketime (t.fibers x.fiber).waketime) _ _
        (λ _. (k, All-sleep_push t x ys h ks)) (λ _. (h, (k, ks)))

-- The thread after the count of fibers has changed.
abbrev counted : ℕ → Thread → Thread
counted n t = record t { fiber_count = n }

counted-IsValid : (b c n : ℕ) (t : Thread) → IsValid b c t → IsValid b c (counted n t)
counted-IsValid b c n t v = record {
  running = record {
    main = v.running.main;
    current = v.running.current;
    control = v.running.control;
    main_id = v.running.main_id;
    told_apart = v.running.told_apart;
  };
  main_made = v.main_made;
  current_made = v.current_made;
  main_exec = v.main_exec;
  current_exec = v.current_exec;
  main_stack = v.main_stack;
  alone = v.alone;
  ids = v.ids;
  next_id = v.next_id;
}

-- What the last part of a round does, by the turn of the fiber that it runs.
abbrev pub Ran : Turn → ℕ → WorkerThread → WorkerThread → Type 0
Ran Turn.yields b w u = IsWorking b u × (u.t_sleep ≡ w.t_sleep) × Keeping w u
Ran (Turn.sleeps ms) b w u = IsWorking b u × Keeping w u
Ran Turn.finishes b w u =
    IsWorking b u × (u.t_sleep ≡ w.t_sleep) × (held u + 1 ≡ held w) × Keeping w u
Ran _ b w u = ⊥

-- The task `x` is taken out of the ready ones.
module _ (b : ℕ) (w : WorkerThread) (k : IsWorking b w) (x : Task) (rest : List Task)
    (fit : Fit State.ready b w.thread x × All (Fit State.ready b w.thread) rest)
    (split : (p : Task → Bool) → tally p (x ∷ rest) ≡ tally p w.t_ready)
    (len : suc (length rest) ≡ length w.t_ready) where
  frame :
      (s : State) (xs : List Task) (u : Thread)
      → Only (x ∷ []) w.thread u
      → ((a : ℕ) → tally (is_fiber a) (x ∷ []) + tally (is_fiber a) xs ≤ 1)
      → All (Fit s b w.thread) xs
      → All (Fit s b u) xs
  frame s xs u o d h = Only-Fit s b (x ∷ []) xs w.thread u o d h

  -- The worker without the task.
  without :
      (u : Thread)
      → IsValid b b u
      → Only (x ∷ []) w.thread u
      → IsWorking b (record w { thread = u; t_ready = rest })
  without u v o = record {
    valid = v;
    new = frame State.init w.t_init u o (λ a. omega (arith, k.apart a, split (is_fiber a))) k.new;
    ready = frame State.ready rest u o (λ a. omega (arith, k.apart a, split (is_fiber a))) fit.1;
    asleep =
        frame State.sleep w.t_sleep u o (λ a. omega (arith, k.apart a, split (is_fiber a)))
          k.asleep;
    none_held = k.none_held;
    apart = λ a. omega (arith, k.apart a, split (is_fiber a));
  }

  abbrev Left : Thread → Type 0
  Left t = IsWorking b (record w { thread = t; t_ready = rest })

  -- The fiber of a task that is over may go.
  drop_task-Left :
      (lo : Bool) (u : Thread)
      → IsValid b b u
      → Only (x ∷ []) w.thread u
      → (u.fibers x.fiber).state ≡ State.destroy
      → Gives Left (drop_task lo x u)
  unfolding drop_task
  drop_task-Left lo u v o f =
      let n = (u.fiber_count + 2 ^ 64 - 1) % 2 ^ 64 in
      let e : Fiber.release x.fiber u ≡ ok (counted n u) =
        release_lem b b x.fiber u v ∙ grind (arith, f, ==_self b) in
      let q = without u v o in
      if_intro (Gives Left) lo _ _
        (λ _. rw e record {
          valid = counted-IsValid b b n u v;
          new = q.new;
          ready = q.ready;
          asleep = q.asleep;
          none_held = q.none_held;
          apart = q.apart;
        })
        (λ _. q)

  -- The fiber of the task has run to its end; those of the others stay.
  finished-IsSafe :
      (u t : Thread)
      → Only (x ∷ []) w.thread u
      → (u.fibers x.fiber).state ≡ State.destroy
      → t.fibers ≡ u.fibers
      → (a : ℕ) → IsSafe a w
      → IsSafe a (record w { thread = t; t_ready = rest; count = w.count - 1 })
  finished-IsSafe u t o f same a safe = elim (Bool-cases (x.fiber == a)) [
    | inl e ↦
        let here : x.fiber ≡ a = (==_iff x.fiber a).0 e in
        inr (
          ap (λ (g : ℕ → Fiber). (g a).state) same
          ∙ subst (λ c. (u.fibers c).state ≡ State.destroy) here f)
    | inr e ↦
        IsSafe-still a w (record w { thread = t; t_ready = rest; count = w.count - 1 })
          (grind (arith, split (is_fiber a), e))
          (λ none'. ap (λ (g : ℕ → Fiber). g a) same ∙ o.1 a (grind (arith, e))) safe
  ]

  put_back-Ran :
      (turn : Turn) (lo : Bool) (u : Thread)
      → Behaves turn
      → Turned turn b x w.thread u
      → Gives
          (Ran turn b w)
          (put_back lo (u.fibers x.fiber).state x (record w { thread = u; t_ready = rest }))
  unfolding put_back
  put_back-Ran Turn.yields lo u g (v, o, f) =
      let q = without u v o in
      rw f.2 (
        record {
          valid = v;
          new = q.new;
          ready = All-append (Fit State.ready b u) rest (x ∷ []) q.ready (f, tt);
          asleep = q.asleep;
          none_held = k.none_held;
          apart = λ a.
              omega (arith, k.apart a, split (is_fiber a), tally-append (is_fiber a) rest (x ∷ []));
        },
        refl,
        (λ a.
            IsSafe-still a w (record w { thread = u; t_ready = rest ++ x ∷ [] })
              (omega (arith, split (is_fiber a), tally-append (is_fiber a) rest (x ∷ [])))
              (λ none'. o.1 a (omega (arith, none', split (is_fiber a))))),
      )
  put_back-Ran (Turn.sleeps ms) lo u g (v, o, f) =
      let q = without u v o in
      rw f.2 (
        record {
          valid = v;
          new = q.new;
          ready = q.ready;
          asleep = All-sleep_push (Fit State.sleep b u) u x w.t_sleep f q.asleep;
          none_held = k.none_held;
          apart = λ a.
              omega
                (arith, k.apart a, split (is_fiber a), tally-sleep_push (is_fiber a) u x w.t_sleep);
        },
        (λ a.
            IsSafe-still a w
              (record w { thread = u; t_ready = rest; t_sleep = sleep_push u x w.t_sleep })
              (omega (arith, split (is_fiber a), tally-sleep_push (is_fiber a) u x w.t_sleep))
              (λ none'. o.1 a (omega (arith, none', split (is_fiber a))))),
      )
  put_back-Ran Turn.finishes lo u g (v, o, f) = rw f (
      Gives->>= (λ t. Left t × (t.fibers ≡ u.fibers)) (Ran Turn.finishes b w) (drop_task lo x u) _
        (Gives-OnOk Left (λ t. t.fibers ≡ u.fibers) (drop_task lo x u) (drop_task-Left lo u v o f)
          (drop_task-fibers lo x u))
        λ t (q, same). (
          record {
            valid = q.valid;
            new = q.new;
            ready = q.ready;
            asleep = q.asleep;
            none_held = q.none_held;
            apart = q.apart;
          },
          refl,
          omega (arith, len),
          λ a. finished-IsSafe u t o f same a,
        ))
  put_back-Ran Turn.holds lo u g t = absurd g
  put_back-Ran Turn.fails lo u g t = absurd g

  -- The rest of the round.
  pub run-Ran :
      (r : Round) (now : ℕ)
      → Behaves (r.turn x.fiber)
      → Gives (Ran (r.turn x.fiber) b w) (
          Fiber.resume all_ok x.fiber w.thread >>= λ t.
          take_turn all_ok x.fiber now (r.turn x.fiber) t >>= λ u.
          put_back r.last_owner
            (u.fibers x.fiber).state
            x
            (record w { thread = u; t_ready = rest }))
  run-Ran r now g =
      Gives-chain (Turned (r.turn x.fiber) b x w.thread) (Ran (r.turn x.fiber) b w)
        (Fiber.resume all_ok x.fiber w.thread)
        (λ t. take_turn all_ok x.fiber now (r.turn x.fiber) t)
        (λ u.
          put_back r.last_owner (u.fibers x.fiber).state x
            (record w { thread = u; t_ready = rest }))
        (resume-Turned (r.turn x.fiber) b now x w.thread k.valid fit.0 g)
        (λ u t. put_back-Ran (r.turn x.fiber) r.last_owner u g t)
