-- ===== src/Scheduler/Working.antt =====
-- The steps of a round of `WokerThread::run` of sylar/scheduler.cpp, for a worker whose tasks have fibers
-- in the states that their queues stand for.
use prozac.Prelude.{
  ℕ, ◌≤◌, ◌≡◌, refl, ap, Bool, true, List, [], ◌∷◌, arith, ltb, if_intro, All, All-append, ◌++◌,
  ◌∙◌, ◌==◌, ◌⊎◌, inl, inr, Bool-cases, Gives, Gives->>=, Gives-mono, Gives-OnOk,
}
use prozac.Fiber.Defs.{State, Fiber, Thread, all_ok}
use prozac.Fiber
use prozac.Fiber.Invariant.{IsValid}
use prozac.Scheduler.Bag.{tally, tally-append, tally_of, Split, awake_all-Split, OnOk-every}
use prozac.Scheduler.Moved.{
  Fit, Only, Only-Fit, Only-trans, Only-refl, is_fiber, Goes, start-Goes, awake-Goes,
}
use prozac.Scheduler.{
  Task, WorkerThread, Round, start_all, awake_all, notify_all, start_step, sleep_step, hold_step,
}

-- Each task has a fiber of its own, in the state of its queue; no fiber is held. `b` is the main fiber.
pub record IsWorking (b : ℕ) (w : WorkerThread) : Type 0 where
  pub valid : IsValid b b w.thread
  pub new : All (Fit State.init b w.thread) w.t_init
  pub ready : All (Fit State.ready b w.thread) w.t_ready
  pub asleep : All (Fit State.sleep b w.thread) w.t_sleep
  pub none_held : w.t_hold ≡ []
  pub apart : (a : ℕ) → tally_of (is_fiber a) w ≤ 1

abbrev Begun : ℕ → List Task → Thread → Thread → Type 0
Begun b xs t u = IsValid b b u × Only xs t u × All (Fit State.ready b u) xs

start_all-Begun :
    (b : ℕ) (xs : List Task) (t : Thread)
    → IsValid b b t
    → All (Fit State.init b t) xs
    → ((a : ℕ) → tally (is_fiber a) xs ≤ 1)
    → Gives (Begun b xs t) (start_all all_ok xs t)
unfolding start_all
start_all-Begun b [] t v h d = (v, Only-refl t, tt)
start_all-Begun b (x ∷ xs) t v h d =
    Gives->>= (Goes State.ready b x t) (Begun b (x ∷ xs) t) (Fiber.start all_ok x.fiber t) _
      (start-Goes b x t v h.0)
      λ u (w, o, f).
        Gives-mono (Begun b xs u) (Begun b (x ∷ xs) t) (start_all all_ok xs u)
          (start_all-Begun b xs u w
            (Only-Fit State.init b (x ∷ []) xs t u o (λ a. omega (arith, d a)) h.1)
            (λ a. omega (arith, d a)))
          λ z (y, p, g). (
            y,
            Only-trans (x ∷ []) xs t u z o p,
            ((Only-Fit State.ready b xs (x ∷ []) u z p (λ a. omega (arith, d a)) (f, tt)).0, g),
          )

abbrev Woken : ℕ → List Task → Thread → List Task × List Task × Thread → Type 0
Woken b xs t (ys, zs, u) =
    IsValid b b u × Only xs t u × All (Fit State.ready b u) ys × All (Fit State.sleep b u) zs

awake_all-Woken :
    (b now : ℕ) (xs : List Task) (t : Thread)
    → IsValid b b t
    → All (Fit State.sleep b t) xs
    → ((a : ℕ) → tally (is_fiber a) xs ≤ 1)
    → Gives (Woken b xs t) (awake_all all_ok now xs t)
unfolding awake_all
awake_all-Woken b now [] t v h d = (v, Only-refl t, tt, tt)
awake_all-Woken b now (x ∷ xs) t v h d =
    if_intro (Gives (Woken b (x ∷ xs) t)) (ltb (t.fibers x.fiber).waketime now) _ _
      (λ _.
        Gives->>= (Goes State.ready b x t) (Woken b (x ∷ xs) t) (Fiber.awake all_ok x.fiber t) _
          (awake-Goes b x t v h.0)
          λ u (w, o, f).
            Gives->>= (Woken b xs u) (Woken b (x ∷ xs) t) (awake_all all_ok now xs u) _
              (awake_all-Woken b now xs u w
                (Only-Fit State.sleep b (x ∷ []) xs t u o (λ a. omega (arith, d a)) h.1)
                (λ a. omega (arith, d a)))
              λ q (y, p, g, k). (
                y,
                Only-trans (x ∷ []) xs t u q.2 o p,
                (
                  (Only-Fit State.ready b xs (x ∷ []) u q.2 p (λ a. omega (arith, d a)) (f, tt)).0,
                  g,
                ),
                k,
              ))
      (λ _. (v, (refl, λ a e. refl), tt, h))

tally-empty : (xs : List Task) → tally (λ x. true) xs ≡ 0 → xs ≡ []
tally-empty [] e = refl
tally-empty (x ∷ xs) e = absurd (omega arith)

-- The fiber `a` has a task in the worker, or has run to its end.
abbrev pub IsSafe : ℕ → WorkerThread → Type 0
IsSafe a w = (1 ≤ tally_of (is_fiber a) w) ⊎ ((w.thread.fibers a).state ≡ State.destroy)

abbrev pub Keeping : WorkerThread → WorkerThread → Type 0
Keeping w u = (a : ℕ) → IsSafe a w → IsSafe a u

-- A fiber whose tasks stay, and which is left alone when it has none.
pub IsSafe-still :
    (a : ℕ) (w u : WorkerThread)
    → tally_of (is_fiber a) u ≡ tally_of (is_fiber a) w
    → (tally_of (is_fiber a) w ≡ 0 → u.thread.fibers a ≡ w.thread.fibers a)
    → IsSafe a w
    → IsSafe a u
IsSafe-still a w u same alone (inl some') = inl (omega (arith, same, some'))
IsSafe-still a w u same alone (inr over) = elim (Bool-cases (tally_of (is_fiber a) w == 0)) [
  | inl e ↦ inr (ap (λ (f : Fiber). f.state) (alone (grind (arith, e))) ∙ over)
  | inr e ↦ inl (grind (arith, same, e))
]

-- What each step does to the queues of new tasks and of sleepers.
abbrev pub Steps : ℕ → WorkerThread → WorkerThread → Type 0
Steps b w u =
    IsWorking b u
    × (w.t_sleep ≡ [] → u.t_sleep ≡ [])
    × (w.t_init ≡ [] → u.t_init ≡ [])
    × Keeping w u

pub start_step-Steps :
    (b : ℕ) (r : Round) (w : WorkerThread)
    → IsWorking b w
    → Gives (λ u. Steps b w u × (r.locked ≡ true → u.t_init ≡ [])) (start_step all_ok r w)
unfolding start_step
start_step-Steps b r w k =
    if_intro (Gives (λ u. Steps b w u × (r.locked ≡ true → u.t_init ≡ []))) r.locked _ _
      (λ _.
        Gives->>= (Begun b w.t_init w.thread) (λ u. Steps b w u × (r.locked ≡ true → u.t_init ≡ []))
          (start_all all_ok w.t_init w.thread) _
          (start_all-Begun b w.t_init w.thread k.valid k.new (λ a. omega (arith, k.apart a)))
          λ u (v, o, g). (
            (
              record {
                valid = v;
                new = tt;
                ready =
                    All-append (Fit State.ready b u) w.t_ready w.t_init
                      (Only-Fit State.ready b w.t_init w.t_ready w.thread u o
                        (λ a. omega (arith, k.apart a)) k.ready)
                      g;
                asleep =
                    Only-Fit State.sleep b w.t_init w.t_sleep w.thread u o
                      (λ a. omega (arith, k.apart a)) k.asleep;
                none_held = k.none_held;
                apart = λ a. omega (arith, k.apart a, tally-append (is_fiber a) w.t_ready w.t_init);
              },
              (λ e. e),
              (λ e. refl),
              (λ a.
                  IsSafe-still a w
                    (record w { thread = u; t_init = []; t_ready = w.t_ready ++ w.t_init })
                    (omega (arith, tally-append (is_fiber a) w.t_ready w.t_init))
                    (λ none'. o.1 a (omega (arith, none')))),
            ),
            λ _. refl,
          ))
      (λ shut. ((k, (λ e. e), (λ e. e), (λ a h. h)), λ open'. cc))

pub sleep_step-Steps :
    (b : ℕ) (r : Round) (w : WorkerThread)
    → IsWorking b w
    → Gives (Steps b w) (sleep_step all_ok r w)
unfolding sleep_step
sleep_step-Steps b r w k =
    Gives->>= (λ q. Woken b w.t_sleep w.thread q × ((p : Task → Bool) → Split p w.t_sleep q))
      (Steps b w) (awake_all all_ok r.now w.t_sleep w.thread) _
      (Gives-OnOk (Woken b w.t_sleep w.thread) (λ q. (p : Task → Bool) → Split p w.t_sleep q)
        (awake_all all_ok r.now w.t_sleep w.thread)
        (awake_all-Woken b r.now w.t_sleep w.thread k.valid k.asleep
          (λ a. omega (arith, k.apart a)))
        (OnOk-every (λ p. Split p w.t_sleep) (awake_all all_ok r.now w.t_sleep w.thread)
          (λ p. awake_all-Split p all_ok r.now w.t_sleep w.thread)))
      λ q ((v, o, g, h), s). (
        record {
          valid = v;
          new =
              Only-Fit State.init b w.t_sleep w.t_init w.thread q.2 o
                (λ a. omega (arith, k.apart a)) k.new;
          ready =
              All-append (Fit State.ready b q.2) w.t_ready q.0
                (Only-Fit State.ready b w.t_sleep w.t_ready w.thread q.2 o
                  (λ a. omega (arith, k.apart a)) k.ready)
                g;
          asleep = h;
          none_held = k.none_held;
          apart = λ a.
              omega (arith, k.apart a, tally-append (is_fiber a) w.t_ready q.0, s (is_fiber a));
        },
        (λ e. tally-empty q.1 (omega (arith, s (λ x. true), ap (tally (λ x. true)) e))),
        (λ e. e),
        (λ a.
            IsSafe-still a w (record w { thread = q.2; t_sleep = q.1; t_ready = w.t_ready ++ q.0 })
              (omega (arith, tally-append (is_fiber a) w.t_ready q.0, s (is_fiber a)))
              (λ none'. o.1 a (omega (arith, none')))),
      )

pub hold_step-Steps :
    (b : ℕ) (r : Round) (w : WorkerThread)
    → IsWorking b w
    → Gives (Steps b w) (hold_step all_ok r w)
unfolding hold_step
hold_step-Steps b r w k =
    rw (k.none_held, notify_all)
      (
        record {
          valid = k.valid;
          new = k.new;
          ready = All-append (Fit State.ready b w.thread) w.t_ready [] k.ready tt;
          asleep = k.asleep;
          none_held = refl;
          apart = λ a. omega (arith, k.apart a, tally-append (is_fiber a) w.t_ready []);
        },
        (λ e. e),
        (λ e. e),
        (λ a.
            IsSafe-still a (record w { t_hold = [] })
              (record w { t_hold = []; t_ready = w.t_ready ++ [] })
              (omega (arith, tally-append (is_fiber a) w.t_ready [])) (λ none'. refl)),
      )
