-- ===== src/Scheduler/Worker.antt =====
-- The loop of a worker thread of sylar/scheduler.cpp: the queues that its tasks are in.
use prozac.Prelude.{
  ℕ, zero, suc, ◌+◌, ◌≡◌, refl, ap, ◌∙◌, Bool, true, false, List, [], ◌∷◌, ◌++◌, some, arith, ltb,
  ◌==◌, length, length-append, ok, err, assertion, if_intro, inl, inr, ◌⊎◌, OnOk, OnOk-any,
  OnOk->>=, OnOk-mono,
}
use prozac.Fiber.Defs.{State, Thread, all_ok, Sys}
use prozac.Fiber
use prozac.Fiber.{returns}
use prozac.Fiber.Table.{notifies, call, call-table, after}
use prozac.Fiber.Invariant.{IsValid, call-IsValid, main_func-IsValid, main_func_lem, finished}
use prozac.Scheduler.Alloc.{held, Counted}
use prozac.Scheduler.{
  Task, Turn, WorkerThread, Round, take_turn, start_all, awake_all, notify_all, sleep_push,
  take_top, put_back, drop_task, run_top, start_step, sleep_step, hold_step, ready_step, round,
  start_all, awake_all,
}

abbrev Split : List Task → List Task × List Task × Thread → Type 0
Split xs (ys, zs, t) = length ys + length zs ≡ length xs

awake_all-length :
    (sys : Sys) (now : ℕ) (xs : List Task) (t : Thread) → OnOk (Split xs) (awake_all sys now xs t)
unfolding awake_all
awake_all-length sys now [] t = refl
awake_all-length sys now (x ∷ xs) t =
    if_intro (OnOk (Split (x ∷ xs))) (ltb (t.fibers x.fiber).waketime now) _ _
      (λ _. OnOk-any (Split (x ∷ xs)) (Fiber.awake sys x.fiber t) _ (λ t'.
        OnOk->>= (Split xs) (Split (x ∷ xs)) (awake_all sys now xs t') _
          (awake_all-length sys now xs t') (λ r e. omega (arith, e))))
      (λ _. omega arith)

notify_all-length :
    (sys : Sys) (r : Round) (xs : List Task) (t : Thread) → OnOk (Split xs) (notify_all sys r xs t)
unfolding notify_all
notify_all-length sys r [] t = refl
notify_all-length sys r (x ∷ xs) t = OnOk-any (Split (x ∷ xs)) (Fiber.notify sys x.fiber t) _ λ t'.
    OnOk-any (Split (x ∷ xs)) (take_turn sys x.fiber r.now (r.turn x.fiber) t') _ λ u.
      OnOk->>= (Split xs) (Split (x ∷ xs)) (notify_all sys r xs u) _ (notify_all-length sys r xs u)
        (λ q e. ground arith)

pub take_top-length : (n : ℕ) (x : Task) (xs : List Task) → length (take_top n x xs).1 ≡ length xs
unfolding take_top
take_top-length n x [] = refl
take_top-length zero x (y ∷ ys) = refl
take_top-length (suc n) x (y ∷ ys) = ap suc (take_top-length n y ys)

sleep_push-length :
    (t : Thread) (x : Task) (xs : List Task) → length (sleep_push t x xs) ≡ suc (length xs)
unfolding sleep_push
sleep_push-length t x [] = refl
sleep_push-length t x (y ∷ ys) = ground (arith, sleep_push-length t x ys)

-- The counter is right, and the worker has lost no task but perhaps one.
abbrev pub Goes : WorkerThread → WorkerThread → Type 0
Goes w u = Counted u × ((held u ≡ held w) ⊎ (held u + 1 ≡ held w))

put_back-Goes :
    (lo : Bool) (s : State) (x : Task) (w u : WorkerThread)
    → Counted w
    → held u + 1 ≡ held w
    → u.count ≡ w.count
    → OnOk (Goes w) (put_back lo s x u)
unfolding put_back
put_back-Goes lo State.hold x w u c h k =
    let more = length-append u.t_hold (x ∷ []) in
    (omega (arith, more, c, h, k), inl (omega (arith, more, h)))
put_back-Goes lo State.sleep x w u c h k =
    let more = sleep_push-length u.thread x u.t_sleep in
    (omega (arith, more, c, h, k), inl (omega (arith, more, h)))
put_back-Goes lo State.ready x w u c h k =
    let more = length-append u.t_ready (x ∷ []) in
    (omega (arith, more, c, h, k), inl (omega (arith, more, h)))
put_back-Goes lo _ x w u c h k =
    OnOk-any (Goes w) (drop_task lo x u.thread) _ λ t. (omega (arith, c, h, k), inr h)

abbrev pub Keeps : WorkerThread → WorkerThread → Type 0
Keeps w u = Counted u × (held u ≡ held w)

pub start_step-Keeps :
    (sys : Sys) (r : Round) (w : WorkerThread) → Counted w → OnOk (Keeps w) (start_step sys r w)
unfolding start_step
start_step-Keeps sys r w c =
    let more = length-append w.t_ready w.t_init in
    if_intro (OnOk (Keeps w)) r.locked _ _
      (λ _.
        OnOk-any (Keeps w) (start_all sys w.t_init w.thread) _
          λ t. (omega (arith, more, c), omega (arith, more)))
      (λ _. (c, refl))

pub sleep_step-Keeps :
    (sys : Sys) (r : Round) (w : WorkerThread) → Counted w → OnOk (Keeps w) (sleep_step sys r w)
unfolding sleep_step
sleep_step-Keeps sys r w c =
    OnOk->>= (Split w.t_sleep) (Keeps w) (awake_all sys r.now w.t_sleep w.thread) _
      (awake_all-length sys r.now w.t_sleep w.thread)
      λ q e.
        let more = length-append w.t_ready q.0 in
        (omega (arith, more, c, e), omega (arith, more, e))

pub hold_step-Keeps :
    (sys : Sys) (r : Round) (w : WorkerThread) → Counted w → OnOk (Keeps w) (hold_step sys r w)
unfolding hold_step
hold_step-Keeps sys r w c =
    OnOk->>= (Split w.t_hold) (Keeps w) (notify_all sys r w.t_hold w.thread) _
      (notify_all-length sys r w.t_hold w.thread)
      λ q e.
        let more = length-append w.t_ready q.0 in
        (omega (arith, more, c, e), omega (arith, more, e))

pub run_top-Goes :
    (sys : Sys) (r : Round) (w : WorkerThread) (xs : List Task)
    → w.t_ready ≡ xs
    → Counted w
    → OnOk (Goes w) (run_top sys r xs w)
unfolding run_top
run_top-Goes sys r w [] e c = (c, inl refl)
run_top-Goes sys r w (y ∷ ys) e c =
    let fewer = take_top-length r.top y ys in
    let all = ap length e in
    OnOk-any (Goes w) (Fiber.resume sys (take_top r.top y ys).0.fiber w.thread) _ λ t.
      OnOk-any (Goes w)
        (take_turn sys (take_top r.top y ys).0.fiber r.now (r.turn (take_top r.top y ys).0.fiber) t)
        _ λ u. put_back-Goes _ _ _ w _ c (omega (arith, fewer, all)) refl

-- A round of a worker's loop that does not abort keeps its counter equal to the number of its tasks, of
-- which at most one has gone.
pub round-Goes :
    (sys : Sys) (r : Round) (w : WorkerThread) → Counted w → OnOk (Goes w) (round sys r w)
unfolding round ready_step
round-Goes sys r w c =
    OnOk->>= (Keeps w) (Goes w) (start_step sys r w) _ (start_step-Keeps sys r w c) λ w1 k1.
      OnOk->>= (Keeps w1) (Goes w) (sleep_step sys r w1) _ (sleep_step-Keeps sys r w1 k1.0) λ w2 k2.
        OnOk->>= (Keeps w2) (Goes w) (hold_step sys r w2) _ (hold_step-Keeps sys r w2 k2.0) λ w3 k3.
          OnOk-mono (Goes w3) (Goes w) (run_top sys r w3.t_ready w3)
            (run_top-Goes sys r w3 w3.t_ready refl k3.0)
            (λ u g. (
              g.0,
              elim g.1 [
                | inl e ↦ inl (omega (arith, e, k1.1, k2.1, k3.1))
                | inr e ↦ inr (omega (arith, e, k1.1, k2.1, k3.1))
              ],
            ))

-- A held fiber is run and ends; it cannot be run again.
notify_over :
    (b a f : ℕ) (t : Thread)
    → IsValid b b t
    → (a == b) ≡ false
    → ltb a t.fresh ≡ true
    → (t.fibers a).state ≡ State.hold
    → (t.fibers a).cb ≡ some f
    → (t1 t2 : Thread) × (Fiber.notify all_ok a t ≡ ok t1)
      × (Fiber.main_func all_ok returns t1 ≡ ok t2)
      × (Fiber.notify all_ok a t2 ≡ err assertion)
      × ((t2.fibers a).state ≡ State.destroy)
unfolding call after
notify_over b a f t v child made paused cb =
    let t1 = after notifies a b b 0 0 t in
    let first : call notifies all_ok a 0 0 t ≡ ok t1 =
      call-table notifies all_ok b b t v.running a 0 0 ∙ ground (arith, paused) in
    let v1 : IsValid b a t1 = call-IsValid notifies all_ok b b t t1 a 0 0 v child made refl first in
    let second : Fiber.main_func all_ok returns t1 ≡ ok (finished b a t1) =
      main_func_lem all_ok returns b a t1 v1 child ∙ ground (arith, cb) in
    let v2 : IsValid b b (finished b a t1) =
      main_func-IsValid all_ok returns b a t1 (finished b a t1) v1 child second in
    let third : call notifies all_ok a 0 0 (finished b a t1) ≡ err assertion =
      call-table notifies all_ok b b (finished b a t1) v2.running a 0 0 ∙ ground arith in
    (t1, finished b a t1, first, second, third, ground arith)

-- A held fiber that ends when it is run again, the only one held, stays in the list of held tasks, and
-- the step fails an assertion on it when it is taken again.
pub hold_step_lost :
    (r s : Round) (b f : ℕ) (x : Task) (w : WorkerThread)
    → IsValid b b w.thread
    → w.t_hold ≡ x ∷ []
    → (x.fiber == b) ≡ false
    → ltb x.fiber w.thread.fresh ≡ true
    → (w.thread.fibers x.fiber).state ≡ State.hold
    → (w.thread.fibers x.fiber).cb ≡ some f
    → r.turn x.fiber ≡ Turn.finishes
    → (u : WorkerThread) × (hold_step all_ok r w ≡ ok u)
      × (u.t_hold ≡ x ∷ [])
      × (hold_step all_ok s u ≡ err assertion)
unfolding hold_step notify_all take_turn
hold_step_lost r s b f x w v e child made held' cb over =
    let (t1, t2, first, second, third, gone) =
      notify_over b x.fiber f w.thread v child made held' cb in
    (
      record w { thread = t2; t_hold = x ∷ []; t_ready = w.t_ready ++ [] },
      ground (arith, e, first, second, over, gone),
      refl,
      ground (arith, third),
    )

-- A worker whose only task is held.
abbrev pub only_held : Thread → ℕ → Task → WorkerThread
only_held t n x = record {
  thread = t;
  count = n;
  t_init = [];
  t_ready = [];
  t_sleep = [];
  t_hold = x ∷ [];
}

start_idle :
    (r : Round) (t : Thread) (n : ℕ) (x : Task)
    → start_step all_ok r (only_held t n x) ≡ ok (only_held t n x)
unfolding start_step start_all
start_idle r t n x = ground arith

-- A held fiber that ends when it is run again, of the only task of a worker, stays in the list of held
-- tasks after the round, and the next round fails an assertion on it.
pub round_lost :
    (r s : Round) (b f n : ℕ) (x : Task) (t : Thread)
    → IsValid b b t
    → (x.fiber == b) ≡ false
    → ltb x.fiber t.fresh ≡ true
    → (t.fibers x.fiber).state ≡ State.hold
    → (t.fibers x.fiber).cb ≡ some f
    → r.turn x.fiber ≡ Turn.finishes
    → (u : WorkerThread) × (round all_ok r (only_held t n x) ≡ ok u)
      × (u.t_hold ≡ x ∷ [])
      × (round all_ok s u ≡ err assertion)
unfolding round ready_step run_top sleep_step awake_all hold_step notify_all take_turn
round_lost r s b f n x t v child made held' cb over =
    let (t1, t2, first, second, third, gone) = notify_over b x.fiber f t v child made held' cb in
    (
      only_held t2 n x,
      rw (start_idle r t n x) (ground (arith, first, second, over, gone)),
      refl,
      rw (start_idle s t2 n x) (ground (arith, third)),
    )
