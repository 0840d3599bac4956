-- ===== src/Scheduler/Rounds.antt =====
-- A whole round of `WokerThread::run` of sylar/scheduler.cpp, for a worker whose tasks have fibers in the
-- states that their queues stand for.
use prozac.Prelude.{
  ℕ, ◌+◌, ◌≤◌, ◌≡◌, refl, sym, ap, subst, ◌∙◌, true, List, [], ◌∷◌, arith, All, Gives, Gives->>=,
  Gives-mono, Gives-OnOk, length, inl, inr,
}
use prozac.Fiber.Defs.{State, all_ok}
use prozac.Scheduler.Alloc.{held, Counted}
use prozac.Scheduler.Worker.{
  Keeps, start_step-Keeps, sleep_step-Keeps, hold_step-Keeps, run_top-Goes, take_top-length, Goes,
}
use prozac.Scheduler.Bag.{tally, tally-take_top}
use prozac.Scheduler.Moved.{Fit, Behaves}
use prozac.Scheduler.Working.{
  IsWorking, Keeping, Steps, start_step-Steps, sleep_step-Steps, hold_step-Steps,
}
use prozac.Scheduler.{
  Task, Turn, WorkerThread, Round, take_top, run_top, start_step, sleep_step, hold_step, ready_step,
  round,
}
use prozac.Scheduler.Turns.{All-take_top, Ran, run-Ran}

-- No fiber is put to sleep; every fiber that runs ends.
abbrev pub IsAwake : Turn → Type 0
IsAwake (Turn.sleeps ms) = ⊥
IsAwake _ = Unit

abbrev pub Wakeful : Round → Type 0
Wakeful r = (a : ℕ) → IsAwake (r.turn a)

abbrev pub Finishing : Round → Type 0
Finishing r = (a : ℕ) → r.turn a ≡ Turn.finishes

abbrev Ends : Round → ℕ → WorkerThread → WorkerThread → Type 0
Ends r b w u =
    IsWorking b u
    × (Wakeful r → w.t_sleep ≡ [] → u.t_sleep ≡ [])
    × (Finishing r → 1 ≤ length w.t_ready → held u + 1 ≡ held w)
    × Keeping w u

Ran-Ends :
    (r : Round) (a b : ℕ) (turn : Turn) (w u : WorkerThread)
    → r.turn a ≡ turn
    → Ran turn b w u
    → Ends r b w u
Ran-Ends r a b Turn.yields w u e h = (h.0, (λ q s. h.1 ∙ s), (λ f. absurd (cc (f a))), h.2)
Ran-Ends r a b (Turn.sleeps ms) w u e h =
    (h.0, (λ q s. absurd (subst IsAwake e (q a))), (λ f. absurd (cc (f a))), h.1)
Ran-Ends r a b Turn.finishes w u e h = (h.0, (λ q s. h.1 ∙ s), (λ f some'. h.2), h.3)
Ran-Ends r a b Turn.holds w u e h = absurd h
Ran-Ends r a b Turn.fails w u e h = absurd h

run_top-Ends :
    (b : ℕ) (r : Round) (w : WorkerThread) (xs : List Task)
    → w.t_ready ≡ xs
    → ((a : ℕ) → Behaves (r.turn a))
    → IsWorking b w
    → Gives (Ends r b w) (run_top all_ok r xs w)
unfolding run_top
run_top-Ends b r w [] e g k =
    (k, (λ q s. s), (λ f some'. absurd (omega (arith, some', ap length e))), λ a h. h)
run_top-Ends b r w (y ∷ ys) e g k =
    let x = (take_top r.top y ys).0 in
    Gives-mono (Ran (r.turn x.fiber) b w) (Ends r b w) _
      (run-Ran b w k x (take_top r.top y ys).1
        (All-take_top (Fit State.ready b w.thread) r.top y ys
          (subst (All (Fit State.ready b w.thread)) e k.ready))
        (λ p. tally-take_top p r.top y ys ∙ ap (tally p) (sym e))
        (omega (arith, take_top-length r.top y ys, ap length e)) r r.now (g x.fiber))
      λ u h. Ran-Ends r x.fiber b (r.turn x.fiber) w u refl h

-- A round does not lose tasks, and runs one to its end if it is to.
abbrev pub Rounds : Round → ℕ → WorkerThread → WorkerThread → Type 0
Rounds r b w u =
    IsWorking b u
    × Counted u
    × (held u ≤ held w)
    × (Wakeful r → w.t_sleep ≡ [] → u.t_sleep ≡ [])
    × (Finishing r → r.locked ≡ true → w.t_sleep ≡ [] → 1 ≤ held w → held u + 1 ≡ held w)
    × Keeping w u

pub round-Rounds :
    (b : ℕ) (r : Round) (w : WorkerThread)
    → ((a : ℕ) → Behaves (r.turn a))
    → IsWorking b w
    → Counted w
    → Gives (Rounds r b w) (round all_ok r w)
unfolding round ready_step
round-Rounds b r w g k c =
    Gives->>= (λ u. (Steps b w u × (r.locked ≡ true → u.t_init ≡ [])) × Keeps w u) (Rounds r b w)
      (start_step all_ok r w) _
      (Gives-OnOk (λ u. Steps b w u × (r.locked ≡ true → u.t_init ≡ [])) (Keeps w)
        (start_step all_ok r w) (start_step-Steps b r w k) (start_step-Keeps all_ok r w c))
      λ w1 ((k1, l1), c1).
        Gives->>= (λ u. Steps b w1 u × Keeps w1 u) (Rounds r b w) (sleep_step all_ok r w1) _
          (Gives-OnOk (Steps b w1) (Keeps w1) (sleep_step all_ok r w1)
            (sleep_step-Steps b r w1 k1.0) (sleep_step-Keeps all_ok r w1 c1.0))
          λ w2 (k2, c2).
            Gives->>= (λ u. Steps b w2 u × Keeps w2 u) (Rounds r b w) (hold_step all_ok r w2) _
              (Gives-OnOk (Steps b w2) (Keeps w2) (hold_step all_ok r w2)
                (hold_step-Steps b r w2 k2.0) (hold_step-Keeps all_ok r w2 c2.0))
              λ w3 (k3, c3).
                Gives-mono (λ u. Ends r b w3 u × Goes w3 u) (Rounds r b w)
                  (run_top all_ok r w3.t_ready w3)
                  (Gives-OnOk (Ends r b w3) (Goes w3) (run_top all_ok r w3.t_ready w3)
                    (run_top-Ends b r w3 w3.t_ready refl g k3.0)
                    (run_top-Goes all_ok r w3 w3.t_ready refl c3.0))
                  λ u (d, e).
                    let same = c1.1 in
                    let fewer : held u ≤ held w = elim e.1 [
                      | inl x ↦ omega (arith, x, c1.1, c2.1, c3.1)
                      | inr x ↦ omega (arith, x, c1.1, c2.1, c3.1)
                    ] in
                    (
                      d.0,
                      e.0,
                      fewer,
                      (λ q s. d.1 q (k3.1 (k2.1 (k1.1 s)))),
                      (λ f open' s some'.
                          let s3 = ap length (k3.1 (k2.1 (k1.1 s))) in
                          let n3 = ap length (k3.2 (k2.2 (l1 open'))) in
                          let h3 = ap length k3.0.none_held in
                          omega (
                            arith,
                            c1.1,
                            c2.1,
                            c3.1,
                            d.2 f (omega (arith, some', c1.1, c2.1, c3.1, s3, n3, h3)),
                          )),
                      (λ a h. d.3 a (k3.3 a (k2.3 a (k1.3 a h)))),
                    )

-- A round of a worker never aborts while no fiber is held or throws: if each task has a fiber of its own
-- in the state of its queue, with a callback, and no fiber is held, it is so after the round, whatever
-- the turns, the clock and the order of the ready queue. The counter stays the number of tasks.
pub round-IsWorking :
    (b : ℕ) (r : Round) (w : WorkerThread)
    → ((a : ℕ) → Behaves (r.turn a))
    → IsWorking b w
    → Counted w
    → Gives (λ u. IsWorking b u × Counted u) (round all_ok r w)
round-IsWorking b r w g k c =
    Gives-mono (Rounds r b w) (λ u. IsWorking b u × Counted u) (round all_ok r w)
      (round-Rounds b r w g k c) λ u d. (d.0, d.1)
