-- ===== src/Scheduler/Progress.antt =====
-- The first round of a task in the loop of a worker thread of sylar/scheduler.cpp.
use prozac.Prelude.{
  ℕ, ◌≡◌, refl, ◌∙◌, Bool, true, false, not, ◌&&◌, ◌||◌, [], ◌∷◌, arith, ltb, ◌==◌, if◌then◌else◌,
  ok, err, assertion,
}
use prozac.Fiber.Defs.{State, Thread, all_ok}
use prozac.Fiber
use prozac.Fiber.Table.{
  Method, starts, resumes, yields, holds, sleeps, call, call-table, after, for_main, admits,
  switches,
}
use prozac.Fiber.Invariant.{IsValid, call-IsValid}
use prozac.Scheduler.{
  Task, Turn, WorkerThread, Round, take_turn, start_all, awake_all, notify_all, sleep_push,
  take_top, put_back, run_top, start_step, sleep_step, hold_step, ready_step, round,
}

-- A turn after which the task goes on, as the method that the fiber calls.
abbrev pub method : Turn → Method
method (Turn.sleeps ms) = sleeps
method Turn.holds = holds
method _ = yields

abbrev pub sleep_time : Turn → ℕ
sleep_time (Turn.sleeps ms) = ms
sleep_time _ = 0

abbrev pub GoesOn : Turn → Type 0
GoesOn Turn.finishes = ⊥
GoesOn Turn.fails = ⊥
GoesOn _ = Unit

-- The fiber is started, resumed, and comes back.
abbrev turned : ℕ → ℕ → ℕ → Turn → Thread → Thread
turned a b now turn t =
    after (method turn) a b a now (sleep_time turn)
      (after resumes a b b 0 0 (after starts a b b 0 0 t))

run_once :
    (turn : Turn) (b a now : ℕ) (t : Thread)
    → IsValid b b t
    → (a == b) ≡ false
    → ltb a t.fresh ≡ true
    → (t.fibers a).state ≡ State.init
    → GoesOn turn
    → (Fiber.start all_ok a t ≡ ok (after starts a b b 0 0 t))
      × (Fiber.resume all_ok a (after starts a b b 0 0 t)
          ≡ ok (after resumes a b b 0 0 (after starts a b b 0 0 t)))
      × (take_turn all_ok a now turn (after resumes a b b 0 0 (after starts a b b 0 0 t))
          ≡ ok (turned a b now turn t))
unfolding call take_turn after
run_once turn b a now t v child made fresh on =
    let t1 = after starts a b b 0 0 t in
    let first : call starts all_ok a 0 0 t ≡ ok t1 =
      call-table starts all_ok b b t v.running a 0 0 ∙ ground (arith, fresh, child) in
    let v1 : IsValid b b t1 = call-IsValid starts all_ok b b t t1 a 0 0 v child made refl first in
    let t2 = after resumes a b b 0 0 t1 in
    let second : call resumes all_ok a 0 0 t1 ≡ ok t2 =
      call-table resumes all_ok b b t1 v1.running a 0 0 ∙ ground (arith, child) in
    let v2 : IsValid b a t2 =
      call-IsValid resumes all_ok b b t1 t2 a 0 0 v1 child made refl second in
    (
      first,
      second,
      back turn t2 (call-table (method turn) all_ok b a t2 v2.running a now (sleep_time turn)) on
          (ground (arith, child)) child,
    )
  where
    back :
        (turn : Turn) (u : Thread)
        → call (method turn) all_ok a now (sleep_time turn) u ≡ (
            if (if for_main (method turn) then a == b else not (a == b))
              && admits (method turn) (u.fibers a).state
              && (not (switches (method turn)) || all_ok.swapcontext_ok)
            then ok (after (method turn) a b a now (sleep_time turn) u)
            else err assertion)
        → GoesOn turn
        → (u.fibers a).state ≡ State.exec
        → (a == b) ≡ false
        → take_turn all_ok a now turn u ≡ ok (after (method turn) a b a now (sleep_time turn) u)
    back Turn.yields u e on' exec child' = e ∙ ground (arith, exec, child')
    back Turn.holds u e on' exec child' = e ∙ ground (arith, exec, child')
    back (Turn.sleeps ms) u e on' exec child' = e ∙ ground (arith, exec, child')
    back Turn.finishes u e on' exec child' = absurd on'
    back Turn.fails u e on' exec child' = absurd on'

-- A worker that has just been given one task.
abbrev pub given_one : Task → ℕ → Thread → WorkerThread
given_one x n t = record {
  thread = t;
  count = n;
  t_init = x ∷ [];
  t_ready = [];
  t_sleep = [];
  t_hold = [];
}

-- The worker after the task's turn.
abbrev pub placed : Turn → Task → ℕ → Thread → WorkerThread
placed (Turn.sleeps ms) x n t = record (given_one x n t) { t_init = []; t_sleep = x ∷ [] }
placed Turn.holds x n t = record (given_one x n t) { t_init = []; t_hold = x ∷ [] }
placed _ x n t = record (given_one x n t) { t_init = []; t_ready = x ∷ [] }

placed_by_state :
    (turn : Turn) (lo : Bool) (b now n : ℕ) (x : Task) (t : Thread)
    → (x.fiber == b) ≡ false
    → GoesOn turn
    → put_back lo
        ((turned x.fiber b now turn t).fibers x.fiber).state
        x
        (record (given_one x n (turned x.fiber b now turn t)) { t_init = [] })
      ≡ ok (placed turn x n (turned x.fiber b now turn t))
unfolding put_back sleep_push after
placed_by_state Turn.yields lo b now n x t child on = ground arith
placed_by_state Turn.holds lo b now n x t child on = ground arith
placed_by_state (Turn.sleeps ms) lo b now n x t child on = ground arith
placed_by_state Turn.finishes lo b now n x t child on = absurd on
placed_by_state Turn.fails lo b now n x t child on = absurd on

-- The first round of a worker with one new task does not abort: the fiber is started and run, and when
-- it yields, is held or sleeps, the task is at the end in the queue for that, and in no other. The
-- worker's lock is free, and the main fiber is current at the start.
pub round_first :
    (r : Round) (b n : ℕ) (x : Task) (t : Thread)
    → IsValid b b t
    → (x.fiber == b) ≡ false
    → ltb x.fiber t.fresh ≡ true
    → (t.fibers x.fiber).state ≡ State.init
    → r.locked ≡ true
    → GoesOn (r.turn x.fiber)
    → (u : Thread) × (round all_ok r (given_one x n t) ≡ ok (placed (r.turn x.fiber) x n u))
unfolding round start_step start_all sleep_step awake_all hold_step notify_all ready_step run_top
    take_top
round_first r b n x t v child made fresh open' on =
    let u = turned x.fiber b r.now (r.turn x.fiber) t in
    let (first, second, third) =
      run_once (r.turn x.fiber) b x.fiber r.now t v child made fresh on in
    (
      u,
      ground (
        arith,
        open',
        first,
        second,
        third,
        placed_by_state (r.turn x.fiber) r.last_owner b r.now n x t child on,
      ),
    )
