-- ===== src/IoManager/Fires.antt =====
-- What the events of sylar/iomanager.cpp do to the scheduler when they fire.
use prozac.Prelude.{
  ℕ, false, ◌<◌, ◌%◌, ◌^◌, ◌++◌, [], ◌∷◌, ap, ◌∙◌, length, ◌≤◌, All-get_elem?, ◌+◌, ◌≡◌, Bool, true,
  false, some, none, arith, get_elem?, get_elem?-lt, set, Result, ok, ◌>>=◌,
}
use prozac.Fiber.Defs.{Thread, Sys}
use prozac.Scheduler.{Scheduler, new_task, submit, alloc_round}
use prozac.Scheduler.Alloc.{IsCounted, held_by, submit-IsCounted}
use prozac.Scheduler.Bag.{tally, tasks_of_all}
use prozac.Scheduler.Moved.{is_fiber}
use prozac.Scheduler.Handing.{submit_queued, submitted_handed}
use prozac.IoManager.{
  Events, FdContext, IoManager, World, minus, less, cancel_event, trigger_event, get_context,
  put_context,
}
use prozac.IoManager.Sides.{event_of, side, waits, Sided}
use prozac.IoManager.Contexts.{bits, bits_le-waiting}
use prozac.IoManager.Steady.{IsSteady-ranged}
use prozac.IoManager.Reach.{Reach, Reach-IsSteady}

-- A context after its event has fired, and the manager that has it, with the scheduler `s`.
abbrev pub spent : Bool → FdContext → FdContext
spent r c =
    put_context (event_of r) (record (side r c) { scheduler = false })
      (record c { events = minus c.events (event_of r) })

abbrev pub fired_at : ℕ → Bool → FdContext → IoManager → Scheduler → IoManager
fired_at fd r c m s = record m {
  contexts = set m.contexts fd (spent r c);
  pending = less m.pending;
  sched = s;
}

abbrev fires_to :
    ℕ → Bool → FdContext → IoManager → Scheduler × Thread → Result (IoManager × Thread × Bool)
fires_to fd r c m (s, u) = ok (fired_at fd r c m s, u, true)

bits_pos : (r : Bool) (e : Events) → waits r e ≡ true → 1 ≤ bits e
bits_pos true e h = ground arith
bits_pos false e h = ground arith

fires :
    (sys : Sys) (w : World) (r : Bool) (fd a : ℕ) (c : FdContext) (m : IoManager) (t : Thread)
    → get_elem? m.contexts fd ≡ some c
    → waits r c.events ≡ true
    → w.ctl_ok ≡ true
    → (side r c).scheduler ≡ true
    → (side r c).fiber ≡ some a
    → cancel_event sys w fd (event_of r) m t
      ≡ submit sys false (new_task a none 5 w.now_us) m.sched t >>= fires_to fd r c m
unfolding cancel_event trigger_event get_context put_context
fires sys w true fd a c m t at' waiting ctl held fiber =
    ground (arith, get_elem?-lt m.contexts fd c at')
fires sys w false fd a c m t at' waiting ctl held fiber =
    ground (arith, get_elem?-lt m.contexts fd c at')

-- In every state that the manager comes to, `cancelEvent` of an event that waits, when epoll_ctl
-- succeeds, submits a task for the fiber of that event with priority 5, on any thread, and does nothing
-- else that could fail: its result is that of `submit`, with the event taken out of the context and the
-- counter one lower, which is not below 0.
cancel_event-submit :
    (sys : Sys) (w : World) (r : Bool) (fd : ℕ) (c : FdContext) (m : IoManager) (t : Thread)
    → Reach sys m
    → get_elem? m.contexts fd ≡ some c
    → waits r c.events ≡ true
    → w.ctl_ok ≡ true
    → (a : ℕ) × ((side r c).fiber ≡ some a)
      × (less m.pending + 1 ≡ m.pending)
      × (cancel_event sys w fd (event_of r) m t
          ≡ submit sys false (new_task a none 5 w.now_us) m.sched t >>= fires_to fd r c m)
cancel_event-submit sys w r fd c m t q at' waiting ctl =
    let v = Reach-IsSteady sys m q in
    let (held, a, fiber) = All-get_elem? Sided m.contexts fd c v.sided at' r waiting in
    let some_wait = bits_pos r c.events waiting in
    let counted = bits_le-waiting m.contexts fd c at' in
    let below = IsSteady-ranged m v in
    (
      a,
      fiber,
      omega (arith, v.exact, some_wait, counted, below),
      fires sys w r fd a c m t at' waiting ctl held fiber,
    )

-- From an event to a worker: in every state that the manager comes to, when an event that waits is
-- cancelled and the scheduler runs, has workers that are not full and fewer than ten tasks in its queue,
-- the call answers true, and after one round of the allocating thread no task waits and a worker has a task
-- for the fiber of the event. epoll_ctl succeeds, and the scheduler's counters are right.
pub cancel_event-alloc_round :
    (sys : Sys) (w : World) (r : Bool) (fd k : ℕ) (c : FdContext) (m : IoManager) (t : Thread)
    → Reach sys m
    → get_elem? m.contexts fd ≡ some c
    → waits r c.events ≡ true
    → w.ctl_ok ≡ true
    → IsCounted m.sched
    → m.sched.stop ≡ false
    → length m.sched.tasks < 10
    → 1 ≤ length m.sched.workers
    → held_by m.sched.workers < 100000
    → (a : ℕ) × (n : IoManager) × ((side r c).fiber ≡ some a)
      × (cancel_event sys w fd (event_of r) m t ≡ ok (n, t, true))
      × ((alloc_round k n.sched).1.tasks ≡ [])
      × (1 ≤ tally (is_fiber a) (tasks_of_all (alloc_round k n.sched).1.workers))
cancel_event-alloc_round sys w r fd k c m t q at' waiting ctl v runs few some' light =
    let (a, fiber, _, e) = cancel_event-submit sys w r fd c m t q at' waiting ctl in
    let s = m.sched in
    let x = new_task a none 5 w.now_us in
    let count = (s.count + 1) % 2 ^ 64 in
    let queued : Scheduler = record s { tasks = s.tasks ++ x ∷ []; count = count } in
    let taken : submit sys false x s t ≡ ok (queued, t) =
      submit_queued sys false x s t runs (omega (arith, few)) in
    let counted = (submit-IsCounted sys false x s queued t t v (omega (arith, few)) taken).0 in
    let (empty, mine) = submitted_handed k a 5 w.now_us count none s counted few some' light in
    (a, fired_at fd r c m queued, fiber, e ∙ ap (λ y. y >>= fires_to fd r c m) taken, empty, mine)
