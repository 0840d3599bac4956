-- ===== src/IoManager.antt =====
-- sylar/iomanager.h, sylar/iomanager.cpp: the events that fibers wait for on file descriptors. An
-- `Event` is its bits for READ and WRITE, the only ones that the code sets. Descriptors are not
-- negative. `epoll_ctl` is an argument: whether it succeeds. The scheduler of an event is the one at
-- hand; the fibers are those of the calling thread.
use prozac.Prelude.{
  ℕ, ◌+◌, ◌-◌, ◌*◌, ◌/◌, ◌%◌, ◌^◌, zero, suc, Bool, true, false, not, ◌&&◌, ◌||◌, Option, none,
  some, List, [], ◌∷◌, ◌++◌, ltb, leb, ◌==◌, if◌then◌else◌, length, Result, ok, err, assert,
  assertion, null_deref, out_of_range, ◌>>=◌, ◌>>◌, get_elem?, set,
}
use prozac.Fiber.Defs.{State, Fiber, Thread, Sys, is_state}
use prozac.Fiber
use prozac.Scheduler.{Scheduler, Task, new_task, submit}
pub mod Contexts
pub mod End
pub mod Fires
pub mod Reports
pub mod Pending
pub mod Reach
pub mod Reuse
pub mod Sides
pub mod Steady
mod Tests

pub record Events : Type 0 where
  pub read : Bool
  pub write : Bool

abbrev pub none_set : Events
none_set = record { read = false; write = false }

abbrev pub read_event : Events
read_event = record { read = true; write = false }

abbrev pub write_event : Events
write_event = record { read = false; write = true }

abbrev pub meet : Events → Events → Events
meet a b = record { read = a.read && b.read; write = a.write && b.write }

abbrev pub join : Events → Events → Events
join a b = record { read = a.read || b.read; write = a.write || b.write }

abbrev pub minus : Events → Events → Events
minus a b = record { read = a.read && not b.read; write = a.write && not b.write }

abbrev pub any : Events → Bool
any a = a.read || a.write

pub record EventContext : Type 0 where
  pub scheduler : Bool
  pub fiber : Option ℕ

pub record FdContext : Type 0 where
  pub read : EventContext
  pub write : EventContext
  pub fd : ℕ
  pub events : Events

abbrev empty_context : EventContext
empty_context = record { scheduler = false; fiber = none }

-- `new FdContext` for a descriptor.
abbrev pub new_context : ℕ → FdContext
new_context fd = record { read = empty_context; write = empty_context; fd = fd; events = none_set }

pub record IoManager : Type 0 where
  pub contexts : List FdContext
  pub pending : ℕ
  pub stopping : Bool
  pub sched : Scheduler

-- What a call meets: whether epoll_ctl succeeds and the thread has a scheduler, whether a context
-- holds the last pointer to its fiber, and the clock.
pub record World : Type 0 where
  pub ctl_ok : Bool
  pub has_scheduler : Bool
  pub last_owner : Bool
  pub now_us : ℕ

-- `FdContext::getContext`, and a write through the reference that it gives.
pub get_context : Events → FdContext → Result EventContext
get_context e c =
    if e.read && not e.write
    then ok c.read
    else (if e.write && not e.read then ok c.write else err assertion)

pub put_context : Events → EventContext → FdContext → FdContext
put_context e x c = if e.read then record c { read = x } else record c { write = x }

-- `FdContext::resetContext`, which gives up the pointer to the fiber.
pub reset_context : World → EventContext → Thread → Result (EventContext × Thread)
reset_context w x t =
    let released = (do
      t ← elim x.fiber [ none ↦ ok t | some a ↦ if w.last_owner then Fiber.release a t else ok t ]
      ok (empty_context, t)) in
    released

-- `FdContext::triggerEvent`: the fiber is submitted, and its pointer stays in the context.
pub trigger_event :
    Sys → World → Events → FdContext → Scheduler → Thread → Result (FdContext × Scheduler × Thread)
unfolding get_context put_context
trigger_event sys w e c s t = do
  assert (any (meet c.events e))
  let c = record c { events = minus c.events e }
  x ← get_context e c
  assert x.scheduler
  a ← elim x.fiber [ none ↦ err null_deref | some a ↦ ok a ]
  (s, t) ← submit sys false (new_task a none 5 w.now_us) s t
  ok (put_context e (record x { scheduler = false }) c, s, t)

-- `contextResize(size)`: shorter lists are filled with new contexts, longer ones cut.
pub fill : ℕ → ℕ → List FdContext
fill zero i = []
fill (suc n) i = new_context i ∷ fill n (i + 1)

pub resize_from : ℕ → ℕ → List FdContext → List FdContext
unfolding fill
resize_from i n [] = fill n i
resize_from i zero (c ∷ cs) = []
resize_from i (suc n) (c ∷ cs) = c ∷ resize_from (i + 1) n cs

pub context_resize : ℕ → List FdContext → List FdContext
unfolding resize_from
context_resize n cs = resize_from 0 n cs

-- `IOManager::IOManager`: 32 contexts; the scheduler is started.
pub new_manager : Scheduler → IoManager
unfolding context_resize
new_manager s = record { contexts = context_resize 32 []; pending = 0; stopping = false; sched = s }

-- Lines 111-124: the contexts, grown to `fd * 1.5` when `fd` is out of range.
pub cover : ℕ → List FdContext → List FdContext
unfolding context_resize
cover fd cs = if ltb fd (length cs) then cs else context_resize (fd * 3 / 2) cs

abbrev context_at : ℕ → List FdContext → Result FdContext
context_at fd cs = elim (get_elem? cs fd) [ none ↦ err out_of_range | some c ↦ ok c ]

-- `IOManager::addEvent`; the answer true is 0, false is -1.
pub add_event :
    Sys → World → ℕ → Events → Option ℕ → IoManager → Thread → Result (IoManager × Thread × Bool)
unfolding cover get_context put_context
add_event sys w fd e cb m t =
    let cs = cover fd m.contexts in
    let grown = record m { contexts = cs } in
    let added = (do
      c ← context_at fd cs
      assert (not (any (meet c.events e)))
      let registered = (do
        let c = record c { events = join c.events e }
        x ← get_context e c
        assert (not x.scheduler && (elim x.fiber [ none ↦ true | some a ↦ false ]))
        assert w.has_scheduler
        (a, t) ← Fiber.create_fiber sys cb 4096 t
        assert (is_state (t.fibers a).state State.init)
        let c = put_context e (record { scheduler = true; fiber = some a }) c
        ok (record grown { contexts = set cs fd c; pending = (m.pending + 1) % 2 ^ 64 }, t, true))
      if w.ctl_ok then registered else ok (grown, t, false)) in
    if m.stopping then ok (m, t, false) else added

-- The number of waiting events goes down.
abbrev pub less : ℕ → ℕ
less n = (n + 2 ^ 64 - 1) % 2 ^ 64

-- `IOManager::delEvent`
pub del_event : Sys → World → ℕ → Events → IoManager → Thread → Result (IoManager × Thread × Bool)
unfolding get_context put_context reset_context
del_event sys w fd e m t =
    let found = (do
      c ← context_at fd m.contexts
      let removed = (do
        let c = record c { events = minus c.events e }
        x ← get_context e c
        (x, t) ← reset_context w x t
        let cs = set m.contexts fd (put_context e x c)
        ok (record m { contexts = cs; pending = less m.pending }, t, true))
      if any (meet c.events e) && w.ctl_ok then removed else ok (m, t, false)) in
    if leb (length m.contexts) fd then ok (m, t, false) else found

-- `IOManager::cancelEvent`
pub cancel_event :
    Sys → World → ℕ → Events → IoManager → Thread → Result (IoManager × Thread × Bool)
unfolding trigger_event
cancel_event sys w fd e m t =
    let found = (do
      c ← context_at fd m.contexts
      let triggered = (do
        (c, s, t) ← trigger_event sys w e c m.sched t
        let cs = set m.contexts fd c
        ok (record m { contexts = cs; pending = less m.pending; sched = s }, t, true))
      if any (meet c.events e) && w.ctl_ok then triggered else ok (m, t, false)) in
    if leb (length m.contexts) fd then ok (m, t, false) else found

-- `if(test) { triggerEvent(e); --m_pendingEventCount; }`
pub trigger_if :
    Sys
    → World
    → Bool
    → Events
    → ℕ
    → FdContext
    → IoManager
    → Thread
    → Result (FdContext × IoManager × Thread)
unfolding trigger_event
trigger_if sys w test e fd c m t =
    let triggered = (do
      (c, s, t) ← trigger_event sys w e c m.sched t
      let cs = set m.contexts fd c
      ok (c, record m { contexts = cs; pending = less m.pending; sched = s }, t)) in
    if test then triggered else ok (c, m, t)

-- `IOManager::cancelAll`
pub cancel_all : Sys → World → ℕ → IoManager → Thread → Result (IoManager × Thread × Bool)
unfolding trigger_if
cancel_all sys w fd m t =
    let found = (do
      c ← context_at fd m.contexts
      let triggered = (do
        (c, m, t) ← trigger_if sys w c.events.read read_event fd c m t
        (c, m, t) ← trigger_if sys w c.events.write write_event fd c m t
        assert (not (any c.events))
        ok (m, t, true))
      if any c.events && w.ctl_ok then triggered else ok (m, t, false)) in
    if leb (length m.contexts) fd then ok (m, t, false) else found

-- What epoll_wait reports of a descriptor: EPOLLIN, EPOLLOUT, and EPOLLERR or EPOLLHUP.
pub record EpollEvent : Type 0 where
  pub input : Bool
  pub output : Bool
  pub broken : Bool

-- Lines 331-343.
pub real_events : EpollEvent → Events → Events
real_events v e = record {
  read = v.input || (v.broken && e.read);
  write = v.output || (v.broken && e.write);
}

-- Lines 327-372 of `IOManager::idle`, for one event of the descriptor `fd`.
pub handle_event : Sys → World → ℕ → EpollEvent → IoManager → Thread → Result (IoManager × Thread)
unfolding real_events trigger_if
handle_event sys w fd v m t = do
  c ← context_at fd m.contexts
  let real = real_events v c.events
  let triggered = (do
    (c, m, t) ← trigger_if sys w real.read read_event fd c m t
    (c, m, t) ← trigger_if sys w real.write write_event fd c m t
    ok (m, t))
  if any (meet c.events real) && w.ctl_ok then triggered else ok (m, t)

-- The loop over the events of one epoll_wait.
pub handle_all :
    Sys → World → List (ℕ × EpollEvent) → IoManager → Thread → Result (IoManager × Thread)
unfolding handle_event
handle_all sys w [] m t = ok (m, t)
handle_all sys w ((fd, v) ∷ vs) m t = do
  (m, t) ← handle_event sys w fd v m t
  handle_all sys w vs m t

-- One time round the loop of `IOManager::idle`: whether the worker is idle and is told to stop, and what
-- epoll_wait reports, which is called again when a signal interrupts it, and reports nothing on an error.
pub record Poll : Type 0 where
  pub is_idle : Bool
  pub is_stop : Bool
  pub world : World
  pub events : List (ℕ × EpollEvent)

-- `IOManager::idle`
pub idle : Sys → List Poll → IoManager → Thread → Result (IoManager × Thread)
unfolding handle_all
idle sys [] m t = ok (m, t)
idle sys (p ∷ ps) m t =
    let handled = (do (m, t) ← handle_all sys p.world p.events m t; idle sys ps m t) in
    if p.is_idle && not p.is_stop then handled else ok (m, t)

-- `IOManager::stop`: line 288, then the wait of lines 289-291, which ends when no event waits, and line
-- 292. The workers are joined after it.
pub begin_stop : IoManager → IoManager
begin_stop m = record m { stopping = true }

pub end_stop : IoManager → Option IoManager
end_stop m =
    if m.pending == 0 then some (record m { sched = record m.sched { stop = true } }) else none
