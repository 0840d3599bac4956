-- ===== src/IoManager/Tests.antt =====
-- An I/O manager of sylar/iomanager.cpp at work, and instances of the theorems about it.
use prozac.Prelude.{
  ◌≤◌, ℕ, ◌+◌, ◌≡◌, refl, ap, Bool, true, false, some, none, List, [], ◌∷◌, arith, length, ok, err,
  assertion,
}
use prozac.Fiber.Defs.{State, Thread, all_ok, is_over}
use prozac.Fiber.Reachable.{Reach-IsValid}
use prozac.Fiber.Tests.{fresh_thread, created_child, with_child, with_child-Reach, with_child_alive}
use prozac.Scheduler.{Scheduler, new_task, submit, alloc_round}
use prozac.Scheduler.Bag.{tally, tasks_of_all}
use prozac.Scheduler.Moved.{is_fiber}
use prozac.IoManager.{
  Events, any, fill, cover, new_manager, context_resize, resize_from, begin_stop, end_stop,
  FdContext, IoManager, World, read_event, none_set, new_context, trigger_event, get_context,
  put_context, add_event, del_event, cancel_event, handle_event, real_events, EpollEvent,
}
use prozac.IoManager.Reuse.{del_event_aborts, add_event-cancel_event}
use prozac.IoManager.Steady.{IsSteady}
use prozac.IoManager.Contexts.{bits}
use prozac.IoManager.Sides.{waits}
use prozac.IoManager.Reports.{handle_event-submit}
use prozac.IoManager.Fires.{cancel_event-alloc_round}
use prozac.IoManager.Reach.{Call, Reach, Reach-IsSteady, end_stop-quiet}

abbrev world : World
world = record { ctl_ok = true; has_scheduler = true; last_owner = true; now_us = 10 }

abbrev idle_scheduler : Scheduler
idle_scheduler = record { tasks = []; count = 0; stop = false; workers = [] }

-- The fiber at address 1 waits to read from descriptor 0.
abbrev waiting_context : FdContext
waiting_context = record (new_context 0) {
  events = read_event;
  read = record { scheduler = true; fiber = some 1 };
}

abbrev manager : IoManager
manager = record {
  contexts = waiting_context ∷ new_context 1 ∷ [];
  pending = 1;
  stopping = false;
  sched = idle_scheduler;
}

abbrev fibers : Thread
fibers = with_child State.init

-- A new manager, then with READ added on descriptor 1, then with that event cancelled, then stopped.
abbrev one_context : Events → Bool → List FdContext
one_context e scheduled =
    new_context 0
    ∷ record (new_context 1) { events = e; read = record { scheduler = scheduled; fiber = some 1 } }
    ∷ fill 30 2

abbrev added : IoManager
added = record {
  contexts = one_context read_event true;
  pending = 1;
  stopping = false;
  sched = idle_scheduler;
}

added-Reach : Reach all_ok added
unfolding add_event cover new_manager context_resize resize_from fill get_context put_context
added-Reach =
    Reach.calls world (Call.adds 1 true (some 7)) fresh_thread fibers (omega arith)
      (Reach.begins idle_scheduler) (rw (created_child, with_child_alive State.init) refl)

Reach-IsSteady_example : IsSteady added
Reach-IsSteady_example = Reach-IsSteady all_ok added added-Reach

abbrev readable : FdContext
readable = record (new_context 1) {
  events = read_event;
  read = record { scheduler = true; fiber = some 1 };
}

-- One worker that has no tasks.
abbrev worked : Scheduler
worked = record idle_scheduler {
  workers =
      record { thread = fibers; count = 0; t_init = []; t_ready = []; t_sleep = []; t_hold = [] }
      ∷ [];
}

cancel_event-alloc_round_example :
    (a : ℕ) × (n : IoManager) × (some 1 ≡ some a)
    × (cancel_event all_ok world 1 read_event (record added { sched = worked }) fibers
        ≡ ok (n, fibers, true))
    × ((alloc_round 0 n.sched).1.tasks ≡ [])
    × (1 ≤ tally (is_fiber a) (tasks_of_all (alloc_round 0 n.sched).1.workers))
unfolding fill
cancel_event-alloc_round_example =
    cancel_event-alloc_round all_ok world true 1 0 readable (record added { sched = worked }) fibers
      (Reach.schedules worked added-Reach) refl refl refl
      (record { queue = refl; each = (refl, tt) }) refl (omega arith) (omega arith) (omega arith)

-- epoll_wait reports that descriptor 1 can be read.
abbrev input_ready : EpollEvent
input_ready = record { input = true; output = false; broken = false }

asked_read :
    (r : Bool) → waits r (real_events input_ready read_event) ≡ true → waits r read_event ≡ true
unfolding real_events
asked_read true h = refl
asked_read false h = cc

handle_event-submit_example :
    (n : IoManager) × (handle_event all_ok world 1 input_ready added fibers ≡ ok (n, fibers))
    × (length n.sched.tasks ≡ 0 + bits (real_events input_ready read_event))
    × (n.pending + bits (real_events input_ready read_event) ≡ 1)
unfolding fill real_events
handle_event-submit_example =
    handle_event-submit all_ok world 1 input_ready readable added fibers added-Reach refl asked_read
      refl refl (omega arith)

abbrev cancelled : IoManager
cancelled = record {
  contexts = one_context none_set false;
  pending = 0;
  stopping = false;
  sched = record idle_scheduler { tasks = new_task 1 none 5 10 ∷ []; count = 1 };
}

cancelled-Reach : Reach all_ok cancelled
unfolding cancel_event trigger_event submit get_context put_context fill
cancelled-Reach = Reach.calls world (Call.cancels 1 true) fibers fibers tt added-Reach refl

abbrev stopped : IoManager
stopped = record cancelled { sched = record cancelled.sched { stop = true }; stopping = true }

stops : end_stop (begin_stop cancelled) ≡ some stopped
unfolding end_stop begin_stop
stops = refl

end_stop-quiet_example : any none_set ≡ false
unfolding fill
end_stop-quiet_example =
    end_stop-quiet all_ok (begin_stop cancelled) stopped 1
      (record (new_context 1) { read = record { scheduler = false; fiber = some 1 } })
      (Reach.begins_stop cancelled-Reach) stops refl

del_event_aborts_example : del_event all_ok world 0 read_event manager fibers ≡ err assertion
del_event_aborts_example =
    del_event_aborts all_ok world true 0 1 0 0 waiting_context manager fibers
      (Reach-IsValid with_child-Reach) refl refl refl refl
      (ap is_over (with_child_alive State.init)) refl refl

abbrev fired : IoManager
fired = record {
  contexts =
      record waiting_context {
        events = none_set;
        read = record { scheduler = false; fiber = some 1 };
      }
      ∷ new_context 1
      ∷ [];
  pending = 0;
  stopping = false;
  sched = record idle_scheduler { tasks = new_task 1 none 5 10 ∷ []; count = 1 };
}

cancel_event-fired :
    cancel_event all_ok world 0 read_event manager fibers ≡ ok (fired, fibers, true)
unfolding cancel_event trigger_event submit get_context put_context
cancel_event-fired = refl

add_event-cancel_event_example :
    add_event all_ok world 0 read_event (some 9) fired fibers ≡ err assertion
add_event-cancel_event_example =
    add_event-cancel_event all_ok world world true 0 (some 9) manager fired fibers fibers refl refl
      cancel_event-fired
