-- ===== src/Fiber/Tests.antt =====
-- Fibers of sylar/fiber.cpp at work on one thread, and instances of the theorems about them.
use prozac.Prelude.{
  ◌≡◌, refl, true, false, not, ltb, ◌&&◌, ◌||◌, some, none, ◌==◌, if◌then◌else◌, arith, Result, ok,
  err, assertion, null_deref, update,
}
use prozac.Fiber.Defs.{State, Thread, all_ok}
use prozac.Fiber.{
  init, get_this, create_fiber, start, resume, hold, main_func, release, returns, throws, outcome,
  get_fiber_id,
}
use prozac.Fiber.Table.{
  starts, resumes, yields, holds, call, for_main, admits, switches, after, call-table,
}
use prozac.Fiber.Invariant.{IsValid, main_func_lem, finished}
use prozac.Fiber.Reachable.{Reach, first, called, created, Reach-IsValid}

-- The thread at its first use of fibers, at address 0.
unfoldable pub fresh_thread : Thread
unfolding init
fresh_thread = record {
  fibers = update init.fibers 0 (record {
    id = 0;
    cb = none;
    stacksize = 0;
    stack = false;
    state = State.exec;
    waketime = 0;
  });
  main_fiber = some 0;
  this_fiber = some 0;
  fiber_ids = 1;
  fiber_count = 1;
  fresh = 1;
  control = some 0;
}

fresh_thread-Reach : Reach all_ok 0 0 fresh_thread
unfolding fresh_thread get_this
fresh_thread-Reach = first refl

-- With one child at address 1, in the state `s`.
pub with_child : State → Thread
unfolding fresh_thread
with_child s = record fresh_thread {
  fibers =
      update fresh_thread.fibers 1
        (record { id = 1; cb = some 7; stacksize = 4096; stack = true; state = s; waketime = 0 });
  fiber_ids = 2;
  fiber_count = 2;
  fresh = 2;
}

pub with_child-Reach : Reach all_ok 0 0 (with_child State.init)
unfolding with_child create_fiber
with_child-Reach = created fresh_thread-Reach (some 7) 4096 1 (omega arith) refl

pub created_child : create_fiber all_ok (some 7) 4096 fresh_thread ≡ ok (1, with_child State.init)
unfolding with_child create_fiber
created_child = refl

running_child : Thread
unfolding with_child after
running_child = after resumes 1 0 0 0 0 (after starts 1 0 0 0 0 (with_child State.init))

running_child-Reach : Reach all_ok 0 1 running_child
unfolding running_child call start resume
running_child-Reach =
    called (called with_child-Reach starts 1 0 0 refl refl refl refl) resumes 1 0 0 refl refl refl
      refl

pub held_child : Thread
unfolding running_child after
held_child = after holds 1 0 1 0 0 running_child

pub held_child-Reach : Reach all_ok 0 0 held_child
unfolding held_child call hold
held_child-Reach = called running_child-Reach holds 1 0 0 refl refl refl refl

pub held_child_waits :
    (ltb 1 held_child.fresh ≡ true)
    × ((held_child.fibers 1).state ≡ State.hold)
    × ((held_child.fibers 1).cb ≡ some 7)
unfolding held_child running_child with_child fresh_thread after
held_child_waits = (refl, refl, refl)

pub with_child_made : (s : State) → ltb 1 (with_child s).fresh ≡ true
unfolding with_child
with_child_made s = refl

pub with_child_alive : (s : State) → ((with_child s).fibers 1).state ≡ s
unfolding with_child
with_child_alive s = refl

pub with_child_runs : (s : State) → outcome ((with_child s).fibers 1).cb returns ≡ returns
unfolding with_child
with_child_runs s = refl

running_id : get_fiber_id running_child ≡ 1
unfolding running_child get_fiber_id
running_id = refl

Reach-IsValid_example : IsValid 0 1 running_child
Reach-IsValid_example = Reach-IsValid running_child-Reach

call-table_example : call yields all_ok 1 0 0 running_child ≡ (
    if (if for_main yields then 1 == 0 else not (1 == 0))
      && admits yields (running_child.fibers 1).state
      && (not (switches yields) || all_ok.swapcontext_ok)
    then ok (after yields 1 0 1 0 0 running_child)
    else err assertion)
call-table_example =
    call-table yields all_ok 0 1 running_child (Reach-IsValid running_child-Reach).running 1 0 0

main_func_lem_example :
    main_func all_ok throws running_child
    ≡ elim (outcome (running_child.fibers 1).cb throws) as (λ x. Result Thread) [
      | returns ↦ if all_ok.swapcontext_ok then ok (finished 0 1 running_child) else err assertion
      | throws ↦ err null_deref
    ]
main_func_lem_example =
    main_func_lem all_ok throws 0 1 running_child (Reach-IsValid running_child-Reach) refl

-- A fiber that was never run cannot be released.
release_unstarted : release 1 (with_child State.init) ≡ err assertion
unfolding release with_child
release_unstarted = refl

throwing_child : main_func all_ok throws running_child ≡ err null_deref
unfolding main_func running_child
throwing_child = refl
