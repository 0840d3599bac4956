-- ===== src/Thread/Tests.antt =====
-- A thread of sylar/thread.cpp with a long name, and instances of the theorems about threads.
use prozac.Prelude.{◌≡◌, ◌≢◌, refl, ◌⊎◌, true, some, none, codes, []}
use prozac.Thread.{Thread, new_thread, notify, wait, run, run_lines, run_line}
use prozac.Thread.Start.{
  Both, waiting, returned, running, Busy, Reach, begins, runs, goes_on, locals, Reach-started,
}

abbrev object : Thread
object = record {
  m_thread = true;
  m_name = codes "scheduler_woker0";
  m_id = none;
  m_cb = some 7;
  m_semaphore = 0;
}

-- The constructor has returned.
started : Both
unfolding run run_lines run_line
started = record {
  thread = record object { m_id = some 42; m_cb = none };
  creator = returned;
  child = running [] (run 42 object).1;
}

started-Reach : Reach 42 (some 7) (codes "scheduler_woker0") started
unfolding started new_thread run run_lines run_line notify wait
started-Reach = goes_on (runs (runs (runs (runs (runs (begins refl)))))) refl refl

Reach-started_example :
    (started.creator ≡ returned
      → (started.thread.m_id ≡ some 42)
        × (started.thread.m_cb ≡ none)
        × (started.child ≡ running [] (locals 42 (some 7) (codes "scheduler_woker0"))))
    × (started.creator ≡ waiting → Busy started.child ⊎ (wait started.thread ≢ none))
Reach-started_example = Reach-started 42 (some 7) (codes "scheduler_woker0") started started-Reach
