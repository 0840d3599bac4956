-- ===== src/Fiber/States.antt =====
-- The state of one fiber after a call of sylar/fiber.cpp that does not abort, on any thread.
use prozac.Prelude.{
  ℕ, ◌≡◌, refl, none, some, arith, null_deref, ◌+◌, ◌%◌, ◌^◌, Result, ok, err, assert, OnOk,
  OnOk-any, ==_self,
}
use prozac.Fiber.Defs.{State, Thread, Sys, is_state}
use prozac.Fiber.{
  get_this, get_main_fiber, require_main, require_child, set_this, set_this_main, switch_to,
  switch_to_main, resume, yield, hold, sleep, stop, main_func, Outcome, returns, throws, outcome,
  set_state, put,
}

-- The fiber `a` is in the state `s`.
abbrev pub IsAt : ℕ → State → Thread → Type 0
IsAt a s t = (t.fibers a).state ≡ s

module _ (sys : Sys) (a : ℕ) where
  -- A fiber that is resumed is the current one.
  pub resume_current : (t : Thread) → OnOk (λ u. u.this_fiber ≡ some a) (resume sys a t)
  unfolding resume switch_to set_this
  resume_current t =
      OnOk-any (λ u. u.this_fiber ≡ some a) (require_main sys t) _
        λ t1.
          OnOk-any (λ u. u.this_fiber ≡ some a) (assert (is_state (t1.fibers a).state State.ready))
            _ λ _. OnOk-any (λ u. u.this_fiber ≡ some a) (assert sys.swapcontext_ok) _ λ _. refl

  switch-IsAt : (s : State) (t : Thread) → IsAt a s t → OnOk (IsAt a s) (switch_to_main sys t)
  unfolding switch_to_main switch_to
  switch-IsAt s t h =
      OnOk-any (IsAt a s) (get_main_fiber t) _
        λ b. OnOk-any (IsAt a s) (assert sys.swapcontext_ok) _ λ _. h

  pub yield-IsAt : (t : Thread) → OnOk (IsAt a State.ready) (yield sys a t)
  unfolding yield
  yield-IsAt t = OnOk-any (IsAt a State.ready) (require_child sys t) _ λ t1.
      OnOk-any (IsAt a State.ready) (set_this_main t1) _ λ t2.
        OnOk-any (IsAt a State.ready) (assert (is_state (t2.fibers a).state State.exec)) _
          λ _. switch-IsAt State.ready (set_state a State.ready t2) (ground (arith, ==_self a))

  pub hold-IsAt : (t : Thread) → OnOk (IsAt a State.hold) (hold sys a t)
  unfolding hold
  hold-IsAt t = OnOk-any (IsAt a State.hold) (require_child sys t) _ λ t1.
      OnOk-any (IsAt a State.hold) (set_this_main t1) _ λ t2.
        OnOk-any (IsAt a State.hold) (assert (is_state (t2.fibers a).state State.exec)) _
          λ _. switch-IsAt State.hold (set_state a State.hold t2) (ground (arith, ==_self a))

  pub sleep-IsAt : (now ms : ℕ) (t : Thread) → OnOk (IsAt a State.sleep) (sleep sys a now ms t)
  unfolding sleep
  sleep-IsAt now ms t = OnOk-any (IsAt a State.sleep) (require_child sys t) _ λ t1.
      OnOk-any (IsAt a State.sleep) (set_this_main t1) _ λ t2.
        OnOk-any (IsAt a State.sleep) (assert (is_state (t2.fibers a).state State.exec)) _ λ _.
          switch-IsAt State.sleep
            (put a (record (t2.fibers a) { state = State.sleep; waketime = (now + ms) % 2 ^ 64 })
              t2)
            (ground (arith, ==_self a))

  -- `Fiber::stop`, and the end of `Fiber::MainFunc` when `a` is current.
  stop-IsAt : (t : Thread) → OnOk (IsAt a State.destroy) (stop sys a t)
  unfolding stop
  stop-IsAt t = OnOk-any (IsAt a State.destroy) (require_child sys t) _ λ t1.
      OnOk-any (IsAt a State.destroy) (set_this_main t1) _
        λ t2. switch-IsAt State.destroy (set_state a State.destroy t2) (ground (arith, ==_self a))

  ending-IsAt :
      (o : Outcome) (t : Thread)
      → OnOk (IsAt a State.destroy) (elim o as (λ _. Result Thread) [
        | returns ↦ stop sys a (put a (record (t.fibers a) { cb = none }) t)
        | throws ↦ err null_deref
      ])
  ending-IsAt returns t = stop-IsAt (put a (record (t.fibers a) { cb = none }) t)
  ending-IsAt throws t = tt

  get_this_current : (t : Thread) → t.this_fiber ≡ some a → get_this sys t ≡ ok (a, t)
  unfolding get_this
  get_this_current t current = simp (get_this, current) refl

  pub main_func-IsAt :
      (o : Outcome) (t : Thread)
      → t.this_fiber ≡ some a
      → OnOk (IsAt a State.destroy) (main_func sys o t)
  unfolding main_func
  main_func-IsAt o t current =
      simp (get_this_current t current) (ending-IsAt (outcome (t.fibers a).cb o) t)
