-- ===== src/Fiber/Table.antt =====
-- The methods of sylar/fiber.cpp against a table: who may call, from which state, into which state,
-- and whose context runs afterwards.
use prozac.Prelude.{
  ℕ, ◌+◌, ◌≡◌, Bool, true, false, not, ◌&&◌, ◌||◌, some, ◌==◌, if◌then◌else◌, arith, update, Result,
  ok, err, assertion,
}
use prozac.Fiber.Defs.{State, Fiber, Thread, Sys, is_state}
use prozac.Fiber.{
  start, resume, yield, hold, notify, stop, sleep, awake, destroy, require_main, require_child, u64,
}

pub data Method : Type 0 where
  starts resumes yields holds notifies stops sleeps awakes destroys : Method

unfoldable pub call : Method → Sys → ℕ → ℕ → ℕ → Thread → Result Thread
call starts sys a now ms t = start sys a t
call resumes sys a now ms t = resume sys a t
call yields sys a now ms t = yield sys a t
call holds sys a now ms t = hold sys a t
call notifies sys a now ms t = notify sys a t
call stops sys a now ms t = stop sys a t
call sleeps sys a now ms t = sleep sys a now ms t
call awakes sys a now ms t = awake sys a t
call destroys sys a now ms t = destroy sys a t

-- Is it for the main fiber to call?
abbrev pub for_main : Method → Bool
for_main yields = false
for_main holds = false
for_main stops = false
for_main sleeps = false
for_main _ = true

abbrev pub admits : Method → State → Bool
admits starts s = is_state s State.init
admits resumes s = is_state s State.ready
admits yields s = is_state s State.exec
admits holds s = is_state s State.exec
admits notifies s = is_state s State.hold
admits stops s = true
admits sleeps s = is_state s State.exec
admits awakes s = is_state s State.sleep
admits destroys s = true

abbrev pub target : Method → State
target starts = State.ready
target resumes = State.exec
target yields = State.ready
target holds = State.hold
target notifies = State.exec
target stops = State.destroy
target sleeps = State.sleep
target awakes = State.ready
target destroys = State.destroy

-- The fiber that runs next: the main fiber `b`, the object `a`, or the caller `c`.
abbrev pub next : Method → ℕ → ℕ → ℕ → ℕ
next resumes a b c = a
next notifies a b c = a
next yields a b c = b
next holds a b c = b
next stops a b c = b
next sleeps a b c = b
next _ a b c = c

abbrev pub wake : Method → ℕ → ℕ → Fiber → ℕ
wake sleeps now ms f = u64 (now + ms)
wake _ now ms f = f.waketime

-- The thread has a main fiber, of id 0, and the current fiber, whose context runs, has id 0 only if
-- it is the main one.
pub record IsRunning (b c : ℕ) (t : Thread) : Type 0 where
  pub main : t.main_fiber ≡ some b
  pub current : t.this_fiber ≡ some c
  pub control : t.control ≡ some c
  pub main_id : (t.fibers b).id ≡ 0
  pub told_apart : ((t.fibers c).id == 0) ≡ (c == b)

unfoldable pub after : Method → ℕ → ℕ → ℕ → ℕ → ℕ → Thread → Thread
after f a b c now ms t = record t {
  fibers =
      update t.fibers a
        (record (t.fibers a) { state = target f; waketime = wake f now ms (t.fibers a) });
  this_fiber = some (next f a b c);
  control = some (next f a b c);
}

module _ (sys : Sys) (b c : ℕ) (t : Thread) (r : IsRunning b c t) where
  require_main_lem : require_main sys t ≡ (if c == b then ok t else err assertion)
  unfolding require_main
  require_main_lem = ground arith

  require_child_lem : require_child sys t ≡ (if c == b then err assertion else ok t)
  unfolding require_child
  require_child_lem = ground arith

-- Does the method swap contexts?
abbrev pub switches : Method → Bool
switches starts = false
switches awakes = false
switches destroys = false
switches _ = true

-- A method called on a fiber succeeds exactly if it is called by the main fiber (or by a child, as
-- the table says), the fiber is in a state that the table admits and swapcontext, if it is called,
-- succeeds. Then the fiber is in the state of the table, the fiber of the table is current and runs,
-- and `sleep` has noted the time to wake; nothing else changes. Any other call is a failed assertion.
pub call-table :
    (f : Method) (sys : Sys) (b c : ℕ) (t : Thread)
    → IsRunning b c t
    → (a now ms : ℕ)
    → call f sys a now ms t ≡ (
        if (if for_main f then c == b else not (c == b))
          && admits f (t.fibers a).state
          && (not (switches f) || sys.swapcontext_ok)
        then ok (after f a b c now ms t)
        else err assertion)
unfolding call after
call-table starts sys b c t r a now ms =
    unfold start in ground (arith, require_main_lem sys b c t r, r.current, r.control)
call-table resumes sys b c t r a now ms =
    unfold resume in ground (arith, require_main_lem sys b c t r)
call-table yields sys b c t r a now ms =
    unfold yield in ground (arith, require_child_lem sys b c t r, r.main)
call-table holds sys b c t r a now ms =
    unfold hold in ground (arith, require_child_lem sys b c t r, r.main)
call-table notifies sys b c t r a now ms =
    unfold notify in ground (arith, require_main_lem sys b c t r)
call-table stops sys b c t r a now ms =
    unfold stop in ground (arith, require_child_lem sys b c t r, r.main)
call-table sleeps sys b c t r a now ms =
    unfold sleep in ground (arith, require_child_lem sys b c t r, r.main)
call-table awakes sys b c t r a now ms =
    unfold awake in ground (arith, require_main_lem sys b c t r, r.current, r.control)
call-table destroys sys b c t r a now ms =
    unfold destroy in ground (arith, require_main_lem sys b c t r, r.current, r.control)
