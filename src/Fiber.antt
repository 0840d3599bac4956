-- ===== src/Fiber.antt =====
-- sylar/fiber.h, sylar/fiber.cpp: fibers and their states. A method takes the address of its object
-- and the state of the thread that calls it. A call that switches contexts returns the state in
-- which the other context goes on. Counters are uint64_t and wrap.
use prozac.Prelude.{
  ℕ, ◌+◌, ◌-◌, ◌%◌, ◌^◌, Bool, true, false, not, ◌&&◌, ◌||◌, Option, none, some, ◌==◌,
  if◌then◌else◌, update, Result, ok, err, assertion, null_deref, bad_call, assert, ◌>>=◌, ◌>>◌,
}
pub mod Defs
use Defs.{State, Fiber, Thread, Sys, is_state, is_over}
pub mod Table
pub mod Invariant
pub mod Reachable
pub mod States
pub mod Tests

abbrev u64 : ℕ → ℕ
u64 n = n % 2 ^ 64

-- A thread before its first use of fibers.
unfoldable pub init : Thread
init = record {
  fibers = λ a. record {
    id = 0;
    cb = none;
    stacksize = 0;
    stack = false;
    state = State.init;
    waketime = 0;
  };
  main_fiber = none;
  this_fiber = none;
  fiber_ids = 0;
  fiber_count = 0;
  fresh = 0;
  control = none;
}

abbrev at : ℕ → Thread → Fiber
at a t = t.fibers a

abbrev put : ℕ → Fiber → Thread → Thread
put a f t = record t { fibers = update t.fibers a f }

abbrev set_state : ℕ → State → Thread → Thread
set_state a s t = put a (record (t.fibers a) { state = s }) t

-- `Fiber::SetThis`
pub set_this : Option ℕ → Thread → Thread
set_this p t = record t { this_fiber = p }

-- `Fiber::Fiber()`: the fiber of the thread itself, whose context is the one that runs.
pub new_main : Sys → Thread → Result Thread
unfolding set_this
new_main sys t = do
  let a = t.fresh
  let f : Fiber = record {
    id = 0;
    cb = none;
    stacksize = 0;
    stack = false;
    state = State.exec;
    waketime = 0;
  }
  let t = set_this (some a) (put a f (record t { fresh = a + 1; control = some a }))
  assert sys.getcontext_ok
  ok (record t { fiber_ids = u64 (t.fiber_ids + 1); fiber_count = u64 (t.fiber_count + 1) })

-- `Fiber::GetThis`: the current fiber, made on first use.
unfoldable pub get_this : Sys → Thread → Result (ℕ × Thread)
unfolding new_main
get_this sys t = elim t.this_fiber [
  | some a ↦ ok (a, t)
  | none ↦ do t' ← new_main sys t; ok (t.fresh, record t' { main_fiber = some t.fresh })
]

-- `Fiber::Fiber(cb, size)`
pub new_fiber : Sys → Option ℕ → ℕ → Thread → Result (ℕ × Thread)
new_fiber sys cb size t = do
  let a = t.fresh
  let f : Fiber = record {
    id = t.fiber_ids;
    cb = cb;
    stacksize = size;
    stack = sys.malloc_ok;
    state = State.init;
    waketime = 0;
  }
  let t = put a f (record t { fresh = a + 1; fiber_ids = u64 (t.fiber_ids + 1) })
  if not sys.malloc_ok
      then ok (a, t)
      else do assert sys.getcontext_ok; ok (a, record t { fiber_count = u64 (t.fiber_count + 1) })

-- `Fiber::CreatFiber`
pub create_fiber : Sys → Option ℕ → ℕ → Thread → Result (ℕ × Thread)
unfolding get_this new_fiber
create_fiber sys cb size t = do (_, t') ← get_this sys t; new_fiber sys cb size t'

-- `Fiber::GetMainFiber`
pub get_main_fiber : Thread → Result ℕ
get_main_fiber t = elim t.main_fiber [ none ↦ err null_deref | some a ↦ ok a ]

-- `Fiber::GetFiberId`
pub get_fiber_id : Thread → ℕ
get_fiber_id t = elim t.this_fiber [ none ↦ 0 | some a ↦ (t.fibers a).id ]

-- `GetThis()->m_id == GetMainFiber()->m_id`
pub in_main : Sys → Thread → Result (Bool × Thread)
unfolding get_this get_main_fiber
in_main sys t = do
  (a, t') ← get_this sys t
  b ← get_main_fiber t'
  ok ((t'.fibers a).id == (t'.fibers b).id, t')

require_main : Sys → Thread → Result Thread
unfolding in_main
require_main sys t = do (same, t') ← in_main sys t; assert same; ok t'

require_child : Sys → Thread → Result Thread
unfolding in_main
require_child sys t = do (same, t') ← in_main sys t; assert (not same); ok t'

-- `SetThis(GetMainFiber().get())`
set_this_main : Thread → Result Thread
unfolding set_this get_main_fiber
set_this_main t = do b ← get_main_fiber t; ok (set_this (some b) t)

-- `swapcontext(&main_fiber->m_ctx, &m_ctx)` and the way back.
switch_to : Sys → ℕ → Thread → Result Thread
switch_to sys a t = do assert sys.swapcontext_ok; ok (record t { control = some a })

switch_to_main : Sys → Thread → Result Thread
unfolding get_main_fiber switch_to
switch_to_main sys t = do b ← get_main_fiber t; switch_to sys b t

pub start : Sys → ℕ → Thread → Result Thread
unfolding require_main
start sys a t = do
  t ← require_main sys t
  assert (is_state (at a t).state State.init)
  ok (set_state a State.ready t)

pub resume : Sys → ℕ → Thread → Result Thread
unfolding require_main set_this switch_to
resume sys a t = do
  t ← require_main sys t
  let t = set_this (some a) t
  assert (is_state (at a t).state State.ready)
  switch_to sys a (set_state a State.exec t)

pub yield : Sys → ℕ → Thread → Result Thread
unfolding require_child set_this_main switch_to_main
yield sys a t = do
  t ← require_child sys t
  t ← set_this_main t
  assert (is_state (at a t).state State.exec)
  switch_to_main sys (set_state a State.ready t)

pub hold : Sys → ℕ → Thread → Result Thread
unfolding require_child set_this_main switch_to_main
hold sys a t = do
  t ← require_child sys t
  t ← set_this_main t
  assert (is_state (at a t).state State.exec)
  switch_to_main sys (set_state a State.hold t)

pub notify : Sys → ℕ → Thread → Result Thread
unfolding require_main set_this switch_to
notify sys a t = do
  t ← require_main sys t
  let t = set_this (some a) t
  assert (is_state (at a t).state State.hold)
  switch_to sys a (set_state a State.exec t)

pub stop : Sys → ℕ → Thread → Result Thread
unfolding require_child set_this_main switch_to_main
stop sys a t = do
  t ← require_child sys t
  t ← set_this_main t
  switch_to_main sys (set_state a State.destroy t)

-- `now` is `GetCurrentMS()`.
pub sleep : Sys → ℕ → ℕ → ℕ → Thread → Result Thread
unfolding require_child set_this_main switch_to_main
sleep sys a now ms t = do
  t ← require_child sys t
  t ← set_this_main t
  assert (is_state (at a t).state State.exec)
  let t = put a (record (at a t) { state = State.sleep; waketime = u64 (now + ms) }) t
  switch_to_main sys t

pub awake : Sys → ℕ → Thread → Result Thread
unfolding require_main
awake sys a t = do
  t ← require_main sys t
  assert (is_state (at a t).state State.sleep)
  ok (set_state a State.ready t)

pub destroy : Sys → ℕ → Thread → Result Thread
unfolding require_main
destroy sys a t = do t ← require_main sys t; ok (set_state a State.destroy t)

pub reset : Sys → ℕ → Option ℕ → Thread → Result Thread
reset sys a cb t = do
  assert (at a t).stack
  assert (not (is_over (at a t).state))
  let t = put a (record (at a t) { cb = cb }) t
  assert sys.getcontext_ok
  ok (set_state a State.init t)

-- How a callback ends.
pub data Outcome : Type 0 where
  returns throws : Outcome

-- A call of an empty std::function throws.
abbrev pub outcome : Option ℕ → Outcome → Outcome
outcome none o = throws
outcome (some f) o = o

-- `Fiber::MainFunc`, from the end of the callback. Its handlers read the id through `cur`, which was
-- reset to null above.
pub main_func : Sys → Outcome → Thread → Result Thread
unfolding get_this stop
main_func sys o t = do
  (raw_ptr, t) ← get_this sys t
  elim (outcome (at raw_ptr t).cb o) [
    | returns ↦ stop sys raw_ptr (put raw_ptr (record (at raw_ptr t) { cb = none }) t)
    | throws ↦ err null_deref
  ]

abbrev same_ptr : Option ℕ → Option ℕ → Bool
same_ptr none none = true
same_ptr (some x) (some y) = x == y
same_ptr _ _ = false

-- `Fiber::~Fiber`: what it checks, and the count that it lowers.
unfoldable pub release : ℕ → Thread → Result Thread
release a t = do
  let t = record t { fiber_count = u64 (t.fiber_count + 2 ^ 64 - 1) }
  assert (same_ptr t.this_fiber t.main_fiber)
  if same_ptr (some a) t.main_fiber then ok t else do assert (is_over (at a t).state); ok t
