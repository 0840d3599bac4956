-- ===== src/Fiber/Defs.antt =====
-- The data of sylar/fiber.h: fibers, and the thread-local variables of sylar/fiber.cpp.
use prozac.Prelude.{ℕ, Bool, true, false, Option}

pub data State : Type 0 where
  init ready exec hold sleep destroy except : State

-- The callback is known by a number; `none` is an empty std::function.
pub record Fiber : Type 0 where
  pub id : ℕ
  pub cb : Option ℕ
  pub stacksize : ℕ
  pub stack : Bool
  pub state : State
  pub waketime : ℕ

-- One thread: its fibers by address, its thread-local variables, the address that the next `new`
-- gives, and the fiber whose context runs, which only `swapcontext` changes.
pub record Thread : Type 0 where
  pub fibers : ℕ → Fiber
  pub main_fiber : Option ℕ
  pub this_fiber : Option ℕ
  pub fiber_ids : ℕ
  pub fiber_count : ℕ
  pub fresh : ℕ
  pub control : Option ℕ

-- What the C library answers: whether malloc, getcontext and swapcontext succeed.
pub record Sys : Type 0 where
  pub malloc_ok : Bool
  pub getcontext_ok : Bool
  pub swapcontext_ok : Bool

abbrev pub all_ok : Sys
all_ok = record { malloc_ok = true; getcontext_ok = true; swapcontext_ok = true }

pub State-discrete : Discrete State
State-discrete = hlevel

abbrev pub is_state : State → State → Bool
is_state init init = true
is_state ready ready = true
is_state exec exec = true
is_state hold hold = true
is_state sleep sleep = true
is_state destroy destroy = true
is_state except except = true
is_state _ _ = false

abbrev pub is_over : State → Bool
is_over destroy = true
is_over except = true
is_over _ = false
