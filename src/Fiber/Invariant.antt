-- ===== src/Fiber/Invariant.antt =====
-- What holds of a thread of sylar/fiber.cpp whatever its fibers do.
use prozac.Prelude.{
  ℕ, ◌+◌, ◌-◌, ◌^◌, ◌<◌, ◌≡◌, refl, sym, subst, ◌∙◌, Bool, true, false, not, ◌&&◌, ◌||◌, Option,
  none, some, ◌==◌, if◌then◌else◌, ltb, arith, update, update-update, ==_self, Result, ok, err,
  assertion, null_deref, guarded-eq-ok,
}
use prozac.Fiber.Defs.{State, Thread, Sys, is_state, is_over}
use prozac.Fiber.{
  init, get_this, create_fiber, reset, main_func, release, Outcome, returns, throws, outcome, u64,
}
use prozac.Fiber.Table.{
  Method, stops, call, for_main, admits, next, IsRunning, after, switches, call-table,
}

-- `b` is the main fiber, `c` the current one. It runs, and besides the main fiber only it is in the
-- state EXEC; among the fibers made so far, id 0 is the main fiber's.
pub record IsValid (b c : ℕ) (t : Thread) : Type 0 where
  pub running : IsRunning b c t
  pub main_made : b < t.fresh
  pub current_made : c < t.fresh
  pub main_exec : is_state (t.fibers b).state State.exec ≡ true
  pub current_exec : is_state (t.fibers c).state State.exec ≡ true
  pub main_stack : (t.fibers b).stack ≡ false
  pub alone : (a : ℕ) → is_state (t.fibers a).state State.exec ≡ true → (a == b) || (a == c) ≡ true
  pub ids : (a : ℕ) → ltb a t.fresh ≡ true → ((t.fibers a).id == 0) ≡ (a == b)
  pub next_id : 0 < t.fiber_ids

abbrev pub is_stop : Method → Bool
is_stop stops = true
is_stop _ = false

abbrev may_call : Method → ℕ → ℕ → Bool
may_call f b c = if for_main f then c == b else not (c == b)

after-IsValid :
    (f : Method) (b c : ℕ) (t : Thread) (a now ms : ℕ)
    → IsValid b c t
    → (a == b) ≡ false
    → ltb a t.fresh ≡ true
    → is_stop f && not (a == c) ≡ false
    → may_call f b c ≡ true
    → admits f (t.fibers a).state ≡ true
    → IsValid b (next f a b c) (after f a b c now ms t)
unfolding after
after-IsValid f b c t a now ms v child made own may adm = record {
  running = ground (arith, v.running, v.ids a);
  main_made = v.main_made;
  current_made = ground (arith, v.main_made, v.current_made);
  main_exec = ground (arith, v.main_exec);
  current_exec = ground (arith, v.current_exec, v.main_exec);
  main_stack = ground (arith, v.main_stack);
  alone = λ x e. ground (arith, v.alone x, v.alone a);
  ids = λ x e. ground (arith, v.ids x);
  next_id = v.next_id;
}

pub call-IsValid :
    (f : Method) (sys : Sys) (b c : ℕ) (t u : Thread) (a now ms : ℕ)
    → IsValid b c t
    → (a == b) ≡ false
    → ltb a t.fresh ≡ true
    → is_stop f && not (a == c) ≡ false
    → call f sys a now ms t ≡ ok u
    → IsValid b (next f a b c) u
call-IsValid f sys b c t u a now ms v child made own e =
    let (fits, same) =
      guarded-eq-ok
        (may_call f b c && admits f (t.fibers a).state && (not (switches f) || sys.swapcontext_ok))
        assertion (sym (call-table f sys b c t v.running a now ms) ∙ e) in
    subst (IsValid b (next f a b c)) same
      (after-IsValid f b c t a now ms v child made own (ground arith) (ground arith))

pub first-IsValid : (sys : Sys) (b : ℕ) (t : Thread) → get_this sys init ≡ ok (b, t) → IsValid b b t
unfolding get_this init
first-IsValid sys b t e = record {
  running = ground arith;
  main_made = ground arith;
  current_made = ground arith;
  main_exec = ground arith;
  current_exec = ground arith;
  main_stack = ground arith;
  alone = λ a p. ground arith;
  ids = λ a p. ground arith;
  next_id = ground arith;
}

pub create_fiber-IsValid :
    (sys : Sys) (cb : Option ℕ) (size b c a : ℕ) (t u : Thread)
    → IsValid b c t
    → t.fiber_ids + 1 < 2 ^ 64
    → create_fiber sys cb size t ≡ ok (a, u)
    → IsValid b c u
unfolding create_fiber
create_fiber-IsValid sys cb size b c a t u v small e = record {
  running = ground (arith, v.running);
  main_made = ground (arith, v.running, v.main_made);
  current_made = ground (arith, v.running, v.current_made);
  main_exec = ground (arith, v.running, v.main_made);
  current_exec = ground (arith, v.running, v.current_made);
  main_stack = ground (arith, v.running, v.main_made);
  alone = λ x p. ground (arith, v.running, v.alone x);
  ids = λ x p. ground (arith, v.running, v.main_made, v.ids x);
  next_id = ground (arith, v.running);
}

pub reset-IsValid :
    (sys : Sys) (cb : Option ℕ) (b c a : ℕ) (t u : Thread)
    → IsValid b c t
    → (a == c) ≡ false
    → ltb a t.fresh ≡ true
    → reset sys a cb t ≡ ok u
    → IsValid b c u
unfolding reset
reset-IsValid sys cb b c a t u v other made e = record {
  running = ground (arith, v.running, v.main_stack);
  main_made = ground (arith, v.main_made);
  current_made = ground (arith, v.current_made);
  main_exec = ground (arith, v.main_exec, v.main_stack);
  current_exec = ground (arith, v.current_exec);
  main_stack = ground (arith, v.main_stack);
  alone = λ x p. ground (arith, v.alone x);
  ids = λ x p. ground (arith, v.ids x);
  next_id = ground (arith, v.next_id);
}

-- The current fiber, its callback given up.
abbrev gave_up : ℕ → Thread → Thread
gave_up c t = record t { fibers = update t.fibers c (record (t.fibers c) { cb = none }) }

gave_up-IsValid : (b c : ℕ) (t : Thread) → IsValid b c t → IsValid b c (gave_up c t)
gave_up-IsValid b c t v = record {
  running = ground (arith, v.running);
  main_made = v.main_made;
  current_made = v.current_made;
  main_exec = ground (arith, v.main_exec);
  current_exec = ground (arith, v.current_exec);
  main_stack = ground (arith, v.main_stack);
  alone = λ x p. ground (arith, v.alone x);
  ids = λ x p. ground (arith, v.ids x);
  next_id = v.next_id;
}

main_func-call :
    (sys : Sys) (o : Outcome) (b c : ℕ) (t : Thread)
    → IsValid b c t
    → main_func sys o t ≡ elim (outcome (t.fibers c).cb o) [
      | returns ↦ call stops sys c 0 0 (gave_up c t)
      | throws ↦ err null_deref
    ]
unfolding main_func call
main_func-call sys o b c t v = rw (v.running.current, main_func, get_this) refl

-- The thread after the last switch of the fiber `c`.
abbrev pub finished : ℕ → ℕ → Thread → Thread
finished b c t = record t {
  fibers = update t.fibers c (record (t.fibers c) { cb = none; state = State.destroy });
  this_fiber = some b;
  control = some b;
}

after-gave_up : (b c : ℕ) (t : Thread) → after stops c b c 0 0 (gave_up c t) ≡ finished b c t
unfolding after
after-gave_up b c t = simp (==_self, update-update)

-- The end of a callback, in a child fiber: if the callback returned, its fiber gives it up and is
-- destroyed, and the main fiber runs; if it threw, or was empty, the handler reads through a null
-- pointer.
pub main_func_lem :
    (sys : Sys) (o : Outcome) (b c : ℕ) (t : Thread)
    → IsValid b c t
    → (c == b) ≡ false
    → main_func sys o t ≡ elim (outcome (t.fibers c).cb o) [
      | returns ↦ if sys.swapcontext_ok then ok (finished b c t) else err assertion
      | throws ↦ err null_deref
    ]
main_func_lem sys o b c t v child = main_func-call sys o b c t v ∙ go (outcome (t.fibers c).cb o)
  where
    stopped :
        call stops sys c 0 0 (gave_up c t)
        ≡ (if sys.swapcontext_ok then ok (finished b c t) else err assertion)
    stopped =
        call-table stops sys b c (gave_up c t) (gave_up-IsValid b c t v).running c 0 0
        ∙ ground (arith, after-gave_up b c t)

    go :
        (x : Outcome)
        → elim x as (λ y. Result Thread) [
          | returns ↦ call stops sys c 0 0 (gave_up c t)
          | throws ↦ err null_deref
        ]
          ≡ elim x as (λ y. Result Thread) [
            | returns ↦ if sys.swapcontext_ok then ok (finished b c t) else err assertion
            | throws ↦ err null_deref
          ]
    go returns = stopped
    go throws = refl

pub main_func-IsValid :
    (sys : Sys) (o : Outcome) (b c : ℕ) (t u : Thread)
    → IsValid b c t
    → (c == b) ≡ false
    → main_func sys o t ≡ ok u
    → IsValid b b u
main_func-IsValid sys o b c t u v child e =
    go (outcome (t.fibers c).cb o) (sym (main_func-call sys o b c t v) ∙ e)
  where
    go :
        (x : Outcome)
        → elim x as (λ y. Result Thread) [
          | returns ↦ call stops sys c 0 0 (gave_up c t)
          | throws ↦ err null_deref
        ]
          ≡ ok u
        → IsValid b b u
    go returns h =
        call-IsValid stops sys b c (gave_up c t) u c 0 0 (gave_up-IsValid b c t v) child
          (ground (arith, v.current_made)) (ground arith) h
    go throws h = cc

-- A fiber may be released only while the main fiber is current, and a child fiber only once it is
-- over; any other release is a failed assertion.
pub release_lem :
    (b c a : ℕ) (t : Thread)
    → IsValid b c t
    → release a t ≡ (
        if (c == b) && ((a == b) || is_over (t.fibers a).state)
        then ok (record t { fiber_count = u64 (t.fiber_count + 2 ^ 64 - 1) })
        else err assertion)
unfolding release
release_lem b c a t v = ground (arith, v.running)
