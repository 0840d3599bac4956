-- ===== src/Fiber/Reachable.antt =====
-- The states that a thread of sylar/fiber.cpp reaches.
use prozac.Prelude.{ℕ, ◌+◌, ◌^◌, ◌<◌, ◌≡◌, true, false, not, ◌&&◌, Option, ◌==◌, ltb, ok}
use prozac.Fiber.Defs.{Thread, Sys}
use prozac.Fiber.{init, get_this, create_fiber, reset, main_func, Outcome}
use prozac.Fiber.Table.{Method, call, next}
use prozac.Fiber.Invariant.{
  IsValid, is_stop, first-IsValid, call-IsValid, create_fiber-IsValid, reset-IsValid,
  main_func-IsValid,
}

-- The states that a thread reaches, with its main and its current fiber: by its first use of
-- fibers, by methods called on child fibers, `stop` only by a fiber on itself, by making fibers, by
-- resetting one that does not run, and by the end of a callback.
pub data Reach (sys : Sys) : ℕ → ℕ → Thread → Type 0 where
  first : {b : ℕ} {t : Thread} → get_this sys init ≡ ok (b, t) → Reach sys b b t
  called :
      {b c : ℕ} {t u : Thread}
      → Reach sys b c t
      → (f : Method) (a now ms : ℕ) → (a == b) ≡ false
      → ltb a t.fresh ≡ true
      → is_stop f && not (a == c) ≡ false
      → call f sys a now ms t ≡ ok u
      → Reach sys b (next f a b c) u
  created :
      {b c : ℕ} {t u : Thread}
      → Reach sys b c t
      → (cb : Option ℕ) (size a : ℕ) → t.fiber_ids + 1 < 2 ^ 64
      → create_fiber sys cb size t ≡ ok (a, u)
      → Reach sys b c u
  renewed :
      {b c : ℕ} {t u : Thread}
      → Reach sys b c t
      → (cb : Option ℕ) (a : ℕ) → (a == c) ≡ false
      → ltb a t.fresh ≡ true
      → reset sys a cb t ≡ ok u
      → Reach sys b c u
  ended :
      {b c : ℕ} {t u : Thread}
      → Reach sys b c t
      → (o : Outcome) → (c == b) ≡ false
      → main_func sys o t ≡ ok u
      → Reach sys b b u

-- In every state that a thread reaches, by methods called on child fibers (`stop` only by a fiber on
-- itself), by making fibers, by resetting one that does not run, and by the end of callbacks, while
-- fewer than 2 ^ 64 fibers are made, the current fiber is the one whose context runs, and is in the state EXEC, as
-- the main fiber always is; no other fiber is in EXEC; and of the fibers made only the main one has
-- id 0, so that comparing ids tells the main fiber apart.
pub Reach-IsValid : {sys : Sys} {b c : ℕ} {t : Thread} → Reach sys b c t → IsValid b c t
Reach-IsValid {sys} {b} {c} {t} (first e) = first-IsValid sys b t e
Reach-IsValid {sys} {b} (called {c = c} {t = t} {u = u} r f a now ms child made own e) =
    call-IsValid f sys b c t u a now ms (Reach-IsValid r) child made own e
Reach-IsValid {sys} {b} {c} {t = u} (created {t = t} r cb size a small e) =
    create_fiber-IsValid sys cb size b c a t u (Reach-IsValid r) small e
Reach-IsValid {sys} {b} {c} {t = u} (renewed {t = t} r cb a other made e) =
    reset-IsValid sys cb b c a t u (Reach-IsValid r) other made e
Reach-IsValid {sys} {b} (ended {c = c} {t = t} {u = u} r o child e) =
    main_func-IsValid sys o b c t u (Reach-IsValid r) child e
