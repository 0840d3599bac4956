-- ===== src/Timer/Tests.antt =====
-- Timers of sylar/timer.cpp at work on concrete clocks, and instances of the theorems about them.
use prozac.Prelude.{ℕ, ◌≡◌, refl, ◌≢◌, true, false, some, List, [], ◌∷◌, arith, ◌==◌}
use prozac.Timer.{
  Manager, split_expired, closure, on_timer, call, init, add_timer, cancel, reset, get_next_timer,
  list_expired_cb, detect_clock_rollover,
}
use prozac.Timer.Invariant.{IsValid, init-IsValid, add_timer-IsValid}
use prozac.Timer.Expiry.{Fires, list_expired_cb-Fires, due, later, split_expired_lem}
use prozac.Timer.Spec.{Specified, view}
use prozac.Timer.Refines.{run-Specified}
use prozac.Timer.Wait.{get_next_timer-list_expired_cb}
use prozac.Timer.Run.{Op, add, cancels, expires, resets, run, FreshRun, step, run-IsValid}

-- One recurring timer at address 7, due at 1010, and a single one at 3, due at 1005.
two : Manager
unfolding add_timer init
two = (add_timer 3 1000 5 (closure 2) false (add_timer 7 1000 10 (closure 1) true (init 1000)).0).0

two_order : two.timers ≡ 3 ∷ 7 ∷ []
unfolding two
two_order = refl

two-IsValid : IsValid two
unfolding two
two-IsValid =
    add_timer-IsValid 3 1000 5 (closure 2) false _ refl
      (add_timer-IsValid 7 1000 10 (closure 1) true _ refl (init-IsValid 1000))

both_fire : (list_expired_cb 1010 99 two).1 ≡ closure 2 ∷ closure 1 ∷ []
unfolding list_expired_cb two
both_fire = refl

one_stays : (list_expired_cb 1010 99 two).0.timers ≡ 7 ∷ []
unfolding list_expired_cb two
one_stays = refl

waits_five : (get_next_timer 1000 two).1 ≡ 5
unfolding get_next_timer two
waits_five = refl

dead_condition : call (λ w. w == 4) (on_timer 5 (closure 1)) ≡ some []
unfolding call
dead_condition = refl

list_expired_cb-Fires_example :
    Fires two two-IsValid 1007 (detect_clock_rollover 1007 two).1 (list_expired_cb 1007 50 two)
list_expired_cb-Fires_example = list_expired_cb-Fires two two-IsValid 1007 50

get_next_timer-list_expired_cb_example : (get_next_timer 1010 (list_expired_cb 1010 99 two).0).1 ≢ 0
unfolding two
get_next_timer-list_expired_cb_example =
    get_next_timer-list_expired_cb two two-IsValid 1010 99 (λ b p q. ground arith)

abbrev history : List Op
history =
    add 7 1000 10 (closure 1) true
    ∷ add 3 1000 5 (closure 2) false
    ∷ cancels 3
    ∷ expires 1010 99
    ∷ resets 7 1010 50 true
    ∷ []

history-Fresh : FreshRun history (init 1000)
unfolding step init add_timer cancel list_expired_cb reset
history-Fresh = (refl, (refl, (tt, (tt, (tt, tt)))))

run-IsValid_example : (n : Manager) × (k : ℕ) × (run history (init 1000) ≡ some (n, k)) × IsValid n
run-IsValid_example = run-IsValid 1000 history history-Fresh

split_expired_lem_example :
    split_expired two.heap 1010 99 false two.timers
    ≡ (due two.heap 1010 two.timers, later two.heap 1010 two.timers)
split_expired_lem_example = split_expired_lem two.heap 1010 99 two.timers two-IsValid.sorted

run-Specified_example :
    (n : Manager) × (k : ℕ) × (run history (init 1000) ≡ some (n, k))
    × Specified history 1000 (view (init 1000)) (view n)
unfolding init
run-Specified_example = run-Specified history (init 1000) (init-IsValid 1000) history-Fresh
