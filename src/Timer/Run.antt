-- ===== src/Timer/Run.antt =====
-- Sequences of calls on the timer manager of sylar/timer.cpp.
use prozac.Prelude.{
  ℕ, ◌≡◌, refl, Bool, true, false, not, ◌&&◌, Option, none, some, List, [], ◌∷◌, arith, contains,
  if◌then◌else◌, ◌≤◌, ◌+◌,
}
use prozac.Timer.{
  Manager, Callback, init, insert_timer, add_timer, add_condition_timer, cancel, refresh, reset,
  list_expired_cb, get_next_timer,
}
use prozac.Timer.Invariant.{
  IsValid, init-IsValid, add_timer-IsValid, refresh-IsValid, reset-IsValid, cancel_lem,
}
use prozac.Timer.Expiry.{list_expired_cb-Fires, list_expired_cb_tickled}

pub data Op : Type 0 where
  add : ℕ → ℕ → ℕ → Callback → Bool → Op
  add_condition : ℕ → ℕ → ℕ → Callback → ℕ → Bool → Op
  cancels : ℕ → Op
  refreshes : ℕ → ℕ → Op
  resets : ℕ → ℕ → ℕ → Bool → Op
  waits : ℕ → Op
  expires : ℕ → ℕ → Op

abbrev calls : Bool → ℕ
calls true = 1
calls false = 0

-- The state after a call, and how often it ran `onTimerInsertedAtFront`.
unfoldable pub step : Op → Manager → Option (Manager × ℕ)
unfolding add_condition_timer
step (add a now ms cb r) m = let (n, hook) = add_timer a now ms cb r m in some (n, calls hook)
step (add_condition a now ms cb w r) m =
    let (n, hook) = add_condition_timer a now ms cb w r m in some (n, calls hook)
step (cancels a) m = elim (cancel a m) [ none ↦ none | some (n, r) ↦ some (n, 0) ]
step (refreshes a now) m = some ((refresh a now m).0, 0)
step (resets a now ms f) m = let (n, r, hook) = reset a now ms f m in some (n, calls hook)
step (waits now) m = some ((get_next_timer now m).0, 0)
step (expires now probe) m = some ((list_expired_cb now probe m).0, 0)

unfoldable pub run : List Op → Manager → Option (Manager × ℕ)
unfolding step
run [] m = some (m, 0)
run (op ∷ ops) m = elim (step op m) [
  | none ↦ none
  | some (n, k) ↦ elim (run ops n) [ none ↦ none | some (o, l) ↦ some (o, k + l) ]
]

-- `new Timer` gives an address that no timer of the set has.
abbrev pub Fresh : Op → Manager → Type 0
Fresh (add a now ms cb r) m = contains a m.timers ≡ false
Fresh (add_condition a now ms cb w r) m = contains a m.timers ≡ false
Fresh _ m = Unit {0}

abbrev pub FreshAfter : (Manager → Type 0) → Option (Manager × ℕ) → Type 0
FreshAfter P none = Unit {0}
FreshAfter P (some (n, k)) = P n

abbrev pub FreshRun : List Op → Manager → Type 0
FreshRun [] m = Unit {0}
FreshRun (op ∷ ops) m = Fresh op m × FreshAfter (FreshRun ops) (step op m)

abbrev pub is_wait : Op → Bool
is_wait (waits now) = true
is_wait _ = false

abbrev pub no_wait : List Op → Bool
no_wait [] = true
no_wait (op ∷ ops) = not (is_wait op) && no_wait ops

-- How often the hook may still run before the next `getNextTimer`.
abbrev credit : Manager → ℕ
credit m = if m.tickled then 0 else 1

abbrev Steps : Op → Manager → Option (Manager × ℕ) → Type 0
Steps op m r =
    (n : Manager) × (k : ℕ) × (r ≡ some (n, k))
    × IsValid n
    × (is_wait op ≡ false → k + credit n ≤ credit m)

add_timer-credit :
    (a now ms : ℕ) (cb : Callback) (r : Bool) (m : Manager)
    → calls (add_timer a now ms cb r m).1 + credit (add_timer a now ms cb r m).0 ≤ credit m
unfolding add_timer
add_timer-credit a now ms cb r m = ground arith

step_cancel : (a : ℕ) (m : Manager) → IsValid m → Steps (cancels a) m (step (cancels a) m)
unfolding step
step_cancel a m v =
    let (n, e, w, unset, same, others) = cancel_lem a m v in
    (n, 0, rw (e, step) refl, w, λ _. ground arith)

pub step_valid : (op : Op) (m : Manager) → IsValid m → Fresh op m → Steps op m (step op m)
unfolding step
step_valid (add a now ms cb r) m v f =
    (_, _, refl, add_timer-IsValid a now ms cb r m f v, λ _. add_timer-credit a now ms cb r m)
step_valid (add_condition a now ms cb w r) m v f =
    (_, _, refl, add_timer-IsValid a now ms _ r m f v, λ _. add_timer-credit a now ms _ r m)
step_valid (cancels a) m v f = step_cancel a m v
step_valid (refreshes a now) m v f =
    (_, _, refl, refresh-IsValid a now m v, λ _. unfold refresh in ground arith)
step_valid (resets a now ms b) m v f =
    (_, _, refl, reset-IsValid a now ms b m v, λ _. unfold reset insert_timer in ground arith)
step_valid (waits now) m v f =
    (_, _, refl, unfold get_next_timer in record { sorted = v.sorted; live = v.live }, λ e. cc)
step_valid (expires now probe) m v f = (
  _,
  _,
  refl,
  (list_expired_cb-Fires m v now probe).0,
  λ _. ground (arith, list_expired_cb_tickled m v now probe),
)

run_steps :
    (ops : List Op) (m : Manager)
    → IsValid m
    → FreshRun ops m
    → (n : Manager) × (k : ℕ) × (run ops m ≡ some (n, k))
      × IsValid n
      × (no_wait ops ≡ true → k ≤ credit m)
unfolding run
run_steps [] m v f = (m, 0, refl, v, λ _. omega arith)
run_steps (op ∷ ops) m v f =
    let (n, k, e, w, c) = step_valid op m v f.0 in
    let after : FreshRun ops n = rw e at (f.1) in
    let (o, l, e', w', c') = run_steps ops n w after in
    (o, k + l, rw (e, run) (rw (e', run) refl), w', λ q. ground arith)

-- Any sequence of calls with fresh addresses, from a new manager, comes to an end without undefined
-- behaviour, in a state whose set is in order and holds every timer with a callback.
pub run-IsValid :
    (now : ℕ) (ops : List Op)
    → FreshRun ops (init now)
    → (n : Manager) × (k : ℕ) × (run ops (init now) ≡ some (n, k)) × IsValid n
run-IsValid now ops f =
    let (n, k, e, v, _) = run_steps ops (init now) (init-IsValid now) f in (n, k, e, v)

-- Between two calls of `getNextTimer` the hook runs at most once, and not at all if it has run
-- since the last one.
pub run_hook_once :
    (ops : List Op) (m : Manager)
    → IsValid m
    → FreshRun ops m
    → no_wait ops ≡ true
    → (n : Manager) × (k : ℕ) × (run ops m ≡ some (n, k)) × (k ≤ (if m.tickled then 0 else 1))
run_hook_once ops m v f q = let (n, k, e, _, c) = run_steps ops m v f in (n, k, e, c q)
