-- ===== src/Timer/Wait.antt =====
-- `TimerManager::getNextTimer`, the hook of a new first timer, and cancelled or moved timers
-- (sylar/timer.cpp).
use prozac.Prelude.{
  ℕ, ◌≡◌, refl, ap, ◌∙◌, ◌≢◌, Bool, true, false, not, ◌&&◌, ◌⊎◌, inl, inr, List, [], ◌∷◌, arith,
  contains, ◌==◌, Bool-cases, ltb, if◌then◌else◌, All, ◌≤◌, ◌<◌, ◌+◌, ◌-◌, ◌^◌,
}
use prozac.Timer.{
  Timer, Manager, is_set, before, u64, insert_timer, refresh, reset, list_expired_cb,
  detect_clock_rollover, get_next_timer, wait, no_timer, hour_ms,
}
use prozac.Timer.Order.{IsSorted, before-le, find-contains}
use prozac.Timer.Invariant.{IsValid, reinsert_contains}
use prozac.Timer.Expiry.{contains-taken, not_taken_later, list_expired_cb-Fires}

wait_le :
    (h : ℕ → Timer) (a : ℕ) (xs : List ℕ)
    → All (λ c. before h a c ≡ true) xs
    → All (λ c. (h a).next ≤ (h c).next) xs
wait_le h a [] s = tt
wait_le h a (c ∷ rest) s = (before-le h a c s.0, wait_le h a rest s.1)

wait-min :
    (h : ℕ → Timer) (now : ℕ) (xs : List ℕ)
    → IsSorted h xs
    → ((xs ≡ []) × (wait h now xs ≡ no_timer))
      ⊎ ((a : ℕ) × (contains a xs ≡ true)
          × (wait h now xs ≡ (h a).next - now)
          × All (λ b. (h a).next ≤ (h b).next) xs)
wait-min h now [] s = inl (refl, refl)
wait-min h now (a ∷ rest) s =
    inr (a, ground arith, ground arith, (omega arith, wait_le h a rest s.0))

-- With no timer the wait is ~0; otherwise it is the time left of a timer of the set that is due
-- before all others, 0 if that one is late. The call lowers the flag of the hook and changes
-- nothing else.
pub get_next_timer-min :
    (m : Manager)
    → IsValid m
    → (now : ℕ)
    → ((get_next_timer now m).0 ≡ record m { tickled = false })
      × (((m.timers ≡ []) × ((get_next_timer now m).1 ≡ no_timer))
          ⊎ ((a : ℕ) × (contains a m.timers ≡ true)
              × ((get_next_timer now m).1 ≡ (m.heap a).next - now)
              × All (λ b. (m.heap a).next ≤ (m.heap b).next) m.timers))
unfolding get_next_timer
get_next_timer-min m v now = (refl, wait-min m.heap now m.timers v.sorted)

-- A recurring timer of the set has a period that is not 0 and does not carry `now` past 2^64.
abbrev pub Advances : Manager → ℕ → Type 0
Advances m now =
    (b : ℕ)
    → contains b m.timers ≡ true
    → (m.heap b).recurring ≡ true
    → (0 < (m.heap b).ms) × (now + (m.heap b).ms < 2 ^ 64)

module _ (m : Manager) (v : IsValid m) (now probe : ℕ) (adv : Advances m now) where
  none_late :
      (b : ℕ)
      → contains b (list_expired_cb now probe m).0.timers ≡ true
      → now < ((list_expired_cb now probe m).0.heap b).next
  none_late b e =
      let r = (detect_clock_rollover now m).1 in
      let facts = (list_expired_cb-Fires m v now probe).2 b in
      ground
        (arith, facts.0, facts.1, contains-taken m v now r b, not_taken_later m v now r b, adv b, e)

-- Once the expired timers are taken, none is late: at the same time the wait is not 0, if every
-- recurring timer has a period that is not 0 and does not carry the clock past 2^64.
pub get_next_timer-list_expired_cb :
    (m : Manager)
    → IsValid m
    → (now probe : ℕ) → Advances m now
    → (get_next_timer now (list_expired_cb now probe m).0).1 ≢ 0
unfolding get_next_timer
get_next_timer-list_expired_cb m v now probe adv e =
    let n = (list_expired_cb now probe m).0 in
    elim (wait-min n.heap now n.timers (list_expired_cb-Fires m v now probe).0.sorted) [
      | inl (p, q) ↦ omega (arith, q, e)
      | inr (a, p, q, r) ↦ omega (arith, q, e, none_late m v now probe adv a p)
    ]

-- A call notes the clock and finds it set back when it is behind the last one noted by more than
-- an hour; before the first hour of the epoch the subtraction wraps, and any step back counts.
pub detect_clock_rollover_lem :
    (m : Manager) (now : ℕ)
    → m.previouse_time < 2 ^ 64
    → detect_clock_rollover now m ≡ (
      record m { previouse_time = now },
      if ltb m.previouse_time hour_ms
          then ltb now m.previouse_time
          else ltb (now + hour_ms) m.previouse_time,
    )
unfolding detect_clock_rollover
detect_clock_rollover_lem m now p =
    ap (λ (b : Bool). (record m { previouse_time = now }, b)) (ground arith)

abbrev pub same_setting : ℕ → Bool → Timer → Bool
same_setting ms from_now t = (ms == t.ms) && not from_now

-- The timer that `reset` leaves.
abbrev pub moved : ℕ → ℕ → Bool → Timer → Timer
moved now ms from_now t = record t {
  ms = ms;
  next = u64 ((if from_now then now else t.next - t.ms) + ms);
}

sub_u64 : (a b : ℕ) → a < 2 ^ 64 → b ≤ a → u64 (a + 2 ^ 64 - b) ≡ a - b
sub_u64 a b p q = omega arith

-- Resetting a timer that has a callback answers true. Unless period and start stay the same, the
-- timer is then due a new period after its start, which is the clock or the time at which it was
-- due less its old period; its callback stays, and so does its place among the timers of the set.
pub reset_lem :
    (a now ms : ℕ) (from_now : Bool) (m : Manager)
    → IsValid m
    → is_set (m.heap a).cb ≡ true
    → (m.heap a).next < 2 ^ 64
    → (m.heap a).ms ≤ (m.heap a).next
    → let (n, r, hook) = reset a now ms from_now m in
      (r ≡ true)
      × (n.heap a ≡ (
          if same_setting ms from_now (m.heap a)
          then m.heap a
          else moved now ms from_now (m.heap a)))
      × ((b : ℕ) → contains b n.timers ≡ contains b m.timers)
unfolding reset insert_timer
reset_lem a now ms from_now m v set p q =
    let present = find-contains m.heap a m.timers v.sorted ∙ v.live a set in
    let start = sub_u64 (m.heap a).next (m.heap a).ms p q in
    elim (Bool-cases (same_setting ms from_now (m.heap a))) [
      | inl same ↦ rw (same, reset) (refl, refl, λ b. refl)
      | inr differs ↦
          rw (differs, set, present, start, reset)
            (
              refl,
              ground arith,
              reinsert_contains m v a (moved now ms from_now (m.heap a)) (v.live a set),
            )
    ]

-- Refreshing or resetting a timer with no callback, to another period or from now, answers false
-- and changes nothing.
pub reset_dead :
    (a now ms : ℕ) (from_now : Bool) (m : Manager)
    → is_set (m.heap a).cb ≡ false
    → same_setting ms from_now (m.heap a) ≡ false
    → (reset a now ms from_now m ≡ (m, false, false)) × (refresh a now m ≡ (m, false))
unfolding reset refresh
reset_dead a now ms from_now m unset differs = (ground arith, ground arith)
