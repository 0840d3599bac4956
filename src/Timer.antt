-- ===== src/Timer.antt =====
-- sylar/timer.h, sylar/timer.cpp: timers and the ordered set of the timer manager.
-- A `Timer::ptr` is an address; `heap` holds the object at each address, an address never used
-- holding a timer with no callback. `std::set<Timer::ptr, Comparator>` is the list of its members
-- in order. The clock and the address of a new object are arguments. uint64_t wraps.
use prozac.Prelude.{
  ℕ, ◌+◌, ◌-◌, ◌%◌, ◌^◌, Bool, true, false, not, ◌&&◌, Option, none, some, List, [], ◌∷◌, ◌++◌, ltb,
  leb, ◌==◌, if◌then◌else◌, update,
}
pub mod Order
pub mod Invariant
pub mod Fire
pub mod Expiry
pub mod Wait
pub mod Run
pub mod Spec
pub mod Refines
mod Tests

abbrev pub u64 : ℕ → ℕ
u64 n = n % 2 ^ 64

-- `~0ull`
abbrev pub no_timer : ℕ
no_timer = 2 ^ 64 - 1

-- 60 * 60 * 1000
abbrev pub hour_ms : ℕ
hour_ms = 3600000

-- `std::function<void()>`: empty, a closure known by a number, or `std::bind(&OnTimer, w, cb)`.
pub data Callback : Type 0 where
  null : Callback
  closure : ℕ → Callback
  on_timer : ℕ → Callback → Callback

abbrev pub is_set : Callback → Bool
is_set null = false
is_set _ = true

-- The closures that a call runs, where `alive w` says whether `w.lock()` gives an object;
-- `none` is `std::bad_function_call`.
pub call : (ℕ → Bool) → Callback → Option (List ℕ)
call alive null = none
call alive (closure n) = some (n ∷ [])
call alive (on_timer w cb) = if alive w then call alive cb else some []

pub record Timer : Type 0 where
  pub recurring : Bool
  pub ms : ℕ
  pub next : ℕ
  pub cb : Callback

pub record Manager : Type 0 where
  pub heap : ℕ → Timer
  pub timers : List ℕ
  pub tickled : Bool
  pub previouse_time : ℕ

-- The comparator on two pointers that are not null.
pub before : (ℕ → Timer) → ℕ → ℕ → Bool
before h a b =
    if ltb (h a).next (h b).next
    then true
    else (if ltb (h b).next (h a).next then false else ltb a b)

pub compare_ptr : (ℕ → Timer) → Option ℕ → Option ℕ → Bool
unfolding before
compare_ptr h none none = false
compare_ptr h none (some b) = true
compare_ptr h (some a) none = false
compare_ptr h (some a) (some b) = before h a b

-- `std::set::insert`, `find` (whether it is not `end()`), and `erase` of what `find` found.
pub insert : (ℕ → Timer) → ℕ → List ℕ → List ℕ
unfolding before
insert h a [] = a ∷ []
insert h a (b ∷ bs) =
    if before h a b then a ∷ b ∷ bs else (if before h b a then b ∷ insert h a bs else b ∷ bs)

pub find : (ℕ → Timer) → ℕ → List ℕ → Bool
unfolding before
find h a [] = false
find h a (b ∷ bs) = if before h b a then find h a bs else not (before h a b)

pub erase : (ℕ → Timer) → ℕ → List ℕ → List ℕ
unfolding before
erase h a [] = []
erase h a (b ∷ bs) =
    if before h b a then b ∷ erase h a bs else (if before h a b then b ∷ bs else bs)

-- `it == m_timers.begin()` for the element just inserted.
abbrev is_front : ℕ → List ℕ → Bool
is_front a [] = false
is_front a (b ∷ bs) = a == b

pub init : ℕ → Manager
init now = record {
  heap = λ a. record { recurring = false; ms = 0; next = 0; cb = null };
  timers = [];
  tickled = false;
  previouse_time = now;
}

-- `addTimer(val, lock)`; the second part says whether `onTimerInsertedAtFront` is called.
pub insert_timer : ℕ → Manager → Manager × Bool
unfolding insert
insert_timer a m =
    let timers' = insert m.heap a m.timers in
    let at_front = is_front a timers' && not m.tickled in
    (record m { timers = timers'; tickled = if at_front then true else m.tickled }, at_front)

-- `addTimer(ms, cb, recurring)`; `a` is the address of the new timer, `now` the clock.
pub add_timer : ℕ → ℕ → ℕ → Callback → Bool → Manager → Manager × Bool
unfolding insert_timer
add_timer a now ms cb recurring m = insert_timer a (record m {
  heap =
      update m.heap a (record { recurring = recurring; ms = ms; next = u64 (now + ms); cb = cb });
})

pub add_condition_timer : ℕ → ℕ → ℕ → Callback → ℕ → Bool → Manager → Manager × Bool
unfolding add_timer
add_condition_timer a now ms cb weak_cond recurring m =
    add_timer a now ms (on_timer weak_cond cb) recurring m

-- `Timer::cancel`; `none` is `erase(end())`, which is undefined.
pub cancel : ℕ → Manager → Option (Manager × Bool)
unfolding find erase
cancel a m =
    if is_set (m.heap a).cb
    then (let h = update m.heap a (record (m.heap a) { cb = null }) in
        if find h a m.timers
        then some (record m { heap = h; timers = erase h a m.timers }, true)
        else none)
    else some (m, false)

pub refresh : ℕ → ℕ → Manager → Manager × Bool
unfolding find erase insert
refresh a now m =
    if not (is_set (m.heap a).cb)
    then (m, false)
    else (if not (find m.heap a m.timers)
        then (m, false)
        else (let erased = erase m.heap a m.timers in
            let h = update m.heap a (record (m.heap a) { next = u64 (now + (m.heap a).ms) }) in
            (record m { heap = h; timers = insert h a erased }, true)))

-- `Timer::reset`: its result, and whether `onTimerInsertedAtFront` is called.
pub reset : ℕ → ℕ → ℕ → Bool → Manager → Manager × Bool × Bool
unfolding find erase insert_timer
reset a now ms from_now m =
    if (ms == (m.heap a).ms) && not from_now
    then (m, true, false)
    else (if not (is_set (m.heap a).cb)
        then (m, false, false)
        else (if not (find m.heap a m.timers)
            then (m, false, false)
            else (let erased = erase m.heap a m.timers in
                let start =
                  if from_now then now else u64 ((m.heap a).next + 2 ^ 64 - (m.heap a).ms) in
                let h = update m.heap a (record (m.heap a) { ms = ms; next = u64 (start + ms) }) in
                let (m', notified) = insert_timer a (record m { heap = h; timers = erased }) in
                (m', true, notified))))

-- The wait until the first timer, of the list of timers.
abbrev wait : (ℕ → Timer) → ℕ → List ℕ → ℕ
wait h now [] = no_timer
wait h now (a ∷ rest) = if leb (h a).next now then 0 else (h a).next - now

pub get_next_timer : ℕ → Manager → Manager × ℕ
get_next_timer now m = (record m { tickled = false }, wait m.heap now m.timers)

pub detect_clock_rollover : ℕ → Manager → Manager × Bool
detect_clock_rollover now m = (
  record m { previouse_time = now },
  ltb now m.previouse_time && ltb now (u64 (m.previouse_time + 2 ^ 64 - hour_ms)),
)

-- `[begin, lower_bound(now_timer))` and the rest, `probe` being the address of `now_timer`.
pub lower_bound : (ℕ → Timer) → ℕ → ℕ → List ℕ → List ℕ × List ℕ
lower_bound h now probe [] = ([], [])
lower_bound h now probe (a ∷ rest) =
    let (l, r) = lower_bound h now probe rest in
    if ltb (h a).next now
    then (a ∷ l, r)
    else (if ltb now (h a).next
        then ([], a ∷ rest)
        else (if ltb a probe then (a ∷ l, r) else ([], a ∷ rest)))

-- `while(it != m_timers.end() && (*it)->m_next == now_ms) ++it;`
pub skip_equal : (ℕ → Timer) → ℕ → List ℕ → List ℕ × List ℕ
skip_equal h now [] = ([], [])
skip_equal h now (a ∷ rest) =
    let (l, r) = skip_equal h now rest in if (h a).next == now then (a ∷ l, r) else ([], a ∷ rest)

-- The expired timers, in order, and those that stay.
pub split_expired : (ℕ → Timer) → ℕ → ℕ → Bool → List ℕ → List ℕ × List ℕ
unfolding lower_bound skip_equal
split_expired h now probe rollover rest =
    if rollover
    then (rest, [])
    else (let (l, r) = lower_bound h now probe rest in
        let (l', r') = skip_equal h now r in (l ++ l', r'))

-- One round of the loop over the expired timers.
pub rearm : ℕ → ℕ → Manager → Manager
unfolding insert
rearm now a m =
    if (m.heap a).recurring
    then (let h = update m.heap a (record (m.heap a) { next = u64 (now + (m.heap a).ms) }) in
        record m { heap = h; timers = insert h a m.timers })
    else record m { heap = update m.heap a (record (m.heap a) { cb = null }) }

pub fire : ℕ → List ℕ → Manager → Manager × List Callback
unfolding rearm
fire now [] m = (m, [])
fire now (a ∷ rest) m = let (m', cbs) = fire now rest (rearm now a m) in (m', (m.heap a).cb ∷ cbs)

abbrev first_after : (ℕ → Timer) → ℕ → List ℕ → Bool
first_after h now [] = false
first_after h now (a ∷ rest) = ltb now (h a).next

abbrev is_empty : List ℕ → Bool
is_empty [] = true
is_empty (a ∷ rest) = false

-- Second part: the callbacks appended to `cbs`.
pub list_expired_cb : ℕ → ℕ → Manager → Manager × List Callback
unfolding detect_clock_rollover split_expired fire
list_expired_cb now probe m =
    if is_empty m.timers
    then (m, [])
    else (let (m', rollover) = detect_clock_rollover now m in
        if not rollover && first_after m.heap now m.timers
        then (m', [])
        else (let (expired, rest) = split_expired m.heap now probe rollover m.timers in
            fire now expired (record m' { timers = rest })))

pub has_timer : Manager → Bool
has_timer m = not (is_empty m.timers)
