-- ===== src/Timer/Spec.antt =====
-- What the calls of the timer manager of sylar/timer.cpp do to the timers that are pending, without order
-- and without heap: the timers by their addresses.
use prozac.Prelude.{
  ℕ, ◌+◌, ◌-◌, ◌^◌, ◌≡◌, Bool, false, not, ◌&&◌, ◌||◌, Option, none, some, List, [], ◌∷◌, contains,
  ◌==◌, update, leb, if◌then◌else◌, ◌⊎◌, ltb, ◌%◌, ◌*◌,
}
use prozac.Timer.{Timer, Manager, Callback, is_set, u64, on_timer}
use prozac.Timer.Run.{Op, add, add_condition, cancels, refreshes, resets, waits, expires}

abbrev pub Pending : Type 0
Pending = ℕ → Option Timer

-- The timers of the set, each with its object.
abbrev pub view : Manager → Pending
view m b = if contains b m.timers then some (m.heap b) else none

abbrev pub on : (Timer → Option Timer) → Option Timer → Option Timer
on f none = none
on f (some t) = f t

-- One timer is changed, if it is pending and has a callback.
abbrev pub change : (Timer → Option Timer) → ℕ → Pending → Pending
change f a p b = if b == a then on (λ t. if is_set t.cb then f t else some t) (p a) else p b

-- A timer that is due, or any when the clock went back, is over, or pending until its next time.
abbrev pub expire_one : Bool → ℕ → Timer → Option Timer
expire_one rollover now t =
    if rollover || leb t.next now
    then (if t.recurring then some (record t { next = u64 (now + t.ms) }) else none)
    else some t

abbrev pub added : ℕ → ℕ → Callback → Bool → Timer
added now ms cb recurring = record {
  recurring = recurring;
  ms = ms;
  next = u64 (now + ms);
  cb = cb;
}

-- What each call does to the pending timers; the first argument says whether the clock went back.
abbrev pub spec : Bool → Op → Pending → Pending
spec r (add a now ms cb recurring) p = update p a (some (added now ms cb recurring))
spec r (add_condition a now ms cb w recurring) p =
    update p a (some (added now ms (on_timer w cb) recurring))
spec r (cancels a) p = change (λ t. none) a p
spec r (refreshes a now) p = change (λ t. some (record t { next = u64 (now + t.ms) })) a p
spec r (resets a now ms from_now) p =
    change
      (λ t.
        if (ms == t.ms) && not from_now
        then some t
        else (let start = if from_now then now else u64 (t.next + 2 ^ 64 - t.ms) in
            some (record t { ms = ms; next = u64 (start + ms) })))
      a p
spec r (waits now) p = p
spec r (expires now probe) p = λ b. on (expire_one r now) (p b)

-- The clock went back by more than an hour since the time `old`, in uint64_t.
abbrev pub went_back : ℕ → ℕ → Bool
went_back old now = ltb now old && ltb now ((old + 2 ^ 64 - 60 * 60 * 1000) % 2 ^ 64)

-- Whether it did so at a call, and the time that is kept for the next one: that of the last expiry with
-- a timer pending.
abbrev pub rolls : ℕ → Op → Bool
rolls old (expires now probe) = went_back old now
rolls old _ = false

abbrev pub Clock : Op → Pending → ℕ → ℕ → Type 0
Clock (expires now probe) p old new =
    (((b : ℕ) → p b ≡ none) × (new ≡ old)) ⊎ ((a : ℕ) × (t : Timer) × (p a ≡ some t) × (new ≡ now))
Clock _ p old new = new ≡ old

-- Sequences of calls, from the time `old` on.
pub data Specified : List Op → ℕ → Pending → Pending → Type 0 where
  done : {old : ℕ} {p : Pending} → Specified [] old p p
  more :
      {op : Op} {ops : List Op} {old new : ℕ} {p q : Pending}
      → Clock op p old new
      → Specified ops new (spec (rolls old op) op p) q
      → Specified (op ∷ ops) old p q
