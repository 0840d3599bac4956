-- ===== src/Timer/Invariant.antt =====
-- The invariant of the timer manager of sylar/timer.cpp, kept by each operation.
use prozac.Prelude.{
  ℕ, ◌≡◌, refl, Bool, true, false, not, ◌&&◌, some, arith, contains, ◌==◌, update, Bool-cases, inl,
  inr,
}
use prozac.Timer.{
  Timer, Manager, Callback, is_set, init, insert, find, erase, add_timer, cancel, refresh, reset,
  null,
}
use prozac.Timer.Order.{
  IsSorted, find-contains, contains-insert, contains-erase, insert-IsSorted, erase-IsSorted,
  update-IsSorted, update_same-IsSorted,
}

-- The set is in order, and a timer with a callback is in it.
pub record IsValid (m : Manager) : Type 0 where
  pub sorted : IsSorted m.heap m.timers
  pub live : (a : ℕ) → is_set (m.heap a).cb ≡ true → contains a m.timers ≡ true

pub init-IsValid : (now : ℕ) → IsValid (init now)
unfolding init
init-IsValid now = record { sorted = tt; live = λ a e. cc }

-- A timer is erased, written and inserted again.
module _ (m : Manager) (v : IsValid m) (a : ℕ) (t : Timer) where
  erased_absent : contains a (erase m.heap a m.timers) ≡ false
  erased_absent = ground (arith, contains-erase m.heap a a m.timers v.sorted)

  pub erase-update-IsSorted : IsSorted (update m.heap a t) (erase m.heap a m.timers)
  erase-update-IsSorted =
      update-IsSorted m.heap a t _ erased_absent (erase-IsSorted m.heap a m.timers v.sorted)

  pub reinsert-IsSorted :
      IsSorted (update m.heap a t) (insert (update m.heap a t) a (erase m.heap a m.timers))
  reinsert-IsSorted = insert-IsSorted (update m.heap a t) a _ erase-update-IsSorted

  pub reinsert_live :
      (b : ℕ)
      → is_set (update m.heap a t b).cb ≡ true
      → contains b (insert (update m.heap a t) a (erase m.heap a m.timers)) ≡ true
  reinsert_live b e = ground (
    arith,
    v.live b,
    contains-insert (update m.heap a t) b a (erase m.heap a m.timers),
    contains-erase m.heap b a m.timers v.sorted,
  )

  pub reinsert_contains :
      contains a m.timers ≡ true
      → (b : ℕ)
      → contains b (insert (update m.heap a t) a (erase m.heap a m.timers)) ≡ contains b m.timers
  reinsert_contains p b = ground (
    arith,
    contains-insert (update m.heap a t) b a (erase m.heap a m.timers),
    contains-erase m.heap b a m.timers v.sorted,
  )

-- A timer outside the set is written and inserted.
module _ (m : Manager) (v : IsValid m) (a : ℕ) (t : Timer)
    (absent : contains a m.timers ≡ false) where
  add-IsSorted : IsSorted (update m.heap a t) (insert (update m.heap a t) a m.timers)
  add-IsSorted =
      insert-IsSorted (update m.heap a t) a _ (update-IsSorted m.heap a t _ absent v.sorted)

  add_live :
      (b : ℕ)
      → is_set (update m.heap a t b).cb ≡ true
      → contains b (insert (update m.heap a t) a m.timers) ≡ true
  add_live b e = ground (arith, v.live b, contains-insert (update m.heap a t) b a m.timers)

pub add_timer-IsValid :
    (a now ms : ℕ) (cb : Callback) (recurring : Bool) (m : Manager)
    → contains a m.timers ≡ false
    → IsValid m
    → IsValid (add_timer a now ms cb recurring m).0
unfolding add_timer
add_timer-IsValid a now ms cb recurring m absent v = record {
  sorted = add-IsSorted m v a _ absent;
  live = add_live m v a _ absent;
}

pub refresh-IsValid : (a now : ℕ) (m : Manager) → IsValid m → IsValid (refresh a now m).0
unfolding refresh
refresh-IsValid a now m v = elim (Bool-cases (is_set (m.heap a).cb)) [
  | inr unset ↦ rw unset v
  | inl set ↦ elim (Bool-cases (find m.heap a m.timers)) [
    | inr absent ↦ rw (set, absent) v
    | inl present ↦
        rw (set, present)
          (record { sorted = reinsert-IsSorted m v a _; live = reinsert_live m v a _ })
  ]
]

pub reset-IsValid :
    (a now ms : ℕ) (from_now : Bool) (m : Manager)
    → IsValid m
    → IsValid (reset a now ms from_now m).0
unfolding reset
reset-IsValid a now ms from_now m v = elim (Bool-cases ((ms == (m.heap a).ms) && not from_now)) [
  | inl same ↦ rw same v
  | inr differs ↦ elim (Bool-cases (is_set (m.heap a).cb)) [
    | inr unset ↦ rw (differs, unset) v
    | inl set ↦ elim (Bool-cases (find m.heap a m.timers)) [
      | inr absent ↦ rw (differs, set, absent) v
      | inl present ↦
          rw (differs, set, present)
            (record { sorted = reinsert-IsSorted m v a _; live = reinsert_live m v a _ })
    ]
  ]
]

-- What a cancelled timer leaves behind.
unfoldable pub canceled : ℕ → Manager → Manager
canceled a m =
    let h = update m.heap a (record (m.heap a) { cb = null }) in
    record m { heap = h; timers = erase h a m.timers }

module _ (a : ℕ) (m : Manager) (v : IsValid m) where
  canceled-IsSorted : IsSorted (update m.heap a (record (m.heap a) { cb = null })) m.timers
  canceled-IsSorted = update_same-IsSorted m.heap a _ m.timers refl v.sorted

  pub contains-canceled :
      (b : ℕ) → contains b (canceled a m).timers ≡ contains b m.timers && not (b == a)
  unfolding canceled
  contains-canceled b = contains-erase _ b a m.timers canceled-IsSorted

  canceled-IsValid : IsValid (canceled a m)
  unfolding canceled
  canceled-IsValid = record {
    sorted = erase-IsSorted _ a m.timers canceled-IsSorted;
    live = λ b e. ground (arith, v.live b, contains-erase _ b a m.timers canceled-IsSorted);
  }

  pub cancel_set : is_set (m.heap a).cb ≡ true → cancel a m ≡ some (canceled a m, true)
  unfolding cancel canceled
  cancel_set set = rw (set, find-contains _ a m.timers canceled-IsSorted, v.live a set)

-- Cancelling never erases the end of the set. It answers whether the timer had a callback, after
-- which it has none; if it had, exactly this timer has left the set.
pub cancel_lem :
    (a : ℕ) (m : Manager)
    → IsValid m
    → (n : Manager) × (cancel a m ≡ some (n, is_set (m.heap a).cb))
      × IsValid n
      × (is_set (n.heap a).cb ≡ false)
      × (n.tickled ≡ m.tickled)
      × ((b : ℕ)
          → contains b n.timers ≡ contains b m.timers && not (is_set (m.heap a).cb && (b == a)))
cancel_lem a m v = elim (Bool-cases (is_set (m.heap a).cb)) [
  | inl set ↦ (
    canceled a m,
    rw set (cancel_set a m v set),
    canceled-IsValid a m v,
    unfold canceled in ground arith,
    unfold canceled in refl,
    λ b. rw set (contains-canceled a m v b),
  )
  | inr unset ↦ (m, unfold cancel in rw (unset, cancel), v, unset, refl, λ b. ground arith)
]
