-- ===== src/Timer/Refines.antt =====
-- The timer manager of sylar/timer.cpp does what is specified of the pending timers.
use prozac.Prelude.{
  ℕ, ◌+◌, ◌≡◌, refl, sym, ap, subst, ◌∙◌, Bool, true, false, not, ◌&&◌, ◌||◌, Option, none, some,
  List, [], ◌∷◌, arith, contains, ◌==◌, update, leb, if◌then◌else◌, Bool-cases, inl, inr, ==_self,
  if_intro,
}
use mathlib.Core.Path.{fun_ext}
use prozac.Timer.{
  Timer, Manager, Callback, init, add_condition_timer, is_set, insert, insert_timer, erase, find,
  add_timer, cancel, refresh, reset, list_expired_cb, detect_clock_rollover, get_next_timer, fire,
  rearm, first_after, split_expired,
}
use prozac.Timer.Order.{find-contains, contains-insert}
use prozac.Timer.Invariant.{IsValid, canceled, cancel_set, contains-canceled, reinsert_contains}
use prozac.Timer.Expiry.{list_expired_cb-Fires, taken, contains-due}
use prozac.Timer.Run.{
  Op, add, add_condition, cancels, refreshes, resets, waits, expires, step, run, Fresh, FreshRun,
  step_valid,
}
use prozac.Timer.Spec.{view, change, spec, went_back, rolls, Clock, Specified, done, more}

module _ (m : Manager) (v : IsValid m) where
  view-add :
      (a : ℕ) (t : Timer) (b : ℕ)
      → (if contains b (insert (update m.heap a t) a m.timers)
          then some (update m.heap a t b)
          else none)
        ≡ update (view m) a (some t) b
  view-add a t b = ground (arith, contains-insert (update m.heap a t) b a m.timers)

  view-canceled :
      (a b : ℕ)
      → is_set (m.heap a).cb ≡ true
      → view (canceled a m) b ≡ change (λ t. none) a (view m) b
  unfolding canceled
  view-canceled a b set = ground (arith, contains-canceled a m v b, set)

  module _ (f : Timer → Option Timer) (a b : ℕ) where
    -- A timer without a callback, one that is not in the set, and one that the change leaves alone.
    change_unset : is_set (m.heap a).cb ≡ false → view m b ≡ change f a (view m) b
    change_unset unset = ground arith

    change_absent : contains a m.timers ≡ false → view m b ≡ change f a (view m) b
    change_absent absent = ground arith

    change_same : f (m.heap a) ≡ some (m.heap a) → view m b ≡ change f a (view m) b
    change_same same = ground arith

    -- One that is erased, written and inserted again.
    change_reinsert :
        (t : Timer)
        → f (m.heap a) ≡ some t
        → is_set (m.heap a).cb ≡ true
        → contains a m.timers ≡ true
        → (if contains b (insert (update m.heap a t) a (erase m.heap a m.timers))
            then some (update m.heap a t b)
            else none)
          ≡ change f a (view m) b
    change_reinsert t changed set here =
        ground (arith, changed, set, reinsert_contains m v a t here b)

  found_of : (a : ℕ) → find m.heap a m.timers ≡ contains a m.timers
  found_of a = find-contains m.heap a m.timers v.sorted

  view-refresh :
      (a now b : ℕ) → view (refresh a now m).0 b ≡ spec false (refreshes a now) (view m) b
  unfolding refresh
  view-refresh a now b = elim (Bool-cases (is_set (m.heap a).cb)) [
    | inr unset ↦ rw unset (change_unset _ a b unset)
    | inl set ↦ elim (Bool-cases (find m.heap a m.timers)) [
      | inr absent ↦ rw (set, absent) (change_absent _ a b (sym (found_of a) ∙ absent))
      | inl present ↦
          rw (set, present) (change_reinsert _ a b _ refl set (sym (found_of a) ∙ present))
    ]
  ]

  view-reset :
      (a now ms : ℕ) (from_now : Bool) (b : ℕ)
      → view (reset a now ms from_now m).0 b ≡ spec false (resets a now ms from_now) (view m) b
  unfolding reset insert_timer
  view-reset a now ms from_now b = elim (Bool-cases ((ms == (m.heap a).ms) && not from_now)) [
    | inl same ↦ rw same (change_same _ a b (rw same refl))
    | inr differs ↦ elim (Bool-cases (is_set (m.heap a).cb)) [
      | inr unset ↦ rw (differs, unset) (change_unset _ a b unset)
      | inl set ↦ elim (Bool-cases (find m.heap a m.timers)) [
        | inr absent ↦ rw (differs, set, absent) (change_absent _ a b (sym (found_of a) ∙ absent))
        | inl present ↦
            rw (differs, set, present)
              (change_reinsert _ a b _ (rw differs refl) set (sym (found_of a) ∙ present))
      ]
    ]
  ]

  contains-taken :
      (r : Bool) (now b : ℕ)
      → contains b (taken r m.heap now m.timers)
        ≡ contains b m.timers && (r || leb (m.heap b).next now)
  contains-taken true now b = ground arith
  contains-taken false now b = ground (arith, contains-due m.heap now b m.timers)

  view-list_expired_cb :
      (now probe b : ℕ)
      → view (list_expired_cb now probe m).0 b
        ≡ spec (detect_clock_rollover now m).1 (expires now probe) (view m) b
  view-list_expired_cb now probe b =
      let r = (detect_clock_rollover now m).1 in
      let (valid, cbs, each) = list_expired_cb-Fires m v now probe in
      ground (arith, (each b).0, (each b).1, contains-taken r now b)

abbrev state : Option (Manager × ℕ) → Manager
state none = init 0
state (some (n, k)) = n

step_cancels :
    (a : ℕ) (m : Manager)
    → IsValid m
    → view (state (step (cancels a) m)) ≡ change (λ t. none) a (view m)
unfolding step
step_cancels a m v = elim (Bool-cases (is_set (m.heap a).cb)) [
  | inl set ↦
      let e : step (cancels a) m ≡ some (canceled a m, 0) = rw (cancel_set a m v set, step) refl in
      ap view (ap state e) ∙ fun_ext (λ b. view-canceled m v a b set)
  | inr unset ↦
      let none' : cancel a m ≡ some (m, false) = unfold cancel in rw (unset, cancel) refl in
      let e : step (cancels a) m ≡ some (m, 0) = rw (none', step) refl in
      ap view (ap state e) ∙ fun_ext (λ b. change_unset m v (λ t. none) a b unset)
]

-- One call, on the timers that are pending.
step-spec :
    (op : Op) (m n : Manager) (k : ℕ)
    → IsValid m
    → Fresh op m
    → step op m ≡ some (n, k)
    → view n ≡ spec (rolls m.previouse_time op) op (view m)
unfolding step detect_clock_rollover
step-spec (add a now ms cb r) m n k v f e =
    ap view (ap state (sym e)) ∙ unfold add_timer insert_timer in fun_ext (view-add m v a _)
step-spec (add_condition a now ms cb w r) m n k v f e =
    ap view (ap state (sym e))
    ∙ unfold add_condition_timer add_timer insert_timer in fun_ext (view-add m v a _)
step-spec (cancels a) m n k v f e = ap view (ap state (sym e)) ∙ step_cancels a m v
step-spec (refreshes a now) m n k v f e =
    ap view (ap state (sym e)) ∙ fun_ext (view-refresh m v a now)
step-spec (resets a now ms b) m n k v f e =
    ap view (ap state (sym e)) ∙ fun_ext (view-reset m v a now ms b)
step-spec (waits now) m n k v f e = ap view (ap state (sym e)) ∙ unfold get_next_timer in refl
step-spec (expires now probe) m n k v f e =
    ap view (ap state (sym e)) ∙ fun_ext (view-list_expired_cb m v now probe)

fire-previouse_time :
    (now : ℕ) (l : List ℕ) (m : Manager) → (fire now l m).0.previouse_time ≡ m.previouse_time
unfolding fire rearm
fire-previouse_time now [] m = refl
fire-previouse_time now (a ∷ rest) m = ground (arith, fire-previouse_time now rest (rearm now a m))

first_pending : (a : ℕ) (rest : List ℕ) → contains a (a ∷ rest) ≡ true
first_pending a rest = ground (arith, ==_self a)

expires-Clock_at :
    (now probe : ℕ) (m : Manager) (l : List ℕ)
    → m.timers ≡ l
    → Clock
        (expires now probe)
        (view m)
        m.previouse_time
        (list_expired_cb now probe m).0.previouse_time
unfolding list_expired_cb detect_clock_rollover split_expired
expires-Clock_at now probe m [] e = inl ((λ b. rw e refl), rw e refl)
expires-Clock_at now probe m (a ∷ rest) e =
    let r = went_back m.previouse_time now in
    let ex = split_expired m.heap now probe r (a ∷ rest) in
    let left : Manager = record m { previouse_time = now; timers = ex.1 } in
    inr (
      a,
      m.heap a,
      rw (e, first_pending a rest) refl,
      rw e (
          if_intro (λ (q : Manager × List Callback). q.0.previouse_time ≡ now)
            (not r && first_after m.heap now (a ∷ rest))
            (let stays : Manager = record m { timers = a ∷ rest; previouse_time = now } in
              (stays, []))
            (fire now ex.0 left) (λ _. refl) (λ _. fire-previouse_time now ex.0 left)),
    )

expires-Clock :
    (now probe : ℕ) (m : Manager)
    → Clock
        (expires now probe)
        (view m)
        m.previouse_time
        (list_expired_cb now probe m).0.previouse_time
expires-Clock now probe m = expires-Clock_at now probe m m.timers refl

step-Clock :
    (op : Op) (m n : Manager) (k : ℕ)
    → IsValid m
    → step op m ≡ some (n, k)
    → Clock op (view m) m.previouse_time n.previouse_time
unfolding step
step-Clock (add a now ms cb r) m n k v e =
    ap (λ s. (state s).previouse_time) (sym e) ∙ unfold add_timer insert_timer in refl
step-Clock (add_condition a now ms cb w r) m n k v e =
    ap (λ s. (state s).previouse_time) (sym e)
    ∙ unfold add_condition_timer add_timer insert_timer in refl
step-Clock (cancels a) m n k v e = elim (Bool-cases (is_set (m.heap a).cb)) [
  | inl set ↦
      let e' : step (cancels a) m ≡ some (canceled a m, 0) = rw (cancel_set a m v set, step) refl in
      ap (λ s. (state s).previouse_time) (sym e ∙ e') ∙ unfold canceled in refl
  | inr unset ↦
      let none' : cancel a m ≡ some (m, false) = unfold cancel in rw (unset, cancel) refl in
      let e' : step (cancels a) m ≡ some (m, 0) = rw (none', step) refl in
      ap (λ s. (state s).previouse_time) (sym e ∙ e')
]
step-Clock (refreshes a now) m n k v e =
    ap (λ s. (state s).previouse_time) (sym e) ∙ unfold refresh in ground arith
step-Clock (resets a now ms b) m n k v e =
    ap (λ s. (state s).previouse_time) (sym e) ∙ unfold reset insert_timer in ground arith
step-Clock (waits now) m n k v e =
    ap (λ s. (state s).previouse_time) (sym e) ∙ unfold get_next_timer in refl
step-Clock (expires now probe) m n k v e =
    subst
      (λ (s : Option (Manager × ℕ)).
        Clock (expires now probe) (view m) m.previouse_time (state s).previouse_time)
      e (expires-Clock now probe m)

-- Any sequence of calls with fresh addresses does to the pending timers what the calls are specified to
-- do, one after another: adding a timer makes it pending; cancelling, moving and resetting touch just
-- that one, and only if it is pending with a callback; an expiry ends those that are due, or puts them
-- off if they recur, and touches no other, unless the clock went back by more than an hour since the last
-- expiry with a timer pending, or since the start: then all are due.
pub run-Specified :
    (ops : List Op) (m : Manager)
    → IsValid m
    → FreshRun ops m
    → (n : Manager) × (k : ℕ) × (run ops m ≡ some (n, k))
      × Specified ops m.previouse_time (view m) (view n)
unfolding run
run-Specified [] m v f = (m, 0, refl, done)
run-Specified (op ∷ ops) m v f =
    let (n, k, e, w, _) = step_valid op m v f.0 in
    let after : FreshRun ops n = rw e at (f.1) in
    let (o, l, e', s) = run-Specified ops n w after in
    (
      o,
      k + l,
      rw (e, run) (rw (e', run) refl),
      more (step-Clock op m n k v e)
          (subst (λ p. Specified ops n.previouse_time p (view o)) (step-spec op m n k v f.0 e) s),
    )
