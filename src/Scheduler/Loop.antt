-- ===== src/Scheduler/Loop.antt =====
-- The loop of `WokerThread::run` of sylar/scheduler.cpp ends.
use prozac.Prelude.{
  ℕ, zero, suc, ◌≤◌, ◌≡◌, refl, Bool, true, not, ◌||◌, List, [], ◌∷◌, arith, ltb, length, ◌==◌,
  if◌then◌else◌, if_intro, inl, inr, ◌⊎◌, Gives, Gives->>=, Gives-mono, ok,
}
use prozac.Fiber.Defs.{State, all_ok}
use prozac.Scheduler.Alloc.{held, Counted}
use prozac.Scheduler.Moved.{Behaves, is_fiber}
use prozac.Scheduler.Working.{IsWorking, IsSafe, Keeping}
use prozac.Scheduler.Bag.{tally}
use prozac.Scheduler.Rounds.{IsAwake, Finishing, Rounds, round-Rounds}
use prozac.Scheduler.{Task, Turn, WorkerThread, Round, round, worker_loop}

-- Each fiber that runs yields or ends.
abbrev IsCalm : Turn → Type 0
IsCalm Turn.yields = Unit
IsCalm Turn.finishes = Unit
IsCalm _ = ⊥

abbrev pub Calm : Round → Type 0
Calm r = (a : ℕ) → IsCalm (r.turn a)

-- Each fiber that runs ends, and the lock is free.
abbrev pub Clear : Round → Type 0
Clear r = Finishing r × (r.locked ≡ true)

-- The loop is told to stop after `n` times round or more in which fibers end; before that, in the other
-- times they yield or end.
abbrev pub Enough : ℕ → List (Bool × Round) → Type 0
Enough n [] = ⊥
Enough zero ((stop, r) ∷ rs) = (stop ≡ true) ⊎ Enough zero rs
Enough (suc n) ((stop, r) ∷ rs) = Clear r × Enough n rs ⊎ Calm r × Enough (suc n) rs

behaves : (t : Turn) → IsCalm t → Behaves t
behaves Turn.yields c = tt
behaves Turn.finishes c = tt
behaves (Turn.sleeps ms) c = absurd c
behaves Turn.holds c = absurd c
behaves Turn.fails c = absurd c

wakes : (t : Turn) → IsCalm t → IsAwake t
wakes Turn.yields c = tt
wakes Turn.finishes c = tt
wakes (Turn.sleeps ms) c = absurd c
wakes Turn.holds c = absurd c
wakes Turn.fails c = absurd c

Finishing-Calm : (r : Round) → Finishing r → Calm r
Finishing-Calm r f a = rw (f a) tt

abbrev pub Ended : WorkerThread × Bool → Type 0
Ended (u, ended) = (ended ≡ true) × (u.count ≡ 0)

-- The loop has ended with no task left, and each fiber that had a task, or had run to its end, has run to
-- its end.
abbrev pub AllOver : WorkerThread → WorkerThread × Bool → Type 0
AllOver w (u, ended) =
    Ended (u, ended) × ((a : ℕ) → IsSafe a w → (u.thread.fibers a).state ≡ State.destroy)

tally_le : (p : Task → Bool) (xs : List Task) → tally p xs ≤ length xs
tally_le p [] = omega arith
tally_le p (x ∷ xs) = ground (arith, tally_le p xs)

none-IsSafe :
    (w : WorkerThread)
    → held w ≡ 0
    → (a : ℕ) → IsSafe a w
    → (w.thread.fibers a).state ≡ State.destroy
none-IsSafe w none' a (inr over) = over
none-IsSafe w none' a (inl some') =
    let p = is_fiber a in
    absurd (
      omega (
        arith,
        some',
        none',
        tally_le p w.t_init,
        tally_le p w.t_ready,
        tally_le p w.t_sleep,
        tally_le p w.t_hold,
      ))

AllOver-back :
    (w u : WorkerThread) (q : WorkerThread × Bool) → Keeping w u → AllOver u q → AllOver w q
AllOver-back w u q k h = (h.0, λ a s. h.1 a (k a s))

-- What holds of a worker between two times round.
abbrev Between : ℕ → ℕ → WorkerThread → Type 0
Between b n w = IsWorking b w × Counted w × (w.t_sleep ≡ []) × (held w ≤ n)

abbrev After : ℕ → ℕ → WorkerThread → WorkerThread → Type 0
After b n w u = Between b n u × Keeping w u

once-Between :
    (b n : ℕ) (r : Round) (w : WorkerThread)
    → Between b (suc n) w
    → Calm r
    → Clear r ⊎ (held w ≤ n)
    → Gives (After b n w) (if w.count == 0 then ok w else round all_ok r w)
once-Between b n r w (k, c, s, few) calm less =
    if_intro (Gives (After b n w)) (w.count == 0) _ _
      (λ z. ((k, c, s, grind (arith, c, z)), λ a h. h))
      λ more.
        Gives-mono (Rounds r b w) (After b n w) (round all_ok r w)
          (round-Rounds b r w (λ a. behaves (r.turn a) (calm a)) k c)
          λ u d. (
            (
              d.0,
              d.1,
              d.3 (λ a. wakes (r.turn a) (calm a)) s,
              elim less [
                | inl clear ↦ grind (arith, few, d.4 clear.0 clear.1 s (grind (arith, c, more)))
                | inr fewer ↦ omega (arith, fewer, d.2)
              ],
            ),
            d.5,
          )

-- A worker with no more than `n` tasks, each with a fiber of its own that is new or ready, leaves its loop,
-- with no task left and every one of their fibers run to its end, if it is told to stop after `n` times round in which the lock is free and the fiber
-- that runs ends; in the other times before that a fiber that runs yields or ends. No call aborts.
pub worker_loop_ends :
    (b n : ℕ) (rs : List (Bool × Round)) (w : WorkerThread)
    → IsWorking b w
    → Counted w
    → w.t_sleep ≡ []
    → held w ≤ n
    → Enough n rs
    → Gives (AllOver w) (worker_loop all_ok rs w)
unfolding worker_loop
worker_loop_ends b n [] w k c s few e = absurd e
worker_loop_ends b zero ((stop, r) ∷ rs) w k c s few e =
    if_intro (Gives (AllOver w)) (not stop || ltb 0 w.count) _ _
      (λ go.
        let none' : w.count ≡ 0 = omega (arith, c, few) in
        let later : Enough zero rs = elim e [
          | inl told ↦ absurd (grind (arith, go, told, none'))
          | inr l ↦ l
        ] in
        Gives->>= (After b zero w) (AllOver w) (if w.count == 0 then ok w else round all_ok r w) _
          (if_intro (Gives (After b zero w)) (w.count == 0) _ _ (λ z. ((k, c, s, few), λ a h. h))
            (λ more. absurd (grind (arith, none', more))))
          (λ u (d, kept).
            Gives-mono (AllOver u) (AllOver w) (worker_loop all_ok rs u)
              (worker_loop_ends b zero rs u d.0 d.1 d.2 d.3 later)
              (λ q h. AllOver-back w u q kept h)))
      (λ over. ((refl, ground (arith, over)), none-IsSafe w (grind (arith, over, c))))
worker_loop_ends b (suc n) ((stop, r) ∷ rs) w k c s few e =
    if_intro (Gives (AllOver w)) (not stop || ltb 0 w.count) _ _
      (λ go. elim e [
        | inl (clear, l) ↦
            Gives->>= (After b n w) (AllOver w) (if w.count == 0 then ok w else round all_ok r w) _
              (once-Between b n r w (k, c, s, few) (Finishing-Calm r clear.0) (inl clear))
              (λ u (d, kept).
                Gives-mono (AllOver u) (AllOver w) (worker_loop all_ok rs u)
                  (worker_loop_ends b n rs u d.0 d.1 d.2 d.3 l) (λ q h. AllOver-back w u q kept h))
        | inr (calm, l) ↦
            Gives->>= (After b (suc n) w) (AllOver w)
              (if w.count == 0 then ok w else round all_ok r w) _
              (once-Between b (suc n) r w (k, c, s, omega (arith, few)) calm (inr few))
              (λ u (d, kept).
                Gives-mono (AllOver u) (AllOver w) (worker_loop all_ok rs u)
                  (worker_loop_ends b (suc n) rs u d.0 d.1 d.2 d.3 l)
                  (λ q h. AllOver-back w u q kept h))
      ])
      (λ over. ((refl, ground (arith, over)), none-IsSafe w (grind (arith, over, c))))
