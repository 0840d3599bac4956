-- ===== src/Scheduler/System.antt =====
-- The scheduler of sylar/scheduler.cpp as a whole: submissions, rounds of the allocating thread and rounds
-- of the workers in any order.
use prozac.Prelude.{
  ℕ, zero, suc, ◌+◌, ◌≤◌, ◌≡◌, ◌⊎◌, refl, sym, ap, subst, Bool, true, not, ◌&&◌, some, List, [],
  ◌∷◌, ◌++◌, arith, ltb, if◌then◌else◌, inl, inr, OnOk, OnOk-any, OnOk->>=, Result, ok, length,
  get_elem?, set, All-set, All-get_elem?,
}
use prozac.Fiber.Defs.{Thread, Sys}
use prozac.Fiber
use prozac.Scheduler.Alloc.{
  IsCounted, Counted, alloc_round-IsCounted, submit-IsCounted, Started, start-IsCounted,
}
use prozac.Scheduler.Worker.{Goes, round-Goes}
use prozac.Scheduler.Bag.{
  tally, tally-append, tasks_of, tasks_of_all, all_tasks, bag, bag-eq, KeepsTasks, Same, Leaves,
  round_tasks,
}
use prozac.Scheduler.Moves.{alloc_round_tasks, alloc_round_shorter, tally-set}
use prozac.Scheduler.{
  Task, WorkerThread, Round, Scheduler, round, alloc_round, submit, start, stop, new_worker,
  new_workers,
}

-- `Scheduler::Scheduler`
unfoldable pub new_scheduler : Scheduler
new_scheduler = record { tasks = []; count = 0; stop = true; workers = [] }

-- Whether a task that is submitted is taken.
abbrev is_taken : Scheduler → Bool
is_taken s = not s.stop && ltb (length s.tasks) 10000

-- What a scheduler that was started once can come to: its state, the index of the allocating thread, and
-- the tasks that it has taken.
pub data Reach (sys : Sys) : Scheduler → ℕ → List Task → Type 0 where
  begins : {s : Scheduler} (n : ℕ) → start sys n new_scheduler ≡ ok s → Reach sys s 0 []
  submits :
      {s u : Scheduler} {k : ℕ} {given : List Task} (last_owner : Bool) (x : Task) (t r : Thread)
      → Reach sys s k given
      → submit sys last_owner x s t ≡ ok (u, r)
      → Reach sys u k (if is_taken s then x ∷ given else given)
  allocs :
      {s : Scheduler} {k : ℕ} {given : List Task}
      → Reach sys s k given
      → Reach sys (alloc_round k s).1 (alloc_round k s).0 given
  works :
      {s : Scheduler} {k : ℕ} {given : List Task} (i : ℕ) (r : Round) (w u : WorkerThread)
      → Reach sys s k given
      → get_elem? s.workers i ≡ some w
      → round sys r w ≡ ok u
      → Reach sys (record s { workers = set s.workers i u }) k given
  stops :
      {s : Scheduler} {k : ℕ} {given : List Task} → Reach sys s k given → Reach sys (stop s) k given

-- The tasks that the rounds of the workers have taken out on the way to a state: a round leaves a worker all
-- its tasks, or takes one out whose fiber has then run to its end.
abbrev pub TakenOut :
    (sys : Sys) {s : Scheduler} {k : ℕ} {given : List Task}
    → Reach sys s k given
    → List Task
    → Type 0
TakenOut sys (begins n e) over = over ≡ []
TakenOut sys (submits lo x t r before e) over = TakenOut sys before over
TakenOut sys (allocs before) over = TakenOut sys before over
TakenOut sys (works i r w u before at e) over =
    (Same w u × TakenOut sys before over)
    ⊎ ((x : Task) × (rest : List Task) × (over ≡ x ∷ rest)
        × Leaves x w u
        × TakenOut sys before rest)
TakenOut sys (stops before) over = TakenOut sys before over

-- The counters are right, few tasks wait, and each task taken is queued once or over.
record Holds (s : Scheduler) (given : List Task) : Type 0 where
  counted : IsCounted s
  few : length s.tasks ≤ 10000
  over : List Task
  kept : (p : Task → Bool) → tally p given ≡ tally p (all_tasks s) + tally p over

OnOk-ok : {A : Type 0} (P : A → Type 0) (m : Result A) (a : A) → m ≡ ok a → OnOk P m → P a
OnOk-ok P m a e h = subst (OnOk P) e h

abbrev Idle : List WorkerThread → Type 0
Idle ws = tasks_of_all ws ≡ []

new_workers-Idle : (sys : Sys) (n : ℕ) → OnOk Idle (new_workers sys n)
unfolding new_workers new_worker
new_workers-Idle sys zero = refl
new_workers-Idle sys (suc n) =
    OnOk->>= (λ w. tasks_of w ≡ []) Idle (new_worker sys) _
      (OnOk-any (λ w. tasks_of w ≡ []) (Fiber.get_this sys Fiber.init) _ λ q. refl)
      λ w e.
        OnOk->>= Idle Idle (new_workers sys n) _ (new_workers-Idle sys n) λ ws es. rw (e, es) refl

abbrev IsIdle : Scheduler → Type 0
IsIdle s = (s.tasks ≡ []) × (all_tasks s ≡ [])

start-Idle : (sys : Sys) (n : ℕ) → OnOk IsIdle (start sys n new_scheduler)
unfolding start new_scheduler
start-Idle sys n =
    OnOk->>= Idle IsIdle (new_workers sys n) _ (new_workers-Idle sys n) λ ws e. (refl, e)

begins_Holds :
    (sys : Sys) (n : ℕ) (s : Scheduler)
    → start sys n new_scheduler ≡ ok s
    → (h : Holds s []) × (h.over ≡ [])
unfolding new_scheduler
begins_Holds sys n s e =
    let (queue, none) = OnOk-ok IsIdle _ s e (start-Idle sys n) in
    let started =
      OnOk-ok (Started n new_scheduler) _ s e
        (start-IsCounted sys n new_scheduler (record { queue = refl; each = tt }) refl) in
    (
      record {
        counted = started.0;
        few = omega (arith, ap length queue);
        over = [];
        kept = λ p. omega (arith, ap (tally p) none);
      },
      refl,
    )

-- What a submission does to the workers and the queue.
submit_tasks :
    (sys : Sys) (lo : Bool) (x : Task) (s u : Scheduler) (t r : Thread)
    → submit sys lo x s t ≡ ok (u, r)
    → (u.workers ≡ s.workers) × (u.tasks ≡ (if is_taken s then s.tasks ++ x ∷ [] else s.tasks))
unfolding submit
submit_tasks sys lo x s u t r e = (ground arith, ground arith)

submits_Holds :
    (sys : Sys) (lo : Bool) (x : Task) (s u : Scheduler) (t r : Thread) (given : List Task)
    → submit sys lo x s t ≡ ok (u, r)
    → (h : Holds s given)
    → (g : Holds u (if is_taken s then x ∷ given else given)) × (g.over ≡ h.over)
submits_Holds sys lo x s u t r given e h =
    let (workers, tasks) = submit_tasks sys lo x s u t r e in
    let (counted, few, _) = submit-IsCounted sys lo x s u t r h.counted h.few e in
    (
      record {
        counted = counted;
        few = few;
        over = h.over;
        kept = λ p.
            let all = tally-append p u.tasks (tasks_of_all u.workers) in
            let all' = tally-append p s.tasks (tasks_of_all s.workers) in
            let more = tally-append p s.tasks (x ∷ []) in
            let same = ap (λ ws. tally p (tasks_of_all ws)) workers in
            ground (arith, all, all', more, same, tasks, h.kept p);
      },
      refl,
    )

-- The tasks that are over after a round.
abbrev Follows : WorkerThread → WorkerThread → List Task → List Task → Type 0
Follows w u old new = (Same w u × (new ≡ old)) ⊎ ((x : Task) × (new ≡ x ∷ old) × Leaves x w u)

works_Holds :
    (sys : Sys) (i : ℕ) (r : Round) (w u : WorkerThread) (s : Scheduler) (given : List Task)
    → get_elem? s.workers i ≡ some w
    → round sys r w ≡ ok u
    → (h : Holds s given)
    → (g : Holds (record s { workers = set s.workers i u }) given) × Follows w u h.over g.over
works_Holds sys i r w u s given at e h =
    let right = All-get_elem? Counted s.workers i w h.counted.each at in
    let (counted, _) = OnOk-ok (Goes w) _ u e (round-Goes sys r w right) in
    let all : IsCounted (record s { workers = set s.workers i u }) = record {
      queue = h.counted.queue;
      each = All-set Counted s.workers i u h.counted.each counted;
    } in
    let changed = λ (p : Task → Bool). tally-set p s.workers i w u at in
    let new = λ (p : Task → Bool). tally-append p s.tasks (tasks_of_all (set s.workers i u)) in
    let old = λ (p : Task → Bool). tally-append p s.tasks (tasks_of_all s.workers) in
    elim (OnOk-ok (KeepsTasks w) _ u e (round_tasks sys r w)) [
      | inl same ↦ (
        record {
          counted = all;
          few = h.few;
          over = h.over;
          kept = λ p. omega (arith, h.kept p, changed p, new p, old p, same p);
        },
        inl (same, refl),
      )
      | inr (x, (less, done)) ↦ (
        record {
          counted = all;
          few = h.few;
          over = x ∷ h.over;
          kept = λ p. omega (arith, h.kept p, changed p, new p, old p, less p);
        },
        inr (x, refl, (less, done)),
      )
    ]

Reach-Holds :
    (sys : Sys) (s : Scheduler) (k : ℕ) (given : List Task) (reached : Reach sys s k given)
    → (h : Holds s given) × TakenOut sys reached h.over
unfolding stop
Reach-Holds sys s k given (begins n e) = begins_Holds sys n s e
Reach-Holds sys u k given (submits lo x t r before e) =
    let (h, o) = Reach-Holds sys _ k _ before in
    let (g, eq) = submits_Holds sys lo x _ u t r _ e h in
    (g, subst (TakenOut sys before) (sym eq) o)
Reach-Holds sys _ _ given (allocs {s = s} {k = k} before) =
    let (h, o) = Reach-Holds sys s k given before in
    (
      record {
        counted = (alloc_round-IsCounted k s h.counted).0;
        few = omega (arith, h.few, alloc_round_shorter k s h.counted);
        over = h.over;
        kept = λ p. omega (arith, h.kept p, alloc_round_tasks k s p);
      },
      o,
    )
Reach-Holds sys _ k given (works i r w u before at e) =
    let (h, o) = Reach-Holds sys _ k given before in
    let (g, follows) = works_Holds sys i r w u _ given at e h in
    (
      g,
      elim follows [
        | inl (same, eq) ↦ inl (same, subst (TakenOut sys before) (sym eq) o)
        | inr (x, eq, leaves) ↦ inr (x, h.over, eq, leaves, o)
      ],
    )
Reach-Holds sys _ k given (stops before) =
    let (h, o) = Reach-Holds sys _ k given before in
    (
      record {
        counted = record { queue = h.counted.queue; each = h.counted.each };
        few = h.few;
        over = h.over;
        kept = h.kept;
      },
      o,
    )

pub Reach-bag :
    (sys : Sys) (s : Scheduler) (k : ℕ) (given : List Task) (reached : Reach sys s k given)
    → IsCounted s
      × (length s.tasks ≤ 10000)
      × ((over : List Task) × TakenOut sys reached over × (bag given ≡ bag (all_tasks s ++ over)))
Reach-bag sys s k given reached =
    let (h, o) = Reach-Holds sys s k given reached in
    (
      h.counted,
      h.few,
      (
        h.over,
        o,
        bag-eq given (all_tasks s ++ h.over)
            (λ p. omega (arith, h.kept p, tally-append p (all_tasks s) h.over)),
      ),
    )
