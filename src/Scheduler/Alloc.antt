-- ===== src/Scheduler/Alloc.antt =====
-- The allocating thread of sylar/scheduler.cpp and `submit`: no task is lost or counted twice.
use prozac.Prelude.{
  ℕ, zero, suc, ◌+◌, ◌≤◌, ◌≡◌, refl, sym, ap, ap₂, ◌∙◌, Bool, false, not, ◌&&◌, List, [], ◌∷◌, ◌++◌,
  arith, ltb, leb, ◌==◌, if◌then◌else◌, length, length-append, append_assoc, append-nil, All, ok,
  if_intro, inl, inr, ◌⊎◌, OnOk, OnOk-any, OnOk->>=, All-append,
}
use prozac.Fiber.Defs.{Thread, Sys}
use prozac.Fiber
use prozac.Scheduler.{
  Task, WorkerThread, Scheduler, give, give_at, alloc_round, submit, new_worker, new_workers, start,
}

-- The tasks that a worker has.
abbrev pub held : WorkerThread → ℕ
held w = length w.t_init + length w.t_ready + length w.t_sleep + length w.t_hold

abbrev pub held_by : List WorkerThread → ℕ
held_by [] = 0
held_by (w ∷ ws) = held w + held_by ws

-- Every counter says how many tasks there are.
abbrev pub Counted : WorkerThread → Type 0
Counted w = w.count ≡ held w

pub record IsCounted (s : Scheduler) : Type 0 where
  pub queue : s.count ≡ length s.tasks
  pub each : All Counted s.workers

pub refit :
    (w : WorkerThread) (c d : ℕ) (xs ys : List Task)
    → c ≡ d
    → xs ≡ ys
    → record w { t_init = xs; count = c } ≡ record w { t_init = ys; count = d }
refit w c d xs ys p q = ap₂ (λ (n : ℕ) (l : List Task). record w { t_init = l; count = n }) p q

-- A worker is given the tasks at the front of the queue, in order, up to the number asked for.
pub give_lem :
    (l : ℕ) (ts : List Task) (w : WorkerThread)
    → (moved : List Task) × (ts ≡ moved ++ (give l ts w).0)
      × ((give l ts w).1 ≡ record w { t_init = w.t_init ++ moved; count = w.count + length moved })
      × (length moved ≤ l)
      × ((length moved ≡ l) ⊎ ((give l ts w).0 ≡ []))
unfolding give
give_lem zero ts w =
    ([], refl, refit w _ _ _ _ (omega arith) (sym (append-nil w.t_init)), omega arith, inl refl)
give_lem (suc l) [] w =
    ([], refl, refit w _ _ _ _ (omega arith) (sym (append-nil w.t_init)), omega arith, inr refl)
give_lem (suc l) (x ∷ ts) w =
    let (moved, split, worker, few, full) =
      give_lem l ts (record w { t_init = w.t_init ++ x ∷ []; count = w.count + 1 }) in
    (
      x ∷ moved,
      ap (◌∷◌ x) split,
      worker ∙ refit w _ _ _ _ (omega arith) (append_assoc w.t_init (x ∷ []) moved),
      omega arith,
      elim full [ inl e ↦ inl (ap suc e) | inr e ↦ inr e ],
    )

give-count :
    (l : ℕ) (ts : List Task) (w : WorkerThread)
    → Counted w
    → Counted (give l ts w).1
      × (length (give l ts w).0 + held (give l ts w).1 ≡ length ts + held w)
      × (length (give l ts w).0 ≤ length ts)
give-count l ts w c =
    let (moved, split, worker, few, full) = give_lem l ts w in
    let parts : length ts ≡ length moved + length (give l ts w).0 =
      ap length split ∙ length-append moved (give l ts w).0 in
    let longer = length-append w.t_init moved in
    rw worker (omega (arith, longer, parts, c), omega (arith, longer, parts), omega (arith, parts))

-- Counters stay right, tasks stay in number, and the queue does not grow.
abbrev Kept : List Task → List WorkerThread → List WorkerThread × List Task → Type 0
Kept ts ws (ws', ts') =
    All Counted ws' × (length ts' + held_by ws' ≡ length ts + held_by ws) × (length ts' ≤ length ts)

pub give_at-count :
    (k : ℕ) (ts : List Task) (ws : List WorkerThread)
    → All Counted ws
    → Kept ts ws (give_at k ts ws)
unfolding give_at
give_at-count k ts [] c = (tt, refl, omega arith)
give_at-count zero ts (w ∷ ws) c =
    let (counted, same, fewer) = give-count 10 ts w c.0 in
    if_intro (Kept ts (w ∷ ws)) (ltb w.count 100000) _ _ (λ _. ((counted, c.1), omega arith, fewer))
      (λ _. (c, refl, omega arith))
give_at-count (suc k) ts (w ∷ ws) c =
    let (all, same, fewer) = give_at-count k ts ws c.1 in ((c.0, all), omega arith, fewer)

-- A round of the allocating thread keeps every counter right and every task somewhere: what leaves
-- the queue is with a worker.
pub alloc_round-IsCounted :
    (k : ℕ) (s : Scheduler)
    → IsCounted s
    → IsCounted (alloc_round k s).1
      × (length (alloc_round k s).1.tasks + held_by (alloc_round k s).1.workers
          ≡ length s.tasks + held_by s.workers)
unfolding alloc_round
alloc_round-IsCounted k s v =
    let n = length s.workers in
    let (counted, same, fewer) =
      give_at-count (if leb n k then 0 else k) s.tasks s.workers v.each in
    if_intro
      (λ (r : ℕ × Scheduler).
        IsCounted r.1
        × (length r.1.tasks + held_by r.1.workers ≡ length s.tasks + held_by s.workers))
      (n == 0) _ _ (λ _. (v, refl))
      (λ _. (record { queue = omega (arith, v.queue, fewer); each = counted }, same))

-- A submission to a scheduler that runs puts the task at the end of the queue while fewer than 10000
-- wait, and keeps the counters right.
pub submit-IsCounted :
    (sys : Sys) (last_owner : Bool) (x : Task) (s u : Scheduler) (t r : Thread)
    → IsCounted s
    → length s.tasks ≤ 10000
    → submit sys last_owner x s t ≡ ok (u, r)
    → IsCounted u
      × (length u.tasks ≤ 10000)
      × (u.tasks
          ≡ (if not s.stop && ltb (length s.tasks) 10000 then s.tasks ++ x ∷ [] else s.tasks))
unfolding submit
submit-IsCounted sys last_owner x s u t r v small e =
    let longer = length-append s.tasks (x ∷ []) in
    (
      record { queue = ground (arith, longer, v.queue); each = ground (arith, v.each) },
      ground (arith, longer),
      ground arith,
    )

abbrev Fresh : ℕ → List WorkerThread → Type 0
Fresh n ws = All Counted ws × (length ws ≡ n)

new_workers-Fresh : (sys : Sys) (n : ℕ) → OnOk (Fresh n) (new_workers sys n)
unfolding new_workers
new_workers-Fresh sys zero = (tt, refl)
new_workers-Fresh sys (suc n) =
    OnOk->>= Counted (Fresh (suc n)) (new_worker sys) _ (new_worker-Counted sys) λ w c.
      OnOk->>= (Fresh n) (Fresh (suc n)) (new_workers sys n) _ (new_workers-Fresh sys n)
        λ ws f. ((c, f.0), ap suc f.1)
  where
    new_worker-Counted : (sys : Sys) → OnOk Counted (new_worker sys)
    new_worker-Counted sys = OnOk-any Counted (Fiber.get_this sys Fiber.init) _ λ q. refl

abbrev pub Started : ℕ → Scheduler → Scheduler → Type 0
Started n s u =
    IsCounted u
    × (u.stop ≡ false)
    × (length u.workers ≡ (if s.stop then length s.workers + n else length s.workers))

-- Once started, a scheduler takes tasks and has so many workers more than before, even if it had
-- workers from an earlier start, or just as many if it was not stopped; its counters are right when
-- no task was counted before.
pub start-IsCounted :
    (sys : Sys) (n : ℕ) (s : Scheduler)
    → IsCounted s
    → s.count ≡ 0
    → OnOk (Started n s) (start sys n s)
unfolding start
start-IsCounted sys n s v empty =
    if_intro (OnOk (Started n s)) s.stop _ _
      (λ e. OnOk->>= (Fresh n) (Started n s) (new_workers sys n) _ (new_workers-Fresh sys n) λ ws f.
        (
          record { queue = empty; each = All-append Counted s.workers ws v.each f.0 },
          refl,
          ground (arith, e, length-append s.workers ws, f.1),
        ))
      (λ e. (v, e, ground (arith, e)))
