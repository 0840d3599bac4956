-- ===== src/Scheduler/Moved.antt =====
-- What the fiber of one task does on the thread of a worker of sylar/scheduler.cpp: it moves on, and the
-- fibers of other tasks stay as they are.
use prozac.Prelude.{
  ℕ, ◌+◌, ◌≤◌, ◌≡◌, refl, subst, ◌∙◌, Bool, true, false, not, ◌&&◌, List, [], ◌∷◌, ◌++◌, arith, ltb,
  ◌==◌, ==_self, if◌then◌else◌, All, Gives, Gives->>=, Gives-mono, ok, ◌>>=◌,
}
use prozac.Fiber.Defs.{State, Thread, all_ok}
use prozac.Fiber
use prozac.Fiber.{returns, throws, outcome}
use prozac.Fiber.Table.{
  Method, starts, resumes, yields, sleeps, awakes, call, call-table, after, for_main, admits,
  target, next,
}
use prozac.Fiber.Invariant.{
  IsValid, call-IsValid, is_stop, main_func_lem, main_func-IsValid, finished,
}
use prozac.Scheduler.Bag.{tally, tally-append}
use prozac.Scheduler.{Task, Turn, take_turn}

abbrev pub is_fiber : ℕ → Task → Bool
is_fiber a x = x.fiber == a

-- The fiber of a task is a child of the main fiber `b`, in the state `s`, with a callback.
abbrev pub Fit : State → ℕ → Thread → Task → Type 0
Fit s b t x =
    ((x.fiber == b) ≡ false)
    × (ltb x.fiber t.fresh ≡ true)
    × ((t.fibers x.fiber).state ≡ s)
    × (outcome (t.fibers x.fiber).cb returns ≡ returns)

-- Only the fibers of some tasks have changed.
abbrev pub Only : List Task → Thread → Thread → Type 0
Only xs t u = (u.fresh ≡ t.fresh) × ((a : ℕ) → tally (is_fiber a) xs ≡ 0 → u.fibers a ≡ t.fibers a)

-- No fiber twice in two lists of tasks.
abbrev pub Apart : List Task → List Task → Type 0
Apart xs ys = (a : ℕ) → tally (is_fiber a) xs + tally (is_fiber a) ys ≤ 1

-- The fibers of tasks that are not among those that have changed.
pub Only-Fit :
    (s : State) (b : ℕ) (xs ys : List Task) (t u : Thread)
    → Only xs t u
    → Apart xs ys
    → All (Fit s b t) ys
    → All (Fit s b u) ys
Only-Fit s b xs [] t u o d h = tt
Only-Fit s b xs (y ∷ ys) t u o d (h, hs) =
    let here : tally (is_fiber y.fiber) xs ≡ 0 = grind (arith, d y.fiber, ==_self y.fiber) in
    let same = o.1 y.fiber here in
    (
      (h.0, rw o.0 h.1, rw same h.2, rw same h.3),
      Only-Fit s b xs ys t u o (λ a. omega (arith, d a)) hs,
    )

pub Only-refl : (t : Thread) → Only [] t t
Only-refl t = (refl, λ a h. refl)

pub Only-trans :
    (xs ys : List Task) (t u v : Thread) → Only xs t u → Only ys u v → Only (xs ++ ys) t v
Only-trans xs ys t u v o p = (
  p.0 ∙ o.0,
  λ a none'.
      let split = tally-append (is_fiber a) xs ys in
      p.1 a (omega (arith, split, none')) ∙ o.1 a (omega (arith, split, none')),
)

-- What a method has done to the fiber `a` and to the others.
abbrev MovedBy : Method → ℕ → Thread → Thread → Type 0
MovedBy f a t u =
    (u.fresh ≡ t.fresh)
    × ((y : ℕ) → (y == a) ≡ false → u.fibers y ≡ t.fibers y)
    × ((u.fibers a).state ≡ target f)
    × ((u.fibers a).cb ≡ (t.fibers a).cb)

call-MovedBy :
    (f : Method) (b c a now ms : ℕ) (t : Thread)
    → IsValid b c t
    → (a == b) ≡ false
    → ltb a t.fresh ≡ true
    → is_stop f && not (a == c) ≡ false
    → (if for_main f then c == b else not (c == b)) ≡ true
    → admits f (t.fibers a).state ≡ true
    → Gives (λ u. IsValid b (next f a b c) u × MovedBy f a t u) (call f all_ok a now ms t)
unfolding after
call-MovedBy f b c a now ms t v child made own may adm =
    let e : call f all_ok a now ms t ≡ ok (after f a b c now ms t) =
      call-table f all_ok b c t v.running a now ms ∙ grind (arith, may, adm) in
    rw e (
      call-IsValid f all_ok b c t (after f a b c now ms t) a now ms v child made own e,
      (refl, (λ y other. ground (arith, other)), ground arith, ground arith),
    )

MovedBy-Only : (f : Method) (x : Task) (t u : Thread) → MovedBy f x.fiber t u → Only (x ∷ []) t u
MovedBy-Only f x t u m = (m.0, λ a none'. m.1 a (grind (arith, none')))

MovedBy-Fit :
    (f : Method) (s : State) (b : ℕ) (x : Task) (t u : Thread)
    → MovedBy f x.fiber t u
    → Fit s b t x
    → Fit (target f) b u x
MovedBy-Fit f s b x t u m h = (h.0, rw m.0 h.1, m.2, rw m.3 h.3)

-- The fiber of one task has gone from one state to another; the main fiber runs.
abbrev pub Goes : State → ℕ → Task → Thread → Thread → Type 0
Goes s b x t u = IsValid b b u × Only (x ∷ []) t u × Fit s b u x

by_main :
    (f : Method) (s : State) (b : ℕ) (x : Task) (t : Thread)
    → IsValid b b t
    → Fit s b t x
    → is_stop f ≡ false
    → for_main f ≡ true
    → admits f s ≡ true
    → next f x.fiber b b ≡ b
    → Gives (Goes (target f) b x t) (call f all_ok x.fiber 0 0 t)
by_main f s b x t v h own main adm back =
    Gives-mono (λ u. IsValid b (next f x.fiber b b) u × MovedBy f x.fiber t u)
      (Goes (target f) b x t) (call f all_ok x.fiber 0 0 t)
      (call-MovedBy f b b x.fiber 0 0 t v h.0 h.1 (grind (arith, own))
        (grind (arith, main, ==_self b)) (rw h.2 adm))
      λ u (w, m).
        (subst (λ c. IsValid b c u) back w, MovedBy-Only f x t u m, MovedBy-Fit f s b x t u m h)

pub start-Goes :
    (b : ℕ) (x : Task) (t : Thread)
    → IsValid b b t
    → Fit State.init b t x
    → Gives (Goes State.ready b x t) (Fiber.start all_ok x.fiber t)
unfolding call
start-Goes b x t v h = by_main starts State.init b x t v h refl refl refl refl

pub awake-Goes :
    (b : ℕ) (x : Task) (t : Thread)
    → IsValid b b t
    → Fit State.sleep b t x
    → Gives (Goes State.ready b x t) (Fiber.awake all_ok x.fiber t)
unfolding call
awake-Goes b x t v h = by_main awakes State.sleep b x t v h refl refl refl refl

-- A turn that neither holds the fiber nor throws.
abbrev pub Behaves : Turn → Type 0
Behaves Turn.holds = ⊥
Behaves Turn.fails = ⊥
Behaves _ = Unit

-- The state of a task's fiber after its turn.
abbrev pub Landed : Turn → ℕ → Thread → Task → Type 0
Landed Turn.yields b t x = Fit State.ready b t x
Landed (Turn.sleeps ms) b t x = Fit State.sleep b t x
Landed Turn.holds b t x = Fit State.hold b t x
Landed _ b t x = (t.fibers x.fiber).state ≡ State.destroy

abbrev pub Turned : Turn → ℕ → Task → Thread → Thread → Type 0
Turned turn b x t u = IsValid b b u × Only (x ∷ []) t u × Landed turn b u x

take_turn-Turned :
    (turn : Turn) (b now : ℕ) (x : Task) (t : Thread)
    → IsValid b x.fiber t
    → Fit State.exec b t x
    → Behaves turn
    → Gives (Turned turn b x t) (take_turn all_ok x.fiber now turn t)
unfolding take_turn call
take_turn-Turned Turn.yields b now x t v h g =
    Gives-mono _ (Turned Turn.yields b x t) (call yields all_ok x.fiber now 0 t)
      (call-MovedBy yields b x.fiber x.fiber now 0 t v h.0 h.1 refl (grind (arith, h.0))
        (rw h.2 refl))
      λ u (w, m). (w, MovedBy-Only yields x t u m, MovedBy-Fit yields State.exec b x t u m h)
take_turn-Turned (Turn.sleeps ms) b now x t v h g =
    Gives-mono _ (Turned (Turn.sleeps ms) b x t) (call sleeps all_ok x.fiber now ms t)
      (call-MovedBy sleeps b x.fiber x.fiber now ms t v h.0 h.1 refl (grind (arith, h.0))
        (rw h.2 refl))
      λ u (w, m). (w, MovedBy-Only sleeps x t u m, MovedBy-Fit sleeps State.exec b x t u m h)
take_turn-Turned Turn.finishes b now x t v h g =
    let e : Fiber.main_func all_ok returns t ≡ ok (finished b x.fiber t) =
      main_func_lem all_ok returns b x.fiber t v h.0 ∙ rw h.3 refl in
    rw e (
      main_func-IsValid all_ok returns b x.fiber t (finished b x.fiber t) v h.0 e,
      (refl, λ a none'. grind (arith, none')),
      ground arith,
    )
take_turn-Turned Turn.holds b now x t v h g = absurd g
take_turn-Turned Turn.fails b now x t v h g = absurd g

-- A fiber that is ready runs until it comes back.
pub resume-Turned :
    (turn : Turn) (b now : ℕ) (x : Task) (t : Thread)
    → IsValid b b t
    → Fit State.ready b t x
    → Behaves turn
    → Gives
        (Turned turn b x t)
        (Fiber.resume all_ok x.fiber t >>= λ u. take_turn all_ok x.fiber now turn u)
unfolding call
resume-Turned turn b now x t v h g =
    Gives->>= (λ u. IsValid b x.fiber u × MovedBy resumes x.fiber t u) (Turned turn b x t)
      (call resumes all_ok x.fiber 0 0 t) _
      (call-MovedBy resumes b b x.fiber 0 0 t v h.0 h.1 refl (grind (arith, ==_self b))
        (rw h.2 refl))
      λ u (w, m).
        let o = MovedBy-Only resumes x t u m in
        Gives-mono (Turned turn b x u) (Turned turn b x t) (take_turn all_ok x.fiber now turn u)
          (take_turn-Turned turn b now x u w (MovedBy-Fit resumes State.ready b x t u m h) g)
          λ z (y, p, l). (y, (p.0 ∙ o.0, λ a none'. p.1 a none' ∙ o.1 a none'), l)
