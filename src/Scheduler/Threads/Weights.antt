-- ===== src/Scheduler/Threads/Weights.antt =====
-- The threads that a scheduler of sylar/scheduler.cpp makes and ends, counted, in the loops over its workers.
use prozac.Prelude.{
  ℕ, zero, suc, ◌+◌, ◌≡◌, refl, Bool, true, false, Option, none, some, List, [], ◌∷◌, ◌++◌, arith,
  if◌then◌else◌, or_throw, Gives, Gives->>=,
}
use prozac.Thread.{
  Thread, Release, new_thread, wait, run, run_lines, run_line, notify, join, destroy,
}
use prozac.Scheduler.Threads.{
  Threads, Pthread, Act, acts_of, launch, new_woker_thread, start_wokers, let_go, let_all_go,
}

-- How many of the acts are of a kind.
abbrev pub weigh : (Act → ℕ) → List Act → ℕ
weigh f [] = 0
weigh f (x ∷ xs) = f x + weigh f xs

abbrev pub is_made : Act → ℕ
is_made Act.creates = 1
is_made (Act.ends r) = 0

abbrev pub is_joined : Act → ℕ
is_joined Act.creates = 0
is_joined (Act.ends Release.joined) = 1
is_joined (Act.ends Release.detached) = 0

abbrev pub is_detached : Act → ℕ
is_detached Act.creates = 0
is_detached (Act.ends Release.joined) = 0
is_detached (Act.ends Release.detached) = 1

pub weigh-append : (f : Act → ℕ) (xs ys : List Act) → weigh f (xs ++ ys) ≡ weigh f xs + weigh f ys
weigh-append f [] ys = omega arith
weigh-append f (x ∷ xs) ys = omega (arith, weigh-append f xs ys)

abbrev pub Weighs : ℕ → ℕ → List Act → Type 0
Weighs a b xs = (weigh is_made xs ≡ a) × (weigh is_joined xs ≡ b) × (weigh is_detached xs ≡ 0)

pub Weighs-append :
    (a b c d : ℕ) (xs ys : List Act)
    → Weighs a b xs
    → Weighs c d ys
    → Weighs (a + c) (b + d) (xs ++ ys)
Weighs-append a b c d xs ys (m, j, e) (m', j', e') = (
  omega (arith, weigh-append is_made xs ys, m, m'),
  omega (arith, weigh-append is_joined xs ys, j, j'),
  omega (arith, weigh-append is_detached xs ys, e, e'),
)

-- The threads whose handles are open.
abbrev pub open' : Thread → ℕ
open' t = if t.m_thread then 1 else 0

abbrev pub opens : List Thread → ℕ
opens [] = 0
opens (t ∷ ts) = open' t + opens ts

abbrev pub opens_of : Threads → ℕ
opens_of s = opens s.workers + elim s.alloc as (λ _. ℕ) [ none ↦ 0 | some a ↦ open' a ]

pub opens-append : (ts us : List Thread) → opens (ts ++ us) ≡ opens ts + opens us
opens-append [] us = omega arith
opens-append (t ∷ ts) us = omega (arith, opens-append ts us)

pub launch_lem :
    (b : Bool) (tid : ℕ) (name : List ℕ) → b ≡ true → Gives (λ t. open' t ≡ 1) (launch b tid name)
unfolding launch new_thread run run_lines run_line wait notify
launch_lem true tid name h = refl
launch_lem false tid name h = cc

module _ (p : Pthread) (creates : (i : ℕ) → p.creates i ≡ true) where
  pub start_wokers_lem :
      (name : List ℕ) (i n : ℕ) → Gives (λ q. Weighs (opens q.0) 0 q.1) (start_wokers p name i n)
  unfolding start_wokers new_woker_thread
  start_wokers_lem name i zero = (refl, refl, refl)
  start_wokers_lem name i (suc n) =
      Gives->>= (λ t. open' t ≡ 1) (λ q. Weighs (opens q.0) 0 q.1)
        (launch (p.creates i) (p.ids i) _) _ (launch_lem (p.creates i) (p.ids i) _ (creates i))
        λ t one.
          Gives->>= (λ q. Weighs (opens q.0) 0 q.1) (λ q. Weighs (opens q.0) 0 q.1)
            (start_wokers p name (i + 1) n) _ (start_wokers_lem name (i + 1) n)
            λ q k. (omega (arith, k.0, one), omega (arith, k.1), omega (arith, k.2))

pub join_lem :
    (b : Bool) (t : Thread)
    → b ≡ true
    → Gives (λ q. (open' q.0 ≡ 0) × Weighs 0 (open' t) (acts_of q.1)) (or_throw (join b t))
unfolding join acts_of
join_lem b t h = split t.m_thread refl
  where
    split :
        (o : Bool)
        → t.m_thread ≡ o
        → Gives (λ q. (open' q.0 ≡ 0) × Weighs 0 (open' t) (acts_of q.1)) (or_throw (join b t))
    split true e = rw (e, h) (refl, (refl, refl, refl))
    split false e = rw e (refl, (refl, refl, refl))

pub let_go_lem :
    (o : Option Thread) → (elim o as (λ _. ℕ) [ none ↦ 0 | some a ↦ open' a ]) ≡ 0 → let_go o ≡ []
unfolding let_go acts_of destroy
let_go_lem none h = refl
let_go_lem (some t) h = ground arith

pub let_all_go_lem : (ts : List Thread) → opens ts ≡ 0 → let_all_go ts ≡ []
unfolding let_all_go acts_of destroy
let_all_go_lem [] h = refl
let_all_go_lem (t ∷ ts) h = ground (arith, let_all_go_lem ts)
