-- ===== src/Timer/Fire.antt =====
-- The loop of `TimerManager::listExpiredCb` of sylar/timer.cpp over the expired timers.
use prozac.Prelude.{
  ℕ, ◌≡◌, refl, ◌∙◌, false, ◌&&◌, ◌||◌, List, [], ◌∷◌, map, arith, contains, ◌==◌, update,
  if◌then◌else◌, if_intro, ◌+◌, ap, ap₂,
}
use prozac.Timer.{Timer, Manager, insert, null, u64, rearm, fire}
use prozac.Timer.Order.{IsSorted, contains_below, contains-insert, insert-IsSorted, update-IsSorted}

-- The timers of `xs` are distinct, and none of them is in `ts`.
abbrev pub Apart : List ℕ → List ℕ → Type 0
Apart [] ts = Unit {0}
Apart (a ∷ rest) ts = (contains a rest ≡ false) × (contains a ts ≡ false) × Apart rest ts

Apart-insert :
    (h : ℕ → Timer) (a : ℕ) (xs ts : List ℕ)
    → contains a xs ≡ false
    → Apart xs ts
    → Apart xs (insert h a ts)
Apart-insert h a [] ts p q = tt
Apart-insert h a (b ∷ rest) ts p q = (
  q.0,
  ground (arith, contains-insert h b a ts, q.1),
  Apart-insert h a rest ts (ground arith) q.2,
)

pub sorted-Apart : (h : ℕ → Timer) (xs : List ℕ) → IsSorted h xs → Apart xs []
sorted-Apart h [] s = tt
sorted-Apart h (a ∷ rest) s = (contains_below h a rest s.0, refl, sorted-Apart h rest s.1)

-- What becomes of a timer that fires.
abbrev pub fired : ℕ → Timer → Timer
fired now t = if t.recurring then record t { next = u64 (now + t.ms) } else record t { cb = null }

abbrev postponed : ℕ → ℕ → Manager → ℕ → Timer
postponed now a m = update m.heap a (record (m.heap a) { next = u64 (now + (m.heap a).ms) })

module _ (now a : ℕ) (m : Manager) where
  rearm_heap :
      (b : ℕ) → (rearm now a m).heap b ≡ (if b == a then fired now (m.heap a) else m.heap b)
  unfolding rearm
  rearm_heap b = ground arith

  contains-rearm :
      (b : ℕ)
      → contains b (rearm now a m).timers
        ≡ contains b m.timers || ((b == a) && (m.heap a).recurring)
  unfolding rearm
  contains-rearm b = ground (arith, contains-insert (postponed now a m) b a m.timers)

  rearm-Apart :
      (xs : List ℕ) → contains a xs ≡ false → Apart xs m.timers → Apart xs (rearm now a m).timers
  unfolding rearm
  rearm-Apart xs p q =
      if_intro (λ (n : Manager). Apart xs n.timers) (m.heap a).recurring _ _
        (λ _. Apart-insert (postponed now a m) a xs m.timers p q) (λ _. q)

  rearm-IsSorted :
      contains a m.timers ≡ false
      → IsSorted m.heap m.timers
      → IsSorted (rearm now a m).heap (rearm now a m).timers
  unfolding rearm
  rearm-IsSorted p s =
      if_intro (λ (n : Manager). IsSorted n.heap n.timers) (m.heap a).recurring _ _
        (λ _. insert-IsSorted (postponed now a m) a m.timers (
          update-IsSorted m.heap a (record (m.heap a) { next = u64 (now + (m.heap a).ms) }) m.timers
            p s))
        (λ _. update-IsSorted m.heap a (record (m.heap a) { cb = null }) m.timers p s)

map_cb-rearm :
    (now a : ℕ) (m : Manager) (xs : List ℕ)
    → contains a xs ≡ false
    → map (λ b. ((rearm now a m).heap b).cb) xs ≡ map (λ b. (m.heap b).cb) xs
map_cb-rearm now a m [] p = refl
map_cb-rearm now a m (b ∷ rest) p =
    let same : ((rearm now a m).heap b).cb ≡ (m.heap b).cb = ground (arith, rearm_heap now a m b) in
    ap₂ ◌∷◌ same (map_cb-rearm now a m rest (ground arith))

pub fire-Sorted :
    (now : ℕ) (xs : List ℕ) (m : Manager)
    → Apart xs m.timers
    → IsSorted m.heap m.timers
    → IsSorted (fire now xs m).0.heap (fire now xs m).0.timers
unfolding fire
fire-Sorted now [] m p s = s
fire-Sorted now (a ∷ rest) m p s =
    fire-Sorted now rest (rearm now a m) (rearm-Apart now a m rest p.0 p.2)
      (rearm-IsSorted now a m p.1 s)

pub fire_heap :
    (now : ℕ) (xs : List ℕ) (m : Manager)
    → Apart xs m.timers
    → (b : ℕ)
    → (fire now xs m).0.heap b ≡ (if contains b xs then fired now (m.heap b) else m.heap b)
unfolding fire
fire_heap now [] m p b = refl
fire_heap now (a ∷ rest) m p b = ground (
  arith,
  fire_heap now rest (rearm now a m) (rearm-Apart now a m rest p.0 p.2) b,
  rearm_heap now a m b,
  p.0,
)

pub contains-fire :
    (now : ℕ) (xs : List ℕ) (m : Manager)
    → Apart xs m.timers
    → (b : ℕ)
    → contains b (fire now xs m).0.timers
      ≡ contains b m.timers || (contains b xs && (m.heap b).recurring)
unfolding fire
contains-fire now [] m p b = ground arith
contains-fire now (a ∷ rest) m p b = ground (
  arith,
  contains-fire now rest (rearm now a m) (rearm-Apart now a m rest p.0 p.2) b,
  rearm_heap now a m b,
  contains-rearm now a m b,
  p.0,
)

pub fire_callbacks :
    (now : ℕ) (xs : List ℕ) (m : Manager)
    → Apart xs m.timers
    → (fire now xs m).1 ≡ map (λ b. (m.heap b).cb) xs
unfolding fire
fire_callbacks now [] m p = refl
fire_callbacks now (a ∷ rest) m p = ap (◌∷◌ (m.heap a).cb) (
    fire_callbacks now rest (rearm now a m) (rearm-Apart now a m rest p.0 p.2)
    ∙ map_cb-rearm now a m rest p.0)

pub fire_tickled : (now : ℕ) (xs : List ℕ) (m : Manager) → (fire now xs m).0.tickled ≡ m.tickled
unfolding fire
fire_tickled now [] m = refl
fire_tickled now (a ∷ rest) m = ground (arith, fire_tickled now rest (rearm now a m))
