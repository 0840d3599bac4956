-- ===== src/Timer/Expiry.antt =====
-- `TimerManager::listExpiredCb` and `getNextTimer` of sylar/timer.cpp against filters of the set.
use prozac.Prelude.{
  ℕ, ◌≡◌, refl, Bool, true, false, not, ◌&&◌, ◌||◌, List, [], ◌∷◌, map, arith, contains, Bool-cases,
  inl, inr, leb, ltb, if◌then◌else◌, All, ◌≤◌, ◌<◌, ◌+◌,
}
use prozac.Timer.{
  Timer, Manager, Callback, before, split_expired, skip_equal, fire, list_expired_cb,
  detect_clock_rollover, first_after, is_empty,
}
use prozac.Timer.Order.{IsSorted, before-le}
use prozac.Timer.Invariant.{IsValid}
use prozac.Timer.Fire.{
  Apart, sorted-Apart, fired, fire-Sorted, fire_heap, contains-fire, fire_callbacks, fire_tickled,
}

-- The timers whose time has come, and the others, each in the order of the set.
abbrev pub due : (ℕ → Timer) → ℕ → List ℕ → List ℕ
due h now [] = []
due h now (a ∷ rest) = if leb (h a).next now then a ∷ due h now rest else due h now rest

abbrev pub later : (ℕ → Timer) → ℕ → List ℕ → List ℕ
later h now [] = []
later h now (a ∷ rest) = if leb (h a).next now then later h now rest else a ∷ later h now rest

module _ (h : ℕ → Timer) (now : ℕ) where
  abbrev From : ℕ → List ℕ → Type 0
  From t = All (λ b. t ≤ (h b).next)

  From-before : (a : ℕ) (xs : List ℕ) → All (λ b. before h a b ≡ true) xs → From (h a).next xs
  From-before a [] s = tt
  From-before a (b ∷ rest) s = (before-le h a b s.0, From-before a rest s.1)

  From-le : (s t : ℕ) (xs : List ℕ) → s ≤ t → From t xs → From s xs
  From-le s t [] p f = tt
  From-le s t (b ∷ rest) p f = (omega (arith, f.0), From-le s t rest p f.1)

  none_due : (xs : List ℕ) → From (now + 1) xs → (due h now xs ≡ []) × (later h now xs ≡ xs)
  none_due [] f = (refl, refl)
  none_due (a ∷ rest) f =
      (ground (arith, none_due rest f.1, f.0), ground (arith, none_due rest f.1, f.0))

  skip_equal_lem :
      (xs : List ℕ)
      → IsSorted h xs
      → From now xs
      → skip_equal h now xs ≡ (due h now xs, later h now xs)
  unfolding skip_equal
  skip_equal_lem [] s f = refl
  skip_equal_lem (a ∷ rest) s f = ground (
    arith,
    skip_equal_lem rest s.1 f.1,
    none_due rest,
    From-le (now + 1) (h a).next rest,
    From-before a rest s.0,
    f.0,
  )

  -- In a set in order, the search for the first timer not before the present and the walk over those of the
  -- very moment take out just the timers whose time has come, and leave the others, each in the order of
  -- the set.
  pub split_expired_lem :
      (probe : ℕ) (xs : List ℕ)
      → IsSorted h xs
      → split_expired h now probe false xs ≡ (due h now xs, later h now xs)
  unfolding split_expired
  split_expired_lem probe [] s = refl
  split_expired_lem probe (a ∷ rest) s = ground (
    arith,
    split_expired_lem probe rest s.1,
    skip_equal_lem rest s.1,
    none_due rest,
    From-le (now + 1) (h a).next rest,
    From-le now (h a).next rest,
    From-before a rest s.0,
  )

  pub contains-due :
      (b : ℕ) (xs : List ℕ) → contains b (due h now xs) ≡ contains b xs && leb (h b).next now
  contains-due b [] = refl
  contains-due b (a ∷ rest) = ground (arith, contains-due b rest)

  contains-later :
      (b : ℕ) (xs : List ℕ) → contains b (later h now xs) ≡ contains b xs && ltb now (h b).next
  contains-later b [] = refl
  contains-later b (a ∷ rest) = ground (arith, contains-later b rest)

  All-later {κ} : (P : ℕ → Type κ) (xs : List ℕ) → All P xs → All P (later h now xs)
  All-later P [] p = tt
  All-later P (a ∷ rest) p = ground (arith, All-later P rest p.1)

  later-IsSorted : (xs : List ℕ) → IsSorted h xs → IsSorted h (later h now xs)
  later-IsSorted [] s = tt
  later-IsSorted (a ∷ rest) s =
      ground (arith, later-IsSorted rest s.1, All-later (λ b. before h a b ≡ true) rest s.0)

  due-Apart : (xs : List ℕ) → Apart xs [] → Apart (due h now xs) []
  due-Apart [] p = tt
  due-Apart (a ∷ rest) p = ground (arith, due-Apart rest p.2, contains-due a rest, p.0)

Apart-of :
    (xs ts : List ℕ)
    → Apart xs []
    → ((b : ℕ) → contains b xs ≡ true → contains b ts ≡ false)
    → Apart xs ts
Apart-of [] ts p q = tt
Apart-of (a ∷ rest) ts p q =
    (p.0, q a (ground arith), Apart-of rest ts p.2 (λ b e. q b (ground arith)))

-- The timers that a call takes out, and those it leaves.
abbrev pub taken : Bool → (ℕ → Timer) → ℕ → List ℕ → List ℕ
taken rollover h now xs = if rollover then xs else due h now xs

abbrev pub left : Bool → (ℕ → Timer) → ℕ → List ℕ → List ℕ
left rollover h now xs = if rollover then [] else later h now xs

module _ (m : Manager) (v : IsValid m) (now : ℕ) where
  taken-Apart : (r : Bool) → Apart (taken r m.heap now m.timers) (left r m.heap now m.timers)
  taken-Apart true = sorted-Apart m.heap m.timers v.sorted
  taken-Apart false =
      Apart-of _ _ (due-Apart m.heap now m.timers (sorted-Apart m.heap m.timers v.sorted)) (λ b e.
        ground (arith, contains-due m.heap now b m.timers, contains-later m.heap now b m.timers))

  left-IsSorted : (r : Bool) → IsSorted m.heap (left r m.heap now m.timers)
  left-IsSorted true = tt
  left-IsSorted false = later-IsSorted m.heap now m.timers v.sorted

  split_expired-taken :
      (probe : ℕ) (r : Bool)
      → split_expired m.heap now probe r m.timers
        ≡ (taken r m.heap now m.timers, left r m.heap now m.timers)
  unfolding split_expired
  split_expired-taken probe true = refl
  split_expired-taken probe false =
      unfold split_expired in split_expired_lem m.heap now probe m.timers v.sorted

  -- What the call does, with the early returns folded into one formula.
  expire : Bool → Manager → Manager × List Callback
  expire r m' =
      fire now (taken r m.heap now m.timers) (record m' { timers = left r m.heap now m.timers })

  first_after-taken :
      first_after m.heap now m.timers ≡ true
      → (taken false m.heap now m.timers ≡ []) × (left false m.heap now m.timers ≡ m.timers)
  first_after-taken = go m.timers v.sorted
    where
      go :
          (xs : List ℕ)
          → IsSorted m.heap xs
          → first_after m.heap now xs ≡ true
          → (due m.heap now xs ≡ []) × (later m.heap now xs ≡ xs)
      go [] s e = cc
      go (a ∷ rest) s e = none_due m.heap now (a ∷ rest) (
        ground arith,
        From-le m.heap now (now + 1) (m.heap a).next rest (ground arith)
            (From-before m.heap now a rest s.0),
      )

  empty-taken : (r : Bool) → is_empty m.timers ≡ true → taken r m.heap now m.timers ≡ []
  empty-taken r = go m.timers r
    where
      go : (xs : List ℕ) (r : Bool) → is_empty xs ≡ true → taken r m.heap now xs ≡ []
      go [] true e = refl
      go [] false e = refl
      go (a ∷ rest) r e = cc

  abbrev looked_at : Manager
  looked_at = record m { previouse_time = now }

  list_expired_cb-expire :
      (probe : ℕ)
      → is_empty m.timers ≡ false
      → list_expired_cb now probe m ≡ expire (detect_clock_rollover now m).1 looked_at
  unfolding list_expired_cb expire
  list_expired_cb-expire probe e =
      ground (arith, first_after-taken, split_expired-taken probe (detect_clock_rollover now m).1)

  -- The timers that the next call fires.
  abbrev pub expired : List ℕ
  expired = taken (detect_clock_rollover now m).1 m.heap now m.timers

  contains-left :
      (r : Bool) (b : ℕ)
      → contains b (left r m.heap now m.timers)
        ≡ contains b m.timers && not (contains b (taken r m.heap now m.timers))
  contains-left true b = ground arith
  contains-left false b =
      ground (arith, contains-due m.heap now b m.timers, contains-later m.heap now b m.timers)

  pub contains-taken :
      (r : Bool) (b : ℕ)
      → contains b (taken r m.heap now m.timers) ≡ true
      → contains b m.timers ≡ true
  contains-taken true b e = e
  contains-taken false b e = ground (arith, contains-due m.heap now b m.timers)

  pub not_taken_later :
      (r : Bool) (b : ℕ)
      → contains b m.timers ≡ true
      → contains b (taken r m.heap now m.timers) ≡ false
      → now < (m.heap b).next
  not_taken_later true b p q = cc
  not_taken_later false b p q = ground (arith, contains-due m.heap now b m.timers)

  -- The answer and the state after a call, read off one timer at a time.
  abbrev pub Fires : Bool → Manager × List Callback → Type 0
  Fires r (n, cbs) =
      IsValid n
      × (cbs ≡ map (λ b. (m.heap b).cb) (taken r m.heap now m.timers))
      × ((b : ℕ)
          → (contains b n.timers
              ≡ contains b m.timers
                && (not (contains b (taken r m.heap now m.timers)) || (m.heap b).recurring))
            × (n.heap b ≡ (
                if contains b (taken r m.heap now m.timers)
                then fired now (m.heap b)
                else m.heap b)))

  expire-Fires : (r : Bool) → Fires r (expire r looked_at)
  unfolding expire
  expire-Fires r =
      let apart = taken-Apart r in
      let xs = taken r m.heap now m.timers in
      let n : Manager = record looked_at { timers = left r m.heap now m.timers } in
      let kept = λ (b : ℕ). contains-fire now xs n apart b in
      let written = λ (b : ℕ). fire_heap now xs n apart b in
      (
        record {
          sorted = fire-Sorted now xs n apart (left-IsSorted r);
          live = λ b e.
              ground (arith, kept b, written b, v.live b, contains-left r b, contains-taken r b);
        },
        fire_callbacks now xs n apart,
        λ b. (ground (arith, kept b, contains-left r b, contains-taken r b), written b),
      )

  idle-Fires : (r : Bool) → is_empty m.timers ≡ true → Fires r (m, [])
  idle-Fires r e = rw (empty-taken r e) (v, refl, λ b. (ground arith, refl))

pub list_expired_cb-Fires :
    (m : Manager) (v : IsValid m) (now probe : ℕ)
    → Fires m v now (detect_clock_rollover now m).1 (list_expired_cb now probe m)
list_expired_cb-Fires m v now probe = elim (Bool-cases (is_empty m.timers)) [
  | inl e ↦
      unfold list_expired_cb in
      rw (e, list_expired_cb) (idle-Fires m v now (detect_clock_rollover now m).1 e)
  | inr e ↦
      rw (list_expired_cb-expire m v now probe e)
        (expire-Fires m v now (detect_clock_rollover now m).1)
]

pub list_expired_cb_tickled :
    (m : Manager) (v : IsValid m) (now probe : ℕ)
    → (list_expired_cb now probe m).0.tickled ≡ m.tickled
list_expired_cb_tickled m v now probe = elim (Bool-cases (is_empty m.timers)) [
  | inl e ↦ unfold list_expired_cb in rw (e, list_expired_cb) refl
  | inr e ↦ rw (list_expired_cb-expire m v now probe e) (unfold expire in fire_tickled now _ _)
]
