-- ===== src/Thread/Start.antt =====
-- The start of a thread in sylar/thread.cpp: the wait of the constructor and the lines of the new thread,
-- in any order.
use prozac.Prelude.{
  ℕ, ◌≡◌, ◌≢◌, sym, subst, ap, ap₂, ◌∙◌, true, Option, none, some, List, [], ◌∷◌, arith, ◌⊎◌, inl,
  inr,
}
use prozac.Thread.{
  Thread, Local, Line, ids, titles, swaps, notifies, lines_of_run, no_local, run_line, new_thread,
  notify, wait, or_unknow, take,
}

-- Where the constructor and the new thread are: the lines that it has yet to run, and its variables. With no
-- line left it calls `cb`.
pub data Creator : Type 0 where
  waiting returned : Creator

pub data Child : Type 0 where
  running : List Line → Local → Child

pub record Both : Type 0 where
  pub thread : Thread
  pub creator : Creator
  pub child : Child

-- The next line of the new thread.
abbrev advance_at : ℕ → Both → Child → Both
advance_at tid s (running [] l) = s
advance_at tid s (running (n ∷ ns) l) = record s {
  thread = (run_line tid n s.thread l).0;
  child = running ns (run_line tid n s.thread l).1;
}

abbrev pub advance : ℕ → Both → Both
advance tid s = advance_at tid s s.child

-- The new thread has a line to run.
abbrev pub Busy : Child → Type 0
Busy (running [] l) = ⊥
Busy (running (n ∷ ns) l) = Unit

module _ (tid : ℕ) (cb : Option ℕ) (name : List ℕ) where
  -- What can come of a thread that was created.
  pub data Reach : Both → Type 0 where
    begins :
        {t : Thread}
        → new_thread true cb name ≡ some t
        → Reach (record { thread = t; creator = waiting; child = running lines_of_run no_local })
    runs : {s : Both} → Reach s → Reach (advance tid s)
    goes_on :
        {s : Both} {u : Thread}
        → Reach s
        → s.creator ≡ waiting
        → wait s.thread ≡ some u
        → Reach (record s { thread = u; creator = returned })

  abbrev object : Option ℕ → Option ℕ → ℕ → Thread
  object id f sem = record {
    m_thread = true;
    m_name = or_unknow name;
    m_id = id;
    m_cb = f;
    m_semaphore = sem;
  }

  abbrev local : List ℕ → List ℕ → Option ℕ → Local
  local own system f = record { this_thread_name = own; system_name = system; cb = f }

  abbrev own : List ℕ
  own = or_unknow name

  abbrev pub locals : Local
  locals = local own (take 15 own) cb

  abbrev both : Thread → Creator → List Line → Local → Both
  both t c ns l = record { thread = t; creator = c; child = running ns l }

  -- The states before each line, and those after the last.
  abbrev IsOneOf : Both → Type 0
  IsOneOf s =
      (s ≡ both (object none cb 0) waiting lines_of_run no_local)
      ⊎ (s
          ≡ both (object none cb 0) waiting (ids ∷ titles ∷ swaps ∷ notifies ∷ [])
              (local own [] none))
      ⊎ (s
          ≡ both (object (some tid) cb 0) waiting (titles ∷ swaps ∷ notifies ∷ [])
              (local own [] none))
      ⊎ (s
          ≡ both (object (some tid) cb 0) waiting (swaps ∷ notifies ∷ [])
              (local own (take 15 own) none))
      ⊎ (s ≡ both (object (some tid) none 0) waiting (notifies ∷ []) locals)
      ⊎ (s ≡ both (object (some tid) none 1) waiting [] locals)
      ⊎ (s ≡ both (object (some tid) none 0) returned [] locals)

  blocked : (t u : Thread) → t.m_semaphore ≡ 0 → wait t ≡ some u → ⊥
  unfolding wait
  blocked t u h e = absurd (ground arith)

  woken : (u : Thread) → wait (object (some tid) none 1) ≡ some u → u ≡ object (some tid) none 0
  unfolding wait
  woken u e = cc

  Reach-IsOneOf : (s : Both) → Reach s → IsOneOf s
  unfolding new_thread run_line notify wait
  Reach-IsOneOf s (begins e) = inl (ground arith)
  Reach-IsOneOf _ (runs {s} before) = elim (Reach-IsOneOf s before) [
    | inl e ↦ inr (inl (ap (advance tid) e))
    | inr (inl e) ↦ inr (inr (inl (ap (advance tid) e)))
    | inr (inr (inl e)) ↦ inr (inr (inr (inl (ap (advance tid) e))))
    | inr (inr (inr (inl e))) ↦ inr (inr (inr (inr (inl (ap (advance tid) e)))))
    | inr (inr (inr (inr (inl e)))) ↦ inr (inr (inr (inr (inr (inl (ap (advance tid) e))))))
    | inr (inr (inr (inr (inr (inl e))))) ↦ inr (inr (inr (inr (inr (inl (ap (advance tid) e))))))
    | inr (inr (inr (inr (inr (inr e))))) ↦ inr (inr (inr (inr (inr (inr (ap (advance tid) e))))))
  ]
  Reach-IsOneOf _ (goes_on {s} {u} before w e) = elim (Reach-IsOneOf s before) [
    | inl h ↦ absurd (blocked s.thread u (ap (λ x. x.thread.m_semaphore) h) e)
    | inr (inl h) ↦ absurd (blocked s.thread u (ap (λ x. x.thread.m_semaphore) h) e)
    | inr (inr (inl h)) ↦ absurd (blocked s.thread u (ap (λ x. x.thread.m_semaphore) h) e)
    | inr (inr (inr (inl h))) ↦ absurd (blocked s.thread u (ap (λ x. x.thread.m_semaphore) h) e)
    | inr (inr (inr (inr (inl h)))) ↦
        absurd (blocked s.thread u (ap (λ x. x.thread.m_semaphore) h) e)
    | inr (inr (inr (inr (inr (inl h))))) ↦ inr (
        inr (
          inr (
            inr (
              inr (
                inr (
                  ap₂
                    (λ (t : Thread) (k : Child).
                      let b : Both = record { thread = t; creator = returned; child = k } in b)
                    (woken u (sym (ap (λ x. wait x.thread) h) ∙ e)) (ap (λ x. x.child) h)))))))
    | inr (inr (inr (inr (inr (inr h))))) ↦ cc
  ]

  -- In every order of the lines of the new thread and the wait of the constructor: once the constructor has
  -- returned, the new thread has its id and its names, has taken the function to call out of the object, and
  -- has no line left before it calls it; and the two never both wait: while the constructor waits, the new
  -- thread has a line to run, or the wait ends.
  pub Reach-started :
      (s : Both)
      → Reach s
      → (s.creator ≡ returned
          → (s.thread.m_id ≡ some tid) × (s.thread.m_cb ≡ none) × (s.child ≡ running [] locals))
        × (s.creator ≡ waiting → Busy s.child ⊎ (wait s.thread ≢ none))
  unfolding wait
  Reach-started s reached = elim (Reach-IsOneOf s reached) [
    | inl h ↦ ((λ e. cc), λ e. inl (subst Busy (sym (ap (λ x. x.child) h)) tt))
    | inr (inl h) ↦ ((λ e. cc), λ e. inl (subst Busy (sym (ap (λ x. x.child) h)) tt))
    | inr (inr (inl h)) ↦ ((λ e. cc), λ e. inl (subst Busy (sym (ap (λ x. x.child) h)) tt))
    | inr (inr (inr (inl h))) ↦ ((λ e. cc), λ e. inl (subst Busy (sym (ap (λ x. x.child) h)) tt))
    | inr (inr (inr (inr (inl h)))) ↦
        ((λ e. cc), λ e. inl (subst Busy (sym (ap (λ x. x.child) h)) tt))
    | inr (inr (inr (inr (inr (inl h))))) ↦ ((λ e. cc), λ e. inr (λ k. ground arith))
    | inr (inr (inr (inr (inr (inr h))))) ↦ ((λ e. (cc, cc, cc)), λ e. cc)
  ]
