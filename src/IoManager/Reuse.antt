-- ===== src/IoManager/Reuse.antt =====
-- The fiber pointer that sylar/iomanager.cpp leaves in a context when an event fires, and the one that
-- it drops when an event is deleted.
use prozac.Prelude.{
  ℕ, ◌≡◌, refl, subst, ◌∙◌, Bool, true, false, ◌&&◌, ◌||◌, Option, none, some, arith, leb, ◌==◌,
  length, get_elem?, get_elem?-set_self, get_elem?-lt, OnOk, OnOk-any, OnOk->>=, Result, ok, err,
  assertion, null_deref, out_of_range, assert, if_intro,
}
use prozac.Fiber.Defs.{Thread, Sys, is_over}
use prozac.Fiber.Invariant.{IsValid, release_lem}
use prozac.Scheduler.{Scheduler, new_task, submit}
use prozac.IoManager.{
  FdContext, IoManager, World, read_event, write_event, meet, minus, any, trigger_event, add_event,
  del_event, cancel_event, handle_event, real_events, trigger_if, EpollEvent,
}
use prozac.IoManager.Sides.{event_of, side, waits, Sided, Sided-minus}

-- Deleting an event whose fiber nobody else holds destroys a fiber that never ran to its end, which
-- its destructor refuses: the call is a failed assertion.
pub del_event_aborts :
    (sys : Sys) (w : World) (r : Bool) (fd a b c : ℕ) (x : FdContext) (m : IoManager) (t : Thread)
    → IsValid b c t
    → get_elem? m.contexts fd ≡ some x
    → waits r x.events ≡ true
    → (side r x).fiber ≡ some a
    → (a == b) ≡ false
    → is_over (t.fibers a).state ≡ false
    → w.ctl_ok ≡ true
    → w.last_owner ≡ true
    → del_event sys w fd (event_of r) m t ≡ err assertion
unfolding del_event
del_event_aborts sys w true fd a b c x m t v at' waiting holds child alive ctl last =
    ground (arith, get_elem?-lt m.contexts fd x at', release_lem b c a t v)
del_event_aborts sys w false fd a b c x m t v at' waiting holds child alive ctl last =
    ground (arith, get_elem?-lt m.contexts fd x at', release_lem b c a t v)

pointer :
    (o : Option ℕ)
    → OnOk (λ a. o ≡ some a) (elim o as (λ _. Result ℕ) [ none ↦ err null_deref | some a ↦ ok a ])
pointer none = tt
pointer (some a) = refl

asserts_first : (b c : Bool) → OnOk (λ _. b ≡ true) (assert ((b && true) || (c && false)))
asserts_first true c = refl
asserts_first false true = tt
asserts_first false false = tt

asserts_last : (b c : Bool) → OnOk (λ _. c ≡ true) (assert ((b && false) || (c && true)))
asserts_last true true = refl
asserts_last true false = tt
asserts_last false true = refl
asserts_last false false = tt

-- A context after its event has fired.
abbrev pub Fired : Bool → FdContext → FdContext × Scheduler × Thread → Type 0
Fired r x (y, s, t) =
    (a : ℕ) × ((side r y).fiber ≡ some a)
    × ((side r y).scheduler ≡ false)
    × (y.events ≡ minus x.events (event_of r))
    × (waits r x.events ≡ true)
    × (Sided x → Sided y)

pub trigger_event-Fired :
    (sys : Sys) (w : World) (r : Bool) (x : FdContext) (s : Scheduler) (t : Thread)
    → OnOk (Fired r x) (trigger_event sys w (event_of r) x s t)
unfolding trigger_event
trigger_event-Fired sys w true x s t =
    OnOk->>= (λ _. x.events.read ≡ true) (Fired true x) (assert (any (meet x.events read_event))) _
      (asserts_first x.events.read x.events.write)
      λ _ p. OnOk-any (Fired true x) (assert x.read.scheduler) _ λ _.
        OnOk->>= (λ a. x.read.fiber ≡ some a) (Fired true x) _ _ (pointer x.read.fiber)
          λ a q.
            OnOk-any (Fired true x) (submit sys false (new_task a none 5 w.now_us) s t) _
              λ _. (a, q, refl, refl, p, Sided-minus true x (record x.read { scheduler = false }))
trigger_event-Fired sys w false x s t =
    OnOk->>= (λ _. x.events.write ≡ true) (Fired false x) (assert (any (meet x.events write_event)))
      _ (asserts_last x.events.read x.events.write)
      λ _ p. OnOk-any (Fired false x) (assert x.write.scheduler) _ λ _.
        OnOk->>= (λ a. x.write.fiber ≡ some a) (Fired false x) _ _ (pointer x.write.fiber)
          λ a q.
            OnOk-any (Fired false x) (submit sys false (new_task a none 5 w.now_us) s t) _
              λ _. (a, q, refl, refl, p, Sided-minus false x (record x.write { scheduler = false }))

-- A context of the manager whose event has fired.
abbrev Spent : Bool → ℕ → IoManager → IoManager × Thread × Bool → Type 0
Spent r fd m (n, u, done) =
    done ≡ true
    → (y : FdContext) × (a : ℕ) × (get_elem? n.contexts fd ≡ some y)
      × ((side r y).fiber ≡ some a)
      × (n.stopping ≡ m.stopping)

pub context_at-get_elem? :
    (o : Option FdContext)
    → OnOk
        (λ c. o ≡ some c)
        (elim o as (λ _. Result FdContext) [ none ↦ err out_of_range | some c ↦ ok c ])
context_at-get_elem? none = tt
context_at-get_elem? (some c) = refl

cancel_event-Spent :
    (sys : Sys) (w : World) (r : Bool) (fd : ℕ) (m : IoManager) (t : Thread)
    → OnOk (Spent r fd m) (cancel_event sys w fd (event_of r) m t)
unfolding cancel_event
cancel_event-Spent sys w r fd m t =
    if_intro (OnOk (Spent r fd m)) (leb (length m.contexts) fd) _ _ (λ _ q. cc)
      λ _.
        OnOk->>= (λ c. get_elem? m.contexts fd ≡ some c) (Spent r fd m) _ _
          (context_at-get_elem? (get_elem? m.contexts fd))
          λ c at'.
            if_intro (OnOk (Spent r fd m)) (any (meet c.events (event_of r)) && w.ctl_ok) _ _
              (λ _.
                OnOk->>= (Fired r c) (Spent r fd m) (trigger_event sys w (event_of r) c m.sched t) _
                  (trigger_event-Fired sys w r c m.sched t)
                  (λ q f _. (q.0, f.0, get_elem?-set_self m.contexts fd c q.0 at', f.1, refl)))
              (λ _ q. cc)

add_event_spent :
    (sys : Sys) (v : World) (r : Bool) (fd a : ℕ) (cb : Option ℕ) (n : IoManager) (u : Thread)
    (y : FdContext)
    → n.stopping ≡ false
    → v.ctl_ok ≡ true
    → get_elem? n.contexts fd ≡ some y
    → (side r y).fiber ≡ some a
    → add_event sys v fd (event_of r) cb n u ≡ err assertion
unfolding add_event
add_event_spent sys v true fd a cb n u y open' ctl at' holds =
    ground (arith, get_elem?-lt n.contexts fd y at')
add_event_spent sys v false fd a cb n u y open' ctl at' holds =
    ground (arith, get_elem?-lt n.contexts fd y at')

-- On the state that a cancelled event leaves, `addEvent` of the same event on the same descriptor, when the
-- manager is not stopping and epoll_ctl succeeds, is a failed assertion, whatever the callback: the context
-- still points to the fiber of the event that fired.
pub add_event-cancel_event :
    (sys : Sys) (w v : World) (r : Bool) (fd : ℕ) (cb : Option ℕ) (m n : IoManager) (t u : Thread)
    → m.stopping ≡ false
    → v.ctl_ok ≡ true
    → cancel_event sys w fd (event_of r) m t ≡ ok (n, u, true)
    → add_event sys v fd (event_of r) cb n u ≡ err assertion
add_event-cancel_event sys w v r fd cb m n t u open' ctl e =
    let (y, a, at', holds, same) =
      subst (OnOk (Spent r fd m)) e (cancel_event-Spent sys w r fd m t) refl in
    add_event_spent sys v r fd a cb n u y (same ∙ open') ctl at' holds

-- READ is triggered whenever epoll reports it, also for a context that no longer waits to read: then,
-- with WRITE reported and waiting, the call is a failed assertion.
pub handle_event_stale :
    (sys : Sys) (w : World) (fd : ℕ) (v : EpollEvent) (c : FdContext) (m : IoManager) (t : Thread)
    → get_elem? m.contexts fd ≡ some c
    → v.input ≡ true
    → v.output ≡ true
    → c.events ≡ write_event
    → w.ctl_ok ≡ true
    → handle_event sys w fd v m t ≡ err assertion
unfolding handle_event real_events trigger_if trigger_event
handle_event_stale sys w fd v c m t at' input output waiting ctl = ground arith
