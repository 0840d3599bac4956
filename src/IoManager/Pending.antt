-- ===== src/IoManager/Pending.antt =====
-- The number of waiting events in sylar/iomanager.cpp is the number of bits set in the contexts.
use prozac.Prelude.{
  ℕ, ◌+◌, ◌^◌, ◌≤◌, ◌<◌, ◌≡◌, refl, sym, ap, ◌∙◌, Bool, true, false, not, ◌&&◌, Option, none, some,
  List, [], ◌∷◌, arith, leb, length, get_elem?, set, get_elem?-set_self, All-get_elem?, assert,
  OnOk, OnOk-any, OnOk->>=, if_intro,
}
use prozac.Fiber.Defs.{State, Thread, Sys, is_state}
use prozac.Fiber
use prozac.IoManager.{
  EventContext, FdContext, IoManager, World, EpollEvent, Poll, idle, read_event, write_event, meet,
  minus, join, any, trigger_event, trigger_if, add_event, get_context, put_context, reset_context,
  del_event, cancel_event, cancel_all, handle_event, handle_all, real_events, cover, less,
}
use prozac.Scheduler.{Scheduler}
use prozac.IoManager.Sides.{event_of, waits, Sided, Sided-cover, Sided-join, Sided-minus}
use prozac.IoManager.Reuse.{Fired, trigger_event-Fired, context_at-get_elem?}
use prozac.IoManager.Contexts.{bits, length-cover, cover_lem}
use prozac.IoManager.Steady.{
  IsSteady, bits-join, bits-minus, assert_free, one_more, one_less, events-put_context, any-waits,
}

abbrev pub Exact : IoManager × Thread × Bool → Type 0
Exact (n, u, done) = IsSteady n

abbrev unused : EventContext → Bool
unused x = not x.scheduler && (elim x.fiber as (λ _. Bool) [ none ↦ true | some a ↦ false ])

-- A successful `addEvent` counts one event more, a failed one none: the counter stays exact, for a
-- descriptor below 2 ^ 31, unless the call aborts.
pub add_event-IsSteady :
    (sys : Sys) (w : World) (r : Bool) (fd : ℕ) (cb : Option ℕ) (m : IoManager) (t : Thread)
    → IsSteady m
    → fd < 2 ^ 31
    → OnOk Exact (add_event sys w fd (event_of r) cb m t)
unfolding add_event
add_event-IsSteady sys w r fd cb m t v f =
    let cs = cover fd m.contexts in
    let (same, _, longer) = cover_lem fd m.contexts v.big in
    let size : (2 ≤ length cs) × (length cs ≤ 2 ^ 32) =
      (omega (arith, longer, v.big), length-cover fd m.contexts f v.small) in
    let cover' = Sided-cover fd m.contexts v.sided in
    if_intro (OnOk Exact) m.stopping _ _ (λ _. v)
      λ _.
        OnOk->>= (λ c. get_elem? cs fd ≡ some c) Exact _ _ (context_at-get_elem? (get_elem? cs fd))
          λ c at'.
            OnOk->>= (λ _. waits r c.events ≡ false) Exact
              (assert (not (any (meet c.events (event_of r))))) _ (assert_free r c.events)
              λ _ free.
                let c' : FdContext = record c { events = join c.events (event_of r) } in
                if_intro (OnOk Exact) w.ctl_ok _ _
                  (λ _. OnOk-any Exact (get_context (event_of r) c') _ λ x.
                    OnOk-any Exact (assert (unused x)) _ λ _.
                      OnOk-any Exact (assert w.has_scheduler) _ λ _.
                        OnOk-any Exact (Fiber.create_fiber sys cb 4096 t) _ λ q.
                          OnOk-any Exact (assert (is_state (q.1.fibers q.0).state State.init)) _
                            λ _.
                              let y : EventContext = record {
                                scheduler = true;
                                fiber = some q.0;
                              } in
                              one_more m v fd c (put_context (event_of r) y c')
                                (Sided-join r c y (All-get_elem? Sided cs fd c cover' at')
                                  (refl, q.0, refl))
                                cs same size cover' at'
                                (ap bits (events-put_context (event_of r) y c')
                                  ∙ bits-join r c.events free))
                  (λ _. record {
                    exact = v.exact ∙ sym same;
                    big = size.0;
                    small = size.1;
                    sided = cover';
                  })

-- An event that fires is one less.
fired_once :
    (m : IoManager) (v : IsSteady m) (r : Bool) (fd : ℕ) (c : FdContext)
    (q : FdContext × Scheduler × Thread)
    → get_elem? m.contexts fd ≡ some c
    → Fired r c q
    → IsSteady
        (record m { contexts = set m.contexts fd q.0; pending = less m.pending; sched = q.1 })
fired_once m v r fd c q at' (_, _, _, fewer, before, keeps) =
    let less' : bits q.0.events + 1 ≡ bits c.events =
      ap (λ e. bits e + 1) fewer ∙ bits-minus r c.events before in
    let v' =
      one_less m v fd c q.0 (keeps (All-get_elem? Sided m.contexts fd c v.sided at')) at' less' in
    record { exact = v'.exact; big = v'.big; small = v'.small; sided = v'.sided }

-- The counter is exact, and the context is the manager's for `fd`.
abbrev Steady : ℕ → FdContext × IoManager × Thread → Type 0
Steady fd (c, m, t) = IsSteady m × (get_elem? m.contexts fd ≡ some c)

trigger_if-IsSteady :
    (sys : Sys) (w : World) (b r : Bool) (fd : ℕ) (c : FdContext) (m : IoManager) (t : Thread)
    → IsSteady m
    → get_elem? m.contexts fd ≡ some c
    → OnOk (Steady fd) (trigger_if sys w b (event_of r) fd c m t)
unfolding trigger_if
trigger_if-IsSteady sys w b r fd c m t v at' =
    if_intro (OnOk (Steady fd)) b _ _
      (λ _.
        OnOk->>= (Fired r c) (Steady fd) (trigger_event sys w (event_of r) c m.sched t) _
          (trigger_event-Fired sys w r c m.sched t)
          λ q f. (fired_once m v r fd c q at' f, get_elem?-set_self m.contexts fd c q.0 at'))
      (λ _. (v, at'))

-- `cancelAll` takes each event that it fires off the counter once: the counter stays exact, if it was so
-- before and the call does not abort.
pub cancel_all-IsSteady :
    (sys : Sys) (w : World) (fd : ℕ) (m : IoManager) (t : Thread)
    → IsSteady m
    → OnOk Exact (cancel_all sys w fd m t)
unfolding cancel_all
cancel_all-IsSteady sys w fd m t v =
    if_intro (OnOk Exact) (leb (length m.contexts) fd) _ _ (λ _. v)
      λ _.
        OnOk->>= (λ c. get_elem? m.contexts fd ≡ some c) Exact _ _
          (context_at-get_elem? (get_elem? m.contexts fd))
          λ c at'.
            if_intro (OnOk Exact) (any c.events && w.ctl_ok) _ _
              (λ _.
                OnOk->>= (Steady fd) Exact (trigger_if sys w c.events.read read_event fd c m t) _
                  (trigger_if-IsSteady sys w c.events.read true fd c m t v at')
                  λ q k.
                    OnOk->>= (Steady fd) Exact
                      (trigger_if sys w q.0.events.write write_event fd q.0 q.1 q.2) _
                      (trigger_if-IsSteady sys w q.0.events.write false fd q.0 q.1 q.2 k.0 k.1)
                      λ p l. OnOk-any Exact (assert (not (any p.0.events))) _ λ _. l.0)
              (λ _. v)

abbrev pub Settled : IoManager × Thread → Type 0
Settled (m, t) = IsSteady m

handle_event-IsSteady :
    (sys : Sys) (w : World) (fd : ℕ) (v : EpollEvent) (m : IoManager) (t : Thread)
    → IsSteady m
    → OnOk Settled (handle_event sys w fd v m t)
unfolding handle_event
handle_event-IsSteady sys w fd v m t k =
    OnOk->>= (λ c. get_elem? m.contexts fd ≡ some c) Settled _ _
      (context_at-get_elem? (get_elem? m.contexts fd))
      λ c at'.
        if_intro (OnOk Settled) (any (meet c.events (real_events v c.events)) && w.ctl_ok) _ _
          (λ _.
            OnOk->>= (Steady fd) Settled
              (trigger_if sys w (real_events v c.events).read read_event fd c m t) _
              (trigger_if-IsSteady sys w (real_events v c.events).read true fd c m t k at')
              λ q l.
                OnOk->>= (Steady fd) Settled
                  (trigger_if sys w (real_events v c.events).write write_event fd q.0 q.1 q.2) _
                  (trigger_if-IsSteady sys w (real_events v c.events).write false fd q.0 q.1 q.2 l.0
                    l.1)
                  λ p h. h.0)
          (λ _. k)

-- `cancelEvent` takes an event that it fires off the counter.
pub cancel_event-IsSteady :
    (sys : Sys) (w : World) (r : Bool) (fd : ℕ) (m : IoManager) (t : Thread)
    → IsSteady m
    → OnOk Exact (cancel_event sys w fd (event_of r) m t)
unfolding cancel_event
cancel_event-IsSteady sys w r fd m t v =
    if_intro (OnOk Exact) (leb (length m.contexts) fd) _ _ (λ _. v)
      λ _.
        OnOk->>= (λ c. get_elem? m.contexts fd ≡ some c) Exact _ _
          (context_at-get_elem? (get_elem? m.contexts fd))
          λ c at'.
            if_intro (OnOk Exact) (any (meet c.events (event_of r)) && w.ctl_ok) _ _
              (λ _.
                OnOk->>= (Fired r c) Exact (trigger_event sys w (event_of r) c m.sched t) _
                  (trigger_event-Fired sys w r c m.sched t) λ q f. fired_once m v r fd c q at' f)
              (λ _. v)

-- `delEvent` takes an event that it removes off the counter.
pub del_event-IsSteady :
    (sys : Sys) (w : World) (r : Bool) (fd : ℕ) (m : IoManager) (t : Thread)
    → IsSteady m
    → OnOk Exact (del_event sys w fd (event_of r) m t)
unfolding del_event
del_event-IsSteady sys w r fd m t v =
    if_intro (OnOk Exact) (leb (length m.contexts) fd) _ _ (λ _. v)
      λ _.
        OnOk->>= (λ c. get_elem? m.contexts fd ≡ some c) Exact _ _
          (context_at-get_elem? (get_elem? m.contexts fd))
          λ c at'.
            if_intro (OnOk Exact) (any (meet c.events (event_of r)) && w.ctl_ok) _ _
              (λ h.
                let c' : FdContext = record c { events = minus c.events (event_of r) } in
                OnOk-any Exact (get_context (event_of r) c') _ λ x.
                  OnOk-any Exact (reset_context w x t) _ λ q.
                    let d = put_context (event_of r) q.0 c' in
                    let fewer : bits d.events + 1 ≡ bits c.events =
                      ap (λ e. bits e + 1) (events-put_context (event_of r) q.0 c')
                      ∙ bits-minus r c.events (any-waits r c.events w.ctl_ok h) in
                    let v' =
                      one_less m v fd c d
                        (Sided-minus r c q.0 (All-get_elem? Sided m.contexts fd c v.sided at')) at'
                        fewer in
                    record { exact = v'.exact; big = v'.big; small = v'.small; sided = v'.sided })
              (λ _. v)

-- Whatever epoll_wait reports, handling its events keeps the counter of waiting events exact, if it was
-- so before and no event aborts.
pub handle_all-IsSteady :
    (sys : Sys) (w : World) (vs : List (ℕ × EpollEvent)) (m : IoManager) (t : Thread)
    → IsSteady m
    → OnOk Settled (handle_all sys w vs m t)
unfolding handle_all
handle_all-IsSteady sys w [] m t k = k
handle_all-IsSteady sys w ((fd, v) ∷ vs) m t k =
    OnOk->>= Settled Settled (handle_event sys w fd v m t) _
      (handle_event-IsSteady sys w fd v m t k) λ q l. handle_all-IsSteady sys w vs q.0 q.1 l

-- So does the idle loop, however often it goes round.
pub idle-IsSteady :
    (sys : Sys) (ps : List Poll) (m : IoManager) (t : Thread)
    → IsSteady m
    → OnOk Settled (idle sys ps m t)
unfolding idle
idle-IsSteady sys [] m t k = k
idle-IsSteady sys (p ∷ ps) m t k =
    if_intro (OnOk Settled) (p.is_idle && not p.is_stop) _ _
      (λ _.
        OnOk->>= Settled Settled (handle_all sys p.world p.events m t) _
          (handle_all-IsSteady sys p.world p.events m t k) λ q l. idle-IsSteady sys ps q.0 q.1 l)
      (λ _. k)
