-- ===== src/IoManager/Reports.antt =====
-- What sylar/iomanager.cpp does with an event that epoll_wait reports of a context that waits for it.
use prozac.Prelude.{
  ℕ, ◌+◌, ◌%◌, ◌^◌, ◌≤◌, ◌<◌, ◌≡◌, refl, sym, ap, subst, ◌∙◌, Bool, true, false, not, ◌&&◌, Option,
  none, some, [], ◌∷◌, ◌++◌, arith, length, length-append, get_elem?, All-get_elem?, if◌then◌else◌,
  Gives, Gives->>=, Gives-eq, Result, ok, err, out_of_range, ◌>>=◌,
}
use prozac.Fiber.Defs.{Thread, Sys}
use prozac.Scheduler.{Scheduler, new_task, submit}
use prozac.Scheduler.Handing.{submit_queued}
use prozac.IoManager.{
  Events, FdContext, IoManager, World, EpollEvent, any, meet, less, read_event, write_event,
  real_events, trigger_event, trigger_if, handle_event, get_context, put_context,
}
use prozac.IoManager.Sides.{event_of, side, waits, Sided, Sided-minus}
use prozac.IoManager.Contexts.{one, bits, bits_le-waiting}
use prozac.IoManager.Steady.{IsSteady-ranged}
use prozac.IoManager.Reach.{Reach, Reach-IsSteady}
use prozac.IoManager.Fires.{spent, fired_at}

-- The scheduler with a task for the fiber `a`.
abbrev queued : ℕ → World → Scheduler → Scheduler
queued a w s = record s {
  tasks = s.tasks ++ new_task a none 5 w.now_us ∷ [];
  count = (s.count + 1) % 2 ^ 64;
}

trigger_if-fires :
    (sys : Sys) (w : World) (r : Bool) (fd a : ℕ) (c : FdContext) (m : IoManager) (t : Thread)
    → waits r c.events ≡ true
    → (side r c).scheduler ≡ true
    → (side r c).fiber ≡ some a
    → submit sys false (new_task a none 5 w.now_us) m.sched t ≡ ok (queued a w m.sched, t)
    → trigger_if sys w true (event_of r) fd c m t
      ≡ ok (spent r c, fired_at fd r c m (queued a w m.sched), t)
unfolding trigger_if trigger_event get_context put_context
trigger_if-fires sys w true fd a c m t waiting held fiber e = ground arith
trigger_if-fires sys w false fd a c m t waiting held fiber e = ground arith

-- The other side waits as before; a task more is queued, if the event fires.
abbrev Well : Bool → Bool → FdContext → IoManager → Thread → FdContext × IoManager × Thread → Type 0
Well b r c m t (d, n, u) =
    (u ≡ t)
    × Sided d
    × (waits (not r) d.events ≡ waits (not r) c.events)
    × (length n.sched.tasks ≡ length m.sched.tasks + one b)
    × (n.sched.stop ≡ m.sched.stop)
    × (n.pending ≡ (if b then less m.pending else m.pending))

other_side : (r : Bool) (c : FdContext) → waits (not r) (spent r c).events ≡ waits (not r) c.events
unfolding put_context
other_side true c = ground arith
other_side false c = ground arith

idles :
    (sys : Sys) (w : World) (e : Events) (fd : ℕ) (c : FdContext) (m : IoManager) (t : Thread)
    → trigger_if sys w false e fd c m t ≡ ok (c, m, t)
unfolding trigger_if
idles sys w e fd c m t = refl

trigger_if-Well :
    (sys : Sys) (w : World) (b r : Bool) (fd : ℕ) (c : FdContext) (m : IoManager) (t : Thread)
    → (b ≡ true → waits r c.events ≡ true)
    → Sided c
    → m.sched.stop ≡ false
    → length m.sched.tasks < 10000
    → Gives (Well b r c m t) (trigger_if sys w b (event_of r) fd c m t)
trigger_if-Well sys w true r fd c m t waiting s runs room =
    let (held, a, fiber) = s r (waiting refl) in
    let x = new_task a none 5 w.now_us in
    rw
      (trigger_if-fires sys w r fd a c m t (waiting refl) held fiber
        (submit_queued sys false x m.sched t runs room))
      (
        refl,
        Sided-minus r c (record (side r c) { scheduler = false }) s,
        other_side r c,
        omega (arith, length-append m.sched.tasks (x ∷ [])),
        refl,
        refl,
      )
trigger_if-Well sys w false r fd c m t waiting s runs room =
    rw (idles sys w (event_of r) fd c m t) (refl, s, refl, omega arith, refl, refl)

context_at-Gives :
    (o : Option FdContext) (c : FdContext)
    → o ≡ some c
    → Gives
        (λ x. x ≡ c)
        (elim o as (λ _. Result FdContext) [ none ↦ err out_of_range | some x ↦ ok x ])
context_at-Gives none c e = cc
context_at-Gives (some x) c e = cc

-- The events in `e` are submitted and counted off.
abbrev Reported : Events → IoManager → Thread → IoManager × Thread → Type 0
Reported e m t (n, u) =
    (u ≡ t)
    × (length n.sched.tasks ≡ length m.sched.tasks + bits e)
    × (n.pending + bits e ≡ m.pending)

one_mono : (a b : Bool) → (a ≡ true → b ≡ true) → one a ≤ one b
one_mono true b f = rw (f refl) (omega arith)
one_mono false b f = omega arith

bits_mono : (d e : Events) → ((r : Bool) → waits r d ≡ true → waits r e ≡ true) → bits d ≤ bits e
bits_mono d e h = omega (arith, one_mono d.read e.read (h true), one_mono d.write e.write (h false))

counted_off :
    (a b : Bool) (p : ℕ)
    → one a + one b ≤ p
    → p ≤ 2 ^ 33
    → (if b then less (if a then less p else p) else (if a then less p else p)) + (one a + one b)
      ≡ p
counted_off true true p h l = omega arith
counted_off true false p h l = omega arith
counted_off false true p h l = omega arith
counted_off false false p h l = omega arith

reports_both :
    (sys : Sys) (w : World) (fd : ℕ) (e : Events) (c : FdContext) (m : IoManager) (t : Thread)
    → ((r : Bool) → waits r e ≡ true → waits r c.events ≡ true)
    → Sided c
    → bits c.events ≤ m.pending
    → m.pending ≤ 2 ^ 33
    → m.sched.stop ≡ false
    → length m.sched.tasks + 2 ≤ 10000
    → Gives (Reported e m t) (
        trigger_if sys w e.read read_event fd c m t >>= λ q.
        trigger_if sys w e.write write_event fd q.0 q.1 q.2 >>= λ p. ok (p.1, p.2))
reports_both sys w fd e c m t asked s counted below runs room =
    Gives->>= (Well e.read true c m t) (Reported e m t)
      (trigger_if sys w e.read read_event fd c m t) _
      (trigger_if-Well sys w e.read true fd c m t (asked true) s runs (omega arith))
      λ q first.
        let (same, s', stays, longer, runs', fewer) = first in
        let one_le : one e.read ≤ 1 = ground arith in
        Gives->>= (Well e.write false q.0 q.1 q.2) (Reported e m t)
          (trigger_if sys w e.write write_event fd q.0 q.1 q.2) _
          (trigger_if-Well sys w e.write false fd q.0 q.1 q.2 (λ h. stays ∙ asked false h) s'
            (runs' ∙ runs) (omega (arith, longer, one_le)))
          λ p second. (
            second.0 ∙ same,
            omega (arith, second.3, longer),
            ap (λ y. y + bits e) (second.5 ∙ ap (λ y. if e.write then less y else y) fewer)
                ∙ counted_off e.read e.write m.pending
                    (omega (arith, bits_mono e c.events asked, counted)) below,
          )

reports :
    (sys : Sys) (w : World) (fd : ℕ) (v : EpollEvent) (c : FdContext) (m : IoManager) (t : Thread)
    → Reach sys m
    → get_elem? m.contexts fd ≡ some c
    → ((r : Bool) → waits r (real_events v c.events) ≡ true → waits r c.events ≡ true)
    → any (meet c.events (real_events v c.events)) && w.ctl_ok ≡ true
    → m.sched.stop ≡ false
    → length m.sched.tasks + 2 ≤ 10000
    → Gives (Reported (real_events v c.events) m t) (handle_event sys w fd v m t)
unfolding handle_event
reports sys w fd v c m t q at' asked fires runs room =
    let k = Reach-IsSteady sys m q in
    let real = real_events v c.events in
    let counted = bits_le-waiting m.contexts fd c at' in
    let below = IsSteady-ranged m k in
    Gives->>= (λ x. x ≡ c) (Reported real m t) _ _
      (context_at-Gives (get_elem? m.contexts fd) c at')
      λ x same.
        subst
          (λ x. Gives (Reported real m t) (
            if any (meet x.events (real_events v x.events)) && w.ctl_ok
            then (trigger_if sys w (real_events v x.events).read read_event fd x m t >>= λ q.
                trigger_if sys w (real_events v x.events).write write_event fd q.0 q.1 q.2 >>= λ p.
                ok (p.1, p.2))
            else ok (m, t)))
          (sym same)
          (rw fires (
            reports_both sys w fd real c m t asked (All-get_elem? Sided m.contexts fd c k.sided at')
              (omega (arith, counted, k.exact)) below runs room))

-- In every state that the manager comes to, when epoll_wait reports events of a descriptor, and the
-- events to trigger are ones that its context waits for, at least one, what `idle` does with them does
-- not abort: the scheduler's queue has as many tasks more as these are, the counter of waiting events
-- is as many lower, and the thread is as it was. The scheduler runs and has room for two tasks, and
-- epoll_ctl succeeds.
pub handle_event-submit :
    (sys : Sys) (w : World) (fd : ℕ) (v : EpollEvent) (c : FdContext) (m : IoManager) (t : Thread)
    → Reach sys m
    → get_elem? m.contexts fd ≡ some c
    → ((r : Bool) → waits r (real_events v c.events) ≡ true → waits r c.events ≡ true)
    → any (meet c.events (real_events v c.events)) && w.ctl_ok ≡ true
    → m.sched.stop ≡ false
    → length m.sched.tasks + 2 ≤ 10000
    → (n : IoManager) × (handle_event sys w fd v m t ≡ ok (n, t))
      × (length n.sched.tasks ≡ length m.sched.tasks + bits (real_events v c.events))
      × (n.pending + bits (real_events v c.events) ≡ m.pending)
handle_event-submit sys w fd v c m t q at' asked fires runs room =
    let given = reports sys w fd v c m t q at' asked fires runs room in
    let (x, e, k) =
      Gives-eq (Reported (real_events v c.events) m t) (handle_event sys w fd v m t) given in
    (x.0, e ∙ ap (λ u. ok (x.0, u)) k.0, k.1, k.2)
