-- ===== src/IoManager/Reach.antt =====
-- The I/O manager of sylar/iomanager.cpp as a whole: calls, epoll events and the two parts of `stop`, in
-- any order.
use prozac.Prelude.{
  ℕ, ◌^◌, ◌<◌, ◌≡◌, refl, subst, Bool, true, false, Option, some, List, arith, get_elem?, [], OnOk,
  OnOk->>=, if_intro, Result, ok, ◌>>=◌, ◌==◌,
}
use prozac.Fiber.Defs.{Thread, Sys}
use prozac.Scheduler.{Scheduler}
use prozac.IoManager.{
  Events, FdContext, IoManager, World, EpollEvent, Poll, idle, any, add_event, del_event,
  cancel_event, cancel_all, handle_all, new_manager, context_resize, resize_from, fill, begin_stop,
  end_stop,
}
use prozac.IoManager.Sides.{event_of, Sided-resize_from}
use prozac.IoManager.Contexts.{bits, bits_le-waiting}
use prozac.IoManager.Steady.{IsSteady}
use prozac.IoManager.Pending.{
  Exact, Settled, add_event-IsSteady, del_event-IsSteady, cancel_event-IsSteady,
  cancel_all-IsSteady, idle-IsSteady, handle_all-IsSteady,
}

-- A call of the manager; the side true is READ.
pub data Call : Type 0 where
  adds : ℕ → Bool → Option ℕ → Call
  dels : ℕ → Bool → Call
  cancels : ℕ → Bool → Call
  cancels_all : ℕ → Call
  handles : List (ℕ × EpollEvent) → Call
  idles : List Poll → Call

-- The descriptor of `addEvent` is an `int`.
abbrev pub IsInt : Call → Type 0
IsInt (adds fd r cb) = fd < 2 ^ 31
IsInt (dels fd r) = Unit
IsInt (cancels fd r) = Unit
IsInt (cancels_all fd) = Unit
IsInt (handles vs) = Unit
IsInt (idles ps) = Unit

abbrev forget : IoManager × Thread × Bool → Result (IoManager × Thread)
forget (m, t, done) = ok (m, t)

abbrev pub call : Sys → World → Call → IoManager → Thread → Result (IoManager × Thread)
call sys w (adds fd r cb) m t = add_event sys w fd (event_of r) cb m t >>= forget
call sys w (dels fd r) m t = del_event sys w fd (event_of r) m t >>= forget
call sys w (cancels fd r) m t = cancel_event sys w fd (event_of r) m t >>= forget
call sys w (cancels_all fd) m t = cancel_all sys w fd m t >>= forget
call sys w (handles vs) m t = handle_all sys w vs m t
call sys w (idles ps) m t = idle sys ps m t

-- What a manager can come to. Each call is made by some thread; the scheduler goes on beside it.
pub data Reach (sys : Sys) : IoManager → Type 0 where
  begins : (s : Scheduler) → Reach sys (new_manager s)
  calls :
      {m n : IoManager} (w : World) (k : Call) (t u : Thread)
      → IsInt k
      → Reach sys m
      → call sys w k m t ≡ ok (n, u)
      → Reach sys n
  schedules : {m : IoManager} (s : Scheduler) → Reach sys m → Reach sys (record m { sched = s })
  begins_stop : {m : IoManager} → Reach sys m → Reach sys (begin_stop m)
  ends_stop : {m n : IoManager} → Reach sys m → end_stop m ≡ some n → Reach sys n

forgets : (r : Result (IoManager × Thread × Bool)) → OnOk Exact r → OnOk Settled (r >>= forget)
forgets r v = OnOk->>= Exact Settled r forget v λ q e. e

call-IsSteady :
    (sys : Sys) (w : World) (k : Call) (m : IoManager) (t : Thread)
    → IsInt k
    → IsSteady m
    → OnOk Settled (call sys w k m t)
call-IsSteady sys w (adds fd r cb) m t i v = forgets _ (add_event-IsSteady sys w r fd cb m t v i)
call-IsSteady sys w (dels fd r) m t i v = forgets _ (del_event-IsSteady sys w r fd m t v)
call-IsSteady sys w (cancels fd r) m t i v = forgets _ (cancel_event-IsSteady sys w r fd m t v)
call-IsSteady sys w (cancels_all fd) m t i v = forgets _ (cancel_all-IsSteady sys w fd m t v)
call-IsSteady sys w (handles vs) m t i v = handle_all-IsSteady sys w vs m t v
call-IsSteady sys w (idles ps) m t i v = idle-IsSteady sys ps m t v

new_manager-IsSteady : (s : Scheduler) → IsSteady (new_manager s)
unfolding new_manager context_resize resize_from fill
new_manager-IsSteady s = record {
  exact = refl;
  big = omega arith;
  small = omega arith;
  sided = Sided-resize_from 0 32 [] tt;
}

-- The wait of `stop` ends only with an exact counter, and then the number of events is 0.
ended : (m n : IoManager) → end_stop m ≡ some n → IsSteady m → IsSteady n × (n.pending ≡ 0)
unfolding end_stop
ended m n e v =
    if_intro (λ o. o ≡ some n → IsSteady n × (n.pending ≡ 0)) (m.pending == 0) _ _
      (λ z p.
        let stopped : IoManager = record m { sched = record m.sched { stop = true } } in
        let same : stopped ≡ n = cc in
        let empty : m.pending ≡ 0 = grind (arith, z) in
        let counted : IsSteady stopped = record {
          exact = v.exact;
          big = v.big;
          small = v.small;
          sided = v.sided;
        } in
        subst (λ x. IsSteady x × (x.pending ≡ 0)) same (counted, empty))
      (λ _ p. cc) e

-- In every state that the manager comes to, by whatever calls that do not abort, with descriptors below
-- 2 ^ 31, and whatever epoll reports and `stop` does between them, the counter of waiting events is the
-- number of events that wait in the contexts.
pub Reach-IsSteady : (sys : Sys) (m : IoManager) → Reach sys m → IsSteady m
unfolding begin_stop
Reach-IsSteady sys _ (begins s) = new_manager-IsSteady s
Reach-IsSteady sys n (calls {m} w k t u i q e) =
    subst (OnOk Settled) e (call-IsSteady sys w k m t i (Reach-IsSteady sys m q))
Reach-IsSteady sys _ (schedules {m} s q) =
    let v = Reach-IsSteady sys m q in
    record { exact = v.exact; big = v.big; small = v.small; sided = v.sided }
Reach-IsSteady sys _ (begins_stop {m} q) =
    let v = Reach-IsSteady sys m q in
    record { exact = v.exact; big = v.big; small = v.small; sided = v.sided }
Reach-IsSteady sys n (ends_stop {m} q e) = (ended m n e (Reach-IsSteady sys m q)).0

quiet : (e : Events) → bits e ≡ 0 → any e ≡ false
quiet e h = ground arith

-- `stop` waits for every event: when its wait ends, in a state that the manager comes to, no context has
-- an event that waits.
pub end_stop-quiet :
    (sys : Sys) (m n : IoManager) (fd : ℕ) (c : FdContext)
    → Reach sys m
    → end_stop m ≡ some n
    → get_elem? n.contexts fd ≡ some c
    → any c.events ≡ false
end_stop-quiet sys m n fd c q e at' =
    let (v, z) = ended m n e (Reach-IsSteady sys m q) in
    quiet c.events (omega (arith, v.exact, z, bits_le-waiting n.contexts fd c at'))
