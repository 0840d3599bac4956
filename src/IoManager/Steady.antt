-- ===== src/IoManager/Steady.antt =====
-- The states of the I/O manager of sylar/iomanager.cpp that its calls keep, and a context with an event
-- more or less in them.
use prozac.Prelude.{
  ℕ, ◌+◌, ◌%◌, ◌^◌, ◌≤◌, ◌≡◌, refl, Bool, true, false, not, ◌&&◌, ◌||◌, some, List, arith, length,
  length-set, get_elem?, set, All, All-set, assert, OnOk,
}
use prozac.IoManager.{
  Events, EventContext, FdContext, IoManager, meet, minus, join, any, put_context, less,
}
use prozac.IoManager.Sides.{event_of, waits, Sided}
use prozac.IoManager.Contexts.{bits, waiting, waiting-set, waiting_le}

-- The counter is exact; there are 2 contexts or more, and as many as descriptors below 2 ^ 31 ask for;
-- each event that waits has a scheduler and a fiber.
pub record IsSteady (m : IoManager) : Type 0 where
  pub exact : m.pending ≡ waiting m.contexts
  pub big : 2 ≤ length m.contexts
  pub small : length m.contexts ≤ 2 ^ 32
  pub sided : All Sided m.contexts

-- The counter stays far below its limit.
pub IsSteady-ranged : (m : IoManager) → IsSteady m → m.pending ≤ 2 ^ 33
IsSteady-ranged m v = omega (arith, waiting_le m.contexts, v.exact, v.small)

pub bits-join :
    (r : Bool) (e : Events) → waits r e ≡ false → bits (join e (event_of r)) ≡ bits e + 1
bits-join true e h = ground arith
bits-join false e h = ground arith

pub bits-minus :
    (r : Bool) (e : Events) → waits r e ≡ true → bits (minus e (event_of r)) + 1 ≡ bits e
bits-minus true e h = ground arith
bits-minus false e h = ground arith

pub assert_free :
    (r : Bool) (e : Events)
    → OnOk (λ _. waits r e ≡ false) (assert (not (any (meet e (event_of r)))))
assert_free true e = free e.read e.write
  where
    free : (b c : Bool) → OnOk (λ _. b ≡ false) (assert (not ((b && true) || (c && false))))
    free true c = tt
    free false true = refl
    free false false = refl
assert_free false e = free e.read e.write
  where
    free : (b c : Bool) → OnOk (λ _. c ≡ false) (assert (not ((b && false) || (c && true))))
    free true true = tt
    free true false = refl
    free false true = tt
    free false false = refl

-- A context is replaced by one with an event more, or one less.
module _ (m : IoManager) (v : IsSteady m) (fd : ℕ) (c d : FdContext) (k : Sided d) where
  pub one_more :
      (cs : List FdContext)
      → waiting cs ≡ waiting m.contexts
      → (2 ≤ length cs) × (length cs ≤ 2 ^ 32)
      → All Sided cs
      → get_elem? cs fd ≡ some c
      → bits d.events ≡ bits c.events + 1
      → IsSteady (record m { contexts = set cs fd d; pending = (m.pending + 1) % 2 ^ 64 })
  one_more cs same (big, small) all at' more = record {
    exact = omega (arith, waiting-set cs fd c d at', same, more, IsSteady-ranged m v, v.exact);
    big = omega (arith, big, length-set cs fd d);
    small = omega (arith, small, length-set cs fd d);
    sided = All-set Sided cs fd d all k;
  }

  pub one_less :
      get_elem? m.contexts fd ≡ some c
      → bits d.events + 1 ≡ bits c.events
      → IsSteady (record m { contexts = set m.contexts fd d; pending = less m.pending })
  one_less at' fewer = record {
    exact = omega (arith, waiting-set m.contexts fd c d at', fewer, v.exact, IsSteady-ranged m v);
    big = omega (arith, v.big, length-set m.contexts fd d);
    small = omega (arith, v.small, length-set m.contexts fd d);
    sided = All-set Sided m.contexts fd d v.sided k;
  }

pub events-put_context :
    (e : Events) (x : EventContext) (c : FdContext) → (put_context e x c).events ≡ c.events
unfolding put_context
events-put_context e x c = ground arith

pub any-waits :
    (r : Bool) (e : Events) (b : Bool) → any (meet e (event_of r)) && b ≡ true → waits r e ≡ true
any-waits true e b h = ground arith
any-waits false e b h = ground arith
