-- ===== src/IoManager/Sides.antt =====
-- The two sides of a context of sylar/iomanager.cpp: one for READ and one for WRITE, each with the
-- scheduler and the fiber of an event that waits.
use prozac.Prelude.{
  ℕ, zero, suc, ◌+◌, ◌*◌, ◌/◌, ◌≡◌, Bool, true, false, some, List, [], ◌∷◌, All, arith, ltb, length,
  if_intro,
}
use prozac.IoManager.{
  Events, EventContext, FdContext, read_event, write_event, join, minus, new_context, put_context,
  fill, resize_from, context_resize, cover,
}

-- One of the two events, and its side of a context.
abbrev pub event_of : Bool → Events
event_of true = read_event
event_of false = write_event

abbrev pub side : Bool → FdContext → EventContext
side true c = c.read
side false c = c.write

abbrev pub waits : Bool → Events → Bool
waits true e = e.read
waits false e = e.write

-- A side with a scheduler and a fiber.
abbrev pub Held : EventContext → Type 0
Held x = (x.scheduler ≡ true) × (a : ℕ) × (x.fiber ≡ some a)

-- The side of each event that waits has both.
abbrev pub Sided : FdContext → Type 0
Sided c = (r : Bool) → waits r c.events ≡ true → Held (side r c)

Sided-new_context : (i : ℕ) → Sided (new_context i)
Sided-new_context i true h = cc
Sided-new_context i false h = cc

Sided-fill : (n i : ℕ) → All Sided (fill n i)
unfolding fill
Sided-fill zero i = tt
Sided-fill (suc n) i = (Sided-new_context i, Sided-fill n (i + 1))

pub Sided-resize_from :
    (i n : ℕ) (cs : List FdContext) → All Sided cs → All Sided (resize_from i n cs)
unfolding resize_from
Sided-resize_from i n [] k = Sided-fill n i
Sided-resize_from i zero (c ∷ cs) k = tt
Sided-resize_from i (suc n) (c ∷ cs) k = (k.0, Sided-resize_from (i + 1) n cs k.1)

pub Sided-cover : (fd : ℕ) (cs : List FdContext) → All Sided cs → All Sided (cover fd cs)
unfolding cover context_resize
Sided-cover fd cs k =
    if_intro (All Sided) (ltb fd (length cs)) _ _ (λ _. k)
      λ _. Sided-resize_from 0 (fd * 3 / 2) cs k

pub Sided-join :
    (r : Bool) (c : FdContext) (x : EventContext)
    → Sided c
    → Held x
    → Sided (put_context (event_of r) x (record c { events = join c.events (event_of r) }))
unfolding put_context
Sided-join true c x k h true w = h
Sided-join true c x k h false w = k false (grind arith)
Sided-join false c x k h true w = k true (grind arith)
Sided-join false c x k h false w = h

pub Sided-minus :
    (r : Bool) (c : FdContext) (x : EventContext)
    → Sided c
    → Sided (put_context (event_of r) x (record c { events = minus c.events (event_of r) }))
unfolding put_context
Sided-minus true c x k true w = absurd (grind arith)
Sided-minus true c x k false w = k false (grind arith)
Sided-minus false c x k true w = k true (grind arith)
Sided-minus false c x k false w = absurd (grind arith)
