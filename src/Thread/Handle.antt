-- ===== src/Thread/Handle.antt =====
-- The handle of a thread in sylar/thread.cpp: joined or detached once.
use prozac.Prelude.{◌≡◌, refl, Bool, true, false, Option, none, some, List, [], ◌∷◌, ◌++◌, arith}
use prozac.Thread.{Thread, Release, joined, detached, join, destroy}

-- So many calls of `join`, and then the destructor; `none` is an exception.
pub end_of : List Bool → Thread → Option (List Release)
unfolding destroy join
end_of [] t = some (destroy t)
end_of (succeeds ∷ rest) t = elim (join succeeds t) as (λ _. Option (List Release)) [
  | none ↦ none
  | some (u, calls) ↦ elim (end_of rest u) as (λ _. Option (List Release)) [
    | none ↦ none
    | some more ↦ some (calls ++ more)
  ]
]

end_of_over : (rest : List Bool) (t : Thread) → t.m_thread ≡ false → end_of rest t ≡ some []
unfolding end_of join destroy
end_of_over [] t h = ground arith
end_of_over (b ∷ rest) t h = ground (arith, end_of_over rest t h)

-- However often a thread is joined before its object goes, its handle ends once: by the first call of
-- pthread_join, or detached by the destructor if there is none. Later calls of `join` do nothing.
pub end_of_once :
    (rest : List Bool) (t : Thread)
    → t.m_thread ≡ true
    → (end_of [] t ≡ some (detached ∷ []))
      × (end_of (true ∷ rest) t ≡ some (joined ∷ []))
      × (end_of (false ∷ rest) t ≡ none)
unfolding end_of join destroy
end_of_once rest t h = (
  ground arith,
  ground (arith, end_of_over rest (record t { m_thread = false }) refl),
  ground arith,
)
