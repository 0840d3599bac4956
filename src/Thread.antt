-- ===== src/Thread.antt =====
-- `Thread` of sylar/thread.h and sylar/thread.cpp: the constructor and the new thread, which wait for one
-- another at a semaphore (sylar/mutex.cpp), and the end of the handle. What the calls of pthread answer
-- is an argument.
use prozac.Prelude.{
  ℕ, zero, suc, ◌+◌, ◌-◌, ◌<◌, ◌≡◌, Bool, true, false, Option, none, some, List, [], ◌∷◌, ◌++◌,
  if◌then◌else◌, codes, length,
}
pub mod Start
pub mod Handle
mod Tests

-- A call of pthread that ends the life of the handle.
pub data Release : Type 0 where
  joined detached : Release

-- The object; `m_thread` says whether the handle is not 0, and an empty `m_cb` is `none`.
pub record Thread : Type 0 where
  pub m_thread : Bool
  pub m_name : List ℕ
  pub m_id : Option ℕ
  pub m_cb : Option ℕ
  pub m_semaphore : ℕ

-- The first sixteen bytes but one, which pthread_setname_np takes.
abbrev pub take : ℕ → List ℕ → List ℕ
take zero s = []
take (suc n) [] = []
take (suc n) (c ∷ s) = c ∷ take n s

abbrev pub or_unknow : List ℕ → List ℕ
or_unknow [] = codes "UNKNOW"
or_unknow (c ∷ s) = c ∷ s

-- `Thread::Thread(cb, name)` up to its wait; `none` is the exception of a pthread_create that fails.
unfoldable pub new_thread : Bool → Option ℕ → List ℕ → Option Thread
new_thread created cb name =
    if created
    then some (record {
      m_thread = true;
      m_name = or_unknow name;
      m_id = none;
      m_cb = cb;
      m_semaphore = 0;
    })
    else none

-- `Semaphore::wait`, where it does not block, and `Semaphore::notify`.
unfoldable pub wait : Thread → Option Thread
wait t = elim t.m_semaphore as (λ _. Option Thread) [
  | zero ↦ none
  | suc n ↦ some (record t { m_semaphore = n })
]

unfoldable pub notify : Thread → Thread
notify t = record t { m_semaphore = t.m_semaphore + 1 }

-- The thread-local variables of the new thread, its name for the system, and its `cb`.
pub record Local : Type 0 where
  pub this_thread_name : List ℕ
  pub system_name : List ℕ
  pub cb : Option ℕ

-- The lines of `Thread::run` before its call of `cb`, in their order: this_thread_name, m_id,
-- pthread_setname_np, cb.swap and notify.
pub data Line : Type 0 where
  names ids titles swaps notifies : Line

abbrev pub lines_of_run : List Line
lines_of_run = names ∷ ids ∷ titles ∷ swaps ∷ notifies ∷ []

abbrev pub no_local : Local
no_local = record { this_thread_name = []; system_name = []; cb = none }

-- One line, by the thread with the given id.
unfoldable pub run_line : ℕ → Line → Thread → Local → Thread × Local
unfolding notify
run_line tid names t l = (t, record l { this_thread_name = t.m_name })
run_line tid ids t l = (record t { m_id = some tid }, l)
run_line tid titles t l = (t, record l { system_name = take 15 t.m_name })
run_line tid swaps t l = (record t { m_cb = l.cb }, record l { cb = t.m_cb })
run_line tid notifies t l = (notify t, l)

unfoldable pub run_lines : ℕ → List Line → Thread → Local → Thread × Local
unfolding run_line
run_lines tid [] t l = (t, l)
run_lines tid (n ∷ ns) t l = let (u, k) = run_line tid n t l in run_lines tid ns u k

-- `Thread::run` up to its call of `cb`, with no other thread in between.
unfoldable pub run : ℕ → Thread → Thread × Local
unfolding run_lines
run tid t = run_lines tid lines_of_run t no_local

-- `Thread::join`, where `none` is its exception; second, the calls of pthread that succeed.
unfoldable pub join : Bool → Thread → Option (Thread × List Release)
join succeeds t =
    if t.m_thread
    then (if succeeds then some (record t { m_thread = false }, Release.joined ∷ []) else none)
    else some (t, [])

-- `Thread::~Thread`
unfoldable pub destroy : Thread → List Release
destroy t = if t.m_thread then Release.detached ∷ [] else []
