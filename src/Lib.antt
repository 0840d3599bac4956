-- ===== src/Lib.antt =====
-- A model of the sylar library: timers, fibers, the scheduler of fibers, the I/O manager, logging, the
-- environment, configuration variables, paths, locks and threads.
--
-- How the parts go together. A fiber (sylar/fiber.h) is a coroutine of one thread. The scheduler
-- (sylar/scheduler.h) has tasks, each with a fiber; its allocating thread hands them to worker threads,
-- which start, run and park their fibers. The I/O manager (sylar/iomanager.h) is a scheduler that also
-- keeps, for each file descriptor, the fiber that waits for it to be readable or writable, and submits
-- that fiber when epoll reports the descriptor. The timer manager (sylar/timer.h) stands beside them.
-- The log (sylar/log.h) formats events by patterns and is set up by a configuration variable
-- (sylar/config.h); the environment (sylar/env.h) has the program's arguments and directory.
--
-- Which file models what; each has the source's functions under their names in snake case, and its
-- children have the proofs.
--   Prelude    what all share: Boolean tests, lists, maps, texts as bytes, and Result, in which a failed
--              SYLAR_ASSERT (sylar/macro.h), a null pointer, an empty std::function or an exception is
--              an error
--   Timer      sylar/timer.cpp: Timer and TimerManager over a heap of timers by address and the set of
--              their addresses in order. Order: the comparator; Invariant, Fire, Expiry, Wait: each
--              operation; Run: sequences of calls; Spec, Refines: a specification
--              without order or heap
--   Fiber      sylar/fiber.cpp: the methods of Fiber, MainFunc and the destructor over the fibers of one
--              thread and its thread-local variables (Defs). Table: what each method does, as a table;
--              Invariant: what each keeps; Reachable: the states that a thread can reach;
--              States: the state of one fiber after each method
--   Scheduler  sylar/scheduler.cpp: tasks, WokerThread::run round by round and its loop, AllocThread::run
--              round by round, submit, start, stop. Priority: the comparator; Alloc: counters; Worker:
--              queues; Progress: a first round; Bag: the tasks without their order, a quotient; Moves: how
--              they move; System: submissions and rounds in any order; Moved, Working, Turns, Rounds, Loop:
--              the fibers of a worker's tasks in a turn, in each step, in a round and in the loop;
--              Handing: the loop of the allocating thread; Drained: both loops, from the queue to the end;
--              Threads: how start, stop and the destructor make and join the threads
--   IoManager  sylar/iomanager.cpp: contexts, addEvent, delEvent, cancelEvent, cancelAll, the idle loop with
--              the events of epoll_wait, and stop. Contexts: their list; Steady, Pending: the counter of
--              events; Sides: the events' fibers; Reach: calls in any order; Fires: what a cancelled event submits,
--              up to a worker; Reports: what a reported one submits; Reuse: contexts used again; End: stop
--              and the destructor
--   Log        sylar/log.cpp: Levels: LogLevel; Pattern: LogFormatter; Ends, RoundTrip: its parser;
--              Loggers: appenders, Logger, LoggerManager; Delivery, Manager: where events go; Macros:
--              the macros of sylar/log.h; Defines: LogDefine and the listener of LogIniter; Casts,
--              Fields, Trips: LexicalCast of LogDefine and the toYamlString functions
--   Env        sylar/env.cpp: the arguments (Args), the help texts (Helps), paths
--   Config     sylar/config.h, sylar/config.cpp: ConfigVar (Var) and the table of Config::Lookup (Table);
--              LexicalCast of containers (Casts), what it does there and back (Trips), the containers
--              (Ordered); LoadFromYaml (Load) and LoadFromConfDir (Dir)
--   FsUtil     sylar/util.cpp: Dirname and Basename (Paths), ListAllFile (Files), Mkdir and
--              OpenForWrite (Mkdir), Unlink, Rm, Mv, Symlink, Realpath, IsRunningPidfile (Rm, Removal)
--   Mutex      sylar/mutex.h: ScopedLock, ReadScopedLock, WriteScopedLock; CASLock (Cas)
--   Thread     sylar/thread.cpp, sylar/mutex.cpp: the start of a thread (Start) and the end of its handle
--              (Handle)
--   Util       sylar/util.cpp: GetCurrentMS and GetCurrentUS (Clock), demangle (Symbols), Backtrace and
--              BacktraceToString
--   Factory    sylar/factory.h: constructors by name. Last: which one is called
--   Yaml       the operations of yaml-cpp that the code calls, a parameter with laws; Flat: an instance
--
-- State is passed explicitly and pointers are addresses, so that sharing shows. Code that is not part of
-- the repository is an argument: what malloc, getcontext, swapcontext, epoll_ctl, strftime and the file
-- system answer, the clock, the draws of rand(), the symbols of the stack and the demangler, and what
-- pthread_create and pthread_join answer. What the body of a fiber does between two switches is an argument
-- too, as is whether a pointer that is dropped was the last one.
--
-- Bounds and fuel. uint64_t wraps where the code adds or subtracts. The pattern of a formatter is read on
-- fuel, one unit a byte, since each round of the loop takes a byte or more; a logger's call of its root is
-- on fuel for the chain of roots, two units, since the manager's root logger has no root. A number is
-- printed on fuel above it, since each digit divides it.
--
-- ListAllMember recurs on fuel for the depth of the node, one unit a level, since an entry of a mapping is
-- nested less deep than the mapping.
--
-- Not modelled: the pthread calls of the other locks of sylar/mutex.h, and the interleaving of threads
-- inside one operation: an operation under its lock is one step. yaml-cpp, a parameter. The text of a
-- member that boost::lexical_cast makes, an argument. The texts of times, which the C library makes. The
-- descriptors that the I/O manager opens and closes. The lines that the library logs about itself.
-- Config::Visit, a loop over the table. sylar/singleton.h and
-- sylar/noncopyable.h have no state to speak of; the classes registered by sylar/log.cpp are the clauses
-- of create.
pub mod Prelude
pub mod Yaml
pub mod Timer
pub mod Fiber
pub mod Scheduler
pub mod IoManager
pub mod Log
pub mod Env
pub mod Config
pub mod FsUtil
pub mod Mutex
pub mod Thread
pub mod Util
pub mod Factory
