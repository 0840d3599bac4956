-- ===== src/Log/Macros.antt =====
-- The macros of sylar/log.h, SYLAR_LOG_DEBUG to SYLAR_LOG_FATAL with SYLAR_LOG_NAME: an event is made, is
-- given its text through a stream, and is logged when its wrapper goes.
use prozac.Prelude.{
  ℕ, suc, ◌<◌, ◌≡◌, sym, ap, subst, ◌∙◌, true, Option, none, some, List, [], ◌∷◌, ◌++◌, append-nil,
  append_assoc, arith, leb, Result, ok, lookup, All, text_eq,
}
use prozac.Log.Levels.{Level, number, debug}
use prozac.Log.Loggers.{Event, Logs, Libc, logger_log, get_logger, add_logger, new_logger}
use prozac.Log.Delivery.{IsFormatted, lines, passing, targets, logger_log_lem}
use prozac.Log.Manager.{IsManaged, add_logger-IsManaged}

-- What the macro finds where it stands: `__FILE__`, `__LINE__`, the ids, `time(0)` and the thread's name.
pub record Site : Type 0 where
  pub file : List ℕ
  pub line : ℕ
  pub thread_id : ℕ
  pub fiber_id : ℕ
  pub time : ℕ
  pub thread_name : List ℕ

-- `LogEvent::LogEvent`, for a logger of the name `name`, with no time elapsed.
unfoldable pub new_event : List ℕ → Level → Site → Event
new_event name level p = record {
  level = level;
  time = p.time;
  content = [];
  file = p.file;
  line = p.line;
  elapse = 0;
  thread_id = p.thread_id;
  fiber_id = p.fiber_id;
  thread_name = p.thread_name;
  logger = name;
}

-- `getSS() << text`, for each text.
pub stream : List (List ℕ) → Event → Event
stream [] ev = ev
stream (x ∷ xs) ev = stream xs (record ev { content = ev.content ++ x })

-- `LogEvent::format`, where `vasprintf` gives the text or fails.
pub format_with : Option (List ℕ) → Event → Event
format_with none ev = ev
format_with (some x) ev = record ev { content = ev.content ++ x }

-- `SYLAR_LOG_LEVEL(logger, level) << ...`, with `~LogEventWrap`; fuel as for `Logger::log`.
unfoldable pub log_level : ℕ → Libc → ℕ → Level → Site → List (List ℕ) → Logs → Result Logs
unfolding new_event stream
log_level n c l level p texts s =
    logger_log n c l (stream texts (new_event (s.loggers l).name level p)) s

-- `SYLAR_LOG_LEVEL(SYLAR_LOG_NAME(name), level) << ...`
pub log_name : ℕ → Libc → List ℕ → Level → Site → List (List ℕ) → Logs → Result Logs
unfolding log_level
log_name n c name level p texts s =
    let (l, s') = get_logger name s in log_level n c l level p texts s'

-- The texts one after another.
abbrev pub joined : List (List ℕ) → List ℕ
joined [] = []
joined (x ∷ xs) = x ++ joined xs

-- The event that a macro makes.
abbrev pub said : List ℕ → Level → Site → List (List ℕ) → Event
said name level p texts = record (new_event name level p) { content = joined texts }

stream_lem :
    (texts : List (List ℕ)) (ev : Event)
    → stream texts ev ≡ record ev { content = ev.content ++ joined texts }
unfolding stream
stream_lem [] ev = ap (λ x. record ev { content = x }) (sym (append-nil ev.content))
stream_lem (x ∷ xs) ev =
    stream_lem xs (record ev { content = ev.content ++ x })
    ∙ ap (λ y. record ev { content = y }) (append_assoc ev.content x (joined xs))

-- Where the events of a logger that was just made go.
targets_new :
    (name : List ℕ) (ev : Event) (s : Logs)
    → s.root < s.fresh
    → leb (number debug) (number ev.level) ≡ true
    → targets ev (add_logger name s) s.fresh ≡ passing ev (s.loggers s.root)
unfolding new_logger
targets_new name ev s made high = ground (arith, made, high)

log_level_lem :
    (n : ℕ) (c : Libc) (l : ℕ) (level : Level) (p : Site) (texts : List (List ℕ)) (s : Logs)
    → log_level n c l level p texts s ≡ logger_log n c l (said (s.loggers l).name level p texts) s
unfolding log_level new_event
log_level_lem n c l level p texts s =
    ap (λ ev. logger_log n c l ev s) (stream_lem texts (new_event (s.loggers l).name level p))

get_logger_new :
    (name : List ℕ) (s : Logs)
    → lookup name s.table ≡ none
    → get_logger name s ≡ (s.fresh, add_logger name s)
unfolding get_logger
get_logger_new name s new = ground (arith, new)

name_new : (name : List ℕ) (s : Logs) → ((add_logger name s).loggers s.fresh).name ≡ name
unfolding new_logger
name_new name s = ground arith

-- A macro with the name of a logger that was never asked for, at a level of DEBUG or above, makes that
-- logger below the root, and the texts that are streamed into it, joined, are written as one event by
-- each appender of the root logger that the event reaches, and by nobody else. The loggers of the manager
-- are in order, and the root's appenders have formatters.
pub log_name_new :
    (n : ℕ) (c : Libc) (name : List ℕ) (level : Level) (p : Site) (texts : List (List ℕ)) (s : Logs)
    → IsManaged s
    → lookup name s.table ≡ none
    → leb (number debug) (number level) ≡ true
    → All (λ b. IsFormatted (s.appenders b)) (passing (said name level p texts) (s.loggers s.root))
    → (t : Logs) × (log_name (suc (suc n)) c name level p texts s ≡ ok t)
      × (t.out
          ≡ s.out
            ++ lines c
                (said name level p texts)
                s.appenders
                (passing (said name level p texts) (s.loggers s.root)))
      × (t.loggers ≡ (add_logger name s).loggers)
unfolding log_name
log_name_new n c name level p texts s v new high formatted =
    let ev = said name level p texts in
    let u = add_logger name s in
    let same : targets ev u s.fresh ≡ passing ev (s.loggers s.root) =
      targets_new name ev s v.made high in
    let (t, e, o, k) =
      logger_log_lem n c s.fresh ev u (add_logger-IsManaged name s v).1
        (subst (All (λ b. IsFormatted (s.appenders b))) (sym same) formatted) in
    let first =
      ap (λ (q : ℕ × Logs). log_level (suc (suc n)) c q.0 level p texts q.1)
        (get_logger_new name s new) in
    let second =
      log_level_lem (suc (suc n)) c s.fresh level p texts u
      ∙ ap (λ x. logger_log (suc (suc n)) c s.fresh (said x level p texts) u) (name_new name s) in
    (t, first ∙ second ∙ e, o ∙ ap (λ bs. s.out ++ lines c ev s.appenders bs) same, k)
