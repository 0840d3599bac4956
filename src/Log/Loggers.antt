-- ===== src/Log/Loggers.antt =====
-- Appenders, loggers and the logger manager of sylar/log.h and sylar/log.cpp. Both are shared by
-- pointer, so they live in heaps; the lines written are recorded with their appender. A formatter does
-- not change and is a value. The locks are left out: each operation is one step.
use prozac.Prelude.{
  digits, decimal, ℕ, zero, suc, ◌+◌, ◌%◌, ◌^◌, Bool, true, false, Option, none, some, List, [],
  ◌∷◌, ◌++◌, leb, ◌==◌, if◌then◌else◌, update, Result, ok, err, null_deref, ◌>>=◌, lookup, insert,
  codes, text_eq,
}
use prozac.Log.Levels.{Level, number, to_string, debug, error}
use prozac.Log.Pattern.{Item, LogFormatter, new_formatter}

pub record Event : Type 0 where
  pub level : Level
  pub time : ℕ
  pub content : List ℕ
  pub file : List ℕ
  pub line : ℕ
  pub elapse : ℕ
  pub thread_id : ℕ
  pub fiber_id : ℕ
  pub thread_name : List ℕ
  pub logger : List ℕ

-- The `format` of each FormatItem; `strftime` is the C library's, with the local time.
pub format_item : (List ℕ → ℕ → List ℕ) → Item → Event → List ℕ
unfolding digits to_string
format_item strftime Item.message ev = ev.content
format_item strftime Item.level ev = to_string ev.level
format_item strftime Item.elapse ev = decimal ev.elapse
format_item strftime Item.name ev = ev.logger
format_item strftime Item.thread_id ev = decimal ev.thread_id
format_item strftime Item.fiber_id ev = decimal ev.fiber_id
format_item strftime Item.thread_name ev = ev.thread_name
format_item strftime (Item.date_time f) ev = strftime f ev.time
format_item strftime Item.filename ev = ev.file
format_item strftime Item.line ev = decimal ev.line
format_item strftime Item.new_line ev = b'\n' ∷ []
format_item strftime (Item.string s) ev = s
format_item strftime Item.tab ev = b'\t' ∷ []

-- `LogFormatter::format`
pub format : (List ℕ → ℕ → List ℕ) → List Item → Event → List ℕ
unfolding format_item
format strftime [] ev = []
format strftime (i ∷ is) ev = format_item strftime i ev ++ format strftime is ev

-- The classes of appenders; a file has its name, whether its stream is open, and when it was last
-- opened.
pub data Sink : Type 0 where
  stdout : Sink
  file : List ℕ → Bool → ℕ → Sink

pub record Appender : Type 0 where
  pub level : Level
  pub has_formatter : Bool
  pub formatter : Option LogFormatter
  pub sink : Sink

pub record Logger : Type 0 where
  pub name : List ℕ
  pub level : Level
  pub appenders : List ℕ
  pub formatter : Option LogFormatter
  pub root : Option ℕ

pub record Logs : Type 0 where
  pub appenders : ℕ → Appender
  pub loggers : ℕ → Logger
  pub fresh : ℕ
  pub table : List (List ℕ × ℕ)
  pub root : ℕ
  pub out : List (ℕ × List ℕ)

-- What the C library answers: strftime, and whether a file opens.
pub record Libc : Type 0 where
  pub strftime : List ℕ → ℕ → List ℕ
  pub opens : List ℕ → Bool

abbrev pub put_appender : ℕ → Appender → Logs → Logs
put_appender a x s = record s { appenders = update s.appenders a x }

abbrev pub put_logger : ℕ → Logger → Logs → Logs
put_logger l x s = record s { loggers = update s.loggers l x }

-- `LogAppender::setFormatter`
unfoldable pub appender_set_formatter : ℕ → Option LogFormatter → Logs → Logs
appender_set_formatter a f s =
    let has = elim f as (λ _. Bool) [ none ↦ false | some g ↦ true ] in
    put_appender a (record (s.appenders a) { formatter = f; has_formatter = has }) s

-- The formatter writes to the stream of the appender, if that is open.
abbrev pub write : Libc → ℕ → Bool → Option LogFormatter → Event → Logs → Result Logs
write c a open' none ev s = err null_deref
write c a open' (some f) ev s =
    ok (if open' then record s { out = s.out ++ (a, format c.strftime f.items ev) ∷ [] } else s)

-- `FileLogAppender::reopen`, three seconds after the last time or later.
unfoldable pub reopen_after : Libc → ℕ → Sink → Sink
reopen_after c now stdout = stdout
reopen_after c now (file f open' last) =
    if leb ((last + 3) % 2 ^ 64) now then file f (c.opens f) now else file f open' last

abbrev pub is_open : Sink → Bool
is_open stdout = true
is_open (file f open' last) = open'

-- `StdoutLogAppender::log` and `FileLogAppender::log`
unfoldable pub appender_log : Libc → ℕ → Event → Logs → Result Logs
unfolding reopen_after
appender_log c a ev s =
    let x = s.appenders a in
    let y = record x { sink = reopen_after c ev.time x.sink } in
    if leb (number x.level) (number ev.level)
    then write c a (is_open y.sink) x.formatter ev (put_appender a y s)
    else ok s

unfoldable pub log_all : Libc → List ℕ → Event → Logs → Result Logs
unfolding appender_log
log_all c [] ev s = ok s
log_all c (a ∷ rest) ev s = do s ← appender_log c a ev s; log_all c rest ev s

-- `Logger::log`, where `next` is the call on the root logger.
abbrev log_with : (ℕ → Logs → Result Logs) → Libc → ℕ → Event → Logs → Result Logs
log_with next c l ev s =
    let x = s.loggers l in
    let passed = elim x.appenders as (λ _. Result Logs) [
      | [] ↦ elim x.root as (λ _. Result Logs) [ none ↦ ok s | some r ↦ next r s ]
      | a ∷ rest ↦ log_all c (a ∷ rest) ev s
    ] in
    if leb (number x.level) (number ev.level) then passed else ok s

-- `Logger::log` on fuel for the chain of roots.
unfoldable pub logger_log : ℕ → Libc → ℕ → Event → Logs → Result Logs
unfolding log_all
logger_log zero c l ev s = ok s
logger_log (suc n) c l ev s = log_with (λ r s. logger_log n c r ev s) c l ev s

-- `Logger::addAppender`
unfoldable pub add_appender : ℕ → ℕ → Logs → Logs
add_appender l a s =
    let x = s.loggers l in
    let y = s.appenders a in
    let f = elim y.formatter as (λ _. Option LogFormatter) [
      | none ↦ x.formatter
      | some g ↦ some g
    ] in
    put_logger l (record x { appenders = x.appenders ++ a ∷ [] })
      (put_appender a (record y { formatter = f }) s)

-- `Logger::delAppender`: the first one goes.
unfoldable pub erase_first : ℕ → List ℕ → List ℕ
erase_first a [] = []
erase_first a (b ∷ bs) = if b == a then bs else b ∷ erase_first a bs

unfoldable pub del_appender : ℕ → ℕ → Logs → Logs
unfolding erase_first
del_appender l a s =
    let x = s.loggers l in put_logger l (record x { appenders = erase_first a x.appenders }) s

-- `Logger::clearAppenders`
unfoldable pub clear_appenders : ℕ → Logs → Logs
clear_appenders l s = put_logger l (record (s.loggers l) { appenders = [] }) s

-- The loop of `Logger::setFormatter(ptr)`.
unfoldable pub hand_down : Option LogFormatter → List ℕ → Logs → Logs
hand_down f [] s = s
hand_down f (a ∷ rest) s =
    let y = s.appenders a in
    let s' =
      put_appender a (record y { formatter = if y.has_formatter then y.formatter else f }) s in
    hand_down f rest s'

-- `Logger::setFormatter(ptr)`
unfoldable pub set_formatter : ℕ → Option LogFormatter → Logs → Logs
unfolding hand_down
set_formatter l f s =
    let x = s.loggers l in hand_down f x.appenders (put_logger l (record x { formatter = f }) s)

-- `Logger::setFormatter(string)`: a pattern in error changes nothing.
unfoldable pub set_pattern : ℕ → List ℕ → Logs → Logs
unfolding set_formatter new_formatter
set_pattern l p s = elim (new_formatter p) as (λ _. Logs) [
  | none ↦ s
  | some f ↦ if f.is_error then s else set_formatter l (some f) s
]

-- `Logger::Logger`
unfoldable pub new_logger : List ℕ → Logger
unfolding new_formatter
new_logger name = record {
  name = name;
  level = debug;
  appenders = [];
  formatter = new_formatter (codes "%d{%Y-%m-%d %H:%M:%S}%T%t%T%N%T%F%T[%p]%T[%c]%T%f:%l%T%m%n");
  root = none;
}

-- A new logger below the root, under its name.
abbrev pub add_logger : List ℕ → Logs → Logs
add_logger name s = record s {
  loggers = update s.loggers s.fresh (record (new_logger name) { root = some s.root });
  fresh = s.fresh + 1;
  table = insert name s.fresh s.table;
}

-- `LoggerManager::getLogger`
unfoldable pub get_logger : List ℕ → Logs → ℕ × Logs
get_logger name s = elim (lookup name s.table) as (λ _. ℕ × Logs) [
  | some l ↦ (l, s)
  | none ↦ (s.fresh, add_logger name s)
]

-- `LoggerManager::LoggerManager`: the root logger, at 0, writes to the console and its errors to a file.
unfoldable pub new_logs : Libc → Logs
unfolding new_logger add_appender
new_logs c =
    let console : Appender = record {
      level = debug;
      has_formatter = false;
      formatter = none;
      sink = stdout;
    } in
    let name = codes "./log/root_error.log" in
    let errors = record console { level = error; sink = file name (c.opens name) 0 } in
    let made : Logs = record {
      appenders = λ a. if a == 0 then console else errors;
      loggers = λ l. new_logger (codes "root");
      fresh = 2;
      table = (codes "root", 0) ∷ [];
      root = 0;
      out = [];
    } in
    add_appender 0 1 (add_appender 0 0 made)
