-- ===== src/Log/Tests.antt =====
-- Patterns and loggers of sylar/log.cpp at concrete inputs, and instances of the theorems about them.
use prozac.Prelude.{
  ℕ, ◌≡◌, ◌≢◌, refl, Bool, true, false, some, none, List, [], ◌∷◌, ◌++◌, arith, codes, inl, inr,
  ◌==◌, if◌then◌else◌, lookup, text_eq, ok,
}
use prozac.Log.Levels.{debug, info, unknow}
use prozac.Log.Pattern.{Token, Item, LogFormatter, scan, create, new_formatter}
use prozac.Log.Ends.{scan_total}
use prozac.Log.RoundTrip.{
  Piece, text, item, item_fmt, meant, has_unknown, IsGood, new_formatter-print,
}
use prozac.Log.Loggers.{Event, stdout, Logs, Libc, logger_log}
use prozac.Log.Delivery.{lines, targets, IsRooted, logger_log_lem}
use prozac.Log.Manager.{IsManaged}
use prozac.Log.Loggers.{add_logger}
use prozac.Log.Delivery.{lines}
use prozac.Log.Macros.{Site, new_event, said, log_name, log_name_new}
use prozac.Yaml.{◌>>=◌}
use prozac.Yaml.Flat.{toy, toy_laws}
use prozac.Config.Casts.{fill, ordered, text_less}
use prozac.Config.Trips.{IsRead}
use prozac.Log.Casts.{logs_cast, manager_to_yaml_string}
use prozac.Log.Trips.{logs_cast-IsRead, manager_to_yaml_string-logs_cast, defines_of}
use prozac.Log.Defines.{LogDefine, LogAppenderDefine, conf_changed, conf_changed_ignores}

abbrev pattern : List ℕ
pattern = codes "[%p] %d{%H:%M}%m%n"

scan_total_example : (r : List Token × Bool) × (scan 20 [] pattern ≡ some r)
scan_total_example = scan_total 20 [] pattern (omega arith)

-- `[%p] %d{%H:%M}%m%n`
abbrev pieces : List Piece
pieces =
    text (codes "[")
    ∷ item (codes "p")
    ∷ text (codes "] ")
    ∷ item_fmt (codes "d") (codes "%H:%M")
    ∷ item (codes "m")
    ∷ item (codes "n")
    ∷ []

nonempty : {c : ℕ} {s : List ℕ} → (c ∷ s) ≢ []
nonempty e = cc

pieces-IsGood : IsGood pieces
pieces-IsGood = (
  nonempty,
  (refl, tt),
  tt,
  (
    (refl, tt),
    refl,
    (
      nonempty,
      (refl, (refl, tt)),
      tt,
      (
        (refl, tt),
        (refl, (refl, (refl, (refl, (refl, tt))))),
        ((refl, tt), refl, ((refl, tt), tt, tt)),
      ),
    ),
  ),
)

new_formatter-print_example :
    new_formatter pattern
    ≡ some (record { pattern = pattern; items = meant pieces; is_error = has_unknown pieces })
new_formatter-print_example = new_formatter-print pieces pieces-IsGood

pieces_right : has_unknown pieces ≡ false
unfolding create
pieces_right = refl

abbrev plain : LogFormatter
plain = record { pattern = codes "%m"; items = Item.message ∷ []; is_error = false }

abbrev libc : Libc
libc = record { strftime = λ f t. f; opens = λ f. true }

abbrev hello : Event
hello = record {
  level = info;
  time = 100;
  content = codes "hello";
  file = codes "a.cpp";
  line = 3;
  elapse = 0;
  thread_id = 1;
  fiber_id = 0;
  thread_name = codes "main";
  logger = codes "system";
}

-- The root logger at 0 with the console, and the logger "system" at 1 with no appender.
abbrev logs : Logs
logs = record {
  appenders =
      λ a. record { level = debug; has_formatter = false; formatter = some plain; sink = stdout };
  loggers = λ l.
      if l == 0
      then record {
        name = codes "root";
        level = debug;
        appenders = 0 ∷ [];
        formatter = some plain;
        root = none;
      }
      else record {
        name = codes "system";
        level = debug;
        appenders = [];
        formatter = some plain;
        root = some 0;
      };
  fresh = 2;
  table = (codes "root", 0) ∷ (codes "system", 1) ∷ [];
  root = 0;
  out = [];
}

system-IsRooted : IsRooted logs 1
system-IsRooted r e = ground (arith, e)

logger_log_lem_example :
    (t : Logs) × (logger_log 2 libc 1 hello logs ≡ ok t)
    × (t.out ≡ logs.out ++ lines libc hello logs.appenders (targets hello logs 1))
    × (t.loggers ≡ logs.loggers)
logger_log_lem_example = logger_log_lem 0 libc 1 hello logs system-IsRooted ((plain, refl), tt)

logs-IsManaged : IsManaged logs
unfolding lookup
logs-IsManaged = record { top = refl; made = omega arith; each = λ name l e. ground (arith, e) }

abbrev site : Site
site = record {
  file = codes "a.cpp";
  line = 3;
  thread_id = 1;
  fiber_id = 0;
  time = 100;
  thread_name = codes "main";
}

abbrev parts : List (List ℕ)
parts = codes "port " ∷ codes "8020" ∷ []

abbrev net_event : Event
net_event = said (codes "net") info site parts

unknown_net : lookup (codes "net") logs.table ≡ none
unfolding lookup
unknown_net = refl

log_name_new_example :
    (t : Logs) × (log_name 2 libc (codes "net") info site parts logs ≡ ok t)
    × (t.out ≡ lines libc net_event logs.appenders (0 ∷ []))
    × (t.loggers ≡ (add_logger (codes "net") logs).loggers)
unfolding new_event
log_name_new_example =
    log_name_new 0 libc (codes "net") info site parts logs logs-IsManaged unknown_net refl
      ((plain, refl), tt)

abbrev system_define : LogDefine
system_define = record { name = codes "system"; level = info; formatter = []; appenders = [] }

abbrev to_file : List LogAppenderDefine
to_file = record { type = 1; level = unknow; formatter = []; file = codes "system.log" } ∷ []

abbrev net_define : LogDefine
net_define = record system_define { name = codes "net" }

conf_changed_ignores_example :
    conf_changed libc false
      (net_define ∷ system_define ∷ [])
      (record net_define { appenders = to_file }
        ∷ record system_define { appenders = to_file }
        ∷ [])
      logs
    ≡ ok logs
conf_changed_ignores_example =
    conf_changed_ignores libc false (net_define ∷ system_define ∷ []) (λ i. to_file) logs
      (refl, (refl, tt))

abbrev definitions : List LogDefine
definitions =
    record {
      name = codes "net";
      level = unknow;
      formatter = codes "%m";
      appenders =
          record { type = 2; level = info; formatter = []; file = [] }
          ∷ record { type = 1; level = unknow; formatter = codes "%m%n"; file = codes "net.log" }
          ∷ [];
    }
    ∷ record system_define { appenders = to_file }
    ∷ []

logs_cast-IsRead_example : IsRead (logs_cast toy) definitions
logs_cast-IsRead_example =
    logs_cast-IsRead toy toy_laws definitions ((refl, tt), (tt, tt))
      ((inr (refl, refl), (inl refl, tt)), ((inl refl, tt), tt))

manager_to_yaml_string-logs_cast_example :
    (do s ← manager_to_yaml_string toy logs; (logs_cast toy).of_text s)
    ≡ some (fill (ordered (λ i j. text_less i.name j.name)) [] (defines_of logs logs.table))
manager_to_yaml_string-logs_cast_example = manager_to_yaml_string-logs_cast toy toy_laws logs
