-- ===== src/Log/Casts.antt =====
-- The texts of YAML in sylar/log.cpp: `LexicalCast` of `LogDefine`, and the `toYamlString` of appenders,
-- loggers and the manager. A line about a configuration that is wrong goes to std::cout; it is left out.
use prozac.Prelude.{
  ℕ, Option, none, some, List, [], ◌∷◌, ◌++◌, map, ◌==◌, if◌then◌else◌, codes, same, text_eq,
}
use prozac.Yaml.{Yaml, ◌>>=◌, pushes, set_fields}
use prozac.Config.Casts.{Cast, set_cast, text_less}
use prozac.Log.Levels.{Level, to_string, from_string, unknow}
use prozac.Log.Pattern.{LogFormatter}
use prozac.Log.Loggers.{Sink, stdout, file, Appender, Logger, Logs}
use prozac.Log.Defines.{LogAppenderDefine, LogDefine}

-- A level that is not `UNKNOW`, and a formatter that is not empty.
abbrev pub level_text : Level → Option (List ℕ)
level_text unknow = none
level_text l = some (to_string l)

abbrev pub unless_empty : List ℕ → Option (List ℕ)
unless_empty [] = none
unless_empty (c ∷ cs) = some (c ∷ cs)

-- The pattern of a formatter, where there is one.
abbrev pub pattern_of : Option LogFormatter → Option (List ℕ)
pattern_of none = none
pattern_of (some f) = some f.pattern

abbrev pub own_pattern : Appender → Option (List ℕ)
own_pattern a = if a.has_formatter then pattern_of a.formatter else none

module _ (y : Yaml) where
  abbrev Fields : Type 0
  Fields = List (List ℕ × y.Node)

  -- The text of a field, the empty one where it is not there: `FromString` makes `UNKNOW` of that, and
  -- a formatter is empty at first.
  unfoldable pub text_field : List ℕ → y.Node → Option (List ℕ)
  text_field k n = do
    x ← y.field k n
    elim x as (λ _. Option (List ℕ)) [ none ↦ some [] | some x ↦ y.as_text x ]

  -- Lines 803-806 or 811-814, and 823-828.
  unfoldable pub read_rest : ℕ → List ℕ → y.Node → Option (Option LogAppenderDefine)
  unfolding text_field
  read_rest type path a = do
    f ← text_field (codes "formatter") a
    l ← text_field (codes "level") a
    some (some (record { type = type; level = from_string l; formatter = f; file = path }))

  -- Lines 794-821, by the type of the appender.
  unfoldable pub read_typed : List ℕ → y.Node → Option (Option LogAppenderDefine)
  unfolding read_rest
  read_typed type a =
      let on_file : Option (Option LogAppenderDefine) = (do
        f ← y.field (codes "file") a
        elim f as (λ _. Option (Option LogAppenderDefine)) [
          | none ↦ some none
          | some f ↦ (do path ← y.as_text f; read_rest 1 path a)
        ]) in
      if same type (codes "FileLogAppender")
      then on_file
      else (if same type (codes "StdoutLogAppender") then read_rest 2 [] a else some none)

  -- The body of the loop over the appenders; in it, `none` is `continue`.
  unfoldable pub read_appender : y.Node → Option (Option LogAppenderDefine)
  unfolding read_typed
  read_appender a = do
    t ← y.field (codes "type") a
    elim t as (λ _. Option (Option LogAppenderDefine)) [
      | none ↦ some none
      | some t ↦ (do type ← y.as_text t; read_typed type a)
    ]

  unfoldable pub read_appenders : List y.Node → Option (List LogAppenderDefine)
  unfolding read_appender
  read_appenders [] = some []
  read_appenders (a ∷ rest) = do
    d ← read_appender a
    ds ← read_appenders rest
    some (elim d as (λ _. List LogAppenderDefine) [ none ↦ ds | some d ↦ d ∷ ds ])

  -- `LexicalCast<std::string, LogDefine>`
  unfoldable pub read_define : List ℕ → Option LogDefine
  unfolding text_field read_appenders
  read_define s = do
    n ← y.load s
    x ← y.field (codes "name") n
    x ← x
    name ← y.as_text x
    level ← text_field (codes "level") n
    formatter ← text_field (codes "formatter") n
    a ← y.field (codes "appenders") n
    ds ← elim a as (λ _. Option (List LogAppenderDefine)) [
      | none ↦ some []
      | some a ↦ read_appenders (y.items a)
    ]
    some (record { name = name; level = from_string level; formatter = formatter; appenders = ds })

  -- A field that is there or not.
  unfoldable pub opt_field : List ℕ → Option (List ℕ) → Fields
  opt_field k none = []
  opt_field k (some s) = (k, y.scalar s) ∷ []

  unfoldable pub appenders_field : List y.Node → Fields
  appenders_field [] = []
  appenders_field (n ∷ ns) = (codes "appenders", pushes y y.null_node (n ∷ ns)) ∷ []

  -- The fields of an appender by its type.
  unfoldable pub type_fields : ℕ → List ℕ → Fields
  type_fields type path =
      if type == 1
      then (codes "type", y.scalar (codes "FileLogAppender")) ∷ (codes "file", y.scalar path) ∷ []
      else (if type == 2 then (codes "type", y.scalar (codes "StdoutLogAppender")) ∷ [] else [])

  -- The loop over the appenders of a definition.
  unfoldable pub appender_node : LogAppenderDefine → y.Node
  unfolding opt_field type_fields
  appender_node a = set_fields y y.null_node (
      type_fields a.type a.file
      ++ opt_field (codes "level") (level_text a.level)
      ++ opt_field (codes "formatter") (unless_empty a.formatter))

  -- `LexicalCast<LogDefine, std::string>`
  unfoldable pub write_define : LogDefine → List ℕ
  unfolding appender_node appenders_field
  write_define i = y.emit (
      set_fields y y.null_node (
        (codes "name", y.scalar i.name) ∷ opt_field (codes "level") (level_text i.level)
        ++ opt_field (codes "formatter") (unless_empty i.formatter)
        ++ appenders_field (map appender_node i.appenders)))

  -- The conversions of the variable "logs", a `std::set<LogDefine>`, in the order of names.
  abbrev pub define_cast : Cast LogDefine
  define_cast = record { of_text = read_define; to_text = λ i. some (write_define i) }

  unfoldable pub logs_cast : Cast (List LogDefine)
  unfolding set_cast
  logs_cast = set_cast y define_cast (λ i j. text_less i.name j.name)

  -- `StdoutLogAppender::toYamlString` and `FileLogAppender::toYamlString`
  unfoldable pub sink_fields : Sink → Fields
  sink_fields stdout = (codes "type", y.scalar (codes "StdoutLogAppender")) ∷ []
  sink_fields (file f open' last) =
      (codes "type", y.scalar (codes "FileLogAppender")) ∷ (codes "file", y.scalar f) ∷ []

  unfoldable pub appender_to_yaml_string : Appender → List ℕ
  unfolding sink_fields opt_field
  appender_to_yaml_string a = y.emit (
      set_fields y y.null_node (
        sink_fields a.sink
        ++ opt_field (codes "level") (level_text a.level)
        ++ opt_field (codes "formatter") (own_pattern a)))

  unfoldable pub load_each : List (List ℕ) → Option (List y.Node)
  load_each [] = some []
  load_each (s ∷ rest) = do n ← y.load s; ns ← load_each rest; some (n ∷ ns)

  -- `Logger::toYamlString`
  unfoldable pub logger_to_yaml_string : Logs → Logger → Option (List ℕ)
  unfolding appender_to_yaml_string load_each appenders_field
  logger_to_yaml_string s x = do
    ns ← load_each (map (λ a. appender_to_yaml_string (s.appenders a)) x.appenders)
    some (
        y.emit (
          set_fields y y.null_node (
            (codes "name", y.scalar x.name) ∷ opt_field (codes "level") (level_text x.level)
            ++ opt_field (codes "formatter") (pattern_of x.formatter)
            ++ appenders_field ns)))

  -- The loop over the loggers in the table.
  unfoldable pub loggers_to_yaml : Logs → List (List ℕ × ℕ) → y.Node → Option y.Node
  unfolding logger_to_yaml_string
  loggers_to_yaml s [] node = some node
  loggers_to_yaml s ((name, l) ∷ rest) node = do
    text ← logger_to_yaml_string s (s.loggers l)
    n ← y.load text
    loggers_to_yaml s rest (y.push_back node n)

  -- `LoggerManager::toYamlString`
  unfoldable pub manager_to_yaml_string : Logs → Option (List ℕ)
  unfolding loggers_to_yaml
  manager_to_yaml_string s = do node ← loggers_to_yaml s s.table y.null_node; some (y.emit node)
