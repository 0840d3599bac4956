-- ===== src/Log/Trips.antt =====
-- The configuration of loggers in sylar/log.cpp, written as YAML and read again.
use prozac.Prelude.{
  ℕ, ◌≡◌, refl, ap, ◌∙◌, Option, some, List, [], ◌∷◌, ◌++◌, map, codes, text_eq, All, ◌⊎◌, inl, inr,
}
use prozac.Yaml.{Yaml, YamlLaws, ◌>>=◌, pushes, set_fields}
use prozac.Config.Casts.{Container, fill, sequence_cast, read_items, ordered, set_cast, text_less}
use prozac.Config.Trips.{IsSafe, IsRead, sequence_cast-IsSafe}
use prozac.Log.Levels.{Level}
use prozac.Log.Loggers.{Sink, stdout, file, Appender, Logger, Logs}
use prozac.Log.Defines.{LogAppenderDefine, LogDefine}
use prozac.Log.Casts.{
  read_appender, read_define, opt_field, level_text, type_fields, unless_empty, appender_node,
  write_define, define_cast, logs_cast, own_pattern, pattern_of, appender_to_yaml_string, load_each,
  logger_to_yaml_string, loggers_to_yaml, manager_to_yaml_string, sink_fields,
}
use prozac.Config.Ordered.{IsOrdered, ordered-IsRebuilt}
use prozac.Log.Fields.{or_empty, AreRead, read_file_node, read_stdout_node, read_define_fields}

-- An appender definition whose type has a class, a file only where that is written.
abbrev pub IsWritten : LogAppenderDefine → Type 0
IsWritten d = (d.type ≡ 1) ⊎ ((d.type ≡ 2) × (d.file ≡ []))

-- What an appender is as a definition.
abbrev sink_define : Sink → Level → List ℕ → LogAppenderDefine
sink_define stdout v p = record { type = 2; level = v; formatter = p; file = [] }
sink_define (file f open' last) v p = record { type = 1; level = v; formatter = p; file = f }

abbrev described : Appender → LogAppenderDefine
described a = sink_define a.sink a.level (or_empty (own_pattern a))

-- What a logger is as a definition.
abbrev pub define_of : Logs → Logger → LogDefine
define_of s x = record {
  name = x.name;
  level = x.level;
  formatter = or_empty (pattern_of x.formatter);
  appenders = map (λ a. described (s.appenders a)) x.appenders;
}

-- The definitions of the loggers of a table.
abbrev pub defines_of : Logs → List (List ℕ × ℕ) → List LogDefine
defines_of s table = map (λ (kl : List ℕ × ℕ). define_of s (s.loggers kl.1)) table

module _ (y : Yaml) (l : YamlLaws y) where
  or_empty-unless_empty : (f : List ℕ) → or_empty (unless_empty f) ≡ f
  or_empty-unless_empty [] = refl
  or_empty-unless_empty (c ∷ f) = refl

  appender_node-read :
      (d : LogAppenderDefine) → IsWritten d → read_appender y (appender_node y d) ≡ some (some d)
  unfolding appender_node
  appender_node-read d (inl t) = rw t (
      read_file_node y l d.file d.level (unless_empty d.formatter)
      ∙ ap (λ f. some (some (record { type = 1; level = d.level; formatter = f; file = d.file })))
          (or_empty-unless_empty d.formatter))
  appender_node-read d (inr (t, no_file)) =
      rw (t, no_file)
        (read_stdout_node y l [] d.level (unless_empty d.formatter)
          ∙ ap (λ f. some (some (record { type = 2; level = d.level; formatter = f; file = [] })))
              (or_empty-unless_empty d.formatter))

  appender_nodes-AreRead :
      (ds : List LogAppenderDefine) → All IsWritten ds → AreRead y l (map (appender_node y) ds) ds
  appender_nodes-AreRead [] h = tt
  appender_nodes-AreRead (d ∷ ds) h = (appender_node-read d h.0, appender_nodes-AreRead ds h.1)

  read_define-write_define :
      (i : LogDefine) → All IsWritten i.appenders → read_define y (write_define y i) ≡ some i
  unfolding write_define
  read_define-write_define i h =
      read_define_fields y l i.name i.level (unless_empty i.formatter) _ i.appenders
        (appender_nodes-AreRead i.appenders h)
      ∙ ap (λ f. some (record i { formatter = f })) (or_empty-unless_empty i.formatter)

  define_cast-IsSafe : (i : LogDefine) → All IsWritten i.appenders → IsSafe y (define_cast y) i
  unfolding write_define
  define_cast-IsSafe i h =
      ap (λ o. o >>= λ n. read_define y (y.emit n)) (l.load-emit _) ∙ read_define-write_define i h

  -- The definitions of loggers, each with appenders to files or to the standard output, are read back
  -- from the text that the variable "logs" is written as, when they are in the order of their names.
  pub logs_cast-IsRead :
      (defs : List LogDefine)
      → IsOrdered (λ i j. text_less i.name j.name) defs
      → All (λ i. All IsWritten i.appenders) defs
      → IsRead (logs_cast y) defs
  unfolding logs_cast
  logs_cast-IsRead defs o h =
      (sequence_cast-IsSafe y l (define_cast y) (ordered (λ i j. text_less i.name j.name)) defs
        (ordered-IsRebuilt _ defs o) (safe defs h)).0
    where
      safe :
          (defs : List LogDefine)
          → All (λ i. All IsWritten i.appenders) defs
          → All (IsSafe y (define_cast y)) defs
      safe [] h = tt
      safe (i ∷ defs) h = (define_cast-IsSafe i h.0, safe defs h.1)

  sink_node-read :
      (k : Sink) (v : Level) (p : Option (List ℕ))
      → read_appender y (
          set_fields y y.null_node (
            sink_fields y k
            ++ opt_field y (codes "level") (level_text v)
            ++ opt_field y (codes "formatter") p))
        ≡ some (some (sink_define k v (or_empty p)))
  unfolding sink_fields type_fields
  sink_node-read stdout v p = unfold type_fields in read_stdout_node y l [] v p
  sink_node-read (file f open' last) v p = unfold type_fields in read_file_node y l f v p

  appender_yaml_read :
      (a : Appender)
      → (n : y.Node) × (y.load (appender_to_yaml_string y a) ≡ some n)
        × (read_appender y n ≡ some (some (described a)))
  unfolding appender_to_yaml_string sink_fields type_fields
  appender_yaml_read a = (_, l.load-emit _, sink_node-read a.sink a.level (own_pattern a))

  load_each-AreRead :
      (s : Logs) (rest : List ℕ)
      → (ns : List y.Node) × (load_each y
            (map (λ a. appender_to_yaml_string y (s.appenders a)) rest)
          ≡ some ns)
        × AreRead y l ns (map (λ a. described (s.appenders a)) rest)
  unfolding load_each
  load_each-AreRead s [] = ([], refl, tt)
  load_each-AreRead s (a ∷ rest) =
      let (n, e, r) = appender_yaml_read (s.appenders a) in
      let (ns, es, rs) = load_each-AreRead s rest in
      (n ∷ ns, rw (e, ◌>>=◌, es, ◌>>=◌) refl, (r, rs))

  logger_node :
      (s : Logs) (x : Logger)
      → (n : y.Node) × (logger_to_yaml_string y s x ≡ some (y.emit n))
        × (read_define y (y.emit n) ≡ some (define_of s x))
  unfolding logger_to_yaml_string
  logger_node s x =
      let (ns, e, r) = load_each-AreRead s x.appenders in
      (_, rw (e, ◌>>=◌) refl, read_define_fields y l x.name x.level (pattern_of x.formatter) ns _ r)

  -- The text that a logger gives of itself is a configuration: read as one, it is the name, the level and
  -- the pattern of the logger, and the class, level, own pattern and file of each of its appenders.
  pub logger_to_yaml_string-read_define :
      (s : Logs) (x : Logger)
      → (do text ← logger_to_yaml_string y s x; read_define y text) ≡ some (define_of s x)
  logger_to_yaml_string-read_define s x = let (n, e, r) = logger_node s x in rw (e, ◌>>=◌) r

  loggers_to_yaml-read_items :
      {C : Type 0} (k : Container C LogDefine) (s : Logs) (table : List (List ℕ × ℕ))
      (node : y.Node)
      → (ns : List y.Node) × (loggers_to_yaml y s table node ≡ some (pushes y node ns))
        × ((c : C) → read_items y (define_cast y) k c ns ≡ some (fill k c (defines_of s table)))
  unfolding loggers_to_yaml read_items
  loggers_to_yaml-read_items k s [] node = ([], refl, λ c. refl)
  loggers_to_yaml-read_items k s ((name, a) ∷ table) node =
      let (n, e, r) = logger_node s (s.loggers a) in
      let (ns, w, rs) = loggers_to_yaml-read_items k s table (y.push_back node n) in
      (
        n ∷ ns,
        rw (e, ◌>>=◌, l.load-emit n, ◌>>=◌) w,
        λ c. rw (r, ◌>>=◌) (rs (k.put (define_of s (s.loggers a)) c)),
      )

  -- The text of the manager, read as the variable "logs", is the set of the definitions of its loggers.
  pub manager_to_yaml_string-logs_cast :
      (s : Logs)
      → (do text ← manager_to_yaml_string y s; (logs_cast y).of_text text)
        ≡ some (fill (ordered (λ i j. text_less i.name j.name)) [] (defines_of s s.table))
  unfolding manager_to_yaml_string logs_cast set_cast sequence_cast
  manager_to_yaml_string-logs_cast s =
      let (ns, w, r) =
        loggers_to_yaml-read_items (ordered (λ i j. text_less i.name j.name)) s s.table
          y.null_node in
      rw (w, ◌>>=◌, ◌>>=◌, l.load-emit (pushes y y.null_node ns), ◌>>=◌, l.items-null ns) (r [])
