-- ===== src/Log/Fields.antt =====
-- Nodes of YAML that have the fields which sylar/log.cpp writes for appenders and loggers, and what it
-- reads them as.
use prozac.Prelude.{
  ℕ, ◌≡◌, refl, ap, ◌∙◌, Option, none, some, List, [], ◌∷◌, ◌++◌, codes, text_eq, lookup, insert,
}
use prozac.Yaml.{Yaml, YamlLaws, ◌>>=◌, pushes, set_fields, inserts}
use prozac.Log.Levels.{Level, to_string, from_string, unknow, debug, info, warn, error, fatal}
use prozac.Log.Defines.{LogAppenderDefine}
use prozac.Log.Casts.{
  text_field, read_rest, read_typed, read_appender, read_appenders, read_define, opt_field,
  level_text, appenders_field, type_fields,
}

abbrev pub or_empty : Option (List ℕ) → List ℕ
or_empty none = []
or_empty (some f) = f

level_text_lem : (v : Level) → from_string (or_empty (level_text v)) ≡ v
unfolding from_string to_string
level_text_lem unknow = refl
level_text_lem debug = refl
level_text_lem info = refl
level_text_lem warn = refl
level_text_lem error = refl
level_text_lem fatal = refl

module _ (y : Yaml) (l : YamlLaws y) where
  -- A field that was set or not, as it is found.
  abbrev found : Option (List ℕ) → Option y.Node
  found none = none
  found (some s) = some (y.scalar s)

  text_field-found :
      (k : List ℕ) (n : y.Node) (o : Option (List ℕ))
      → y.field k n ≡ some (found o)
      → text_field y k n ≡ some (or_empty o)
  unfolding text_field
  text_field-found k n none h = rw h refl
  text_field-found k n (some s) h = rw h (l.as_text-scalar s)

  -- The fields of an appender of the given type, and what is found among them.
  abbrev pub appender_fields :
      ℕ → List ℕ → Option (List ℕ) → Option (List ℕ) → List (List ℕ × y.Node)
  appender_fields type path o p =
      type_fields y type path ++ opt_field y (codes "level") o ++ opt_field y (codes "formatter") p

  file_lookups :
      (path : List ℕ) (o p : Option (List ℕ))
      → (lookup (codes "type") (inserts [] (appender_fields 1 path o p))
          ≡ some (y.scalar (codes "FileLogAppender")))
        × (lookup (codes "file") (inserts [] (appender_fields 1 path o p)) ≡ some (y.scalar path))
        × (lookup (codes "level") (inserts [] (appender_fields 1 path o p)) ≡ found o)
        × (lookup (codes "formatter") (inserts [] (appender_fields 1 path o p)) ≡ found p)
  unfolding lookup insert type_fields opt_field
  file_lookups path none none = (refl, refl, refl, refl)
  file_lookups path none (some f) = (refl, refl, refl, refl)
  file_lookups path (some v) none = (refl, refl, refl, refl)
  file_lookups path (some v) (some f) = (refl, refl, refl, refl)

  stdout_lookups :
      (path : List ℕ) (o p : Option (List ℕ))
      → (lookup (codes "type") (inserts [] (appender_fields 2 path o p))
          ≡ some (y.scalar (codes "StdoutLogAppender")))
        × (lookup (codes "level") (inserts [] (appender_fields 2 path o p)) ≡ found o)
        × (lookup (codes "formatter") (inserts [] (appender_fields 2 path o p)) ≡ found p)
  unfolding lookup insert type_fields opt_field
  stdout_lookups path none none = (refl, refl, refl)
  stdout_lookups path none (some f) = (refl, refl, refl)
  stdout_lookups path (some v) none = (refl, refl, refl)
  stdout_lookups path (some v) (some f) = (refl, refl, refl)

  read_rest-found :
      (type : ℕ) (path : List ℕ) (n : y.Node) (v : Level) (p : Option (List ℕ))
      → y.field (codes "level") n ≡ some (found (level_text v))
      → y.field (codes "formatter") n ≡ some (found p)
      → read_rest y type path n
        ≡ some (some (record { type = type; level = v; formatter = or_empty p; file = path }))
  unfolding read_rest
  read_rest-found type path n v p hl hf =
      rw
        (
          text_field-found (codes "formatter") n p hf,
          ◌>>=◌,
          text_field-found (codes "level") n (level_text v) hl,
          ◌>>=◌,
          level_text_lem v,
        )
        refl

  -- A node that has the fields of an appender.
  module _ (n : y.Node) (path : List ℕ) (v : Level) (p : Option (List ℕ))
      (level : y.field (codes "level") n ≡ some (found (level_text v)))
      (formatter : y.field (codes "formatter") n ≡ some (found p)) where
    read_file :
        y.field (codes "type") n ≡ some (some (y.scalar (codes "FileLogAppender")))
        → y.field (codes "file") n ≡ some (some (y.scalar path))
        → read_appender y n
          ≡ some (some (record { type = 1; level = v; formatter = or_empty p; file = path }))
    unfolding read_appender read_typed
    read_file t f =
        rw
          (
            t,
            ◌>>=◌,
            l.as_text-scalar (codes "FileLogAppender"),
            ◌>>=◌,
            f,
            ◌>>=◌,
            l.as_text-scalar path,
            ◌>>=◌,
          )
          (read_rest-found 1 path n v p level formatter)

    read_stdout :
        y.field (codes "type") n ≡ some (some (y.scalar (codes "StdoutLogAppender")))
        → read_appender y n
          ≡ some (some (record { type = 2; level = v; formatter = or_empty p; file = [] }))
    unfolding read_appender read_typed
    read_stdout t =
        rw (t, ◌>>=◌, l.as_text-scalar (codes "StdoutLogAppender"), ◌>>=◌)
          (read_rest-found 2 [] n v p level formatter)

  -- What an appender is read as from the fields it is written with.
  abbrev pub node_with : ℕ → List ℕ → Level → Option (List ℕ) → y.Node
  node_with type path v p = set_fields y y.null_node (appender_fields type path (level_text v) p)

  pub read_file_node :
      (path : List ℕ) (v : Level) (p : Option (List ℕ))
      → read_appender y (node_with 1 path v p)
        ≡ some (some (record { type = 1; level = v; formatter = or_empty p; file = path }))
  read_file_node path v p =
      let kvs = appender_fields 1 path (level_text v) p in
      let (ht, hf, hl, hp) = file_lookups path (level_text v) p in
      read_file (node_with 1 path v p) path v p (l.field-null (codes "level") kvs ∙ ap some hl)
        (l.field-null (codes "formatter") kvs ∙ ap some hp)
        (l.field-null (codes "type") kvs ∙ ap some ht)
        (l.field-null (codes "file") kvs ∙ ap some hf)

  pub read_stdout_node :
      (path : List ℕ) (v : Level) (p : Option (List ℕ))
      → read_appender y (node_with 2 path v p)
        ≡ some (some (record { type = 2; level = v; formatter = or_empty p; file = [] }))
  read_stdout_node path v p =
      let kvs = appender_fields 2 path (level_text v) p in
      let (ht, hl, hp) = stdout_lookups path (level_text v) p in
      read_stdout (node_with 2 path v p) path v p (l.field-null (codes "level") kvs ∙ ap some hl)
        (l.field-null (codes "formatter") kvs ∙ ap some hp)
        (l.field-null (codes "type") kvs ∙ ap some ht)

  -- Appenders that are read back one by one are read back together.
  abbrev pub AreRead : List y.Node → List LogAppenderDefine → Type 0
  AreRead [] [] = Unit
  AreRead (n ∷ ns) (d ∷ ds) = (read_appender y n ≡ some (some d)) × AreRead ns ds
  AreRead _ _ = ⊥

  read_appenders-AreRead :
      (ns : List y.Node) (ds : List LogAppenderDefine)
      → AreRead ns ds
      → read_appenders y ns ≡ some ds
  unfolding read_appenders
  read_appenders-AreRead [] [] h = refl
  read_appenders-AreRead [] (d ∷ ds) h = absurd h
  read_appenders-AreRead (n ∷ ns) [] h = absurd h
  read_appenders-AreRead (n ∷ ns) (d ∷ ds) h =
      rw (h.0, ◌>>=◌, read_appenders-AreRead ns ds h.1, ◌>>=◌) refl

  abbrev pub define_fields :
      List ℕ → Option (List ℕ) → Option (List ℕ) → List y.Node → List (List ℕ × y.Node)
  define_fields name o p ns =
      (codes "name", y.scalar name) ∷ opt_field y (codes "level") o
      ++ opt_field y (codes "formatter") p
      ++ appenders_field y ns

  abbrev some_nodes : List y.Node → Option y.Node
  some_nodes [] = none
  some_nodes (n ∷ ns) = some (pushes y y.null_node (n ∷ ns))

  define_lookups :
      (name : List ℕ) (o p : Option (List ℕ)) (ns : List y.Node)
      → (lookup (codes "name") (inserts [] (define_fields name o p ns)) ≡ some (y.scalar name))
        × (lookup (codes "level") (inserts [] (define_fields name o p ns)) ≡ found o)
        × (lookup (codes "formatter") (inserts [] (define_fields name o p ns)) ≡ found p)
        × (lookup (codes "appenders") (inserts [] (define_fields name o p ns)) ≡ some_nodes ns)
  unfolding lookup insert opt_field appenders_field
  define_lookups name none none [] = (refl, refl, refl, refl)
  define_lookups name none (some f) [] = (refl, refl, refl, refl)
  define_lookups name (some v) none [] = (refl, refl, refl, refl)
  define_lookups name (some v) (some f) [] = (refl, refl, refl, refl)
  define_lookups name none none (n ∷ ns) = (refl, refl, refl, refl)
  define_lookups name none (some f) (n ∷ ns) = (refl, refl, refl, refl)
  define_lookups name (some v) none (n ∷ ns) = (refl, refl, refl, refl)
  define_lookups name (some v) (some f) (n ∷ ns) = (refl, refl, refl, refl)

  read_list :
      (ns : List y.Node) (ds : List LogAppenderDefine)
      → AreRead ns ds
      → elim (some_nodes ns) as (λ _. Option (List LogAppenderDefine)) [
        | none ↦ some []
        | some a ↦ read_appenders y (y.items a)
      ]
        ≡ some ds
  read_list [] [] h = refl
  read_list [] (d ∷ ds) h = absurd h
  read_list (n ∷ ns) ds h =
      ap (read_appenders y) (l.items-null (n ∷ ns)) ∙ read_appenders-AreRead (n ∷ ns) ds h

  -- A node that has the fields of a definition.
  module _ (n : y.Node) (name : List ℕ) (v : Level) (p : Option (List ℕ)) (ns : List y.Node)
      (ds : List LogAppenderDefine) (named : y.field (codes "name") n ≡ some (some (y.scalar name)))
      (level : y.field (codes "level") n ≡ some (found (level_text v)))
      (formatter : y.field (codes "formatter") n ≡ some (found p))
      (appenders : y.field (codes "appenders") n ≡ some (some_nodes ns)) where
    read_fields :
        AreRead ns ds
        → read_define y (y.emit n)
          ≡ some (record { name = name; level = v; formatter = or_empty p; appenders = ds })
    unfolding read_define
    read_fields h =
        rw
          (
            l.load-emit n,
            ◌>>=◌,
            named,
            ◌>>=◌,
            ◌>>=◌,
            l.as_text-scalar name,
            ◌>>=◌,
            text_field-found (codes "level") n (level_text v) level,
            ◌>>=◌,
            text_field-found (codes "formatter") n p formatter,
            ◌>>=◌,
            appenders,
            ◌>>=◌,
            level_text_lem v,
          )
          (rw (read_list ns ds h, ◌>>=◌) refl)

  pub read_define_fields :
      (name : List ℕ) (v : Level) (p : Option (List ℕ)) (ns : List y.Node)
      (ds : List LogAppenderDefine)
      → AreRead ns ds
      → read_define y (y.emit (set_fields y y.null_node (define_fields name (level_text v) p ns)))
        ≡ some (record { name = name; level = v; formatter = or_empty p; appenders = ds })
  read_define_fields name v p ns ds h =
      let kvs = define_fields name (level_text v) p ns in
      let (hn, hl, hp, ha) = define_lookups name (level_text v) p ns in
      read_fields (set_fields y y.null_node kvs) name v p ns ds
        (l.field-null (codes "name") kvs ∙ ap some hn)
        (l.field-null (codes "level") kvs ∙ ap some hl)
        (l.field-null (codes "formatter") kvs ∙ ap some hp)
        (l.field-null (codes "appenders") kvs ∙ ap some ha) h
