-- ===== src/Log/Defines.antt =====
-- The configuration of loggers in sylar/log.cpp: `LogDefine`, and the listener that `LogIniter` sets
-- on it.
use prozac.Prelude.{
  map, All, ap, ◌∙◌, ℕ, ◌+◌, ◌≡◌, refl, Bool, true, false, ◌&&◌, Option, none, some, List, [], ◌∷◌,
  arith, ◌==◌, ==_self, if◌then◌else◌, update, Result, ok, err, null_deref, ◌>>=◌, same, same_iff,
  text_eq,
}
use prozac.Log.Levels.{Level, number, unknow, debug}
use prozac.Log.Pattern.{new_formatter}
use prozac.Log.Loggers.{
  Sink, stdout, file, Logs, Libc, put_logger, put_appender, add_appender, clear_appenders,
  set_pattern, appender_set_formatter, get_logger,
}

pub record LogAppenderDefine : Type 0 where
  pub type : ℕ
  pub level : Level
  pub formatter : List ℕ
  pub file : List ℕ

pub record LogDefine : Type 0 where
  pub name : List ℕ
  pub level : Level
  pub formatter : List ℕ
  pub appenders : List LogAppenderDefine

-- `LogAppenderDefine::operator==`
abbrev appender_eq : LogAppenderDefine → LogAppenderDefine → Bool
appender_eq a b =
    a.type == b.type
    && (number a.level == number b.level && (same a.formatter b.formatter && same a.file b.file))

abbrev appenders_eq : List LogAppenderDefine → List LogAppenderDefine → Bool
appenders_eq [] [] = true
appenders_eq (a ∷ rest) (b ∷ bs) = appender_eq a b && appenders_eq rest bs
appenders_eq _ _ = false

-- `LogDefine::operator==`, which compares its own appenders with themselves.
unfoldable pub define_eq : LogDefine → LogDefine → Bool
define_eq this oth =
    same this.name oth.name
    && (number this.level == number oth.level
        && (same this.formatter oth.formatter && appenders_eq this.appenders this.appenders))

-- `std::set<LogDefine>::find`, by the order of names.
abbrev pub find : LogDefine → List LogDefine → Option LogDefine
find i [] = none
find i (j ∷ js) = if same i.name j.name then some j else find i js

-- A new appender of the given sink, at the next address.
abbrev new_appender : Sink → Logs → ℕ × Logs
new_appender k s = (
  s.fresh,
  record s {
    appenders =
        update s.appenders s.fresh
          (record { level = debug; has_formatter = false; formatter = none; sink = k });
    fresh = s.fresh + 1;
  },
)

-- Lines 924-936, for the appender at `a`.
finish_appender : ℕ → LogAppenderDefine → ℕ → Logs → Logs
unfolding new_formatter appender_set_formatter add_appender
finish_appender l d a s =
    let s = put_appender a (record (s.appenders a) { level = d.level }) s in
    let s = (elim (new_formatter d.formatter) as (λ _. Logs) [
      | none ↦ s
      | some f ↦
          if same d.formatter []
          then s
          else (if f.is_error then s else appender_set_formatter a (some f) s)
    ]) in
    add_appender l a s

-- The body of the loop over the appenders of a definition; `daemon` is
-- `EnvMgr::GetInstance()->has("d")`. Any other type leaves the pointer null.
add_define : Libc → Bool → ℕ → LogAppenderDefine → Logs → Result Logs
unfolding finish_appender
add_define c daemon l d s =
    let on_file =
      (let (a, s) = new_appender (file d.file (c.opens d.file) 0) s in finish_appender l d a s) in
    let on_stdout = (let (a, s) = new_appender stdout s in finish_appender l d a s) in
    if d.type == 1
    then ok on_file
    else (if d.type == 2 then ok (if daemon then s else on_stdout) else err null_deref)

add_all : Libc → Bool → ℕ → List LogAppenderDefine → Logs → Result Logs
unfolding add_define
add_all c daemon l [] s = ok s
add_all c daemon l (d ∷ ds) s = do s ← add_define c daemon l d s; add_all c daemon l ds s

-- A definition that is new or has changed.
pub apply_define : Libc → Bool → LogDefine → Logs → Result Logs
unfolding add_all clear_appenders set_pattern get_logger
apply_define c daemon i s =
    let (l, s) = get_logger i.name s in
    let s = put_logger l (record (s.loggers l) { level = i.level }) s in
    let s = if same i.formatter [] then s else set_pattern l i.formatter s in
    add_all c daemon l i.appenders (clear_appenders l s)

-- The loop over the new definitions.
unfoldable pub apply_new : Libc → Bool → List LogDefine → List LogDefine → Logs → Result Logs
unfolding apply_define define_eq
apply_new c daemon old [] s = ok s
apply_new c daemon old (i ∷ is) s = do
  s ← elim (find i old) as (λ _. Result Logs) [
    | none ↦ apply_define c daemon i s
    | some j ↦ if define_eq i j then ok s else apply_define c daemon i s
  ]
  apply_new c daemon old is s

-- The loop over the old definitions: a logger that has gone gets the level 0 and no appenders.
unfoldable pub remove_old : List LogDefine → List LogDefine → Logs → Logs
unfolding clear_appenders get_logger
remove_old new [] s = s
remove_old new (i ∷ is) s =
    let (l, s') = get_logger i.name s in
    let gone = clear_appenders l (put_logger l (record (s'.loggers l) { level = unknow }) s') in
    remove_old new is (elim (find i new) as (λ _. Logs) [ none ↦ gone | some j ↦ s ])

-- The listener, but for the line that it logs itself.
unfoldable pub conf_changed : Libc → Bool → List LogDefine → List LogDefine → Logs → Result Logs
unfolding apply_new remove_old
conf_changed c daemon old new s = do s ← apply_new c daemon old new s; ok (remove_old new old s)

level_same : (l : Level) → (number l == number l) ≡ true
level_same l = ==_self (number l)

appenders_same : (rest : List LogAppenderDefine) → appenders_eq rest rest ≡ true
appenders_same [] = refl
appenders_same (a ∷ rest) = ground (
  arith,
  appenders_same rest,
  ==_self a.type,
  level_same a.level,
  same_iff a.formatter a.formatter,
  same_iff a.file a.file,
)

-- A definition with other appenders.
abbrev pub changed : (LogDefine → List LogAppenderDefine) → LogDefine → LogDefine
changed ds i = record i { appenders = ds i }

-- Each definition is the one that is found under its name, as in a std::set.
abbrev pub IsFound : List LogDefine → LogDefine → Type 0
IsFound old i = find i old ≡ some i

module _ (ds : LogDefine → List LogAppenderDefine) where
  find-changed : (i : LogDefine) (js : List LogDefine) → find (changed ds i) js ≡ find i js
  find-changed i [] = refl
  find-changed i (j ∷ js) = ap (λ o. if same i.name j.name then some j else o) (find-changed i js)

  find-map :
      (i j : LogDefine) (js : List LogDefine)
      → find i js ≡ some j
      → find i (map (changed ds) js) ≡ some (changed ds j)
  find-map i j [] e = cc
  find-map i j (k ∷ js) e = ground (arith, e, find-map i j js)

  define_eq-changed : (i : LogDefine) → define_eq (changed ds i) i ≡ true
  unfolding define_eq
  define_eq-changed i = ground (
    arith,
    appenders_same (ds i),
    level_same i.level,
    same_iff i.name i.name,
    same_iff i.formatter i.formatter,
  )

  apply_new-changed :
      (c : Libc) (daemon : Bool) (old is : List LogDefine) (s : Logs)
      → All (IsFound old) is
      → apply_new c daemon old (map (changed ds) is) s ≡ ok s
  unfolding apply_new
  apply_new-changed c daemon old [] s h = refl
  apply_new-changed c daemon old (i ∷ is) s h =
      rw (find-changed i old ∙ h.0, define_eq-changed i) (apply_new-changed c daemon old is s h.1)

  remove_old-changed :
      (old is : List LogDefine) (s : Logs)
      → All (IsFound old) is
      → remove_old (map (changed ds) old) is s ≡ s
  unfolding remove_old
  remove_old-changed old [] s h = refl
  remove_old-changed old (i ∷ is) s h = rw (find-map i i old h.0) (remove_old-changed old is s h.1)

-- A change of the configuration that changes nothing but the appenders of its loggers, however many there
-- are, does nothing: the comparison of two definitions leaves the appenders out. Each definition is the one
-- found under its name.
pub conf_changed_ignores :
    (c : Libc) (daemon : Bool) (old : List LogDefine) (ds : LogDefine → List LogAppenderDefine)
    (s : Logs)
    → All (IsFound old) old
    → conf_changed c daemon old (map (changed ds) old) s ≡ ok s
unfolding conf_changed
conf_changed_ignores c daemon old ds s h =
    rw (apply_new-changed ds c daemon old old s h) (ap ok (remove_old-changed ds old old s h))
