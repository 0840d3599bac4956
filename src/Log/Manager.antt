-- ===== src/Log/Manager.antt =====
-- The formatters of appenders and the names of loggers in sylar/log.cpp.
use prozac.Prelude.{
  ℕ, ◌<◌, ◌≡◌, refl, subst, not, ◌&&◌, Option, none, some, List, [], ◌∷◌, arith, ◌==◌, ==_iff,
  if◌then◌else◌, lookup, lookup-insert, text_eq, same_iff, contains, inl, inr, ◌⊎◌, Bool-cases,
  Option-cases,
}
use prozac.Log.Pattern.{LogFormatter}
use prozac.Log.Loggers.{
  Logs, put_appender, put_logger, set_formatter, hand_down, get_logger, add_logger, add_appender,
  new_logger, new_logs, Libc,
}
use prozac.Log.Delivery.{IsRooted}

hand_down_lem :
    (f : Option LogFormatter) (bs : List ℕ) (s : Logs) (a : ℕ)
    → (hand_down f bs s).appenders a ≡ (
        if contains a bs && not (s.appenders a).has_formatter
        then record (s.appenders a) { formatter = f }
        else s.appenders a)
unfolding hand_down
hand_down_lem f [] s a = refl
hand_down_lem f (b ∷ bs) s a =
    let y = s.appenders b in
    let s' =
      put_appender b (record y { formatter = if y.has_formatter then y.formatter else f }) s in
    elim (Bool-cases (a == b)) [
      | inl e ↦
          let same' : a ≡ b = (==_iff a b).0 e in ground (arith, same', hand_down_lem f bs s' a)
      | inr e ↦ ground (arith, e, hand_down_lem f bs s' a)
    ]

-- A formatter set on a logger replaces that of each of its appenders, but for those that have one of
-- their own, and of no other appender.
pub set_formatter_lem :
    (l : ℕ) (f : Option LogFormatter) (s : Logs) (a : ℕ)
    → (set_formatter l f s).appenders a ≡ (
        if contains a (s.loggers l).appenders && not (s.appenders a).has_formatter
        then record (s.appenders a) { formatter = f }
        else s.appenders a)
unfolding set_formatter
set_formatter_lem l f s a =
    hand_down_lem f (s.loggers l).appenders
      (put_logger l (record (s.loggers l) { formatter = f }) s) a

-- The manager gives one logger for a name: asking again gives the same one and changes nothing.
pub get_logger_twice :
    (name : List ℕ) (s : Logs) → get_logger name (get_logger name s).1 ≡ get_logger name s
unfolding get_logger
get_logger_twice name s =
    ground (arith, lookup-insert name name s.fresh s.table, same_iff name name)

-- Every name in the table stands for a logger that was made; all but the root have the root above
-- them, and the root has none.
pub record IsManaged (s : Logs) : Type 0 where
  pub top : (s.loggers s.root).root ≡ none
  pub made : s.root < s.fresh
  pub each :
      (name : List ℕ) (l : ℕ)
      → lookup name s.table ≡ some l
      → (l < s.fresh) × ((l ≡ s.root) ⊎ ((s.loggers l).root ≡ some s.root))

pub add_logger-IsManaged :
    (name : List ℕ) (s : Logs)
    → IsManaged s
    → IsManaged (add_logger name s) × IsRooted (add_logger name s) s.fresh
add_logger-IsManaged name s v = (
  record {
    top = ground (arith, v.top, v.made);
    made = omega (arith, v.made);
    each = λ n l e. ground (arith, e, v.each n l, v.made, lookup-insert name n s.fresh s.table);
  },
  λ r e. ground (arith, e, v.top, v.made),
)

rooted :
    (s : Logs) (name : List ℕ) (l : ℕ) → IsManaged s → lookup name s.table ≡ some l → IsRooted s l
rooted s name l v e r f = elim (v.each name l e).1 [
  | inl same' ↦ ground (arith, v.top, same', f)
  | inr up ↦ ground (arith, v.top, up, f)
]

-- A new manager has its loggers in order.
pub new_logs-IsManaged : (c : Libc) → IsManaged (new_logs c)
unfolding new_logs new_logger add_appender lookup
new_logs-IsManaged c = record {
  top = refl;
  made = omega arith;
  each = λ name l e. ground (arith, e);
}

-- Asking for a logger keeps that every name stands for a logger made, the root or one below it, and the
-- root logger of the one given has no root itself.
pub get_logger-IsManaged :
    (name : List ℕ) (s : Logs)
    → IsManaged s
    → IsManaged (get_logger name s).1 × IsRooted (get_logger name s).1 (get_logger name s).0
unfolding get_logger
get_logger-IsManaged name s v = elim (Option-cases (lookup name s.table)) [
  | inl e ↦
      let gives : (s.fresh, add_logger name s) ≡ get_logger name s = ground (arith, e) in
      subst (λ (q : ℕ × Logs). IsManaged q.1 × IsRooted q.1 q.0) gives
        (add_logger-IsManaged name s v)
  | inr (l, e) ↦
      let gives : (l, s) ≡ get_logger name s = ground (arith, e) in
      subst (λ (q : ℕ × Logs). IsManaged q.1 × IsRooted q.1 q.0) gives (v, rooted s name l v e)
]
