-- ===== src/Log/Delivery.antt =====
-- What reaches the appenders of sylar/log.cpp.
use prozac.Prelude.{
  ℕ, suc, ◌≡◌, refl, sym, ap₂, ◌∙◌, ◌&&◌, Option, none, some, List, [], ◌∷◌, ◌++◌, arith, leb, ◌==◌,
  ==_iff, if◌then◌else◌, update, ok, text_eq, All, append_assoc, append-nil, inl, inr, Bool-cases,
  Option-cases,
}
use prozac.Log.Levels.{number}
use prozac.Log.Pattern.{LogFormatter}
use prozac.Log.Loggers.{
  Event, Sink, stdout, file, Appender, Logger, Logs, Libc, format, reopen_after, is_open,
  appender_log, log_all, logger_log,
}

abbrev pub IsFormatted : Appender → Type 0
IsFormatted x = (f : LogFormatter) × (x.formatter ≡ some f)

-- The line that an appender writes for an event, if any.
abbrev text_of : Libc → Event → Option LogFormatter → List ℕ
text_of c ev none = []
text_of c ev (some f) = format c.strftime f.items ev

abbrev pub line : Libc → Event → ℕ → Appender → List (ℕ × List ℕ)
line c ev a x =
    if leb (number x.level) (number ev.level) && is_open (reopen_after c ev.time x.sink)
    then (a, text_of c ev x.formatter) ∷ []
    else []

abbrev pub lines : Libc → Event → (ℕ → Appender) → List ℕ → List (ℕ × List ℕ)
lines c ev h [] = []
lines c ev h (a ∷ rest) = line c ev a (h a) ++ lines c ev h rest

-- Opening a file again right away makes no difference.
is_open_twice :
    (c : Libc) (now : ℕ) (k : Sink)
    → is_open (reopen_after c now (reopen_after c now k)) ≡ is_open (reopen_after c now k)
unfolding reopen_after
is_open_twice c now stdout = refl
is_open_twice c now (file f o last) = ground arith

line_again :
    (c : Libc) (ev : Event) (a b : ℕ) (h : ℕ → Appender)
    → line c ev b (update h a (record (h a) { sink = reopen_after c ev.time (h a).sink }) b)
      ≡ line c ev b (h b)
line_again c ev a b h = elim (Bool-cases (b == a)) [
  | inl e ↦
      let same' : b ≡ a = (==_iff b a).0 e in
      ground (arith, e, same', is_open_twice c ev.time (h a).sink)
  | inr e ↦ ground (arith, e)
]

formatter_again :
    (c : Libc) (ev : Event) (a b : ℕ) (h : ℕ → Appender)
    → (update h a (record (h a) { sink = reopen_after c ev.time (h a).sink }) b).formatter
      ≡ (h b).formatter
formatter_again c ev a b h = elim (Bool-cases (b == a)) [
  | inl e ↦ let same' : b ≡ a = (==_iff b a).0 e in ground (arith, e, same')
  | inr e ↦ ground (arith, e)
]

-- Loggers stay, and an appender differs at most in when its file was opened.
Alike : Libc → Event → Logs → Logs → Type 0
Alike c ev s t =
    (t.loggers ≡ s.loggers)
    × ((b : ℕ) → line c ev b (t.appenders b) ≡ line c ev b (s.appenders b))
    × ((b : ℕ) → (t.appenders b).formatter ≡ (s.appenders b).formatter)

lines-Alike :
    (c : Libc) (ev : Event) (s t : Logs) (bs : List ℕ)
    → Alike c ev s t
    → lines c ev t.appenders bs ≡ lines c ev s.appenders bs
unfolding Alike
lines-Alike c ev s t [] k = refl
lines-Alike c ev s t (b ∷ bs) k = ap₂ (◌++◌) (k.1 b) (lines-Alike c ev s t bs k)

All-IsFormatted :
    (c : Libc) (ev : Event) (s t : Logs) (bs : List ℕ)
    → Alike c ev s t
    → All (λ b. IsFormatted (s.appenders b)) bs
    → All (λ b. IsFormatted (t.appenders b)) bs
unfolding Alike
All-IsFormatted c ev s t [] k p = tt
All-IsFormatted c ev s t (b ∷ bs) k p = ((p.0.0, k.2 b ∙ p.0.1), All-IsFormatted c ev s t bs k p.1)

appender_log_lem :
    (c : Libc) (a : ℕ) (ev : Event) (s : Logs)
    → IsFormatted (s.appenders a)
    → (t : Logs) × (appender_log c a ev s ≡ ok t)
      × (t.out ≡ s.out ++ line c ev a (s.appenders a))
      × Alike c ev s t
unfolding appender_log Alike
appender_log_lem c a ev s (f, e) =
    let x = s.appenders a in
    let y = record x { sink = reopen_after c ev.time x.sink } in
    elim (Bool-cases (leb (number x.level) (number ev.level))) [
      | inr d ↦ (
        s,
        ground (arith, d),
        ground (arith, d, append-nil s.out),
        (refl, (λ b. refl), λ b. refl),
      )
      | inl d ↦ (
        record s { appenders = update s.appenders a y; out = s.out ++ line c ev a x },
        ground (arith, d, e, append-nil s.out),
        refl,
        (refl, (λ b. line_again c ev a b s.appenders), λ b. formatter_again c ev a b s.appenders),
      )
    ]

log_all_lem :
    (c : Libc) (bs : List ℕ) (ev : Event) (s : Logs)
    → All (λ b. IsFormatted (s.appenders b)) bs
    → (t : Logs) × (log_all c bs ev s ≡ ok t)
      × (t.out ≡ s.out ++ lines c ev s.appenders bs)
      × Alike c ev s t
unfolding log_all Alike
log_all_lem c [] ev s p = (s, refl, sym (append-nil s.out), (refl, (λ b. refl), λ b. refl))
log_all_lem c (a ∷ bs) ev s p =
    let (t, e, o, k) = appender_log_lem c a ev s p.0 in
    let (u, e', o', k') = log_all_lem c bs ev t (All-IsFormatted c ev s t bs k p.1) in
    (
      u,
      ground (arith, e, e'),
      ground (
        arith,
        o,
        o',
        lines-Alike c ev s t bs k,
        append_assoc s.out (line c ev a (s.appenders a)) (lines c ev s.appenders bs),
      ),
      (k'.0 ∙ k.0, (λ b. k'.1 b ∙ k.1 b), λ b. k'.2 b ∙ k.2 b),
    )

-- The appenders that an event of a logger reaches: its own, or the root's when it has none.
abbrev pub passing : Event → Logger → List ℕ
passing ev x = if leb (number x.level) (number ev.level) then x.appenders else []

abbrev pub targets : Event → Logs → ℕ → List ℕ
targets ev s l =
    let x = s.loggers l in
    let above = elim x.root as (λ _. List ℕ) [ none ↦ [] | some r ↦ passing ev (s.loggers r) ] in
    let own = elim x.appenders as (λ _. List ℕ) [ [] ↦ above | a ∷ rest ↦ a ∷ rest ] in
    if leb (number x.level) (number ev.level) then own else []

-- The root logger of a logger has no root itself, as with every logger that the manager makes.
abbrev pub IsRooted : Logs → ℕ → Type 0
IsRooted s l = (r : ℕ) → (s.loggers l).root ≡ some r → (s.loggers r).root ≡ none

route :
    (n : ℕ) (c : Libc) (l : ℕ) (ev : Event) (s : Logs)
    → IsRooted s l
    → logger_log (suc (suc n)) c l ev s ≡ log_all c (targets ev s l) ev s
unfolding logger_log log_all
route n c l ev s root = elim (Option-cases (s.loggers l).root) [
  | inl e ↦ ground (arith, e)
  | inr (r, e) ↦ ground (arith, e, root r e)
]

-- An event is written once by each appender of its logger, or of the root logger when its logger has
-- none, that its level reaches and whose file is open, in the order of the appenders, and by nobody
-- else; the level of each logger and of each appender counts. Every appender reached needs a
-- formatter, and the root logger no root; then two calls deep are enough.
pub logger_log_lem :
    (n : ℕ) (c : Libc) (l : ℕ) (ev : Event) (s : Logs)
    → IsRooted s l
    → All (λ b. IsFormatted (s.appenders b)) (targets ev s l)
    → (t : Logs) × (logger_log (suc (suc n)) c l ev s ≡ ok t)
      × (t.out ≡ s.out ++ lines c ev s.appenders (targets ev s l))
      × (t.loggers ≡ s.loggers)
unfolding Alike
logger_log_lem n c l ev s root p =
    let (t, e, o, k) = log_all_lem c (targets ev s l) ev s p in
    (t, route n c l ev s root ∙ e, o, k.0)
