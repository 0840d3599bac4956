-- ===== src/Env/Tests.antt =====
-- Arguments and help texts of sylar/env.cpp at concrete inputs, and instances of the theorems about
-- them.
use prozac.Prelude.{ℕ, ◌≡◌, ◌≢◌, refl, true, false, none, List, [], ◌∷◌, codes, ok}
use prozac.Env.{Env, init, parse, add}
use prozac.FsUtil.Paths.{last_slash}
use prozac.Env.Args.{Arg, flag, option, parse-written}

abbrev empty : Env
empty = record { args = []; helps = []; program = []; exe = []; cwd = codes "/opt/bin/" }

abbrev options : List Arg
options = option (codes "c") (codes "etc") ∷ flag (codes "d") ∷ []

parse-written_example :
    parse none (codes "-c" ∷ codes "etc" ∷ codes "-d" ∷ []) empty
    ≡ (add (codes "d") [] (add (codes "c") (codes "etc") empty), true)
parse-written_example = parse-written options empty (cons, refl, (cons, tt))
  where
    cons : {c : ℕ} {cs : List ℕ} → (c ∷ cs) ≢ []
    cons e = cc

started :
    init (codes "/opt/bin/sylar") (codes "sylar" ∷ codes "-" ∷ []) empty
    ≡ ok (record empty { program = codes "sylar"; exe = codes "/opt/bin/sylar" }, false)
unfolding init last_slash
started = refl
