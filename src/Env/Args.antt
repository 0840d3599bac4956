-- ===== src/Env/Args.antt =====
-- The arguments of the program, as `Env::init` of sylar/env.cpp reads them.
use prozac.Prelude.{
  ℕ, ◌≡◌, ◌≢◌, refl, ap, true, false, not, ◌&&◌, Option, none, some, List, [], ◌∷◌, ◌++◌, arith,
  ◌==◌, if◌then◌else◌, lookup, lookup-insert, text_eq, same, same_iff, codes,
}
use prozac.Env.{
  Args, Env, Word, word_of, parse, add, add_key, del, erase, has, get, get_config_path,
  get_absolute_path,
}

-- An option without a value, and one with a value.
pub data Arg : Type 0 where
  flag : List ℕ → Arg
  option : List ℕ → List ℕ → Arg

abbrev pub written : List Arg → List (List ℕ)
written [] = []
written (flag k ∷ rest) = (b'-' ∷ k) ∷ written rest
written (option k v ∷ rest) = (b'-' ∷ k) ∷ v ∷ written rest

abbrev pub IsValue : List ℕ → Type 0
IsValue [] = Unit
IsValue (c ∷ cs) = (c == b'-') ≡ false

-- Keys are not empty and values do not start with a dash.
abbrev pub AllGood : List Arg → Type 0
AllGood [] = Unit
AllGood (flag k ∷ rest) = (k ≢ []) × AllGood rest
AllGood (option k v ∷ rest) = (k ≢ []) × IsValue v × AllGood rest

abbrev pub added : List Arg → Env → Env
added [] e = e
added (flag k ∷ rest) e = added rest (add k [] e)
added (option k v ∷ rest) e = added rest (add k v e)

word_key : (k : List ℕ) → k ≢ [] → word_of (b'-' ∷ k) ≡ Word.key k
word_key [] h = absurd (h refl)
word_key (c ∷ k) h = refl

word_value : (v : List ℕ) → IsValue v → word_of v ≡ Word.value v
word_value [] h = refl
word_value (c ∷ []) h = ground (arith, h)
word_value (c ∷ d ∷ v) h = ground (arith, h)

parse-written_from :
    (now : Option (List ℕ)) (args : List Arg) (e : Env)
    → AllGood args
    → parse now (written args) e ≡ (added args (add_key now [] e), true)
unfolding parse
parse-written_from now [] e g = refl
parse-written_from now (flag k ∷ rest) e g =
    ground (arith, word_key k g.0, parse-written_from (some k) rest (add_key now [] e) g.1)
parse-written_from now (option k v ∷ rest) e g = ground (
  arith,
  word_key k g.0,
  word_value v g.1,
  parse-written_from none rest (add k v (add_key now [] e)) g.2,
)

-- Arguments written as options, each with its value or without, are read back: each option is added,
-- in order, with its value or the empty text. Keys are not empty and values do not start with a dash.
pub parse-written :
    (args : List Arg) (e : Env) → AllGood args → parse none (written args) e ≡ (added args e, true)
parse-written args e g = parse-written_from none args e g

-- What `add` and `del` do to what `get` gives, for every key.
pub get-add :
    (k v j d : List ℕ) (e : Env) → get j d (add k v e) ≡ (if same k j then v else get j d e)
unfolding get
get-add k v j d e = ground (arith, lookup-insert k j v e.args)

lookup-erase :
    (k j : List ℕ) (m : Args) → lookup j (erase k m) ≡ (if same k j then none else lookup j m)
unfolding lookup
lookup-erase k j [] = ground arith
lookup-erase k j ((i, v) ∷ m) =
    ground (arith, same_iff i k, same_iff k j, same_iff i j, lookup-erase k j m)

-- A key that is deleted is gone, and any other one is as it was.
pub has-del : (k j : List ℕ) (e : Env) → has j (del k e) ≡ (not (same k j) && has j e)
unfolding has
has-del k j e = ground (arith, lookup-erase k j e.args)

-- The configuration's path is that of the option "c" as it was added last; a relative one starts at
-- the directory of the executable.
pub get_config_path-add :
    (c : ℕ) (cs : List ℕ) (e : Env)
    → get_config_path (add (codes "c") (c ∷ cs) e) ≡ (if c == b'/' then c ∷ cs else e.cwd ++ c ∷ cs)
unfolding get_config_path get_absolute_path
get_config_path-add c cs e =
    ap (λ p. get_absolute_path p (add (codes "c") (c ∷ cs) e))
      (get-add (codes "c") (c ∷ cs) (codes "c") (codes "conf") e)
