-- ===== src/Env.antt =====
-- `Env` of sylar/env.h and sylar/env.cpp: the arguments of the program, the help texts, and the paths
-- that are relative to the program's directory. The locks are left out: each operation is one step.
use prozac.Prelude.{
  ℕ, ◌≡◌, Bool, true, false, not, Option, none, some, List, [], ◌∷◌, ◌++◌, ◌==◌, if◌then◌else◌,
  Result, ok, err, null_deref, lookup, insert, codes, same, text_eq,
}
use prozac.FsUtil.Paths.{last_slash}
pub mod Args
pub mod Helps
mod Tests

abbrev pub Args : Type 0
Args = List (List ℕ × List ℕ)

pub record Env : Type 0 where
  pub args : Args
  pub helps : List (List ℕ × List ℕ)
  pub program : List ℕ
  pub exe : List ℕ
  pub cwd : List ℕ

-- `Env::add`
abbrev pub add : List ℕ → List ℕ → Env → Env
add k v e = record e { args = insert k v e.args }

-- `Env::has`
unfoldable pub has : List ℕ → Env → Bool
has k e = elim (lookup k e.args) as (λ _. Bool) [ none ↦ false | some v ↦ true ]

-- `Env::del`
abbrev pub erase : List ℕ → Args → Args
erase k [] = []
erase k ((j, v) ∷ m) = if same j k then erase k m else (j, v) ∷ erase k m

abbrev pub del : List ℕ → Env → Env
del k e = record e { args = erase k e.args }

-- `Env::get`
unfoldable pub get : List ℕ → List ℕ → Env → List ℕ
get k d e = elim (lookup k e.args) as (λ _. List ℕ) [ none ↦ d | some v ↦ v ]

-- `if(now_key) add(now_key, val);`
abbrev pub add_key : Option (List ℕ) → List ℕ → Env → Env
add_key none v e = e
add_key (some k) v e = add k v e

-- The kinds of arguments: `-key`, `-` alone, and any other text.
pub data Word : Type 0 where
  key value : List ℕ → Word
  dash : Word

abbrev pub word_of : List ℕ → Word
word_of [] = Word.value []
word_of (c ∷ []) = if c == b'-' then Word.dash else Word.value (c ∷ [])
word_of (c ∷ d ∷ s) = if c == b'-' then Word.key (d ∷ s) else Word.value (c ∷ d ∷ s)

-- Lines 26-68 of `Env::init`, with `now_key`.
unfoldable pub parse : Option (List ℕ) → List (List ℕ) → Env → Env × Bool
parse now [] e = (add_key now [] e, true)
parse now (w ∷ ws) e = elim (word_of w) as (λ _. Env × Bool) [
  | key k ↦ parse (some k) ws (add_key now [] e)
  | dash ↦ (e, false)
  | value v ↦ elim now as (λ _. Env × Bool) [
    | some k ↦ parse none ws (add k v e)
    | none ↦ (e, false)
  ]
]

-- The directory of the executable, with its slash.
abbrev pub directory : List ℕ → List ℕ
directory exe =
    elim (last_slash exe) as (λ _. List ℕ) [ none ↦ exe | some (before, after) ↦ before ]
    ++ b'/' ∷ []

-- `Env::init`, where `exe` is what the link /proc/<pid>/exe reads; a program without a name has no
-- argv[0].
unfoldable pub init : List ℕ → List (List ℕ) → Env → Result (Env × Bool)
unfolding parse
init exe [] e = err null_deref
init exe (name ∷ ws) e =
    ok (parse none ws (record e { exe = exe; cwd = directory exe; program = name }))

-- `Env::removeHelp`
abbrev pub remove_help : List ℕ → List (List ℕ × List ℕ) → List (List ℕ × List ℕ)
remove_help k [] = []
remove_help k ((j, d) ∷ hs) = if same j k then remove_help k hs else (j, d) ∷ remove_help k hs

-- `Env::addHelp`
unfoldable pub add_help : List ℕ → List ℕ → List (List ℕ × List ℕ) → List (List ℕ × List ℕ)
add_help k d hs = remove_help k hs ++ (k, d) ∷ []

-- `Env::getAbsolutePath`
unfoldable pub get_absolute_path : List ℕ → Env → List ℕ
get_absolute_path [] e = codes "/"
get_absolute_path (c ∷ cs) e = if c == b'/' then c ∷ cs else e.cwd ++ c ∷ cs

-- `Env::getAbsoluteWorkPath`, where `work` is the value of the configuration "server.work_path".
unfoldable pub get_absolute_work_path : List ℕ → List ℕ → List ℕ
get_absolute_work_path work [] = codes "/"
get_absolute_work_path work (c ∷ cs) = if c == b'/' then c ∷ cs else work ++ b'/' ∷ c ∷ cs

-- `Env::getConfigPath`
unfoldable pub get_config_path : Env → List ℕ
unfolding get get_absolute_path
get_config_path e = get_absolute_path (get (codes "c") (codes "conf") e) e
