-- ===== src/Log/Levels.antt =====
-- `LogLevel` of sylar/log.h and sylar/log.cpp, and its texts.
use prozac.Prelude.{ℕ, ◌≡◌, refl, List, [], ◌∷◌, if◌then◌else◌, same, codes}

pub data Level : Type 0 where
  unknow debug info warn error fatal : Level

-- The number of the enumerator.
abbrev pub number : Level → ℕ
number unknow = 0
number debug = 1
number info = 2
number warn = 3
number error = 4
number fatal = 5

-- `LogLevel::ToString`
unfoldable pub to_string : Level → List ℕ
to_string debug = codes "DEBUG"
to_string info = codes "INFO"
to_string warn = codes "WARN"
to_string error = codes "ERROR"
to_string fatal = codes "FATAL"
to_string unknow = codes "UNKNOW"

abbrev first_of : List ℕ → List (List ℕ × Level) → Level
first_of s [] = unknow
first_of s ((t, l) ∷ ts) = if same s t then l else first_of s ts

-- `LogLevel::FromString`
unfoldable pub from_string : List ℕ → Level
from_string s = first_of s (
    (codes "debug", debug)
    ∷ (codes "info", info)
    ∷ (codes "warn", warn)
    ∷ (codes "error", error)
    ∷ (codes "fatal", fatal)
    ∷ (codes "DEBUG", debug)
    ∷ (codes "INFO", info)
    ∷ (codes "WARN", warn)
    ∷ (codes "ERROR", error)
    ∷ (codes "FATAL", fatal)
    ∷ [])

-- Every level is read back from its text.
pub from_string-to_string : (l : Level) → from_string (to_string l) ≡ l
unfolding from_string to_string
from_string-to_string unknow = refl
from_string-to_string debug = refl
from_string-to_string info = refl
from_string-to_string warn = refl
from_string-to_string error = refl
from_string-to_string fatal = refl
