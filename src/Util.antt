-- ===== src/Util.antt =====
-- sylar/util.cpp: the clock and the texts of backtraces. The calls of libgcc and glibc are arguments:
-- what gettimeofday gives, the symbols of the frames on the stack, and the demangler.
use prozac.Prelude.{
  ℕ, zero, suc, ◌+◌, ◌*◌, ◌/◌, ◌%◌, ◌^◌, Bool, true, false, not, ◌&&◌, ◌||◌, Option, none, some,
  List, [], ◌∷◌, ◌++◌, ◌==◌, leb, if◌then◌else◌, concat_map,
}
pub mod Clock
pub mod Symbols
mod Tests

-- `GetCurrentMS` and `GetCurrentUS` at `sec` seconds and `usec` microseconds.
pub get_current_ms : ℕ → ℕ → ℕ
get_current_ms sec usec = (sec * 1000 + usec / 1000) % 2 ^ 64

pub get_current_us : ℕ → ℕ → ℕ
get_current_us sec usec = (sec * 1000 * 1000 + usec) % 2 ^ 64

-- What sscanf does for a set of bytes: the bytes of the set at the front, as many as `n`, and what comes
-- after all of them.
pub take_set : (ℕ → Bool) → ℕ → List ℕ → List ℕ
take_set p zero s = []
take_set p (suc n) [] = []
take_set p (suc n) (c ∷ cs) = if p c then c ∷ take_set p n cs else []

pub skip : (ℕ → Bool) → List ℕ → List ℕ
skip p [] = []
skip p (c ∷ cs) = if p c then skip p cs else c ∷ cs

-- `%*[...]` and `%255[...]`: neither takes an empty text.
pub scan_skip : (ℕ → Bool) → List ℕ → Option (List ℕ)
unfolding skip
scan_skip p [] = none
scan_skip p (c ∷ cs) = if p c then some (skip p cs) else none

pub scan_keep : (ℕ → Bool) → List ℕ → Option (List ℕ)
unfolding take_set
scan_keep p s = elim (take_set p 255 s) [ [] ↦ none | c ∷ cs ↦ some (c ∷ cs) ]

abbrev is_space : ℕ → Bool
is_space c = c == b' ' || (leb 9 c && leb c 13)

-- `"%*[^(]%*[^_]%255[^)+]"`
pub symbol_of : List ℕ → Option (List ℕ)
unfolding scan_skip scan_keep
symbol_of s = elim (scan_skip (λ c. not (c == b'(')) s) [
  | none ↦ none
  | some s ↦ elim (scan_skip (λ c. not (c == b'_')) s) [
    | none ↦ none
    | some s ↦ scan_keep (λ c. not (c == b')' || c == b'+')) s
  ]
]

-- `"%255s"`
pub first_word : List ℕ → Option (List ℕ)
unfolding skip scan_keep
first_word s = scan_keep (λ c. not (is_space c)) (skip is_space s)

-- A text and a NUL written at the front of a buffer, which is longer than the text.
pub store : List ℕ → List ℕ → List ℕ
store s [] = []
store [] (b ∷ bs) = 0 ∷ bs
store (c ∷ cs) (b ∷ bs) = c ∷ store cs bs

pub zeros : ℕ → List ℕ
zeros zero = []
zeros (suc n) = 0 ∷ zeros n

-- The symbol's first word in the buffer `rt`, or the symbol when it has none.
pub in_word : List ℕ → List ℕ → List ℕ
unfolding first_word store
in_word s rt = elim (first_word s) [ none ↦ s | some w ↦ store w rt ]

-- `demangle`, with a buffer of 256 bytes.
pub demangle : (List ℕ → Option (List ℕ)) → List ℕ → List ℕ
unfolding symbol_of in_word zeros
demangle cxa_demangle s = elim (symbol_of s) [
  | none ↦ in_word s (zeros 256)
  | some x ↦ elim (cxa_demangle x) [ none ↦ in_word s (store x (zeros 256)) | some v ↦ v ]
]

pub skip_frames : ℕ → List (List ℕ) → List (List ℕ)
skip_frames zero xs = xs
skip_frames (suc n) [] = []
skip_frames (suc n) (x ∷ xs) = skip_frames n xs

pub demangle_all : (List ℕ → Option (List ℕ)) → List (List ℕ) → List (List ℕ)
unfolding demangle
demangle_all cxa_demangle [] = []
demangle_all cxa_demangle (x ∷ xs) = demangle cxa_demangle x ∷ demangle_all cxa_demangle xs

-- `Backtrace(bt, size, skip)`, where `symbols` are those of the first `size` frames, if there is memory
-- for them.
pub backtrace :
    (List ℕ → Option (List ℕ))
    → (ℕ → Option (List (List ℕ)))
    → List (List ℕ)
    → ℕ
    → ℕ
    → List (List ℕ)
unfolding skip_frames demangle_all
backtrace cxa_demangle symbols bt size skip_count = elim (symbols size) [
  | none ↦ bt
  | some strings ↦ bt ++ demangle_all cxa_demangle (skip_frames skip_count strings)
]

-- `BacktraceToString`
pub backtrace_to_string :
    (List ℕ → Option (List ℕ)) → (ℕ → Option (List (List ℕ))) → ℕ → ℕ → List ℕ → List ℕ
unfolding backtrace
backtrace_to_string cxa_demangle symbols size skip_count prefix =
    concat_map (λ line. prefix ++ line ++ b'\n' ∷ [])
      (backtrace cxa_demangle symbols [] size skip_count)
