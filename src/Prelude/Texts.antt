-- ===== src/Prelude/Texts.antt =====
-- `std::string` as the list of its bytes.
use Prim.Native.Nat.{ℕ, zero, suc, ◌+◌, ◌/◌, ◌%◌}
use Prim.Native.Char.{code}
use Prim.Native.String.{String}
use mathlib.Core.Path.{◌≡◌}
use mathlib.Core.Logic.{◌↔◌}
use mathlib.Core.Bool.{Bool, true, false, ◌&&◌}
use mathlib.Core.List.{List, [], ◌∷◌, ◌++◌}
use native.Mathlib.Omega.{arith}
use prozac.Prelude.Tests.{◌==◌, ltb, if◌then◌else◌}
use prozac.Prelude.Maps.{Eq}

-- The bytes of a text in ASCII.
abbrev pub codes : String → List ℕ
codes String.[] = []
codes (String.◌∷◌ c s) = code c ∷ codes s

abbrev pub same : List ℕ → List ℕ → Bool
same [] [] = true
same (x ∷ xs) (y ∷ ys) = x == y && same xs ys
same _ _ = false

pub same_iff : (xs ys : List ℕ) → (same xs ys ≡ true) ↔ (xs ≡ ys)
same_iff [] [] = ground arith
same_iff [] (y ∷ ys) = ground arith
same_iff (x ∷ xs) [] = ground arith
same_iff (x ∷ xs) (y ∷ ys) = ground (arith, same_iff xs ys)

instance abbrev pub text_eq : Eq (List ℕ)
text_eq = record { beq = same; beq_iff = same_iff }

-- A number in decimal, as `std::ostream` and `std::to_string` write it, on fuel above the number.
unfoldable pub digits : ℕ → ℕ → List ℕ
digits zero n = []
digits (suc k) n =
    let rest = digits k (n / 10) in
    if ltb n 10 then (b'0' + n) ∷ [] else rest ++ (b'0' + n % 10) ∷ []

abbrev pub decimal : ℕ → List ℕ
decimal n = digits (suc n) n
