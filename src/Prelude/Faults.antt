-- ===== src/Prelude/Faults.antt =====
-- Results of code that may abort: a failed SYLAR_ASSERT (sylar/macro.h), or undefined behaviour.
use mathlib.Core.Path.{◌≡◌, refl}
use mathlib.Core.Bool.{Bool, true, false}
use mathlib.Core.Option.{Option, none, some}
use prozac.Prelude.Tests.{if◌then◌else◌}

-- `bad_call` is a call of an empty std::function, and `thrown` an exception that the code throws.
pub data Fault : Type 0 where
  assertion null_deref out_of_range bad_call thrown : Fault

pub data Result {ℓ} (V : Type ℓ) : Type ℓ where
  err : Fault → Result V
  ok : V → Result V

-- What follows runs only after a good result.
module _ {ℓ κ} {V : Type ℓ} {W : Type κ} where
  infixl 5 ◌>>=◌
  abbrev pub ◌>>=◌ : Result V → (V → Result W) → Result W
  err why >>= next = err why
  ok v >>= next = next v

infixl 5 ◌>>◌
abbrev pub ◌>>◌ {κ} : {W : Type κ} → Result (Unit {0}) → Result W → Result W
first >> next = first >>= λ _. next

-- `SYLAR_ASSERT`, in a build that keeps `assert`.
abbrev pub assert : Bool → Result (Unit {0})
assert true = ok tt
assert false = err assertion

-- What is there, or an exception.
abbrev pub or_throw {ℓ} : {V : Type ℓ} → Option V → Result V
or_throw none = err thrown
or_throw (some v) = ok v

-- A guarded result that is good: the guard holds, and the result is known.
pub guarded-eq-ok {ℓ} :
    {A : Type ℓ} (b : Bool) (e : Fault) {x y : A}
    → (if b then ok x else err e) ≡ ok y
    → (b ≡ true) × (x ≡ y)
guarded-eq-ok true e h = (refl, cc)
guarded-eq-ok false e h = cc

-- What holds of the value of a good result.
abbrev pub OnOk {ℓ κ} : {A : Type ℓ} → (A → Type κ) → Result A → Type κ
OnOk P (ok a) = P a
OnOk P (err e) = Unit

pub OnOk->>= {ℓ κ μ ν} :
    {A : Type ℓ} {B : Type κ} (Q : A → Type μ) (P : B → Type ν) (m : Result A) (f : A → Result B)
    → OnOk Q m
    → ((a : A) → Q a → OnOk P (f a))
    → OnOk P (m >>= f)
OnOk->>= Q P (ok a) f q k = k a q
OnOk->>= Q P (err e) f q k = tt

pub OnOk-any {ℓ κ ν} :
    {A : Type ℓ} {B : Type κ} (P : B → Type ν) (m : Result A) (f : A → Result B)
    → ((a : A) → OnOk P (f a))
    → OnOk P (m >>= f)
OnOk-any P (ok a) f k = k a
OnOk-any P (err e) f k = tt

pub OnOk-mono {ℓ κ μ} :
    {A : Type ℓ} (P : A → Type κ) (Q : A → Type μ) (m : Result A)
    → OnOk P m
    → ((a : A) → P a → Q a)
    → OnOk Q m
OnOk-mono P Q (ok a) p k = k a p
OnOk-mono P Q (err e) p k = tt

-- The result is good, and something holds of its value.
abbrev pub Gives {ℓ} : {A : Type ℓ} → (A → Type 0) → Result A → Type 0
Gives P (ok a) = P a
Gives P (err e) = ⊥

pub Gives->>= {ℓ κ} :
    {A : Type ℓ} {B : Type κ} (Q : A → Type 0) (P : B → Type 0) (m : Result A) (f : A → Result B)
    → Gives Q m
    → ((a : A) → Q a → Gives P (f a))
    → Gives P (m >>= f)
Gives->>= Q P (ok a) f q k = k a q
Gives->>= Q P (err e) f q k = absurd q

pub Gives-mono {ℓ} :
    {A : Type ℓ} (P Q : A → Type 0) (m : Result A) → Gives P m → ((a : A) → P a → Q a) → Gives Q m
Gives-mono P Q (ok a) p k = k a p
Gives-mono P Q (err e) p k = absurd p

-- What holds of any good value holds of the value.
pub Gives-OnOk {ℓ} :
    {A : Type ℓ} (P Q : A → Type 0) (m : Result A) → Gives P m → OnOk Q m → Gives (λ a. P a × Q a) m
Gives-OnOk P Q (ok a) p q = (p, q)
Gives-OnOk P Q (err e) p q = absurd p

pub Gives-eq {ℓ} :
    {A : Type ℓ} (P : A → Type 0) (m : Result A) → Gives P m → (a : A) × (m ≡ ok a) × P a
Gives-eq P (ok a) p = (a, refl, p)
Gives-eq P (err e) p = absurd p

pub Gives-chain {ℓ κ μ} :
    {A : Type ℓ} {B : Type κ} {C : Type μ} (Q : B → Type 0) (P : C → Type 0) (m : Result A)
    (f : A → Result B) (g : B → Result C)
    → Gives Q (m >>= f)
    → ((b : B) → Q b → Gives P (g b))
    → Gives P (m >>= λ a. f a >>= g)
Gives-chain Q P (ok a) f g q k = Gives->>= Q P (f a) g q k
Gives-chain Q P (err e) f g q k = absurd q
