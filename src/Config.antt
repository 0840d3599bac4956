-- ===== src/Config.antt =====
-- `ConfigVar` and `Config` of sylar/config.h and sylar/config.cpp: a value that tells its listeners of
-- a change, and the table of such values by name. What the listeners do is not modelled: each call is
-- recorded. The locks are left out: each operation is one step.
use prozac.Prelude.{
  ℕ, ◌+◌, ◌%◌, ◌^◌, ◌≡◌, Bool, true, false, not, ◌&&◌, ◌||◌, Option, none, some, List, [], ◌∷◌,
  ◌++◌, ◌==◌, if◌then◌else◌, Eq, lookup, insert, codes, contains, text_eq, ltb,
}
pub mod Var
pub mod Table
pub mod Casts
pub mod Trips
pub mod Ordered
pub mod Load
pub mod Dir
mod Tests

-- A variable; its listeners stand in the order of their ids.
pub record ConfigVar {ℓ} (A : Type ℓ) : Type ℓ where
  pub name : List ℕ
  pub val : A
  pub cbs : List ℕ

-- A call of a listener with the old value and the new one.
pub record Call {ℓ} (A : Type ℓ) : Type ℓ where
  pub listener : ℕ
  pub old : A
  pub new : A

-- `m_cbs.erase`
unfoldable pub erase : ℕ → List ℕ → List ℕ
erase i [] = []
erase i (j ∷ js) = if j == i then erase i js else j ∷ erase i js

module _ {ℓ} {A : Type ℓ} where
  -- The loop over the listeners.
  unfoldable pub call_all : List ℕ → A → A → List (Call A)
  call_all [] x y = []
  call_all (i ∷ is) x y = record { listener = i; old = x; new = y } ∷ call_all is x y

  -- `ConfigVar::setValue`; second, the calls made.
  unfoldable pub set_value : ⦃e : Eq A⦄ → A → ConfigVar A → ConfigVar A × List (Call A)
  unfolding call_all
  set_value ⦃e⦄ v x =
      if e.beq v x.val then (x, []) else (record x { val = v }, call_all x.cbs x.val v)

  -- `ConfigVar::fromString`, where `read` is the conversion and `none` its exception; last, what is
  -- returned.
  unfoldable pub from_string :
      ⦃e : Eq A⦄ → (List ℕ → Option A) → List ℕ → ConfigVar A → ConfigVar A × List (Call A) × Bool
  unfolding set_value
  from_string ⦃e⦄ read s x =
      let unchanged : ConfigVar A × List (Call A) × Bool = (x, [], false) in
      elim (read s) as (λ _. ConfigVar A × List (Call A) × Bool) [
        | none ↦ unchanged
        | some v ↦ let (y, calls) = set_value v x in (y, calls, false)
      ]

  -- `ConfigVar::toString`, where `write` is the conversion and `none` its exception.
  unfoldable pub to_string : (A → Option (List ℕ)) → ConfigVar A → List ℕ
  to_string write x = elim (write x.val) [ none ↦ [] | some s ↦ s ]

  -- `addListener`, where `s_fun_id` is the last id given to a variable of this type: the next one
  -- comes last in the map, until they wrap.
  unfoldable pub add_listener : ℕ → ConfigVar A → ℕ × ConfigVar A
  add_listener s_fun_id x =
      let id = (s_fun_id + 1) % 2 ^ 64 in (id, record x { cbs = x.cbs ++ id ∷ [] })

  -- `delListener`
  unfoldable pub del_listener : ℕ → ConfigVar A → ConfigVar A
  unfolding erase
  del_listener i x = record x { cbs = erase i x.cbs }

  -- `clearListener`
  unfoldable pub clear_listener : ConfigVar A → ConfigVar A
  clear_listener x = record x { cbs = [] }

  -- `getListener`: whether there is one.
  unfoldable pub get_listener : ℕ → ConfigVar A → Bool
  get_listener i x = contains i x.cbs

-- The bytes that `Lookup` and `ListAllMember` allow in a name.
abbrev pub allowed : List ℕ
allowed = codes "abcdefghikjlmnopqrstuvwxyz._012345678"

-- `name.find_first_not_of(allowed) == npos`
abbrev pub is_valid : List ℕ → Bool
is_valid [] = true
is_valid (c ∷ cs) = contains c allowed && is_valid cs

-- A variable in the table: its type, by number, and its address.
pub record Entry : Type 0 where
  pub type : ℕ
  pub addr : ℕ

pub data Found : Type 0 where
  var : ℕ → Found
  null invalid_argument : Found

-- `Config::Lookup(name, default)` for the type `ty`, where `new` is the address of a new variable.
unfoldable pub lookup_or_add :
    ℕ → List ℕ → ℕ → List (List ℕ × Entry) → Found × List (List ℕ × Entry)
lookup_or_add ty name new table = elim (lookup name table) as (λ _. Found × List (List ℕ × Entry)) [
  | some x ↦ if x.type == ty then (Found.var x.addr, table) else (Found.null, table)
  | none ↦
      if is_valid name
      then (Found.var new, insert name (record { type = ty; addr = new }) table)
      else (Found.invalid_argument, table)
]

-- `Config::Lookup(name)` for the type `ty`, and `Config::LookupBase(name)`.
unfoldable pub lookup_var : ℕ → List ℕ → List (List ℕ × Entry) → Found
lookup_var ty name table = elim (lookup name table) as (λ _. Found) [
  | some x ↦ if x.type == ty then Found.var x.addr else Found.null
  | none ↦ Found.null
]

unfoldable pub lookup_base : List ℕ → List (List ℕ × Entry) → Found
lookup_base name table = elim (lookup name table) as (λ _. Found) [
  | some x ↦ Found.var x.addr
  | none ↦ Found.null
]
