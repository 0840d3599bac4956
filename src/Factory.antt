-- ===== src/Factory.antt =====
-- sylar/factory.h: constructors by the name of their class, filled by static objects before main. An
-- object is its address. A type is a number: that of the base class with those of the arguments.
use prozac.Prelude.{
  ℕ, Option, none, some, List, [], ◌∷◌, ◌==◌, if◌then◌else◌, lookup, insert, text_eq,
}
pub mod Last

-- A constructor: the type that it was made for, and what it does with its argument.
pub record Maker : Type 0 where
  pub type : ℕ
  pub make : ℕ → ℕ

-- What `CreateObj` gives: nullptr, an object, or, through a pointer cast to another type, anything.
pub data Created : Type 0 where
  null undefined : Created
  object : ℕ → Created

-- `Factory::regCreateObjFunc`
pub reg_create_obj_func : List ℕ → Maker → List (List ℕ × Maker) → List (List ℕ × Maker)
unfolding insert
reg_create_obj_func name f m = insert name f m

-- `Factory::CreateObj` for the type `ty`.
pub create_obj : ℕ → List ℕ → ℕ → List (List ℕ × Maker) → Created
unfolding lookup
create_obj ty name arg m = elim (lookup name m) [
  | none ↦ Created.null
  | some f ↦ if f.type == ty then Created.object (f.make arg) else Created.undefined
]
