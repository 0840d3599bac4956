-- ===== src/Factory/Last.antt =====
-- Which of the constructors registered with sylar/factory.h is the one that is called.
use prozac.Prelude.{
  ℕ, ◌≡◌, refl, ap, ◌∙◌, Option, none, some, List, [], ◌∷◌, ◌==◌, if◌then◌else◌, same, lookup,
  lookup-insert, text_eq,
}
use prozac.Factory.{Maker, Created, reg_create_obj_func, create_obj}

-- The static objects run one after another.
abbrev pub register_all : List (List ℕ × Maker) → List (List ℕ × Maker) → List (List ℕ × Maker)
register_all [] m = m
register_all ((name, f) ∷ rs) m = register_all rs (reg_create_obj_func name f m)

-- The last constructor of a name, or another one.
abbrev pub last_of : List ℕ → Option Maker → List (List ℕ × Maker) → Option Maker
last_of name f [] = f
last_of name f ((n, g) ∷ rs) = last_of name (if same n name then some g else f) rs

abbrev pub made_by : ℕ → ℕ → Option Maker → Created
made_by ty arg none = Created.null
made_by ty arg (some f) = if f.type == ty then Created.object (f.make arg) else Created.undefined

lookup-register_all :
    (name : List ℕ) (rs m : List (List ℕ × Maker))
    → lookup name (register_all rs m) ≡ last_of name (lookup name m) rs
unfolding reg_create_obj_func
lookup-register_all name [] m = refl
lookup-register_all name ((n, f) ∷ rs) m =
    lookup-register_all name rs (reg_create_obj_func n f m)
    ∙ ap (λ o. last_of name o rs) (lookup-insert n name f m)

-- After any registrations, `CreateObj` calls the last constructor of the name, of those that
-- ran, and gives nullptr for a name that was never registered.
pub create_obj-register_all :
    (ty arg : ℕ) (name : List ℕ) (rs : List (List ℕ × Maker))
    → create_obj ty name arg (register_all rs []) ≡ made_by ty arg (last_of name none rs)
unfolding create_obj lookup
create_obj-register_all ty arg name rs =
    by_lookup (lookup name (register_all rs []))
    ∙ ap (made_by ty arg) (lookup-register_all name rs [])
  where
    by_lookup :
        (o : Option Maker)
        → (elim o as (λ _. Created) [
          | none ↦ Created.null
          | some f ↦ if f.type == ty then Created.object (f.make arg) else Created.undefined
        ])
          ≡ made_by ty arg o
    by_lookup none = refl
    by_lookup (some f) = refl
