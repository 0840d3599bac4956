-- ===== src/Config/Table.antt =====
-- The table of variables of sylar/config.h.
use prozac.Prelude.{
  ℕ, ◌≡◌, true, some, List, [], ◌∷◌, arith, ◌==◌, if◌then◌else◌, lookup, lookup-insert, same_iff,
  text_eq,
}
use prozac.Config.{Entry, Found, lookup_or_add, lookup_var, is_valid}

-- Every name in the table is valid.
abbrev pub AllValid : List (List ℕ × Entry) → Type 0
AllValid t = (name : List ℕ) (x : Entry) → lookup name t ≡ some x → is_valid name ≡ true

-- `Lookup` with a default keeps the names of the table valid.
pub lookup_or_add-AllValid :
    (ty new : ℕ) (name : List ℕ) (t : List (List ℕ × Entry))
    → AllValid t
    → AllValid (lookup_or_add ty name new t).1
unfolding lookup_or_add
lookup_or_add-AllValid ty new name t v n x e =
    ground
      (arith, e, v n x, same_iff name n, lookup-insert name n (record { type = ty; addr = new }) t)

-- What `Lookup` with a default finds or adds, `Lookup` without one finds afterwards; a second variable
-- is never made for a name, and a name has one type.
pub lookup_var-lookup_or_add :
    (ty tz new other : ℕ) (name : List ℕ) (t : List (List ℕ × Entry)) (a : ℕ)
    → (lookup_or_add ty name new t).0 ≡ Found.var a
    → (lookup_var tz name (lookup_or_add ty name new t).1
        ≡ (if ty == tz then Found.var a else Found.null))
      × (lookup_or_add tz name other (lookup_or_add ty name new t).1
          ≡ ((if ty == tz then Found.var a else Found.null), (lookup_or_add ty name new t).1))
unfolding lookup_or_add lookup_var
lookup_var-lookup_or_add ty tz new other name t a e =
    let found = lookup-insert name name (record { type = ty; addr = new }) t in
    (ground (arith, e, same_iff name name, found), ground (arith, e, same_iff name name, found))

-- A call of `Lookup` with a default: the type, the name and the address of a new variable.
abbrev pub Lookup : Type 0
Lookup = ℕ × List ℕ × ℕ

abbrev pub lookups : List Lookup → List (List ℕ × Entry) → List (List ℕ × Entry)
lookups [] t = t
lookups ((ty, name, new) ∷ ls) t = lookups ls (lookup_or_add ty name new t).1

lookup-lookup_or_add :
    (ty new : ℕ) (name n : List ℕ) (t : List (List ℕ × Entry)) (x : Entry)
    → lookup n t ≡ some x
    → lookup n (lookup_or_add ty name new t).1 ≡ some x
unfolding lookup_or_add
lookup-lookup_or_add ty new name n t x e =
    ground (arith, e, same_iff name n, lookup-insert name n (record { type = ty; addr = new }) t)

lookup-lookups :
    (ls : List Lookup) (n : List ℕ) (t : List (List ℕ × Entry)) (x : Entry)
    → lookup n t ≡ some x
    → lookup n (lookups ls t) ≡ some x
lookup-lookups [] n t x e = e
lookup-lookups ((ty, name, new) ∷ ls) n t x e =
    lookup-lookups ls n (lookup_or_add ty name new t).1 x (lookup-lookup_or_add ty new name n t x e)

-- The entry that `Lookup` with a default has found or made.
entry_of :
    (ty new : ℕ) (name : List ℕ) (t : List (List ℕ × Entry)) (a : ℕ)
    → (lookup_or_add ty name new t).0 ≡ Found.var a
    → lookup name (lookup_or_add ty name new t).1 ≡ some (record { type = ty; addr = a })
unfolding lookup_or_add
entry_of ty new name t a e =
    ground
      (arith, e, same_iff name name, lookup-insert name name (record { type = ty; addr = new }) t)

gives :
    (ty tz other : ℕ) (name : List ℕ) (a : ℕ) (u : List (List ℕ × Entry))
    → lookup name u ≡ some (record { type = ty; addr = a })
    → (lookup_var tz name u ≡ (if ty == tz then Found.var a else Found.null))
      × ((lookup_or_add tz name other u).0 ≡ (if ty == tz then Found.var a else Found.null))
unfolding lookup_var lookup_or_add
gives ty tz other name a u h = (ground (arith, h), ground (arith, h))

-- Once `Lookup` with a default has given a variable for a name, every later `Lookup` of that name, with a
-- default or without one and after any calls for any names and types, gives that variable for its type
-- and nullptr for each other type.
pub lookup_var-lookups :
    (ty tz new other : ℕ) (name : List ℕ) (t : List (List ℕ × Entry)) (ls : List Lookup) (a : ℕ)
    → (lookup_or_add ty name new t).0 ≡ Found.var a
    → (lookup_var tz name (lookups ls (lookup_or_add ty name new t).1)
        ≡ (if ty == tz then Found.var a else Found.null))
      × ((lookup_or_add tz name other (lookups ls (lookup_or_add ty name new t).1)).0
          ≡ (if ty == tz then Found.var a else Found.null))
lookup_var-lookups ty tz new other name t ls a e =
    gives ty tz other name a (lookups ls (lookup_or_add ty name new t).1) (
      lookup-lookups ls name (lookup_or_add ty name new t).1 (record { type = ty; addr = a })
        (entry_of ty new name t a e))
