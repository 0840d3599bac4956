-- ===== src/Config/Casts.antt =====
-- The conversions `LexicalCast` of sylar/config.h between containers and the text of YAML. The loops are
-- the same for each container: they are written once, over what the container does.
use prozac.Prelude.{
  ℕ, ◌≡◌, Bool, true, false, Option, some, List, [], ◌∷◌, ◌++◌, ltb, if◌then◌else◌, text_eq,
}
use prozac.Yaml.{Yaml, ◌>>=◌}

-- `LexicalCast<std::string, A>` and `LexicalCast<A, std::string>`; `none` is an exception.
pub record Cast (A : Type 0) : Type 0 where
  pub of_text : List ℕ → Option A
  pub to_text : A → Option (List ℕ)

-- A container `C` of members of `A`: the default one, `push_back` or `insert`, and a loop over it.
pub record Container (C A : Type 0) : Type 0 where
  pub empty : C
  pub put : A → C → C
  pub members : C → List A

module _ {A C : Type 0} where
  abbrev pub fill : Container C A → C → List A → C
  fill k c [] = c
  fill k c (a ∷ rest) = fill k (k.put a c) rest

  -- A container is what comes of putting its members into an empty one.
  abbrev pub IsRebuilt : Container C A → C → Type 0
  IsRebuilt k c = fill k k.empty (k.members c) ≡ c

-- `std::vector` and `std::list`
abbrev pub in_order : {A : Type 0} → Container (List A) A
in_order = record { empty = []; put = λ a c. c ++ a ∷ []; members = λ c. c }

-- `std::set::insert`, with `operator<`
unfoldable pub set_insert : {A : Type 0} → (A → A → Bool) → A → List A → List A
set_insert less a [] = a ∷ []
set_insert less a (b ∷ rest) =
    if less b a then b ∷ set_insert less a rest else (if less a b then a ∷ b ∷ rest else b ∷ rest)

-- `std::set`
abbrev pub ordered : {A : Type 0} → (A → A → Bool) → Container (List A) A
ordered less = record { empty = []; put = set_insert less; members = λ c. c }

-- `operator<` of `std::string`
abbrev pub text_less : List ℕ → List ℕ → Bool
text_less s [] = false
text_less [] (d ∷ t) = true
text_less (c ∷ s) (d ∷ t) = if ltb c d then true else (if ltb d c then false else text_less s t)

-- `std::map<std::string, A>`, in which a key that is there already stays.
abbrev pub by_key : {A : Type 0} → Container (List (List ℕ × A)) (List ℕ × A)
by_key = ordered (λ x z. text_less x.0 z.0)

module _ {A : Type 0} (y : Yaml) (cast : Cast A) where
  -- The loop over `node[i]`.
  unfoldable pub read_items : {C : Type 0} → Container C A → C → List y.Node → Option C
  read_items k c [] = some c
  read_items k c (n ∷ ns) = do a ← cast.of_text (y.emit n); read_items k (k.put a c) ns

  -- The loop that pushes each member.
  unfoldable pub write_items : y.Node → List A → Option y.Node
  write_items node [] = some node
  write_items node (a ∷ rest) = do
    s ← cast.to_text a
    n ← y.load s
    write_items (y.push_back node n) rest

  -- Between a sequence of YAML and a container.
  unfoldable pub sequence_cast : {C : Type 0} → Container C A → Cast C
  unfolding read_items write_items
  sequence_cast k = record {
    of_text = λ s. (do node ← y.load s; read_items k k.empty (y.items node));
    to_text = λ c. (do node ← write_items y.sequence (k.members c); some (y.emit node));
  }

  -- The loop over the entries of a mapping.
  unfoldable pub read_entries :
      {C : Type 0} → Container C (List ℕ × A) → C → List (List ℕ × y.Node) → Option C
  read_entries k c [] = some c
  read_entries k c ((key, n) ∷ rest) = do
    a ← cast.of_text (y.emit n)
    read_entries k (k.put (key, a) c) rest

  -- The loop that sets each key.
  unfoldable pub write_entries : y.Node → List (List ℕ × A) → Option y.Node
  write_entries node [] = some node
  write_entries node ((key, a) ∷ rest) = do
    s ← cast.to_text a
    n ← y.load s
    write_entries (y.set_field key n node) rest

  -- Between a mapping of YAML and a container of keys and values.
  unfoldable pub mapping_cast : {C : Type 0} → Container C (List ℕ × A) → Cast C
  unfolding read_entries write_entries
  mapping_cast k = record {
    of_text = λ s. (do node ← y.load s; read_entries k k.empty (y.entries node));
    to_text = λ c. (do node ← write_entries y.mapping (k.members c); some (y.emit node));
  }

module _ {A : Type 0} (y : Yaml) (cast : Cast A) where
  -- `std::vector<A>`
  unfoldable pub vector_cast : Cast (List A)
  unfolding sequence_cast
  vector_cast = sequence_cast y cast in_order

  -- `std::list<A>`
  unfoldable pub list_cast : Cast (List A)
  unfolding sequence_cast
  list_cast = sequence_cast y cast in_order

  -- `std::set<A>`
  unfoldable pub set_cast : (A → A → Bool) → Cast (List A)
  unfolding sequence_cast
  set_cast less = sequence_cast y cast (ordered less)

  -- `std::map<std::string, A>`
  unfoldable pub map_cast : Cast (List (List ℕ × A))
  unfolding mapping_cast
  map_cast = mapping_cast y cast by_key

-- The unordered containers keep their members in an order that is not given: what they do is an argument.
module _ {A C : Type 0} (y : Yaml) (cast : Cast A) where
  -- `std::unordered_set<A>`
  unfoldable pub unordered_set_cast : Container C A → Cast C
  unfolding sequence_cast
  unordered_set_cast k = sequence_cast y cast k

  -- `std::unordered_map<std::string, A>`
  unfoldable pub unordered_map_cast : Container C (List ℕ × A) → Cast C
  unfolding mapping_cast
  unordered_map_cast k = mapping_cast y cast k
