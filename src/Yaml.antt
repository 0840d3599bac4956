-- ===== src/Yaml.antt =====
-- yaml-cpp as sylar/config.h, sylar/config.cpp and sylar/log.cpp use it. It is not part of the
-- repository: a record of its operations, and the laws that its documentation gives.
use prozac.Prelude.{
  ℕ, ◌<◌, ◌≡◌, refl, Bool, Option, none, some, List, [], ◌∷◌, All, text_eq, lookup, insert,
}
pub mod Flat

-- `none` is an exception.
infixl 5 ◌>>=◌
abbrev pub ◌>>=◌ {ℓ κ} : {A : Type ℓ} {B : Type κ} → Option A → (A → Option B) → Option B
none >>= f = none
some a >>= f = f a

pub >>=-eq-some {ℓ κ} :
    {A : Type ℓ} {B : Type κ} (o : Option A) (f : A → Option B) {b : B}
    → (o >>= f) ≡ some b
    → (a : A) × (o ≡ some a) × (f a ≡ some b)
>>=-eq-some none f h = cc
>>=-eq-some (some a) f h = (a, refl, h)

pub record Yaml : Type 1 where
  pub Node : Type 0
  -- `YAML::Load`, and `ss << node`
  pub load : List ℕ → Option Node
  pub emit : Node → List ℕ
  -- `Node()`, `Node(NodeType::Sequence)`, `Node(NodeType::Map)`, and the node of a string
  pub null_node : Node
  pub sequence : Node
  pub mapping : Node
  pub scalar : List ℕ → Node
  -- `IsScalar()`, `IsMap()`, `Scalar()` and `as<std::string>()`
  pub is_scalar : Node → Bool
  pub is_map : Node → Bool
  pub scalar_of : Node → List ℕ
  pub as_text : Node → Option (List ℕ)
  -- `node[0]` up to `node[node.size() - 1]`, and `node.push_back(x)`
  pub items : Node → List Node
  pub push_back : Node → Node → Node
  -- From `node.begin()` to `node.end()`: the `Scalar()` of the key, and the value.
  pub entries : Node → List (List ℕ × Node)
  -- `node[k]`, in it `none` where it is not `IsDefined()`; and `node[k] = x`
  pub field : List ℕ → Node → Option (Option Node)
  pub set_field : List ℕ → Node → Node → Node
  -- How deep a node is nested.
  pub depth : Node → ℕ

module _ (y : Yaml) where
  abbrev pub pushes : y.Node → List y.Node → y.Node
  pushes n [] = n
  pushes n (x ∷ xs) = pushes (y.push_back n x) xs

  abbrev pub set_fields : y.Node → List (List ℕ × y.Node) → y.Node
  set_fields n [] = n
  set_fields n ((k, x) ∷ rest) = set_fields (y.set_field k x n) rest

abbrev pub inserts {ℓ} : {V : Type ℓ} → List (List ℕ × V) → List (List ℕ × V) → List (List ℕ × V)
inserts m [] = m
inserts m ((k, x) ∷ rest) = inserts (insert k x m) rest

-- What is emitted is loaded again; a sequence has what was pushed, a mapping what was set, and a null
-- node becomes either; a node is nested deeper than its entries.
pub record YamlLaws (y : Yaml) : Type 0 where
  pub load-emit : (n : y.Node) → y.load (y.emit n) ≡ some n
  pub as_text-scalar : (s : List ℕ) → y.as_text (y.scalar s) ≡ some s
  pub items-sequence : (xs : List y.Node) → y.items (pushes y y.sequence xs) ≡ xs
  pub items-null : (xs : List y.Node) → y.items (pushes y y.null_node xs) ≡ xs
  pub entries-mapping :
      (kvs : List (List ℕ × y.Node)) → y.entries (set_fields y y.mapping kvs) ≡ inserts [] kvs
  pub field-null :
      (j : List ℕ) (kvs : List (List ℕ × y.Node))
      → y.field j (set_fields y y.null_node kvs) ≡ some (lookup j (inserts [] kvs))
  pub entries-depth : (n : y.Node) → All (λ kx. y.depth kx.1 < y.depth n) (y.entries n)
