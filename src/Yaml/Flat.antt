-- ===== src/Yaml/Flat.antt =====
-- A small instance of the operations that sylar/config.h calls: a node is a text, each item followed by
-- a zero and its bytes raised by one, a mapping the keys and values in turn.
use prozac.Prelude.{
  ℕ, zero, suc, ◌+◌, ◌<◌, ◌≤◌, ◌≡◌, refl, sym, ap, ◌∙◌, true, some, List, [], ◌∷◌, ◌++◌,
  append_assoc, append-nil, map, arith, All, length, length-append, text_eq, lookup, insert,
}
use prozac.Yaml.{Yaml, YamlLaws, pushes, set_fields, inserts}

abbrev item : List ℕ → List ℕ
item xs = map suc xs ++ 0 ∷ []

abbrev flat : List (List ℕ) → List ℕ
flat [] = []
flat (x ∷ xs) = item x ++ flat xs

abbrev split : List ℕ → List ℕ → List (List ℕ)
split acc [] = []
split acc (zero ∷ s) = acc ∷ split [] s
split acc (suc c ∷ s) = split (acc ++ c ∷ []) s

abbrev flat_pairs : List (List ℕ × List ℕ) → List (List ℕ)
flat_pairs [] = []
flat_pairs ((k, x) ∷ rest) = k ∷ x ∷ flat_pairs rest

abbrev pairs : List (List ℕ) → List (List ℕ × List ℕ)
pairs (k ∷ x ∷ rest) = (k, x) ∷ pairs rest
pairs _ = []

abbrev pub toy : Yaml
toy = record {
  Node = List ℕ;
  load = some;
  emit = λ n. n;
  null_node = [];
  sequence = [];
  mapping = [];
  scalar = λ s. s;
  is_scalar = λ n. true;
  is_map = λ n. true;
  scalar_of = λ n. n;
  as_text = some;
  items = split [];
  push_back = λ n x. n ++ item x;
  entries = λ n. pairs (split [] n);
  field = λ k n. some (lookup k (pairs (split [] n)));
  set_field = λ k x n. flat (flat_pairs (insert k x (pairs (split [] n))));
  depth = length;
}

split-item : (acc x s : List ℕ) → split acc (map suc x ++ 0 ∷ s) ≡ (acc ++ x) ∷ split [] s
split-item acc [] s = ap (λ l. l ∷ split [] s) (sym (append-nil acc))
split-item acc (c ∷ x) s =
    split-item (acc ++ c ∷ []) x s ∙ ap (λ l. l ∷ split [] s) (append_assoc acc (c ∷ []) x)

split-flat : (xs : List (List ℕ)) → split [] (flat xs) ≡ xs
split-flat [] = refl
split-flat (x ∷ xs) =
    ap (split []) (append_assoc (map suc x) (0 ∷ []) (flat xs))
    ∙ split-item [] x (flat xs)
    ∙ ap (◌∷◌ x) (split-flat xs)

flat-append : (xs ys : List (List ℕ)) → flat (xs ++ ys) ≡ flat xs ++ flat ys
flat-append [] ys = refl
flat-append (x ∷ xs) ys =
    ap (λ l. item x ++ l) (flat-append xs ys) ∙ sym (append_assoc (item x) (flat xs) (flat ys))

pushes-flat : (xs ys : List (List ℕ)) → pushes toy (flat xs) ys ≡ flat (xs ++ ys)
pushes-flat xs [] = ap flat (sym (append-nil xs))
pushes-flat xs (x ∷ ys) =
    ap (λ n. pushes toy n ys)
      (ap (λ l. flat xs ++ l) (sym (append-nil (item x))) ∙ sym (flat-append xs (x ∷ [])))
    ∙ pushes-flat (xs ++ x ∷ []) ys
    ∙ ap flat (append_assoc xs (x ∷ []) ys)

pairs-flat : (m : List (List ℕ × List ℕ)) → pairs (split [] (flat (flat_pairs m))) ≡ m
pairs-flat m = ap pairs (split-flat (flat_pairs m)) ∙ go m
  where
    go : (m : List (List ℕ × List ℕ)) → pairs (flat_pairs m) ≡ m
    go [] = refl
    go ((k, x) ∷ rest) = ap (◌∷◌ (k, x)) (go rest)

set_fields-flat :
    (m kvs : List (List ℕ × List ℕ))
    → set_fields toy (flat (flat_pairs m)) kvs ≡ flat (flat_pairs (inserts m kvs))
set_fields-flat m [] = refl
set_fields-flat m ((k, x) ∷ rest) =
    ap (λ l. set_fields toy (flat (flat_pairs (insert k x l))) rest) (pairs-flat m)
    ∙ set_fields-flat (insert k x m) rest

split_depth :
    (s acc : List ℕ) (n : ℕ) → length acc + length s ≤ n → All (λ x. length x < n) (split acc s)
split_depth [] acc n h = tt
split_depth (zero ∷ s) acc n h = (omega arith, split_depth s [] n (omega arith))
split_depth (suc c ∷ s) acc n h =
    split_depth s (acc ++ c ∷ []) n (omega (arith, length-append acc (c ∷ [])))

All-pairs :
    (P : List ℕ → Type 0) (xs : List (List ℕ))
    → All P xs
    → All (λ (kx : List ℕ × List ℕ). P kx.1) (pairs xs)
All-pairs P [] h = tt
All-pairs P (k ∷ []) h = tt
All-pairs P (k ∷ x ∷ rest) h = (h.1.0, All-pairs P rest h.1.1)

pub toy_laws : YamlLaws toy
toy_laws = record {
  load-emit = λ n. refl;
  as_text-scalar = λ s. refl;
  items-sequence = λ xs. ap (split []) (pushes-flat [] xs) ∙ split-flat xs;
  items-null = λ xs. ap (split []) (pushes-flat [] xs) ∙ split-flat xs;
  entries-mapping =
      λ kvs. ap (λ n. pairs (split [] n)) (set_fields-flat [] kvs) ∙ pairs-flat (inserts [] kvs);
  field-null = λ j kvs.
      ap (λ n. some (lookup j (pairs (split [] n)))) (set_fields-flat [] kvs)
      ∙ ap (λ m. some (lookup j m)) (pairs-flat (inserts [] kvs));
  entries-depth = λ n. All-pairs _ _ (split_depth n [] (length n) (omega arith));
}
