-- ===== src/Config/Trips.antt =====
-- Values of sylar/config.h that come back from the text they are written as.
use prozac.Prelude.{
  ℕ, ◌≡◌, refl, sym, ap, ◌∙◌, Bool, true, some, List, [], ◌∷◌, ◌++◌, arith, if◌then◌else◌, text_eq,
  All, not, ◌&&◌, same, append_assoc, append-nil, map, insert, same_iff, Eq,
}
use prozac.Yaml.{Yaml, YamlLaws, ◌>>=◌, >>=-eq-some, pushes, set_fields, inserts}
use prozac.Config.{ConfigVar, Call, from_string, to_string}
use prozac.Config.Var.{set_value_lem}
use prozac.Config.Casts.{
  Cast, Container, fill, IsRebuilt, sequence_cast, mapping_cast, write_items, read_items,
  write_entries, read_entries,
}

-- A value is read back from what YAML makes of its text, as a member of a container is.
abbrev pub IsSafe : {A : Type 0} → Yaml → Cast A → A → Type 0
IsSafe y cast a = (do s ← cast.to_text a; n ← y.load s; cast.of_text (y.emit n)) ≡ some a

-- A value is read back from its own text.
abbrev pub IsRead : {A : Type 0} → Cast A → A → Type 0
IsRead cast a = (do s ← cast.to_text a; cast.of_text s) ≡ some a

-- Keys that are all different.
abbrev pub keys {ℓ} : {V : Type ℓ} → List (List ℕ × V) → List (List ℕ)
keys m = map (λ kx. kx.0) m

abbrev pub fresh : List ℕ → List (List ℕ) → Bool
fresh k [] = true
fresh k (j ∷ js) = not (same j k) && fresh k js

abbrev pub AreDistinct : List (List ℕ) → Type 0
AreDistinct [] = Unit
AreDistinct (k ∷ ks) = (fresh k ks ≡ true) × AreDistinct ks

module _ {ℓ} {V : Type ℓ} where
  insert_fresh :
      (k : List ℕ) (x : V) (m : List (List ℕ × V))
      → fresh k (keys m) ≡ true
      → insert k x m ≡ m ++ (k, x) ∷ []
  unfolding insert
  insert_fresh k x [] h = refl
  insert_fresh k x ((j, v) ∷ m) h = ground (arith, insert_fresh k x m)

  fresh_put :
      (j k : List ℕ) (x : V) (m : List (List ℕ × V))
      → fresh j (keys (m ++ (k, x) ∷ [])) ≡ (fresh j (keys m) && not (same k j))
  fresh_put j k x [] = ground arith
  fresh_put j k x ((i, v) ∷ m) = ground (arith, fresh_put j k x m)

  All-fresh_put :
      (k : List ℕ) (x : V) (m : List (List ℕ × V)) (js : List (List ℕ))
      → All (λ j. fresh j (keys m) ≡ true) js
      → fresh k js ≡ true
      → All (λ j. fresh j (keys (m ++ (k, x) ∷ [])) ≡ true) js
  All-fresh_put k x m [] h f = tt
  All-fresh_put k x m (j ∷ js) h f = (
    ground (arith, fresh_put j k x m, h.0, same_iff j k, same_iff k j),
    All-fresh_put k x m js h.1 (ground arith),
  )

  inserts_distinct :
      (m kvs : List (List ℕ × V))
      → All (λ j. fresh j (keys m) ≡ true) (keys kvs)
      → AreDistinct (keys kvs)
      → inserts m kvs ≡ m ++ kvs
  inserts_distinct m [] h d = sym (append-nil m)
  inserts_distinct m ((k, x) ∷ rest) h d =
      ap (λ n. inserts n rest) (insert_fresh k x m h.0)
      ∙ inserts_distinct (m ++ (k, x) ∷ []) rest (All-fresh_put k x m (keys rest) h.1 d.0) d.1
      ∙ append_assoc m ((k, x) ∷ []) rest

All-fresh_nil : (js : List (List ℕ)) → All (λ j. fresh j [] ≡ true) js
All-fresh_nil [] = tt
All-fresh_nil (j ∷ js) = (refl, All-fresh_nil js)

-- The node that a safe value becomes.
abbrev NodeFor : {A : Type 0} → Yaml → Cast A → A → Type 0
NodeFor y cast a =
    (s : List ℕ) × (cast.to_text a ≡ some s)
    × (n : y.Node) × (y.load s ≡ some n)
    × (cast.of_text (y.emit n) ≡ some a)

module _ {A : Type 0} (y : Yaml) (cast : Cast A) where
  node_of : (a : A) → IsSafe y cast a → NodeFor y cast a
  node_of a h =
      let (s, es, h') = >>=-eq-some (cast.to_text a) _ h in
      let (n, en, ea) = >>=-eq-some (y.load s) _ h' in (s, es, n, en, ea)

  write_items_lem :
      {C : Type 0} (k : Container C A) (node : y.Node) (rest : List A)
      → All (IsSafe y cast) rest
      → (ns : List y.Node) × (write_items y cast node rest ≡ some (pushes y node ns))
        × ((c : C) → read_items y cast k c ns ≡ some (fill k c rest))
  unfolding write_items read_items
  write_items_lem k node [] h = ([], refl, λ c. refl)
  write_items_lem k node (a ∷ rest) h =
      let (s, es, n, en, ea) = node_of a h.0 in
      let (ns, w, r) = write_items_lem k (y.push_back node n) rest h.1 in
      (n ∷ ns, rw (es, ◌>>=◌, en, ◌>>=◌) w, λ c. rw (ea, ◌>>=◌) (r (k.put a c)))

  write_entries_lem :
      {C : Type 0} (k : Container C (List ℕ × A)) (node : y.Node) (rest : List (List ℕ × A))
      → All (λ kx. IsSafe y cast kx.1) rest
      → (ns : List (List ℕ × y.Node)) × (write_entries y cast node rest
          ≡ some (set_fields y node ns))
        × (keys ns ≡ keys rest)
        × ((c : C) → read_entries y cast k c ns ≡ some (fill k c rest))
  unfolding write_entries read_entries
  write_entries_lem k node [] h = ([], refl, refl, λ c. refl)
  write_entries_lem k node ((key, a) ∷ rest) h =
      let (s, es, n, en, ea) = node_of a h.0 in
      let (ns, w, same, r) = write_entries_lem k (y.set_field key n node) rest h.1 in
      (
        (key, n) ∷ ns,
        rw (es, ◌>>=◌, en, ◌>>=◌) w,
        ap (◌∷◌ key) same,
        λ c. rw (ea, ◌>>=◌) (r (k.put (key, a) c)),
      )

module _ {A C : Type 0} (y : Yaml) (l : YamlLaws y) (cast : Cast A) where
  -- What is written as a node and read from it is read from the text, and is safe in turn.
  IsRead-of :
      (whole : Cast C) (c : C) (node : y.Node)
      → whole.to_text c ≡ some (y.emit node)
      → whole.of_text (y.emit node) ≡ some c
      → IsRead whole c × IsSafe y whole c
  IsRead-of whole c node w r = (rw (w, ◌>>=◌) r, rw (w, ◌>>=◌, l.load-emit node, ◌>>=◌) r)

  -- A container whose members come back through YAML is read back from its own text, and comes back
  -- through YAML in turn, so that containers nest: one that is what comes of putting its members into
  -- an empty one.
  pub sequence_cast-IsSafe :
      (k : Container C A) (c : C)
      → IsRebuilt k c
      → All (IsSafe y cast) (k.members c)
      → IsRead (sequence_cast y cast k) c × IsSafe y (sequence_cast y cast k) c
  unfolding sequence_cast
  sequence_cast-IsSafe k c same h =
      let (ns, w, r) = write_items_lem y cast k y.sequence (k.members c) h in
      let node = pushes y y.sequence ns in
      IsRead-of (sequence_cast y cast k) c node (rw (w, ◌>>=◌) refl)
        (rw (l.load-emit node, ◌>>=◌, l.items-sequence ns, r k.empty, same) refl)

  -- The same for a container of keys and values whose keys are distinct.
  pub mapping_cast-IsSafe :
      (k : Container C (List ℕ × A)) (c : C)
      → IsRebuilt k c
      → AreDistinct (keys (k.members c))
      → All (λ kx. IsSafe y cast kx.1) (k.members c)
      → IsRead (mapping_cast y cast k) c × IsSafe y (mapping_cast y cast k) c
  unfolding mapping_cast
  mapping_cast-IsSafe k c same apart h =
      let (ns, w, names, r) = write_entries_lem y cast k y.mapping (k.members c) h in
      let node = set_fields y y.mapping ns in
      let apart' : AreDistinct (keys ns) = rw names apart in
      IsRead-of (mapping_cast y cast k) c node (rw (w, ◌>>=◌) refl) (
        rw
          (
            l.load-emit node,
            ◌>>=◌,
            l.entries-mapping ns,
            inserts_distinct [] ns (All-fresh_nil (keys ns)) apart',
            r k.empty,
            same,
          )
          refl)

pub from_string-to_string :
    {A : Type 0} ⦃e : Eq A⦄ (cast : Cast A) (x z : ConfigVar A)
    → IsRead cast x.val
    → ((from_string cast.of_text (to_string cast.to_text x) z).0 ≡ record z { val = x.val })
      × (map (λ (c : Call A). c.listener) (from_string cast.of_text (to_string cast.to_text x) z).1
          ≡ (if e.beq x.val z.val then [] else z.cbs))
unfolding to_string from_string
from_string-to_string ⦃e⦄ cast x z h =
    let (s, w, r) = >>=-eq-some (cast.to_text x.val) _ h in
    rw (w, to_string, r, from_string) (set_value_lem x.val z)
