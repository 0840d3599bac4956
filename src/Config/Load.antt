-- ===== src/Config/Load.antt =====
-- Loading YAML into the variables, in sylar/config.cpp: which variables are given which text. The
-- variables are known by their addresses, and each call of `fromString` is recorded.
use prozac.Prelude.{
  ℕ, zero, suc, ◌+◌, ◌<◌, ◌≡◌, ◌≢◌, refl, sym, ap₂, subst, ◌↔◌, Bool, true, false, ◌&&◌, none, some,
  List, [], ◌∷◌, ◌++◌, map, arith, leb, ◌==◌, ==_iff, if◌then◌else◌, contains, lookup, text_eq, In,
  All-In, concat_map, In-concat_map, inl, inr, Bool-cases, Option-cases,
}
use prozac.Yaml.{Yaml, YamlLaws}
use prozac.Config.{Entry, is_valid, allowed}

-- `prefix.empty() ? k : prefix + "." + k`
abbrev pub dotted : List ℕ → List ℕ → List ℕ
dotted [] k = k
dotted (c ∷ p) k = (c ∷ p) ++ b'.' ∷ k

-- `::tolower`
abbrev pub to_lower : ℕ → ℕ
to_lower c = if leb b'A' c && leb c b'Z' then c + 32 else c

abbrev is_empty : List ℕ → Bool
is_empty [] = true
is_empty (c ∷ cs) = false

module _ (y : Yaml) where
  -- `ListAllMember`, on fuel for the depth of the node.
  unfoldable pub list_all_member : ℕ → List ℕ → y.Node → List (List ℕ × y.Node)
  list_all_member zero prefix node = []
  list_all_member (suc fuel) prefix node =
      let under =
        concat_map (λ kx. list_all_member fuel (dotted prefix kx.0) kx.1) (y.entries node) in
      let below = if y.is_map node then under else [] in
      if is_valid prefix then (prefix, node) ∷ below else []

  -- The text that a variable is given: that of a scalar, or the node written out.
  abbrev pub text_of : y.Node → List ℕ
  text_of n = if y.is_scalar n then y.scalar_of n else y.emit n

  -- One round of the loop of `LoadFromYaml`.
  load_member : List (List ℕ × Entry) → List ℕ × y.Node → List (ℕ × List ℕ)
  load_member table (name, n) =
      let key = map to_lower name in
      if is_empty key then [] else elim (lookup key table) as (λ _. List (ℕ × List ℕ)) [
        | none ↦ []
        | some x ↦ (x.addr, text_of n) ∷ []
      ]

  -- `Config::LoadFromYaml`: the calls of `fromString`, the variable and the text.
  unfoldable pub load_from_yaml : List (List ℕ × Entry) → y.Node → List (ℕ × List ℕ)
  unfolding list_all_member load_member
  load_from_yaml table root =
      concat_map (load_member table) (list_all_member (suc (y.depth root)) [] root)

  -- A node below a node, under the dotted name that leads to it, where each name on the way is valid
  -- and each node on the way is a mapping.
  pub data Member : List ℕ → y.Node → List ℕ → y.Node → Type 0 where
    itself : {p : List ℕ} {n : y.Node} → is_valid p ≡ true → Member p n p n
    inside :
        {p q : List ℕ} {n m : y.Node} (k : List ℕ) (x : y.Node)
        → is_valid p ≡ true
        → y.is_map n ≡ true
        → In (k, x) (y.entries n)
        → Member (dotted p k) x q m
        → Member p n q m

In-when :
    {A : Type 0} (b : Bool) (xs : List A) (a : A)
    → In a (if b then xs else [])
    → (b ≡ true) × In a xs
In-when true xs a h = (refl, h)
In-when false xs a h = absurd h

In-then :
    {A : Type 0} (b : Bool) (xs : List A) (a : A) → b ≡ true → In a xs → In a (if b then xs else [])
In-then true xs a e h = h
In-then false xs a e h = cc

both : (a b : Bool) → (a && b) ≡ true → (a ≡ true) × (b ≡ true)
both true b h = (refl, h)
both false b h = cc

all_lower : List ℕ → Bool
all_lower [] = true
all_lower (c ∷ cs) = to_lower c == c && all_lower cs

lower_allowed : all_lower allowed ≡ true
unfolding all_lower
lower_allowed = refl

contains_lower : (c : ℕ) (cs : List ℕ) → all_lower cs ≡ true → contains c cs ≡ true → to_lower c ≡ c
unfolding all_lower
contains_lower c [] h k = cc
contains_lower c (d ∷ cs) h k = elim (Bool-cases (c == d)) [
  | inl e ↦
      let lower : to_lower d ≡ d = (==_iff (to_lower d) d).0 (both (to_lower d == d) _ h).0 in
      subst (λ z. to_lower z ≡ z) (sym ((==_iff c d).0 e)) lower
  | inr e ↦ contains_lower c cs (both (to_lower d == d) _ h).1 (ground arith)
]

-- A valid name has no capital letter.
pub valid_lower : (q : List ℕ) → is_valid q ≡ true → map to_lower q ≡ q
valid_lower [] v = refl
valid_lower (c ∷ q) v =
    let (first, rest) = both (contains c allowed) (is_valid q) v in
    ap₂ ◌∷◌ (contains_lower c allowed lower_allowed first) (valid_lower q rest)

module _ (y : Yaml) where
  listed-Member :
      (fuel : ℕ) (p : List ℕ) (n : y.Node) (q : List ℕ) (m : y.Node)
      → In (q, m) (list_all_member y fuel p n)
      → Member y p n q m
  unfolding list_all_member
  listed-Member zero p n q m h = absurd h
  listed-Member (suc fuel) p n q m h =
      let (v, h1) = In-when (is_valid p) _ (q, m) h in
      elim h1 [
        | inl e ↦ subst (λ (qm : List ℕ × y.Node). Member y p n qm.0 qm.1) (sym e) (itself v)
        | inr h2 ↦
            let (mp, h3) = In-when (y.is_map n) _ (q, m) h2 in
            let ((k, x), here, below) = (In-concat_map _ (y.entries n) (q, m)).0 h3 in
            inside k x v mp here (listed-Member fuel (dotted p k) x q m below)
      ]

  Member-listed :
      (l : YamlLaws y) (fuel : ℕ) (p : List ℕ) (n : y.Node) (q : List ℕ) (m : y.Node)
      → y.depth n < fuel
      → Member y p n q m
      → In (q, m) (list_all_member y fuel p n)
  unfolding list_all_member
  Member-listed l zero p n q m d b = absurd (omega arith)
  Member-listed l (suc fuel) p n q m d (itself v) = In-then (is_valid p) _ (q, m) v (inl refl)
  Member-listed l (suc fuel) p n q m d (inside k x v mp here b) =
      let deep = All-In _ (y.entries n) (k, x) (l.entries-depth n) here in
      In-then (is_valid p) _ (q, m) v
        (inr (
          In-then (y.is_map n) _ (q, m) mp
            ((In-concat_map _ (y.entries n) (q, m)).1
              ((k, x), here, Member-listed l fuel (dotted p k) x q m (omega (arith, deep)) b))))

  Member-valid :
      (p : List ℕ) (n : y.Node) (q : List ℕ) (m : y.Node) → Member y p n q m → is_valid q ≡ true
  Member-valid p n q m (itself v) = v
  Member-valid p n q m (inside k x v mp here b) = Member-valid (dotted p k) x q m b

  -- What a variable is given.
  abbrev pub Given : List (List ℕ × Entry) → List ℕ → y.Node → ℕ × List ℕ → Type 0
  Given table q m call =
      (x : Entry) × (q ≢ []) × (lookup q table ≡ some x) × (call ≡ (x.addr, text_of y m))

  load_member-Given :
      (table : List (List ℕ × Entry)) (q : List ℕ) (m : y.Node) (call : ℕ × List ℕ)
      → is_valid q ≡ true
      → In call (load_member y table (q, m)) ↔ Given table q m call
  unfolding load_member
  load_member-Given table q m call v = rw (valid_lower q v) (go q)
    where
      go :
          (q : List ℕ)
          → In call (
              if is_empty q then [] else elim (lookup q table) as (λ _. List (ℕ × List ℕ)) [
                | none ↦ []
                | some x ↦ (x.addr, text_of y m) ∷ []
              ])
            ↔ Given table q m call
      go [] = (λ h. absurd h, λ (x, ne, e, c). absurd (ne refl))
      go (c ∷ q) = elim (Option-cases (lookup (c ∷ q) table)) [
        | inl e ↦ rw e (λ h. absurd h, λ (x, ne, e', c). cc)
        | inr (x, e) ↦ rw e (
          (λ h. elim h [ inl k ↦ (x, (λ (z : c ∷ q ≡ []). cc), refl, k) | inr k ↦ absurd k ]),
          λ (x', ne, same, k). inl (cc),
        )
      ]

  -- A load gives a variable a text just when a node below the root has the name of the variable, through
  -- mappings and valid names only, and that text; the root itself is nobody's.
  pub load_from_yaml-Given :
      (l : YamlLaws y) (table : List (List ℕ × Entry)) (root : y.Node) (call : ℕ × List ℕ)
      → In call (load_from_yaml y table root)
        ↔ ((q : List ℕ) × (m : y.Node) × Member y [] root q m × Given table q m call)
  unfolding load_from_yaml
  load_from_yaml-Given l table root call = (
    (λ h.
        let ((q, m), listed, given) =
          (In-concat_map (load_member y table) (list_all_member y (suc (y.depth root)) [] root)
              call).0
            h in
        let below = listed-Member (suc (y.depth root)) [] root q m listed in
        let v = Member-valid [] root q m below in
        (q, m, below, (load_member-Given table q m call v).0 given)),
    λ (q, m, below, given).
        let v = Member-valid [] root q m below in
        (In-concat_map (load_member y table) (list_all_member y (suc (y.depth root)) [] root)
            call).1
          (
            (q, m),
            Member-listed l (suc (y.depth root)) [] root q m (omega arith) below,
            (load_member-Given table q m call v).1 given,
          ),
  )
