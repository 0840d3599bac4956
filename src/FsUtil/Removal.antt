-- ===== src/FsUtil/Removal.antt =====
-- What `FSUtil::Rm` of sylar/util.cpp answers, and what it leaves.
use prozac.Prelude.{
  ℕ, ◌≡◌, refl, ◌↔◌, Bool, true, false, not, ◌&&◌, ◌||◌, Option, none, some, List, if◌then◌else◌,
  if_intro, Bool-cases, inl, inr,
}
use prozac.FsUtil.Files.{below, is_dots}
use prozac.FsUtil.Rm.{
  Tree, Branches, dir, leaf, masked, nil, branch, Allowed, rmdir, keep, rm_tree, rm_entries, rm,
  unlink, if_seen,
}

-- A call that says that it succeeded has left nothing, and the other way.
abbrev pub IsHonest : Bool × Option Tree → Type 0
IsHonest (ret, left) = (ret ≡ true) ↔ (left ≡ none)

abbrev IsEmpty : Bool → Bool × Branches → Type 0
IsEmpty ret (ret', left) = left ≡ nil → ret ≡ true → ret' ≡ true

rmdir-IsHonest :
    (c : Allowed) (path : List ℕ) (ret : Bool) (left : Branches)
    → (left ≡ nil → ret ≡ true)
    → IsHonest (if (rmdir c path left).0 then ret else false, (rmdir c path left).1)
unfolding rmdir
rmdir-IsHonest c path ret nil h = elim (Bool-cases (c.rmdirs path)) [
  | inl e ↦ rw e ((λ _. refl), λ _. h refl)
  | inr e ↦ rw e ((λ k. cc), λ k. cc)
]
rmdir-IsHonest c path ret (branch n t es) h = ((λ e. cc), λ e. cc)

keep-nil :
    (n : List ℕ) (o : Option Tree) (es : Branches) → keep n o es ≡ nil → (o ≡ none) × (es ≡ nil)
keep-nil n none es e = (refl, e)
keep-nil n (some t) es e = cc

-- lstat finds what is there.
abbrev pub Seeing : Allowed → Type 0
Seeing c = (path : List ℕ) → c.stats path ≡ true

seen-IsHonest :
    (b : Bool) (t : Tree) (r : Bool × Option Tree)
    → b ≡ true
    → IsHonest r
    → IsHonest (if_seen b t r)
seen-IsHonest true t r h k = k
seen-IsHonest false t r h k = cc

unlink-IsHonest :
    (c : Allowed) (path : List ℕ) → Seeing c → IsHonest (unlink c false path (some leaf))
unfolding unlink
unlink-IsHonest c path s = rw (s path) (
    if_intro IsHonest (c.unlinks path) _ _ (λ _. ((λ _. refl), λ _. refl))
      (λ _. ((λ e. cc), λ e. cc)))

mutual
  unfolding rm_tree

  rm_tree-IsHonest :
      (c : Allowed) (path : List ℕ) (t : Tree) → Seeing c → IsHonest (rm_tree c path t)
  rm_tree-IsHonest c path leaf s =
      seen-IsHonest (c.stats path) leaf _ (s path) (unlink-IsHonest c path s)
  rm_tree-IsHonest c path masked s =
      seen-IsHonest (c.stats path) masked _ (s path) ((λ e. cc), λ e. cc)
  rm_tree-IsHonest c path (dir es) s = seen-IsHonest (c.stats path) (dir es) _ (s path) (
      if_intro IsHonest (c.opens path) _ _
        (λ _. rmdir-IsHonest c path _ _ (λ e. rm_entries-IsEmpty c path true es s e refl))
        (λ _. ((λ e. cc), λ e. cc)))

  rm_entries-IsEmpty :
      (c : Allowed) (path : List ℕ) (ret : Bool) (es : Branches)
      → Seeing c
      → IsEmpty ret (rm_entries c path ret es)
  rm_entries-IsEmpty c path ret nil s = λ e h. h
  rm_entries-IsEmpty c path ret (branch n t es) s =
      if_intro (IsEmpty ret) (is_dots n) _ _ (λ _. rm_entries-IsEmpty c path ret es s)
        (λ _ e h.
          let (gone, rest) = keep-nil n _ _ e in
          rm_entries-IsEmpty c path _ es s rest ((rm_tree-IsHonest c (below path n) t s).1 gone))

-- Removing a path answers true just when nothing is left there, where lstat finds what is there, although
-- the answer for each entry of a directory replaces the one before: if an entry stays, so does its
-- directory.
pub rm-IsHonest :
    (c : Allowed) (path : List ℕ) (t : Option Tree) → Seeing c → IsHonest (rm c path t)
unfolding rm
rm-IsHonest c path none s = ((λ _. refl), λ _. refl)
rm-IsHonest c path (some t) s = rm_tree-IsHonest c path t s

-- Where lstat fails for another reason, the answer is true and everything stays.
pub rm_unseen :
    (c : Allowed) (path : List ℕ) (t : Tree)
    → c.stats path ≡ false
    → rm c path (some t) ≡ (true, some t)
unfolding rm rm_tree
rm_unseen c path leaf h = rw h refl
rm_unseen c path masked h = rw h refl
rm_unseen c path (dir es) h = rw h refl

-- Whether a socket or a block device is at the path or below it.
mutual
  pub has_masked : Tree → Bool
  has_masked leaf = false
  has_masked masked = true
  has_masked (dir es) = any_masked es

  any_masked : Branches → Bool
  any_masked nil = false
  any_masked (branch n t es) = (not (is_dots n) && has_masked t) || any_masked es

-- Every system call is allowed.
abbrev pub all_allowed : Allowed
all_allowed = record {
  stats = λ p. true;
  unlinks = λ p. true;
  opens = λ p. true;
  rmdirs = λ p. true;
}

rmdir-nil :
    (path : List ℕ) (left : Branches) → ((rmdir all_allowed path left).1 ≡ none) ↔ (left ≡ nil)
unfolding rmdir
rmdir-nil path nil = ((λ _. refl), λ _. refl)
rmdir-nil path (branch n t es) = ((λ e. cc), λ e. cc)

neither : {a b : Bool} → a ≡ false → b ≡ false → (a || b) ≡ false
neither {a = false} h k = k
neither {a = true} h k = cc

both_false : (a b : Bool) → (a || b) ≡ false → (a ≡ false) × (b ≡ false)
both_false false b k = (refl, k)
both_false true b k = cc

keep_nothing :
    (n : List ℕ) {o : Option Tree} {es : Branches} → o ≡ none → es ≡ nil → keep n o es ≡ nil
keep_nothing n h k = rw h k

mutual
  unfolding rm_tree has_masked unlink

  rm_tree-masked :
      (path : List ℕ) (t : Tree) → ((rm_tree all_allowed path t).1 ≡ none) ↔ (has_masked t ≡ false)
  rm_tree-masked path leaf = ((λ _. refl), λ _. refl)
  rm_tree-masked path masked = ((λ e. cc), λ e. cc)
  rm_tree-masked path (dir es) =
      let outer = rmdir-nil path (rm_entries all_allowed path true es).1 in
      let inner = rm_entries-masked path true es in
      ((λ e. inner.0 (outer.0 e)), λ e. outer.1 (inner.1 e))

  rm_entries-masked :
      (path : List ℕ) (ret : Bool) (es : Branches)
      → ((rm_entries all_allowed path ret es).1 ≡ nil) ↔ (any_masked es ≡ false)
  rm_entries-masked path ret nil = ((λ _. refl), λ _. refl)
  rm_entries-masked path ret (branch n t es) = elim (Bool-cases (is_dots n)) [
    | inl e ↦ rw e (rm_entries-masked path ret es)
    | inr e ↦
        let first = rm_tree-masked (below path n) t in
        let rest = rm_entries-masked path (rm_tree all_allowed (below path n) t).0 es in
        rw e (
          (λ k. let (gone, left) = keep-nil n _ _ k in neither (first.0 gone) (rest.0 left)),
          λ k.
              let (m, ms) = both_false (has_masked t) _ k in keep_nothing n (first.1 m) (rest.1 ms),
        )
  ]

-- Where every system call is allowed, removing fails just when a socket or a block device is there or
-- below: those are taken for directories.
pub rm-masked :
    (path : List ℕ) (t : Tree) → ((rm all_allowed path (some t)).0 ≡ true) ↔ (has_masked t ≡ false)
unfolding rm
rm-masked path t =
    let honest = rm_tree-IsHonest all_allowed path t (λ p. refl) in
    let left = rm_tree-masked path t in ((λ e. left.0 (honest.0 e)), λ e. honest.1 (left.1 e))
