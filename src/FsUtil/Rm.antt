-- ===== src/FsUtil/Rm.antt =====
-- `FSUtil::Unlink`, `Rm`, `Mv`, `Symlink`, `Realpath` and `IsRunningPidfile` of sylar/util.cpp. What is
-- at a path is a tree, and a call answers what is there afterwards. What the system calls answer to a
-- path where they are not bound to fail is an argument.
use prozac.Prelude.{
  ℕ, Bool, true, false, not, ◌&&◌, ◌||◌, Option, none, some, List, [], ◌∷◌, leb, if◌then◌else◌,
}
use prozac.FsUtil.Files.{below, is_dots}

-- A directory with its entries, what is unlinked, or a socket or block device, whose mode has the bit of
-- S_IFDIR too.
mutual
  pub data Tree : Type 0 where
    dir : Branches → Tree
    leaf masked : Tree

  pub data Branches : Type 0 where
    nil : Branches
    branch : List ℕ → Tree → Branches → Branches

-- Whether lstat finds what is at a path, and unlink, opendir and rmdir are allowed there.
pub record Allowed : Type 0 where
  pub stats : List ℕ → Bool
  pub unlinks : List ℕ → Bool
  pub opens : List ℕ → Bool
  pub rmdirs : List ℕ → Bool

-- `FSUtil::Unlink`; `exist` says that there is no need to look.
unfoldable pub unlink : Allowed → Bool → List ℕ → Option Tree → Bool × Option Tree
unlink c exist path none = (not exist, none)
unlink c exist path (some (dir es)) = (not (exist || c.stats path), some (dir es))
unlink c exist path (some t) =
    if not exist && not (c.stats path)
    then (true, some t)
    else (if c.unlinks path then (true, none) else (false, some t))

-- `::rmdir`, of a directory that is left with these entries.
unfoldable pub rmdir : Allowed → List ℕ → Branches → Bool × Option Tree
rmdir c path nil = if c.rmdirs path then (true, none) else (false, some (dir nil))
rmdir c path (branch n t es) = (false, some (dir (branch n t es)))

abbrev pub keep : List ℕ → Option Tree → Branches → Branches
keep n none es = es
keep n (some t) es = branch n t es

-- `if (lstat(path.c_str(), &st)) return true;`
abbrev pub if_seen : Bool → Tree → Bool × Option Tree → Bool × Option Tree
if_seen seen t r = if seen then r else (true, some t)

unfoldable mutual
  unfolding unlink rmdir

  -- `FSUtil::Rm` of a path where there is a tree.
  pub rm_tree : Allowed → List ℕ → Tree → Bool × Option Tree
  rm_tree c path leaf = if_seen (c.stats path) leaf (unlink c false path (some leaf))
  rm_tree c path masked = if_seen (c.stats path) masked (false, some masked)
  rm_tree c path (dir es) =
      let (ret, left) = rm_entries c path true es in
      let (removed, after) = rmdir c path left in
      if_seen (c.stats path) (dir es)
        (if c.opens path then (if removed then ret else false, after) else (false, some (dir es)))

  -- The loop over the entries: what is returned last, and what stays.
  pub rm_entries : Allowed → List ℕ → Bool → Branches → Bool × Branches
  rm_entries c path ret nil = (ret, nil)
  rm_entries c path ret (branch n t es) =
      let skipped = rm_entries c path ret es in
      let (r, after) = rm_tree c (below path n) t in
      let (ret', left) = rm_entries c path r es in
      if is_dots n then skipped else (ret', keep n after left)

-- `FSUtil::Rm`
unfoldable pub rm : Allowed → List ℕ → Option Tree → Bool × Option Tree
unfolding rm_tree
rm c path none = (true, none)
rm c path (some t) = rm_tree c path t

-- `FSUtil::Mv`, where `moved` is what comes to the new place, if rename succeeds; what is there then.
unfoldable pub mv : Allowed → List ℕ → Option Tree → Option Tree → Bool × Option Tree
unfolding rm
mv c to target moved =
    let (gone, left) = rm c to target in
    let renamed = elim moved as (λ _. Bool × Option Tree) [
      | none ↦ (false, left)
      | some t ↦ (true, some t)
    ] in
    if gone then renamed else (false, left)

-- `FSUtil::Symlink`, where `made` says whether symlink succeeds.
unfoldable pub symlink : Allowed → List ℕ → Option Tree → Bool → Bool × Option Tree
unfolding rm
symlink c to target made =
    let (gone, left) = rm c to target in
    if gone then (made, if made then some leaf else left) else (false, left)

-- `FSUtil::Realpath`, where `resolved` is what realpath gives; second, what the caller's string holds.
unfoldable pub realpath : Bool → Option (List ℕ) → List ℕ → Bool × List ℕ
realpath exists resolved rpath =
    if not exists
    then (false, rpath)
    else elim resolved as (λ _. Bool × List ℕ) [ none ↦ (false, rpath) | some s ↦ (true, s) ]

abbrev is_empty : List ℕ → Bool
is_empty [] = true
is_empty (c ∷ cs) = false

-- `FSUtil::IsRunningPidfile`: `line` is the first line of the file, `atoi` has 0 for what is negative, and
-- `running` says whether a process takes the signal 0.
unfoldable pub is_running_pidfile : Bool → Option (List ℕ) → (List ℕ → ℕ) → (ℕ → Bool) → Bool
is_running_pidfile exists none atoi running = false
is_running_pidfile exists (some line) atoi running =
    exists && not (is_empty line) && not (leb (atoi line) 1) && running (atoi line)
