-- ===== src/FsUtil/Tests.antt =====
-- Paths and directories of sylar/util.cpp at concrete inputs, and instances of the theorems about them.
use prozac.Prelude.{
  ℕ, ◌≡◌, refl, ◌↔◌, some, In, Bool, true, false, List, [], ◌∷◌, codes, same, same_iff, ◌||◌, ok,
  ◌++◌, arith,
}
use prozac.FsUtil.Paths.{dirname}
use prozac.FsUtil.Files.{
  Entries, dir, reg, other, nil as no_entries, entry, Below, list_all_file, list_all_file-Below,
}
use prozac.FsUtil.Rm.{Tree, dir, leaf, masked, branch, nil, rm}
use prozac.FsUtil.Removal.{IsHonest, rm-IsHonest, all_allowed, has_masked, rm-masked}
use prozac.FsUtil.Mkdir.{FileSystem, FileSystemLaws, mkdir_path, mkdir_path-exists}

abbrev listed : List (List ℕ) → List ℕ → Bool
listed [] p = false
listed (q ∷ f) p = same q p || listed f p

-- A file system that is the list of what is there.
abbrev disk : FileSystem
disk = record {
  Fs = List (List ℕ);
  exists = listed;
  mkdir = λ p f. (true, p ∷ f);
  open_write = λ p f. (listed f (dirname p), f);
}

disk-FileSystemLaws : FileSystemLaws disk
disk-FileSystemLaws = record {
  mkdir-exists = λ p f h. ground (arith, same_iff p p);
  mkdir_keeps = λ p q f h. ground (arith, h);
}

made : mkdir_path disk (codes "a/b") [] ≡ ok (true, codes "a/b" ∷ codes "a" ∷ [])
unfolding mkdir_path
made = refl

mkdir_path-exists_example :
    ((xs ys : List ℕ)
      → codes "/b" ≡ xs ++ b'/' ∷ ys
      → listed (codes "a/b" ∷ codes "a" ∷ []) (b'a' ∷ xs) ≡ true)
    × (listed (codes "a/b" ∷ codes "a" ∷ []) (codes "a/b") ≡ true)
mkdir_path-exists_example =
    mkdir_path-exists disk disk-FileSystemLaws b'a' (codes "/b") [] (codes "a/b" ∷ codes "a" ∷ [])
      refl made

abbrev conf : Entries
conf = entry (codes ".") (dir (entry (codes "x.yml") reg no_entries)) (
    entry (codes "log.yml") reg (
      entry (codes "more") (dir (entry (codes "net.yml") reg no_entries))
        (entry (codes "notes.txt") reg (entry (codes "pipe.yml") other no_entries))))

conf_listed :
    list_all_file (codes ".yml") (codes "conf") conf
    ≡ codes "conf/log.yml" ∷ codes "conf/more/net.yml" ∷ []
unfolding list_all_file
conf_listed = refl

list_all_file-Below_example :
    In (codes "conf/log.yml") (list_all_file (codes ".yml") (codes "conf") conf)
    ↔ Below (codes ".yml") (codes "conf") conf (codes "conf/log.yml")
list_all_file-Below_example =
    list_all_file-Below (codes ".yml") (codes "conf") conf (codes "conf/log.yml")

-- A directory with a file and a socket.
abbrev sockets : Tree
sockets = dir (branch (codes "a.txt") leaf (branch (codes "s") masked nil))

rm-IsHonest_example : IsHonest (rm all_allowed (codes "run") (some sockets))
rm-IsHonest_example = rm-IsHonest all_allowed (codes "run") (some sockets) (λ p. refl)

rm-masked_example :
    ((rm all_allowed (codes "run") (some sockets)).0 ≡ true) ↔ (has_masked sockets ≡ false)
rm-masked_example = rm-masked (codes "run") sockets

socket_stays :
    rm all_allowed (codes "run") (some sockets)
    ≡ (false, some (dir (branch (codes "s") masked nil)))
unfolding rm
socket_stays = refl
