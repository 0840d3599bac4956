-- ===== src/Config/Dir.antt =====
-- `Config::LoadFromConfDir` of sylar/config.cpp: the files of a directory and the times of their last
-- change that the last load saw. What YAML::LoadFile and lstat answer for a file are arguments.
use prozac.Prelude.{
  ℕ, ◌≡◌, refl, ap, concat_map, ◌∙◌, Bool, true, false, not, ◌&&◌, Option, none, some, List, [],
  ◌∷◌, ◌++◌, arith, ◌==◌, ==_iff, if◌then◌else◌, if_intro, lookup, insert, lookup-insert, same_iff,
  codes, All, text_eq,
}
use prozac.Yaml.{Yaml}
use prozac.Env.{Env, get_absolute_path}
use prozac.FsUtil.Files.{Entries, list_all_file}
use prozac.Config.{Entry}
use prozac.Config.Load.{load_from_yaml}

-- `s_file2modifytime[i]`: a file that was never seen has the time 0, and is put into the map.
unfoldable pub time_of : List ℕ → List (List ℕ × ℕ) → ℕ
time_of i times = elim (lookup i times) as (λ _. ℕ) [ none ↦ 0 | some t ↦ t ]

-- The map after the test on a file, which reads its time unless the load is forced.
unfoldable pub look_at : Bool → List ℕ → List (List ℕ × ℕ) → List (List ℕ × ℕ)
unfolding time_of
look_at force i times = if force then times else insert i (time_of i times) times

time_of-insert :
    (i j : List ℕ) (t : ℕ) (times : List (List ℕ × ℕ))
    → time_of j (insert i t times) ≡ (if text_eq.beq i j then t else time_of j times)
unfolding time_of
time_of-insert i j t times = ground (arith, lookup-insert i j t times)

time_of-look_at :
    (force : Bool) (i j : List ℕ) (times : List (List ℕ × ℕ))
    → time_of j (look_at force i times) ≡ time_of j times
unfolding look_at
time_of-look_at true i j times = refl
time_of-look_at false i j times =
    ground (arith, time_of-insert i j (time_of i times) times, same_iff i j)

module _ (y : Yaml) (load_file : List ℕ → Option y.Node) (st_mtime : List ℕ → ℕ)
    (table : List (List ℕ × Entry)) where
  -- The calls of `fromString` for a file: none for one that cannot be read.
  unfoldable pub load_one : List ℕ → List (ℕ × List ℕ)
  load_one i = elim (load_file i) as (λ _. List (ℕ × List ℕ)) [
    | none ↦ []
    | some root ↦ load_from_yaml y table root
  ]

  -- The loop over the files.
  unfoldable pub load_files :
      Bool → List (List ℕ) → List (List ℕ × ℕ) → List (List ℕ × ℕ) × List (ℕ × List ℕ)
  unfolding load_one look_at
  load_files force [] times = (times, [])
  load_files force (i ∷ files) times =
      let looked = look_at force i times in
      let skipped = load_files force files looked in
      let (times', calls) = load_files force files (insert i (st_mtime i) looked) in
      if not force && time_of i times == st_mtime i then skipped else (times', load_one i ++ calls)

  -- `Config::LoadFromConfDir`, where `es` is what the directory holds.
  unfoldable pub load_from_conf_dir :
      Env → Entries → List ℕ → Bool → List (List ℕ × ℕ) → List (List ℕ × ℕ) × List (ℕ × List ℕ)
  unfolding load_files list_all_file get_absolute_path
  load_from_conf_dir env es path force times =
      load_files force (list_all_file (codes ".yml") (get_absolute_path path env) es) times

  -- The times seen of these files are their present ones.
  abbrev IsSeen : List (List ℕ × ℕ) → List (List ℕ) → Type 0
  IsSeen times files = All (λ i. time_of i times ≡ st_mtime i) files

  module _ (force : Bool) (i j : List ℕ) (times : List (List ℕ × ℕ)) where
    look_at-seen : time_of j times ≡ st_mtime j → time_of j (look_at force i times) ≡ st_mtime j
    look_at-seen h = time_of-look_at force i j times ∙ h

    put-seen :
        time_of j times ≡ st_mtime j
        → time_of j (insert i (st_mtime i) (look_at force i times)) ≡ st_mtime j
    put-seen h = ground (
      arith,
      h,
      time_of-insert i j (st_mtime i) (look_at force i times),
      time_of-look_at force i j times,
      same_iff i j,
    )

  -- What is seen of a file stays so.
  load_files-seen :
      (force : Bool) (files : List (List ℕ)) (times : List (List ℕ × ℕ)) (j : List ℕ)
      → time_of j times ≡ st_mtime j
      → time_of j (load_files force files times).0 ≡ st_mtime j
  unfolding load_files
  load_files-seen force [] times j h = h
  load_files-seen force (i ∷ files) times j h =
      if_intro (λ (r : List (List ℕ × ℕ) × List (ℕ × List ℕ)). time_of j r.0 ≡ st_mtime j)
        (not force && time_of i times == st_mtime i) _ _
        (λ _. load_files-seen force files _ j (look_at-seen force i j times h))
        (λ _. load_files-seen force files _ j (put-seen force i j times h))

  -- A load sees all its files.
  load_files-IsSeen :
      (force : Bool) (files : List (List ℕ)) (times : List (List ℕ × ℕ))
      → IsSeen (load_files force files times).0 files
  unfolding load_files
  load_files-IsSeen force [] times = tt
  load_files-IsSeen force (i ∷ files) times =
      let old = not force && time_of i times == st_mtime i in
      if_intro (λ (r : List (List ℕ × ℕ) × List (ℕ × List ℕ)). IsSeen r.0 (i ∷ files)) old _ _
        (λ e. (
          load_files-seen force files _ i (look_at-seen force i i times (ground (arith, e))),
          load_files-IsSeen force files _,
        ))
        (λ _. (
          load_files-seen force files _ i (
              ground
                (arith, time_of-insert i i (st_mtime i) (look_at force i times), same_iff i i)),
          load_files-IsSeen force files _,
        ))

  All-look_at :
      (force : Bool) (i : List ℕ) (files : List (List ℕ)) (times : List (List ℕ × ℕ))
      → IsSeen times files
      → IsSeen (look_at force i times) files
  All-look_at force i [] times h = tt
  All-look_at force i (j ∷ files) times h =
      (look_at-seen force i j times h.0, All-look_at force i files times h.1)

  seen_skipped :
      (files : List (List ℕ)) (times : List (List ℕ × ℕ))
      → IsSeen times files
      → (load_files false files times).1 ≡ []
  unfolding load_files
  seen_skipped [] times h = refl
  seen_skipped (i ∷ files) times h =
      rw ((==_iff (time_of i times) (st_mtime i)).1 h.0)
        (seen_skipped files (look_at false i times) (All-look_at false i files times h.1))

  forced_all :
      (files : List (List ℕ)) (times : List (List ℕ × ℕ))
      → (load_files true files times).1 ≡ concat_map load_one files
  unfolding load_files look_at
  forced_all [] times = refl
  forced_all (i ∷ files) times =
      ap (λ l. load_one i ++ l) (forced_all files (insert i (st_mtime i) times))

  pub load_from_conf_dir_twice :
      (env : Env) (es : Entries) (path : List ℕ) (force : Bool) (times : List (List ℕ × ℕ))
      → ((load_from_conf_dir env es path true times).1
          ≡ concat_map load_one (list_all_file (codes ".yml") (get_absolute_path path env) es))
        × ((load_from_conf_dir env es path false (load_from_conf_dir env es path force times).0).1
            ≡ [])
  unfolding load_from_conf_dir
  load_from_conf_dir_twice env es path force times =
      let files = list_all_file (codes ".yml") (get_absolute_path path env) es in
      (forced_all files times, seen_skipped files _ (load_files-IsSeen force files times))
