-- ===== src/Storage/Paths/Stopped.antt =====
-- createDirPath and createFilePath where they fail, or report what they have not done.
use network_file_system_in_c.Base.{
  All, Bool, List, Str, [], false, refl, some, true, ◌++◌, ◌∙◌, ◌∷◌, ◌≡◌,
}
use network_file_system_in_c.Storage.Disk.{
  Disk, Files, Place, Rights, Try, enter, entry_at, file, mkdir, ◌andalso◌,
}
use network_file_system_in_c.Storage.Disk.Sound.{HasFolder, walk-name}
use network_file_system_in_c.Storage.Paths.{
  chdir_name, create_dir_loop, create_dir_path, create_directory, create_file_path, cwd_fits,
  remove_last_file,
}
use network_file_system_in_c.Storage.Paths.Made.{
  AllowsAll, IsClear, ensure, ensure_lem, make_folders, step_into, target,
}
use network_file_system_in_c.Storage.Paths.Names.{
  IsName, current-IsName, join_path, marked, parts-join_path,
}
use network_file_system_in_c.Storage.Paths.Whole.{make_folders-beyond}

marked-cons :
    (name : Str) (names : List Str)
    → (last : Bool) × (marked (name ∷ names) ≡ (name, last) ∷ marked names)
marked-cons name [] = (true, refl)
marked-cons name (next ∷ names) = (false, refl)

module _ (allows : Rights) (all : AllowsAll allows) where
  -- mkdir takes a file for a folder that exists already; it is chdir that fails.
  stop_at_file :
      (d : Disk) (at : Place) (name : Str) (rest : Try) {bytes : Str}
      → IsName name
      → HasFolder d at
      → entry_at d (name ∷ at) ≡ some (file bytes)
      → (create_directory allows name andalso chdir_name allows name andalso rest)
          (record { disk = d; cwd = at })
        ≡ (false, record { disk = d; cwd = at })
  unfolding create_directory chdir_name mkdir enter
  stop_at_file d at name rest is here e =
      rw (walk-name d at name here is.plain, e) (rw (walk-name d at name here is.plain, e) refl)

  create_dir_loop-file :
      (d : Disk) (at : Place) (names : List Str) (name : Str) (rest : List Str) {bytes : Str}
      → All IsName (names ++ name ∷ rest)
      → HasFolder d at
      → IsClear d at names
      → entry_at (make_folders d at names) (name ∷ target at names) ≡ some (file bytes)
      → create_dir_loop allows (marked (names ++ name ∷ rest)) (record { disk = d; cwd = at })
        ≡ (false, record { disk = make_folders d at names; cwd = target at names })
  unfolding create_dir_loop make_folders
  create_dir_loop-file d at [] name rest (is, more) here clear e =
      rw ((marked-cons name rest).1, current-IsName is)
        (stop_at_file d at name (create_dir_loop allows (marked rest)) is here e)
  create_dir_loop-file d at (first ∷ names) name rest (is, more) here clear e =
      let (made, clear', kept) = ensure_lem d at first names clear in
      rw ((marked-cons first (names ++ name ∷ rest)).1, current-IsName is)
        (step_into allows all d at first names
            (create_dir_loop allows (marked (names ++ name ∷ rest))) is here clear
          ∙ create_dir_loop-file (ensure d (first ∷ at)) (first ∷ at) names name rest more made
              clear' e)

  -- Where one of the names is that of a file, createDirPath returns 0: the folders before it have
  -- been made, and the current directory is the one in which the file stands, not that of the start.
  pub create_dir_path-file :
      (names : List Str) (name : Str) (rest : List Str) (s : Files) {bytes : Str}
      → All IsName (names ++ name ∷ rest)
      → HasFolder s.disk s.cwd
      → cwd_fits s ≡ true
      → IsClear s.disk s.cwd names
      → entry_at s.disk (name ∷ target s.cwd names) ≡ some (file bytes)
      → create_dir_path allows (join_path (names ++ name ∷ rest)) s
        ≡ (0, record { disk = make_folders s.disk s.cwd names; cwd = target s.cwd names })
  unfolding create_dir_path
  create_dir_path-file names name rest s is here fits clear e =
      rw
        (
          fits,
          parts-join_path (names ++ name ∷ rest) is,
          create_dir_loop-file s.disk s.cwd names name rest is here clear
              (make_folders-beyond s.disk s.cwd names name ∙ e),
        )
        refl

-- Below a directory whose absolute path has no room in 1024 bytes, the three functions return
-- EXIT_FAILURE, which is the 1 of a success, and have done nothing.
pub path_calls-deep :
    (allows : Rights) (path : Str) (s : Files)
    → cwd_fits s ≡ false
    → (create_file_path allows path s ≡ (1, s))
      × (create_dir_path allows path s ≡ (1, s))
      × (remove_last_file allows path s ≡ (1, s))
unfolding create_file_path create_dir_path remove_last_file
path_calls-deep allows path s deep = (rw deep refl, rw deep refl, rw deep refl)
