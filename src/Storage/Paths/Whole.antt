-- ===== src/Storage/Paths/Whole.antt =====
-- createDirPath and createFilePath on a path of names, where nothing is in the way.
use network_file_system_in_c.Base.{
  All, List, Option, Str, [], ap, arith, false, if◌then◌else◌, none, refl, some, true, ◌++◌, ◌∙◌,
  ◌∷◌, ◌≡◌,
}
use network_file_system_in_c.Storage.Disk.{
  Disk, Entry, Files, Place, Rights, enter, entry_at, file, folder, is_folder, set_entry,
}
use network_file_system_in_c.Storage.Disk.Entries.{entry_at-set_entry_other}
use network_file_system_in_c.Storage.Disk.Sound.{HasFolder, is_there, set-HasFolder}
use network_file_system_in_c.Storage.Paths.{create_dir_path, create_file_path, cwd_fits}
use network_file_system_in_c.Storage.Paths.Folders.{
  AreFolders, AreFolders-IsClear, make_folders-AreFolders, make_folders-AreFolders_same,
  make_folders-HasFolder,
}
use network_file_system_in_c.Storage.Paths.Made.{
  AllowsAll, IsClear, create_dir_loop_lem, create_file_loop_lem, ensure, longer-ne, make_folders,
  target, target-length,
}
use network_file_system_in_c.Storage.Paths.Names.{IsName, join_path, parts-join_path}

-- An entry below the place that is made is as it was.
pub make_folders-beyond :
    (d : Disk) (at : Place) (names : List Str) (n : Str)
    → entry_at (make_folders d at names) (n ∷ target at names) ≡ entry_at d (n ∷ target at names)
unfolding make_folders
make_folders-beyond d at [] n = refl
make_folders-beyond d at (name ∷ names) n =
    make_folders-beyond (ensure d (name ∷ at)) (name ∷ at) names n
    ∙ ensure-other (entry_at d (name ∷ at))
  where
    ensure-other :
        (o : Option Entry)
        → entry_at
            (if is_there o then d else set_entry d (name ∷ at) folder)
            (n ∷ target (name ∷ at) names)
          ≡ entry_at d (n ∷ target (name ∷ at) names)
    ensure-other (some e) = refl
    ensure-other none =
        entry_at-set_entry_other d (name ∷ at) (n ∷ target (name ∷ at) names) folder (
          longer-ne (name ∷ at) (n ∷ target (name ∷ at) names)
            (omega (arith, target-length (name ∷ at) names)))

module _ (allows : Rights) (all : AllowsAll allows) where
  -- On a path of names, none of them a file's, createDirPath does what `mkdir -p` does: the result is
  -- 1, the folders that were missing are made, and the current directory is that of the start. It
  -- must be a folder with an absolute path below 1024 bytes, and the system must refuse nothing.
  pub create_dir_path_lem :
      (names : List Str) (s : Files)
      → All IsName names
      → HasFolder s.disk s.cwd
      → cwd_fits s ≡ true
      → IsClear s.disk s.cwd names
      → create_dir_path allows (join_path names) s
        ≡ (1, record s { disk = make_folders s.disk s.cwd names })
  unfolding create_dir_path enter
  create_dir_path_lem names s is here fits clear =
      rw
        (
          fits,
          parts-join_path names is,
          create_dir_loop_lem allows all s.disk s.cwd names is here clear,
          make_folders-HasFolder s.disk s.cwd names s.cwd here,
          all s.cwd,
        )
        refl

  -- createFilePath makes the folders on the way and an empty file: one that is there loses its
  -- content. The conditions are those of createDirPath, and that no folder has the name.
  pub create_file_path_lem :
      (names : List Str) (last : Str) (s : Files)
      → All IsName (names ++ last ∷ [])
      → HasFolder s.disk s.cwd
      → cwd_fits s ≡ true
      → IsClear s.disk s.cwd names
      → is_folder (entry_at s.disk (last ∷ target s.cwd names)) ≡ false
      → create_file_path allows (join_path (names ++ last ∷ [])) s ≡ (
        1,
        record s {
          disk = set_entry (make_folders s.disk s.cwd names) (last ∷ target s.cwd names) (file []);
        },
      )
  unfolding create_file_path enter
  create_file_path_lem names last s is here fits clear free =
      let free' = ap is_folder (make_folders-beyond s.disk s.cwd names last) ∙ free in
      let back =
        set-HasFolder (make_folders s.disk s.cwd names) (last ∷ target s.cwd names) s.cwd (file [])
          free' (make_folders-HasFolder s.disk s.cwd names s.cwd here) in
      rw
        (
          fits,
          parts-join_path (names ++ last ∷ []) is,
          create_file_loop_lem allows all s.disk s.cwd names last is here clear free',
          back,
          all s.cwd,
        )
        refl

  -- A second createDirPath with the same path changes nothing, and its result is 1 again.
  pub create_dir_path-twice :
      (names : List Str) (s : Files)
      → All IsName names
      → HasFolder s.disk s.cwd
      → cwd_fits s ≡ true
      → IsClear s.disk s.cwd names
      → let after = (create_dir_path allows (join_path names) s).1 in
        create_dir_path allows (join_path names) after ≡ (1, after)
  create_dir_path-twice names s is here fits clear =
      rw (create_dir_path_lem names s is here fits clear) (
        create_dir_path_lem names (record s { disk = make_folders s.disk s.cwd names }) is
          (make_folders-HasFolder s.disk s.cwd names s.cwd here) fits
          (AreFolders-IsClear _ _ _ made)
        ∙ ap (λ d. (1, record s { disk = d })) (make_folders-AreFolders_same _ _ _ made))
    where
      made : AreFolders (make_folders s.disk s.cwd names) s.cwd names
      made = make_folders-AreFolders s.disk s.cwd names clear
