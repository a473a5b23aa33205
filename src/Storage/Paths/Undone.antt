-- ===== src/Storage/Paths/Undone.antt =====
-- removeLastFile undoes createFilePath.
use network_file_system_in_c.Base.{
  All, List, Str, [], ap, false, inl, inr, none, refl, some, subst, sym, true, ◌++◌, ◌∙◌, ◌∷◌, ◌≡◌,
}
use network_file_system_in_c.Storage.Disk.{
  Disk, Entry, Files, Place, Rights, drop_entry, enter, entry_at, file, is_folder, remove,
  set_entry,
}
use network_file_system_in_c.Storage.Disk.Entries.{
  entry_at-drop_entry, entry_at-drop_entry_other, entry_at-set_entry, entry_at-set_entry_other,
  place_eq-cases,
}
use network_file_system_in_c.Storage.Disk.Sound.{
  HasFolder, drop-HasFolder, folder-ne, set-HasFolder, walk-name,
}
use network_file_system_in_c.Storage.Paths.{
  chdir_name, create_file_path, cwd_fits, delete_file, remove_last_file, remove_last_loop,
}
use network_file_system_in_c.Storage.Paths.Folders.{
  AreFolders, make_folders-AreFolders, make_folders-HasFolder,
}
use network_file_system_in_c.Storage.Paths.Made.{
  AllowsAll, IsClear, enter_name, make_folders, target,
}
use network_file_system_in_c.Storage.Paths.Names.{
  IsName, current-IsName, join_path, marked, parts-join_path,
}
use network_file_system_in_c.Storage.Paths.Whole.{create_file_path_lem, make_folders-beyond}

set_entry-AreFolders :
    (d : Disk) (p at : Place) (e : Entry) (names : List Str)
    → is_folder (entry_at d p) ≡ false
    → AreFolders d at names
    → AreFolders (set_entry d p e) at names
set_entry-AreFolders d p at e [] bare folders = tt
set_entry-AreFolders d p at e (name ∷ names) bare (h, folders) = (
  entry_at-set_entry_other d p (name ∷ at) e (folder-ne d p (name ∷ at) bare (ap is_folder h)) ∙ h,
  set_entry-AreFolders d p (name ∷ at) e names bare folders,
)

set_and_dropped :
    (d : Disk) (p : Place) (e : Entry)
    → entry_at d p ≡ none
    → (q : Place) → entry_at (drop_entry (set_entry d p e) p) q ≡ entry_at d q
set_and_dropped d p e nothing q = elim (place_eq-cases p q) [
  | inl same ↦
      subst (λ r. entry_at (drop_entry (set_entry d p e) p) r ≡ entry_at d r) same
        (entry_at-drop_entry (set_entry d p e) p ∙ sym nothing)
  | inr ne ↦
      entry_at-drop_entry_other (set_entry d p e) p q ne ∙ entry_at-set_entry_other d p q e ne
]

module _ (allows : Rights) (all : AllowsAll allows) where
  remove_file :
      (d : Disk) (at : Place) (name : Str) {bytes : Str}
      → IsName name
      → HasFolder d at
      → entry_at d (name ∷ at) ≡ some (file bytes)
      → delete_file allows name (record { disk = d; cwd = at })
        ≡ (true, record { disk = drop_entry d (name ∷ at); cwd = at })
  unfolding delete_file remove
  remove_file d at name is here e =
      rw (is.plain, walk-name d at name here is.plain, e, all (name ∷ at)) refl

  remove_last_loop_lem :
      (d : Disk) (at : Place) (names : List Str) (last : Str) {bytes : Str}
      → All IsName (names ++ last ∷ [])
      → HasFolder d at
      → AreFolders d at names
      → entry_at d (last ∷ target at names) ≡ some (file bytes)
      → remove_last_loop allows (marked (names ++ last ∷ [])) (record { disk = d; cwd = at })
        ≡ (true, record { disk = drop_entry d (last ∷ target at names); cwd = target at names })
  unfolding remove_last_loop chdir_name
  remove_last_loop_lem d at [] last (is, more) here folders e =
      rw (current-IsName is, remove_file d at last is here e) refl
  remove_last_loop_lem d at (name ∷ []) last (is, more) here (h, folders) e =
      rw (current-IsName is, enter_name allows all d at name is here (ap is_folder h))
        (remove_last_loop_lem d (name ∷ at) [] last more (ap is_folder h) folders e)
  remove_last_loop_lem d at (name ∷ next ∷ names) last (is, more) here (h, folders) e =
      rw (current-IsName is, enter_name allows all d at name is here (ap is_folder h))
        (remove_last_loop_lem d (name ∷ at) (next ∷ names) last more (ap is_folder h) folders e)

  -- removeLastFile of names that lead through folders to a file removes that entry alone, returns 1,
  -- and comes back to the directory of the start.
  pub remove_last_file_lem :
      (names : List Str) (last : Str) (s : Files) {bytes : Str}
      → All IsName (names ++ last ∷ [])
      → HasFolder s.disk s.cwd
      → cwd_fits s ≡ true
      → AreFolders s.disk s.cwd names
      → entry_at s.disk (last ∷ target s.cwd names) ≡ some (file bytes)
      → remove_last_file allows (join_path (names ++ last ∷ [])) s
        ≡ (1, record s { disk = drop_entry s.disk (last ∷ target s.cwd names) })
  unfolding remove_last_file enter
  remove_last_file_lem names last s is here fits folders e =
      rw
        (
          fits,
          parts-join_path (names ++ last ∷ []) is,
          remove_last_loop_lem s.disk s.cwd names last is here folders e,
          drop-HasFolder s.disk (last ∷ target s.cwd names) s.cwd
              (folder-ne s.disk _ s.cwd (ap is_folder e) here) here,
          all s.cwd,
        )
        refl

  -- A file that createFilePath has made new is removed again by removeLastFile: every place is as
  -- createDirPath of the folders on the way would have left it.
  pub remove_last_file-create_file_path :
      (names : List Str) (last : Str) (s : Files)
      → All IsName (names ++ last ∷ [])
      → HasFolder s.disk s.cwd
      → cwd_fits s ≡ true
      → IsClear s.disk s.cwd names
      → entry_at s.disk (last ∷ target s.cwd names) ≡ none
      → let path = join_path (names ++ last ∷ []) in
        let (result, after) = remove_last_file allows path ((create_file_path allows path s).1) in
        (result ≡ 1)
        × (after.cwd ≡ s.cwd)
        × ((q : Place) → entry_at after.disk q ≡ entry_at (make_folders s.disk s.cwd names) q)
  remove_last_file-create_file_path names last s is here fits clear new =
      let made = make_folders s.disk s.cwd names in
      let p = last ∷ target s.cwd names in
      let none_yet = make_folders-beyond s.disk s.cwd names last ∙ new in
      let bare = ap is_folder none_yet in
      rw
        (
          create_file_path_lem allows all names last s is here fits clear (ap is_folder new),
          remove_last_file_lem names last (record s { disk = set_entry made p (file []) }) is
              (set-HasFolder made p s.cwd (file []) bare
                (make_folders-HasFolder s.disk s.cwd names s.cwd here))
              fits
              (set_entry-AreFolders made p s.cwd (file []) names bare
                (make_folders-AreFolders s.disk s.cwd names clear))
              (entry_at-set_entry made p (file [])),
        )
        (refl, refl, set_and_dropped made p (file []) none_yet)
