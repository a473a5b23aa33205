-- ===== src/Storage/Paths/Tree.antt =====
-- createFilePath, createDirPath and removeLastFile keep the tree a tree, whatever the path.
use network_file_system_in_c.Base.{
  Bool, Bool-cases, List, Option, Str, [], ap, eq_of_some, false, if◌then◌else◌, inl, inr, none,
  refl, some, str_eq, subst, true, ◌&&◌, ◌||◌, ◌∷◌, ◌≡◌,
}
use network_file_system_in_c.Storage.Disk.{
  Disk, Entry, Files, Place, Rights, Try, add, calling, dot, dot_dot, drop_entry, enter, entry_at,
  file, folder, fopen_w, is_empty_folder, is_folder, mkdir, mkdir_on, parent, put_disk, remove,
  remove_on, set_entry, truncate_on, walk, ◌andalso◌,
}
use network_file_system_in_c.Storage.Disk.Entries.{place_eq-cons}
use network_file_system_in_c.Storage.Disk.Sound.{
  HasFolder, IsSound, IsTree, Preserves, both, clash, drop-HasFolder, drop_entry-IsTree, file-bare,
  is_empty_folder-none, is_there, set-HasFolder, set_entry-IsTree, walk-name,
}
use network_file_system_in_c.Storage.Paths.{
  at_name, chdir_name, create_dir_loop, create_dir_path, create_directory, create_file,
  create_file_loop, create_file_path, current, cwd_fits, delete_file, from_cwd, parts,
  remove_last_file, remove_last_loop,
}

-- What a call has made of the disk: a tree in which all folders are left.
abbrev pub Grows : Disk → Disk → Type 0
Grows d d' = IsTree d' × ((q : Place) → HasFolder d q → HasFolder d' q)

pub if_some {ℓ} :
    {A : Type ℓ} (b : Bool) {x y : A} → (if b then some x else none) ≡ some y → (b ≡ true) × (x ≡ y)
if_some true e = (refl, eq_of_some e)
if_some false e = cc

set-Grows :
    (d : Disk) (p : Place) (e : Entry) {d' : Disk}
    → IsTree d
    → HasFolder d (parent p)
    → is_folder (entry_at d p) ≡ false
    → set_entry d p e ≡ d'
    → Grows d d'
set-Grows d p e tree up bare made =
    subst (Grows d) made (set_entry-IsTree d p e tree up bare, λ q h. set-HasFolder d p q e bare h)

-- A place that is no folder is not the root.
parent-HasFolder :
    (d : Disk) (p : Place) {bytes : Str}
    → IsTree d
    → entry_at d p ≡ some (file bytes)
    → HasFolder d (parent p)
parent-HasFolder d [] tree e = absurd (clash tree.root (ap is_folder e))
parent-HasFolder d (n ∷ p) tree e = tree.above n p (ap is_there e)

module _ (allows : Rights) where
  add-Grows :
      (e : Entry) (d : Disk) (p : Place) {d' : Disk}
      → IsTree d
      → is_folder (entry_at d p) ≡ false
      → add allows e d p ≡ some d'
      → Grows d d'
  unfolding add
  add-Grows e d p tree bare made =
      let (ok_, same) = if_some _ made in set-Grows d p e tree (both _ _ ok_).0 bare same

  mkdir-Grows :
      (d : Disk) (p : Place) {d' : Disk} (o : Option Entry)
      → entry_at d p ≡ o
      → IsTree d
      → mkdir_on allows o d p ≡ some d'
      → Grows d d'
  mkdir-Grows d p none e tree made = add-Grows folder d p tree (ap is_folder e) made
  mkdir-Grows d p (some x) e tree made = subst (Grows d) (eq_of_some made) (tree, λ q h. h)

  truncate-Grows :
      (d : Disk) (p : Place) {d' : Disk} (o : Option Entry)
      → entry_at d p ≡ o
      → IsTree d
      → truncate_on allows o d p ≡ some d'
      → Grows d d'
  truncate-Grows d p none e tree made = add-Grows (file []) d p tree (ap is_folder e) made
  truncate-Grows d p (some folder) e tree made = cc
  truncate-Grows d p (some (file bytes)) e tree made =
      set-Grows d p (file []) tree (parent-HasFolder d p tree e) (ap is_folder e)
        ((if_some _ made).1)

  -- A call that lets the folders grow keeps everything sound.
  calling-Preserves :
      (call : Disk → Place → Option Disk) (at : Option Place)
      → ((d : Disk) (p : Place) (d' : Disk) → IsTree d → call d p ≡ some d' → Grows d d')
      → Preserves (calling call at)
  calling-Preserves call none grows s sound = sound
  calling-Preserves call (some p) grows s (tree, here) = go (call s.disk p) refl
    where
      go : (o : Option Disk) → call s.disk p ≡ o → IsSound ((put_disk o s).1)
      go none e = (tree, here)
      go (some d) e = let (tree', kept) = grows s.disk p d tree e in (tree', kept s.cwd here)

  mkdir-Preserves : (at : Option Place) → Preserves (mkdir allows at)
  unfolding mkdir
  mkdir-Preserves at = calling-Preserves _ at (λ d p d'. mkdir-Grows d p (entry_at d p) refl)

  fopen_w-Preserves : (at : Option Place) → Preserves (fopen_w allows at)
  unfolding fopen_w
  fopen_w-Preserves at = calling-Preserves _ at (λ d p d'. truncate-Grows d p (entry_at d p) refl)

  pub enter-Preserves : (at : Option Place) → Preserves (enter allows at)
  unfolding enter
  enter-Preserves none s sound = sound
  enter-Preserves (some p) s (tree, here) =
      elim (Bool-cases (is_folder (entry_at s.disk p) && allows p)) [
        | inl h ↦ rw h (tree, (both _ _ h).0)
        | inr h ↦ rw h (tree, here)
      ]

  remove-Preserves : (name : Str) → Preserves (remove allows name)
  unfolding remove walk
  remove-Preserves name s (tree, here) =
      elim (Bool-cases (str_eq name dot || str_eq name dot_dot)) [
        | inl dots ↦ rw dots (tree, here)
        | inr plain ↦
            rw (plain, walk-name s.disk s.cwd name here plain)
              (go (entry_at s.disk (name ∷ s.cwd)) refl)
      ]
    where
      dropped :
          ((m : Str) → entry_at s.disk (m ∷ name ∷ s.cwd) ≡ none)
          → IsSound (record s { disk = drop_entry s.disk (name ∷ s.cwd) })
      dropped bare = (
        drop_entry-IsTree s.disk name s.cwd tree bare,
        drop-HasFolder s.disk (name ∷ s.cwd) s.cwd (place_eq-cons name s.cwd) here,
      )

      go :
          (o : Option Entry)
          → entry_at s.disk (name ∷ s.cwd) ≡ o
          → IsSound ((put_disk (remove_on allows o s.disk (name ∷ s.cwd)) s).1)
      go none e = (tree, here)
      go (some folder) e =
          elim (Bool-cases (is_empty_folder s.disk (name ∷ s.cwd) && allows (name ∷ s.cwd))) [
            | inl h ↦
                rw h (dropped (λ m. is_empty_folder-none s.disk (name ∷ s.cwd) m (both _ _ h).0))
            | inr h ↦ rw h (tree, here)
          ]
      go (some (file bytes)) e = elim (Bool-cases (allows (name ∷ s.cwd))) [
        | inl h ↦ rw h (dropped (λ m. file-bare s.disk (name ∷ s.cwd) m tree e))
        | inr h ↦ rw h (tree, here)
      ]

  -- A sequence of calls.
  andalso-Preserves : (a b : Try) → Preserves a → Preserves b → Preserves (a andalso b)
  andalso-Preserves a b keeps_a keeps_b s sound = elim (Bool-cases ((a s).0)) [
    | inl h ↦ rw h (keeps_b ((a s).1) (keeps_a s sound))
    | inr h ↦ rw h (keeps_a s sound)
  ]

  at_name-Preserves :
      (call : Option Place → Try) (name : Str)
      → ((at : Option Place) → Preserves (call at))
      → Preserves (at_name call name)
  at_name-Preserves call name keeps s = keeps (walk s.disk s.cwd (name ∷ [])) s

  onwards-Preserves :
      (name : Str) (rest : Try)
      → Preserves rest
      → Preserves (create_directory allows name andalso chdir_name allows name andalso rest)
  unfolding create_directory chdir_name
  onwards-Preserves name rest keeps =
      andalso-Preserves (at_name (mkdir allows) name) (at_name (enter allows) name andalso rest)
        (at_name-Preserves (mkdir allows) name mkdir-Preserves)
        (andalso-Preserves (at_name (enter allows) name) rest
          (at_name-Preserves (enter allows) name enter-Preserves) keeps)

  create_file_loop-Preserves : (ps : List (Str × Bool)) → Preserves (create_file_loop allows ps)
  unfolding create_file_loop create_file
  create_file_loop-Preserves [] s sound = sound
  create_file_loop-Preserves ((token, true) ∷ ps) s sound =
      at_name-Preserves (fopen_w allows) (current token) fopen_w-Preserves s sound
  create_file_loop-Preserves ((token, false) ∷ ps) s sound =
      onwards-Preserves (current token) (create_file_loop allows ps) (create_file_loop-Preserves ps)
        s sound

  create_dir_loop-Preserves : (ps : List (Str × Bool)) → Preserves (create_dir_loop allows ps)
  unfolding create_dir_loop
  create_dir_loop-Preserves [] s sound = sound
  create_dir_loop-Preserves ((token, last) ∷ ps) s sound =
      onwards-Preserves (current token) (create_dir_loop allows ps) (create_dir_loop-Preserves ps) s
        sound

  remove_last_loop-Preserves : (ps : List (Str × Bool)) → Preserves (remove_last_loop allows ps)
  unfolding remove_last_loop delete_file chdir_name
  remove_last_loop-Preserves [] s sound = sound
  remove_last_loop-Preserves ((token, true) ∷ ps) s sound =
      andalso-Preserves (remove allows (current token)) (remove_last_loop allows ps)
        (remove-Preserves (current token)) (remove_last_loop-Preserves ps) s sound
  remove_last_loop-Preserves ((token, false) ∷ ps) s sound =
      andalso-Preserves (at_name (enter allows) (current token)) (remove_last_loop allows ps)
        (at_name-Preserves (enter allows) (current token) enter-Preserves)
        (remove_last_loop-Preserves ps) s sound

  from_cwd-IsSound :
      (loop : Try) (s : Files) → Preserves loop → IsSound s → IsSound ((from_cwd allows loop s).1)
  from_cwd-IsSound loop s keeps sound = elim (Bool-cases (cwd_fits s)) [
    | inl h ↦ rw h (
        andalso-Preserves loop (enter allows (some s.cwd)) keeps (enter-Preserves (some s.cwd)) s
          sound)
    | inr h ↦ rw h sound
  ]

  -- Whatever the path, and whatever the system refuses: createFilePath, createDirPath and
  -- removeLastFile leave a tree in which every entry stands in a folder, and a current directory
  -- that is one of its folders, if that was so before.
  path_calls-IsSound :
      (path : Str) (s : Files)
      → IsSound s
      → IsSound ((create_file_path allows path s).1)
        × IsSound ((create_dir_path allows path s).1)
        × IsSound ((remove_last_file allows path s).1)
  unfolding create_file_path create_dir_path remove_last_file
  path_calls-IsSound path s sound = (
    from_cwd-IsSound (create_file_loop allows (parts path)) s
        (create_file_loop-Preserves (parts path)) sound,
    from_cwd-IsSound (create_dir_loop allows (parts path)) s
        (create_dir_loop-Preserves (parts path)) sound,
    from_cwd-IsSound (remove_last_loop allows (parts path)) s
        (remove_last_loop-Preserves (parts path)) sound,
  )
