-- ===== src/Storage/Paths/Made.antt =====
-- createDirPath and createFilePath against a description of what they make.
use network_file_system_in_c.Base.{
  All, List, Option, Str, [], ap, arith, false, if◌then◌else◌, inl, inr, length, none, refl, some,
  subst, sym, true, ◌++◌, ◌<◌, ◌∙◌, ◌∷◌, ◌≡◌, ◌≢◌, ◌≤◌, ◌⊎◌,
}
use network_file_system_in_c.Storage.Disk.{
  Disk, Entry, Place, Rights, Try, add, enter, entry_at, file, folder, fopen_w, is_folder, mkdir,
  place_eq, put_disk, set_entry, truncate_on, walk, ◌andalso◌,
}
use network_file_system_in_c.Storage.Disk.Entries.{
  entry_at-set_entry, entry_at-set_entry_other, not_place_eq,
}
use network_file_system_in_c.Storage.Disk.Sound.{HasFolder, is_there, set-HasFolder, walk-name}
use network_file_system_in_c.Storage.Paths.{
  chdir_name, create_dir_loop, create_directory, create_file, create_file_loop,
}
use network_file_system_in_c.Storage.Paths.Names.{IsName, current-IsName, marked}

-- `mkdir -p`: the names become folders, one inside the other, where there is nothing yet.
abbrev pub ensure : Disk → Place → Disk
ensure d p = if is_there (entry_at d p) then d else set_entry d p folder

unfoldable pub make_folders : Disk → Place → List Str → Disk
make_folders d at [] = d
make_folders d at (name ∷ names) = make_folders (ensure d (name ∷ at)) (name ∷ at) names

-- Where the names lead, and what they lead through.
abbrev pub target : Place → List Str → Place
target at [] = at
target at (name ∷ names) = target (name ∷ at) names

-- None of the names is that of a file.
abbrev pub IsClear : Disk → Place → List Str → Type 0
IsClear d at [] = Unit
IsClear d at (name ∷ names) =
    ((entry_at d (name ∷ at) ≡ none) ⊎ (entry_at d (name ∷ at) ≡ some folder))
    × IsClear d (name ∷ at) names

-- The system refuses nothing.
abbrev pub AllowsAll : Rights → Type 0
AllowsAll allows = (p : Place) → allows p ≡ true

pub target-length : (at : Place) (names : List Str) → length at ≤ length (target at names)
target-length at [] = omega arith
target-length at (name ∷ names) = omega (arith, target-length (name ∷ at) names)

pub longer-ne : (p q : Place) → length p < length q → place_eq p q ≡ false
longer-ne p q h = not_place_eq p q (λ e. clash_len (ap length e))
  where
    clash_len : length p ≢ length q
    clash_len e = omega (arith, e, h)

set_entry-IsClear :
    (d : Disk) (p at : Place) (e : Entry) (names : List Str)
    → length p ≤ length at
    → IsClear d at names
    → IsClear (set_entry d p e) at names
set_entry-IsClear d p at e [] h clear = tt
set_entry-IsClear d p at e (name ∷ names) h (here, clear) = (
  subst (λ o. (o ≡ none) ⊎ (o ≡ some folder))
      (sym
        (entry_at-set_entry_other d p (name ∷ at) e (longer-ne p (name ∷ at) (omega (arith, h)))))
      here,
  set_entry-IsClear d p (name ∷ at) e names (omega (arith, h)) clear,
)

-- What one name makes of the disk.
pub ensure_lem :
    (d : Disk) (at : Place) (name : Str) (names : List Str)
    → IsClear d at (name ∷ names)
    → HasFolder (ensure d (name ∷ at)) (name ∷ at)
      × IsClear (ensure d (name ∷ at)) (name ∷ at) names
      × ((q : Place) → HasFolder d q → HasFolder (ensure d (name ∷ at)) q)
ensure_lem d at name names (inl nothing, clear) = rw (nothing) (
  ap is_folder (entry_at-set_entry d (name ∷ at) folder),
  set_entry-IsClear d (name ∷ at) (name ∷ at) folder names (omega arith) clear,
  λ q h. set-HasFolder d (name ∷ at) q folder (ap is_folder nothing) h,
)
ensure_lem d at name names (inr there, clear) = rw (there) (ap is_folder there, clear, λ q h. h)

module _ (allows : Rights) (all : AllowsAll allows) where
  pub enter_name :
      (d : Disk) (at : Place) (name : Str)
      → IsName name
      → HasFolder d at
      → HasFolder d (name ∷ at)
      → enter allows (walk d at (name ∷ [])) (record { disk = d; cwd = at })
        ≡ (true, record { disk = d; cwd = name ∷ at })
  unfolding enter
  enter_name d at name is here there =
      rw (walk-name d at name here is.plain, there, all (name ∷ at)) refl

  -- mkdir and chdir of a name go one step on.
  pub step_into :
      (d : Disk) (at : Place) (name : Str) (names : List Str) (rest : Try)
      → IsName name
      → HasFolder d at
      → IsClear d at (name ∷ names)
      → (create_directory allows name andalso chdir_name allows name andalso rest)
          (record { disk = d; cwd = at })
        ≡ rest (record { disk = ensure d (name ∷ at); cwd = name ∷ at })
  unfolding create_directory chdir_name mkdir add
  step_into d at name names rest is here (inl nothing, clear) =
      let kept = set-HasFolder d (name ∷ at) at folder (ap is_folder nothing) here in
      let made = ap is_folder (entry_at-set_entry d (name ∷ at) folder) in
      rw (walk-name d at name here is.plain, nothing, here, all (name ∷ at))
        (rw (enter_name (set_entry d (name ∷ at) folder) at name is kept made) refl)
  step_into d at name names rest is here (inr there, clear) =
      rw (walk-name d at name here is.plain, there)
        (rw (enter_name d at name is here (ap is_folder there)) refl)

  pub create_dir_loop_lem :
      (d : Disk) (at : Place) (names : List Str)
      → All IsName names
      → HasFolder d at
      → IsClear d at names
      → create_dir_loop allows (marked names) (record { disk = d; cwd = at })
        ≡ (true, record { disk = make_folders d at names; cwd = target at names })
  unfolding create_dir_loop make_folders
  create_dir_loop_lem d at [] is here clear = refl
  create_dir_loop_lem d at (name ∷ []) (is, more) here clear =
      rw (current-IsName is) (step_into d at name [] (create_dir_loop allows []) is here clear)
  create_dir_loop_lem d at (name ∷ next ∷ names) (is, more) here clear =
      let (made, clear', kept) = ensure_lem d at name (next ∷ names) clear in
      rw (current-IsName is) (
        step_into d at name (next ∷ names) (create_dir_loop allows (marked (next ∷ names))) is here
          clear
        ∙ create_dir_loop_lem (ensure d (name ∷ at)) (name ∷ at) (next ∷ names) more made clear')

  pub create_file_lem :
      (d : Disk) (at : Place) (name : Str)
      → IsName name
      → HasFolder d at
      → is_folder (entry_at d (name ∷ at)) ≡ false
      → create_file allows name (record { disk = d; cwd = at })
        ≡ (true, record { disk = set_entry d (name ∷ at) (file []); cwd = at })
  unfolding create_file fopen_w add
  create_file_lem d at name is here free =
      rw (walk-name d at name here is.plain) (go (entry_at d (name ∷ at)) free)
    where
      go :
          (o : Option Entry)
          → is_folder o ≡ false
          → put_disk (truncate_on allows o d (name ∷ at)) (record { disk = d; cwd = at })
            ≡ (true, record { disk = set_entry d (name ∷ at) (file []); cwd = at })
      go none h = rw (here, all (name ∷ at)) refl
      go (some folder) h = cc
      go (some (file bytes)) h = rw (all (name ∷ at)) refl

  -- The parents of a file, and the file.
  pub create_file_loop_lem :
      (d : Disk) (at : Place) (names : List Str) (last : Str)
      → All IsName (names ++ last ∷ [])
      → HasFolder d at
      → IsClear d at names
      → is_folder (entry_at (make_folders d at names) (last ∷ target at names)) ≡ false
      → create_file_loop allows (marked (names ++ last ∷ [])) (record { disk = d; cwd = at }) ≡ (
        true,
        record {
          disk = set_entry (make_folders d at names) (last ∷ target at names) (file []);
          cwd = target at names;
        },
      )
  unfolding create_file_loop make_folders
  create_file_loop_lem d at [] last (is, more) here clear free =
      rw (current-IsName is) (create_file_lem d at last is here free)
  create_file_loop_lem d at (name ∷ []) last (is, more) here clear free =
      let (made, clear', kept) = ensure_lem d at name [] clear in
      rw (current-IsName is) (
        step_into d at name [] (create_file_loop allows (marked (last ∷ []))) is here clear
        ∙ create_file_loop_lem (ensure d (name ∷ at)) (name ∷ at) [] last more made clear' free)
  create_file_loop_lem d at (name ∷ next ∷ names) last (is, more) here clear free =
      let (made, clear', kept) = ensure_lem d at name (next ∷ names) clear in
      rw (current-IsName is) (
        step_into d at name (next ∷ names)
          (create_file_loop allows (marked (next ∷ names ++ last ∷ []))) is here clear
        ∙ create_file_loop_lem (ensure d (name ∷ at)) (name ∷ at) (next ∷ names) last more made
            clear' free)
