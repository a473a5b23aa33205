-- ===== src/Storage/Paths/Folders.antt =====
-- What `make_folders` describes, place by place.
use network_file_system_in_c.Base.{
  List, Option, Option-cases, Str, [], ap, eq_of_some, if◌then◌else◌, inl, inr, none, refl, some,
  subst, suc, sym, take, ℕ, ◌∙◌, ◌∷◌, ◌≡◌, ◌⊎◌,
}
use network_file_system_in_c.Storage.Disk.{
  Disk, Entry, Place, entry_at, folder, is_folder, set_entry,
}
use network_file_system_in_c.Storage.Disk.Entries.{
  entry_at-set_entry, entry_at-set_entry_other, not_place_eq, place_eq-cases,
}
use network_file_system_in_c.Storage.Disk.Sound.{HasFolder, folder_of, is_there}
use network_file_system_in_c.Storage.Paths.Made.{IsClear, ensure, ensure_lem, make_folders, target}

ensure-kept :
    (d : Disk) (p q : Place) {e : Entry} → entry_at d q ≡ some e → entry_at (ensure d p) q ≡ some e
ensure-kept d p q h = elim (Option-cases (entry_at d p)) [
  | inl nothing ↦
      rw nothing (entry_at-set_entry_other d p q folder (not_place_eq p q (λ same. cc)) ∙ h)
  | inr (x, there) ↦ rw there h
]

ensure-only :
    (d : Disk) (p q : Place) {e : Entry}
    → entry_at (ensure d p) q ≡ some e
    → (entry_at d q ≡ some e) ⊎ ((e ≡ folder) × (q ≡ p))
ensure-only d p q {e} h = go (entry_at d p) h
  where
    go :
        (o : Option Entry)
        → entry_at (if is_there o then d else set_entry d p folder) q ≡ some e
        → (entry_at d q ≡ some e) ⊎ ((e ≡ folder) × (q ≡ p))
    go (some x) k = inl k
    go none k = elim (place_eq-cases p q) [
      | inl same ↦ inr (
        eq_of_some (
            sym k
            ∙ subst (λ r. entry_at (set_entry d p folder) r ≡ some folder) same
                (entry_at-set_entry d p folder)),
        sym same,
      )
      | inr ne ↦ inl (sym (entry_at-set_entry_other d p q folder ne) ∙ k)
    ]

-- No entry is lost.
pub make_folders-kept :
    (d : Disk) (at : Place) (names : List Str) (q : Place) {e : Entry}
    → entry_at d q ≡ some e
    → entry_at (make_folders d at names) q ≡ some e
unfolding make_folders
make_folders-kept d at [] q h = h
make_folders-kept d at (name ∷ names) q h =
    make_folders-kept (ensure d (name ∷ at)) (name ∷ at) names q (ensure-kept d (name ∷ at) q h)

-- What is new is a folder on the way.
pub make_folders-only :
    (d : Disk) (at : Place) (names : List Str) (q : Place) {e : Entry}
    → entry_at (make_folders d at names) q ≡ some e
    → (entry_at d q ≡ some e) ⊎ ((e ≡ folder) × (k : ℕ) × (q ≡ target at (take k names)))
unfolding make_folders
make_folders-only d at [] q h = inl h
make_folders-only d at (name ∷ names) q h =
    elim (make_folders-only (ensure d (name ∷ at)) (name ∷ at) names q h) [
      | inl was ↦ elim (ensure-only d (name ∷ at) q was) [
        | inl old ↦ inl old
        | inr (is, same) ↦ inr (is, 1, same)
      ]
      | inr (is, k, same) ↦ inr (is, suc k, same)
    ]

pub make_folders-HasFolder :
    (d : Disk) (at : Place) (names : List Str) (q : Place)
    → HasFolder d q
    → HasFolder (make_folders d at names) q
make_folders-HasFolder d at names q h =
    ap is_folder (make_folders-kept d at names q (folder_of (entry_at d q) h))

-- The names lead through folders.
abbrev pub AreFolders : Disk → Place → List Str → Type 0
AreFolders d at [] = Unit
AreFolders d at (name ∷ names) =
    (entry_at d (name ∷ at) ≡ some folder) × AreFolders d (name ∷ at) names

pub make_folders-AreFolders :
    (d : Disk) (at : Place) (names : List Str)
    → IsClear d at names
    → AreFolders (make_folders d at names) at names
unfolding make_folders
make_folders-AreFolders d at [] clear = tt
make_folders-AreFolders d at (name ∷ names) clear =
    let (made, clear', kept) = ensure_lem d at name names clear in
    (
      make_folders-kept (ensure d (name ∷ at)) (name ∷ at) names (name ∷ at) (folder_of _ made),
      make_folders-AreFolders (ensure d (name ∷ at)) (name ∷ at) names clear',
    )

pub AreFolders-IsClear :
    (d : Disk) (at : Place) (names : List Str) → AreFolders d at names → IsClear d at names
AreFolders-IsClear d at [] h = tt
AreFolders-IsClear d at (name ∷ names) (h, more) =
    (inr h, AreFolders-IsClear d (name ∷ at) names more)

-- Made again, they are as they were.
pub make_folders-AreFolders_same :
    (d : Disk) (at : Place) (names : List Str) → AreFolders d at names → make_folders d at names ≡ d
unfolding make_folders
make_folders-AreFolders_same d at [] h = refl
make_folders-AreFolders_same d at (name ∷ names) (h, more) =
    rw h (make_folders-AreFolders_same d (name ∷ at) names more)
