-- ===== src/Storage/Disk/Sound.antt =====
-- The tree of a disk stays a tree: every entry stands in a folder.
use network_file_system_in_c.Base.{
  Bool, Bool-cases, Option, Option-cases, Str, [], ap, arith, false, inl, inr, none, not, not-true,
  refl, some, str_eq, subst, sym, true, ◌&&◌, ◌||◌, ◌∙◌, ◌∷◌, ◌≡◌,
}
use network_file_system_in_c.Storage.Disk.{
  Disk, Entry, Files, Place, Try, dot, dot_dot, drop_entry, entry_at, file, folder, is_empty_folder,
  is_folder, is_inside, parent, place_eq, set_entry, walk,
}
use network_file_system_in_c.Storage.Disk.Entries.{
  entry_at-drop_entry, entry_at-drop_entry_other, entry_at-set_entry_other, eq_of_place_eq,
  not_place_eq, place_eq-cases, place_eq_refl,
}

abbrev pub is_there : Option Entry → Bool
is_there none = false
is_there (some e) = true

abbrev pub HasFolder : Disk → Place → Type 0
HasFolder d p = is_folder (entry_at d p) ≡ true

pub record IsTree (d : Disk) : Type 0 where
  pub root : HasFolder d []
  pub above : (n : Str) (p : Place) → is_there (entry_at d (n ∷ p)) ≡ true → HasFolder d p

-- The current directory is a folder, too.
abbrev pub IsSound : Files → Type 0
IsSound s = IsTree s.disk × HasFolder s.disk s.cwd

abbrev pub Preserves : Try → Type 0
Preserves call = (s : Files) → IsSound s → IsSound ((call s).1)

pub clash : {b : Bool} → b ≡ true → b ≡ false → ⊥
clash h k = cc

pub both : (a b : Bool) → (a && b) ≡ true → (a ≡ true) × (b ≡ true)
both a b h = ground (arith, h)

pub neither : (a b : Bool) → (a || b) ≡ false → (a ≡ false) × (b ≡ false)
neither a b h = ground (arith, h)

pub folder-ne :
    (d : Disk) (p q : Place)
    → is_folder (entry_at d p) ≡ false
    → HasFolder d q
    → place_eq p q ≡ false
folder-ne d p q bare h = not_place_eq p q (λ e. cc)

pub set-HasFolder :
    (d : Disk) (p q : Place) (e : Entry)
    → is_folder (entry_at d p) ≡ false
    → HasFolder d q
    → HasFolder (set_entry d p e) q
set-HasFolder d p q e bare h =
    ap is_folder (entry_at-set_entry_other d p q e (folder-ne d p q bare h)) ∙ h

-- A file or a new folder below a folder.
pub set_entry-IsTree :
    (d : Disk) (p : Place) (e : Entry)
    → IsTree d
    → HasFolder d (parent p)
    → is_folder (entry_at d p) ≡ false
    → IsTree (set_entry d p e)
set_entry-IsTree d p e tree up bare = record {
  root = set-HasFolder d p [] e bare tree.root;
  above = λ n q there. elim (place_eq-cases p (n ∷ q)) [
    | inl same ↦ set-HasFolder d p q e bare (subst (λ r. HasFolder d (parent r)) same up)
    | inr ne ↦
        set-HasFolder d p q e bare
          (tree.above n q (ap is_there (sym (entry_at-set_entry_other d p (n ∷ q) e ne)) ∙ there))
  ];
}

pub drop-HasFolder :
    (d : Disk) (p q : Place) → place_eq p q ≡ false → HasFolder d q → HasFolder (drop_entry d p) q
drop-HasFolder d p q ne h = ap is_folder (entry_at-drop_entry_other d p q ne) ∙ h

drop-there :
    (d : Disk) (p q : Place)
    → is_there (entry_at (drop_entry d p) q) ≡ true
    → (place_eq p q ≡ false) × (is_there (entry_at d q) ≡ true)
drop-there d p q there = elim (place_eq-cases p q) [
  | inl same ↦ absurd (
      clash there (
        subst (λ r. is_there (entry_at (drop_entry d p) r) ≡ false) same
          (ap is_there (entry_at-drop_entry d p))))
  | inr ne ↦ (ne, ap is_there (sym (entry_at-drop_entry_other d p q ne)) ∙ there)
]

-- Below a folder that is empty there is nothing.
pub is_empty_folder-none :
    (d : Disk) (p : Place) (n : Str) → is_empty_folder d p ≡ true → entry_at d (n ∷ p) ≡ none
unfolding is_empty_folder entry_at
is_empty_folder-none [] p n h = refl
is_empty_folder-none ((q, e) ∷ d) p n h = elim (Bool-cases (place_eq q (n ∷ p))) [
  | inl same ↦ absurd (
      clash (place_eq_refl p) (
        not-true _ (
          (both _ _ (
            subst (λ r. not (is_inside p r) && is_empty_folder d p ≡ true)
              (eq_of_place_eq q (n ∷ p) same) h)).0)))
  | inr ne ↦ rw ne (is_empty_folder-none d p n ((both _ _ h).1))
]

-- An entry is dropped that is a file, or has nothing below it.
pub drop_entry-IsTree :
    (d : Disk) (n : Str) (p : Place)
    → IsTree d
    → ((m : Str) → entry_at d (m ∷ n ∷ p) ≡ none)
    → IsTree (drop_entry d (n ∷ p))
drop_entry-IsTree d n p tree bare = record {
  root = drop-HasFolder d (n ∷ p) [] refl tree.root;
  above = λ m q there.
      let (ne, was) = drop-there d (n ∷ p) (m ∷ q) there in
      drop-HasFolder d (n ∷ p) q
        (not_place_eq (n ∷ p) q (λ same.
          clash was
            (subst (λ r. is_there (entry_at d (m ∷ r)) ≡ false) same (ap is_there (bare m)))))
        (tree.above m q was);
}

-- A name in a folder that is there.
pub walk-name :
    (d : Disk) (at : Place) (name : Str)
    → HasFolder d at
    → (str_eq name dot || str_eq name dot_dot) ≡ false
    → walk d at (name ∷ []) ≡ some (name ∷ at)
unfolding walk
walk-name d at name h plain =
    let (no_dot, no_dots) = neither (str_eq name dot) (str_eq name dot_dot) plain in
    rw (h, no_dot, no_dots) refl

-- Below a file there is nothing.
pub file-bare :
    (d : Disk) (p : Place) (m : Str) {bytes : Str}
    → IsTree d
    → entry_at d p ≡ some (file bytes)
    → entry_at d (m ∷ p) ≡ none
file-bare d p m tree e = elim (Option-cases (entry_at d (m ∷ p))) [
  | inl nothing ↦ nothing
  | inr (x, there) ↦ absurd (clash (tree.above m p (ap is_there there)) (ap is_folder e))
]

pub folder_of : (o : Option Entry) → is_folder o ≡ true → o ≡ some folder
folder_of none h = cc
folder_of (some folder) h = refl
folder_of (some (file bytes)) h = cc
