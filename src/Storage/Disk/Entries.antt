-- ===== src/Storage/Disk/Entries.antt =====
-- What a disk holds at a place after an entry is set or dropped.
use network_file_system_in_c.Base.{
  Bool-cases, Str, [], ap, arith, eq_of_str_eq, false, inl, inr, length, none, refl, some,
  str_eq_refl, suc, true, ◌∷◌, ◌≡◌, ◌≢◌, ◌⊎◌,
}
use network_file_system_in_c.Storage.Disk.{
  Disk, Entry, Place, drop_entry, entry_at, place_eq, set_entry,
}

pub place_eq_refl : (p : Place) → place_eq p p ≡ true
place_eq_refl [] = refl
place_eq_refl (n ∷ p) = rw (str_eq_refl n, place_eq_refl p) refl

pub eq_of_place_eq : (p q : Place) → place_eq p q ≡ true → p ≡ q
eq_of_place_eq [] [] h = refl
eq_of_place_eq [] (n ∷ q) h = cc
eq_of_place_eq (m ∷ p) [] h = cc
eq_of_place_eq (m ∷ p) (n ∷ q) h = ground (arith, eq_of_str_eq m n, eq_of_place_eq p q)

pub place_eq-cases : (p q : Place) → (p ≡ q) ⊎ (place_eq p q ≡ false)
place_eq-cases p q = elim (Bool-cases (place_eq p q)) [
  | inl e ↦ inl (eq_of_place_eq p q e)
  | inr ne ↦ inr ne
]

pub not_place_eq : (p q : Place) → p ≢ q → place_eq p q ≡ false
not_place_eq p q ne = elim (place_eq-cases p q) [ inl e ↦ absurd (ne e) | inr e ↦ e ]

pub place_eq-cons : (n : Str) (p : Place) → place_eq (n ∷ p) p ≡ false
place_eq-cons n p = not_place_eq (n ∷ p) p (λ e. longer (ap length e))
  where
    longer : suc (length p) ≢ length p
    longer e = omega (arith, e)

pub entry_at-set_entry : (d : Disk) (p : Place) (e : Entry) → entry_at (set_entry d p e) p ≡ some e
unfolding entry_at set_entry
entry_at-set_entry [] p e = rw (place_eq_refl p) refl
entry_at-set_entry ((q, x) ∷ d) p e = elim (place_eq-cases q p) [
  | inl same ↦ rw (same, place_eq_refl p) (rw (place_eq_refl p) refl)
  | inr ne ↦ rw ne (rw ne (entry_at-set_entry d p e))
]

pub entry_at-set_entry_other :
    (d : Disk) (p q : Place) (e : Entry)
    → place_eq p q ≡ false
    → entry_at (set_entry d p e) q ≡ entry_at d q
unfolding entry_at set_entry
entry_at-set_entry_other [] p q e h = rw h refl
entry_at-set_entry_other ((r, x) ∷ d) p q e h = elim (place_eq-cases r p) [
  | inl same ↦ rw (same, place_eq_refl p) (rw h refl)
  | inr ne ↦ rw (ne, entry_at-set_entry_other d p q e h) refl
]

pub entry_at-drop_entry : (d : Disk) (p : Place) → entry_at (drop_entry d p) p ≡ none
unfolding entry_at drop_entry
entry_at-drop_entry [] p = refl
entry_at-drop_entry ((q, x) ∷ d) p = elim (place_eq-cases q p) [
  | inl same ↦ rw (same, place_eq_refl p) (entry_at-drop_entry d p)
  | inr ne ↦ rw ne (rw ne (entry_at-drop_entry d p))
]

pub entry_at-drop_entry_other :
    (d : Disk) (p q : Place) → place_eq p q ≡ false → entry_at (drop_entry d p) q ≡ entry_at d q
unfolding entry_at drop_entry
entry_at-drop_entry_other [] p q h = refl
entry_at-drop_entry_other ((r, x) ∷ d) p q h = elim (place_eq-cases r p) [
  | inl same ↦ rw (same, place_eq_refl p, h) (entry_at-drop_entry_other d p q h)
  | inr ne ↦ rw (ne, entry_at-drop_entry_other d p q h) refl
]
