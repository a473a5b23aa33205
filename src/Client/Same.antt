-- ===== src/Client/Same.antt =====
-- Which copies a client refuses (Client.c, main).
use network_file_system_in_c.Base.{
  ==_refl, Bool, Bool-cases, Str, [], ap, arith, codes, eq_of_str_eq, false, if◌then◌else◌, inl,
  inr, refl, str_eq, true, ℕ, ◌&&◌, ◌++◌, ◌==◌, ◌||◌, ◌∙◌, ◌∷◌, ◌≡◌,
}
use network_file_system_in_c.Client.{agree, is_refused, same_place}
use network_file_system_in_c.Naming.State.{Command}

unfoldable pub starts_with : Str → Str → Bool
starts_with [] s = true
starts_with (c ∷ p) [] = false
starts_with (c ∷ p) (d ∷ s) = (c == d) && starts_with p s

==_sym : (a b : ℕ) → (a == b) ≡ (b == a)
==_sym a b = ground arith

distributes : (x p q : Bool) → (x && (p || q)) ≡ ((x && p) || (x && q))
distributes true p q = refl
distributes false p q = refl

agree_lem : (p1 p2 : Str) → agree p1 p2 ≡ (starts_with p1 p2 || starts_with p2 p1)
unfolding agree starts_with
agree_lem [] p2 = refl
agree_lem (c ∷ p1) [] = refl
agree_lem (c ∷ p1) (d ∷ p2) =
    ap (λ b. (c == d) && b) (agree_lem p1 p2)
    ∙ distributes (c == d) (starts_with p1 p2) (starts_with p2 p1)
    ∙ ap (λ b. ((c == d) && starts_with p1 p2) || (b && starts_with p2 p1)) (==_sym c d)

starts_with_refl : (p : Str) → starts_with p p ≡ true
unfolding starts_with
starts_with_refl [] = refl
starts_with_refl (c ∷ p) = rw (==_refl c, starts_with_refl p) refl

-- The comparison of the paths adds nothing.
same_place_lem :
    (p1 p2 : Str)
    → same_place p1 p2
      ≡ (starts_with (p1 ++ 47 ∷ []) (p2 ++ 47 ∷ []) || starts_with (p2 ++ 47 ∷ []) (p1 ++ 47 ∷ []))
unfolding same_place
same_place_lem p1 p2 =
    rw (agree_lem (p1 ++ 47 ∷ []) (p2 ++ 47 ∷ [])) (elim (Bool-cases (str_eq p1 p2)) [
      | inl same ↦ rw (same, eq_of_str_eq p1 p2 same, starts_with_refl (p2 ++ 47 ∷ [])) refl
      | inr other ↦ rw other refl
    ])

-- A copydir is refused exactly if one of the two paths, with a '/' behind it, begins with the other: the
-- two are the same, or one of them lies below the other, whichever of them is the source. A copyfile
-- is refused exactly if the two paths are the same, and no other command is.
pub is_refused_lem :
    (c : Command)
    → is_refused c ≡ (
        if str_eq c.operation (codes "copydir")
        then starts_with (c.path1 ++ 47 ∷ []) (c.path2 ++ 47 ∷ [])
          || starts_with (c.path2 ++ 47 ∷ []) (c.path1 ++ 47 ∷ [])
        else str_eq c.operation (codes "copyfile") && str_eq c.path1 c.path2)
unfolding is_refused
is_refused_lem c = elim (Bool-cases (str_eq c.operation (codes "copydir"))) [
  | inl is_dir ↦
      let other : str_eq c.operation (codes "copyfile") ≡ false =
        ap (λ o. str_eq o (codes "copyfile")) (eq_of_str_eq c.operation (codes "copydir") is_dir) in
      rw (is_dir, other, same_place_lem c.path1 c.path2) (or_false _)
  | inr is_none ↦ rw is_none refl
]
  where
    or_false : (b : Bool) → (b || false) ≡ b
    or_false true = refl
    or_false false = refl
