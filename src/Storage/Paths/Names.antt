-- ===== src/Storage/Paths/Names.antt =====
-- Paths as texts: the names that strtok_r finds in a path that is joined from them.
use mathlib.Core.List.{append-nil, append_assoc}
use network_file_system_in_c.Base.{
  All, Bool, List, Str, [], ap, arith, false, is_empty_str, length, refl, str_eq, subst, suc, take,
  true, zero, ℕ, ◌++◌, ◌==◌, ◌||◌, ◌∙◌, ◌∷◌, ◌≡◌, ◌≤◌,
}
use network_file_system_in_c.Storage.Disk.{dot, dot_dot}
use network_file_system_in_c.Storage.Paths.{current, parts, parts_from}

-- A name that a path can be made of, and that fits into currentPath.
pub record IsName (name : Str) : Type 0 where
  pub filled : is_empty_str name ≡ false
  pub whole : All (λ c. (c == 47) ≡ false) name
  pub short : length name ≤ 255
  pub plain : (str_eq name dot || str_eq name dot_dot) ≡ false

-- The names with '/' in between.
abbrev pub join_path : List Str → Str
join_path [] = []
join_path (name ∷ []) = name
join_path (name ∷ next ∷ names) = name ++ 47 ∷ join_path (next ∷ names)

-- The last one is marked.
abbrev pub marked : List Str → List (Str × Bool)
marked [] = []
marked (name ∷ []) = (name, true) ∷ []
marked (name ∷ next ∷ names) = (name, false) ∷ marked (next ∷ names)

pub current-IsName : {name : Str} → IsName name → current name ≡ name
current-IsName {name} is = take_all 255 name is.short
  where
    take_all : (n : ℕ) (xs : Str) → length xs ≤ n → take n xs ≡ xs
    take_all zero [] h = refl
    take_all zero (x ∷ xs) h = absurd (omega (arith, h))
    take_all (suc n) [] h = refl
    take_all (suc n) (x ∷ xs) h = ap (◌∷◌ x) (take_all n xs (omega (arith, h)))

filled-append : (cur : Str) (c : ℕ) (cs : Str) → is_empty_str (cur ++ c ∷ cs) ≡ false
filled-append [] c cs = refl
filled-append (d ∷ cur) c cs = refl

-- A name before the end, and before a '/'.
parts_from-end :
    (cur name : Str)
    → All (λ c. (c == 47) ≡ false) name
    → is_empty_str (cur ++ name) ≡ false
    → parts_from cur name ≡ (cur ++ name, true) ∷ []
unfolding parts_from
parts_from-end cur [] whole filled =
    rw (append-nil cur) (rw (subst (λ n. is_empty_str n ≡ false) (append-nil cur) filled) refl)
parts_from-end cur (c ∷ cs) (h, whole) filled = rw h (
    parts_from-end (cur ++ c ∷ []) cs whole (filled')
    ∙ ap (λ n. (n, true) ∷ []) (append_assoc cur (c ∷ []) cs))
  where
    filled' : is_empty_str ((cur ++ c ∷ []) ++ cs) ≡ false
    filled' = ap is_empty_str (append_assoc cur (c ∷ []) cs) ∙ filled

parts_from-slash :
    (cur name rest : Str)
    → All (λ c. (c == 47) ≡ false) name
    → is_empty_str (cur ++ name) ≡ false
    → parts_from cur (name ++ 47 ∷ rest) ≡ (cur ++ name, is_empty_str rest) ∷ parts_from [] rest
unfolding parts_from
parts_from-slash cur [] rest whole filled =
    let not_empty : is_empty_str cur ≡ false =
      subst (λ n. is_empty_str n ≡ false) (append-nil cur) filled in
    rw (append-nil cur, not_empty) refl
parts_from-slash cur (c ∷ cs) rest (h, whole) filled = rw h (
    parts_from-slash (cur ++ c ∷ []) cs rest whole filled'
    ∙ ap (λ n. (n, is_empty_str rest) ∷ parts_from [] rest) (append_assoc cur (c ∷ []) cs))
  where
    filled' : is_empty_str ((cur ++ c ∷ []) ++ cs) ≡ false
    filled' = ap is_empty_str (append_assoc cur (c ∷ []) cs) ∙ filled

join-filled :
    (name : Str) (names : List Str) → IsName name → is_empty_str (join_path (name ∷ names)) ≡ false
join-filled name [] is = is.filled
join-filled [] (next ∷ names) is = refl
join-filled (c ∷ cs) (next ∷ names) is = refl

-- strtok_r finds the names again, in their order, and marks the last one.
pub parts-join_path : (names : List Str) → All IsName names → parts (join_path names) ≡ marked names
unfolding parts parts_from
parts-join_path [] h = refl
parts-join_path (name ∷ []) (is, h) = parts_from-end [] name is.whole is.filled
parts-join_path (name ∷ next ∷ names) (is, h) =
    parts_from-slash [] name (join_path (next ∷ names)) is.whole is.filled
    ∙ rw (join-filled next names h.0, parts-join_path (next ∷ names) h) refl
