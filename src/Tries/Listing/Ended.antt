-- ===== src/Tries/Listing/Ended.antt =====
-- The lines of printTriesFile (Tries.c).
use mathlib.Core.List.{append-nil, append_assoc}
use network_file_system_in_c.Base.{
  ==_iff, ==_refl, Bool, Bool-cases, IsAscii, List, Str, [], arith, false, if◌then◌else◌, inl, inr,
  leb, ltb, refl, str_eq, subst, suc, sym, true, zero, ℕ, ◌&&◌, ◌++◌, ◌+◌, ◌==◌, ◌||◌, ◌∙◌, ◌∷◌,
  ◌≡◌, ◌≢◌,
}
use network_file_system_in_c.Tries.Insert.Lookup.{is_prefix}
use network_file_system_in_c.Tries.Listing.{for_from, print_end, print_tries_file}
use network_file_system_in_c.Tries.Node.{Tries, ends, node, node_at, null}

unfoldable pub mem_str : List Str → Str → Bool
mem_str [] x = false
mem_str (y ∷ ys) x = if str_eq y x then true else mem_str ys x

mem_str-append :
    (xs ys : List Str) (x : Str) → mem_str (xs ++ ys) x ≡ (mem_str xs x || mem_str ys x)
unfolding mem_str
mem_str-append [] ys x = refl
mem_str-append (y ∷ xs) ys x = ground (arith, mem_str-append xs ys x)

-- A loop whose round `c` adds `b` to a property, and whose other rounds keep it.
pub for_from-or {ℓ} :
    {S : Type ℓ} (m : S → Bool) (visit : ℕ → S → S) (c : ℕ) (b : Bool)
    → ((j : ℕ) (s : S) → m (visit j s) ≡ (m s || ((j == c) && b)))
    → (k i : ℕ) (s : S) → m (for_from visit k i s) ≡ (m s || ((leb i c && ltb c (i + k)) && b))
unfolding for_from
for_from-or m visit c b h zero i s = ground arith
for_from-or m visit c b h (suc k) i s =
    for_from-or m visit c b h k (suc i) (visit i s) ∙ rw (h i s) (ground arith)

-- A loop all of whose rounds keep a property.
pub for_from-same {ℓ} :
    {S : Type ℓ} (m : S → Bool) (visit : ℕ → S → S)
    → ((j : ℕ) (s : S) → m (visit j s) ≡ m s)
    → (k i : ℕ) (s : S) → m (for_from visit k i s) ≡ m s
unfolding for_from
for_from-same m visit h zero i s = refl
for_from-same m visit h (suc k) i s = for_from-same m visit h k (suc i) (visit i s) ∙ h i s

is_prefix-append :
    (v : Str) (c : ℕ) (x : Str) → is_prefix v x ≡ false → is_prefix (v ++ c ∷ []) x ≡ false
unfolding is_prefix
is_prefix-append [] c x h = cc
is_prefix-append (d ∷ v) c [] h = refl
is_prefix-append (d ∷ v) c (e ∷ x) h = ground (arith, is_prefix-append v c x)

str_eq_of_prefix : (v x : Str) → is_prefix v x ≡ false → str_eq v x ≡ false
unfolding is_prefix
str_eq_of_prefix [] x h = cc
str_eq_of_prefix (d ∷ v) [] h = refl
str_eq_of_prefix (d ∷ v) (e ∷ x) h = ground (arith, str_eq_of_prefix v x)

mem-print_end :
    (t : Tries) (val : Str) (out : List Str) (x : Str)
    → mem_str (print_end t val out) x ≡ (mem_str out x || (ends t && str_eq val x))
unfolding print_end mem_str
mem-print_end t val out x = ground (arith, mem_str-append out (val ∷ []) x)

-- Lines that do not begin with `val` are not written.
print-other :
    (t : Tries) (val : Str) (out : List Str) (x : Str)
    → is_prefix val x ≡ false
    → mem_str (print_tries_file t val out) x ≡ mem_str out x
unfolding print_tries_file
print-other null val out x h = refl
print-other (node alpha p n e) val out x h =
    for_from-same (λ o. mem_str o x) _
      (λ j s.
        let h' = is_prefix-append val j x h in
        print-other (alpha j) (val ++ j ∷ []) _ x h'
        ∙ mem-print_end (alpha j) (val ++ j ∷ []) s x
        ∙ rw (str_eq_of_prefix (val ++ j ∷ []) x h') (ground arith))
      128 0 out

-- A path that ends strictly below `t`.
abbrev pub below : Tries → Str → Bool
below t [] = false
below t (c ∷ w) = ends (node_at t (c ∷ w))

ends-below : (t : Tries) (w : Str) → ((ends t && str_eq [] w) || below t w) ≡ ends (node_at t w)
unfolding node_at
ends-below t [] = ground arith
ends-below null (c ∷ w) = refl
ends-below (node a p n e) (c ∷ w) = ground arith

is_prefix_fork :
    (val : Str) (j c : ℕ) (w : Str) → is_prefix (val ++ j ∷ []) (val ++ c ∷ w) ≡ (j == c)
unfolding is_prefix
is_prefix_fork [] j c w = ground arith
is_prefix_fork (d ∷ val) j c w = ground (arith, is_prefix_fork val j c w, ==_refl d)

is_prefix_longer : (val : Str) (j : ℕ) → is_prefix (val ++ j ∷ []) (val ++ []) ≡ false
unfolding is_prefix
is_prefix_longer [] j = refl
is_prefix_longer (d ∷ val) j = ground (arith, is_prefix_longer val j)

str_eq_extend : (v w : Str) → str_eq v (v ++ w) ≡ str_eq [] w
str_eq_extend [] w = refl
str_eq_extend (d ∷ v) w = ground (arith, str_eq_extend v w, ==_refl d)

-- A round of the loop for a child whose paths do not begin `x`.
round-other :
    (t : Tries) (val : Str) (j : ℕ) (out : List Str) (x : Str)
    → is_prefix (val ++ j ∷ []) x ≡ false
    → mem_str (print_tries_file t (val ++ j ∷ []) (print_end t (val ++ j ∷ []) out)) x
      ≡ mem_str out x
round-other t val j out x h =
    print-other t (val ++ j ∷ []) _ x h
    ∙ mem-print_end t (val ++ j ∷ []) out x
    ∙ rw (str_eq_of_prefix (val ++ j ∷ []) x h) (ground arith)

round-hit :
    (t : Tries) (val : Str) (c : ℕ) (w : Str) (out : List Str)
    → ((o : List Str)
        → mem_str (print_tries_file t (val ++ c ∷ []) o) ((val ++ c ∷ []) ++ w)
          ≡ (mem_str o ((val ++ c ∷ []) ++ w) || below t w))
    → mem_str (print_tries_file t (val ++ c ∷ []) (print_end t (val ++ c ∷ []) out)) (val ++ c ∷ w)
      ≡ (mem_str out (val ++ c ∷ w) || ends (node_at t w))
round-hit t val c w out ih =
    subst
      (λ x.
        mem_str (print_tries_file t (val ++ c ∷ []) (print_end t (val ++ c ∷ []) out)) x
        ≡ (mem_str out x || ends (node_at t w)))
      (append_assoc val (c ∷ []) w)
      (ih _
        ∙ rw
            (
              mem-print_end t (val ++ c ∷ []) out ((val ++ c ∷ []) ++ w),
              str_eq_extend (val ++ c ∷ []) w,
            )
            (ground (arith, ends-below t w)))

round :
    (alpha : ℕ → Tries) (val : Str) (c : ℕ) (w : Str) (j : ℕ) (out : List Str)
    → ((o : List Str)
        → mem_str (print_tries_file (alpha c) (val ++ c ∷ []) o) ((val ++ c ∷ []) ++ w)
          ≡ (mem_str o ((val ++ c ∷ []) ++ w) || below (alpha c) w))
    → mem_str
        (print_tries_file (alpha j) (val ++ j ∷ []) (print_end (alpha j) (val ++ j ∷ []) out))
        (val ++ c ∷ w)
      ≡ (mem_str out (val ++ c ∷ w) || ((j == c) && ends (node_at (alpha c) w)))
round alpha val c w j out ih = elim (Bool-cases (j == c)) [
  | inl same ↦
      subst
        (λ k.
          mem_str
            (print_tries_file (alpha k) (val ++ k ∷ []) (print_end (alpha k) (val ++ k ∷ []) out))
            (val ++ c ∷ w)
          ≡ (mem_str out (val ++ c ∷ w) || ((k == c) && ends (node_at (alpha c) w))))
        (sym ((==_iff j c).0 same)) (rw (==_refl c) (round-hit (alpha c) val c w out ih))
  | inr other ↦ rw other (
      round-other (alpha j) val j out (val ++ c ∷ w) (is_prefix_fork val j c w ∙ other)
      ∙ ground arith)
]

print-ended :
    (t : Tries) (val : Str) (out : List Str) (w : Str)
    → IsAscii w
    → mem_str (print_tries_file t val out) (val ++ w) ≡ (mem_str out (val ++ w) || below t w)
unfolding print_tries_file node_at
print-ended null val out [] ok = ground arith
print-ended null val out (c ∷ w) ok = ground arith
print-ended (node alpha p n e) val out [] ok =
    for_from-same (λ o. mem_str o (val ++ [])) _
      (λ j s. round-other (alpha j) val j s (val ++ []) (is_prefix_longer val j)) 128 0 out
    ∙ ground arith
print-ended (node alpha p n e) val out (c ∷ w) ok =
    for_from-or (λ o. mem_str o (val ++ c ∷ w)) _ c (ends (node_at (alpha c) w))
      (λ j s. round alpha val c w j s (λ o. print-ended (alpha c) (val ++ c ∷ []) o w ok.1)) 128 0
      out
    ∙ ground (arith, ok.0)

-- printTriesFile from `tp`, with `val` as the path so far, writes a line `val` + `w` for
-- exactly the ASCII paths `w` that are not empty and end at their node below `tp`; every line
-- that it writes begins with `val`.
pub print_tries_file_lem :
    (t : Tries) (val x : Str)
    → ((w : Str)
        → IsAscii w
        → w ≢ []
        → mem_str (print_tries_file t val []) (val ++ w) ≡ ends (node_at t w))
      × (mem_str (print_tries_file t val []) val ≡ false)
      × (is_prefix val x ≡ false → mem_str (print_tries_file t val []) x ≡ false)
unfolding mem_str
print_tries_file_lem t val x = (
  λ w ok more. print-ended t val [] w ok ∙ below_ends w more,
  subst (λ y. mem_str (print_tries_file t val []) y ≡ false) (append-nil val)
      (print-ended t val [] [] tt),
  λ h. print-other t val [] x h,
)
  where
    below_ends : (w : Str) → w ≢ [] → below t w ≡ ends (node_at t w)
    below_ends [] more = absurd (more refl)
    below_ends (c ∷ w) more = refl
