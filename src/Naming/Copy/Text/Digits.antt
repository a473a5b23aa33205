-- ===== src/Naming/Copy/Text/Digits.antt =====
-- A number written with sprintf is the number that atoi reads.
use network_file_system_in_c.Base.{
  All, Bool-cases, Str, [], ap, arith, false, inl, inr, leb, leb-true, ltb, pos, refl, suc, zero, ℕ,
  ◌%◌, ◌*◌, ◌++◌, ◌+◌, ◌-◌, ◌/◌, ◌<◌, ◌==◌, ◌∙◌, ◌∷◌, ◌≡◌, ◌≤◌,
}
use network_file_system_in_c.Naming.Copy.Text.{atoi, digits_value, show_digits, show_int}

abbrev IsDigit : ℕ → Type 0
IsDigit c = (48 ≤ c) × (c ≤ 57)

digits_value-append :
    (acc : ℕ) (s : Str) (d : ℕ)
    → All IsDigit s
    → d < 10
    → digits_value acc (s ++ (48 + d) ∷ []) ≡ digits_value acc s * 10 + d
unfolding digits_value
digits_value-append acc [] d all small =
    rw (leb-true 48 (48 + d) (omega arith), leb-true (48 + d) 57 (omega (arith, small)))
      (omega arith)
digits_value-append acc (c ∷ s) d ((low, high), all) small =
    rw (leb-true 48 c low, leb-true c 57 high)
      (digits_value-append (acc * 10 + (c - 48)) s d all small)

All-append : (s t : Str) → All IsDigit s → All IsDigit t → All IsDigit (s ++ t)
All-append [] t hs ht = ht
All-append (c ∷ s) t (h, hs) ht = (h, All-append s t hs ht)

show_digits-IsDigit : (k n : ℕ) → All IsDigit (show_digits k n)
unfolding show_digits
show_digits-IsDigit zero n = tt
show_digits-IsDigit (suc k) n = elim (Bool-cases (ltb n 10)) [
  | inl small ↦ rw small ((omega arith, ground arith), tt)
  | inr large ↦ rw large (
      All-append (show_digits k (n / 10)) _ (show_digits-IsDigit k (n / 10))
        ((omega arith, omega arith), tt))
]

-- A number with at most k digits.
abbrev pub digit_bound : ℕ → ℕ
digit_bound zero = 1
digit_bound (suc k) = 10 * digit_bound k

show_digits_lem : (k n : ℕ) → n < digit_bound k → digits_value 0 (show_digits k n) ≡ n
unfolding show_digits digits_value
show_digits_lem zero n h = omega (arith, h)
show_digits_lem (suc k) n h = elim (Bool-cases (ltb n 10)) [
  | inl small ↦ rw small (digits_value-append 0 [] n tt (ground arith) ∙ omega arith)
  | inr large ↦ rw large (
      digits_value-append 0 (show_digits k (n / 10)) (n % 10) (show_digits-IsDigit k (n / 10))
        (omega arith)
      ∙ ap (λ q. q * 10 + n % 10) (show_digits_lem k (n / 10) (omega (arith, h)))
      ∙ omega arith)
]

-- A text that begins with a digit has no blank and no sign.
atoi-digits : (s : Str) → All IsDigit s → atoi s ≡ pos (digits_value 0 s)
unfolding atoi digits_value
atoi-digits [] all = refl
atoi-digits (c ∷ s) ((low, high), all) =
    let no_blank : (c == 32) ≡ false = ground arith in
    let no_space : leb c 13 ≡ false = ground arith in
    let no_minus : (c == b'-') ≡ false = ground arith in
    let no_plus : (c == b'+') ≡ false = ground arith in
    rw (no_blank, no_space, leb-true 9 c (omega arith), no_minus, no_plus) refl

pub atoi-show_digits : (k n : ℕ) → n < digit_bound k → atoi (show_digits k n) ≡ pos n
atoi-show_digits k n h =
    atoi-digits (show_digits k n) (show_digits-IsDigit k n) ∙ ap pos (show_digits_lem k n h)

-- atoi reads the number that sprintf has written, if it has at most ten digits.
pub atoi-show_int : (n : ℕ) → n < 10000000000 → atoi (show_int (pos n)) ≡ pos n
unfolding show_int
atoi-show_int n h = atoi-show_digits 10 n h
