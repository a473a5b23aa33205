-- ===== src/Naming/Copy/Text.antt =====
-- Numbers as copyfunctionality reads and writes them: atoi and sprintf of the C library, and the
-- conversion to float in the number of chunks.
pub mod Digits
use network_file_system_in_c.Base.{
  Str, [], ap, arith, if_true, if◌then◌else◌, leb, ltb, ltb-true, negsuc, pos, suc, true, zero, ℕ,
  ℤ, ◌%◌, ◌&&◌, ◌*◌, ◌++◌, ◌+◌, ◌-◌, ◌/◌, ◌<◌, ◌==◌, ◌^◌, ◌||◌, ◌∙◌, ◌∷◌, ◌≡◌, ◌≤◌,
}

unfoldable pub digits_value : ℕ → Str → ℕ
digits_value acc [] = acc
digits_value acc (c ∷ cs) =
    let rest = digits_value (acc * 10 + (c - 48)) cs in if leb 48 c && leb c 57 then rest else acc

abbrev pub neg_of : ℕ → ℤ
neg_of zero = pos 0
neg_of (suc n) = negsuc n

-- Blanks before the number are passed over.
unfoldable pub atoi : Str → ℤ
unfolding digits_value
atoi [] = pos 0
atoi (c ∷ cs) =
    let rest = atoi cs in
    if (c == 32) || leb 9 c && leb c 13
    then rest
    else if c == b'-'
    then neg_of (digits_value 0 cs)
    else if c == b'+'
    then pos (digits_value 0 cs)
    else pos (digits_value 0 (c ∷ cs))

-- An int has at most ten digits.
unfoldable pub show_digits : ℕ → ℕ → Str
show_digits zero n = []
show_digits (suc k) n =
    let rest = show_digits k (n / 10) in
    if ltb n 10 then (48 + n) ∷ [] else rest ++ (48 + n % 10) ∷ []

unfoldable pub show_int : ℤ → Str
unfolding show_digits
show_int (pos n) = show_digits 10 n
show_int (negsuc n) = b'-' ∷ show_digits 10 (suc n)

-- n / ulp, to the nearest number, and to the even one of two.
abbrev pub rounded : ℕ → ℕ → ℕ
rounded n ulp =
    let q = n / ulp in
    let r = n % ulp in
    if ltb (2 * r) ulp
    then q
    else if ltb ulp (2 * r)
    then q + 1
    else if q % 2 == 0
    then q
    else q + 1

-- (float)n: 24 bits are kept. An int needs at most 7 steps.
unfoldable pub float_from : ℕ → ℕ → ℕ → ℕ
float_from zero ulp n = n
float_from (suc k) ulp n =
    let rest = float_from k (2 * ulp) n in
    if ltb (n / ulp) (2 ^ 24) then rounded n ulp * ulp else rest

abbrev pub float_of : ℕ → ℕ
float_of n = float_from 8 1 n

-- ceil(((float)size_f) / 8192)
unfoldable pub chunk_count : ℤ → ℤ
unfolding float_from
chunk_count (pos n) = pos ((float_of n + 8191) / 8192)
chunk_count (negsuc n) = neg_of (float_of (suc n) / 8192)

rounded_one : (n : ℕ) → rounded n 1 * 1 ≡ n
rounded_one n =
    let exact : ltb (2 * (n % 1)) 1 ≡ true = ltb-true (2 * (n % 1)) 1 (omega arith) in
    ap (λ q. q * 1) (if_true _ _ exact) ∙ omega arith

pub float_of_small : (n : ℕ) → n < 2 ^ 24 → float_of n ≡ n
unfolding float_from
float_of_small n h =
    let kept : ltb (n / 1) (2 ^ 24) ≡ true = ltb-true (n / 1) (2 ^ 24) (omega (arith, h)) in
    if_true _ _ kept ∙ rounded_one n

-- Up to 16 MiB the number of chunks is the size divided by 8192, rounded up.
pub chunk_count_lem :
    (n : ℕ)
    → n < 2 ^ 24
    → (k : ℕ) × (chunk_count (pos n) ≡ pos k) × (n ≤ k * 8192) × (k * 8192 < n + 8192)
unfolding chunk_count
chunk_count_lem n h = (
  (n + 8191) / 8192,
  ap (λ f. pos ((f + 8191) / 8192)) (float_of_small n h),
  omega arith,
  omega arith,
)
