-- ===== src/Base/Int.antt =====
-- The C `int`, as an integer that does not wrap. `negsuc n` is -(n + 1).
use Prim.Native.Nat.{ℕ, zero, suc}
use mathlib.Core.Path.{◌≡◌, refl, sym}
use network_file_system_in_c.Base.Tests.{◌==◌}
use mathlib.Core.Bool.{Bool, true, false}
use native.Mathlib.Omega.{arith}

pub data ℤ : Type 0 where
  pos : ℕ → ℤ
  negsuc : ℕ → ℤ

abbrev pub minus_one : ℤ
minus_one = negsuc 0

-- n++ and n--
abbrev pub incr : ℤ → ℤ
incr (pos n) = pos (suc n)
incr (negsuc zero) = pos 0
incr (negsuc (suc n)) = negsuc n

abbrev pub decr : ℤ → ℤ
decr (pos zero) = negsuc 0
decr (pos (suc n)) = pos n
decr (negsuc n) = negsuc (suc n)

abbrev pub eq_int : ℤ → ℤ → Bool
eq_int (pos m) (pos n) = m == n
eq_int (pos m) (negsuc n) = false
eq_int (negsuc m) (pos n) = false
eq_int (negsuc m) (negsuc n) = m == n

abbrev pub pos_part : ℤ → ℕ
pos_part (pos n) = n
pos_part (negsuc n) = 0

-- n < 0
abbrev pub is_neg : ℤ → Bool
is_neg (pos n) = false
is_neg (negsuc n) = true

-- 0 < n
abbrev pub is_pos : ℤ → Bool
is_pos (pos zero) = false
is_pos (pos (suc n)) = true
is_pos (negsuc n) = false

pub eq_int_refl : (a : ℤ) → eq_int a a ≡ true
eq_int_refl (pos n) = ground arith
eq_int_refl (negsuc n) = ground arith

pub eq_of_eq_int : (a b : ℤ) → eq_int a b ≡ true → a ≡ b
eq_of_eq_int a b h = ground arith

pub decr-incr : (a : ℤ) → decr (incr a) ≡ a
decr-incr (pos n) = refl
decr-incr (negsuc zero) = refl
decr-incr (negsuc (suc n)) = refl

pub is_pos-is_neg : (a : ℤ) → is_pos a ≡ true → is_neg a ≡ false
is_pos-is_neg (pos n) h = refl
is_pos-is_neg (negsuc n) h = sym h

pub is_pos-eq_int : (a : ℤ) → is_pos a ≡ true → eq_int a (pos 0) ≡ false
is_pos-eq_int (pos zero) h = sym h
is_pos-eq_int (pos (suc n)) h = ground arith
is_pos-eq_int (negsuc n) h = refl

pub not_pos-eq_int : (a : ℤ) → is_pos a ≡ false → is_neg a ≡ false → eq_int a (pos 0) ≡ true
not_pos-eq_int (pos zero) h k = refl
not_pos-eq_int (pos (suc n)) h k = cc
not_pos-eq_int (negsuc n) h k = cc
