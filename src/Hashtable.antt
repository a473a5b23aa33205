-- ===== src/Hashtable.antt =====
-- hashtable.c: a table of 1024 rows, each the hash of a path and three storage servers. The file
-- makes `int` a `long long`; strings are of 7-bit characters, so no character is negative.
pub mod Laws
use network_file_system_in_c.Base.{
  Bool, List, Option, Str, [], decr, eq_int, if◌then◌else◌, incr, leb, length, minus_one, none, pos,
  some, suc, take, zero, ℕ, ℤ, ◌%◌, ◌*◌, ◌+◌, ◌>>=◌, ◌∷◌,
}

abbrev pub modulus : ℕ
modulus = 1000000007

-- A row of `table_storage`; the key -1 marks a free one.
pub record Row : Type 0 where
  pub key : ℤ
  pub ss1 : ℤ
  pub ss2 : ℤ
  pub ss3 : ℤ

pub record Hashtable : Type 0 where
  pub table_storage : List Row
  pub currently_filled : ℤ

-- The loop of Encrypt over the characters that are left, which are below 128: a char is not negative.
unfoldable pub encrypt_from : List ℕ → ℕ → ℕ
encrypt_from [] sum = sum
encrypt_from (c ∷ cs) sum = encrypt_from cs ((sum + c) % modulus * 31 % modulus)

-- The string is read up to `len`; a longer `len` reads past its end.
unfoldable pub encrypt : Str → ℕ → Option ℕ
unfolding encrypt_from
encrypt str len = if leb len (length str) then some (encrypt_from (take len str) 0) else none

abbrev pub free_row : Row
free_row = record { key = minus_one; ss1 = minus_one; ss2 = minus_one; ss3 = minus_one }

abbrev pub replicate {ℓ} : {A : Type ℓ} → ℕ → A → List A
replicate zero a = []
replicate (suc n) a = a ∷ replicate n a

-- `rows` is 1024 in the program.
unfoldable pub hash_init : ℕ → Hashtable
hash_init rows = record { table_storage = replicate rows free_row; currently_filled = pos 0 }

abbrev pub is_free : Row → Bool
is_free r = eq_int r.key minus_one

-- The loop has no `break`: every free row is filled.
unfoldable pub fill_rows : Row → List Row → List Row
fill_rows new [] = []
fill_rows new (r ∷ rs) = (if is_free r then new else r) ∷ fill_rows new rs

unfoldable pub insert_hashtable : Hashtable → Str → ℕ → ℤ → ℤ → ℤ → Option Hashtable
insert_hashtable ht str len ss1 ss2 ss3 = do
  key ← encrypt str len
  some (record {
    table_storage =
        fill_rows (record { key = pos key; ss1 = ss1; ss2 = ss2; ss3 = ss3 }) ht.table_storage;
    currently_filled = incr ht.currently_filled;
  })

-- The first row with the key.
unfoldable pub find_row : ℤ → List Row → Option Row
find_row key [] = none
find_row key (r ∷ rs) = if eq_int r.key key then some r else find_row key rs

-- The array of three that is returned: only its element 0 is written, three times; `none` is an
-- element that holds whatever malloc left there.
abbrev pub servers_of : Option Row → Option (List (Option ℤ))
servers_of none = none
servers_of (some r) = some (some r.ss3 ∷ none ∷ none ∷ [])

-- The outer Option is the fault, the inner one the NULL that is returned.
unfoldable pub return_file_location_linear : Hashtable → Str → ℕ → Option (Option (List (Option ℤ)))
return_file_location_linear ht str len = do
  key ← encrypt str len
  some (servers_of (find_row (pos key) ht.table_storage))

-- Every row with the key is freed, and counted down for.
unfoldable pub free_rows : ℤ → List Row → ℤ → List Row × ℤ
free_rows key [] filled = ([], filled)
free_rows key (r ∷ rs) filled =
    let hit = eq_int r.key key in
    let (rest, left) = free_rows key rs (if hit then decr filled else filled) in
    ((if hit then record r { key = minus_one } else r) ∷ rest, left)

unfoldable pub delete_file : Hashtable → Str → ℕ → Option Hashtable
delete_file ht str len = do
  key ← encrypt str len
  let (rows, filled) = free_rows (pos key) ht.table_storage ht.currently_filled
  some (record { table_storage = rows; currently_filled = filled })
