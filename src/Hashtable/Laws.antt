-- ===== src/Hashtable/Laws.antt =====
-- What the operations of the table do to its rows.
use network_file_system_in_c.Base.{
  >>=-eq-some, Bool, List, Str, [], ap, arith, decr, eq_int, eq_of_some, false, if◌then◌else◌, incr,
  none, pos, refl, some, subst, suc, take, true, zero, ℕ, ℤ, ◌<◌, ◌||◌, ◌∙◌, ◌∷◌, ◌≡◌,
}
use network_file_system_in_c.Hashtable.{
  Hashtable, Row, delete_file, encrypt, encrypt_from, fill_rows, find_row, free_rows,
  insert_hashtable, is_free, modulus, return_file_location_linear,
}

encrypt_from-lt : (cs : List ℕ) (sum : ℕ) → sum < modulus → encrypt_from cs sum < modulus
unfolding encrypt_from
encrypt_from-lt [] sum h = h
encrypt_from-lt (c ∷ cs) sum h = encrypt_from-lt cs _ (omega arith)

-- Every hash is below the modulus, so it is never the mark of a free row, and no product in the
-- loop reaches 2 ^ 63.
pub encrypt-lt : (str : Str) (len : ℕ) {key : ℕ} → encrypt str len ≡ some key → key < modulus
unfolding encrypt
encrypt-lt str len h = ground (arith, encrypt_from-lt (take len str) 0 (omega arith))

-- The key of a row that is in use.
abbrev pub has_key : ℤ → List Row → Bool
has_key key [] = false
has_key key (r ∷ rs) = eq_int r.key key || has_key key rs

abbrev pub has_free : List Row → Bool
has_free [] = false
has_free (r ∷ rs) = is_free r || has_free rs

abbrev pub count_key : ℤ → List Row → ℕ
count_key key [] = 0
count_key key (r ∷ rs) = if eq_int r.key key then suc (count_key key rs) else count_key key rs

fill_rows-full :
    (new : Row) (rs : List Row) → is_free new ≡ false → has_free (fill_rows new rs) ≡ false
unfolding fill_rows
fill_rows-full new [] h = refl
fill_rows-full new (r ∷ rs) h = ground (arith, fill_rows-full new rs h)

fill_rows-used : (new : Row) (rs : List Row) → has_free rs ≡ false → fill_rows new rs ≡ rs
unfolding fill_rows
fill_rows-used new [] h = refl
fill_rows-used new (r ∷ rs) h = ground (arith, fill_rows-used new rs)

find_row-fill_rows :
    (new : Row) (key : ℕ) (rs : List Row)
    → new.key ≡ pos key
    → has_key (pos key) rs ≡ false
    → has_free rs ≡ true
    → find_row (pos key) (fill_rows new rs) ≡ some new
unfolding fill_rows find_row
find_row-fill_rows new key [] e absent free = cc
find_row-fill_rows new key (r ∷ rs) e absent free = ground (arith, find_row-fill_rows new key rs e)

-- Insert_Hashtable of a path leaves no row free: it writes the path into every free row. A
-- later insertion then changes no row at all, whatever the path, and only counts up.
pub insert_hashtable-full :
    (ht : Hashtable) (str str' : Str) (len len' key' : ℕ) (s1 s2 s3 t1 t2 t3 : ℤ) {ht' : Hashtable}
    → insert_hashtable ht str len s1 s2 s3 ≡ some ht'
    → encrypt str' len' ≡ some key'
    → (has_free ht'.table_storage ≡ false)
      × (insert_hashtable ht' str' len' t1 t2 t3
          ≡ some (record ht' { currently_filled = incr ht'.currently_filled }))
unfolding insert_hashtable
insert_hashtable-full ht str str' len len' key' s1 s2 s3 t1 t2 t3 {ht'} h e =
    let (key, _, at) = >>=-eq-some (encrypt str len) _ h in
    let full : has_free ht'.table_storage ≡ false =
      subst (λ x. has_free x.table_storage ≡ false) (eq_of_some at)
        (fill_rows-full (record { key = pos key; ss1 = s1; ss2 = s2; ss3 = s3 }) ht.table_storage
          refl) in
    (
      full,
      rw e (
          ap
            (λ rows.
              some (record { table_storage = rows; currently_filled = incr ht'.currently_filled }))
            (fill_rows-used _ ht'.table_storage full)),
    )

-- A path whose hash is new is found after its insertion into a table with a free row, with its
-- third server in front and nothing written behind it.
pub return_file_location_linear-insert_hashtable :
    (ht : Hashtable) (str : Str) (len key : ℕ) (s1 s2 s3 : ℤ) {ht' : Hashtable}
    → encrypt str len ≡ some key
    → has_key (pos key) ht.table_storage ≡ false
    → has_free ht.table_storage ≡ true
    → insert_hashtable ht str len s1 s2 s3 ≡ some ht'
    → return_file_location_linear ht' str len ≡ some (some (some s3 ∷ none ∷ none ∷ []))
unfolding insert_hashtable return_file_location_linear
return_file_location_linear-insert_hashtable ht str len key s1 s2 s3 e absent free h = ground (
  arith,
  find_row-fill_rows (record { key = pos key; ss1 = s1; ss2 = s2; ss3 = s3 }) key ht.table_storage
      refl absent free,
)

find_row-none : (key : ℤ) (rs : List Row) → has_key key rs ≡ false → find_row key rs ≡ none
unfolding find_row
find_row-none key [] h = refl
find_row-none key (r ∷ rs) h = ground (arith, find_row-none key rs)

free_rows-absent :
    (key : ℕ) (rs : List Row) (filled : ℤ)
    → has_key (pos key) (free_rows (pos key) rs filled).0 ≡ false
unfolding free_rows
free_rows-absent key [] filled = refl
free_rows-absent key (r ∷ rs) filled =
    ground (arith, free_rows-absent key rs (if eq_int r.key (pos key) then decr filled else filled))

-- n--, k times
abbrev pub decr_by : ℕ → ℤ → ℤ
decr_by zero n = n
decr_by (suc k) n = decr_by k (decr n)

free_rows-count :
    (key : ℤ) (rs : List Row) (filled : ℤ)
    → (free_rows key rs filled).1 ≡ decr_by (count_key key rs) filled
unfolding free_rows
free_rows-count key [] filled = refl
free_rows-count key (r ∷ rs) filled =
    free_rows-count key rs (if eq_int r.key key then decr filled else filled) ∙ ground arith

-- Delete_file frees every row with the hash of the path, so that a search for the path returns
-- NULL, and counts down once for each of them.
pub delete_file_lem :
    (ht : Hashtable) (str : Str) (len key : ℕ) {ht' : Hashtable}
    → encrypt str len ≡ some key
    → delete_file ht str len ≡ some ht'
    → (return_file_location_linear ht' str len ≡ some none)
      × (ht'.currently_filled ≡ decr_by (count_key (pos key) ht.table_storage) ht.currently_filled)
unfolding delete_file return_file_location_linear
delete_file_lem ht str len key e h =
    let rows = ht.table_storage in
    let filled = ht.currently_filled in
    ground (
      arith,
      find_row-none (pos key) (free_rows (pos key) rows filled).0
          (free_rows-absent key rows filled),
      free_rows-count (pos key) rows filled,
    )
