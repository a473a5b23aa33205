-- ===== src/Examples/Tables.antt =====
-- hashtable.c and LRU.c on small tables.
use network_file_system_in_c.Base.{
  Str, [], if◌then◌else◌, inl, none, pos, refl, some, ◌==◌, ◌∷◌, ◌≡◌,
}
use network_file_system_in_c.Hashtable.{
  Hashtable, encrypt, encrypt_from, fill_rows, free_row, insert_hashtable,
  return_file_location_linear,
}
use network_file_system_in_c.Hashtable.Laws.{return_file_location_linear-insert_hashtable}
use network_file_system_in_c.Lru.{
  LruCache, bucket_of, get, hash_from, hashfunction, init_lru_cache, put, remove_for_delete,
}
use network_file_system_in_c.Lru.Bucket.{IsReady, get-put}
use network_file_system_in_c.Lru.Deleted.{IsLastEntry, get-remove_for_delete}
use network_file_system_in_c.Lru.Heap.{ok}

abbrev path_a : Str
path_a = 97 ∷ []

abbrev path_b : Str
path_b = 98 ∷ []

abbrev empty_table : Hashtable
empty_table = record { table_storage = free_row ∷ free_row ∷ []; currently_filled = pos 0 }

abbrev full_table : Hashtable
full_table = record {
  table_storage =
      record { key = pos 3007; ss1 = pos 0; ss2 = pos 1; ss3 = pos 2 }
      ∷ record { key = pos 3007; ss1 = pos 0; ss2 = pos 1; ss3 = pos 2 }
      ∷ [];
  currently_filled = pos 1;
}

a_hash : encrypt path_a 1 ≡ some 3007
unfolding encrypt encrypt_from
a_hash = refl

a_fills : insert_hashtable empty_table path_a 1 (pos 0) (pos 1) (pos 2) ≡ some full_table
unfolding insert_hashtable encrypt encrypt_from fill_rows
a_fills = refl

return_file_location_linear_example :
    return_file_location_linear full_table path_a 1 ≡ some (some (some (pos 2) ∷ none ∷ none ∷ []))
return_file_location_linear_example =
    return_file_location_linear-insert_hashtable empty_table path_a 1 3007 (pos 0) (pos 1) (pos 2)
      a_hash refl refl a_fills

a_IsReady : IsReady (init_lru_cache 10) path_a
unfolding init_lru_cache
a_IsReady = record { empty = refl; room = refl; fresh = refl; tail = inl refl }

get-put_example :
    (c' : LruCache) × (put path_a 7 (init_lru_cache 10) ≡ ok c') × (get path_a c' ≡ ok (7, c'))
get-put_example = get-put (init_lru_cache 10) path_a 7 a_IsReady

-- "a" at address 1 and "b" at address 2, behind it.
abbrev b_cache : LruCache
b_cache = record {
  capacity = 10;
  size = pos 2;
  head = 1;
  tail = 2;
  map = λ i. if i == 9 then 1 else if i == 10 then 2 else 0;
  nodes = λ p.
      if p == 1
      then some (record { lh = 7; file_path = path_a; prev = 0; next = 2 })
      else if p == 2
      then some (record { lh = 8; file_path = path_b; prev = 1; next = 0 })
      else none;
  fresh = 3;
}

b_bucket : bucket_of path_b ≡ 10
unfolding bucket_of hashfunction hash_from
b_bucket = refl

b_IsLastEntry :
    IsLastEntry b_cache path_b 8 2 1 (record { lh = 7; file_path = path_a; prev = 0; next = 2 })
b_IsLastEntry = record {
  bucket = rw b_bucket refl;
  entry = record { ne_null = refl; at = refl };
  before = record { ne_null = refl; at = refl };
  apart = refl;
}

get-remove_for_delete_example :
    (c' c'' : LruCache) × (remove_for_delete path_b b_cache ≡ ok (8, c'))
    × (get path_b c' ≡ ok (8, c''))
get-remove_for_delete_example =
    get-remove_for_delete b_cache path_b 8 2 1
      (record { lh = 7; file_path = path_a; prev = 0; next = 2 }) b_IsLastEntry
