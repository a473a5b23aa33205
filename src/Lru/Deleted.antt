-- ===== src/Lru/Deleted.antt =====
-- A removal from the cache (LRU.c, removeForDelete). RemoveFromHashMap tells the head of a bucket by
-- `prev`, and `prev` is the predecessor in the list of all nodes.
use network_file_system_in_c.Base.{Str, arith, decr, false, inr, refl, str_eq_refl, ℕ, ◌==◌, ◌≡◌}
use network_file_system_in_c.Lru.{
  LruCache, Node, bucket_of, get, put_node, remove_for_delete, remove_from_cache,
  remove_from_hash_map, to_tail,
}
use network_file_system_in_c.Lru.Bucket.{
  Holds, Holds-put_node, Holds-put_node_ne, add_to_cache_lem, load_lem, set_next_lem, walk-hit,
}
use network_file_system_in_c.Lru.Heap.{Ptr, null, ok}

-- The entry at the tail: its node `p` heads its bucket and comes behind a node `q`.
pub record IsLastEntry (cache : LruCache) (file_path : Str) (lh p q : Ptr) (m : Node) : Type 0 where
  pub bucket : cache.map (bucket_of file_path) ≡ p
  pub entry : Holds cache p (record { lh = lh; file_path = file_path; prev = q; next = null })
  pub before : Holds cache q m
  pub apart : (q == p) ≡ false

module _ (cache : LruCache) (file_path : Str) (lh p q : Ptr) (m : Node) where
  abbrev cut : LruCache
  cut = put_node q (record m { next = null }) cache

  -- The walk over what is left keeps the node and its predecessor.
  IsLastEntry-cut :
      IsLastEntry cache file_path lh p q m
      → IsLastEntry cut file_path lh p q (record m { next = null })
  IsLastEntry-cut h = record {
    bucket = h.bucket;
    entry = Holds-put_node_ne cache q p (record m { next = null }) _ h.apart h.entry;
    before = Holds-put_node cache q (record m { next = null }) h.before.ne_null;
    apart = h.apart;
  }

  remove_from_cache_last :
      IsLastEntry cache file_path lh p q m
      → remove_from_cache p cache ≡ ok (record cut { tail = q })
  unfolding remove_from_cache
  remove_from_cache_last h =
      rw (load_lem cache p h.entry, h.before.ne_null, set_next_lem cache q null h.before)
        (rw (load_lem cut p (IsLastEntry-cut h).entry))

  remove_from_hash_map_last :
      (hash : ℕ) → IsLastEntry cache file_path lh p q m → remove_from_hash_map p hash cache ≡ ok cut
  unfolding remove_from_hash_map
  remove_from_hash_map_last hash h =
      rw (load_lem cache p h.entry, h.before.ne_null, set_next_lem cache q null h.before)
        (rw (load_lem cut p (IsLastEntry-cut h).entry))

-- The fields that matter, with the tail or the size changed.
IsLastEntry-same :
    (c c' : LruCache) (file_path : Str) (lh p q : Ptr) (m : Node)
    → c'.map ≡ c.map
    → c'.nodes ≡ c.nodes
    → IsLastEntry c file_path lh p q m
    → IsLastEntry c' file_path lh p q m
IsLastEntry-same c c' file_path lh p q m em en h = record {
  bucket = rw em h.bucket;
  entry = record { ne_null = h.entry.ne_null; at = rw en h.entry.at };
  before = record { ne_null = h.before.ne_null; at = rw en h.before.at };
  apart = h.apart;
}

-- A removed entry that its bucket still leads to is hit, and goes back behind the tail.
get_removed :
    (cache : LruCache) (file_path : Str) (lh p q : Ptr) (m : Node)
    → IsLastEntry cache file_path lh p q m
    → cache.tail ≡ q
    → (c' : LruCache) × (get file_path cache ≡ ok (lh, c'))
unfolding get to_tail
get_removed cache file_path lh p q m h tail =
    let n : Node = record { lh = lh; file_path = file_path; prev = q; next = null } in
    let c1 : LruCache = record (put_node q (record m { next = null }) cache) { tail = q } in
    let h1 : IsLastEntry c1 file_path lh p q (record m { next = null }) =
      IsLastEntry-same (put_node q (record m { next = null }) cache) c1 file_path lh p q _ refl refl
        (IsLastEntry-cut cache file_path lh p q m h) in
    let (c2, e, added) =
      add_to_cache_lem c1 p n h1.entry (inr (record m { next = null }, h1.before, h1.apart)) in
    let away : (p == cache.tail) ≡ false = ground (arith, h.apart) in
    let n' : Node = record n { prev = q } in
    (
      c2,
      rw
          (
            h.bucket,
            walk-hit cache cache.fresh file_path null p h.entry (str_eq_refl file_path),
            away,
          )
          (rw (remove_from_cache_last cache file_path lh p q m h) (
            rw e
              (rw (load_lem c2 p {n = n'} (record { ne_null = h.entry.ne_null; at = added.at }))))),
    )

-- A path whose entry stands at the tail behind another one, at the head of its bucket: deleting it
-- from the cache returns its list, and the next `get` of the path still is a hit, with
-- the list of the deleted entry.
pub get-remove_for_delete :
    (cache : LruCache) (file_path : Str) (lh p q : Ptr) (m : Node)
    → IsLastEntry cache file_path lh p q m
    → (c' c'' : LruCache) × (remove_for_delete file_path cache ≡ ok (lh, c'))
      × (get file_path c' ≡ ok (lh, c''))
unfolding remove_for_delete
get-remove_for_delete cache file_path lh p q m h =
    let m1 : Node = record m { next = null } in
    let c1 : LruCache = record (put_node q m1 cache) { tail = q } in
    let h1 : IsLastEntry c1 file_path lh p q m1 =
      IsLastEntry-same (put_node q m1 cache) c1 file_path lh p q m1 refl refl
        (IsLastEntry-cut cache file_path lh p q m h) in
    let c2 : LruCache = put_node q m1 c1 in
    let h2 : IsLastEntry c2 file_path lh p q m1 = IsLastEntry-cut c1 file_path lh p q m1 h1 in
    let c3 : LruCache = record c2 { size = decr c2.size } in
    let (c4, e) =
      get_removed c3 file_path lh p q m1 (IsLastEntry-same c2 c3 file_path lh p q m1 refl refl h2)
        refl in
    (
      c3,
      c4,
      rw (h.bucket, walk-hit cache cache.fresh file_path null p h.entry (str_eq_refl file_path))
          (rw (remove_from_cache_last cache file_path lh p q m h) (
            rw (remove_from_hash_map_last c1 file_path lh p q m1 _ h1)
              (rw (load_lem c2 p h2.entry)))),
      e,
    )
