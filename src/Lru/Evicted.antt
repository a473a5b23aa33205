-- ===== src/Lru/Evicted.antt =====
-- An eviction from the cache (LRU.c, evictLRUNode).
use network_file_system_in_c.Base.{==_iff, Str, ap, if_true, refl, sym, true, ◌==◌, ◌∙◌, ◌≡◌}
use network_file_system_in_c.Lru.{
  LruCache, Node, bucket_of, evict_lru_node, get, load, set_prev, unless_null, walk,
}
use network_file_system_in_c.Lru.Bucket.{Holds, load_lem}
use network_file_system_in_c.Lru.Heap.{Run, fault, null, ok, out_of_fuel, ◌>>=◌}

-- A run that returned has a value to go on from.
pub returned_inv {ℓ κ} :
    {A : Type ℓ} {B : Type κ} {b : B} (first : Run A) (rest : A → Run B)
    → ok b ≡ (first >>= rest)
    → (a : A) × (rest a ≡ ok b) × (ok a ≡ first)
returned_inv fault rest e = cc
returned_inv out_of_fuel rest e = cc
returned_inv (ok a) rest e = (a, sym e, refl)

pub eq_of_ok {ℓ} : {A : Type ℓ} {a b : A} → ok a ≡ ok b → a ≡ b
eq_of_ok h = cc

-- A path whose bucket is empty is a miss, and the cache stays as it is.
pub get-empty :
    (cache : LruCache) (file_path : Str)
    → cache.map (bucket_of file_path) ≡ null
    → get file_path cache ≡ ok (null, cache)
unfolding get walk
get-empty cache file_path h = rw h refl

-- evictLRUNode takes the whole bucket of the oldest node away: after an eviction that does not fault
-- every path with the hash of the evicted one is a miss, also one whose node is still in the list.
pub get-evict_lru_node :
    (cache : LruCache) (n : Node) (file_path : Str) {c' : LruCache}
    → Holds cache cache.head n
    → bucket_of file_path ≡ bucket_of n.file_path
    → evict_lru_node cache ≡ ok c'
    → get file_path c' ≡ ok (null, c')
unfolding evict_lru_node
get-evict_lru_node cache n file_path {c'} oldest same h =
    let (temp, h1, loaded) = returned_inv (load cache.head cache) _ (sym h) in
    let is_oldest : n ≡ temp = eq_of_ok (sym (load_lem cache cache.head oldest) ∙ sym loaded) in
    let c1 : LruCache = record cache { head = temp.next } in
    let (c2, h2, _) =
      returned_inv (unless_null temp.next (set_prev temp.next null c1) c1) _ (sym h1) in
    let gone : (bucket_of temp.file_path == bucket_of file_path) ≡ true =
      (==_iff (bucket_of temp.file_path) (bucket_of file_path)).1
        (sym (same ∙ ap (λ m. bucket_of m.file_path) is_oldest)) in
    get-empty c' file_path
      (ap (λ c. c.map (bucket_of file_path)) (sym (eq_of_ok h2)) ∙ if_true _ _ gone)
