-- ===== src/Lru/Bucket.antt =====
-- Entries of the cache (LRU.c), and a bucket with one node.
use network_file_system_in_c.Base.{
  ==_refl, Str, ap, arith, false, if◌then◌else◌, incr, inl, inr, refl, some, str_eq, str_eq_refl,
  suc, true, ℕ, ◌==◌, ◌∙◌, ◌≡◌, ◌⊎◌,
}
use network_file_system_in_c.Lru.{
  LruCache, Node, add_to_cache, bucket_of, create_cache_node, get, has_room, hit, load, put,
  put_new, put_node, set_next, set_prev, to_tail, update, walk,
}
use network_file_system_in_c.Lru.Heap.{Ptr, null, ok, ◌>>=◌}

-- A node is allocated at the address.
pub record Holds (cache : LruCache) (p : Ptr) (n : Node) : Type 0 where
  pub ne_null : (p == null) ≡ false
  pub at : cache.nodes p ≡ some n

pub load_lem : (cache : LruCache) (p : Ptr) {n : Node} → Holds cache p n → load p cache ≡ ok n
unfolding load
load_lem cache p h = rw (h.ne_null, h.at)

pub set_next_lem :
    (cache : LruCache) (p q : Ptr) {n : Node}
    → Holds cache p n
    → set_next p q cache ≡ ok (put_node p (record n { next = q }) cache)
unfolding set_next
set_next_lem cache p q h = rw (load_lem cache p h)

pub set_prev_lem :
    (cache : LruCache) (p q : Ptr) {n : Node}
    → Holds cache p n
    → set_prev p q cache ≡ ok (put_node p (record n { prev = q }) cache)
unfolding set_prev
set_prev_lem cache p q h = rw (load_lem cache p h)

pub Holds-put_node :
    (cache : LruCache) (p : Ptr) (n : Node) → (p == null) ≡ false → Holds (put_node p n cache) p n
Holds-put_node cache p n h = record { ne_null = h; at = rw (==_refl p) }

pub Holds-put_node_ne :
    (cache : LruCache) (p q : Ptr) (m n : Node)
    → (p == q) ≡ false
    → Holds cache q n
    → Holds (put_node p m cache) q n
Holds-put_node_ne cache p q m n apart h = record { ne_null = h.ne_null; at = rw (apart, h.at) }

-- The tail is NULL or an allocated node other than `p`.
abbrev pub TailFor : LruCache → Ptr → Type 0
TailFor cache p =
    ((cache.tail == null) ≡ true)
    ⊎ ((m : Node) × Holds cache cache.tail m × ((cache.tail == p) ≡ false))

-- What addToCache does to the node that it puts behind the tail, and what it leaves alone.
pub record Added (cache c' : LruCache) (p : Ptr) (n : Node) : Type 0 where
  pub tail : c'.tail ≡ p
  pub at : c'.nodes p ≡ some (record n { prev = cache.tail; next = null })
  pub map : c'.map ≡ cache.map
  pub fresh : c'.fresh ≡ cache.fresh

-- The end of addToCache, once the old tail leads to the node.
add_linked :
    (cache : LruCache) (p : Ptr) (n : Node)
    → Holds cache p n
    → (c' : LruCache) × ((do
      c2 ← set_prev p cache.tail cache
      c3 ← set_next p null c2
      ok (record c3 { tail = p; head = if c3.head == null then p else c3.head }))
        ≡ ok c')
      × Added cache c' p n
add_linked cache p n h =
    let n2 : Node = record n { prev = cache.tail } in
    let c2 : LruCache = put_node p n2 cache in
    let h2 : Holds c2 p n2 = Holds-put_node cache p n2 h.ne_null in
    let n3 : Node = record n { prev = cache.tail; next = null } in
    let c3 : LruCache = put_node p n3 c2 in
    (
      record c3 { tail = p; head = if c3.head == null then p else c3.head },
      rw (set_prev_lem cache p cache.tail h) (rw (set_next_lem c2 p null h2)),
      record { tail = refl; at = rw (==_refl p); map = refl; fresh = refl },
    )

pub add_to_cache_lem :
    (cache : LruCache) (p : Ptr) (n : Node)
    → Holds cache p n
    → TailFor cache p
    → (c' : LruCache) × (add_to_cache p cache ≡ ok c') × Added cache c' p n
unfolding add_to_cache
add_to_cache_lem cache p n h (inl empty) = rw empty (add_linked cache p n h)
add_to_cache_lem cache p n h (inr (m, t, apart)) =
    let m1 : Node = record m { next = p } in
    let c1 : LruCache = put_node cache.tail m1 cache in
    let (c', e, added) = add_linked c1 p n (Holds-put_node_ne cache cache.tail p m1 n apart h) in
    (
      c',
      rw (t.ne_null, set_next_lem cache cache.tail p t) e,
      record { tail = added.tail; at = added.at; map = added.map; fresh = added.fresh },
    )

-- The walk stops at once at a node with the path.
pub walk-hit :
    (cache : LruCache) (k : ℕ) (file_path : Str) (prev p : Ptr) {n : Node}
    → Holds cache p n
    → str_eq n.file_path file_path ≡ true
    → walk (suc k) file_path prev p cache ≡ ok (hit p)
unfolding walk
walk-hit cache k file_path prev p h same = rw (h.ne_null, load_lem cache p h, same)

-- A node at the head of its bucket and at the tail is found where it is.
get_at_tail :
    (cache : LruCache) (file_path : Str) (p : Ptr) {n : Node}
    → Holds cache p n
    → str_eq n.file_path file_path ≡ true
    → cache.map (bucket_of file_path) ≡ p
    → (p == cache.tail) ≡ true
    → get file_path cache ≡ ok (n.lh, cache)
unfolding get to_tail
get_at_tail cache file_path p h same head tail =
    rw (head, walk-hit cache cache.fresh file_path null p h same, tail, load_lem cache p h)

-- The cache has room, an empty bucket for the path and an address for its node.
pub record IsReady (cache : LruCache) (file_path : Str) : Type 0 where
  pub empty : cache.map (bucket_of file_path) ≡ null
  pub room : has_room cache ≡ true
  pub fresh : (cache.fresh == null) ≡ false
  pub tail : TailFor cache cache.fresh

TailFor-create :
    (cache : LruCache) (file_path : Str) (lh : Ptr)
    → TailFor cache cache.fresh
    → TailFor
        (record (create_cache_node file_path lh cache).1 {
          map = update cache.map (bucket_of file_path) cache.fresh;
        })
        cache.fresh
unfolding create_cache_node
TailFor-create cache file_path lh (inl empty) = inl empty
TailFor-create cache file_path lh (inr (m, t, apart)) =
    inr (m, record { ne_null = t.ne_null; at = ground (arith, t.at) }, apart)

-- `put` of a path whose bucket is empty, into a cache that is not full, does not fault, and a `get`
-- of the path right after it is a hit that returns the list that was put.
pub get-put :
    (cache : LruCache) (file_path : Str) (lh : Ptr)
    → IsReady cache file_path
    → (c' : LruCache) × (put file_path lh cache ≡ ok c') × (get file_path c' ≡ ok (lh, c'))
unfolding put put_new create_cache_node
get-put cache file_path lh ready =
    let new = cache.fresh in
    let n : Node = record { lh = lh; file_path = file_path; prev = null; next = null } in
    let c1 : LruCache = record (create_cache_node file_path lh cache).1 {
      map = update cache.map (bucket_of file_path) new;
    } in
    let (c2, e, added) =
      add_to_cache_lem c1 new n (record { ne_null = ready.fresh; at = rw (==_refl new) })
        (TailFor-create cache file_path lh ready.tail) in
    let c3 : LruCache = record c2 { size = incr c2.size } in
    let n' : Node = record n { prev = cache.tail } in
    (
      c3,
      rw ready.empty (rw ready.room (rw e)),
      get_at_tail c3 file_path new {n = n'} (record { ne_null = ready.fresh; at = added.at })
          (str_eq_refl file_path)
          (ap (λ m. m (bucket_of file_path)) added.map ∙ rw (==_refl (bucket_of file_path)))
          (rw added.tail (==_refl new)),
    )
