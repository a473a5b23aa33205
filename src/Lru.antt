-- ===== src/Lru.antt =====
-- LRU.c and LRU.h: the cache of the naming server, on an explicit heap of its nodes. An address is
-- a number and 0 is NULL. The buckets of `map` and the list from `head` to `tail` go through the
-- same `next` and `prev`, as in the source.
pub mod Heap
pub mod Bucket
pub mod Deleted
pub mod Evicted
use network_file_system_in_c.Base.{
  Bool, Option, Str, [], decr, if◌then◌else◌, incr, is_neg, ltb, none, pos, pos_part, some, str_eq,
  suc, true, zero, ℕ, ℤ, ◌%◌, ◌*◌, ◌+◌, ◌-◌, ◌==◌, ◌^◌, ◌∷◌,
}
use network_file_system_in_c.Lru.Heap.{Ptr, Run, fault, null, ok, out_of_fuel, ◌>>=◌}

abbrev pub buckets : ℕ
buckets = 31

pub record Node : Type 0 where
  pub lh : Ptr
  pub file_path : Str
  pub prev : Ptr
  pub next : Ptr

-- `nodes` is the heap, `fresh` the address that the next malloc returns, and `lh` of a node the
-- address of a list of ports.
pub record LruCache : Type 0 where
  pub capacity : ℕ
  pub size : ℤ
  pub head : Ptr
  pub tail : Ptr
  pub map : ℕ → Ptr
  pub nodes : Ptr → Option Node
  pub fresh : Ptr

unfoldable pub init_lru_cache : ℕ → LruCache
init_lru_cache capacity = record {
  capacity = capacity;
  size = pos 0;
  head = null;
  tail = null;
  map = λ i. null;
  nodes = λ p. none;
  fresh = 1;
}

-- A `char` as it is added to an unsigned long of 64 bits: a byte from 128 on is negative.
unfoldable pub sign_extend : ℕ → ℕ
sign_extend c = if ltb c 128 then c else c + (2 ^ 64 - 256)

-- djb2: `hash` is an unsigned long of 64 bits.
unfoldable pub hash_from : ℕ → Str → ℕ
unfolding sign_extend
hash_from hash [] = hash
hash_from hash (c ∷ cs) = hash_from ((hash * 32 + hash + sign_extend c) % 2 ^ 64) cs

unfoldable pub hashfunction : Str → ℕ
unfolding hash_from
hashfunction filepath = hash_from 5381 filepath

unfoldable pub bucket_of : Str → ℕ
unfolding hashfunction
bucket_of filepath = hashfunction filepath % buckets

abbrev pub update {ℓ} : {A : Type ℓ} → (ℕ → A) → ℕ → A → ℕ → A
update f i a j = if i == j then a else f j

-- *p: a fault at NULL and at an address that is not allocated.
unfoldable pub load : Ptr → LruCache → Run Node
load p cache = if p == null then fault else elim (cache.nodes p) [ none ↦ fault | some n ↦ ok n ]

abbrev pub put_node : Ptr → Node → LruCache → LruCache
put_node p n cache = record cache { nodes = update cache.nodes p (some n) }

-- p->next = q and p->prev = q
unfoldable pub set_next : Ptr → Ptr → LruCache → Run LruCache
set_next p q cache = do n ← load p cache; ok (put_node p (record n { next = q }) cache)

unfoldable pub set_prev : Ptr → Ptr → LruCache → Run LruCache
set_prev p q cache = do n ← load p cache; ok (put_node p (record n { prev = q }) cache)

unfoldable pub set_lh : Ptr → Ptr → LruCache → Run LruCache
set_lh p lh cache = do n ← load p cache; ok (put_node p (record n { lh = lh }) cache)

abbrev pub unless_null : Ptr → Run LruCache → LruCache → Run LruCache
unless_null p act cache = if p == null then ok cache else act

-- The new node's address, and the cache that holds it.
unfoldable pub create_cache_node : Str → Ptr → LruCache → Ptr × LruCache
create_cache_node file_path lh cache = (
  cache.fresh,
  record cache {
    nodes =
        update cache.nodes cache.fresh
          (some (record { lh = lh; file_path = file_path; prev = null; next = null }));
    fresh = suc cache.fresh;
  },
)

unfoldable pub add_to_cache : Ptr → LruCache → Run LruCache
add_to_cache p cache = do
  c1 ← unless_null cache.tail (set_next cache.tail p cache) cache
  c2 ← set_prev p c1.tail c1
  c3 ← set_next p null c2
  ok (record c3 { tail = p; head = if c3.head == null then p else c3.head })

unfoldable pub evict_lru_node : LruCache → Run LruCache
evict_lru_node cache = do
  temp ← load cache.head cache
  let c1 : LruCache = record cache { head = temp.next }
  c2 ← unless_null temp.next (set_prev temp.next null c1) c1
  let c3 : LruCache = record c2 { map = update c2.map (bucket_of temp.file_path) null }
  ok (record c3 { nodes = update c3.nodes cache.head none })

unfoldable pub remove_from_cache : Ptr → LruCache → Run LruCache
remove_from_cache p cache = do
  node ← load p cache
  c1 ←
      if node.prev == null
      then ok (record cache { head = node.next })
      else set_next node.prev node.next cache
  node' ← load p c1
  if node'.next == null
      then ok (record c1 { tail = node'.prev })
      else set_prev node'.next node'.prev c1

unfoldable pub remove_from_hash_map : Ptr → ℕ → LruCache → Run LruCache
remove_from_hash_map p hash cache = do
  node ← load p cache
  c1 ←
      if node.prev == null
      then ok (record cache { map = update cache.map hash node.next })
      else set_next node.prev node.next cache
  node' ← load p c1
  if node'.next == null then ok c1 else set_prev node'.next node'.prev c1

-- The node moves to the tail, unless it is there.
unfoldable pub to_tail : Ptr → LruCache → Run LruCache
to_tail p cache =
    if p == cache.tail then ok cache else do c1 ← remove_from_cache p cache; add_to_cache p c1

-- What a walk along `next` ends with: the node with the path, or the last node before NULL.
pub data Walk : Type 0 where
  hit : Ptr → Walk
  miss : Ptr → Walk

-- `while (node != NULL)`, on fuel; `prev` is the node before `node`.
unfoldable pub walk : ℕ → Str → Ptr → Ptr → LruCache → Run Walk
walk zero file_path prev p cache = out_of_fuel
walk (suc k) file_path prev p cache =
    let rest =
      (load p cache >>= λ node.
      if str_eq node.file_path file_path then ok (hit p) else walk k file_path p node.next cache) in
    if p == null then ok (miss prev) else rest

-- A walk that comes by no node twice takes fewer rounds than there are addresses.
abbrev pub rounds : LruCache → ℕ
rounds cache = suc cache.fresh

-- The list at a hit, or NULL.
unfoldable pub get : Str → LruCache → Run (Ptr × LruCache)
get file_path cache =
    walk (rounds cache) file_path null (cache.map (bucket_of file_path)) cache >>= elim [
      | miss _ ↦ ok (null, cache)
      | hit p ↦ do c1 ← to_tail p cache; node ← load p c1; ok (node.lh, c1)
    ]

-- cache->size < cache->capacity
abbrev pub has_room : LruCache → Bool
has_room cache = if is_neg cache.size then true else ltb (pos_part cache.size) cache.capacity

-- The end of `put` for a new node: an eviction if the cache is full, and the node behind the tail.
unfoldable pub put_new : Ptr → LruCache → Run LruCache
put_new p cache = do
  c1 ←
      if (if is_neg cache.size then true else ltb (pos_part cache.size) cache.capacity)
      then ok cache
      else (evict_lru_node cache >>= λ c. ok (record c { size = decr c.size }))
  c2 ← add_to_cache p c1
  ok (record c2 { size = incr c2.size })

unfoldable pub put : Str → Ptr → LruCache → Run LruCache
put file_path lh cache =
    let hash = bucket_of file_path in
    let node = cache.map hash in
    let (new, c1) = create_cache_node file_path lh cache in
    if node == null
    then put_new new (record c1 { map = update c1.map hash new })
    else (walk (rounds cache) file_path node node c1 >>= elim [
      | hit p ↦ set_lh p lh c1 >>= to_tail p
      | miss prev ↦ set_next prev new c1 >>= put_new new
    ])

unfoldable pub remove_for_delete : Str → LruCache → Run (Ptr × LruCache)
remove_for_delete file_path cache =
    let hash = bucket_of file_path in
    walk (rounds cache) file_path null (cache.map hash) cache >>= elim [
      | miss _ ↦ ok (null, cache)
      | hit p ↦ do
        c1 ← remove_from_cache p cache
        c2 ← remove_from_hash_map p hash c1
        node ← load p c2
        ok (node.lh, record c2 { size = decr c2.size })
    ]
