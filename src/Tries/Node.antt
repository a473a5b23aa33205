-- ===== src/Tries/Node.antt =====
-- struct Tries and its allocation.
use network_file_system_in_c.Base.{
  Bool, Option, Str, [], arith, false, fun_ext, if◌then◌else◌, ltb, none, pos, refl, some, true, ℕ,
  ℤ, ◌<◌, ◌==◌, ◌∷◌, ◌≡◌,
}
use network_file_system_in_c.Tries.Ports.{LlHead, init_list}

-- A TriesPtr: NULL, or a node with its children `alpha`, `ports`, `count` and `is_end`. The array
-- of 128 pointers is a function; a read or write of it goes through `child` and `store`, which
-- fault at an index out of range.
pub data Tries : Type 0 where
  null : Tries
  node : (ℕ → Tries) → LlHead → ℤ → Bool → Tries

abbrev pub no_children : ℕ → Tries
no_children i = null

unfoldable pub init_trie_node : Tries
unfolding init_list
init_trie_node = node no_children init_list (pos 0) false

pub record TriesHead : Type 0 where
  pub head : Tries

unfoldable pub init_tries : TriesHead
unfolding init_trie_node
init_tries = record { head = init_trie_node }

abbrev pub is_null : Tries → Bool
is_null null = true
is_null (node _ _ _ _) = false

-- tp->alpha[pos]
unfoldable pub child : (ℕ → Tries) → ℕ → Option Tries
child alpha c = if ltb c 128 then some (alpha c) else none

-- tp->alpha[pos] = t, at an index in range
unfoldable pub store : (ℕ → Tries) → ℕ → Tries → ℕ → Tries
store alpha c t i = if i == c then t else alpha i

-- What a node holds, with nothing at NULL.
abbrev pub no_ports : LlHead
no_ports = record { curr_size = pos 0; first = [] }

abbrev pub ports_of : Tries → LlHead
ports_of null = no_ports
ports_of (node _ ports _ _) = ports

abbrev pub count_of : Tries → ℤ
count_of null = pos 0
count_of (node _ _ count _) = count

abbrev pub ends : Tries → Bool
ends null = false
ends (node _ _ _ is_end) = is_end

-- The node that a path leads to; NULL where it leaves the trie. This is the view of a trie as a
-- map from paths, in which the theorems are stated.
unfoldable pub node_at : Tries → Str → Tries
node_at t [] = t
node_at null (c ∷ cs) = null
node_at (node alpha _ _ _) (c ∷ cs) = node_at (alpha c) cs

pub child_lem : (alpha : ℕ → Tries) (c : ℕ) {t : Tries} → child alpha c ≡ some t → t ≡ alpha c
unfolding child
child_lem alpha c h = ground arith

pub child_ascii : (alpha : ℕ → Tries) (c : ℕ) → c < 128 → child alpha c ≡ some (alpha c)
unfolding child
child_ascii alpha c h = ground arith

pub node_at-null : (t : Tries) (w : Str) → is_null t ≡ true → node_at t w ≡ null
unfolding node_at
node_at-null null [] h = refl
node_at-null null (c ∷ w) h = refl
node_at-null (node a p n e) w h = cc

pub store-store :
    (alpha : ℕ → Tries) (c : ℕ) (s t : Tries) → store (store alpha c s) c t ≡ store alpha c t
unfolding store
store-store alpha c s t = fun_ext λ i. ground arith

pub store_self : (alpha : ℕ → Tries) (c : ℕ) (t : Tries) → store alpha c t c ≡ t
unfolding store
store_self alpha c t = ground arith

pub store_same : (alpha : ℕ → Tries) (c : ℕ) (t : Tries) → t ≡ alpha c → store alpha c t ≡ alpha
unfolding store
store_same alpha c t h = fun_ext λ i. ground arith
