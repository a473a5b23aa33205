-- ===== src/Tries/Entry.antt =====
-- nextentry and rec: some path of the trie that begins with `val`.
pub mod Below
use network_file_system_in_c.Base.{
  Option, Str, [], if◌then◌else◌, some, suc, zero, ℕ, ◌++◌, ◌>>=◌, ◌∷◌,
}
use network_file_system_in_c.Tries.Node.{Tries, TriesHead, ends, is_null, node, null}
use network_file_system_in_c.Tries.Search.{descend}

-- The first child at an index from `i` on, out of the `k` that are left: the path grows by its
-- byte, and ends there if the child ends a path; otherwise `deeper` goes on below it.
unfoldable pub first_child : (ℕ → Tries) → (ℕ → Str → Str) → ℕ → ℕ → Str → Str
first_child alpha deeper zero i val = val
first_child alpha deeper (suc k) i val =
    let later = first_child alpha deeper k (suc i) val in
    if is_null (alpha i)
    then later
    else if ends (alpha i)
    then val ++ i ∷ []
    else deeper i (val ++ i ∷ [])

unfoldable pub rec : Tries → Str → Str
rec null val = val
rec (node alpha _ _ _) val = first_child alpha (λ i. rec (alpha i)) 128 0 val

-- "" where the walk along `val` meets a NULL child.
unfoldable pub entry_below : Tries → Str → Str
entry_below null val = []
entry_below (node a p n e) val = rec (node a p n e) val

unfoldable pub nextentry : TriesHead → Str → Option Str
nextentry thp val = do tp ← descend thp.head val; some (entry_below tp val)
