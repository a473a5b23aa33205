-- ===== src/Tries/Search.antt =====
-- searchWords and searchSubstring.
pub mod Lookup
use network_file_system_in_c.Base.{
  Bool, List, Option, Str, [], eq_int, if◌then◌else◌, minus_one, none, not, pos, some, ℤ, ◌>>=◌,
  ◌∷◌,
}
use network_file_system_in_c.Tries.Node.{Tries, TriesHead, child, is_null, node, null}
use network_file_system_in_c.Tries.Ports.{LlHead, insertfront}

-- The walk along `val`: NULL where the loop meets a NULL child and returns. `thp->head` is never
-- NULL, so the walk starts at a node.
unfoldable pub descend : Tries → Str → Option Tries
descend null val = none
descend (node a p n e) [] = some (node a p n e)
descend (node alpha p n e) (c ∷ val) = do
  next ← child alpha c
  if is_null next then some null else descend next val

-- The loop that puts a new node in front of `lh` for each port.
unfoldable pub copy_ports : List ℤ → LlHead → LlHead
copy_ports [] lh = lh
copy_ports (v ∷ vs) lh = copy_ports vs (insertfront lh v)

-- `currSize` 0 becomes -1: the path is in the trie but has no ports.
unfoldable pub mark_empty : LlHead → LlHead
mark_empty lh = if eq_int lh.curr_size (pos 0) then record lh { curr_size = minus_one } else lh

unfoldable pub found_words : Tries → LlHead → LlHead
found_words null lh = lh
found_words (node _ ports _ _) lh = mark_empty (copy_ports ports.first lh)

unfoldable pub search_words : TriesHead → Str → LlHead → Option LlHead
search_words thp val lh = do tp ← descend thp.head val; some (found_words tp lh)

unfoldable pub search_substring : Tries → Str → Option Bool
search_substring tp substring = do t ← descend tp substring; some (not (is_null t))

-- tp->alpha['/'], with NULL for the end of a walk at NULL.
abbrev pub slash_of : Tries → Tries
slash_of null = null
slash_of (node alpha _ _ _) = alpha b'/'

-- The walk of Lsfunctionality and of LL_Tries_Ports_fn, and '/' behind it: NULL where the trie has
-- no such folder.
unfoldable pub folder_at : TriesHead → Str → Option Tries
folder_at thp path = do t ← descend thp.head path; some (slash_of t)
