-- ===== src/Tries/Marked.antt =====
-- What Deletefilefunctionality (Naming_server.c) does on the trie before it deletes.
pub mod Cleared
pub mod Fresh
use network_file_system_in_c.Base.{Option, Str, [], false, none, some, ◌>>=◌, ◌∷◌}
use network_file_system_in_c.Tries.Entry.{nextentry}
use network_file_system_in_c.Tries.Node.{Tries, TriesHead, child, node, null, store}

-- tp->is_end = 0 at the node of the path; NULL on the way is dereferenced.
unfoldable pub clear_end : Tries → Str → Option Tries
clear_end null path = none
clear_end (node alpha ports count is_end) [] = some (node alpha ports count false)
clear_end (node alpha ports count is_end) (c ∷ path) = do
  old ← child alpha c
  new ← clear_end old path
  some (node (store alpha c new) ports count is_end)

-- The path that goes to the storage server and out of the trie: the next entry of `path`, after
-- the end mark of `path` is gone.
unfoldable pub next_of : TriesHead → Str → Option (Str × TriesHead)
next_of thp path = do
  t ← clear_end thp.head path
  let cleared : TriesHead = record { head = t }
  next ← nextentry cleared path
  some (next, cleared)
