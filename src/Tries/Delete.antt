-- ===== src/Tries/Delete.antt =====
-- DeleteNode: one pass that counts down along the path, one that unlinks the nodes whose count
-- has reached 0.
pub mod Lookup
pub mod Undo
use network_file_system_in_c.Base.{
  Option, Str, [], decr, eq_int, false, if◌then◌else◌, none, pos, some, ◌>>=◌, ◌∷◌,
}
use network_file_system_in_c.Tries.Node.{Tries, TriesHead, child, count_of, node, null, store}

-- The first loop, and `is_end = 0` at the node where it stops. A NULL node is dereferenced.
unfoldable pub count_down : Tries → Str → Option Tries
count_down null val = none
count_down (node alpha ports count is_end) [] = some (node alpha ports (decr count) false)
count_down (node alpha ports count is_end) (c ∷ val) = do
  old ← child alpha c
  new ← count_down old val
  some (node (store alpha c new) ports (decr count) is_end)

-- The second loop. Below a node that it has unlinked the loop only frees nodes, so the trie
-- changes no more.
unfoldable pub unlink : Tries → Str → Option Tries
unlink null val = none
unlink (node a p n e) [] = some (node a p n e)
unlink (node alpha ports count is_end) (c ∷ val) = do
  old ← child alpha c
  new ← unlink old val
  some (
      node (store alpha c (if eq_int (count_of old) (pos 0) then null else new)) ports count is_end)

unfoldable pub delete_node : TriesHead → Str → Option TriesHead
delete_node thp val = do
  counted ← count_down thp.head val
  t ← unlink counted val
  some (record { head = t })
