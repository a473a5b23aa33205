-- ===== src/Naming/Delete.antt =====
-- Deletefilefunctionality and Deletedirfunctionality.
pub mod Undone
use network_file_system_in_c.Base.{
  List, Str, [], codes, decr, eq_int, if◌then◌else◌, is_neg, is_pos, minus_one, negsuc, not, pos,
  pos_part, str_eq, suc, zero, ℕ, ℤ, ◌++◌, ◌==◌, ◌∷◌,
}
use network_file_system_in_c.Lru.Heap.{null}
use network_file_system_in_c.Naming.Open.{first_server, settle}
use network_file_system_in_c.Naming.State.{
  Command, M, Network, ack, and_then, cache_remove, command, delete_path, done, lift_option,
  list_at, new_list, post_server, pure, recv, search_into, send, send_client, stuck, undefined,
  wait_server, ◌>>=◌, ◌>>◌,
}
use network_file_system_in_c.Tries.Entry.{nextentry}
use network_file_system_in_c.Tries.Listing.Ended.{below}
use network_file_system_in_c.Tries.Marked.{next_of}
use network_file_system_in_c.Tries.Node.{count_of, is_null, node_at}

unfoldable pub mark_next : Str → M Str
mark_next path s =
    and_then (lift_option (next_of s.thp path) s)
      (λ (next, t) s'. done next (record s' { thp = t }))

unfoldable pub next_entry : Str → M Str
next_entry path s = lift_option (nextentry s.thp path) s

-- tp->count at the node of a path. The node must not have been freed.
unfoldable pub count_at : Str → M ℤ
count_at path s =
    let t = node_at s.thp.head path in if is_null t then undefined s else done (count_of t) s

-- One round of the loop of Deletedirfunctionality, and the removal after it: the next entry below
-- `junk` leaves the cache and the trie.
unfoldable pub drop_entry : Str → M (Unit {0})
drop_entry junk = do entry ← next_entry junk; cache_remove entry; delete_path entry

-- while (tp->count > 1). With no fuel left the loop has not ended.
unfoldable pub drop_entries : ℕ → Str → M (Unit {0})
drop_entries zero junk = stuck
drop_entries (suc fuel) junk = do
  count ← count_at junk
  let rest = drop_entries fuel junk
  if is_pos (decr count) then drop_entry junk >> rest else pure tt

module _ (net : Network) where
  -- The send's result is only printed.
  unfoldable pub acknowledge : Command → Str → M (Unit {0})
  acknowledge c answer = do s ← send_client net c.port (ack c.port answer); pure tt

  -- The command goes to every storage server of the list, which answers.
  unfoldable pub tell_servers : Command → List ℤ → M (Unit {0})
  tell_servers c [] = pure tt
  tell_servers c (negsuc k ∷ vs) = undefined
  tell_servers c (pos index ∷ vs) = do
    wait_server index
    s ← send net (command index c)
    r ← recv net
    post_server index
    tell_servers c vs

  -- The first port is read before the loop: there must be one.
  unfoldable pub tell_all : Command → List ℤ → M (Unit {0})
  tell_all c [] = undefined
  tell_all c (v ∷ vs) = tell_servers c (v ∷ vs)

  -- Everything below the folder, then the folder.
  unfoldable pub drop_folder : Str → M (Unit {0})
  drop_folder path1 = do
    let junk = path1 ++ b'/' ∷ []
    below ← λ st. done (not (is_null (node_at st.thp.head junk))) st
    if below
        then (do count ← count_at junk; drop_entries (suc (pos_part count)) junk; drop_entry junk)
        else pure tt
    cache_remove path1
    delete_path path1

  unfoldable pub delete_dir_functionality : Command → M (Unit {0})
  delete_dir_functionality c = do
    ports_exist ← new_list
    ports_exist2 ← new_list
    search_into c.path1 ports_exist
    ports ← list_at ports_exist
    if is_pos ports.curr_size
        then (do
          tell_all c ports.first
          search_into (c.path1 ++ b'/' ∷ []) ports_exist
          next_entry c.path1
          drop_folder c.path1
          acknowledge c (codes "YES"))
        else acknowledge c (codes "YES")

  -- The path is in the trie and on server `index`: `next`, not the path of the command, goes to
  -- the storage server and out of the trie.
  unfoldable pub delete_on : Command → ℕ → M (Unit {0})
  delete_on c index = do
    cache_remove c.path1
    wait_server index
    next ← mark_next c.path1
    s ← send net (command index (record c { path1 = next }))
    gone ← next_entry c.path1
    delete_path gone
    r ← recv net
    if is_neg r.count then pure tt else acknowledge c (codes "YES")
    post_server index

  -- An index -1, with all ports -1, is left alone.
  unfoldable pub delete_at : Command → ℤ → M (Unit {0})
  delete_at c (negsuc k) = pure tt
  delete_at c (pos index) = delete_on c index

  unfoldable pub delete_file_functionality : Command → M (Unit {0})
  delete_file_functionality c =
      if str_eq (codes "deletedir") c.operation then delete_dir_functionality c else (do
        fresh ← new_list
        found ← cache_remove c.path1
        ports_exist ←
            if found == null then (search_into c.path1 fresh >> pure fresh) else pure found
        ports ← settle ports_exist
        if eq_int ports.curr_size (pos 0)
            then acknowledge c (codes "YES")
            else delete_at c (first_server minus_one ports.first))
