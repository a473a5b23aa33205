-- ===== src/Naming/Kept/Delete.antt =====
-- Deletefilefunctionality and Deletedirfunctionality keep the trie valid.
use network_file_system_in_c.Base.{
  Bool, Bool-cases, List, Option, Str, [], codes, decr, eq_int, if◌then◌else◌, inl, inr, is_neg,
  is_pos, minus_one, negsuc, none, not, pos, pos_part, refl, some, str_eq, suc, zero, ℕ, ℤ, ◌++◌,
  ◌∷◌, ◌≡◌,
}
use network_file_system_in_c.Naming.Delete.{
  count_at, delete_at, delete_dir_functionality, delete_file_functionality, delete_on, drop_entries,
  drop_entry, drop_folder, mark_next, next_entry, tell_all, tell_servers,
}
use network_file_system_in_c.Naming.Kept.{Ends}
use network_file_system_in_c.Naming.Kept.Create.{listed-Keeps}
use network_file_system_in_c.Naming.Kept.Open.{acknowledge-Keeps, settle-Keeps}
use network_file_system_in_c.Naming.Kept.Primitives.{
  Handled, Handled-IsOrder, KeepsAll, branch, cache_remove-Keeps, delete_path-Keeps, faulty,
  lift_option-Keeps, list_at-Keeps, new_list-Keeps, nothing_done, observe, post_server-Keeps,
  recv-Keeps, search_into-Keeps, send-Keeps, seq, wait_server-Keeps, with_trie,
}
use network_file_system_in_c.Naming.Open.{first_server, settle}
use network_file_system_in_c.Naming.State.{
  Command, Network, and_then, cache_remove, delete_path, done, lift_option, list_at, new_list,
  post_server, pure, recv, search_into, send, wait_server, ◌>>=◌, ◌>>◌,
}
use network_file_system_in_c.Tries.Entry.{nextentry}
use network_file_system_in_c.Tries.Marked.{next_of}
use network_file_system_in_c.Tries.Marked.Cleared.{next_of-IsValid}
use network_file_system_in_c.Tries.Node.{TriesHead, is_null, node_at}
use network_file_system_in_c.Tries.Valid.{IsValid}

mark_next-Keeps : (path : Str) → KeepsAll (mark_next path)
unfolding mark_next
mark_next-Keeps path s = go (next_of s.thp path) (λ r e h. next_of-IsValid s.thp path h e)
  where
    go :
        (o : Option (Str × TriesHead))
        → ((r : Str × TriesHead) → o ≡ some r → IsValid s.thp → IsValid r.1)
        → Ends Handled s
            (and_then (lift_option o s) (λ (next, t) s'. done next (record s' { thp = t })))
    go none keeps = tt
    go (some (next, t)) keeps = with_trie s t (keeps (next, t) refl)

next_entry-Keeps : (path : Str) → KeepsAll (next_entry path)
unfolding next_entry
next_entry-Keeps path s = lift_option-Keeps (nextentry s.thp path) s

count_at-Keeps : (path : Str) → KeepsAll (count_at path)
unfolding count_at
count_at-Keeps path s = elim (Bool-cases (is_null (node_at s.thp.head path))) [
  | inl gone ↦ rw gone tt
  | inr there ↦ rw there (Handled-IsOrder.same s)
]

drop_entry-Keeps : (junk : Str) → KeepsAll (drop_entry junk)
unfolding drop_entry
drop_entry-Keeps junk =
    seq (next_entry junk) _ (next_entry-Keeps junk) (λ entry.
      seq (cache_remove entry) _ (cache_remove-Keeps entry) (λ p. delete_path-Keeps entry))

drop_entries-Keeps : (fuel : ℕ) (junk : Str) → KeepsAll (drop_entries fuel junk)
unfolding drop_entries
drop_entries-Keeps zero junk = λ s. Handled-IsOrder.same s
drop_entries-Keeps (suc fuel) junk = seq (count_at junk) _ (count_at-Keeps junk) (λ count.
    branch (is_pos (decr count)) _ _
      (seq (drop_entry junk) _ (drop_entry-Keeps junk) (λ u. drop_entries-Keeps fuel junk))
      (nothing_done tt))

module _ (net : Network) where
  tell_servers-Keeps : (c : Command) (ports : List ℤ) → KeepsAll (tell_servers net c ports)
  unfolding tell_servers
  tell_servers-Keeps c [] = nothing_done tt
  tell_servers-Keeps c (negsuc k ∷ vs) = faulty (Unit {0})
  tell_servers-Keeps c (pos i ∷ vs) = seq (wait_server i) _ (wait_server-Keeps i) (λ u.
      seq (send net _) _ (send-Keeps net _) (λ s.
        seq (recv net) _ (recv-Keeps net)
          (λ r. seq (post_server i) _ (post_server-Keeps i) (λ u. tell_servers-Keeps c vs))))

  tell_all-Keeps : (c : Command) (ports : List ℤ) → KeepsAll (tell_all net c ports)
  unfolding tell_all
  tell_all-Keeps c [] = faulty (Unit {0})
  tell_all-Keeps c (v ∷ vs) = tell_servers-Keeps c (v ∷ vs)

  below_dropped-Keeps :
      (b : Bool) (junk : Str)
      → KeepsAll (
          if b
          then (do count ← count_at junk; drop_entries (suc (pos_part count)) junk; drop_entry junk)
          else pure tt)
  below_dropped-Keeps b junk =
      branch b _ _
        (seq (count_at junk) _ (count_at-Keeps junk) (λ count.
          seq (drop_entries (suc (pos_part count)) junk) _ (drop_entries-Keeps _ junk)
            (λ u. drop_entry-Keeps junk)))
        (nothing_done tt)

  drop_folder-Keeps : (path : Str) → KeepsAll (drop_folder net path)
  unfolding drop_folder
  drop_folder-Keeps path =
      seq (λ s. done (not (is_null (node_at s.thp.head (path ++ b'/' ∷ [])))) s) _
        (observe (λ s. not (is_null (node_at s.thp.head (path ++ b'/' ∷ [])))))
        (λ b.
          seq _ _ (below_dropped-Keeps b (path ++ b'/' ∷ [])) (λ u.
            seq (cache_remove path) _ (cache_remove-Keeps path) (λ p. delete_path-Keeps path)))

  delete_dir_functionality-Keeps : (c : Command) → KeepsAll (delete_dir_functionality net c)
  unfolding delete_dir_functionality
  delete_dir_functionality-Keeps c = seq new_list _ new_list-Keeps (λ p.
      seq new_list _ new_list-Keeps (λ p2.
        seq (search_into c.path1 p) _ (search_into-Keeps c.path1 p) (λ u.
          seq (list_at p) _ (list_at-Keeps p) (λ ports.
            branch (is_pos ports.curr_size) _ _
              (seq (tell_all net c ports.first) _ (tell_all-Keeps c ports.first) (λ u.
                seq (search_into _ p) _ (search_into-Keeps _ p) (λ u.
                  seq (next_entry c.path1) _ (next_entry-Keeps c.path1) (λ e.
                    seq (drop_folder net c.path1) _ (drop_folder-Keeps c.path1)
                      (λ u. acknowledge-Keeps net c _)))))
              (acknowledge-Keeps net c _)))))

  delete_on-Keeps : (c : Command) (i : ℕ) → KeepsAll (delete_on net c i)
  unfolding delete_on
  delete_on-Keeps c i = seq (cache_remove c.path1) _ (cache_remove-Keeps c.path1) (λ p.
      seq (wait_server i) _ (wait_server-Keeps i) (λ u.
        seq (mark_next c.path1) _ (mark_next-Keeps c.path1) (λ next.
          seq (send net _) _ (send-Keeps net _) (λ s.
            seq (next_entry c.path1) _ (next_entry-Keeps c.path1) (λ gone.
              seq (delete_path gone) _ (delete_path-Keeps gone) (λ u.
                seq (recv net) _ (recv-Keeps net) (λ r.
                  seq _ _
                    (branch (is_neg r.count) _ _ (nothing_done tt) (acknowledge-Keeps net c _))
                    (λ u. post_server-Keeps i))))))))

  delete_at-Keeps : (c : Command) (i : ℤ) → KeepsAll (delete_at net c i)
  unfolding delete_at
  delete_at-Keeps c (negsuc k) = nothing_done tt
  delete_at-Keeps c (pos i) = delete_on-Keeps c i

  pub delete_file_functionality-Keeps : (c : Command) → KeepsAll (delete_file_functionality net c)
  unfolding delete_file_functionality
  delete_file_functionality-Keeps c =
      branch (str_eq (codes "deletedir") c.operation) _ _ (delete_dir_functionality-Keeps c) (
        seq new_list _ new_list-Keeps (λ fresh.
          seq (cache_remove c.path1) _ (cache_remove-Keeps c.path1) (λ found.
            seq _ _ (listed-Keeps c.path1 fresh found) (λ p.
              seq (settle p) _ (settle-Keeps p) (λ ports.
                branch (eq_int ports.curr_size (pos 0)) _ _ (acknowledge-Keeps net c _)
                  (delete_at-Keeps c (first_server minus_one ports.first)))))))
