-- ===== src/Naming/Delete/Undone.antt =====
-- Deletefilefunctionality on a path that has nothing below it (Naming_server.c).
use mathlib.Core.List.{append_assoc}
use network_file_system_in_c.Base.{
  Bool-cases, IsAscii, List, Str, [], ap, codes, if◌then◌else◌, inl, inr, is_neg, refl, some, suc,
  true, ℕ, ℤ, ◌++◌, ◌<◌, ◌∙◌, ◌∷◌, ◌≡◌,
}
use network_file_system_in_c.Lru.{LruCache, remove_for_delete}
use network_file_system_in_c.Lru.Heap.{Ptr, ok}
use network_file_system_in_c.Naming.Delete.{acknowledge, delete_on, mark_next, next_entry}
use network_file_system_in_c.Naming.State.{
  Command, M, Message, Network, Reply, Server, ack, and_then, cache_remove, command, delete_path,
  done, lift_option, lift_run, post_server, pure, recv, send, stuck, ◌>>◌,
}
use network_file_system_in_c.Naming.State.Steps.{
  CanServe, IsClient, else_on, given, halts, held, post_server_lem, recv-stuck, recv_lem,
  send_client_lem, step, taken, then_on, update-held, update-update, wait_server_lem, with_sent,
}
use network_file_system_in_c.Tries.Delete.{delete_node}
use network_file_system_in_c.Tries.Delete.Undo.{CountedAlong}
use network_file_system_in_c.Tries.Entry.{nextentry}
use network_file_system_in_c.Tries.Insert.{insert_tries3}
use network_file_system_in_c.Tries.Marked.{clear_end, next_of}
use network_file_system_in_c.Tries.Marked.Fresh.{cleared_lem}
use network_file_system_in_c.Tries.Node.{Tries, TriesHead, is_null, node_at}

cache_remove_lem :
    (path : Str) (s : Server) {p : Ptr} {cache : LruCache}
    → remove_for_delete path s.cache ≡ ok (p, cache)
    → cache_remove path s ≡ done p (record s { cache = cache })
unfolding cache_remove
cache_remove_lem path s e =
    ap (λ r. and_then (lift_run r s) (λ (p, c) s'. done p (record s' { cache = c }))) e

mark_next_lem :
    (path next : Str) (t : Tries) (s : Server)
    → clear_end s.thp.head path ≡ some t
    → nextentry (record { head = t }) path ≡ some next
    → mark_next path s ≡ done next (record s { thp = record { head = t } })
unfolding mark_next next_of
mark_next_lem path next t s cleared e = rw cleared (rw e refl)

next_entry_lem :
    (path next : Str) (s : Server)
    → nextentry s.thp path ≡ some next
    → next_entry path s ≡ done next s
unfolding next_entry
next_entry_lem path next s e = ap (λ o. lift_option o s) e

delete_path_lem :
    (path : Str) (s : Server) {thp' : TriesHead}
    → delete_node s.thp path ≡ some thp'
    → delete_path path s ≡ done tt (record s { thp = thp' })
unfolding delete_path
delete_path_lem path s e =
    ap (λ o. and_then (lift_option o s) (λ t s'. done tt (record s' { thp = t }))) e

acknowledge_lem :
    (net : Network) (c : Command) (answer : Str) (s : Server)
    → IsClient c.port
    → acknowledge net c answer s ≡ done tt (with_sent (ack c.port answer) s)
unfolding acknowledge
acknowledge_lem net c answer s client =
    step _ (send_client_lem net c.port (ack c.port answer) s client) refl

-- What the client gets: YES, unless recv fails.
abbrev pub answer_to : ℕ → ℤ → List Message
answer_to port count = if is_neg count then [] else ack port (codes "YES") ∷ []

-- The state in which the handler waits for the answer of the storage server, and what it does then.
abbrev asked : Command → ℕ → Server → LruCache → TriesHead → Server
asked c i s cache thp =
    with_sent (command i c) (record (taken i (record s { cache = cache })) { thp = thp })

abbrev answered : Network → Command → ℕ → Reply → M (Unit {0})
answered net c i r =
    (if is_neg r.count then pure tt else acknowledge net c (codes "YES")) >> post_server i

delete_on-asked :
    (net : Network) (c : Command) (i : ℕ) (s : Server) (p : Ptr) (cache : LruCache) (t : Tries)
    (thp : TriesHead)
    → i < 6
    → 0 < s.block_server i
    → remove_for_delete c.path1 s.cache ≡ ok (p, cache)
    → clear_end s.thp.head c.path1 ≡ some t
    → nextentry (record { head = t }) c.path1 ≡ some c.path1
    → delete_node (record { head = t }) c.path1 ≡ some thp
    → delete_on net c i s ≡ and_then (recv net (asked c i s cache thp)) (answered net c i)
unfolding delete_on send
delete_on-asked net c i s p cache t thp h free uncached cleared e gone =
    step _ (cache_remove_lem c.path1 s uncached) (
      step _ (wait_server_lem i _ h free) (
        step _ (mark_next_lem c.path1 c.path1 t _ cleared e) (
          step _ (next_entry_lem c.path1 c.path1 _ e)
            (step _ (delete_path_lem c.path1 _ gone) refl))))

-- The deletion of a path that was put into the trie last, on a free storage server: the trie is the one
-- from before the insertion; the storage server is told to delete this path, once; the cache is what
-- removeForDelete leaves. Then the handler waits for the storage server's answer: if none ever comes it
-- waits for ever and holds the storage server; otherwise it returns, the client has been told YES
-- unless recv has failed, and every semaphore of a storage server is as before. The path must be ASCII
-- and not have been in the trie before the insertion, no node on it below the head may have had count
-- 0, removeForDelete must not fault, and the ports of the server and the client be among the six.
pub delete_on-insert_tries3 :
    (net : Network) (c : Command) (i : ℕ) (s : Server) (thp : TriesHead) (s1 s2 s3 : ℤ) (p : Ptr)
    (cache : LruCache)
    → CanServe c i s
    → IsAscii c.path1
    → is_null (node_at thp.head c.path1) ≡ true
    → CountedAlong thp.head c.path1
    → insert_tries3 thp c.path1 s1 s2 s3 ≡ some s.thp
    → remove_for_delete c.path1 s.cache ≡ ok (p, cache)
    → let hangs = net.blocks s.recvs in
      let told = if hangs then [] else answer_to c.port (net.recv_result s.recvs).count in
      (s' : Server) × (delete_on net c i s ≡ (if hangs then stuck s' else done tt s'))
      × (s'.thp ≡ thp)
      × (s'.cache ≡ cache)
      × (s'.sent ≡ s.sent ++ command i c ∷ told)
      × ((j : ℕ)
          → s'.block_server j ≡ (if hangs then held s.block_server i 0 j else s.block_server j))
delete_on-insert_tries3 net c i s thp s1 s2 s3 p cache (h, free, client) ascii fresh counted
      inserted uncached =
    let (t, cleared, e, gone) = cleared_lem thp c.path1 s1 s2 s3 ascii fresh counted inserted in
    let to_recv = delete_on-asked net c i s p cache t thp h free uncached cleared e gone in
    let s5 = asked c i s cache thp in
    let s6 : Server = record s5 { recvs = suc s.recvs } in
    elim (Bool-cases (net.blocks s.recvs)) [
      | inl hangs ↦ (
        s5,
        to_recv ∙ halts _ (recv-stuck net s5 hangs) ∙ rw hangs refl,
        refl,
        refl,
        rw hangs refl,
        λ j. rw hangs (update-held s.block_server i j),
      )
      | inr comes ↦ elim (Bool-cases (is_neg (net.recv_result s.recvs).count)) [
        | inl failed ↦ (
          given i s6,
          to_recv
              ∙ step _ (recv_lem net s5 comes)
                  (step _ (then_on _ _ failed refl) (post_server_lem i _ h))
              ∙ rw comes refl,
          refl,
          refl,
          rw (comes, failed) refl,
          λ j. rw comes (update-update s.block_server i j free),
        )
        | inr heard ↦ (
          given i (with_sent (ack c.port (codes "YES")) s6),
          to_recv
              ∙ step _ (recv_lem net s5 comes) (
                  step _ (else_on _ _ heard (acknowledge_lem net c (codes "YES") _ client))
                    (post_server_lem i _ h))
              ∙ rw comes refl,
          refl,
          refl,
          append_assoc s.sent (command i c ∷ []) (ack c.port (codes "YES") ∷ [])
              ∙ rw (comes, heard) refl,
          λ j. rw comes (update-update s.block_server i j free),
        )
      ]
    ]
