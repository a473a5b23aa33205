-- ===== src/Naming/Open/Absent.antt =====
-- What the handlers of read, write and info do for a file that no storage server holds.
use network_file_system_in_c.Base.{
  Bool-cases, [], ap, codes, eq_int, false, if◌then◌else◌, inl, inr, is_neg, minus_one, pos, refl,
  some, subst, sym, true, ◌++◌, ◌∙◌, ◌∷◌, ◌≡◌, ◌⊎◌,
}
use network_file_system_in_c.Lru.{LruCache, get, update}
use network_file_system_in_c.Lru.Heap.{Ptr, null, ok}
use network_file_system_in_c.Naming.Open.{
  find_ports, info_functionality, not_found, read_functionality, settle, write_functionality,
}
use network_file_system_in_c.Naming.State.{
  Command, M, Network, Outcome, Server, and_then, done, list_at, log_server, new_list, place,
  set_list, undefined,
}
use network_file_system_in_c.Naming.State.Steps.{
  IsClient, cache_get_lem, else_on, search_into_lem, send_client_lem, step, then_on, update_self,
}
use network_file_system_in_c.Tries.Ports.{LlHead, init_list}
use network_file_system_in_c.Tries.Search.{search_words}

-- The client is told -1, then the log reads server_ip[-1], which is undefined behaviour, whatever
-- the send returned. What the program does from there on is left open.
abbrev pub LooksBelow : Network → Command → Server → Outcome (Unit {0}) → Type 0
LooksBelow net c s r =
    (s' : Server) × (r ≡ undefined s')
    × (s'.sent ≡ s.sent ++ place c.port (codes "-1") [] minus_one ∷ [])
    × (s'.block_server ≡ s.block_server)

pub not_found_lem :
    (net : Network) (c : Command) (s : Server)
    → IsClient c.port
    → LooksBelow net c s (not_found net c s)
unfolding not_found log_server
not_found_lem net c s client = elim (Bool-cases (is_neg (net.send_result s.sends))) [
  | inl e ↦ (_, step _ (send_client_lem net c.port _ s client) (then_on _ _ e refl), refl, refl)
  | inr e ↦ (_, step _ (send_client_lem net c.port _ s client) (else_on _ _ e refl), refl, refl)
]

-- A size of 0 or -1: no storage server.
abbrev pub IsAbsent : LlHead → Type 0
IsAbsent ports = (ports.curr_size ≡ pos 0) ⊎ (ports.curr_size ≡ minus_one)

-- `settle` leaves a size of 0 or -1 as 0.
pub settle_absent :
    (p : Ptr) (s : Server)
    → IsAbsent (s.lists p)
    → (ports : LlHead) × (settle p s ≡ done ports (record s { lists = update s.lists p ports }))
      × (eq_int ports.curr_size (pos 0) ≡ true)
unfolding settle list_at set_list
settle_absent p s (inl e) = (_, refl, rw e refl)
settle_absent p s (inr e) = (_, refl, rw e refl)

-- A handler that looks for the list of a path, and finds an empty one, ends like `not_found`.
pub after_find :
    (net : Network) (c : Command) (s₁ : Server) (p : Ptr) (k : LlHead → M (Unit {0}))
    → IsClient c.port
    → IsAbsent (s₁.lists p)
    → LooksBelow net c s₁ (
        and_then
          (settle p s₁)
          (λ ports. if eq_int ports.curr_size (pos 0) then not_found net c else k ports))
after_find net c s₁ p k client absent =
    let (ports, settled, empty) = settle_absent p s₁ absent in
    let s₂ : Server = record s₁ { lists = update s₁.lists p ports } in
    let (s', run, sent, kept) = not_found_lem net c s₂ client in
    (s', step _ settled (then_on _ _ empty run), sent, kept)

-- A write or an info of a file whose list is found to be empty ends in undefined behaviour: the
-- client is told -1, and then server_ip[-1] is read for a line of the log. No semaphore of a storage server changes after the search.
pub write_functionality-absent :
    (net : Network) (c : Command) (s s₁ : Server) (p : Ptr)
    → IsClient c.port
    → find_ports net true c s ≡ done p s₁
    → IsAbsent (s₁.lists p)
    → LooksBelow net c s₁ (write_functionality net c s)
      × LooksBelow net c s₁ (info_functionality net c s)
unfolding write_functionality info_functionality
write_functionality-absent net c s s₁ p client found absent =
    let (s', run, sent, kept) = after_find net c s₁ p _ client absent in
    ((s', step _ found run, sent, kept), (s', step _ found run, sent, kept))

-- The search for a path that the cache does not hold ends with the list that the trie gives.
pub find_ports_uncached :
    (net : Network) (c : Command) (s : Server) (cache : LruCache) (lh : LlHead)
    → get c.path1 s.cache ≡ ok (null, cache)
    → search_words s.thp c.path1 init_list ≡ some lh
    → (s₁ : Server) × (find_ports net false c s ≡ done s.next_list s₁)
      × (s₁.lists s.next_list ≡ lh)
      × (s₁.sent ≡ s.sent)
      × (s₁.block_server ≡ s.block_server)
unfolding find_ports new_list
find_ports_uncached net c s cache lh missed searched = (
  _,
  (step _ (cache_get_lem c.path1 _ missed) (
      step _
        (search_into_lem c.path1 s.next_list _ {lh = lh} (
          subst (λ l. search_words s.thp c.path1 l ≡ some lh)
            (sym (update_self s.lists s.next_list init_list)) searched))
        refl)),
  update_self (update s.lists s.next_list init_list) s.next_list lh,
  refl,
  refl,
)

-- A read of a file that is neither in the cache nor in the trie runs into undefined behaviour: after
-- the client is told -1, whether or not the send succeeds, server_ip[-1] is read for a line of the
-- log. Until then no semaphore of a storage server has changed, and nothing else has been sent.
pub read_functionality-absent :
    (net : Network) (c : Command) (s : Server) (cache : LruCache) (lh : LlHead)
    → IsClient c.port
    → get c.path1 s.cache ≡ ok (null, cache)
    → search_words s.thp c.path1 init_list ≡ some lh
    → IsAbsent lh
    → LooksBelow net c s (read_functionality net c s)
unfolding read_functionality
read_functionality-absent net c s cache lh client missed searched absent =
    let (s₁, found, list, sent, kept) = find_ports_uncached net c s cache lh missed searched in
    let (s', run, sent', kept') =
      after_find net c s₁ s.next_list _ client (subst IsAbsent (sym list) absent) in
    (
      s',
      step _ found run,
      sent' ∙ ap (λ l. l ++ place c.port (codes "-1") [] minus_one ∷ []) sent,
      kept' ∙ kept,
    )
