-- ===== src/Naming/Create/Already.antt =====
-- A create of a path that is there (Naming_server.c, Createfunctionality).
use network_file_system_in_c.Base.{
  Bool-cases, [], ap, codes, inl, inr, is_neg, is_pos, refl, some, subst, suc, sym, true, ◌++◌, ◌∙◌,
  ◌∷◌, ◌≡◌,
}
use network_file_system_in_c.Lru.{LruCache, get, update}
use network_file_system_in_c.Lru.Heap.{null, ok}
use network_file_system_in_c.Naming.Create.{create_already, create_functionality}
use network_file_system_in_c.Naming.State.{
  Command, Network, Outcome, Server, ack, done, list_at, log_plain, new_list,
}
use network_file_system_in_c.Naming.State.Steps.{
  IsClient, cache_get_lem, else_on, search_into_lem, send_client_lem, step, then_on, update_self,
}
use network_file_system_in_c.Tries.Ports.{LlHead, init_list}
use network_file_system_in_c.Tries.Search.{search_words}

-- The client is told ALREADY, and apart from that only the log, and what the search has read, change.
abbrev pub IsTold : Command → Server → Outcome (Unit {0}) → Type 0
IsTold c s r =
    (s' : Server) × (r ≡ done tt s')
    × (s'.sent ≡ s.sent ++ ack c.port (codes "ALREADY") ∷ [])
    × (s'.thp ≡ s.thp)
    × (s'.block_server ≡ s.block_server)

pub create_already_lem :
    (net : Network) (c : Command) (s : Server)
    → IsClient c.port
    → IsTold c s (create_already net c s)
unfolding create_already log_plain
create_already_lem net c s client = elim (Bool-cases (is_neg (net.send_result s.sends))) [
  | inl e ↦
      (_, step _ (send_client_lem net c.port _ s client) (then_on _ _ e refl), refl, refl, refl)
  | inr e ↦
      (_, step _ (send_client_lem net c.port _ s client) (else_on _ _ e refl), refl, refl, refl)
]

-- A create of a path that is not in the cache, and for which the trie has a storage server, returns
-- and sends one message, ALREADY to the client: no storage server is asked, the trie does not change,
-- and neither does any semaphore of a storage server.
pub create_functionality-already :
    (net : Network) (c : Command) (s : Server) (cache : LruCache) (lh : LlHead)
    → IsClient c.port
    → get c.path1 s.cache ≡ ok (null, cache)
    → search_words s.thp c.path1 init_list ≡ some lh
    → is_pos lh.curr_size ≡ true
    → IsTold c s (create_functionality net c s)
unfolding create_functionality new_list list_at
create_functionality-already net c s cache lh client missed searched there =
    let s₁ : Server = record s {
      cache = cache;
      lists = update (update s.lists s.next_list init_list) s.next_list lh;
      next_list = suc s.next_list;
    } in
    let (s', run, sent, same, kept) = create_already_lem net c s₁ client in
    let found : is_pos (s₁.lists s.next_list).curr_size ≡ true =
      ap (λ l. is_pos l.curr_size)
        (update_self (update s.lists s.next_list init_list) s.next_list lh)
      ∙ there in
    (
      s',
      step _ (cache_get_lem c.path1 _ missed) (
          step _
            (step _
              (search_into_lem c.path1 s.next_list _ {lh = lh} (
                subst (λ l. search_words s.thp c.path1 l ≡ some lh)
                  (sym (update_self s.lists s.next_list init_list)) searched))
              refl)
            (then_on _ _ found run)),
      sent,
      same,
      kept,
    )
