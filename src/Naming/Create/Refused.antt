-- ===== src/Naming/Create/Refused.antt =====
-- The semaphore of the storage server that a new file goes to (Naming_server.c,
-- Createfunctionality).
use mathlib.Core.List.{append_assoc}
use network_file_system_in_c.Base.{
  Bool-cases, [], codes, false, inl, inr, is_neg, is_pos, is_pos-eq_int, is_pos-is_neg,
  not_pos-eq_int, refl, str_eq, suc, true, ℕ, ◌++◌, ◌∷◌, ◌≡◌, ◌⊎◌,
}
use network_file_system_in_c.Lru.Heap.{Ptr}
use network_file_system_in_c.Naming.Create.{create_answered, create_on, create_refused}
use network_file_system_in_c.Naming.State.{Command, Network, Server, ack, command, done, send}
use network_file_system_in_c.Naming.State.Steps.{
  CanServe, else_on, held, log_server_lem, post_server_lem, recv_lem, send_client_lem, step,
  then_on, update-held, update-update, wait_server_lem,
}

-- The storage server's answer comes and is no, and the client gets it: the handler returns, the trie
-- and the cache are as before, and so are the semaphores of the storage servers, but for the one of
-- this server, which has one unit less: the handler does not give it back. The server must have been
-- free, and the ports of both be among the six.
pub create_on-refused :
    (net : Network) (c : Command) (p : Ptr) (i : ℕ) (s : Server)
    → CanServe c i s
    → is_pos (net.send_result s.sends) ≡ true
    → net.blocks s.recvs ≡ false
    → is_pos (net.recv_result s.recvs).count ≡ true
    → str_eq (net.recv_result s.recvs).text (codes "YES") ≡ false
    → is_neg (net.send_result (suc s.sends)) ≡ false
    → (s' : Server) × (create_on net c p i s ≡ done tt s')
      × (s'.sent ≡ s.sent ++ command i c ∷ ack c.port (codes "NO") ∷ [])
      × ((j : ℕ) → s'.block_server j ≡ held s.block_server i 0 j)
      × (s'.thp ≡ s.thp)
      × (s'.cache ≡ s.cache)
unfolding create_on send create_answered create_refused
create_on-refused net c p i s (h, free, client) sent comes answered says_no told =
    let r = net.recv_result s.recvs in
    (
      _,
      step _ (wait_server_lem i s h free) (
          (else_on _ _ (is_pos-is_neg (net.send_result s.sends) sent) (
            else_on _ _ (is_pos-eq_int (net.send_result s.sends) sent) (
              step _ (recv_lem net _ comes) (
                else_on _ _ (is_pos-is_neg r.count answered) (
                  else_on _ _ (is_pos-eq_int r.count answered) (
                    else_on _ _ says_no (
                      step _ (send_client_lem net c.port _ _ client)
                        (else_on _ _ told refl))))))))),
      append_assoc s.sent (command i c ∷ []) (ack c.port (codes "NO") ∷ []),
      update-held s.block_server i,
      refl,
      refl,
    )

-- The send of the command to a free storage server does not succeed, or the recv of its answer returns
-- with an error: the handler returns, and it has sent nothing but that command; the trie, the cache and
-- the semaphores of the storage servers are as before. The ports of the server and of the client must
-- be among the six.
pub create_on-failed :
    (net : Network) (c : Command) (p : Ptr) (i : ℕ) (s : Server)
    → CanServe c i s
    → (is_pos (net.send_result s.sends) ≡ false)
      ⊎ (is_pos (net.send_result s.sends) ≡ true)
        × (net.blocks s.recvs ≡ false)
        × (is_neg (net.recv_result s.recvs).count ≡ true)
    → (s' : Server) × (create_on net c p i s ≡ done tt s')
      × (s'.sent ≡ s.sent ++ command i c ∷ [])
      × ((j : ℕ) → s'.block_server j ≡ s.block_server j)
      × (s'.thp ≡ s.thp)
      × (s'.cache ≡ s.cache)
unfolding create_on send create_answered
create_on-failed net c p i s (h, free, client) (inl unsent) =
    elim (Bool-cases (is_neg (net.send_result s.sends))) [
      | inl e ↦ (
        _,
        step _ (wait_server_lem i s h free)
            ((then_on _ _ e (step _ (log_server_lem c i _ _ _ h) (post_server_lem i _ h)))),
        refl,
        λ j. update-update s.block_server i j free,
        refl,
        refl,
      )
      | inr e ↦ (
        _,
        step _ (wait_server_lem i s h free) (
            (else_on _ _ e (
              then_on _ _ (not_pos-eq_int _ unsent e)
                (step _ (log_server_lem c i _ _ _ h) (post_server_lem i _ h))))),
        refl,
        λ j. update-update s.block_server i j free,
        refl,
        refl,
      )
    ]
create_on-failed net c p i s (h, free, client) (inr (sent, comes, unanswered)) = (
  _,
  step _ (wait_server_lem i s h free) (
      (else_on _ _ (is_pos-is_neg (net.send_result s.sends) sent) (
        else_on _ _ (is_pos-eq_int (net.send_result s.sends) sent) (
          step _ (recv_lem net _ comes) (
            then_on _ _ unanswered
              (step _ (log_server_lem c i _ _ _ h) (post_server_lem i _ h))))))),
  refl,
  λ j. update-update s.block_server i j free,
  refl,
  refl,
)
