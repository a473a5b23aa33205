-- ===== src/Naming/System/Joined.antt =====
-- Storage servers and clients that connect.
use network_file_system_in_c.Base.{
  All, IsAscii, Str, ap, arith, false, fun_ext, is_neg, leb-true, ltb-true, pos, pos_ne_zero,
  tokens, true, ℕ, ℤ, ◌+◌, ◌-◌, ◌<◌, ◌∙◌, ◌≡◌,
}
use network_file_system_in_c.Lru.{update}
use network_file_system_in_c.Naming.State.{Server, and_then, done, wait_server}
use network_file_system_in_c.Naming.State.Steps.{post_server_lem, update-update}
use network_file_system_in_c.Naming.Threads.{
  Registration, post_master_server, register_paths, server_master_round, wait_master_server,
}
use network_file_system_in_c.Tries.Node.{TriesHead}
use network_file_system_in_c.Tries.Register.Found.{IsRegistered, tokenize_and_print_lem}
use network_file_system_in_c.Tries.Valid.{IsValid}

-- A storage server that connects on both of its ports is registered: its address and its mark are set,
-- and every path that it lists is in the trie with the server among its ports. The trie stays valid
-- and loses no registration of any server, and apart from it nothing else in the state changes, the
-- locks and the semaphores included. The lock of the thread and the server's semaphore must be free,
-- the trie valid, the port one of the six and the paths ASCII.
pub server_master_round_lem :
    (called first second : ℤ) (ss_nm : Registration) (i : ℕ) (s : Server)
    → is_neg called ≡ false
    → is_neg first ≡ false
    → is_neg second ≡ false
    → i < 6
    → ss_nm.port ≡ 5200 + i
    → 0 < s.master_server_lock
    → 0 < s.block_server i
    → IsValid s.thp
    → All IsAscii (tokens 10 ss_nm.result)
    → (t : TriesHead) × (server_master_round called ss_nm first second s
        ≡ done tt (record s {
          server_ip = update s.server_ip i ss_nm.ip;
          thp = t;
          server_available = update s.server_available i true;
        }))
      × IsValid t
      × All (IsRegistered (pos i) t) (tokens 10 ss_nm.result)
      × ((q : ℤ) (v : Str) → IsRegistered q s.thp v → IsRegistered q t v)
unfolding wait_server server_master_round wait_master_server post_master_server register_paths
server_master_round_lem called first second ss_nm i s ok_called ok_first ok_second h is_port
      lock_free free valid ascii =
    let (t, run, valid', all, kept) =
      tokenize_and_print_lem s.thp ss_nm.result 10 (pos i) valid ascii in
    let index_eq : 5200 + i - 5200 ≡ i = omega arith in
    let left = λ (f : ℕ → ℕ) (n : ℕ). record s {
      server_ip = update s.server_ip i ss_nm.ip;
      thp = t;
      server_available = update s.server_available i true;
      block_server = f;
      master_server_lock = n;
    } in
    let twice : ℕ → ℕ =
      update (update s.block_server i (s.block_server i - 1)) i
        (update s.block_server i (s.block_server i - 1) i + 1) in
    let there_again : s.master_server_lock - 1 + 1 ≡ s.master_server_lock =
      omega (arith, lock_free) in
    (
      t,
      rw
            (
              pos_ne_zero s.master_server_lock lock_free,
              ok_called,
              is_port,
              ltb-true (5200 + i) 5206 (omega (arith, h)),
              leb-true 5200 (5200 + i) (omega arith),
              index_eq,
              run,
              ltb-true i 6 h,
              pos_ne_zero (s.block_server i) free,
              ok_first,
              ok_second,
            )
            (ap (λ o. and_then o (λ u. post_master_server)) (post_server_lem i _ h))
          ∙ ap (λ n. done tt (left twice n)) there_again
          ∙ ap (λ f. done tt (left f s.master_server_lock))
              (fun_ext (λ j. update-update s.block_server i j free)),
      valid',
      all,
      kept,
    )
