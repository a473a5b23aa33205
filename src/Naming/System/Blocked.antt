-- ===== src/Naming/System/Blocked.antt =====
-- Rounds of client_master_starter and server_master_starter that leave the lock of their thread taken.
-- The state in which the thread for the clients waits for ever, and the one for the storage servers.
use network_file_system_in_c.Base.{
  ap, arith, false, inl, inr, is_neg, minus_one, none, pos_ne_zero, refl, true, ℕ, ℤ, ◌+◌, ◌-◌, ◌<◌,
  ◌≡◌, ◌⊎◌,
}
use network_file_system_in_c.Naming.Ports.{
  find_a_free_port_for_client, first_index, free_port, take_port,
}
use network_file_system_in_c.Naming.State.{Server, done, stuck, ◌>>◌}
use network_file_system_in_c.Naming.State.Steps.{taken}
use network_file_system_in_c.Naming.Threads.{
  Registration, client_accepted, client_called, client_master_round, find_port, post_client_lock,
  server_master_round, wait_client_lock, wait_master_client, wait_master_server,
}

abbrev pub client_blocked : Server → Server
client_blocked s = record s { master_client_lock = 0 }

abbrev pub server_blocked : Server → Server
server_blocked s = record s { master_server_lock = 0 }

none_free :
    (s : Server) (sent : ℤ)
    → ((j : ℕ) → j < 6 → s.client_available j ≡ true)
    → find_a_free_port_for_client s sent ≡ (free_port minus_one, none, s)
unfolding find_a_free_port_for_client first_index take_port
none_free s sent taken =
    rw
      (
        taken 0 (ground arith),
        taken 1 (ground arith),
        taken 2 (ground arith),
        taken 3 (ground arith),
        taken 4 (ground arith),
        taken 5 (ground arith),
      )
      refl

find_port-none :
    (s : Server) (sent : ℤ)
    → 0 < s.client_lock
    → ((j : ℕ) → j < 6 → s.client_available j ≡ true)
    → find_port sent s ≡ done (free_port minus_one) s
unfolding find_port wait_client_lock post_client_lock
find_port-none s sent free taken =
    let there_again : s.client_lock - 1 + 1 ≡ s.client_lock = omega (arith, free) in
    rw
      (
        pos_ne_zero s.client_lock free,
        none_free (record s { client_lock = s.client_lock - 1 }) sent taken,
      )
      (ap (λ n. done (free_port minus_one) (record s { client_lock = n })) there_again)

-- A round of client_master_starter in which accept fails, or in which a client comes and all six ports are
-- taken, does not give the lock of its thread back, so that the next round waits for ever, whatever
-- comes. The lock of the thread must be 1, as it is at the start, and, in the second case, the lock
-- of the ports free.
pub client_master_round-refused :
    (called sent joined called2 sent2 joined2 : ℤ) (s : Server)
    → s.master_client_lock ≡ 1
    → (is_neg called ≡ true)
      ⊎ (is_neg called ≡ false)
        × (0 < s.client_lock)
        × ((j : ℕ) → j < 6 → s.client_available j ≡ true)
    → (client_master_round called sent joined >> client_master_round called2 sent2 joined2) s
      ≡ stuck (client_blocked s)
unfolding client_master_round client_called client_accepted wait_master_client
client_master_round-refused called sent joined called2 sent2 joined2 s one (inl failed) =
    rw (one, failed) refl
client_master_round-refused called sent joined called2 sent2 joined2 s one (inr (came, free, all)) =
    rw (one, came) (rw (find_port-none (client_blocked s) sent free all) refl)

-- The same of server_master_starter where accept fails on the port for storage servers.
pub server_master_round-refused :
    (called called2 f1 f2 g1 g2 : ℤ) (r1 r2 : Registration) (s : Server)
    → s.master_server_lock ≡ 1
    → is_neg called ≡ true
    → (server_master_round called r1 f1 f2 >> server_master_round called2 r2 g1 g2) s
      ≡ stuck (server_blocked s)
unfolding server_master_round wait_master_server
server_master_round-refused called called2 f1 f2 g1 g2 r1 r2 s one failed = rw (one, failed) refl
