-- ===== src/Naming/Threads.antt =====
-- The threads that clients and storage servers connect through: client_master_starter,
-- server_master_starter and empty_func.
use network_file_system_in_c.Base.{
  Bool, Option, Str, false, if◌then◌else◌, is_neg, leb, ltb, negsuc, pos, true, ℕ, ℤ, ◌&&◌, ◌+◌,
  ◌-◌, ◌==◌,
}
use network_file_system_in_c.Lru.{update}
use network_file_system_in_c.Naming.Ports.{Taken, exits, find_a_free_port_for_client, free_port}
use network_file_system_in_c.Naming.State.{
  M, Outcome, Server, and_then, done, lift_option, post_server, pure, server_ports, stuck,
  undefined, wait_server, ◌>>=◌, ◌>>◌,
}
use network_file_system_in_c.Tries.Register.{tokenize_and_print}

-- struct SS_NM: what a storage server says of itself.
pub record Registration : Type 0 where
  pub port : ℕ
  pub ip : Str
  pub result : Str

unfoldable pub wait_client_lock : M (Unit {0})
wait_client_lock s =
    if s.client_lock == 0 then stuck s else done tt (record s { client_lock = s.client_lock - 1 })

unfoldable pub post_client_lock : M (Unit {0})
post_client_lock s = done tt (record s { client_lock = s.client_lock + 1 })

unfoldable pub wait_master_client : M (Unit {0})
wait_master_client s =
    if s.master_client_lock == 0
    then stuck s
    else done tt (record s { master_client_lock = s.master_client_lock - 1 })

unfoldable pub post_master_client : M (Unit {0})
post_master_client s = done tt (record s { master_client_lock = s.master_client_lock + 1 })

unfoldable pub wait_master_server : M (Unit {0})
wait_master_server s =
    if s.master_server_lock == 0
    then stuck s
    else done tt (record s { master_server_lock = s.master_server_lock - 1 })

unfoldable pub post_master_server : M (Unit {0})
post_master_server s = done tt (record s { master_server_lock = s.master_server_lock + 1 })

-- find_a_free_port_for_client, and with its lock.
abbrev pub port_taken : Taken × Option ℕ × Server → Outcome Taken
port_taken (i, told, s') = done i s'

abbrev pub take_free_port : ℤ → M Taken
take_free_port sent s = port_taken (find_a_free_port_for_client s sent)

unfoldable pub find_port : ℤ → M Taken
find_port sent = do wait_client_lock; index ← take_free_port sent; post_client_lock; pure index

abbrev pub client_freed : ℕ → M (Unit {0})
client_freed i s = done tt (record s { client_available = update s.client_available i false })

-- A client that has been given the port at an index, with the result of the second accept. Where that
-- fails, neither lock is given back.
unfoldable pub client_accepted : ℤ → ℤ → M (Unit {0})
client_accepted (negsuc k) joined = pure tt
client_accepted (pos index) joined = do
  wait_client_lock
  if is_neg joined then client_freed index else (do post_client_lock; post_master_client)

-- Whether the server goes on after a round, or its process has ended.
pub data Fate : Type 0 where
  carries_on : Fate
  process_ends : Fate

unfoldable pub client_called : ℤ → Taken → M Fate
client_called joined exits = pure process_ends
client_called joined (free_port index) = client_accepted index joined >> pure carries_on

-- One round of client_master_starter, with the results of its two calls of accept and, between them, of
-- the send of the port.
unfoldable pub client_master_round : ℤ → ℤ → ℤ → M Fate
client_master_round called sent joined = do
  wait_master_client
  if is_neg called then pure carries_on else find_port sent >>= client_called joined

abbrev pub server_up : ℕ → Bool → M (Unit {0})
server_up i up s = done tt (record s { server_available = update s.server_available i up })

abbrev pub set_ip : ℕ → Str → M (Unit {0})
set_ip i ip s = done tt (record s { server_ip = update s.server_ip i ip })

unfoldable pub register_paths : Str → ℕ → M (Unit {0})
register_paths result i s =
    and_then (lift_option (tokenize_and_print s.thp result 10 (pos i)) s)
      (λ t s'. done tt (record s' { thp = t }))

-- One round of server_master_starter: with the result of accept on the master port, what is received
-- there, and the results of accept on the two ports of the server. The arrays are written before the
-- test `index < 0`, so an index that is none of the six is undefined.
unfoldable pub server_master_round : ℤ → Registration → ℤ → ℤ → M (Unit {0})
server_master_round called ss_nm first second = do
  wait_master_server
  if is_neg called
      then pure tt
      else if leb 5200 ss_nm.port && ltb ss_nm.port (5200 + server_ports)
      then (do
        let index = ss_nm.port - 5200
        set_ip index ss_nm.ip
        register_paths ss_nm.result index
        server_up index true
        wait_server index
        if is_neg first then server_up index false else pure tt
        if is_neg second then server_up index false else pure tt
        post_server index
        post_master_server)
      else undefined

-- One round of empty_func of the server at an index, with the result of recv: does it go on?
unfoldable pub empty_round : ℕ → ℤ → M Bool
empty_round i r =
    if is_neg r then pure true else (do wait_server i; server_up i false; post_server i; pure false)
