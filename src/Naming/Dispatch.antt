-- ===== src/Naming/Dispatch.antt =====
-- command_proccessor and clientcommandtemporary: the commands of the clients.
use network_file_system_in_c.Base.{
  Bool, List, Str, [], codes, eq_int, false, if◌then◌else◌, is_neg, leb, ltb, not, pos, pos_part,
  str_eq, true, ℕ, ℤ, ◌+◌, ◌-◌, ◌==◌, ◌||◌, ◌∷◌,
}
use network_file_system_in_c.Lru.{update}
use network_file_system_in_c.Naming.Copy.{copy_functionality}
use network_file_system_in_c.Naming.CopyDir.{copy_dir_functionality}
use network_file_system_in_c.Naming.Create.{create_functionality}
use network_file_system_in_c.Naming.Delete.{delete_file_functionality}
use network_file_system_in_c.Naming.Listing.{ls_functionality}
use network_file_system_in_c.Naming.Open.{
  info_functionality, read_functionality, write_functionality,
}
use network_file_system_in_c.Naming.State.{
  Command, M, Network, client_ports, done, pure, stuck, undefined, ◌>>◌,
}

-- sem_trywait and sem_post of red_lock. A trywait at 0 fails, and nobody looks at its result.
unfoldable pub try_red : M (Unit {0})
try_red s = done tt (record s { red_lock = s.red_lock - 1 })

unfoldable pub post_red : M (Unit {0})
post_red s = done tt (record s { red_lock = s.red_lock + 1 })

-- The semaphore of a client.
unfoldable pub wait_client : ℕ → M (Unit {0})
wait_client i s =
    if not (ltb i client_ports)
    then undefined s
    else if s.block_client i == 0
    then stuck s
    else done tt (record s { block_client = update s.block_client i (s.block_client i - 1) })

unfoldable pub post_client : ℕ → M (Unit {0})
post_client i s =
    if ltb i client_ports
    then done tt (record s { block_client = update s.block_client i (s.block_client i + 1) })
    else undefined s

-- The commands, and any other operation.
pub data Request : Type 0 where
  create_request delete_request read_request write_request : Request
  info_request ls_request copyfile_request copydir_request : Request
  no_request : Request

-- The comparisons with `operation`, in their order.
unfoldable pub first_request : List (Str × Request) → Str → Request
first_request [] operation = no_request
first_request ((name, request) ∷ more) operation =
    let later = first_request more operation in if str_eq name operation then request else later

abbrev pub requests : List (Str × Request)
requests =
    (codes "createfile", create_request)
    ∷ (codes "createdir", create_request)
    ∷ (codes "deletefile", delete_request)
    ∷ (codes "deletedir", delete_request)
    ∷ (codes "read", read_request)
    ∷ (codes "write", write_request)
    ∷ (codes "info", info_request)
    ∷ (codes "ls", ls_request)
    ∷ (codes "copyfile", copyfile_request)
    ∷ (codes "copydir", copydir_request)
    ∷ []

abbrev pub request_of : Str → Request
request_of operation = first_request requests operation

-- sizeof(struct COMMAND)
abbrev pub command_size : ℕ
command_size = 32 + 512 + 512 + 4

module _ (net : Network) where
  unfoldable pub handle : Request → Command → M (Unit {0})
  handle create_request c = create_functionality net c
  handle delete_request c = delete_file_functionality net c
  handle read_request c = read_functionality net c
  handle write_request c = write_functionality net c
  handle info_request c = info_functionality net c
  handle ls_request c = ls_functionality net c
  handle copyfile_request c = copy_functionality net c
  handle copydir_request c = copy_dir_functionality net c
  handle no_request c = pure tt

  unfoldable pub command_processor : Command → ℕ → M (Unit {0})
  command_processor c clientport = do
    wait_client clientport
    try_red
    handle (request_of c.operation) c
    post_red
    post_client clientport

  -- The port of a client that has gone is free again. `client_lock` is held only in between.
  unfoldable pub client_gone : ℕ → M (Unit {0})
  client_gone index s =
      if s.client_lock == 0
      then stuck s
      else done tt (record s { client_available = update s.client_available index false })

  -- One round of the thread of a client, with what its recv has brought: does it go on? The port that
  -- the command itself gives chooses the semaphore.
  unfoldable pub client_round : ℕ → ℤ → Command → M Bool
  client_round index r c =
      if is_neg r || eq_int r (pos 0) || ltb (pos_part r) command_size
      then client_gone index >> pure false
      else if leb 5100 c.port
      then command_processor c (c.port - 5100) >> pure true
      else undefined
