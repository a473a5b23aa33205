-- ===== src/Naming/State.antt =====
-- The state of the naming server, its environment, and what a handler does with them.
pub mod Steps
use network_file_system_in_c.Base.{
  Bool, List, Option, Str, [], if◌then◌else◌, leb, ltb, negsuc, none, not, pos, some, suc, ℕ, ℤ,
  ◌&&◌, ◌++◌, ◌+◌, ◌-◌, ◌==◌, ◌∷◌,
}
use network_file_system_in_c.Lru.{LruCache, get, put, remove_for_delete, update}
use network_file_system_in_c.Lru.Heap.{Ptr, Run, fault, ok, out_of_fuel}
use network_file_system_in_c.Tries.Delete.{delete_node}
use network_file_system_in_c.Tries.Insert.{insert_tries3}
use network_file_system_in_c.Tries.Node.{TriesHead}
use network_file_system_in_c.Tries.Ports.{LlHead, init_list}
use network_file_system_in_c.Tries.Search.{search_words}

-- struct COMMAND
pub record Command : Type 0 where
  pub operation : Str
  pub path1 : Str
  pub path2 : Str
  pub port : ℕ

-- What leaves the server. To a client on a port: an acknowledgement (struct ACK_NM_C), the place of
-- a file (struct NM_C_IP), or a packet of a listing (struct ls_data: its size, the number of
-- packets, its bytes). To a storage server: a command, or a chunk of a file.
pub data Message : Type 0 where
  ack : ℕ → Str → Message
  place : ℕ → Str → Str → ℤ → Message
  command : ℕ → Command → Message
  packet : ℕ → ℕ → ℕ → Str → Message
  chunk : ℕ → Str → Message

-- A line of the log: ip, client port, server port, command, status.
pub record LogLine : Type 0 where
  pub ip : Str
  pub client_port : ℕ
  pub server_port : ℤ
  pub operation : Str
  pub status : Str

-- What a recv returns, and the bytes in its buffer afterwards: the ticket of an acknowledgement, the
-- operation of a command, the text of a size, a chunk of a file.
pub record Reply : Type 0 where
  pub count : ℤ
  pub text : Str

-- The network and rand(), by the number of the call, with the calls of recv that never return; whether
-- fopen opens a file of a name; and what malloc leaves in a struct COMMAND.
pub record Network : Type 0 where
  pub send_result : ℕ → ℤ
  pub recv_result : ℕ → Reply
  pub blocks : ℕ → Bool
  pub random : ℕ → ℕ
  pub opens : Str → Bool
  pub stale : Command

-- CLIENT_PORT and SERVER_PORT
abbrev pub client_ports : ℕ
client_ports = 6

abbrev pub server_ports : ℕ
server_ports = 6

-- The globals that the handlers use. A semaphore is its value. `lists` is the heap of the
-- lists of ports, which the cache shares by address; `sends`, `recvs` and `rands` count the calls of
-- the network and of rand(); `temp_txt` is what the file temp.txt holds.
pub record Server : Type 0 where
  pub thp : TriesHead
  pub cache : LruCache
  pub lists : Ptr → LlHead
  pub next_list : Ptr
  pub client_available : ℕ → Bool
  pub server_available : ℕ → Bool
  pub server_ip : ℕ → Str
  pub block_server : ℕ → ℕ
  pub block_client : ℕ → ℕ
  pub red_lock : ℕ
  pub client_lock : ℕ
  pub master_client_lock : ℕ
  pub master_server_lock : ℕ
  pub sent : List Message
  pub log : List LogLine
  pub sends : ℕ
  pub recvs : ℕ
  pub rands : ℕ
  pub temp_txt : Str

-- A handler returns, or hits undefined behaviour, or waits for ever (a semaphore at 0 that no
-- other thread posts, a recv for which nothing comes, a loop without end).
pub data Outcome {ℓ} (A : Type ℓ) : Type ℓ where
  done : A → Server → Outcome A
  undefined : Server → Outcome A
  stuck : Server → Outcome A

abbrev pub M {ℓ} : Type ℓ → Type ℓ
M A = Server → Outcome A

abbrev pub pure {ℓ} : {A : Type ℓ} → A → M A
pure = done

abbrev pub and_then {ℓ κ} : {A : Type ℓ} {B : Type κ} → Outcome A → (A → M B) → Outcome B
and_then (done a s) k = k a s
and_then (undefined s) k = undefined s
and_then (stuck s) k = stuck s

infixl 5 ◌>>=◌ ◌>>◌
abbrev pub ◌>>=◌ {ℓ κ} : {A : Type ℓ} {B : Type κ} → M A → (A → M B) → M B
m >>= k = λ s. and_then (m s) k

abbrev pub ◌>>◌ {ℓ κ} : {A : Type ℓ} {B : Type κ} → M A → M B → M B
m >> k = m >>= λ _. k

-- A semaphore of a storage server. An index out of range is undefined.
unfoldable pub wait_server : ℕ → M (Unit {0})
wait_server i s =
    if not (ltb i server_ports)
    then undefined s
    else if s.block_server i == 0
    then stuck s
    else done tt (record s { block_server = update s.block_server i (s.block_server i - 1) })

unfoldable pub post_server : ℕ → M (Unit {0})
post_server i s =
    if ltb i server_ports
    then done tt (record s { block_server = update s.block_server i (s.block_server i + 1) })
    else undefined s

module _ (net : Network) where
  -- send: the message counts as sent, and the result is the network's.
  unfoldable pub send : Message → M ℤ
  send m s =
      done (net.send_result s.sends) (record s { sent = s.sent ++ m ∷ []; sends = suc s.sends })

  -- send(client_reciever_sock[port - 5100], …)
  unfoldable pub send_client : ℕ → Message → M ℤ
  send_client port m s =
      if leb 5100 port && ltb port (5100 + client_ports) then send m s else undefined s

  -- recv: it may never return.
  unfoldable pub recv : M Reply
  recv s =
      if net.blocks s.recvs
      then stuck s
      else done (net.recv_result s.recvs) (record s { recvs = suc s.recvs })

-- log_command with the address of no server, and of the server at an index.
unfoldable pub log_plain : Command → ℤ → Str → M (Unit {0})
log_plain c server_port status s = done tt (record s {
  log =
      s.log
      ++ record {
        ip = [];
        client_port = c.port;
        server_port = server_port;
        operation = c.operation;
        status = status;
      }
        ∷ [];
})

-- server_ip[index] is read: an index out of range, -1 too, is undefined.
unfoldable pub log_server : Command → ℤ → ℤ → Str → M (Unit {0})
log_server c (negsuc k) server_port status s = undefined s
log_server c (pos i) server_port status s =
    if ltb i server_ports
    then done tt (record s {
      log =
          s.log
          ++ record {
            ip = s.server_ip i;
            client_port = c.port;
            server_port = server_port;
            operation = c.operation;
            status = status;
          }
            ∷ [];
    })
    else undefined s

-- malloc of a list with size 0.
unfoldable pub new_list : M Ptr
new_list s =
    done s.next_list
      (record s { lists = update s.lists s.next_list init_list; next_list = suc s.next_list })

abbrev pub lift_option {ℓ} : {A : Type ℓ} → Option A → M A
lift_option none s = undefined s
lift_option (some a) s = done a s

abbrev pub lift_run {ℓ} : {A : Type ℓ} → Run A → M A
lift_run (ok a) s = done a s
lift_run fault s = undefined s
lift_run out_of_fuel s = stuck s

-- searchWords into the list at an address.
unfoldable pub search_into : Str → Ptr → M (Unit {0})
search_into path p s =
    and_then (lift_option (search_words s.thp path (s.lists p)) s)
      (λ lh s'. done tt (record s' { lists = update s'.lists p lh }))

unfoldable pub cache_get : Str → M Ptr
cache_get path s =
    and_then (lift_run (get path s.cache) s) (λ (p, c) s'. done p (record s' { cache = c }))

unfoldable pub cache_put : Str → Ptr → M (Unit {0})
cache_put path p s =
    and_then (lift_run (put path p s.cache) s) (λ c s'. done tt (record s' { cache = c }))

unfoldable pub cache_remove : Str → M Ptr
cache_remove path s =
    and_then (lift_run (remove_for_delete path s.cache) s)
      (λ (p, c) s'. done p (record s' { cache = c }))

unfoldable pub list_at : Ptr → M LlHead
list_at p s = done (s.lists p) s

unfoldable pub set_list : Ptr → LlHead → M (Unit {0})
set_list p lh s = done tt (record s { lists = update s.lists p lh })

unfoldable pub insert_path : Str → ℤ → M (Unit {0})
insert_path path i s =
    and_then (lift_option (insert_tries3 s.thp path i i i) s)
      (λ t s'. done tt (record s' { thp = t }))

unfoldable pub delete_path : Str → M (Unit {0})
delete_path path s =
    and_then (lift_option (delete_node s.thp path) s) (λ t s'. done tt (record s' { thp = t }))
