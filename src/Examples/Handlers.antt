-- ===== src/Examples/Handlers.antt =====
-- Naming_server.c with one storage server up, and a network that answers as the tests say.
use network_file_system_in_c.Base.{
  Str, [], arith, codes, false, ltb, refl, true, ℕ, ℤ, ◌<◌, ◌==◌, ◌∷◌, ◌≡◌,
}
use network_file_system_in_c.Examples.Tries.{a_trie}
use network_file_system_in_c.Lru.{get, init_lru_cache, walk}
use network_file_system_in_c.Lru.Heap.{ok}
use network_file_system_in_c.Naming.State.{Command, Network, Server}
use network_file_system_in_c.Naming.State.Steps.{CanServe, IsClient}
use network_file_system_in_c.Tries.Node.{init_tries}
use network_file_system_in_c.Tries.Ports.{init_list}

-- Every send and every recv gives the same result.
abbrev pub network_of : ℤ → ℤ → Str → Network
network_of sends count text = record {
  send_result = λ i. sends;
  recv_result = λ i. record { count = count; text = text };
  blocks = λ i. false;
  random = λ i. i;
  opens = λ name. true;
  stale = record { operation = []; path1 = []; path2 = []; port = 0 };
}

-- Server 1 is up, server 0 is down, no file is there.
abbrev pub fresh_server : Server
fresh_server = record {
  thp = init_tries;
  cache = init_lru_cache 10;
  lists = λ p. init_list;
  next_list = 1;
  client_available = λ i. i == 0;
  server_available = λ i. i == 1;
  server_ip = λ i. codes "127.0.0.1";
  block_server = λ i. 1;
  block_client = λ i. 1;
  red_lock = 1;
  client_lock = 1;
  master_client_lock = 1;
  master_server_lock = 1;
  sent = [];
  log = [];
  sends = 0;
  recvs = 0;
  rands = 0;
  temp_txt = [];
}

abbrev pub create_a : Command
create_a = record { operation = codes "createfile"; path1 = 97 ∷ []; path2 = []; port = 5101 }

abbrev pub read_a : Command
read_a = record { operation = codes "read"; path1 = 97 ∷ []; path2 = []; port = 5101 }

pub lt_of_ltb : (m n : ℕ) → ltb m n ≡ true → m < n
lt_of_ltb m n h = ground arith

pub create_a-IsClient : IsClient 5101
create_a-IsClient = (ground arith, lt_of_ltb 5101 5106 refl)

pub create_a-CanServe : CanServe create_a 1 fresh_server
create_a-CanServe = (lt_of_ltb 1 6 refl, lt_of_ltb 0 1 refl, create_a-IsClient)

pub a_missed : get read_a.path1 fresh_server.cache ≡ ok (0, fresh_server.cache)
unfolding get walk init_lru_cache
a_missed = refl

-- "a" is on server 0, and nothing is in the cache.
abbrev pub a_server : Server
a_server = record fresh_server { thp = a_trie }
