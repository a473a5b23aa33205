-- ===== src/Naming/Kept/Primitives.antt =====
-- What the primitive steps of a handler keep.
use network_file_system_in_c.Base.{
  Bool, Bool-cases, List, Option, Str, if◌then◌else◌, inl, inr, leb, ltb, negsuc, none, not, pos,
  refl, some, ℕ, ℤ, ◌&&◌, ◌==◌, ◌∙◌, ◌≡◌,
}
use network_file_system_in_c.Lru.{LruCache, get, put, remove_for_delete, update}
use network_file_system_in_c.Lru.Heap.{Ptr, Run, fault, ok, out_of_fuel}
use network_file_system_in_c.Naming.Kept.{
  Ends, IsOrder, Keeps, and_then-Ends, bind-Keeps, if-Keeps, pure-Keeps,
}
use network_file_system_in_c.Naming.State.{
  Command, LogLine, M, Message, Network, Server, and_then, cache_get, cache_put, cache_remove,
  delete_path, done, insert_path, lift_option, lift_run, list_at, log_plain, log_server, new_list,
  post_server, pure, recv, search_into, send, send_client, set_list, undefined, wait_server, ◌>>=◌,
}
use network_file_system_in_c.Tries.Delete.{delete_node}
use network_file_system_in_c.Tries.Insert.{insert_tries3}
use network_file_system_in_c.Tries.Node.{TriesHead}
use network_file_system_in_c.Tries.Ports.{LlHead}
use network_file_system_in_c.Tries.Search.{search_words}
use network_file_system_in_c.Tries.Valid.{IsValid, delete_node-IsValid, insert_tries3-IsValid}

-- A valid trie stays valid, and the semaphores of the clients, red_lock, the locks of the threads and
-- the marks of the servers and clients that are connected do not change.
pub record Handled (s s' : Server) : Type 0 where
  pub valid : IsValid s.thp → IsValid s'.thp
  pub clients : s'.block_client ≡ s.block_client
  pub red : s'.red_lock ≡ s.red_lock
  pub client : s'.client_lock ≡ s.client_lock
  pub masters :
      (s'.master_client_lock ≡ s.master_client_lock)
      × (s'.master_server_lock ≡ s.master_server_lock)
  pub available :
      (s'.client_available ≡ s.client_available) × (s'.server_available ≡ s.server_available)

pub Handled-IsOrder : IsOrder Handled
Handled-IsOrder = record {
  same = λ s. record {
    valid = λ h. h;
    clients = refl;
    red = refl;
    client = refl;
    masters = (refl, refl);
    available = (refl, refl);
  };
  chain = λ {s} {t} {u} a b. record {
    valid = λ h. b.valid (a.valid h);
    clients = b.clients ∙ a.clients;
    red = b.red ∙ a.red;
    client = b.client ∙ a.client;
    masters = (b.masters.0 ∙ a.masters.0, b.masters.1 ∙ a.masters.1);
    available = (b.available.0 ∙ a.available.0, b.available.1 ∙ a.available.1);
  };
}

-- The rest of the state is free.
pub still :
    (s : Server) (cache : LruCache) (lists : Ptr → LlHead) (next_list : Ptr) (block : ℕ → ℕ)
    (sent : List Message) (log : List LogLine) (sends recvs rands : ℕ) (temp : Str)
    → Handled s (record s {
      cache = cache;
      lists = lists;
      next_list = next_list;
      block_server = block;
      sent = sent;
      log = log;
      sends = sends;
      recvs = recvs;
      rands = rands;
      temp_txt = temp;
    })
still s cache lists next_list block sent log sends recvs rands temp = record {
  valid = λ h. h;
  clients = refl;
  red = refl;
  client = refl;
  masters = (refl, refl);
  available = (refl, refl);
}

pub with_trie :
    (s : Server) (t : TriesHead) → (IsValid s.thp → IsValid t) → Handled s (record s { thp = t })
with_trie s t keeps = record {
  valid = keeps;
  clients = refl;
  red = refl;
  client = refl;
  masters = (refl, refl);
  available = (refl, refl);
}

abbrev pub KeepsAll : {A : Type 0} → M A → Type 0
KeepsAll f = Keeps Handled f

pub wait_server-Keeps : (i : ℕ) → KeepsAll (wait_server i)
unfolding wait_server
wait_server-Keeps i s = elim (Bool-cases (not (ltb i 6))) [
  | inl out ↦ rw out tt
  | inr within ↦ elim (Bool-cases (s.block_server i == 0)) [
    | inl zero_ ↦ rw (within, zero_) (Handled-IsOrder.same s)
    | inr free ↦ rw (within, free) (still s _ _ _ _ _ _ _ _ _ _)
  ]
]

pub post_server-Keeps : (i : ℕ) → KeepsAll (post_server i)
unfolding post_server
post_server-Keeps i s = elim (Bool-cases (ltb i 6)) [
  | inl within ↦ rw within (still s _ _ _ _ _ _ _ _ _ _)
  | inr out ↦ rw out tt
]

pub send-Keeps : (net : Network) (m : Message) → KeepsAll (send net m)
unfolding send
send-Keeps net m s = still s _ _ _ _ _ _ _ _ _ _

pub send_client-Keeps : (net : Network) (port : ℕ) (m : Message) → KeepsAll (send_client net port m)
unfolding send_client
send_client-Keeps net port m s = elim (Bool-cases (leb 5100 port && ltb port 5106)) [
  | inl within ↦ rw within (send-Keeps net m s)
  | inr out ↦ rw out tt
]

pub recv-Keeps : (net : Network) → KeepsAll (recv net)
unfolding recv
recv-Keeps net s = elim (Bool-cases (net.blocks s.recvs)) [
  | inl hangs ↦ rw hangs (still s _ _ _ _ _ _ _ _ _ _)
  | inr comes ↦ rw comes (still s _ _ _ _ _ _ _ _ _ _)
]

pub log_plain-Keeps : (c : Command) (port : ℤ) (said : Str) → KeepsAll (log_plain c port said)
unfolding log_plain
log_plain-Keeps c port said s = still s _ _ _ _ _ _ _ _ _ _

pub log_server-Keeps : (c : Command) (i port : ℤ) (said : Str) → KeepsAll (log_server c i port said)
unfolding log_server
log_server-Keeps c (negsuc k) port said s = tt
log_server-Keeps c (pos i) port said s = elim (Bool-cases (ltb i 6)) [
  | inl within ↦ rw within (still s _ _ _ _ _ _ _ _ _ _)
  | inr out ↦ rw out tt
]

pub new_list-Keeps : KeepsAll new_list
unfolding new_list
new_list-Keeps s = still s _ _ _ _ _ _ _ _ _ _

pub list_at-Keeps : (p : Ptr) → KeepsAll (list_at p)
unfolding list_at
list_at-Keeps p s = Handled-IsOrder.same s

pub set_list-Keeps : (p : Ptr) (lh : LlHead) → KeepsAll (set_list p lh)
unfolding set_list
set_list-Keeps p lh s = still s _ _ _ _ _ _ _ _ _ _

pub lift_option-Keeps : {A : Type 0} (o : Option A) → KeepsAll (lift_option o)
lift_option-Keeps none s = tt
lift_option-Keeps (some a) s = Handled-IsOrder.same s

pub lift_run-Keeps : {A : Type 0} (r : Run A) → KeepsAll (lift_run r)
lift_run-Keeps (ok a) s = Handled-IsOrder.same s
lift_run-Keeps fault s = tt
lift_run-Keeps out_of_fuel s = Handled-IsOrder.same s

pub search_into-Keeps : (path : Str) (p : Ptr) → KeepsAll (search_into path p)
unfolding search_into
search_into-Keeps path p s =
    and_then-Ends Handled Handled-IsOrder s _
      (λ lh s'. done tt (record s' { lists = update s'.lists p lh }))
      (lift_option-Keeps (search_words s.thp path (s.lists p)) s)
      (λ lh s'. still s' _ _ _ _ _ _ _ _ _ _)

pub cache_get-Keeps : (path : Str) → KeepsAll (cache_get path)
unfolding cache_get
cache_get-Keeps path s =
    and_then-Ends Handled Handled-IsOrder s _ (λ (p, c) s'. done p (record s' { cache = c }))
      (lift_run-Keeps (get path s.cache) s) (λ (p, c) s'. still s' _ _ _ _ _ _ _ _ _ _)

pub cache_put-Keeps : (path : Str) (p : Ptr) → KeepsAll (cache_put path p)
unfolding cache_put
cache_put-Keeps path p s =
    and_then-Ends Handled Handled-IsOrder s _ (λ c s'. done tt (record s' { cache = c }))
      (lift_run-Keeps (put path p s.cache) s) (λ c s'. still s' _ _ _ _ _ _ _ _ _ _)

pub cache_remove-Keeps : (path : Str) → KeepsAll (cache_remove path)
unfolding cache_remove
cache_remove-Keeps path s =
    and_then-Ends Handled Handled-IsOrder s _ (λ (p, c) s'. done p (record s' { cache = c }))
      (lift_run-Keeps (remove_for_delete path s.cache) s)
      (λ (p, c) s'. still s' _ _ _ _ _ _ _ _ _ _)

-- A value of the state, or one that it may have.
pub observe : {A : Type 0} (f : Server → A) → KeepsAll (λ s. done (f s) s)
observe f s = Handled-IsOrder.same s

pub observe_option : {A : Type 0} (f : Server → Option A) → KeepsAll (λ s. lift_option (f s) s)
observe_option f s = lift_option-Keeps (f s) s

-- A new trie, that comes from the old one.
pub trie-Ends :
    (s : Server) (o : Option TriesHead)
    → ((t : TriesHead) → o ≡ some t → IsValid s.thp → IsValid t)
    → Ends Handled s (and_then (lift_option o s) (λ t s'. done tt (record s' { thp = t })))
trie-Ends s none keeps = tt
trie-Ends s (some t) keeps = with_trie s t (keeps t refl)

pub insert_path-Keeps : (path : Str) (i : ℤ) → KeepsAll (insert_path path i)
unfolding insert_path
insert_path-Keeps path i s =
    trie-Ends s (insert_tries3 s.thp path i i i)
      (λ t e h. (insert_tries3-IsValid s.thp path i i i h e).0)

pub delete_path-Keeps : (path : Str) → KeepsAll (delete_path path)
unfolding delete_path
delete_path-Keeps path s =
    trie-Ends s (delete_node s.thp path) (λ t e h. delete_node-IsValid s.thp path h e)

-- Two steps, and a test.
pub seq :
    {A B : Type 0} (f : M A) (k : A → M B)
    → KeepsAll f
    → ((a : A) → KeepsAll (k a))
    → KeepsAll (f >>= k)
seq = bind-Keeps Handled Handled-IsOrder

pub branch :
    {A : Type 0} (b : Bool) (f g : M A) → KeepsAll f → KeepsAll g → KeepsAll (if b then f else g)
branch = if-Keeps Handled Handled-IsOrder

pub nothing_done : {A : Type 0} (a : A) → KeepsAll (pure a)
nothing_done = pure-Keeps Handled Handled-IsOrder

pub faulty : (A : Type 0) → KeepsAll {A = A} undefined
faulty A s = tt
