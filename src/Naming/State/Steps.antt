-- ===== src/Naming/State/Steps.antt =====
-- What the primitive steps of a handler do where they are defined.
use network_file_system_in_c.Base.{
  ==_refl, Bool, Str, [], ap, arith, false, if◌then◌else◌, leb-true, ltb-true, pos, pos_ne_zero,
  refl, some, suc, true, ℕ, ℤ, ◌++◌, ◌+◌, ◌-◌, ◌<◌, ◌==◌, ◌∙◌, ◌∷◌, ◌≡◌, ◌≤◌,
}
use network_file_system_in_c.Lru.{LruCache, get, update}
use network_file_system_in_c.Lru.Heap.{Ptr, ok}
use network_file_system_in_c.Naming.State.{
  Command, LogLine, M, Message, Network, Outcome, Server, and_then, cache_get, done, lift_option,
  lift_run, log_server, post_server, recv, search_into, send, send_client, stuck, wait_server,
}
use network_file_system_in_c.Tries.Ports.{LlHead}
use network_file_system_in_c.Tries.Search.{search_words}

-- One unit of server i's semaphore taken, and given back.
abbrev pub taken : ℕ → Server → Server
taken i s = record s { block_server = update s.block_server i (s.block_server i - 1) }

abbrev pub given : ℕ → Server → Server
given i s = record s { block_server = update s.block_server i (s.block_server i + 1) }

abbrev pub with_sent : Message → Server → Server
with_sent m s = record s { sent = s.sent ++ m ∷ []; sends = suc s.sends }

abbrev pub line_of : Command → ℤ → Str → Server → ℕ → LogLine
line_of c server_port status s i = record {
  ip = s.server_ip i;
  client_port = c.port;
  server_port = server_port;
  operation = c.operation;
  status = status;
}

abbrev pub IsClient : ℕ → Type 0
IsClient port = (5100 ≤ port) × (port < 5106)

pub wait_server_lem :
    (i : ℕ) (s : Server) → i < 6 → 0 < s.block_server i → wait_server i s ≡ done tt (taken i s)
unfolding wait_server
wait_server_lem i s h free = rw (ltb-true i 6 h, pos_ne_zero (s.block_server i) free) refl

pub post_server_lem : (i : ℕ) (s : Server) → i < 6 → post_server i s ≡ done tt (given i s)
unfolding post_server
post_server_lem i s h = rw (ltb-true i 6 h) refl

pub recv_lem :
    (net : Network) (s : Server)
    → net.blocks s.recvs ≡ false
    → recv net s ≡ done (net.recv_result s.recvs) (record s { recvs = suc s.recvs })
unfolding recv
recv_lem net s comes = rw comes refl

pub recv-stuck : (net : Network) (s : Server) → net.blocks s.recvs ≡ true → recv net s ≡ stuck s
unfolding recv
recv-stuck net s hangs = rw hangs refl

pub log_server_lem :
    (c : Command) (i : ℕ) (server_port : ℤ) (status : Str) (s : Server)
    → i < 6
    → log_server c (pos i) server_port status s
      ≡ done tt (record s { log = s.log ++ line_of c server_port status s i ∷ [] })
unfolding log_server
log_server_lem c i server_port status s h = rw (ltb-true i 6 h) refl

pub send_client_lem :
    (net : Network) (port : ℕ) (m : Message) (s : Server)
    → IsClient port
    → send_client net port m s ≡ done (net.send_result s.sends) (with_sent m s)
unfolding send_client send
send_client_lem net port m s (low, high) = rw (leb-true 5100 port low, ltb-true port 5106 high) refl

-- A handler whose first part returns goes on from there.
pub step {ℓ κ} :
    {A : Type ℓ} {B : Type κ} {o : Outcome A} {a : A} {s : Server} (k : A → M B) {r : Outcome B}
    → o ≡ done a s
    → k a s ≡ r
    → and_then o k ≡ r
step k e rest = ap (λ o. and_then o k) e ∙ rest

-- A handler that waits for ever is not left.
pub halts {ℓ κ} :
    {A : Type ℓ} {B : Type κ} {o : Outcome A} {s : Server} (k : A → M B)
    → o ≡ stuck s
    → and_then o k ≡ stuck s
halts k e = ap (λ o. and_then o k) e

-- A handler with a test goes on with one of its branches.
pub then_on {ℓ} :
    {A : Type ℓ} {b : Bool} (m n : M A) {s : Server} {r : Outcome A}
    → b ≡ true
    → m s ≡ r
    → (if b then m else n) s ≡ r
then_on m n {s = s} e run = ap (λ b. (if b then m else n) s) e ∙ run

pub else_on {ℓ} :
    {A : Type ℓ} {b : Bool} (m n : M A) {s : Server} {r : Outcome A}
    → b ≡ false
    → n s ≡ r
    → (if b then m else n) s ≡ r
else_on m n {s = s} e run = ap (λ b. (if b then m else n) s) e ∙ run

pub update_self {ℓ} : {A : Type ℓ} (f : ℕ → A) (i : ℕ) (a : A) → update f i a i ≡ a
update_self f i a = rw (==_refl i) refl

pub cache_get_lem :
    (path : Str) (s : Server) {p : Ptr} {cache : LruCache}
    → get path s.cache ≡ ok (p, cache)
    → cache_get path s ≡ done p (record s { cache = cache })
unfolding cache_get
cache_get_lem path s e =
    ap (λ r. and_then (lift_run r s) (λ (p, c) s'. done p (record s' { cache = c }))) e

pub search_into_lem :
    (path : Str) (p : Ptr) (s : Server) {lh : LlHead}
    → search_words s.thp path (s.lists p) ≡ some lh
    → search_into path p s ≡ done tt (record s { lists = update s.lists p lh })
unfolding search_into
search_into_lem path p s e =
    ap
      (λ o.
        and_then (lift_option o s) (λ lh s'. done tt (record s' { lists = update s'.lists p lh })))
      e

-- The semaphores of the six servers, `given` of them back at server `i`.

abbrev pub held : (ℕ → ℕ) → ℕ → ℕ → ℕ → ℕ
held before i given j = if j == i then before j - 1 + given else before j

-- Server `i` is one of the six and free, and the client's port is one of the six.
abbrev pub CanServe : Command → ℕ → Server → Type 0
CanServe c i s = (i < 6) × (0 < s.block_server i) × IsClient c.port

pub update-held : (f : ℕ → ℕ) (i j : ℕ) → update f i (f i - 1) j ≡ held f i 0 j
update-held f i j = ground arith

pub update-update :
    (f : ℕ → ℕ) (i j : ℕ)
    → 0 < f i
    → update (update f i (f i - 1)) i (update f i (f i - 1) i + 1) j ≡ f j
update-update f i j h = ground arith
