-- ===== src/Naming/System/Valid.antt =====
-- The trie of the naming server is valid in every state that it reaches.
use network_file_system_in_c.Base.{
  Bool, Option, eq_of_some, false, if◌then◌else◌, is_neg, leb, ltb, negsuc, none, not, pos, some,
  subst, true, ℕ, ℤ, ◌&&◌, ◌+◌, ◌-◌, ◌==◌, ◌≡◌,
}
use network_file_system_in_c.Naming.Copies.{Copies, mirrors_of}
use network_file_system_in_c.Naming.Dispatch.{post_red}
use network_file_system_in_c.Naming.Kept.{Ends}
use network_file_system_in_c.Naming.Kept.Mirror.{MirrorEnds, mirror-Keeps}
use network_file_system_in_c.Naming.Kept.Primitives.{post_server-Keeps, wait_server-Keeps}
use network_file_system_in_c.Naming.Ports.{
  Taken, exits, find_a_free_port_for_client, first_index, free_port, take_port,
}
use network_file_system_in_c.Naming.Redundancy.{
  is_up, mirror, redundant_round, release_all, wait_red,
}
use network_file_system_in_c.Naming.State.{
  M, Network, Outcome, Server, client_ports, done, post_server, pure, server_ports, stuck,
  undefined, wait_server,
}
use network_file_system_in_c.Naming.System.{
  Reach, Step, going_on, here, joins, leaves, left_by, mirrors, next, registers, serves,
}
use network_file_system_in_c.Naming.System.Kept.{
  KeepsTrie, Valid, and_so, client_lock-Valid, client_master-Valid, client_round-Valid,
  from_handled, one_of, post_red-Valid, register_paths-Valid, rest, server_master-Valid, waits,
}
use network_file_system_in_c.Naming.Threads.{
  Fate, Registration, carries_on, client_accepted, client_called, client_master_round, empty_round,
  find_port, port_taken, post_client_lock, process_ends, register_paths, server_master_round,
  server_up, set_ip, take_free_port, wait_client_lock, wait_master_client, wait_master_server,
}
use network_file_system_in_c.Tries.Valid.{IsValid}

server_up-Valid : (i : ℕ) (up : Bool) → Valid (server_up i up)
server_up-Valid i up s = record { kept = λ h. h }

take_free_port-Valid : (sent : ℤ) → Valid (take_free_port sent)
unfolding find_a_free_port_for_client take_port
take_free_port-Valid sent s = go (first_index (λ i. not (s.client_available i)) client_ports 0)
  where
    go : (o : Option ℕ) → Ends KeepsTrie s (port_taken (take_port s sent o))
    go none = record { kept = λ h. h }
    go (some i) = record { kept = λ h. h }

find_port-Valid : (sent : ℤ) → Valid (find_port sent)
unfolding find_port
find_port-Valid sent = and_so wait_client_lock _ (client_lock-Valid.0) (λ u.
    and_so (take_free_port sent) _ (take_free_port-Valid sent)
      (λ i. and_so post_client_lock (λ u. pure i) (client_lock-Valid.1) (λ u. rest i)))

client_accepted-Valid : (index joined : ℤ) → Valid (client_accepted index joined)
unfolding client_accepted
client_accepted-Valid (negsuc k) joined = rest tt
client_accepted-Valid (pos i) joined = and_so wait_client_lock _ (client_lock-Valid.0) (λ u.
    one_of (is_neg joined) _ _ (λ s. record { kept = λ h. h })
      (and_so post_client_lock _ (client_lock-Valid.1) (λ u. client_master-Valid.1)))

client_called-Valid : (joined : ℤ) (given : Taken) → Valid (client_called joined given)
unfolding client_called
client_called-Valid joined exits = rest process_ends
client_called-Valid joined (free_port i) =
    and_so (client_accepted i joined) _ (client_accepted-Valid i joined) (λ u. rest carries_on)

client_master_round-Valid :
    (called sent joined : ℤ) → Valid (client_master_round called sent joined)
unfolding client_master_round
client_master_round-Valid called sent joined =
    and_so wait_master_client _ (client_master-Valid.0) (λ u.
      one_of (is_neg called) _ _ (rest carries_on)
        (and_so (find_port sent) _ (find_port-Valid sent) (client_called-Valid joined)))

wait_server-Valid : (i : ℕ) → Valid (wait_server i)
wait_server-Valid i = from_handled (wait_server i) (wait_server-Keeps i)

post_server-Valid : (i : ℕ) → Valid (post_server i)
post_server-Valid i = from_handled (post_server i) (post_server-Keeps i)

down_if-Valid : (b : Bool) (i : ℕ) → Valid (if b then server_up i false else pure tt)
down_if-Valid b i = one_of b _ _ (server_up-Valid i false) (rest tt)

server_master_round-Valid :
    (called : ℤ) (ss_nm : Registration) (first second : ℤ)
    → Valid (server_master_round called ss_nm first second)
unfolding server_master_round
server_master_round-Valid called ss_nm first second =
    let i = ss_nm.port - 5200 in
    and_so wait_master_server _ (server_master-Valid.0) (λ u. one_of (is_neg called) _ _ (rest tt) (
      one_of (leb 5200 ss_nm.port && ltb ss_nm.port (5200 + server_ports)) _ _
        (and_so (set_ip i ss_nm.ip) _ (λ s. record { kept = λ h. h })
          (λ u. and_so (register_paths ss_nm.result i) _ (register_paths-Valid ss_nm.result i) (λ u.
            and_so (server_up i true) _ (server_up-Valid i true) (λ u.
              and_so (wait_server i) _ (wait_server-Valid i) (λ u.
                and_so _ _ (down_if-Valid (is_neg first) i) (λ u.
                  and_so _ _ (down_if-Valid (is_neg second) i) (λ u.
                    and_so (post_server i) _ (post_server-Valid i)
                      (λ u. server_master-Valid.1))))))))
        (λ s. tt)))

empty_round-Valid : (i : ℕ) (r : ℤ) → Valid (empty_round i r)
unfolding empty_round
empty_round-Valid i r = one_of (is_neg r) (pure true) _ (rest true) (
    and_so (wait_server i) _ (wait_server-Valid i) (λ u.
      and_so (server_up i false) _ (server_up-Valid i false)
        (λ u. and_so (post_server i) (λ u. pure false) (post_server-Valid i) (λ u. rest false))))

release_all-Valid : (i : ℕ) (k : Copies) → Valid (release_all i k)
unfolding release_all
release_all-Valid i k = and_so (post_server i) _ (post_server-Valid i) (λ u.
    and_so (post_server k.index1) _ (post_server-Valid k.index1) (λ u.
      and_so (post_server k.index2) _ (post_server-Valid k.index2)
        (λ u. and_so post_red (λ u. pure true) post_red-Valid (λ u. rest true))))

module _ (net : Network) where
  mirror-Valid : (i : ℕ) (k : Copies) → Valid (mirror net i k)
  mirror-Valid i k s = go (mirror net i k s) (mirror-Keeps net i k s)
    where
      go : (o : Outcome (Unit {0})) → MirrorEnds net s o → Ends KeepsTrie s o
      go (done a s') h = record { kept = h.handled.valid }
      go (undefined s') h = tt
      go (stuck s') h = record { kept = h.0.handled.valid }

  redundant_round-Valid : (i : ℕ) → Valid (redundant_round net i)
  unfolding redundant_round wait_red
  redundant_round-Valid i =
      let k = mirrors_of i in
      and_so (is_up i) _ (λ s. record { kept = λ h. h })
        (λ up. one_of (not up) (pure false) _ (rest false) (
          and_so wait_red _ (λ s. waits (s.red_lock == 0) s _ (λ h. h))
            (λ u. and_so (wait_server k.index1) _ (wait_server-Valid k.index1) (λ u.
              and_so (wait_server k.index2) _ (wait_server-Valid k.index2) (λ u.
                and_so (wait_server i) _ (wait_server-Valid i) (λ u.
                  and_so (mirror net i k) _ (mirror-Valid i k) (λ u. release_all-Valid i k)))))))

  left_by-IsValid :
      {A : Type 0} (f : M A) (s s' : Server)
      → Valid f
      → left_by (f s) ≡ some s'
      → IsValid s.thp
      → IsValid s'.thp
  unfolding left_by
  left_by-IsValid {A = A} f s s' all e h = go (f s) (all s) e
    where
      go : (o : Outcome A) → Ends KeepsTrie s o → left_by o ≡ some s' → IsValid s'.thp
      go (done a s1) after e = subst (λ x. IsValid x.thp) (eq_of_some e) (after.kept h)
      go (undefined s1) after e = cc
      go (stuck s1) after e = subst (λ x. IsValid x.thp) (eq_of_some e) (after.kept h)

  going_on_left : (o : Outcome Fate) {s' : Server} → going_on o ≡ some s' → left_by o ≡ some s'
  unfolding left_by going_on
  going_on_left (done carries_on s) e = e
  going_on_left (done process_ends s) e = cc
  going_on_left (undefined s) e = cc
  going_on_left (stuck s) e = e

  Step-IsValid : {s s' : Server} → Step net s s' → IsValid s.thp → IsValid s'.thp
  Step-IsValid (serves index r c e) h = left_by-IsValid _ _ _ (client_round-Valid net index r c) e h
  Step-IsValid (joins called sent joined e) h =
      left_by-IsValid _ _ _ (client_master_round-Valid called sent joined) (going_on_left _ e) h
  Step-IsValid (registers called ss_nm first second e) h =
      left_by-IsValid _ _ _ (server_master_round-Valid called ss_nm first second) e h
  Step-IsValid (leaves index r e) h = left_by-IsValid _ _ _ (empty_round-Valid index r) e h
  Step-IsValid (mirrors index e) h = left_by-IsValid _ _ _ (redundant_round-Valid index) e h

  -- In every state that the rounds of the threads lead to, in any order, whatever the clients and the
  -- storage servers send and whatever the system calls return, the trie of the naming server is valid:
  -- its root is there, and every list of ports has the size it says and holds no port twice. The trie
  -- must be valid at the start.
  pub Reach-IsValid : {s s' : Server} → Reach net s s' → IsValid s.thp → IsValid s'.thp
  Reach-IsValid here h = h
  Reach-IsValid (next r st) h = Step-IsValid st (Reach-IsValid r h)
