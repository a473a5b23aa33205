-- ===== src/Naming/Open/Held.antt =====
-- How long a storage server is held for a client (Naming_server.c, Writefunctionality and the
-- other two: what follows the choice of the server).
use network_file_system_in_c.Base.{
  Bool, Bool-cases, Str, [], arith, if◌then◌else◌, inl, inr, is_neg, not, pos, refl, ℕ, ◌&&◌, ◌++◌,
  ◌||◌, ◌∷◌, ◌≡◌,
}
use network_file_system_in_c.Naming.Open.{serve}
use network_file_system_in_c.Naming.State.{Command, Network, Server, done, place, stuck}
use network_file_system_in_c.Naming.State.Steps.{
  CanServe, else_on, halts, held, log_server_lem, post_server_lem, recv-stuck, recv_lem,
  send_client_lem, step, then_on, wait_server_lem,
}

-- How often the server is given back.
abbrev pub given_back : Bool → Bool → ℕ
given_back unsent hangs = if unsent || hangs then 0 else 1

-- A request of a client that is sent to a free server: its place is the last message. The handler returns
-- and gives the server back if the client's answer comes. It returns and keeps the server if the
-- place cannot be sent, and waits for ever with the server taken if it is sent and no answer comes.
-- The semaphores of the other servers are as before.
pub serve_lem :
    (net : Network) (c : Command) (i : ℕ) (extra : Str) (s : Server)
    → CanServe c i s
    → let unsent = is_neg (net.send_result s.sends) in
      let hangs = net.blocks s.recvs in
      (s' : Server) × (serve net c i extra s
        ≡ (if not unsent && hangs then stuck s' else done tt s'))
      × (s'.sent ≡ s.sent ++ place c.port (s.server_ip i) extra (pos i) ∷ [])
      × ((j : ℕ) → s'.block_server j ≡ held s.block_server i (given_back unsent hangs) j)
unfolding serve
serve_lem net c i extra s (h, free, client) = elim (Bool-cases (is_neg (net.send_result s.sends))) [
  | inl e ↦ rw e (
    _,
    step _ (wait_server_lem i s h free) (
        step _ (send_client_lem net c.port _ _ client)
          (then_on _ _ e (log_server_lem c i _ _ _ h))),
    refl,
    λ j. ground arith,
  )
  | inr e ↦ elim (Bool-cases (net.blocks s.recvs)) [
    | inl w ↦
        rw (e, w)
          (
            _,
            step _ (wait_server_lem i s h free) (
                step _ (send_client_lem net c.port _ _ client)
                  (else_on _ _ e (halts _ (recv-stuck net _ w)))),
            refl,
            λ j. ground arith,
          )
    | inr w ↦
        rw (e, w)
          (
            _,
            step _ (wait_server_lem i s h free) (
                step _ (send_client_lem net c.port _ _ client) (
                  else_on _ _ e (
                    step _ (recv_lem net _ w)
                      (step _ (post_server_lem i _ h) (log_server_lem c i _ _ _ h))))),
            refl,
            λ j. ground arith,
          )
  ]
]
