-- ===== src/Naming/Kept/Rounds.antt =====
-- Every round of the threads of the naming server keeps the trie valid.
use network_file_system_in_c.Base.{
  ap, arith, if◌then◌else◌, ltb-true, pos_ne_zero, ℕ, ◌+◌, ◌-◌, ◌<◌, ◌==◌, ◌∙◌, ◌≡◌,
}
use network_file_system_in_c.Lru.{update}
use network_file_system_in_c.Naming.Dispatch.{
  Request, command_processor, copydir_request, copyfile_request, create_request, delete_request,
  handle, info_request, ls_request, no_request, post_client, post_red, read_request, request_of,
  try_red, wait_client, write_request,
}
use network_file_system_in_c.Naming.Kept.{Ends}
use network_file_system_in_c.Naming.Kept.Copy.{copy_functionality-Keeps}
use network_file_system_in_c.Naming.Kept.CopyDir.{copy_dir_functionality-Keeps}
use network_file_system_in_c.Naming.Kept.Create.{create_functionality-Keeps}
use network_file_system_in_c.Naming.Kept.Delete.{delete_file_functionality-Keeps}
use network_file_system_in_c.Naming.Kept.Open.{
  info_functionality-Keeps, ls_functionality-Keeps, read_functionality-Keeps,
  write_functionality-Keeps,
}
use network_file_system_in_c.Naming.Kept.Primitives.{Handled, KeepsAll, nothing_done}
use network_file_system_in_c.Naming.State.{
  Command, Network, Outcome, Server, and_then, done, stuck, undefined, ◌>>=◌,
}
use network_file_system_in_c.Naming.State.Steps.{update-update}

red_after : (n : ℕ) → n - 1 + 1 ≡ (if n == 0 then 1 else n)
red_after n = ground arith

-- The handlers of the commands, and a command of a client with its semaphores: red_lock is raised by one
-- if it was 0, since a trywait that has failed is followed by a post all the same.
module _ (net : Network) where
  pub handle-Keeps : (request : Request) (c : Command) → KeepsAll (handle net request c)
  unfolding handle
  handle-Keeps create_request c = create_functionality-Keeps net c
  handle-Keeps delete_request c = delete_file_functionality-Keeps net c
  handle-Keeps read_request c = read_functionality-Keeps net c
  handle-Keeps write_request c = write_functionality-Keeps net c
  handle-Keeps info_request c = info_functionality-Keeps net c
  handle-Keeps ls_request c = ls_functionality-Keeps net c
  handle-Keeps copyfile_request c = copy_functionality-Keeps net c
  handle-Keeps copydir_request c = copy_dir_functionality-Keeps net c
  handle-Keeps no_request c = nothing_done tt

  -- What a command of the client at an index leaves, and what it holds where it waits for ever.
  abbrev pub Processed : ℕ → Server → Outcome (Unit {0}) → Type 0
  Processed i s (done u s') =
      (s'.red_lock ≡ (if s.red_lock == 0 then 1 else s.red_lock))
      × ((j : ℕ) → s'.block_client j ≡ s.block_client j)
      × (s'.client_available ≡ s.client_available)
      × (s'.server_available ≡ s.server_available)
  Processed i s (undefined s') = Unit
  Processed i s (stuck s') =
      (s'.red_lock ≡ s.red_lock - 1)
      × (s'.block_client ≡ update s.block_client i (s.block_client i - 1))

  -- A command of a client on one of the six ports whose semaphore is free, whatever it is and whatever
  -- the network does. If it returns, then the semaphores of the clients and the marks of what is
  -- connected are as before, and so is red_lock if it was not 0; if that was 0, held by the redundancy
  -- thread, it is 1 afterwards: the command has not waited for it, and has given back what it had not
  -- taken. If it waits for ever, it still holds red_lock and the semaphore of the client. Nothing is
  -- said of undefined behaviour.
  pub command_processor_lem :
      (c : Command) (i : ℕ) (s : Server)
      → i < 6
      → 0 < s.block_client i
      → Processed i s (command_processor net c i s)
  unfolding command_processor wait_client try_red post_red post_client
  command_processor_lem c i s h free =
      rw (ltb-true i 6 h, pos_ne_zero (s.block_client i) free)
        (go (handle net (request_of c.operation) c _) (handle-Keeps (request_of c.operation) c _))
    where
      go :
          (o : Outcome (Unit {0}))
          → Ends Handled
              (record s {
                block_client = update s.block_client i (s.block_client i - 1);
                red_lock = s.red_lock - 1;
              })
              o
          → Processed i s (and_then o (λ u. post_red >>= λ u. post_client i))
      go (done u s') kept =
          let k : Handled
              (record s {
                block_client = update s.block_client i (s.block_client i - 1);
                red_lock = s.red_lock - 1;
              })
              s' =
            kept in
          rw (ltb-true i 6 h) (
            ap (λ n. n + 1) k.red ∙ red_after s.red_lock,
            λ j. ap (λ f. update f i (f i + 1) j) k.clients ∙ update-update s.block_client i j free,
            k.available.0,
            k.available.1,
          )
      go (undefined s') kept = tt
      go (stuck s') kept =
          let k : Handled
              (record s {
                block_client = update s.block_client i (s.block_client i - 1);
                red_lock = s.red_lock - 1;
              })
              s' =
            kept in
          (k.red, k.clients)
