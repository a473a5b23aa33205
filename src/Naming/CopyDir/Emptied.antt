-- ===== src/Naming/CopyDir/Emptied.antt =====
-- A file without a text in a copydir (Naming_server.c, copydirfunctionality).
-- The command that makes the new file.
use network_file_system_in_c.Base.{
  All, IsAscii, Str, [], ap, arith, codes, false, is_pos, is_pos-eq_int, is_pos-is_neg, length, ltb,
  ltb-true, not, pos, refl, str_eq, suc, tokens, true, ℕ, ℤ, ◌&&◌, ◌++◌, ◌+◌, ◌-◌, ◌<◌, ◌==◌, ◌∙◌,
  ◌∷◌, ◌≡◌,
}
use network_file_system_in_c.Lru.{update}
use network_file_system_in_c.Naming.CopyDir.{
  Fetched, copy_answered, copy_entry_from, create_copy, create_copy_on, finish_file, fits_256,
  insert_copy, made, proceed, with_slashes, write_copy,
}
use network_file_system_in_c.Naming.Create.Closed.{update-twice}
use network_file_system_in_c.Naming.Create.Prefixes.{insert_prefixes_lem, prefixes}
use network_file_system_in_c.Naming.Ports.{find_storage_server_port}
use network_file_system_in_c.Naming.State.{Command, Network, Server, command, done, pure, send}
use network_file_system_in_c.Naming.State.Steps.{
  else_on, given, held, log_server_lem, post_server_lem, recv_lem, step, then_on, wait_server_lem,
}
use network_file_system_in_c.Tries.Register.Found.{IsRegistered}
use network_file_system_in_c.Tries.Valid.{IsValid}

abbrev pub make_command : Command → Str → Str → Command
make_command c operation newpath = record {
  operation = operation;
  path1 = newpath;
  path2 = [];
  port = c.port;
}

-- A storage server whose answer comes, and is yes.
abbrev pub Agrees : Network → Server → Type 0
Agrees net s =
    (is_pos (net.send_result s.sends) ≡ true)
    × (net.blocks s.recvs ≡ false)
    × (is_pos (net.recv_result s.recvs).count ≡ true)
    × ((net.recv_result s.recvs).text ≡ codes "YES")

module _ (net : Network) where
  -- The new path goes into the trie, and the server is given back.
  create_copy-made :
      (c : Command) (operation newpath : Str) (index : ℤ) (i : ℕ) (s : Server)
      → find_storage_server_port net s ≡ done (pos i) (record s { rands = suc s.rands })
      → i < 6
      → 0 < s.block_server i
      → Agrees net s
      → fits_256 newpath ≡ true
      → fits_256 (with_slashes (tokens 47 newpath)) ≡ true
      → IsValid s.thp
      → All IsAscii (prefixes (tokens 47 newpath) [])
      → (s' : Server) × (create_copy net c operation newpath index s ≡ done (made i) s')
        × (s'.sent ≡ s.sent ++ command i (make_command c operation newpath) ∷ [])
        × (s'.block_server
            ≡ update
                (update s.block_server i (s.block_server i - 1))
                i
                (update s.block_server i (s.block_server i - 1) i + 1))
        × All (IsRegistered (pos i) s'.thp) (prefixes (tokens 47 newpath) [])
        × ((v : Str) → IsRegistered (pos i) s.thp v → IsRegistered (pos i) s'.thp v)
  unfolding create_copy create_copy_on copy_answered insert_copy send
  create_copy-made c operation newpath index i s chosen h free (sent, comes, came, says) fits fits2
        valid ascii =
      let s4 : Server = record s {
        rands = suc s.rands;
        block_server = update s.block_server i (s.block_server i - 1);
        sent = s.sent ++ command i (make_command c operation newpath) ∷ [];
        sends = suc s.sends;
        recvs = suc s.recvs;
      } in
      let both_fit : (fits_256 newpath && fits_256 (with_slashes (tokens 47 newpath))) ≡ true =
        rw (fits, fits2) refl in
      let (thp', run, valid', all, kept) =
        insert_prefixes_lem (pos i) (tokens 47 newpath) [] s4 valid ascii in
      (
        _,
        step _ chosen (
            step _ (wait_server_lem i _ h free) (
              else_on _ _ (is_pos-is_neg (net.send_result s.sends) sent) (
                else_on _ _ (is_pos-eq_int (net.send_result s.sends) sent) (
                  step _ (recv_lem net _ comes) (
                    else_on _ _ (is_pos-is_neg (net.recv_result s.recvs).count came) (
                      else_on _ _ (is_pos-eq_int (net.recv_result s.recvs).count came) (
                        then_on _ _ (ap (λ t. str_eq t (codes "YES")) says) (
                          then_on _ _ both_fit (
                            step _ run (
                              step _ (log_server_lem c i _ _ _ h)
                                (step _ (post_server_lem i _ h) refl))))))))))),
        refl,
        refl,
        all,
        kept,
      )

  -- An entry of the folder that has brought no text, where the storage server that is drawn is free and
  -- makes the new file: the loop goes on, the new path and its prefixes are in the trie with that
  -- server, and what was registered for it still is. The server gets the one command and is given
  -- back twice, so that its semaphore has one unit more than before; the others are as before. The
  -- new path must be ASCII and fit, with a slash behind it, into 256 bytes.
  pub copy_entry_from-emptied :
      (c : Command) (newpath : Str) (index : ℤ) (f : Fetched) (i : ℕ) (s : Server)
      → f.checker ≡ 0
      → str_eq f.text (codes "DIR") ≡ false
      → find_storage_server_port net s ≡ done (pos i) (record s { rands = suc s.rands })
      → i < 6
      → 0 < s.block_server i
      → Agrees net s
      → length newpath < 256
      → fits_256 (with_slashes (tokens 47 newpath)) ≡ true
      → IsValid s.thp
      → All IsAscii (prefixes (tokens 47 newpath) [])
      → (s' : Server) × (copy_entry_from net c newpath index f s ≡ done proceed s')
        × (s'.sent ≡ s.sent ++ command i (make_command c (codes "createfile") newpath) ∷ [])
        × ((j : ℕ) → s'.block_server j ≡ held s.block_server i 2 j)
        × All (IsRegistered (pos i) s'.thp) (prefixes (tokens 47 newpath) [])
        × ((v : Str) → IsRegistered (pos i) s.thp v → IsRegistered (pos i) s'.thp v)
  unfolding copy_entry_from finish_file
  copy_entry_from-emptied c newpath index f i s empty is_file chosen h free agrees short fits2 valid
        ascii =
      let short2 : not (ltb (length newpath) 512) ≡ false =
        ap not (ltb-true (length newpath) 512 (omega (arith, short))) in
      let (s5, made_it, sent, back, all, kept) =
        create_copy-made c (codes "createfile") newpath index i s chosen h free agrees
          (ltb-true (length newpath) 256 short) fits2 valid ascii in
      (
        given i s5,
        else_on _ _ short2 (
            else_on _ _ is_file (
              step _ made_it (
                step _
                  (then_on {b = f.checker == 0} (pure tt) (write_copy net c newpath f.size_f i)
                    (rw empty refl) refl)
                  (step _ (post_server_lem i s5 h) refl)))),
        sent,
        λ j. ap (λ g. update g i (g i + 1) j) back ∙ update-twice s.block_server i j free,
        all,
        kept,
      )
