-- ===== src/Naming/Redundancy.antt =====
-- redundant_copy: the folder "main" of a storage server goes into the copy folders of the two others
-- of its group.
use network_file_system_in_c.Base.{
  Bool, List, Option, Str, [], codes, false, if◌then◌else◌, is_empty_str, is_neg, none, not, pos,
  pos_part, some, str_eq, suc, take, true, zero, ℕ, ◌-◌, ◌==◌, ◌∷◌,
}
use network_file_system_in_c.Naming.Copies.{Copies, mirrors_of}
use network_file_system_in_c.Naming.Copy.{ends_within, has_nul}
use network_file_system_in_c.Naming.Copy.Text.{atoi, chunk_count}
use network_file_system_in_c.Naming.CopyDir.{before_nul}
use network_file_system_in_c.Naming.Dispatch.{post_red}
use network_file_system_in_c.Naming.State.{
  Command, M, Network, Reply, chunk, command, done, lift_option, post_server, pure, recv, send,
  stuck, wait_server, ◌>>=◌, ◌>>◌,
}
use network_file_system_in_c.Tries.Listing.{TrieContent}
use network_file_system_in_c.Tries.Node.{TriesHead, init_tries}
use network_file_system_in_c.Tries.Register.{copied_fn, tokenize_and_print}

unfoldable pub wait_red : M (Unit {0})
wait_red s = if s.red_lock == 0 then stuck s else done tt (record s { red_lock = s.red_lock - 1 })

abbrev pub is_up : ℕ → M Bool
is_up i s = done (s.server_available i) s

-- The port -1, as the 32 bits of an int.
abbrev pub no_port : ℕ
no_port = 4294967295

abbrev pub red_command : Str → Str → Str → Command
red_command operation path1 path2 = record {
  operation = operation;
  path1 = path1;
  path2 = path2;
  port = no_port;
}

-- A buffer of calloc with what a recv has brought, as the text before its NUL. Nothing comes with a
-- recv that fails; a buffer of 8192 bytes without a NUL is read past its end.
unfoldable pub text_of : Reply → Option Str
text_of r =
    let bytes = take (pos_part r.count) r.text in
    if ends_within bytes then some (before_nul bytes) else none

-- The 4096 bytes of the list are not cleared before: they must bring their NUL.
unfoldable pub list_of : Reply → Option Str
list_of r =
    let bytes = take (pos_part r.count) r.text in
    if has_nul bytes then some (before_nul bytes) else none

-- The locks at the end of a round, which goes on.
unfoldable pub release_all : ℕ → Copies → M Bool
release_all index k = do
  post_server index
  post_server k.index1
  post_server k.index2
  post_red
  pure true

module _ (net : Network) where
  abbrev pub tell : ℕ → Command → M (Unit {0})
  tell i c = send net (command i c) >> pure tt

  -- The copy folder of a server that is up is deleted, and made again.
  unfoldable pub clear_copy : ℕ → Str → M (Unit {0})
  clear_copy i copy = do
    up ← is_up i
    if up then tell i (red_command (codes "deletereddir") copy []) else pure tt

  -- The paths of the server, from the server itself. It holds every one of them.
  unfoldable pub list_main : ℕ → M TriesHead
  list_main index = do
    up ← is_up index
    if up
        then (do
          tell index (red_command (codes "getMain") [] [])
          r ← recv net
          text ← lift_option (list_of r)
          lift_option (tokenize_and_print init_tries text 10 (pos index)))
        else pure init_tries

  -- A chunk of a file, for both servers. The command to the second one is that to the first.
  unfoldable pub mirror_chunk : Copies → Str → M (Unit {0})
  mirror_chunk k path = do
    r ← recv net
    text ← lift_option (text_of r)
    tell k.index1 (red_command (codes "copyREDfile") path k.p1)
    tell k.index2 (red_command (codes "copyREDfile") path k.p1)
    s ← send net (chunk k.index1 text)
    s ← send net (chunk k.index2 text)
    pure tt

  unfoldable pub mirror_chunks : Copies → Str → ℕ → M (Unit {0})
  mirror_chunks k path zero = pure tt
  mirror_chunks k path (suc n) = mirror_chunk k path >> mirror_chunks k path n

  unfoldable pub mirror_text : ℕ → Copies → Str → M (Unit {0})
  mirror_text index k path = do
    tell index (record net.stale { operation = codes "copyfileread"; path1 = path })
    r ← recv net
    if is_neg r.count then pure tt else mirror_chunks k path (pos_part (chunk_count (atoi r.text)))

  abbrev pub make_both : Copies → Str → Str → M (Unit {0})
  make_both k operation path =
      tell k.index1 (red_command operation path k.p1)
      >> tell k.index2 (red_command operation path k.p2)

  -- "DIR", "FILE" or nothing, in the answer of the server to getsizdir.
  unfoldable pub ask_kind : ℕ → Str → M Str
  ask_kind index path = do
    tell index (record net.stale { operation = codes "getsizdir"; path1 = path })
    r ← recv net
    if is_neg r.count then pure [] else (do r2 ← recv net; lift_option (text_of r2))

  unfoldable pub mirror_entry : ℕ → Copies → TrieContent → M (Unit {0})
  mirror_entry index k entry = do
    text ← ask_kind index entry.val
    if str_eq text (codes "DIR") then make_both k (codes "createREDdir") entry.val else (do
      make_both k (codes "createREDfile") entry.val
      if is_empty_str text then pure tt else mirror_text index k entry.val)

  unfoldable pub mirror_entries : ℕ → Copies → List TrieContent → M (Unit {0})
  mirror_entries index k [] = pure tt
  mirror_entries index k (entry ∷ entries) =
      mirror_entry index k entry >> mirror_entries index k entries

  -- What is done while the locks are held.
  unfoldable pub mirror : ℕ → Copies → M (Unit {0})
  mirror index k = do
    clear_copy k.index1 k.p1
    clear_copy k.index2 k.p2
    temp ← list_main index
    entries ← lift_option (copied_fn temp [])
    mirror_entries index k entries

  -- One round, every 120 seconds: does it go on?
  unfoldable pub redundant_round : ℕ → M Bool
  redundant_round index = do
    let k = mirrors_of index
    up ← is_up index
    if not up then pure false else (do
      wait_red
      wait_server k.index1
      wait_server k.index2
      wait_server index
      mirror index k
      release_all index k)
