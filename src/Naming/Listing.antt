-- ===== src/Naming/Listing.antt =====
-- JustLS and Lsfunctionality: the listing goes into a file, and from there to the client in packets
-- of at most 512 bytes.
pub mod Sent
use network_file_system_in_c.Base.{
  List, Str, [], codes, drop, if◌then◌else◌, is_empty_str, length, suc, take, zero, ℕ, ◌++◌, ◌+◌,
  ◌/◌, ◌∷◌,
}
use network_file_system_in_c.Naming.Delete.{acknowledge}
use network_file_system_in_c.Naming.State.{
  Command, M, Network, and_then, done, lift_option, packet, pure, send_client, undefined, ◌>>=◌,
  ◌>>◌,
}
use network_file_system_in_c.Tries.Listing.{print_tries_file}
use network_file_system_in_c.Tries.Listing.Ended.{below}
use network_file_system_in_c.Tries.Node.{Tries, is_null}
use network_file_system_in_c.Tries.Search.{folder_at}

-- The text of a file, from its lines.
abbrev pub unlines : List Str → Str
unlines [] = []
unlines (line ∷ lines) = line ++ 10 ∷ unlines lines

-- What `k` calls of fread find in the rest of the file.
unfoldable pub packets : ℕ → Str → List Str
packets zero bytes = []
packets (suc k) bytes = take 512 bytes ∷ packets k (drop 512 bytes)

-- fileSize / 512 + 1
abbrev pub iterations : Str → ℕ
iterations bytes = length bytes / 512 + 1

module _ (net : Network) where
  unfoldable pub send_packets : ℕ → ℕ → List Str → M (Unit {0})
  send_packets port total [] = pure tt
  send_packets port total (p ∷ ps) = do
    s ← send_client net port (packet port (length p) total p)
    send_packets port total ps

  -- fopen, printTriesFile below `t` with `val` in front, and the packets. A file that does not open
  -- is written to all the same.
  unfoldable pub send_listing : Command → Str → Tries → Str → M (Unit {0})
  send_listing c file t val =
      let bytes = unlines (print_tries_file t val []) in
      if net.opens file
      then send_packets c.port (iterations bytes) (packets (iterations bytes) bytes)
      else undefined

  unfoldable pub just_ls : Command → M (Unit {0})
  just_ls c = do
    thp ← λ s. done s.thp s
    send_listing c (codes "ls") thp.head []
    acknowledge net c (codes "YES")

  unfoldable pub ls_functionality : Command → M (Unit {0})
  ls_functionality c = if is_empty_str c.path1 then just_ls c else (do
    below ← λ s. and_then (lift_option (folder_at s.thp c.path1) s) done
    if is_null below then acknowledge net c (codes "NO") else (do
      send_listing c c.path1 below (c.path1 ++ b'/' ∷ [])
      acknowledge net c (codes "YES")))
