-- ===== src/Storage/Transfer/Copied.antt =====
-- A file from one storage server to another: process_file sends it, receive_file writes it.
use mathlib.Core.List.{append-nil, append_assoc}
use network_file_system_in_c.Base.{
  List, Str, [], ap, arith, codes, drop, false, length, map, pos, refl, some, suc, sym, true, zero,
  ℕ, ◌++◌, ◌+◌, ◌/◌, ◌<◌, ◌^◌, ◌∙◌, ◌∷◌, ◌≡◌,
}
use network_file_system_in_c.Naming.Copy.{pieces}
use network_file_system_in_c.Naming.Copy.Stored.{pieces-concat, take_all}
use network_file_system_in_c.Naming.Copy.Text.{atoi, chunk_count, float_of_small, show_int}
use network_file_system_in_c.Naming.Copy.Text.Digits.{atoi-show_int}
use network_file_system_in_c.Naming.Listing.Sent.{concat}
use network_file_system_in_c.Storage.Disk.{Place, entry_at, file, is_folder, parent, set_entry}
use network_file_system_in_c.Storage.Disk.Entries.{entry_at-set_entry}
use network_file_system_in_c.Storage.Disk.Sound.{HasFolder, set-HasFolder}
use network_file_system_in_c.Storage.Machine.{
  Machine, Peer, Sent, World, buffer, naming, place_of, recv_data, returned, send_to, size,
  stat_path, try_files,
}
use network_file_system_in_c.Storage.Paths.Made.{AllowsAll}
use network_file_system_in_c.Storage.Transfer.{
  process_file, receive_file, receive_rounds, send_buffers, send_found, show_long,
}
use network_file_system_in_c.Storage.Transfer.Steps.{
  HasMain, WritesAll, at_place, chdir_home_lem, close_file_lem, enter_main, fopen_w_lem, fwrite_lem,
  goes_on, main_of,
}

send_buffers_lem :
    (peer : Peer) (ps : List Str) (m : Machine)
    → send_buffers peer ps m
      ≡ returned tt (record m { sent = m.sent ++ map (λ p. (peer, buffer p)) ps })
unfolding send_to
send_buffers_lem peer [] m = ap (λ l. returned tt (record m { sent = l })) (sym (append-nil m.sent))
send_buffers_lem peer (p ∷ ps) m =
    send_buffers_lem peer ps (record m { sent = m.sent ++ (peer, buffer p) ∷ [] })
    ∙ ap (λ l. returned tt (record m { sent = l }))
        (append_assoc m.sent ((peer, buffer p) ∷ []) (map (λ q. (peer, buffer q)) ps))

-- What process_file sends of a file: its size, and its bytes in buffers of 8192.
abbrev pub buffers_of : Str → List Str
buffers_of bytes = pieces ((length bytes + 8191) / 8192) bytes

abbrev pub sent_file : Peer → Str → List (Peer × Sent)
sent_file peer bytes =
    (peer, size (show_long (length bytes))) ∷ map (λ p. (peer, buffer p)) (buffers_of bytes)

-- recv brings these bytes, from its n-th call on, each time all that was sent.
abbrev pub Delivers : World → ℕ → List Str → Type 0
Delivers w n [] = Unit
Delivers w n (p ∷ ps) =
    (w.blocks n ≡ false)
    × (w.recv_result n ≡ record { count = pos (length p); text = p })
    × Delivers w (suc n) ps

module _ (w : World) (all : AllowsAll w.allows) where
  -- process_file of a file below "main" sends its size and its bytes, in as many buffers as the size
  -- says, changes no file, and is back in the directory of the start.
  pub process_file_lem :
      (path : Str) (peer : Peer) (m : Machine) {p : Place} {bytes : Str}
      → HasMain m
      → place_of (record { disk = m.files.disk; cwd = main_of m }) path ≡ some p
      → entry_at m.files.disk p ≡ some (file bytes)
      → process_file w path peer (codes "main") m
        ≡ returned tt (at_place m.home (record m { sent = m.sent ++ sent_file peer bytes }))
  unfolding process_file send_found send_to stat_path
  process_file_lem path peer m {p} {bytes} has at e = goes_on _ (enter_main w all m has) (
      rw (at, e, all p)
        (goes_on _ (send_buffers_lem peer (buffers_of bytes) _) (
          goes_on _ (chdir_home_lem w all _ has.0) (
            ap (λ l. returned tt (at_place m.home (record m { sent = l })))
              (append_assoc m.sent ((peer, size (show_long (length bytes))) ∷ [])
                (map (λ q. (peer, buffer q)) (buffers_of bytes)))))))

  receive_rounds_lem :
      (p : Place) (ps : List Str) (m : Machine) {old : Str}
      → WritesAll w
      → Delivers w m.recvs ps
      → entry_at m.files.disk p ≡ some (file old)
      → (m' : Machine) × (receive_rounds w (some p) (length ps) m ≡ returned true m')
        × (entry_at m'.files.disk p ≡ some (file (old ++ concat ps)))
        × ((q : Place) → HasFolder m.files.disk q → HasFolder m'.files.disk q)
        × (m'.home ≡ m.home)
        × (m'.lock ≡ m.lock)
        × (m'.sent ≡ m.sent)
  unfolding receive_rounds recv_data
  receive_rounds_lem p [] m {old} stores here e =
      (m, refl, e ∙ ap (λ b. some (file b)) (sym (append-nil old)), λ q h. h, refl, refl, refl)
  receive_rounds_lem p (t ∷ ps) m {old} stores (comes, came, more) e =
      let d = set_entry m.files.disk p (file (old ++ t)) in
      let m1 : Machine = record m {
        files = record { disk = d; cwd = m.files.cwd };
        recvs = suc m.recvs;
      } in
      let (m', run, holds, kept, same_home, same_lock, same_sent) =
        receive_rounds_lem p ps m1 stores more
          (entry_at-set_entry m.files.disk p (file (old ++ t))) in
      (
        m',
        rw (comes, came, take_all (length t) t (omega arith))
            (goes_on _ (fwrite_lem w p t (record m { recvs = suc m.recvs }) stores e) run),
        holds ∙ ap (λ b. some (file b)) (append_assoc old t (concat ps)),
        λ q h. kept q (set-HasFolder m.files.disk p q (file (old ++ t)) (ap is_folder e) h),
        same_home,
        same_lock,
        same_sent,
      )

  -- receive_file of a path below "main" that is no folder, with as many rounds as chunks come: the
  -- result is 1, and the file holds the chunks, one after the other, and nothing of what it held.
  pub receive_file_lem :
      (path : Str) (ps : List Str) (m : Machine) {p : Place}
      → WritesAll w
      → HasMain m
      → place_of (record { disk = m.files.disk; cwd = main_of m }) path ≡ some p
      → HasFolder m.files.disk (parent p)
      → is_folder (entry_at m.files.disk p) ≡ false
      → Delivers w m.recvs ps
      → (m' : Machine) × (receive_file w path (pos (length ps)) m ≡ returned 1 m')
        × (entry_at m'.files.disk p ≡ some (file (concat ps)))
        × (m'.files.cwd ≡ m.home)
        × (m'.lock ≡ m.lock)
        × (m'.sent ≡ m.sent)
  unfolding receive_file try_files
  receive_file_lem path ps m {p} stores has at up free come =
      let d = set_entry m.files.disk p (file []) in
      let m1 : Machine = record m { files = record { disk = d; cwd = main_of m } } in
      let (m', run, holds, kept, same_home, same_lock, same_sent) =
        receive_rounds_lem p ps m1 stores come (entry_at-set_entry m.files.disk p (file [])) in
      (
        at_place m'.home m',
        goes_on _ (enter_main w all m has) (
            rw
              (
                at,
                fopen_w_lem w.allows all p (record { disk = m.files.disk; cwd = main_of m }) up
                    free,
              )
              (goes_on _ run (
                close_file_lem w all p m' stores (
                  rw same_home
                    (kept m.home (set-HasFolder m.files.disk p m.home (file []) free has.0)))))),
        holds,
        same_home,
        same_lock,
        same_sent,
      )

pieces-length : (k : ℕ) (s : Str) → length (pieces k s) ≡ k
unfolding pieces
pieces-length zero s = refl
pieces-length (suc k) s = ap suc (pieces-length k (drop 8192 s))

-- There are as many buffers as the naming server counts from the size, below 16 MiB.
pub buffers_of-length :
    (bytes : Str)
    → length bytes < 2 ^ 24
    → chunk_count (pos (length bytes)) ≡ pos (length (buffers_of bytes))
unfolding chunk_count
buffers_of-length bytes h =
    ap (λ f. pos ((f + 8191) / 8192)) (float_of_small (length bytes) h)
    ∙ ap pos (sym (pieces-length ((length bytes + 8191) / 8192) bytes))

-- A copy of a file below 16 MiB from one storage server to another. The first one sends its size and
-- its buffers. If these come to the second one whole and in their order, and it is told, as a text, the
-- number of chunks that the naming server counts from the size, then its result is 1, its file holds the
-- bytes and some padding behind them, and both servers are back in the directory of the start. Before,
-- both have their "main", the path of the second one must lead to a place in a folder that is no folder
-- itself, the two systems refuse nothing, and no write of the second one fails.
pub process_file-receive_file :
    (w w2 : World)
    → AllowsAll w.allows
    → AllowsAll w2.allows
    → WritesAll w2
    → (path path2 : Str) (m m2 : Machine) {p p2 : Place} {bytes : Str} → length bytes < 2 ^ 24
    → HasMain m
    → HasMain m2
    → place_of (record { disk = m.files.disk; cwd = main_of m }) path ≡ some p
    → entry_at m.files.disk p ≡ some (file bytes)
    → place_of (record { disk = m2.files.disk; cwd = main_of m2 }) path2 ≡ some p2
    → HasFolder m2.files.disk (parent p2)
    → is_folder (entry_at m2.files.disk p2) ≡ false
    → Delivers w2 m2.recvs (buffers_of bytes)
    → (m' m2' : Machine) × (padding : Str) × (process_file w path naming (codes "main") m
        ≡ returned tt m')
      × (m'.sent ≡ m.sent ++ sent_file naming bytes)
      × (receive_file w2 path2 (atoi (show_int (chunk_count (pos (length bytes))))) m2
          ≡ returned 1 m2')
      × (entry_at m2'.files.disk p2 ≡ some (file (bytes ++ padding)))
      × (m'.files.cwd ≡ m.home)
      × (m2'.files.cwd ≡ m2.home)
process_file-receive_file w w2 all all2 stores path path2 m m2 {p2} {bytes} small has has2 at e at2
      up free come =
    let (m2', run, holds, back, same_lock, same_sent) =
      receive_file_lem w2 all2 path2 (buffers_of bytes) m2 stores has2 at2 up free come in
    let count : length (buffers_of bytes) ≡ (length bytes + 8191) / 8192 = pieces-length _ bytes in
    let few : length (buffers_of bytes) < 10000000000 = omega (arith, count, small) in
    let (padding, whole) = pieces-concat ((length bytes + 8191) / 8192) bytes (omega arith) in
    (
      _,
      m2',
      padding,
      process_file_lem w all path naming m has at e,
      refl,
      ap (λ n. receive_file w2 path2 (atoi (show_int n)) m2) (buffers_of-length bytes small)
          ∙ ap (λ n. receive_file w2 path2 n m2) (atoi-show_int (length (buffers_of bytes)) few)
          ∙ run,
      holds ∙ ap (λ b. some (file b)) whole,
      refl,
      back,
    )
