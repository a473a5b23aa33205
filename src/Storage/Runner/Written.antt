-- ===== src/Storage/Runner/Written.antt =====
-- A file that a client writes to a storage server, and then reads.
use network_file_system_in_c.Base.{
  Bool, List, Option, Str, [], ap, arith, codes, false, if◌then◌else◌, is_empty_str, length, none,
  not, pos, pos_ne_zero, refl, some, suc, tokens, true, ℕ, ◌++◌, ◌+◌, ◌-◌, ◌<◌, ◌||◌, ◌∷◌, ◌≡◌,
}
use network_file_system_in_c.Naming.Copy.Stored.{take_all}
use network_file_system_in_c.Naming.State.{Command}
use network_file_system_in_c.Storage.Disk.{
  Disk, Place, dot, entry_at, file, is_folder, parent, set_entry, step_to, walk,
}
use network_file_system_in_c.Storage.Disk.Entries.{entry_at-set_entry}
use network_file_system_in_c.Storage.Disk.Sound.{HasFolder, set-HasFolder}
use network_file_system_in_c.Storage.Machine.{
  Machine, World, are_short, client, ends_with_slash, next_command, place_of, post_lock, recv_data,
  returned, starts_with_slash, try_files, wait_lock, ◌>>◌,
}
use network_file_system_in_c.Storage.Paths.Made.{AllowsAll}
use network_file_system_in_c.Storage.Runner.{c_round, run_request}
use network_file_system_in_c.Storage.Transfer.{client_receive_file, process_file, write_and_close}
use network_file_system_in_c.Storage.Transfer.Copied.{process_file_lem, sent_file}
use network_file_system_in_c.Storage.Transfer.Steps.{
  HasMain, WritesAll, at_place, close_file_lem, enter_main, fopen_w_lem, fwrite_lem, goes_on,
  main_of,
}

if_option {ℓ} :
    {A : Type ℓ} (b : Bool) (o : Option A) {x : A}
    → (if b then o else none) ≡ some x
    → (b ≡ true) × (o ≡ some x)
if_option true o e = (refl, e)
if_option false o e = cc

if_not {ℓ} :
    {A : Type ℓ} (b : Bool) (o : Option A) {x : A}
    → (if b then none else o) ≡ some x
    → (b ≡ false) × (o ≡ some x)
if_not true o e = cc
if_not false o e = (refl, e)

-- A path leads where it led, if no folder has gone.
walk-kept :
    (d d' : Disk) (at : Place) (names : List Str) {p : Place}
    → ((q : Place) → HasFolder d q → HasFolder d' q)
    → walk d at names ≡ some p
    → walk d' at names ≡ some p
unfolding walk
walk-kept d d' at [] kept e = e
walk-kept d d' at (name ∷ names) kept e =
    let (there, onwards) =
      if_option (is_folder (entry_at d at)) (walk d (step_to at name) names) e in
    rw (kept at there) (walk-kept d d' (step_to at name) names kept onwards)

pub place_of-kept :
    (d d' : Disk) (at : Place) (path : Str) {p : Place}
    → ((q : Place) → HasFolder d q → HasFolder d' q)
    → place_of (record { disk = d; cwd = at }) path ≡ some p
    → place_of (record { disk = d'; cwd = at }) path ≡ some p
unfolding place_of
place_of-kept d d' at path kept e =
    let names = if ends_with_slash path then tokens 47 path ++ dot ∷ [] else tokens 47 path in
    let start : Place = if starts_with_slash path then [] else at in
    let (good, way) =
      if_not (is_empty_str path || not (are_short (tokens 47 path))) (walk d start names) e in
    rw good (walk-kept d d' start names kept way)

-- The disk with the file cut to nothing, and then written.
abbrev pub written : Disk → Place → Str → Disk
written d p text = set_entry (set_entry d p (file [])) p (file text)

written-HasFolder :
    (d : Disk) (p : Place) (text : Str)
    → is_folder (entry_at d p) ≡ false
    → (q : Place) → HasFolder d q
    → HasFolder (written d p text) q
written-HasFolder d p text bare q h =
    set-HasFolder (set_entry d p (file [])) p q (file text)
      (ap is_folder (entry_at-set_entry d p (file []))) (set-HasFolder d p q (file []) bare h)

module _ (w : World) (all : AllowsAll w.allows) where
  -- A write whose bytes come in one recv.
  client_receive_file_lem :
      (m : Machine) (path text : Str) {p : Place}
      → WritesAll w
      → w.blocks m.recvs ≡ false
      → w.recv_result m.recvs ≡ record { count = pos (length text); text = text }
      → HasMain m
      → place_of (record { disk = m.files.disk; cwd = main_of m }) path ≡ some p
      → HasFolder m.files.disk (parent p)
      → is_folder (entry_at m.files.disk p) ≡ false
      → client_receive_file w path m
        ≡ returned 1 (record m {
          files = record { disk = written m.files.disk p text; cwd = m.home };
          recvs = suc m.recvs;
        })
  unfolding client_receive_file write_and_close try_files recv_data
  client_receive_file_lem m path text {p} stores comes bytes has at up bare =
      goes_on _ (enter_main w all m has) (
        rw
          (
            at,
            fopen_w_lem w.allows all p (record { disk = m.files.disk; cwd = main_of m }) up bare,
            comes,
            bytes,
            take_all (length text) text (omega arith),
          )
          (goes_on _ (fwrite_lem w p text _ stores (entry_at-set_entry m.files.disk p (file []))) (
            close_file_lem w all p _ stores
              (written-HasFolder m.files.disk p text bare m.home has.0))))

  -- The rounds of C_runner for the two requests.
  c_round-write :
      (m : Machine) (c : Command) {r : ℕ} (m' : Machine)
      → 0 < m.lock
      → w.recv_command m.commands ≡ (pos r, c)
      → c.operation ≡ codes "write"
      → client_receive_file w c.path1 (record m { lock = m.lock - 1; commands = suc m.commands })
        ≡ returned 1 m'
      → c_round w m ≡ returned tt (record m' { lock = m'.lock + 1 })
  unfolding c_round next_command wait_lock post_lock run_request
  c_round-write m c m' free come is_write run =
      rw (come, pos_ne_zero m.lock free, is_write)
        (goes_on (λ u. post_lock) (goes_on (λ n. returned tt) run refl) refl)

  c_round-read :
      (m : Machine) (c : Command) {r : ℕ} (m' : Machine)
      → 0 < m.lock
      → w.recv_command m.commands ≡ (pos r, c)
      → c.operation ≡ codes "read"
      → process_file w c.path1 client c.path2
          (record m { lock = m.lock - 1; commands = suc m.commands })
        ≡ returned tt m'
      → c_round w m ≡ returned tt (record m' { lock = m'.lock + 1 })
  unfolding c_round next_command wait_lock post_lock run_request
  c_round-read m c m' free come is_read run =
      rw (come, pos_ne_zero m.lock free, is_read) (goes_on (λ u. post_lock) run refl)

  -- What a client writes is what the next client reads: after a write whose bytes come in one recv, a
  -- read of the same path from "main" sends the size of these bytes and the bytes, and nothing else.
  -- Both rounds return, with the lock as it was. Before, the lock must be free and "main" be there; the
  -- path must lead to a place in a folder, which may be a file, the system refuse nothing, and no write fail.
  pub c_round-write-read :
      (m : Machine) (c c2 : Command) {r r2 : ℕ} (text : Str) {p : Place}
      → WritesAll w
      → 0 < m.lock
      → w.recv_command m.commands ≡ (pos r, c)
      → c.operation ≡ codes "write"
      → w.blocks m.recvs ≡ false
      → w.recv_result m.recvs ≡ record { count = pos (length text); text = text }
      → w.recv_command (suc m.commands) ≡ (pos r2, c2)
      → c2.operation ≡ codes "read"
      → c2.path1 ≡ c.path1
      → c2.path2 ≡ codes "main"
      → HasMain m
      → place_of (record { disk = m.files.disk; cwd = main_of m }) c.path1 ≡ some p
      → HasFolder m.files.disk (parent p)
      → is_folder (entry_at m.files.disk p) ≡ false
      → (m' : Machine) × ((c_round w >> c_round w) m ≡ returned tt m')
        × (m'.sent ≡ m.sent ++ sent_file client text)
        × (m'.lock ≡ m.lock)
  c_round-write-read m c c2 text {p} stores free come is_write comes bytes come2 is_read same dir
        has at up bare =
      let m1 : Machine = record m { lock = m.lock - 1; commands = suc m.commands } in
      let kept = written-HasFolder m.files.disk p text bare in
      let m2 : Machine = record m {
        files = record { disk = written m.files.disk p text; cwd = m.home };
        lock = m.lock - 1 + 1;
        recvs = suc m.recvs;
        commands = suc m.commands;
      } in
      let m3 : Machine = record m2 { lock = m2.lock - 1; commands = suc (suc m.commands) } in
      let m4 : Machine = at_place m.home (record m3 { sent = m.sent ++ sent_file client text }) in
      let reading : process_file w c2.path1 client c2.path2 m3 ≡ returned tt m4 =
        rw (same, dir)
          (process_file_lem w all c.path1 client m3 (kept m.home has.0, kept (main_of m) has.1)
            (place_of-kept m.files.disk (written m.files.disk p text) (main_of m) c.path1 kept at)
            (entry_at-set_entry (set_entry m.files.disk p (file [])) p (file text))) in
      (
        _,
        goes_on (λ u. c_round w)
            (c_round-write m c _ free come is_write
              (client_receive_file_lem m1 c.path1 text stores comes bytes has at up bare))
            (c_round-read m2 c2 m4 (omega (arith, free)) come2 is_read reading),
        refl,
        omega (arith, free),
      )
