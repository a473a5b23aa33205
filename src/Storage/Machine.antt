-- ===== src/Storage/Machine.antt =====
-- The state of the storage server, and the calls that its functions are made of.
use network_file_system_in_c.Base.{
  Bool, List, Option, Str, [], false, if◌then◌else◌, is_empty_str, leb, length, none, not, some,
  suc, tokens, true, ℕ, ℤ, ◌&&◌, ◌++◌, ◌+◌, ◌-◌, ◌==◌, ◌||◌, ◌∷◌,
}
use network_file_system_in_c.Naming.State.{Command, Reply}
use network_file_system_in_c.Storage.Disk.{
  Disk, Entry, Files, Place, Rights, Try, dot, enter, entry_at, walk,
}

-- What it sends, to the naming server or to a client: the text of a size (32 bytes), a buffer of 8192
-- bytes, the ticket of an acknowledgement (struct ACK_SS_NM), the struct stat of a path, and the
-- list of its files (4096 bytes).
pub data Sent : Type 0 where
  size : Str → Sent
  buffer : Str → Sent
  ticket : Str → Sent
  status : Option Entry → Sent
  listing : Str → Sent

-- The socket of the naming server and that of a client.
pub data Peer : Type 0 where
  naming : Peer
  client : Peer

-- What the machine meets: the system's refusals; the result and the bytes of each recv of data, by its
-- number, and which of them never return; those of each recv of a command; how many of its bytes a fwrite
-- to a place stores on a disk; whether fflush and fclose of a file report no error; and the effect of
-- `rm -rf` of a path on a disk.
pub record World : Type 0 where
  pub allows : Rights
  pub recv_result : ℕ → Reply
  pub blocks : ℕ → Bool
  pub recv_command : ℕ → ℤ × Command
  pub fwrite_result : Disk → Place → Str → ℕ
  pub is_flushed : Disk → Place → Bool
  pub rm_rf : Place → Str → Disk → Disk

-- `home` is currentWorkingDirectory; `result` is the buffer of the list of files.
pub record Machine : Type 0 where
  pub files : Files
  pub home : Place
  pub result : Str
  pub lock : ℕ
  pub sent : List (Peer × Sent)
  pub recvs : ℕ
  pub commands : ℕ

-- A function returns, or ends the process, or hits undefined behaviour, or waits for ever.
pub data Answer {ℓ} (A : Type ℓ) : Type ℓ where
  returned : A → Machine → Answer A
  exited : Machine → Answer A
  faulted : Machine → Answer A
  waiting : Machine → Answer A

abbrev pub S {ℓ} : Type ℓ → Type ℓ
S A = Machine → Answer A

abbrev pub then_s {ℓ κ} : {A : Type ℓ} {B : Type κ} → Answer A → (A → S B) → Answer B
then_s (returned a m) k = k a m
then_s (exited m) k = exited m
then_s (faulted m) k = faulted m
then_s (waiting m) k = waiting m

infixl 5 ◌>>=◌ ◌>>◌
abbrev pub ◌>>=◌ {ℓ κ} : {A : Type ℓ} {B : Type κ} → S A → (A → S B) → S B
a >>= k = λ m. then_s (a m) k

abbrev pub ◌>>◌ {ℓ κ} : {A : Type ℓ} {B : Type κ} → S A → S B → S B
a >> b = a >>= λ _. b

-- sem_wait and sem_post of `lock`.
unfoldable pub wait_lock : S (Unit {0})
wait_lock m = if m.lock == 0 then waiting m else returned tt (record m { lock = m.lock - 1 })

unfoldable pub post_lock : S (Unit {0})
post_lock m = returned tt (record m { lock = m.lock + 1 })

-- The result of a send is only printed.
unfoldable pub send_to : Peer → Sent → S (Unit {0})
send_to peer data_ m = returned tt (record m { sent = m.sent ++ (peer, data_) ∷ [] })

-- acknowledgement(cond, …)
unfoldable pub acknowledgement : Str → S (Unit {0})
acknowledgement cond = send_to naming (ticket cond)

-- The place of a path as the kernel finds it: from the root or the current directory, no name above
-- 255 bytes, and with "." at the end of one that ends with '/'.
abbrev pub starts_with_slash : Str → Bool
starts_with_slash [] = false
starts_with_slash (c ∷ cs) = c == 47

unfoldable pub ends_with_slash : Str → Bool
ends_with_slash [] = false
ends_with_slash (c ∷ cs) = (is_empty_str cs && (c == 47)) || ends_with_slash cs

unfoldable pub are_short : List Str → Bool
are_short [] = true
are_short (name ∷ names) = leb (length name) 255 && are_short names

unfoldable pub place_of : Files → Str → Option Place
place_of s path =
    let names = tokens 47 path in
    let names' = if ends_with_slash path then names ++ dot ∷ [] else names in
    if is_empty_str path || not (are_short names)
    then none
    else walk s.disk (if starts_with_slash path then [] else s.cwd) names'

-- A call on the files, and its result.
unfoldable pub on_files : (Files → ℕ × Files) → S ℕ
on_files call m = let (r, s) = call m.files in returned r (record m { files = s })

unfoldable pub try_files : Try → S Bool
try_files call m = let (went, s) = call m.files in returned went (record m { files = s })

-- stat
unfoldable pub stat_path : Str → S (Option Entry)
stat_path path m =
    returned (elim (place_of m.files path) [ none ↦ none | some p ↦ entry_at m.files.disk p ]) m

module _ (w : World) where
  -- chdir(currentWorkingDirectory), and chdir of a path; nobody looks at their results.
  unfoldable pub chdir_home : S Bool
  chdir_home m = try_files (enter w.allows (some m.home)) m

  unfoldable pub chdir_path : Str → S Bool
  chdir_path path m = try_files (enter w.allows (place_of m.files path)) m

  -- It may never return.
  unfoldable pub recv_data : S Reply
  recv_data m =
      if w.blocks m.recvs
      then waiting m
      else returned (w.recv_result m.recvs) (record m { recvs = suc m.recvs })

  -- The command of a round: until one comes, its thread waits without the lock.
  unfoldable pub next_command : S (ℤ × Command)
  next_command m = returned (w.recv_command m.commands) (record m { commands = suc m.commands })
