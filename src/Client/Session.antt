-- ===== src/Client/Session.antt =====
-- Client.c: read_function, write_function and info_function, with the naming server and a storage server.
pub mod Stops
pub mod Shown
use network_file_system_in_c.Base.{
  Bool, List, Option, Str, [], drop, eq_int, false, if◌then◌else◌, is_neg, minus_one, none,
  pos_part, some, suc, take, true, zero, ℕ, ℤ, ◌++◌, ◌∷◌,
}
use network_file_system_in_c.Naming.Copy.{has_nul}
use network_file_system_in_c.Naming.Copy.Text.{atoi, chunk_count}
use network_file_system_in_c.Naming.CopyDir.{before_nul}
use network_file_system_in_c.Naming.State.{Command, Reply}

-- What the client does: the stop that it sends to the naming server, with its path2; the command and
-- the text that it sends to the storage server; and what it shows.
pub data Event : Type 0 where
  told_stop : Str → Event
  to_storage : Command → Event
  typed_text : Str → Event
  shown_text : Str → Event
  shown_stat : Event

-- A function returns, waits for ever, or hits undefined behaviour, after what it has done.
pub data Run : Type 0 where
  ended : List Event → Run
  hung : List Event → Run
  faulty : Run

-- What the client meets: the result of the recv of struct NM_C_IP, and its index and extra; whether each
-- connect succeeds; the result of the send of the command; each recv from the storage server, by its
-- number, and which of them never return; the line that is typed, if one is before the end of the
-- input; and what the stack has left in the buffer of 8192 bytes.
pub record Session : Type 0 where
  pub came : ℤ
  pub index : ℤ
  pub extra : Str
  pub connects : ℕ → Bool
  pub send_result : ℤ
  pub answers : ℕ → Reply
  pub blocks : ℕ → Bool
  pub input : Option Str
  pub stack : Str

-- The loop over connect, from the n-th call on, with the rounds that are left before `count` is 4. The
-- result of the call in that last round is not looked at.
unfoldable pub connect_from : (ℕ → Bool) → ℕ → ℕ → Bool
connect_from connects n zero = false
connect_from connects n (suc left) =
    let later = connect_from connects (suc n) left in if connects n then true else later

abbrev pub is_connected : Session → Bool
is_connected o = connect_from o.connects 0 4

-- What the three functions have around their work, with the path2 of the stop where no connect succeeds.
unfoldable pub with_storage : Session → Str → Run → Run
with_storage o path2 work =
    if is_neg o.came
    then ended []
    else if eq_int o.index minus_one
    then ended []
    else if is_connected o
    then work
    else ended (told_stop path2 ∷ [])

-- The loop over fgets does not end where no line comes.
unfoldable pub write_text : Command → Option Str → Run
write_text c none = hung (to_storage c ∷ [])
write_text c (some text) = ended (to_storage c ∷ typed_text text ∷ told_stop [] ∷ [])

unfoldable pub write_function : Session → Command → Run
write_function o c = with_storage o [] (write_text c o.input)

unfoldable pub info_function : Session → Command → Run
info_function o c = with_storage o [] (
    if is_neg o.send_result
    then ended (to_storage c ∷ told_stop [] ∷ [])
    else if o.blocks 0
    then hung (to_storage c ∷ [])
    else ended (to_storage c ∷ shown_stat ∷ told_stop [] ∷ []))

-- recv into the buffer: the bytes behind those that have come stay.
abbrev pub buffer_after : Str → Reply → Str
buffer_after bytes r = take (pos_part r.count) r.text ++ drop (pos_part r.count) bytes

-- What is done after an event, and at the end of a function that returns.
abbrev pub after_event : Event → Run → Run
after_event e (ended es) = ended (e ∷ es)
after_event e (hung es) = hung (e ∷ es)
after_event e faulty = faulty

abbrev pub and_at_end : List Event → Run → Run
and_at_end more (ended es) = ended (es ++ more)
and_at_end more (hung es) = hung es
and_at_end more faulty = faulty

-- Each chunk is printed up to its NUL; one without a NUL is read past its end.
unfoldable pub print_chunks : Session → Str → ℕ → ℕ → Run
print_chunks o bytes n zero = ended []
print_chunks o bytes n (suc k) =
    let bytes' = buffer_after bytes (o.answers n) in
    let later = print_chunks o bytes' (suc n) k in
    if o.blocks n
    then hung []
    else if has_nul bytes'
    then after_event (shown_text (before_nul bytes')) later
    else faulty

-- The size, and as many chunks.
unfoldable pub read_file : Session → Run
read_file o =
    let r = o.answers 0 in
    if o.blocks 0
    then hung []
    else if is_neg r.count
    then ended []
    else print_chunks o o.stack 1 (pos_part (chunk_count (atoi r.text)))

-- After a send that fails there is no stop.
unfoldable pub read_function : Session → Command → Run
read_function o c =
    let c' = record c { path2 = o.extra } in
    with_storage o o.extra (
      if is_neg o.send_result
      then ended (to_storage c' ∷ [])
      else after_event (to_storage c') (and_at_end (told_stop [] ∷ []) (read_file o)))
