-- ===== src/Examples/Typed.antt =====
-- A line that is typed into a client.
use network_file_system_in_c.Base.{
  All, List, [], codes, false, if◌then◌else◌, is_neg, length, not, pos, refl, some, str_eq, suc,
  zero, ℕ, ◌&&◌, ◌++◌, ◌==◌, ◌||◌, ◌∷◌, ◌≡◌,
}
use network_file_system_in_c.Client.{is_refused, read_command}
use network_file_system_in_c.Client.Line.{IsWord, line_of, read_command-line_of}
use network_file_system_in_c.Client.Same.{is_refused_lem, starts_with}
use network_file_system_in_c.Client.Session.{
  Event, Session, connect_from, ended, hung, info_function, is_connected, read_function, shown_text,
  to_storage, told_stop, write_function,
}
use network_file_system_in_c.Client.Session.Shown.{read_function-sent_file}
use network_file_system_in_c.Client.Session.Stops.{HasStops, is_none, sessions-HasStops, stops}
use network_file_system_in_c.Examples.Handlers.{lt_of_ltb}
use network_file_system_in_c.Examples.Transfers.{hi_chunk}
use network_file_system_in_c.Naming.Copy.{pieces}
use network_file_system_in_c.Naming.State.{Command, Reply}
use network_file_system_in_c.Storage.Transfer.{show_long}

abbrev copy_b_a : Command
copy_b_a = record {
  operation = codes "copydir";
  path1 = codes "a/b";
  path2 = codes "a";
  port = 5101;
}

copy_b_a-IsWord : All IsWord (codes "copydir" ∷ codes "a/b" ∷ codes "a" ∷ [])
copy_b_a-IsWord = (
  (
    refl,
    (
      (refl, refl),
      (
        (refl, refl),
        ((refl, refl), ((refl, refl), ((refl, refl), ((refl, refl), ((refl, refl), tt))))),
      ),
    ),
  ),
  ((refl, ((refl, refl), ((refl, refl), ((refl, refl), tt)))), ((refl, ((refl, refl), tt)), tt)),
)

read_command-line_of_example :
    read_command 5101 (line_of (codes "copydir" ∷ codes "a/b" ∷ codes "a" ∷ [])) ≡ some copy_b_a
read_command-line_of_example =
    read_command-line_of 5101 (codes "copydir") (codes "a/b") (codes "a") copy_b_a-IsWord
      (lt_of_ltb 7 32 refl) (lt_of_ltb 3 500 refl) (lt_of_ltb 1 500 refl)

is_refused_example : is_refused copy_b_a ≡ (
    if str_eq (codes "copydir") (codes "copydir")
    then starts_with (codes "a/b" ++ 47 ∷ []) (codes "a" ++ 47 ∷ [])
      || starts_with (codes "a" ++ 47 ∷ []) (codes "a/b" ++ 47 ∷ [])
    else str_eq (codes "copydir") (codes "copyfile") && str_eq (codes "a/b") (codes "a"))
is_refused_example = is_refused_lem copy_b_a

-- The first connect fails, the second one succeeds, and "hi" comes.
abbrev hi_answers : ℕ → Reply
hi_answers zero = record { count = pos 32; text = show_long 2 }
hi_answers (suc n) = record { count = pos (length hi_chunk); text = hi_chunk }

abbrev hi_session : Session
hi_session = record {
  came = pos 1;
  index = pos 1;
  extra = codes "main";
  connects = λ n. n == 1;
  send_result = pos 1;
  answers = hi_answers;
  blocks = λ n. false;
  input = some (codes "yo");
  stack = [];
}

abbrev read_hi : Command
read_hi = record { operation = codes "read"; path1 = codes "a"; path2 = []; port = 5101 }

sessions-HasStops_example :
    let no_line = is_connected hi_session && is_none hi_session.input in
    let no_stat =
      is_connected hi_session && not (is_neg hi_session.send_result) && hi_session.blocks 0 in
    ((es : List Event) × (write_function hi_session read_hi
        ≡ (if no_line then hung es else ended es))
      × (stops es ≡ (if no_line then 0 else 1)))
    × ((es : List Event) × (info_function hi_session read_hi
          ≡ (if no_stat then hung es else ended es))
        × (stops es ≡ (if no_stat then 0 else 1)))
    × HasStops
        (if is_connected hi_session && is_neg hi_session.send_result then 0 else 1)
        (read_function hi_session read_hi)
sessions-HasStops_example = sessions-HasStops hi_session read_hi refl refl

read_function-sent_file_example :
    read_function hi_session read_hi
    ≡ ended (
        to_storage (record read_hi { path2 = codes "main" })
        ∷ shown_text (codes "hi")
        ∷ told_stop []
        ∷ [])
unfolding connect_from pieces
read_function-sent_file_example =
    read_function-sent_file hi_session read_hi (codes "hi") hi_chunk refl refl refl refl
      (refl, (refl, tt)) (lt_of_ltb 0 2 refl) (lt_of_ltb 2 8192 refl) refl refl refl refl refl
