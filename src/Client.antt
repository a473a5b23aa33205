-- ===== src/Client.antt =====
-- Client.c, main: the line that is typed, and the commands that are not sent.
pub mod Line
pub mod Same
pub mod Session
use network_file_system_in_c.Base.{
  Bool, List, Option, Str, [], codes, if◌then◌else◌, is_empty_str, leb, length, ltb, none, some,
  str_eq, suc, true, zero, ℕ, ◌&&◌, ◌++◌, ◌==◌, ◌||◌, ◌∷◌,
}
use network_file_system_in_c.Naming.State.{Command}

abbrev pub is_blank : ℕ → Bool
is_blank c = (c == 32) || (c == 9)

abbrev pub is_end : ℕ → Bool
is_end c = (c == 10) || (c == 0)

-- The last word, if one has begun.
abbrev pub last_word : Str → List Str
last_word word = if is_empty_str word then [] else word ∷ []

-- The loop over inp, with the word that has begun. Its end is the NUL of fgets.
unfoldable pub words_from : Str → Str → List Str
words_from word [] = last_word word
words_from word (c ∷ inp) =
    let later = words_from [] inp in
    let longer = words_from (word ++ c ∷ []) inp in
    if is_end c
    then last_word word
    else if is_blank c
    then (if is_empty_str word then later else word ∷ later)
    else longer

-- Every word and its NUL have 500 bytes.
unfoldable pub are_words_short : List Str → Bool
are_words_short [] = true
are_words_short (word ∷ words) = ltb (length word) 500 && are_words_short words

-- args[i], where what has not been typed is empty: args is zero, as after the first command.
unfoldable pub arg : ℕ → List Str → Str
arg i [] = []
arg zero (word ∷ words) = word
arg (suc i) (word ∷ words) = arg i words

-- The command of a line. It is undefined for more than 20 words, one of 500 bytes, and an operation of 32.
unfoldable pub read_command : ℕ → Str → Option Command
read_command port inp =
    let args = words_from [] inp in
    if leb (length args) 20 && are_words_short args && ltb (length (arg 0 args)) 32
    then some (record {
      operation = arg 0 args;
      path1 = arg 1 args;
      path2 = if length args == 2 then [] else arg 2 args;
      port = port;
    })
    else none

-- The loop over the two paths, up to the end of the shorter one.
unfoldable pub agree : Str → Str → Bool
agree [] p2 = true
agree (c ∷ p1) [] = true
agree (c ∷ p1) (d ∷ p2) = (c == d) && agree p1 p2

unfoldable pub same_place : Str → Str → Bool
same_place p1 p2 = str_eq p1 p2 || agree (p1 ++ 47 ∷ []) (p2 ++ 47 ∷ [])

-- A copy from a place to the same place is not sent.
unfoldable pub is_refused : Command → Bool
is_refused c =
    (str_eq c.operation (codes "copydir") && same_place c.path1 c.path2)
    || (str_eq c.operation (codes "copyfile") && str_eq c.path1 c.path2)
