-- ===== src/Base/Strtok.antt =====
-- strtok of the C library, with one delimiter.
use Prim.Native.Nat.{ℕ}
use mathlib.Core.Bool.{Bool, true, false, ◌&&◌, not}
use mathlib.Core.List.{List, [], ◌∷◌, ◌++◌}
use network_file_system_in_c.Base.Tests.{◌==◌, if◌then◌else◌}
use network_file_system_in_c.Base.Lists.{Str}

abbrev pub is_empty_str : Str → Bool
is_empty_str [] = true
is_empty_str (c ∷ cs) = false

-- The tokens that the successive calls return: the runs between delimiters that are not empty.
-- `cur` is what has been read of the current one.
unfoldable pub tokens_from : ℕ → Str → Str → List Str
tokens_from d cur [] = if is_empty_str cur then [] else cur ∷ []
tokens_from d cur (c ∷ cs) =
    let rest = tokens_from d (if c == d then [] else cur ++ c ∷ []) cs in
    if (c == d) && not (is_empty_str cur) then cur ∷ rest else rest

unfoldable pub tokens : ℕ → Str → List Str
tokens d s = tokens_from d [] s

-- What the tokenised buffer holds afterwards: strtok writes a NUL behind the first token.
unfoldable pub clobbered_from : ℕ → Bool → Str → Str
clobbered_from d inside [] = []
clobbered_from d inside (c ∷ cs) =
    let rest = clobbered_from d (not (c == d)) cs in if (c == d) && inside then [] else c ∷ rest

unfoldable pub clobbered : ℕ → Str → Str
clobbered d s = clobbered_from d false s
