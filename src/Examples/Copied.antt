-- ===== src/Examples/Copied.antt =====
-- Copies on a concrete server.
use network_file_system_in_c.Base.{[], codes, ◌∷◌}
use network_file_system_in_c.Examples.Handlers.{fresh_server}
use network_file_system_in_c.Naming.State.{Command, Server}

abbrev copy_a_b : Command
copy_a_b = record { operation = codes "copyfile"; path1 = 97 ∷ []; path2 = 98 ∷ []; port = 5101 }

-- A server that has read a file of two bytes into temp.txt.
abbrev half_copied : Server
half_copied = record fresh_server { temp_txt = 120 ∷ 121 ∷ [] }
