-- ===== src/Examples/Transfers.antt =====
-- Files that are sent, and rounds of the storage server.
-- The chunk of a file of two bytes.
use network_file_system_in_c.Base.{
  Str, [], ap, codes, length, pos, refl, some, tokens, tokens_from, ℕ, ◌++◌, ◌∷◌, ◌≡◌,
}
use network_file_system_in_c.Examples.Handlers.{lt_of_ltb}
use network_file_system_in_c.Examples.Storage.{
  a_disk, a_machine, a_machine-HasMain, d_b_IsName, d_b_free, d_free, main_place, make_d_b,
  one_byte, read_b, world_of, write_b, write_then_read,
}
use network_file_system_in_c.Naming.Copy.{pieces, zeros}
use network_file_system_in_c.Naming.Copy.Text.{atoi, chunk_count, show_int}
use network_file_system_in_c.Naming.State.{Reply}
use network_file_system_in_c.Storage.Disk.{entry_at, file, is_folder, set_entry, walk}
use network_file_system_in_c.Storage.Machine.{
  Machine, World, are_short, client, ends_with_slash, naming, place_of, returned, ticket, ◌>>◌,
}
use network_file_system_in_c.Storage.Paths.Made.{make_folders, target}
use network_file_system_in_c.Storage.Runner.{c_round, nm_round}
use network_file_system_in_c.Storage.Runner.Created.{nm_round-createfile}
use network_file_system_in_c.Storage.Runner.Rounds.{AfterRound, IsHome, nm_round_lem}
use network_file_system_in_c.Storage.Runner.Written.{c_round-write-read}
use network_file_system_in_c.Storage.Transfer.{process_file, receive_file}
use network_file_system_in_c.Storage.Transfer.Copied.{process_file-receive_file, sent_file}

abbrev pub hi_chunk : Str
hi_chunk = codes "hi" ++ zeros 8190

abbrev brings : Str → ℕ → Reply
brings text n = record { count = pos (length text); text = text }

-- A server whose recv brings that chunk.
abbrev second : World
second = world_of (brings hi_chunk) write_then_read

process_file-receive_file_example :
    (m' m2' : Machine) × (padding : Str) × (process_file
        (world_of one_byte write_then_read)
        (codes "a")
        naming
        (codes "main")
        a_machine
      ≡ returned tt m')
    × (m'.sent ≡ [] ++ sent_file naming (codes "hi"))
    × (receive_file second
          (codes "b")
          (atoi (show_int (chunk_count (pos (length (codes "hi"))))))
          a_machine
        ≡ returned 1 m2')
    × (entry_at m2'.files.disk (codes "b" ∷ main_place) ≡ some (file (codes "hi" ++ padding)))
    × (m'.files.cwd ≡ [])
    × (m2'.files.cwd ≡ [])
unfolding place_of walk tokens tokens_from are_short ends_with_slash entry_at pieces
process_file-receive_file_example =
    process_file-receive_file (world_of one_byte write_then_read) second (λ p. refl) (λ p. refl)
      (λ d p bytes. refl, λ d p. refl) (codes "a") (codes "b") a_machine a_machine
      (lt_of_ltb 2 16777216 refl) a_machine-HasMain a_machine-HasMain refl refl refl refl refl
      (refl, refl, tt)

c_round-write-read_example :
    (m' : Machine) × ((c_round (world_of one_byte write_then_read)
          >> c_round (world_of one_byte write_then_read))
        a_machine
      ≡ returned tt m')
    × (m'.sent ≡ [] ++ sent_file client (120 ∷ []))
    × (m'.lock ≡ 1)
unfolding place_of walk tokens tokens_from are_short ends_with_slash entry_at
c_round-write-read_example =
    c_round-write-read (world_of one_byte write_then_read) (λ p. refl) a_machine write_b read_b
      (120 ∷ []) (λ d p bytes. refl, λ d p. refl) (lt_of_ltb 0 1 refl) refl refl refl refl refl refl
      refl refl a_machine-HasMain refl refl refl

nm_round-createfile_example :
    nm_round (world_of one_byte (λ n. (pos 1, make_d_b))) a_machine
    ≡ returned tt (record a_machine {
      files = record {
        disk =
            set_entry
              (make_folders a_disk main_place (codes "d" ∷ []))
              (codes "b" ∷ target main_place (codes "d" ∷ []))
              (file []);
        cwd = [];
      };
      sent = [] ++ (naming, ticket (codes "YES")) ∷ [];
      commands = 1;
    })
nm_round-createfile_example =
    nm_round-createfile (world_of one_byte (λ n. (pos 1, make_d_b))) (λ p. refl) (codes "d" ∷ [])
      (codes "b") a_machine make_d_b (lt_of_ltb 0 1 refl) refl refl refl a_machine-HasMain refl
      d_b_IsName d_free (ap is_folder d_b_free)

nm_round_example :
    AfterRound
      (world_of one_byte write_then_read)
      a_machine
      (nm_round (world_of one_byte write_then_read) a_machine)
    × IsHome
        (world_of one_byte write_then_read)
        a_machine
        (nm_round (world_of one_byte write_then_read) a_machine)
nm_round_example = nm_round_lem (world_of one_byte write_then_read) a_machine (lt_of_ltb 0 1 refl)
