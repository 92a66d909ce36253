-- ===== src/Pcap/Tests.antt =====
-- A directory with a capture file and its backups, and what the theorems say of it.
use tzsp_server.Pcap.Store.{
  IsRotating, Store, IsStored, accepted, packet_of, store_all, write_all-IsStored,
}
use tzsp_server.Prelude.{
  zero, suc, ◌<◌, List, Option, All, get_elem?, ℕ, ◌+◌, ◌*◌, ◌^◌, ◌≤◌, ◌≡◌, refl, true, none, some,
  [], ◌∷◌, Bytes, arith, ok,
}
use tzsp_server.Prelude.Int.{pos}
use tzsp_server.Prelude.Text.{codes}
use tzsp_server.Pcap.{
  rotation_due, Captured, Directory, Writer, Attempt, backup_name, move_files, new_writer,
  write_packet,
}
use tzsp_server.Pcap.Bound.{total}
use tzsp_server.Pcap.Rotation.{Rotated, move_files-Rotated}
use tzsp_server.Pcap.Failures.{IsFailing, write_all-lost}
use tzsp_server.Pcap.Session.{Write, write_all, write_all-IsBounded}

abbrev capture : Bytes
capture = codes "tzsp.pcap"

abbrev old_packet : Captured
old_packet = record { time = pos 1; content = 1 ∷ 2 ∷ [] }

-- Every name is that of a file with one packet.
abbrev dir : Directory
dir name = some (old_packet ∷ [])

abbrev fine : Attempt
fine = record { create_error = none; header_error = none }

abbrev writer : ℕ → Writer
writer bytes_written = record {
  filename = capture;
  max_size_mb = pos 1;
  max_backups = pos 3;
  is_open = true;
  bytes_written = bytes_written;
}

move_files-Rotated_example : Rotated capture 2 dir (move_files capture (pos 3) dir)
move_files-Rotated_example = move_files-Rotated capture 2 dir

is_made : (new_writer fine capture (pos 1) (pos 3) dir).1 ≡ ok (writer 0)
unfolding new_writer tzsp_server.Pcap.create_file
is_made = refl

abbrev two_writes : List Write
two_writes =
    record { content = 7 ∷ []; time = pos 9; attempt = fine; write_error = none }
    ∷ record { content = 8 ∷ []; time = pos 9; attempt = fine; write_error = some [] }
    ∷ []

two_written :
    (write_all two_writes ((new_writer fine capture (pos 1) (pos 3) dir).0, writer 0)).0
      (write_all two_writes ((new_writer fine capture (pos 1) (pos 3) dir).0, writer 0)).1.filename
    ≡ some (record { time = pos 9; content = 7 ∷ [] } ∷ [])
unfolding write_all new_writer tzsp_server.Pcap.create_file write_packet rotation_due
    tzsp_server.Pcap.append_to tzsp_server.Prelude.Text.text_eq tzsp_server.Prelude.Int.wrap_i64
    tzsp_server.Prelude.Int.◌*ℤ◌
two_written = refl

write_all-IsBounded_example :
    total (record { time = pos 9; content = 7 ∷ [] } ∷ []) ≤ 1 * 2 ^ 20 + 1500
write_all-IsBounded_example =
    write_all-IsBounded fine capture 1 1500 (pos 3) dir (writer 0) two_writes is_made (omega arith)
      (omega arith) (omega arith, (omega arith, tt)) _ two_written

abbrev failing : Write
failing = record {
  content = 7 ∷ [];
  time = pos 9;
  attempt = record { create_error = some (codes "no space"); header_error = none };
  write_error = none;
}

failing-IsFailing : IsFailing failing
failing-IsFailing = record { why = codes "no space"; not_created = refl }

-- With one backup and a count above a megabyte, two packets are enough.
abbrev full_writer : Writer
full_writer = record {
  filename = capture;
  max_size_mb = pos 1;
  max_backups = pos 1;
  is_open = true;
  bytes_written = 1048577;
}

full_writer-due : rotation_due full_writer ≡ true
unfolding rotation_due tzsp_server.Prelude.Int.wrap_i64 tzsp_server.Prelude.Int.◌*ℤ◌
full_writer-due = refl

write_all-lost_example :
    ((write_all (failing ∷ failing ∷ []) (dir, full_writer)).0 capture ≡ none)
    × ((j : ℕ)
        → j ≤ 0
        → (write_all (failing ∷ failing ∷ []) (dir, full_writer)).0 (backup_name capture j) ≡ none)
write_all-lost_example =
    write_all-lost full_writer 0 failing (failing ∷ []) dir refl full_writer-due
      (failing-IsFailing, (failing-IsFailing, tt)) (omega arith)

-- Three packets, of which the PCAP library refuses the second.
abbrev write_of : ℕ → Option Bytes → Write
write_of b why = record { content = b ∷ []; time = pos 9; attempt = fine; write_error = why }

abbrev writes : List Write
writes = write_of 7 none ∷ write_of 8 (some []) ∷ write_of 9 none ∷ []

fine-IsRotating : (b : ℕ) (why : Option Bytes) → IsRotating (write_of b why)
fine-IsRotating b why = record { is_created = refl; has_header = refl }

writes-IsRotating : All IsRotating writes
writes-IsRotating =
    (fine-IsRotating 7 none, (fine-IsRotating 8 (some []), (fine-IsRotating 9 none, tt)))

two_accepted : accepted writes ≡ packet_of (write_of 7 none) ∷ packet_of (write_of 9 none) ∷ []
unfolding accepted
two_accepted = refl

-- A capture with one backup.
abbrev old_store : Store
old_store = record { current = old_packet ∷ []; backups = (old_packet ∷ []) ∷ [] }

abbrev small_writer : Writer
small_writer = record (writer 2) { max_backups = pos 1 }

one_backup : (j : ℕ) → j < 1 → dir (backup_name capture j) ≡ get_elem? ((old_packet ∷ []) ∷ []) j
one_backup zero h = refl
one_backup (suc j) h = absurd (omega arith)

write_all-IsStored_example :
    IsStored capture 1 1
      (store_all (1 * 2 ^ 20) 1 writes old_store)
      (write_all writes (dir, small_writer)).0
      (write_all writes (dir, small_writer)).1
write_all-IsStored_example =
    write_all-IsStored capture 1 1 (omega arith) (omega arith) writes old_store small_writer dir
      writes-IsRotating
      (record {
        name_is = refl;
        size_is = refl;
        limit_is = refl;
        current_is = refl;
        count_is = refl;
        backup_is = one_backup;
      })
