-- ===== src/Pcap.antt =====
-- internal/pcap/writer.go: the PCAP file with its rotation. The directory is a function from names to
-- files, and a file is the packets that it holds behind the PCAP header. The errors of `os.Create`, of
-- the header and of `pcapgo.Writer.WritePacket` are the environment's; those of `Remove`, `Rename` and
-- `Close` are dropped by the code, and the model takes them to succeed.
pub mod Files
pub mod Rotation
pub mod Bound
pub mod Session
pub mod Failures
pub mod Store
pub mod Segments
pub mod Log
mod Tests
use tzsp_server.Prelude.{
  ℕ, zero, suc, ◌+◌, ◌-◌, ◌*◌, ◌^◌, Bool, true, false, not, ◌&&◌, Option, none, some, List, [], ◌∷◌,
  ◌++◌, Bytes, length, ltb, leb, ◌==◌, if◌then◌else◌, Result, ok, err, panic, stuck, ◌>>=◌,
}
use tzsp_server.Prelude.Int.{ℤ, pos, negsuc, ◌*ℤ◌, ltb_ℤ, wrap_i64}
use tzsp_server.Prelude.Text.{codes, text_eq}
use tzsp_server.Prelude.Decimal.{decimal}
use tzsp_server.Tzsp.{Time}

pub record Captured : Type 0 where
  pub time : Time
  pub content : Bytes

abbrev pub File : Type 0
File = List Captured

abbrev pub Directory : Type 0
Directory = Bytes → Option File

abbrev pub put_file : Bytes → Option File → Directory → Directory
put_file name file dir other = if text_eq name other then file else dir other

-- `os.Remove`
abbrev pub remove : Bytes → Directory → Directory
remove name = put_file name none

-- `os.Rename` of a file that is there.
abbrev pub rename : Bytes → Bytes → Directory → Directory
rename old new dir = put_file old none (put_file new (dir old) dir)

pub data WriteError : Type 0 where
  create_failed header_failed packet_failed : Bytes → WriteError
  rotate_failed : WriteError → WriteError

-- The errors that the operating system and the PCAP library give to one rotation.
pub record Attempt : Type 0 where
  pub create_error : Option Bytes
  pub header_error : Option Bytes

-- `is_open` is `w.file != nil`. After a failed rotation the writer still has its closed file.
pub record Writer : Type 0 where
  pub filename : Bytes
  pub max_size_mb : ℤ
  pub max_backups : ℤ
  pub is_open : Bool
  pub bytes_written : ℕ

unfoldable pub backup_name : Bytes → ℕ → Bytes
backup_name filename index =
    if index == 0 then filename ++ codes ".1" else filename ++ (b'.' ∷ decimal (index + 1))

-- The body of the loop over the backups, at `i`.
unfoldable pub rotate_backup : Bytes → ℕ → ℕ → Option File → Directory → Directory
rotate_backup filename max_backups i none dir = dir
rotate_backup filename max_backups i (some file) dir =
    if i + 1 == max_backups
    then remove (backup_name filename i) dir
    else rename (backup_name filename i) (backup_name filename (i + 1)) dir

-- `for i := n - 1; i >= 0; i--`
unfoldable pub rotate_backups : Bytes → ℕ → ℕ → Directory → Directory
unfolding rotate_backup
rotate_backups filename max_backups zero dir = dir
rotate_backups filename max_backups (suc i) dir =
    rotate_backups filename max_backups i
      (rotate_backup filename max_backups i (dir (backup_name filename i)) dir)

unfoldable pub backup_current : Bytes → Option File → Directory → Directory
backup_current filename none dir = dir
backup_current filename (some file) dir = rename filename (backup_name filename 0) dir

-- The moves of `rotate`, before the new file is made.
unfoldable pub move_files : Bytes → ℤ → Directory → Directory
unfolding rotate_backups backup_current
move_files filename (negsuc n) dir = dir
move_files filename (pos zero) dir = dir
move_files filename (pos (suc n)) dir =
    let moved = rotate_backups filename (suc n) (suc n) dir in
    backup_current filename (moved filename) moved

-- The new file and its header. A failed header leaves an empty file.
unfoldable pub create_file :
    Option Bytes → Option Bytes → Writer → Directory → Directory × Result WriteError Writer
create_file (some why) header_error w dir = (dir, err (create_failed why))
create_file none (some why) w dir = (put_file w.filename (some []) dir, err (header_failed why))
create_file none none w dir =
    (put_file w.filename (some []) dir, ok (record w { is_open = true; bytes_written = 0 }))

unfoldable pub rotate : Attempt → Writer → Directory → Directory × Result WriteError Writer
rotate attempt w dir =
    create_file attempt.create_error attempt.header_error w
      (move_files w.filename w.max_backups dir)

-- `NewWriter`
unfoldable pub new_writer :
    Attempt → Bytes → ℤ → ℤ → Directory → Directory × Result WriteError Writer
unfolding rotate
new_writer attempt filename max_size_mb max_backups dir =
    rotate attempt
      (record {
        filename = filename;
        max_size_mb = max_size_mb;
        max_backups = max_backups;
        is_open = false;
        bytes_written = 0;
      })
      dir

-- `int64(w.maxSizeMB)*1024*1024`
abbrev pub max_bytes : ℤ → ℤ
max_bytes mb = wrap_i64 (wrap_i64 (mb *ℤ pos 1024) *ℤ pos 1024)

unfoldable pub rotation_due : Writer → Bool
rotation_due w =
    ltb_ℤ (pos 0) w.max_size_mb && ltb_ℤ (max_bytes w.max_size_mb) (pos w.bytes_written)

-- The packets of the file, with one more.
abbrev append_packet : Captured → Option File → Option File
append_packet packet none = none
append_packet packet (some file) = some (file ++ packet ∷ [])

-- The packet is written, behind the rotation. `write_error` is that of `pcapgo`.
unfoldable pub append_to :
    Option Bytes → Bytes → Time → Writer → Directory → Directory × Writer × Option WriteError
append_to (some why) content time w dir = (dir, w, some (packet_failed why))
append_to none content time w dir = (
  put_file w.filename (append_packet (record { time = time; content = content }) (dir w.filename))
      dir,
  record w { bytes_written = w.bytes_written + length content },
  none,
)

unfoldable pub after_rotation :
    Option Bytes
    → Bytes
    → Time
    → Writer
    → Directory × Result WriteError Writer
    → Directory × Writer × Option WriteError
unfolding append_to
after_rotation write_error content time w (dir, ok w') = append_to write_error content time w' dir
after_rotation write_error content time w (dir, err why) = (dir, w, some (rotate_failed why))
after_rotation write_error content time w (dir, panic) = (dir, w, none)
after_rotation write_error content time w (dir, stuck) = (dir, w, none)

-- `WritePacket`
unfoldable pub write_packet :
    Attempt
    → Option Bytes
    → Bytes
    → Time
    → Writer
    → Directory
    → Directory × Writer × Option WriteError
write_packet attempt write_error content time w dir =
    if rotation_due w
    then after_rotation write_error content time w (rotate attempt w dir)
    else append_to write_error content time w dir

-- `Close`: the error of the file's own close, if there is a file.
unfoldable pub close : Option Bytes → Writer → Option Bytes
close close_error w = if w.is_open then close_error else none
