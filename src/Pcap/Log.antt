-- ===== src/Pcap/Log.antt =====
-- The files of the capture are the end of the log of all packets, and how much of it they hold.
use tzsp_server.Prelude.{
  ℕ, zero, suc, ◌+◌, ◌*◌, ◌^◌, ◌≤◌, ◌<◌, ◌≡◌, refl, sym, ap, subst, ◌∙◌, ◌⊎◌, false, Option, none,
  some, List, [], ◌++◌, Bytes, length, get_elem?, All, inl, inr, arith, ok, ok-injective, Result,
}
use tzsp_server.Prelude.Int.{pos}
use tzsp_server.Prelude.Text.{text_eq_refl}
use tzsp_server.Pcap.{
  File, WriteError, Directory, Writer, Attempt, put_file, backup_name, move_files, new_writer,
  create_file,
}
use tzsp_server.Pcap.Files.{backup_name-ne, text_ne}
use tzsp_server.Pcap.Rotation.{move_files-Rotated}
use tzsp_server.Pcap.Bound.{total}
use tzsp_server.Pcap.Session.{Write, write_all}
use tzsp_server.Pcap.Store.{Store, accepted, store_all, IsRotating, IsStored, write_all-IsStored}
use tzsp_server.Pcap.Segments.{
  older, total-append, suc_times, times_le, older-ge, older-le, IsClosed, IsLog, store_all-IsLog,
  empty, empty-IsLog,
}

-- What a directory holds of a log under the name `f`, with a limit of `limit` bytes and `m` backups.
pub record IsEndOf (log : File) (limit longest m : ℕ) (f : Bytes) (dir : Directory) : Type 0 where
  pub current : File
  pub backups : List File
  pub current_is : dir f ≡ some current
  pub backup_is : (j : ℕ) → j < m → dir (backup_name f j) ≡ get_elem? backups j
  pub dropped : File
  pub whole : log ≡ dropped ++ (older backups ++ current)
  pub few : length backups ≤ m
  pub closed : All (IsClosed limit longest) backups
  pub short : total current ≤ limit + longest
  pub full : (dropped ≡ []) ⊎ (length backups ≡ m)
  pub enough : (dropped ≡ []) ⊎ (m * limit ≤ total (older backups ++ current))
  pub little : total (older backups ++ current) ≤ (m + 1) * (limit + longest)

abbrev Made : Type 0
Made = Directory × Result WriteError Writer

-- A store that holds the end of a log, in the files of its writer.
IsLog-IsEndOf :
    (limit longest m : ℕ) (log : File) (s : Store) (f : Bytes) (dir : Directory) (w : Writer)
    (mb : ℕ)
    → IsStored f mb m s dir w
    → IsLog limit longest m log s
    → IsEndOf log limit longest m f dir
IsLog-IsEndOf limit longest m log s f dir w mb h l = record {
  current = s.current;
  backups = s.backups;
  current_is = ap dir (sym h.name_is) ∙ h.current_is;
  backup_is = λ j k. ap (λ x. dir (backup_name x j)) (sym h.name_is) ∙ h.backup_is j k;
  dropped = l.dropped;
  whole = l.whole;
  few = l.few;
  closed = l.closed;
  short = l.short;
  full = l.reason;
  enough = enough l.reason;
  little = omega (
    arith,
    total-append (older s.backups) s.current,
    older-le limit longest s.backups l.closed,
    times_le (length s.backups) m (limit + longest) l.few,
    suc_times m (limit + longest),
    l.short,
  );
}
  where
    enough :
        (l.dropped ≡ []) ⊎ (length s.backups ≡ m)
        → (l.dropped ≡ []) ⊎ (m * limit ≤ total (older s.backups ++ s.current))
    enough (inl nothing) = inl nothing
    enough (inr full) = inr (
        omega (
          arith,
          total-append (older s.backups) s.current,
          older-ge limit longest s.backups l.closed,
          ap (λ n. n * limit) full,
        ))

module _ (f : Bytes) (m : ℕ) (dir : Directory) (free : dir f ≡ none)
    (no_backup : (j : ℕ) → j < m → dir (backup_name f j) ≡ none) where
  moved_free : (n j : ℕ) → n ≡ m → j < n → move_files f (pos n) dir (backup_name f j) ≡ none
  moved_free zero j e h = absurd (omega arith)
  moved_free (suc n) zero e h = (move_files-Rotated f n dir).newest ∙ free
  moved_free (suc n) (suc j) e h =
      (move_files-Rotated f n dir).moved j (omega arith) ∙ no_backup j (omega arith)

  -- The writer that `NewWriter` makes there stores nothing.
  abbrev unmade : ℕ → Writer
  unmade mb = record {
    filename = f;
    max_size_mb = pos mb;
    max_backups = pos m;
    is_open = false;
    bytes_written = 0;
  }

  abbrev made_of : Option Bytes → Option Bytes → ℕ → Made
  made_of create_error header_error mb =
      create_file create_error header_error (unmade mb) (move_files f (pos m) dir)

  made-IsStored :
      (create_error header_error : Option Bytes) (mb : ℕ) (w : Writer)
      → (made_of create_error header_error mb).1 ≡ ok w
      → IsStored f mb m empty (made_of create_error header_error mb).0 w
  unfolding create_file
  made-IsStored (some why) header_error mb w e = absurd (cc)
  made-IsStored none (some why) mb w e = absurd (cc)
  made-IsStored none none mb w e =
      subst (IsStored f mb m empty (put_file f (some []) (move_files f (pos m) dir)))
        (ok-injective _ w e)
        (record {
          name_is = refl;
          size_is = refl;
          limit_is = refl;
          current_is = rw (text_eq_refl f) refl;
          count_is = refl;
          backup_is = λ j k.
              rw (text_ne f (backup_name f j) (λ p. backup_name-ne f j (sym p)))
                (moved_free m j refl k);
        })

-- A writer that `NewWriter` made with a limit of `mb` megabytes, positive and below 2 ^ 43, and with `m`
-- backups, where no capture was, and that wrote any packets of at most `longest` bytes with no
-- rotation failing: the files hold, from the oldest backup to the current file, the end of the log of
-- all packets that the PCAP library took, in order and each once. There are `m` backups at most, each
-- above the limit by one packet at most, and the current file is within the limit and one packet. If
-- anything is missing from the beginning of the log, then there are `m` backups, so that the files hold
-- `m` times the limit at least; and they never hold more than `m + 1` times the limit and one packet.
pub write_all-IsEndOf :
    (attempt : Attempt) (f : Bytes) (mb m longest : ℕ) (dir : Directory) (w : Writer)
    (xs : List Write)
    → (new_writer attempt f (pos mb) (pos m) dir).1 ≡ ok w
    → dir f ≡ none
    → ((j : ℕ) → j < m → dir (backup_name f j) ≡ none)
    → 0 < mb
    → mb < 2 ^ 43
    → All IsRotating xs
    → All (λ x. length x.content ≤ longest) xs
    → IsEndOf
        (accepted xs)
        (mb * 2 ^ 20)
        longest
        m
        f
        (write_all xs ((new_writer attempt f (pos mb) (pos m) dir).0, w)).0
unfolding new_writer
write_all-IsEndOf attempt f mb m longest dir w xs e free no_backup positive small r short =
    let limit = mb * 2 ^ 20 in
    let start =
      made-IsStored f m dir free no_backup attempt.create_error attempt.header_error mb w e in
    let stored = write_all-IsStored f mb m positive small xs empty w _ r start in
    let log = store_all-IsLog limit longest m xs [] empty short (empty-IsLog limit longest m) in
    let s = store_all limit m xs empty in
    IsLog-IsEndOf limit longest m (accepted xs) s f _ _ mb stored log
