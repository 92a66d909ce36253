-- ===== src/Pcap/Store.antt =====
-- What the PCAP writer promises: a log cut into a bounded number of segments. The files of the directory
-- with their names implement it.
use tzsp_server.Prelude.{
  ℕ, zero, suc, ◌*◌, ◌^◌, ◌<◌, ◌≡◌, refl, sym, ap, ◌∙◌, true, false, Option, none, append-nil, ok,
  some, List, [], ◌∷◌, ◌++◌, Bytes, take, get_elem?, All, ltb, Bool-cases, inl, inr, arith,
  if◌then◌else◌,
}
use tzsp_server.Prelude.Int.{pos}
use tzsp_server.Prelude.Text.{text_eq_refl}
use tzsp_server.Tzsp.{Time}
use tzsp_server.Pcap.{
  Captured, File, Directory, Writer, put_file, backup_name, move_files, rotate, create_file,
  rotation_due, after_rotation, append_to, write_packet,
}
use tzsp_server.Pcap.Files.{backup_name-ne, text_ne}
use tzsp_server.Pcap.Rotation.{move_files-Rotated}
use tzsp_server.Pcap.Bound.{total, total-concat, max_bytes_lem}
use tzsp_server.Pcap.Session.{Write, after, write_all}

-- The current segment, and the older ones, newest first.
pub record Store : Type 0 where
  pub current : File
  pub backups : List File

-- What a write adds to the log: its packet, or nothing if the PCAP library refuses it.
abbrev pub added : Option Bytes → Captured → File
added none packet = packet ∷ []
added (some why) packet = []

abbrev pub packet_of : Write → Captured
packet_of x = record { time = x.time; content = x.content }

abbrev pub accepted_of : Write → File
accepted_of x = added x.write_error (packet_of x)

-- The log of a session.
unfoldable pub accepted : List Write → File
accepted [] = []
accepted (x ∷ xs) = accepted_of x ++ accepted xs

module _ (limit m : ℕ) where
  -- A segment above the limit is closed, and at most `m` closed ones stay.
  abbrev pub roll : Store → Store
  roll s =
      if ltb limit (total s.current)
      then record { current = []; backups = take m (s.current ∷ s.backups) }
      else s

  abbrev pub keep : Write → Store → Store
  keep x s = record s { current = s.current ++ accepted_of x }

  unfoldable pub store_all : List Write → Store → Store
  store_all [] s = s
  store_all (x ∷ xs) s = store_all xs (keep x (roll s))

-- No rotation fails.
pub record IsRotating (x : Write) : Type 0 where
  pub is_created : x.attempt.create_error ≡ none
  pub has_header : x.attempt.header_error ≡ none

-- The files of a writer with a limit of `mb` megabytes and `m` backups are the segments of the store.
pub record IsStored (f : Bytes) (mb m : ℕ) (s : Store) (dir : Directory) (w : Writer) : Type 0 where
  pub name_is : w.filename ≡ f
  pub size_is : w.max_size_mb ≡ pos mb
  pub limit_is : w.max_backups ≡ pos m
  pub current_is : dir w.filename ≡ some s.current
  pub count_is : w.bytes_written ≡ total s.current
  pub backup_is : (j : ℕ) → j < m → dir (backup_name w.filename j) ≡ get_elem? s.backups j

get_elem?-take :
    {A : Type 0} (n j : ℕ) (xs : List A) → j < n → get_elem? (take n xs) j ≡ get_elem? xs j
get_elem?-take zero j xs h = absurd (omega arith)
get_elem?-take (suc n) j [] h = refl
get_elem?-take (suc n) zero (x ∷ xs) h = refl
get_elem?-take (suc n) (suc j) (x ∷ xs) h = get_elem?-take n j xs (omega arith)

-- The backups behind the moves of a rotation.
moved-backup :
    (f : Bytes) (m : ℕ) (dir : Directory) (current : File) (backups : List File)
    → dir f ≡ some current
    → ((j : ℕ) → j < m → dir (backup_name f j) ≡ get_elem? backups j)
    → (j : ℕ) → j < m
    → move_files f (pos m) dir (backup_name f j) ≡ get_elem? (take m (current ∷ backups)) j
moved-backup f zero dir current backups c b j h = absurd (omega arith)
moved-backup f (suc n) dir current backups c b zero h = (move_files-Rotated f n dir).newest ∙ c
moved-backup f (suc n) dir current backups c b (suc j) h =
    (move_files-Rotated f n dir).moved j (omega arith)
    ∙ b j (omega arith)
    ∙ sym (get_elem?-take n j backups (omega arith))

due-ltb :
    (w : Writer) (mb : ℕ)
    → w.max_size_mb ≡ pos mb
    → 0 < mb
    → mb < 2 ^ 43
    → rotation_due w ≡ ltb (mb * 2 ^ 20) w.bytes_written
unfolding rotation_due
due-ltb w mb size positive small = rw (size, max_bytes_lem mb small) (ground arith)

module _ (f : Bytes) (mb m : ℕ) where
  appended-IsStored :
      (o : Option Bytes) (content : Bytes) (time : Time) (s : Store) (dir : Directory) (w : Writer)
      → IsStored f mb m s dir w
      → IsStored f mb m
          (record s { current = s.current ++ added o (record { time = time; content = content }) })
          (append_to o content time w dir).0
          (append_to o content time w dir).1
  unfolding append_to
  appended-IsStored (some why) content time s dir w h =
      let same = sym (append-nil s.current) in
      record {
        name_is = h.name_is;
        size_is = h.size_is;
        limit_is = h.limit_is;
        current_is = h.current_is ∙ ap some same;
        count_is = h.count_is ∙ ap total same;
        backup_is = h.backup_is;
      }
  appended-IsStored none content time s dir w h = record {
    name_is = h.name_is;
    size_is = h.size_is;
    limit_is = h.limit_is;
    current_is = rw (text_eq_refl w.filename, h.current_is) refl;
    count_is =
        omega
          (arith, h.count_is, total-concat s.current (record { time = time; content = content }));
    backup_is = λ j k.
        rw
          (text_ne w.filename (backup_name w.filename j) (λ p. backup_name-ne w.filename j (sym p)))
          (h.backup_is j k);
  }

  -- The writer and the directory behind a rotation that does not fail.
  abbrev renewed : Writer → Writer
  renewed w = record w { is_open = true; bytes_written = 0 }

  rotated : Writer → Directory → Directory
  rotated w dir = put_file w.filename (some []) (move_files w.filename w.max_backups dir)

  rotate-renewed :
      (x : Write) (w : Writer) (dir : Directory)
      → IsRotating x
      → rotate x.attempt w dir ≡ (rotated w dir, ok (renewed w))
  unfolding rotate create_file rotated
  rotate-renewed x w dir h = rw (h.is_created, h.has_header) refl

  rotated-IsStored :
      (s : Store) (w : Writer) (dir : Directory)
      → IsStored f mb m s dir w
      → IsStored f mb m
          (record { current = []; backups = take m (s.current ∷ s.backups) })
          (rotated w dir)
          (renewed w)
  unfolding rotated
  rotated-IsStored s w dir h = record {
    name_is = h.name_is;
    size_is = h.size_is;
    limit_is = h.limit_is;
    current_is = rw (text_eq_refl w.filename) refl;
    count_is = refl;
    backup_is = λ j k.
        rw
          (text_ne w.filename (backup_name w.filename j) (λ p. backup_name-ne w.filename j (sym p)))
          (ap (λ b. move_files w.filename b dir (backup_name w.filename j)) h.limit_is
            ∙ moved-backup w.filename m dir s.current s.backups h.current_is h.backup_is j k);
  }

  module _ (positive : 0 < mb) (small : mb < 2 ^ 43) where
    after-IsStored :
        (x : Write) (s : Store) (w : Writer) (dir : Directory)
        → IsRotating x
        → IsStored f mb m s dir w
        → IsStored f mb m
            (keep (mb * 2 ^ 20) m x (roll (mb * 2 ^ 20) m s))
            (after x w dir).0
            (after x w dir).1
    unfolding write_packet after_rotation
    after-IsStored x s w dir r h =
        let test = due-ltb w mb h.size_is positive small in
        elim (Bool-cases (ltb (mb * 2 ^ 20) (total s.current))) [
          | inl full ↦
              let due : rotation_due w ≡ true = test ∙ ap (ltb (mb * 2 ^ 20)) h.count_is ∙ full in
              rw (due, rotate-renewed x w dir r, full)
                (appended-IsStored x.write_error x.content x.time _ _ _
                  (rotated-IsStored s w dir h))
          | inr fits ↦
              let not_due : rotation_due w ≡ false =
                test ∙ ap (ltb (mb * 2 ^ 20)) h.count_is ∙ fits in
              rw (not_due, fits) (appended-IsStored x.write_error x.content x.time s dir w h)
        ]

    -- With a limit of `mb` megabytes, positive and below 2 ^ 43, a run of writes none of whose rotations
    -- fails is a run of the store: from files that hold its segments it leads to files that hold its
    -- segments, the current one and the `m` newest closed ones, whatever the PCAP library refuses.
    pub write_all-IsStored :
        (xs : List Write) (s : Store) (w : Writer) (dir : Directory)
        → All IsRotating xs
        → IsStored f mb m s dir w
        → IsStored f mb m
            (store_all (mb * 2 ^ 20) m xs s)
            (write_all xs (dir, w)).0
            (write_all xs (dir, w)).1
    unfolding write_all store_all
    write_all-IsStored [] s w dir r h = h
    write_all-IsStored (x ∷ xs) s w dir r h =
        write_all-IsStored xs _ (after x w dir).1 (after x w dir).0 r.1
          (after-IsStored x s w dir r.0 h)
