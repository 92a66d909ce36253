-- ===== src/Pcap/Bound.antt =====
-- The byte count of the writer is that of its current file, and stays near the configured limit.
use tzsp_server.Prelude.{
  ℕ, ◌+◌, ◌*◌, ◌^◌, ◌≤◌, ◌<◌, ◌≡◌, refl, sym, ap, subst, ◌∙◌, ◌⊎◌, true, false, Option, none, some,
  [], ◌∷◌, ◌++◌, Bytes, length, Bool-cases, inl, inr, arith, ok, ok-injective,
}
use tzsp_server.Prelude.Int.{ℤ, pos, ◌*ℤ◌, wrap_i64-fits}
use tzsp_server.Prelude.Text.{text_eq_refl}
use tzsp_server.Tzsp.{Time}
use tzsp_server.Pcap.{
  Captured, File, Directory, Writer, Attempt, WriteError, put_file, create_file, rotate,
  rotation_due, append_to, after_rotation, write_packet, new_writer, max_bytes,
}

abbrev pub total : File → ℕ
total [] = 0
total (p ∷ file) = length p.content + total file

pub total-concat :
    (file : File) (p : Captured) → total (file ++ p ∷ []) ≡ total file + length p.content
total-concat [] p = omega arith
total-concat (q ∷ file) p = omega (arith, total-concat file p)

-- The writer's count is that of its file, or the file is to be replaced before the next write: so
-- it is behind a rotation that failed.
pub data IsConsistent (w : Writer) (dir : Directory) : Type 0 where
  counted :
      (file : File) → dir w.filename ≡ some file → w.bytes_written ≡ total file → IsConsistent w dir
  replaced : rotation_due w ≡ true → IsConsistent w dir

-- What a write leaves: an error, or the packet at the end of the current file, which is the file that
-- was there, or a new one if a rotation was due.
pub data Written (packet : Captured) (w : Writer) (dir : Directory)
    (out : Directory × Writer × Option WriteError) : Type 0 where
  written :
      (file : File)
      → (dir w.filename ≡ some file) ⊎ ((rotation_due w ≡ true) × (file ≡ []))
      → out.2 ≡ none
      → out.1.filename ≡ w.filename
      → out.0 w.filename ≡ some (file ++ packet ∷ [])
      → out.1.bytes_written ≡ total (file ++ packet ∷ [])
      → Written packet w dir out
  refused :
      (why : WriteError)
      → out.2 ≡ some why
      → out.1.filename ≡ w.filename
      → IsConsistent out.1 out.0
      → Written packet w dir out

some-injective : {A : Type 0} (x y : A) → some x ≡ some y → x ≡ y
some-injective x y e = cc

module _ (content : Bytes) (time : Time) where
  abbrev packet : Captured
  packet = record { time = time; content = content }

  append_to-Written :
      (write_error : Option Bytes) (w : Writer) (dir : Directory) (file : File)
      → dir w.filename ≡ some file
      → w.bytes_written ≡ total file
      → Written packet w dir (append_to write_error content time w dir)
  unfolding append_to
  append_to-Written none w dir file e b =
      written file (inl e) refl refl (rw (text_eq_refl w.filename, e) refl)
        (omega (arith, total-concat file packet))
  append_to-Written (some why) w dir file e b = refused _ refl refl (counted file e b)

  -- The rotation gives the writer a new count and an empty file, and keeps its name.
  of_renewed :
      (w : Writer) (dir made : Directory) (out : Directory × Writer × Option WriteError)
      → rotation_due w ≡ true
      → made w.filename ≡ some []
      → Written packet (record w { is_open = true; bytes_written = 0 }) made out
      → Written packet w dir out
  of_renewed w dir made out due new (written file source e f d b) =
      written file (inr (due, empty source)) e f d b
    where
      empty :
          (made w.filename ≡ some file)
            ⊎ ((rotation_due (record w { is_open = true; bytes_written = 0 }) ≡ true) × (file ≡ []))
          → file ≡ []
      empty (inl same) = some-injective file [] (sym same ∙ new)
      empty (inr (again, is_empty)) = is_empty
  of_renewed w dir made out due new (refused why e f c) = refused why e f c

  -- Behind a rotation that made a new file, the write starts it; a failed one leaves the writer.
  after_create-Written :
      (create_error header_error write_error : Option Bytes) (w : Writer) (dir moved : Directory)
      → rotation_due w ≡ true
      → Written packet w dir (
          after_rotation write_error content time w (create_file create_error header_error w moved))
  unfolding after_rotation create_file
  after_create-Written (some why) header_error write_error w dir moved due =
      refused _ refl refl (replaced due)
  after_create-Written none (some why) write_error w dir moved due =
      refused _ refl refl (replaced due)
  after_create-Written none none write_error w dir moved due =
      let empty = put_file w.filename (some []) moved in
      let new : empty w.filename ≡ some [] = rw (text_eq_refl w.filename) refl in
      of_renewed w dir empty _ due new (
        append_to-Written write_error (record w { is_open = true; bytes_written = 0 }) empty [] new
          (omega arith))

  -- From a writer that is consistent with the directory, a write either returns an error and leaves
  -- them consistent, or puts the packet at the end of the current file, of a new one if a rotation was
  -- due, and counts all bytes of that file. So no packet is lost without an error, and a failed
  -- rotation is tried again at the next write.
  pub write_packet-Written :
      (attempt : Attempt) (write_error : Option Bytes) (w : Writer) (dir : Directory)
      → IsConsistent w dir
      → Written packet w dir (write_packet attempt write_error content time w dir)
  unfolding write_packet rotate
  write_packet-Written attempt write_error w dir c = elim (Bool-cases (rotation_due w)) [
    | inl due ↦
        rw due
          (after_create-Written attempt.create_error attempt.header_error write_error w dir _ due)
    | inr fits ↦ rw fits (of_consistent c fits)
  ]
    where
      of_consistent :
          IsConsistent w dir
          → rotation_due w ≡ false
          → Written packet w dir (append_to write_error content time w dir)
      of_consistent (counted file e b) h = append_to-Written write_error w dir file e b
      of_consistent (replaced due) h = absurd (cc (due, h))

create_file-IsConsistent :
    (create_error header_error : Option Bytes) (w : Writer) (dir : Directory) (made : Writer)
    → (create_file create_error header_error w dir).1 ≡ ok made
    → IsConsistent made (create_file create_error header_error w dir).0
unfolding create_file
create_file-IsConsistent (some why) header_error w dir made e = absurd (cc)
create_file-IsConsistent none (some why) w dir made e = absurd (cc)
create_file-IsConsistent none none w dir made e =
    subst (λ (x : Writer). IsConsistent x (put_file w.filename (some []) dir))
      (ok-injective _ made e) (counted [] (rw (text_eq_refl w.filename) refl) refl)

-- A writer that `NewWriter` returns is consistent with the directory that it leaves.
pub new_writer-IsConsistent :
    (attempt : Attempt) (filename : Bytes) (max_size_mb max_backups : ℤ) (dir : Directory)
    (w : Writer)
    → (new_writer attempt filename max_size_mb max_backups dir).1 ≡ ok w
    → IsConsistent w (new_writer attempt filename max_size_mb max_backups dir).0
unfolding new_writer
new_writer-IsConsistent attempt filename max_size_mb max_backups dir w e =
    create_file-IsConsistent attempt.create_error attempt.header_error _ _ w e

times : (a b : ℕ) → pos a *ℤ pos b ≡ pos (a * b)
unfolding ◌*ℤ◌
times a b = ground arith

pub max_bytes_lem : (mb : ℕ) → mb < 2 ^ 43 → max_bytes (pos mb) ≡ pos (mb * 2 ^ 20)
max_bytes_lem mb h =
    rw (times mb 1024, wrap_i64-fits (mb * 1024) (omega arith), times (mb * 1024) 1024)
      (wrap_i64-fits (mb * 1024 * 1024) (omega arith) ∙ ap pos (omega arith))

fits-le :
    (w : Writer) (mb : ℕ)
    → w.max_size_mb ≡ pos mb
    → 0 < mb
    → mb < 2 ^ 43
    → rotation_due w ≡ false
    → w.bytes_written ≤ mb * 2 ^ 20
unfolding rotation_due
fits-le w mb size positive small h = ground (arith, rw size at h, max_bytes_lem mb small)

module _ (content : Bytes) (time : Time) (w : Writer) where
  append_to-le :
      (write_error : Option Bytes) (dir : Directory)
      → (append_to write_error content time w dir).1.bytes_written
        ≤ w.bytes_written + length content
  unfolding append_to
  append_to-le none dir = omega arith
  append_to-le (some why) dir = omega arith

-- After a failed rotation the count is the old one; after a rotation it is the packet's length at most.
after_create-le :
    (content : Bytes) (time : Time) (create_error header_error write_error : Option Bytes)
    (w : Writer) (dir : Directory) (bound : ℕ)
    → w.bytes_written ≤ bound
    → length content ≤ bound
    → (after_rotation write_error content time w
        (create_file create_error header_error w dir)).1.bytes_written
      ≤ bound
unfolding after_rotation create_file
after_create-le content time (some why) header_error write_error w dir bound h k = h
after_create-le content time none (some why) write_error w dir bound h k = h
after_create-le content time none none write_error w dir bound h k = omega (
  arith,
  append_to-le content time (record w { is_open = true; bytes_written = 0 }) write_error
      (put_file w.filename (some []) dir),
)

-- With a positive limit of `mb` megabytes, below 2 ^ 43, and packets of at most `longest` bytes, the
-- count of the current file stays within the limit and one packet, whatever fails.
pub write_packet-bound :
    (attempt : Attempt) (write_error : Option Bytes) (content : Bytes) (time : Time) (w : Writer)
    (dir : Directory) (mb longest : ℕ)
    → w.max_size_mb ≡ pos mb
    → 0 < mb
    → mb < 2 ^ 43
    → length content ≤ longest
    → w.bytes_written ≤ mb * 2 ^ 20 + longest
    → (write_packet attempt write_error content time w dir).1.bytes_written ≤ mb * 2 ^ 20 + longest
unfolding write_packet rotate
write_packet-bound attempt write_error content time w dir mb longest size positive small short h =
    elim (Bool-cases (rotation_due w)) [
      | inl due ↦ rw due (
          after_create-le content time attempt.create_error attempt.header_error write_error w _
            (mb * 2 ^ 20 + longest) h (omega arith))
      | inr fits ↦ rw fits (
          omega (
            arith,
            append_to-le content time w write_error dir,
            fits-le w mb size positive small fits,
          ))
    ]
