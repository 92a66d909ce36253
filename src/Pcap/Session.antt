-- ===== src/Pcap/Session.antt =====
-- A PCAP writer from its creation through any writes, whatever fails.
use tzsp_server.Prelude.{
  ℕ, ◌+◌, ◌*◌, ◌^◌, ◌≤◌, ◌<◌, ◌≡◌, ap, ◌∙◌, some, List, [], ◌∷◌, Bytes, Option, none, zero, suc,
  sym, Bool-cases, length, All, arith, ok, ok-injective, ◌++◌, ◌⊎◌, inl, inr,
}
use tzsp_server.Prelude.Int.{ℤ, pos, negsuc}
use tzsp_server.Tzsp.{Time}
use tzsp_server.Pcap.{
  File, Directory, Writer, Attempt, new_writer, create_file, write_packet, after_rotation,
  append_to, rotate, rotation_due, WriteError, move_files, put_file,
}
use tzsp_server.Prelude.Text.{text_eq_refl}
use tzsp_server.Pcap.Rotation.{move_files-Rotated}
use tzsp_server.Pcap.Bound.{
  IsConsistent, counted, written, refused, total, write_packet-Written, new_writer-IsConsistent,
  write_packet-bound,
}

-- A call of `WritePacket`, with what the operating system and the PCAP library answer.
pub record Write : Type 0 where
  pub content : Bytes
  pub time : Time
  pub attempt : Attempt
  pub write_error : Option Bytes

abbrev pub after : Write → Writer → Directory → Directory × Writer
after x w dir =
    let (dir', w', error) = write_packet x.attempt x.write_error x.content x.time w dir in
    (dir', w')

unfoldable pub write_all : List Write → Directory × Writer → Directory × Writer
write_all [] (dir, w) = (dir, w)
write_all (x ∷ xs) (dir, w) = write_all xs (after x w dir)

-- The current file, if there is one, is within the limit and one packet.
abbrev IsHeld : ℕ → ℕ → Directory × Writer → Type 0
IsHeld mb longest s =
    (file : File) → s.0 s.1.filename ≡ some file → total file ≤ mb * 2 ^ 20 + longest

-- What every write keeps.
record IsKept (mb longest : ℕ) (s : Directory × Writer) : Type 0 where
  consistent : IsConsistent s.1 s.0
  same_size : s.1.max_size_mb ≡ pos mb
  bounded : s.1.bytes_written ≤ mb * 2 ^ 20 + longest
  held : IsHeld mb longest s

write_packet-max_size_mb :
    (x : Write) (w : Writer) (dir : Directory) → (after x w dir).1.max_size_mb ≡ w.max_size_mb
unfolding write_packet after_rotation append_to rotate create_file
write_packet-max_size_mb x w dir = ground arith

write_packet-IsConsistent :
    (x : Write) (w : Writer) (dir : Directory)
    → IsConsistent w dir
    → IsConsistent (after x w dir).1 (after x w dir).0
write_packet-IsConsistent x w dir h =
    elim (write_packet-Written x.content x.time x.attempt x.write_error w dir h) [
      | written file source e f d b ↦ counted (file ++ _ ∷ []) (ap (after x w dir).0 f ∙ d) b
      | refused why e f c ↦ c
    ]

-- The moves of a rotation take the current file away, or leave it.
moved_file :
    (f : Bytes) (n : ℤ) (dir : Directory) (file : File)
    → move_files f n dir f ≡ some file
    → dir f ≡ some file
unfolding move_files
moved_file f (negsuc n) dir file e = e
moved_file f (pos zero) dir file e = e
moved_file f (pos (suc n)) dir file e = absurd (cc (e, (move_files-Rotated f n dir).current_free))

empty_put :
    (f : Bytes) (dir : Directory) (file : File) → put_file f (some []) dir f ≡ some file → file ≡ []
empty_put f dir file h = let same = rw (text_eq_refl f) at h in cc

refused_append :
    (write_error : Option Bytes) (content : Bytes) (time : Time) (w : Writer) (dir : Directory)
    (why : WriteError) (file : File)
    → (append_to write_error content time w dir).2 ≡ some why
    → (append_to write_error content time w dir).0 w.filename ≡ some file
    → dir w.filename ≡ some file
unfolding append_to
refused_append (some err) content time w dir why file e h = h
refused_append none content time w dir why file e h = absurd (cc)

-- A rotation that is refused, or the write behind it, leaves the moved files, or an empty one.
refused_rotation :
    (create_error header_error write_error : Option Bytes) (content : Bytes) (time : Time)
    (w : Writer) (moved : Directory) (why : WriteError) (file : File)
    → (after_rotation write_error content time w (create_file create_error header_error w moved)).2
      ≡ some why
    → (after_rotation write_error content time w (create_file create_error header_error w moved)).0
        w.filename
      ≡ some file
    → (moved w.filename ≡ some file) ⊎ (file ≡ [])
unfolding after_rotation create_file append_to
refused_rotation (some err) header_error write_error content time w moved why file e h = inl h
refused_rotation none (some err) write_error content time w moved why file e h =
    inr (empty_put w.filename moved file h)
refused_rotation none none (some err) content time w moved why file e h =
    inr (empty_put w.filename moved file h)
refused_rotation none none none content time w moved why file e h = absurd (cc)

-- A write that is refused leaves the current file, or takes it away, or leaves an empty one.
refused_file :
    (x : Write) (w : Writer) (dir : Directory) (why : WriteError) (file : File)
    → (write_packet x.attempt x.write_error x.content x.time w dir).2 ≡ some why
    → (after x w dir).0 w.filename ≡ some file
    → (dir w.filename ≡ some file) ⊎ (file ≡ [])
unfolding write_packet rotate
refused_file x w dir why file e h = elim (Bool-cases (rotation_due w)) [
  | inl due ↦
      elim (refused_rotation x.attempt.create_error x.attempt.header_error x.write_error x.content
        x.time w (move_files w.filename w.max_backups dir) why file (rw due at e) (rw due at h)) [
          | inl moved ↦ inl (moved_file w.filename w.max_backups dir file moved)
          | inr empty ↦ inr empty
        ]
  | inr fits ↦
      inl
        (refused_append x.write_error x.content x.time w dir why file (rw fits at e) (rw fits at h))
]

after-filename :
    (x : Write) (w : Writer) (dir : Directory) → (after x w dir).1.filename ≡ w.filename
unfolding write_packet after_rotation append_to rotate create_file
after-filename x w dir = ground arith

module _ (mb longest : ℕ) (positive : 0 < mb) (small : mb < 2 ^ 43) where
  after-IsHeld :
      (x : Write) (w : Writer) (dir : Directory)
      → (after x w dir).1.bytes_written ≤ mb * 2 ^ 20 + longest
      → IsKept mb longest (dir, w)
      → IsHeld mb longest (after x w dir)
  after-IsHeld x w dir small_count h file there =
      let there' = ap (after x w dir).0 (sym (after-filename x w dir)) ∙ there in
      elim (write_packet-Written x.content x.time x.attempt x.write_error w dir h.consistent) [
        | written old source e f d b ↦
            let same : file ≡ old ++ (record { time = x.time; content = x.content }) ∷ [] = cc in
            omega (arith, ap total same, b, small_count)
        | refused why e f c ↦ elim (refused_file x w dir why file e there') [
          | inl kept ↦ h.held file kept
          | inr empty ↦ omega (arith, ap total empty)
        ]
      ]

  after-IsKept :
      (x : Write) (w : Writer) (dir : Directory)
      → length x.content ≤ longest
      → IsKept mb longest (dir, w)
      → IsKept mb longest (after x w dir)
  after-IsKept x w dir short h =
      let bounded' =
        write_packet-bound x.attempt x.write_error x.content x.time w dir mb longest h.same_size
          positive small short h.bounded in
      record {
        consistent = write_packet-IsConsistent x w dir h.consistent;
        same_size = write_packet-max_size_mb x w dir ∙ h.same_size;
        bounded = bounded';
        held = after-IsHeld x w dir bounded' h;
      }

  write_all-IsKept :
      (xs : List Write) (s : Directory × Writer)
      → All (λ x. length x.content ≤ longest) xs
      → IsKept mb longest s
      → IsKept mb longest (write_all xs s)
  unfolding write_all
  write_all-IsKept [] (dir, w) short h = h
  write_all-IsKept (x ∷ xs) (dir, w) short h =
      write_all-IsKept xs (after x w dir) short.1 (after-IsKept x w dir short.0 h)

created_file :
    (create_error header_error : Option Bytes) (w w' : Writer) (dir : Directory) (file : File)
    → (create_file create_error header_error w dir).1 ≡ ok w'
    → (create_file create_error header_error w dir).0 w'.filename ≡ some file
    → file ≡ []
unfolding create_file
created_file (some why) header_error w w' dir file e h = absurd (cc)
created_file none (some why) w w' dir file e h = absurd (cc)
created_file none none w w' dir file e h =
    let same = ap (λ (x : Writer). x.filename) (ok-injective _ w' e) in
    empty_put w.filename dir file (ap (put_file w.filename (some []) dir) same ∙ h)

new_writer-IsKept :
    (attempt : Attempt) (filename : Bytes) (mb longest : ℕ) (max_backups : ℤ) (dir : Directory)
    (w : Writer)
    → (new_writer attempt filename (pos mb) max_backups dir).1 ≡ ok w
    → IsKept mb longest ((new_writer attempt filename (pos mb) max_backups dir).0, w)
unfolding new_writer create_file
new_writer-IsKept attempt filename mb longest max_backups dir w e = record {
  consistent = new_writer-IsConsistent attempt filename (pos mb) max_backups dir w e;
  same_size = ground arith;
  bounded = ground arith;
  held = λ file there.
      omega (
        arith,
        ap total (created_file attempt.create_error attempt.header_error _ w _ file e there),
      );
}

-- A writer that `NewWriter` made with a limit of `mb` megabytes, positive and below 2 ^ 43, and that
-- then writes any packets of at most `longest` bytes, whatever fails on the way: if there is a current
-- file, then the bytes of its packets are within the limit and one packet.
pub write_all-IsBounded :
    (attempt : Attempt) (filename : Bytes) (mb longest : ℕ) (max_backups : ℤ) (dir : Directory)
    (w : Writer) (xs : List Write)
    → (new_writer attempt filename (pos mb) max_backups dir).1 ≡ ok w
    → 0 < mb
    → mb < 2 ^ 43
    → All (λ x. length x.content ≤ longest) xs
    → (file : File)
    → (write_all xs ((new_writer attempt filename (pos mb) max_backups dir).0, w)).0
        (write_all xs ((new_writer attempt filename (pos mb) max_backups dir).0, w)).1.filename
      ≡ some file
    → total file ≤ mb * 2 ^ 20 + longest
write_all-IsBounded attempt filename mb longest max_backups dir w xs e positive small short =
    (write_all-IsKept mb longest positive small xs _ short
      (new_writer-IsKept attempt filename mb longest max_backups dir w e)).held
