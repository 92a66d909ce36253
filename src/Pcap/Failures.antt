-- ===== src/Pcap/Failures.antt =====
-- What the code does to the backups while the new file cannot be created: each packet tries the rotation
-- again, and each try moves the backups.
use tzsp_server.Prelude.{
  ℕ, zero, suc, ◌+◌, ◌≤◌, ◌<◌, ◌≡◌, refl, sym, ap, subst, ◌∙◌, true, none, some, List, [], ◌∷◌,
  Bytes, length, All, arith,
}
use tzsp_server.Prelude.Int.{ℤ, pos}
use tzsp_server.Pcap.{
  Directory, Writer, backup_name, move_files, rotate, create_file, rotation_due, after_rotation,
  write_packet,
}
use tzsp_server.Pcap.Rotation.{Rotated, move_files-Rotated}
use tzsp_server.Pcap.Session.{Write, after, write_all}

-- A write during which the file cannot be created.
pub record IsFailing (x : Write) : Type 0 where
  pub why : Bytes
  pub not_created : x.attempt.create_error ≡ some why

after_failed :
    (x : Write) (w : Writer) (dir : Directory)
    → IsFailing x
    → rotation_due w ≡ true
    → after x w dir ≡ (move_files w.filename w.max_backups dir, w)
unfolding write_packet rotate create_file after_rotation
after_failed x w dir h due = rw (due, h.not_created) refl

-- The current name is free, and so are the first `i` backups.
record IsGone (f : Bytes) (n i : ℕ) (dir : Directory) : Type 0 where
  no_current : dir f ≡ none
  no_backup : (j : ℕ) → j < i → j ≤ n → dir (backup_name f j) ≡ none

move_files-IsGone :
    (f : Bytes) (n i : ℕ) (dir : Directory)
    → IsGone f n i dir
    → IsGone f n (suc i) (move_files f (pos (suc n)) dir)
move_files-IsGone f n i dir h = record { no_current = r.current_free; no_backup = backup }
  where
    r : Rotated f n dir (move_files f (pos (suc n)) dir)
    r = move_files-Rotated f n dir

    backup : (j : ℕ) → j < suc i → j ≤ n → move_files f (pos (suc n)) dir (backup_name f j) ≡ none
    backup zero k l = r.newest ∙ h.no_current
    backup (suc j) k l = r.moved j (omega arith) ∙ h.no_backup j (omega arith) (omega arith)

module _ (w : Writer) (n : ℕ) (limit : w.max_backups ≡ pos (suc n))
    (due : rotation_due w ≡ true) where
  step :
      (x : Write) (dir : Directory)
      → IsFailing x
      → after x w dir ≡ (move_files w.filename (pos (suc n)) dir, w)
  step x dir h = after_failed x w dir h due ∙ ap (λ (m : ℤ). (move_files w.filename m dir, w)) limit

  write_all-IsGone :
      (xs : List Write) (i m : ℕ) (dir : Directory)
      → All IsFailing xs
      → IsGone w.filename n i dir
      → m ≤ length xs + i
      → IsGone w.filename n m (write_all xs (dir, w)).0
  unfolding write_all
  write_all-IsGone [] i m dir h g few = record {
    no_current = g.no_current;
    no_backup = λ j k l. g.no_backup j (omega arith) l;
  }
  write_all-IsGone (x ∷ xs) i m dir h g few =
      subst (λ (s : Directory × Writer). IsGone w.filename n m (write_all xs s).0)
        (sym (step x dir h.0))
        (write_all-IsGone xs (suc i) m (move_files w.filename (pos (suc n)) dir) h.1
          (move_files-IsGone w.filename n i dir g) (omega arith))

  -- The first failure already frees the current name.
  lost :
      (x : Write) (xs : List Write) (dir : Directory)
      → All IsFailing (x ∷ xs)
      → n < length xs
      → IsGone w.filename n (suc n) (write_all (x ∷ xs) (dir, w)).0
  unfolding write_all
  lost x xs dir h many =
      subst (λ (s : Directory × Writer). IsGone w.filename n (suc n) (write_all xs s).0)
        (sym (step x dir h.0))
        (write_all-IsGone xs 0 (suc n) (move_files w.filename (pos (suc n)) dir) h.1
          (record {
            no_current = (move_files-Rotated w.filename n dir).current_free;
            no_backup = λ j k l. absurd (omega arith);
          })
          (omega arith))

-- While a rotation is due and the new file cannot be created, the packets lose the capture: with
-- `n + 1` backups, after `n + 2` packets or more there is no backup left, and no current file.
pub write_all-lost :
    (w : Writer) (n : ℕ) (x : Write) (xs : List Write) (dir : Directory)
    → w.max_backups ≡ pos (suc n)
    → rotation_due w ≡ true
    → All IsFailing (x ∷ xs)
    → n < length xs
    → ((write_all (x ∷ xs) (dir, w)).0 w.filename ≡ none)
      × ((j : ℕ) → j ≤ n → (write_all (x ∷ xs) (dir, w)).0 (backup_name w.filename j) ≡ none)
write_all-lost w n x xs dir limit due h many =
    let gone = lost w n limit due x xs dir h many in
    (gone.no_current, λ j k. gone.no_backup j (omega arith) k)
