-- ===== src/Pcap/Rotation.antt =====
-- A rotation moves every file one name on, and forgets only the oldest.
use tzsp_server.Prelude.{
  ℕ, zero, suc, ◌+◌, ◌≤◌, ◌<◌, ◌≡◌, ◌≢◌, refl, sym, ap, ◌∙◌, true, false, Option, none, some, Bytes,
  ◌==◌, if◌then◌else◌, Bool-cases, inl, inr, arith,
}
use tzsp_server.Prelude.Int.{pos}
use tzsp_server.Prelude.Text.{text_eq_refl}
use tzsp_server.Pcap.{
  File, Directory, rename, backup_name, rotate_backup, rotate_backups, backup_current, move_files,
}
use tzsp_server.Pcap.Files.{backup_name-injective, backup_name-ne, text_eq-backup_name, text_ne}

module _ (f : Bytes) where
  abbrev name : ℕ → Bytes
  name = backup_name f

  -- The backups below `k` are each a name on, and nothing else has changed.
  record Shifted (k : ℕ) (dir res : Directory) : Type 0 where
    moved : (j : ℕ) → j < k → res (name (suc j)) ≡ dir (name j)
    freed : res (name 0) ≡ none
    kept : (x : Bytes) → ((j : ℕ) → j ≤ k → name j ≢ x) → res x ≡ dir x

  names_ne : (i j : ℕ) → i ≢ j → name i ≢ name j
  names_ne i j h e = h (backup_name-injective f i j e)

  -- A rename of backup `i` to `i + 1`, seen at a backup and at another name.
  rename_at :
      (i j : ℕ) (dir : Directory)
      → rename (name i) (name (i + 1)) dir (name j)
        ≡ (if i == j then none else if i + 1 == j then dir (name i) else dir (name j))
  rename_at i j dir = rw (text_eq-backup_name f i j, text_eq-backup_name f (i + 1) j) refl

  rename_other :
      (i : ℕ) (x : Bytes) (dir : Directory)
      → name i ≢ x
      → name (suc i) ≢ x
      → rename (name i) (name (i + 1)) dir x ≡ dir x
  rename_other i x dir h k =
      let e : suc i ≡ i + 1 = omega arith in
      rw (text_ne (name i) x h, text_ne (name (i + 1)) x (λ p. k (ap name e ∙ p))) refl

  -- One round below the top backup leaves its own name free.
  record Stepped (i : ℕ) (dir res : Directory) : Type 0 where
    freed : res (name i) ≡ none
    raised : res (name (suc i)) ≡ dir (name i)
    kept : (x : Bytes) → name i ≢ x → name (suc i) ≢ x → res x ≡ dir x

  rotate_backup-Stepped :
      (m i : ℕ) (o : Option File) (dir : Directory)
      → i + 1 < m
      → dir (name i) ≡ o
      → dir (name (suc i)) ≡ none
      → Stepped i dir (rotate_backup f m i o dir)
  unfolding rotate_backup
  rotate_backup-Stepped m i none dir h e free = record {
    freed = e;
    raised = free ∙ sym e;
    kept = λ x n k. refl;
  }
  rotate_backup-Stepped m i (some file) dir h e free =
      let inner : (i + 1 == m) ≡ false = ground arith in
      simp inner (record {
        freed = rename_at i i dir ∙ ground arith;
        raised = rename_at i (suc i) dir ∙ ground arith;
        kept = λ x n k. rename_other i x dir n k;
      })

  shift_step :
      (i : ℕ) (dir mid res : Directory)
      → Stepped i dir mid
      → Shifted i mid res
      → Shifted (suc i) dir res
  shift_step i dir mid res s t = record {
    moved = λ j h. elim (Bool-cases (j == i)) [
      | inl top ↦
          let e : i ≡ j = ground arith in
          rw (← e) (
            t.kept (name (suc i)) (λ j k. names_ne j (suc i) (λ (p : j ≡ suc i). omega arith))
            ∙ s.raised)
      | inr below ↦
          t.moved j (ground arith)
          ∙ s.kept (name j) (names_ne i j (ground arith)) (names_ne (suc i) j (ground arith))
    ];
    freed = t.freed;
    kept = λ x n.
        t.kept x (λ j k. n j (omega arith))
        ∙ s.kept x (n i (omega arith)) (n (suc i) (omega arith));
  }

  rotate_backups-Shifted :
      (m k : ℕ) (dir : Directory)
      → k < m
      → dir (name k) ≡ none
      → Shifted k dir (rotate_backups f m k dir)
  unfolding rotate_backups
  rotate_backups-Shifted m zero dir h free = record {
    moved = λ j k. absurd (omega arith);
    freed = free;
    kept = λ x n. refl;
  }
  rotate_backups-Shifted m (suc i) dir h free =
      let s = rotate_backup-Stepped m i (dir (name i)) dir (omega arith) refl free in
      let mid = rotate_backup f m i (dir (name i)) dir in
      shift_step i dir mid (rotate_backups f m i mid) s
        (rotate_backups-Shifted m i mid (omega arith) s.freed)

  -- The first round: the oldest backup is removed.
  remove_oldest :
      (n : ℕ) (o : Option File) (dir : Directory)
      → dir (name n) ≡ o
      → (rotate_backup f (suc n) n o dir (name n) ≡ none)
        × ((x : Bytes) → name n ≢ x → rotate_backup f (suc n) n o dir x ≡ dir x)
  unfolding rotate_backup
  remove_oldest n none dir e = (e, (λ x h. refl))
  remove_oldest n (some file) dir e =
      let top : (n + 1 == suc n) ≡ true = ground arith in
      simp top (rw (text_eq_refl (name n)) refl, (λ x h. rw (text_ne (name n) x h) refl))

-- The directory after a rotation with `n + 1` backups.
pub record Rotated (f : Bytes) (n : ℕ) (dir res : Directory) : Type 0 where
  pub newest : res (backup_name f 0) ≡ dir f
  pub moved : (j : ℕ) → j < n → res (backup_name f (suc j)) ≡ dir (backup_name f j)
  pub current_free : res f ≡ none
  pub kept : (x : Bytes) → x ≢ f → ((j : ℕ) → j ≤ n → backup_name f j ≢ x) → res x ≡ dir x

module _ (f : Bytes) where
  backup_current-at :
      (o : Option File) (dir : Directory)
      → dir f ≡ o
      → dir (backup_name f 0) ≡ none
      → (backup_current f o dir (backup_name f 0) ≡ dir f)
        × (backup_current f o dir f ≡ none)
        × ((x : Bytes) → x ≢ f → backup_name f 0 ≢ x → backup_current f o dir x ≡ dir x)
  unfolding backup_current
  backup_current-at none dir e free = (free ∙ sym e, e, (λ x h k. refl))
  backup_current-at (some file) dir e free = (
    rw
        (
          text_ne f (backup_name f 0) (λ p. backup_name-ne f 0 (sym p)),
          text_eq_refl (backup_name f 0),
        )
        refl,
    rw (text_eq_refl f) refl,
    (λ x h k. rw (text_ne f x (λ p. h (sym p)), text_ne (backup_name f 0) x k) refl),
  )

  -- A rotation with `n + 1` backups moves the current file to the first backup and each backup to the
  -- next; the oldest is forgotten, the current name is free, and no other file is touched.
  pub move_files-Rotated :
      (n : ℕ) (dir : Directory) → Rotated f n dir (move_files f (pos (suc n)) dir)
  unfolding move_files rotate_backups
  move_files-Rotated n dir =
      let top = rotate_backup f (suc n) n (dir (backup_name f n)) dir in
      let (freed, kept) = remove_oldest f n (dir (backup_name f n)) dir refl in
      let s = rotate_backups-Shifted f (suc n) n top (omega arith) freed in
      let res = rotate_backups f (suc n) n top in
      let (newest, current_free, untouched) = backup_current-at (res f) res refl s.freed in
      let same_current = s.kept f (λ j h. backup_name-ne f j) ∙ kept f (backup_name-ne f n) in
      record {
        newest = newest ∙ same_current;
        moved = λ j h.
            untouched (backup_name f (suc j)) (backup_name-ne f (suc j))
              (names_ne f 0 (suc j) (λ (p : 0 ≡ suc j). omega arith))
            ∙ s.moved j h
            ∙ kept (backup_name f j) (names_ne f n j (λ (p : n ≡ j). omega arith));
        current_free = current_free;
        kept = λ x h k.
            untouched x h (k 0 (omega arith))
            ∙ s.kept x (λ j l. k j l)
            ∙ kept x (k n (omega arith));
      }
