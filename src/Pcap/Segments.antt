-- ===== src/Pcap/Segments.antt =====
-- A store holds the end of the log of its writes, and how much of it.
use tzsp_server.Prelude.{
  ℕ, zero, suc, ◌+◌, ◌*◌, ◌≤◌, ◌<◌, ◌≡◌, refl, sym, ap, subst, ◌∙◌, ◌⊎◌, Option, none, some, List,
  [], ◌∷◌, ◌++◌, append-nil, append_assoc, Bytes, length, take, drop, drop-length, length-take, All,
  ltb, leb, Bool-cases, inl, inr, arith,
}
use tzsp_server.Pcap.{File, Captured}
use tzsp_server.Pcap.Bound.{total}
use tzsp_server.Pcap.Session.{Write}
use tzsp_server.Pcap.Store.{Store, added, accepted, accepted_of, packet_of, roll, keep, store_all}

-- The packets of the closed segments, oldest first.
unfoldable pub older : List File → File
older [] = []
older (b ∷ bs) = older bs ++ b

abbrev pub contents : Store → File
contents s = older s.backups ++ s.current

older-split : (n : ℕ) (bs : List File) → older bs ≡ older (drop n bs) ++ older (take n bs)
unfolding older
older-split zero bs = sym (append-nil (older bs))
older-split (suc n) [] = refl
older-split (suc n) (b ∷ bs) =
    ap (λ l. l ++ b) (older-split n bs) ∙ append_assoc (older (drop n bs)) (older (take n bs)) b

All-take : {A : Type 0} (P : A → Type 0) (n : ℕ) (xs : List A) → All P xs → All P (take n xs)
All-take P zero xs h = tt
All-take P (suc n) [] h = tt
All-take P (suc n) (x ∷ xs) h = (h.0, All-take P n xs h.1)

pub total-append : (xs ys : File) → total (xs ++ ys) ≡ total xs + total ys
total-append [] ys = omega arith
total-append (x ∷ xs) ys = omega (arith, total-append xs ys)

pub suc_times : (n k : ℕ) → suc n * k ≡ n * k + k
suc_times n k = omega arith

pub times_le : (a b k : ℕ) → a ≤ b → a * k ≤ b * k
times_le zero b k h = omega arith
times_le (suc a) zero k h = absurd (omega arith)
times_le (suc a) (suc b) k h =
    omega (arith, suc_times a k, suc_times b k, times_le a b k (omega arith))

-- If something is dropped, then all places for closed segments are taken.
roll-reason :
    (m : ℕ) (dropped current : File) (backups : List File)
    → (dropped ≡ []) ⊎ (length backups ≡ m)
    → (dropped ++ older (drop m (current ∷ backups)) ≡ [])
      ⊎ (length (take m (current ∷ backups)) ≡ m)
unfolding older
roll-reason m dropped current backups (inr full) =
    inr (omega (arith, length-take m (current ∷ backups)))
roll-reason m dropped current backups (inl nothing) =
    elim (Bool-cases (leb (suc (length backups)) m)) [
      | inl room ↦ inl (rw (drop-length m (current ∷ backups) (ground arith), nothing) refl)
      | inr taken ↦ inr (ground (arith, length-take m (current ∷ backups)))
    ]

module _ (limit longest : ℕ) where
  -- A closed segment is above the limit, by one packet at most.
  pub record IsClosed (b : File) : Type 0 where
    pub above : limit < total b
    pub near : total b ≤ limit + longest

  pub older-ge : (bs : List File) → All IsClosed bs → length bs * limit ≤ total (older bs)
  unfolding older
  older-ge [] h = omega arith
  older-ge (b ∷ bs) h =
      omega
        (arith, suc_times (length bs) limit, total-append (older bs) b, older-ge bs h.1, h.0.above)

  pub older-le :
      (bs : List File) → All IsClosed bs → total (older bs) ≤ length bs * (limit + longest)
  unfolding older
  older-le [] h = omega arith
  older-le (b ∷ bs) h = omega (
    arith,
    suc_times (length bs) (limit + longest),
    total-append (older bs) b,
    older-le bs h.1,
    h.0.near,
  )

  -- The store holds the end of the log, of which `dropped` is gone.
  pub record IsLog (m : ℕ) (log : File) (s : Store) : Type 0 where
    pub dropped : File
    pub whole : log ≡ dropped ++ contents s
    pub closed : All IsClosed s.backups
    pub few : length s.backups ≤ m
    pub reason : (dropped ≡ []) ⊎ (length s.backups ≡ m)
    pub short : total s.current ≤ limit + longest

  roll_full-IsLog :
      (m : ℕ) (log : File) (s : Store)
      → limit < total s.current
      → IsLog m log s
      → IsLog m log (record { current = []; backups = take m (s.current ∷ s.backups) })
  unfolding older
  roll_full-IsLog m log s full h =
      let all = s.current ∷ s.backups in
      let closed : All IsClosed all = (record { above = full; near = h.short }, h.closed) in
      record {
        dropped = h.dropped ++ older (drop m all);
        whole =
            h.whole
            ∙ ap (λ l. h.dropped ++ l) (older-split m all)
            ∙ sym (append_assoc h.dropped (older (drop m all)) (older (take m all)))
            ∙ sym (append-nil _)
            ∙ append_assoc _ _ [];
        closed = All-take IsClosed m all closed;
        few = omega (arith, length-take m all);
        reason = roll-reason m h.dropped s.current s.backups h.reason;
        short = omega arith;
      }

  -- A write closes the segment if it is above the limit, and adds to the current one.
  roll-IsLog :
      (m : ℕ) (log : File) (s : Store)
      → IsLog m log s
      → IsLog m log (roll limit m s) × (total (roll limit m s).current ≤ limit)
  roll-IsLog m log s h = elim (Bool-cases (ltb limit (total s.current))) [
    | inl full ↦ rw full (roll_full-IsLog m log s (ground arith) h, omega arith)
    | inr fits ↦ rw fits (h, ground arith)
  ]

  added-le : (o : Option Bytes) (p : Captured) → total (added o p) ≤ length p.content
  added-le none p = omega arith
  added-le (some why) p = omega arith

  keep-IsLog :
      (m : ℕ) (log : File) (s : Store) (x : Write)
      → length x.content ≤ longest
      → total s.current ≤ limit
      → IsLog m log s
      → IsLog m (log ++ accepted_of x) (keep limit m x s)
  keep-IsLog m log s x small fits h = record {
    dropped = h.dropped;
    whole =
        ap (λ l. l ++ accepted_of x) h.whole
        ∙ append_assoc h.dropped (contents s) (accepted_of x)
        ∙ ap (λ l. h.dropped ++ l) (append_assoc (older s.backups) s.current (accepted_of x));
    closed = h.closed;
    few = h.few;
    reason = h.reason;
    short =
        omega (arith, total-append s.current (accepted_of x), added-le x.write_error (packet_of x));
  }

  pub store_all-IsLog :
      (m : ℕ) (xs : List Write) (log : File) (s : Store)
      → All (λ x. length x.content ≤ longest) xs
      → IsLog m log s
      → IsLog m (log ++ accepted xs) (store_all limit m xs s)
  unfolding store_all accepted
  store_all-IsLog m [] log s small h = subst (λ l. IsLog m l s) (sym (append-nil log)) h
  store_all-IsLog m (x ∷ xs) log s small h =
      let (rolled, fits) = roll-IsLog m log s h in
      subst (λ l. IsLog m l (store_all limit m (x ∷ xs) s))
        (append_assoc log (accepted_of x) (accepted xs))
        (store_all-IsLog m xs (log ++ accepted_of x) (keep limit m x (roll limit m s)) small.1
          (keep-IsLog m log (roll limit m s) x small.0 fits rolled))

abbrev pub empty : Store
empty = record { current = []; backups = [] }

pub empty-IsLog : (limit longest m : ℕ) → IsLog limit longest m [] empty
unfolding older
empty-IsLog limit longest m = record {
  dropped = [];
  whole = refl;
  closed = tt;
  few = omega arith;
  reason = inl refl;
  short = omega arith;
}
