-- ===== src/Pcap/Files.antt =====
-- The names of the backups differ from one another and from the current file's.
use tzsp_server.Prelude.{
  ℕ, zero, suc, ◌+◌, ◌≡◌, ◌≢◌, refl, sym, ap, ◌∙◌, false, [], ◌∷◌, ◌++◌, Bytes, length,
  length-append, ◌==◌, ==_iff, Bool-cases, inl, inr, arith,
}
use tzsp_server.Prelude.Text.{codes, text_eq, text_eq_iff}
use tzsp_server.Prelude.Decimal.{decimal, decimal-injective}
use tzsp_server.Pcap.{backup_name}

append-cancel : (f a b : Bytes) → f ++ a ≡ f ++ b → a ≡ b
append-cancel [] a b e = e
append-cancel (x ∷ f) a b e = append-cancel f a b (cc)

decimal_one : decimal 1 ≡ codes "1"
unfolding decimal
decimal_one = refl

-- One form for every index.
backup_name-decimal : (f : Bytes) (i : ℕ) → backup_name f i ≡ f ++ (b'.' ∷ decimal (i + 1))
unfolding backup_name
backup_name-decimal f zero = ap (λ (d : Bytes). f ++ (b'.' ∷ d)) (sym decimal_one)
backup_name-decimal f (suc i) = let e : (suc i == 0) ≡ false = ground arith in rw e refl

pub backup_name-injective : (f : Bytes) (i j : ℕ) → backup_name f i ≡ backup_name f j → i ≡ j
backup_name-injective f i j e =
    let tails = append-cancel f _ _ (sym (backup_name-decimal f i) ∙ e ∙ backup_name-decimal f j) in
    let numbers = decimal-injective (i + 1) (j + 1) (cc) in omega arith

pub backup_name-ne : (f : Bytes) (i : ℕ) → backup_name f i ≢ f
backup_name-ne f i e =
    omega (
      arith,
      ap length (sym (backup_name-decimal f i) ∙ e),
      length-append f (b'.' ∷ decimal (i + 1)),
    )

-- The tests of names that the directory makes.
pub text_eq-backup_name :
    (f : Bytes) (i j : ℕ) → text_eq (backup_name f i) (backup_name f j) ≡ (i == j)
text_eq-backup_name f i j = elim (Bool-cases (i == j)) [
  | inl same ↦
      let e : i ≡ j = (==_iff i j).0 same in
      (text_eq_iff (backup_name f i) (backup_name f j)).1 (ap (backup_name f) e) ∙ sym same
  | inr other ↦ elim (Bool-cases (text_eq (backup_name f i) (backup_name f j))) [
    | inl equal ↦
        let e = backup_name-injective f i j ((text_eq_iff _ _).0 equal) in absurd (ground arith)
    | inr apart ↦ apart ∙ sym other
  ]
]

pub text_ne : (a b : Bytes) → a ≢ b → text_eq a b ≡ false
text_ne a b h = elim (Bool-cases (text_eq a b)) [
  | inl equal ↦ absurd (h ((text_eq_iff a b).0 equal))
  | inr apart ↦ apart
]
