-- ===== src/Prelude/Decimal.antt =====
-- `fmt.Sprintf("%d", n)` of an unsigned number, and the number that its digits stand for.
use tzsp_server.Prelude.Tests.{ltb, if◌then◌else◌, Bool-cases}
use tzsp_server.Prelude.Lists.{Bytes, All, All-append}
use Prim.Native.Nat.{ℕ, zero, suc, ◌+◌, ◌-◌, ◌*◌, ◌/◌, ◌%◌, ◌≤◌, ◌<◌}
use mathlib.Core.Path.{◌≡◌, refl, sym, ap, ◌∙◌}
use mathlib.Core.Logic.{inl, inr}
use mathlib.Core.Bool.{true, false}
use mathlib.Core.List.{[], ◌∷◌, ◌++◌}
use native.Mathlib.Omega.{arith}

-- The digits of n, for a fuel above n.
digits_of : ℕ → ℕ → Bytes
digits_of zero n = []
digits_of (suc f) n =
    let front = digits_of f (n / 10) in
    if ltb n 10 then (48 + n) ∷ [] else front ++ (48 + n % 10) ∷ []

unfoldable pub decimal : ℕ → Bytes
unfolding digits_of
decimal n = digits_of (suc n) n

pub value_from : ℕ → Bytes → ℕ
value_from acc [] = acc
value_from acc (c ∷ s) = value_from (acc * 10 + (c - 48)) s

value_from-concat :
    (s : Bytes) (acc c : ℕ) → value_from acc (s ++ c ∷ []) ≡ value_from acc s * 10 + (c - 48)
unfolding value_from
value_from-concat [] acc c = refl
value_from-concat (x ∷ s) acc c = value_from-concat s (acc * 10 + (x - 48)) c

digits_of-value : (f n : ℕ) → n < f → value_from 0 (digits_of f n) ≡ n
unfolding digits_of value_from
digits_of-value zero n h = absurd (omega arith)
digits_of-value (suc f) n h = elim (Bool-cases (ltb n 10)) [
  | inl small ↦ rw small (omega arith)
  | inr large ↦ rw large (
      let step : value_from 0 (digits_of f (n / 10)) ≡ n / 10 =
        digits_of-value f (n / 10) (ground arith) in
      rw value_from-concat (rw step (omega arith)))
]

-- A printed number is read back.
pub decimal-value : (n : ℕ) → value_from 0 (decimal n) ≡ n
unfolding decimal
decimal-value n = digits_of-value (suc n) n (omega arith)

-- Different numbers print differently.
pub decimal-injective : (n m : ℕ) → decimal n ≡ decimal m → n ≡ m
decimal-injective n m e = sym (decimal-value n) ∙ ap (value_from 0) e ∙ decimal-value m

abbrev pub IsDigit : ℕ → Type 0
IsDigit c = (48 ≤ c) × (c ≤ 57)

digits_of-IsDigit : (f n : ℕ) → All IsDigit (digits_of f n)
unfolding digits_of
digits_of-IsDigit zero n = tt
digits_of-IsDigit (suc f) n = elim (Bool-cases (ltb n 10)) [
  | inl small ↦ rw small (ground arith)
  | inr large ↦
      rw large
        (All-append IsDigit (digits_of f (n / 10)) _ (digits_of-IsDigit f (n / 10)) (omega arith))
]

pub decimal-IsDigit : (n : ℕ) → All IsDigit (decimal n)
unfolding decimal
decimal-IsDigit n = digits_of-IsDigit (suc n) n

digits_of-fuel : (f g n : ℕ) → n < f → n < g → digits_of f n ≡ digits_of g n
unfolding digits_of
digits_of-fuel zero g n h k = absurd (omega arith)
digits_of-fuel (suc f) zero n h k = absurd (omega arith)
digits_of-fuel (suc f) (suc g) n h k = elim (Bool-cases (ltb n 10)) [
  | inl small ↦ rw small refl
  | inr large ↦ rw large (
      ap (λ (s : Bytes). s ++ (48 + n % 10) ∷ [])
        (digits_of-fuel f g (n / 10) (ground arith) (ground arith)))
]

-- The last digit stands behind the digits of the quotient.
pub decimal_step : (n : ℕ) → 10 ≤ n → decimal n ≡ decimal (n / 10) ++ (48 + n % 10) ∷ []
unfolding decimal digits_of
decimal_step n h =
    let large : ltb n 10 ≡ false = ground arith in
    rw large (
      ap (λ (s : Bytes). s ++ (48 + n % 10) ∷ [])
        (digits_of-fuel n (suc (n / 10)) (n / 10) (omega arith) (omega arith)))

pub decimal_digit : (n : ℕ) → n < 10 → decimal n ≡ (48 + n) ∷ []
unfolding decimal digits_of
decimal_digit n h = let small : ltb n 10 ≡ true = ground arith in rw small refl
