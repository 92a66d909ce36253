-- ===== src/Prelude/Separators.antt =====
-- Splitting a text at a separator: at the first one, or at the last one.
use Prim.Native.Nat.{ℕ}
use mathlib.Core.Path.{◌≡◌, refl, sym}
use mathlib.Core.Logic.{◌≢◌}
use mathlib.Core.List.{[], ◌∷◌, ◌++◌}
use tzsp_server.Prelude.Lists.{Bytes, All}

abbrev pub Without : ℕ → Bytes → Type 0
Without c = All (λ b. b ≢ c)

tail_eq : {x y : ℕ} {s t : Bytes} → x ∷ s ≡ y ∷ t → s ≡ t
tail_eq e = cc

head_eq : {x y : ℕ} {s t : Bytes} → x ∷ s ≡ y ∷ t → x ≡ y
head_eq e = cc

-- A text without the separator is not one with it.
Without-ne : (c : ℕ) (s a r : Bytes) → Without c s → s ≢ a ++ c ∷ r
Without-ne c [] [] r h e = cc
Without-ne c [] (y ∷ a) r h e = cc
Without-ne c (x ∷ s) [] r h e = h.0 (head_eq e)
Without-ne c (x ∷ s) (y ∷ a) r h e = Without-ne c s a r h.1 (tail_eq e)

pub split_first :
    (c : ℕ) (a b r t : Bytes)
    → Without c a
    → Without c b
    → a ++ c ∷ r ≡ b ++ c ∷ t
    → (a ≡ b) × (r ≡ t)
split_first c [] [] r t ha hb e = (refl, tail_eq e)
split_first c [] (y ∷ b) r t ha hb e = absurd (hb.0 (sym (head_eq e)))
split_first c (x ∷ a) [] r t ha hb e = absurd (ha.0 (head_eq e))
split_first c (x ∷ a) (y ∷ b) r t ha hb e =
    let (p, q) = split_first c a b r t ha.1 hb.1 (tail_eq e) in (cc (p, head_eq e), q)

pub split_last :
    (c : ℕ) (a b r t : Bytes)
    → Without c r
    → Without c t
    → a ++ c ∷ r ≡ b ++ c ∷ t
    → (a ≡ b) × (r ≡ t)
split_last c [] [] r t hr ht e = (refl, tail_eq e)
split_last c [] (y ∷ b) r t hr ht e = absurd (Without-ne c r b t hr (tail_eq e))
split_last c (x ∷ a) [] r t hr ht e = absurd (Without-ne c t a r ht (sym (tail_eq e)))
split_last c (x ∷ a) (y ∷ b) r t hr ht e =
    let (p, q) = split_last c a b r t hr ht (tail_eq e) in (cc (p, head_eq e), q)
