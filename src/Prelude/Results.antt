-- ===== src/Prelude/Results.antt =====
-- Go's `(value, error)` results. `panic` is a run-time panic (an index or a slice out of range), and
-- `stuck` is no Go behaviour: a loop of the model ran out of fuel.
use Prim.Native.Nat.{ℕ, suc, ◌-◌, ◌≤◌, ◌<◌}
use mathlib.Core.Path.{◌≡◌, refl, ap, ◌∙◌}
use mathlib.Core.Bool.{◌&&◌}
use mathlib.Core.Logic.{◌≢◌}
use mathlib.Core.List.{List, ◌∷◌}
use mathlib.Core.Option.{none, some}
use native.Mathlib.Omega.{arith}
use tzsp_server.Prelude.Tests.{leb, if◌then◌else◌}
use tzsp_server.Prelude.Lists.{
  Bytes, length, get_elem?, get_elem?-drop, drop-get_elem?, take, drop, take_all, length-drop,
}

pub data Result (E A : Type 0) : Type 0 where
  ok : A → Result E A
  err : E → Result E A
  panic : Result E A
  stuck : Result E A

module _ {E A B : Type 0} where
  infixl 5 ◌>>=◌
  abbrev pub ◌>>=◌ : Result E A → (A → Result E B) → Result E B
  ok a >>= f = f a
  err e >>= f = err e
  panic >>= f = panic
  stuck >>= f = stuck

  pub bind-eq-ok :
      (m : Result E A) (f : A → Result E B) {b : B}
      → (m >>= f) ≡ ok b
      → (a : A) × (m ≡ ok a) × (f a ≡ ok b)
  bind-eq-ok (ok a) f h = (a, refl, h)
  bind-eq-ok (err e) f h = cc
  bind-eq-ok panic f h = cc
  bind-eq-ok stuck f h = cc

-- The function returned: a value or an error, with no panic, and the fuel was enough.
abbrev pub Returns : {E A : Type 0} → Result E A → Type 0
Returns r = (r ≢ panic) × (r ≢ stuck)

-- `s[i]`
unfoldable pub index : {E A : Type 0} → List A → ℕ → Result E A
index s i = elim (get_elem? s i) [ some b ↦ ok b | none ↦ panic ]

-- `s[from:to]`
unfoldable pub slice : {E : Type 0} → Bytes → ℕ → ℕ → Result E Bytes
slice s from to =
    if leb from to && leb to (length s) then ok (take (to - from) (drop from s)) else panic

-- Reading where an element is known to stand.
pub index-drop :
    {E A : Type 0} (s : List A) (i : ℕ) (x : A) (r : List A)
    → drop i s ≡ x ∷ r
    → index {E = E} s i ≡ ok x
unfolding index
index-drop s i x r e = ground (arith, (get_elem?-drop s i e).0)

pub slice_lem :
    {E : Type 0} (s : Bytes) (from to : ℕ)
    → from ≤ to
    → to ≤ length s
    → slice {E = E} s from to ≡ ok (take (to - from) (drop from s))
unfolding slice
slice_lem s from to h k = ground arith

pub slice_to_end :
    {E : Type 0} (s : Bytes) (from : ℕ)
    → from ≤ length s
    → slice {E = E} s from (length s) ≡ ok (drop from s)
slice_to_end s from h =
    let width : length s - from ≡ length (drop from s) = omega (arith, length-drop from s) in
    slice_lem s from (length s) h (omega arith) ∙ rw width (ap ok (take_all (drop from s)))

pub ok-injective : {E A : Type 0} (x y : A) → ◌≡◌ {A = Result E A} (ok x) (ok y) → x ≡ y
ok-injective x y e = cc

pub index-lt :
    {E A : Type 0} (s : List A) (i : ℕ) → i < length s → (x : A) × (index {E = E} s i ≡ ok x)
index-lt s i h = let (x, e, d) = drop-get_elem? s i h in (x, index-drop s i x (drop (suc i) s) d)
