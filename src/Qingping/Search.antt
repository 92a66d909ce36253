-- ===== src/Qingping/Search.antt =====
-- Where `bytes.IndexByte` and `bytes.LastIndexByte` find a byte.
use tzsp_server.Prelude.{
  ℕ, zero, suc, ◌<◌, ◌≡◌, refl, none, some, [], ◌∷◌, ◌++◌, Bytes, length, take, drop, drop-drop,
  subst, ◌≤◌, ◌+◌, ◌-◌, Option-cases, arith,
}
use tzsp_server.Prelude.Separators.{Without}
use tzsp_server.Qingping.{index_byte, last_index_byte}

-- The first place of `c`: nothing of it before, and `c` itself there.
pub index_byte-first :
    (before rest : Bytes) (c : ℕ)
    → Without c before
    → index_byte (before ++ c ∷ rest) c ≡ some (length before)
unfolding index_byte
index_byte-first [] rest c h = ground arith
index_byte-first (b ∷ before) rest c h = ground (arith, index_byte-first before rest c h.1)

pub index_byte-none : (s : Bytes) (c : ℕ) → Without c s → index_byte s c ≡ none
unfolding index_byte
index_byte-none [] c h = refl
index_byte-none (b ∷ s) c h = ground (arith, index_byte-none s c h.1)

pub last_index_byte-none : (s : Bytes) (c : ℕ) → Without c s → last_index_byte s c ≡ none
unfolding last_index_byte
last_index_byte-none [] c h = refl
last_index_byte-none (b ∷ s) c h = ground (arith, last_index_byte-none s c h.1)

pub last_index_byte-Without : (s : Bytes) (c : ℕ) → last_index_byte s c ≡ none → Without c s
unfolding last_index_byte
last_index_byte-Without [] c h = tt
last_index_byte-Without (b ∷ s) c h = ground (arith, last_index_byte-Without s c)

-- The last place of `c`.
pub last_index_byte-last :
    (before rest : Bytes) (c : ℕ)
    → Without c rest
    → last_index_byte (before ++ c ∷ rest) c ≡ some (length before)
unfolding last_index_byte
last_index_byte-last [] rest c h = ground (arith, last_index_byte-none rest c h)
last_index_byte-last (b ∷ before) rest c h = ground (arith, last_index_byte-last before rest c h)

pub Without-drop : (c n : ℕ) (s : Bytes) → Without c s → Without c (drop n s)
Without-drop c zero s h = h
Without-drop c (suc n) [] h = tt
Without-drop c (suc n) (b ∷ s) h = Without-drop c n s h.1

-- Behind a place without the byte, every place is.
pub Without-later : (c m n : ℕ) (s : Bytes) → m ≤ n → Without c (drop m s) → Without c (drop n s)
Without-later c m n s le h =
    let at : m + (n - m) ≡ n = omega arith in
    subst (λ (k : ℕ). Without c (drop k s)) at
      (subst (Without c) (drop-drop (n - m) m s) (Without-drop c (n - m) (drop m s) h))

-- What is not found is not there.
pub index_byte-Without : (s : Bytes) (c : ℕ) → index_byte s c ≡ none → Without c s
unfolding index_byte
index_byte-Without [] c h = tt
index_byte-Without (b ∷ s) c h =
    ground (arith, Option-cases (index_byte s c), index_byte-Without s c)

-- Nothing before the index that is found is the byte.
pub index_byte-before : (s : Bytes) (c i : ℕ) → index_byte s c ≡ some i → Without c (take i s)
unfolding index_byte
index_byte-before [] c i h = absurd (cc)
index_byte-before (b ∷ s) c zero h = tt
index_byte-before (b ∷ s) c (suc i) h =
    ground (arith, Option-cases (index_byte s c), index_byte-before s c i)

-- An index that is found is in range, and splits the text there.
pub index_byte-drop :
    (s : Bytes) (c i : ℕ)
    → index_byte s c ≡ some i
    → (i < length s) × (drop i s ≡ c ∷ drop (suc i) s)
unfolding index_byte
index_byte-drop [] c i h = absurd (cc)
index_byte-drop (b ∷ s) c zero h = ground (arith, Option-cases (index_byte s c))
index_byte-drop (b ∷ s) c (suc i) h = ground (arith, index_byte-drop s c i)

pub last_index_byte-drop :
    (s : Bytes) (c i : ℕ)
    → last_index_byte s c ≡ some i
    → (i < length s) × (drop i s ≡ c ∷ drop (suc i) s) × Without c (drop (suc i) s)
unfolding last_index_byte
last_index_byte-drop [] c i h = absurd (cc)
last_index_byte-drop (b ∷ s) c zero h =
    ground (arith, Option-cases (last_index_byte s c), last_index_byte-Without s c)
last_index_byte-drop (b ∷ s) c (suc i) h = ground (arith, last_index_byte-drop s c i)
