-- ===== src/Netflow/Sums.antt =====
-- The sum of a measure over the flows of a table, under `insert` and `delete`.
use tzsp_server.Prelude.{ℕ, ◌+◌, ◌≤◌, ◌≡◌, refl, ap, Option, none, some, [], ◌∷◌, Bytes, arith}
use tzsp_server.Prelude.Text.{text_eq_iff}
use tzsp_server.Netflow.{Flow, Flows, lookup, insert, delete}
use tzsp_server.Netflow.Table.{lookup-insert, lookup-delete}

-- No key stands twice.
abbrev pub IsTable : Flows → Type 0
IsTable [] = Unit {0}
IsTable ((k, f) ∷ m) = (lookup k m ≡ none) × IsTable m

delete-absent : (key : Bytes) (m : Flows) → lookup key m ≡ none → delete key m ≡ m
unfolding lookup delete
delete-absent key [] h = refl
delete-absent key ((k, f) ∷ m) h = ground (arith, delete-absent key m)

pub insert-IsTable : (key : Bytes) (f : Flow) (m : Flows) → IsTable m → IsTable (insert key f m)
unfolding insert lookup
insert-IsTable key f [] h = (refl, tt)
insert-IsTable key f ((k, g) ∷ m) h = ground (
  arith,
  insert-IsTable key f m h.1,
  lookup-insert key k f m,
  text_eq_iff k key,
  text_eq_iff key k,
)

pub delete-IsTable : (key : Bytes) (m : Flows) → IsTable m → IsTable (delete key m)
unfolding delete
delete-IsTable key [] h = tt
delete-IsTable key ((k, g) ∷ m) h =
    ground
      (arith, delete-IsTable key m h.1, lookup-delete key k m, text_eq_iff k key, text_eq_iff key k)

module _ (measure : Flow → ℕ) where
  abbrev pub in_table : Flows → ℕ
  in_table [] = 0
  in_table ((k, f) ∷ m) = measure f + in_table m

  abbrev pub of_option : Option Flow → ℕ
  of_option none = 0
  of_option (some f) = measure f

  pub in_table-insert :
      (key : Bytes) (f : Flow) (m : Flows)
      → in_table (insert key f m) + of_option (lookup key m) ≡ in_table m + measure f
  unfolding insert lookup
  in_table-insert key f [] = omega arith
  in_table-insert key f ((k, g) ∷ m) = ground (arith, in_table-insert key f m)

  in_table-absent :
      (key : Bytes) (m : Flows) → lookup key m ≡ none → in_table (delete key m) ≡ in_table m
  in_table-absent key m h = ap in_table (delete-absent key m h)

  pub in_table-delete :
      (key : Bytes) (m : Flows)
      → IsTable m
      → in_table (delete key m) + of_option (lookup key m) ≡ in_table m
  unfolding delete lookup
  in_table-delete key [] h = omega arith
  in_table-delete key ((k, g) ∷ m) h =
      ground (arith, in_table-delete key m h.1, text_eq_iff k key, in_table-absent key m)

  pub of_option-le : (key : Bytes) (m : Flows) → of_option (lookup key m) ≤ in_table m
  unfolding lookup
  of_option-le key [] = omega arith
  of_option-le key ((k, g) ∷ m) = ground (arith, of_option-le key m)
