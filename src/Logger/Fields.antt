-- ===== src/Logger/Fields.antt =====
-- The fields of a log call.
use tzsp_server.Prelude.{◌≡◌, refl, none, some, Option, List, [], ◌∷◌, Bytes, arith, if◌then◌else◌}
use tzsp_server.Prelude.Text.{text_eq, text_eq_iff}
use tzsp_server.Logger.{Argument, string, LogFields, set_field, parse_fields_from, parse_fields}

-- The value of a field.
abbrev pub field_at : Bytes → LogFields → Option Argument
field_at key [] = none
field_at key ((k, v) ∷ m) = if text_eq k key then some v else field_at key m

-- The arguments of pairs of a name and a value.
abbrev pub flatten : List (Bytes × Argument) → List Argument
flatten [] = []
flatten ((k, v) ∷ pairs) = string k ∷ v ∷ flatten pairs

-- The last value of a name among pairs.
abbrev pub last_of : Bytes → List (Bytes × Argument) → Option Argument → Option Argument
last_of key [] before = before
last_of key ((k, v) ∷ pairs) before = last_of key pairs (if text_eq k key then some v else before)

field_at-set_field :
    (key k : Bytes) (v : Argument) (m : LogFields)
    → field_at k (set_field key v m) ≡ (if text_eq key k then some v else field_at k m)
unfolding set_field
field_at-set_field key k v [] = refl
field_at-set_field key k v ((j, w) ∷ m) =
    ground
      (arith, text_eq_iff j key, text_eq_iff j k, text_eq_iff key k, field_at-set_field key k v m)

field_at-from :
    (key : Bytes) (pairs : List (Bytes × Argument)) (result : LogFields)
    → field_at key (parse_fields_from result (flatten pairs))
      ≡ last_of key pairs (field_at key result)
unfolding parse_fields_from
field_at-from key [] result = refl
field_at-from key ((k, v) ∷ pairs) result =
    rw (field_at-from key pairs (set_field k v result), field_at-set_field k key v result) refl

-- From names and values in turn, `parseFields` gives each name its last value, and no other name any.
pub field_at-parse_fields :
    (key : Bytes) (pairs : List (Bytes × Argument))
    → field_at key (parse_fields (flatten pairs)) ≡ last_of key pairs none
field_at-parse_fields key pairs = field_at-from key pairs []
