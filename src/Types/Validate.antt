-- ===== src/Types/Validate.antt =====
-- internal/types/document.go (isValidKey, validate) and internal/types/types.go (validateValue).
use sap_hana_compatibility_l.Prelude.{
  List, [], ◌∷◌, Bool, true, false, not, ◌&&◌, Option, none, some, ◌==◌, leb, if◌then◌else◌, Bytes,
  bytes_eq, length, Outcome, ok, err, ◌>>=◌, ◌>>◌, guard, count_mismatch, invalid_key,
  key_not_found, duplicate_key, unhandled_type,
}
use sap_hana_compatibility_l.GoStd.{valid_string}
use sap_hana_compatibility_l.Types.Value.{
  Value, Fields, document, array, double, string, binary, object_id, bool, date_time, null, regex,
  int32, timestamp, int64, cstring, other, end, field, Document,
}
use sap_hana_compatibility_l.Types.Fields.{count, contains}

-- `isValidKey`
unfoldable pub is_valid_key : Bytes → Bool
is_valid_key [] = false
is_valid_key (b ∷ bs) =
    if b == b'$' && leb (length (b ∷ bs)) 2 then false else valid_string (b ∷ bs)

-- The loop of `validate` over `d.keys`; `at` looks a key up in `d.m` and validates what it finds,
-- and `prev_keys` are the keys that the loop has passed.
unfoldable pub validate_keys :
    (Bytes → Option (Outcome (Unit {0}))) → List Bytes → List Bytes → Outcome (Unit {0})
unfolding is_valid_key contains
validate_keys at prev_keys [] = ok tt
validate_keys at prev_keys (key ∷ keys) = do
  guard (is_valid_key key) invalid_key
  value ← elim (at key) [ none ↦ err key_not_found | some v ↦ ok v ]
  guard (not (contains key prev_keys)) duplicate_key
  value
  validate_keys at (key ∷ prev_keys) keys

-- `validateValue`, with `Document.validate` in its first clause.
unfoldable mutual
  unfolding validate_keys count

  pub validate_value : Value → Outcome (Unit {0})
  validate_value (document m keys) = do
    guard (count m == length keys) count_mismatch
    validate_keys (validate_at m) [] keys
  validate_value (array xs) = ok tt
  validate_value (double n) = ok tt
  validate_value (string s) = ok tt
  validate_value (binary t s) = ok tt
  validate_value (object_id s) = ok tt
  validate_value (bool b) = ok tt
  validate_value (date_time t n) = ok tt
  validate_value null = ok tt
  validate_value (regex p o) = ok tt
  validate_value (int32 n) = ok tt
  validate_value (timestamp n) = ok tt
  validate_value (int64 n) = ok tt
  validate_value (cstring s) = ok tt
  validate_value other = err unhandled_type

  -- Whether the key is in the map, and the verdict on its value.
  pub validate_at : Fields → Bytes → Option (Outcome (Unit {0}))
  validate_at end key = none
  validate_at (field j v m) key = elim (bytes_eq j key) [
    | true ↦ some (validate_value v)
    | false ↦ validate_at m key
  ]

-- `Document.validate`
unfoldable pub validate : Document → Outcome (Unit {0})
unfolding validate_value
validate d = validate_value (document d.m d.keys)
