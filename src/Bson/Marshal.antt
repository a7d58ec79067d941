-- ===== src/Bson/Marshal.antt =====
-- internal/bson/{document,array}.go: the MarshalBinary methods of documents and arrays.
use sap_hana_compatibility_l.Prelude.{
  ℕ, ◌+◌, ◌%◌, ◌^◌, List, [], ◌∷◌, ◌++◌, true, false, Option, none, some, ◌==◌, if◌then◌else◌,
  Bytes, bytes_eq, length, Outcome, ok, err, panicked, unhandled_type, ◌>>=◌, ◌>>◌,
}
use sap_hana_compatibility_l.GoStd.{le_bytes, itoa}
use sap_hana_compatibility_l.Types.Value.{
  Value, Items, Fields, document, array, double, string, binary, object_id, bool, date_time, null,
  regex, int32, timestamp, int64, cstring, other, nil, cons, end, field, Document,
}
use sap_hana_compatibility_l.Types.Validate.{validate_value}
use sap_hana_compatibility_l.Bson.Scalar.{
  tag_double, tag_string, tag_document, tag_array, tag_object_id, tag_bool, tag_date_time, tag_null,
  tag_regex, tag_int32, tag_int64, cstring_marshal_binary, string_marshal_binary,
  bool_marshal_binary, regex_marshal_binary, int32_marshal_binary, int64_marshal_binary,
  double_marshal_binary, date_time_marshal_binary,
}

-- The loop of `Document.MarshalBinary` over `doc.keys`; `at` looks a key up in `doc.m` and gives
-- the tag and the bytes of its value.
unfoldable pub write_elements : (Bytes → Option (Outcome (ℕ × Bytes))) → List Bytes → Outcome Bytes
write_elements at [] = ok []
write_elements at (key ∷ keys) = do
  (tag, payload) ← elim (at key) [ none ↦ panicked | some o ↦ o ]
  more ← write_elements at keys
  ok (tag ∷ (cstring_marshal_binary key ++ (payload ++ more)))

-- The length, the elements and the terminating zero, with the check that the length is right.
unfoldable pub frame : Bytes → Outcome Bytes
frame elist =
    let l = (length elist + 5) % 2 ^ 32 in
    let res = le_bytes 4 l ++ (elist ++ 0 ∷ []) in
    if length res % 2 ^ 32 == l then ok res else panicked

-- The keys that `Array.MarshalBinary` makes, from index `i` on.
unfoldable pub array_keys : ℕ → Items → List Bytes
array_keys i nil = []
array_keys i (cons v xs) = itoa i ∷ array_keys (i + 1) xs

-- The tag and the bytes of an element's value. A document goes through `ConvertDocument`, which
-- validates it, and then through `WriteTo`; an array is written as a document that has the indexes
-- for keys, without a validation.
unfoldable mutual
  unfolding write_elements frame

  pub marshal_value : Value → Outcome (ℕ × Bytes)
  marshal_value (document m keys) = do
    validate_value (document m keys)
    elist ← write_elements (marshal_at m) keys
    b ← frame elist
    ok (tag_document, b)
  marshal_value (array xs) = do
    elist ← write_elements (marshal_index xs 0) (array_keys 0 xs)
    b ← frame elist
    ok (tag_array, b)
  marshal_value (double n) = ok (tag_double, double_marshal_binary n)
  marshal_value (string s) = ok (tag_string, string_marshal_binary s)
  marshal_value (binary t s) = err unhandled_type
  marshal_value (object_id s) = ok (tag_object_id, s)
  marshal_value (bool b) = ok (tag_bool, bool_marshal_binary b)
  marshal_value (date_time t n) = ok (tag_date_time, date_time_marshal_binary t n)
  marshal_value null = ok (tag_null, [])
  marshal_value (regex p o) = ok (tag_regex, regex_marshal_binary p o)
  marshal_value (int32 n) = ok (tag_int32, int32_marshal_binary n)
  marshal_value (timestamp n) = err unhandled_type
  marshal_value (int64 n) = ok (tag_int64, int64_marshal_binary n)
  marshal_value (cstring s) = err unhandled_type
  marshal_value other = err unhandled_type

  -- `doc.m[key]`, marshalled.
  pub marshal_at : Fields → Bytes → Option (Outcome (ℕ × Bytes))
  marshal_at end key = none
  marshal_at (field j v m) key = elim (bytes_eq j key) [
    | true ↦ some (marshal_value v)
    | false ↦ marshal_at m key
  ]

  -- The same in the map that has the array's values, from index `i` on, under their indexes.
  pub marshal_index : Items → ℕ → Bytes → Option (Outcome (ℕ × Bytes))
  marshal_index nil i key = none
  marshal_index (cons v xs) i key = elim (bytes_eq (itoa i) key) [
    | true ↦ some (marshal_value v)
    | false ↦ marshal_index xs (i + 1) key
  ]

-- `Document.MarshalBinary`
unfoldable pub document_marshal_binary : Document → Outcome Bytes
unfolding marshal_value
document_marshal_binary d = write_elements (marshal_at d.m) d.keys >>= frame

-- `Array.MarshalBinary`
unfoldable pub array_marshal_binary : Items → Outcome Bytes
unfolding marshal_value
array_marshal_binary xs = write_elements (marshal_index xs 0) (array_keys 0 xs) >>= frame
