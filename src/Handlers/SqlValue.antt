-- ===== src/Handlers/SqlValue.antt =====
-- internal/handlers/common/where.go: whereValue, whereDocument and PrepareArrayForSQL, which write
-- values as SQL.
use sap_hana_compatibility_l.Prelude.{
  ℕ, ◌+◌, ◌-◌, ◌/◌, ◌%◌, Bool, true, false, Option, none, some, List, [], ◌∷◌, ◌++◌, ltb,
  if◌then◌else◌, Bytes, bytes_eq, codes, Outcome, Error, ok, err, panicked, stuck, ◌>>=◌, bad_value,
  array_not_supported, key_not_found,
}
use sap_hana_compatibility_l.GoStd.Strings.{replace_byte, replace_byte_first}
use sap_hana_compatibility_l.GoStd.Format.{
  FormatArg, integer, float, text, truth, Printing, sprintf,
}
use sap_hana_compatibility_l.Types.Value.{
  Value, Items, Fields, document, array, double, string, object_id, bool, null, regex, int32, int64,
  nil, cons, end, field, Document,
}
use sap_hana_compatibility_l.Types.Compare.{to_int64}
use sap_hana_compatibility_l.Handlers.Like.{like_pattern}

-- `hex.EncodeToString`
unfoldable pub hex_digit : ℕ → ℕ
hex_digit d = if ltb d 10 then b'0' + d else b'a' + (d - 10)

unfoldable pub hex : Bytes → Bytes
unfolding hex_digit
hex [] = []
hex (b ∷ bs) = hex_digit (b / 16) ∷ hex_digit (b % 16) ∷ hex bs

-- `ObjectID.MarshalJSON`
unfoldable pub object_id_json : Bytes → Bytes
unfolding hex
object_id_json s = codes "{\"oid\":\"" ++ (hex s ++ codes "\"}")

-- The JSON with single quotes for double ones, but for the first two.
unfoldable pub object_id_sql : Bytes → Bytes
unfolding object_id_json replace_byte replace_byte_first
object_id_sql s = replace_byte_first 2 39 34 (replace_byte 34 39 (object_id_json s))

-- What a loop has appended to a format, the arguments for it, and the error that it has returned or
-- that is still in its variable.
pub record Piece : Type 0 where
  pub format : Bytes
  pub args : List FormatArg
  pub failure : Option Error

abbrev pub piece : Bytes → List FormatArg → Piece
piece format args = record { format = format; args = args; failure = none }

abbrev pub failed_piece : Bytes → Error → Piece
failed_piece format e = record { format = format; args = []; failure = some e }

-- `PrepareArrayForSQL` after its loop: its text, which is unfinished if there is an error.
unfoldable pub close_array : Printing → Piece → Bytes × Option Error
close_array P p = elim p.failure [
  | some e ↦ (codes "[" ++ p.format, some e)
  | none ↦ (sprintf P (codes "[" ++ (p.format ++ codes "]")) p.args, none)
]

-- An element of the loop of `PrepareArrayForSQL` in front of the others; an error ends the loop.
unfoldable pub array_next : Bool → Piece → Outcome Piece → Outcome Piece
array_next first p others =
    let sep = if first then [] else codes ", " in
    elim p.failure [
      | some e ↦ ok (record { format = sep ++ p.format; args = p.args; failure = some e })
      | none ↦ others >>= λ rest. ok (record {
        format = sep ++ (p.format ++ rest.format);
        args = p.args ++ rest.args;
        failure = rest.failure;
      })
    ]

-- A nested array, and a document, as an element.
unfoldable pub nested_array : Bytes × Option Error → Piece
nested_array (sql, some e) = failed_piece [] e
nested_array (sql, none) = piece (codes "%s") (text sql ∷ [])

unfoldable pub nested_document : Outcome Bytes → Outcome Piece
nested_document (ok sql) = ok (piece (codes "%s") (text sql ∷ []))
nested_document (err e) = ok (failed_piece (codes "%s") e)
nested_document panicked = panicked
nested_document stuck = stuck

-- `"key": ` and the value, in front of what the loop of `whereDocument` does with the other keys. An
-- error of an array stays in the variable, until the next key clears it.
unfoldable pub document_next : Bool → Bool → Bytes → Piece → Piece → Piece
document_next first last key p rest =
    let sep = if first then [] else codes ", " in
    record {
      format = sep ++ (codes "\"" ++ (key ++ (codes "\": " ++ (p.format ++ rest.format))));
      args = p.args ++ rest.args;
      failure = if last then p.failure else rest.failure;
    }

-- The loop of `whereDocument` over its keys; `at` looks a key up and gives the piece for its value.
unfoldable pub document_pieces :
    (Bytes → Option (Outcome Piece)) → Bool → List Bytes → Outcome Piece
unfolding document_next
document_pieces at first [] = ok (piece [] [])
document_pieces at first (key ∷ keys) = do
  p ← elim (at key) [ none ↦ err key_not_found | some o ↦ o ]
  rest ← document_pieces at false keys
  ok (document_next first (elim keys [ [] ↦ true | _ ∷ _ ↦ false ]) key p rest)

-- `whereDocument` after its loop.
unfoldable pub close_document : Printing → Piece → Outcome Bytes
close_document P p = elim p.failure [
  | some e ↦ err e
  | none ↦ ok (sprintf P (codes "{" ++ p.format) p.args ++ codes "}")
]

-- The scalars that `whereValue` writes, as formats with their arguments.
unfoldable pub scalar_piece : Value → Option Piece
unfolding object_id_sql
scalar_piece (int32 n) = some (piece (codes "%d") (integer (to_int64 n) ∷ []))
scalar_piece (int64 n) = some (piece (codes "%d") (integer n ∷ []))
scalar_piece (double x) = some (piece (codes "%f") (float x ∷ []))
scalar_piece (string s) = some (piece (codes "'%s'") (text s ∷ []))
scalar_piece (bool b) = some (piece (codes "to_json_boolean(%t)") (truth b ∷ []))
scalar_piece (object_id s) = some (piece (codes "%s") (text (object_id_sql s) ∷ []))
scalar_piece _ = none

unfoldable pub scalar_sql : Printing → Piece → Bytes
scalar_sql P p = sprintf P p.format p.args

unfoldable mutual
  unfolding document_pieces close_document close_array array_next nested_array nested_document
      scalar_piece scalar_sql

  -- The value of a key, in the loop of `whereDocument`.
  pub document_piece : Printing → Value → Outcome Piece
  document_piece P null = ok (piece (codes " NULL ") [])
  document_piece P (array xs) = do
    p ← array_pieces P true xs
    ok (record { format = (close_array P p).0; args = []; failure = (close_array P p).1 })
  document_piece P (document m keys) = do
    p ← document_pieces (document_at P m) true keys
    sql ← close_document P p
    ok (piece (codes "%s") (text sql ∷ []))
  document_piece P v = elim (scalar_piece v) [ none ↦ err bad_value | some p ↦ ok p ]

  pub document_at : Printing → Fields → Bytes → Option (Outcome Piece)
  document_at P end key = none
  document_at P (field j v m) key = elim (bytes_eq j key) [
    | true ↦ some (document_piece P v)
    | false ↦ document_at P m key
  ]

  -- An element, in the loop of `PrepareArrayForSQL`.
  pub array_piece : Printing → Value → Outcome Piece
  array_piece P null = ok (piece (codes "NULL") [])
  array_piece P (array xs) = do p ← array_pieces P true xs; ok (nested_array (close_array P p))
  array_piece P (document m keys) =
      nested_document (document_pieces (document_at P m) true keys >>= λ p. close_document P p)
  array_piece P v = elim (scalar_piece v) [
    | none ↦ ok (failed_piece [] bad_value)
    | some p ↦ ok (piece (scalar_sql P p) [])
  ]

  -- Its loop.
  pub array_pieces : Printing → Bool → Items → Outcome Piece
  array_pieces P first nil = ok (piece [] [])
  array_pieces P first (cons v xs) =
      let others = array_pieces P false xs in array_piece P v >>= (λ p. array_next first p others)

-- `whereDocument`
unfoldable pub where_document : Printing → Document → Outcome Bytes
unfolding document_piece
where_document P d = document_pieces (document_at P d.m) true d.keys >>= λ p. close_document P p

-- `PrepareArrayForSQL`
unfoldable pub prepare_array_for_sql : Printing → Items → Outcome (Bytes × Option Error)
unfolding array_piece
prepare_array_for_sql P xs = do p ← array_pieces P true xs; ok (close_array P p)

abbrev pub sign_equal : Bytes
sign_equal = codes " = "

abbrev pub sign_is : Bytes
sign_is = codes " IS "

abbrev pub sign_like : Bytes
sign_like = codes " LIKE "

-- `whereValue`: the value, and the sign in front of it.
unfoldable pub where_value : Printing → Value → Outcome (Bytes × Bytes)
unfolding where_document scalar_piece scalar_sql
where_value P null = ok (codes "NULL", sign_is)
where_value P (regex p o) = do v ← like_pattern (regex p o); ok (v, sign_like)
where_value P (document m keys) = do
  d ← where_document P (record { m = m; keys = keys })
  ok (sprintf P (codes "%s") (text d ∷ []), sign_equal)
where_value P (array xs) = err array_not_supported
where_value P v = elim (scalar_piece v) [
  | none ↦ err bad_value
  | some p ↦ ok (scalar_sql P p, sign_equal)
]
