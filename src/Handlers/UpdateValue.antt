-- ===== src/Handlers/UpdateValue.antt =====
-- internal/handlers/crud/msg_update.go: getUpdateValue and updateDocument, which write the values of
-- an update as SQL.
pub mod Texts
use sap_hana_compatibility_l.Prelude.{
  Bool, true, false, Option, none, some, List, [], ◌∷◌, ◌++◌, Bytes, bytes_eq, codes, Outcome,
  Error, ok, err, ◌>>=◌, if◌then◌else◌, key_not_found, bad_value, unhandled_type,
}
use sap_hana_compatibility_l.GoStd.Format.{text, Printing, sprintf}
use sap_hana_compatibility_l.Types.Value.{
  Value, Fields, document, array, null, end, field, Document,
}
use sap_hana_compatibility_l.Handlers.SqlValue.{
  Piece, piece, scalar_piece, scalar_sql, prepare_array_for_sql,
}

-- A text, or the error beside it.
unfoldable pub finished : Bytes × Option Error → Outcome Bytes
finished (sql, none) = ok sql
finished (sql, some e) = err e

-- The loop of `updateDocument` over its keys; `at` looks a key up and gives the piece for its value.
unfoldable pub update_pieces : (Bytes → Option (Outcome Piece)) → Bool → List Bytes → Outcome Piece
update_pieces at first [] = ok (piece [] [])
update_pieces at first (key ∷ keys) = do
  p ← elim (at key) [ none ↦ err key_not_found | some o ↦ o ]
  rest ← update_pieces at false keys
  ok (
      piece
        ((if first then [] else codes ", ")
          ++ (codes "\"" ++ (key ++ (codes "\": " ++ (p.format ++ rest.format)))))
        (p.args ++ rest.args))

-- `updateDocument` after its loop.
unfoldable pub close_update : Printing → Piece → Bytes
close_update P p = sprintf P (codes "{" ++ p.format) p.args ++ codes "}"

unfoldable mutual
  unfolding finished update_pieces close_update prepare_array_for_sql scalar_piece

  -- The value of a key, in the loop of `updateDocument`.
  pub update_piece : Printing → Value → Outcome Piece
  update_piece P null = ok (piece (codes " NULL ") [])
  update_piece P (array xs) = do
    written ← prepare_array_for_sql P xs
    sql ← finished written
    ok (piece sql [])
  update_piece P (document m keys) = do
    p ← update_pieces (update_at P m) true keys
    ok (piece (codes "%s") (text (close_update P p) ∷ []))
  update_piece P v = elim (scalar_piece v) [ none ↦ err bad_value | some p ↦ ok p ]

  pub update_at : Printing → Fields → Bytes → Option (Outcome Piece)
  update_at P end key = none
  update_at P (field j v m) key = elim (bytes_eq j key) [
    | true ↦ some (update_piece P v)
    | false ↦ update_at P m key
  ]

-- `updateDocument`
unfoldable pub update_document : Printing → Document → Outcome Bytes
unfolding update_piece
update_document P d = do p ← update_pieces (update_at P d.m) true d.keys; ok (close_update P p)

-- `getUpdateValue`
unfoldable pub get_update_value : Printing → Value → Outcome Bytes
unfolding finished update_document prepare_array_for_sql scalar_piece scalar_sql
get_update_value P null = ok (codes "NULL")
get_update_value P (array xs) = do
  written ← prepare_array_for_sql P xs
  sql ← finished written
  ok (sprintf P sql [])
get_update_value P (document m keys) = do
  sql ← update_document P (record { m = m; keys = keys })
  ok (sprintf P (codes "%s") (text sql ∷ []))
get_update_value P v = elim (scalar_piece v) [
  | none ↦ err unhandled_type
  | some p ↦ ok (scalar_sql P p)
]
