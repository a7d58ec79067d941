-- ===== src/Handlers/Store.antt =====
-- internal/handlers/crud: what the handlers use of the database, and their state. The database, with
-- its driver in internal/hana and database/sql, and fjson.Unmarshal are parameters.
pub mod Runs
use sap_hana_compatibility_l.Prelude.{
  ℕ, ◌+◌, ◌%◌, ◌^◌, Bool, true, false, Option, none, some, List, [], ◌∷◌, ◌⊎◌, inl, inr, Bytes,
  codes, Outcome, Error, ok, err, panicked, stuck, key_not_found,
}
use sap_hana_compatibility_l.GoStd.Strings.{to_lower}
use sap_hana_compatibility_l.GoStd.Format.{FormatArg, text, Printing, sprintf}
use sap_hana_compatibility_l.Types.Value.{
  Value, Items, Fields, document, array, double, string, binary, object_id, bool, date_time, null,
  regex, int32, timestamp, int64, cstring, other, Document,
}
use sap_hana_compatibility_l.Types.Fields.{lookup}
use sap_hana_compatibility_l.Handlers.Where.State.{Nor, Answer, Sql}

-- `QueryRowContext(...).Scan` for an object, where a failure is `none`, and for a count; the rows that
-- ExecContext has affected; and fjson.Unmarshal.
pub record Hana (S : Type 0) : Type 0 where
  pub first_row : Bytes → S → Option Bytes
  pub count_row : Bytes → S → Outcome ℕ
  pub exec : Bytes → S → Outcome (ℕ × S)
  pub unmarshal : Bytes → Outcome Value

-- The global variables of the filters, and the database.
pub record Run (S : Type 0) : Type 0 where
  pub nor : Nor
  pub store : S

-- A handler that returns an error has changed the state, too.
abbrev pub Handler : Type 0 → Type 0 → Type 0
Handler S A = Run S → Outcome ((A ⊎ Error) × Run S)

abbrev pub pure : {S A : Type 0} → A → Handler S A
pure a run = ok (inl a, run)

abbrev pub throw : {S A : Type 0} → Error → Handler S A
throw e run = ok (inr e, run)

infixl 5 ◌>>=◌
abbrev pub ◌>>=◌ : {S A B : Type 0} → Handler S A → (A → Handler S B) → Handler S B
◌>>=◌ h f run = elim (h run) [
  | ok (inl a, run') ↦ f a run'
  | ok (inr e, run') ↦ ok (inr e, run')
  | err e ↦ err e
  | panicked ↦ panicked
  | stuck ↦ stuck
]

-- A call that does not touch the state.
abbrev pub lift : {S A : Type 0} → Outcome A → Handler S A
lift (ok a) run = ok (inl a, run)
lift (err e) run = ok (inr e, run)
lift panicked run = panicked
lift stuck run = stuck

-- A call of the filters.
abbrev pub with_nor : {S A : Type 0} → Sql (A ⊎ Error) → Handler S A
with_nor sql run = elim (sql run.nor) [
  | ok (r, nor) ↦ ok (r, record { nor = nor; store = run.store })
  | err e ↦ err e
  | panicked ↦ panicked
  | stuck ↦ stuck
]

-- A text beside an error is dropped.
abbrev pub to_result : Answer → Bytes ⊎ Error
to_result (sql, none) = inl sql
to_result (sql, some e) = inr e

-- `ExecContext`, with the error that the handler makes of its, and `RowsAffected`, whose own error is
-- not modelled.
abbrev pub execute : {S : Type 0} → Hana S → (Error → Error) → Bytes → Handler S ℕ
execute H wrap sql run = elim (H.exec sql run.store) [
  | ok (n, store) ↦ ok (inl n, record { nor = run.nor; store = store })
  | err e ↦ ok (inr (wrap e), run)
  | panicked ↦ panicked
  | stuck ↦ stuck
]

abbrev pub get_row : {S : Type 0} → Hana S → Bytes → Handler S (Option Bytes)
get_row H sql run = ok (inl (H.first_row sql run.store), run)

-- `v.(string)`, `v.(types.Document)` and `v.(*types.Array)`, which panic.
unfoldable pub the_string : Option Value → Outcome Bytes
the_string (some (string s)) = ok s
the_string _ = panicked

unfoldable pub the_document : Option Value → Outcome Document
the_document (some (document m keys)) = ok (record { m = m; keys = keys })
the_document _ = panicked

-- The value of "_id" in what has been read back; nil if it has none.
unfoldable pub id_of : Value → Outcome Value
id_of (document m keys) = ok (elim (lookup (codes "_id") m) [ none ↦ null | some v ↦ v ])
id_of _ = panicked

-- `"... %s.%s"` with the names of the database and the collection.
unfoldable pub on_table : Printing → Bytes → Bytes → Bytes → Bytes
on_table P format db collection = sprintf P format (text db ∷ text collection ∷ [])

-- `Document.Command`; letters beyond ASCII stay as they are where their lower case is beyond it, too.
unfoldable pub command : Document → Outcome Bytes
command d = elim d.keys [ [] ↦ panicked | k ∷ keys ↦ ok (to_lower k) ]

-- The loop over an array: a method of a nil array panics.
unfoldable pub the_array : Option Value → Outcome Items
the_array (some (array xs)) = ok xs
the_array _ = panicked

-- float64(1)
abbrev pub one_double : Value
one_double = double 0x3ff0000000000000

-- `n += int32(rows)`
abbrev pub add_int32 : ℕ → ℕ → ℕ
add_int32 n rows = (n + rows) % 2 ^ 32
