-- ===== src/Handlers/MsgInsert.antt =====
-- internal/handlers/crud/msg_insert.go: MsgInsert, from the document of its message to that of the
-- reply, with `IsIdUnique` of internal/handlers/common/unique.go. The database, with its driver in
-- internal/hana and database/sql, and the JSON of internal/fjson are parameters.
use sap_hana_compatibility_l.Prelude.{
  ℕ, ◌+◌, ◌%◌, ◌^◌, Bool, Option, none, some, [], ◌∷◌, ◌++◌, Bytes, codes, Outcome, ok, err,
  panicked, stuck, inl, inr, if◌then◌else◌, not_implemented, duplicate_key,
}
use sap_hana_compatibility_l.GoStd.Format.{Printing}
use sap_hana_compatibility_l.Types.Value.{Value, Items, document, string, null, nil, cons, Document}
use sap_hana_compatibility_l.Types.Fields.{lookup}
use sap_hana_compatibility_l.Types.Document.{make_document, must, must_convert_document}
use sap_hana_compatibility_l.Handlers.Update.{has_any}
use sap_hana_compatibility_l.Handlers.MsgDelete.{clause, delete_reply}
use sap_hana_compatibility_l.Handlers.Store.{
  Handler, pure, throw, ◌>>=◌, lift, the_string, the_array, on_table, command,
}

-- Whether `QueryRowContext(...).Scan` finds a row, an error if it fails for another reason; ExecContext
-- with a statement and its argument; MarshalJSONHANA of a document, and MarshalHANA of a value.
pub record Inserts (S : Type 0) : Type 0 where
  pub finds : Bytes → S → Outcome Bool
  pub add : Bytes → Bytes → S → Outcome S
  pub marshal_document : Document → Outcome Bytes
  pub marshal_value : Value → Outcome Bytes

-- A key that is missing is nil.
abbrev pub value_or_nil : Option Value → Value
value_or_nil none = null
value_or_nil (some v) = v

-- `Scan` of the row of the query.
abbrev pub scan : {S : Type 0} → Inserts S → Bytes → Handler S Bool
scan D sql run = lift (D.finds sql run.store) run

-- `ExecContext` with an argument.
abbrev pub add_row : {S : Type 0} → Inserts S → Bytes → Bytes → Handler S (Unit {0})
add_row D sql row run = elim (D.add sql row run.store) [
  | ok store ↦ ok (inl tt, record { nor = run.nor; store = store })
  | err e ↦ ok (inr e, run)
  | panicked ↦ panicked
  | stuck ↦ stuck
]

-- `IsIdUnique`, with the error that it makes of an id that is there.
unfoldable pub is_id_unique :
    {S : Type 0} → Inserts S → ℕ → Printing → Value → Bytes → Bytes → Handler S (Unit {0})
unfolding must make_document clause on_table
is_id_unique D fuel P id db collection =
    lift (must (make_document (string (codes "_id") ∷ id ∷ []))) >>= (λ filter.
      clause fuel P filter >>= (λ where_sql.
        scan D (
          on_table P (codes "SELECT _id FROM %s.%s ") db collection
          ++ (where_sql ++ codes " LIMIT 1"))
        >>= (λ found.
            if found
            then lift (D.marshal_value id) >>= (λ byte_id. throw duplicate_key)
            else pure tt)))

-- One round of the loop.
unfoldable pub insert_round :
    {S : Type 0} → Inserts S → ℕ → Printing → Bytes → Bytes → Value → Handler S (Unit {0})
unfolding is_id_unique must_convert_document on_table
insert_round D fuel P db collection (document m keys) =
    is_id_unique D fuel P (value_or_nil (lookup (codes "_id") m)) db collection >>= (λ unique.
      lift (must_convert_document (record { m = m; keys = keys })) >>= (λ d.
        lift (D.marshal_document d)
        >>= (λ b. add_row D (on_table P (codes "INSERT INTO %s.%s VALUES ($1)") db collection) b)))
insert_round D fuel P db collection _ = lift panicked

-- The loop, with the documents inserted so far.
unfoldable pub insert_loop :
    {S : Type 0} → Inserts S → ℕ → Printing → Bytes → Bytes → Items → ℕ → Handler S ℕ
unfolding insert_round
insert_loop D fuel P db collection nil inserted = pure inserted
insert_loop D fuel P db collection (cons v xs) inserted =
    insert_round D fuel P db collection v
    >>= (λ done. insert_loop D fuel P db collection xs ((inserted + 1) % 2 ^ 32))

-- `MsgInsert`. Its reply has the fields of that of MsgDelete.
unfoldable pub msg_insert : {S : Type 0} → Inserts S → ℕ → Printing → Document → Handler S Document
unfolding insert_loop command the_string the_array delete_reply
msg_insert D fuel P d =
    if has_any d (codes "writeConcern" ∷ codes "bypassDocumentValidation" ∷ codes "comment" ∷ [])
    then throw not_implemented
    else lift (command d) >>= (λ name. lift (the_string (lookup name d.m)) >>= (λ collection.
      lift (the_string (lookup (codes "$db") d.m)) >>= (λ db.
        lift (the_array (lookup (codes "documents") d.m)) >>= (λ docs.
          insert_loop D fuel P db collection docs 0
          >>= (λ inserted. lift (delete_reply inserted))))))
