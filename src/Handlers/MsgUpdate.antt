-- ===== src/Handlers/MsgUpdate.antt =====
-- internal/handlers/crud/msg_update.go: MsgUpdate, from the document of its message to that of the
-- reply.
use sap_hana_compatibility_l.Prelude.{
  ℕ, Bool, true, false, Option, none, some, List, [], ◌∷◌, ◌++◌, Bytes, codes, Outcome, Error,
  panicked, if◌then◌else◌, not_implemented,
}
use sap_hana_compatibility_l.GoStd.Format.{text, Printing, sprintf}
use sap_hana_compatibility_l.Types.Value.{
  Value, Items, document, string, bool, int32, nil, cons, Document,
}
use sap_hana_compatibility_l.Types.Fields.{lookup}
use sap_hana_compatibility_l.Types.Document.{make_document, must}
use sap_hana_compatibility_l.Handlers.UpdateValue.{get_update_value}
use sap_hana_compatibility_l.Handlers.Update.{has_any, update}
use sap_hana_compatibility_l.Handlers.MsgDelete.{clause}
use sap_hana_compatibility_l.Handlers.Store.{
  Hana, Handler, pure, throw, ◌>>=◌, lift, with_nor, execute, get_row, the_string, the_document,
  the_array, id_of, on_table, one_double, add_int32,
}

-- `docM["multi"] != true`, negated.
unfoldable pub is_multi : Option Value → Bool
is_multi (some (bool true)) = true
is_multi _ = false

abbrev pub same_error : Error → Error
same_error e = e

-- The statement for the object that the query has found; it counts as one.
unfoldable pub update_by_id :
    {S : Type 0} → Hana S → Printing → Bytes → ℕ → Bytes → Handler S (ℕ × ℕ)
unfolding id_of get_update_value sprintf
update_by_id H P sql matched row = lift (H.unmarshal row) >>= (λ v. lift (id_of v) >>= (λ id.
    lift (get_update_value P id) >>= (λ update_id.
      execute H same_error
        (sql ++ (codes " " ++ sprintf P (codes "WHERE \"_id\" = %s") (text update_id ∷ [])))
      >>= (λ rows. pure (matched, 1)))))

-- The end of a round, with the clause of the filter, and the assignments and the conditions of the
-- update: the documents matched and modified.
unfoldable pub update_rows :
    {S : Type 0}
    → Hana S
    → Printing
    → Bytes
    → Bytes
    → Bool
    → Bytes
    → Bytes × Bytes
    → Handler S (ℕ × ℕ)
unfolding update_by_id on_table sprintf
update_rows H P db collection multi where_sql (update_sql, not_where_sql) =
    let sql = on_table P (codes "UPDATE %s.%s ") db collection ++ update_sql in
    (λ run.
      lift
        (H.count_row (on_table P (codes "SELECT count(*) FROM %s.%s") db collection ++ where_sql)
          run.store)
        run)
    >>= (λ matched.
        if multi
        then execute H same_error (sql ++ (codes " " ++ (sprintf P where_sql [] ++ not_where_sql)))
          >>= (λ rows. pure (matched, rows))
        else get_row H (
            on_table P (codes "SELECT {\"_id\": \"_id\"} FROM %s.%s") db collection
            ++ (where_sql ++ (not_where_sql ++ codes " LIMIT 1")))
          >>= (λ row. elim row [
            | none ↦ pure (matched, 0)
            | some b ↦ update_by_id H P sql matched b
          ]))

-- One round of the loop.
unfoldable pub update_round :
    {S : Type 0} → Hana S → ℕ → Printing → Bytes → Bytes → Value → Handler S (ℕ × ℕ)
unfolding clause update update_rows is_multi the_document
update_round H fuel P db collection (document m keys) =
    lift (the_document (lookup (codes "q") m)) >>= (λ q. clause fuel P q >>= (λ where_sql.
      lift (the_document (lookup (codes "u") m)) >>= (λ u. with_nor (update fuel P u) >>= (λ sql.
        update_rows H P db collection (is_multi (lookup (codes "multi") m)) where_sql sql))))
update_round H fuel P db collection _ = lift panicked

-- The loop, with the documents matched and modified so far.
unfoldable pub update_loop :
    {S : Type 0} → Hana S → ℕ → Printing → Bytes → Bytes → Items → ℕ → ℕ → Handler S (ℕ × ℕ)
unfolding update_round
update_loop H fuel P db collection nil selected updated = pure (selected, updated)
update_loop H fuel P db collection (cons v xs) selected updated =
    update_round H fuel P db collection v >>= (λ r.
      update_loop H fuel P db collection xs (add_int32 selected r.0) (add_int32 updated r.1))

-- The document of the reply.
unfoldable pub update_reply : ℕ × ℕ → Outcome Document
unfolding must make_document
update_reply (selected, updated) = must (
    make_document (
      string (codes "n")
      ∷ int32 selected
      ∷ string (codes "nModified")
      ∷ int32 updated
      ∷ string (codes "ok")
      ∷ one_double
      ∷ []))

abbrev pub update_unimplemented : List Bytes
update_unimplemented =
    codes "upsert"
    ∷ codes "writeConcern"
    ∷ codes "collation"
    ∷ codes "arrayFilter"
    ∷ codes "hint"
    ∷ codes "commented"
    ∷ codes "bypassDocumentValidation"
    ∷ []

-- `MsgUpdate`
unfoldable pub msg_update : {S : Type 0} → Hana S → ℕ → Printing → Document → Handler S Document
unfolding update_loop the_string the_array update_reply has_any
msg_update H fuel P d =
    if has_any d update_unimplemented
    then throw not_implemented
    else lift (the_string (lookup (codes "update") d.m)) >>= (λ collection.
      lift (the_string (lookup (codes "$db") d.m)) >>= (λ db.
        lift (the_array (lookup (codes "updates") d.m)) >>= (λ docs.
          update_loop H fuel P db collection docs 0 0 >>= (λ counts. lift (update_reply counts)))))
