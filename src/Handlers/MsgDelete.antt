-- ===== src/Handlers/MsgDelete.antt =====
-- internal/handlers/crud/msg_delete.go: MsgDelete, from the document of its message to that of the
-- reply.
use sap_hana_compatibility_l.Prelude.{
  ℕ, ◌==◌, Option, none, some, [], ◌∷◌, ◌++◌, Bytes, codes, Outcome, Error, panicked, if◌then◌else◌,
  not_implemented, namespace_not_found,
}
use sap_hana_compatibility_l.GoStd.Format.{text, Printing, sprintf}
use sap_hana_compatibility_l.Types.Value.{
  Value, Items, document, string, int32, nil, cons, Document,
}
use sap_hana_compatibility_l.Types.Fields.{lookup}
use sap_hana_compatibility_l.Types.Document.{make_document, must}
use sap_hana_compatibility_l.Handlers.Where.{create_where_clause}
use sap_hana_compatibility_l.Handlers.Where.State as State
use sap_hana_compatibility_l.Handlers.UpdateValue.{get_update_value}
use sap_hana_compatibility_l.Handlers.Update.{has_any}
use sap_hana_compatibility_l.Handlers.Store.{
  Hana, Handler, pure, throw, ◌>>=◌, lift, with_nor, to_result, execute, get_row, the_string,
  the_document, the_array, id_of, on_table, command, one_double, add_int32,
}

-- `CreateWhereClause`, with its error returned.
unfoldable pub clause : {S : Type 0} → ℕ → Printing → Document → Handler S Bytes
unfolding create_where_clause
clause fuel P q =
    with_nor (State.◌>>=◌ (create_where_clause fuel P q) (λ a. State.pure (to_result a)))

-- `d["limit"].(int32)`, 0 if it is none.
unfoldable pub limit_of : Option Value → ℕ
limit_of (some (int32 n)) = n
limit_of _ = 0

abbrev pub delete_error : Error → Error
delete_error e = namespace_not_found

-- The statement for the object that the query has found.
unfoldable pub delete_by_id : {S : Type 0} → Hana S → Printing → Bytes → Bytes → Handler S ℕ
unfolding id_of get_update_value sprintf
delete_by_id H P sql row = lift (H.unmarshal row) >>= (λ v. lift (id_of v) >>= (λ id.
    lift (get_update_value P id) >>= (λ delete_id.
      execute H delete_error
        (sprintf P (sql ++ codes " WHERE \"_id\" = %s") (text delete_id ∷ [])))))

-- One round of the loop: the rows that it has deleted.
unfoldable pub delete_round :
    {S : Type 0} → Hana S → ℕ → Printing → Bytes → Bytes → Value → Handler S ℕ
unfolding has_any clause limit_of delete_by_id the_document on_table sprintf
delete_round H fuel P db collection (document m keys) =
    let sql = on_table P (codes "DELETE FROM %s.%s") db collection in
    if has_any (record { m = m; keys = keys }) (codes "collation" ∷ codes "hint" ∷ [])
    then throw not_implemented
    else lift (the_document (lookup (codes "q") m)) >>= (λ q. clause fuel P q >>= (λ where_sql.
      if limit_of (lookup (codes "limit") m) == 0
      then execute H delete_error (sprintf P (sql ++ where_sql) [])
      else get_row H (
          on_table P (codes "SELECT {\"_id\": \"_id\"} FROM %s.%s") db collection
          ++ (where_sql ++ codes " LIMIT 1"))
        >>= (λ row. elim row [ none ↦ pure 0 | some b ↦ delete_by_id H P sql b ])))
delete_round H fuel P db collection _ = lift panicked

-- The loop, with the rows deleted so far.
unfoldable pub delete_loop :
    {S : Type 0} → Hana S → ℕ → Printing → Bytes → Bytes → Items → ℕ → Handler S ℕ
unfolding delete_round
delete_loop H fuel P db collection nil deleted = pure deleted
delete_loop H fuel P db collection (cons v xs) deleted =
    delete_round H fuel P db collection v
    >>= (λ rows. delete_loop H fuel P db collection xs (add_int32 deleted rows))

-- The document of the reply.
unfoldable pub delete_reply : ℕ → Outcome Document
unfolding must make_document
delete_reply deleted =
    must
      (make_document (string (codes "n") ∷ int32 deleted ∷ string (codes "ok") ∷ one_double ∷ []))

-- `MsgDelete`
unfoldable pub msg_delete : {S : Type 0} → Hana S → ℕ → Printing → Document → Handler S Document
unfolding delete_loop command the_string the_array delete_reply
msg_delete H fuel P d =
    if has_any d (codes "let" ∷ codes "writeConcern" ∷ [])
    then throw not_implemented
    else lift (command d) >>= (λ name. lift (the_string (lookup name d.m)) >>= (λ collection.
      lift (the_string (lookup (codes "$db") d.m)) >>= (λ db.
        lift (the_array (lookup (codes "deletes") d.m)) >>= (λ docs.
          delete_loop H fuel P db collection docs 0 >>= (λ deleted. lift (delete_reply deleted))))))
