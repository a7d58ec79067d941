-- ===== src/Handlers/Update.antt =====
-- internal/handlers/crud/msg_update.go: update and createSetandUnsetSqlStmnt, an update as SQL; and
-- Unimplemented of internal/handlers/common/unimplemented.go.
use sap_hana_compatibility_l.Prelude.{
  ℕ, Bool, true, false, ◌||◌, Option, none, some, List, [], ◌∷◌, ◌++◌, ◌⊎◌, inl, inr, Bytes,
  bytes_eq, codes, leb, ◌&&◌, ◌+◌, Outcome, Error, ok, ◌>>=◌, ◌>>◌, if◌then◌else◌, guard, not,
  not_implemented, immutable_id, command_not_found, array_not_supported,
}
use sap_hana_compatibility_l.GoStd.Format.{Printing}
use sap_hana_compatibility_l.GoStd.Strings.{replace_first}
use sap_hana_compatibility_l.Types.Value.{Value, Fields, document, null, Document}
use sap_hana_compatibility_l.Types.Fields.{lookup, is_some}
use sap_hana_compatibility_l.Handlers.SqlKey.{get_update_key}
use sap_hana_compatibility_l.Handlers.UpdateValue.{get_update_value}
use sap_hana_compatibility_l.Handlers.Where.State.{Nor, Answer, Sql, attempt, tried}
use sap_hana_compatibility_l.Handlers.Where.State as State
use sap_hana_compatibility_l.Handlers.Where.{create_where_clause}

-- `Unimplemented`: whether the document has any of the fields.
unfoldable pub has_any : Document → List Bytes → Bool
has_any d [] = false
has_any d (f ∷ fields) = is_some (lookup f d.m) || has_any d fields

-- `strings.EqualFold(key, "_id")`; no other letters fold to these than the ASCII ones.
unfoldable pub fold_case : Bytes → Bytes
fold_case [] = []
fold_case (c ∷ s) = (if leb b'A' c && leb c b'Z' then c + 32 else c) ∷ fold_case s

unfoldable pub is_id : Bytes → Bool
unfolding fold_case
is_id key = bytes_eq (fold_case key) (codes "_id")

-- One key: its assignment, and the condition that it needs one.
unfoldable pub assignment : Printing → Bool → Fields → Bytes → Outcome (Bytes × Bytes)
unfolding is_id get_update_key get_update_value
assignment P true m key = do
  guard (not (is_id key)) immutable_id
  update_key ← get_update_key key
  update_value ← get_update_value P (elim (lookup key m) [ none ↦ null | some v ↦ v ])
  ok (update_key ++ (codes " = " ++ update_value), update_key ++ codes " IS UNSET")
assignment P false m key = do
  guard (not (is_id key)) immutable_id
  update_key ← get_update_key key
  ok (update_key, update_key ++ codes " IS SET")

-- The loop of `createSetandUnsetSqlStmnt`: what it appends to the assignments and to the conditions.
unfoldable pub assignments : Printing → Bool → Fields → Bool → List Bytes → Outcome (Bytes × Bytes)
unfolding assignment
assignments P set m first [] = ok ([], [])
assignments P set m first (key ∷ keys) = do
  (sql, condition) ← assignment P set m key
  (more, conditions) ← assignments P set m false keys
  ok (
    (if first then [] else codes ", ") ++ (sql ++ more),
    (if first then [] else codes " OR ") ++ (condition ++ conditions),
  )

-- `createSetandUnsetSqlStmnt`
unfoldable pub create_set_and_unset : Printing → Document → Bool → Outcome (Bytes × Bytes)
unfolding assignments
create_set_and_unset P d set = assignments P set d.m true d.keys >>= λ r.
    ok ((if set then codes " SET " else codes " UNSET ") ++ r.0, r.1)

-- `uninmplementedFields`
abbrev pub unimplemented_fields : List Bytes
unimplemented_fields =
    codes "$currentDate"
    ∷ codes "$inc"
    ∷ codes "$min"
    ∷ codes "$max"
    ∷ codes "$mul"
    ∷ codes "$rename"
    ∷ codes "$setOnInsert"
    ∷ codes "$"
    ∷ codes "$[]"
    ∷ codes "$[<identifier>]"
    ∷ codes "$addToSet"
    ∷ codes "$pop"
    ∷ codes "$pull"
    ∷ codes "$push"
    ∷ codes "$pullAll"
    ∷ codes "$each"
    ∷ codes "$position"
    ∷ codes "$slice"
    ∷ codes "$sort"
    ∷ codes "$bit"
    ∷ codes "$addFields"
    ∷ codes "$project"
    ∷ codes "$replaceRoot"
    ∷ codes "$replaceWith"
    ∷ []

-- The two texts for `$set`, and for `$unset`: empty ones where the update has no such document.
unfoldable pub clause_for : Printing → Bool → Option Value → Outcome (Bytes × Bytes)
unfolding create_set_and_unset
clause_for P set (some (document m keys)) =
    create_set_and_unset P (record { m = m; keys = keys }) set
clause_for P set _ = ok ([], [])

-- `updateMap["$set"].(types.Document)`, the zero document if it is none.
unfoldable pub set_document : Option Value → Document
set_document (some (document m keys)) = record { m = m; keys = keys }
set_document _ = record { m = Fields.end; keys = [] }

-- The error for a `$set` with an array.
unfoldable pub array_error : Error → Error
array_error array_not_supported = not_implemented
array_error e = e

-- The conditions that keep documents out which need no update, where there is a `$set`; `others` are
-- those of the `$unset`.
unfoldable pub set_conditions : Bytes → Bytes → Answer → Bytes ⊎ Error
unfolding array_error
set_conditions is_unset others (sql, some e) = inr (array_error e)
set_conditions is_unset others (sql, none) = inl (
    codes " AND ( NOT ( "
    ++ (replace_first (codes "WHERE") [] sql ++ (codes ") OR (" ++ (is_unset ++ others))))

abbrev pub is_empty : Bytes → Bool
is_empty [] = true
is_empty (c ∷ s) = false

abbrev pub with_sql : Bytes → Bytes ⊎ Error → (Bytes × Bytes) ⊎ Error
with_sql sql (inl conditions) = inl (sql, conditions)
with_sql sql (inr e) = inr e

-- What `update` makes of the clause for the `$set`; `others` tells that there is a `$unset`, too.
unfoldable pub set_update : Bool → Bytes × Bytes → Bytes × Bytes → Answer → (Bytes × Bytes) ⊎ Error
unfolding set_conditions
set_update false (update_sql, is_unset) (unset_sql, is_set) a =
    with_sql update_sql (set_conditions is_unset (codes " )) ") a)
set_update true (update_sql, is_unset) (unset_sql, is_set) a =
    with_sql (update_sql ++ (codes ", " ++ unset_sql))
      (set_conditions is_unset (codes " ) OR ( " ++ (is_set ++ codes " ))")) a)

-- The end of `update`, from the two texts for each of `$set` and `$unset`.
unfoldable pub join_update :
    ℕ → Printing → Document → Bytes × Bytes → Bytes × Bytes → Sql ((Bytes × Bytes) ⊎ Error)
unfolding set_update
join_update fuel P set_doc set unset =
    if is_empty set.1
    then (if is_empty unset.1
        then State.pure (inr command_not_found)
        else State.pure (inl (unset.0, codes " AND ( " ++ (unset.1 ++ codes " )"))))
    else State.◌>>=◌ (create_where_clause fuel P set_doc)
        (λ a. State.pure (set_update (not (is_empty unset.1)) set unset a))

unfoldable pub both_clauses : Printing → Document → Outcome ((Bytes × Bytes) × (Bytes × Bytes))
unfolding clause_for
both_clauses P d = do
  set ← clause_for P true (lookup (codes "$set") d.m)
  unset ← clause_for P false (lookup (codes "$unset") d.m)
  ok (set, unset)

-- The rest of `update` after the two calls of `createSetandUnsetSqlStmnt`.
unfoldable pub update_from :
    ℕ
    → Printing
    → Document
    → Outcome ((Bytes × Bytes) × (Bytes × Bytes))
    → Sql ((Bytes × Bytes) ⊎ Error)
unfolding join_update
update_from fuel P set_doc o = State.◌>>=◌ (attempt (tried o)) (λ r. elim r [
  | inr e ↦ State.pure (inr e)
  | inl (set, unset) ↦ join_update fuel P set_doc set unset
])

-- `update`: the assignments, and the conditions.
unfoldable pub update : ℕ → Printing → Document → Sql ((Bytes × Bytes) ⊎ Error)
unfolding has_any both_clauses set_document update_from
update fuel P d =
    if has_any d unimplemented_fields
    then State.pure (inr not_implemented)
    else update_from fuel P (set_document (lookup (codes "$set") d.m)) (both_clauses P d)
