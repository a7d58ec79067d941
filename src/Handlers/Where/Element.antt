-- ===== src/Handlers/Where/Element.antt =====
-- internal/handlers/common/where.go: filterArray, the conditions on the elements of an array.
use sap_hana_compatibility_l.Prelude.{
  Bool, true, false, none, some, [], ◌∷◌, ◌++◌, if◌then◌else◌, inl, inr, Bytes, bytes_eq, codes,
  Outcome, ok, panicked, bad_value,
}
use sap_hana_compatibility_l.GoStd.Strings.{
  contains_text, before_first, replace_first, replace_last, to_lower,
}
use sap_hana_compatibility_l.GoStd.Format.{Printing}
use sap_hana_compatibility_l.Types.Value.{
  Value, Items, Fields, document, array, string, nil, cons, end, field,
}
use sap_hana_compatibility_l.Types.Fields.{lookup}
use sap_hana_compatibility_l.Types.Document.{make_document}
use sap_hana_compatibility_l.Handlers.SqlValue.{where_value}
use sap_hana_compatibility_l.Handlers.Where.State.{
  Answer, answer, fail, Sql, pure, ◌>>=◌, tried, attempt, conjunction,
}

-- `sqlSlice := strings.Split(sql, " AND "); sql = strings.Replace(sqlSlice[0], "(", "", 1)`, if the
-- text has the guard of `$nor`.
unfoldable pub drop_guard : Bytes → Bytes
drop_guard sql =
    if contains_text (codes " IS SET") sql
    then replace_first (codes "(") [] (before_first (codes " AND ") sql)
    else sql

-- `value.(types.Document).Get("$not")`
unfoldable pub has_not : Value → Bool
has_not (document m keys) = elim (lookup (codes "$not") m) [ none ↦ false | some v ↦ true ]
has_not _ = false

-- The text of one entry of the filter of `$elemMatch`: first under an operator, then of a field. The
-- second panics where there is no `UNSET` to replace.
unfoldable pub operator_entry : Bytes → Answer → Answer
unfolding drop_guard
operator_entry f a =
    let sql =
      if bytes_eq (to_lower f) (codes "$not")
      then replace_first (codes "(") [] (before_first (codes "OR") a.0)
      else a.0 in
    (drop_guard sql, a.1)

unfoldable pub field_entry : Value → Answer → Outcome Answer
unfolding drop_guard has_not
field_entry v a =
    if has_not v
    then elim (replace_last (codes "UNSET") (codes "NULL") a.0) [
      | none ↦ panicked
      | some sql ↦ ok (drop_guard sql, a.1)
    ]
    else ok (drop_guard a.0, a.1)

unfoldable pub element_entry : (Bytes → Value → Sql Answer) → Bytes → Value → Sql Answer
unfolding operator_entry field_entry
element_entry pair f v =
    if contains_text (codes "$") f
    then pair (codes "element") (document (field f v end) (f ∷ []))
      >>= (λ a. pure (operator_entry f a))
    else pair (codes "element." ++ f) v >>= (λ a. attempt (field_entry v a))

-- The loop of `filterArray` over a document, in the order that Go gives its map; `pair` is
-- `wherePair`.
unfoldable pub element_loop :
    (Bytes → Value → Sql Answer) → Bytes → Bool → Fields → Bytes → Sql Answer
unfolding element_entry
element_loop pair over first end kv = pure (answer (kv ++ codes " END "))
element_loop pair over first (field f v m) kv =
    let next = element_loop pair over false m in
    let kv1 = kv ++ conjunction first in
    let opening =
      if first then codes "FOR ANY \"element\" IN " ++ (over ++ codes " SATISFIES ") else [] in
    attempt (tried (make_document (string f ∷ v ∷ []))) >>= (λ r. elim r [
      | inr e ↦ pure (fail kv1 e)
      | inl d ↦
          element_entry pair f v
          >>= (λ a. elim a.1 [ some e ↦ pure (fail kv1 e) | none ↦ next (kv1 ++ (opening ++ a.0)) ])
    ])

-- The loop over an array, for `$all`.
unfoldable pub all_loop : Printing → Bytes → Bool → Items → Bytes → Sql Answer
all_loop P over first nil kv = pure (answer kv)
all_loop P over first (cons v xs) kv =
    let next = all_loop P over false xs in
    let kv1 = kv ++ conjunction first in
    attempt (tried (where_value P v)) >>= (λ r. elim r [
      | inr e ↦ pure (fail kv1 e)
      | inl (t, sign) ↦ next (
          kv1
          ++ (codes "FOR ANY \"element\" IN "
              ++ (over ++ (codes " SATISFIES \"element\" = " ++ (t ++ codes " END ")))))
    ])

-- `filterArray`, with `wherePair` as `pair`.
unfoldable pub filter_array_by :
    Printing → (Bytes → Value → Sql Answer) → Bytes → Bytes → Value → Sql Answer
unfolding element_loop all_loop
filter_array_by P pair over operator (document m keys) =
    if bytes_eq operator (codes "all")
    then pure (fail [] bad_value)
    else element_loop pair over true m []
filter_array_by P pair over operator (array xs) =
    if bytes_eq operator (codes "elemMatch")
    then pure (fail [] bad_value)
    else all_loop P over true xs []
filter_array_by P pair over operator _ = pure (fail [] bad_value)
