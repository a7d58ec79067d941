-- ===== src/Handlers/Where.antt =====
-- internal/handlers/common/where.go: CreateWhereClause and wherePair, filters as WHERE clauses. `isNor`
-- and `norCounter` are global variables: every function takes their state and returns it, with an
-- error too.
pub mod State
pub mod Field
pub mod Element
pub mod Logic
use sap_hana_compatibility_l.Prelude.{
  ℕ, zero, suc, Bool, true, false, Option, none, some, List, [], ◌∷◌, ◌++◌, ◌⊎◌, inl, inr, Bytes,
  codes, if◌then◌else◌, Outcome, Error, ok, err, panicked, stuck,
}
use sap_hana_compatibility_l.GoStd.Strings.{has_prefix}
use sap_hana_compatibility_l.GoStd.Format.{Printing}
use sap_hana_compatibility_l.Types.Value.{
  Value, Fields, document, array, double, string, binary, object_id, bool, date_time, null, regex,
  int32, timestamp, int64, cstring, other, Document,
}
use sap_hana_compatibility_l.Types.Fields.{lookup}
use sap_hana_compatibility_l.Handlers.SqlValue.{where_value}
use sap_hana_compatibility_l.Handlers.SqlKey.{where_key}
use sap_hana_compatibility_l.Handlers.Where.State.{
  Nor, Answer, answer, fail, Sql, pure, ◌>>=◌, get_is_nor, attempt, tried,
}
use sap_hana_compatibility_l.Handlers.Where.Field.{field_expression_by}
use sap_hana_compatibility_l.Handlers.Where.Element.{filter_array_by}
use sap_hana_compatibility_l.Handlers.Where.Logic.{logic_expression_by}

-- `{key: value}` where the value is no condition.
unfoldable pub equal_pair : Printing → Bytes → Value → Sql Answer
unfolding where_value where_key
equal_pair P key v = attempt (tried (where_value P v)) >>= (λ r. elim r [
  | inr e ↦ pure (fail [] e)
  | inl (v_sql, sign) ↦ attempt (tried (where_key key)) >>= (λ s. elim s [
    | inr e ↦ pure (fail [] e)
    | inl k_sql ↦ get_is_nor >>= (λ nor.
        let kv = k_sql ++ (sign ++ v_sql) in
        pure (
          answer (
            if nor
            then codes "(" ++ (kv ++ (codes " AND " ++ (k_sql ++ codes " IS SET)")))
            else kv)))
  ])
])

-- Which case of `wherePair` a value is: a condition, no condition, or a document without keys, at
-- which the code panics.
unfoldable pub is_condition : Value → Outcome Bool
is_condition (document m []) = panicked
is_condition (document m (k ∷ keys)) = ok (has_prefix (codes "$") k)
is_condition _ = ok false

-- The four functions that call each other. The fuel falls with every call.
unfoldable mutual
  unfolding equal_pair is_condition field_expression_by filter_array_by logic_expression_by

  -- `wherePair`
  pub where_pair : ℕ → Printing → Bytes → Value → Sql Answer
  where_pair zero P key v = λ st. stuck
  where_pair (suc fuel) P key v =
      if has_prefix (codes "$") key
      then logic_expression fuel P key v
      else attempt (is_condition v)
        >>= (λ c. if c then field_expression fuel P key v else equal_pair P key v)

  -- `logicExpression`
  pub logic_expression : ℕ → Printing → Bytes → Value → Sql Answer
  logic_expression zero P key v = λ st. stuck
  logic_expression (suc fuel) P key v = logic_expression_by (where_pair fuel P) key v

  -- `fieldExpression`
  pub field_expression : ℕ → Printing → Bytes → Value → Sql Answer
  field_expression zero P key v = λ st. stuck
  field_expression (suc fuel) P key v =
      field_expression_by P (field_expression fuel P key) (filter_array fuel P) key v

  -- `filterArray`
  pub filter_array : ℕ → Printing → Bytes → Bytes → Value → Sql Answer
  filter_array zero P over operator v = λ st. stuck
  filter_array (suc fuel) P over operator v = filter_array_by P (where_pair fuel P) over operator v

-- The loop of `CreateWhereClause`, with `wherePair` as `pair`; a key without a value has the value
-- nil.
unfoldable pub clause_loop :
    (Bytes → Value → Sql Answer) → Fields → Bool → List Bytes → Bytes → Sql Answer
clause_loop pair m first [] sql = pure (answer sql)
clause_loop pair m first (key ∷ keys) sql =
    let next = clause_loop pair m false keys in
    let sql1 = sql ++ (if first then codes " WHERE " else codes " AND ") in
    pair key (elim (lookup key m) [ none ↦ null | some v ↦ v ])
    >>= (λ a. elim a.1 [ some e ↦ pure (fail sql1 e) | none ↦ next (sql1 ++ a.0) ])

-- `CreateWhereClause`
unfoldable pub create_where_clause : ℕ → Printing → Document → Sql Answer
unfolding clause_loop where_pair
create_where_clause fuel P filter = clause_loop (where_pair fuel P) filter.m true filter.keys []
