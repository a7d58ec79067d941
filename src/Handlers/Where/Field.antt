-- ===== src/Handlers/Where/Field.antt =====
-- internal/handlers/common/where.go: fieldExpression, the conditions on one field. The text that the
-- function had built when it met an error is returned beside the error, as the named results are.
use sap_hana_compatibility_l.Prelude.{
  Bool, true, false, ◌||◌, Option, none, some, List, [], ◌∷◌, ◌++◌, if◌then◌else◌, inl, inr, Bytes,
  bytes_eq, codes, Outcome, Error, ok, err, panicked, stuck, not_implemented, bad_value,
  key_not_found, exists_needs_bool,
}
use sap_hana_compatibility_l.GoStd.Strings.{to_lower}
use sap_hana_compatibility_l.GoStd.Format.{Printing}
use sap_hana_compatibility_l.Types.Value.{Value, Fields, document, bool}
use sap_hana_compatibility_l.Types.Fields.{lookup}
use sap_hana_compatibility_l.Handlers.SqlValue.{where_value, sign_is}
use sap_hana_compatibility_l.Handlers.SqlKey.{where_key}
use sap_hana_compatibility_l.Handlers.Like.{like_pattern}
use sap_hana_compatibility_l.Handlers.Where.State.{
  Answer, answer, fail, Sql, pure, ◌>>=◌, tried, get_is_nor, attempt, conjunction,
}

-- `fieldExprMap`
unfoldable pub field_expr_of : Bytes → Option Bytes
field_expr_of k =
    if bytes_eq k (codes "$gt")
    then some (codes " > ")
    else if bytes_eq k (codes "$gte")
    then some (codes " >= ")
    else if bytes_eq k (codes "$lt")
    then some (codes " < ")
    else if bytes_eq k (codes "$lte")
    then some (codes " <= ")
    else if bytes_eq k (codes "$eq")
    then some (codes " = ")
    else if bytes_eq k (codes "$ne")
    then some (codes " <> ")
    else if bytes_eq k (codes "$exists")
    then some (codes " IS ")
    else if bytes_eq k (codes "$size")
    then some (codes "CARDINALITY")
    else if bytes_eq k (codes "$all")
    then some (codes "all")
    else if bytes_eq k (codes "$elemmatch")
    then some (codes "elemMatch")
    else if bytes_eq k (codes "$not")
    then some (codes " NOT ")
    else if bytes_eq k (codes "$regex")
    then some (codes " LIKE ")
    else none

-- `kvSQL += fieldExpr + vSQL`, and the guard under `$nor`.
unfoldable pub field_close : Bytes → Bytes → Sql Bytes
field_close k_sql kv = do
  nor ← get_is_nor
  pure (if nor then codes "(" ++ (kv ++ (codes " AND " ++ (k_sql ++ codes " IS SET)"))) else kv)

-- One round of the loop: the text with the round's condition, an error that ends the loop, or an
-- error that stays in its variable until the next round overwrites it.
pub data Round : Type 0 where
  written : Bytes → Round
  refused : Bytes → Error → Round
  left_over : Bytes → Error → Round

-- A value under an operator: the text before it, and what is made of the value and its sign.
unfoldable pub valued : Bytes → Outcome (Bytes × Bytes) → (Bytes → Bytes → Bytes) → Outcome Round
valued kv o make = elim (tried o) [
  | ok (inl (t, sign)) ↦ ok (written (kv ++ make t sign))
  | ok (inr e) ↦ ok (refused kv e)
  | err e ↦ err e
  | panicked ↦ panicked
  | stuck ↦ stuck
]

unfoldable pub exists_round : Bytes → Bytes → Value → Round
exists_round kv field_expr (bool true) = written (kv ++ (field_expr ++ codes "SET"))
exists_round kv field_expr (bool false) = written (kv ++ (field_expr ++ codes "UNSET"))
exists_round kv field_expr _ = refused kv exists_needs_bool

unfoldable pub regex_round : Bytes → Bytes → Outcome Bytes → Outcome Round
regex_round kv field_expr o = elim (tried o) [
  | ok (inl t) ↦ ok (written (kv ++ (field_expr ++ t)))
  | ok (inr e) ↦ ok (left_over (kv ++ field_expr) e)
  | err e ↦ err e
  | panicked ↦ panicked
  | stuck ↦ stuck
]

-- The operators but `$all`, `$elemMatch` and `$not`; `kv` is the text with the key.
unfoldable pub operator_sql : Printing → Bytes → Bytes → Bytes → Bytes → Value → Outcome Round
unfolding valued exists_round regex_round
operator_sql P k_sql lower field_expr kv v =
    if bytes_eq lower (codes "$exists")
    then ok (exists_round kv field_expr v)
    else if bytes_eq lower (codes "$size")
    then valued (field_expr ++ (codes "(" ++ (kv ++ codes ")"))) (where_value P v)
        (λ t sign. sign ++ t)
    else if bytes_eq lower (codes "$ne")
    then valued (codes "(" ++ kv) (where_value P v) (λ t sign.
      (if bytes_eq sign sign_is then codes " IS NOT " else field_expr)
      ++ (t ++ (codes " OR " ++ (k_sql ++ codes " IS UNSET)"))))
    else if bytes_eq lower (codes "$regex")
    then regex_round kv field_expr (like_pattern v)
    else valued kv (where_value P v)
        (λ t sign. (if bytes_eq sign sign_is then sign else field_expr) ++ t)

-- What the loop does after a round; `next` is its rest.
unfoldable pub round_next : Bytes → (Bytes → Option Error → Sql Answer) → Round → Sql Answer
unfolding field_close
round_next k_sql next (written t) = field_close k_sql t >>= (λ kv. next kv none)
round_next k_sql next (refused t e) = pure (fail t e)
round_next k_sql next (left_over t e) = field_close k_sql t >>= (λ kv. next kv (some e))

-- The loop of `fieldExpression` over the keys of the document `m`. `negated` is `fieldExpression` on
-- the same field and `in_array` is `filterArray`; `pending` is the error that the last round left.
unfoldable pub field_loop :
    Printing
    → Bytes
    → (Value → Sql Answer)
    → (Bytes → Bytes → Value → Sql Answer)
    → Fields
    → Bool
    → List Bytes
    → Bytes
    → Option Error
    → Sql Answer
unfolding field_expr_of operator_sql round_next
field_loop P k_sql negated in_array m first [] kv pending = pure (kv, pending)
field_loop P k_sql negated in_array m first (k ∷ keys) kv pending =
    let next = field_loop P k_sql negated in_array m false keys in
    let kv1 = kv ++ (conjunction first ++ k_sql) in
    let lower = to_lower k in
    elim (field_expr_of lower) [
      | none ↦ pure (fail kv1 not_implemented)
      | some field_expr ↦ elim (lookup k m) [
        | none ↦ pure (fail kv1 key_not_found)
        | some v ↦
            if bytes_eq lower (codes "$all") || bytes_eq lower (codes "$elemmatch")
            then in_array kv1 field_expr v
              >>= (λ a. elim a.1 [ some e ↦ pure a | none ↦ next a.0 none ])
            else if bytes_eq lower (codes "$not")
            then negated v >>= (λ a. elim a.1 [
              | some e ↦ pure (fail kv1 bad_value)
              | none ↦ pure (
                  answer (
                    codes "("
                    ++ (field_expr ++ (a.0 ++ (codes " OR " ++ (k_sql ++ codes " IS UNSET) "))))))
            ])
            else attempt (operator_sql P k_sql lower field_expr kv1 v) >>= round_next k_sql next
      ]
    ]

unfoldable pub field_conditions :
    Printing
    → (Value → Sql Answer)
    → (Bytes → Bytes → Value → Sql Answer)
    → Bytes
    → Value
    → Sql Answer
unfolding field_loop
field_conditions P negated in_array k_sql (document m keys) =
    field_loop P k_sql negated in_array m true keys [] none
field_conditions P negated in_array k_sql _ = pure (fail [] bad_value)

-- `fieldExpression`, with its own calls as parameters.
unfoldable pub field_expression_by :
    Printing
    → (Value → Sql Answer)
    → (Bytes → Bytes → Value → Sql Answer)
    → Bytes
    → Value
    → Sql Answer
unfolding field_conditions where_key
field_expression_by P negated in_array key v = attempt (tried (where_key key)) >>= (λ r. elim r [
  | inr e ↦ pure (fail [] e)
  | inl k_sql ↦ field_conditions P negated in_array k_sql v
])
