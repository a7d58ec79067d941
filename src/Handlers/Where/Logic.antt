-- ===== src/Handlers/Where/Logic.antt =====
-- internal/handlers/common/where.go: logicExpression, the conditions that join others.
use sap_hana_compatibility_l.Prelude.{
  Bool, true, false, not, ◌&&◌, Option, none, some, List, [], ◌∷◌, ◌++◌, ltb, if◌then◌else◌, Bytes,
  bytes_eq, codes, not_implemented, bad_value, key_not_found, too_few_expressions,
  unknown_top_level, not_a_document,
}
use sap_hana_compatibility_l.GoStd.Strings.{to_lower}
use sap_hana_compatibility_l.Types.Value.{Value, Items, Fields, document, array, nil, cons}
use sap_hana_compatibility_l.Types.Fields.{lookup}
use sap_hana_compatibility_l.Types.Arrays.{len}
use sap_hana_compatibility_l.Handlers.Where.State.{
  Answer, answer, fail, Sql, pure, ◌>>=◌, get_is_nor, enter_nor, leave_nor, conjunction,
}

-- `logicExprMap`
unfoldable pub logic_expr_of : Bytes → Option Bytes
logic_expr_of k =
    if bytes_eq k (codes "$and")
    then some (codes " AND ")
    else if bytes_eq k (codes "$or")
    then some (codes " OR ")
    else if bytes_eq k (codes "$nor")
    then some (codes " AND NOT (")
    else none

-- The loop over the keys of one expression.
unfoldable pub expression_loop :
    (Bytes → Value → Sql Answer) → Fields → Bool → List Bytes → Bytes → Sql Answer
expression_loop pair m first [] kv = pure (answer kv)
expression_loop pair m first (k ∷ keys) kv =
    let next = expression_loop pair m false keys in
    let kv1 = kv ++ conjunction first in
    elim (lookup k m) [
      | none ↦ pure (fail kv1 key_not_found)
      | some v ↦
          pair k v >>= (λ a. elim a.1 [ some e ↦ pure (fail kv1 e) | none ↦ next (kv1 ++ a.0) ])
    ]

-- What stands in front of an expression.
unfoldable pub expression_open : Bytes → Bool → Bool → Bytes
expression_open logic_expr nor true = if nor then codes " NOT (" else []
expression_open logic_expr nor false = logic_expr

-- The loop over the expressions; `nor` is `localIsNor`.
unfoldable pub logic_loop :
    (Bytes → Value → Sql Answer) → Bytes → Bool → Bool → Items → Bytes → Sql Answer
unfolding expression_loop expression_open
logic_loop pair logic_expr nor first nil kv = pure (answer kv)
logic_loop pair logic_expr nor first (cons (document m keys) xs) kv =
    let next = logic_loop pair logic_expr nor false xs in
    expression_loop pair m true keys (kv ++ expression_open logic_expr nor first)
    >>= (λ a. elim a.1 [ some e ↦ pure a | none ↦ next (a.0 ++ (if nor then codes ")" else [])) ])
logic_loop pair logic_expr nor first (cons _ xs) kv = pure (fail kv not_a_document)

-- The part of `logicExpression` between entering and leaving `$nor`.
unfoldable pub logic_body : (Bytes → Value → Sql Answer) → Bytes → Bool → Value → Sql Answer
unfolding logic_loop
logic_body pair logic_expr nor (array xs) = get_is_nor >>= (λ is_nor.
    if ltb (len xs) 2 && not is_nor
    then pure (fail (codes "(") too_few_expressions)
    else logic_loop pair logic_expr nor true xs (codes "("))
logic_body pair logic_expr nor _ = pure (fail (codes "(") bad_value)

-- Its end, which an error does not reach.
unfoldable pub logic_end : Bool → Answer → Sql Answer
logic_end nor (kv, some e) = pure (kv, some e)
logic_end true (kv, none) = leave_nor >>= (λ _. pure (answer (kv ++ codes ")")))
logic_end false (kv, none) = pure (answer (kv ++ codes ")"))

-- `logicExpression` after its key is in lower case, with `wherePair` as `pair`.
unfoldable pub logic_lower : (Bytes → Value → Sql Answer) → Bytes → Value → Sql Answer
unfolding logic_expr_of logic_body logic_end
logic_lower pair lower v = elim (logic_expr_of lower) [
  | none ↦
      pure (fail [] (if bytes_eq lower (codes "$not") then unknown_top_level else not_implemented))
  | some logic_expr ↦
      let nor = bytes_eq lower (codes "$nor") in
      (if nor then enter_nor else pure tt)
      >>= (λ _. logic_body pair logic_expr nor v >>= (λ a. logic_end nor a))
]

unfoldable pub logic_expression_by : (Bytes → Value → Sql Answer) → Bytes → Value → Sql Answer
unfolding logic_lower
logic_expression_by pair key v = logic_lower pair (to_lower key) v
