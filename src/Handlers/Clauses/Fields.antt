-- ===== src/Handlers/Clauses/Fields.antt =====
-- internal/handlers/common/where.go: fieldExpression and filterArray keep `isNor` and `norCounter`,
-- where the calls that they make do.
use sap_hana_compatibility_l.Prelude.{
  ℕ, suc, ◌≤◌, Bool, true, false, Option, none, some, List, [], ◌∷◌, ◌≡◌, refl, arith, Bytes,
  Outcome, Error, ok, err, panicked, if◌then◌else◌, bytes_eq, codes, ◌||◌, ◌++◌, stuck, holds,
  failed,
}
use sap_hana_compatibility_l.GoStd.Format.{Printing}
use sap_hana_compatibility_l.GoStd.Strings.{to_lower}
use sap_hana_compatibility_l.Types.Value.{Value, Fields, document}
use sap_hana_compatibility_l.Types.Fields.{lookup}
use sap_hana_compatibility_l.Bson.Calm.{Calm}
use sap_hana_compatibility_l.Handlers.SqlValue.{sign_is}
use sap_hana_compatibility_l.Handlers.Where.State.{Nor, Answer, Sql, attempt, ◌>>=◌}
use sap_hana_compatibility_l.Handlers.Where.Field.{
  Round, written, refused, left_over, valued, regex_round, operator_sql, round_next, field_expr_of,
  field_loop, field_conditions, field_expression_by,
}
use sap_hana_compatibility_l.Handlers.Clauses.Quiet.{
  like_pattern-Calm, where_key-Calm, where_value-Calm,
}
use sap_hana_compatibility_l.Handlers.Clauses.Sizes.{size, fields_size, size-lookup}
use sap_hana_compatibility_l.Handlers.Clauses.NorState.{
  IsNorState, Keeps, broken, fails, Keeps-pure, Keeps-bind, Keeps-tried,
}
use sap_hana_compatibility_l.Handlers.Clauses.Loops.{Keeps-option, Keeps-if}

-- The calls for values below a size keep them.
abbrev pub KeepsBelow : ℕ → (Value → Sql Answer) → Type 0
KeepsBelow n run = (v : Value) (st : Nor) → suc (size v) ≤ n → IsNorState st → Keeps st (run v st)

abbrev Settled {ℓ} : {A : Type ℓ} → Outcome A → Type ℓ
Settled {A} o = (a : A) × (o ≡ ok a)

valued-Settled :
    (kv : Bytes) (o : Outcome (Bytes × Bytes)) (make : Bytes → Bytes → Bytes)
    → Calm o
    → Settled (valued kv o make)
unfolding valued
valued-Settled kv o make (holds h) = (_, refl)
valued-Settled kv o make failed = (_, refl)

regex_round-Settled :
    (kv field_expr : Bytes) (o : Outcome Bytes) → Calm o → Settled (regex_round kv field_expr o)
unfolding regex_round
regex_round-Settled kv field_expr o (holds h) = (_, refl)
regex_round-Settled kv field_expr o failed = (_, refl)

if-Settled :
    {A : Type 0} (b : Bool) {x y : Outcome A} → Settled x → Settled y → Settled (if b then x else y)
if-Settled true x y = x
if-Settled false x y = y

operator_sql-Settled :
    (P : Printing) (k_sql lower field_expr kv : Bytes) (v : Value)
    → Settled (operator_sql P k_sql lower field_expr kv v)
unfolding operator_sql
operator_sql-Settled P k_sql lower field_expr kv v =
    let value = where_value-Calm P v in
    if-Settled (bytes_eq lower (codes "$exists")) (_, refl)
      (if-Settled (bytes_eq lower (codes "$size"))
        (valued-Settled (field_expr ++ (codes "(" ++ (kv ++ codes ")"))) _ (λ t sign. sign ++ t)
          value)
        (if-Settled (bytes_eq lower (codes "$ne"))
          (valued-Settled (codes "(" ++ kv) _
            (λ t sign.
              (if bytes_eq sign sign_is then codes " IS NOT " else field_expr)
              ++ (t ++ (codes " OR " ++ (k_sql ++ codes " IS UNSET)"))))
            value)
          (if-Settled (bytes_eq lower (codes "$regex"))
            (regex_round-Settled kv field_expr _ (like_pattern-Calm v))
            (valued-Settled kv _
              (λ t sign. (if bytes_eq sign sign_is then sign else field_expr) ++ t) value))))

Keeps-Settled :
    {A : Type 0} {st : Nor} {o : Outcome A} (f : A → Sql Answer)
    → Settled o
    → ((a : A) → Keeps st (f a st))
    → Keeps st ((attempt o >>= f) st)
Keeps-Settled {o = ok b} f (a, e) k = k b
Keeps-Settled {o = err x} f (a, e) k = cc
Keeps-Settled {o = panicked} f (a, e) k = broken
Keeps-Settled {o = stuck} f (a, e) k = cc

round_next-Keeps :
    (k_sql : Bytes) (next : Bytes → Option Error → Sql Answer) (r : Round) (st : Nor)
    → IsNorState st
    → ((t : Bytes) (o : Option Error) → Keeps st (next t o st))
    → Keeps st (round_next k_sql next r st)
unfolding round_next
round_next-Keeps k_sql next (written t) st w h = h _ none
round_next-Keeps k_sql next (refused t e) st w h = Keeps-pure st _ w
round_next-Keeps k_sql next (left_over t e) st w h = h _ (some e)

field_loop-Keeps :
    (P : Printing) (k_sql : Bytes) (negated : Value → Sql Answer)
    → (in_array : Bytes → Bytes → Value → Sql Answer) (m : Fields)
    → KeepsBelow (fields_size m) negated
    → ((over operator : Bytes) → KeepsBelow (fields_size m) (in_array over operator))
    → (first : Bool) (keys : List Bytes) (kv : Bytes) (pending : Option Error) (st : Nor)
    → IsNorState st
    → Keeps st (field_loop P k_sql negated in_array m first keys kv pending st)
unfolding field_loop
field_loop-Keeps P k_sql negated in_array m neg arr first [] kv pending st w = Keeps-pure st _ w
field_loop-Keeps P k_sql negated in_array m neg arr first (k ∷ keys) kv pending st w =
    let again = field_loop-Keeps P k_sql negated in_array m neg arr false keys in
    Keeps-option (field_expr_of (to_lower k)) _ _ (Keeps-pure st _ w) λ field_expr _.
      Keeps-option (lookup k m) _ _ (Keeps-pure st _ w) λ v e.
        Keeps-if
          (bytes_eq (to_lower k) (codes "$all") || bytes_eq (to_lower k) (codes "$elemmatch")) _ _
          (Keeps-bind _ (arr _ field_expr v st (size-lookup k m v e) w) (λ t. again t none st w)
            λ t x after. fails)
          (Keeps-if (bytes_eq (to_lower k) (codes "$not")) _ _
            (Keeps-bind _ (neg v st (size-lookup k m v e) w) (λ t. Keeps-pure st _ w)
              λ t x after. fails)
            (Keeps-Settled _ (operator_sql-Settled P k_sql (to_lower k) field_expr _ v) λ r.
              round_next-Keeps k_sql (field_loop P k_sql negated in_array m false keys) r st w
                (λ t o. again t o st w)))

field_conditions-Keeps :
    (P : Printing) (negated : Value → Sql Answer) (in_array : Bytes → Bytes → Value → Sql Answer)
    → (k_sql : Bytes) (v : Value) → KeepsBelow (size v) negated
    → ((over operator : Bytes) → KeepsBelow (size v) (in_array over operator))
    → (st : Nor) → IsNorState st
    → Keeps st (field_conditions P negated in_array k_sql v st)
unfolding field_conditions size
field_conditions-Keeps P negated in_array k_sql (document m keys) neg arr st w =
    field_loop-Keeps P k_sql negated in_array m (λ x s le. neg x s (omega arith))
      (λ o p x s le. arr o p x s (omega arith)) true keys [] none st w
field_conditions-Keeps P negated in_array k_sql _ neg arr st w = Keeps-pure st _ w

pub field_expression_by-Keeps :
    (P : Printing) (negated : Value → Sql Answer) (in_array : Bytes → Bytes → Value → Sql Answer)
    → (key : Bytes) (v : Value) → KeepsBelow (size v) negated
    → ((over operator : Bytes) → KeepsBelow (size v) (in_array over operator))
    → (st : Nor) → IsNorState st
    → Keeps st (field_expression_by P negated in_array key v st)
unfolding field_expression_by
field_expression_by-Keeps P negated in_array key v neg arr st w =
    Keeps-tried _ (where_key-Calm key)
      (λ k_sql. field_conditions-Keeps P negated in_array k_sql v neg arr st w)
      λ e. Keeps-pure st _ w
