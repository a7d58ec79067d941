-- ===== src/Handlers/Clauses/Logics.antt =====
-- internal/handlers/common/where.go: logicExpression and the pairs that are no conditions keep `isNor`
-- and `norCounter`, where wherePair does.
use sap_hana_compatibility_l.Prelude.{
  ℕ, suc, ◌-◌, ◌≤◌, ◌<◌, Bool, true, false, not, ◌&&◌, none, some, ◌≡◌, refl, sym, ap, subst, ◌∙◌,
  arith, Bytes, Outcome, Error, ok, if◌then◌else◌, bytes_eq, codes, ltb, ◌==◌,
}
use sap_hana_compatibility_l.GoStd.Strings.{to_lower}
use sap_hana_compatibility_l.GoStd.Format.{Printing}
use sap_hana_compatibility_l.Types.Value.{Value, array}
use sap_hana_compatibility_l.Types.Arrays.{len}
use sap_hana_compatibility_l.Handlers.Where.State.{Nor, Answer, Sql, answer, pure, enter_nor, ◌>>=◌}
use sap_hana_compatibility_l.Handlers.Where.Logic.{
  logic_expr_of, logic_body, logic_end, logic_lower, logic_expression_by,
}
use sap_hana_compatibility_l.Handlers.Where.{equal_pair}
use sap_hana_compatibility_l.Handlers.Clauses.Quiet.{where_key-Calm, where_value-Calm}
use sap_hana_compatibility_l.Handlers.Clauses.Sizes.{size}
use sap_hana_compatibility_l.Handlers.Clauses.NorState.{
  IsNorState, Keeps, kept, broken, fails, Keeps-pure, Keeps-bind, Keeps-tried,
}
use sap_hana_compatibility_l.Handlers.Clauses.Loops.{
  KeepsPairs, Keeps-option, Keeps-if, logic_loop-Keeps,
}

-- `isNor` and `norCounter` under a `$nor`.
abbrev pub entered : Nor → Nor
entered st = record { is_nor = true; nor_counter = suc st.nor_counter }

entered-IsNorState : (st : Nor) → IsNorState (entered st)
entered-IsNorState st = ground arith

-- Leaving undoes entering.
abbrev left_state : Nor → Nor
left_state st =
    let n = st.nor_counter - 1 in
    record { is_nor = if n == 0 then false else st.is_nor; nor_counter = n }

left : (st : Nor) → IsNorState st → left_state (entered st) ≡ st
left st w =
    let count : suc st.nor_counter - 1 ≡ st.nor_counter = omega arith in
    let flag : (if (suc st.nor_counter - 1) == 0 then false else true) ≡ st.is_nor = ground arith in
    ap (λ b. record { is_nor = b; nor_counter = suc st.nor_counter - 1 }) flag
    ∙ ap (λ n. record { is_nor = st.is_nor; nor_counter = n }) count

logic_body-Keeps :
    (pair : Bytes → Value → Sql Answer) (logic_expr : Bytes) (nor : Bool) (v : Value) (n : ℕ)
    → size v ≤ suc n
    → KeepsPairs n pair
    → (st : Nor) → IsNorState st
    → Keeps st (logic_body pair logic_expr nor v st)
unfolding logic_body size
logic_body-Keeps pair logic_expr nor (array xs) n le keep st w =
    Keeps-if (ltb (len xs) 2 && not st.is_nor) _ _ (Keeps-pure st _ w)
      (logic_loop-Keeps pair logic_expr nor true xs (λ k x s l. keep k x s (omega arith)) _ st w)
logic_body-Keeps pair logic_expr nor _ n le keep st w = Keeps-pure st _ w

-- Leaving a `$nor` after an answer brings the state back that entering it found; after an error the
-- code does not leave it, and the counter is higher than before.
leave-Keeps :
    {st : Nor} {r : Outcome (Answer × Nor)}
    → IsNorState st
    → Keeps (entered st) r
    → Keeps st (((λ _. r) >>= logic_end true) st)
unfolding logic_end
leave-Keeps {st} w (kept {a = (t, none)} {after} w' le back) =
    subst (λ s. Keeps st (logic_end true (answer t) s)) (sym (back refl))
      (kept (subst IsNorState (sym (left st w)) w) (omega arith) (λ _. left st w))
leave-Keeps w (kept {a = (t, some e)} w' le back) = kept w' (omega arith) (λ h. cc)
leave-Keeps w broken = broken

stay-Keeps :
    {st : Nor} {r : Outcome (Answer × Nor)}
    → IsNorState st
    → Keeps st r
    → Keeps st (((λ _. r) >>= logic_end false) st)
unfolding logic_end
stay-Keeps w h = Keeps-bind (logic_end false) h (λ t. Keeps-pure _ _ w) λ t e after. fails

nor_body-Keeps :
    (pair : Bytes → Value → Sql Answer) (logic_expr : Bytes) (nor : Bool) (v : Value) (n : ℕ)
    → size v ≤ suc n
    → KeepsPairs n pair
    → (st : Nor) → IsNorState st
    → Keeps st (
        ((if nor then enter_nor else pure tt)
            >>= (λ _. logic_body pair logic_expr nor v >>= (λ a. logic_end nor a)))
          st)
nor_body-Keeps pair logic_expr true v n le keep st w =
    leave-Keeps w
      (logic_body-Keeps pair logic_expr true v n le keep (entered st) (entered-IsNorState st))
nor_body-Keeps pair logic_expr false v n le keep st w =
    stay-Keeps w (logic_body-Keeps pair logic_expr false v n le keep st w)

pub logic_expression_by-Keeps :
    (pair : Bytes → Value → Sql Answer) (key : Bytes) (v : Value) (n : ℕ)
    → size v ≤ suc n
    → KeepsPairs n pair
    → (st : Nor) → IsNorState st
    → Keeps st (logic_expression_by pair key v st)
unfolding logic_expression_by logic_lower
logic_expression_by-Keeps pair key v n le keep st w =
    Keeps-option (logic_expr_of (to_lower key)) _ _ (Keeps-pure st _ w) λ logic_expr _.
      nor_body-Keeps pair logic_expr (bytes_eq (to_lower key) (codes "$nor")) v n le keep st w

body-leaks :
    (st : Nor) {after : Nor} {r : Outcome (Answer × Nor)} {t : Bytes} {e : Error}
    → Keeps (entered st) r
    → ((λ _. r) >>= logic_end true) st ≡ ok ((t, some e), after)
    → (st.nor_counter < after.nor_counter) × (after.is_nor ≡ true)
unfolding logic_end
body-leaks st (kept {a = (t, none)} w le back) h = cc
body-leaks st {after} (kept {a = (t, some e)} {after = s} w le back) h =
    let same_state : s ≡ after = cc in
    let count : st.nor_counter < s.nor_counter = omega arith in
    let flag : s.is_nor ≡ true = ground arith in
    (
      subst (λ n. st.nor_counter < n.nor_counter) same_state count,
      subst (λ n. n.is_nor ≡ true) same_state flag,
    )
body-leaks st broken h = cc

pub logic_expression_by-leaks :
    (pair : Bytes → Value → Sql Answer) (key : Bytes) (v : Value) (n : ℕ)
    → size v ≤ suc n
    → KeepsPairs n pair
    → (st after : Nor) (t : Bytes) (e : Error) → IsNorState st
    → to_lower key ≡ codes "$nor"
    → logic_expression_by pair key v st ≡ ok ((t, some e), after)
    → (st.nor_counter < after.nor_counter) × (after.is_nor ≡ true)
unfolding logic_expression_by logic_lower logic_expr_of bytes_eq
logic_expression_by-leaks pair key v n le keep st after t e w nor h =
    body-leaks st
      (logic_body-Keeps pair (codes " AND NOT (") true v n le keep (entered st)
        (entered-IsNorState st))
      (subst (λ lower. logic_lower pair lower v st ≡ ok ((t, some e), after)) nor h)

pub equal_pair-Keeps :
    (P : Printing) (key : Bytes) (v : Value) (st : Nor)
    → IsNorState st
    → Keeps st (equal_pair P key v st)
unfolding equal_pair
equal_pair-Keeps P key v st w =
    Keeps-tried _ (where_value-Calm P v)
      (λ r. Keeps-tried _ (where_key-Calm key) (λ k_sql. Keeps-pure st _ w) λ e. Keeps-pure st _ w)
      λ e. Keeps-pure st _ w
