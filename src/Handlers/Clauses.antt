-- ===== src/Handlers/Clauses.antt =====
-- internal/handlers/common/where.go: what the functions make of `isNor` and `norCounter`, and that
-- they end.
pub mod Quiet
pub mod NorState
pub mod Sizes
mod Loops
mod Fields
mod Elements
mod Logics
use sap_hana_compatibility_l.Prelude.{
  ℕ, zero, suc, ◌<◌, ◌+◌, ◌*◌, Error, some, ◌-◌, [], ◌∷◌, ◌≤◌, Bool, true, false, ◌≡◌, arith, Bytes,
  Outcome, ok, panicked, if◌then◌else◌, codes,
}
use sap_hana_compatibility_l.GoStd.Format.{Printing}
use sap_hana_compatibility_l.GoStd.Strings.{has_prefix, to_lower}
use sap_hana_compatibility_l.Types.Value.{
  Value, document, array, double, string, binary, object_id, bool, date_time, null, regex, int32,
  timestamp, int64, cstring, other, Document, to_value,
}
use sap_hana_compatibility_l.Handlers.Where.State.{Nor, Answer, Sql, attempt, ◌>>=◌}
use sap_hana_compatibility_l.Handlers.Where.{
  is_condition, equal_pair, where_pair, logic_expression, field_expression, filter_array,
  create_where_clause,
}
use Sizes.{size}
use NorState.{IsNorState, Keeps, broken}
use Loops.{KeepsPairs, Keeps-if, clause_loop-Keeps}
use Fields.{KeepsBelow, field_expression_by-Keeps}
use Elements.{filter_array_by-Keeps}
use Logics.{logic_expression_by-Keeps, logic_expression_by-leaks, equal_pair-Keeps}

-- With this fuel the four functions keep `isNor` and `norCounter`.
record KeepsAll (P : Printing) (fuel : ℕ) : Type 0 where
  pair :
      (key : Bytes) (v : Value) (st : Nor)
      → 3 * size v + 2 ≤ fuel
      → IsNorState st
      → Keeps st (where_pair fuel P key v st)
  logic :
      (key : Bytes) (v : Value) (st : Nor)
      → 3 * size v + 1 ≤ fuel
      → IsNorState st
      → Keeps st (logic_expression fuel P key v st)
  field :
      (key : Bytes) (v : Value) (st : Nor)
      → 3 * size v + 1 ≤ fuel
      → IsNorState st
      → Keeps st (field_expression fuel P key v st)
  filter :
      (over operator : Bytes) (v : Value) (st : Nor)
      → 3 * size v + 3 ≤ fuel
      → IsNorState st
      → Keeps st (filter_array fuel P over operator v st)

size-positive : (v : Value) → 1 ≤ size v
unfolding size
size-positive (document m keys) = omega arith
size-positive (array xs) = omega arith
size-positive _ = omega arith

is_condition-Keeps :
    (v : Value) (x y : Sql Answer) (st : Nor)
    → Keeps st (x st)
    → Keeps st (y st)
    → Keeps st ((attempt (is_condition v) >>= (λ c. if c then x else y)) st)
unfolding is_condition
is_condition-Keeps (document m []) x y st h k = broken
is_condition-Keeps (document m (key ∷ keys)) x y st h k =
    Keeps-if (has_prefix (codes "$") key) x y h k
is_condition-Keeps _ x y st h k = k

keeps_all : (P : Printing) (fuel : ℕ) → KeepsAll P fuel
unfolding where_pair
keeps_all P zero = record {
  pair = λ key v st le w. ground arith;
  logic = λ key v st le w. ground arith;
  field = λ key v st le w. ground arith;
  filter = λ over operator v st le w. ground arith;
}
keeps_all P (suc f) =
    let ih = keeps_all P f in
    record {
      pair = λ key v st le w.
          Keeps-if (has_prefix (codes "$") key) _ _ (ih.logic key v st (omega arith) w) (
            is_condition-Keeps v _ _ st (ih.field key v st (omega arith) w)
              (equal_pair-Keeps P key v st w));
      logic = λ key v st le w.
          let one = size-positive v in
          logic_expression_by-Keeps (where_pair f P) key v (size v - 1) (omega arith)
            (λ k x s l u. ih.pair k x s (omega arith) u) st w;
      field = λ key v st le w.
          field_expression_by-Keeps P (field_expression f P key) (filter_array f P) key v
            (λ x s l u. ih.field key x s (omega arith) u)
            (λ over operator x s l u. ih.filter over operator x s (omega arith) u) st w;
      filter = λ over operator v st le w.
          filter_array_by-Keeps P (where_pair f P) over operator v
            (λ k x s l u. ih.pair k x s (omega arith) u) st w;
    }

-- `CreateWhereClause`, started where `isNor` is set if and only if `norCounter` is not 0, and with fuel
-- for the size of the filter, panics or ends; it ends in the state that it began in if it returns no
-- error, and with the counter not lower, and `isNor` set if and only if it is not 0, otherwise.
pub create_where_clause-Keeps :
    (fuel : ℕ) (P : Printing) (filter : Document) (st : Nor)
    → 3 * size (to_value filter) + 2 ≤ fuel
    → IsNorState st
    → Keeps st (create_where_clause fuel P filter st)
unfolding create_where_clause size
create_where_clause-Keeps fuel P filter st le w =
    clause_loop-Keeps (where_pair fuel P) filter.m
      (λ k v s l u. (keeps_all P fuel).pair k v s (omega arith) u) true filter.keys [] st w

-- A `$nor` that returns an error leaves `isNor` set and `norCounter` higher than it found it, where
-- it found `isNor` set if and only if `norCounter` was not 0, and has fuel for the size of its
-- value.
pub logic_expression-leaks :
    (fuel : ℕ) (P : Printing) (key : Bytes) (v : Value) (st after : Nor) (t : Bytes) (e : Error)
    → 3 * size v + 1 ≤ fuel
    → IsNorState st
    → to_lower key ≡ codes "$nor"
    → logic_expression fuel P key v st ≡ ok ((t, some e), after)
    → (st.nor_counter < after.nor_counter) × (after.is_nor ≡ true)
unfolding where_pair
logic_expression-leaks zero P key v st after t e le w nor h = absurd (omega arith)
logic_expression-leaks (suc f) P key v st after t e le w nor h =
    let one = size-positive v in
    logic_expression_by-leaks (where_pair f P) key v (size v - 1) (omega arith)
      (λ k x s l u. (keeps_all P f).pair k x s (omega arith) u) st after t e w nor h
