-- ===== src/Handlers/Clauses/Elements.antt =====
-- internal/handlers/common/where.go: filterArray keeps `isNor` and `norCounter`, where wherePair does.
use sap_hana_compatibility_l.Prelude.{
  suc, Bool, true, false, Option, none, some, [], ◌∷◌, arith, Bytes, Outcome, Error, ok, panicked,
  if◌then◌else◌,
}
use sap_hana_compatibility_l.GoStd.Format.{Printing}
use sap_hana_compatibility_l.Types.Value.{
  Value, Items, Fields, document, array, string, nil, cons, end, field,
}
use sap_hana_compatibility_l.Types.Fields.{lookup}
use sap_hana_compatibility_l.Handlers.Where.State.{Nor, Answer, Sql}
use sap_hana_compatibility_l.Handlers.Clauses.Sizes.{size, fields_size}
use sap_hana_compatibility_l.Handlers.Clauses.NorState.{
  IsNorState, Keeps, broken, Fails, fails, breaks, Keeps-pure, Keeps-bind, Keeps-tried,
}
use sap_hana_compatibility_l.Prelude.{
  Ensures-bind, Ensures-guard, holds, codes, not, bytes_eq, key_present, invalid_key,
}
use sap_hana_compatibility_l.GoStd.Strings.{contains_text, replace_last}
use sap_hana_compatibility_l.Types.Fields.{is_some}
use sap_hana_compatibility_l.Types.Validate.{is_valid_key, validate}
use sap_hana_compatibility_l.Types.Value.{Document, empty_document}
use sap_hana_compatibility_l.Types.Document.{add, add_pairs, make_document}
use sap_hana_compatibility_l.Bson.Calm.{Calm, validate_value-Calm}
use sap_hana_compatibility_l.Handlers.Where.State.{attempt, answer, fail}
use sap_hana_compatibility_l.Handlers.Where.Element.{
  drop_guard, has_not, field_entry, element_entry, element_loop, all_loop, filter_array_by,
}
use sap_hana_compatibility_l.Handlers.Clauses.Quiet.{where_value-Calm}
use sap_hana_compatibility_l.Handlers.Clauses.Loops.{KeepsPairs, Keeps-if}

add-Calm : (f : Bytes) (v : Value) (d : Document) → Calm (add f v d)
unfolding add
add-Calm f v d = Ensures-bind (Ensures-guard (not (is_some (lookup f d.m))) key_present) λ _ _.
    Ensures-bind (Ensures-guard (is_valid_key f) invalid_key)
      λ _ _. Ensures-bind (validate_value-Calm v) λ _ _. holds tt

pairs-Calm : (f : Bytes) (v : Value) (d : Document) → Calm (add_pairs (string f ∷ v ∷ []) d)
unfolding add_pairs
pairs-Calm f v d = Ensures-bind (add-Calm f v d) λ _ _. holds tt

make_document-Calm : (f : Bytes) (v : Value) → Calm (make_document (string f ∷ v ∷ []))
unfolding make_document validate
make_document-Calm f v =
    Ensures-bind (pairs-Calm f v empty_document)
      λ d _. Ensures-bind (validate_value-Calm (document d.m d.keys)) λ _ _. holds tt

-- What is made of an entry's answer has its error, if it is anything.
data HandsOn (a : Answer) : Outcome Answer → Type 0 where
  made : {sql : Bytes} → HandsOn a (ok (sql, a.1))
  gone : HandsOn a panicked

field_entry-HandsOn : (v : Value) (a : Answer) → HandsOn a (field_entry v a)
unfolding field_entry
field_entry-HandsOn v a =
    either (has_not v) (replace_last (codes "UNSET") (codes "NULL") a.0) (drop_guard a.0)
  where
    either :
        (b : Bool) (o : Option Bytes) (s : Bytes)
        → HandsOn a (
            if b
            then elim o [ none ↦ panicked | some sql ↦ ok (drop_guard sql, a.1) ]
            else ok (s, a.1))
    either false o s = made
    either true none s = gone
    either true (some t) s = made

HandsOn-Keeps :
    {t : Bytes} {r : Outcome Answer} {st : Nor}
    → IsNorState st
    → HandsOn (answer t) r
    → Keeps st (attempt r st)
HandsOn-Keeps w made = Keeps-pure _ _ w
HandsOn-Keeps w gone = broken

HandsOn-Fails :
    {t : Bytes} {e : Error} {r : Outcome Answer} {st : Nor}
    → HandsOn (fail t e) r
    → Fails st (attempt r st)
HandsOn-Fails made = fails
HandsOn-Fails gone = breaks

element_entry-Keeps :
    (pair : Bytes → Value → Sql Answer) (f : Bytes) (v : Value)
    → KeepsPairs (suc (suc (size v))) pair
    → (st : Nor) → IsNorState st
    → Keeps st (element_entry pair f v st)
unfolding element_entry size
element_entry-Keeps pair f v keep st w =
    Keeps-if (contains_text (codes "$") f) _ _
      (Keeps-bind _ (keep _ _ st (omega arith) w) (λ t. Keeps-pure st _ w) λ t e after. fails)
      (Keeps-bind _ (keep _ v st (omega arith) w)
        (λ t. HandsOn-Keeps w (field_entry-HandsOn v (answer t)))
        λ t e after. HandsOn-Fails (field_entry-HandsOn v (fail t e)))

element_loop-Keeps :
    (pair : Bytes → Value → Sql Answer) (over : Bytes) (first : Bool) (m : Fields)
    → KeepsPairs (suc (fields_size m)) pair
    → (kv : Bytes) (st : Nor) → IsNorState st
    → Keeps st (element_loop pair over first m kv st)
unfolding element_loop size
element_loop-Keeps pair over first end keep kv st w = Keeps-pure st _ w
element_loop-Keeps pair over first (field f v m) keep kv st w =
    Keeps-tried _ (make_document-Calm f v)
      (λ d.
        Keeps-bind _ (element_entry-Keeps pair f v (λ k x s le. keep k x s (omega arith)) st w)
          (λ t. element_loop-Keeps pair over false m (λ k x s le. keep k x s (omega arith)) _ st w)
          λ t e after. fails)
      λ e. Keeps-pure st _ w

all_loop-Keeps :
    (P : Printing) (over : Bytes) (first : Bool) (xs : Items) (kv : Bytes) (st : Nor)
    → IsNorState st
    → Keeps st (all_loop P over first xs kv st)
unfolding all_loop
all_loop-Keeps P over first nil kv st w = Keeps-pure st _ w
all_loop-Keeps P over first (cons v xs) kv st w =
    Keeps-tried _ (where_value-Calm P v) (λ r. all_loop-Keeps P over false xs _ st w)
      λ e. Keeps-pure st _ w

pub filter_array_by-Keeps :
    (P : Printing) (pair : Bytes → Value → Sql Answer) (over operator : Bytes) (v : Value)
    → KeepsPairs (size v) pair
    → (st : Nor) → IsNorState st
    → Keeps st (filter_array_by P pair over operator v st)
unfolding filter_array_by size
filter_array_by-Keeps P pair over operator (document m keys) keep st w =
    Keeps-if (bytes_eq operator (codes "all")) _ _ (Keeps-pure st _ w)
      (element_loop-Keeps pair over true m keep [] st w)
filter_array_by-Keeps P pair over operator (array xs) keep st w =
    Keeps-if (bytes_eq operator (codes "elemMatch")) _ _ (Keeps-pure st _ w)
      (all_loop-Keeps P over true xs [] st w)
filter_array_by-Keeps P pair over operator _ keep st w = Keeps-pure st _ w
