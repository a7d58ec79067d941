-- ===== src/Tests/Commands.antt =====
-- Updates and deletions as SQL, and over a database that counts its rows.
use sap_hana_compatibility_l.Handlers.MsgUpdate.{is_multi}
use sap_hana_compatibility_l.Types.Fields.{insert}
use sap_hana_compatibility_l.GoStd.{valid_string}
use sap_hana_compatibility_l.GoStd.Strings.{to_lower}
use sap_hana_compatibility_l.GoStd.Strings.{replace_first}
use sap_hana_compatibility_l.GoStd.Format.{sprintf}
use sap_hana_compatibility_l.Handlers.Where.{create_where_clause}
use sap_hana_compatibility_l.Prelude.{bytes_eq}
use sap_hana_compatibility_l.Prelude.{
  ℕ, zero, suc, ◌+◌, ◌%◌, ◌^◌, ◌≤◌, false, [], ◌∷◌, some, inl, ◌≡◌, refl, arith, All, codes, Bytes,
  ok, Outcome,
}
use sap_hana_compatibility_l.GoStd.Format.{Printing}
use sap_hana_compatibility_l.Types.Value.{
  Value, Items, document, array, string, int32, nil, cons, end, field, Document, to_value,
}
use sap_hana_compatibility_l.Types.Fields.{lookup}
use sap_hana_compatibility_l.Types.Arrays.{len}
use sap_hana_compatibility_l.Handlers.Where.State.{no_nor}
use sap_hana_compatibility_l.Handlers.Update.{has_any, is_id, set_document, update}
use sap_hana_compatibility_l.Handlers.Updates.{update-no_id}
use sap_hana_compatibility_l.Handlers.Assignments.{update-texts}
use sap_hana_compatibility_l.Handlers.UpdateValue.{get_update_value}
use sap_hana_compatibility_l.Handlers.UpdateValue.Texts.{get_update_value-texts}
use sap_hana_compatibility_l.GoStd.Strings.{contains_text, has_prefix}
use sap_hana_compatibility_l.Handlers.Store.{Hana, Run, one_double}
use sap_hana_compatibility_l.Handlers.MsgDelete.{msg_delete}
use sap_hana_compatibility_l.Handlers.MsgUpdate.{msg_update}
use sap_hana_compatibility_l.Handlers.Deletes.{msg_delete-rows}
use sap_hana_compatibility_l.Handlers.Updated.{AllSingle, msg_update-bound}

abbrev plain : Printing
plain = record { fixed = λ n. codes "0.0"; irregular = λ f args. f }

abbrev changes : Document
changes = record {
  m =
      field (codes "$set") (document (field (codes "b") (string (codes "x")) end) (codes "b" ∷ []))
        end;
  keys = codes "$set" ∷ [];
}

abbrev changes_sql : Bytes × Bytes
changes_sql = (codes " SET \"b\" = 'x'", codes " AND ( NOT (   \"b\" = 'x') OR (\"b\" IS UNSET )) ")

changes-update : update 30 plain changes no_nor ≡ ok (inl changes_sql, no_nor)
unfolding update lookup bytes_eq create_where_clause sprintf replace_first
changes-update = refl

update-no_id_example :
    All (λ k. is_id k ≡ false) (set_document (lookup (codes "$set") changes.m)).keys
    × All (λ k. is_id k ≡ false) (set_document (lookup (codes "$unset") changes.m)).keys
update-no_id_example = update-no_id 30 plain changes changes_sql no_nor no_nor changes-update

abbrev renaming : Document
renaming = record {
  m =
      field (codes "$set") (document (field (codes "b") (string (codes "x")) end) (codes "b" ∷ []))
        (field (codes "$unset") (document (field (codes "c") (int32 1) end) (codes "c" ∷ [])) end);
  keys = codes "$set" ∷ codes "$unset" ∷ [];
}

abbrev renaming_sql : Bytes × Bytes
renaming_sql = (
  codes " SET \"b\" = 'x',  UNSET \"c\"",
  codes " AND ( NOT (   \"b\" = 'x') OR (\"b\" IS UNSET ) OR ( \"c\" IS SET ))",
)

update-texts_example : update 30 plain renaming no_nor ≡ ok (inl renaming_sql, no_nor)
unfolding lookup bytes_eq is_id contains_text has_prefix has_any
update-texts_example =
    update-texts 29 plain renaming (field (codes "b") (string (codes "x")) end)
      (codes "b", codes "x") [] (codes "c" ∷ []) no_nor refl refl
      (record { no_operator = refl; no_path = refl; found = refl }, tt) ((refl, refl), tt)
      (field (codes "c") (int32 1) end, refl, ((refl, refl), tt))

abbrev two_texts : Items
two_texts = cons (string (codes "a")) (cons (string (codes "it's")) nil)

get_update_value-texts_example :
    get_update_value plain (array two_texts) ≡ ok (codes "['a', 'it's']")
get_update_value-texts_example =
    get_update_value-texts plain (codes "a" ∷ codes "it's" ∷ [])
      ((refl, tt), ((refl, (refl, (refl, (refl, tt)))), tt))

-- A database that only counts its rows, and takes one away with each statement while there are some.
abbrev take_one : ℕ → Outcome (ℕ × ℕ)
take_one zero = ok (0, 0)
take_one (suc n) = ok (1, n)

abbrev counter : Hana ℕ
counter = record {
  first_row = λ sql s. some (codes "row");
  count_row = λ sql s. ok s;
  exec = λ sql s. take_one s;
  unmarshal = λ b. ok (document (field (codes "_id") (int32 7) end) (codes "_id" ∷ []));
}

counter-removes : (sql : Bytes) (s t n : ℕ) → counter.exec sql s ≡ ok (n, t) → s ≡ t + n
counter-removes sql zero t n e = let rest : 0 ≡ t = cc in let gone : 0 ≡ n = cc in omega arith
counter-removes sql (suc s) t n e = let rest : s ≡ t = cc in let gone : 1 ≡ n = cc in omega arith

abbrev five : Value
five = document (field (codes "a") (int32 5) end) (codes "a" ∷ [])

abbrev deletion : Document
deletion = record {
  m = field (codes "delete") (string (codes "c")) (
      field (codes "$db") (string (codes "d")) (
        field (codes "deletes")
          (array (
            cons
              (document (field (codes "q") five (field (codes "limit") (int32 1) end))
                (codes "q" ∷ codes "limit" ∷ []))
              nil))
          end));
  keys = codes "delete" ∷ codes "$db" ∷ codes "deletes" ∷ [];
}

abbrev run_with : ℕ → Run ℕ
run_with n = record { nor = no_nor; store = n }

abbrev deleted_one : Document
deleted_one = record {
  m = field (codes "n") (int32 1) (field (codes "ok") one_double end);
  keys = codes "n" ∷ codes "ok" ∷ [];
}

deletion-runs : msg_delete counter 30 plain deletion (run_with 3) ≡ ok (inl deleted_one, run_with 2)
unfolding msg_delete lookup bytes_eq to_lower valid_string insert
deletion-runs = refl

msg_delete-rows_example :
    (n : ℕ) × (lookup (codes "n") deleted_one.m ≡ some (int32 n)) × (3 % 2 ^ 32 ≡ (n + 2) % 2 ^ 32)
msg_delete-rows_example =
    msg_delete-rows counter (λ s. s) counter-removes 30 plain deletion deleted_one (run_with 3)
      (run_with 2) deletion-runs

abbrev change_list : Items
change_list =
    cons
      (document (field (codes "q") five (field (codes "u") (to_value changes) end))
        (codes "q" ∷ codes "u" ∷ []))
      nil

abbrev change : Document
change = record {
  m =
      field (codes "update") (string (codes "c")) (
        field (codes "$db") (string (codes "d")) (field (codes "updates") (array change_list) end));
  keys = codes "update" ∷ codes "$db" ∷ codes "updates" ∷ [];
}

abbrev changed_one : Document
changed_one = record {
  m =
      field (codes "n") (int32 3)
        (field (codes "nModified") (int32 1) (field (codes "ok") one_double end));
  keys = codes "n" ∷ codes "nModified" ∷ codes "ok" ∷ [];
}

change-runs : msg_update counter 30 plain change (run_with 3) ≡ ok (inl changed_one, run_with 2)
unfolding msg_update lookup bytes_eq valid_string insert
change-runs = refl

change_list-single : AllSingle change_list
unfolding is_multi lookup bytes_eq
change_list-single = (refl, tt)

msg_update-bound_example :
    (n : ℕ) × (lookup (codes "nModified") changed_one.m ≡ some (int32 n)) × (n ≤ len change_list)
unfolding lookup bytes_eq
msg_update-bound_example =
    msg_update-bound counter 30 plain change changed_one change_list (run_with 3) (run_with 2) refl
      change_list-single change-runs
