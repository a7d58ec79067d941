-- ===== src/Tests/Inserts.antt =====
-- An insertion over a database that only counts its rows.
use sap_hana_compatibility_l.GoStd.{valid_string}
use sap_hana_compatibility_l.GoStd.Strings.{to_lower}
use sap_hana_compatibility_l.GoStd.Format.{Printing}
use sap_hana_compatibility_l.Prelude.{
  ℕ, suc, ◌+◌, ◌%◌, ◌^◌, false, [], ◌∷◌, some, inl, ◌≡◌, refl, arith, Bytes, codes, bytes_eq, ok,
}
use sap_hana_compatibility_l.Types.Value.{
  Value, Items, document, array, string, int32, nil, cons, end, field, Document,
}
use sap_hana_compatibility_l.Types.Fields.{lookup, insert}
use sap_hana_compatibility_l.Types.Arrays.{len}
use sap_hana_compatibility_l.Types.Document.{must_convert_document}
use sap_hana_compatibility_l.Handlers.Where.{create_where_clause}
use sap_hana_compatibility_l.Handlers.Where.State.{no_nor}
use sap_hana_compatibility_l.Handlers.Update.{has_any}
use sap_hana_compatibility_l.Handlers.Store.{Run, one_double}
use sap_hana_compatibility_l.Handlers.MsgInsert.{Inserts, msg_insert}
use sap_hana_compatibility_l.Handlers.Inserted.{msg_insert-rows}

abbrev plain : Printing
plain = record { fixed = λ n. codes "0.0"; irregular = λ f args. f }

-- It holds no id, and takes every row.
abbrev counter : Inserts ℕ
counter = record {
  finds = λ sql s. ok false;
  add = λ sql row s. ok (suc s);
  marshal_document = λ d. ok (codes "{}");
  marshal_value = λ v. ok (codes "1");
}

counter-adds : (sql row : Bytes) (s t : ℕ) → counter.add sql row s ≡ ok t → t ≡ s + 1
counter-adds sql row s t e = let added : suc s ≡ t = cc in omega arith

abbrev with_id : ℕ → Value
with_id n = document (field (codes "_id") (int32 n) end) (codes "_id" ∷ [])

abbrev two_documents : Items
two_documents = cons (with_id 1) (cons (with_id 2) nil)

abbrev insertion : Document
insertion = record {
  m = field (codes "insert") (string (codes "c")) (
      field (codes "$db") (string (codes "d"))
        (field (codes "documents") (array two_documents) end));
  keys = codes "insert" ∷ codes "$db" ∷ codes "documents" ∷ [];
}

abbrev run_with : ℕ → Run ℕ
run_with n = record { nor = no_nor; store = n }

abbrev inserted_two : Document
inserted_two = record {
  m = field (codes "n") (int32 2) (field (codes "ok") one_double end);
  keys = codes "n" ∷ codes "ok" ∷ [];
}

insertion-runs :
    msg_insert counter 30 plain insertion (run_with 3) ≡ ok (inl inserted_two, run_with 5)
unfolding msg_insert lookup bytes_eq to_lower valid_string insert create_where_clause
    must_convert_document has_any
insertion-runs = refl

msg_insert-rows_example :
    (docs : Items) × (lookup (codes "documents") insertion.m ≡ some (array docs))
    × (5 ≡ 3 + len docs)
    × (lookup (codes "n") inserted_two.m ≡ some (int32 (len docs % 2 ^ 32)))
msg_insert-rows_example =
    msg_insert-rows counter (λ s. s) counter-adds 30 plain insertion inserted_two (run_with 3)
      (run_with 5) insertion-runs
