-- ===== src/Tests/Finds.antt =====
-- The statements of finds, and projections.
use sap_hana_compatibility_l.GoStd.{itoa}
use sap_hana_compatibility_l.GoStd.Strings.{has_prefix, contains_text}
use sap_hana_compatibility_l.Types.Compare.{to_int64}
use sap_hana_compatibility_l.Types.Fields.{count}
use sap_hana_compatibility_l.Types.Fields.{lookup}
use sap_hana_compatibility_l.Prelude.{
  true, ◌^◌, ◌-◌, arith, false, not, [], ◌∷◌, inl, ◌≡◌, refl, All, codes, Bytes, bytes_eq, ok,
}
use sap_hana_compatibility_l.GoStd.Format.{Printing}
use sap_hana_compatibility_l.Types.Value.{
  Value, Fields, document, string, int32, end, field, Document,
}
use sap_hana_compatibility_l.Handlers.Where.State.{no_nor}
use sap_hana_compatibility_l.Handlers.Projection.{projection}
use sap_hana_compatibility_l.Handlers.Projection.Uniform.{Says, projection-Says}
use sap_hana_compatibility_l.Handlers.Find.{Location, create_sql_stmt}
use sap_hana_compatibility_l.Handlers.Find.Select.{found_in, create_sql_stmt-plain}

abbrev names_only : Document
names_only = record {
  m = field (codes "name") (int32 1) (field (codes "_id") (int32 0) end);
  keys = codes "name" ∷ codes "_id" ∷ [];
}

names_only-projection : projection names_only ≡ ok (codes "{\"name\": \"name\"}", false)
unfolding projection lookup bytes_eq count to_int64
names_only-projection = refl

projection-Says_example : All (Says names_only.m (not false)) names_only.keys
unfolding count
projection-Says_example =
    projection-Says names_only (codes "{\"name\": \"name\"}") false refl names_only-projection

abbrev plain_text : Printing
plain_text = record { fixed = λ n. codes "0.0"; irregular = λ f args. f }

abbrev of_five : Value
of_five = document (field (codes "a") (int32 5) end) (codes "a" ∷ [])

abbrev find_five : Fields
find_five = field (codes "find") (string (codes "c")) (
    field (codes "filter") of_five (
      field (codes "sort") (document (field (codes "b") (int32 1) end) (codes "b" ∷ []))
        (field (codes "limit") (int32 3) end)))

abbrev found_five : Bytes × Location
found_five = (
  codes "SELECT * FROM d.c WHERE \"a\" = 5 ORDER BY \"b\"  ASC LIMIT 3 ",
  record {
    exclusion = false;
    filter = record { m = field (codes "a") (int32 5) end; keys = codes "a" ∷ [] };
    db = codes "d";
    collection = codes "c";
  },
)

find_five-stmt :
    create_sql_stmt 30 plain_text find_five (codes "d") no_nor ≡ ok (inl found_five, no_nor)
unfolding create_sql_stmt lookup bytes_eq count to_int64 itoa
find_five-stmt = refl

abbrev by_town : Fields
by_town = field (codes "town") (string (codes "Rome")) end

abbrev down_and_up : Fields
down_and_up = field (codes "a") (int32 (2 ^ 32 - 1)) (field (codes "b") (int32 1) end)

abbrev find_sorted : Fields
find_sorted = field (codes "find") (string (codes "c")) (
    field (codes "filter") (document by_town (codes "town" ∷ [])) (
      field (codes "sort") (document down_and_up (codes "a" ∷ codes "b" ∷ []))
        (field (codes "limit") (int32 3) end)))

abbrev sorted_sql : Bytes
sorted_sql =
    codes "SELECT * FROM d.c WHERE \"town\" = 'Rome' ORDER BY \"a\"  DESC,\"b\"  ASC LIMIT 3 "

create_sql_stmt-plain_example :
    create_sql_stmt 30 plain_text find_sorted (codes "d") no_nor
    ≡ ok (inl (sorted_sql, found_in (codes "d") (codes "c") by_town (codes "town" ∷ [])), no_nor)
unfolding lookup bytes_eq itoa has_prefix contains_text
create_sql_stmt-plain_example =
    create_sql_stmt-plain 29 plain_text find_sorted by_town down_and_up (codes "d") (codes "c")
      ((codes "town", codes "Rome") ∷ []) (codes "a", false) ((codes "b", true) ∷ []) 3 no_nor refl
      refl refl (record { no_operator = refl; no_path = refl; found = refl }, tt) refl
      ((refl, refl), ((refl, refl), tt)) refl (omega arith)
