-- ===== src/Tests/Documents.antt =====
-- The theorems on documents, arrays and paths, at small values.
use sap_hana_compatibility_l.Types.Compare.{to_int64}
use sap_hana_compatibility_l.Types.Value.{double}
use sap_hana_compatibility_l.Types.Compare.{
  less, greater, filter_compare_invert, compare_scalars, float_of_int64,
}
use sap_hana_compatibility_l.Types.Compare.Invert.{compare_scalars-invert}
use sap_hana_compatibility_l.Types.Fields.{insert}
use sap_hana_compatibility_l.Prelude.{
  ◌^◌, List, [], ◌∷◌, ◌++◌, ◌≡◌, ◌↔◌, ◌<◌, ◌-◌, ◌+◌, suc, ◌==◌, ltb, refl, arith, codes, bytes_eq,
  Bytes, ok, none, some, if◌then◌else◌, ℕ,
}
use sap_hana_compatibility_l.GoStd.{pos, valid_string, atoi}
use sap_hana_compatibility_l.Types.Value.{
  Value, Items, string, int32, int64, cons, nil, Document, to_value,
}
use sap_hana_compatibility_l.Types.Fields.{lookup, contains, keys_of, distinct}
use sap_hana_compatibility_l.Types.Validate.{validate, validate_value, is_valid_key}
use sap_hana_compatibility_l.Types.Document.{set, remove, make_document, add_pairs, is_even, get}
use sap_hana_compatibility_l.Types.Document.Valid.{IsValid, validate-IsValid}
use sap_hana_compatibility_l.Types.Document.Shape.{WellFormed}
use sap_hana_compatibility_l.Types.Document.Keys.{without}
use sap_hana_compatibility_l.Types.Document.Set.{set_lem}
use sap_hana_compatibility_l.Types.Document.Remove.{remove_lem}
use sap_hana_compatibility_l.Types.Document.Make.{make_document-add_pairs}
use sap_hana_compatibility_l.Types.Arrays
use sap_hana_compatibility_l.Types.Arrays.Laws.{get-set, get-subslice, get-delete_at}
use sap_hana_compatibility_l.Types.Path.{get_by_path, Leads, get_by_path-iff_Leads}
use sap_hana_compatibility_l.Tests.Data.{ping, nested, nested-IsValid}

nested-WellFormed : WellFormed nested
unfolding distinct bytes_eq keys_of
nested-WellFormed = record { is_valid = nested-IsValid; is_map = refl }

validate-IsValid_example : (validate nested ≡ ok tt) ↔ IsValid nested
validate-IsValid_example = validate-IsValid nested

set_lem_example :
    (e : Document) × (set (codes "d") (int32 5) nested ≡ ok e)
    × WellFormed e
    × ((j : Bytes)
        → lookup j e.m ≡ (if bytes_eq (codes "d") j then some (int32 5) else lookup j nested.m))
    × (e.keys
        ≡ (if contains (codes "d") nested.keys then nested.keys else nested.keys ++ codes "d" ∷ []))
unfolding is_valid_key validate_value valid_string
set_lem_example = set_lem (codes "d") (int32 5) nested nested-WellFormed refl refl

remove_lem_example :
    (e : Document) × (remove (codes "b") nested ≡ ok e)
    × WellFormed e
    × ((j : Bytes) → lookup j e.m ≡ (if bytes_eq (codes "b") j then none else lookup j nested.m))
    × (e.keys ≡ without (codes "b") nested.keys)
remove_lem_example = remove_lem (codes "b") nested nested-WellFormed

abbrev pairs : List Value
pairs = string (codes "ping") ∷ int32 1 ∷ string (codes "$db") ∷ string (codes "t") ∷ []

make_document-add_pairs_example : make_document pairs ≡ ok ping
unfolding add_pairs is_even valid_string bytes_eq lookup is_valid_key validate_value insert
make_document-add_pairs_example = make_document-add_pairs pairs ping refl refl

abbrev three : Items
three = cons (int32 1) (cons (string (codes "x")) (cons (int64 3) nil))

get-set_example :
    (ys : Items) × (Arrays.set (pos 1) (int32 9) three ≡ ok ys)
    × (Arrays.len ys ≡ Arrays.len three)
    × ((j : ℕ)
        → Arrays.get (pos j) ys ≡ (if 1 == j then ok (int32 9) else Arrays.get (pos j) three))
unfolding Arrays.len validate_value
get-set_example = get-set 1 (int32 9) three (omega arith) refl

get-subslice_example :
    (ys : Items) × (Arrays.subslice (pos 1) (pos 3) three ≡ ok ys)
    × (Arrays.len ys ≡ 3 - 1)
    × ((j : ℕ) → j < 3 - 1 → Arrays.get (pos j) ys ≡ Arrays.get (pos (1 + j)) three)
unfolding Arrays.len
get-subslice_example = get-subslice 1 3 three (omega arith) (omega arith)

get-delete_at_example :
    (ys : Items) × (Arrays.delete_at (pos 1) three ≡ ok ys)
    × (suc (Arrays.len ys) ≡ Arrays.len three)
    × ((j : ℕ) → Arrays.get (pos j) ys ≡ Arrays.get (pos (if ltb j 1 then j else j + 1)) three)
unfolding Arrays.len
get-delete_at_example = get-delete_at 1 three (omega arith)

get_by_path-iff_Leads_example :
    (get_by_path (to_value nested) (codes "b" ∷ codes "0" ∷ []) ≡ ok (int64 7))
    ↔ Leads (to_value nested) (codes "b" ∷ codes "0" ∷ []) (int64 7)
get_by_path-iff_Leads_example =
    get_by_path-iff_Leads (to_value nested) (int64 7) (codes "b" ∷ codes "0" ∷ [])

get_by_path_test : get_by_path (to_value nested) (codes "b" ∷ codes "0" ∷ []) ≡ ok (int64 7)
unfolding get_by_path bytes_eq atoi get lookup Arrays.get Arrays.len Arrays.item_at
    Arrays.index_below
get_by_path_test = refl

-- 5 is written 5.0, and 2 ^ 53 + 1 and - 1 are rounded to the even neighbour and kept.
float_of_int64_test :
    (float_of_int64 5 ≡ 0x4014000000000000)
    × (float_of_int64 (2 ^ 53 + 1) ≡ 0x4340000000000000)
    × (float_of_int64 (2 ^ 64 - 1) ≡ 0xbff0000000000000)
unfolding float_of_int64
float_of_int64_test = (refl, refl, refl)

-- 7.5 against 8, as a float64 and an int32.
abbrev seven_and_a_half : Value
seven_and_a_half = double 0x401e000000000000

compared : compare_scalars seven_and_a_half (int32 8) ≡ ok less
unfolding compare_scalars to_int64
compared = refl

compared_back : compare_scalars (int32 8) seven_and_a_half ≡ ok greater
unfolding compare_scalars to_int64
compared_back = refl

compare_scalars-invert_example : greater ≡ filter_compare_invert less
compare_scalars-invert_example =
    compare_scalars-invert seven_and_a_half (int32 8) less greater compared compared_back
