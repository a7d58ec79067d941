-- ===== src/Tests/Filters.antt =====
-- Filters and their clauses.
use sap_hana_compatibility_l.GoStd.Strings.{contains_text}
use sap_hana_compatibility_l.GoStd.Strings.{has_prefix}
use sap_hana_compatibility_l.Handlers.Clauses.Sizes.{size}
use sap_hana_compatibility_l.Types.Arrays.{len}
use sap_hana_compatibility_l.Types.Compare.{to_int64}
use sap_hana_compatibility_l.GoStd.{atoi}
use sap_hana_compatibility_l.GoStd.Format.{sprintf}
use sap_hana_compatibility_l.GoStd.{itoa}
use sap_hana_compatibility_l.GoStd.Strings.{to_lower}
use sap_hana_compatibility_l.GoStd.{atoi}
use sap_hana_compatibility_l.GoStd.Strings.{split_dots}
use sap_hana_compatibility_l.Prelude.{bytes_eq}
use sap_hana_compatibility_l.Types.Fields.{lookup}
use sap_hana_compatibility_l.Prelude.{
  true, false, List, [], ◌∷◌, none, some, ◌≡◌, refl, arith, All, ◌<◌, codes, Bytes, ok, panicked,
  not_implemented,
}
use sap_hana_compatibility_l.GoStd.Format.{Printing}
use sap_hana_compatibility_l.Types.Value.{
  Value, Fields, document, array, string, int32, regex, nil, cons, end, field, Document,
}
use sap_hana_compatibility_l.Handlers.Like.{like_pattern}
use sap_hana_compatibility_l.Handlers.SqlKey.{where_key, get_update_key}
use sap_hana_compatibility_l.Handlers.Where.{create_where_clause, logic_expression}
use sap_hana_compatibility_l.Handlers.Where.State.{no_nor, answer}
use sap_hana_compatibility_l.Handlers.Clauses.{create_where_clause-Keeps, logic_expression-leaks}
use sap_hana_compatibility_l.Handlers.Clauses.NorState.{Keeps}
use sap_hana_compatibility_l.Handlers.Equalities.{
  IsEquality, keys_of_pairs, create_where_clause-equalities,
}
use sap_hana_compatibility_l.Handlers.SqlKey.Paths.{Step, IsStep, where_key-path}
use sap_hana_compatibility_l.Handlers.Like.Matching.{IsPlain, like_pattern-IsPlain}

abbrev plain_printing : Printing
plain_printing = record { fixed = λ n. codes "0.0"; irregular = λ f args. f }

abbrev single : Bytes → Value → Value
single k v = document (field k v end) (k ∷ [])

abbrev ages : Document
ages = record {
  m = field (codes "a.1") (int32 5) (field (codes "b") (single (codes "$gt") (int32 2)) end);
  keys = codes "a.1" ∷ codes "b" ∷ [];
}

ages-clause :
    create_where_clause 6 plain_printing ages no_nor
    ≡ ok ((codes " WHERE \"a\"[2] = 5 AND \"b\" > 2", none), no_nor)
unfolding create_where_clause lookup bytes_eq split_dots atoi to_lower itoa sprintf to_int64
ages-clause = refl

abbrev neither : Document
neither = record {
  m = field (codes "$nor") (array (cons (single (codes "a") (int32 5)) nil)) end;
  keys = codes "$nor" ∷ [];
}

neither-clause :
    create_where_clause 6 plain_printing neither no_nor
    ≡ ok ((codes " WHERE ( NOT ((\"a\" = 5 AND \"a\" IS SET)))", none), no_nor)
unfolding create_where_clause bytes_eq to_lower lookup len sprintf to_int64 itoa
neither-clause = refl

abbrev bad_neither : Document
bad_neither = record {
  m = field (codes "$nor") (array (cons (single (codes "$foo") (int32 5)) nil)) end;
  keys = codes "$nor" ∷ [];
}

bad_neither-clause :
    create_where_clause 6 plain_printing bad_neither no_nor
    ≡ ok ((codes " WHERE ", some not_implemented), record { is_nor = true; nor_counter = 1 })
unfolding create_where_clause bytes_eq to_lower lookup len
bad_neither-clause = refl

abbrev hollow : Document
hollow = record { m = field (codes "a") (document end []) end; keys = codes "a" ∷ [] }

hollow-clause : create_where_clause 6 plain_printing hollow no_nor ≡ panicked
unfolding create_where_clause lookup bytes_eq
hollow-clause = refl

create_where_clause-Keeps_example : Keeps no_nor (create_where_clause 40 plain_printing ages no_nor)
unfolding size
create_where_clause-Keeps_example =
    create_where_clause-Keeps 40 plain_printing ages no_nor (omega arith) refl

abbrev bad_list : Value
bad_list = array (cons (single (codes "$foo") (int32 5)) nil)

bad_list-leaks :
    logic_expression 40 plain_printing (codes "$nor") bad_list no_nor
    ≡ ok ((codes "( NOT (", some not_implemented), record { is_nor = true; nor_counter = 1 })
unfolding logic_expression bytes_eq to_lower len lookup
bad_list-leaks = refl

logic_expression-leaks_example : (0 < 1) × (true ≡ true)
unfolding size to_lower
logic_expression-leaks_example =
    logic_expression-leaks 40 plain_printing (codes "$nor") bad_list no_nor
      (record { is_nor = true; nor_counter = 1 }) (codes "( NOT (") not_implemented (omega arith)
      refl refl bad_list-leaks

abbrev name_and_town : List (Bytes × Bytes)
name_and_town = (codes "name", codes "Ada") ∷ (codes "town", codes "it's") ∷ []

abbrev named : Fields
named =
    field (codes "name") (string (codes "Ada")) (field (codes "town") (string (codes "it's")) end)

named-IsEquality : All (IsEquality named) name_and_town
unfolding has_prefix contains_text lookup bytes_eq
named-IsEquality = (
  record { no_operator = refl; no_path = refl; found = refl },
  (record { no_operator = refl; no_path = refl; found = refl }, tt),
)

create_where_clause-equalities_example :
    create_where_clause 1 plain_printing
      (record { m = named; keys = keys_of_pairs name_and_town })
      no_nor
    ≡ ok (answer (codes " WHERE \"name\" = 'Ada' AND \"town\" = 'it's'"), no_nor)
create_where_clause-equalities_example =
    create_where_clause-equalities 0 plain_printing named name_and_town no_nor named-IsEquality

abbrev first_city : List Step
first_city = (codes "city", none) ∷ []

first_city-IsStep : All IsStep ((codes "homes", some (codes "0", 0)) ∷ first_city)
unfolding atoi
first_city-IsStep = (
  (refl, (refl, (refl, (refl, (refl, (refl, tt))))), (refl, (refl, tt), omega arith)),
  ((refl, (refl, (refl, (refl, (refl, tt))))), tt),
)

where_key-path_example :
    (where_key (codes "homes.0.city") ≡ ok (codes "\"homes\"[1].\"city\""))
    × (get_update_key (codes "homes.0.city") ≡ ok (codes "\"homes\"[1].\"city\""))
unfolding itoa
where_key-path_example =
    where_key-path (codes "homes", some (codes "0", 0)) first_city first_city-IsStep

letter-IsPlain : All IsPlain (codes "ab")
letter-IsPlain = (
  record {
    ascii = refl;
    no_dot = refl;
    no_star = refl;
    no_dollar = refl;
    no_percent = refl;
    no_underscore = refl;
    no_caret = refl;
    no_parenthesis = refl;
  },
  (
    record {
      ascii = refl;
      no_dot = refl;
      no_star = refl;
      no_dollar = refl;
      no_percent = refl;
      no_underscore = refl;
      no_caret = refl;
      no_parenthesis = refl;
    },
    tt,
  ),
)

like_pattern-IsPlain_example : like_pattern (regex (codes "^ab") []) ≡ ok (codes "'ab%'")
like_pattern-IsPlain_example =
    like_pattern-IsPlain true (codes "ab") false letter-IsPlain (omega arith)
