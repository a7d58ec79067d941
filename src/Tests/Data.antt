-- ===== src/Tests/Data.antt =====
-- Documents that the tests run on.
use sap_hana_compatibility_l.Types.Validate.{validate_value}
use sap_hana_compatibility_l.Bson.Scalar.{int64_marshal_binary}
use sap_hana_compatibility_l.Bson.Marshal.{array_keys}
use sap_hana_compatibility_l.Bson.Scalar.{string_marshal_binary}
use sap_hana_compatibility_l.Bson.Scalar.{int32_marshal_binary}
use sap_hana_compatibility_l.Bson.Scalar.{cstring_marshal_binary}
use sap_hana_compatibility_l.GoStd.{le_bytes}
use sap_hana_compatibility_l.Prelude.{[], ◌∷◌, ◌≡◌, refl, codes, bytes_eq, ok, Bytes}
use sap_hana_compatibility_l.GoStd.{itoa, valid_string}
use sap_hana_compatibility_l.Types.Value.{
  document, array, string, int32, int64, cons, nil, end, field, Document, timestamp,
}
use sap_hana_compatibility_l.Types.Validate.{validate}
use sap_hana_compatibility_l.Types.Document.Valid.{IsValid, validate-IsValid}
use sap_hana_compatibility_l.Bson.Marshal.{document_marshal_binary}

-- `{ping: 1, $db: "t"}`
abbrev pub ping : Document
ping = record {
  m = field (codes "ping") (int32 1) (field (codes "$db") (string (codes "t")) end);
  keys = codes "ping" ∷ codes "$db" ∷ [];
}

-- `{b: [7], a: {c: "x"}}`, with its map in another order.
abbrev pub nested : Document
nested = record {
  m =
      field (codes "a") (document (field (codes "c") (string (codes "x")) end) (codes "c" ∷ []))
        (field (codes "b") (array (cons (int64 7) nil)) end);
  keys = codes "b" ∷ codes "a" ∷ [];
}

-- `{t: Timestamp(1)}`
abbrev pub stamped : Document
stamped = record { m = field (codes "t") (timestamp 1) end; keys = codes "t" ∷ [] }

pub ping-IsValid : IsValid ping
unfolding validate valid_string bytes_eq
ping-IsValid = (validate-IsValid ping).0 refl

pub nested-IsValid : IsValid nested
unfolding validate valid_string bytes_eq
nested-IsValid = (validate-IsValid nested).0 refl

pub stamped-IsValid : IsValid stamped
unfolding validate valid_string bytes_eq
stamped-IsValid = (validate-IsValid stamped).0 refl

abbrev pub ping_bytes : Bytes
ping_bytes =
    26 ∷ 0 ∷ 0 ∷ 0 ∷ 16 ∷ 112 ∷ 105 ∷ 110 ∷ 103 ∷ 0 ∷ 1 ∷ 0 ∷ 0 ∷ 0 ∷ 2 ∷ 36 ∷ 100 ∷ 98 ∷ 0 ∷ 2 ∷ 0
    ∷ 0 ∷ 0 ∷ 116 ∷ 0 ∷ 0 ∷ []

pub ping-marshal : document_marshal_binary ping ≡ ok ping_bytes
unfolding document_marshal_binary valid_string bytes_eq le_bytes cstring_marshal_binary
    int32_marshal_binary string_marshal_binary
ping-marshal = refl

abbrev pub nested_bytes : Bytes
nested_bytes =
    41 ∷ 0 ∷ 0 ∷ 0 ∷ 4 ∷ 98 ∷ 0 ∷ 16 ∷ 0 ∷ 0 ∷ 0 ∷ 18 ∷ 48 ∷ 0 ∷ 7 ∷ 0 ∷ 0 ∷ 0 ∷ 0 ∷ 0 ∷ 0 ∷ 0 ∷ 0
    ∷ 3 ∷ 97 ∷ 0 ∷ 14 ∷ 0 ∷ 0 ∷ 0 ∷ 2 ∷ 99 ∷ 0 ∷ 2 ∷ 0 ∷ 0 ∷ 0 ∷ 120 ∷ 0 ∷ 0 ∷ 0 ∷ []

pub nested-marshal : document_marshal_binary nested ≡ ok nested_bytes
unfolding document_marshal_binary valid_string bytes_eq itoa array_keys le_bytes
    cstring_marshal_binary int64_marshal_binary validate_value string_marshal_binary
nested-marshal = refl
