-- ===== src/Wire/QueryRoundTrip.antt =====
-- internal/wire/op_query.go: what MarshalBinary writes, UnmarshalBinary reads back.
use sap_hana_compatibility_l.Prelude.{
  ◌^◌, ◌<◌, [], ◌∷◌, ◌++◌, append-nil, Option, none, some, ◌≡◌, refl, arith, Bytes, length, ok,
  ◌>>=◌,
}
use sap_hana_compatibility_l.GoStd.{le_bytes}
use sap_hana_compatibility_l.GoStd.Laws.{NoZero, read_le-le_bytes}
use sap_hana_compatibility_l.Types.Value.{Document}
use sap_hana_compatibility_l.Bson.Scalar.{cstring_marshal_binary}
use sap_hana_compatibility_l.Bson.ScalarLaws.{cstring_read_from-marshal}
use sap_hana_compatibility_l.Bson.Read.{document_read_from}
use sap_hana_compatibility_l.Types.Document.{must_convert_document}
use sap_hana_compatibility_l.Wire.OpQuery.{
  OpQuery, read_selector, query_read_from, query_unmarshal_binary, write_selector,
  query_marshal_binary,
}
use sap_hana_compatibility_l.Wire.Sendable.{
  Sendable, Sendable-must_convert, Sendable-must_write, Sendable-read, Sendable_pos,
}

abbrev SendableSelector : Option Document → Type 0
SendableSelector none = Unit
SendableSelector (some d) = Sendable d

-- A query whose fields fit their widths and whose documents can be sent.
pub record SendableQuery (q : OpQuery) : Type 0 where
  pub flags_fit : q.flags < 2 ^ 32
  pub name_fits : NoZero q.full_collection_name
  pub skip_fits : q.number_to_skip < 2 ^ 32
  pub return_fits : q.number_to_return < 2 ^ 32
  pub query_fits : Sendable q.query
  pub selector_fits : SendableSelector q.return_fields_selector

read_selector-cons :
    (bs : Bytes)
    → 0 < length bs
    → read_selector bs ≡ (
        document_read_from bs
        >>= (λ (r, rest). must_convert_document r >>= (λ tr. ok (some tr, rest))))
unfolding read_selector
read_selector-cons [] h = absurd (omega arith)
read_selector-cons (b ∷ bs) h = refl

selector_round_trip :
    (o : Option Document)
    → SendableSelector o
    → (b : Bytes) × (write_selector o ≡ ok b) × (read_selector b ≡ ok (o, []))
unfolding write_selector
selector_round_trip none h = ([], refl, unfold read_selector in refl)
selector_round_trip (some d) h =
    let pos = Sendable_pos d h in
    let whole : document_read_from h.bytes ≡ ok (d, []) = rw append-nil at (Sendable-read d h []) in
    (
      h.bytes,
      Sendable-must_write d h,
      rw (read_selector-cons h.bytes (omega arith), whole, Sendable-must_convert d h),
    )

-- A query that can be sent is marshalled, and `UnmarshalBinary` gives the same query back.
pub query_unmarshal-marshal :
    (q : OpQuery)
    → SendableQuery q
    → (b : Bytes) × (query_marshal_binary q ≡ ok b) × (query_unmarshal_binary b ≡ ok q)
unfolding query_marshal_binary query_unmarshal_binary query_read_from
query_unmarshal-marshal q h =
    let (sel, sel_ok, sel_read) = selector_round_trip q.return_fields_selector h.selector_fits in
    let body : Bytes = h.query_fits.bytes ++ sel in
    let two : Bytes = le_bytes 4 q.number_to_return ++ body in
    let three : Bytes = le_bytes 4 q.number_to_skip ++ two in
    let four : Bytes = cstring_marshal_binary q.full_collection_name ++ three in
    (
      le_bytes 4 q.flags ++ four,
      rw (Sendable-must_write q.query h.query_fits, sel_ok),
      rw (
        read_le-le_bytes 4 q.flags four h.flags_fit,
        cstring_read_from-marshal q.full_collection_name three h.name_fits,
        read_le-le_bytes 4 q.number_to_skip two h.skip_fits,
        read_le-le_bytes 4 q.number_to_return body h.return_fits,
        Sendable-read q.query h.query_fits sel,
        Sendable-must_convert q.query h.query_fits,
        sel_read,
      ),
    )
