-- ===== src/Wire/OpQuery.antt =====
-- internal/wire/op_query.go: OP_QUERY.
use sap_hana_compatibility_l.Prelude.{
  ℕ, [], ◌∷◌, ◌++◌, Option, none, some, Bytes, Outcome, ok, ◌>>=◌,
}
use sap_hana_compatibility_l.GoStd.{le_bytes, read_le}
use sap_hana_compatibility_l.Types.Value.{Document}
use sap_hana_compatibility_l.Types.Document.{must_convert_document}
use sap_hana_compatibility_l.Bson.Scalar.{cstring_read_from, cstring_marshal_binary}
use sap_hana_compatibility_l.Bson.Marshal.{document_marshal_binary}
use sap_hana_compatibility_l.Bson.Read.{document_read_from}
use sap_hana_compatibility_l.Wire.OpMsg.{at_end}

pub record OpQuery : Type 0 where
  pub flags : ℕ
  pub full_collection_name : Bytes
  pub number_to_skip : ℕ
  pub number_to_return : ℕ
  pub query : Document
  pub return_fields_selector : Option Document

-- The selector, if a peek finds a byte.
unfoldable pub read_selector : Bytes → Outcome (Option Document × Bytes)
read_selector [] = ok (none, [])
read_selector (b ∷ bs) = do
  (r, rest) ← document_read_from (b ∷ bs)
  tr ← must_convert_document r
  ok (some tr, rest)

-- `OpQuery.readFrom`
unfoldable pub query_read_from : Bytes → Outcome (OpQuery × Bytes)
query_read_from bs = do
  (flags, r1) ← read_le 4 bs
  (col, r2) ← cstring_read_from r1
  (skip, r3) ← read_le 4 r2
  (count, r4) ← read_le 4 r3
  (q, r5) ← document_read_from r4
  query ← must_convert_document q
  (selector, rest) ← read_selector r5
  ok (
    record {
      flags = flags;
      full_collection_name = col;
      number_to_skip = skip;
      number_to_return = count;
      query = query;
      return_fields_selector = selector;
    },
    rest,
  )

-- `OpQuery.UnmarshalBinary`
unfoldable pub query_unmarshal_binary : Bytes → Outcome OpQuery
unfolding at_end
query_unmarshal_binary b = query_read_from b >>= at_end

-- `bson.MustConvertDocument(d).WriteTo(w)`
unfoldable pub must_write : Document → Outcome Bytes
must_write doc = must_convert_document doc >>= document_marshal_binary

unfoldable pub write_selector : Option Document → Outcome Bytes
write_selector none = ok []
write_selector (some d) = must_write d

-- `OpQuery.MarshalBinary`
unfoldable pub query_marshal_binary : OpQuery → Outcome Bytes
query_marshal_binary q = do
  query ← must_write q.query
  selector ← write_selector q.return_fields_selector
  ok (
      le_bytes 4 q.flags
      ++ (cstring_marshal_binary q.full_collection_name
          ++ (le_bytes 4 q.number_to_skip
              ++ (le_bytes 4 q.number_to_return ++ (query ++ selector)))))
