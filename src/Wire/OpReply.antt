-- ===== src/Wire/OpReply.antt =====
-- internal/wire/op_reply.go: OP_REPLY.
use sap_hana_compatibility_l.Prelude.{
  ℕ, zero, suc, ◌%◌, ◌^◌, List, [], ◌∷◌, ◌++◌, not, ◌||◌, ltb, ◌==◌, Bytes, length, Outcome, ok,
  ◌>>=◌, ◌>>◌, guard, invalid_number_returned,
}
use sap_hana_compatibility_l.GoStd.{le_bytes, read_le, is_negative32}
use sap_hana_compatibility_l.Types.Value.{Document}
use sap_hana_compatibility_l.Types.Document.{must_convert_document}
use sap_hana_compatibility_l.Bson.Read.{document_read_from}
use sap_hana_compatibility_l.Wire.OpMsg.{at_end}
use sap_hana_compatibility_l.Wire.OpQuery.{must_write}

abbrev pub max_number_returned : ℕ
max_number_returned = 1000

pub record OpReply : Type 0 where
  pub response_flags : ℕ
  pub cursor_id : ℕ
  pub starting_from : ℕ
  pub number_returned : ℕ
  pub documents : List Document

-- The loop over the documents, `n` of them.
unfoldable pub read_reply_documents : ℕ → Bytes → Outcome (List Document × Bytes)
read_reply_documents zero bs = ok ([], bs)
read_reply_documents (suc n) bs = do
  (doc, r) ← document_read_from bs
  d ← must_convert_document doc
  (ds, rest) ← read_reply_documents n r
  ok (d ∷ ds, rest)

-- `OpReply.readFrom`
unfoldable pub reply_read_from : Bytes → Outcome (OpReply × Bytes)
reply_read_from bs = do
  (flags, r1) ← read_le 4 bs
  (cursor, r2) ← read_le 8 r1
  (from, r3) ← read_le 4 r2
  (n, r4) ← read_le 4 r3
  guard (not (is_negative32 n || ltb max_number_returned n)) invalid_number_returned
  (docs, rest) ← read_reply_documents n r4
  ok (
    record {
      response_flags = flags;
      cursor_id = cursor;
      starting_from = from;
      number_returned = n;
      documents = docs;
    },
    rest,
  )

-- `OpReply.UnmarshalBinary`
unfoldable pub reply_unmarshal_binary : Bytes → Outcome OpReply
unfolding at_end
reply_unmarshal_binary b = reply_read_from b >>= at_end

unfoldable pub write_reply_documents : List Document → Outcome Bytes
write_reply_documents [] = ok []
write_reply_documents (d ∷ ds) = do
  b ← must_write d
  more ← write_reply_documents ds
  ok (b ++ more)

-- `OpReply.MarshalBinary`
unfoldable pub reply_marshal_binary : OpReply → Outcome Bytes
reply_marshal_binary r = do
  guard (length r.documents % 2 ^ 32 == r.number_returned) invalid_number_returned
  docs ← write_reply_documents r.documents
  ok (
      le_bytes 4 r.response_flags
      ++ (le_bytes 8 r.cursor_id
          ++ (le_bytes 4 r.starting_from ++ (le_bytes 4 r.number_returned ++ docs))))
