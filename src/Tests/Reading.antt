-- ===== src/Tests/Reading.antt =====
-- What is made of the bytes of messages: the theorems on reading, and on a lost document.
use sap_hana_compatibility_l.Wire.OpQuery.{read_selector}
use sap_hana_compatibility_l.Bson.Scalar.{cstring_read_from}
use sap_hana_compatibility_l.Wire.OpQuery.{query_read_from}
use sap_hana_compatibility_l.GoStd.{read_byte}
use sap_hana_compatibility_l.Wire.OpMsg.{read_sections}
use sap_hana_compatibility_l.Wire.OpMsg.{msg_read_from}
use sap_hana_compatibility_l.Types.Document.{must_convert_document}
use sap_hana_compatibility_l.GoStd.{read_until_zero}
use sap_hana_compatibility_l.Bson.Read.{read_document}
use sap_hana_compatibility_l.Bson.Read.{document_read_from}
use sap_hana_compatibility_l.Wire.OpReply.{read_reply_documents}
use sap_hana_compatibility_l.GoStd.{read_le}
use sap_hana_compatibility_l.Wire.OpReply.{reply_read_from}
use sap_hana_compatibility_l.GoStd.Laws.{IsByte}
use sap_hana_compatibility_l.Wire.Total.{read_message_total}
use sap_hana_compatibility_l.Wire.Message.{MsgBody}
use sap_hana_compatibility_l.Types.Document.{convert_document}
use sap_hana_compatibility_l.Types.Fields.{insert}
use sap_hana_compatibility_l.GoStd.{valid_string}
use sap_hana_compatibility_l.Wire.OpMsg.{merge_sections}
use sap_hana_compatibility_l.Prelude.{none, bytes_eq}
use sap_hana_compatibility_l.Prelude.{
  ◌⊎◌, All, Error, false, [], ◌∷◌, ◌++◌, ◌≡◌, refl, arith, codes, Bytes, ok, err, eof,
  unhandled_type,
}
use sap_hana_compatibility_l.GoStd.{le_bytes}
use sap_hana_compatibility_l.Bson.Marshal.{document_marshal_binary}
use sap_hana_compatibility_l.Wire.Header.{MsgHeader, flag_set}
use sap_hana_compatibility_l.Wire.OpMsg.{msg_document, msg_marshal_binary, msg_unmarshal_binary}
use sap_hana_compatibility_l.Wire.OpQuery.{OpQuery, query_marshal_binary, query_unmarshal_binary}
use sap_hana_compatibility_l.Wire.OpReply.{OpReply, reply_marshal_binary, reply_unmarshal_binary}
use sap_hana_compatibility_l.Wire.Message.{read_message}
use sap_hana_compatibility_l.Wire.Lost.{message_of, msg_marshal_binary_lost}
use sap_hana_compatibility_l.Tests.Data.{ping, ping_bytes, stamped, stamped-IsValid}
use sap_hana_compatibility_l.Wire.Written.{reply_marshal-unmarshal, query_marshal-unmarshal}
use sap_hana_compatibility_l.Wire.MsgWritten.{msg_marshal-unmarshal}
use sap_hana_compatibility_l.Types.Value.{empty_document}

stamped-marshal : document_marshal_binary stamped ≡ err unhandled_type
unfolding document_marshal_binary bytes_eq
stamped-marshal = refl

no_flag : flag_set 0 1 ≡ false
unfolding flag_set
no_flag = refl

msg_marshal_binary_lost_example :
    (msg_marshal_binary (message_of 0 stamped) ≡ ok (le_bytes 4 0 ++ 0 ∷ []))
    × (msg_unmarshal_binary (le_bytes 4 0 ++ 0 ∷ []) ≡ err eof)
msg_marshal_binary_lost_example =
    msg_marshal_binary_lost 0 stamped unhandled_type (omega arith) no_flag stamped-IsValid
      stamped-marshal

-- A message that ends too early.
abbrev cut_off : Bytes
cut_off = 113 ∷ 0 ∷ 0 ∷ 0 ∷ 3 ∷ 0 ∷ 0 ∷ 0 ∷ 0 ∷ 0 ∷ 0 ∷ 0 ∷ 221 ∷ 7 ∷ 0 ∷ 0 ∷ 1 ∷ 0 ∷ []

cut_off-IsByte : All IsByte cut_off
cut_off-IsByte = ground arith

read_message_total_example :
    ((p : (MsgHeader × MsgBody) × Bytes) × (read_message cut_off ≡ ok p))
    ⊎ ((e : Error) × (read_message cut_off ≡ err e))
read_message_total_example = read_message_total cut_off cut_off-IsByte

abbrev query_bytes : Bytes
query_bytes = 4 ∷ 0 ∷ 0 ∷ 0 ∷ 116 ∷ 0 ∷ 0 ∷ 0 ∷ 0 ∷ 0 ∷ 1 ∷ 0 ∷ 0 ∷ 0 ∷ 5 ∷ 0 ∷ 0 ∷ 0 ∷ 0 ∷ []

query_bytes-IsByte : All IsByte query_bytes
query_bytes-IsByte = ground arith

abbrev query_read : OpQuery
query_read = record {
  flags = 4;
  full_collection_name = codes "t";
  number_to_skip = 0;
  number_to_return = 1;
  query = empty_document;
  return_fields_selector = none;
}

query_bytes-read : query_unmarshal_binary query_bytes ≡ ok query_read
unfolding query_unmarshal_binary query_read_from read_le cstring_read_from read_until_zero
    document_read_from read_document must_convert_document read_selector
query_bytes-read = refl

query_marshal-unmarshal_example : query_marshal_binary query_read ≡ ok query_bytes
query_marshal-unmarshal_example =
    query_marshal-unmarshal query_bytes query_read query_bytes-IsByte query_bytes-read

abbrev reply_bytes : Bytes
reply_bytes =
    8 ∷ 0 ∷ 0 ∷ 0 ∷ 0 ∷ 0 ∷ 0 ∷ 0 ∷ 0 ∷ 0 ∷ 0 ∷ 0 ∷ 0 ∷ 0 ∷ 0 ∷ 0 ∷ 1 ∷ 0 ∷ 0 ∷ 0 ∷ ping_bytes

reply_bytes-IsByte : All IsByte reply_bytes
reply_bytes-IsByte = ground arith

abbrev reply_read : OpReply
reply_read = record {
  response_flags = 8;
  cursor_id = 0;
  starting_from = 0;
  number_returned = 1;
  documents = ping ∷ [];
}

reply_bytes-read : reply_unmarshal_binary reply_bytes ≡ ok reply_read
unfolding reply_unmarshal_binary reply_read_from read_le read_reply_documents document_read_from
    read_document read_until_zero insert bytes_eq valid_string must_convert_document
reply_bytes-read = refl

reply_marshal-unmarshal_example : reply_marshal_binary reply_read ≡ ok reply_bytes
reply_marshal-unmarshal_example =
    reply_marshal-unmarshal reply_bytes reply_read reply_bytes-IsByte reply_bytes-read

abbrev msg_bytes : Bytes
msg_bytes = 0 ∷ 0 ∷ 0 ∷ 0 ∷ 0 ∷ ping_bytes

msg_bytes-IsByte : All IsByte msg_bytes
msg_bytes-IsByte = ground arith

msg_bytes-read : msg_unmarshal_binary msg_bytes ≡ ok (message_of 0 ping)
unfolding msg_unmarshal_binary msg_read_from read_le read_sections read_byte document_read_from
    read_document read_until_zero insert bytes_eq valid_string convert_document flag_set
    msg_document merge_sections
msg_bytes-read = refl

msg_marshal-unmarshal_example : msg_marshal_binary (message_of 0 ping) ≡ ok msg_bytes
msg_marshal-unmarshal_example =
    msg_marshal-unmarshal msg_bytes (message_of 0 ping) msg_bytes-IsByte msg_bytes-read
