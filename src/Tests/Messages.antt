-- ===== src/Tests/Messages.antt =====
-- The theorems on the wire protocol, at small messages.

use sap_hana_compatibility_l.Bson.Scalar.{string_marshal_binary}
use sap_hana_compatibility_l.Bson.Scalar.{int32_marshal_binary}
use sap_hana_compatibility_l.Bson.Scalar.{cstring_marshal_binary}
use sap_hana_compatibility_l.Types.Document.{convert_document}
use sap_hana_compatibility_l.Types.Fields.{insert}
use sap_hana_compatibility_l.Types.Validate.{validate_value}
use sap_hana_compatibility_l.GoStd.{valid_string}
use sap_hana_compatibility_l.Types.Validate.{is_valid_key}
use sap_hana_compatibility_l.Types.Document.{set}
use sap_hana_compatibility_l.Types.Fields.{count}
use sap_hana_compatibility_l.Wire.OpMsg.{merge_sections}
use sap_hana_compatibility_l.Prelude.{bytes_eq}
use sap_hana_compatibility_l.Types.Fields.{lookup}
use sap_hana_compatibility_l.Prelude.{[], ◌∷◌, ◌++◌, ◌≡◌, some, refl, arith, codes, Bytes, ok}
use sap_hana_compatibility_l.GoStd.{le_bytes}
use sap_hana_compatibility_l.Types.Value.{Document, to_value}
use sap_hana_compatibility_l.Bson.Fits.{Fits}
use sap_hana_compatibility_l.Bson.Canon.{canon_document}
use sap_hana_compatibility_l.Bson.Marshal.{document_marshal_binary}
use sap_hana_compatibility_l.Wire.Header.{
  MsgHeader, header_read_from, header_marshal_binary, flag_set, op_msg,
}
use sap_hana_compatibility_l.Wire.OpMsg.{
  OpMsg, OpMsgSection, msg_document, msg_marshal_binary, msg_unmarshal_binary,
}
use sap_hana_compatibility_l.Wire.OpQuery.{OpQuery, query_marshal_binary, query_unmarshal_binary}
use sap_hana_compatibility_l.Wire.OpReply.{OpReply, reply_marshal_binary, reply_unmarshal_binary}
use sap_hana_compatibility_l.Wire.Message.{msg, read_message, write_message}
use sap_hana_compatibility_l.Wire.Sendable.{Sendable}
use sap_hana_compatibility_l.Wire.Sections.{SendableSection, alone, sequence}
use sap_hana_compatibility_l.Wire.QueryRoundTrip.{SendableQuery, query_unmarshal-marshal}
use sap_hana_compatibility_l.Wire.ReplyRoundTrip.{SendableReply, reply_unmarshal-marshal}
use sap_hana_compatibility_l.Wire.MsgRoundTrip.{SendableMsg, msg_unmarshal-marshal}
use sap_hana_compatibility_l.Wire.MessageRoundTrip.{
  ValidHeader, header_read_from-marshal, read_message-write_message,
}
use sap_hana_compatibility_l.Tests.Data.{ping, ping_bytes, ping-IsValid, ping-marshal}

ping-Fits : Fits (to_value ping)
unfolding Fits
ping-Fits = ground arith

ping-canonical : canon_document ping ≡ ping
unfolding canon_document lookup bytes_eq
ping-canonical = refl

ping-Sendable : Sendable ping
ping-Sendable = record {
  bytes = ping_bytes;
  marshalled = ping-marshal;
  is_valid = ping-IsValid;
  fits = ping-Fits;
  canonical = ping-canonical;
  not_too_long = omega arith;
}

abbrev a_query : OpQuery
a_query = record {
  flags = 4;
  full_collection_name = codes "t.c";
  number_to_skip = 0;
  number_to_return = 1;
  query = ping;
  return_fields_selector = some ping;
}

a_query-Sendable : SendableQuery a_query
a_query-Sendable = record {
  flags_fit = omega arith;
  name_fits = ground arith;
  skip_fits = omega arith;
  return_fits = omega arith;
  query_fits = ping-Sendable;
  selector_fits = ping-Sendable;
}

query_unmarshal-marshal_example :
    (b : Bytes) × (query_marshal_binary a_query ≡ ok b) × (query_unmarshal_binary b ≡ ok a_query)
query_unmarshal-marshal_example = query_unmarshal-marshal a_query a_query-Sendable

abbrev a_reply : OpReply
a_reply = record {
  response_flags = 8;
  cursor_id = 0;
  starting_from = 0;
  number_returned = 2;
  documents = ping ∷ ping ∷ [];
}

a_reply-Sendable : SendableReply a_reply
a_reply-Sendable = record {
  flags_fit = omega arith;
  cursor_fits = omega arith;
  from_fits = omega arith;
  counted = refl;
  few = omega arith;
  documents_fit = (ping-Sendable, (ping-Sendable, tt));
}

reply_unmarshal-marshal_example :
    (b : Bytes) × (reply_marshal_binary a_reply ≡ ok b) × (reply_unmarshal_binary b ≡ ok a_reply)
reply_unmarshal-marshal_example = reply_unmarshal-marshal a_reply a_reply-Sendable

abbrev first_section : OpMsgSection
first_section = record { kind = 0; identifier = []; documents = ping ∷ [] }

abbrev second_section : OpMsgSection
second_section = record { kind = 1; identifier = codes "docs"; documents = ping ∷ ping ∷ [] }

-- A message with a checksum.
abbrev a_msg : OpMsg
a_msg = record { flag_bits = 1; checksum = 7; sections = first_section ∷ second_section ∷ [] }

second_section-Sendable : SendableSection second_section
unfolding ping-Sendable
second_section-Sendable =
    sequence (codes "docs") (ping ∷ ping ∷ []) (ping-Sendable, (ping-Sendable, tt)) (ground arith)
      (omega arith)

a_msg-merges : (d : Document) × (msg_document a_msg ≡ ok d)
unfolding msg_document merge_sections count bytes_eq set is_valid_key valid_string validate_value
    lookup insert
a_msg-merges = (_, refl)

a_msg-Sendable : SendableMsg a_msg
unfolding flag_set
a_msg-Sendable = record {
  flags_fit = omega arith;
  checksum_fits = omega arith;
  no_checksum = λ h. cc;
  first = first_section;
  others = second_section ∷ [];
  all_sections = refl;
  first_fits = alone ping ping-Sendable;
  others_fit = (second_section-Sendable, tt);
  merged = a_msg-merges.0;
  merges = a_msg-merges.1;
}

msg_unmarshal-marshal_example :
    (b : Bytes) × (msg_marshal_binary a_msg ≡ ok b) × (msg_unmarshal_binary b ≡ ok a_msg)
msg_unmarshal-marshal_example = msg_unmarshal-marshal a_msg a_msg-Sendable

abbrev a_header : MsgHeader
a_header = record { message_length = 113; request_id = 3; response_to = 0; op_code = op_msg }

a_header-IsValid : ValidHeader a_header
a_header-IsValid = record {
  long_enough = omega arith;
  short_enough = omega arith;
  request_fits = omega arith;
  response_fits = omega arith;
  op_code_fits = omega arith;
}

header_read_from-marshal_example :
    header_read_from (header_marshal_binary a_header ++ 9 ∷ []) ≡ ok (a_header, 9 ∷ [])
header_read_from-marshal_example = header_read_from-marshal a_header (9 ∷ []) a_header-IsValid

abbrev a_message : Bytes
a_message =
    113
    ∷ 0
    ∷ 0
    ∷ 0
    ∷ 3
    ∷ 0
    ∷ 0
    ∷ 0
    ∷ 0
    ∷ 0
    ∷ 0
    ∷ 0
    ∷ 221
    ∷ 7
    ∷ 0
    ∷ 0
    ∷ 1
    ∷ 0
    ∷ 0
    ∷ 0
    ∷ 0
    ∷ (ping_bytes
        ++ 1
          ∷ 61
          ∷ 0
          ∷ 0
          ∷ 0
          ∷ (codes "docs" ++ 0 ∷ (ping_bytes ++ (ping_bytes ++ 7 ∷ 0 ∷ 0 ∷ 0 ∷ []))))

a_message-written : write_message a_header (msg a_msg) ≡ ok a_message
unfolding write_message msg_marshal_binary convert_document valid_string bytes_eq
    document_marshal_binary le_bytes cstring_marshal_binary int32_marshal_binary
    string_marshal_binary flag_set header_marshal_binary
a_message-written = refl

read_message-write_message_example :
    read_message (a_message ++ 9 ∷ []) ≡ ok ((a_header, msg a_msg), 9 ∷ [])
read_message-write_message_example =
    read_message-write_message a_header (msg a_msg) a_message (9 ∷ []) a_header-IsValid
      a_msg-Sendable refl a_message-written (omega arith)
