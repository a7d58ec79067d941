-- ===== src/Wire/Message.antt =====
-- internal/wire/msg_body.go: whole messages.
use sap_hana_compatibility_l.Prelude.{
  ℕ, ◌+◌, ◌-◌, ◌%◌, ◌^◌, ◌++◌, ◌==◌, if◌then◌else◌, Bytes, length, Outcome, ok, err, panicked,
  ◌>>=◌, unhandled_op_code,
}
use sap_hana_compatibility_l.GoStd.{read_full}
use sap_hana_compatibility_l.Wire.Header.{
  MsgHeader, op_reply, op_msg, op_query, msg_header_len, header_read_from, header_marshal_binary,
}
use sap_hana_compatibility_l.Wire.OpMsg.{OpMsg, msg_unmarshal_binary, msg_marshal_binary}
use sap_hana_compatibility_l.Wire.OpQuery.{OpQuery, query_unmarshal_binary, query_marshal_binary}
use sap_hana_compatibility_l.Wire.OpReply.{OpReply, reply_unmarshal_binary, reply_marshal_binary}

-- The implementations of the interface.
pub data MsgBody : Type 0 where
  reply : OpReply → MsgBody
  msg : OpMsg → MsgBody
  query : OpQuery → MsgBody

-- The switch over the operation codes.
unfoldable pub body_of : ℕ → Bytes → Outcome MsgBody
body_of op_code b =
    if op_code == op_reply
    then reply_unmarshal_binary b >>= (λ r. ok (reply r))
    else if op_code == op_msg
    then msg_unmarshal_binary b >>= (λ m. ok (msg m))
    else if op_code == op_query
    then query_unmarshal_binary b >>= (λ q. ok (query q))
    else err unhandled_op_code

-- `ReadMessage`
unfoldable pub read_message : Bytes → Outcome ((MsgHeader × MsgBody) × Bytes)
unfolding body_of
read_message bs = do
  (header, r) ← header_read_from bs
  (b, rest) ← read_full (header.message_length - msg_header_len) r
  body ← body_of header.op_code b
  ok ((header, body), rest)

-- `MarshalBinary` of the interface.
unfoldable pub body_marshal_binary : MsgBody → Outcome Bytes
body_marshal_binary (reply r) = reply_marshal_binary r
body_marshal_binary (msg m) = msg_marshal_binary m
body_marshal_binary (query q) = query_marshal_binary q

-- `WriteMessage`
unfoldable pub write_message : MsgHeader → MsgBody → Outcome Bytes
unfolding body_marshal_binary
write_message header body = do
  b ← body_marshal_binary body
  if (length b + msg_header_len) % 2 ^ 32 == header.message_length
      then ok (header_marshal_binary header ++ b)
      else panicked
