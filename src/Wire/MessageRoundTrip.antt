-- ===== src/Wire/MessageRoundTrip.antt =====
-- internal/wire/msg_header.go and msg_body.go: what WriteMessage writes, ReadMessage reads back.
use sap_hana_compatibility_l.Prelude.{
  ℕ, ◌+◌, ◌-◌, ◌%◌, ◌^◌, ◌<◌, ◌≤◌, ◌++◌, append_assoc, ◌≡◌, refl, arith, ap, ◌==◌, ==_iff, true,
  Bool-cases, Bytes, length, length-bytes_append, ok, inl, inr,
}
use sap_hana_compatibility_l.GoStd.{le_bytes, read_full, take_exact}
use sap_hana_compatibility_l.GoStd.Laws.{from_le-le_bytes, read_full_exact}
use sap_hana_compatibility_l.Wire.Header.{
  MsgHeader, op_reply, op_msg, op_query, msg_header_len, max_msg_len, is_message_length,
  header_read_from, header_marshal_binary,
}
use sap_hana_compatibility_l.Wire.Message.{
  MsgBody, reply, msg, query, body_of, read_message, body_marshal_binary, write_message,
}
use sap_hana_compatibility_l.Wire.QueryRoundTrip.{SendableQuery, query_unmarshal-marshal}
use sap_hana_compatibility_l.Wire.ReplyRoundTrip.{SendableReply, reply_unmarshal-marshal}
use sap_hana_compatibility_l.Wire.MsgRoundTrip.{SendableMsg, msg_unmarshal-marshal}

-- A header whose fields fit, with a length that a message may have.
pub record ValidHeader (h : MsgHeader) : Type 0 where
  pub long_enough : msg_header_len ≤ h.message_length
  pub short_enough : h.message_length ≤ max_msg_len
  pub request_fits : h.request_id < 2 ^ 32
  pub response_fits : h.response_to < 2 ^ 32
  pub op_code_fits : h.op_code < 2 ^ 32

-- A header with a proper length is read back, and what follows it is left.
pub header_read_from-marshal :
    (h : MsgHeader) (rest : Bytes)
    → ValidHeader h
    → header_read_from (header_marshal_binary h ++ rest) ≡ ok (h, rest)
unfolding header_read_from header_marshal_binary read_full take_exact le_bytes
header_read_from-marshal h rest v =
    let in_range : is_message_length h.message_length ≡ true = ground arith in
    rw (
      from_le-le_bytes 4 h.message_length (omega arith),
      from_le-le_bytes 4 h.request_id v.request_fits,
      from_le-le_bytes 4 h.response_to v.response_fits,
      from_le-le_bytes 4 h.op_code v.op_code_fits,
      in_range,
    )

length-header : (h : MsgHeader) → length (header_marshal_binary h) ≡ 16
unfolding header_marshal_binary le_bytes
length-header h = refl

-- A body that can be sent.
abbrev pub SendableBody : MsgBody → Type 0
SendableBody (reply r) = SendableReply r
SendableBody (msg m) = SendableMsg m
SendableBody (query q) = SendableQuery q

-- The operation code of a body.
abbrev pub op_code_of : MsgBody → ℕ
op_code_of (reply r) = op_reply
op_code_of (msg m) = op_msg
op_code_of (query q) = op_query

body_round_trip :
    (body : MsgBody)
    → SendableBody body
    → (b : Bytes) × (body_marshal_binary body ≡ ok b) × (body_of (op_code_of body) b ≡ ok body)
unfolding body_marshal_binary body_of
body_round_trip (reply r) s =
    let (b, written, read) = reply_unmarshal-marshal r s in (b, written, rw read)
body_round_trip (msg m) s =
    let (b, written, read) = msg_unmarshal-marshal m s in (b, written, rw read)
body_round_trip (query q) s =
    let (b, written, read) = query_unmarshal-marshal q s in (b, written, rw read)

-- What `WriteMessage` writes of a body that can be sent, under a header with the body's operation
-- code and a length that a message may have, `ReadMessage` reads back as the same header and body,
-- and it leaves whatever follows; the bytes written are fewer than 2 ^ 32.
pub read_message-write_message :
    (h : MsgHeader) (body : MsgBody) (bs rest : Bytes)
    → ValidHeader h
    → SendableBody body
    → h.op_code ≡ op_code_of body
    → write_message h body ≡ ok bs
    → length bs < 2 ^ 32
    → read_message (bs ++ rest) ≡ ok ((h, body), rest)
unfolding write_message read_message
read_message-write_message h body bs rest v s code e short =
    let (b, written, read) = body_round_trip body s in
    elim (Bool-cases ((length b + msg_header_len) % 2 ^ 32 == h.message_length)) [
      | inr bad ↦ absurd (ground (arith, written, bad))
      | inl fits ↦
          let shape : bs ≡ header_marshal_binary h ++ b = ground (arith, written, fits) in
          let len : length b ≡ h.message_length - msg_header_len = omega (
            arith,
            length-header h,
            length-bytes_append (header_marshal_binary h) b,
            ap (λ (xs : Bytes). length xs) shape,
            (==_iff _ _).0 fits,
          ) in
          rw (
            shape,
            append_assoc (header_marshal_binary h) b rest,
            header_read_from-marshal h (b ++ rest) v,
            read_full_exact (h.message_length - msg_header_len) b rest len,
            code,
            read,
          )
    ]
