-- ===== src/Wire/Header.antt =====
-- internal/wire/msg_header.go and bits.go: the message header and the operation codes.
use sap_hana_compatibility_l.Prelude.{
  ℕ, ◌++◌, Bool, not, ◌||◌, ltb, ◌==◌, Bytes, Outcome, ok, ◌>>=◌, ◌>>◌, guard, invalid_length, take,
  drop,
}
use sap_hana_compatibility_l.GoStd.{le_bytes, from_le, read_full, is_negative32, bit_and}

abbrev pub op_reply : ℕ
op_reply = 1

abbrev pub op_query : ℕ
op_query = 2004

abbrev pub op_msg : ℕ
op_msg = 2013

abbrev pub msg_header_len : ℕ
msg_header_len = 16

abbrev pub max_msg_len : ℕ
max_msg_len = 48000000

-- Each field is the pattern of an int32.
pub record MsgHeader : Type 0 where
  pub message_length : ℕ
  pub request_id : ℕ
  pub response_to : ℕ
  pub op_code : ℕ

-- `binary.LittleEndian.Uint32(b[i:i+4])`
abbrev pub uint32_at : ℕ → Bytes → ℕ
uint32_at i b = from_le (take 4 (drop i b))

abbrev pub is_message_length : ℕ → Bool
is_message_length l = not (is_negative32 l || ltb l msg_header_len || ltb max_msg_len l)

-- `MsgHeader.readFrom`
unfoldable pub header_read_from : Bytes → Outcome (MsgHeader × Bytes)
header_read_from bs = do
  (b, rest) ← read_full msg_header_len bs
  guard (is_message_length (uint32_at 0 b)) invalid_length
  ok (
    record {
      message_length = uint32_at 0 b;
      request_id = uint32_at 4 b;
      response_to = uint32_at 8 b;
      op_code = uint32_at 12 b;
    },
    rest,
  )

-- `MsgHeader.MarshalBinary`
unfoldable pub header_marshal_binary : MsgHeader → Bytes
header_marshal_binary h =
    le_bytes 4 h.message_length
    ++ (le_bytes 4 h.request_id ++ (le_bytes 4 h.response_to ++ le_bytes 4 h.op_code))

-- `FlagSet`
unfoldable pub flag_set : ℕ → ℕ → Bool
flag_set flags bit = not (bit_and flags bit == 0)
