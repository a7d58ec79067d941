-- ===== src/Wire/ReplyRoundTrip.antt =====
-- internal/wire/op_reply.go: what MarshalBinary writes, UnmarshalBinary reads back.
use sap_hana_compatibility_l.Prelude.{
  ℕ, ◌%◌, ◌^◌, ◌<◌, ◌≤◌, List, [], ◌∷◌, ◌++◌, ◌≡◌, refl, arith, not, ◌||◌, ◌==◌, ==_iff, true, ltb,
  Bytes, length, ok, All,
}
use sap_hana_compatibility_l.GoStd.{le_bytes, is_negative32}
use sap_hana_compatibility_l.GoStd.Laws.{read_le-le_bytes}
use sap_hana_compatibility_l.Types.Value.{Document}
use sap_hana_compatibility_l.Wire.OpReply.{
  OpReply, max_number_returned, read_reply_documents, reply_read_from, reply_unmarshal_binary,
  write_reply_documents, reply_marshal_binary,
}
use sap_hana_compatibility_l.Wire.Sendable.{
  Sendable, Sendable-must_convert, Sendable-must_write, Sendable-read,
}

documents_round_trip :
    (ds : List Document)
    → All Sendable ds
    → (b : Bytes) × (write_reply_documents ds ≡ ok b)
      × (read_reply_documents (length ds) b ≡ ok (ds, []))
unfolding write_reply_documents read_reply_documents
documents_round_trip [] h = ([], refl, refl)
documents_round_trip (d ∷ ds) (s, h) =
    let (b, written, read) = documents_round_trip ds h in
    (
      s.bytes ++ b,
      rw (Sendable-must_write d s, written),
      rw (Sendable-read d s b, Sendable-must_convert d s, read),
    )

-- A reply whose fields fit their widths, with at most a thousand documents that can be sent, and
-- their right number.
pub record SendableReply (r : OpReply) : Type 0 where
  pub flags_fit : r.response_flags < 2 ^ 32
  pub cursor_fits : r.cursor_id < 2 ^ 64
  pub from_fits : r.starting_from < 2 ^ 32
  pub counted : r.number_returned ≡ length r.documents
  pub few : length r.documents ≤ max_number_returned
  pub documents_fit : All Sendable r.documents

-- A reply that can be sent is marshalled, and `UnmarshalBinary` gives the same reply back.
pub reply_unmarshal-marshal :
    (r : OpReply)
    → SendableReply r
    → (b : Bytes) × (reply_marshal_binary r ≡ ok b) × (reply_unmarshal_binary b ≡ ok r)
unfolding reply_marshal_binary reply_unmarshal_binary reply_read_from
reply_unmarshal-marshal r h =
    let (docs, written, read) = documents_round_trip r.documents h.documents_fit in
    let n : ℕ = r.number_returned in
    let one : Bytes = le_bytes 4 n ++ docs in
    let two : Bytes = le_bytes 4 r.starting_from ++ one in
    let three : Bytes = le_bytes 8 r.cursor_id ++ two in
    let same : (length r.documents % 2 ^ 32 == n) ≡ true =
      (==_iff _ _).1 (omega (arith, h.counted, h.few)) in
    let in_range : not (is_negative32 n || ltb max_number_returned n) ≡ true =
      ground (arith, h.counted, h.few) in
    let all : read_reply_documents n docs ≡ ok (r.documents, []) = rw h.counted read in
    (
      le_bytes 4 r.response_flags ++ three,
      rw (same, written),
      rw (
        read_le-le_bytes 4 r.response_flags three h.flags_fit,
        read_le-le_bytes 8 r.cursor_id two h.cursor_fits,
        read_le-le_bytes 4 r.starting_from one h.from_fits,
        read_le-le_bytes 4 n docs (omega (arith, h.counted, h.few)),
        in_range,
        all,
      ),
    )
