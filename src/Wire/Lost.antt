-- ===== src/Wire/Lost.antt =====
-- internal/wire/op_msg.go: what `OpMsg.MarshalBinary` makes of a document that it cannot write.
use sap_hana_compatibility_l.Prelude.{ℕ, ◌^◌, ◌<◌, [], ◌∷◌, ◌++◌, ◌≡◌, false, Error, eof, ok, err}
use sap_hana_compatibility_l.GoStd.{le_bytes, read_le, read_full, take_exact, end_error, read_byte}
use sap_hana_compatibility_l.GoStd.Laws.{read_le-le_bytes}
use sap_hana_compatibility_l.Types.Value.{Document}
use sap_hana_compatibility_l.Types.Document.{convert_document}
use sap_hana_compatibility_l.Types.Document.Valid.{IsValid, validate-IsValid}
use sap_hana_compatibility_l.Bson.Marshal.{document_marshal_binary}
use sap_hana_compatibility_l.Bson.Read.{document_read_from, read_document}
use sap_hana_compatibility_l.Wire.Header.{flag_set}
use sap_hana_compatibility_l.Wire.OpMsg.{
  OpMsg, op_msg_checksum_present, msg_marshal_binary, msg_unmarshal_binary, msg_read_from,
  write_unchecked, write_section, write_sections, read_sections, read_section,
}

-- A message of one document, as `SetSections` makes it.
abbrev pub message_of : ℕ → Document → OpMsg
message_of flags d = record {
  flag_bits = flags;
  checksum = 0;
  sections = record { kind = 0; identifier = []; documents = d ∷ [] } ∷ [];
}

-- A message without a checksum whose only document is valid, but cannot be marshalled, is marshalled
-- all the same: the document's bytes are missing, and the result cannot be unmarshalled.
pub msg_marshal_binary_lost :
    (flags : ℕ) (d : Document) (e : Error)
    → flags < 2 ^ 32
    → flag_set flags op_msg_checksum_present ≡ false
    → IsValid d
    → document_marshal_binary d ≡ err e
    → (msg_marshal_binary (message_of flags d) ≡ ok (le_bytes 4 flags ++ 0 ∷ []))
      × (msg_unmarshal_binary (le_bytes 4 flags ++ 0 ∷ []) ≡ err eof)
unfolding msg_marshal_binary write_sections write_section write_unchecked convert_document
    msg_unmarshal_binary msg_read_from read_sections read_section read_byte document_read_from
    read_document read_le read_full take_exact end_error
msg_marshal_binary_lost flags d e small no_checksum valid broken =
    let v = (validate-IsValid d).1 valid in
    (rw (v, write_unchecked, broken, no_checksum), rw (read_le-le_bytes 4 flags (0 ∷ []) small))
