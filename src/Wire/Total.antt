-- ===== src/Wire/Total.antt =====
-- internal/wire: reading messages from any bytes.
use sap_hana_compatibility_l.Prelude.{
  invalid_length, invalid_number_returned, doc_not_empty, empty_identifier, doc_empty,
  section_key_present, ℕ, suc, zero, ◌-◌, ◌<◌, ◌≤◌, List, [], ◌∷◌, ◌≡◌, ◌⊎◌, arith, not, ◌||◌, ◌==◌,
  ltb, Bytes, bytes_eq, length, Error, ok, err, All, Ensures, holds, failed, Ensures-bind,
  Ensures-map, Ensures-if, Ensures-guard, Ensures-cases, inl, inr,
}
use sap_hana_compatibility_l.GoStd.{is_negative32}
use sap_hana_compatibility_l.Types.Fields.{count, lookup, is_some}
use sap_hana_compatibility_l.GoStd.Laws.{IsByte}
use sap_hana_compatibility_l.Types.Value.{Document, to_value, empty_document}
use sap_hana_compatibility_l.Types.Document.Shape.{
  convert_document-IsValid, must_convert_document-IsValid,
}
use sap_hana_compatibility_l.Bson.Calm.{Calm, validate_value-Calm}
use sap_hana_compatibility_l.Bson.Sound.{document_read_from-Ensures}
use sap_hana_compatibility_l.Wire.Header.{
  MsgHeader, op_reply, op_msg, op_query, is_message_length, uint32_at, header_read_from,
  msg_header_len, flag_set,
}
use sap_hana_compatibility_l.Wire.OpMsg.{
  OpMsgSection, op_msg_checksum_present, append_documents, only_document, merge_section,
  merge_sections, msg_document, read_documents, read_section, read_sections, peek_bytes_of,
  msg_read_from, at_end, msg_unmarshal_binary,
}
use sap_hana_compatibility_l.Wire.OpQuery.{read_selector, query_read_from, query_unmarshal_binary}
use sap_hana_compatibility_l.Wire.OpReply.{
  max_number_returned, read_reply_documents, reply_read_from, reply_unmarshal_binary,
}
use sap_hana_compatibility_l.Wire.Message.{MsgBody, body_of, read_message}
use sap_hana_compatibility_l.Wire.Left.{
  Left, read_le-Left, read_byte-Left, read_full-Left, cstring-Left,
}

at_end-Calm {ℓ} : {A : Type ℓ} (p : A × Bytes) → Calm (at_end p)
unfolding at_end
at_end-Calm (a, []) = holds tt
at_end-Calm (a, b ∷ bs) = failed

-- OP_REPLY
read_reply_documents-Calm : (n : ℕ) (bs : Bytes) → All IsByte bs → Calm (read_reply_documents n bs)
unfolding read_reply_documents
read_reply_documents-Calm zero bs h = holds tt
read_reply_documents-Calm (suc n) bs h =
    Ensures-bind (document_read_from-Ensures bs h) λ (d, r) (v, hr, _).
      rw (must_convert_document-IsValid d v)
        (Ensures-bind (read_reply_documents-Calm n r hr) λ _ _. holds tt)

reply_unmarshal_binary-Calm : (bs : Bytes) → All IsByte bs → Calm (reply_unmarshal_binary bs)
unfolding reply_unmarshal_binary reply_read_from
reply_unmarshal_binary-Calm bs h =
    Ensures-bind {P = λ _. Unit {0}}
      (Ensures-bind (read_le-Left bs h 4) λ (flags, r1) l1.
        Ensures-bind (read_le-Left r1 l1.are_bytes 8) λ (cursor, r2) l2.
          Ensures-bind (read_le-Left r2 l2.are_bytes 4) λ (from, r3) l3.
            Ensures-bind (read_le-Left r3 l3.are_bytes 4) λ (n, r4) l4.
              Ensures-bind
                (Ensures-guard (not (is_negative32 n || ltb max_number_returned n))
                  invalid_number_returned)
                λ _ _. Ensures-bind (read_reply_documents-Calm n r4 l4.are_bytes) λ _ _. holds tt)
      λ p _. at_end-Calm p

-- OP_QUERY
read_selector-Calm : (bs : Bytes) → All IsByte bs → Calm (read_selector bs)
unfolding read_selector
read_selector-Calm [] h = holds tt
read_selector-Calm (b ∷ bs) h =
    Ensures-bind (document_read_from-Ensures (b ∷ bs) h)
      λ (d, r) (v, _, _). rw (must_convert_document-IsValid d v) (holds tt)

query_unmarshal_binary-Calm : (bs : Bytes) → All IsByte bs → Calm (query_unmarshal_binary bs)
unfolding query_unmarshal_binary query_read_from
query_unmarshal_binary-Calm bs h =
    Ensures-bind {P = λ _. Unit {0}}
      (Ensures-bind (read_le-Left bs h 4) λ (flags, r1) l1.
        Ensures-bind (cstring-Left r1 l1.are_bytes) λ (col, r2) l2.
          Ensures-bind (read_le-Left r2 l2.are_bytes 4) λ (skip, r3) l3.
            Ensures-bind (read_le-Left r3 l3.are_bytes 4) λ (n, r4) l4.
              Ensures-bind (document_read_from-Ensures r4 l4.are_bytes) λ (d, r5) (v, h5, _).
                rw (must_convert_document-IsValid d v)
                  (Ensures-bind (read_selector-Calm r5 h5) λ _ _. holds tt))
      λ p _. at_end-Calm p

-- OP_MSG
append_documents-Calm : (ds : List Document) → Calm (append_documents ds)
unfolding append_documents
append_documents-Calm [] = holds tt
append_documents-Calm (d ∷ ds) =
    Ensures-bind (validate_value-Calm (to_value d))
      λ _ _. Ensures-bind (append_documents-Calm ds) λ _ _. holds tt

only_document-Calm : (ds : List Document) → Calm (only_document ds)
unfolding only_document
only_document-Calm [] = failed
only_document-Calm (d ∷ []) = holds tt
only_document-Calm (d ∷ e ∷ ds) = failed

merge_section-Calm : (doc : Document) (s : OpMsgSection) → Calm (merge_section doc s)
unfolding merge_section
merge_section-Calm doc s =
    Ensures-if (s.kind == 0)
      (λ _.
        Ensures-bind (only_document-Calm s.documents)
          λ _ _. Ensures-bind (Ensures-guard (count doc.m == 0) doc_not_empty) λ _ _. holds tt)
      λ _.
        Ensures-if (s.kind == 1)
          (λ _.
            Ensures-bind (Ensures-guard (not (bytes_eq s.identifier [])) empty_identifier) λ _ _.
              Ensures-bind (Ensures-guard (not (count doc.m == 0)) doc_empty) λ _ _.
                Ensures-bind
                  (Ensures-guard (not (is_some (lookup s.identifier doc.m))) section_key_present)
                  λ _ _. Ensures-bind (append_documents-Calm s.documents) λ _ _. holds tt)
          λ _. failed

pub merge_sections-Calm : (doc : Document) (ss : List OpMsgSection) → Calm (merge_sections doc ss)
unfolding merge_sections
merge_sections-Calm doc [] = holds tt
merge_sections-Calm doc (s ∷ ss) =
    Ensures-bind (merge_section-Calm doc s) λ d _. merge_sections-Calm d ss

read_documents-Calm :
    (f : ℕ) (bs : Bytes) → All IsByte bs → length bs ≤ f → Calm (read_documents f bs)
unfolding read_documents
read_documents-Calm zero [] h le = holds tt
read_documents-Calm (suc f) [] h le = holds tt
read_documents-Calm zero (b ∷ bs) h le = absurd (omega arith)
read_documents-Calm (suc f) (b ∷ bs) h le =
    Ensures-bind (document_read_from-Ensures (b ∷ bs) h) λ (d, r) (v, hr, lt).
      rw (convert_document-IsValid d v)
        (Ensures-bind (read_documents-Calm f r hr (omega arith)) λ _ _. holds tt)

read_section-Left :
    (bs : Bytes) → All IsByte bs → Ensures (λ (s, rest). Left 1 bs rest) (read_section bs)
unfolding read_section
read_section-Left bs h = Ensures-bind (read_byte-Left bs h) λ (kind, r) l.
    Ensures-if (kind == 0)
      (λ _. Ensures-bind (document_read_from-Ensures r l.are_bytes) λ (d, rest) (v, hr, lt).
        rw (convert_document-IsValid d v)
          (holds (record { are_bytes = hr; fewer = omega (arith, l.fewer) })))
      λ _.
        Ensures-if (kind == 1)
          (λ _. Ensures-bind (read_le-Left r l.are_bytes 4) λ (size, r1) l1.
            Ensures-bind (Ensures-guard (not (is_negative32 size || ltb size 5)) invalid_length)
              λ _ _.
                Ensures-bind (read_full-Left r1 l1.are_bytes (size - 4)) λ (sec, rest) (hs, _, l2).
                  Ensures-bind (cstring-Left sec hs) λ (id, r2) l3.
                    Ensures-bind (read_documents-Calm (length r2) r2 l3.are_bytes (omega arith))
                      λ _ _. holds (record {
                        are_bytes = l2.are_bytes;
                        fewer = omega (arith, l.fewer, l1.fewer, l2.fewer);
                      }))
          λ _. failed

read_sections-Left :
    (f peek : ℕ) (bs : Bytes)
    → All IsByte bs
    → length bs < f
    → Ensures (λ (ss, rest). All IsByte rest) (read_sections f peek bs)
unfolding read_sections
read_sections-Left zero peek bs h lt = absurd (omega arith)
read_sections-Left (suc f) peek bs h lt = Ensures-bind (read_section-Left bs h) λ (s, rest) l.
    Ensures-if (ltb (length rest) peek) (λ _. holds l.are_bytes)
      λ _.
        Ensures-bind (read_sections-Left f peek rest l.are_bytes (omega (arith, l.fewer)))
          λ (ss, end) he. holds he

msg_unmarshal_binary-Calm : (bs : Bytes) → All IsByte bs → Calm (msg_unmarshal_binary bs)
unfolding msg_unmarshal_binary msg_read_from msg_document
msg_unmarshal_binary-Calm bs h =
    Ensures-bind {P = λ _. Unit {0}}
      (Ensures-bind (read_le-Left bs h 4) λ (flags, r) l.
        Ensures-bind
          (read_sections-Left (suc (length r)) (peek_bytes_of flags) r l.are_bytes (omega arith))
          λ (ss, r1) h1.
            Ensures-bind {P = λ _. Unit {0}}
              (Ensures-if (flag_set flags op_msg_checksum_present)
                (λ _. Ensures-map (λ _ _. tt) (read_le-Left r1 h1 4)) λ _. holds tt)
              λ (sum, r2) _. Ensures-bind (merge_sections-Calm empty_document ss) λ _ _. holds tt)
      λ p _. at_end-Calm p

body_of-Calm : (op_code : ℕ) (bs : Bytes) → All IsByte bs → Calm (body_of op_code bs)
unfolding body_of
body_of-Calm op_code bs h =
    Ensures-if (op_code == op_reply)
      (λ _. Ensures-bind (reply_unmarshal_binary-Calm bs h) λ _ _. holds tt)
      λ _.
        Ensures-if (op_code == op_msg)
          (λ _. Ensures-bind (msg_unmarshal_binary-Calm bs h) λ _ _. holds tt)
          λ _.
            Ensures-if (op_code == op_query)
              (λ _. Ensures-bind (query_unmarshal_binary-Calm bs h) λ _ _. holds tt) λ _. failed

header_read_from-Left :
    (bs : Bytes) → All IsByte bs → Ensures (λ (header, rest). All IsByte rest) (header_read_from bs)
unfolding header_read_from
header_read_from-Left bs h =
    Ensures-bind (read_full-Left bs h msg_header_len) λ (b, rest) (_, _, l).
      Ensures-bind (Ensures-guard (is_message_length (uint32_at 0 b)) invalid_length)
        λ _ _. holds l.are_bytes

read_message-Calm : (bs : Bytes) → All IsByte bs → Calm (read_message bs)
unfolding read_message
read_message-Calm bs h = Ensures-bind (header_read_from-Left bs h) λ (header, r) hr.
    Ensures-bind (read_full-Left r hr (header.message_length - msg_header_len))
      λ (b, rest) (hb, _, _). Ensures-bind (body_of-Calm header.op_code b hb) λ _ _. holds tt

-- On any bytes `ReadMessage` returns a message and the bytes behind it, or an error: no message of a
-- client makes it panic, not by a document that `MustConvertDocument` would refuse either, and the
-- model's fuel never runs out.
pub read_message_total :
    (bs : Bytes)
    → All IsByte bs
    → ((p : (MsgHeader × MsgBody) × Bytes) × (read_message bs ≡ ok p))
      ⊎ ((e : Error) × (read_message bs ≡ err e))
read_message_total bs h = elim (Ensures-cases (read_message-Calm bs h)) [
  | inl (p, e, _) ↦ inl (p, e)
  | inr q ↦ inr q
]
