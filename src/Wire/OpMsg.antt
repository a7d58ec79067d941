-- ===== src/Wire/OpMsg.antt =====
-- internal/wire/op_msg.go and op_msg_flags.go: OP_MSG and its sections.
use sap_hana_compatibility_l.Prelude.{
  ℕ, zero, suc, ◌+◌, ◌-◌, ◌%◌, ◌^◌, List, [], ◌∷◌, ◌++◌, not, ◌||◌, none, some, ltb, ◌==◌,
  if◌then◌else◌, Bytes, bytes_eq, length, Outcome, ok, err, panicked, stuck, ◌>>=◌, ◌>>◌, guard,
  invalid_length, bad_kind, bad_section_documents, doc_not_empty, doc_empty, empty_identifier,
  section_key_present, unexpected_end,
}
use sap_hana_compatibility_l.GoStd.{le_bytes, read_le, read_full, read_byte, is_negative32}
use sap_hana_compatibility_l.Types.Value.{
  Value, Items, Document, array, null, nil, cons, to_value, empty_document,
}
use sap_hana_compatibility_l.Types.Fields.{lookup, count, is_some}
use sap_hana_compatibility_l.Types.Validate.{validate_value}
use sap_hana_compatibility_l.Types.Document.{set, convert_document}
use sap_hana_compatibility_l.Bson.Scalar.{cstring_read_from, cstring_marshal_binary}
use sap_hana_compatibility_l.Bson.Marshal.{document_marshal_binary}
use sap_hana_compatibility_l.Bson.Read.{document_read_from}
use sap_hana_compatibility_l.Wire.Header.{flag_set}

abbrev pub op_msg_checksum_present : ℕ
op_msg_checksum_present = 1

pub record OpMsgSection : Type 0 where
  pub kind : ℕ
  pub identifier : Bytes
  pub documents : List Document

pub record OpMsg : Type 0 where
  pub flag_bits : ℕ
  pub checksum : ℕ
  pub sections : List OpMsgSection

-- `doc.Set(k, v)` where its error is dropped.
unfoldable pub set_anyway : Bytes → Value → Document → Document
set_anyway k v doc = elim (set k v doc) [ ok d ↦ d | err e ↦ doc | panicked ↦ doc | stuck ↦ doc ]

-- `m[k]`, with nil for a key that is not there.
unfoldable pub value_or_nil : Bytes → Document → Value
value_or_nil k d = elim (lookup k d.m) [ none ↦ null | some v ↦ v ]

-- The shallow copy of the document of a kind 0 section, key by key.
unfoldable pub copy_keys : List Bytes → Document → Document → Document
unfolding set_anyway value_or_nil
copy_keys [] d doc = doc
copy_keys (k ∷ keys) d doc = copy_keys keys d (set_anyway k (value_or_nil k d) doc)

-- The array that the documents of a kind 1 section are appended to.
unfoldable pub append_documents : List Document → Outcome Items
append_documents [] = ok nil
append_documents (d ∷ ds) = do
  validate_value (to_value d)
  xs ← append_documents ds
  ok (cons (to_value d) xs)

-- The only document of a kind 0 section.
unfoldable pub only_document : List Document → Outcome Document
only_document [] = err bad_section_documents
only_document (d ∷ []) = ok d
only_document (d ∷ e ∷ ds) = err bad_section_documents

-- One round of the loop of `OpMsg.Document`.
unfoldable pub merge_section : Document → OpMsgSection → Outcome Document
unfolding copy_keys append_documents only_document
merge_section doc s =
    if s.kind == 0
    then only_document s.documents
      >>= (λ d. guard (count doc.m == 0) doc_not_empty >> ok (copy_keys d.keys d empty_document))
    else if s.kind == 1
    then guard (not (bytes_eq s.identifier [])) empty_identifier
      >> (guard (not (count doc.m == 0)) doc_empty
          >> (guard (not (is_some (lookup s.identifier doc.m))) section_key_present
              >> (append_documents s.documents
                  >>= (λ a. ok (set_anyway s.identifier (array a) doc)))))
    else err bad_kind

unfoldable pub merge_sections : Document → List OpMsgSection → Outcome Document
unfolding merge_section
merge_sections doc [] = ok doc
merge_sections doc (s ∷ ss) = merge_section doc s >>= (λ d. merge_sections d ss)

-- `OpMsg.Document`
unfoldable pub msg_document : OpMsg → Outcome Document
msg_document msg = merge_sections empty_document msg.sections

-- The loop over the documents of a kind 1 section, until a peek meets the end.
unfoldable pub read_documents : ℕ → Bytes → Outcome (List Document)
read_documents f [] = ok []
read_documents zero (b ∷ bs) = stuck
read_documents (suc f) (b ∷ bs) =
    let more = do
      (doc, rest) ← document_read_from (b ∷ bs)
      d ← convert_document doc
      ds ← read_documents f rest
      ok (d ∷ ds)
    in more

-- One section.
unfoldable pub read_section : Bytes → Outcome (OpMsgSection × Bytes)
unfolding read_documents
read_section bs = do
  (kind, r) ← read_byte bs
  if kind == 0
      then document_read_from r >>= (λ (doc, rest).
        convert_document doc
        >>= (λ d. ok (record { kind = kind; identifier = []; documents = d ∷ [] }, rest)))
      else if kind == 1
      then read_le 4 r >>= (λ (sec_size, r1).
        guard (not (is_negative32 sec_size || ltb sec_size 5)) invalid_length
        >> (read_full (sec_size - 4) r1 >>= (λ (sec, rest). cstring_read_from sec >>= (λ (id, r2).
            read_documents (length r2) r2
            >>= (λ ds. ok (record { kind = kind; identifier = id; documents = ds }, rest))))))
      else err bad_kind

-- The loop over the sections: it ends when fewer bytes are left than a section and, if there is
-- one, the checksum take.
unfoldable pub read_sections : ℕ → ℕ → Bytes → Outcome (List OpMsgSection × Bytes)
unfolding read_section
read_sections zero peek_bytes bs = stuck
read_sections (suc f) peek_bytes bs = do
  (s, rest) ← read_section bs
  let more = read_sections f peek_bytes rest >>= (λ (ss, end). ok (s ∷ ss, end))
  if ltb (length rest) peek_bytes then ok (s ∷ [], rest) else more

abbrev pub peek_bytes_of : ℕ → ℕ
peek_bytes_of flags = if flag_set flags op_msg_checksum_present then 5 else 1

-- `OpMsg.readFrom`; every section takes a byte at least.
unfoldable pub msg_read_from : Bytes → Outcome (OpMsg × Bytes)
msg_read_from bs = do
  (flags, r) ← read_le 4 bs
  (sections, r1) ← read_sections (suc (length r)) (peek_bytes_of flags) r
  (checksum, rest) ← if flag_set flags op_msg_checksum_present then read_le 4 r1 else ok (0, r1)
  let msg : OpMsg = record { flag_bits = flags; checksum = checksum; sections = sections }
  doc ← msg_document msg
  ok (msg, rest)

-- Nothing may follow.
unfoldable pub at_end {ℓ} : {A : Type ℓ} → A × Bytes → Outcome A
at_end (a, []) = ok a
at_end (a, b ∷ bs) = err unexpected_end

-- `OpMsg.UnmarshalBinary`
unfoldable pub msg_unmarshal_binary : Bytes → Outcome OpMsg
unfolding at_end
msg_unmarshal_binary b = msg_read_from b >>= at_end

-- `if d.WriteTo(w); err != nil`: the condition looks at an older error, which is nil, so that a
-- document that cannot be marshalled writes nothing and goes unnoticed.
unfoldable pub write_unchecked : Document → Outcome Bytes
write_unchecked d = elim (document_marshal_binary d) [
  | ok b ↦ ok b
  | err e ↦ ok []
  | panicked ↦ panicked
  | stuck ↦ stuck
]

unfoldable pub write_documents : List Document → Outcome Bytes
unfolding write_unchecked
write_documents [] = ok []
write_documents (doc ∷ docs) = do
  d ← convert_document doc
  b ← write_unchecked d
  more ← write_documents docs
  ok (b ++ more)

-- The document of a kind 0 section, or the panic.
unfoldable pub must_only_document : List Document → Outcome Document
must_only_document [] = panicked
must_only_document (d ∷ []) = ok d
must_only_document (d ∷ e ∷ ds) = panicked

unfoldable pub write_section : OpMsgSection → Outcome Bytes
unfolding write_documents must_only_document write_unchecked
write_section s =
    if s.kind == 0
    then must_only_document s.documents
      >>= (λ doc. convert_document doc >>= (λ d. write_unchecked d >>= (λ b. ok (s.kind ∷ b))))
    else if s.kind == 1
    then write_documents s.documents >>= (λ docs.
      let sec = cstring_marshal_binary s.identifier ++ docs in
      ok (s.kind ∷ (le_bytes 4 ((length sec + 4) % 2 ^ 32) ++ sec)))
    else err bad_kind

unfoldable pub write_sections : List OpMsgSection → Outcome Bytes
unfolding write_section
write_sections [] = ok []
write_sections (s ∷ ss) = write_section s >>= (λ b. write_sections ss >>= (λ more. ok (b ++ more)))

-- `OpMsg.MarshalBinary`
unfoldable pub msg_marshal_binary : OpMsg → Outcome Bytes
unfolding write_sections
msg_marshal_binary msg = do
  sections ← write_sections msg.sections
  let tail = if flag_set msg.flag_bits op_msg_checksum_present then le_bytes 4 msg.checksum else []
  ok (le_bytes 4 msg.flag_bits ++ (sections ++ tail))
