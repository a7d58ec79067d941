-- ===== src/Wire/Sections.antt =====
-- internal/wire/op_msg.go: one section, written and read back.
use sap_hana_compatibility_l.Prelude.{
  ℕ, suc, zero, ◌+◌, ◌-◌, ◌%◌, ◌^◌, ◌<◌, ◌≤◌, List, [], ◌∷◌, ◌++◌, append_assoc, ◌≡◌, refl, arith,
  not, ◌||◌, true, ltb, Bytes, length, lengths, length-bytes_append, ok, ◌>>=◌, All,
}
use sap_hana_compatibility_l.GoStd.{le_bytes, is_negative32, read_byte}
use sap_hana_compatibility_l.GoStd.Laws.{NoZero, read_le-le_bytes, read_full_exact}
use sap_hana_compatibility_l.Types.Value.{Document}
use sap_hana_compatibility_l.Types.Document.{convert_document}
use sap_hana_compatibility_l.Bson.Scalar.{cstring_marshal_binary}
use sap_hana_compatibility_l.Bson.ScalarLaws.{cstring_read_from-marshal}
use sap_hana_compatibility_l.Bson.Read.{document_read_from}
use sap_hana_compatibility_l.Wire.OpMsg.{
  OpMsgSection, read_documents, read_section, write_documents, write_section,
}
use sap_hana_compatibility_l.Wire.Sendable.{
  Sendable, Sendable-convert, Sendable-write_unchecked, Sendable-read, Sendable_pos,
}

-- The bytes of the documents, one after the other.
abbrev pub all_bytes : (ds : List Document) → All Sendable ds → Bytes
all_bytes [] h = []
all_bytes (d ∷ ds) h = h.0.bytes ++ all_bytes ds h.1

-- A section that can be sent: a document alone, or a sequence of documents under an identifier that
-- fits the section's length field.
pub data SendableSection : OpMsgSection → Type 0 where
  alone :
      (d : Document)
      → Sendable d
      → SendableSection (record { kind = 0; identifier = []; documents = d ∷ [] })
  sequence :
      (id : Bytes) (ds : List Document) (h : All Sendable ds)
      → NoZero id
      → length id + length (all_bytes ds h) + 5 < 2 ^ 31
      → SendableSection (record { kind = 1; identifier = id; documents = ds })

write_documents_lem :
    (ds : List Document) (h : All Sendable ds) → write_documents ds ≡ ok (all_bytes ds h)
unfolding write_documents
write_documents_lem [] h = refl
write_documents_lem (d ∷ ds) (s, h) =
    rw (Sendable-convert d s, Sendable-write_unchecked d s, write_documents_lem ds h)

read_documents-cons :
    (f : ℕ) (bs : Bytes)
    → 0 < length bs
    → read_documents (suc f) bs ≡ (
        document_read_from bs >>= (λ (doc, rest).
          convert_document doc >>= (λ d. read_documents f rest >>= (λ ds. ok (d ∷ ds)))))
unfolding read_documents
read_documents-cons f [] h = absurd (omega arith)
read_documents-cons f (b ∷ bs) h = refl

read_documents_lem :
    (ds : List Document) (h : All Sendable ds) (f : ℕ)
    → length (all_bytes ds h) ≤ f
    → read_documents f (all_bytes ds h) ≡ ok ds
read_documents_lem [] h zero le = unfold read_documents in refl
read_documents_lem [] h (suc f) le = unfold read_documents in refl
read_documents_lem (d ∷ ds) (s, h) zero le =
    absurd (omega (arith, Sendable_pos d s, length-bytes_append s.bytes (all_bytes ds h)))
read_documents_lem (d ∷ ds) (s, h) (suc f) le =
    let pos = Sendable_pos d s in
    let len = length-bytes_append s.bytes (all_bytes ds h) in
    rw (
      read_documents-cons f (s.bytes ++ all_bytes ds h) (omega arith),
      Sendable-read d s (all_bytes ds h),
      Sendable-convert d s,
      read_documents_lem ds h f (omega arith),
    )

-- The bytes of a section that can be sent: there is one at least, and they are read back.
pub section_round_trip :
    (s : OpMsgSection)
    → SendableSection s
    → (b : Bytes) × (write_section s ≡ ok b)
      × (0 < length b)
      × ((rest : Bytes) → read_section (b ++ rest) ≡ ok (s, rest))
unfolding write_section read_section read_byte
section_round_trip s (alone d h) = (
  0 ∷ h.bytes,
  rw (Sendable-convert d h, Sendable-write_unchecked d h),
  omega arith,
  λ rest. rw (Sendable-read d h rest, Sendable-convert d h),
)
section_round_trip s (sequence id ds h nz fits) =
    let docs : Bytes = all_bytes ds h in
    let sec : Bytes = cstring_marshal_binary id ++ docs in
    let l : ℕ = (length sec + 4) % 2 ^ 32 in
    let len : length sec ≡ length id + length docs + 1 =
      unfold cstring_marshal_binary in
      omega (lengths, length-bytes_append (id ++ 0 ∷ []) docs, length-bytes_append id (0 ∷ [])) in
    let in_range : not (is_negative32 l || ltb l 5) ≡ true = ground arith in
    let size : length sec ≡ l - 4 = omega arith in
    (
      1 ∷ (le_bytes 4 l ++ sec),
      rw (write_documents_lem ds h),
      omega arith,
      λ rest. rw (
        append_assoc (le_bytes 4 l) sec rest,
        read_le-le_bytes 4 l (sec ++ rest) (omega arith),
        in_range,
        read_full_exact (l - 4) sec rest size,
        cstring_read_from-marshal id docs nz,
        read_documents_lem ds h (length docs) (omega arith),
      ),
    )
