-- ===== src/Wire/MsgWritten.antt =====
-- internal/wire/op_msg.go: what UnmarshalBinary accepts, written again.
use sap_hana_compatibility_l.Prelude.{
  ℕ, suc, zero, ◌+◌, ◌-◌, ◌%◌, ◌^◌, ◌<◌, ◌≤◌, List, [], ◌∷◌, ◌++◌, append_assoc, append-nil, ◌≡◌,
  refl, arith, sym, ◌∙◌, true, not, ◌||◌, ltb, ◌==◌, ==_iff, if◌then◌else◌, Bytes, length, lengths,
  length-bytes_append, ok, All, All-back, All-front, Bool-cases, inl, inr, Ensures, holds, failed,
  Ensures-bind, Ensures-map, Ensures-if, Ensures-guard, Ensures-ok, invalid_length,
}
use sap_hana_compatibility_l.GoStd.{le_bytes, is_negative32, read_le, read_full}
use sap_hana_compatibility_l.GoStd.Laws.{IsByte}
use sap_hana_compatibility_l.GoStd.Reads.{read_full-Ensures, read_byte-Ensures}
use sap_hana_compatibility_l.Types.Value.{Document, empty_document}
use sap_hana_compatibility_l.Types.Document.Shape.{convert_document-IsValid}
use sap_hana_compatibility_l.Bson.Scalar.{cstring_marshal_binary}
use sap_hana_compatibility_l.Wire.Header.{flag_set}
use sap_hana_compatibility_l.Wire.OpMsg.{
  OpMsg, OpMsgSection, op_msg_checksum_present, msg_document, read_documents, read_section,
  read_sections, peek_bytes_of, msg_read_from, msg_unmarshal_binary, write_unchecked,
  write_documents, write_section, write_sections, msg_marshal_binary,
}
use sap_hana_compatibility_l.Wire.Total.{merge_sections-Calm}
use sap_hana_compatibility_l.Wire.Written.{
  DocumentBytes, document-Written, read_le-Written, cstring-Written, at_end-Ensures,
}

read_full-Written :
    (n : ℕ) (bs : Bytes)
    → All IsByte bs
    → Ensures
        (λ (b, r). (bs ≡ b ++ r) × (length b ≡ n) × All IsByte b × All IsByte r)
        (read_full n bs)
read_full-Written n bs h =
    Ensures-map
      (λ (b, r) (e, len).
        (e, len, All-front IsByte b r (rw e at h), All-back IsByte b r (rw e at h)))
      (read_full-Ensures n bs)

-- A written document, without the check that is missing.
unchecked :
    {bs : Bytes} {d : Document} {rest : Bytes} (w : DocumentBytes bs d rest)
    → write_unchecked d ≡ ok w.bytes
unfolding write_unchecked
unchecked w = rw (w.marshalled, write_unchecked)

documents-Written :
    (f : ℕ) (bs : Bytes)
    → All IsByte bs
    → length bs ≤ f
    → Ensures (λ ds. write_documents ds ≡ ok bs) (read_documents f bs)
unfolding read_documents write_documents
documents-Written zero [] h le = holds refl
documents-Written (suc f) [] h le = holds refl
documents-Written zero (b ∷ bs) h le = absurd (omega arith)
documents-Written (suc f) (b ∷ bs) h le = Ensures-bind (document-Written (b ∷ bs) h) λ (d, r) w.
    rw (convert_document-IsValid d w.is_valid) (
      Ensures-bind (documents-Written f r w.left (omega (arith, w.fewer))) λ ds written.
        holds (rw (convert_document-IsValid d w.is_valid, unchecked w, written, w.shape)))

-- The bytes of a section that was read, and what is left.
record SectionBytes (bs : Bytes) (s : OpMsgSection) (rest : Bytes) : Type 0 where
  bytes : Bytes
  written : write_section s ≡ ok bytes
  shape : bs ≡ bytes ++ rest
  left : All IsByte rest
  fewer : length rest < length bs

alone-Written :
    (bs r rest : Bytes) (kind : ℕ) (d : Document)
    → bs ≡ kind ∷ r
    → (kind == 0) ≡ true
    → DocumentBytes r d rest
    → SectionBytes bs (record { kind = kind; identifier = []; documents = d ∷ [] }) rest
alone-Written bs r rest kind d p e w = record {
  bytes = kind ∷ w.bytes;
  written = unfold write_section in rw (e, convert_document-IsValid d w.is_valid, unchecked w);
  shape = rw (p, w.shape);
  left = w.left;
  fewer = rw p (omega (arith, w.fewer));
}

sequence-Written :
    (bs r r1 sec r2 rest id : Bytes) (kind size : ℕ) (ds : List Document)
    → bs ≡ kind ∷ r
    → (kind == 1) ≡ true
    → r ≡ le_bytes 4 size ++ r1
    → not (is_negative32 size || ltb size 5) ≡ true
    → r1 ≡ sec ++ rest
    → length sec ≡ size - 4
    → All IsByte rest
    → sec ≡ cstring_marshal_binary id ++ r2
    → write_documents ds ≡ ok r2
    → SectionBytes bs (record { kind = kind; identifier = id; documents = ds }) rest
sequence-Written bs r r1 sec r2 rest id kind size ds p e q in_range q1 len hr q2 written =
    let one : kind ≡ 1 = (==_iff kind 1).0 e in
    let same_size : (length sec + 4) % 2 ^ 32 ≡ size = ground (arith, len) in
    record {
      bytes = kind ∷ (le_bytes 4 size ++ sec);
      written = unfold write_section in rw (one, written, ← q2, same_size);
      shape = rw (p, q, q1, append_assoc);
      left = hr;
      fewer =
          rw (p, q, q1)
            (omega (
              lengths,
              length-bytes_append (le_bytes 4 size) (sec ++ rest),
              length-bytes_append sec rest,
            ));
    }

section-Written :
    (bs : Bytes) → All IsByte bs → Ensures (λ (s, rest). SectionBytes bs s rest) (read_section bs)
unfolding read_section
section-Written bs h = Ensures-bind (read_byte-Ensures bs) λ (kind, r) p.
    let hr : All IsByte r = All-back IsByte (kind ∷ []) r (rw p at h) in
    Ensures-if (kind == 0)
      (λ e. Ensures-bind (document-Written r hr) λ (d, rest) w.
        rw (convert_document-IsValid d w.is_valid) (holds (alone-Written bs r rest kind d p e w)))
      λ _.
        Ensures-if (kind == 1)
          (λ e. Ensures-bind (read_le-Written 4 r hr) λ (size, r1) (q, h1).
            Ensures-bind (Ensures-guard (not (is_negative32 size || ltb size 5)) invalid_length)
              λ _ in_range.
                Ensures-bind (read_full-Written (size - 4) r1 h1)
                  λ (sec, rest) (q1, len, hs, hrest).
                    Ensures-bind (cstring-Written sec hs) λ (id, r2) (q2, h2).
                      Ensures-bind (documents-Written (length r2) r2 h2 (omega arith)) λ ds written.
                        holds (
                          sequence-Written bs r r1 sec r2 rest id kind size ds p e q in_range q1 len
                            hrest q2 written))
          λ _. failed

sections-Written :
    (f peek : ℕ) (bs : Bytes)
    → All IsByte bs
    → length bs < f
    → Ensures
        (λ (ss, rest).
          (b : Bytes) × (write_sections ss ≡ ok b) × (bs ≡ b ++ rest) × All IsByte rest)
        (read_sections f peek bs)
unfolding read_sections write_sections
sections-Written zero peek bs h lt = absurd (omega arith)
sections-Written (suc f) peek bs h lt = Ensures-bind (section-Written bs h) λ (s, rest) w.
    Ensures-if (ltb (length rest) peek)
      (λ _. holds (w.bytes, rw (w.written, append-nil), w.shape, w.left))
      λ _.
        Ensures-bind (sections-Written f peek rest w.left (omega (arith, w.fewer)))
          λ (ss, end) (b, written, shape, left). holds (
            w.bytes ++ b,
            rw (w.written, written),
            w.shape ∙ rw shape (sym (append_assoc w.bytes b end)),
            left,
          )

checksum-Written :
    (flags : ℕ) (bs : Bytes)
    → All IsByte bs
    → Ensures
        (λ (sum, rest).
          bs ≡ (if flag_set flags op_msg_checksum_present then le_bytes 4 sum else []) ++ rest)
        (if flag_set flags op_msg_checksum_present then read_le 4 bs else ok (0, bs))
checksum-Written flags bs h = elim (Bool-cases (flag_set flags op_msg_checksum_present)) [
  | inl e ↦ rw e (Ensures-map (λ (sum, r) p. p.0) (read_le-Written 4 bs h))
  | inr e ↦ rw e (holds refl)
]

msg_read_from-Written :
    (bs : Bytes)
    → All IsByte bs
    → Ensures
        (λ (m, rest). (b : Bytes) × (msg_marshal_binary m ≡ ok b) × (bs ≡ b ++ rest))
        (msg_read_from bs)
unfolding msg_read_from msg_marshal_binary msg_document
msg_read_from-Written bs h = Ensures-bind (read_le-Written 4 bs h) λ (flags, r) (p, hr).
    Ensures-bind (sections-Written (suc (length r)) (peek_bytes_of flags) r hr (omega arith))
      λ (ss, r1) (b, written, q, h1). Ensures-bind (checksum-Written flags r1 h1) λ (sum, rest) q1.
        Ensures-bind (merge_sections-Calm empty_document ss) λ _ _.
          let tail : Bytes =
            if flag_set flags op_msg_checksum_present then le_bytes 4 sum else [] in
          holds (le_bytes 4 flags ++ (b ++ tail), rw written, p ∙ rw (q, q1) (simp append_assoc))

-- An OP_MSG that `UnmarshalBinary` accepts is marshalled to exactly the bytes that were read.
pub msg_marshal-unmarshal :
    (b : Bytes) (m : OpMsg)
    → All IsByte b
    → msg_unmarshal_binary b ≡ ok m
    → msg_marshal_binary m ≡ ok b
unfolding msg_unmarshal_binary
msg_marshal-unmarshal b m h = Ensures-ok {P = λ s. msg_marshal_binary s ≡ ok b} (
    Ensures-bind (msg_read_from-Written b h) λ (s, rest) (bytes, written, shape).
      Ensures-map (λ t e. cc (written, shape, e, append-nil bytes)) (at_end-Ensures (s, rest)))
